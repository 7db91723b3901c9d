-- ===== src/Candidates/Projector.antt =====
-- candidates/projector.py: a candidate as the active decisions show it. The current observations are
-- the rows of `authoritative_current_observations`, by source object; a member's row is its reason and
-- its `context_only`.
pub mod Fold
pub mod View
pub mod Support
pub mod Undone
use work_trace.Prelude.{
  ℕ, ltb, ◌=?◌, String, Bool, true, false, not, ◌||◌, ◌&&◌, Option, none, some, is_some, List, [],
  ◌∷◌, ◌++◌, map, if◌then◌else◌, keep_if,
}
use work_trace.Prelude.Texts.{◌==◌, elem, add, update, sorted, lookup, put}
use work_trace.Prelude.Order.{text_lt}
use work_trace.Errors.{Result, ok, err, not_found}
use work_trace.Json.{Json, null, str, arr, Items, nil, cons, Fields, get, has_key, as_text, texts}
use work_trace.Decisions.Ledger.{Ledger, Decision, is_creation}
use work_trace.Decisions.Compensation.{active_decisions}
use work_trace.Decisions.Scope.{creation_decision_scope_app}
use work_trace.Decisions.Context.{Context, for_target}
use work_trace.Candidates.Objects.{seed_priority, suggest_contribution_type}

pub record Group : Type 0 where
  pub id : String
  pub app_id : String
  pub seed_object_id : String
  pub status : String

pub record Member : Type 0 where
  pub reason : String
  pub context_only : Bool

-- A row of candidate_members.
pub record MemberRow : Type 0 where
  pub candidate_id : String
  pub source_object_id : String
  pub member : Member

pub record Current : Type 0 where
  pub source : String
  pub kind : String
  pub external_id : String
  pub title : String

-- The tables that a projection reads, with the ledger: the app of an object or a candidate is there.
pub record Store : Type 0 where
  pub groups : List Group
  pub candidate_members : List MemberRow
  -- the current observations, by source object
  pub current : List (String × Current)

-- id and app_id of each row
abbrev pub Apps : Type 0
Apps = List (String × String)

abbrev pub MemberMap : Type 0
MemberMap = List (String × Member)

-- `members.pop(key, None)`
unfoldable pub remove : String → MemberMap → MemberMap
remove k [] = []
remove k ((j, m) ∷ ms) = if j == k then remove k ms else (j, m) ∷ remove k ms

unfoldable pub find_group : String → List Group → Option Group
find_group id [] = none
find_group id (g ∷ gs) = if g.id == id then some g else find_group id gs

-- `SELECT 1 FROM table WHERE id=? AND app_id=?`
unfoldable pub owned : Apps → String → String → Bool
owned apps app_id id = elim (lookup id apps) [ some app ↦ app == app_id | none ↦ false ]

-- The members that the rebuild stored: `members[id] = row` for each row of the candidate.
unfoldable pub stored_members : Apps → String → String → List MemberRow → MemberMap → MemberMap
stored_members objects app_id candidate_id [] members = members
stored_members objects app_id candidate_id (row ∷ rows) members =
    stored_members objects app_id candidate_id rows (
      if (row.candidate_id == candidate_id) && owned objects app_id row.source_object_id
      then put row.source_object_id row.member members
      else members)

-- `str(payload.get(key, ""))`
unfoldable pub text_of : (Json → String) → Json → String
text_of str_of (str s) = s
text_of str_of value = str_of value

unfoldable pub text_in : (Json → String) → String → Fields → String
unfolding text_of
text_in str_of key payload = if has_key key payload then text_of str_of (get key payload) else ""

unfoldable pub item_ids : (Json → String) → Items → List String
unfolding text_of
item_ids str_of nil = []
item_ids str_of (cons v vs) = text_of str_of v ∷ item_ids str_of vs

-- `value if isinstance(value, list)`, else `none`.
unfoldable pub list_at : (Json → String) → Json → Option (List String)
list_at str_of (arr vs) = some (item_ids str_of vs)
list_at str_of _ = none

text_items : Items → List String
text_items nil = []
text_items (cons (str s) vs) = s ∷ text_items vs
text_items (cons _ vs) = text_items vs

-- `{str(v) for v in value if isinstance(v, str)} if isinstance(value, list)`
unfoldable pub text_list_at : Json → Option (List String)
unfolding text_items
text_list_at (arr vs) = some (text_items vs)
text_list_at _ = none

unfoldable pub snapshot_from : List String → List String → MemberMap
snapshot_from context [] = []
snapshot_from context (id ∷ ids) =
    (id, record { reason = "human_confirmation_snapshot"; context_only = elem id context })
    ∷ snapshot_from context ids

-- The members of a confirmation that lists some.
unfoldable pub snapshot : Apps → String → List String → List String → MemberMap
snapshot objects app_id members context =
    snapshot_from context
      (sorted (keep_if (λ id. owned objects app_id id) (update context (update members []))))

-- One candidate of a merge: the objects that are new become members.
unfoldable pub merge_rows : Apps → String → String → List MemberRow → MemberMap → MemberMap
merge_rows objects app_id other_id [] members = members
merge_rows objects app_id other_id (row ∷ rows) members = merge_rows objects app_id other_id rows (
    if (row.candidate_id == other_id)
      && owned objects app_id row.source_object_id
      && not (is_some (lookup row.source_object_id members))
    then members
      ++ (row.source_object_id, record { reason = "human_merge"; context_only = false }) ∷ []
    else members)

unfoldable pub merge_all :
    Apps → Apps → List MemberRow → String → List String → MemberMap → MemberMap
merge_all objects candidates rows app_id [] members = members
merge_all objects candidates rows app_id (id ∷ ids) members =
    merge_all objects candidates rows app_id ids
      (if owned candidates app_id id then merge_rows objects app_id id rows members else members)

-- The variables of the loop over the decisions; a human title or type is `some`.
pub record Projection : Type 0 where
  pub human_title : Option String
  pub human_type : Option String
  pub status : String
  pub members : MemberMap

unfoldable pub or_previous : Option String → Option String → Option String
or_previous (some s) previous = some s
or_previous none previous = previous

-- A non-empty title and a non-empty type of the payload replace the previous ones.
unfoldable pub with_texts : Fields → Projection → Projection
unfolding or_previous
with_texts payload p = record {
  human_title = or_previous (as_text (get "title" payload)) p.human_title;
  human_type = or_previous (as_text (get "type" payload)) p.human_type;
  status = p.status;
  members = p.members;
}

unfoldable pub with_members : MemberMap → Projection → Projection
with_members members p = record {
  human_title = p.human_title;
  human_type = p.human_type;
  status = p.status;
  members = members;
}

unfoldable pub with_status : String → Projection → Projection
with_status status p = record {
  human_title = p.human_title;
  human_type = p.human_type;
  status = status;
  members = p.members;
}
