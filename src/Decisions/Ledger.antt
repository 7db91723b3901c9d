-- ===== src/Decisions/Ledger.antt =====
-- The tables that candidates/decisions.py reads and writes, its decision vocabulary, and the parsed
-- `Decision`. `payload` is what `json.loads` gives for the stored text, `none` where it raises.
use Prim.Native.String.{compare}
use Prim.Native.Nat.{Ordering}
use work_trace.Prelude.{
  ℕ, ◌+◌, String, Bool, true, false, Option, none, some, List, [], ◌∷◌, if◌then◌else◌,
}
use work_trace.Prelude.Texts.{◌==◌, elem, text_le}
use work_trace.Json.{Json, Fields, end, as_object}

pub record DecisionRow : Type 0 where
  pub id : String
  pub action : String
  pub target_id : String
  pub payload : Option Json
  pub actor_label : String
  pub created_at : String
  pub undo_target_id : Option String

pub record Ledger : Type 0 where
  pub human_decisions : List DecisionRow
  -- id and app_id of each row
  pub candidate_groups : List (String × String)
  pub source_objects : List (String × String)
  -- id and source_object_id of each row
  pub observations : List (String × String)
  -- apps.read_revision by id
  pub read_revision : List (String × ℕ)

pub record Decision : Type 0 where
  pub id : String
  pub action : String
  pub target_id : String
  pub payload : Fields
  pub created_at : String
  pub undo_target_id : Option String

abbrev pub valid_actions : List String
valid_actions =
    "confirm" ∷ "merge" ∷ "split" ∷ "ignore" ∷ "rename" ∷ "add_member" ∷ "remove_member" ∷ "attest"
    ∷ "manual_evidence" ∷ "undo" ∷ "confirm_candidate" ∷ "merge_contributions"
    ∷ "split_contribution" ∷ "ignore_candidate" ∷ "rename_contribution" ∷ "set_contribution_type"
    ∷ "attest_claim" ∷ "undo_decision" ∷ []

unfoldable pub is_undo : String → Bool
unfolding elem
is_undo action = elem action ("undo" ∷ "undo_decision" ∷ [])

unfoldable pub is_creation : String → Bool
unfolding elem
is_creation action =
    elem action ("confirm_candidate" ∷ "merge_contributions" ∷ "split_contribution" ∷ [])

-- `ORDER BY created_at, id`
abbrev pub before : DecisionRow → DecisionRow → Bool
before r s = elim (compare r.created_at s.created_at) [
  | Ordering.lt ↦ true
  | Ordering.eq ↦ text_le r.id s.id
  | Ordering.gt ↦ false
]

unfoldable pub insert_row : DecisionRow → List DecisionRow → List DecisionRow
insert_row r [] = r ∷ []
insert_row r (s ∷ rs) = if before r s then r ∷ s ∷ rs else s ∷ insert_row r rs

unfoldable pub order_from : List DecisionRow → List DecisionRow → List DecisionRow
order_from sorted [] = sorted
order_from sorted (r ∷ rs) = order_from (insert_row r sorted) rs

-- `SELECT * FROM human_decisions ORDER BY created_at, id`
unfoldable pub ordered : List DecisionRow → List DecisionRow
unfolding order_from
ordered rows = order_from [] rows

-- `SELECT ... FROM human_decisions WHERE id=?`
unfoldable pub select_row : String → List DecisionRow → Option DecisionRow
select_row id [] = none
select_row id (r ∷ rs) = if r.id == id then some r else select_row id rs

-- The loop of `mark_read_state_changed` over the rows of `apps`.
unfoldable pub bump_revision : String → List (String × ℕ) → List (String × ℕ)
bump_revision app [] = []
bump_revision app ((a, n) ∷ rest) = (a, if a == app then n + 1 else n) ∷ bump_revision app rest

-- A stored row, parsed.
unfoldable pub parse_row : DecisionRow → Decision
unfolding as_object
parse_row r = record {
  id = r.id;
  action = r.action;
  target_id = r.target_id;
  payload = elim r.payload [ some p ↦ as_object p | none ↦ end ];
  created_at = r.created_at;
  undo_target_id = elim r.undo_target_id [
    | some t ↦ if t == "" then none else some t
    | none ↦ none
  ];
}
