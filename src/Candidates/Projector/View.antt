-- ===== src/Candidates/Projector/View.antt =====
-- candidates/projector.py: the view that `project_candidate` returns, and `list_candidates`.
use work_trace.Prelude.{
  ℕ, suc, ltb, leb, ◌=?◌, String, Bool, true, false, not, ◌||◌, ◌&&◌, Option, none, some, is_some,
  List, [], ◌∷◌, ◌++◌, if◌then◌else◌, keep_if, length,
}
use work_trace.Prelude.Texts.{◌==◌, sorted, lookup}
use work_trace.Prelude.Order.{text_lt}
use work_trace.Errors.{Result, ok, err, not_found}
use work_trace.Json.{Json}
use work_trace.Decisions.Ledger.{Ledger, Decision}
use work_trace.Decisions.Context.{Context}
use work_trace.Candidates.Objects.{seed_priority, suggest_contribution_type}
use work_trace.Candidates.Projector.{
  Group, Member, Current, Store, MemberMap, find_group, Projection,
}
use work_trace.Candidates.Projector.Fold.{project_over, decisions_for}

pub record ProjectedMember : Type 0 where
  pub source_object_id : String
  pub member : Member
  pub evidence : Current

pub record CandidateView : Type 0 where
  pub id : String
  pub app_id : String
  pub seed_object_id : String
  pub metadata_source_object_id : Option String
  pub title : String
  pub contribution_type : String
  pub status : String
  pub members : List ProjectedMember
  pub unsupported_member_ids : List String
  pub decisions : List Decision

abbrev pub keys : MemberMap → List String
keys [] = []
keys ((k, m) ∷ ms) = k ∷ keys ms

unfoldable pub has_current : List (String × Current) → String → Bool
has_current current id = is_some (lookup id current)

-- The sorted members with a current observation, and those without one.
unfoldable pub eligible_ids : List (String × Current) → MemberMap → List String
unfolding has_current
eligible_ids current members = sorted (keep_if (has_current current) (keys members))

unfoldable pub missing_ids : List (String × Current) → MemberMap → List String
unfolding has_current
missing_ids current members = sorted (keep_if (λ id. not (has_current current id)) (keys members))

-- `a < b` of the sort keys `(context_only, priority, external_id, object_id)`
unfoldable pub comes_before : ProjectedMember → ProjectedMember → Bool
comes_before a b =
    let pa = seed_priority a.evidence.kind in
    let pb = seed_priority b.evidence.kind in
    (not a.member.context_only && b.member.context_only)
    || (((a.member.context_only && b.member.context_only)
          || (not a.member.context_only && not b.member.context_only))
        && (ltb pa pb
            || ((pa =? pb)
                && (text_lt a.evidence.external_id b.evidence.external_id
                    || ((a.evidence.external_id == b.evidence.external_id)
                        && text_lt a.source_object_id b.source_object_id)))))

-- `min(eligible_member_ids, key=...)`: the first of the least.
unfoldable pub least : ProjectedMember → List ProjectedMember → ProjectedMember
least best [] = best
least best (m ∷ ms) = least (if comes_before m best then m else best) ms

unfoldable pub projected_at : List (String × Current) → MemberMap → String → List ProjectedMember
projected_at current members id = elim (lookup id current) [
  | none ↦ []
  | some evidence ↦ elim (lookup id members) [
    | none ↦ []
    | some member ↦ record { source_object_id = id; member = member; evidence = evidence } ∷ []
  ]
]

unfoldable pub projected : List (String × Current) → MemberMap → List String → List ProjectedMember
projected current members [] = []
projected current members (id ∷ ids) =
    projected_at current members id ++ projected current members ids

unfoldable pub member_at : String → List ProjectedMember → Option ProjectedMember
member_at id [] = none
member_at id (m ∷ ms) = if m.source_object_id == id then some m else member_at id ms

-- The member whose title and kind the candidate takes: its seed, or else the least one.
unfoldable pub metadata_member : String → List ProjectedMember → Option ProjectedMember
metadata_member seed [] = none
metadata_member seed (m ∷ ms) = elim (member_at seed (m ∷ ms)) [
  | some found ↦ some found
  | none ↦ some (least m ms)
]

or_text : Option String → String → String
or_text (some s) default = s
or_text none default = default

abbrev pub is_empty : List String → Bool
is_empty [] = true
is_empty (x ∷ xs) = false

module _ (casefold strip lower : String → String) (str_of : Json → String) (db : Ledger)
    (s : Store) where
  view_title : Projection → Option ProjectedMember → String
  unfolding or_text
  view_title p none =
      or_text p.human_title "Confirmed contribution history (current evidence unavailable)"
  view_title p (some m) =
      or_text p.human_title
        (if m.evidence.title == "" then m.evidence.external_id else m.evidence.title)

  type_of : Projection → Option ProjectedMember → String → String
  unfolding or_text
  type_of p none title = or_text p.human_type "unknown"
  type_of p (some m) title =
      or_text p.human_type (suggest_contribution_type casefold strip lower m.evidence.kind title)

  id_of : Option ProjectedMember → Option String
  id_of none = none
  id_of (some m) = some m.source_object_id

  unfoldable pub view_of : Group → List Decision → Projection → CandidateView
  unfolding view_title type_of id_of
  view_of g decisions p =
      let members = projected s.current p.members (eligible_ids s.current p.members) in
      let metadata = metadata_member g.seed_object_id members in
      let title = view_title p metadata in
      record {
        id = g.id;
        app_id = g.app_id;
        seed_object_id = g.seed_object_id;
        metadata_source_object_id = id_of metadata;
        title = title;
        contribution_type = type_of p metadata title;
        status = p.status;
        members = members;
        unsupported_member_ids =
            if p.status == "confirmed" then missing_ids s.current p.members else [];
        decisions = decisions;
      }

  -- `project_candidate` of a stored candidate, over its decisions.
  unfoldable pub project_group : Option Context → Group → List Decision → Result CandidateView
  project_group context g decisions =
      let p = project_over str_of db s g context decisions in
      if is_empty (eligible_ids s.current p.members) && not (p.status == "confirmed")
      then err (not_found "candidate has no authoritative current evidence")
      else ok (view_of g decisions p)

  unfoldable pub project_candidate : Option Context → String → Result CandidateView
  project_candidate context candidate_id = elim (find_group candidate_id s.groups) [
    | none ↦ err (not_found "candidate not found")
    | some g ↦ project_group context g (decisions_for str_of db s g context)
  ]

  -- `list_candidates`, over the ids in the order of the query.
  unfoldable pub list_candidates : List String → ℕ → List CandidateView → List CandidateView
  list_candidates [] limit result = result
  list_candidates (id ∷ ids) limit result = elim (project_candidate none id) [
    | err e ↦ list_candidates ids limit result
    | ok view ↦ elim (leb limit (suc (length result))) [
      | true ↦ result ++ view ∷ []
      | false ↦ list_candidates ids limit (result ++ view ∷ [])
    ]
  ]
