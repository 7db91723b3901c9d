-- ===== src/Decisions/Context.antt =====
-- `_DecisionProjectionContext`, which indexes the decisions and the lineages of one read snapshot, and
-- the two ways to resolve an identifier to its lineage.
pub mod Agreement
use work_trace.Prelude.{
  ltb, String, Bool, true, false, ◌&&◌, ◌||◌, Option, none, some, List, [], ◌∷◌, ◌++◌, map,
  if◌then◌else◌, length, keep_if,
}
use work_trace.Prelude.Texts.{◌==◌, elem, update, lookup, put}
use work_trace.Errors.{Result, ok, err, scope_violation}
use work_trace.Decisions.Ledger.{Ledger, Decision}
use work_trace.Decisions.Compensation.{decision_stream}
use work_trace.Decisions.Scope.{decision_node_apps}
use work_trace.Decisions.Ancestry.{Scopes, scopes_of}
use work_trace.Decisions.Lineage.{DecisionLineage, lineages_from, decision_lineages}

abbrev pub Index {ℓ} : Type ℓ → Type ℓ
Index A = List (String × List A)

module _ {ℓ} {A : Type ℓ} where
  -- `index.get(key, ())`
  unfoldable pub entries : String → Index A → List A
  entries k [] = []
  entries k ((j, xs) ∷ rest) = if j == k then xs else entries k rest

  -- `index.setdefault(key, []).append(x)`
  unfoldable pub append_at : String → A → Index A → Index A
  append_at k x [] = (k, x ∷ []) ∷ []
  append_at k x ((j, xs) ∷ rest) =
      if j == k then (j, xs ++ x ∷ []) ∷ rest else (j, xs) ∷ append_at k x rest

  unfoldable pub append_all : List String → A → Index A → Index A
  append_all [] x index = index
  append_all (k ∷ ks) x index = append_all ks x (append_at k x index)

unfoldable pub target_index : List Decision → Index Decision → Index Decision
target_index [] index = index
target_index (d ∷ ds) index = target_index ds (append_at d.target_id d index)

-- `lineage.candidate_ids | lineage.contribution_ids`
unfoldable pub identifiers : DecisionLineage → List String
unfolding update
identifiers l = update l.contribution_ids (update l.candidate_ids [])

unfoldable pub identifier_index :
    List DecisionLineage → Index DecisionLineage → Index DecisionLineage
unfolding identifiers append_all
identifier_index [] index = index
identifier_index (l ∷ ls) index = identifier_index ls (append_all (identifiers l) l index)

pub record Context : Type 0 where
  pub active_decisions : List Decision
  pub decisions_by_target : Index Decision
  pub decision_scopes : Scopes
  pub lineages : List DecisionLineage
  pub lineages_by_identifier : Index DecisionLineage

unfoldable pub build_context : Ledger → Context
unfolding target_index identifier_index
build_context db =
    let decisions = decision_stream db true in
    let scopes = scopes_of db decisions (decision_node_apps db decisions) in
    let lineages = lineages_from db decisions scopes in
    record {
      active_decisions = decisions;
      decisions_by_target = target_index decisions [];
      decision_scopes = scopes;
      lineages = lineages;
      lineages_by_identifier = identifier_index lineages [];
    }

unfoldable pub for_target : Context → String → List Decision
for_target c target_id = entries target_id c.decisions_by_target

-- `app_id is None or lineage.app_id == app_id`
unfoldable pub in_app : Option String → DecisionLineage → Bool
in_app none l = true
in_app (some app) l = l.app_id == app

-- What both ways to resolve do with the lineages that match.
unfoldable pub pick : List DecisionLineage → Result (Option DecisionLineage)
unfolding update
pick matches =
    if ltb 1 (length (update (map (λ l. l.app_id) matches) []))
    then err (scope_violation "contribution identifier belongs to more than one configured app")
    else elim matches [
      | [] ↦ ok none
      | l ∷ rest ↦ elim rest [
        | [] ↦ ok (some l)
        | _ ∷ _ ↦ err (scope_violation "contribution identifier has ambiguous decision lineage")
      ]
    ]

unfoldable pub resolve_lineage : Context → String → Option String → Result (Option DecisionLineage)
unfolding pick in_app
resolve_lineage c identifier app_id =
    pick (keep_if (in_app app_id) (entries identifier c.lineages_by_identifier))

-- `identifier in lineage.candidate_ids or identifier in lineage.contribution_ids`
unfoldable pub identifies : String → DecisionLineage → Bool
identifies identifier l = elem identifier l.candidate_ids || elem identifier l.contribution_ids

unfoldable pub resolve_decision_lineage :
    Ledger → String → Option String → Result (Option DecisionLineage)
unfolding pick in_app identifies
resolve_decision_lineage db identifier app_id =
    pick (keep_if (λ l. identifies identifier l && in_app app_id l) (decision_lineages db true))
