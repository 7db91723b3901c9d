-- ===== src/Decisions/Compensation.antt =====
-- Which decisions an undo event cancels, and the stream of the decisions that stay active.
use work_trace.Prelude.{
  String, Bool, true, false, not, ◌||◌, Option, none, some, List, [], ◌∷◌, map, if◌then◌else◌,
  is_some, keep_if,
}
use work_trace.Prelude.Texts.{◌==◌, lookup, set_default}
use work_trace.Json.{Json, get, as_object, non_empty, contradicts}
use work_trace.Decisions.Ledger.{
  DecisionRow, Ledger, Decision, is_undo, ordered, select_row, parse_row,
}

-- `compensates` of the parsed payload contradicts the target.
unfoldable pub payload_contradicts : Option Json → String → Bool
unfolding as_object contradicts get
payload_contradicts none t = false
payload_contradicts (some p) t = contradicts (get "compensates" (as_object p)) t

unfoldable pub undone_by : DecisionRow → String → Option DecisionRow → Option String
unfolding payload_contradicts
undone_by row t none = none
undone_by row t (some target) =
    if is_undo target.action
    then none
    else if row.target_id == target.target_id
    then (if payload_contradicts row.payload t then none else some t)
    else none

-- One round of the loop of `_valid_compensation_map` up to its `continue`s: the decision that `row`
-- cancels, if the row is a structurally valid undo event.
unfoldable pub valid_undo : List DecisionRow → DecisionRow → Option String
unfolding undone_by non_empty
valid_undo rows row =
    if is_undo row.action
    then elim row.undo_target_id [
      | some t ↦ elim (non_empty t) [
        | some target ↦ undone_by row target (select_row target rows)
        | none ↦ none
      ]
      | none ↦ none
    ]
    else none

unfoldable pub compensation_loop :
    List DecisionRow → List DecisionRow → List (String × String) → List (String × String)
compensation_loop rows [] result = result
compensation_loop rows (row ∷ rest) result =
    compensation_loop rows rest
      (elim (valid_undo rows row) [ some t ↦ set_default t row.id result | none ↦ result ])

unfoldable pub valid_compensation_map : List DecisionRow → List (String × String)
unfolding compensation_loop
valid_compensation_map rows = compensation_loop rows rows []

unfoldable pub compensating_decision_ids : Ledger → String → Option String
compensating_decision_ids db decision_id =
    lookup decision_id (valid_compensation_map (ordered db.human_decisions))

-- `decision_id in canceled or action in UNDO_ACTIONS`
abbrev pub hidden : List (String × String) → DecisionRow → Bool
hidden canceled row = is_some (lookup row.id canceled) || is_undo row.action

unfoldable pub decision_stream : Ledger → Bool → List Decision
unfolding parse_row
decision_stream db active_only =
    let rows = ordered db.human_decisions in
    let canceled = valid_compensation_map rows in
    map parse_row (if active_only then keep_if (λ row. not (hidden canceled row)) rows else rows)

unfoldable pub of_target : String → List Decision → List Decision
of_target target_id = keep_if (λ d. d.target_id == target_id)

unfoldable pub active_decisions : Ledger → String → List Decision
unfolding of_target
active_decisions db target_id = of_target target_id (decision_stream db true)
