-- ===== src/Tests/Decisions.antt =====
-- A small ledger of candidates/decisions.py: a confirmation, its undo, and its lineage.
use work_trace.Prelude.{
  suc, length, All, List, ◌↔◌, ◌≢◌, true, false, ◌≡◌, refl, not, none, some, [], ◌∷◌, keep_if, any,
}
use work_trace.Prelude.Texts.{◌==◌, elem, lookup, add, update, sorted, put, set_default}
use work_trace.Json.{end, field, str, obj, get, as_text, non_empty, texts, contradicts}
use work_trace.Errors.{ok, err, scope_violation}
use work_trace.Decisions.Ledger.{
  DecisionRow, Ledger, is_undo, ordered, insert_row, select_row, bump_revision, parse_row,
}
use work_trace.Decisions.Compensation.{
  valid_undo, valid_compensation_map, decision_stream, active_decisions,
}
use work_trace.Decisions.Scope.{creation_decision_scope_app, related_apps, is_legacy_creation}
use work_trace.Decisions.Ancestry.{
  walk, exhausted, decision_scope_map, decision_at, undo_ancestry_target,
}
use work_trace.Decisions.Append.{
  Env, scope_at, append_decision, undo_decision, undo_row, stored_payload, mark_affected,
  check_pairing, check_undo_target, check_payload, insert_decision,
}
use work_trace.Decisions.Undo.Removal.{undo-removes, undo-once}
use work_trace.Decisions.Undo.First.{
  IsFirst, IsUndoOf, valid_compensation_map-IsFirst, valid_compensation_map-none,
}
use work_trace.Decisions.Invariant.{IsWellFormed, append_decision-IsWellFormed}
use work_trace.Decisions.History.{Step, Runs, IsExtendedBy, Runs-keeps}
use work_trace.Decisions.Ownership.Creation.{Agrees, creation_scope_iff}
use work_trace.Decisions.Ownership.Ancestry.{walk_ends}
use work_trace.Decisions.Lineage.{Node, node_elem, Adjacency, component_from}
use work_trace.Decisions.Lineage.Component.{Reach, component_from-Reach}
use work_trace.Decisions.Context.{
  build_context, for_target, resolve_lineage, resolve_decision_lineage,
}
use work_trace.Decisions.Context.Agreement.{for_target-active_decisions, resolve_lineage-agrees}

program : Unit {0}
unfolding elem lookup add update sorted put set_default get as_text non_empty texts contradicts
    is_undo ordered insert_row select_row bump_revision parse_row valid_undo valid_compensation_map
    decision_stream decision_scope_map related_apps scope_at append_decision undo_decision undo_row
    stored_payload mark_affected check_pairing check_undo_target check_payload insert_decision
    keep_if any is_legacy_creation decision_at undo_ancestry_target
program = tt

abbrev pub env : Env
env = record { decision_id = "decision:2"; now = "2024-02-01"; is_redacted = λ _. true }

abbrev pub confirm_row : DecisionRow
confirm_row = record {
  id = "decision:1";
  action = "confirm_candidate";
  target_id = "candidate:1";
  payload = some (obj (field "contribution_id" (str "contribution:1") end));
  actor_label = "local-user";
  created_at = "2024-01-01";
  undo_target_id = none;
}

abbrev pub undo_it : DecisionRow
undo_it = record {
  id = "decision:2";
  action = "undo_decision";
  target_id = "candidate:1";
  payload = some (obj (field "compensates" (str "decision:1") end));
  actor_label = "local-user";
  created_at = "2024-02-01";
  undo_target_id = some "decision:1";
}

abbrev pub ledger : Ledger
ledger = record {
  human_decisions = confirm_row ∷ [];
  candidate_groups = ("candidate:1", "app") ∷ [];
  source_objects = [];
  observations = [];
  read_revision = ("app", 7) ∷ [];
}

abbrev pub ledger_after : Ledger
ledger_after = record ledger {
  human_decisions = confirm_row ∷ undo_it ∷ [];
  read_revision = ("app", 8) ∷ [];
}

pub undo_run : undo_decision env ledger "decision:1" ≡ ok ("decision:2", ledger_after)
unfolding program
undo_run = refl

undo-removes_example :
    decision_stream ledger_after true
    ≡ keep_if (λ x. not ("decision:1" == x.id)) (decision_stream ledger true)
unfolding program
undo-removes_example = undo-removes env ledger "decision:1" (refl, tt) refl undo_run

undo-once_example :
    undo_decision env ledger_after "decision:1"
    ≡ err (scope_violation "decision has already been undone")
unfolding program
undo-once_example = undo-once env env ledger "decision:1" (refl, tt) refl undo_run

map_run :
    lookup "decision:1" (valid_compensation_map (confirm_row ∷ undo_it ∷ [])) ≡ some "decision:2"
unfolding program
map_run = refl

valid_compensation_map-IsFirst_example :
    IsFirst (confirm_row ∷ undo_it ∷ []) "decision:1" (confirm_row ∷ undo_it ∷ []) "decision:2"
valid_compensation_map-IsFirst_example =
    valid_compensation_map-IsFirst (confirm_row ∷ undo_it ∷ []) "decision:1" map_run

map_empty : lookup "decision:2" (valid_compensation_map (confirm_row ∷ undo_it ∷ [])) ≡ none
unfolding program
map_empty = refl

valid_compensation_map-none_example :
    All (λ r. ¬ IsUndoOf (confirm_row ∷ undo_it ∷ []) r "decision:2") (confirm_row ∷ undo_it ∷ [])
valid_compensation_map-none_example =
    valid_compensation_map-none (confirm_row ∷ undo_it ∷ []) "decision:2" map_empty

ledger-IsWellFormed : IsWellFormed ledger
unfolding program
ledger-IsWellFormed = record {
  keyed = (refl, tt);
  valid = (record { valid = refl; pairing = refl; target = tt }, tt);
}

append_run :
    append_decision env ledger "undo_decision" "candidate:1"
      (field "compensates" (str "decision:1") end)
      "local-user"
      (some "decision:1")
      none
    ≡ ok ("decision:2", ledger_after)
unfolding program
append_run = refl

append_decision-IsWellFormed_example : IsWellFormed ledger_after
append_decision-IsWellFormed_example =
    append_decision-IsWellFormed env ledger "undo_decision" "candidate:1"
      (field "compensates" (str "decision:1") end) "local-user" (some "decision:1") none
      ledger-IsWellFormed append_run

-- The decision is undone, and then a rebuild empties the candidates.
abbrev ledger_rebuilt : Ledger
ledger_rebuilt = record {
  human_decisions = ledger_after.human_decisions;
  candidate_groups = [];
  source_objects = [];
  observations = [];
  read_revision = ("app", 9) ∷ [];
}

history : Runs ledger ledger_rebuilt
history =
    Runs.continues ledger ledger_after ledger_rebuilt
      (Runs.continues ledger ledger ledger_after (Runs.rests ledger)
        (Step.undoes env ledger "decision:1" "decision:2" ledger_after undo_run))
      (Step.others ledger_after [] [] [] (("app", 9) ∷ []))

Runs-keeps_example : IsWellFormed ledger_rebuilt × IsExtendedBy ledger ledger_rebuilt
Runs-keeps_example = Runs-keeps history ledger-IsWellFormed

creation_scope_iff_example :
    (creation_decision_scope_app ledger "candidate:1"
        (field "contribution_id" (str "contribution:1") end)
      ≡ some "app")
    ↔ Agrees ledger "candidate:1" (field "contribution_id" (str "contribution:1") end) "app"
creation_scope_iff_example =
    creation_scope_iff ledger "candidate:1" (field "contribution_id" (str "contribution:1") end)
      "app"

walk_ends_example :
    walk
      (suc (length (decision_stream ledger_after false)))
      (decision_stream ledger_after false)
      []
      "decision:2"
      []
      []
    ≢ exhausted
walk_ends_example = walk_ends (decision_stream ledger_after false) [] "decision:2"

abbrev triangle : Adjacency
triangle =
    (("app", "a"), ("app", "b") ∷ [])
    ∷ (("app", "b"), ("app", "a") ∷ ("app", "c") ∷ [])
    ∷ (("app", "c"), ("app", "b") ∷ [])
    ∷ []

component_from-Reach_example :
    (nodes : List Node) × (component_from triangle ("app", "a") ≡ some nodes)
    × ((n : Node) → (node_elem n nodes ≡ true) ↔ Reach triangle ("app", "a") n)
component_from-Reach_example = component_from-Reach triangle ("app", "a")

for_target-active_decisions_example :
    for_target (build_context ledger_after) "candidate:1"
    ≡ active_decisions ledger_after "candidate:1"
for_target-active_decisions_example = for_target-active_decisions ledger_after "candidate:1"

resolve_lineage-agrees_example :
    resolve_lineage (build_context ledger) "contribution:1" (some "app")
    ≡ resolve_decision_lineage ledger "contribution:1" (some "app")
resolve_lineage-agrees_example = resolve_lineage-agrees ledger "contribution:1" (some "app")
