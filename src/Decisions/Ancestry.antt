-- ===== src/Decisions/Ancestry.antt =====
-- `_undo_ancestry_target` and `_decision_scope_map`: the walk up the undo targets, and the app of every
-- decision.
use mathlib.Core.List.{reverse}
use work_trace.Prelude.{
  ℕ, zero, suc, String, Bool, Option, none, some, List, [], ◌∷◌, if◌then◌else◌, length,
}
use work_trace.Prelude.Texts.{◌==◌, elem, lookup, put}
use work_trace.Json.{get, as_text, contradicts}
use work_trace.Decisions.Ledger.{Ledger, Decision, is_undo}
use work_trace.Decisions.Compensation.{decision_stream}
use work_trace.Decisions.Scope.{NodeApps, decision_node_apps, scoped_decision_app}

-- `decisions_by_id.get(id)`
unfoldable pub decision_at : String → List Decision → Option Decision
decision_at id [] = none
decision_at id (d ∷ ds) = if d.id == id then some d else decision_at id ds

-- The decision that `d` names as its undo target, if the edge is structurally valid.
unfoldable pub undo_ancestry_target : Decision → List Decision → Option Decision
unfolding contradicts
undo_ancestry_target d decisions = elim d.undo_target_id [
  | none ↦ none
  | some target_id ↦ elim (decision_at target_id decisions) [
    | none ↦ none
    | some target ↦
        if target.target_id == d.target_id
        then (if contradicts (get "compensates" d.payload) target_id then none else some target)
        else none
  ]
]

abbrev pub Scopes : Type 0
Scopes = List (String × Option String)

direct_scopes : Ledger → NodeApps → List Decision → Scopes → Scopes
direct_scopes db nodes [] result = result
direct_scopes db nodes (d ∷ ds) result =
    direct_scopes db nodes ds
      (if is_undo d.action then result else put d.id (scoped_decision_app db nodes d) result)

-- How the `while` loop ends: by its test, with the app found, or by a `break`. Both carry the trail,
-- its last item first. `exhausted` means that the fuel ran out.
pub data Walk : Type 0 where
  resolved : Option String → List Decision → Walk
  broken : List Decision → Walk
  exhausted : Walk

unfoldable pub walk : ℕ → List Decision → Scopes → String → List Decision → List String → Walk
walk zero decisions result current_id trail seen = exhausted
walk (suc fuel) decisions result current_id trail seen = elim (lookup current_id result) [
  | some app ↦ resolved app trail
  | none ↦ if elem current_id seen then broken trail else elim (decision_at current_id decisions) [
    | none ↦ broken trail
    | some current ↦
        let onward = λ (target : Decision).
          walk fuel decisions result target.id (current ∷ trail) (current_id ∷ seen) in
        if is_undo current.action
        then elim (undo_ancestry_target current decisions) [
          | none ↦ broken (current ∷ trail)
          | some target ↦ onward target
        ]
        else broken trail
  ]
]

-- The app of an undo event, from the app of what it names.
unfoldable pub inherited : Decision → Option String → Option String
unfolding as_text
inherited item resolved_app = elim (as_text (get "app_id" item.payload)) [
  | none ↦ resolved_app
  | some declared ↦ elim resolved_app [
    | none ↦ none
    | some app ↦ if declared == app then some app else none
  ]
]

settle : List Decision → Option String → Scopes → Scopes
settle [] app result = result
settle (item ∷ items) app result =
    settle items (inherited item app) (put item.id (inherited item app) result)

unscope : List Decision → Scopes → Scopes
unscope [] result = result
unscope (item ∷ items) result = unscope items (put item.id none result)

finish : Walk → Scopes → Scopes
unfolding settle unscope inherited
finish (resolved app trail) result = settle trail app result
finish (broken trail) result = unscope (reverse trail) result
finish exhausted result = result

undo_scopes : List Decision → List Decision → Scopes → Scopes
unfolding finish walk
undo_scopes decisions [] result = result
undo_scopes decisions (d ∷ ds) result = undo_scopes decisions ds (elim (lookup d.id result) [
  | some app ↦ result
  | none ↦
      if is_undo d.action
      then finish (walk (suc (length decisions)) decisions result d.id [] []) result
      else result
])

unfoldable pub scopes_of : Ledger → List Decision → NodeApps → Scopes
unfolding direct_scopes undo_scopes scoped_decision_app
scopes_of db decisions nodes = undo_scopes decisions decisions (direct_scopes db nodes decisions [])

unfoldable pub decision_scope_map : Ledger → Bool → Scopes
unfolding scopes_of decision_node_apps decision_stream
decision_scope_map db active_only =
    let decisions = decision_stream db active_only in
    scopes_of db decisions (decision_node_apps db decisions)
