-- ===== src/Candidates/Projector/Undone.antt =====
-- The projection of candidates/projector.py after an undo of candidates/decisions.py.
use mathlib.Core.Path.{fun_ext}
use work_trace.Prelude.{
  String, Bool, true, false, not, ◌&&◌, none, some, List, keep_if, keep_if-keep_if, ◌≡◌, sym, ap,
  ◌∙◌, arith,
}
use work_trace.Prelude.Texts.{◌==◌}
use work_trace.Errors.{ok}
use work_trace.Json.{Json, Fields}
use work_trace.Decisions.Ledger.{Ledger, Decision}
use work_trace.Decisions.Compensation.{decision_stream, active_decisions, of_target}
use work_trace.Decisions.Scope.{related_apps, creation_decision_scope_app}
use work_trace.Decisions.Append.{Env, undo_decision}
use work_trace.Decisions.Rows.{IsKeyed}
use work_trace.Decisions.Undo.Removal.{undo-removes, undo_decision-Undone}
use work_trace.Candidates.Projector.{Group, Store, find_group}
use work_trace.Candidates.Projector.Fold.{scope_of, initial, project_over, decisions_for}
use work_trace.Candidates.Projector.View.{view_of, project_group, project_candidate}

creation_scope-same :
    (db db' : Ledger) (id : String) (payload : Fields)
    → db'.candidate_groups ≡ db.candidate_groups
    → db'.source_objects ≡ db.source_objects
    → creation_decision_scope_app db' id payload ≡ creation_decision_scope_app db id payload
unfolding creation_decision_scope_app related_apps
creation_scope-same db db' id payload candidates objects = rw (candidates, objects)

and_swap : (p q : Bool) → (p && q) ≡ (q && p)
and_swap p q = ground arith

active_decisions-undo :
    (env : Env) (db : Ledger) (d target : String) {id : String} {db' : Ledger}
    → IsKeyed db.human_decisions
    → (d == "") ≡ false
    → undo_decision env db d ≡ ok (id, db')
    → active_decisions db' target ≡ keep_if (λ x. not (d == x.id)) (active_decisions db target)
unfolding active_decisions of_target
active_decisions-undo env db d target keyed present done =
    let here = λ (x : Decision). x.target_id == target in
    let other = λ (x : Decision). not (d == x.id) in
    ap (keep_if here) (undo-removes env db d keyed present done)
    ∙ keep_if-keep_if here other (decision_stream db true)
    ∙ ap (λ (p : Decision → Bool). keep_if p (decision_stream db true))
        (fun_ext (λ x. and_swap (other x) (here x)))
    ∙ sym (keep_if-keep_if other here (decision_stream db true))

module _ (casefold strip lower : String → String) (str_of : Json → String) (s : Store) where
  -- A projection reads the candidates and the objects of the ledger beside its decisions.
  project_group-same :
      (db db' : Ledger) (g : Group) (decisions : List Decision)
      → db'.candidate_groups ≡ db.candidate_groups
      → db'.source_objects ≡ db.source_objects
      → project_group casefold strip lower str_of db' s none g decisions
        ≡ project_group casefold strip lower str_of db s none g decisions
  unfolding project_group project_over initial view_of scope_of
  project_group-same db db' g decisions candidates objects =
      let scopes =
        fun_ext (λ (x : Decision). creation_scope-same db db' g.id x.payload candidates objects) in
      rw (scopes, candidates, objects)

  -- On a ledger whose keys are distinct, after an undo that succeeds a stored candidate projects,
  -- view or error, as it did before over its decisions without the undone one.
  pub project_candidate-undo :
      (env : Env) (db : Ledger) (d candidate_id : String) (g : Group) {id : String} {db' : Ledger}
      → IsKeyed db.human_decisions
      → (d == "") ≡ false
      → undo_decision env db d ≡ ok (id, db')
      → find_group candidate_id s.groups ≡ some g
      → project_candidate casefold strip lower str_of db' s none candidate_id
        ≡ project_group casefold strip lower str_of db s none g
            (keep_if (λ x. not (d == x.id)) (active_decisions db g.id))
  unfolding project_candidate decisions_for
  project_candidate-undo env db d candidate_id g {db' = db'} keyed present done found =
      let (_, u) = undo_decision-Undone env db d present done in
      rw (project_candidate, found)
        (project_group-same db db' g (active_decisions db' g.id) u.same_candidates u.same_objects
          ∙ ap (project_group casefold strip lower str_of db s none g)
              (active_decisions-undo env db d g.id keyed present done))
