-- ===== src/Decisions/Undo/Inversion.antt =====
-- What a successful `append_decision` or `undo_decision` has checked, and the row that it adds.
use work_trace.Prelude.{
  String, Bool, true, false, ◌≡◌, Option, none, some, [], ◌∷◌, ◌++◌, is_some, arith, inl, inr,
}
use work_trace.Prelude.Texts.{elem}
use work_trace.Json.{Json, Fields, obj}
use work_trace.Errors.{Result-cases, Error, ok, raise_if}
use work_trace.Decisions.Ledger.{DecisionRow, Ledger, valid_actions, is_undo, select_row}
use work_trace.Decisions.Append.{
  Env, check_pairing, check_undo_target, check_payload, stored_payload, insert_decision,
  mark_affected, append_decision,
}

pub raise_if-eq-ok : (b : Bool) (e : Error) {u : Unit {0}} → raise_if b e ≡ ok u → b ≡ false
raise_if-eq-ok b e h = ground arith

-- The row that `append_decision` inserts.
abbrev pub new_row : Env → String → String → Fields → String → Option String → DecisionRow
new_row env action target_id stored actor_label undo_target_id = record {
  id = env.decision_id;
  action = action;
  target_id = target_id;
  payload = some (obj stored);
  actor_label = actor_label;
  created_at = env.now;
  undo_target_id = undo_target_id;
}

pub mark_affected-human_decisions :
    (id : String) (db : Ledger) → (mark_affected id db).human_decisions ≡ db.human_decisions
unfolding mark_affected
mark_affected-human_decisions id db = ground arith

pub record Appended (env : Env) (db : Ledger) (action target_id : String) (actor_label : String)
    (undo_target_id : Option String) (stored : Fields) (db' : Ledger) : Type 0 where
  pub valid : elem action valid_actions ≡ true
  pub pairing : is_undo action ≡ is_some undo_target_id
  pub target_checked : check_undo_target db target_id undo_target_id ≡ ok tt
  pub fresh : select_row env.decision_id db.human_decisions ≡ none
  pub rows :
      db'.human_decisions
      ≡ db.human_decisions ++ new_row env action target_id stored actor_label undo_target_id ∷ []
  pub same_candidates : db'.candidate_groups ≡ db.candidate_groups
  pub same_objects : db'.source_objects ≡ db.source_objects
  pub same_observations : db'.observations ≡ db.observations

insert_decision-eq-ok :
    (row : DecisionRow) (db db' : Ledger)
    → insert_decision row db ≡ ok db'
    → (select_row row.id db.human_decisions ≡ none)
      × (db' ≡ record db { human_decisions = db.human_decisions ++ row ∷ [] })
unfolding insert_decision
insert_decision-eq-ok row db db' h = ground arith

check_pairing-eq-ok :
    (undo : Bool) (t : Option String) {u : Unit {0}}
    → check_pairing undo t ≡ ok u
    → undo ≡ is_some t
unfolding check_pairing
check_pairing-eq-ok undo t h = ground arith

pub append_decision-Appended :
    (env : Env) (db : Ledger) (action target_id : String) (payload : Fields) (actor_label : String)
    (undo_target_id : Option String) (redactor : Option (Json → Json)) {id : String} {db' : Ledger}
    → append_decision env db action target_id payload actor_label undo_target_id redactor
      ≡ ok (id, db')
    → (stored : Fields) × (stored_payload env redactor payload ≡ ok stored)
      × (id ≡ env.decision_id)
      × (check_payload (is_undo action) payload undo_target_id ≡ ok tt)
      × Appended env db action target_id actor_label undo_target_id stored db'
unfolding append_decision insert_decision mark_affected
append_decision-Appended env db action target_id payload actor_label undo_target_id redactor {id}
      {db'} h =
    elim (Result-cases (stored_payload env redactor payload)) [
      | inr (e, bad) ↦ absurd (ground (arith, bad))
      | inl (stored, good) ↦ (
        stored,
        good,
        ground (arith, good),
        ground (arith, good),
        record {
          valid = ground (arith, good);
          pairing = check_pairing-eq-ok _ _ (ground (arith, good));
          target_checked = ground (arith, good);
          fresh = ground (arith, good);
          rows = ground (arith, good);
          same_candidates = ground (arith, good);
          same_objects = ground (arith, good);
          same_observations = ground (arith, good);
        },
      )
    ]
