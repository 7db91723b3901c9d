-- ===== src/Decisions/Append.antt =====
-- `append_decision` and `undo_decision`: the only writers of the ledger. An `err` is a raised
-- exception, after which the transaction is rolled back and the ledger is the one before.
use work_trace.Prelude.{
  String, Bool, true, false, not, Option, none, some, [], ◌∷◌, ◌++◌, if◌then◌else◌, is_some,
}
use work_trace.Prelude.Texts.{◌==◌, elem, lookup}
use work_trace.Json.{Json, Fields, end, field, str, obj, get, contradicts}
use work_trace.Errors.{
  Result, ok, err, ◌>>=◌, ◌>>◌, raise_if, value_error, scope_violation, not_found, integrity_error,
}
use work_trace.Decisions.Ledger.{
  DecisionRow, Ledger, valid_actions, is_undo, ordered, select_row, bump_revision,
}
use work_trace.Decisions.Compensation.{valid_compensation_map}
use work_trace.Decisions.Ancestry.{Scopes, decision_scope_map}

-- What a call takes from outside: the fresh identifier, the clock, and whether the validation
-- redactor of normalize/redaction.py leaves a payload as it is.
pub record Env : Type 0 where
  pub decision_id : String
  pub now : String
  pub is_redacted : Fields → Bool

-- `.get(id)` of a scope map: a missing decision and an unscoped one are the same.
unfoldable pub scope_at : String → Scopes → Option String
scope_at id scopes = elim (lookup id scopes) [ some app ↦ app | none ↦ none ]

unfoldable pub check_pairing : Bool → Option String → Result (Unit {0})
check_pairing true none = err (scope_violation "undo decisions require an undo target")
check_pairing true (some t) = ok tt
check_pairing false none = ok tt
check_pairing false (some t) = err (scope_violation "only undo decisions may carry an undo target")

unfoldable pub check_compensated : Ledger → String → String → Option DecisionRow → Result (Unit {0})
check_compensated db target_id t none = err (not_found t)
check_compensated db target_id t (some row) = do
  raise_if (is_undo row.action) (scope_violation "undo decisions cannot themselves be undone")
  raise_if (not (row.target_id == target_id))
      (scope_violation "undo decision target does not match the compensated decision")
  raise_if (is_some (lookup t (valid_compensation_map (ordered db.human_decisions))))
      (scope_violation "decision has already been undone")
  raise_if (not (is_some (scope_at t (decision_scope_map db false))))
      (scope_violation "decision has no unambiguous configured application scope")

unfoldable pub check_undo_target : Ledger → String → Option String → Result (Unit {0})
unfolding check_compensated
check_undo_target db target_id none = ok tt
check_undo_target db target_id (some t) =
    check_compensated db target_id t (select_row t db.human_decisions)

unfoldable pub check_payload : Bool → Fields → Option String → Result (Unit {0})
unfolding contradicts get
check_payload true payload (some t) =
    raise_if (contradicts (get "compensates" payload) t)
      (scope_violation "undo payload does not match the compensated decision")
check_payload _ payload _ = ok tt

as_dict : Json → Result Fields
as_dict (obj fs) = ok fs
as_dict _ = err (value_error "decision payload must be an object")

-- The payload to store: redacted, or else validated.
unfoldable pub stored_payload : Env → Option (Json → Json) → Fields → Result Fields
unfolding as_dict
stored_payload env (some redact) payload = as_dict (redact (obj payload))
stored_payload env none payload =
    if env.is_redacted payload
    then ok payload
    else err (value_error "redaction is required before decision persistence")

-- `INSERT INTO human_decisions`, under the primary key.
unfoldable pub insert_decision : DecisionRow → Ledger → Result Ledger
insert_decision row db = elim (select_row row.id db.human_decisions) [
  | some old ↦ err integrity_error
  | none ↦ ok (record db { human_decisions = db.human_decisions ++ row ∷ [] })
]

-- `mark_read_states_changed` for the app that the new decision affects, if there is one.
unfoldable pub mark_affected : String → Ledger → Ledger
mark_affected id db = elim (scope_at id (decision_scope_map db false)) [
  | none ↦ db
  | some app ↦ record db { read_revision = bump_revision app db.read_revision }
]

unfoldable pub append_decision :
    Env
    → Ledger
    → String
    → String
    → Fields
    → String
    → Option String
    → Option (Json → Json)
    → Result (String × Ledger)
append_decision env db action target_id payload actor_label undo_target_id redactor = do
  raise_if (not (elem action valid_actions)) (value_error action)
  check_pairing (is_undo action) undo_target_id
  check_undo_target db target_id undo_target_id
  check_payload (is_undo action) payload undo_target_id
  stored ← stored_payload env redactor payload
  inserted ←
      insert_decision
        (record {
          id = env.decision_id;
          action = action;
          target_id = target_id;
          payload = some (obj stored);
          actor_label = actor_label;
          created_at = env.now;
          undo_target_id = undo_target_id;
        })
        db
  ok (env.decision_id, mark_affected env.decision_id inserted)

abbrev pub compensates : String → Fields
compensates id = field "compensates" (str id) end

unfoldable pub undo_row : Env → Ledger → String → Option DecisionRow → Result (String × Ledger)
undo_row env db id none = err (not_found id)
undo_row env db id (some row) =
    if is_undo row.action
    then err (scope_violation "undo decisions cannot themselves be undone")
    else append_decision env db "undo_decision" row.target_id (compensates id) "local-user"
        (some id) none

unfoldable pub undo_decision : Env → Ledger → String → Result (String × Ledger)
unfolding undo_row
undo_decision env db id = undo_row env db id (select_row id db.human_decisions)
