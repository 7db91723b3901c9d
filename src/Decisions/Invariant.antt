-- ===== src/Decisions/Invariant.antt =====
-- Well-formed ledgers, and `append_decision` on them.
use work_trace.Prelude.{
  String, true, false, ◌≡◌, refl, ◌∙◌, Option, none, some, List, [], ◌∷◌, ◌++◌, is_some, arith, All,
}
use work_trace.Prelude.Texts.{eq_iff, elem}
use work_trace.Json.{Json, Fields}
use work_trace.Errors.{ok}
use work_trace.Decisions.Ledger.{DecisionRow, Ledger, valid_actions, is_undo, select_row}
use work_trace.Decisions.Append.{Env, check_compensated, check_undo_target, append_decision}
use work_trace.Decisions.Rows.{IsKeyed, IsKeyed-append, select-append}
use work_trace.Decisions.Undo.Inversion.{new_row, Appended, append_decision-Appended}

-- The row names a decision of the ledger that is no undo event and has the same target.
abbrev pub HasTarget : List DecisionRow → String → Option String → Type 0
HasTarget rows target_id none = Unit
HasTarget rows target_id (some t) =
    (row : DecisionRow) × (select_row t rows ≡ some row)
    × (is_undo row.action ≡ false)
    × (row.target_id ≡ target_id)

pub record IsRowValid (rows : List DecisionRow) (r : DecisionRow) : Type 0 where
  pub valid : elem r.action valid_actions ≡ true
  pub pairing : is_undo r.action ≡ is_some r.undo_target_id
  pub target : HasTarget rows r.target_id r.undo_target_id

-- Distinct keys; a known action in each row; an undo target in the undo events alone, and each names
-- a decision on the same target that is itself no undo event.
pub record IsWellFormed (db : Ledger) : Type 0 where
  pub keyed : IsKeyed db.human_decisions
  pub valid : All (IsRowValid db.human_decisions) db.human_decisions

module _ (new : DecisionRow) (rows : List DecisionRow) (fresh : select_row new.id rows ≡ none) where
  select-append_found :
      (t : String) (row : DecisionRow)
      → select_row t rows ≡ some row
      → select_row t (rows ++ new ∷ []) ≡ some row
  select-append_found t row h =
      select-append t new rows fresh ∙ ground (arith, h, fresh, eq_iff new.id t)

  HasTarget-append :
      (target_id : String) (t : Option String)
      → HasTarget rows target_id t
      → HasTarget (rows ++ new ∷ []) target_id t
  HasTarget-append target_id none h = tt
  HasTarget-append target_id (some t) (row, found, proper, same) =
      (row, select-append_found t row found, proper, same)

  All-append_valid :
      (rs : List DecisionRow)
      → All (IsRowValid rows) rs
      → IsRowValid (rows ++ new ∷ []) new
      → All (IsRowValid (rows ++ new ∷ [])) (rs ++ new ∷ [])
  All-append_valid [] h n = (n, tt)
  All-append_valid (r ∷ rs) h n = (
    record {
      valid = h.0.valid;
      pairing = h.0.pairing;
      target = HasTarget-append r.target_id r.undo_target_id h.0.target;
    },
    All-append_valid rs h.1 n,
  )

check_compensated-found :
    (db : Ledger) (target_id t : String) (o : Option DecisionRow)
    → check_compensated db target_id t o ≡ ok tt
    → (row : DecisionRow) × (o ≡ some row)
      × (is_undo row.action ≡ false)
      × (row.target_id ≡ target_id)
unfolding check_compensated
check_compensated-found db target_id t none h = absurd (ground arith)
check_compensated-found db target_id t (some row) h =
    (row, refl, ground arith, ground (arith, eq_iff row.target_id target_id))

check_undo_target-HasTarget :
    (db : Ledger) (target_id : String) (t : Option String)
    → check_undo_target db target_id t ≡ ok tt
    → HasTarget db.human_decisions target_id t
unfolding check_undo_target
check_undo_target-HasTarget db target_id none h = tt
check_undo_target-HasTarget db target_id (some t) h =
    check_compensated-found db target_id t (select_row t db.human_decisions) h

Appended-IsWellFormed :
    (env : Env) (db : Ledger) (action target_id actor_label : String)
    (undo_target_id : Option String) (stored : Fields) {db' : Ledger}
    → IsWellFormed db
    → Appended env db action target_id actor_label undo_target_id stored db'
    → IsWellFormed db'
Appended-IsWellFormed env db action target_id actor_label undo_target_id stored {db'} w a =
    let new = new_row env action target_id stored actor_label undo_target_id in
    let target = check_undo_target-HasTarget db target_id undo_target_id a.target_checked in
    record {
      keyed = rw a.rows (IsKeyed-append new db.human_decisions w.keyed a.fresh);
      valid = rw a.rows (
          All-append_valid new db.human_decisions a.fresh db.human_decisions w.valid (record {
            valid = a.valid;
            pairing = a.pairing;
            target =
                HasTarget-append new db.human_decisions a.fresh target_id undo_target_id target;
          }));
    }

-- A call of `append_decision` that succeeds, on a well-formed ledger, leaves a well-formed ledger.
pub append_decision-IsWellFormed :
    (env : Env) (db : Ledger) (action target_id : String) (payload : Fields) (actor_label : String)
    (undo_target_id : Option String) (redactor : Option (Json → Json)) {id : String} {db' : Ledger}
    → IsWellFormed db
    → append_decision env db action target_id payload actor_label undo_target_id redactor
      ≡ ok (id, db')
    → IsWellFormed db'
append_decision-IsWellFormed env db action target_id payload actor_label undo_target_id redactor w
      h =
    let (stored, _, _, _, a) =
      append_decision-Appended env db action target_id payload actor_label undo_target_id redactor
        h in
    Appended-IsWellFormed env db action target_id actor_label undo_target_id stored w a
