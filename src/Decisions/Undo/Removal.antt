-- ===== src/Decisions/Undo/Removal.antt =====
-- The active stream and the checks of `append_decision` after an undo.
use work_trace.Prelude.{
  String, Bool, true, false, ◌≡◌, refl, ◌∙◌, not, ◌||◌, ◌&&◌, none, some, List, [], ◌∷◌, ◌++◌,
  arith, keep_if, keep_if-keep_if, keep_if-map, Bool-cases, Option-cases, inl, inr,
}
use mathlib.Core.Path.{fun_ext}
use work_trace.Prelude.Texts.{◌==◌, eq_iff, eq_refl, elem}
use work_trace.Json.{Fields, get, non_empty, contradicts, as_object}
use work_trace.Errors.{ok, err, scope_violation}
use work_trace.Decisions.Ledger.{DecisionRow, Ledger, is_undo, ordered, select_row, insert_row}
use work_trace.Decisions.Compensation.{payload_contradicts, undone_by, valid_undo, decision_stream}
use work_trace.Decisions.Append.{
  Env, check_pairing, check_undo_target, stored_payload, append_decision, compensates, undo_row,
  undo_decision,
}
use work_trace.Decisions.Rows.{
  IsKeyed, ordered-append, keep_if-insert_row, select-append, select-ordered,
}
use work_trace.Decisions.Undo.Canceled.{is_canceled, is_canceled-insert_row}
use work_trace.Decisions.Undo.Inversion.{new_row, append_decision-Appended}

-- The undo event for `d` on the target of `row`.
abbrev pub undo_event : Env → String → DecisionRow → DecisionRow
undo_event env d row =
    new_row env "undo_decision" row.target_id (compensates d) "local-user" (some d)

pub record Undone (env : Env) (db : Ledger) (d : String) (row : DecisionRow) (db' : Ledger)
    : Type 0 where
  pub found : select_row d db.human_decisions ≡ some row
  pub proper : is_undo row.action ≡ false
  pub present : (d == "") ≡ false
  pub fresh : select_row env.decision_id db.human_decisions ≡ none
  pub rows : db'.human_decisions ≡ db.human_decisions ++ undo_event env d row ∷ []
  pub same_candidates : db'.candidate_groups ≡ db.candidate_groups
  pub same_objects : db'.source_objects ≡ db.source_objects

stored_payload-ok :
    (env : Env) (payload : Fields) {stored : Fields}
    → stored_payload env none payload ≡ ok stored
    → stored ≡ payload
unfolding stored_payload
stored_payload-ok env payload h = ground arith

undo_row-Undone :
    (env : Env) (db : Ledger) (d : String) (row : DecisionRow) {id : String} {db' : Ledger}
    → select_row d db.human_decisions ≡ some row
    → (d == "") ≡ false
    → undo_row env db d (some row) ≡ ok (id, db')
    → Undone env db d row db'
unfolding undo_row
undo_row-Undone env db d row found present h = elim (Bool-cases (is_undo row.action)) [
  | inl e ↦ absurd (ground (arith, e))
  | inr e ↦
      let (stored, s, _, _, a) =
        append_decision-Appended env db "undo_decision" row.target_id (compensates d) "local-user"
          (some d) none (rw e at h) in
      record {
        found = found;
        proper = e;
        present = present;
        fresh = a.fresh;
        rows = rw (← stored_payload-ok env (compensates d) s) a.rows;
        same_candidates = a.same_candidates;
        same_objects = a.same_objects;
      }
]

-- The compensation map and the order of the rows, after the undo event `new` has come in.
module _ (env : Env) (db : Ledger) (d : String) (row : DecisionRow) {db' : Ledger}
    (keyed : IsKeyed db.human_decisions) (u : Undone env db d row db') where
  rows_after :
      ordered db'.human_decisions ≡ insert_row (undo_event env d row) (ordered db.human_decisions)
  rows_after = rw u.rows (ordered-append db.human_decisions (undo_event env d row))

  fresh_ordered : select_row env.decision_id (ordered db.human_decisions) ≡ none
  fresh_ordered = select-ordered env.decision_id db.human_decisions keyed ∙ u.fresh

  event_cancels : valid_undo (ordered db.human_decisions) (undo_event env d row) ≡ some d
  unfolding valid_undo undone_by is_undo elem non_empty payload_contradicts contradicts get
      as_object
  event_cancels = ground (
    arith,
    select-ordered d db.human_decisions keyed ∙ u.found,
    u.proper,
    u.present,
    eq_refl d,
    eq_refl row.target_id,
  )

  is_canceled_after :
      (x : String)
      → is_canceled (ordered db'.human_decisions) x
        ≡ ((d == x) || is_canceled (ordered db.human_decisions) x)
  unfolding is_undo elem
  is_canceled_after x = rw rows_after (
      is_canceled-insert_row (undo_event env d row) (ordered db.human_decisions) fresh_ordered refl
        x
      ∙ rw event_cancels)

  abbrev shown : List DecisionRow → DecisionRow → Bool
  shown rows r = not (is_canceled rows r.id || is_undo r.action)

  shown_after :
      (r : DecisionRow)
      → shown (ordered db'.human_decisions) r
        ≡ (shown (ordered db.human_decisions) r && not (d == r.id))
  shown_after r = rw is_canceled_after (ground arith)

  kept_after :
      keep_if (shown (ordered db'.human_decisions)) (ordered db'.human_decisions)
      ≡ keep_if
          (λ r. not (d == r.id))
          (keep_if (shown (ordered db.human_decisions)) (ordered db.human_decisions))
  unfolding is_undo elem
  kept_after =
      rw (keep_if-keep_if, ← fun_ext shown_after, rows_after)
        (keep_if-insert_row _ (undo_event env d row) (ordered db.human_decisions) (ground arith))

  stream_after : decision_stream db' true ≡ keep_if (λ x. not (d == x.id)) (decision_stream db true)
  unfolding decision_stream
  stream_after = rw (keep_if-map, kept_after)

pub undo_decision-Undone :
    (env : Env) (db : Ledger) (d : String) {id : String} {db' : Ledger}
    → (d == "") ≡ false
    → undo_decision env db d ≡ ok (id, db')
    → (row : DecisionRow) × Undone env db d row db'
unfolding undo_decision
undo_decision-Undone env db d present h = elim (Option-cases (select_row d db.human_decisions)) [
  | inl e ↦ absurd (unfold undo_row in ground (arith, e))
  | inr (row, e) ↦ (row, undo_row-Undone env db d row e present (rw e at h))
]

-- On a ledger whose keys are distinct, an undo of a decision with a non-empty id that succeeds takes
-- exactly the decision out of the active stream: the others stay, in their order.
pub undo-removes :
    (env : Env) (db : Ledger) (d : String) {id : String} {db' : Ledger}
    → IsKeyed db.human_decisions
    → (d == "") ≡ false
    → undo_decision env db d ≡ ok (id, db')
    → decision_stream db' true ≡ keep_if (λ x. not (d == x.id)) (decision_stream db true)
undo-removes env db d keyed present h =
    let (row, u) = undo_decision-Undone env db d present h in stream_after env db d row keyed u

Undone-again :
    (env env' : Env) (db : Ledger) (d : String) (row : DecisionRow) {db' : Ledger}
    → IsKeyed db.human_decisions
    → Undone env db d row db'
    → undo_decision env' db' d ≡ err (scope_violation "decision has already been undone")
unfolding undo_decision undo_row append_decision check_pairing check_undo_target is_undo elem
Undone-again env env' db d row {db'} keyed u =
    let found : select_row d db'.human_decisions ≡ some row = rw u.rows (
      select-append d (undo_event env d row) db.human_decisions u.fresh
      ∙ ground (arith, u.found, u.fresh, eq_iff env.decision_id d)) in
    rw found (
      ground (
        arith,
        u.proper,
        eq_refl row.target_id,
        is_canceled_after env db d row keyed u d,
        eq_refl d,
      ))

-- On a ledger whose keys are distinct, a decision that was undone once is not undone again: the
-- second call raises, whatever its clock and identifier are.
pub undo-once :
    (env env' : Env) (db : Ledger) (d : String) {id : String} {db' : Ledger}
    → IsKeyed db.human_decisions
    → (d == "") ≡ false
    → undo_decision env db d ≡ ok (id, db')
    → undo_decision env' db' d ≡ err (scope_violation "decision has already been undone")
undo-once env env' db d keyed present h =
    let (row, u) = undo_decision-Undone env db d present h in Undone-again env env' db d row keyed u
