-- ===== src/Decisions/History.antt =====
-- The ledger through time: decisions are appended and undone while the other writers of the database
-- replace candidates, import objects and raise revisions in between.
use work_trace.Prelude.{
  String, ◌≡◌, sym, ◌∙◌, ap, Option, none, some, List, [], ◌∷◌, ◌++◌, Option-cases, inl, inr, arith,
  ℕ,
}
use mathlib.Core.List.{append_assoc, append-nil}
use work_trace.Json.{Json, Fields}
use work_trace.Errors.{ok}
use work_trace.Decisions.Ledger.{DecisionRow, Ledger, select_row}
use work_trace.Decisions.Append.{Env, append_decision, undo_row, undo_decision, compensates}
use work_trace.Decisions.Undo.Inversion.{new_row, append_decision-Appended}
use work_trace.Decisions.Invariant.{IsWellFormed, append_decision-IsWellFormed}

pub data Step : Ledger → Ledger → Type 0 where
  appends :
      (env : Env) (db : Ledger) (action target_id : String) (payload : Fields)
      (actor_label : String) (undo_target_id : Option String) (redactor : Option (Json → Json))
      (id : String) (db' : Ledger)
      → append_decision env db action target_id payload actor_label undo_target_id redactor
        ≡ ok (id, db')
      → Step db db'
  undoes :
      (env : Env) (db : Ledger) (d id : String) (db' : Ledger)
      → undo_decision env db d ≡ ok (id, db')
      → Step db db'
  -- a rebuild, an import, or any other transaction that leaves the decisions alone
  others :
      (db : Ledger) (candidate_groups source_objects observations : List (String × String))
      (read_revision : List (String × ℕ))
      → Step db (record {
        human_decisions = db.human_decisions;
        candidate_groups = candidate_groups;
        source_objects = source_objects;
        observations = observations;
        read_revision = read_revision;
      })

pub data Runs : Ledger → Ledger → Type 0 where
  rests : (db : Ledger) → Runs db db
  continues : (db between after : Ledger) → Runs db between → Step between after → Runs db after

-- The decisions before are a prefix of the decisions after.
abbrev pub IsExtendedBy : Ledger → Ledger → Type 0
IsExtendedBy db db' =
    (later : List DecisionRow) × (db'.human_decisions ≡ db.human_decisions ++ later)

undo_row-appends :
    (env : Env) (db : Ledger) (d id : String) (row : DecisionRow) (db' : Ledger)
    → undo_row env db d (some row) ≡ ok (id, db')
    → append_decision env db "undo_decision" row.target_id
        (compensates d)
        "local-user"
        (some d)
        none
      ≡ ok (id, db')
unfolding undo_row
undo_row-appends env db d id row db' h = ground (arith, h)

undo_decision-appends :
    (env : Env) (db : Ledger) (d id : String) (db' : Ledger)
    → undo_decision env db d ≡ ok (id, db')
    → (row : DecisionRow) × (append_decision env db "undo_decision" row.target_id
          (compensates d)
          "local-user"
          (some d)
          none
        ≡ ok (id, db'))
unfolding undo_decision
undo_decision-appends env db d id db' h = elim (Option-cases (select_row d db.human_decisions)) [
  | inl e ↦ let absurd : ⊥ = unfold undo_row in ground (arith, e, h) in elim absurd [ ]
  | inr (row, e) ↦ (row, undo_row-appends env db d id row db' (rw e at h))
]

append_decision-IsExtendedBy :
    (env : Env) (db : Ledger) (action target_id : String) (payload : Fields) (actor_label : String)
    (undo_target_id : Option String) (redactor : Option (Json → Json)) {id : String} {db' : Ledger}
    → append_decision env db action target_id payload actor_label undo_target_id redactor
      ≡ ok (id, db')
    → IsExtendedBy db db'
append_decision-IsExtendedBy env db action target_id payload actor_label undo_target_id redactor h =
    let (stored, _, _, _, a) =
      append_decision-Appended env db action target_id payload actor_label undo_target_id redactor
        h in
    (new_row env action target_id stored actor_label undo_target_id ∷ [], a.rows)

Step-keeps :
    {db db' : Ledger} → Step db db' → IsWellFormed db → IsWellFormed db' × IsExtendedBy db db'
Step-keeps
      (Step.appends env db action target_id payload actor_label undo_target_id redactor id db' h)
      w =
    (
      append_decision-IsWellFormed env db action target_id payload actor_label undo_target_id
          redactor w h,
      append_decision-IsExtendedBy env db action target_id payload actor_label undo_target_id
          redactor h,
    )
Step-keeps (Step.undoes env db d id db' h) w =
    let (row, k) = undo_decision-appends env db d id db' h in
    (
      append_decision-IsWellFormed env db "undo_decision" row.target_id (compensates d) "local-user"
          (some d) none w k,
      append_decision-IsExtendedBy env db "undo_decision" row.target_id (compensates d) "local-user"
          (some d) none k,
    )
Step-keeps (Step.others db candidates objects observations revision) w =
    (record { keyed = w.keyed; valid = w.valid }, ([], sym (append-nil db.human_decisions)))

-- However appends, undos and the transactions of other writers follow each other, from a well-formed
-- ledger, the ledger stays well formed and its decisions are only ever extended at the end.
pub Runs-keeps :
    {db db' : Ledger} → Runs db db' → IsWellFormed db → IsWellFormed db' × IsExtendedBy db db'
Runs-keeps (Runs.rests db) w = (w, ([], sym (append-nil db.human_decisions)))
Runs-keeps (Runs.continues db between after before step) w =
    let (well, (more, e)) = Runs-keeps before w in
    let (well', (last, f)) = Step-keeps step well in
    (
      well',
      (more ++ last, f ∙ ap (λ rows. rows ++ last) e ∙ append_assoc db.human_decisions more last),
    )
