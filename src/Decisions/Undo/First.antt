-- ===== src/Decisions/Undo/First.antt =====
-- What a compensation is, apart from the code, and the compensation map.
use work_trace.Prelude.{
  String, true, false, ◌≡◌, refl, ap, Option, none, some, List, [], ◌∷◌, ◌++◌, ◌⊎◌, inl, inr, arith,
  All, Bool-cases, Option-cases,
}
use work_trace.Prelude.Texts.{◌==◌, eq_iff, eq_refl, lookup}
use work_trace.Json.{Json, null, str, get, as_object, non_empty, contradicts}
use work_trace.Decisions.Ledger.{DecisionRow, is_undo, select_row}
use work_trace.Decisions.Compensation.{
  payload_contradicts, undone_by, valid_undo, valid_compensation_map,
}
use work_trace.Decisions.Undo.Canceled.{names, first_undo, lookup-valid_compensation_map}

abbrev pub compensates_of : DecisionRow → Json
compensates_of row = elim row.payload [ some p ↦ get "compensates" (as_object p) | none ↦ null ]

-- `row` is a valid undo event for `d`: it is an undo action that names `d`, which is a decision on
-- the same target and no undo action, and its payload says nothing else.
pub record IsUndoOf (rows : List DecisionRow) (row : DecisionRow) (d : String) : Type 0 where
  pub undo : is_undo row.action ≡ true
  pub named : row.undo_target_id ≡ some d
  pub present : (d == "") ≡ false
  pub target : DecisionRow
  pub found : select_row d rows ≡ some target
  pub proper : is_undo target.action ≡ false
  pub same : row.target_id ≡ target.target_id
  pub payload : (compensates_of row ≡ null) ⊎ (compensates_of row ≡ str d)

contradicts-false : (j : Json) (d : String) → contradicts j d ≡ false → (j ≡ null) ⊎ (j ≡ str d)
unfolding contradicts
contradicts-false null d h = inl refl
contradicts-false (str s) d h = inr (ground (arith, eq_iff s d))
contradicts-false j d h = ground arith

IsUndoOf-names :
    (rows : List DecisionRow) (row : DecisionRow) (d : String)
    → IsUndoOf rows row d
    → names (valid_undo rows row) d ≡ true
unfolding valid_undo undone_by non_empty payload_contradicts contradicts
IsUndoOf-names rows row d u = ground (
  arith,
  u.undo,
  u.named,
  u.present,
  u.found,
  u.proper,
  u.same,
  u.payload,
  eq_refl d,
  eq_iff row.target_id u.target.target_id,
)

payload_contradicts-false :
    (row : DecisionRow) (d : String)
    → payload_contradicts row.payload d ≡ false
    → (compensates_of row ≡ null) ⊎ (compensates_of row ≡ str d)
unfolding payload_contradicts
payload_contradicts-false row d h = elim (Option-cases row.payload) [
  | inl e ↦ inl (rw e)
  | inr (p, e) ↦ rw e (contradicts-false (get "compensates" (as_object p)) d (rw e at h))
]

undone_by-IsUndoOf :
    (rows : List DecisionRow) (row : DecisionRow) (t : String) (o : Option DecisionRow)
    → is_undo row.action ≡ true
    → row.undo_target_id ≡ some t
    → (t == "") ≡ false
    → select_row t rows ≡ o
    → (d : String) → names (undone_by row t o) d ≡ true
    → IsUndoOf rows row d
unfolding undone_by
undone_by-IsUndoOf rows row t none u n p f d h = absurd (ground arith)
undone_by-IsUndoOf rows row t (some target) u n p f d h =
    let e : t ≡ d = ground (arith, eq_iff t d) in
    record {
      undo = u;
      named = rw (← e) n;
      present = rw (← e) p;
      target = target;
      found = rw (← e) f;
      proper = ground arith;
      same = ground (arith, eq_iff row.target_id target.target_id);
      payload = rw (← e) (payload_contradicts-false row t (ground arith));
    }

names-IsUndoOf :
    (rows : List DecisionRow) (row : DecisionRow) (d : String)
    → names (valid_undo rows row) d ≡ true
    → IsUndoOf rows row d
unfolding valid_undo non_empty
names-IsUndoOf rows row d h = elim (Bool-cases (is_undo row.action)) [
  | inr e ↦ absurd (ground (arith, e))
  | inl u ↦ elim (Option-cases row.undo_target_id) [
    | inl e ↦ absurd (ground (arith, e, u))
    | inr (t, n) ↦ elim (Bool-cases (t == "")) [
      | inl e ↦ absurd (ground (arith, e, n, u))
      | inr p ↦
          undone_by-IsUndoOf rows row t (select_row t rows) u n p refl d (ground (arith, u, n, p))
    ]
  ]
]

-- The map is `some u` at `d`.
abbrev pub IsFirst : List DecisionRow → String → List DecisionRow → String → Type 0
IsFirst all d rows u =
    (earlier : List DecisionRow) × (row : DecisionRow) × (later : List DecisionRow) × (rows
      ≡ earlier ++ row ∷ later)
    × (row.id ≡ u)
    × IsUndoOf all row d
    × All (λ r. ¬ IsUndoOf all r d) earlier

first_undo-IsFirst :
    (all : List DecisionRow) (d : String) (rows : List DecisionRow) {u : String}
    → first_undo all d rows ≡ some u
    → IsFirst all d rows u
first_undo-IsFirst all d [] h = absurd (ground arith)
first_undo-IsFirst all d (row ∷ rows) h = elim (Bool-cases (names (valid_undo all row) d)) [
  | inl e ↦ ([], row, rows, refl, ground (arith, e), names-IsUndoOf all row d e, tt)
  | inr e ↦
      let (earlier, first, later, split, id, undo, clean) =
        first_undo-IsFirst all d rows (rw e at h) in
      (
        row ∷ earlier,
        first,
        later,
        ap (λ l. row ∷ l) split,
        id,
        undo,
        (λ w. cc (IsUndoOf-names all row d w, e), clean),
      )
]

first_undo-none :
    (all : List DecisionRow) (d : String) (rows : List DecisionRow)
    → first_undo all d rows ≡ none
    → All (λ r. ¬ IsUndoOf all r d) rows
first_undo-none all d [] h = tt
first_undo-none all d (row ∷ rows) h = elim (Bool-cases (names (valid_undo all row) d)) [
  | inl e ↦ absurd (ground (arith, e))
  | inr e ↦ (λ w. cc (IsUndoOf-names all row d w, e), first_undo-none all d rows (rw e at h))
]

-- Where the compensation map holds an undo event for a decision, the event is the first row of the
-- query that is a valid undo event for it.
pub valid_compensation_map-IsFirst :
    (rows : List DecisionRow) (d : String) {u : String}
    → lookup d (valid_compensation_map rows) ≡ some u
    → IsFirst rows d rows u
valid_compensation_map-IsFirst rows d h =
    first_undo-IsFirst rows d rows (cc (lookup-valid_compensation_map rows d, h))

-- Where the compensation map holds none, no row is a valid undo event for the decision.
pub valid_compensation_map-none :
    (rows : List DecisionRow) (d : String)
    → lookup d (valid_compensation_map rows) ≡ none
    → All (λ r. ¬ IsUndoOf rows r d) rows
valid_compensation_map-none rows d h =
    first_undo-none rows d rows (cc (lookup-valid_compensation_map rows d, h))
