-- ===== src/Decisions/Undo/Canceled.antt =====
-- The compensation map against a search for the first valid undo event.
use work_trace.Prelude.{
  String, Bool, true, false, ◌≡◌, refl, ◌∙◌, ◌||◌, Option, none, some, List, [], ◌∷◌, if◌then◌else◌,
  is_some, arith, any, Option-cases, Bool-cases, inl, inr,
}
use work_trace.Json.{non_empty}
use mathlib.Core.Path.{fun_ext}
use work_trace.Prelude.Texts.{◌==◌, eq_iff, lookup, set_default, lookup-set_default}
use work_trace.Decisions.Ledger.{DecisionRow, is_undo, insert_row, select_row}
use work_trace.Decisions.Compensation.{
  undone_by, valid_undo, compensation_loop, valid_compensation_map,
}
use work_trace.Decisions.Rows.{any-insert_row, select-insert_row}

-- The row cancels `d`.
abbrev pub names : Option String → String → Bool
names none d = false
names (some t) d = t == d

-- The first row of `rows` that is a valid undo event for `d`.
abbrev pub first_undo : List DecisionRow → String → List DecisionRow → Option String
first_undo all d [] = none
first_undo all d (row ∷ rows) =
    if names (valid_undo all row) d then some row.id else first_undo all d rows

lookup-compensation_loop :
    (all rows : List DecisionRow) (result : List (String × String)) (d : String)
    → lookup d (compensation_loop all rows result)
      ≡ elim (lookup d result) [ some w ↦ some w | none ↦ first_undo all d rows ]
unfolding compensation_loop
lookup-compensation_loop all [] result d = ground arith
lookup-compensation_loop all (row ∷ rows) result d = elim (Option-cases (valid_undo all row)) [
  | inl e ↦ rw e (lookup-compensation_loop all rows result d ∙ ground (arith, e))
  | inr (t, e) ↦ rw e (
      lookup-compensation_loop all rows (set_default t row.id result) d
      ∙ ground (arith, e, lookup-set_default t d row.id result))
]

-- The map sends a decision to the first valid undo event for it, in the order of the query.
pub lookup-valid_compensation_map :
    (rows : List DecisionRow) (d : String)
    → lookup d (valid_compensation_map rows) ≡ first_undo rows d rows
unfolding valid_compensation_map lookup
lookup-valid_compensation_map rows d = lookup-compensation_loop rows rows [] d

first_undo-any :
    (all rows : List DecisionRow) (d : String)
    → is_some (first_undo all d rows) ≡ any (λ row. names (valid_undo all row) d) rows
unfolding any
first_undo-any all [] d = refl
first_undo-any all (row ∷ rows) d = ground (arith, first_undo-any all rows d)

abbrev pub is_canceled : List DecisionRow → String → Bool
is_canceled rows d = is_some (lookup d (valid_compensation_map rows))

pub is_canceled-any :
    (rows : List DecisionRow) (d : String)
    → is_canceled rows d ≡ any (λ row. names (valid_undo rows row) d) rows
is_canceled-any rows d = rw lookup-valid_compensation_map (first_undo-any rows rows d)

module _ (new : DecisionRow) (rows : List DecisionRow) (fresh : select_row new.id rows ≡ none)
    (undo : is_undo new.action ≡ true) where
  -- A new undo event makes no other row a valid undo event, and unmakes none.
  valid_undo-insert_row :
      (row : DecisionRow) → valid_undo (insert_row new rows) row ≡ valid_undo rows row
  unfolding valid_undo undone_by
  valid_undo-insert_row row = elim (Bool-cases (is_undo row.action)) [
    | inl e ↦ rw e (elim (Option-cases row.undo_target_id) [
      | inl n ↦ rw n
      | inr (t, n) ↦ rw n (elim (Option-cases (non_empty t)) [
        | inl m ↦ rw m
        | inr (u, m) ↦
            rw m (ground (arith, select-insert_row u new rows fresh, eq_iff new.id u, undo))
      ])
    ])
    | inr e ↦ rw e
  ]

  -- What is canceled after a new undo event: what was, and what it names.
  pub is_canceled-insert_row :
      (d : String)
      → is_canceled (insert_row new rows) d ≡ (names (valid_undo rows new) d || is_canceled rows d)
  is_canceled-insert_row d =
      is_canceled-any (insert_row new rows) d
      ∙ rw (fun_ext valid_undo-insert_row)
          (any-insert_row (λ row. names (valid_undo rows row) d) new rows ∙ rw is_canceled-any)
