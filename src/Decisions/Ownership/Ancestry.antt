-- ===== src/Decisions/Ownership/Ancestry.antt =====
-- The fuel of the walk along undo ancestry.
use work_trace.Prelude.{
  ℕ, zero, suc, ◌+◌, ◌≤◌, ◌<◌, String, false, ◌≡◌, ◌≢◌, some, List, [], ◌∷◌, if◌then◌else◌, arith,
  length, Option-cases, Bool-cases, inl, inr,
}
use work_trace.Prelude.Texts.{eq_iff, elem, lookup}
use work_trace.Decisions.Ledger.{Decision}
use work_trace.Decisions.Ancestry.{Scopes, exhausted, walk, decision_at, undo_ancestry_target}

-- How many decisions the walk has not met.
abbrev unseen : List String → List Decision → ℕ
unseen seen [] = 0
unseen seen (d ∷ ds) = (if elem d.id seen then 0 else 1) + unseen seen ds

unseen-le-length : (seen : List String) (ds : List Decision) → unseen seen ds ≤ length ds
unseen-le-length seen [] = omega arith
unseen-le-length seen (d ∷ ds) = ground (arith, unseen-le-length seen ds)

unseen-cons-le :
    (id : String) (seen : List String) (ds : List Decision) → unseen (id ∷ seen) ds ≤ unseen seen ds
unfolding elem
unseen-cons-le id seen [] = omega arith
unseen-cons-le id seen (d ∷ ds) = ground (arith, unseen-cons-le id seen ds)

unseen-cons-lt :
    (id : String) (seen : List String) (ds : List Decision) (d : Decision)
    → elem id seen ≡ false
    → decision_at id ds ≡ some d
    → unseen (id ∷ seen) ds < unseen seen ds
unfolding elem decision_at
unseen-cons-lt id seen [] c h f = absurd (ground arith)
unseen-cons-lt id seen (d ∷ ds) c h f = ground (
  arith,
  eq_iff d.id id,
  eq_iff id d.id,
  unseen-cons-le id seen ds,
  unseen-cons-lt id seen ds c h,
)

walk-ne-exhausted :
    (fuel : ℕ) (ds : List Decision) (result : Scopes) (id : String) (trail : List Decision)
    (seen : List String)
    → unseen seen ds < fuel
    → walk fuel ds result id trail seen ≢ exhausted
unfolding walk
walk-ne-exhausted zero ds result id trail seen h = elim h [ ]
walk-ne-exhausted (suc fuel) ds result id trail seen h = elim (Option-cases (lookup id result)) [
  | inr (app, e) ↦ ground (arith, e)
  | inl e ↦ elim (Bool-cases (elem id seen)) [
    | inl s ↦ ground (arith, e, s)
    | inr s ↦ elim (Option-cases (decision_at id ds)) [
      | inl f ↦ ground (arith, e, s, f)
      | inr (d, f) ↦ elim (Option-cases (undo_ancestry_target d ds)) [
        | inl g ↦ ground (arith, e, s, f, g)
        | inr (t, g) ↦ ground (
          arith,
          e,
          s,
          f,
          g,
          walk-ne-exhausted fuel ds result t.id (d ∷ trail) (id ∷ seen),
          unseen-cons-lt id seen ds d s f,
        )
      ]
    ]
  ]
]

-- The walk that the program starts at an undo event always ends by its test or by a `break`: among
-- n decisions n + 1 rounds are enough, whatever cycles the undo targets make.
pub walk_ends :
    (ds : List Decision) (result : Scopes) (id : String)
    → walk (suc (length ds)) ds result id [] [] ≢ exhausted
walk_ends ds result id =
    walk-ne-exhausted (suc (length ds)) ds result id [] [] (omega (arith, unseen-le-length [] ds))
