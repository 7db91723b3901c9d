-- ===== src/Decisions/Context/Agreement.antt =====
-- The indexes of the projection context against scans of the ledger.
use work_trace.Prelude.{
  String, true, false, ◌≡◌, refl, Option, List, [], ◌∷◌, ◌++◌, if◌then◌else◌, keep_if,
  keep_if-keep_if, arith, Bool-cases, inl, inr,
}
use mathlib.Core.List.{append-nil, append_assoc}
use work_trace.Prelude.Texts.{elem-append, elem-update, ◌==◌, eq_iff, elem, add, update}
use work_trace.Decisions.Ledger.{Ledger, Decision}
use work_trace.Decisions.Compensation.{of_target, active_decisions, decision_stream}
use work_trace.Decisions.Lineage.{DecisionLineage, decision_lineages}
use work_trace.Decisions.Context.{
  Index, entries, append_at, append_all, target_index, identifiers, identifier_index, build_context,
  for_target, resolve_lineage, identifies, resolve_decision_lineage,
}

-- No text stands twice.
abbrev IsSetOfTexts : List String → Type 0
IsSetOfTexts [] = Unit
IsSetOfTexts (k ∷ ks) = (elem k ks ≡ false) × IsSetOfTexts ks

IsSetOfTexts-snoc :
    (x : String) (xs : List String)
    → IsSetOfTexts xs
    → elem x xs ≡ false
    → IsSetOfTexts (xs ++ x ∷ [])
unfolding elem
IsSetOfTexts-snoc x [] h e = (refl, tt)
IsSetOfTexts-snoc x (y ∷ ys) h e = (
  ground (arith, elem-append y ys (x ∷ []), eq_iff x y, eq_iff y x),
  IsSetOfTexts-snoc x ys h.1 (ground arith),
)

IsSetOfTexts-add : (x : String) (xs : List String) → IsSetOfTexts xs → IsSetOfTexts (add x xs)
unfolding add
IsSetOfTexts-add x xs h = elim (Bool-cases (elem x xs)) [
  | inl e ↦ rw e h
  | inr e ↦ rw e (IsSetOfTexts-snoc x xs h e)
]

IsSetOfTexts-update : (ys xs : List String) → IsSetOfTexts xs → IsSetOfTexts (update ys xs)
unfolding update
IsSetOfTexts-update [] xs h = h
IsSetOfTexts-update (y ∷ ys) xs h = IsSetOfTexts-update ys (add y xs) (IsSetOfTexts-add y xs h)

module _ {ℓ} {A : Type ℓ} where
  entries-append_at :
      (k j : String) (x : A) (index : Index A)
      → entries j (append_at k x index)
        ≡ (if k == j then entries j index ++ x ∷ [] else entries j index)
  unfolding entries append_at
  entries-append_at k j x [] = refl
  entries-append_at k j x ((i, xs) ∷ rest) =
      ground (arith, eq_iff k j, eq_iff i k, eq_iff i j, entries-append_at k j x rest)

  entries-append_all :
      (ks : List String) (j : String) (x : A) (index : Index A)
      → IsSetOfTexts ks
      → entries j (append_all ks x index)
        ≡ (if elem j ks then entries j index ++ x ∷ [] else entries j index)
  unfolding append_all elem
  entries-append_all [] j x index h = refl
  entries-append_all (k ∷ ks) j x index h = ground (
    arith,
    entries-append_all ks j x (append_at k x index) h.1,
    entries-append_at k j x index,
    eq_iff k j,
  )

entries-target_index :
    (t : String) (ds : List Decision) (index : Index Decision)
    → entries t (target_index ds index) ≡ entries t index ++ of_target t ds
unfolding target_index of_target keep_if
entries-target_index t [] index = rw append-nil
entries-target_index t (d ∷ ds) index = elim (Bool-cases (d.target_id == t)) [
  | inl e ↦ rw (entries-target_index t ds, entries-append_at, e, append_assoc)
  | inr e ↦ rw (entries-target_index t ds, entries-append_at, e)
]

elem-identifiers : (i : String) (l : DecisionLineage) → elem i (identifiers l) ≡ identifies i l
unfolding identifiers identifies elem
elem-identifiers i l = ground (
  arith,
  elem-update i l.contribution_ids (update l.candidate_ids []),
  elem-update i l.candidate_ids [],
)

identifiers-IsSetOfTexts : (l : DecisionLineage) → IsSetOfTexts (identifiers l)
unfolding identifiers
identifiers-IsSetOfTexts l =
    IsSetOfTexts-update l.contribution_ids (update l.candidate_ids [])
      (IsSetOfTexts-update l.candidate_ids [] tt)

entries-identifier_index :
    (i : String) (ls : List DecisionLineage) (index : Index DecisionLineage)
    → entries i (identifier_index ls index) ≡ entries i index ++ keep_if (identifies i) ls
unfolding identifier_index keep_if
entries-identifier_index i [] index = rw append-nil
entries-identifier_index i (l ∷ ls) index =
    rw
      (
        entries-identifier_index i ls,
        entries-append_all (identifiers l) i l index (identifiers-IsSetOfTexts l),
        elem-identifiers,
      )
      (elim (Bool-cases (identifies i l)) [ inl e ↦ rw (e, append_assoc) | inr e ↦ rw e ])

-- The context answers for a target what a scan of the active stream does.
pub for_target-active_decisions :
    (db : Ledger) (target_id : String)
    → for_target (build_context db) target_id ≡ active_decisions db target_id
unfolding for_target build_context active_decisions entries
for_target-active_decisions db target_id =
    entries-target_index target_id (decision_stream db true) []

-- The context resolves every identifier, under every app or none, as the scan of all lineages does:
-- to the same lineage, to none, or with the same error.
pub resolve_lineage-agrees :
    (db : Ledger) (identifier : String) (app_id : Option String)
    → resolve_lineage (build_context db) identifier app_id
      ≡ resolve_decision_lineage db identifier app_id
unfolding resolve_lineage resolve_decision_lineage build_context decision_lineages entries
resolve_lineage-agrees db identifier app_id = rw (entries-identifier_index, keep_if-keep_if)
