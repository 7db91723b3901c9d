-- ===== src/Server/Scan/Order.antt =====
-- The keyset order of `_RAW_CANDIDATE_SQL` (read_models/candidates.py).
use mathlib.Core.Path.{subst}
use work_trace.Prelude.{
  String, Bool, true, false, ◌&&◌, List, [], ◌∷◌, ◌++◌, keep_if, keep_if-keep_if, All, if-split,
  ◌≡◌, refl, sym, ap, ◌∙◌, arith,
}
use work_trace.Prelude.Texts.{◌==◌}
use work_trace.Prelude.Order.{text_lt, text_lt_irrefl, text_lt_trans}
use work_trace.Server.Scan.{CandidateRow, candidates_after}

abbrev pub Precedes : CandidateRow → CandidateRow → Type 0
Precedes row other = text_lt row.id other.id ≡ true

-- The table as its primary key orders it.
abbrev pub IsOrdered : List CandidateRow → Type 0
IsOrdered [] = Unit
IsOrdered (row ∷ rows) = All (Precedes row) rows × IsOrdered rows

module _ {ℓ κ} {A : Type ℓ} where
  All-middle : (P : A → Type κ) (xs : List A) (x : A) (ys : List A) → All P (xs ++ x ∷ ys) → P x
  All-middle P [] x ys all = all.0
  All-middle P (y ∷ xs) x ys all = All-middle P xs x ys all.1

  All-keep_if : (P : A → Type κ) (p : A → Bool) (xs : List A) → All P xs → All P (keep_if p xs)
  unfolding keep_if
  All-keep_if P p [] all = tt
  All-keep_if P p (x ∷ xs) all =
      if-split (All P) (p x) (x ∷ keep_if p xs) (keep_if p xs)
        (λ e. (all.0, All-keep_if P p xs all.1)) (λ e. All-keep_if P p xs all.1)

  -- What a test lets through passes it.
  keep_if-All :
      (P : A → Type κ) (p : A → Bool)
      → ((x : A) → p x ≡ true → P x)
      → (xs : List A) → All P (keep_if p xs)
  unfolding keep_if
  keep_if-All P p pass [] = tt
  keep_if-All P p pass (x ∷ xs) =
      if-split (All P) (p x) (x ∷ keep_if p xs) (keep_if p xs)
        (λ e. (pass x e, keep_if-All P p pass xs)) (λ e. keep_if-All P p pass xs)

kept_whole {ℓ} :
    {A : Type ℓ} (p : A → Bool) (xs : List A) → All (λ x. p x ≡ true) xs → keep_if p xs ≡ xs
unfolding keep_if
kept_whole p [] all = refl
kept_whole p (x ∷ xs) all = rw (all.0, kept_whole p xs all.1)

keep_if-same {ℓ} :
    {A : Type ℓ} (p q : A → Bool) (xs : List A)
    → ((x : A) → p x ≡ q x)
    → keep_if p xs ≡ keep_if q xs
unfolding keep_if
keep_if-same p q [] same = refl
keep_if-same p q (x ∷ xs) same = rw (same x, keep_if-same p q xs same)

IsOrdered-keep_if :
    (p : CandidateRow → Bool) (table : List CandidateRow)
    → IsOrdered table
    → IsOrdered (keep_if p table)
unfolding keep_if
IsOrdered-keep_if p [] ordered = tt
IsOrdered-keep_if p (row ∷ rows) ordered =
    if-split IsOrdered (p row) (row ∷ keep_if p rows) (keep_if p rows)
      (λ e. (All-keep_if (Precedes row) p rows ordered.0, IsOrdered-keep_if p rows ordered.1))
      (λ e. IsOrdered-keep_if p rows ordered.1)

-- In an ordered list the rows after one of its rows are those that stand behind it.
keep_if-behind :
    (before : List CandidateRow) (row : CandidateRow) (behind : List CandidateRow)
    → IsOrdered (before ++ row ∷ behind)
    → keep_if (λ (other : CandidateRow). text_lt row.id other.id) (before ++ row ∷ behind) ≡ behind
unfolding keep_if
keep_if-behind [] row behind ordered =
    rw (
      text_lt_irrefl row.id,
      kept_whole (λ (r : CandidateRow). text_lt row.id r.id) behind ordered.0,
    )
keep_if-behind (first ∷ before) row behind ordered =
    let first_row = All-middle (Precedes first) before row behind ordered.0 in
    let back : text_lt row.id first.id ≡ false =
      ground (arith, first_row, text_lt_irrefl row.id, text_lt_trans row.id first.id row.id) in
    rw (back, keep_if-behind before row behind ordered.1)

later_kept :
    (a b c : String) (p q : Bool)
    → text_lt a b ≡ true
    → (text_lt b c && p && q) ≡ ((text_lt a c && p && q) && text_lt b c)
later_kept a b c p q below = ground (arith, below, text_lt_trans a b c)

-- The rows after the last row that was taken are those that were left.
pub candidates_after-behind :
    (app_id generated_at after : String) (table before : List CandidateRow) (row : CandidateRow)
    (behind : List CandidateRow)
    → IsOrdered table
    → candidates_after app_id generated_at after table ≡ before ++ row ∷ behind
    → candidates_after app_id generated_at row.id table ≡ behind
unfolding candidates_after
candidates_after-behind app_id generated_at after table before row behind ordered split =
    let kept = λ (r : CandidateRow).
      text_lt after r.id && (r.app_id == app_id) && (r.generated_at == generated_at) in
    let later = λ (r : CandidateRow). text_lt row.id r.id in
    let past : text_lt after row.id ≡ true =
      All-middle (λ (r : CandidateRow). text_lt after r.id ≡ true) before row behind
        (subst (All (λ (r : CandidateRow). text_lt after r.id ≡ true)) split (
          keep_if-All (λ (r : CandidateRow). text_lt after r.id ≡ true) kept
            (λ r e. ground (arith, e)) table)) in
    keep_if-same _ (λ r. kept r && later r) table (λ r. later_kept after row.id r.id _ _ past)
    ∙ sym (keep_if-keep_if later kept table)
    ∙ ap (keep_if later) split
    ∙ keep_if-behind before row behind
        (subst IsOrdered split (IsOrdered-keep_if kept table ordered))
