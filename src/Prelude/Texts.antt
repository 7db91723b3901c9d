-- ===== src/Prelude/Texts.antt =====
-- Texts as keys: equality, order, sets of texts as lists without repetition, and dictionaries.
use Prim.Native.String.{String, compare}
use mathlib.Core.Path.{◌≡◌, refl, ap}
use mathlib.Core.Bool.{Bool, true, false, ◌||◌, ◌&&◌}
use mathlib.Core.List.{List, [], ◌∷◌, ◌++◌}
use mathlib.Core.Option.{Option, none, some}
use native.Mathlib.Omega.{arith}
use text.Mathlib.Text.{is_le}
pub use text.Mathlib.Text.{◌==◌}
pub use text.Mathlib.TextEquality.{eq_iff}
pub use text.Mathlib.TextPositions.{eq_refl}
use work_trace.Prelude.Tests.{if◌then◌else◌, Bool-cases}
use work_trace.Prelude.Lists.{keep_if, take, length, All}
use Prim.Native.Nat.{ℕ, zero, suc}
use mathlib.Core.Logic.{inl, inr, ◌≢◌}

-- Texts that the test tells apart differ.
pub apart : (a b : String) → (a == b) ≡ false → a ≢ b
apart a b other e = let same = (eq_iff a b).1 e in absurd (cc)

-- `x in xs`
unfoldable pub elem : String → List String → Bool
elem x [] = false
elem x (y ∷ ys) = y == x || elem x ys

-- `s.add(x)`
unfoldable pub add : String → List String → List String
unfolding elem
add x s = if elem x s then s else s ++ x ∷ []

-- `s.update(xs)`
unfoldable pub update : List String → List String → List String
unfolding add
update [] s = s
update (x ∷ xs) s = update xs (add x s)

pub All-of_elem :
    (P : String → Type 0) (xs : List String) → ((x : String) → elem x xs ≡ true → P x) → All P xs
unfolding elem
All-of_elem P [] each = tt
All-of_elem P (x ∷ xs) each = (
  each x (ground (arith, eq_refl x)),
  All-of_elem P xs (λ y there. each y (ground (arith, there))),
)

pub elem-append : (k : String) (xs ys : List String) → elem k (xs ++ ys) ≡ (elem k xs || elem k ys)
unfolding elem
elem-append k [] ys = refl
elem-append k (x ∷ xs) ys = ground (arith, elem-append k xs ys)

pub elem-add : (k x : String) (xs : List String) → elem k (add x xs) ≡ ((x == k) || elem k xs)
unfolding add elem
elem-add k x xs = ground (arith, elem-append k xs (x ∷ []), eq_iff x k)

pub elem-update :
    (k : String) (ys xs : List String) → elem k (update ys xs) ≡ (elem k xs || elem k ys)
unfolding update elem
elem-update k [] xs = ground arith
elem-update k (y ∷ ys) xs = ground (arith, elem-update k ys (add y xs), elem-add k y xs)

abbrev pub text_le : String → String → Bool
text_le a b = is_le (compare a b)

insert_sorted : String → List String → List String
insert_sorted x [] = x ∷ []
insert_sorted x (y ∷ ys) = if text_le x y then x ∷ y ∷ ys else y ∷ insert_sorted x ys

-- `sorted(xs)`
unfoldable pub sorted : List String → List String
unfolding insert_sorted
sorted [] = []
sorted (x ∷ xs) = insert_sorted x (sorted xs)

elem-insert_sorted :
    (k x : String) (xs : List String) → elem k (insert_sorted x xs) ≡ ((x == k) || elem k xs)
unfolding elem insert_sorted
elem-insert_sorted k x [] = refl
elem-insert_sorted k x (y ∷ ys) = ground (arith, elem-insert_sorted k x ys)

pub elem-sorted : (k : String) (xs : List String) → elem k (sorted xs) ≡ elem k xs
unfolding sorted elem
elem-sorted k [] = refl
elem-sorted k (x ∷ xs) = ground (arith, elem-insert_sorted k x (sorted xs), elem-sorted k xs)

length-insert_sorted :
    (x : String) (xs : List String) → length (insert_sorted x xs) ≡ suc (length xs)
unfolding insert_sorted
length-insert_sorted x [] = refl
length-insert_sorted x (y ∷ ys) = ground (arith, length-insert_sorted x ys)

pub length-sorted : (xs : List String) → length (sorted xs) ≡ length xs
unfolding sorted
length-sorted [] = refl
length-sorted (x ∷ xs) = omega (arith, length-insert_sorted x (sorted xs), length-sorted xs)

pub elem-keep_if :
    (k : String) (p : String → Bool) (xs : List String) → elem k (keep_if p xs) ≡ (elem k xs && p k)
unfolding elem keep_if
elem-keep_if k p [] = refl
elem-keep_if k p (x ∷ xs) = elim (Bool-cases (x == k)) [
  | inl e ↦ ground (arith, e, ap p ((eq_iff x k).0 e), elem-keep_if k p xs)
  | inr e ↦ ground (arith, e, elem-keep_if k p xs)
]

pub elem-take :
    (k : String) (n : ℕ) (xs : List String) → elem k (take n xs) ≡ true → elem k xs ≡ true
unfolding elem
elem-take k zero xs h = cc
elem-take k (suc n) [] h = cc
elem-take k (suc n) (x ∷ xs) h = ground (arith, h, elem-take k n xs)

module _ {ℓ} {V : Type ℓ} where
  -- `d.get(k)`
  unfoldable pub lookup : String → List (String × V) → Option V
  lookup k [] = none
  lookup k ((j, v) ∷ m) = if j == k then some v else lookup k m

  -- `d[k] = v`
  unfoldable pub put : String → V → List (String × V) → List (String × V)
  put k v [] = (k, v) ∷ []
  put k v ((j, w) ∷ m) = if j == k then (j, v) ∷ m else (j, w) ∷ put k v m

  pub lookup-put :
      (k j : String) (v : V) (m : List (String × V))
      → lookup j (put k v m) ≡ (if k == j then some v else lookup j m)
  unfolding lookup put
  lookup-put k j v [] = refl
  lookup-put k j v ((i, w) ∷ m) =
      ground (arith, eq_iff k j, eq_iff i k, eq_iff i j, lookup-put k j v m)

  -- `d.setdefault(k, v)`
  unfoldable pub set_default : String → V → List (String × V) → List (String × V)
  set_default k v [] = (k, v) ∷ []
  set_default k v ((j, w) ∷ m) = if j == k then (j, w) ∷ m else (j, w) ∷ set_default k v m

  pub lookup-set_default :
      (k j : String) (v : V) (m : List (String × V))
      → lookup j (set_default k v m)
        ≡ elim (lookup j m) [ some w ↦ some w | none ↦ if k == j then some v else none ]
  unfolding lookup set_default
  lookup-set_default k j v [] = refl
  lookup-set_default k j v ((i, w) ∷ m) =
      ground (arith, eq_iff k j, eq_iff i k, eq_iff i j, lookup-set_default k j v m)
