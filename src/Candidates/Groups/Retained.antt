-- ===== src/Candidates/Groups/Retained.antt =====
-- `retained_members` and `retained_context`: the bounds, and what they keep of the sets of a search.
use work_trace.Prelude.{
  ℕ, zero, suc, ◌≤◌, ◌<◌, Bool, String, true, false, not, ◌≡◌, refl, ap, ◌∙◌, Bool-cases, inl, inr,
  some, List, [], ◌∷◌, ◌&&◌, ◌||◌, length, length-take-le, take, keep_if, All, arith,
}
use work_trace.Prelude.Texts.{
  ◌==◌, eq_iff, eq_refl, elem, sorted, elem-sorted, length-sorted, elem-keep_if, elem-take,
}
use mathlib.Core.Path.{subst}
use work_trace.Candidates.Objects.{Observed, Reference}
use work_trace.Candidates.Search.{Search, search_from}
use work_trace.Candidates.Search.Bounds.{search_from-Bounded}
use work_trace.Candidates.Search.Path.{Found, search_from-Explained}
use work_trace.Candidates.Groups.{Texts, group_of, retained_members, retained_context}

pub All-of_elem {κ} :
    (P : String → Type κ) (xs : List String) → ((x : String) → elem x xs ≡ true → P x) → All P xs
unfolding elem
All-of_elem P [] f = tt
All-of_elem P (x ∷ xs) f =
    (f x (ground (arith, eq_refl x)), All-of_elem P xs (λ y h. f y (ground (arith, h))))

-- No context object is a member.
pub retained_context-Apart :
    (context members : List String)
    → All (λ c. elem c members ≡ false) (retained_context context members)
unfolding retained_context
retained_context-Apart context members = All-of_elem _ _ (λ c h. ground (
  arith,
  elem-take c 50 (sorted (keep_if (λ d. not (elem d members)) context)) h,
  elem-sorted c (keep_if (λ d. not (elem d members)) context),
  elem-keep_if c (λ d. not (elem d members)) context,
))

pub retained_members-seed :
    (seed : String) (members : List String) → elem seed (retained_members seed members) ≡ true
unfolding retained_members elem
retained_members-seed seed members = ground (arith, eq_refl seed)

-- What is retained is the seed or was found.
pub elem-retained_members :
    (x seed : String) (members : List String)
    → elem x (retained_members seed members) ≡ true
    → ((seed == x) || elem x members) ≡ true
unfolding retained_members elem
elem-retained_members x seed members h = ground (
  arith,
  elem-take x 200 (seed ∷ sorted (keep_if (λ m. not (m == seed)) members)) h,
  elem-sorted x (keep_if (λ m. not (m == seed)) members),
  elem-keep_if x (λ m. not (m == seed)) members,
)

pub length-retained_members :
    (seed : String) (members : List String) → length (retained_members seed members) ≤ 200
unfolding retained_members
length-retained_members seed members =
    length-take-le 200 (seed ∷ sorted (keep_if (λ m. not (m == seed)) members))

pub length-retained_context :
    (context members : List String) → length (retained_context context members) ≤ 50
unfolding retained_context
length-retained_context context members =
    length-take-le 50 (sorted (keep_if (λ c. not (elem c members)) context))

take_all : (n : ℕ) (xs : List String) → length xs ≤ n → take n xs ≡ xs
take_all zero [] h = refl
take_all zero (x ∷ xs) h = elim h [ ]
take_all (suc n) [] h = refl
take_all (suc n) (x ∷ xs) h = rw (take_all n xs (omega (arith, h))) refl

length-keep_if-le : (p : String → Bool) (xs : List String) → length (keep_if p xs) ≤ length xs
unfolding keep_if
length-keep_if-le p [] = omega arith
length-keep_if-le p (x ∷ xs) = ground (arith, length-keep_if-le p xs)

length-keep_if-lt :
    (seed : String) (xs : List String)
    → elem seed xs ≡ true
    → length (keep_if (λ m. not (m == seed)) xs) < length xs
unfolding keep_if elem
length-keep_if-lt seed [] h = cc
length-keep_if-lt seed (x ∷ xs) h =
    ground (arith, h, length-keep_if-lt seed xs, length-keep_if-le (λ m. not (m == seed)) xs)

-- With the seed in front the set stays the same.
elem-seed_first :
    (x seed : String) (members : List String)
    → elem seed members ≡ true
    → elem x (seed ∷ sorted (keep_if (λ m. not (m == seed)) members)) ≡ elem x members
unfolding elem
elem-seed_first x seed members s =
    let others = keep_if (λ m. not (m == seed)) members in
    elim (Bool-cases (seed == x)) [
      | inl e ↦
          let same : elem x members ≡ true =
            subst (λ y. elem y members ≡ true) ((eq_iff seed x).0 e) s in
          rw (e, same) refl
      | inr e ↦ ground (
        arith,
        e,
        elem-sorted x others,
        elem-keep_if x (λ m. not (m == seed)) members,
        eq_iff x seed,
        eq_iff seed x,
      )
    ]

retained_members-all :
    (x seed : String) (members : List String)
    → elem seed members ≡ true
    → length members ≤ 200
    → elem x (retained_members seed members) ≡ elem x members
unfolding retained_members
retained_members-all x seed members s h =
    let others = keep_if (λ m. not (m == seed)) members in
    let whole =
      take_all 200 (seed ∷ sorted others)
        (omega (arith, h, length-sorted others, length-keep_if-lt seed members s)) in
    ap (elem x) whole ∙ elem-seed_first x seed members s

retained_context-all :
    (x : String) (context members : List String)
    → length context ≤ 50
    → elem x (retained_context context members) ≡ (elem x context && not (elem x members))
unfolding retained_context
retained_context-all x context members h =
    let outside = keep_if (λ c. not (elem c members)) context in
    let whole = take_all 50 (sorted outside) (
      omega
        (arith, h, length-sorted outside, length-keep_if-le (λ c. not (elem c members)) context)) in
    ground (
      arith,
      ap (elem x) whole,
      elem-sorted x outside,
      elem-keep_if x (λ c. not (elem c members)) context,
    )

-- Where the search from a seed does not overflow, its group, which is then no group for manual
-- narrowing, leaves nothing out: an object is a member exactly when the search found it as one, and
-- is in the context exactly when the search found it as context and it is no member.
pub group_of-whole :
    (texts : Texts) (app : String) (objects : List Observed) (references : List Reference)
    (seed : Observed) (x : String) {found : Search}
    → search_from objects references seed.source_object_id ≡ some found
    → found.overflow ≡ false
    → let group = group_of texts app objects references seed found in
      (group.status ≡ "candidate")
      × (elem x group.members ≡ elem x found.members)
      × (elem x group.context ≡ (elem x found.context && not (elem x found.members)))
unfolding group_of
group_of-whole texts app objects references seed x {found = found} h o =
    let id = seed.source_object_id in
    let (total, (small, _, _, _)) = search_from-Bounded objects references id h in
    let (near, queued, seeded) =
      subst (Found objects references id) h (search_from-Explained objects references id) in
    let bounds = small o in
    let members = retained_members id found.members in
    (
      rw o refl,
      retained_members-all x id found.members seeded bounds.0,
      ground (
        arith,
        retained_context-all x found.context members bounds.1,
        retained_members-all x id found.members seeded bounds.0,
      ),
    )
