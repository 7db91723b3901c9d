-- ===== src/Candidates/Search/Bounds.antt =====
-- The loops of `search`: the sizes of its sets, its fuel, and one turn by what it meets.
use work_trace.Prelude.{
  ℕ, zero, suc, ◌+◌, ◌≤◌, leb, String, true, false, ◌≡◌, refl, Option, some, List, [], ◌∷◌, ◌⊎◌, ap,
  length, length-append, arith, Bool-cases, inl, inr,
}
use mathlib.Core.Path.{subst, subst⁻¹, sym, ◌∙◌}
use work_trace.Prelude.Texts.{add}
use work_trace.Candidates.Objects.{Observed, Reference}
use work_trace.Candidates.Search.{
  Edge, Search, add_context, add_member, visit, visit_all, pop, search, search_from, start,
  edges_at,
}

-- What the loops keep: one more than a bound only with an overflow, and a queue that the members
-- pay for, with the entries popped so far.
abbrev pub Bounded : ℕ → Search → Type 0
Bounded popped s =
    (s.overflow ≡ false → (length s.members ≤ 200) × (length s.context ≤ 50))
    × (length s.members ≤ 201)
    × (length s.context ≤ 51)
    × (length s.queue + popped ≡ length s.members)

add-le : (x : String) (s : List String) → length (add x s) ≤ suc (length s)
unfolding add
add-le x s = ground (arith, length-append s (x ∷ []))

add_context-Bounded :
    (popped : ℕ) (x : String) (s : Search)
    → s.overflow ≡ false
    → Bounded popped s
    → Bounded popped (add_context x s)
unfolding add_context
add_context-Bounded popped x s o h = ground (arith, add-le x s.context)

add_member-Bounded :
    (popped : ℕ) (x : String) (depth : ℕ) (s : Search)
    → s.overflow ≡ false
    → Bounded popped s
    → Bounded popped (add_member x depth s)
unfolding add_member
add_member-Bounded popped x depth s o h =
    ground (arith, length-append s.members (x ∷ []), length-append s.queue ((x, suc depth) ∷ []))

visit-Bounded :
    (popped : ℕ) (objects : List Observed) (depth : ℕ) (e : Edge) (s : Search)
    → s.overflow ≡ false
    → Bounded popped s
    → Bounded popped (visit objects depth e s)
unfolding visit
visit-Bounded popped objects depth e s o h = ground (
  arith,
  add_context-Bounded popped e.target s o h,
  add_member-Bounded popped e.target depth s o h,
)

pub visit_all-Bounded :
    (popped : ℕ) (objects : List Observed) (depth : ℕ) (es : List Edge) (s : Search)
    → s.overflow ≡ false
    → Bounded popped s
    → Bounded popped (visit_all objects depth es s)
unfolding visit_all
visit_all-Bounded popped objects depth [] s o h = h
visit_all-Bounded popped objects depth (e ∷ es) s o h =
    let next = visit objects depth e s in
    let kept = visit-Bounded popped objects depth e s o h in
    elim (Bool-cases next.overflow) [
      | inl stop ↦ ground (arith, kept, stop)
      | inr more ↦ ground (arith, more, visit_all-Bounded popped objects depth es next more kept)
    ]

-- One turn of the outer loop, by what it meets.
module _ (fuel : ℕ) (objects : List Observed) (references : List Reference) (s : Search) where
  pub search-nil : s.queue ≡ [] → search (suc fuel) objects references s ≡ some s
  unfolding search
  search-nil e = ground (arith, e)

  module _ (id : String) (depth : ℕ) (rest : List (String × ℕ)) where
    pub search-deep :
        s.queue ≡ (id, depth) ∷ rest
        → leb 3 depth ≡ true
        → search (suc fuel) objects references s ≡ search fuel objects references (pop rest s)
    unfolding search
    search-deep e d = ground (arith, e, d)

    pub search-stop :
        s.queue ≡ (id, depth) ∷ rest
        → leb 3 depth ≡ false
        → (visit_all objects depth (edges_at id references) (pop rest s)).overflow ≡ true
        → search (suc fuel) objects references s
          ≡ some (visit_all objects depth (edges_at id references) (pop rest s))
    unfolding search
    search-stop e d o = ground (arith, e, d, o)

    pub search-more :
        s.queue ≡ (id, depth) ∷ rest
        → leb 3 depth ≡ false
        → (visit_all objects depth (edges_at id references) (pop rest s)).overflow ≡ false
        → search (suc fuel) objects references s
          ≡ search fuel objects references
              (visit_all objects depth (edges_at id references) (pop rest s))
    unfolding search
    search-more e d o = ground (arith, e, d, o)

pub queue-cases :
    (q : List (String × ℕ))
    → (q ≡ [])
      ⊎ ((id : String) × (depth : ℕ) × (rest : List (String × ℕ)) × (q ≡ (id, depth) ∷ rest))
queue-cases [] = inl refl
queue-cases ((id, depth) ∷ rest) = inr (id, depth, rest, refl)

pop-Bounded :
    (popped : ℕ) (entry : String × ℕ) (rest : List (String × ℕ)) (s : Search)
    → s.queue ≡ entry ∷ rest
    → Bounded popped s
    → Bounded (suc popped) (pop rest s)
unfolding pop
pop-Bounded popped entry rest s e (small, members, context, paid) =
    (small, members, context, omega (arith, paid, ap length e))

-- What a search that ends leaves.
abbrev pub Ended : Option Search → Type 0
Ended result =
    (found : Search) × (total : ℕ) × (result ≡ some found)
    × Bounded total found
    × ((found.overflow ≡ true) ⊎ (found.queue ≡ []))

-- After `popped` turns of the outer loop, the fuel covers what is queued and what may still be.
search_total :
    (fuel popped : ℕ) (objects : List Observed) (references : List Reference) (s : Search)
    → s.overflow ≡ false
    → Bounded popped s
    → 202 ≤ fuel + popped
    → Ended (search fuel objects references s)
unfolding pop
search_total zero popped objects references s o (small, members, context, paid) f =
    let absurd : ⊥ = omega (arith, members, paid, f) in elim absurd [ ]
search_total (suc fuel) popped objects references s o h f = elim (queue-cases s.queue) [
  | inl e ↦ (s, popped, search-nil fuel objects references s e, h, inr e)
  | inr (id, depth, rest, e) ↦
      let kept = pop-Bounded popped (id, depth) rest s e h in
      let next = visit_all objects depth (edges_at id references) (pop rest s) in
      let kept_next =
        visit_all-Bounded (suc popped) objects depth (edges_at id references) (pop rest s) o kept in
      elim (Bool-cases (leb 3 depth)) [
        | inl deep ↦ subst⁻¹ Ended (search-deep fuel objects references s id depth rest e deep) (
            search_total fuel (suc popped) objects references (pop rest s) o kept
              (omega (arith, f)))
        | inr shallow ↦ elim (Bool-cases next.overflow) [
          | inl stop ↦ (
            next,
            suc popped,
            search-stop fuel objects references s id depth rest e shallow stop,
            kept_next,
            inl stop,
          )
          | inr more ↦
              subst⁻¹ Ended (search-more fuel objects references s id depth rest e shallow more) (
                search_total fuel (suc popped) objects references next more kept_next
                  (omega (arith, f)))
        ]
      ]
]

pub search_from_ends :
    (objects : List Observed) (references : List Reference) (seed : String)
    → Ended (search_from objects references seed)
unfolding search_from start
search_from_ends objects references seed =
    search_total 202 0 objects references (start seed) refl
      ((λ _. (omega arith, omega arith)), omega arith, omega arith, refl) (omega arith)

pub search_from-Bounded :
    (objects : List Observed) (references : List Reference) (seed : String) {found : Search}
    → search_from objects references seed ≡ some found
    → (total : ℕ) × Bounded total found
search_from-Bounded objects references seed h =
    let (ended, total, e, bounded, _) = search_from_ends objects references seed in
    (total, subst (Bounded total) (some_inj (sym e ∙ h)) bounded)
  where
    some_inj : {a b : Search} → some a ≡ some b → a ≡ b
    some_inj h = cc
