-- ===== src/Candidates/Search/Complete.antt =====
-- `search` against the references: what is linked to the seed, and what the search has found.
use work_trace.Prelude.{
  ℕ, zero, suc, ◌≤◌, leb, String, true, ◌≡◌, refl, Option, none, some, List, [], ◌∷◌, ◌⊎◌, arith,
  Bool-cases, inl, inr,
}
use mathlib.Core.Path.{subst, subst⁻¹}
use work_trace.Prelude.Texts.{eq_iff, elem}
use work_trace.Candidates.Objects.{Observed, Reference}
use work_trace.Candidates.Search.{Search, visit_all, pop, search, search_from, start, edges_at}
use work_trace.Candidates.Search.Bounds.{
  search-nil, search-deep, search-stop, search-more, queue-cases,
}
use work_trace.Candidates.Search.Path.{Joins, Linked}
use work_trace.Candidates.Search.Frontier.{
  Entries, At, Within, Within-take, Ordered, Ordered-le, Kept, KeptBy, visit_all-Kept,
}
use work_trace.Candidates.Search.Follow.{visit_all-Joins}

module _ (objects : List Observed) (references : List Reference) (seed : String) where
  -- An entry is popped, and its depth is the least from here on.
  pop-Kept :
      (low : ℕ) (taken : Entries) (id : String) (depth : ℕ) (rest : Entries) (s : Search)
      → s.queue ≡ (id, depth) ∷ rest
      → KeptBy objects references seed low taken taken s
      → KeptBy objects references seed depth ((id, depth) ∷ taken) taken (pop rest s)
  unfolding pop
  pop-Kept low taken id depth rest s e k =
      let (least, most, ordered) = subst (Ordered low (suc low)) e k.ordered in
      let here : elem id s.members ≡ true =
        k.queued id depth (subst⁻¹ (At id depth) e (inl (refl, refl))) in
      record {
        ordered = Ordered-le depth (suc low) (suc depth) rest (omega (arith, least)) ordered;
        covered = λ x h.
            let (d, small, found) =
              Within-take x (suc low) taken rest (id, depth)
                (subst (Within x (suc low) taken) e (k.covered x h)) in
            (d, omega (arith, small, least), found);
        queued = λ x d h. k.queued x d (subst⁻¹ (At x d) e (inr h));
        visited = λ x d h. elim h [
          | inl same ↦ subst (λ y. elem y s.members ≡ true) same.0 here
          | inr old ↦ k.visited x d old
        ];
        closed = λ m d t small h joins.
            Within-take t (suc d) taken rest (id, depth)
              (subst (Within t (suc d) taken) e (k.closed m d t small h joins));
        rooted = elim k.rooted [
          | inl h ↦ inl (inr h)
          | inr h ↦ elim (subst (At seed 0) e h) [
            | inl same ↦ inl (inl same)
            | inr later ↦ inr later
          ]
        ];
      }

  -- Every edge of the popped entry was followed, or it is too deep to be.
  done-Kept :
      (depth : ℕ) (taken : Entries) (id : String) (members : List String) (queue : Entries)
      → Kept objects references seed depth ((id, depth) ∷ taken) taken members queue
      → ((t : String) → depth ≤ 2 → Joins objects references id t → elem t members ≡ true)
      → Kept objects references seed depth ((id, depth) ∷ taken) ((id, depth) ∷ taken) members queue
  done-Kept depth taken id members queue k followed = record {
    ordered = k.ordered;
    covered = k.covered;
    queued = k.queued;
    visited = k.visited;
    closed = λ m d t small h joins. elim h [
      | inl (same_id, same_depth) ↦
          let own = subst⁻¹ (λ i. Joins objects references i t) same_id joins in
          let (e, low, found) = k.covered t (followed t (omega (arith, same_depth, small)) own) in
          (e, omega (arith, low, same_depth), found)
      | inr old ↦ k.closed m d t small old joins
    ];
    rooted = k.rooted;
  }

  -- With an empty queue, what is linked within three edges was taken at no greater depth.
  Linked-Within :
      (low : ℕ) (taken : Entries) (members : List String)
      → Kept objects references seed low taken taken members []
      → (n : ℕ) (id : String) → n ≤ 3
      → Linked objects references seed n id
      → Within id n taken []
  Linked-Within low taken members k n id small Linked.here = (0, omega arith, k.rooted)
  Linked-Within low taken members k n id small (Linked.joined m from target l j) =
      let (d, less, found) = Linked-Within low taken members k m from (omega (arith, small)) l in
      elim found [
        | inl taken_at ↦
            let (e, less_e, found_e) = k.closed from d id (omega (arith, small, less)) taken_at j in
            (e, omega (arith, less_e, less), found_e)
        | inr waiting ↦ elim waiting [ ]
      ]

  -- A search that ends has overflowed or has found all that is linked.
  abbrev pub Complete : Option Search → Type 0
  Complete none = Unit
  Complete (some s) =
      (s.overflow ≡ true)
      ⊎ ((n : ℕ) (id : String)
          → n ≤ 3
          → Linked objects references seed n id
          → elem id s.members ≡ true)

  nil-Complete :
      (low : ℕ) (taken : Entries) (s : Search)
      → s.queue ≡ []
      → KeptBy objects references seed low taken taken s
      → Complete (some s)
  nil-Complete low taken s e k =
      let done = subst (Kept objects references seed low taken taken s.members) e k in
      inr (λ n id small l.
        let (d, less, found) = Linked-Within low taken s.members done n id small l in
        elim found [ inl h ↦ k.visited id d h | inr h ↦ elim h [ ] ])

  search-Complete :
      (fuel low : ℕ) (taken : Entries) (s : Search)
      → KeptBy objects references seed low taken taken s
      → Complete (search fuel objects references s)
  unfolding search
  search-Complete zero low taken s k = tt
  search-Complete (suc fuel) low taken s k = elim (queue-cases s.queue) [
    | inl e ↦
        subst⁻¹ Complete (search-nil fuel objects references s e) (nil-Complete low taken s e k)
    | inr (id, depth, rest, e) ↦
        let popped = pop-Kept low taken id depth rest s e k in
        let edges = edges_at id references in
        let next = visit_all objects depth edges (pop rest s) in
        elim (Bool-cases (leb 3 depth)) [
          | inl deep ↦
              let done =
                done-Kept depth taken id (pop rest s).members (pop rest s).queue popped
                  (λ t small j. let absurd : ⊥ = ground (arith, deep, small) in elim absurd [ ]) in
              subst⁻¹ Complete (search-deep fuel objects references s id depth rest e deep)
                (search-Complete fuel depth ((id, depth) ∷ taken) (pop rest s) done)
          | inr shallow ↦ elim (Bool-cases next.overflow) [
            | inl stop ↦
                subst⁻¹ Complete
                  (search-stop fuel objects references s id depth rest e shallow stop) (inl stop)
            | inr more ↦
                let kept =
                  visit_all-Kept objects references seed depth ((id, depth) ∷ taken) taken edges
                    (pop rest s) popped in
                let done = done-Kept depth taken id next.members next.queue kept (λ t small j.
                  visit_all-Joins objects references depth edges (pop rest s) id t j j.is_edge
                    more) in
                subst⁻¹ Complete
                  (search-more fuel objects references s id depth rest e shallow more)
                  (search-Complete fuel depth ((id, depth) ∷ taken) next done)
          ]
        ]
  ]

  start-Kept : KeptBy objects references seed 0 [] [] (start seed)
  unfolding start elem
  start-Kept = record {
    ordered = (omega arith, omega arith, tt);
    covered = λ x h. (0, omega arith, inr (inl (ground (arith, h, eq_iff seed x), refl)));
    queued = λ x d h. elim h [
      | inl same ↦ ground (arith, same, eq_iff seed x)
      | inr empty ↦ elim empty [ ]
    ];
    visited = λ x d h. elim h [ ];
    closed = λ m d t small h joins. elim h [ ];
    rooted = inr (inl (refl, refl));
  }

  pub search_from-Complete : Complete (search_from objects references seed)
  unfolding search_from
  search_from-Complete = search-Complete 202 0 [] (start seed) start-Kept
