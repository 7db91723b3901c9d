-- ===== src/Candidates/Search/Frontier.antt =====
-- The invariant of `search`: the depths on its queue, and the depth at which each member was queued.
use work_trace.Prelude.{
  ℕ, suc, ◌≤◌, String, true, ◌≡◌, refl, List, [], ◌∷◌, ◌++◌, if-split, Option-split, ◌⊎◌, arith,
  Bool-cases, inl, inr,
}
use work_trace.Prelude.Texts.{eq_iff, eq_refl, elem, elem-append}
use work_trace.Candidates.Objects.{Observed, Reference, structural, find_object, is_boundary}
use work_trace.Candidates.Search.{
  Edge, Search, add_context, add_member, visit, visit_all, is_skipped,
}
use work_trace.Candidates.Search.Path.{Joins}

abbrev pub Entries : Type 0
Entries = List (String × ℕ)

-- The list has the object at the depth.
abbrev pub At : String → ℕ → Entries → Type 0
At x d [] = ⊥
At x d ((y, e) ∷ q) = ((y ≡ x) × (e ≡ d)) ⊎ At x d q

At-append_left : (x : String) (d : ℕ) (p q : Entries) → At x d p → At x d (p ++ q)
At-append_left x d [] q h = elim h [ ]
At-append_left x d (e ∷ p) q (inl h) = inl h
At-append_left x d (e ∷ p) q (inr h) = inr (At-append_left x d p q h)

At-append_right : (x : String) (d : ℕ) (p q : Entries) → At x d q → At x d (p ++ q)
At-append_right x d [] q h = h
At-append_right x d (e ∷ p) q h = inr (At-append_right x d p q h)

At-split : (x : String) (d : ℕ) (p q : Entries) → At x d (p ++ q) → At x d p ⊎ At x d q
At-split x d [] q h = inr h
At-split x d (e ∷ p) q (inl h) = inl (inl h)
At-split x d (e ∷ p) q (inr h) = elim (At-split x d p q h) [ inl k ↦ inl (inr k) | inr k ↦ inr k ]

-- The object was taken from the queue, or waits on it, at a depth of at most `n`.
abbrev pub Within : String → ℕ → Entries → Entries → Type 0
Within x n taken queue = (d : ℕ) × (d ≤ n) × (At x d taken ⊎ At x d queue)

Within-append :
    (x : String) (n : ℕ) (taken queue more : Entries)
    → Within x n taken queue
    → Within x n taken (queue ++ more)
Within-append x n taken queue more (d, small, inl h) = (d, small, inl h)
Within-append x n taken queue more (d, small, inr h) =
    (d, small, inr (At-append_left x d queue more h))

pub Within-take :
    (x : String) (n : ℕ) (taken rest : Entries) (entry : String × ℕ)
    → Within x n taken (entry ∷ rest)
    → Within x n (entry ∷ taken) rest
Within-take x n taken rest entry (d, small, inl h) = (d, small, inl (inr h))
Within-take x n taken rest entry (d, small, inr (inl h)) = (d, small, inl (inl h))
Within-take x n taken rest entry (d, small, inr (inr h)) = (d, small, inr h)

-- The depths on a queue do not decrease, from `low` to `high`.
abbrev pub Ordered : ℕ → ℕ → Entries → Type 0
Ordered low high [] = Unit
Ordered low high ((x, d) ∷ q) = (low ≤ d) × (d ≤ high) × Ordered d high q

Ordered-append :
    (low high : ℕ) (q : Entries) (x : String)
    → low ≤ high
    → Ordered low high q
    → Ordered low high (q ++ (x, high) ∷ [])
Ordered-append low high [] x h o = (h, omega arith, tt)
Ordered-append low high ((y, d) ∷ q) x h (l, u, o) = (l, u, Ordered-append d high q x u o)

pub Ordered-le :
    (low high more : ℕ) (q : Entries) → high ≤ more → Ordered low high q → Ordered low more q
Ordered-le low high more [] h o = tt
Ordered-le low high more ((y, d) ∷ q) h (l, u, o) =
    (l, omega (arith, h, u), Ordered-le d high more q h o)

module _ (objects : List Observed) (references : List Reference) (seed : String) where
  -- What the loops keep: `taken` was popped, and of these all of `done` was followed.
  pub record Kept (low : ℕ) (taken done : Entries) (members : List String) (queue : Entries)
      : Type 0 where
    pub ordered : Ordered low (suc low) queue
    pub covered : (x : String) → elem x members ≡ true → Within x (suc low) taken queue
    pub queued : (x : String) (d : ℕ) → At x d queue → elem x members ≡ true
    pub visited : (x : String) (d : ℕ) → At x d taken → elem x members ≡ true
    pub closed :
        (m : String) (d : ℕ) (t : String)
        → d ≤ 2
        → At m d done
        → Joins objects references m t
        → Within t (suc d) taken queue
    pub rooted : At seed 0 taken ⊎ At seed 0 queue

  abbrev pub KeptBy : ℕ → Entries → Entries → Search → Type 0
  KeptBy low taken done s = Kept low taken done s.members s.queue

  add_member-Kept :
      (target : String) (depth : ℕ) (taken done : Entries) (s : Search)
      → KeptBy depth taken done s
      → KeptBy depth taken done (add_member target depth s)
  unfolding add_member elem
  add_member-Kept target depth taken done s k =
      if-split (KeptBy depth taken done) (elem target s.members) s _ (λ e. k)
        (λ e. record {
          ordered = Ordered-append depth (suc depth) s.queue target (omega arith) k.ordered;
          covered = λ x h. elim (Bool-cases (elem x s.members)) [
            | inl old ↦
                Within-append x (suc depth) taken s.queue ((target, suc depth) ∷ [])
                  (k.covered x old)
            | inr fresh ↦
                let new : target ≡ x =
                  ground
                    (arith, h, fresh, elem-append x s.members (target ∷ []), eq_iff target x) in
                (
                  suc depth,
                  omega arith,
                  inr (
                      At-append_right x (suc depth) s.queue ((target, suc depth) ∷ [])
                        (inl (new, refl))),
                )
          ];
          queued = λ x d h. elim (At-split x d s.queue ((target, suc depth) ∷ []) h) [
            | inl old ↦ ground (arith, k.queued x d old, elem-append x s.members (target ∷ []))
            | inr new ↦ elim new [
              | inl same ↦
                  ground
                    (arith, same, eq_refl x, eq_iff target x, elem-append x s.members (target ∷ []))
              | inr empty ↦ elim empty [ ]
            ]
          ];
          visited = λ x d h. ground (arith, k.visited x d h, elem-append x s.members (target ∷ []));
          closed = λ m d t small h joins.
              Within-append t (suc d) taken s.queue ((target, suc depth) ∷ [])
                (k.closed m d t small h joins);
          rooted = elim k.rooted [
            | inl h ↦ inl h
            | inr h ↦ inr (At-append_left seed 0 s.queue ((target, suc depth) ∷ []) h)
          ];
        })

  add_context-Kept :
      (id : String) (depth : ℕ) (taken done : Entries) (s : Search)
      → KeptBy depth taken done s
      → KeptBy depth taken done (add_context id s)
  unfolding add_context
  add_context-Kept id depth taken done s k = k

  visit-Kept :
      (depth : ℕ) (taken done : Entries) (e : Edge) (s : Search)
      → KeptBy depth taken done s
      → KeptBy depth taken done (visit objects depth e s)
  unfolding visit
  visit-Kept depth taken done e s k =
      let Keeps : Search → Type 0 = KeptBy depth taken done in
      let context = add_context-Kept e.target depth taken done s k in
      Option-split Keeps (find_object e.target objects) s _ (λ m. k)
        (λ o c.
          if-split Keeps (is_skipped e) s _ (λ m. k)
            (λ f.
              if-split Keeps (elem e.relationship structural) _ _
                (λ m.
                  if-split Keeps (is_boundary o) _ _ (λ b. context)
                    (λ b. add_member-Kept e.target depth taken done s k))
                (λ m. if-split Keeps _ _ s (λ b. context) (λ b. k))))

  pub visit_all-Kept :
      (depth : ℕ) (taken done : Entries) (es : List Edge) (s : Search)
      → KeptBy depth taken done s
      → KeptBy depth taken done (visit_all objects depth es s)
  unfolding visit_all
  visit_all-Kept depth taken done [] s k = k
  visit_all-Kept depth taken done (e ∷ es) s k =
      let next = visit objects depth e s in
      let kept = visit-Kept depth taken done e s k in
      if-split (KeptBy depth taken done) next.overflow next (visit_all objects depth es next)
        (λ o. kept) (λ o. visit_all-Kept depth taken done es next kept)
