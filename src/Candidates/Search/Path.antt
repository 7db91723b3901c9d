-- ===== src/Candidates/Search/Path.antt =====
-- `search` against the references: the chain of structural references behind each member.
use work_trace.Prelude.{
  ℕ, zero, suc, ◌≤◌, leb, String, true, false, ◌≡◌, refl, Option, none, some, List, [], ◌∷◌, ◌++◌,
  if-split, Option-split, ◌⊎◌, arith, Bool-cases, inl, inr,
}
use mathlib.Core.Path.{subst, subst⁻¹}
use work_trace.Prelude.Texts.{elem, eq_refl, elem-append}
use work_trace.Candidates.Objects.{Observed, Reference, find_object, structural, is_boundary}
use work_trace.Candidates.Search.Bounds.{
  search-nil, search-deep, search-stop, search-more, queue-cases,
}
use work_trace.Candidates.Search.{
  Edge, Search, add_context, add_member, visit, visit_all, pop, search, search_from, start,
  edges_at, is_skipped,
}

abbrev pub IsAmong : Edge → List Edge → Type 0
IsAmong e [] = ⊥
IsAmong e (f ∷ fs) = (e ≡ f) ⊎ IsAmong e fs

-- An edge of `id` that makes its target a member.
pub record Joins (objects : List Observed) (references : List Reference) (id target : String)
    : Type 0 where
  pub edge : Edge
  pub is_edge : IsAmong edge (edges_at id references)
  pub is_target : edge.target ≡ target
  pub is_followed : is_skipped edge ≡ false
  pub is_structural : elem edge.relationship structural ≡ true
  pub object : Observed
  pub is_current : find_object target objects ≡ some object
  pub is_inside : is_boundary object ≡ false

-- A chain of that many such edges.
pub data Linked (objects : List Observed) (references : List Reference) (seed : String)
    : ℕ → String → Type 0 where
  here : Linked objects references seed 0 seed
  joined :
      (n : ℕ) (id target : String)
      → Linked objects references seed n id
      → Joins objects references id target
      → Linked objects references seed (suc n) target

module _ (objects : List Observed) (references : List Reference) (seed : String) where
  abbrev pub IsNear : String → Type 0
  IsNear id = (n : ℕ) × (n ≤ 3) × Linked objects references seed n id

  abbrev pub Near : List String → Type 0
  Near [] = Unit
  Near (id ∷ ids) = IsNear id × Near ids

  abbrev pub Queued : List (String × ℕ) → Type 0
  Queued [] = Unit
  Queued ((id, depth) ∷ rest) = Linked objects references seed depth id × Queued rest

  abbrev pub Explained : Search → Type 0
  Explained s = Near s.members × Queued s.queue × (elem seed s.members ≡ true)

  Near-append : (xs : List String) (x : String) → Near xs → IsNear x → Near (xs ++ x ∷ [])
  Near-append [] x h near = (near, tt)
  Near-append (y ∷ ys) x (h, hs) near = (h, Near-append ys x hs near)

  Queued-append :
      (q : List (String × ℕ)) (id : String) (depth : ℕ)
      → Queued q
      → Linked objects references seed depth id
      → Queued (q ++ (id, depth) ∷ [])
  Queued-append [] id depth h l = (l, tt)
  Queued-append ((i, d) ∷ rest) id depth (h, hs) l = (h, Queued-append rest id depth hs l)

  add_member-Explained :
      (target : String) (depth : ℕ) (s : Search)
      → suc depth ≤ 3
      → Linked objects references seed (suc depth) target
      → Explained s
      → Explained (add_member target depth s)
  unfolding add_member
  add_member-Explained target depth s d l (near, queued, seeded) =
      if-split Explained (elem target s.members) s _ (λ e. (near, queued, seeded))
        (λ e. (
          Near-append s.members target near (suc depth, d, l),
          Queued-append s.queue target (suc depth) queued l,
          ground (arith, seeded, elem-append seed s.members (target ∷ [])),
        ))

  add_context-Explained : (id : String) (s : Search) → Explained s → Explained (add_context id s)
  unfolding add_context
  add_context-Explained id s h = h

  visit-Explained :
      (id : String) (depth : ℕ) (e : Edge) (s : Search)
      → suc depth ≤ 3
      → Linked objects references seed depth id
      → IsAmong e (edges_at id references)
      → Explained s
      → Explained (visit objects depth e s)
  unfolding visit
  visit-Explained id depth e s d l among h =
      let at_context = add_context-Explained e.target s h in
      Option-split Explained (find_object e.target objects) s _ (λ missing. h)
        (λ object current.
          if-split Explained (is_skipped e) s _ (λ skipped. h)
            (λ followed.
              if-split Explained (elem e.relationship structural) _ _
                (λ structural.
                  if-split Explained (is_boundary object) _ _ (λ boundary. at_context)
                    (λ inside.
                      add_member-Explained e.target depth s d
                        (joined depth id e.target l (record {
                          edge = e;
                          is_edge = among;
                          is_target = refl;
                          is_followed = followed;
                          is_structural = structural;
                          object = object;
                          is_current = current;
                          is_inside = inside;
                        }))
                        h))
                (λ other. if-split Explained _ _ s (λ textual. at_context) (λ unknown. h))))

  visit_all-Explained :
      (id : String) (depth : ℕ) (es : List Edge) (s : Search)
      → suc depth ≤ 3
      → Linked objects references seed depth id
      → ((e : Edge) → IsAmong e es → IsAmong e (edges_at id references))
      → Explained s
      → Explained (visit_all objects depth es s)
  unfolding visit_all
  visit_all-Explained id depth [] s d l among h = h
  visit_all-Explained id depth (e ∷ es) s d l among h =
      let next = visit objects depth e s in
      let kept = visit-Explained id depth e s d l (among e (inl refl)) h in
      if-split Explained next.overflow next (visit_all objects depth es next) (λ stop. kept)
        (λ more. visit_all-Explained id depth es next d l (λ f i. among f (inr i)) kept)

  pop-Explained :
      (id : String) (depth : ℕ) (rest : List (String × ℕ)) (s : Search)
      → s.queue ≡ (id, depth) ∷ rest
      → Explained s
      → Linked objects references seed depth id × Explained (pop rest s)
  unfolding pop
  pop-Explained id depth rest s e (near, queued, seeded) =
      let split = subst Queued e queued in (split.0, (near, split.1, seeded))

  -- What the search that ends has found.
  abbrev pub Found : Option Search → Type 0
  Found none = Unit
  Found (some s) = Explained s

  search-Explained :
      (fuel : ℕ) (s : Search) → Explained s → Found (search fuel objects references s)
  unfolding search
  search-Explained zero s h = tt
  search-Explained (suc fuel) s h = elim (queue-cases s.queue) [
    | inl e ↦ subst⁻¹ Found (search-nil fuel objects references s e) h
    | inr (id, depth, rest, e) ↦
        let (l, kept) = pop-Explained id depth rest s e h in
        let edges = edges_at id references in
        let next = visit_all objects depth edges (pop rest s) in
        elim (Bool-cases (leb 3 depth)) [
          | inl deep ↦
              subst⁻¹ Found (search-deep fuel objects references s id depth rest e deep)
                (search-Explained fuel (pop rest s) kept)
          | inr shallow ↦
              let kept_next =
                visit_all-Explained id depth edges (pop rest s) (ground (arith, shallow)) l
                  (λ f i. i) kept in
              elim (Bool-cases next.overflow) [
                | inl stop ↦
                    subst⁻¹ Found
                      (search-stop fuel objects references s id depth rest e shallow stop) kept_next
                | inr more ↦
                    subst⁻¹ Found
                      (search-more fuel objects references s id depth rest e shallow more)
                      (search-Explained fuel next kept_next)
              ]
        ]
  ]

  pub search_from-Explained : Found (search_from objects references seed)
  unfolding search_from start elem
  search_from-Explained =
      search-Explained 202 (start seed)
        (((0, omega arith, Linked.here), tt), (Linked.here, tt), ground (arith, eq_refl seed))
