-- ===== src/Decisions/Lineage/Component.antt =====
-- The component loop of `_decision_lineages`: its fuel, and reachability in the adjacency.
use work_trace.Prelude.{
  ℕ, zero, suc, ◌+◌, ◌≤◌, ◌<◌, Bool, true, false, ◌≡◌, refl, ◌||◌, ◌↔◌, ◌⊎◌, some, List, [], ◌∷◌,
  ◌++◌, if◌then◌else◌, arith, length, length-append, Bool-cases, inl, inr,
}
use work_trace.Prelude.Texts.{eq_iff}
use work_trace.Decisions.Lineage.{
  Node, node_eq, node_elem, Adjacency, neighbours, degree, component, component_from,
}

node_eq_iff : (a b : Node) → (node_eq a b ≡ true) ↔ (a ≡ b)
unfolding node_eq
node_eq_iff (a, b) (c, d) = ground (arith, eq_iff a c, eq_iff b d)

-- The neighbours that a walk with the nodes `found` has yet to push.
abbrev unvisited : Adjacency → List Node → ℕ
unvisited [] found = 0
unvisited ((n, ns) ∷ rest) found =
    (if node_elem n found then 0 else length ns) + unvisited rest found

unvisited-nil : (adjacency : Adjacency) → unvisited adjacency [] ≡ degree adjacency
unfolding node_elem degree
unvisited-nil [] = refl
unvisited-nil ((n, ns) ∷ rest) = omega (arith, unvisited-nil rest)

unvisited-cons-le :
    (m : Node) (adjacency : Adjacency) (found : List Node)
    → unvisited adjacency (m ∷ found) ≤ unvisited adjacency found
unfolding node_elem
unvisited-cons-le m [] found = omega arith
unvisited-cons-le m ((n, ns) ∷ rest) found = ground (arith, unvisited-cons-le m rest found)

unvisited-cons :
    (m : Node) (adjacency : Adjacency) (found : List Node)
    → node_elem m found ≡ false
    → unvisited adjacency (m ∷ found) + length (neighbours m adjacency) ≤ unvisited adjacency found
unfolding node_elem neighbours
unvisited-cons m [] found h = omega arith
unvisited-cons m ((n, ns) ∷ rest) found h = ground (
  arith,
  node_eq_iff n m,
  node_eq_iff m n,
  unvisited-cons-le m rest found,
  unvisited-cons m rest found h,
)

component_total :
    (fuel : ℕ) (adjacency : Adjacency) (stack found : List Node)
    → length stack + unvisited adjacency found < fuel
    → (nodes : List Node) × (component fuel adjacency stack found ≡ some nodes)
unfolding component
component_total zero adjacency stack found h = elim h [ ]
component_total (suc fuel) adjacency [] found h = (found, refl)
component_total (suc fuel) adjacency (n ∷ stack) found h = elim (Bool-cases (node_elem n found)) [
  | inl e ↦ rw e (component_total fuel adjacency stack found (omega arith))
  | inr e ↦ rw e (
      component_total fuel adjacency (neighbours n adjacency ++ stack) (n ∷ found) (
        omega (
          arith,
          unvisited-cons n adjacency found e,
          length-append (neighbours n adjacency) stack,
        )))
]

pub data Reach (adjacency : Adjacency) (start : Node) : Node → Type 0 where
  here : Reach adjacency start start
  next :
      {a b : Node}
      → Reach adjacency start a
      → node_elem b (neighbours a adjacency) ≡ true
      → Reach adjacency start b

-- Every node of the list is reached.
abbrev AllReach : Adjacency → Node → List Node → Type 0
AllReach adjacency start ns = (n : Node) → node_elem n ns ≡ true → Reach adjacency start n

node_elem-append :
    (n : Node) (xs ys : List Node) → node_elem n (xs ++ ys) ≡ (node_elem n xs || node_elem n ys)
unfolding node_elem
node_elem-append n [] ys = refl
node_elem-append n (x ∷ xs) ys = ground (arith, node_elem-append n xs ys)

or_cases : (a b : Bool) → (a || b) ≡ true → (a ≡ true) ⊎ (b ≡ true)
or_cases true b h = inl refl
or_cases false b h = inr h

module _ (adjacency : Adjacency) (start : Node) where
  AllReach-cons :
      (n : Node) (ns : List Node)
      → Reach adjacency start n
      → AllReach adjacency start ns
      → AllReach adjacency start (n ∷ ns)
  unfolding node_elem
  AllReach-cons n ns r h m e = elim (or_cases (node_eq n m) (node_elem m ns) e) [
    | inl p ↦ rw ((node_eq_iff n m).0 p) at r
    | inr p ↦ h m p
  ]

  AllReach-neighbours :
      (n : Node) (ns : List Node)
      → Reach adjacency start n
      → AllReach adjacency start ns
      → AllReach adjacency start (neighbours n adjacency ++ ns)
  AllReach-neighbours n ns r h m e =
      elim (or_cases _ _ (rw (node_elem-append m (neighbours n adjacency) ns) at e)) [
        | inl p ↦ next r p
        | inr p ↦ h m p
      ]

  component_sound :
      (fuel : ℕ) (stack found : List Node) {nodes : List Node}
      → component fuel adjacency stack found ≡ some nodes
      → AllReach adjacency start stack
      → AllReach adjacency start found
      → AllReach adjacency start nodes
  unfolding component node_elem
  component_sound zero stack found h s f = absurd (ground arith)
  component_sound (suc fuel) [] found {nodes} h s f = let e : found ≡ nodes = cc in rw (← e) f
  component_sound (suc fuel) (n ∷ stack) found h s f = elim (Bool-cases (node_elem n found)) [
    | inl e ↦ component_sound fuel stack found (rw e at h) (λ m p. s m (ground (arith, p))) f
    | inr e ↦
        let r = s n (ground (arith, node_eq_iff n n)) in
        component_sound fuel (neighbours n adjacency ++ stack) (n ∷ found) (rw e at h)
          (AllReach-neighbours n stack r (λ m p. s m (ground (arith, p))))
          (AllReach-cons n found r f)
  ]

  -- Each neighbour of a node that was found is found or waits on the stack.
  abbrev IsClosed : List Node → List Node → Type 0
  IsClosed stack found =
      (a b : Node)
      → node_elem a found ≡ true
      → node_elem b (neighbours a adjacency) ≡ true
      → (node_elem b found || node_elem b stack) ≡ true

  abbrev Contains : List Node → List Node → Type 0
  Contains small large = (n : Node) → node_elem n small ≡ true → node_elem n large ≡ true

  from_stack :
      (n : Node) (stack nodes : List Node)
      → node_elem n nodes ≡ true
      → Contains stack nodes
      → Contains (n ∷ stack) nodes
  unfolding node_elem
  from_stack n stack nodes e c m p = elim (or_cases (node_eq n m) (node_elem m stack) p) [
    | inl q ↦ rw (← (node_eq_iff n m).0 q) e
    | inr q ↦ c m q
  ]

  IsClosed-visit :
      (n : Node) (stack found : List Node)
      → IsClosed (n ∷ stack) found
      → IsClosed (neighbours n adjacency ++ stack) (n ∷ found)
  unfolding node_elem
  IsClosed-visit n stack found c a b p q = elim (or_cases (node_eq n a) (node_elem a found) p) [
    | inl r ↦
        let near : node_elem b (neighbours n adjacency) ≡ true = rw ((node_eq_iff n a).0 r) q in
        ground (arith, near, node_elem-append b (neighbours n adjacency) stack)
    | inr r ↦ ground (arith, c a b r q, node_elem-append b (neighbours n adjacency) stack)
  ]

  component_complete :
      (fuel : ℕ) (stack found : List Node) {nodes : List Node}
      → component fuel adjacency stack found ≡ some nodes
      → IsClosed stack found
      → Contains stack nodes × Contains found nodes × IsClosed [] nodes
  unfolding component node_elem
  component_complete zero stack found h c = absurd (ground arith)
  component_complete (suc fuel) [] found {nodes} h c =
      let e : found ≡ nodes = cc in rw (← e) ((λ n p. absurd (ground (arith, p))), (λ n p. p), c)
  component_complete (suc fuel) (n ∷ stack) found {nodes} h c =
      elim (Bool-cases (node_elem n found)) [
        | inl e ↦
            let (cs, cf, closed) =
              component_complete fuel stack found (rw e at h)
                (λ a b p q. ground (arith, c a b p q, node_eq_iff n b)) in
            (from_stack n stack nodes (cf n e) cs, cf, closed)
        | inr e ↦
            let (cs, cf, closed) =
              component_complete fuel (neighbours n adjacency ++ stack) (n ∷ found) (rw e at h)
                (IsClosed-visit n stack found c) in
            (
              from_stack n stack nodes (cf n (ground (arith, node_eq_iff n n))) (λ m p.
                  cs m (ground (arith, p, node_elem-append m (neighbours n adjacency) stack))),
              (λ m p. cf m (ground (arith, p))),
              closed,
            )
      ]

  closed-Reach :
      (nodes : List Node) {n : Node}
      → IsClosed [] nodes
      → node_elem start nodes ≡ true
      → Reach adjacency start n
      → node_elem n nodes ≡ true
  unfolding node_elem
  closed-Reach nodes c s here = s
  closed-Reach nodes c s (next {a} {b} r e) = ground (arith, c a b (closed-Reach nodes c s r) e)

-- From every start the component loop ends with the fuel that the program's degrees give it, and a
-- node is in the result exactly when it can be reached from the start.
pub component_from-Reach :
    (adjacency : Adjacency) (start : Node)
    → (nodes : List Node) × (component_from adjacency start ≡ some nodes)
      × ((n : Node) → (node_elem n nodes ≡ true) ↔ Reach adjacency start n)
unfolding component_from node_elem
component_from-Reach adjacency start =
    let (nodes, e) =
      component_total (suc (suc (degree adjacency))) adjacency (start ∷ []) []
        (omega (arith, unvisited-nil adjacency)) in
    let sound =
      component_sound adjacency start (suc (suc (degree adjacency))) (start ∷ []) [] e
        (AllReach-cons adjacency start start [] here (λ n p. absurd (ground (arith, p))))
        (λ n p. absurd (ground (arith, p))) in
    let (contains, _, closed) =
      component_complete adjacency start (suc (suc (degree adjacency))) (start ∷ []) [] e
        (λ a b p q. absurd (ground (arith, p))) in
    let in_it : node_elem start nodes ≡ true =
      contains start (ground (arith, node_eq_iff start start)) in
    (nodes, e, λ n. (sound n, λ r. closed-Reach adjacency start nodes closed in_it r))
