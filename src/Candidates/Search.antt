-- ===== src/Candidates/Search.antt =====
-- The bounded breadth-first search of `rebuild_candidates` from one seed.
pub mod Bounds
pub mod Path
pub mod Frontier
pub mod Follow
pub mod Complete
use work_trace.Prelude.{
  ℕ, zero, suc, ◌+◌, ltb, leb, String, Bool, true, false, not, ◌||◌, ◌&&◌, Option, none, some, List,
  [], ◌∷◌, ◌++◌, if◌then◌else◌, length,
}
use work_trace.Prelude.Texts.{◌==◌, elem, add}
use work_trace.Candidates.Objects.{
  Observed, Reference, structural, context_only, find_object, is_boundary,
}
use Prim.Native.String.{compare}
use Prim.Native.Nat.{Ordering}
use text.Mathlib.Text.{is_le}

-- The target, the relationship, and whether the reference starts at the object that has the edge.
pub record Edge : Type 0 where
  pub target : String
  pub relationship : String
  pub outbound : Bool

-- The order of the tuples: False comes before True.
unfoldable pub edge_le : Edge → Edge → Bool
edge_le a b = elim (compare a.target b.target) [
  | Ordering.lt ↦ true
  | Ordering.gt ↦ false
  | Ordering.eq ↦ elim (compare a.relationship b.relationship) [
    | Ordering.lt ↦ true
    | Ordering.gt ↦ false
    | Ordering.eq ↦ not a.outbound || b.outbound
  ]
]

unfoldable pub insert_edge : Edge → List Edge → List Edge
insert_edge e [] = e ∷ []
insert_edge e (f ∷ fs) = if edge_le e f then e ∷ f ∷ fs else f ∷ insert_edge e fs

-- `sorted(edges.get(current_id, []))`, where each reference is an edge at both of its ends.
unfoldable pub edges_at : String → List Reference → List Edge
edges_at id [] = []
edges_at id (r ∷ rs) =
    let rest = edges_at id rs in
    let inward =
      if r.to_object_id == id
      then insert_edge
          (record {
            target = r.from_object_id;
            relationship = r.relationship_type;
            outbound = false;
          })
          rest
      else rest in
    if r.from_object_id == id
    then insert_edge
        (record { target = r.to_object_id; relationship = r.relationship_type; outbound = true })
        inward
    else inward

abbrev pub max_depth : ℕ
max_depth = 3

abbrev pub max_members : ℕ
max_members = 200

abbrev pub max_context : ℕ
max_context = 50

-- The sets are lists without repetition, in the order of insertion.
pub record Search : Type 0 where
  pub members : List String
  pub context : List String
  pub queue : List (String × ℕ)
  pub overflow : Bool

unfoldable pub add_context : String → Search → Search
add_context target s =
    let context = add target s.context in
    record {
      members = s.members;
      context = context;
      queue = s.queue;
      overflow = ltb max_context (length context) || s.overflow;
    }

unfoldable pub add_member : String → ℕ → Search → Search
add_member target depth s = if elem target s.members then s else record {
  members = s.members ++ target ∷ [];
  context = s.context;
  queue = s.queue ++ (target, suc depth) ∷ [];
  overflow = ltb max_members (suc (length s.members)) || s.overflow;
}

-- `relationship == "jira_parent_of"`, or an edge to a sub-task's sub-task of its own.
unfoldable pub is_skipped : Edge → Bool
is_skipped e =
    e.relationship == "jira_parent_of" || (e.relationship == "jira_subtask_of" && not e.outbound)

-- The body of the loop over the edges.
unfoldable pub visit : List Observed → ℕ → Edge → Search → Search
visit objects depth e s = elim (find_object e.target objects) [
  | none ↦ s
  | some target ↦
      if is_skipped e
      then s
      else if elem e.relationship structural
      then if is_boundary target then add_context e.target s else add_member e.target depth s
      else if elem e.relationship context_only && not (elem e.target s.members)
      then add_context e.target s
      else s
]

-- The loop over the edges, which an overflow leaves.
unfoldable pub visit_all : List Observed → ℕ → List Edge → Search → Search
visit_all objects depth [] s = s
visit_all objects depth (e ∷ es) s =
    let next = visit objects depth e s in
    if next.overflow then next else visit_all objects depth es next

unfoldable pub pop : List (String × ℕ) → Search → Search
pop rest s = record {
  members = s.members;
  context = s.context;
  queue = rest;
  overflow = s.overflow;
}

-- `while queue`, which an overflow leaves. `none`: out of fuel.
unfoldable pub search : ℕ → List Observed → List Reference → Search → Option Search
search zero objects references s = none
search (suc fuel) objects references s = elim s.queue [
  | [] ↦ some s
  | (id, depth) ∷ rest ↦
      let popped = pop rest s in
      if leb max_depth depth
      then search fuel objects references popped
      else (let next = visit_all objects depth (edges_at id references) popped in
          elim next.overflow [ true ↦ some next | false ↦ search fuel objects references next ])
]

unfoldable pub start : String → Search
start seed = record { members = seed ∷ []; context = []; queue = (seed, 0) ∷ []; overflow = false }

-- A search adds at most `max_members` objects before it overflows, and each is queued once.
abbrev pub search_fuel : ℕ
search_fuel = 202

unfoldable pub search_from : List Observed → List Reference → String → Option Search
search_from objects references seed = search search_fuel objects references (start seed)
