-- ===== src/Decisions/Lineage.antt =====
-- `_decision_lineages`: the connected components of the creation events, one app at a time.
pub mod Component
use work_trace.Prelude.{
  ℕ, zero, suc, ◌+◌, ltb, String, Bool, true, false, not, ◌&&◌, ◌||◌, Option, none, some, List, [],
  ◌∷◌, ◌++◌, map, if◌then◌else◌, length, keep_if,
}
use work_trace.Prelude.Texts.{◌==◌, elem, add, update, lookup, text_le, put}
use work_trace.Errors.{Result, ok, err, scope_violation}
use work_trace.Decisions.Ledger.{Ledger, Decision, is_creation}
use work_trace.Decisions.Compensation.{decision_stream}
use work_trace.Decisions.Scope.{NodeApps, creation_of, candidates_of, decision_node_apps}
use work_trace.Decisions.Ancestry.{Scopes, scopes_of}
use work_trace.Decisions.Append.{scope_at}

-- An app and an identifier.
abbrev pub Node : Type 0
Node = String × String

unfoldable pub node_eq : Node → Node → Bool
node_eq a b = a.0 == b.0 && a.1 == b.1

unfoldable pub node_elem : Node → List Node → Bool
node_elem n [] = false
node_elem n (m ∷ ms) = node_eq m n || node_elem n ms

unfoldable pub add_node : Node → List Node → List Node
add_node n ns = if node_elem n ns then ns else ns ++ n ∷ []

abbrev pub Adjacency : Type 0
Adjacency = List (Node × List Node)

-- `adjacency.get(node, ())`
unfoldable pub neighbours : Node → Adjacency → List Node
neighbours n [] = []
neighbours n ((m, ns) ∷ rest) = if node_eq m n then ns else neighbours n rest

-- `adjacency.setdefault(node, set())`
unfoldable pub declare_node : Node → Adjacency → Adjacency
declare_node n [] = (n, []) ∷ []
declare_node n ((m, ns) ∷ rest) =
    if node_eq m n then (m, ns) ∷ rest else (m, ns) ∷ declare_node n rest

-- `adjacency.setdefault(a, set()).add(b)`
unfoldable pub add_edge : Node → Node → Adjacency → Adjacency
add_edge a b [] = (a, b ∷ []) ∷ []
add_edge a b ((m, ns) ∷ rest) =
    if node_eq m a then (m, add_node b ns) ∷ rest else (m, ns) ∷ add_edge a b rest

-- The nodes whose kind is "candidate", and those whose kind is "contribution".
pub record Graph : Type 0 where
  pub adjacency : Adjacency
  pub candidates : List Node

remove_node : Node → List Node → List Node
remove_node n = keep_if (λ m. not (node_eq m n))

link_candidates : Node → String → List String → Graph → Graph
link_candidates contribution app [] g = g
link_candidates contribution app (c ∷ cs) g = link_candidates contribution app cs (record {
  adjacency = add_edge contribution (app, c) (add_edge (app, c) contribution g.adjacency);
  candidates = add_node (app, c) g.candidates;
})

-- `adjacency[node].update(other for other in others if other != node)`
link_others : Node → String → List String → Adjacency → Adjacency
link_others n app [] adjacency = adjacency
link_others n app (c ∷ cs) adjacency =
    link_others n app cs (if node_eq (app, c) n then adjacency else add_edge n (app, c) adjacency)

link_all : String → List String → List String → Adjacency → Adjacency
link_all app [] all adjacency = adjacency
link_all app (c ∷ cs) all adjacency = link_all app cs all (link_others (app, c) app all adjacency)

add_creation : Decision → Option (String × String) → Graph → Graph
add_creation d none g = g
add_creation d (some (app, contribution)) g =
    let candidates = candidates_of d in
    let node : Node = (app, contribution) in
    let linked = link_candidates node app candidates (record {
      adjacency = declare_node node g.adjacency;
      candidates = remove_node node g.candidates;
    }) in
    record linked { adjacency = link_all app candidates candidates linked.adjacency }

unfoldable pub graph_of : Ledger → List Decision → Graph → Graph
unfolding add_creation link_all link_others link_candidates remove_node add_edge declare_node
graph_of db [] g = g
graph_of db (d ∷ ds) g = graph_of db ds (add_creation d (creation_of db d) g)

-- The `while stack` loop. `none` means that the fuel ran out.
unfoldable pub component : ℕ → Adjacency → List Node → List Node → Option (List Node)
component zero adjacency stack found = none
component (suc fuel) adjacency [] found = some found
component (suc fuel) adjacency (node ∷ stack) found =
    let skipped = component fuel adjacency stack found in
    let visited = component fuel adjacency (neighbours node adjacency ++ stack) (node ∷ found) in
    if node_elem node found then skipped else visited

-- How many entries the neighbour sets hold.
unfoldable pub degree : Adjacency → ℕ
degree [] = 0
degree ((n, ns) ∷ rest) = length ns + degree rest

unfoldable pub component_from : Adjacency → Node → Option (List Node)
unfolding component degree
component_from adjacency start = component (suc (suc (degree adjacency))) adjacency (start ∷ []) []

pub record DecisionLineage : Type 0 where
  pub app_id : String
  pub candidate_ids : List String
  pub contribution_ids : List String
  pub canonical_candidate_id : String
  pub decisions : List Decision

-- `creations[-1]`
unfoldable pub last_creation : List Decision → Option Decision
last_creation [] = none
last_creation (d ∷ ds) = elim (last_creation ds) [
  | some c ↦ some c
  | none ↦ if is_creation d.action then some d else none
]

unfoldable pub ids_of : List Node → List String
unfolding update
ids_of ns = update (map (λ n. n.1) ns) []

-- The lineage of one component, unless it has no creation event in scope.
unfoldable pub lineage_of :
    List Decision → Scopes → List Node → String → List Node → Option DecisionLineage
unfolding last_creation ids_of
lineage_of decisions scopes candidates app component =
    let ids = ids_of component in
    let candidate_ids = ids_of (keep_if (λ n. node_elem n candidates) component) in
    let scoped =
      keep_if
        (λ d.
          elem d.target_id ids
          && (elim (scope_at d.id scopes) [ some a ↦ a == app | none ↦ false ]))
        decisions in
    elim (last_creation scoped) [
      | none ↦ none
      | some creation ↦ some (record {
        app_id = app;
        candidate_ids = candidate_ids;
        contribution_ids = keep_if (λ i. not (elem i candidate_ids)) ids;
        canonical_candidate_id = creation.target_id;
        decisions = scoped;
      })
    ]

node_le : Node → Node → Bool
node_le a b = if a.0 == b.0 then text_le a.1 b.1 else text_le a.0 b.0

insert_node : Node → List Node → List Node
insert_node n [] = n ∷ []
insert_node n (m ∷ ms) = if node_le n m then n ∷ m ∷ ms else m ∷ insert_node n ms

sort_nodes : List Node → List Node
unfolding insert_node node_le
sort_nodes [] = []
sort_nodes (n ∷ ns) = insert_node n (sort_nodes ns)

lineage_loop : List Decision → Scopes → Graph → List Node → List Node → List DecisionLineage
lineage_loop decisions scopes g [] visited = []
lineage_loop decisions scopes g (start ∷ starts) visited =
    let skip = lineage_loop decisions scopes g starts visited in
    if node_elem start visited then skip else elim (component_from g.adjacency start) [
      | none ↦ []
      | some nodes ↦ elim (lineage_of decisions scopes g.candidates start.0 nodes) [
        | none ↦ lineage_loop decisions scopes g starts (nodes ++ visited)
        | some lineage ↦ lineage ∷ lineage_loop decisions scopes g starts (nodes ++ visited)
      ]
    ]

unfoldable pub lineages_from : Ledger → List Decision → Scopes → List DecisionLineage
unfolding lineage_loop sort_nodes graph_of component_from lineage_of
lineages_from db decisions scopes =
    let g = graph_of db decisions (record { adjacency = []; candidates = [] }) in
    lineage_loop decisions scopes g (sort_nodes (map (λ e. e.0) g.adjacency)) []

unfoldable pub decision_lineages : Ledger → Bool → List DecisionLineage
unfolding scopes_of decision_node_apps decision_stream lineages_from
decision_lineages db active_only =
    let decisions = decision_stream db active_only in
    lineages_from db decisions (scopes_of db decisions (decision_node_apps db decisions))
