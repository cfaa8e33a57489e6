-- ===== src/Protocol/Turn/Acyclic.antt =====
-- crates/idr-protocol/src/human_centered/turn.rs: `dependency_graph_is_acyclic`, Kahn's algorithm.
use idr.Base.{
  ℕ, zero, suc, ◌+◌, ◌-◌, Bool, false, ◌==◌, nat_eq, List, [], ◌∷◌, ◌++◌, map, length, filter,
  Option, none, some, if◌then◌else◌,
}
use idr.Base.BTree.{lookup, update, add}
use idr.Protocol.ContractRef.{ContractRef, contract_ref_ord}
use idr.Protocol.Turn.Graph.{Edge}

abbrev pub Indegrees : Type 0
Indegrees = List (ContractRef × ℕ)

abbrev pub Adjacency : Type 0
Adjacency = List (ContractRef × List ContractRef)

abbrev pub targets : Option (List ContractRef) → List ContractRef
targets none = []
targets (some s) = s

-- The body of the loop over the edges: an edge seen before is not counted again.
unfoldable pub record_edge : Edge → Indegrees × Adjacency → Indegrees × Adjacency
record_edge e (indegrees, adjacency) =
    let (is_new, s) = add e.after (targets (lookup e.before adjacency)) in
    (
      if is_new then update e.after 0 (λ degree. degree + 1) indegrees else indegrees,
      update e.before [] (λ _. s) adjacency,
    )

unfoldable pub record_edges : List Edge → Indegrees × Adjacency → Indegrees × Adjacency
unfolding record_edge
record_edges [] maps = maps
record_edges (e ∷ es) maps = record_edges es (record_edge e maps)

-- The loop over the nodes that follow the one taken: `none` is the early `return false` for a node
-- without a degree. `*degree -= 1` is a subtraction that stops at 0 here.
unfoldable pub relax :
    List ContractRef → Indegrees × List ContractRef → Option (Indegrees × List ContractRef)
relax [] state = some state
relax (next ∷ rest) (indegrees, ready) = elim (lookup next indegrees) [
  | none ↦ none
  | some degree ↦ relax rest (
    update next 0 (λ d. d - 1) indegrees,
    if (degree - 1) == 0 then ready ++ next ∷ [] else ready,
  )
]

-- The `while` loop: the number of nodes visited, or the early `return false`.
unfoldable pub visit_loop : ℕ → Adjacency → Indegrees → List ContractRef → ℕ → Option ℕ
visit_loop zero adjacency indegrees ready visited = none
visit_loop (suc fuel) adjacency indegrees [] visited = some visited
visit_loop (suc fuel) adjacency indegrees (node ∷ ready) visited =
    elim (relax (targets (lookup node adjacency)) (indegrees, ready)) [
      | none ↦ none
      | some (indegrees', ready') ↦ visit_loop fuel adjacency indegrees' ready' (visited + 1)
    ]

abbrev pub visits_all : ℕ → Option ℕ → Bool
visits_all n none = false
visits_all n (some visited) = visited == n

unfoldable pub dependency_graph_is_acyclic : List ContractRef → List Edge → Bool
unfolding record_edges visit_loop relax
dependency_graph_is_acyclic nodes edges =
    let (indegrees, adjacency) = record_edges edges (map (λ node. (node, 0)) nodes, []) in
    let ready =
      map (λ (p : ContractRef × ℕ). p.0) (filter (λ (p : ContractRef × ℕ). p.1 == 0) indegrees) in
    visits_all (length nodes)
      (visit_loop (length nodes + length edges + 2) adjacency indegrees ready 0)
