-- ===== src/Protocol/Turn/Graph.antt =====
-- crates/idr-protocol/src/human_centered/turn.rs: the search for a path in the dependency graph.
pub mod Routes
pub mod Search
use idr.Base.{
  ℕ, zero, suc, ◌+◌, ◌-◌, Bool, true, false, ◌==◌, nat_eq, List, [], ◌∷◌, ◌++◌, map, length, any,
  filter, contains, if◌then◌else◌, Option, none, some, Eq, Ord, Ordering,
}
use idr.Protocol.ContractRef.{ContractRef, ContractRef-discrete, contract_ref_eq, contract_ref_ord}

pub record Edge : Type 0 where
  pub before : ContractRef
  pub after : ContractRef

unfoldable pub Edge-discrete : Discrete Edge
Edge-discrete = hlevel ContractRef-discrete

instance abbrev pub edge_eq : Eq Edge
edge_eq = record { dec = Edge-discrete }

-- `edges.iter().filter(|edge| edge.before == current).map(|edge| &edge.after)`
abbrev pub successors : List Edge → ContractRef → List ContractRef
successors edges current =
    map (λ (e : Edge). e.after) (filter (λ (e : Edge). e.before == current) edges)

-- The `while` loop of `dependency_path_exists`; `none` means that the fuel ran out.
unfoldable pub path_loop :
    List Edge → ContractRef → ℕ → List ContractRef → List ContractRef → Option Bool
path_loop edges target zero queue visited = none
path_loop edges target (suc fuel) [] visited = some false
path_loop edges target (suc fuel) (current ∷ rest) visited =
    let skipped = path_loop edges target fuel rest visited in
    let searched =
      path_loop edges target fuel (rest ++ successors edges current) (current ∷ visited) in
    if contains visited current
    then skipped
    else if contains (successors edges current) target
    then some true
    else searched

-- Each round takes one node off the queue, and each edge puts one on at most once.
abbrev pub path_fuel : List Edge → ℕ
path_fuel edges = length edges + 2

abbrev pub found : Option Bool → Bool
found none = false
found (some b) = b

-- `dependency_path_exists`
unfoldable pub dependency_path_exists : ContractRef → ContractRef → List Edge → Bool
dependency_path_exists start target edges =
    found (path_loop edges target (path_fuel edges) (start ∷ []) [])
