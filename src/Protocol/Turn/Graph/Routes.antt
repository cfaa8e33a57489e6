-- ===== src/Protocol/Turn/Graph/Routes.antt =====
-- What a path in the dependency graph is.
use idr.Base.{◌↔◌, List, [], ◌∷◌, filter, Elem, arith}
use idr.Protocol.ContractRef.{ContractRef, contract_ref_eq}
use idr.Protocol.Turn.Graph.{Edge, successors}

-- The edge from one node to another is among the edges.
abbrev pub Links : List Edge → ContractRef → ContractRef → Type 0
Links edges a b = Elem (record { before = a; after = b }) edges

-- The non-empty paths.
pub data Route (edges : List Edge) (a : ContractRef) : ContractRef → Type 0 where
  edge : {b : ContractRef} → Links edges a b → Route edges a b
  extend : {b c : ContractRef} → Route edges a b → Links edges b c → Route edges a c

pub Links-successors :
    (edges : List Edge) (a b : ContractRef) → Elem b (successors edges a) ↔ Links edges a b
unfolding filter
Links-successors [] a b = ((λ m. m), λ m. m)
Links-successors (e ∷ edges) a b = ground (arith, Links-successors edges a b)
