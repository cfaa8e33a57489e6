-- ===== src/Store/Commit/Pointers.antt =====
-- What a commit does to the pointers.
use idr.Base.{
  ◌≡◌, ◌↔◌, ◌⊎◌, true, false, not, List, [], ◌∷◌, ◌++◌, filter, Elem, sort-Elem, append-Elem,
  filter-Elem, arith,
}
use idr.Protocol.Id.{kind_eq, id_eq}
use idr.Protocol.ContractRef.{ContractRef, contract_ref_eq, contract_ref_ord}
use idr.Store.Snapshot.{same_contract}
use idr.Store.Invalidation.{replace_pointer}

-- The pointers to other contracts stay, and the new reference is the pointer to its contract.
pub replace_pointer-Elem :
    (pointers : List ContractRef) (next p : ContractRef)
    → Elem p (replace_pointer pointers next)
      ↔ ((Elem p pointers × (same_contract p next ≡ false)) ⊎ (p ≡ next))
unfolding replace_pointer
replace_pointer-Elem pointers next p = ground (
  arith,
  sort-Elem p (filter (λ current. not (same_contract current next)) pointers ++ next ∷ []),
  append-Elem p (filter (λ current. not (same_contract current next)) pointers) (next ∷ []),
  filter-Elem (λ current. not (same_contract current next)) p pointers,
)

-- There is one pointer to a contract.
abbrev pub OnePointer : List ContractRef → Type 0
OnePointer pointers =
    (a b : ContractRef) → Elem a pointers → Elem b pointers → same_contract a b ≡ true → a ≡ b

pub replace_pointer-OnePointer :
    (pointers : List ContractRef) (next : ContractRef)
    → OnePointer pointers
    → OnePointer (replace_pointer pointers next)
replace_pointer-OnePointer pointers next one a b m k e =
    ground
      (arith, replace_pointer-Elem pointers next a, replace_pointer-Elem pointers next b, one a b)
