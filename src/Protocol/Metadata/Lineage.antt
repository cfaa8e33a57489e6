-- ===== src/Protocol/Metadata/Lineage.antt =====
-- `initial` and `successor`: what a chain of revisions keeps.
use idr.Base.{
  ℕ, suc, ◌+◌, ◌≤◌, ◌<◌, ◌≡◌, ◌≢◌, Option, none, some, ok, err, arith, List, Text, try_each-ne_err,
}
use idr.Protocol.Error.{revision_overflow}
use idr.Protocol.Reference.{Reference}
use idr.Protocol.Id.{ContractKind, ContractId}
use idr.Protocol.ContractRef
use idr.Protocol.ContractRef.{ContractRef, max_safe_wire_integer}
use idr.Protocol.Collections.{canonical_references, canonical_contract_references}
use idr.Protocol.Metadata.{
  Metadata, Draft, validate, build, initial, successor, check_lineage, check_dependency,
}
use idr.Protocol.Metadata.Validity.{metadata_ok_iff}

-- What `build` returns is what it was given, with canonical references, and is valid.
record Built (kind : ContractKind) (id : ContractId) (revision : ℕ) (p : Option ContractRef)
    (d : Draft) (m : Metadata) : Type 0 where
  kind_eq : m.contract_kind ≡ kind
  id_eq : m.contract_id ≡ id
  revision_eq : m.revision ≡ revision
  predecessor_eq : m.predecessor_ref ≡ p
  run_eq : m.run_id ≡ d.run_id
  turn_eq : m.turn_id ≡ d.turn_id
  authority_eq : m.authority_context ≡ d.authority_context
  until_eq : m.valid_until ≡ d.valid_until
  evidence_eq : canonical_references d.evidence_refs ≡ ok m.evidence_refs
  dependencies_eq : canonical_contract_references d.dependency_refs ≡ ok m.dependency_refs
  is_valid : validate m ≡ ok tt

build-ok :
    (kind : ContractKind) (id : ContractId) (revision : ℕ) (p : Option ContractRef) (d : Draft)
    (m : Metadata)
    → build kind id revision p d ≡ ok m
    → Built kind id revision p d m
unfolding build
build-ok kind id revision p d m h = ground arith

-- A successor has its predecessor's kind and contract, the next revision number and a reference
-- to that predecessor, keeps the run, turn, context and expiry that it was given, and is valid.
pub successor-ok :
    (kind : ContractKind) (previous : ContractRef) (d : Draft) (m : Metadata)
    → successor kind previous d ≡ ok m
    → (previous.kind ≡ kind)
      × (m.contract_kind ≡ kind)
      × (m.contract_id ≡ previous.contract_id)
      × (m.revision ≡ previous.revision + 1)
      × (m.predecessor_ref ≡ some previous)
      × (m.run_id ≡ d.run_id)
      × (m.turn_id ≡ d.turn_id)
      × (m.authority_context ≡ d.authority_context)
      × (m.valid_until ≡ d.valid_until)
      × (validate m ≡ ok tt)
unfolding successor
successor-ok kind previous d m h =
    ground (arith, build-ok kind previous.contract_id (previous.revision + 1) (some previous) d m)

-- No revision after the last safe wire integer: a successor of revision 2^53 - 1 is refused.
pub successor_exhausted :
    (kind : ContractKind) (previous : ContractRef) (d : Draft) (m : Metadata)
    → successor kind previous d ≡ ok m
    → previous.revision < max_safe_wire_integer
successor_exhausted kind previous d m h = omega (
  arith,
  (successor-ok kind previous d m h).3,
  ((metadata_ok_iff m).0 (successor-ok kind previous d m h).9).revision_safe,
)

canonical_references-ne_overflow :
    (rs : List Reference) → canonical_references rs ≡ err revision_overflow → ⊥
unfolding canonical_references
canonical_references-ne_overflow rs h = ground arith

ref-ne_overflow : (r : ContractRef) → ContractRef.validate r ≡ err revision_overflow → ⊥
unfolding ContractRef.validate
ref-ne_overflow r h = ground arith

canonical_contract_references-ne_overflow :
    (rs : List ContractRef) → canonical_contract_references rs ≡ err revision_overflow → ⊥
unfolding canonical_contract_references
canonical_contract_references-ne_overflow rs h =
    ground (arith, try_each-ne_err ContractRef.validate revision_overflow ref-ne_overflow rs)

check_lineage-ne_overflow :
    (m : Metadata) (o : Option ContractRef) → check_lineage m o ≡ err revision_overflow → ⊥
unfolding check_lineage
check_lineage-ne_overflow m none h = ground arith
check_lineage-ne_overflow m (some p) h = ground (arith, ref-ne_overflow p)

check_dependency-ne_overflow :
    (m : Metadata) (r : ContractRef) → check_dependency m r ≡ err revision_overflow → ⊥
unfolding check_dependency
check_dependency-ne_overflow m r h = ground (arith, ref-ne_overflow r)

validate-ne_overflow : (m : Metadata) → validate m ≡ err revision_overflow → ⊥
unfolding validate
validate-ne_overflow m h = ground (
  arith,
  check_lineage-ne_overflow m m.predecessor_ref,
  try_each-ne_err (check_dependency m) revision_overflow (check_dependency-ne_overflow m)
      m.dependency_refs,
)

build-ne_overflow :
    (kind : ContractKind) (id : ContractId) (revision : ℕ) (p : Option ContractRef) (d : Draft)
    → build kind id revision p d ≡ err revision_overflow
    → ⊥
unfolding build
build-ne_overflow kind id revision p d h = grind (
  arith, canonical_references-ne_overflow, canonical_contract_references-ne_overflow,
  validate-ne_overflow,
)

-- `successor` never fails for an overflow of the revision number: the reference is checked first.
pub successor-ne_overflow :
    (kind : ContractKind) (previous : ContractRef) (d : Draft)
    → successor kind previous d ≢ err revision_overflow
unfolding successor ContractRef.validate
successor-ne_overflow kind previous d h =
    ground
      (arith, build-ne_overflow kind previous.contract_id (previous.revision + 1) (some previous) d)

-- The reference of a revision whose record has the given digest (`record_ref`).
abbrev pub ref_of : Metadata → Text → ContractRef
ref_of m digest = record {
  kind = m.contract_kind;
  contract_id = m.contract_id;
  revision = m.revision;
  record_digest = digest;
}

-- The histories of a contract: an initial revision, and successors of the last one.
pub data History (minted : ContractId) (kind : ContractKind) : Metadata → ℕ → Type 0 where
  first : (d : Draft) (m : Metadata) → initial minted kind d ≡ ok m → History minted kind m 1
  next :
      (m : Metadata) (n : ℕ) (digest : Text) (d : Draft) (m' : Metadata)
      → History minted kind m n
      → successor kind (ref_of m digest) d ≡ ok m'
      → History minted kind m' (suc n)

initial-ok :
    (minted : ContractId) (kind : ContractKind) (d : Draft) (m : Metadata)
    → initial minted kind d ≡ ok m
    → (m.contract_kind ≡ kind) × (m.contract_id ≡ minted) × (m.revision ≡ 1) × (validate m ≡ ok tt)
unfolding initial
initial-ok minted kind d m h = ground (arith, build-ok kind minted 1 none d m)

-- In a history of n revisions the last has revision number n, the contract and the kind of the
-- first, and is valid; so no history is longer than 2^53 - 1.
pub History-revision :
    {minted : ContractId} {kind : ContractKind} {m : Metadata} {n : ℕ}
    → History minted kind m n
    → (m.revision ≡ n)
      × (m.contract_id ≡ minted)
      × (m.contract_kind ≡ kind)
      × (validate m ≡ ok tt)
      × (n ≤ max_safe_wire_integer)
History-revision {minted} {kind} (first d m e) = ground (arith, initial-ok minted kind d m e)
History-revision {minted} {kind} (next m n digest d m' h e) =
    let before = History-revision h in
    ground (
      arith,
      successor-ok kind (ref_of m digest) d m' e,
      successor_exhausted kind (ref_of m digest) d m' e,
    )
