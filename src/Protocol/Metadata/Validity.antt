-- ===== src/Protocol/Metadata/Validity.antt =====
-- What `HumanCenteredContractMetadataV1::validate` decides.
use idr.Base.{
  ◌+◌, ◌≤◌, ◌<◌, ◌≡◌, ◌↔◌, false, Option, none, some, ok, arith, All, All-iff, List, is_blank,
  try_each-ok_iff, try_each,
}
use idr.Protocol.Reference
use idr.Protocol.Id.{is_empty_id, id_eq, kind_eq}
use idr.Protocol.ContractRef
use idr.Protocol.ContractRef.{ContractRef, max_safe_wire_integer}
use idr.Protocol.Metadata.{
  Metadata, malformed, continues, check_lineage, check_dependency, validate,
}

-- The predecessor that a revision must name: none for the first, else the one before it.
abbrev pub Precedes : Metadata → Option ContractRef → Type 0
Precedes m none = m.revision ≡ 1
Precedes m (some p) =
    (p.kind ≡ m.contract_kind)
    × (p.contract_id ≡ m.contract_id)
    × (p.revision + 1 ≡ m.revision)
    × (ContractRef.validate p ≡ ok tt)

-- A dependency is a sound reference, and not to this revision of the contract or a later one.
abbrev pub MayDependOn : Metadata → ContractRef → Type 0
MayDependOn m r =
    (ContractRef.validate r ≡ ok tt) × (r.contract_id ≡ m.contract_id → r.revision < m.revision)

pub record IsValid (m : Metadata) : Type 0 where
  pub has_contract_id : is_empty_id m.contract_id ≡ false
  pub has_run_id : is_empty_id m.run_id ≡ false
  pub has_turn_id : is_empty_id m.turn_id ≡ false
  pub revision_pos : 0 < m.revision
  pub revision_safe : m.revision ≤ max_safe_wire_integer
  pub valid_until_pos : 0 < m.valid_until
  pub valid_until_safe : m.valid_until ≤ max_safe_wire_integer
  pub has_policy : is_blank m.policy_revision_ref.text ≡ false
  pub schema : m.schema_version ≡ 1
  pub authority : Reference.validate m.authority_context ≡ ok tt
  pub lineage : Precedes m m.predecessor_ref
  pub dependencies : All (MayDependOn m) m.dependency_refs

record IsShaped (m : Metadata) : Type 0 where
  has_contract_id : is_empty_id m.contract_id ≡ false
  has_run_id : is_empty_id m.run_id ≡ false
  has_turn_id : is_empty_id m.turn_id ≡ false
  revision_pos : 0 < m.revision
  revision_safe : m.revision ≤ max_safe_wire_integer
  valid_until_pos : 0 < m.valid_until
  valid_until_safe : m.valid_until ≤ max_safe_wire_integer
  has_policy : is_blank m.policy_revision_ref.text ≡ false
  schema : m.schema_version ≡ 1

malformed-false : (m : Metadata) → malformed m ≡ false → IsShaped m
unfolding malformed
malformed-false m h = ground arith

malformed_of_IsShaped : (m : Metadata) → IsShaped m → malformed m ≡ false
unfolding malformed
malformed_of_IsShaped m s = ground arith

check_lineage-ok_iff :
    (m : Metadata) (o : Option ContractRef)
    → m.revision ≤ max_safe_wire_integer
    → (check_lineage m o ≡ ok tt) ↔ Precedes m o
unfolding check_lineage continues
check_lineage-ok_iff m none h = ground arith
check_lineage-ok_iff m (some p) h = ground arith

check_dependency-ok_iff :
    (m : Metadata) (r : ContractRef) → (check_dependency m r ≡ ok tt) ↔ MayDependOn m r
unfolding check_dependency
check_dependency-ok_iff m r = ground arith

check_dependencies-ok_iff :
    (m : Metadata) (rs : List ContractRef)
    → (try_each (check_dependency m) rs ≡ ok tt) ↔ All (MayDependOn m) rs
check_dependencies-ok_iff m rs = ground (
  arith,
  try_each-ok_iff (check_dependency m) rs,
  All-iff (λ r. check_dependency m r ≡ ok tt) (MayDependOn m) (check_dependency-ok_iff m) rs,
)

validate-IsValid : (m : Metadata) → validate m ≡ ok tt → IsValid m
unfolding validate
validate-IsValid m h =
    let shaped : IsShaped m = malformed-false m (ground arith) in
    let lineage : Precedes m m.predecessor_ref =
      (check_lineage-ok_iff m m.predecessor_ref shaped.revision_safe).0 (ground arith) in
    let deps : All (MayDependOn m) m.dependency_refs =
      (check_dependencies-ok_iff m m.dependency_refs).0 (ground arith) in
    record {
      has_contract_id = shaped.has_contract_id;
      has_run_id = shaped.has_run_id;
      has_turn_id = shaped.has_turn_id;
      revision_pos = shaped.revision_pos;
      revision_safe = shaped.revision_safe;
      valid_until_pos = shaped.valid_until_pos;
      valid_until_safe = shaped.valid_until_safe;
      has_policy = shaped.has_policy;
      schema = shaped.schema;
      authority = ground arith;
      lineage = lineage;
      dependencies = deps;
    }

validate_of_IsValid : (m : Metadata) → IsValid m → validate m ≡ ok tt
unfolding validate
validate_of_IsValid m v =
    rw
      (malformed_of_IsShaped m (record {
        has_contract_id = v.has_contract_id;
        has_run_id = v.has_run_id;
        has_turn_id = v.has_turn_id;
        revision_pos = v.revision_pos;
        revision_safe = v.revision_safe;
        valid_until_pos = v.valid_until_pos;
        valid_until_safe = v.valid_until_safe;
        has_policy = v.has_policy;
        schema = v.schema;
      }))
      (rw (v.authority, (check_lineage-ok_iff m m.predecessor_ref v.revision_safe).1 v.lineage)
        ((check_dependencies-ok_iff m m.dependency_refs).1 v.dependencies))

-- `validate` accepts exactly the metadata with non-nil identifiers, a revision and an expiry in
-- 1..=2^53 - 1, a policy, schema version 1, a sound authority context, the predecessor that the
-- revision number demands, and dependencies that are sound and older than this revision.
pub metadata_ok_iff : (m : Metadata) → (validate m ≡ ok tt) ↔ IsValid m
metadata_ok_iff m = (validate-IsValid m, validate_of_IsValid m)
