-- ===== src/Protocol/Metadata.antt =====
-- crates/idr-protocol/src/human_centered/common.rs: `HumanCenteredContractMetadataV1`.
pub mod Validity
pub mod Lineage
use idr.Base.{
  ℕ, ◌+◌, Bool, true, false, ◌||◌, ◌&&◌, not, ◌==◌, ◌!=◌, nat_eq, ltb, leb, List, [], Option, none,
  some, ok, err, deny, ◌>>◌, ◌>>=◌, map_err, ok_or, try_each, is_blank, checked_add, u64_max,
  if◌then◌else◌,
}
use idr.Protocol.Error.{
  ProtocolError, Checked, from_reference_error, invalid_metadata, contract_kind_mismatch,
  revision_overflow, invalid_revision_lineage, invalid_dependency,
}
use idr.Protocol.Reference
use idr.Protocol.Reference.{Reference, AuthorityContext}
use idr.Protocol.Id.{RunId, TurnId, ContractId, ContractKind, is_empty_id, id_eq, kind_eq}
use idr.Protocol.ContractRef
use idr.Protocol.ContractRef.{ContractRef, max_safe_wire_integer}
use idr.Protocol.Collections.{canonical_references, canonical_contract_references}

abbrev pub schema_version_v1 : ℕ
schema_version_v1 = 1

pub record Metadata : Type 0 where
  pub contract_kind : ContractKind
  pub contract_id : ContractId
  pub run_id : RunId
  pub turn_id : TurnId
  pub revision : ℕ
  pub predecessor_ref : Option ContractRef
  pub authority_context : AuthorityContext
  pub evidence_refs : List Reference
  pub dependency_refs : List ContractRef
  pub policy_revision_ref : Reference
  pub valid_until : ℕ
  pub schema_version : ℕ

-- `previous.revision().checked_add(1) == Some(revision)`
abbrev pub follows : ℕ → ℕ → Bool
follows previous revision = elim (checked_add u64_max previous 1) [
  | none ↦ false
  | some next ↦ next == revision
]

-- The guard of the arm `(Some(previous), revision)`.
unfoldable pub continues : Metadata → ContractRef → Bool
continues m previous =
    previous.kind == m.contract_kind
    && previous.contract_id == m.contract_id
    && follows previous.revision m.revision

-- `match (&self.predecessor_ref, self.revision)`
unfoldable pub check_lineage : Metadata → Option ContractRef → Checked (Unit {0})
check_lineage m none = if m.revision == 1 then ok tt else err invalid_revision_lineage
check_lineage m (some previous) =
    if continues m previous then ContractRef.validate previous else err invalid_revision_lineage

unfoldable pub check_dependency : Metadata → ContractRef → Checked (Unit {0})
check_dependency m reference = do
  ContractRef.validate reference
  deny (reference.contract_id == m.contract_id && leb m.revision reference.revision)
      invalid_dependency

-- The first test of `validate`.
unfoldable pub malformed : Metadata → Bool
malformed m =
    is_empty_id m.contract_id
    || is_empty_id m.run_id
    || is_empty_id m.turn_id
    || m.revision == 0
    || ltb max_safe_wire_integer m.revision
    || m.valid_until == 0
    || ltb max_safe_wire_integer m.valid_until
    || is_blank m.policy_revision_ref.text
    || m.schema_version != schema_version_v1

unfoldable pub validate : Metadata → Checked (Unit {0})
validate m = do
  deny (malformed m) invalid_metadata
  map_err from_reference_error (Reference.validate m.authority_context)
  check_lineage m m.predecessor_ref
  try_each (check_dependency m) m.dependency_refs

-- The arguments that `initial`, `successor` and `build` share.
pub record Draft : Type 0 where
  pub run_id : RunId
  pub turn_id : TurnId
  pub authority_context : AuthorityContext
  pub evidence_refs : List Reference
  pub dependency_refs : List ContractRef
  pub policy_revision_ref : Reference
  pub valid_until : ℕ

unfoldable pub build : ContractKind → ContractId → ℕ → Option ContractRef → Draft → Checked Metadata
build kind contract_id revision predecessor_ref d = do
  evidence ← canonical_references d.evidence_refs
  dependencies ← canonical_contract_references d.dependency_refs
  let value : Metadata = record {
    contract_kind = kind;
    contract_id = contract_id;
    run_id = d.run_id;
    turn_id = d.turn_id;
    revision = revision;
    predecessor_ref = predecessor_ref;
    authority_context = d.authority_context;
    evidence_refs = evidence;
    dependency_refs = dependencies;
    policy_revision_ref = d.policy_revision_ref;
    valid_until = d.valid_until;
    schema_version = schema_version_v1;
  }
  validate value
  ok value

-- `minted` is what `HumanCenteredContractIdV1::mint` returns: a random version 4 UUID.
unfoldable pub initial : ContractId → ContractKind → Draft → Checked Metadata
unfolding build
initial minted kind d = build kind minted 1 none d

unfoldable pub successor : ContractKind → ContractRef → Draft → Checked Metadata
unfolding build
successor kind previous d = do
  ContractRef.validate previous
  deny (previous.kind != kind) contract_kind_mismatch
  revision ← ok_or (checked_add u64_max previous.revision 1) revision_overflow
  build kind previous.contract_id revision (some previous) d
