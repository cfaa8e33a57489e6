-- ===== src/Protocol/Action.antt =====
-- crates/idr-protocol/src/human_centered/action.rs: `ActionContractV1`.
pub mod Rules
use idr.Base.{
  ℕ, Bool, true, false, ◌||◌, ◌&&◌, not, ◌==◌, ◌!=◌, leb, List, [], is_empty, contains, Option,
  none, some, is_none, String, ok, err, deny, ◌>>◌, ◌>>=◌, try_some, Text, is_blank, Eq,
}
use idr.Protocol.Error.{Checked, contract_kind_mismatch, invalid_contract, digest_mismatch}
use idr.Protocol.Reference.{Reference}
use idr.Protocol.Id.{ContractKind, ImpactLevel, action, decision, high, rank, kind_eq}
use idr.Protocol.Digest.{Codec, contract_digest, check_digest}
use idr.Protocol.ContractRef
use idr.Protocol.ContractRef.{ContractRef, contract_ref_eq}
use idr.Protocol.Collections.{
  validate_required_text, validate_text_collection, canonical_references,
}
use idr.Protocol.Json.{Value, object, validate_json_payload}
use idr.Protocol.Metadata
use idr.Protocol.Metadata.{Metadata}

pub data AuthorizationState : Type 0 where
  not_required pending authorized denied expired revoked : AuthorizationState

unfoldable pub AuthorizationState-discrete : Discrete AuthorizationState
AuthorizationState-discrete = hlevel

instance abbrev pub authorization_state_eq : Eq AuthorizationState
authorization_state_eq = record { dec = AuthorizationState-discrete }

pub record ActionContract : Type 0 where
  pub metadata : Metadata
  pub decision_ref : Option ContractRef
  pub operation_ref : Reference
  pub parameters : Value
  pub parameter_digest : Text
  pub preconditions : List Text
  pub required_authority_refs : List Reference
  pub authorization_state : AuthorizationState
  pub impact_level : ImpactLevel
  pub reversible : Bool
  pub idempotency_key : Text
  pub verification_requirements : List Text
  pub compensation_operations : List Reference
  pub record_digest : Text

-- What the record's digest is taken over: every field but the digest.
abbrev pub DigestInput : Type 0
DigestInput =
    (Metadata × Option ContractRef × Reference × Value × Text × List Text)
    × (List Reference × AuthorizationState × ImpactLevel × Bool × Text × List Text × List Reference)

abbrev pub digest_input : ActionContract → DigestInput
digest_input a = (
  (a.metadata, a.decision_ref, a.operation_ref, a.parameters, a.parameter_digest, a.preconditions),
  (
    a.required_authority_refs, a.authorization_state, a.impact_level, a.reversible,
    a.idempotency_key, a.verification_requirements, a.compensation_operations,
  ),
)

abbrev pub is_object : Value → Bool
is_object (object _) = true
is_object _ = false

abbrev pub is_high : ImpactLevel → Bool
is_high level = leb (rank high) (rank level)

-- `if let Some(decision_ref) = &self.decision_ref`
unfoldable pub check_decision_ref : Metadata → ContractRef → Checked (Unit {0})
check_decision_ref m r = do
  ContractRef.validate r
  deny (r.kind != decision || not (contains m.dependency_refs r)) invalid_contract

unfoldable pub check_parameters : Codec → ActionContract → Checked (Unit {0})
check_parameters codec a = do
  deny
      (not (is_object a.parameters)
        || is_blank a.operation_ref.text
        || is_empty a.verification_requirements)
      invalid_contract
  check_digest codec "action-parameters-v1" a.parameters a.parameter_digest invalid_contract

-- The rules on impact, authorization and reversibility.
unfoldable pub check_impact : ActionContract → Checked (Unit {0})
check_impact a = do
  deny
      (is_high a.impact_level && a.authorization_state == not_required
        || (is_high a.impact_level || not a.reversible) && is_none a.decision_ref)
      invalid_contract
  deny (a.reversible && is_empty a.compensation_operations) invalid_contract

-- `ActionContractV1::validate`
unfoldable pub validate : Codec → ActionContract → Checked (Unit {0})
validate codec a = do
  Metadata.validate a.metadata
  deny (a.metadata.contract_kind != action) contract_kind_mismatch
  validate_text_collection a.preconditions
  validate_text_collection a.verification_requirements
  validate_required_text a.idempotency_key
  validate_json_payload codec.to_vec a.parameters
  check_parameters codec a
  try_some (check_decision_ref a.metadata) a.decision_ref
  check_impact a
  check_digest codec "action-contract-v1" (digest_input a) a.record_digest digest_mismatch

-- The arguments of `issue`.
pub record ActionDraft : Type 0 where
  pub metadata : Metadata
  pub decision_ref : Option ContractRef
  pub operation_ref : Reference
  pub parameters : Value
  pub preconditions : List Text
  pub required_authority_refs : List Reference
  pub authorization_state : AuthorizationState
  pub impact_level : ImpactLevel
  pub reversible : Bool
  pub idempotency_key : Text
  pub verification_requirements : List Text
  pub compensation_operations : List Reference

-- The struct literal of `issue`, before its digest is set.
abbrev pub unsealed : ActionDraft → Text → List Reference → List Reference → ActionContract
unsealed d parameter_digest authorities compensations = record {
  metadata = d.metadata;
  decision_ref = d.decision_ref;
  operation_ref = d.operation_ref;
  parameters = d.parameters;
  parameter_digest = parameter_digest;
  preconditions = d.preconditions;
  required_authority_refs = authorities;
  authorization_state = d.authorization_state;
  impact_level = d.impact_level;
  reversible = d.reversible;
  idempotency_key = d.idempotency_key;
  verification_requirements = d.verification_requirements;
  compensation_operations = compensations;
  record_digest = [];
}

-- Setting the digest and validating, the end of every `issue`.
unfoldable pub seal : Codec → ActionContract → Checked ActionContract
seal codec value = do
  digest ← contract_digest codec "action-contract-v1" (digest_input value)
  validate codec (record value { record_digest = digest })
  ok (record value { record_digest = digest })

-- `ActionContractV1::issue`
unfoldable pub issue : Codec → ActionDraft → Checked ActionContract
issue codec d = do
  validate_json_payload codec.to_vec d.parameters
  parameter_digest ← contract_digest codec "action-parameters-v1" d.parameters
  authorities ← canonical_references d.required_authority_refs
  compensations ← canonical_references d.compensation_operations
  seal codec (unsealed d parameter_digest authorities compensations)

-- `ActionContractV1::record_ref`
unfoldable pub record_ref : Codec → ActionContract → Checked ContractRef
record_ref codec a = do
  validate codec a
  ContractRef.new action a.metadata.contract_id a.metadata.revision a.record_digest
