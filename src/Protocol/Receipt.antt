-- ===== src/Protocol/Receipt.antt =====
-- crates/idr-protocol/src/human_centered/execution.rs: execution receipts and their attestation.
pub mod Validity
pub mod Attested
use idr.Base.{
  ℕ, Bool, true, false, ◌||◌, ◌==◌, ◌!=◌, not, nat_eq, text_eq, ltb, leb, List, [], ◌∷◌, ◌++◌,
  is_empty, contains, Option, none, some, is_none, ok, err, deny, ◌>>◌, ◌>>=◌, try_some, map_err,
  Text, Text-discrete, len, is_blank, decimal, Eq,
}
use idr.Protocol.Error.{
  Checked, contract_kind_mismatch, invalid_contract, digest_mismatch, proof_verification_failed,
}
use idr.Protocol.Reference
use idr.Protocol.Reference.{Reference, reference_eq}
use idr.Protocol.Id.{Uuid, ProofId, is_nil, is_empty_id, kind_eq, action, execution_receipt}
use idr.Protocol.Digest.{Codec, contract_digest, check_digest, valid_digest}
use idr.Protocol.ContractRef
use idr.Protocol.ContractRef.{ContractRef, contract_ref_eq}
use idr.Protocol.Collections.{validate_required_text, validate_text_collection}
use idr.Protocol.Json.{Value, validate_json_payload}
use idr.Protocol.Metadata
use idr.Protocol.Metadata.{Metadata}
use idr.Protocol.Action
use idr.Protocol.Action.{ActionContract}
use idr.Protocol.Proof.{proof_kind_eq, SignedProofEnvelope, provider_execution_receipt}
use idr.Protocol.TrustRoot.{ExpectedProofBinding, VerifiedProof, new_binding}

pub data ExecutionState : Type 0 where
  succeeded failed partially_succeeded rejected compensated : ExecutionState

pub record ExecutionReceipt : Type 0 where
  pub metadata : Metadata
  pub action_ref : ContractRef
  pub permit_id : ProofId
  pub authorization_id : Uuid
  pub execution_id : Uuid
  pub provider_ref : Reference
  pub owner_ref : Reference
  pub dispatch_nonce : Text
  pub external_execution_ref : Option Reference
  pub idempotency_key : Text
  pub request_parameter_digest : Text
  pub attempt : ℕ
  pub started_at : ℕ
  pub completed_at : ℕ
  pub state : ExecutionState
  pub result_payload : Option Value
  pub result_payload_digest : Option Text
  pub applied_effects : List Text
  pub verification_results : List Text
  pub error_codes : List Text
  pub record_digest : Text

abbrev pub DigestInput : Type 0
DigestInput =
    (Metadata
      × ContractRef
      × ProofId
      × Uuid
      × Uuid
      × Reference
      × Reference
      × Text
      × Option Reference
      × Text
      × Text)
    × (ℕ × ℕ × ℕ × ExecutionState × Option Value × Option Text × List Text × List Text × List Text)

abbrev pub digest_input : ExecutionReceipt → DigestInput
digest_input r = (
  (
    r.metadata, r.action_ref, r.permit_id, r.authorization_id, r.execution_id, r.provider_ref,
    r.owner_ref, r.dispatch_nonce, r.external_execution_ref, r.idempotency_key,
    r.request_parameter_digest,
  ),
  (
    r.attempt, r.started_at, r.completed_at, r.state, r.result_payload, r.result_payload_digest,
    r.applied_effects, r.verification_results, r.error_codes,
  ),
)

-- `payload.map(|payload| contract_digest(...)).transpose()`
unfoldable pub result_digest : Codec → Option Value → Checked (Option Text)
result_digest codec none = ok none
result_digest codec (some payload) = do
  digest ← contract_digest codec "execution-result-v1" payload
  ok (some digest)

-- The comparison of digests that are there or not.
unfoldable pub OptionText-discrete : Discrete (Option Text)
OptionText-discrete = hlevel Text-discrete

instance abbrev pub option_text_eq : Eq (Option Text)
option_text_eq = record { dec = OptionText-discrete }

unfoldable pub check_result : Codec → ExecutionReceipt → Checked (Unit {0})
check_result codec r = do
  expected ← result_digest codec r.result_payload
  deny (expected != r.result_payload_digest) digest_mismatch

-- The test of `validate` on references, the nonce, the attempt and the times.
unfoldable pub malformed : ExecutionReceipt → Bool
malformed r =
    r.action_ref.kind != action
    || not (contains r.metadata.dependency_refs r.action_ref)
    || is_empty_id r.permit_id
    || is_nil r.authorization_id
    || is_nil r.execution_id
    || is_blank r.provider_ref.text
    || is_blank r.owner_ref.text
    || len r.dispatch_nonce != 64
    || not (valid_digest r.dispatch_nonce)
    || r.attempt == 0
    || r.started_at == 0
    || ltb r.completed_at r.started_at
    || not (valid_digest r.request_parameter_digest)

-- `match self.state`: what a state must come with.
abbrev pub misreported : ExecutionState → ExecutionReceipt → Bool
misreported succeeded r =
    is_none r.result_payload || is_empty r.verification_results || not (is_empty r.error_codes)
misreported failed r = is_empty r.error_codes
misreported rejected r = is_empty r.error_codes
misreported partially_succeeded r = false
misreported compensated r = false

-- `ExecutionReceiptV1::validate`
unfoldable pub validate : Codec → ExecutionReceipt → Checked (Unit {0})
validate codec r = do
  Metadata.validate r.metadata
  deny (r.metadata.contract_kind != execution_receipt) contract_kind_mismatch
  ContractRef.validate r.action_ref
  validate_required_text r.idempotency_key
  validate_text_collection r.applied_effects
  validate_text_collection r.verification_results
  validate_text_collection r.error_codes
  try_some (validate_json_payload codec.to_vec) r.result_payload
  deny (malformed r) invalid_contract
  check_result codec r
  deny (misreported r.state r) invalid_contract
  check_digest codec "execution-receipt-v1" (digest_input r) r.record_digest digest_mismatch

-- The arguments of `issue` behind the action.
pub record ReceiptDraft : Type 0 where
  pub metadata : Metadata
  pub permit_id : ProofId
  pub authorization_id : Uuid
  pub provider_ref : Reference
  pub owner_ref : Reference
  pub dispatch_nonce : Text
  pub external_execution_ref : Option Reference
  pub attempt : ℕ
  pub started_at : ℕ
  pub completed_at : ℕ
  pub state : ExecutionState
  pub result_payload : Option Value
  pub applied_effects : List Text
  pub verification_results : List Text
  pub error_codes : List Text

-- The struct literal of `issue`, before its digest is set; `minted` is what `Uuid::new_v4` returns.
abbrev pub unsealed :
    Uuid → ActionContract → ReceiptDraft → ContractRef → Option Text → ExecutionReceipt
unsealed minted a d action_ref payload_digest = record {
  metadata = d.metadata;
  action_ref = action_ref;
  permit_id = d.permit_id;
  authorization_id = d.authorization_id;
  execution_id = minted;
  provider_ref = d.provider_ref;
  owner_ref = d.owner_ref;
  dispatch_nonce = d.dispatch_nonce;
  external_execution_ref = d.external_execution_ref;
  idempotency_key = a.idempotency_key;
  request_parameter_digest = a.parameter_digest;
  attempt = d.attempt;
  started_at = d.started_at;
  completed_at = d.completed_at;
  state = d.state;
  result_payload = d.result_payload;
  result_payload_digest = payload_digest;
  applied_effects = d.applied_effects;
  verification_results = d.verification_results;
  error_codes = d.error_codes;
  record_digest = [];
}

-- Setting the digest and validating, the end of `issue`.
unfoldable pub seal : Codec → ExecutionReceipt → Checked ExecutionReceipt
seal codec value = do
  digest ← contract_digest codec "execution-receipt-v1" (digest_input value)
  validate codec (record value { record_digest = digest })
  ok (record value { record_digest = digest })

-- `ExecutionReceiptV1::issue`
unfoldable pub issue : Codec → Uuid → ActionContract → ReceiptDraft → Checked ExecutionReceipt
issue codec minted a d = do
  Action.validate codec a
  action_ref ← Action.record_ref codec a
  try_some (validate_json_payload codec.to_vec) d.result_payload
  payload_digest ← result_digest codec d.result_payload
  seal codec (unsealed minted a d action_ref payload_digest)

-- `ExecutionReceiptV1::record_ref`
unfoldable pub record_ref : Codec → ExecutionReceipt → Checked ContractRef
record_ref codec r = do
  validate codec r
  ContractRef.new execution_receipt r.metadata.contract_id r.metadata.revision r.record_digest

-- "execution-receipt:"
abbrev pub subject_prefix : Text
subject_prefix =
    b'e' ∷ b'x' ∷ b'e' ∷ b'c' ∷ b'u' ∷ b't' ∷ b'i' ∷ b'o' ∷ b'n' ∷ b'-' ∷ b'r' ∷ b'e' ∷ b'c' ∷ b'e'
    ∷ b'i' ∷ b'p' ∷ b't' ∷ b':' ∷ []

-- `ExecutionReceiptV1::proof_subject_ref`; `hyphenated` prints a UUID.
unfoldable pub proof_subject_ref : (Uuid → Text) → ExecutionReceipt → Checked Reference
proof_subject_ref hyphenated r =
    map_err (λ _. invalid_contract)
      (Reference.new (
        subject_prefix
        ++ (hyphenated r.metadata.contract_id.uuid ++ b':' ∷ decimal r.metadata.revision)))

-- `ExecutionReceiptV1::expected_provider_proof_binding`
unfoldable pub expected_provider_proof_binding :
    (Uuid → Text) → ExecutionReceipt → Checked ExpectedProofBinding
expected_provider_proof_binding hyphenated r = do
  subject_ref ← proof_subject_ref hyphenated r
  new_binding (record {
    proof_kind = provider_execution_receipt;
    issuer_ref = r.provider_ref;
    subject_ref = subject_ref;
    subject_digest = r.record_digest;
    tenant_ref = r.metadata.authority_context.tenant_ref;
    scope_ref = r.metadata.authority_context.scope_ref;
    purpose_ref = r.metadata.authority_context.purpose_ref;
    policy_revision_ref = r.metadata.policy_revision_ref;
  })
