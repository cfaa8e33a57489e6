-- ===== src/Examples/Receipts.antt =====
-- The theorems on receipts and outcomes at concrete inputs.
use idr.Base.{ℕ, ◌≡◌, ◌≤◌, ◌<◌, ◌↔◌, ◌++◌, refl, ok, [], ◌∷◌, some, none, Text, true, false}
use idr.Base
use idr.Protocol.Reference
use idr.Protocol.Reference.{Reference}
use idr.Protocol.Id.{action, decision, execution_receipt, outcome}
use idr.Protocol.Json.{object, end}
use idr.Protocol.Proof.{ProofClaims, provider_execution_receipt}
use idr.Protocol.TrustRoot.{VerifiedProof}
use idr.Protocol.Receipt
use idr.Protocol.Receipt.{ExecutionReceipt, ReceiptDraft, subject_prefix, succeeded}
use idr.Protocol.Receipt.Validity.{Reports, validate-Reports}
use idr.Protocol.Receipt.Attested
use idr.Protocol.Receipt.Attested.{VerifiedReceipt, verify_execution_receipt}
use idr.Protocol.Receipt.Attested.Bound
use idr.Protocol.Receipt.Attested.Bound.{
  verify_execution_receipt-ok, verify_execution_receipt_unique, verified_receipt-window,
}
use idr.Examples.Samples.{zeros, id, name, ref, metadata, blank_codec}

abbrev receipt : ExecutionReceipt
receipt = record {
  metadata = metadata execution_receipt 30 (ref action 7 ∷ []);
  action_ref = ref action 7;
  permit_id = id 8;
  authorization_id = 3;
  execution_id = 6;
  provider_ref = name b'v';
  owner_ref = name b'w';
  dispatch_nonce = zeros;
  external_execution_ref = none;
  idempotency_key = b'k' ∷ [];
  request_parameter_digest = zeros;
  attempt = 1;
  started_at = 21;
  completed_at = 25;
  state = succeeded;
  result_payload = some (object end);
  result_payload_digest = some zeros;
  applied_effects = [];
  verification_results = (b'v' ∷ []) ∷ [];
  error_codes = [];
  record_digest = zeros;
}

-- Every UUID is printed alike.
abbrev alike : ℕ → Text
alike u = b'u' ∷ []

abbrev receipt_claims : ProofClaims
receipt_claims = record {
  proof_id = id 9;
  proof_kind = provider_execution_receipt;
  issuer_ref = name b'v';
  subject_ref = record { text = subject_prefix ++ b'u' ∷ b':' ∷ b'1' ∷ [] };
  subject_digest = zeros;
  tenant_ref = name b't';
  scope_ref = name b'o';
  purpose_ref = name b'p';
  policy_revision_ref = name b'r';
  issued_at = 26;
  expires_at = 60;
  nonce = zeros;
  schema_version = 1;
}

abbrev receipt_proof : VerifiedProof
receipt_proof = record {
  envelope = record {
    claims = receipt_claims;
    key_id = name b'k';
    signature = Base.repeat 128 b'0';
  };
  verified_at = 30;
}

abbrev attested : VerifiedReceipt
attested = record { receipt = receipt; verified_proof = receipt_proof }

receipt_valid : Receipt.validate blank_codec receipt ≡ ok tt
unfolding Receipt.validate idr.Protocol.Metadata.validate idr.Protocol.Metadata.malformed
    Base.ℕ_discrete Base.is_blank Reference.validate Base.try_each Base.Text-discrete Base.len
    Base.has_control idr.Protocol.Metadata.check_lineage idr.Protocol.Metadata.check_dependency
    idr.Protocol.ContractRef.validate idr.Protocol.Digest.valid_digest
    idr.Protocol.Id.Identifier-discrete idr.Protocol.Id.ContractKind-discrete
    idr.Protocol.Collections.validate_required_text Base.all Base.any Base.contains Base.trim
    idr.Protocol.Collections.validate_text_collection idr.Protocol.ContractRef.ContractRef-discrete
    idr.Protocol.Digest.check_digest idr.Protocol.Digest.contract_digest
    idr.Protocol.Json.validate_json_payload idr.Protocol.Json.walk idr.Protocol.Metadata.continues
    Receipt.OptionText-discrete Receipt.check_result Receipt.malformed Receipt.result_digest
    Reference.new Reference.refused
receipt_valid = refl

receipt_attested : verify_execution_receipt blank_codec alike receipt_proof receipt ≡ ok attested
unfolding verify_execution_receipt Receipt.validate idr.Protocol.Metadata.validate
    idr.Protocol.Metadata.malformed Base.ℕ_discrete Base.is_blank Reference.validate Base.try_each
    Base.Text-discrete Base.len Base.has_control idr.Protocol.Metadata.check_lineage
    idr.Protocol.Metadata.check_dependency idr.Protocol.ContractRef.validate
    idr.Protocol.Digest.valid_digest idr.Protocol.Id.Identifier-discrete
    idr.Protocol.Id.ContractKind-discrete Base.all Base.any Base.contains Base.decimal Base.trim
    idr.Protocol.Collections.validate_required_text
    idr.Protocol.Collections.validate_text_collection idr.Protocol.ContractRef.ContractRef-discrete
    idr.Protocol.ContractRef.new idr.Protocol.Digest.check_digest
    idr.Protocol.Digest.contract_digest idr.Protocol.Json.validate_json_payload
    idr.Protocol.Json.walk idr.Protocol.Metadata.continues idr.Protocol.Proof.ProofKind-discrete
    Attested.unattested Receipt.OptionText-discrete Receipt.check_result
    Receipt.expected_provider_proof_binding Receipt.malformed Receipt.proof_subject_ref
    Receipt.record_ref Receipt.result_digest Reference.Reference-discrete Reference.new
    Reference.refused idr.Protocol.TrustRoot.new_binding idr.Protocol.TrustRoot.validate_binding
receipt_attested = refl

validate-Reports_example : Reports blank_codec receipt
validate-Reports_example = validate-Reports blank_codec receipt receipt_valid

verify_execution_receipt-ok_example :
    (attested ≡ record { receipt = receipt; verified_proof = receipt_proof })
    × (Receipt.validate blank_codec receipt ≡ ok tt)
    × Bound.Attests alike receipt_claims receipt
    × (26 ≤ 30)
verify_execution_receipt-ok_example =
    verify_execution_receipt-ok blank_codec alike receipt_proof receipt attested receipt_attested

verify_execution_receipt_unique_example : receipt ≡ receipt
verify_execution_receipt_unique_example =
    verify_execution_receipt_unique blank_codec alike receipt_proof receipt receipt attested
      attested receipt_attested receipt_attested (λ e. refl)
