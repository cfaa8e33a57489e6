-- ===== src/Protocol/Receipt/Attested.antt =====
-- crates/idr-protocol/src/human_centered/execution.rs: `verify_execution_receipt`.
pub mod Bound
use idr.Base.{ℕ, Bool, ◌||◌, ◌!=◌, text_eq, ltb, leb, ok, deny, ◌>>◌, ◌>>=◌, Text}
use idr.Protocol.Error.{Checked, proof_verification_failed}
use idr.Protocol.Reference.{Reference, reference_eq}
use idr.Protocol.Id.{Uuid}
use idr.Protocol.Digest.{Codec}
use idr.Protocol.ContractRef.{ContractRef}
use idr.Protocol.Proof.{ProofClaims, proof_kind_eq, SignedProofEnvelope, provider_execution_receipt}
use idr.Protocol.TrustRoot.{ExpectedProofBinding, VerifiedProof}
use idr.Protocol.Receipt
use idr.Protocol.Receipt.{
  ExecutionReceipt, record_ref, proof_subject_ref, expected_provider_proof_binding,
}

pub record VerifiedReceipt : Type 0 where
  pub receipt : ExecutionReceipt
  pub verified_proof : VerifiedProof

-- The disjuncts behind the two `?` of the test.
unfoldable pub unattested :
    ProofClaims → ℕ → ExecutionReceipt → ExpectedProofBinding → ContractRef → Bool
unattested c verified_at r expected receipt_ref =
    c.subject_digest != receipt_ref.record_digest
    || c.tenant_ref != expected.tenant_ref
    || c.scope_ref != expected.scope_ref
    || c.purpose_ref != expected.purpose_ref
    || c.policy_revision_ref != expected.policy_revision_ref
    || c.nonce != r.dispatch_nonce
    || ltb c.issued_at r.completed_at
    || ltb verified_at c.issued_at

unfoldable pub verify_execution_receipt :
    Codec → (Uuid → Text) → VerifiedProof → ExecutionReceipt → Checked VerifiedReceipt
verify_execution_receipt codec hyphenated proof r = do
  Receipt.validate codec r
  expected ← expected_provider_proof_binding hyphenated r
  deny
      (proof.envelope.claims.proof_kind != provider_execution_receipt
        || proof.envelope.claims.issuer_ref != r.provider_ref)
      proof_verification_failed
  subject_ref ← proof_subject_ref hyphenated r
  deny (proof.envelope.claims.subject_ref != subject_ref) proof_verification_failed
  receipt_ref ← record_ref codec r
  deny (unattested proof.envelope.claims proof.verified_at r expected receipt_ref)
      proof_verification_failed
  ok (record { receipt = r; verified_proof = proof })

-- The test of `validate_at`.
unfoldable pub untimely : VerifiedReceipt → ℕ → Bool
untimely v trusted_now =
    ltb trusted_now v.receipt.completed_at
    || ltb trusted_now v.verified_proof.envelope.claims.issued_at
    || leb v.verified_proof.envelope.claims.expires_at trusted_now
    || ltb trusted_now v.verified_proof.verified_at

-- `VerifiedExecutionReceiptV1::validate_at`
unfoldable pub validate_at : Codec → VerifiedReceipt → ℕ → Checked (Unit {0})
validate_at codec v trusted_now = do
  Receipt.validate codec v.receipt
  deny (untimely v trusted_now) proof_verification_failed

-- `VerifiedExecutionReceiptV1::into_parts`
unfoldable pub into_parts : VerifiedReceipt → ExecutionReceipt × SignedProofEnvelope × ℕ
into_parts v = (v.receipt, v.verified_proof.envelope, v.verified_proof.verified_at)
