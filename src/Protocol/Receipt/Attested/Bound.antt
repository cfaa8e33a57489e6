-- ===== src/Protocol/Receipt/Attested/Bound.antt =====
-- What the attestation of a receipt is bound to, and when it may be used.
use idr.Base.{ℕ, ◌≤◌, ◌<◌, ◌≡◌, ◌↔◌, sym, ◌∙◌, false, ok, arith, Text, Result-cases, inl, inr}
use idr.Protocol.Id.{Uuid}
use idr.Protocol.Digest.{Codec, contract_digest}
use idr.Protocol.ContractRef
use idr.Protocol.ContractRef.{ContractRef}
use idr.Protocol.Proof.{ProofClaims, provider_execution_receipt}
use idr.Protocol.TrustRoot.{ExpectedProofBinding, VerifiedProof, new_binding}
use idr.Protocol.Receipt
use idr.Protocol.Receipt.{
  ExecutionReceipt, digest_input, record_ref, proof_subject_ref, expected_provider_proof_binding,
}
use idr.Protocol.Receipt.Validity.{receipt-binds}
use idr.Protocol.Receipt.Attested.{
  VerifiedReceipt, unattested, verify_execution_receipt, untimely, validate_at,
}

-- The provider's claims name this very receipt.
pub record Attests (hyphenated : Uuid → Text) (c : ProofClaims) (r : ExecutionReceipt)
    : Type 0 where
  pub for_receipts : c.proof_kind ≡ provider_execution_receipt
  pub by_provider : c.issuer_ref ≡ r.provider_ref
  pub for_subject : proof_subject_ref hyphenated r ≡ ok c.subject_ref
  pub for_contents : c.subject_digest ≡ r.record_digest
  pub for_tenant : c.tenant_ref ≡ r.metadata.authority_context.tenant_ref
  pub for_scope : c.scope_ref ≡ r.metadata.authority_context.scope_ref
  pub for_purpose : c.purpose_ref ≡ r.metadata.authority_context.purpose_ref
  pub for_policy : c.policy_revision_ref ≡ r.metadata.policy_revision_ref
  pub with_nonce : c.nonce ≡ r.dispatch_nonce
  pub after_completion : r.completed_at ≤ c.issued_at

record_ref-digest :
    (codec : Codec) (r : ExecutionReceipt) (x : ContractRef)
    → record_ref codec r ≡ ok x
    → x.record_digest ≡ r.record_digest
unfolding record_ref ContractRef.new
record_ref-digest codec r x h = ground arith

binding-fields :
    (hyphenated : Uuid → Text) (r : ExecutionReceipt) (b : ExpectedProofBinding)
    → expected_provider_proof_binding hyphenated r ≡ ok b
    → (b.tenant_ref ≡ r.metadata.authority_context.tenant_ref)
      × (b.scope_ref ≡ r.metadata.authority_context.scope_ref)
      × (b.purpose_ref ≡ r.metadata.authority_context.purpose_ref)
      × (b.policy_revision_ref ≡ r.metadata.policy_revision_ref)
unfolding expected_provider_proof_binding new_binding
binding-fields hyphenated r b h = ground arith

attested-parts :
    (codec : Codec) (hyphenated : Uuid → Text) (proof : VerifiedProof) (r : ExecutionReceipt)
    (v : VerifiedReceipt)
    → verify_execution_receipt codec hyphenated proof r ≡ ok v
    → (v ≡ record { receipt = r; verified_proof = proof })
      × (Receipt.validate codec r ≡ ok tt)
      × ((b : ExpectedProofBinding) × (x : ContractRef) × (expected_provider_proof_binding
              hyphenated r
            ≡ ok b)
          × (record_ref codec r ≡ ok x)
          × (proof_subject_ref hyphenated r ≡ ok proof.envelope.claims.subject_ref)
          × (proof.envelope.claims.proof_kind ≡ provider_execution_receipt)
          × (proof.envelope.claims.issuer_ref ≡ r.provider_ref)
          × (unattested proof.envelope.claims proof.verified_at r b x ≡ false))
unfolding verify_execution_receipt
attested-parts codec hyphenated proof r v h =
    elim (Result-cases (expected_provider_proof_binding hyphenated r)) [
      | inl (b, eb) ↦ elim (Result-cases (record_ref codec r)) [
        | inl (x, ex) ↦ elim (Result-cases (proof_subject_ref hyphenated r)) [
          | inl (subject, es) ↦ (
            ground arith,
            ground arith,
            (b, x, eb, ex, ground arith, ground arith, ground arith, ground arith),
          )
          | inr (e, es) ↦ absurd (ground arith)
        ]
        | inr (e, ex) ↦ absurd (ground arith)
      ]
      | inr (e, eb) ↦ absurd (ground arith)
    ]

unattested-fields :
    (c : ProofClaims) (t : ℕ) (r : ExecutionReceipt) (b : ExpectedProofBinding) (x : ContractRef)
    → unattested c t r b x ≡ false
    → (c.subject_digest ≡ x.record_digest)
      × (c.tenant_ref ≡ b.tenant_ref)
      × (c.scope_ref ≡ b.scope_ref)
      × (c.purpose_ref ≡ b.purpose_ref)
      × (c.policy_revision_ref ≡ b.policy_revision_ref)
      × (c.nonce ≡ r.dispatch_nonce)
      × (r.completed_at ≤ c.issued_at)
      × (c.issued_at ≤ t)
unfolding unattested
unattested-fields c t r b x h = ground arith

-- A verified receipt is the given one under the given proof, and is valid; the proof's claims were
-- issued by the provider after the receipt was complete and before the verification, and name the
-- receipt's subject, digest, nonce, tenant, scope, purpose and policy.
pub verify_execution_receipt-ok :
    (codec : Codec) (hyphenated : Uuid → Text) (proof : VerifiedProof) (r : ExecutionReceipt)
    (v : VerifiedReceipt)
    → verify_execution_receipt codec hyphenated proof r ≡ ok v
    → (v ≡ record { receipt = r; verified_proof = proof })
      × (Receipt.validate codec r ≡ ok tt)
      × Attests hyphenated proof.envelope.claims r
      × (proof.envelope.claims.issued_at ≤ proof.verified_at)
verify_execution_receipt-ok codec hyphenated proof r v h =
    let (is_v, valid, (b, x, eb, ex, subject, kind, issuer, test)) =
      attested-parts codec hyphenated proof r v h in
    let (digest, tenant, scope, purpose, policy, nonce, after, before) =
      unattested-fields proof.envelope.claims proof.verified_at r b x test in
    let (tenant', scope', purpose', policy') = binding-fields hyphenated r b eb in
    (
      is_v,
      valid,
      record {
        for_receipts = kind;
        by_provider = issuer;
        for_subject = subject;
        for_contents = digest ∙ record_ref-digest codec r x ex;
        for_tenant = tenant ∙ tenant';
        for_scope = scope ∙ scope';
        for_purpose = purpose ∙ purpose';
        for_policy = policy ∙ policy';
        with_nonce = nonce;
        after_completion = after;
      },
      before,
    )

-- One proof attests one receipt: two receipts verified under the same proof are the same, where the
-- digest does not collide on them.
pub verify_execution_receipt_unique :
    (codec : Codec) (hyphenated : Uuid → Text) (proof : VerifiedProof) (r s : ExecutionReceipt)
    (v w : VerifiedReceipt)
    → verify_execution_receipt codec hyphenated proof r ≡ ok v
    → verify_execution_receipt codec hyphenated proof s ≡ ok w
    → (contract_digest codec "execution-receipt-v1" (digest_input r)
          ≡ contract_digest codec "execution-receipt-v1" (digest_input s)
        → digest_input r ≡ digest_input s)
    → r ≡ s
verify_execution_receipt_unique codec hyphenated proof r s v w h k distinct =
    let (_, valid_r, by_r, _) = verify_execution_receipt-ok codec hyphenated proof r v h in
    let (_, valid_s, by_s, _) = verify_execution_receipt-ok codec hyphenated proof s w k in
    receipt-binds codec r s valid_r valid_s (sym by_r.for_contents ∙ by_s.for_contents) distinct

untimely_iff :
    (v : VerifiedReceipt) (t : ℕ)
    → v.receipt.completed_at ≤ v.verified_proof.envelope.claims.issued_at
    → v.verified_proof.envelope.claims.issued_at ≤ v.verified_proof.verified_at
    → (untimely v t ≡ false)
      ↔ ((v.verified_proof.verified_at ≤ t) × (t < v.verified_proof.envelope.claims.expires_at))
unfolding untimely
untimely_iff v t h k = ground arith

validate_at-timely :
    (codec : Codec) (v : VerifiedReceipt) (t : ℕ)
    → Receipt.validate codec v.receipt ≡ ok tt
    → (validate_at codec v t ≡ ok tt) ↔ (untimely v t ≡ false)
unfolding validate_at
validate_at-timely codec v t h = ground arith

-- A receipt that was verified may be used exactly from the time of the verification until the
-- proof's claims expire.
pub verified_receipt-window :
    (codec : Codec) (hyphenated : Uuid → Text) (proof : VerifiedProof) (r : ExecutionReceipt)
    (v : VerifiedReceipt) (t : ℕ)
    → verify_execution_receipt codec hyphenated proof r ≡ ok v
    → (validate_at codec v t ≡ ok tt)
      ↔ ((proof.verified_at ≤ t) × (t < proof.envelope.claims.expires_at))
verified_receipt-window codec hyphenated proof r v t h =
    let (is_v, valid, by, before) = verify_execution_receipt-ok codec hyphenated proof r v h in
    let made : VerifiedReceipt = record { receipt = r; verified_proof = proof } in
    let window : _ = untimely_iff made t by.after_completion before in
    let timely : _ = validate_at-timely codec made t valid in
    rw is_v ((λ e. window.0 (timely.0 e)), λ w. timely.1 (window.1 w))
