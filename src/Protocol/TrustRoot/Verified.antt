-- ===== src/Protocol/TrustRoot/Verified.antt =====
-- What a verified proof guarantees.
use idr.Base.{
  ℕ, ◌≤◌, ◌<◌, ◌≡◌, true, false, List, Elem, some, ok, arith, contains_iff, text_ord, Result-cases,
  inl, inr, Option-cases,
}
use idr.Base.BTree.{lookup}
use idr.Base.Bytes.{as_bytes}
use idr.Protocol.Hex.{decode_hex}
use idr.Protocol.Proof.{SignedProofEnvelope, ProofClaims, proof_kind_eq, canonical_signing_bytes}
use idr.Protocol.TrustRoot.{
  Ed25519, IssuerKeyPolicy, ProofTrustRoot, ExpectedProofBinding, VerifiedProof, is_unexpected,
  is_outside_policy, verify_at,
}

-- The claims are the expected ones, field by field.
abbrev pub binding_of : ProofClaims → ExpectedProofBinding
binding_of c = record {
  proof_kind = c.proof_kind;
  issuer_ref = c.issuer_ref;
  subject_ref = c.subject_ref;
  subject_digest = c.subject_digest;
  tenant_ref = c.tenant_ref;
  scope_ref = c.scope_ref;
  purpose_ref = c.purpose_ref;
  policy_revision_ref = c.policy_revision_ref;
}

-- A key of the trust root that may have signed the claims, at a time when both were in force.
pub record MaySign (policy : IssuerKeyPolicy) (c : ProofClaims) (t : ℕ) : Type 0 where
  pub same_issuer : c.issuer_ref ≡ policy.issuer_ref
  pub same_tenant : c.tenant_ref ≡ policy.tenant_ref
  pub kind_allowed : Elem c.proof_kind policy.allowed_proof_kinds
  pub claims_live : (c.issued_at ≤ t) × (t < c.expires_at)
  pub key_live : (policy.valid_from ≤ c.issued_at) × (t < policy.valid_until)
  pub not_revoked : (r : ℕ) → policy.revoked_at ≡ some r → t < r

unexpected-binding :
    (c : ProofClaims) (b : ExpectedProofBinding) → is_unexpected c b ≡ false → binding_of c ≡ b
unfolding is_unexpected
unexpected-binding c b h = ground arith

outside-MaySign :
    (c : ProofClaims) (policy : IssuerKeyPolicy) (t : ℕ)
    → is_outside_policy c policy t ≡ false
    → MaySign policy c t
unfolding is_outside_policy
outside-MaySign c policy t h = record {
  same_issuer = ground arith;
  same_tenant = ground arith;
  kind_allowed = (contains_iff policy.allowed_proof_kinds c.proof_kind).0 (ground arith);
  claims_live = (ground arith, ground arith);
  key_live = (ground arith, ground arith);
  not_revoked = λ r e. ground arith;
}

-- A verified proof holds the given envelope and time. Its claims are exactly those that the caller
-- expects; a key of the trust root, found by the envelope's key identifier, may have signed them at
-- that time; and the signature verifies under that key over the claims' signing bytes.
pub verify_at-ok :
    (ed : Ed25519) (root : ProofTrustRoot) (envelope : SignedProofEnvelope)
    (expected : ExpectedProofBinding) (t : ℕ) (v : VerifiedProof)
    → verify_at ed root envelope expected t ≡ ok v
    → (v ≡ record { envelope = envelope; verified_at = t })
      × (binding_of envelope.claims ≡ expected)
      × ((policy : IssuerKeyPolicy) × (lookup envelope.key_id.text root.keys ≡ some policy)
          × MaySign policy envelope.claims t
          × ((message : List ℕ) × (signature : List ℕ) × (canonical_signing_bytes ed.hyphenated
                  envelope.claims
                ≡ ok message)
              × (decode_hex 64 (as_bytes envelope.signature) ≡ some signature)
              × (ed.verifies policy.verifying_key message signature ≡ true)))
unfolding verify_at
verify_at-ok ed root envelope expected t v h =
    elim (Option-cases (lookup envelope.key_id.text root.keys)) [
      | inl e ↦ absurd (ground arith)
      | inr (policy, ep) ↦ elim (Option-cases (decode_hex 64 (as_bytes envelope.signature))) [
        | inl e ↦ absurd (ground arith)
        | inr (signature, es) ↦
            elim (Result-cases (canonical_signing_bytes ed.hyphenated envelope.claims)) [
              | inl (message, em) ↦ (
                ground arith,
                unexpected-binding envelope.claims expected (ground arith),
                (
                  policy,
                  ep,
                  outside-MaySign envelope.claims policy t (ground arith),
                  (message, signature, em, es, ground arith),
                ),
              )
              | inr (x, em) ↦ absurd (ground arith)
            ]
      ]
    ]
