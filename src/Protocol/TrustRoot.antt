-- ===== src/Protocol/TrustRoot.antt =====
-- crates/idr-protocol/src/human_centered/trust.rs: issuer keys, and the verification of a proof.
-- The ed25519_dalek crate is a parameter; a verifying key is the 32 bytes that it was read from.
pub mod Verified
use idr.Base.{
  is_some_and, ℕ, Bool, true, false, ◌||◌, ◌&&◌, not, ◌==◌, ◌!=◌, nat_eq, text_eq, text_ord, ltb,
  leb, List, [], ◌∷◌, any, is_empty, contains, Option, none, some, is_some, ok, err, deny, ◌>>◌,
  ◌>>=◌, ok_or, Text, is_blank,
}
use idr.Base.BTree.{lookup, update}
use idr.Base.Bytes.{as_bytes}
use idr.Protocol.Error.{Checked, invalid_contract, proof_verification_failed}
use idr.Protocol.Reference.{Reference, reference_eq}
use idr.Protocol.Id.{Uuid}
use idr.Protocol.Digest.{valid_digest}
use idr.Protocol.ContractRef.{max_safe_wire_integer}
use idr.Protocol.Hex.{decode_hex}
use idr.Protocol.Proof.{
  ProofKind, proof_kind_eq, ProofClaims, SignedProofEnvelope, validate_shape,
  canonical_signing_bytes, is_blank_ref,
}

-- `VerifyingKey::from_bytes(bytes).is_ok()`, and `verify(message, signature).is_ok()` of a key.
pub record Ed25519 : Type 0 where
  pub is_key : List ℕ → Bool
  pub verifies : List ℕ → List ℕ → List ℕ → Bool
  -- `Uuid`'s `Display`, hyphenated
  pub hyphenated : Uuid → List ℕ

pub record IssuerKeyPolicy : Type 0 where
  pub issuer_ref : Reference
  pub key_id : Reference
  pub verifying_key : List ℕ
  pub allowed_proof_kinds : List ProofKind
  pub tenant_ref : Reference
  pub valid_from : ℕ
  pub valid_until : ℕ
  pub revoked_at : Option ℕ

-- `IssuerKeyPolicyV1::new`; the set of kinds is the list of its elements.
unfoldable pub new_policy :
    Ed25519
    → Reference
    → Reference
    → Text
    → List ProofKind
    → Reference
    → ℕ
    → ℕ
    → Option ℕ
    → Checked IssuerKeyPolicy
new_policy ed issuer_ref key_id public_key_hex kinds tenant_ref valid_from valid_until revoked_at =
    do
      key_bytes ← ok_or (decode_hex 32 (as_bytes public_key_hex)) proof_verification_failed
      deny (not (ed.is_key key_bytes)) proof_verification_failed
      deny
          (is_empty kinds
            || valid_from == 0
            || leb valid_until valid_from
            || ltb max_safe_wire_integer valid_until
            || is_some_and revoked_at (λ value. ltb value valid_from || ltb valid_until value))
          invalid_contract
      ok (record {
        issuer_ref = issuer_ref;
        key_id = key_id;
        verifying_key = key_bytes;
        allowed_proof_kinds = kinds;
        tenant_ref = tenant_ref;
        valid_from = valid_from;
        valid_until = valid_until;
        revoked_at = revoked_at;
      })

-- `keys: BTreeMap<String, IssuerKeyPolicyV1>`
pub record ProofTrustRoot : Type 0 where
  pub keys : List (Text × IssuerKeyPolicy)

-- The loop of `ProofTrustRootV1::new`: a key identifier may be given once.
unfoldable pub insert_keys :
    List IssuerKeyPolicy → List (Text × IssuerKeyPolicy) → Checked (List (Text × IssuerKeyPolicy))
insert_keys [] keys = ok keys
insert_keys (policy ∷ policies) keys =
    deny (is_some (lookup policy.key_id.text keys)) invalid_contract
    >> insert_keys policies (update policy.key_id.text policy (λ _. policy) keys)

unfoldable pub new_root : List IssuerKeyPolicy → Checked ProofTrustRoot
unfolding insert_keys
new_root policies = do
  keys ← insert_keys policies []
  deny (is_empty keys) invalid_contract
  ok (record { keys = keys })

pub record ExpectedProofBinding : Type 0 where
  pub proof_kind : ProofKind
  pub issuer_ref : Reference
  pub subject_ref : Reference
  pub subject_digest : Text
  pub tenant_ref : Reference
  pub scope_ref : Reference
  pub purpose_ref : Reference
  pub policy_revision_ref : Reference

unfoldable pub validate_binding : ExpectedProofBinding → Checked (Unit {0})
validate_binding b =
    deny
      (not (valid_digest b.subject_digest)
        || any is_blank_ref (
            b.issuer_ref ∷ b.subject_ref ∷ b.tenant_ref ∷ b.scope_ref ∷ b.purpose_ref
            ∷ b.policy_revision_ref ∷ []))
      invalid_contract

-- `ExpectedProofBindingV1::new`
unfoldable pub new_binding : ExpectedProofBinding → Checked ExpectedProofBinding
unfolding validate_binding
new_binding value = validate_binding value >> ok value

pub record VerifiedProof : Type 0 where
  pub envelope : SignedProofEnvelope
  pub verified_at : ℕ

-- The disjuncts of `verify_at` on what the caller expects.
unfoldable pub is_unexpected : ProofClaims → ExpectedProofBinding → Bool
is_unexpected c b =
    c.proof_kind != b.proof_kind
    || c.issuer_ref != b.issuer_ref
    || c.subject_ref != b.subject_ref
    || c.subject_digest != b.subject_digest
    || c.tenant_ref != b.tenant_ref
    || c.scope_ref != b.scope_ref
    || c.purpose_ref != b.purpose_ref
    || c.policy_revision_ref != b.policy_revision_ref

-- The disjuncts of `verify_at` on the issuer's key and the time.
unfoldable pub is_outside_policy : ProofClaims → IssuerKeyPolicy → ℕ → Bool
is_outside_policy c policy valid_at =
    c.issuer_ref != policy.issuer_ref
    || c.tenant_ref != policy.tenant_ref
    || not (contains policy.allowed_proof_kinds c.proof_kind)
    || ltb valid_at c.issued_at
    || leb c.expires_at valid_at
    || ltb c.issued_at policy.valid_from
    || leb policy.valid_until valid_at
    || is_some_and policy.revoked_at (λ revoked_at. leb revoked_at valid_at)

-- `ProofTrustRootV1::verify_at`
unfoldable pub verify_at :
    Ed25519
    → ProofTrustRoot
    → SignedProofEnvelope
    → ExpectedProofBinding
    → ℕ
    → Checked VerifiedProof
verify_at ed root envelope expected valid_at = do
  validate_shape envelope
  validate_binding expected
  policy ← ok_or (lookup envelope.key_id.text root.keys) proof_verification_failed
  deny (is_unexpected envelope.claims expected || is_outside_policy envelope.claims policy valid_at)
      proof_verification_failed
  signature ← ok_or (decode_hex 64 (as_bytes envelope.signature)) proof_verification_failed
  message ← canonical_signing_bytes ed.hyphenated envelope.claims
  deny (not (ed.verifies policy.verifying_key message signature)) proof_verification_failed
  ok (record { envelope = envelope; verified_at = valid_at })

-- `verify_now`: the system clock is a parameter, and its failure an error.
unfoldable pub verify_now :
    Ed25519
    → Option ℕ
    → ProofTrustRoot
    → SignedProofEnvelope
    → ExpectedProofBinding
    → Checked VerifiedProof
unfolding verify_at
verify_now ed clock root envelope expected = do
  now ← ok_or clock proof_verification_failed
  verify_at ed root envelope expected now
