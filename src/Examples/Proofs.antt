-- ===== src/Examples/Proofs.antt =====
-- The theorems on signed proofs at concrete inputs.
use idr.Base.{
  ℕ, ◌≡◌, ◌≢◌, ◌≤◌, ◌<◌, ◌+◌, ◌*◌, ◌↔◌, refl, ok, err, [], ◌∷◌, some, none, arith, List, All,
  length, Text, text_ord, repeat, true,
}
use idr.Base
use idr.Base.BTree.{lookup}
use idr.Base.Bytes
use idr.Base.Bytes.{as_bytes}
use idr.Protocol.Reference
use idr.Protocol.Hex
use idr.Protocol.Hex.{decode_hex}
use idr.Protocol.Hex.RoundTrip.{encode_hex, decode_hex_iff}
use idr.Protocol.Proof
use idr.Protocol.Proof.{ProofClaims, capability, SignedProofEnvelope, canonical_signing_bytes}
use idr.Protocol.Proof.Signing.{built}
use idr.Protocol.Proof.Injective.{HasTexts, PrintsUuids, canonical_signing_bytes-injective}
use idr.Protocol.TrustRoot
use idr.Protocol.TrustRoot.{Ed25519, IssuerKeyPolicy, ProofTrustRoot, VerifiedProof, verify_at}
use idr.Protocol.TrustRoot.Verified.{MaySign, binding_of, verify_at-ok}
use idr.Examples.Samples.{printed, trusting, zeros, id, name, repeat-IsText}

printed-PrintsUuids : PrintsUuids printed
printed-PrintsUuids = record { length_36 = λ u. refl; injective = λ u v e. ground arith }

abbrev claims : ProofClaims
claims = record {
  proof_id = id 8;
  proof_kind = capability;
  issuer_ref = name b'i';
  subject_ref = name b's';
  subject_digest = zeros;
  tenant_ref = name b't';
  scope_ref = name b'o';
  purpose_ref = name b'p';
  policy_revision_ref = name b'r';
  issued_at = 10;
  expires_at = 90;
  nonce = zeros;
  schema_version = 1;
}

abbrev envelope : SignedProofEnvelope
envelope = record { claims = claims; key_id = name b'k'; signature = repeat 128 b'0' }

abbrev policy : IssuerKeyPolicy
policy = record {
  issuer_ref = name b'i';
  key_id = name b'k';
  verifying_key = repeat 32 0;
  allowed_proof_kinds = capability ∷ [];
  tenant_ref = name b't';
  valid_from = 5;
  valid_until = 100;
  revoked_at = some 80;
}

abbrev root : ProofTrustRoot
root = record { keys = (b'k' ∷ [], policy) ∷ [] }

abbrev verified : VerifiedProof
verified = record { envelope = envelope; verified_at = 20 }

verifies_at_20 : verify_at trusting root envelope (binding_of claims) 20 ≡ ok verified
unfolding verify_at Proof.validate_shape Proof.validate Base.ℕ_discrete Base.any Base.is_blank
    idr.Protocol.Digest.valid_digest decode_hex as_bytes TrustRoot.validate_binding lookup
    TrustRoot.is_unexpected Proof.ProofKind-discrete Reference.Reference-discrete Base.Text-discrete
    TrustRoot.is_outside_policy Base.contains Bytes.to_be_bytes Bytes.utf8 Base.all Base.len
    Base.trim Hex.decode_nibble Hex.decode_pairs Proof.append_text canonical_signing_bytes
verifies_at_20 = refl

claims_signed : canonical_signing_bytes printed claims ≡ ok (built printed claims)
unfolding canonical_signing_bytes Proof.validate Base.ℕ_discrete Base.any Base.is_blank
    idr.Protocol.Digest.valid_digest Proof.append_text
claims_signed = refl

claims_texts : HasTexts claims
claims_texts = record {
  issuer = repeat-IsText 1 b'i' (omega arith);
  subject = repeat-IsText 1 b's' (omega arith);
  digest = repeat-IsText 64 b'0' (omega arith);
  tenant = repeat-IsText 1 b't' (omega arith);
  scope = repeat-IsText 1 b'o' (omega arith);
  purpose = repeat-IsText 1 b'p' (omega arith);
  policy = repeat-IsText 1 b'r' (omega arith);
  nonce = repeat-IsText 64 b'0' (omega arith);
}

abbrev two_bytes : List ℕ
two_bytes = 240 ∷ 26 ∷ []

decoded : decode_hex 2 (b'f' ∷ b'0' ∷ b'1' ∷ b'a' ∷ []) ≡ some two_bytes
unfolding decode_hex Base.ℕ_discrete
decoded = refl

decode_hex_iff_example :
    (b'f' ∷ b'0' ∷ b'1' ∷ b'a' ∷ [] ≡ encode_hex two_bytes)
    × (length two_bytes ≡ 2)
    × All (λ b. b < 256) two_bytes
decode_hex_iff_example = (decode_hex_iff 2 (b'f' ∷ b'0' ∷ b'1' ∷ b'a' ∷ []) two_bytes).0 decoded

canonical_signing_bytes-injective_example : claims ≡ claims
canonical_signing_bytes-injective_example =
    canonical_signing_bytes-injective printed claims claims (built printed claims)
      printed-PrintsUuids claims_texts claims_texts claims_signed claims_signed

verify_at-ok_example :
    (verified ≡ record { envelope = envelope; verified_at = 20 })
    × (binding_of envelope.claims ≡ binding_of claims)
    × ((policy : IssuerKeyPolicy) × (lookup envelope.key_id.text root.keys ≡ some policy)
        × MaySign policy envelope.claims 20
        × ((message : List ℕ) × (signature : List ℕ) × (canonical_signing_bytes trusting.hyphenated
                envelope.claims
              ≡ ok message)
            × (decode_hex 64 (as_bytes envelope.signature) ≡ some signature)
            × (trusting.verifies policy.verifying_key message signature ≡ true)))
verify_at-ok_example =
    verify_at-ok trusting root envelope (binding_of claims) 20 verified verifies_at_20
