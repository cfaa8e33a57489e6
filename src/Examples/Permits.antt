-- ===== src/Examples/Permits.antt =====
-- The theorems on permits, receipts and outcomes at concrete inputs.
use idr.Base.{
  ℕ, ◌≡◌, ◌≤◌, ◌<◌, ◌↔◌, ◌++◌, refl, ok, [], ◌∷◌, some, none, arith, List, Text, text_ord, true,
  false,
}
use idr.Base
use idr.Base.BTree.{lookup}
use idr.Protocol.Reference
use idr.Protocol.Reference.{Reference}
use idr.Protocol.Id.{action, decision, execution_receipt, outcome}
use idr.Protocol.Digest.{contract_digest}
use idr.Protocol.Json.{object, end}
use idr.Protocol.Action
use idr.Protocol.Authorization.{approve}
use idr.Protocol.Authorization.Window.{IsGoodFor}
use idr.Protocol.Proof.{
  ProofClaims, SignedProofEnvelope, execution_permit, provider_execution_receipt,
  canonical_signing_bytes,
}
use idr.Protocol.TrustRoot.{IssuerKeyPolicy, ProofTrustRoot, VerifiedProof, verify_at}
use idr.Protocol.TrustRoot.Verified.{MaySign, binding_of}
use idr.Protocol.Permit
use idr.Protocol.Permit.{
  PermitRequest, PermitDraft, VerifiedPermitRequest, request_prefix, unsealed,
  verify_execution_permit_request,
}
use idr.Protocol.Permit.Bound.{IsBound, new_request-IsBound}
use idr.Protocol.Permit.Lease
use idr.Protocol.Permit.Lease.{InLease, validate_at-ok_iff, verified_request-lease, permit_chain}
use idr.Examples.Samples.{zeros, id, name, ref, blank_codec, transfer, approval, printed, trusting}

abbrev permit_draft : PermitDraft
permit_draft = record {
  provider_ref = name b'v';
  owner_ref = name b'w';
  attempt = 1;
  lease_issued_at = 10;
  lease_until = 40;
  dispatch_nonce = zeros;
}

abbrev request : PermitRequest
request =
    record (unsealed transfer approval permit_draft (record { text = request_prefix ++ b'u' ∷ [] })
      (ref action 7) zeros) { request_digest = zeros }

requested : Permit.new blank_codec (b'u' ∷ []) transfer approval permit_draft ≡ ok request
unfolding Permit.new Action.validate idr.Protocol.Metadata.validate idr.Protocol.Metadata.malformed
    Base.ℕ_discrete Base.is_blank Reference.validate Base.try_each Base.Text-discrete Base.len
    Base.has_control idr.Protocol.Metadata.check_lineage idr.Protocol.Metadata.check_dependency
    idr.Protocol.ContractRef.validate idr.Protocol.Digest.valid_digest
    idr.Protocol.Id.Identifier-discrete idr.Protocol.Id.ContractKind-discrete Base.all Base.any
    Base.contains Base.trim Action.AuthorizationState-discrete Action.check_decision_ref
    Action.check_impact Action.check_parameters Action.record_ref
    idr.Protocol.Authorization.AuthorizationDecision-discrete
    idr.Protocol.Authorization.authorization_digest idr.Protocol.Authorization.outside_window
    idr.Protocol.Authorization.unbound idr.Protocol.Authorization.validate_for
    idr.Protocol.Collections.validate_required_text
    idr.Protocol.Collections.validate_text_collection idr.Protocol.ContractRef.ContractRef-discrete
    idr.Protocol.ContractRef.new idr.Protocol.Digest.check_digest contract_digest
    idr.Protocol.Json.validate_json_payload idr.Protocol.Json.walk idr.Protocol.Metadata.continues
    Permit.badly_leased Permit.miscopied Permit.seal Permit.validate_for
    Reference.Reference-discrete Reference.new Reference.refused
requested = refl

abbrev permit_claims : ProofClaims
permit_claims = record {
  proof_id = id 8;
  proof_kind = execution_permit;
  issuer_ref = name b'i';
  subject_ref = request.request_ref;
  subject_digest = zeros;
  tenant_ref = name b't';
  scope_ref = name b'o';
  purpose_ref = name b'p';
  policy_revision_ref = name b'r';
  issued_at = 10;
  expires_at = 45;
  nonce = zeros;
  schema_version = 1;
}

abbrev permit_envelope : SignedProofEnvelope
permit_envelope = record {
  claims = permit_claims;
  key_id = name b'k';
  signature = Base.repeat 128 b'0';
}

abbrev permit_root : ProofTrustRoot
permit_root = record {
  keys =
      (
        b'k' ∷ [],
        record {
          issuer_ref = name b'i';
          key_id = name b'k';
          verifying_key = Base.repeat 32 0;
          allowed_proof_kinds = execution_permit ∷ [];
          tenant_ref = name b't';
          valid_from = 5;
          valid_until = 100;
          revoked_at = none;
        },
      )
      ∷ [];
}

abbrev permit_proof : VerifiedProof
permit_proof = record { envelope = permit_envelope; verified_at = 12 }

abbrev pub permit : VerifiedPermitRequest
permit = record { request = request; authorization = approval; verified_proof = permit_proof }

permit_trusted :
    verify_at trusting permit_root permit_envelope (binding_of permit_claims) 12 ≡ ok permit_proof
unfolding verify_at idr.Protocol.Proof.validate_shape idr.Protocol.Proof.validate Base.ℕ_discrete
    Base.any Base.is_blank idr.Protocol.Digest.valid_digest idr.Protocol.Hex.decode_hex
    idr.Base.Bytes.as_bytes idr.Protocol.TrustRoot.validate_binding lookup
    idr.Protocol.TrustRoot.is_unexpected idr.Protocol.Proof.ProofKind-discrete
    Reference.Reference-discrete Base.Text-discrete idr.Protocol.TrustRoot.is_outside_policy
    Base.contains idr.Base.Bytes.to_be_bytes idr.Base.Bytes.utf8 Base.all Base.len Base.trim
    idr.Protocol.Hex.decode_nibble idr.Protocol.Hex.decode_pairs idr.Protocol.Proof.append_text
    canonical_signing_bytes
permit_trusted = refl

permit_verified :
    verify_execution_permit_request blank_codec permit_proof request transfer approval ≡ ok permit
unfolding verify_execution_permit_request Permit.validate_for Action.validate
    idr.Protocol.Metadata.validate idr.Protocol.Metadata.malformed Base.ℕ_discrete Base.is_blank
    Reference.validate Base.try_each Base.Text-discrete Base.len Base.has_control
    idr.Protocol.Metadata.check_lineage idr.Protocol.Metadata.check_dependency
    idr.Protocol.ContractRef.validate idr.Protocol.Digest.valid_digest
    idr.Protocol.Id.Identifier-discrete Base.all Base.any Base.contains Base.trim
    Action.AuthorizationState-discrete Action.check_decision_ref Action.check_impact
    Action.check_parameters Action.record_ref
    idr.Protocol.Authorization.AuthorizationDecision-discrete
    idr.Protocol.Authorization.authorization_digest idr.Protocol.Authorization.outside_window
    idr.Protocol.Authorization.unbound idr.Protocol.Authorization.validate_for
    idr.Protocol.Collections.validate_required_text
    idr.Protocol.Collections.validate_text_collection idr.Protocol.ContractRef.ContractRef-discrete
    idr.Protocol.ContractRef.new idr.Protocol.Digest.check_digest contract_digest
    idr.Protocol.Id.ContractKind-discrete idr.Protocol.Json.validate_json_payload
    idr.Protocol.Json.walk idr.Protocol.Metadata.continues Permit.badly_leased Permit.miscopied
    Permit.unproved idr.Protocol.Proof.ProofKind-discrete Reference.Reference-discrete Reference.new
    Reference.refused
permit_verified = refl

permit_usable : Permit.validate_at blank_codec permit transfer 20 ≡ ok tt
unfolding Permit.validate_at Permit.validate_for Action.validate idr.Protocol.Metadata.validate
    idr.Protocol.Metadata.malformed Base.ℕ_discrete Base.is_blank Reference.validate Base.try_each
    Base.Text-discrete Base.len Base.has_control idr.Protocol.Metadata.check_lineage
    idr.Protocol.Metadata.check_dependency idr.Protocol.ContractRef.validate
    idr.Protocol.Digest.valid_digest idr.Protocol.Id.Identifier-discrete Base.all Base.any
    Base.contains Base.trim Action.AuthorizationState-discrete Action.check_decision_ref
    Action.check_impact Action.check_parameters Action.record_ref
    idr.Protocol.Authorization.AuthorizationDecision-discrete
    idr.Protocol.Authorization.authorization_digest idr.Protocol.Authorization.outside_window
    idr.Protocol.Authorization.unbound idr.Protocol.Authorization.validate_for
    idr.Protocol.Collections.validate_required_text
    idr.Protocol.Collections.validate_text_collection idr.Protocol.ContractRef.ContractRef-discrete
    idr.Protocol.ContractRef.new idr.Protocol.Digest.check_digest contract_digest
    idr.Protocol.Id.ContractKind-discrete idr.Protocol.Json.validate_json_payload
    idr.Protocol.Json.walk idr.Protocol.Metadata.continues Permit.badly_leased Permit.miscopied
    Permit.untimely Reference.Reference-discrete Reference.new Reference.refused
permit_usable = refl

new_request-IsBound_example :
    IsBound blank_codec request transfer approval
    × (request.provider_ref ≡ name b'v')
    × (request.owner_ref ≡ name b'w')
    × (request.attempt ≡ 1)
    × (request.lease_issued_at ≡ 10)
    × (request.lease_until ≡ 40)
    × (request.dispatch_nonce ≡ zeros)
new_request-IsBound_example =
    new_request-IsBound blank_codec (b'u' ∷ []) transfer approval permit_draft request requested

verified_request-lease_example :
    (Permit.validate_at blank_codec permit transfer 20 ≡ ok tt) ↔ ((12 ≤ 20) × (20 < 40))
verified_request-lease_example =
    verified_request-lease blank_codec permit_proof request transfer approval permit 20
      permit_verified

permit_chain_example :
    ((policy : IssuerKeyPolicy) × (lookup (b'k' ∷ []) permit_root.keys ≡ some policy)
      × MaySign policy permit_claims 12
      × ((message : List ℕ) × (signature : List ℕ) × (canonical_signing_bytes printed permit_claims
            ≡ ok message)
          × (true ≡ true)))
    × Lease.Attests permit_claims request
    × (Action.record_ref blank_codec transfer ≡ ok (ref action 7))
    × (approve ≡ approve)
    × IsGoodFor blank_codec approval transfer 20
    × (12 ≤ 20)
    × (20 < 40)
    × (20 < 100)
permit_chain_example =
    permit_chain blank_codec trusting permit_root permit_envelope (binding_of permit_claims) 12
      permit_proof request transfer approval permit 20 permit_trusted permit_verified permit_usable
