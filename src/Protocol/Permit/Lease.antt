-- ===== src/Protocol/Permit/Lease.antt =====
-- When a verified permit request may be used, and what then stands behind it.
use idr.Base.{ℕ, ◌≤◌, ◌<◌, ◌≡◌, ◌↔◌, false, true, ok, arith, text_ord, some, List, subst}
use idr.Base.BTree.{lookup}
use idr.Protocol.Digest.{Codec}
use idr.Protocol.Action
use idr.Protocol.Action.{ActionContract}
use idr.Protocol.Authorization.{ExactActionAuthorization, approve}
use idr.Protocol.Authorization.Window.{IsGoodFor, validate_for-ok_iff, IsGoodFor-later}
use idr.Protocol.Proof.{SignedProofEnvelope, ProofClaims, execution_permit, canonical_signing_bytes}
use idr.Protocol.TrustRoot.{
  Ed25519, IssuerKeyPolicy, ProofTrustRoot, ExpectedProofBinding, VerifiedProof, verify_at,
}
use idr.Protocol.TrustRoot.Verified.{MaySign, verify_at-ok}
use idr.Protocol.Permit
use idr.Protocol.Permit.{
  PermitRequest, VerifiedPermitRequest, unproved, untimely, verify_execution_permit_request,
  validate_at,
}
use idr.Protocol.Permit.Bound.{IsBound, request_ok_iff}

-- The claims of a proof say what a request asks for.
pub record Attests (c : ProofClaims) (q : PermitRequest) : Type 0 where
  pub for_permits : c.proof_kind ≡ execution_permit
  pub for_request : c.subject_ref ≡ q.request_ref
  pub for_contents : c.subject_digest ≡ q.request_digest
  pub for_tenant : c.tenant_ref ≡ q.tenant_ref
  pub for_scope : c.scope_ref ≡ q.scope_ref
  pub for_purpose : c.purpose_ref ≡ q.purpose_ref
  pub for_policy : c.policy_revision_ref ≡ q.policy_revision_ref
  pub from_start : c.issued_at ≡ q.lease_issued_at
  pub to_end : q.lease_until ≤ c.expires_at
  pub with_nonce : c.nonce ≡ q.dispatch_nonce

unproved-Attests :
    (c : ProofClaims) (t : ℕ) (q : PermitRequest)
    → unproved c t q ≡ false
    → Attests c q × (q.lease_issued_at ≤ t) × (t < q.lease_until)
unfolding unproved
unproved-Attests c t q h = ground arith

verified-parts :
    (codec : Codec) (proof : VerifiedProof) (q : PermitRequest) (a : ActionContract)
    (z : ExactActionAuthorization) (v : VerifiedPermitRequest)
    → verify_execution_permit_request codec proof q a z ≡ ok v
    → (v ≡ record { request = q; authorization = z; verified_proof = proof })
      × (Permit.validate_for codec q a z ≡ ok tt)
      × (unproved proof.envelope.claims proof.verified_at q ≡ false)
unfolding verify_execution_permit_request
verified-parts codec proof q a z v h = ground arith

-- The times at which a verified request may be used.
pub record InLease (v : VerifiedPermitRequest) (a : ActionContract) (t : ℕ) : Type 0 where
  pub started : v.request.lease_issued_at ≤ t
  pub running : t < v.request.lease_until
  pub proved : v.verified_proof.envelope.claims.issued_at ≤ t
  pub unexpired : t < v.verified_proof.envelope.claims.expires_at
  pub action_live : t < a.metadata.valid_until
  pub verified : v.verified_proof.verified_at ≤ t

untimely-InLease :
    (v : VerifiedPermitRequest) (a : ActionContract) (t : ℕ)
    → (untimely v a t ≡ false) ↔ InLease v a t
unfolding untimely
untimely-InLease v a t = ground arith

-- A verified permit request may be used at a time exactly when its request is bound to the action
-- and the authorization, the authorization is good for the action at that time, and the time lies in
-- the lease, in the proof's window, before the action's expiry and not before the verification.
pub validate_at-ok_iff :
    (codec : Codec) (v : VerifiedPermitRequest) (a : ActionContract) (t : ℕ)
    → (validate_at codec v a t ≡ ok tt) ↔ (
        IsBound codec v.request a v.authorization
        × IsGoodFor codec v.authorization a t
        × InLease v a t)
unfolding validate_at
validate_at-ok_iff codec v a t = (
  (λ h. (
    (request_ok_iff codec v.request a v.authorization).0 (ground arith),
    (validate_for-ok_iff codec v.authorization a t).0 (ground arith),
    (untimely-InLease v a t).0 (ground arith),
  )),
  λ w.
      let (b, g, l) = w in
      ground (
        arith,
        (request_ok_iff codec v.request a v.authorization).1 b,
        (validate_for-ok_iff codec v.authorization a t).1 g,
        (untimely-InLease v a t).1 l,
      ),
)

fresh-lease :
    (codec : Codec) (proof : VerifiedProof) (q : PermitRequest) (a : ActionContract)
    (z : ExactActionAuthorization) (t : ℕ)
    → IsBound codec q a z
    → Attests proof.envelope.claims q
    → q.lease_issued_at ≤ proof.verified_at
    → (validate_at codec (record { request = q; authorization = z; verified_proof = proof }) a t
        ≡ ok tt)
      ↔ ((proof.verified_at ≤ t) × (t < q.lease_until))
fresh-lease codec proof q a z t b c r =
    let v : VerifiedPermitRequest = record {
      request = q;
      authorization = z;
      verified_proof = proof;
    } in
    let start : IsGoodFor codec z a q.lease_issued_at =
      (validate_for-ok_iff codec z a q.lease_issued_at).0 b.authorized in
    (
      (λ h. let (_, _, l) = (validate_at-ok_iff codec v a t).0 h in (l.verified, l.running)),
      λ (p, l). (validate_at-ok_iff codec v a t).1 (
        b,
        IsGoodFor-later codec z a q.lease_issued_at t start (omega arith)
            (omega (arith, b.within_authorization)),
        record {
          started = omega arith;
          running = l;
          proved = omega (arith, c.from_start);
          unexpired = omega (arith, c.to_end);
          action_live = omega (arith, b.within_action);
          verified = p;
        },
      ),
    )

-- A permit request that was verified may be used exactly from the time of the verification
-- until its lease ends: nothing else expires before.
pub verified_request-lease :
    (codec : Codec) (proof : VerifiedProof) (q : PermitRequest) (a : ActionContract)
    (z : ExactActionAuthorization) (v : VerifiedPermitRequest) (t : ℕ)
    → verify_execution_permit_request codec proof q a z ≡ ok v
    → (validate_at codec v a t ≡ ok tt) ↔ ((proof.verified_at ≤ t) × (t < q.lease_until))
verified_request-lease codec proof q a z v t h =
    let (is_v, valid, attested) = verified-parts codec proof q a z v h in
    let (c, from, _) = unproved-Attests proof.envelope.claims proof.verified_at q attested in
    rw is_v (fresh-lease codec proof q a z t ((request_ok_iff codec q a z).0 valid) c from)

-- From the trust root to the executor: if an envelope was verified against the trust root, and with
-- it a permit request, which may be used at some time, then a key of the trust root, found by the
-- envelope's key identifier, has signed claims that name this very request, the request names this
-- very action record, an exact authorization approves it and is in its window at that time, and the
-- action is not expired then.
pub permit_chain :
    (codec : Codec) (ed : Ed25519) (root : ProofTrustRoot) (envelope : SignedProofEnvelope)
    (expected : ExpectedProofBinding) (s : ℕ) (proof : VerifiedProof) (q : PermitRequest)
    (a : ActionContract) (z : ExactActionAuthorization) (v : VerifiedPermitRequest) (t : ℕ)
    → verify_at ed root envelope expected s ≡ ok proof
    → verify_execution_permit_request codec proof q a z ≡ ok v
    → validate_at codec v a t ≡ ok tt
    → ((policy : IssuerKeyPolicy) × (lookup envelope.key_id.text root.keys ≡ some policy)
        × MaySign policy envelope.claims s
        × ((message : List ℕ) × (signature : List ℕ) × (canonical_signing_bytes ed.hyphenated
                envelope.claims
              ≡ ok message)
            × (ed.verifies policy.verifying_key message signature ≡ true)))
      × Attests envelope.claims q
      × (Action.record_ref codec a ≡ ok q.action_ref)
      × (z.decision ≡ approve)
      × IsGoodFor codec z a t
      × (s ≤ t)
      × (t < q.lease_until)
      × (t < a.metadata.valid_until)
permit_chain codec ed root envelope expected s proof q a z v t h k l =
    let (is_v, valid, attested) = verified-parts codec proof q a z v k in
    let (c, _, _) = unproved-Attests proof.envelope.claims proof.verified_at q attested in
    let (is_proof, _, (policy, found, may, (message, signature, signed, _, verifies))) =
      verify_at-ok ed root envelope expected s proof h in
    let (b, g, l) =
      (validate_at-ok_iff codec (record { request = q; authorization = z; verified_proof = proof })
          a t).0
        (subst (λ w. validate_at codec w a t ≡ ok tt) is_v l) in
    (
      (policy, found, may, (message, signature, signed, verifies)),
      subst (λ w. Attests w.envelope.claims q) is_proof c,
      b.for_action,
      b.approved,
      g,
      subst (λ w. w.verified_at ≤ t) is_proof l.verified,
      l.running,
      l.action_live,
    )
