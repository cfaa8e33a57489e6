-- ===== src/Protocol/Permit.antt =====
-- crates/idr-protocol/src/human_centered/execution.rs: requests for an execution permit.
pub mod Bound
pub mod Lease
use idr.Base.{
  ℕ, Bool, ◌||◌, ◌==◌, ◌!=◌, not, nat_eq, text_eq, ltb, leb, List, [], ◌∷◌, ◌++◌, ok, err, deny,
  ◌>>◌, ◌>>=◌, map_err, Text, len, is_blank,
}
use idr.Protocol.Error.{Checked, from_reference_error, proof_verification_failed}
use idr.Protocol.Reference
use idr.Protocol.Reference.{Reference, AuthorityContext, reference_eq}
use idr.Protocol.Id.{Uuid}
use idr.Protocol.Digest.{Codec, contract_digest, check_digest, valid_digest}
use idr.Protocol.ContractRef.{ContractRef, contract_ref_eq}
use idr.Protocol.Action
use idr.Protocol.Action.{ActionContract}
use idr.Protocol.Authorization
use idr.Protocol.Authorization.{
  ExactActionAuthorization, approve, authorization_decision_eq, authorization_digest,
}
use idr.Protocol.Proof.{ProofKind, proof_kind_eq, ProofClaims, execution_permit}
use idr.Protocol.TrustRoot.{ExpectedProofBinding, VerifiedProof, new_binding}

pub record PermitRequest : Type 0 where
  pub request_ref : Reference
  pub action_ref : ContractRef
  pub authorization_id : Uuid
  pub authorization_digest : Text
  pub provider_ref : Reference
  pub owner_ref : Reference
  pub attempt : ℕ
  pub lease_issued_at : ℕ
  pub lease_until : ℕ
  pub dispatch_nonce : Text
  pub idempotency_key : Text
  pub tenant_ref : Reference
  pub scope_ref : Reference
  pub purpose_ref : Reference
  pub policy_revision_ref : Reference
  pub request_digest : Text

abbrev pub DigestInput : Type 0
DigestInput =
    (Reference × ContractRef × Uuid × Text × Reference × Reference × ℕ)
    × (ℕ × ℕ × Text × Text × Reference × Reference × Reference × Reference)

abbrev pub digest_input : PermitRequest → DigestInput
digest_input q = (
  (
    q.request_ref, q.action_ref, q.authorization_id, q.authorization_digest, q.provider_ref,
    q.owner_ref, q.attempt,
  ),
  (
    q.lease_issued_at, q.lease_until, q.dispatch_nonce, q.idempotency_key, q.tenant_ref,
    q.scope_ref, q.purpose_ref, q.policy_revision_ref,
  ),
)

-- The disjuncts on the provider, the attempt, the lease and the nonce, which `new` and
-- `validate_for` share.
unfoldable pub badly_leased :
    ActionContract → ExactActionAuthorization → Reference → Reference → ℕ → ℕ → ℕ → Text → Bool
badly_leased a z provider_ref owner_ref attempt lease_issued_at lease_until dispatch_nonce =
    z.decision != approve
    || is_blank provider_ref.text
    || is_blank owner_ref.text
    || attempt == 0
    || leb lease_until lease_issued_at
    || ltb z.expires_at lease_until
    || ltb a.metadata.valid_until lease_until
    || len dispatch_nonce != 64
    || not (valid_digest dispatch_nonce)

-- The disjuncts of `validate_for` on what the request copies from the action.
unfoldable pub miscopied : PermitRequest → ActionContract → Bool
miscopied q a =
    q.idempotency_key != a.idempotency_key
    || q.tenant_ref != a.metadata.authority_context.tenant_ref
    || q.scope_ref != a.metadata.authority_context.scope_ref
    || q.purpose_ref != a.metadata.authority_context.purpose_ref
    || q.policy_revision_ref != a.metadata.policy_revision_ref

-- `ExecutionPermitRequestV1::validate_for`; a `||` with a `?` in it returns its left side first.
unfoldable pub validate_for :
    Codec → PermitRequest → ActionContract → ExactActionAuthorization → Checked (Unit {0})
validate_for codec q a z = do
  Action.validate codec a
  Authorization.validate_for codec z a q.lease_issued_at
  deny (is_blank q.request_ref.text) proof_verification_failed
  action_ref ← Action.record_ref codec a
  deny (q.action_ref != action_ref || q.authorization_id != z.authorization_id)
      proof_verification_failed
  z_digest ← authorization_digest codec z
  deny
      (q.authorization_digest != z_digest
        || badly_leased a z q.provider_ref q.owner_ref q.attempt q.lease_issued_at q.lease_until
            q.dispatch_nonce
        || miscopied q a)
      proof_verification_failed
  check_digest codec "execution-permit-request-v1" (digest_input q) q.request_digest
      proof_verification_failed

-- "execution-permit-request:"
abbrev pub request_prefix : Text
request_prefix =
    b'e' ∷ b'x' ∷ b'e' ∷ b'c' ∷ b'u' ∷ b't' ∷ b'i' ∷ b'o' ∷ b'n' ∷ b'-' ∷ b'p' ∷ b'e' ∷ b'r' ∷ b'm'
    ∷ b'i' ∷ b't' ∷ b'-' ∷ b'r' ∷ b'e' ∷ b'q' ∷ b'u' ∷ b'e' ∷ b's' ∷ b't' ∷ b':' ∷ []

-- The arguments of `new` behind the action and the authorization.
pub record PermitDraft : Type 0 where
  pub provider_ref : Reference
  pub owner_ref : Reference
  pub attempt : ℕ
  pub lease_issued_at : ℕ
  pub lease_until : ℕ
  pub dispatch_nonce : Text

-- The struct literal of `new`, before its digest is set.
abbrev pub unsealed :
    ActionContract
    → ExactActionAuthorization
    → PermitDraft
    → Reference
    → ContractRef
    → Text
    → PermitRequest
unsealed a z d request_ref action_ref z_digest = record {
  request_ref = request_ref;
  action_ref = action_ref;
  authorization_id = z.authorization_id;
  authorization_digest = z_digest;
  provider_ref = d.provider_ref;
  owner_ref = d.owner_ref;
  attempt = d.attempt;
  lease_issued_at = d.lease_issued_at;
  lease_until = d.lease_until;
  dispatch_nonce = d.dispatch_nonce;
  idempotency_key = a.idempotency_key;
  tenant_ref = a.metadata.authority_context.tenant_ref;
  scope_ref = a.metadata.authority_context.scope_ref;
  purpose_ref = a.metadata.authority_context.purpose_ref;
  policy_revision_ref = a.metadata.policy_revision_ref;
  request_digest = [];
}

-- Setting the digest and validating, the end of `new`.
unfoldable pub seal :
    Codec → ActionContract → ExactActionAuthorization → PermitRequest → Checked PermitRequest
seal codec a z value = do
  digest ← contract_digest codec "execution-permit-request-v1" (digest_input value)
  validate_for codec (record value { request_digest = digest }) a z
  ok (record value { request_digest = digest })

-- `ExecutionPermitRequestV1::new`; `printed` is the hyphenated text of the UUID that it mints.
unfoldable pub new :
    Codec → Text → ActionContract → ExactActionAuthorization → PermitDraft → Checked PermitRequest
new codec printed a z d = do
  Action.validate codec a
  action_ref ← Action.record_ref codec a
  Authorization.validate_for codec z a d.lease_issued_at
  deny
      (badly_leased a z d.provider_ref d.owner_ref d.attempt d.lease_issued_at d.lease_until
        d.dispatch_nonce)
      proof_verification_failed
  request_ref ← map_err from_reference_error (Reference.new (request_prefix ++ printed))
  z_digest ← authorization_digest codec z
  seal codec a z (unsealed a z d request_ref action_ref z_digest)

-- `ExecutionPermitRequestV1::expected_proof_binding`
unfoldable pub expected_proof_binding : PermitRequest → Reference → Checked ExpectedProofBinding
expected_proof_binding q issuer_ref = new_binding (record {
  proof_kind = execution_permit;
  issuer_ref = issuer_ref;
  subject_ref = q.request_ref;
  subject_digest = q.request_digest;
  tenant_ref = q.tenant_ref;
  scope_ref = q.scope_ref;
  purpose_ref = q.purpose_ref;
  policy_revision_ref = q.policy_revision_ref;
})

pub record VerifiedPermitRequest : Type 0 where
  pub request : PermitRequest
  pub authorization : ExactActionAuthorization
  pub verified_proof : VerifiedProof

-- The test of `verify_execution_permit_request` on the proof's claims and its time.
unfoldable pub unproved : ProofClaims → ℕ → PermitRequest → Bool
unproved c verified_at q =
    c.proof_kind != execution_permit
    || c.subject_ref != q.request_ref
    || c.subject_digest != q.request_digest
    || c.tenant_ref != q.tenant_ref
    || c.scope_ref != q.scope_ref
    || c.purpose_ref != q.purpose_ref
    || c.policy_revision_ref != q.policy_revision_ref
    || c.issued_at != q.lease_issued_at
    || ltb c.expires_at q.lease_until
    || c.nonce != q.dispatch_nonce
    || ltb verified_at q.lease_issued_at
    || leb q.lease_until verified_at

unfoldable pub verify_execution_permit_request :
    Codec
    → VerifiedProof
    → PermitRequest
    → ActionContract
    → ExactActionAuthorization
    → Checked VerifiedPermitRequest
verify_execution_permit_request codec proof q a z = do
  validate_for codec q a z
  deny (unproved proof.envelope.claims proof.verified_at q) proof_verification_failed
  ok (record { request = q; authorization = z; verified_proof = proof })

-- The test of `validate_at` on the trusted current time.
unfoldable pub untimely : VerifiedPermitRequest → ActionContract → ℕ → Bool
untimely v a trusted_now =
    ltb trusted_now v.request.lease_issued_at
    || leb v.request.lease_until trusted_now
    || ltb trusted_now v.verified_proof.envelope.claims.issued_at
    || leb v.verified_proof.envelope.claims.expires_at trusted_now
    || leb a.metadata.valid_until trusted_now
    || ltb trusted_now v.verified_proof.verified_at

-- `VerifiedExecutionPermitRequestV1::validate_at`
unfoldable pub validate_at : Codec → VerifiedPermitRequest → ActionContract → ℕ → Checked (Unit {0})
validate_at codec v a trusted_now = do
  validate_for codec v.request a v.authorization
  Authorization.validate_for codec v.authorization a trusted_now
  deny (untimely v a trusted_now) proof_verification_failed
