-- ===== src/Protocol/Permit/Bound.antt =====
-- What a valid permit request is bound to.
use idr.Base.{◌≤◌, ◌<◌, ◌≡◌, ◌↔◌, false, ok, arith, Text, is_blank, len, true}
use idr.Protocol.Error.{proof_verification_failed}
use idr.Protocol.Digest.{Codec, contract_digest, check_digest, check_digest-ok_iff, valid_digest}
use idr.Protocol.Action
use idr.Protocol.Action.{ActionContract}
use idr.Protocol.Authorization
use idr.Protocol.Authorization.{ExactActionAuthorization, approve, authorization_digest}
use idr.Protocol.Authorization.Window.{validate_for-ok_iff}
use idr.Protocol.Permit
use idr.Protocol.Permit.{
  PermitRequest, PermitDraft, digest_input, badly_leased, miscopied, unsealed, seal, new,
}

-- A request is bound to an action and an authorization if the authorization is good for the action
-- at the start of the lease and approves it, the lease ends within both, and every field that the
-- request repeats is theirs.
pub record IsBound (codec : Codec) (q : PermitRequest) (a : ActionContract)
    (z : ExactActionAuthorization) : Type 0 where
  pub authorized : Authorization.validate_for codec z a q.lease_issued_at ≡ ok tt
  pub approved : z.decision ≡ approve
  pub named : is_blank q.request_ref.text ≡ false
  pub for_action : Action.record_ref codec a ≡ ok q.action_ref
  pub for_authorization : q.authorization_id ≡ z.authorization_id
  pub for_contents : authorization_digest codec z ≡ ok q.authorization_digest
  pub provided : is_blank q.provider_ref.text ≡ false
  pub owned : is_blank q.owner_ref.text ≡ false
  pub attempted : 0 < q.attempt
  pub leased : q.lease_issued_at < q.lease_until
  pub within_authorization : q.lease_until ≤ z.expires_at
  pub within_action : q.lease_until ≤ a.metadata.valid_until
  pub nonce_size : len q.dispatch_nonce ≡ 64
  pub nonce_valid : valid_digest q.dispatch_nonce ≡ true
  pub same_key : q.idempotency_key ≡ a.idempotency_key
  pub same_tenant : q.tenant_ref ≡ a.metadata.authority_context.tenant_ref
  pub same_scope : q.scope_ref ≡ a.metadata.authority_context.scope_ref
  pub same_purpose : q.purpose_ref ≡ a.metadata.authority_context.purpose_ref
  pub same_policy : q.policy_revision_ref ≡ a.metadata.policy_revision_ref
  pub sealed :
      contract_digest codec "execution-permit-request-v1" (digest_input q) ≡ ok q.request_digest

module _ (codec : Codec) (q : PermitRequest) (a : ActionContract)
    (z : ExactActionAuthorization) where
  seal_iff :
      (check_digest codec "execution-permit-request-v1"
          (digest_input q)
          q.request_digest
          proof_verification_failed
        ≡ ok tt)
      ↔ (contract_digest codec "execution-permit-request-v1" (digest_input q) ≡ ok q.request_digest)
  seal_iff =
      check_digest-ok_iff codec "execution-permit-request-v1" (digest_input q) q.request_digest
        proof_verification_failed

  validate_for-IsBound : Permit.validate_for codec q a z ≡ ok tt → IsBound codec q a z
  unfolding Permit.validate_for badly_leased miscopied
  validate_for-IsBound h = ground (arith, seal_iff)

  validate_for_of_IsBound : IsBound codec q a z → Permit.validate_for codec q a z ≡ ok tt
  unfolding Permit.validate_for badly_leased miscopied
  validate_for_of_IsBound b = ground (
    arith,
    (validate_for-ok_iff codec z a q.lease_issued_at).0 b.authorized,
    (seal_iff).1 b.sealed,
  )

  -- A permit request is accepted for an action and an authorization exactly when the authorization
  -- is good for the action at the start of the lease and approves it, the lease is not empty and
  -- ends with neither of them expired, the request names the action, the authorization and its
  -- digest, its key, tenant, scope, purpose and policy are the action's, its provider, owner,
  -- attempt and nonce are well formed, and its digest is that of its contents.
  pub request_ok_iff : (Permit.validate_for codec q a z ≡ ok tt) ↔ IsBound codec q a z
  request_ok_iff = (validate_for-IsBound, validate_for_of_IsBound)

new-seal :
    (codec : Codec) (printed : Text) (a : ActionContract) (z : ExactActionAuthorization)
    (d : PermitDraft) (q : PermitRequest)
    → new codec printed a z d ≡ ok q
    → (Permit.validate_for codec q a z ≡ ok tt)
      × (q.provider_ref ≡ d.provider_ref)
      × (q.owner_ref ≡ d.owner_ref)
      × (q.attempt ≡ d.attempt)
      × (q.lease_issued_at ≡ d.lease_issued_at)
      × (q.lease_until ≡ d.lease_until)
      × (q.dispatch_nonce ≡ d.dispatch_nonce)
unfolding new seal
new-seal codec printed a z d q h = ground arith

-- A new permit request has the provider, owner, attempt, lease and nonce that it was given, and is
-- bound to its action and its authorization.
pub new_request-IsBound :
    (codec : Codec) (printed : Text) (a : ActionContract) (z : ExactActionAuthorization)
    (d : PermitDraft) (q : PermitRequest)
    → new codec printed a z d ≡ ok q
    → IsBound codec q a z
      × (q.provider_ref ≡ d.provider_ref)
      × (q.owner_ref ≡ d.owner_ref)
      × (q.attempt ≡ d.attempt)
      × (q.lease_issued_at ≡ d.lease_issued_at)
      × (q.lease_until ≡ d.lease_until)
      × (q.dispatch_nonce ≡ d.dispatch_nonce)
new_request-IsBound codec printed a z d q h =
    let parts = new-seal codec printed a z d q h in
    ((request_ok_iff codec q a z).0 parts.0, parts.1, parts.2, parts.3, parts.4, parts.5, parts.6)
