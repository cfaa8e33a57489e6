-- ===== src/Protocol/Authorization/Window.antt =====
-- When an exact authorization is good.
use idr.Base.{ℕ, ◌≤◌, ◌<◌, ◌≡◌, ◌↔◌, false, ok, arith}
use idr.Protocol.Id.{is_nil}
use idr.Protocol.Digest.{Codec, contract_digest}
use idr.Protocol.ContractRef
use idr.Protocol.Action
use idr.Protocol.Action.{ActionContract}
use idr.Protocol.Authorization.{ExactActionAuthorization, validate_for, unbound, outside_window}

-- An authorization is good for an action at a time if it was issued for exactly this action
-- record, its parameters, its actor, its scope and its authority context, and the time lies in its
-- window.
pub record IsGoodFor (codec : Codec) (z : ExactActionAuthorization) (a : ActionContract) (t : ℕ)
    : Type 0 where
  pub action_valid : Action.validate codec a ≡ ok tt
  pub identified : is_nil z.authorization_id ≡ false
  pub ref_valid : ContractRef.validate z.action_ref ≡ ok tt
  pub for_action : Action.record_ref codec a ≡ ok z.action_ref
  pub for_parameters : z.parameter_digest ≡ a.parameter_digest
  pub for_actor : z.actor_ref ≡ a.metadata.authority_context.actor_ref
  pub for_scope : z.scope_ref ≡ a.metadata.authority_context.scope_ref
  pub for_context :
      contract_digest codec "authority-context-v1" a.metadata.authority_context
      ≡ ok z.authority_context_digest
  pub started : (0 < z.issued_at) × (z.issued_at ≤ t)
  pub running : t < z.expires_at
  pub schema : z.schema_version ≡ 1

validate_for-IsGoodFor :
    (codec : Codec) (z : ExactActionAuthorization) (a : ActionContract) (t : ℕ)
    → validate_for codec z a t ≡ ok tt
    → IsGoodFor codec z a t
unfolding validate_for unbound outside_window
validate_for-IsGoodFor codec z a t h = ground arith

validate_for_of_IsGoodFor :
    (codec : Codec) (z : ExactActionAuthorization) (a : ActionContract) (t : ℕ)
    → IsGoodFor codec z a t
    → validate_for codec z a t ≡ ok tt
unfolding validate_for unbound outside_window
validate_for_of_IsGoodFor codec z a t g = ground arith

-- `validate_for` accepts an authorization for an action at a time exactly when it is good.
pub validate_for-ok_iff :
    (codec : Codec) (z : ExactActionAuthorization) (a : ActionContract) (t : ℕ)
    → (validate_for codec z a t ≡ ok tt) ↔ IsGoodFor codec z a t
validate_for-ok_iff codec z a t =
    (validate_for-IsGoodFor codec z a t, validate_for_of_IsGoodFor codec z a t)

-- What is good at one time stays good until it expires.
pub IsGoodFor-later :
    (codec : Codec) (z : ExactActionAuthorization) (a : ActionContract) (s t : ℕ)
    → IsGoodFor codec z a s
    → s ≤ t
    → t < z.expires_at
    → IsGoodFor codec z a t
IsGoodFor-later codec z a s t g p r = record {
  action_valid = g.action_valid;
  identified = g.identified;
  ref_valid = g.ref_valid;
  for_action = g.for_action;
  for_parameters = g.for_parameters;
  for_actor = g.for_actor;
  for_scope = g.for_scope;
  for_context = g.for_context;
  started = (omega (arith, g.started), omega (arith, g.started));
  running = r;
  schema = g.schema;
}

-- An authorization that is good at two times is good at every time between them, and the later of
-- the two is before its expiry.
pub validate_for-window :
    (codec : Codec) (z : ExactActionAuthorization) (a : ActionContract) (s t u : ℕ)
    → validate_for codec z a s ≡ ok tt
    → validate_for codec z a u ≡ ok tt
    → s ≤ t
    → t ≤ u
    → (validate_for codec z a t ≡ ok tt) × (u < z.expires_at)
validate_for-window codec z a s t u h k p q =
    let g : IsGoodFor codec z a s = (validate_for-ok_iff codec z a s).0 h in
    let k' : IsGoodFor codec z a u = (validate_for-ok_iff codec z a u).0 k in
    (
      (validate_for-ok_iff codec z a t).1
          (IsGoodFor-later codec z a s t g p (omega (arith, k'.running))),
      k'.running,
    )
