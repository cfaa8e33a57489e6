-- ===== src/Protocol/Authorization.antt =====
-- crates/idr-protocol/src/human_centered/action.rs: `ExactActionAuthorizationV1` and
-- `evaluate_action_admission`.
pub mod Window
pub mod Admission
use idr.Base.{
  ℕ, Bool, true, false, ◌||◌, ◌&&◌, not, ◌==◌, ◌!=◌, leb, ltb, nat_eq, text_eq, List, [], ◌∷◌, map,
  is_empty, Option, none, some, String, ok, err, deny, ◌>>◌, ◌>>=◌, is_err, Text, if◌then◌else◌,
  filter, Eq,
}
use idr.Protocol.Error.{Checked, invalid_contract}
use idr.Protocol.Reference.{Reference, AuthorityContext, reference_eq}
use idr.Protocol.Id.{Uuid, is_nil}
use idr.Protocol.Digest.{Codec, contract_digest}
use idr.Protocol.ContractRef
use idr.Protocol.ContractRef.{ContractRef, contract_ref_eq}
use idr.Protocol.Metadata.{schema_version_v1}
use idr.Protocol.Guards.{rule_version_v1}
use idr.Protocol.Action
use idr.Protocol.Action.{
  ActionContract, AuthorizationState, not_required, pending, authorized, denied, expired, revoked,
}

pub data AuthorizationDecision : Type 0 where
  approve deny_action : AuthorizationDecision

unfoldable pub AuthorizationDecision-discrete : Discrete AuthorizationDecision
AuthorizationDecision-discrete = hlevel

instance abbrev pub authorization_decision_eq : Eq AuthorizationDecision
authorization_decision_eq = record { dec = AuthorizationDecision-discrete }

pub record ExactActionAuthorization : Type 0 where
  pub authorization_id : Uuid
  pub action_ref : ContractRef
  pub parameter_digest : Text
  pub actor_ref : Reference
  pub decision : AuthorizationDecision
  pub scope_ref : Reference
  pub authority_context_digest : Text
  pub issued_at : ℕ
  pub expires_at : ℕ
  pub schema_version : ℕ

-- The disjuncts behind the digest of the authority context: the window and the version.
unfoldable pub outside_window : ExactActionAuthorization → ℕ → Bool
outside_window z valid_at =
    z.issued_at == 0
    || leb z.expires_at z.issued_at
    || ltb valid_at z.issued_at
    || leb z.expires_at valid_at
    || z.schema_version != schema_version_v1

-- The disjuncts between the two `?` of the test: what is bound to the action.
unfoldable pub unbound : ExactActionAuthorization → ActionContract → ContractRef → Bool
unbound z a action_ref =
    z.action_ref != action_ref
    || z.parameter_digest != a.parameter_digest
    || z.actor_ref != a.metadata.authority_context.actor_ref
    || z.scope_ref != a.metadata.authority_context.scope_ref

-- `ExactActionAuthorizationV1::validate_for`; a `||` with a `?` in it returns its left side first.
unfoldable pub validate_for :
    Codec → ExactActionAuthorization → ActionContract → ℕ → Checked (Unit {0})
validate_for codec z a valid_at = do
  Action.validate codec a
  ContractRef.validate z.action_ref
  deny (is_nil z.authorization_id) invalid_contract
  action_ref ← Action.record_ref codec a
  deny (unbound z a action_ref) invalid_contract
  context_digest ← contract_digest codec "authority-context-v1" a.metadata.authority_context
  deny (context_digest != z.authority_context_digest || outside_window z valid_at) invalid_contract

-- `ExactActionAuthorizationV1::issue`; `minted` is what `Uuid::new_v4` returns.
unfoldable pub issue :
    Codec
    → Uuid
    → ActionContract
    → Reference
    → AuthorizationDecision
    → Reference
    → ℕ
    → ℕ
    → Checked ExactActionAuthorization
issue codec minted a actor_ref decision scope_ref issued_at expires_at = do
  Action.validate codec a
  context_digest ← contract_digest codec "authority-context-v1" a.metadata.authority_context
  action_ref ← Action.record_ref codec a
  let value : ExactActionAuthorization = record {
    authorization_id = minted;
    action_ref = action_ref;
    parameter_digest = a.parameter_digest;
    actor_ref = actor_ref;
    decision = decision;
    scope_ref = scope_ref;
    authority_context_digest = context_digest;
    issued_at = issued_at;
    expires_at = expires_at;
    schema_version = schema_version_v1;
  }
  validate_for codec value a issued_at
  ok value

unfoldable pub authorization_digest : Codec → ExactActionAuthorization → Checked Text
authorization_digest codec z = contract_digest codec "exact-action-authorization-v1" z

pub record AdmissionFacts : Type 0 where
  pub capability_registered : Bool
  pub capability_enabled : Bool
  pub actor_authority_valid : Bool
  pub agent_authority_valid : Bool
  pub parameters_valid : Bool
  pub preconditions_satisfied : Bool
  pub policy_allows : Bool
  pub verification_available : Bool
  pub compensation_available_if_required : Bool
  pub dependencies_current : Bool

pub data AdmissionOutcome : Type 0 where
  admit wait_authorization execution_pending already_executed reject : AdmissionOutcome

pub record AdmissionDecision : Type 0 where
  pub outcome : AdmissionOutcome
  pub reason_codes : List String
  pub rule_version : ℕ

abbrev pub rejected_action_admission : String → AdmissionDecision
rejected_action_admission reason = record {
  outcome = reject;
  reason_codes = reason ∷ [];
  rule_version = rule_version_v1;
}

abbrev pub checks : AdmissionFacts → List (String × Bool)
checks f =
    ("capability_unregistered", f.capability_registered)
    ∷ ("capability_disabled", f.capability_enabled)
    ∷ ("actor_authority_invalid", f.actor_authority_valid)
    ∷ ("agent_authority_invalid", f.agent_authority_valid)
    ∷ ("parameters_invalid", f.parameters_valid)
    ∷ ("preconditions_unsatisfied", f.preconditions_satisfied)
    ∷ ("policy_denied", f.policy_allows)
    ∷ ("verification_unavailable", f.verification_available)
    ∷ ("compensation_unavailable", f.compensation_available_if_required)
    ∷ ("dependency_stale", f.dependencies_current)
    ∷ []

unfoldable pub failed_checks : AdmissionFacts → List String
unfolding filter
failed_checks f = map (λ check. check.0) (filter (λ check. not check.1) (checks f))

-- The checks on the facts, where the authorization has passed.
unfoldable pub decide_facts : AdmissionFacts → AdmissionDecision
decide_facts f =
    let reasons = failed_checks f in
    record {
      outcome = if is_empty reasons then admit else reject;
      reason_codes = reasons;
      rule_version = rule_version_v1;
    }

-- The arm of an action that needs an authorization.
unfoldable pub decide_authorized :
    Codec
    → ActionContract
    → AdmissionFacts
    → Option ExactActionAuthorization
    → ℕ
    → AdmissionDecision
decide_authorized codec a f none valid_at = record {
  outcome = wait_authorization;
  reason_codes = "exact_action_authorization_required" ∷ [];
  rule_version = rule_version_v1;
}
decide_authorized codec a f (some z) valid_at =
    if is_err (validate_for codec z a valid_at) || z.decision != approve
    then rejected_action_admission "exact_action_authorization_invalid"
    else decide_facts f

unfoldable pub decide_state :
    AuthorizationState
    → Codec
    → ActionContract
    → AdmissionFacts
    → Option ExactActionAuthorization
    → ℕ
    → AdmissionDecision
unfolding decide_authorized
decide_state denied codec a f z t = rejected_action_admission "action_authorization_denied"
decide_state expired codec a f z t = rejected_action_admission "action_authorization_expired"
decide_state revoked codec a f z t = rejected_action_admission "action_authorization_revoked"
decide_state pending codec a f z t = decide_authorized codec a f z t
decide_state authorized codec a f z t = decide_authorized codec a f z t
decide_state not_required codec a f z t = decide_facts f

unfoldable pub evaluate_action_admission :
    Codec
    → ActionContract
    → AdmissionFacts
    → Option ExactActionAuthorization
    → ℕ
    → AdmissionDecision
unfolding decide_state
evaluate_action_admission codec a f z valid_at =
    if is_err (Action.validate codec a)
    then rejected_action_admission "action_contract_invalid"
    else if valid_at == 0 || leb a.metadata.valid_until valid_at
    then rejected_action_admission "action_contract_expired"
    else decide_state a.authorization_state codec a f z valid_at
