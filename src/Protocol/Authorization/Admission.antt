-- ===== src/Protocol/Authorization/Admission.antt =====
-- Which actions are admitted.
use idr.Base.{
  ℕ, ◌≤◌, ◌<◌, ◌≡◌, ◌≢◌, ◌↔◌, ◌⊎◌, refl, true, ok, arith, Result-cases, inl, inr, Option, none,
  some, [],
}
use idr.Protocol.Id.{rank}
use idr.Protocol.Digest.{Codec}
use idr.Protocol.Action
use idr.Protocol.Action.{
  ActionContract, AuthorizationState, not_required, pending, authorized, check_impact,
}
use idr.Protocol.Authorization.{
  ExactActionAuthorization, AdmissionFacts, admit, approve, validate_for, failed_checks,
  decide_facts, decide_state, decide_authorized, evaluate_action_admission,
}
use idr.Protocol.Authorization.Window.{IsGoodFor, validate_for-ok_iff}

-- Every fact that the admission checks is favourable.
pub record AllPass (f : AdmissionFacts) : Type 0 where
  pub capability_registered : f.capability_registered ≡ true
  pub capability_enabled : f.capability_enabled ≡ true
  pub actor_authority_valid : f.actor_authority_valid ≡ true
  pub agent_authority_valid : f.agent_authority_valid ≡ true
  pub parameters_valid : f.parameters_valid ≡ true
  pub preconditions_satisfied : f.preconditions_satisfied ≡ true
  pub policy_allows : f.policy_allows ≡ true
  pub verification_available : f.verification_available ≡ true
  pub compensation_available_if_required : f.compensation_available_if_required ≡ true
  pub dependencies_current : f.dependencies_current ≡ true

failed_checks-nil : (f : AdmissionFacts) → failed_checks f ≡ [] → AllPass f
unfolding failed_checks
failed_checks-nil f h = ground arith

failed_checks_of_AllPass : (f : AdmissionFacts) → AllPass f → failed_checks f ≡ []
unfolding failed_checks
failed_checks_of_AllPass f p = ground arith

decide_facts-admit_iff : (f : AdmissionFacts) → ((decide_facts f).outcome ≡ admit) ↔ AllPass f
unfolding decide_facts
decide_facts-admit_iff f =
    ((λ h. failed_checks-nil f (ground arith)), λ p. ground (arith, failed_checks_of_AllPass f p))

-- The authorization that an action needs is there: none, or an exact one that approves it now.
abbrev pub Cleared : Codec → ActionContract → Option ExactActionAuthorization → ℕ → Type 0
Cleared codec a z t =
    (a.authorization_state ≡ not_required)
    ⊎ (((a.authorization_state ≡ pending) ⊎ (a.authorization_state ≡ authorized))
        × ((w : ExactActionAuthorization) × (z ≡ some w)
            × IsGoodFor codec w a t
            × (w.decision ≡ approve)))

decide_authorized-admit :
    (codec : Codec) (a : ActionContract) (f : AdmissionFacts) (z : Option ExactActionAuthorization)
    (t : ℕ)
    → (decide_authorized codec a f z t).outcome ≡ admit
    → ((w : ExactActionAuthorization) × (z ≡ some w)
        × IsGoodFor codec w a t
        × (w.decision ≡ approve))
      × AllPass f
unfolding decide_authorized
decide_authorized-admit codec a f none t h = absurd (ground arith)
decide_authorized-admit codec a f (some w) t h = elim (Result-cases (validate_for codec w a t)) [
  | inl (_, e) ↦ (
    (w, refl, (validate_for-ok_iff codec w a t).0 e, ground arith),
    (decide_facts-admit_iff f).0 (ground arith),
  )
  | inr (x, e) ↦ absurd (ground arith)
]

decide_authorized_admits :
    (codec : Codec) (a : ActionContract) (f : AdmissionFacts) (w : ExactActionAuthorization) (t : ℕ)
    → IsGoodFor codec w a t
    → w.decision ≡ approve
    → AllPass f
    → (decide_authorized codec a f (some w) t).outcome ≡ admit
unfolding decide_authorized
decide_authorized_admits codec a f w t g d p =
    ground (arith, (validate_for-ok_iff codec w a t).1 g, (decide_facts-admit_iff f).1 p)

module _ (codec : Codec) (f : AdmissionFacts) (t : ℕ) where
  decide_state-admit :
      (a : ActionContract) (z : Option ExactActionAuthorization) (s : AuthorizationState)
      → a.authorization_state ≡ s
      → (decide_state s codec a f z t).outcome ≡ admit
      → Cleared codec a z t × AllPass f
  unfolding decide_state
  decide_state-admit a z not_required e h = (inl e, (decide_facts-admit_iff f).0 h)
  decide_state-admit a z pending e h =
      let (w, p) = decide_authorized-admit codec a f z t h in (inr (inl e, w), p)
  decide_state-admit a z authorized e h =
      let (w, p) = decide_authorized-admit codec a f z t h in (inr (inr e, w), p)
  decide_state-admit a z AuthorizationState.denied e h = absurd (ground arith)
  decide_state-admit a z AuthorizationState.expired e h = absurd (ground arith)
  decide_state-admit a z AuthorizationState.revoked e h = absurd (ground arith)

  decide_state_admits :
      (a : ActionContract) (z : Option ExactActionAuthorization)
      → Cleared codec a z t
      → AllPass f
      → (decide_state a.authorization_state codec a f z t).outcome ≡ admit
  unfolding decide_state
  decide_state_admits a z (inl e) p = simp e ((decide_facts-admit_iff f).1 p)
  decide_state_admits a z (inr (inl e, (w, is_w, g, d))) p =
      simp (e, is_w) (decide_authorized_admits codec a f w t g d p)
  decide_state_admits a z (inr (inr e, (w, is_w, g, d))) p =
      simp (e, is_w) (decide_authorized_admits codec a f w t g d p)

  -- An action is admitted exactly when its contract is valid and not expired, the authorization
  -- that its state asks for is there (exact, approving and in its window), and all ten facts are
  -- favourable.
  pub evaluate_action_admission-admit_iff :
      (a : ActionContract) (z : Option ExactActionAuthorization)
      → ((evaluate_action_admission codec a f z t).outcome ≡ admit) ↔ (
          (Action.validate codec a ≡ ok tt)
          × (0 < t)
          × (t < a.metadata.valid_until)
          × Cleared codec a z t
          × AllPass f)
  unfolding evaluate_action_admission
  evaluate_action_admission-admit_iff a z = (to, from)
    where
      to :
          (evaluate_action_admission codec a f z t).outcome ≡ admit
          → (Action.validate codec a ≡ ok tt)
            × (0 < t)
            × (t < a.metadata.valid_until)
            × Cleared codec a z t
            × AllPass f
      to h =
          let (c, p) = decide_state-admit a z a.authorization_state refl (ground arith) in
          (ground arith, ground arith, ground arith, c, p)

      from :
          (Action.validate codec a ≡ ok tt)
            × (0 < t)
            × (t < a.metadata.valid_until)
            × Cleared codec a z t
            × AllPass f
          → (evaluate_action_admission codec a f z t).outcome ≡ admit
      from (v, pos, live, c, p) = ground (arith, decide_state_admits a z c p)

high_needs_authorization :
    (a : ActionContract)
    → check_impact a ≡ ok tt
    → 2 ≤ rank a.impact_level
    → a.authorization_state ≢ not_required
unfolding check_impact
high_needs_authorization a h r e = ground arith

validate-check_impact :
    (codec : Codec) (a : ActionContract) → Action.validate codec a ≡ ok tt → check_impact a ≡ ok tt
unfolding Action.validate
validate-check_impact codec a h = ground arith

-- An action of high or critical impact is admitted only under an exact authorization that
-- approves this very record, and is in its window.
pub evaluate_action_admission-high_impact :
    (codec : Codec) (a : ActionContract) (f : AdmissionFacts) (z : Option ExactActionAuthorization)
    (t : ℕ)
    → 2 ≤ rank a.impact_level
    → (evaluate_action_admission codec a f z t).outcome ≡ admit
    → (w : ExactActionAuthorization) × (z ≡ some w)
      × (w.decision ≡ approve)
      × (Action.record_ref codec a ≡ ok w.action_ref)
      × (w.issued_at ≤ t)
      × (t < w.expires_at)
evaluate_action_admission-high_impact codec a f z t r h =
    let (v, _, _, c, _) = (evaluate_action_admission-admit_iff codec f t a z).0 h in
    elim c [
      | inl free ↦ absurd (high_needs_authorization a (validate-check_impact codec a v) r free)
      | inr (_, (w, is_w, g, d)) ↦ (w, is_w, d, g.for_action, g.started.1, g.running)
    ]
