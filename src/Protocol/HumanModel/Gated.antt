-- ===== src/Protocol/HumanModel/Gated.antt =====
-- Which facts a long-term assertion rests on, and when its value has an effect.
use idr.Base.{
  ℕ, ◌≤◌, ◌<◌, ◌≡◌, ◌≢◌, ◌↔◌, ◌⊎◌, inl, inr, true, false, ok, none, some, arith, Option-cases, refl,
}
use idr.Protocol.Digest.{Codec}
use idr.Protocol.HumanModel.{
  Assertion, EpistemicStatus, UpdateFacts, GateDecision, ModelValue, active, candidate, provisional,
  user_confirmed, outcome_supported, long_term, evaluate_human_model_update_gate, CorrectionState,
  epistemic_status, unsupported, validate, seal, issue, effective_value,
}

-- The facts allow an inference at all.
abbrev pub Admissible : UpdateFacts → Type 0
Admissible f =
    (f.inference_policy_allows ≡ true)
    × (f.sensitive_attribute_inference ≡ false)
    × (f.contradiction_present ≡ false)

-- What the facts must show for each status.
abbrev pub Supports : UpdateFacts → EpistemicStatus → Type 0
Supports f candidate = f.proposed_by_cognitive_service ≡ true
Supports f provisional = 2 ≤ f.independent_supporting_observations
Supports f user_confirmed = f.explicit_user_confirmation ≡ true
Supports f outcome_supported =
    (f.outcome_support_present ≡ true) × (1 ≤ f.independent_supporting_observations)

gate-Supports :
    (f : UpdateFacts) (s : EpistemicStatus)
    → epistemic_status (evaluate_human_model_update_gate f) ≡ ok s
    → Admissible f × Supports f s
unfolding epistemic_status evaluate_human_model_update_gate
gate-Supports f candidate h = ground arith
gate-Supports f provisional h = ground arith
gate-Supports f user_confirmed h = ground arith
gate-Supports f outcome_supported h = ground arith

valid-lasting :
    (codec : Codec) (a : Assertion)
    → validate codec a ≡ ok tt
    → a.persistence_scope ≡ long_term
    → a.epistemic_status ≢ candidate
unfolding validate unsupported
valid-lasting codec a h l = ground arith

lasting-supported :
    (f : UpdateFacts) (s : EpistemicStatus)
    → Supports f s
    → s ≢ candidate
    → (2 ≤ f.independent_supporting_observations)
      ⊎ ((f.explicit_user_confirmation ≡ true)
          ⊎ ((f.outcome_support_present ≡ true) × (1 ≤ f.independent_supporting_observations)))
lasting-supported f candidate p ne = absurd (ne refl)
lasting-supported f provisional p ne = inl p
lasting-supported f user_confirmed p ne = inr (inl p)
lasting-supported f outcome_supported p ne = inr (inr p)

issue-status :
    (codec : Codec) (d : GateDecision) (draft a : Assertion)
    → issue codec d draft ≡ ok a
    → (validate codec a ≡ ok tt) × (epistemic_status d ≡ ok a.epistemic_status)
unfolding issue seal
issue-status codec d draft a h = ground arith

-- An assertion that `issue` returns for the gate's decision on some facts rests on those facts:
-- the policy allows an inference, no sensitive attribute is inferred and nothing contradicts it, and
-- the facts support its status. In long-term memory that status is never that of a candidate, so
-- that two observations, an outcome or the user stand behind it.
pub issue-gated :
    (codec : Codec) (f : UpdateFacts) (draft a : Assertion)
    → issue codec (evaluate_human_model_update_gate f) draft ≡ ok a
    → Admissible f
      × Supports f a.epistemic_status
      × (a.persistence_scope ≡ long_term
          → ((2 ≤ f.independent_supporting_observations)
              ⊎ ((f.explicit_user_confirmation ≡ true)
                  ⊎ ((f.outcome_support_present ≡ true)
                      × (1 ≤ f.independent_supporting_observations)))))
issue-gated codec f draft a h =
    let issued = issue-status codec (evaluate_human_model_update_gate f) draft a h in
    let supported = gate-Supports f a.epistemic_status issued.1 in
    (
      supported.0,
      supported.1,
      λ l. lasting-supported f a.epistemic_status supported.1 (valid-lasting codec a issued.0 l),
    )

-- A model value has an effect at a time exactly when the assertion is active and its correction
-- was not rejected, the time is at or after the first observation and before the expiry, and then
-- it is the corrected value, where there is one.
pub effective_value_iff :
    (a : Assertion) (now : ℕ) (v : ModelValue)
    → (effective_value a now ≡ some v) ↔ (
        (a.lifecycle_status ≡ active)
        × (a.correction_state ≢ CorrectionState.rejected)
        × (a.first_observed_at ≤ now)
        × ((a.expires_at ≡ none) ⊎ ((t : ℕ) × (a.expires_at ≡ some t) × (now < t)))
        × ((a.corrected_value ≡ some v) ⊎ ((a.corrected_value ≡ none) × (a.value ≡ v))))
unfolding effective_value
effective_value_iff a now v = elim (Option-cases a.expires_at) [
  | inl e ↦ rw e (ground arith)
  | inr (t, e) ↦ rw e (ground arith)
]
