-- ===== src/Examples/Intents.antt =====
-- The theorems on intents and on the human model at concrete inputs.
use idr.Base.{
  ℕ, ◌≡◌, ◌≢◌, ◌≤◌, ◌<◌, ◌↔◌, ◌⊎◌, refl, ok, [], ◌∷◌, some, none, arith, List, Elem, Distinct,
  length, true, false, Text,
}
use idr.Base
use idr.Protocol.Id.{human_model_assertion, intent, low}
use idr.Protocol.ContractRef.{ContractRef}
use idr.Protocol.Intent
use idr.Protocol.Intent.{
  Hypothesis, RankedHypothesis, IntentEffect, IntentContract, added_personalized_hypothesis,
  full_path, hypothesis_texts, deterministic_fast_path,
}
use idr.Protocol.Intent.Ranking.{ranks}
use idr.Protocol.Intent.Personal.{validate-personalized, validate-ranked}
use idr.Protocol.HumanModel
use idr.Protocol.HumanModel.{
  Assertion, UpdateFacts, evaluate_human_model_update_gate, effective_value, active, long_term,
  CorrectionState,
}
use idr.Protocol.HumanModel.Gated.{issue-gated, Admissible}
use idr.Examples.Samples.{zeros, id, name, ref, metadata, blank_codec}

abbrev pub ranked : ℕ → ℕ → RankedHypothesis
ranked c rank = record {
  hypothesis = record {
    hypothesis_ref = name c;
    intent_name = b'i' ∷ [];
    confidence = record { value = 6000 };
    supporting_evidence_refs = [];
    contradicting_evidence_refs = [];
  };
  rank = rank;
}

-- An intent whose one base hypothesis comes second, behind one that an assertion on the person
-- adds.
abbrev personal : IntentContract
personal = record {
  metadata = metadata intent 13 (ref human_model_assertion 14 ∷ []);
  user_stated_intent_ref = name b'u';
  base_hypotheses = ranked b'h' 1 ∷ [];
  personalized_hypotheses = ranked b'g' 1 ∷ ranked b'h' 2 ∷ [];
  primary_hypothesis_ref = name b'g';
  confidence = record { value = 6000 };
  ambiguity = false;
  clarification_required = false;
  human_model_effects =
      record {
        assertion_ref = ref human_model_assertion 14;
        effect_kind = added_personalized_hypothesis;
        affected_hypothesis_ref = name b'g';
        base_rank = none;
        personalized_rank = 1;
        explanation_ref = name b'e';
      }
      ∷ [];
  resolution_method = full_path;
  record_digest = zeros;
}

personal_valid : Intent.validate blank_codec personal ≡ ok tt
unfolding Intent.validate idr.Protocol.Metadata.validate idr.Protocol.Metadata.malformed
    Base.ℕ_discrete Base.is_blank idr.Protocol.Reference.validate Base.try_each Base.Text-discrete
    Base.len Base.has_control idr.Protocol.Metadata.check_lineage
    idr.Protocol.Metadata.check_dependency idr.Protocol.ContractRef.validate
    idr.Protocol.Digest.valid_digest idr.Protocol.Id.Identifier-discrete
    idr.Protocol.Id.ContractKind-discrete Intent.validate_ranked_hypotheses idr.Base.BTree.add
    idr.Base.BTree.lookup idr.Base.BTree.update Base.all Base.any Base.contains Base.dedup Base.sort
    Base.sort_dedup Base.trim idr.Protocol.Collections.validate_required_text
    idr.Protocol.ContractRef.ContractRef-discrete idr.Protocol.Digest.check_digest
    idr.Protocol.Digest.contract_digest Intent.ListText-discrete Intent.ResolutionMethod-discrete
    Intent.collect_ranks Intent.miscomposed Intent.ranks_from Intent.validate_hypothesis
    idr.Protocol.Metadata.continues idr.Protocol.Reference.Reference-discrete
    idr.Protocol.Reference.new idr.Protocol.Reference.refused
personal_valid = refl

validate-personalized_example :
    ((t : Text)
      → Elem t (hypothesis_texts personal.base_hypotheses)
      → Elem t (hypothesis_texts personal.personalized_hypotheses))
    × Elem (b'g' ∷ []) (hypothesis_texts personal.personalized_hypotheses)
    × (personal.resolution_method ≡ deterministic_fast_path
        → (personal.human_model_effects ≡ [])
          × ((t : Text)
              → Elem t (hypothesis_texts personal.base_hypotheses)
                ↔ Elem t (hypothesis_texts personal.personalized_hypotheses)))
    × ((e : IntentEffect)
        → Elem e personal.human_model_effects
        → Elem e.assertion_ref personal.metadata.dependency_refs)
validate-personalized_example = validate-personalized blank_codec personal personal_valid

validate-ranked_example :
    (((k : ℕ) → Elem k (ranks personal.base_hypotheses) ↔ (1 ≤ k × k ≤ 1))
      × Distinct (hypothesis_texts personal.base_hypotheses))
    × (((k : ℕ)
          → Elem k (ranks personal.personalized_hypotheses)
            ↔ (1 ≤ k × k ≤ length personal.personalized_hypotheses))
        × Distinct (hypothesis_texts personal.personalized_hypotheses))
validate-ranked_example = validate-ranked blank_codec personal personal_valid

-- Two independent observations, from which a lasting and corrected value is drawn.
abbrev observed : UpdateFacts
observed = record {
  proposed_by_cognitive_service = true;
  explicit_user_confirmation = false;
  independent_supporting_observations = 2;
  outcome_support_present = false;
  contradiction_present = false;
  inference_policy_allows = true;
  sensitive_attribute_inference = false;
}

abbrev preference : Assertion
preference = record {
  metadata = metadata human_model_assertion 14 [];
  assertion_id = id 15;
  subject_ref = name b's';
  assertion_type = HumanModel.goal;
  predicate = b'p' ∷ [];
  value = HumanModel.boolean true;
  claim_summary = b'c' ∷ [];
  scope = record { domains = (b'd' ∷ []) ∷ []; task_types = []; global = false };
  persistence_scope = long_term;
  epistemic_status = HumanModel.provisional;
  lifecycle_status = active;
  confidence = record { value = 6000 };
  source_type = HumanModel.inferred_from_interaction;
  source_refs = name b'q' ∷ [];
  supporting_evidence_refs = [];
  contradicting_evidence_refs = [];
  correction_state = CorrectionState.corrected;
  corrected_value = some (HumanModel.boolean false);
  first_observed_at = 3;
  last_observed_at = 8;
  expires_at = some 60;
  decay_policy_ref = name b'y';
  usage_policy = record {
    allowed_uses = (b'a' ∷ []) ∷ [];
    forbidden_uses = [];
    maximum_impact_level = low;
  };
  record_digest = zeros;
}

preference_issued :
    HumanModel.issue blank_codec (evaluate_human_model_update_gate observed) preference
    ≡ ok preference
unfolding HumanModel.issue HumanModel.epistemic_status Base.ℕ_discrete
    evaluate_human_model_update_gate idr.Protocol.Collections.canonical_references Base.any
    Base.sort_dedup Base.is_blank HumanModel.seal idr.Protocol.Digest.contract_digest
    HumanModel.validate idr.Protocol.Metadata.validate idr.Protocol.Metadata.malformed
    idr.Protocol.Reference.validate Base.try_each Base.Text-discrete Base.len Base.all Base.contains
    Base.dedup Base.sort Base.has_control Base.trim idr.Protocol.Collections.unique_strings
    idr.Protocol.Collections.validate_required_text idr.Protocol.ContractRef.validate
    idr.Protocol.Digest.check_digest idr.Protocol.Digest.valid_digest
    HumanModel.CorrectionState-discrete HumanModel.EpistemicStatus-discrete
    HumanModel.PersistenceScope-discrete HumanModel.unsupported HumanModel.validate_scope
    HumanModel.validate_usage HumanModel.validate_value idr.Protocol.Id.ContractKind-discrete
    idr.Protocol.Id.Identifier-discrete idr.Protocol.Metadata.check_dependency
    idr.Protocol.Metadata.check_lineage idr.Protocol.Metadata.continues
    idr.Protocol.Reference.Reference-discrete idr.Protocol.Reference.new
    idr.Protocol.Reference.refused
preference_issued = refl

issue-gated_example :
    Admissible observed
    × (2 ≤ 2)
    × (long_term ≡ long_term → ((2 ≤ 2) ⊎ ((false ≡ true) ⊎ ((false ≡ true) × (1 ≤ 2)))))
issue-gated_example = issue-gated blank_codec observed preference preference preference_issued
