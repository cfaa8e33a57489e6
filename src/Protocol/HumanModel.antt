-- ===== src/Protocol/HumanModel.antt =====
-- crates/idr-protocol/src/human_centered/human_model.rs: `HumanModelAssertionV1` and its gate.
pub mod Gated
use idr.Base.{
  is_some_and, ℕ, Bool, true, false, ◌||◌, ◌&&◌, ◌==◌, ◌!=◌, not, ◌differs◌, nat_eq, ltb, leb,
  if◌then◌else◌, List, [], ◌∷◌, ◌++◌, length, is_empty, any, contains, Option, none, some, is_some,
  ok, err, deny, ◌>>◌, ◌>>=◌, try_each, try_some, Text, text_eq, is_blank, Eq, String,
}
use idr.Protocol.Error.{
  Checked, contract_kind_mismatch, invalid_contract, invalid_reference, digest_mismatch,
}
use idr.Protocol.Reference.{Reference, reference_eq}
use idr.Protocol.Id.{
  Identifier, BasisPoints, ImpactLevel, kind_eq, rank, is_empty_id, human_model_assertion,
}
use idr.Protocol.Digest.{Codec, contract_digest, check_digest}
use idr.Protocol.ContractRef
use idr.Protocol.ContractRef.{ContractRef}
use idr.Protocol.Collections.{validate_required_text, canonical_references, unique_strings}
use idr.Protocol.Guards.{rule_version_v1}
use idr.Protocol.Metadata
use idr.Protocol.Metadata.{Metadata}

-- The integers, of which an `i64` is one; `negsuc n` is -(n + 1).
pub data ℤ : Type 0 where
  pos : ℕ → ℤ
  negsuc : ℕ → ℤ

pub data AssertionType : Type 0 where
  interaction_profile cognitive_interaction_profile personal_decision_model goal : AssertionType
  constraint decision_history outcome_history : AssertionType

pub data ModelValue : Type 0 where
  boolean : Bool → ModelValue
  integer : ℤ → ModelValue
  basis_points : BasisPoints → ModelValue
  text : Text → ModelValue
  enumerated : Text → ModelValue
  reference : Reference → ModelValue

-- `HumanModelValueV1::validate`
unfoldable pub validate_value : ModelValue → Checked (Unit {0})
validate_value (text value) = validate_required_text value
validate_value (enumerated value) = validate_required_text value
validate_value (reference value) = if is_blank value.text then err invalid_reference else ok tt
validate_value (boolean _) = ok tt
validate_value (integer _) = ok tt
validate_value (basis_points _) = ok tt

pub record ModelScope : Type 0 where
  pub domains : List Text
  pub task_types : List Text
  pub global : Bool

-- `HumanModelScopeV1::validate`
unfoldable pub validate_scope : ModelScope → Checked (Unit {0})
validate_scope s = do
  deny
      (ltb 64 (length s.domains)
        || ltb 64 (length s.task_types)
        || not (unique_strings s.domains)
        || not (unique_strings s.task_types)
        || s.global && (not (is_empty s.domains) || not (is_empty s.task_types))
        || not s.global && is_empty s.domains && is_empty s.task_types)
      invalid_contract
  try_each validate_required_text (s.domains ++ s.task_types)

pub data PersistenceScope : Type 0 where
  turn session long_term : PersistenceScope

pub data EpistemicStatus : Type 0 where
  candidate provisional user_confirmed outcome_supported : EpistemicStatus

pub data LifecycleStatus : Type 0 where
  active rejected expired superseded : LifecycleStatus

pub data SourceType : Type 0 where
  explicit_user_statement inferred_from_interaction decision_observation : SourceType
  outcome_observation user_correction imported_authorized_source : SourceType

pub data CorrectionState : Type 0 where
  not_reviewed confirmed corrected rejected : CorrectionState

unfoldable pub PersistenceScope-discrete : Discrete PersistenceScope
PersistenceScope-discrete = hlevel

instance abbrev pub persistence_scope_eq : Eq PersistenceScope
persistence_scope_eq = record { dec = PersistenceScope-discrete }

unfoldable pub EpistemicStatus-discrete : Discrete EpistemicStatus
EpistemicStatus-discrete = hlevel

instance abbrev pub epistemic_status_eq : Eq EpistemicStatus
epistemic_status_eq = record { dec = EpistemicStatus-discrete }

unfoldable pub LifecycleStatus-discrete : Discrete LifecycleStatus
LifecycleStatus-discrete = hlevel

instance abbrev pub lifecycle_status_eq : Eq LifecycleStatus
lifecycle_status_eq = record { dec = LifecycleStatus-discrete }

unfoldable pub CorrectionState-discrete : Discrete CorrectionState
CorrectionState-discrete = hlevel

instance abbrev pub correction_state_eq : Eq CorrectionState
correction_state_eq = record { dec = CorrectionState-discrete }

pub record UsagePolicy : Type 0 where
  pub allowed_uses : List Text
  pub forbidden_uses : List Text
  pub maximum_impact_level : ImpactLevel

-- `HumanModelUsagePolicyV1::validate`
unfoldable pub validate_usage : UsagePolicy → Checked (Unit {0})
validate_usage u = do
  deny
      (ltb 64 (length u.allowed_uses)
        || ltb 64 (length u.forbidden_uses)
        || is_empty u.allowed_uses
        || not (unique_strings u.allowed_uses)
        || not (unique_strings u.forbidden_uses)
        || leb (rank ImpactLevel.high) (rank u.maximum_impact_level)
        || any (contains u.forbidden_uses) u.allowed_uses)
      invalid_contract
  try_each validate_required_text (u.allowed_uses ++ u.forbidden_uses)

pub record Assertion : Type 0 where
  pub metadata : Metadata
  pub assertion_id : Identifier
  pub subject_ref : Reference
  pub assertion_type : AssertionType
  pub predicate : Text
  pub value : ModelValue
  pub claim_summary : Text
  pub scope : ModelScope
  pub persistence_scope : PersistenceScope
  pub epistemic_status : EpistemicStatus
  pub lifecycle_status : LifecycleStatus
  pub confidence : BasisPoints
  pub source_type : SourceType
  pub source_refs : List Reference
  pub supporting_evidence_refs : List Reference
  pub contradicting_evidence_refs : List Reference
  pub correction_state : CorrectionState
  pub corrected_value : Option ModelValue
  pub first_observed_at : ℕ
  pub last_observed_at : ℕ
  pub expires_at : Option ℕ
  pub decay_policy_ref : Reference
  pub usage_policy : UsagePolicy
  pub record_digest : Text

abbrev pub DigestInput : Type 0
DigestInput =
    (Metadata × Identifier × Reference × AssertionType × Text × ModelValue × Text × ModelScope
      × PersistenceScope × EpistemicStatus × LifecycleStatus)
    × (BasisPoints
        × SourceType
        × List Reference
        × List Reference
        × List Reference
        × CorrectionState
        × Option ModelValue
        × ℕ
        × ℕ
        × Option ℕ
        × Reference
        × UsagePolicy)

abbrev pub digest_input : Assertion → DigestInput
digest_input a = (
  (
    a.metadata, a.assertion_id, a.subject_ref, a.assertion_type, a.predicate, a.value,
    a.claim_summary, a.scope, a.persistence_scope, a.epistemic_status, a.lifecycle_status,
  ),
  (
    a.confidence, a.source_type, a.source_refs, a.supporting_evidence_refs,
    a.contradicting_evidence_refs, a.correction_state, a.corrected_value, a.first_observed_at,
    a.last_observed_at, a.expires_at, a.decay_policy_ref, a.usage_policy,
  ),
)

-- The large test of `validate`.
unfoldable pub unsupported : Assertion → Bool
unsupported a =
    is_empty_id a.assertion_id
    || a.subject_ref != a.metadata.authority_context.subject_ref
    || is_blank a.decay_policy_ref.text
    || is_empty a.source_refs
    || a.first_observed_at == 0
    || ltb a.last_observed_at a.first_observed_at
    || is_some_and a.expires_at (λ expires. leb expires a.last_observed_at)
    || any (contains a.contradicting_evidence_refs) a.supporting_evidence_refs
    || (a.correction_state == corrected) differs is_some a.corrected_value
    || a.persistence_scope == long_term && a.epistemic_status == candidate

-- `HumanModelAssertionV1::validate`
unfoldable pub validate : Codec → Assertion → Checked (Unit {0})
validate codec a = do
  Metadata.validate a.metadata
  deny (a.metadata.contract_kind != human_model_assertion) contract_kind_mismatch
  validate_value a.value
  validate_scope a.scope
  validate_usage a.usage_policy
  validate_required_text a.predicate
  validate_required_text a.claim_summary
  deny (unsupported a) invalid_contract
  try_some validate_value a.corrected_value
  check_digest codec "human-model-assertion-v1" (digest_input a) a.record_digest digest_mismatch

-- `HumanModelAssertionV1::record_ref`
unfoldable pub record_ref : Codec → Assertion → Checked ContractRef
record_ref codec a = do
  validate codec a
  ContractRef.new human_model_assertion a.metadata.contract_id a.metadata.revision a.record_digest

-- `HumanModelAssertionV1::effective_value`
unfoldable pub effective_value : Assertion → ℕ → Option ModelValue
effective_value a trusted_now =
    if a.lifecycle_status != active
      || a.correction_state == CorrectionState.rejected
      || ltb trusted_now a.first_observed_at
      || is_some_and a.expires_at (λ expires_at. leb expires_at trusted_now)
    then none
    else some (elim a.corrected_value [ none ↦ a.value | some value ↦ value ])

pub record UpdateFacts : Type 0 where
  pub proposed_by_cognitive_service : Bool
  pub explicit_user_confirmation : Bool
  pub independent_supporting_observations : ℕ
  pub outcome_support_present : Bool
  pub contradiction_present : Bool
  pub inference_policy_allows : Bool
  pub sensitive_attribute_inference : Bool

pub data GateOutcome : Type 0 where
  keep_session store_candidate promote_provisional promote_user_confirmed : GateOutcome
  promote_outcome_supported reject : GateOutcome

pub record GateDecision : Type 0 where
  pub outcome : GateOutcome
  pub reason_codes : List String
  pub rule_version : ℕ

abbrev pub status_of : GateOutcome → Checked EpistemicStatus
status_of store_candidate = ok candidate
status_of promote_provisional = ok provisional
status_of promote_user_confirmed = ok user_confirmed
status_of promote_outcome_supported = ok outcome_supported
status_of keep_session = err invalid_contract
status_of reject = err invalid_contract

-- `HumanModelUpdateGateDecisionV1::epistemic_status`
unfoldable pub epistemic_status : GateDecision → Checked EpistemicStatus
epistemic_status d = do
  deny (d.rule_version != rule_version_v1) invalid_contract
  status_of d.outcome

abbrev pub decide : GateOutcome → List String → GateDecision
decide outcome reasons = record {
  outcome = outcome;
  reason_codes = reasons;
  rule_version = rule_version_v1;
}

abbrev pub reject_reasons : UpdateFacts → List String
reject_reasons f =
    (if f.inference_policy_allows then [] else "inference_policy_denied" ∷ [])
    ++ (if f.sensitive_attribute_inference then "sensitive_attribute_inference" ∷ [] else [])
    ++ (if f.contradiction_present then "contradiction_requires_review" ∷ [] else [])

unfoldable pub evaluate_human_model_update_gate : UpdateFacts → GateDecision
evaluate_human_model_update_gate f =
    if not f.inference_policy_allows || f.sensitive_attribute_inference || f.contradiction_present
    then decide reject (reject_reasons f)
    else if f.explicit_user_confirmation
    then decide promote_user_confirmed ("explicit_user_confirmation" ∷ [])
    else if f.outcome_support_present && leb 1 f.independent_supporting_observations
    then decide promote_outcome_supported ("outcome_supported" ∷ [])
    else if leb 2 f.independent_supporting_observations
    then decide promote_provisional ("multiple_independent_observations" ∷ [])
    else if f.proposed_by_cognitive_service
    then decide store_candidate ("cognitive_candidate_only" ∷ [])
    else decide keep_session ("insufficient_long_term_evidence" ∷ [])

-- Setting the digest and validating, the end of `issue`.
unfoldable pub seal : Codec → Assertion → Checked Assertion
seal codec value = do
  digest ← contract_digest codec "human-model-assertion-v1" (digest_input value)
  validate codec (record value { record_digest = digest })
  ok (record value { record_digest = digest })

-- `HumanModelAssertionV1::issue`: its arguments are the gate's decision and the fields of `a`,
-- whose epistemic status and digest are not read, whose references are not yet canonical and whose
-- `assertion_id` is the minted one.
unfoldable pub issue : Codec → GateDecision → Assertion → Checked Assertion
issue codec d a = do
  status ← epistemic_status d
  sources ← canonical_references a.source_refs
  supporting ← canonical_references a.supporting_evidence_refs
  contradicting ← canonical_references a.contradicting_evidence_refs
  seal codec (record a {
    epistemic_status = status;
    source_refs = sources;
    supporting_evidence_refs = supporting;
    contradicting_evidence_refs = contradicting;
    record_digest = [];
  })
