-- ===== src/Protocol/Guards.antt =====
-- crates/idr-protocol/src/human_centered/guards.rs: the deterministic policy of a turn.
-- A reason code is a constant text, so it is a native string here.
pub mod Policy
use idr.Base.{
  ℕ, Bool, true, false, ◌||◌, ◌&&◌, not, ◌==◌, ◌!=◌, leb, List, [], ◌∷◌, ◌++◌, String, ok, err,
  if◌then◌else◌,
}
use idr.Protocol.Error.{Checked, invalid_contract}
use idr.Protocol.Id.{ImpactLevel, low, high, rank, impact_eq}

abbrev pub rule_version_v1 : ℕ
rule_version_v1 = 1

-- `if test { reasons.push(reason) }` on what follows.
abbrev pub push_if : Bool → String → List String → List String
push_if test reason rest = if test then reason ∷ rest else rest

pub record FastPathFacts : Type 0 where
  pub deterministic_command_match : Bool
  pub required_parameters_complete : Bool
  pub ambiguity_present : Bool
  pub authority_context_valid : Bool
  pub policy_allows_request : Bool
  pub impact_level : ImpactLevel
  pub reversible : Bool
  pub depends_on_human_model : Bool

pub data FastPathOutcome : Type 0 where
  allow_fast_path unknown block : FastPathOutcome

pub record FastPathDecision : Type 0 where
  pub outcome : FastPathOutcome
  pub reason_codes : List String
  pub rule_version : ℕ

abbrev block_reasons : FastPathFacts → List String
block_reasons f =
    push_if (not f.authority_context_valid) "authority_context_invalid"
      (push_if (not f.policy_allows_request) "policy_denied" [])

abbrev unknown_reasons : FastPathFacts → List String
unknown_reasons f = push_if (not f.deterministic_command_match) "no_deterministic_command_match" (
    push_if (not f.required_parameters_complete) "parameters_incomplete" (
      push_if f.ambiguity_present "ambiguity_present" (
        push_if (f.impact_level != low) "impact_above_low" (
          push_if (not f.reversible) "operation_not_reversible"
            (push_if f.depends_on_human_model "human_model_dependency_present" [])))))

unfoldable pub evaluate_intent_fast_path : FastPathFacts → FastPathDecision
evaluate_intent_fast_path f =
    if not f.authority_context_valid || not f.policy_allows_request
    then record { outcome = block; reason_codes = block_reasons f; rule_version = rule_version_v1 }
    else if f.deterministic_command_match
        && f.required_parameters_complete
        && not f.ambiguity_present
        && f.impact_level == low
        && f.reversible
        && not f.depends_on_human_model
    then record {
      outcome = allow_fast_path;
      reason_codes = "all_fast_path_conditions_satisfied" ∷ [];
      rule_version = rule_version_v1;
    }
    else record {
      outcome = unknown;
      reason_codes = unknown_reasons f;
      rule_version = rule_version_v1;
    }

pub record NecessityFacts : Type 0 where
  pub multiple_viable_options : Bool
  pub material_tradeoffs : Bool
  pub evidence_conflict : Bool
  pub impact_level : ImpactLevel
  pub irreversible_result : Bool
  pub affects_long_term_goal : Bool
  pub host_user_interest_conflict : Bool
  pub simple_lookup : Bool
  pub unique_legal_operation : Bool
  pub user_choice_already_explicit : Bool

pub data NecessityOutcome : Type 0 where
  not_required required unknown : NecessityOutcome

pub record NecessityDecision : Type 0 where
  pub outcome : NecessityOutcome
  pub enters_decision_runtime : Bool
  pub reason_codes : List String
  pub rule_version : ℕ

abbrev is_high_impact : ImpactLevel → Bool
is_high_impact level = leb (rank high) (rank level)

abbrev required_reasons : NecessityFacts → List String
required_reasons f = push_if f.multiple_viable_options "multiple_viable_options" (
    push_if f.material_tradeoffs "material_tradeoffs" (
      push_if f.evidence_conflict "evidence_conflict" (
        push_if (is_high_impact f.impact_level) "high_impact" (
          push_if f.irreversible_result "irreversible_result" (
            push_if f.affects_long_term_goal "long_term_goal_affected"
              (push_if f.host_user_interest_conflict "host_user_interest_conflict" []))))))

unfoldable pub evaluate_decision_necessity : NecessityFacts → NecessityDecision
evaluate_decision_necessity f =
    if f.multiple_viable_options
      || f.material_tradeoffs
      || f.evidence_conflict
      || is_high_impact f.impact_level
      || f.irreversible_result
      || f.affects_long_term_goal
      || f.host_user_interest_conflict
    then record {
      outcome = required;
      enters_decision_runtime = true;
      reason_codes = required_reasons f;
      rule_version = rule_version_v1;
    }
    else if f.simple_lookup || f.unique_legal_operation || f.user_choice_already_explicit
    then record {
      outcome = not_required;
      enters_decision_runtime = false;
      reason_codes = "no_material_decision_remains" ∷ [];
      rule_version = rule_version_v1;
    }
    else record {
      outcome = NecessityOutcome.unknown;
      enters_decision_runtime = true;
      reason_codes = "insufficient_facts_conservative_entry" ∷ [];
      rule_version = rule_version_v1;
    }

pub record CoordinationFacts : Type 0 where
  pub response_planned : Bool
  pub action_planned : Bool
  pub explicit_confirmation_requested : Bool
  pub authorization_required : Bool
  pub action_is_read_only : Bool
  pub long_running : Bool
  pub stream_progress : Bool
  pub safe_to_parallelize : Bool

pub data CoordinationMode : Type 0 where
  respond_only act_then_respond respond_then_act respond_then_confirm_then_act : CoordinationMode
  parallel acknowledge_then_run stream_progress_then_final : CoordinationMode

unfoldable pub select_turn_coordination_mode : CoordinationFacts → Checked CoordinationMode
select_turn_coordination_mode f =
    if not f.response_planned
    then err invalid_contract
    else if not f.action_planned
    then ok respond_only
    else if f.explicit_confirmation_requested || f.authorization_required
    then ok respond_then_confirm_then_act
    else if f.stream_progress
    then ok stream_progress_then_final
    else if f.long_running
    then ok acknowledge_then_run
    else if f.action_is_read_only && f.safe_to_parallelize
    then ok parallel
    else ok respond_then_act
