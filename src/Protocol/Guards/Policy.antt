-- ===== src/Protocol/Guards/Policy.antt =====
-- What the guards decide, and how their reasons account for it.
use idr.Base.{◌≡◌, ◌≢◌, ◌↔◌, ◌⊎◌, true, false, [], ok, err, arith, ◌≤◌, ◌||◌}
use idr.Protocol.Error.{invalid_contract}
use idr.Protocol.Id.{low, rank}
use idr.Protocol.Guards.{
  FastPathFacts, NecessityFacts, CoordinationFacts, evaluate_intent_fast_path,
  evaluate_decision_necessity, select_turn_coordination_mode, allow_fast_path, block, not_required,
  respond_only, parallel, act_then_respond, respond_then_confirm_then_act,
}

-- The fast path is open exactly when all eight facts are favourable.
pub evaluate_intent_fast_path-allow_iff :
    (f : FastPathFacts)
    → ((evaluate_intent_fast_path f).outcome ≡ allow_fast_path) ↔ (
        (f.authority_context_valid ≡ true)
        × (f.policy_allows_request ≡ true)
        × (f.deterministic_command_match ≡ true)
        × (f.required_parameters_complete ≡ true)
        × (f.ambiguity_present ≡ false)
        × (f.impact_level ≡ low)
        × (f.reversible ≡ true)
        × (f.depends_on_human_model ≡ false))
unfolding evaluate_intent_fast_path
evaluate_intent_fast_path-allow_iff f = ground arith

-- A request is blocked exactly when its authority context is invalid or policy denies it, and
-- whatever is decided comes with a reason.
pub evaluate_intent_fast_path-block_iff :
    (f : FastPathFacts)
    → (((evaluate_intent_fast_path f).outcome ≡ block)
        ↔ ((f.authority_context_valid ≡ false) ⊎ (f.policy_allows_request ≡ false)))
      × ((evaluate_intent_fast_path f).reason_codes ≢ [])
unfolding evaluate_intent_fast_path
evaluate_intent_fast_path-block_iff f = (ground arith, λ h. ground arith)

-- The Decision runtime is passed over exactly when no fact calls for a decision, the impact is
-- below high, and one of the three facts says that nothing is left to decide.
pub evaluate_decision_necessity-skip_iff :
    (f : NecessityFacts)
    → ((evaluate_decision_necessity f).enters_decision_runtime ≡ false) ↔ (
        (f.multiple_viable_options ≡ false)
        × (f.material_tradeoffs ≡ false)
        × (f.evidence_conflict ≡ false)
        × (rank f.impact_level ≤ 1)
        × (f.irreversible_result ≡ false)
        × (f.affects_long_term_goal ≡ false)
        × (f.host_user_interest_conflict ≡ false)
        × ((f.simple_lookup || f.unique_legal_operation || f.user_choice_already_explicit) ≡ true))
unfolding evaluate_decision_necessity
evaluate_decision_necessity-skip_iff f = ground arith

-- The three outcomes of the necessity guard agree with its entry flag.
pub evaluate_decision_necessity-outcome_iff :
    (f : NecessityFacts)
    → ((evaluate_decision_necessity f).enters_decision_runtime ≡ false)
      ↔ ((evaluate_decision_necessity f).outcome ≡ not_required)
unfolding evaluate_decision_necessity
evaluate_decision_necessity-outcome_iff f = ground arith

-- A mode is refused exactly when no response is planned; it waits for a confirmation exactly when
-- an action is planned that asks for one or for authorization; it only responds exactly when no
-- action is planned; actions and responses run in parallel only if the action is read only and
-- safe, and no confirmation, authorization, streaming or long run is asked for.
pub select_turn_coordination_mode-cases :
    (f : CoordinationFacts)
    → ((select_turn_coordination_mode f ≡ err invalid_contract) ↔ (f.response_planned ≡ false))
      × ((select_turn_coordination_mode f ≡ ok respond_only)
          ↔ ((f.response_planned ≡ true) × (f.action_planned ≡ false)))
      × ((select_turn_coordination_mode f ≡ ok respond_then_confirm_then_act) ↔ (
          (f.response_planned ≡ true)
          × (f.action_planned ≡ true)
          × ((f.explicit_confirmation_requested || f.authorization_required) ≡ true)))
      × ((select_turn_coordination_mode f ≡ ok parallel)
          → (f.action_is_read_only ≡ true)
            × (f.safe_to_parallelize ≡ true)
            × (f.authorization_required ≡ false)
            × (f.explicit_confirmation_requested ≡ false)
            × (f.stream_progress ≡ false)
            × (f.long_running ≡ false))
unfolding select_turn_coordination_mode
select_turn_coordination_mode-cases f = (ground arith, ground arith, ground arith, ground arith)

-- No facts select the mode in which actions run before the response.
pub select_turn_coordination_mode-ne_act_then_respond :
    (f : CoordinationFacts) → select_turn_coordination_mode f ≢ ok act_then_respond
unfolding select_turn_coordination_mode
select_turn_coordination_mode-ne_act_then_respond f h = ground arith
