-- ===== src/Examples/Steps.antt =====
-- The theorems on orchestration steps at concrete inputs.
use idr.Base.{
  ℕ, ◌≡◌, ◌≢◌, ◌≤◌, ◌<◌, ◌+◌, ◌*◌, ◌↔◌, ◌⊎◌, refl, ok, err, [], ◌∷◌, inl, true, false, none, some,
  arith, u32_max,
}
use idr.Base
use idr.Protocol.Error.{invalid_contract}
use idr.Protocol.Id.{action}
use idr.Runtime.Orchestrator
use idr.Runtime.Orchestrator.{
  StepRecord, StepDraft, StepState, execution, pending, running, waiting_input,
  waiting_authorization, succeeded, authorization, user_input, WaitCondition, transition,
  may_transition_to, new_pending, pending_record, moved, is_waiting,
}
use idr.Runtime.Orchestrator.Validity.{Carries, IsSound, step_ok_iff}
use idr.Runtime.Orchestrator.Transitions.{transition-ok_iff, transition-err}
use idr.Runtime.Orchestrator.Histories.{here, then, new_pending-Steps}
use idr.Examples.Samples.{id, name, ref}

abbrev draft : StepDraft
draft = record {
  run_id = id 1;
  turn_id = id 2;
  step_kind = execution;
  dependency_step_ids = 4 ∷ 3 ∷ [];
  retry_policy = record {
    maximum_attempts = 2;
    initial_backoff_millis = 100;
    maximum_backoff_millis = 1000;
  };
  causation_ref = name b'c';
  correlation_ref = name b'd';
}

-- The step as it is created, in its first attempt, and at its end.
abbrev created : StepRecord
created = pending_record 9 draft

abbrev started : StepRecord
started = moved created running none 1

abbrev ended : StepRecord
ended = moved started succeeded none 1

created_valid : Orchestrator.validate created ≡ ok tt
unfolding Orchestrator.validate Orchestrator.validate_policy Base.ℕ_discrete
    Orchestrator.badly_identified Base.sort_dedup Base.contains Orchestrator.badly_waiting
    Orchestrator.badly_caused Base.is_blank
created_valid = refl

started_valid : Orchestrator.validate started ≡ ok tt
unfolding Orchestrator.validate Orchestrator.validate_policy Base.ℕ_discrete
    Orchestrator.badly_identified Base.sort_dedup Base.contains Orchestrator.badly_waiting
    Orchestrator.badly_caused Base.is_blank
started_valid = refl

created_ok : new_pending 9 draft ≡ ok created
unfolding new_pending Orchestrator.validate Orchestrator.validate_policy Base.ℕ_discrete
    Orchestrator.badly_identified Base.sort_dedup Base.contains Orchestrator.badly_waiting
    Orchestrator.badly_caused Base.is_blank
created_ok = refl

starts : transition created running none ≡ (started, ok tt)
unfolding transition may_transition_to Orchestrator.next_attempt Orchestrator.validate
    Orchestrator.validate_policy Base.ℕ_discrete Orchestrator.badly_identified Base.sort_dedup
    Base.contains Orchestrator.badly_waiting Orchestrator.badly_caused Base.is_blank
starts = refl

ends : transition started succeeded none ≡ (ended, ok tt)
unfolding transition may_transition_to Orchestrator.next_attempt Orchestrator.validate
    Orchestrator.validate_policy Base.ℕ_discrete Orchestrator.badly_identified Base.sort_dedup
    Base.contains Orchestrator.badly_waiting Orchestrator.badly_caused Base.is_blank
ends = refl

-- A step that waits for input is given an authorization to wait for.
waits_for_another :
    (transition started waiting_input (some (authorization (ref action 7)))).1
    ≡ err invalid_contract
unfolding transition may_transition_to Orchestrator.next_attempt Orchestrator.validate
    Orchestrator.validate_policy Base.ℕ_discrete Orchestrator.badly_identified Base.sort_dedup
    Base.contains Orchestrator.badly_waiting
waits_for_another = refl

created-IsSound : IsSound created
created-IsSound = (step_ok_iff created).0 created_valid

started-IsSound : IsSound started
started-IsSound = (step_ok_iff started).0 started_valid

transition-ok_iff_example :
    ((transition started waiting_input (some (user_input (name b'u')))).1 ≡ ok tt) ↔ (
      (may_transition_to running waiting_input ≡ true)
      × Carries waiting_input (some (user_input (name b'u')))
      × (waiting_input ≡ running → 1 < 2))
transition-ok_iff_example =
    transition-ok_iff started waiting_input (some (user_input (name b'u'))) started-IsSound
      (omega arith)

transition-err_example :
    ((transition started waiting_input (some (authorization (ref action 7)))).0 ≡ started)
    ⊎ ((is_waiting waiting_input ≡ true)
        × ((transition started waiting_input (some (authorization (ref action 7)))).0
            ≡ moved started waiting_input (some (authorization (ref action 7))) 1)
        × (Carries waiting_input (some (authorization (ref action 7))) → ⊥)
        × (IsSound (transition started waiting_input (some (authorization (ref action 7)))).0 → ⊥))
transition-err_example =
    transition-err started waiting_input (some (authorization (ref action 7))) invalid_contract
      started-IsSound waits_for_another

new_pending-Steps_example : (2 ≤ 2 * 2 + 1) × (1 ≤ 2) × IsSound ended
new_pending-Steps_example =
    new_pending-Steps 9 draft created ended 2 created_ok
      (then ended succeeded none (then started running none here starts) ends)
