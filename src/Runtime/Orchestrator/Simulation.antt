-- ===== src/Runtime/Orchestrator/Simulation.antt =====
-- The state machine of a step beside that of a run: a run has one more way to end.
use idr.Base.{◌≡◌, ◌≢◌, ◌↔◌, true, ok, arith}
use idr.Protocol.Run.{RunState, validate_interaction_run_transition}
use idr.Protocol.Run
use idr.Runtime.Orchestrator.{
  StepState, pending, running, waiting_input, waiting_authorization, waiting_dependency, succeeded,
  failed, cancelled, timed_out, invalidated, may_transition_to,
}

-- The run state of the same name.
abbrev pub run_state : StepState → RunState
run_state pending = RunState.pending
run_state running = RunState.running
run_state waiting_input = RunState.waiting_input
run_state waiting_authorization = RunState.waiting_authorization
run_state waiting_dependency = RunState.waiting_dependency
run_state succeeded = RunState.succeeded
run_state failed = RunState.failed
run_state cancelled = RunState.cancelled
run_state timed_out = RunState.timed_out
run_state invalidated = RunState.invalidated

-- A step moves along an edge exactly when a run moves along the edge of the same name, and a run
-- moves from one of these states only to another of them or to `rejected`.
pub run_state-simulates :
    (s t : StepState)
    → (may_transition_to s t ≡ true)
      ↔ (validate_interaction_run_transition (run_state s) (run_state t) ≡ ok tt)
unfolding may_transition_to validate_interaction_run_transition
run_state-simulates s t = ground arith

-- A run state is terminal exactly when no transition out of it is accepted.
pub is_terminal_iff :
    (s : RunState)
    → (Run.is_terminal s ≡ true)
      ↔ ((t : RunState) → validate_interaction_run_transition s t ≢ ok tt)
unfolding Run.is_terminal validate_interaction_run_transition
is_terminal_iff s = (λ h t. ground arith, λ h. ground (arith, h RunState.invalidated))
