-- ===== src/Runtime/Orchestrator.antt =====
-- crates/idr-runtime/src/orchestrator.rs: the record of one orchestration step.
pub mod Validity
pub mod Transitions
pub mod Simulation
pub mod Histories
use idr.Base.{
  ℕ, ◌+◌, Bool, true, false, ◌||◌, ◌&&◌, not, ◌==◌, ◌!=◌, nat_eq, ltb, List, length, contains,
  Option, none, some, is_some, ok, err, deny, ◌>>◌, ◌>>=◌, sort_dedup, nat_ord, checked_add,
  u32_max, is_blank, Eq, if◌then◌else◌, Result, ◌differs◌,
}
use idr.Protocol.Error.{
  ProtocolError, Checked, invalid_contract, invalid_transition, revision_overflow,
}
use idr.Protocol.Reference.{Reference}
use idr.Protocol.ContractRef.{ContractRef}
use idr.Protocol.Id.{Uuid, RunId, TurnId, is_nil, is_empty_id}

pub data StepKind : Type 0 where
  input_admission context_snapshot intent_assessment decision turn_planning : StepKind
  response_admission action_admission execution outcome_observation : StepKind
  human_model_candidate : StepKind

pub data StepState : Type 0 where
  pending running waiting_input waiting_authorization waiting_dependency : StepState
  succeeded failed cancelled timed_out invalidated : StepState

unfoldable pub StepState-discrete : Discrete StepState
StepState-discrete = hlevel

instance abbrev pub step_state_eq : Eq StepState
step_state_eq = record { dec = StepState-discrete }

-- Where a step that has started may be stopped from outside.
abbrev is_stop : StepState → Bool
is_stop cancelled = true
is_stop timed_out = true
is_stop invalidated = true
is_stop _ = false

abbrev from_running : StepState → Bool
from_running waiting_input = true
from_running waiting_authorization = true
from_running waiting_dependency = true
from_running succeeded = true
from_running failed = true
from_running next = is_stop next

abbrev from_waiting : StepState → Bool
from_waiting running = true
from_waiting failed = true
from_waiting next = is_stop next

abbrev from_pending : StepState → Bool
from_pending running = true
from_pending next = is_stop next

unfoldable pub may_transition_to : StepState → StepState → Bool
may_transition_to pending next = from_pending next
may_transition_to running next = from_running next
may_transition_to waiting_input next = from_waiting next
may_transition_to waiting_authorization next = from_waiting next
may_transition_to waiting_dependency next = from_waiting next
may_transition_to succeeded next = false
may_transition_to failed next = false
may_transition_to cancelled next = false
may_transition_to timed_out next = false
may_transition_to invalidated next = false

pub data WaitCondition : Type 0 where
  user_input : Reference → WaitCondition
  authorization : ContractRef → WaitCondition
  dependency : ContractRef → WaitCondition
  provider_reconciliation : Reference → WaitCondition

pub record RetryPolicy : Type 0 where
  pub maximum_attempts : ℕ
  pub initial_backoff_millis : ℕ
  pub maximum_backoff_millis : ℕ

-- `RetryPolicyV1::validate`
unfoldable pub validate_policy : RetryPolicy → Checked (Unit {0})
validate_policy p =
    deny
      (p.maximum_attempts == 0
        || p.initial_backoff_millis == 0
        || ltb p.maximum_backoff_millis p.initial_backoff_millis)
      invalid_contract

pub record StepRecord : Type 0 where
  pub step_id : Uuid
  pub run_id : RunId
  pub turn_id : TurnId
  pub step_kind : StepKind
  pub state : StepState
  pub attempt : ℕ
  pub dependency_step_ids : List Uuid
  pub wait_condition : Option WaitCondition
  pub retry_policy : RetryPolicy
  pub causation_ref : Reference
  pub correlation_ref : Reference

-- `requires_wait` in `transition`, and `waiting` in `validate`.
abbrev pub is_waiting : StepState → Bool
is_waiting waiting_input = true
is_waiting waiting_authorization = true
is_waiting waiting_dependency = true
is_waiting _ = false

abbrev pub wait_matches_state : StepState → Option WaitCondition → Bool
wait_matches_state waiting_input (some (user_input _)) = true
wait_matches_state waiting_authorization (some (authorization _)) = true
wait_matches_state waiting_dependency (some (dependency _)) = true
wait_matches_state waiting_dependency (some (provider_reconciliation _)) = true
wait_matches_state _ _ = false

-- The parts of the test in `validate` that no transition changes.
unfoldable pub badly_identified : StepRecord → Bool
badly_identified r =
    is_nil r.step_id
    || is_empty_id r.run_id
    || is_empty_id r.turn_id
    || length (sort_dedup r.dependency_step_ids) != length r.dependency_step_ids
    || contains r.dependency_step_ids r.step_id

unfoldable pub badly_waiting : StepRecord → Bool
badly_waiting r =
    is_waiting r.state differs is_some r.wait_condition
    || is_waiting r.state && not (wait_matches_state r.state r.wait_condition)

unfoldable pub badly_caused : StepRecord → Bool
badly_caused r = is_blank r.causation_ref.text || is_blank r.correlation_ref.text

-- `OrchestrationStepRecordV1::validate`
unfoldable pub validate : StepRecord → Checked (Unit {0})
validate r = do
  validate_policy r.retry_policy
  deny
      (badly_identified r
        || ltb r.retry_policy.maximum_attempts r.attempt
        || badly_waiting r
        || badly_caused r)
      invalid_contract

-- The arguments of `pending`.
pub record StepDraft : Type 0 where
  pub run_id : RunId
  pub turn_id : TurnId
  pub step_kind : StepKind
  pub dependency_step_ids : List Uuid
  pub retry_policy : RetryPolicy
  pub causation_ref : Reference
  pub correlation_ref : Reference

-- `minted` is what `Uuid::new_v4` returns.
abbrev pub pending_record : Uuid → StepDraft → StepRecord
pending_record minted d = record {
  step_id = minted;
  run_id = d.run_id;
  turn_id = d.turn_id;
  step_kind = d.step_kind;
  state = pending;
  attempt = 0;
  dependency_step_ids = d.dependency_step_ids;
  wait_condition = none;
  retry_policy = d.retry_policy;
  causation_ref = d.causation_ref;
  correlation_ref = d.correlation_ref;
}

-- `OrchestrationStepRecordV1::pending`
unfoldable pub new_pending : Uuid → StepDraft → Checked StepRecord
new_pending minted d = validate (pending_record minted d) >> ok (pending_record minted d)

-- The attempt of the record after the transition, or the error.
unfoldable pub next_attempt : StepRecord → StepState → Checked ℕ
next_attempt r running = elim (checked_add u32_max r.attempt 1) [
  | none ↦ err revision_overflow
  | some n ↦ if ltb r.retry_policy.maximum_attempts n then err invalid_transition else ok n
]
next_attempt r _ = ok r.attempt

-- The assignments of `transition`, once its guards have passed.
abbrev pub moved : StepRecord → StepState → Option WaitCondition → ℕ → StepRecord
moved r next wait n = record r { state = next; wait_condition = wait; attempt = n }

-- `transition` mutates its record: the result has the record as it is left, also on an error.
unfoldable pub transition :
    StepRecord → StepState → Option WaitCondition → StepRecord × Checked (Unit {0})
transition r next wait =
    if not (may_transition_to r.state next)
    then (r, err invalid_transition)
    else if is_waiting next differs is_some wait
    then (r, err invalid_contract)
    else elim (next_attempt r next) [
      | err e ↦ (r, err e)
      | ok n ↦ (moved r next wait n, validate (moved r next wait n))
    ]
