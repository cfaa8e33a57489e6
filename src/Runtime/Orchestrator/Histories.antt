-- ===== src/Runtime/Orchestrator/Histories.antt =====
-- Sequences of transitions: which are final, and how long a step can go on.
use idr.Base.{
  ℕ, suc, ◌+◌, ◌-◌, ◌*◌, ◌≤◌, ◌≡◌, refl, true, false, Bool, Option, ok, err, arith, ap, sym, subst,
  ◌∙◌,
}
use idr.Protocol.Error.{invalid_transition}
use idr.Protocol.Id.{Uuid}
use idr.Runtime.Orchestrator.{
  StepRecord, StepDraft, StepState, WaitCondition, pending, running, waiting_input,
  waiting_authorization, waiting_dependency, succeeded, failed, cancelled, timed_out, invalidated,
  transition, may_transition_to, new_pending, pending_record, moved,
}
use idr.Runtime.Orchestrator.Validity.{IsSound, step_ok_iff}
use idr.Runtime.Orchestrator.Transitions.{attempt_after, transition-ok}

-- The states that a step ends in.
abbrev pub is_terminal : StepState → Bool
is_terminal succeeded = true
is_terminal failed = true
is_terminal cancelled = true
is_terminal timed_out = true
is_terminal invalidated = true
is_terminal _ = false

-- A state is final, in that no transition leaves it, exactly when it is terminal; a transition out
-- of it is refused and changes nothing.
pub transition_final :
    (r : StepRecord) (next : StepState) (wait : Option WaitCondition)
    → is_terminal r.state ≡ true
    → transition r next wait ≡ (r, err invalid_transition)
unfolding transition may_transition_to
transition_final r next wait h = ground arith

-- Successful transitions in a row.
pub data Steps (r : StepRecord) : ℕ → StepRecord → Type 0 where
  here : Steps r 0 r
  then :
      {n : ℕ} {t : StepRecord} (u : StepRecord) (next : StepState) (wait : Option WaitCondition)
      → Steps r n t
      → transition t next wait ≡ (u, ok tt)
      → Steps r (suc n) u

-- How many transitions a step in this state can still make.
abbrev budget : StepState → ℕ → ℕ
budget pending left = 2 * left + 1
budget running left = 2 * left + 2
budget waiting_input left = 2 * left + 1
budget waiting_authorization left = 2 * left + 1
budget waiting_dependency left = 2 * left + 1
budget succeeded left = 0
budget failed left = 0
budget cancelled left = 0
budget timed_out left = 0
budget invalidated left = 0

abbrev remaining : StepRecord → ℕ
remaining r = budget r.state (r.retry_policy.maximum_attempts - r.attempt)

budget-edge :
    (s next : StepState) (attempt maximum : ℕ)
    → may_transition_to s next ≡ true
    → attempt_after attempt next ≤ maximum
    → suc (budget next (maximum - attempt_after attempt next)) ≤ budget s (maximum - attempt)
unfolding may_transition_to
budget-edge s next attempt maximum h k = ground arith

-- One successful transition keeps a record sound and its policy, and spends the budget.
step_facts :
    (t u : StepRecord) (next : StepState) (wait : Option WaitCondition)
    → IsSound t
    → transition t next wait ≡ (u, ok tt)
    → IsSound u × (u.retry_policy ≡ t.retry_policy) × (suc (remaining u) ≤ remaining t)
step_facts t u next wait s e =
    let (edge, is_moved, sound) = transition-ok t next wait s (ap (λ p. p.1) e) in
    let is_u : u ≡ moved t next wait (attempt_after t.attempt next) =
      sym (ap (λ p. p.0) e) ∙ is_moved in
    let sound_u : IsSound u = subst IsSound (ap (λ p. p.0) e) sound in
    (
      sound_u,
      rw is_u,
      rw is_u (
          budget-edge t.state next t.attempt t.retry_policy.maximum_attempts edge
            (subst IsSound is_u sound_u).attempts),
    )

Steps-spend :
    {r : StepRecord} {n : ℕ} {t : StepRecord}
    → IsSound r
    → Steps r n t
    → IsSound t × (t.retry_policy ≡ r.retry_policy) × (n + remaining t ≤ remaining r)
Steps-spend s here = (s, refl, omega arith)
Steps-spend s (then {t = t} u next wait steps e) =
    let (sound_t, policy_t, spent_t) = Steps-spend s steps in
    let (sound_u, policy_u, spent_u) = step_facts t u next wait sound_t e in
    (sound_u, policy_u ∙ policy_t, omega arith)

new_pending-ok :
    (minted : Uuid) (d : StepDraft) (r : StepRecord)
    → new_pending minted d ≡ ok r
    → (r ≡ pending_record minted d) × IsSound r
unfolding new_pending
new_pending-ok minted d r e = (ground arith, (step_ok_iff r).0 (ground arith))

-- A step that starts as pending makes at most 2 * maximum_attempts + 1 successful transitions,
-- whatever is asked of it, and every record on the way is sound: its attempts stay within the policy.
pub new_pending-Steps :
    (minted : Uuid) (d : StepDraft) (r t : StepRecord) (n : ℕ)
    → new_pending minted d ≡ ok r
    → Steps r n t
    → (n ≤ 2 * d.retry_policy.maximum_attempts + 1)
      × (t.attempt ≤ d.retry_policy.maximum_attempts)
      × IsSound t
new_pending-Steps minted d r t n e steps =
    let (is_r, sound) = new_pending-ok minted d r e in
    let (sound_t, policy, spent) = Steps-spend sound steps in
    let at_start : r.retry_policy ≡ d.retry_policy = rw is_r in
    (
      omega (arith, subst (λ q. n ≤ remaining q) is_r (omega (arith, spent))),
      subst (λ p. t.attempt ≤ p.maximum_attempts) (policy ∙ at_start) sound_t.attempts,
      sound_t,
    )
