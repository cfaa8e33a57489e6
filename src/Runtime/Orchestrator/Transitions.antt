-- ===== src/Runtime/Orchestrator/Transitions.antt =====
-- What one `transition` does, on every branch.
use idr.Base.{
  ℕ, ◌+◌, ◌≤◌, ◌<◌, ◌≡◌, ◌↔◌, ◌⊎◌, inl, inr, true, false, Option, none, some, ok, err, arith,
  u32_max, is_some, ◌differs◌, Bool-cases, Result-cases, subst, sym, ap, ◌∙◌,
}
use idr.Protocol.Error.{ProtocolError}
use idr.Runtime.Orchestrator.{
  StepRecord, StepState, running, WaitCondition, validate, transition, next_attempt,
  may_transition_to, moved, is_waiting, step_state_eq,
}
use idr.Runtime.Orchestrator.Validity.{Carries, IsSound, step_ok_iff, moved-IsSound, Carries-waits}

-- The attempts of a record after a transition: entering `running` is the next attempt.
abbrev pub attempt_after : ℕ → StepState → ℕ
attempt_after n running = n + 1
attempt_after n _ = n

next_attempt-ok :
    (r : StepRecord) (next : StepState) (n : ℕ)
    → r.attempt ≤ r.retry_policy.maximum_attempts
    → next_attempt r next ≡ ok n
    → (n ≡ attempt_after r.attempt next) × (n ≤ r.retry_policy.maximum_attempts)
unfolding next_attempt
next_attempt-ok r next n h e = ground arith

next_attempt-runs :
    (r : StepRecord) (next : StepState)
    → r.retry_policy.maximum_attempts ≤ u32_max
    → (next ≡ running → r.attempt < r.retry_policy.maximum_attempts)
    → next_attempt r next ≡ ok (attempt_after r.attempt next)
unfolding next_attempt
next_attempt-runs r next h k = ground arith

next_attempt-refuses :
    (r : StepRecord) (n : ℕ)
    → next_attempt r running ≡ ok n
    → r.attempt < r.retry_policy.maximum_attempts
unfolding next_attempt
next_attempt-refuses r n e = ground arith

-- The branch of a transition that succeeds.
transition-passed :
    (r : StepRecord) (next : StepState) (wait : Option WaitCondition)
    → r.attempt ≤ r.retry_policy.maximum_attempts
    → (transition r next wait).1 ≡ ok tt
    → (may_transition_to r.state next ≡ true)
      × (next_attempt r next ≡ ok (attempt_after r.attempt next))
      × ((transition r next wait).0 ≡ moved r next wait (attempt_after r.attempt next))
      × (validate (moved r next wait (attempt_after r.attempt next)) ≡ ok tt)
unfolding transition
transition-passed r next wait b h = elim (Result-cases (next_attempt r next)) [
  | inl (n, e) ↦ ground (arith, next_attempt-ok r next n b e)
  | inr (x, e) ↦ ground arith
]

transition-goes :
    (r : StepRecord) (next : StepState) (wait : Option WaitCondition) (n : ℕ)
    → may_transition_to r.state next ≡ true
    → (is_waiting next differs is_some wait) ≡ false
    → next_attempt r next ≡ ok n
    → transition r next wait ≡ (moved r next wait n, validate (moved r next wait n))
unfolding transition
transition-goes r next wait n h k e = rw (h, k, e)

-- A transition that succeeds follows an edge of the state machine, changes the state, the wait
-- condition and the attempts alone, counts an attempt when it enters `running`, and leaves a sound
-- record.
pub transition-ok :
    (r : StepRecord) (next : StepState) (wait : Option WaitCondition)
    → IsSound r
    → (transition r next wait).1 ≡ ok tt
    → (may_transition_to r.state next ≡ true)
      × ((transition r next wait).0 ≡ moved r next wait (attempt_after r.attempt next))
      × IsSound (transition r next wait).0
transition-ok r next wait s h =
    let (edge, _, left, sound) = transition-passed r next wait s.attempts h in
    (edge, left, subst IsSound (sym left) ((step_ok_iff _).0 sound))

-- A transition of a sound record, whose maximum of attempts is a u32, succeeds exactly when the edge exists, the wait condition is the
-- new state's own, and, to enter `running`, an attempt is left.
pub transition-ok_iff :
    (r : StepRecord) (next : StepState) (wait : Option WaitCondition)
    → IsSound r
    → r.retry_policy.maximum_attempts ≤ u32_max
    → ((transition r next wait).1 ≡ ok tt) ↔ (
        (may_transition_to r.state next ≡ true)
        × Carries next wait
        × (next ≡ running → r.attempt < r.retry_policy.maximum_attempts))
transition-ok_iff r next wait s m = (to, from)
  where
    to :
        (transition r next wait).1 ≡ ok tt
        → (may_transition_to r.state next ≡ true)
          × Carries next wait
          × (next ≡ running → r.attempt < r.retry_policy.maximum_attempts)
    to h =
        let (edge, n, _, sound) = transition-passed r next wait s.attempts h in
        (
          edge,
          ((step_ok_iff _).0 sound).waits,
          λ e.
              next_attempt-refuses r (r.attempt + 1)
                (subst (λ t. next_attempt r t ≡ ok (attempt_after r.attempt t)) e n),
        )

    from :
        (may_transition_to r.state next ≡ true)
          × Carries next wait
          × (next ≡ running → r.attempt < r.retry_policy.maximum_attempts)
        → (transition r next wait).1 ≡ ok tt
    from (edge, c, room) =
        let n : next_attempt r next ≡ ok (attempt_after r.attempt next) =
          next_attempt-runs r next m room in
        rw (transition-goes r next wait (attempt_after r.attempt next) edge (Carries-waits c) n) (
          (step_ok_iff _).1
            (moved-IsSound r next wait _ s c (next_attempt-ok r next _ s.attempts n).1))

transition-stops :
    (r : StepRecord) (next : StepState) (wait : Option WaitCondition)
    → ((transition r next wait).0 ≡ r)
      ⊎ ((n : ℕ) × (next_attempt r next ≡ ok n)
          × ((is_waiting next differs is_some wait) ≡ false)
          × (transition r next wait ≡ (moved r next wait n, validate (moved r next wait n))))
unfolding transition
transition-stops r next wait = elim (Result-cases (next_attempt r next)) [
  | inl (n, e) ↦ elim (Bool-cases (may_transition_to r.state next)) [
    | inl edge ↦ elim (Bool-cases (is_waiting next differs is_some wait)) [
      | inl d ↦ inl (rw (edge, d))
      | inr d ↦ inr (n, e, d, rw (edge, d, e))
    ]
    | inr edge ↦ inl (rw edge)
  ]
  | inr (x, e) ↦ inl (ground arith)
]

waiting_attempt : (n : ℕ) (next : StepState) → is_waiting next ≡ true → attempt_after n next ≡ n
waiting_attempt n next h = ground arith

resting-Carries :
    (next : StepState) (wait : Option WaitCondition)
    → is_waiting next ≡ false
    → (is_waiting next differs is_some wait) ≡ false
    → Carries next wait
resting-Carries next none h d = Carries.idle h
resting-Carries next (some w) h d = absurd (ground arith)

-- A transition that fails leaves its record as it was, with one exception: a waiting state given
-- a condition of another kind. The record then already has the new state and condition, and is
-- no longer sound.
pub transition-err :
    (r : StepRecord) (next : StepState) (wait : Option WaitCondition) (e : ProtocolError)
    → IsSound r
    → (transition r next wait).1 ≡ err e
    → ((transition r next wait).0 ≡ r)
      ⊎ ((is_waiting next ≡ true)
          × ((transition r next wait).0 ≡ moved r next wait r.attempt)
          × (Carries next wait → ⊥)
          × (IsSound (transition r next wait).0 → ⊥))
transition-err r next wait e s h = elim (transition-stops r next wait) [
  | inl same ↦ inl same
  | inr (n, go, d, eq) ↦
      let (count, room) = next_attempt-ok r next n s.attempts go in
      let unsound : IsSound (moved r next wait n) → ⊥ =
        λ t. ground (arith, (step_ok_iff (moved r next wait n)).1 t, eq, h) in
      let foreign : Carries next wait → ⊥ = λ c. unsound (moved-IsSound r next wait n s c room) in
      elim (Bool-cases (is_waiting next)) [
        | inl w ↦ inr (
          w,
          rw eq (ap (moved r next wait) (count ∙ waiting_attempt r.attempt next w)),
          foreign,
          rw eq unsound,
        )
        | inr w ↦ absurd (foreign (resting-Carries next wait w d))
      ]
]
