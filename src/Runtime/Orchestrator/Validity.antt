-- ===== src/Runtime/Orchestrator/Validity.antt =====
-- What `validate` and `transition` decide.
use idr.Base.{
  ℕ, ◌≤◌, ◌≡◌, ◌↔◌, refl, false, Option, none, some, ok, arith, ◌∙◌, is_some, ◌differs◌, ◌&&◌, not,
}
use idr.Protocol.Reference.{Reference}
use idr.Protocol.ContractRef.{ContractRef}
use idr.Runtime.Orchestrator.{
  StepRecord, StepState, WaitCondition, validate, validate_policy, badly_waiting, badly_caused,
  badly_identified, moved, is_waiting, wait_matches_state, waiting_input, waiting_authorization,
  waiting_dependency, user_input, authorization, dependency, provider_reconciliation,
}

-- The wait condition that a state carries: one of the state's own kind if the state waits, and
-- none if it does not.
pub data Carries : StepState → Option WaitCondition → Type 0 where
  idle : {s : StepState} → is_waiting s ≡ false → Carries s none
  for_input : {r : Reference} → Carries waiting_input (some (user_input r))
  for_authorization : {r : ContractRef} → Carries waiting_authorization (some (authorization r))
  for_dependency : {r : ContractRef} → Carries waiting_dependency (some (dependency r))
  for_provider : {r : Reference} → Carries waiting_dependency (some (provider_reconciliation r))

pub Carries-intro :
    (s : StepState) (o : Option WaitCondition)
    → (is_waiting s differs is_some o) ≡ false
    → (is_waiting s && not (wait_matches_state s o)) ≡ false
    → Carries s o
Carries-intro s o h k =
    grind (arith, idle, for_input, for_authorization, for_dependency, for_provider)

pub Carries-waits :
    {s : StepState} {o : Option WaitCondition}
    → Carries s o
    → (is_waiting s differs is_some o) ≡ false
Carries-waits (idle e) = ground arith
Carries-waits for_input = refl
Carries-waits for_authorization = refl
Carries-waits for_dependency = refl
Carries-waits for_provider = refl

Carries-matches :
    {s : StepState} {o : Option WaitCondition}
    → Carries s o
    → (is_waiting s && not (wait_matches_state s o)) ≡ false
Carries-matches (idle e) = ground arith
Carries-matches for_input = refl
Carries-matches for_authorization = refl
Carries-matches for_dependency = refl
Carries-matches for_provider = refl

badly_waiting_iff : (r : StepRecord) → (badly_waiting r ≡ false) ↔ Carries r.state r.wait_condition
unfolding badly_waiting
badly_waiting_iff r = (
  (λ h. Carries-intro r.state r.wait_condition (ground arith) (ground arith)),
  λ c. ground (arith, Carries-waits c, Carries-matches c),
)

-- What a record keeps over every transition, and the bound on its attempts.
pub record IsSound (r : StepRecord) : Type 0 where
  pub policy : validate_policy r.retry_policy ≡ ok tt
  pub identified : badly_identified r ≡ false
  pub caused : badly_caused r ≡ false
  pub attempts : r.attempt ≤ r.retry_policy.maximum_attempts
  pub waits : Carries r.state r.wait_condition

validate-IsSound : (r : StepRecord) → validate r ≡ ok tt → IsSound r
unfolding validate
validate-IsSound r h = record {
  policy = ground arith;
  identified = ground arith;
  caused = ground arith;
  attempts = ground arith;
  waits = (badly_waiting_iff r).0 (ground arith);
}

validate_of_IsSound : (r : StepRecord) → IsSound r → validate r ≡ ok tt
unfolding validate
validate_of_IsSound r s =
    rw (s.policy, s.identified, s.caused, (badly_waiting_iff r).1 s.waits)
      (ground (arith, s.attempts))

-- A step record is accepted exactly when it is sound: its policy, identifiers and causes pass their
-- tests, its attempts are within the policy, and it has a wait condition exactly if its state waits,
-- one of that state's own kind.
pub step_ok_iff : (r : StepRecord) → (validate r ≡ ok tt) ↔ IsSound r
step_ok_iff r = (validate-IsSound r, validate_of_IsSound r)

badly_identified-moved :
    (r : StepRecord) (next : StepState) (wait : Option WaitCondition) (n : ℕ)
    → badly_identified (moved r next wait n) ≡ badly_identified r
unfolding badly_identified
badly_identified-moved r next wait n = refl

badly_caused-moved :
    (r : StepRecord) (next : StepState) (wait : Option WaitCondition) (n : ℕ)
    → badly_caused (moved r next wait n) ≡ badly_caused r
unfolding badly_caused
badly_caused-moved r next wait n = refl

-- A record that moves to a state with its wait condition stays sound within its attempts.
pub moved-IsSound :
    (r : StepRecord) (next : StepState) (wait : Option WaitCondition) (n : ℕ)
    → IsSound r
    → Carries next wait
    → n ≤ r.retry_policy.maximum_attempts
    → IsSound (moved r next wait n)
moved-IsSound r next wait n s c h = record {
  policy = s.policy;
  identified = badly_identified-moved r next wait n ∙ s.identified;
  caused = badly_caused-moved r next wait n ∙ s.caused;
  attempts = h;
  waits = c;
}
