-- ===== src/Store/Consistency.antt =====
-- crates/idr-store/src/file_store.rs: `validate_cross_object_consistency`, what a contract must
-- agree on with the contracts that it names.
use idr.Base.{
  Bool, false, true, ◌&&◌, ◌||◌, not, ◌==◌, ◌!=◌, nat_eq, ltb, leb, List, ◌++◌, is_empty, any, all,
  contains, find, Option, none, some, is_none, is_none_or, is_some, Result, ok, err, deny, try_each,
  try_some, ◌>>◌, ◌>>=◌, text_eq,
}
use idr.Protocol.Reference.{reference_eq, authority_context_eq}
use idr.Protocol.Id.{rank, id_eq}
use idr.Protocol.Digest.{Codec}
use idr.Protocol.ContractRef.{ContractRef, contract_ref_eq}
use idr.Protocol.Metadata.{Metadata}
use idr.Protocol.Intent.{IntentContract}
use idr.Protocol.Decision.{DecisionContract, AuthorizationBoundary}
use idr.Protocol.Action.{ActionContract, not_required, authorization_state_eq}
use idr.Protocol.Receipt
use idr.Protocol.Receipt.{ExecutionReceipt, ExecutionState}
use idr.Protocol.Outcome.{OutcomeRecord}
use idr.Store.Contract.{ContractSnapshot, metadata}
use idr.Store.Snapshot.{
  ReservationStatus, dispatched, reconciliation_required, reservation_status_eq, is_terminal,
  Attempt, Reservation, record_of, option_ref_eq,
}

-- `Result<(), ()>`
abbrev pub Consistent : Type 0 → Type 0
Consistent A = Result A (Unit {0})

abbrev pub refuse_if : Bool → Consistent (Unit {0})
refuse_if bad = deny bad tt

-- The closure `same_context`
unfoldable pub same_context : Metadata → Metadata → Bool
same_context left right =
    left.run_id == right.run_id
    && left.turn_id == right.turn_id
    && left.authority_context == right.authority_context

-- `let Some(Variant(value)) = find(reference) else { return Err(()) }`
abbrev pub found_any : Option ContractSnapshot → Consistent ContractSnapshot
found_any none = err tt
found_any (some c) = ok c

abbrev pub as_intent : ContractSnapshot → Consistent IntentContract
as_intent (ContractSnapshot.intent value) = ok value
as_intent _ = err tt

abbrev pub as_decision : ContractSnapshot → Consistent DecisionContract
as_decision (ContractSnapshot.decision value) = ok value
as_decision _ = err tt

abbrev pub as_action : ContractSnapshot → Consistent ActionContract
as_action (ContractSnapshot.action value) = ok value
as_action _ = err tt

abbrev pub as_receipt : ContractSnapshot → Consistent ExecutionReceipt
as_receipt (ContractSnapshot.execution_receipt value) = ok value
as_receipt _ = err tt

-- `receipt_matches_attempt`
unfoldable pub receipt_matches_attempt : ExecutionReceipt → Reservation → Attempt → Bool
receipt_matches_attempt receipt reservation attempt =
    receipt.action_ref == reservation.action_ref
    && receipt.permit_id == attempt.permit_id
    && receipt.authorization_id == attempt.authorization.authorization_id
    && receipt.provider_ref == attempt.request.provider_ref
    && receipt.owner_ref == attempt.request.owner_ref
    && receipt.dispatch_nonce == attempt.request.dispatch_nonce
    && receipt.attempt == attempt.attempt
    && receipt.idempotency_key == reservation.idempotency_key

-- The test on an action that needs no authorization, against its decision's boundary.
unfoldable pub exceeds : ActionContract → AuthorizationBoundary → Bool
exceeds a boundary =
    ltb (rank boundary.maximum_automatic_impact) (rank a.impact_level)
    || boundary.user_confirmation_required
    || contains boundary.prohibited_automatic_operations a.operation_ref

-- `.iter().all(|required| action.required_authority_refs().contains(required))`
abbrev pub requires_all : ActionContract → AuthorizationBoundary → Bool
requires_all a boundary = all (contains a.required_authority_refs) boundary.required_authority_refs

-- Another receipt of the same attempt.
abbrev pub is_receipt_of : ExecutionReceipt → ContractSnapshot → Bool
is_receipt_of receipt (ContractSnapshot.execution_receipt previous) =
    previous.action_ref == receipt.action_ref && previous.attempt == receipt.attempt
is_receipt_of receipt _ = false

abbrev pub is_open : ReservationStatus → Bool
is_open status = status == dispatched || status == reconciliation_required

abbrev pub is_failure : ExecutionState → Bool
is_failure ExecutionState.failed = true
is_failure ExecutionState.rejected = true
is_failure _ = false

-- `attempt.receipt_ref.as_ref() == receipt.record_ref().ok().as_ref()`
abbrev pub has_receipt : Codec → Attempt → ExecutionReceipt → Bool
has_receipt codec attempt receipt = elim (Receipt.record_ref codec receipt) [
  | ok r ↦ attempt.receipt_ref == some r
  | err _ ↦ is_none attempt.receipt_ref
]

abbrev pub or_refuse : {A : Type 0} → Option A → Consistent A
or_refuse none = err tt
or_refuse (some value) = ok value

abbrev pub check_context : Metadata → ContractSnapshot → Consistent (Unit {0})
check_context m c = refuse_if (not (same_context m (metadata c)))

abbrev pub check_is_decision : ContractSnapshot → Consistent (Unit {0})
check_is_decision (ContractSnapshot.decision _) = ok tt
check_is_decision _ = err tt

unfoldable pub check_outcome_action : OutcomeRecord → ContractSnapshot → Consistent (Unit {0})
check_outcome_action o c = do
  a ← as_action c
  refuse_if (is_some o.decision_ref && a.decision_ref != o.decision_ref)

unfoldable pub check_outcome_receipt : OutcomeRecord → ContractSnapshot → Consistent (Unit {0})
check_outcome_receipt o c = do
  r ← as_receipt c
  action_ref ← or_refuse o.action_ref
  refuse_if (r.action_ref != action_ref)
  refuse_if (is_failure r.state && not (is_empty o.success_criteria_satisfied))

module _ (codec : Codec) (prior : List ContractSnapshot) where
  -- The closure `find`
  unfoldable pub find_record : ContractRef → Consistent ContractSnapshot
  find_record reference = found_any (record_of codec prior reference)

  -- The loops over the references of a plan and of a response.
  unfoldable pub check_shared : Metadata → ContractRef → Consistent (Unit {0})
  check_shared m reference = do
    source ← find_record reference
    refuse_if (not (same_context m (metadata source)))

  unfoldable pub check_decision : DecisionContract → Consistent (Unit {0})
  check_decision d = do
    c ← find_record d.intent_ref
    i ← as_intent c
    refuse_if (not (same_context d.metadata i.metadata))

  unfoldable pub check_action_decision : ActionContract → ContractRef → Consistent (Unit {0})
  check_action_decision a reference = do
    c ← find_record reference
    d ← as_decision c
    refuse_if
        (not (same_context a.metadata d.metadata) || not (requires_all a d.authorization_boundary))
    refuse_if (a.authorization_state == not_required && exceeds a d.authorization_boundary)

  -- The large test on a receipt.
  unfoldable pub inconsistent_receipt :
      ExecutionReceipt → ActionContract → Reservation → Attempt → Bool
  inconsistent_receipt receipt a reservation attempt =
      not (same_context receipt.metadata a.metadata)
      || receipt.idempotency_key != a.idempotency_key
      || receipt.request_parameter_digest != a.parameter_digest
      || not (
          is_open attempt.status || is_terminal attempt.status && has_receipt codec attempt receipt)
      || not (receipt_matches_attempt receipt reservation attempt)
      || is_none_or attempt.dispatched_at (λ dispatched_at. ltb receipt.started_at dispatched_at)
      || leb attempt.request.lease_until receipt.started_at
      || any (is_receipt_of receipt) prior

  unfoldable pub check_receipt : List Reservation → ExecutionReceipt → Consistent (Unit {0})
  check_receipt reservations receipt = do
    c ← find_record receipt.action_ref
    a ← as_action c
    reservation ←
        or_refuse (find (λ (r : Reservation). r.action_ref == receipt.action_ref) reservations)
    attempt ←
        or_refuse (find (λ (t : Attempt). t.permit_id == receipt.permit_id) reservation.attempts)
    refuse_if (inconsistent_receipt receipt a reservation attempt)

  -- `.map(|reference| find(reference).ok_or(())).transpose()?`
  unfoldable pub find_optional : Option ContractRef → Consistent (Option ContractSnapshot)
  find_optional none = ok none
  find_optional (some reference) = do c ← find_record reference; ok (some c)

  unfoldable pub check_outcome : OutcomeRecord → Consistent (Unit {0})
  check_outcome o = do
    d ← find_optional o.decision_ref
    a ← find_optional o.action_ref
    r ← find_optional o.execution_receipt_ref
    try_some (check_context o.metadata) d
    try_some (check_context o.metadata) a
    try_some (check_context o.metadata) r
    try_some check_is_decision d
    try_some (check_outcome_action o) a
    try_some (check_outcome_receipt o) r

-- `validate_cross_object_consistency`
unfoldable pub validate_cross_object_consistency :
    Codec → ContractSnapshot → List ContractSnapshot → List Reservation → Consistent (Unit {0})
validate_cross_object_consistency codec (ContractSnapshot.intent _) prior reservations = ok tt
validate_cross_object_consistency codec (ContractSnapshot.decision d) prior reservations =
    check_decision codec prior d
validate_cross_object_consistency codec (ContractSnapshot.turn_coordination p) prior reservations =
    try_each (check_shared codec prior p.metadata) (p.response_refs ++ p.action_refs)
validate_cross_object_consistency codec (ContractSnapshot.response r) prior reservations =
    try_each (check_shared codec prior r.metadata) r.source_contract_refs
validate_cross_object_consistency codec (ContractSnapshot.action a) prior reservations =
    try_some (check_action_decision codec prior a) a.decision_ref
validate_cross_object_consistency codec (ContractSnapshot.execution_receipt r) prior reservations =
    check_receipt codec prior reservations r
validate_cross_object_consistency codec (ContractSnapshot.outcome o) prior reservations =
    check_outcome codec prior o
validate_cross_object_consistency codec (ContractSnapshot.human_model_assertion _) prior
      reservations =
    ok tt
