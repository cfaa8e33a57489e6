-- ===== src/Store/Permits.antt =====
-- crates/idr-store/src/file_store.rs: the durable state of an issued permit.
pub mod Lifecycle
use idr.Base.{
  ℕ, Bool, false, true, ◌||◌, not, ◌==◌, ◌!=◌, nat_eq, leb, if◌then◌else◌, List, find, last,
  map_first, map_last, Option, none, some, is_some, ok, err, deny, ok_or, ◌>>◌, ◌>>=◌,
}
use idr.Protocol.Reference.{Reference, reference_eq}
use idr.Protocol.Id.{Uuid, id_eq}
use idr.Protocol.ContractRef.{ContractRef, contract_ref_eq}
use idr.Store.Error.{
  StoreError, Stored, execution_permit_mismatch, execution_reservation_not_found, corrupt_snapshot,
  execution_action_invalidated, execution_lease_expired, invalid_execution_transition,
  execution_owner_mismatch, execution_requires_reconciliation,
}
use idr.Store.Snapshot.{
  ReservationStatus, permit_issued, delivered, dispatched, cancelled, reconciliation_required,
  expired, reservation_status_eq, Attempt, Reservation, Snapshot, ExecutionPermit,
  permit_request_eq, is_current,
}

-- `validate_permit_matches_attempt`
unfoldable pub validate_permit_matches_attempt :
    ExecutionPermit → Uuid → ContractRef → Attempt → Stored (Unit {0})
validate_permit_matches_attempt permit reservation_id action_ref t =
    deny
      (permit.reservation_id != reservation_id
        || permit.permit_id != t.permit_id
        || permit.proof_key_id != t.proof_key_id
        || permit.request != t.request
        || permit.request.action_ref != action_ref)
      execution_permit_mismatch

-- The lease, the proof or the authorization is over.
unfoldable pub is_over : ℕ → Attempt → Bool
is_over trusted_now t =
    leb t.request.lease_until trusted_now
    || leb t.proof_expires_at trusted_now
    || leb t.authorization.expires_at trusted_now

-- A candidate whose located attempt is changed.
unfoldable pub change_attempt : Uuid → (Attempt → Attempt) → Snapshot → Snapshot
change_attempt reservation_id f s = record s {
  execution_reservations =
      map_first (λ (r : Reservation). r.reservation_id == reservation_id)
        (λ (r : Reservation). record r { attempts = map_last f r.attempts })
        s.execution_reservations;
}

abbrev pub set_status : ReservationStatus → Attempt → Attempt
set_status status t = record t { status = status }

-- What an operation on a permit comes to: nothing to write, or a change of the attempt to be
-- written, with the error that is returned behind it.
pub data Change : Type 0 where
  unchanged : Change
  changed : (Attempt → Attempt) → Option StoreError → Change

-- `attempt.status = next` and the time of the step.
abbrev pub advance_to : ReservationStatus → ℕ → Stored Change
advance_to delivered trusted_now = ok (
    changed (λ (t : Attempt). record t { status = delivered; delivered_at = some trusted_now })
      none)
advance_to dispatched trusted_now = ok (
    changed (λ (t : Attempt). record t { status = dispatched; dispatched_at = some trusted_now })
      none)
advance_to _ trusted_now = err invalid_execution_transition

-- The branches of `transition_execution_permit` behind the tests on the permit.
unfoldable pub judge_transition :
    Bool → ℕ → ReservationStatus → ReservationStatus → Attempt → Stored Change
judge_transition action_is_current trusted_now expected next t =
    if not action_is_current
    then ok (
        changed
          (set_status (if is_some t.dispatched_at then reconciliation_required else cancelled))
          (some execution_action_invalidated))
    else if is_over trusted_now t
    then ok (changed (set_status expired) (some execution_lease_expired))
    else if t.status == next
    then ok unchanged
    else if t.status != expected
    then err invalid_execution_transition
    else advance_to next trusted_now

-- The reservation and the attempt that an operation is about.
unfoldable pub locate : (Reservation → Bool) → Snapshot → Stored (Reservation × Attempt)
locate p s = do
  r ← ok_or (find p s.execution_reservations) execution_reservation_not_found
  t ← ok_or (last r.attempts) corrupt_snapshot
  ok (r, t)

-- `transition_execution_permit` on the loaded snapshot.
unfoldable pub permit_transition :
    ExecutionPermit
    → ReservationStatus
    → ReservationStatus
    → ℕ
    → Snapshot
    → Stored (Reservation × Change)
permit_transition permit expected next trusted_now s = do
  (r, t) ← locate (λ (r : Reservation). r.reservation_id == permit.reservation_id) s
  validate_permit_matches_attempt permit r.reservation_id r.action_ref t
  change ← judge_transition (is_current s r.action_ref) trusted_now expected next t
  ok (r, change)

abbrev pub is_recoverable : ReservationStatus → Bool
is_recoverable permit_issued = true
is_recoverable delivered = true
is_recoverable _ = false

-- The permit that `recover_execution_permit` rebuilds.
abbrev pub recovered_permit : Reservation → Attempt → ExecutionPermit
recovered_permit r t = record {
  reservation_id = r.reservation_id;
  permit_id = t.permit_id;
  proof_key_id = t.proof_key_id;
  proof_verified_at = t.consumed_at;
  issued_at = t.consumed_at;
  request = t.request;
}

-- `recover_execution_permit` on the loaded snapshot.
unfoldable pub permit_recovery :
    ContractRef → Reference → ℕ → Snapshot → Stored (Reservation × Attempt × Change)
permit_recovery action_ref owner_ref trusted_now s = do
  (r, t) ← locate (λ (r : Reservation). r.action_ref == action_ref) s
  deny (t.request.owner_ref != owner_ref) execution_owner_mismatch
  deny (not (is_recoverable t.status)) execution_requires_reconciliation
  ok (
    r,
    t,
    if is_over trusted_now t
        then changed (set_status expired) (some execution_lease_expired)
        else unchanged,
  )
