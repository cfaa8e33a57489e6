-- ===== src/Store/Permits/Lifecycle.antt =====
-- What a mark on a permit does to its attempt, on every branch.
use idr.Base.{
  ◌==◌, text_eq, nat_eq, ℕ, ◌+◌, ◌≤◌, ◌≡◌, ◌≢◌, true, false, none, some, ok, err, arith,
  if◌then◌else◌, u32_max,
}
use idr.Store.Error.{execution_lease_expired, invalid_execution_transition}
use idr.Store.Snapshot.{
  ReservationStatus, permit_issued, delivered, dispatched, expired, Attempt, reservation_status_eq,
}
use idr.Store.Reserve.{check_retry}
use idr.Store.Validity.Reservations.{mistimed}
use idr.Store.Permits.{unchanged, changed, set_status, judge_transition, is_over}

-- The marks of an owner on a permit for a current action whose lease, proof and authorization last:
-- an issued permit becomes delivered at that time, and a delivered one dispatched; marking either
-- again changes nothing; any other state is refused.
pub judge_transition-marks :
    (now : ℕ) (t : Attempt)
    → is_over now t ≡ false
    → (judge_transition true now permit_issued delivered t ≡ (
        if t.status == delivered
        then ok unchanged
        else if t.status == permit_issued
        then ok (
            changed
              (λ (x : Attempt). record x { status = delivered; delivered_at = some now })
              none)
        else err invalid_execution_transition))
      × (judge_transition true now delivered dispatched t ≡ (
          if t.status == dispatched
          then ok unchanged
          else if t.status == delivered
          then ok (
              changed
                (λ (x : Attempt). record x { status = dispatched; dispatched_at = some now })
                none)
          else err invalid_execution_transition))
unfolding judge_transition
judge_transition-marks now t h = (ground arith, ground arith)

-- A dispatched attempt, whose effect at the provider is not known, becomes expired by a further mark
-- on its permit once its lease is over, although the action is current; the snapshot with the
-- expired attempt passes the test on its times, and the next attempt is then allowed, where a
-- dispatched attempt allows none.
pub dispatched_expires :
    (now : ℕ) (expected to : ReservationStatus) (t : Attempt)
    → t.status ≡ dispatched
    → is_over now t ≡ true
    → mistimed t ≡ false
    → t.attempt + 1 ≤ u32_max
    → (judge_transition true now expected to t
        ≡ ok (changed (set_status expired) (some execution_lease_expired)))
      × (mistimed (set_status expired t) ≡ false)
      × (check_retry (t.attempt + 1) (set_status expired t) ≡ ok tt)
      × (check_retry (t.attempt + 1) t ≢ ok tt)
unfolding judge_transition mistimed check_retry
dispatched_expires now expected to t s o m n =
    (ground arith, ground arith, ground arith, λ h. ground arith)
