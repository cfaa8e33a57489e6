-- ===== src/Store/Operations/Idle.antt =====
-- When an operation of crates/idr-store/src/file_store.rs succeeds without a write.
use idr.Base.{
  ℕ, ◌≡◌, inl, inr, any, true, ◌⊎◌, ◌==◌, nat_eq, Elem, last, find, find-some, some, ok, arith,
  Option-cases,
}
use idr.Protocol.Reference.{Reference, reference_eq}
use idr.Protocol.Id.{id_eq, kind_eq}
use idr.Protocol.Digest.{Codec}
use idr.Protocol.ContractRef.{ContractRef, contract_ref_eq}
use idr.Store.Contract.{ContractSnapshot, record_ref, is_named}
use idr.Store.Snapshot.{
  Snapshot, Reservation, Attempt, reservation_status_eq, permit_request_eq, ExecutionPermit,
  ReservationStatus, permit_issued, delivered,
}
use idr.Store.Permits.{
  Change, unchanged, locate, judge_transition, validate_permit_matches_attempt, permit_transition,
  permit_recovery, recovered_permit,
}
use idr.Store.Operations
use idr.Store.Operations.{CommitOutcome}

-- The contract is in the snapshot, and the result says so.
unfoldable pub AlreadyRecorded : Codec → ContractSnapshot → Snapshot → CommitOutcome → Type 0
AlreadyRecorded codec c s outcome =
    (reference : ContractRef) × (record_ref codec c ≡ ok reference)
    × (outcome ≡ Operations.already_committed reference)
    × (any (is_named codec reference) s.records ≡ true)

-- No permit is issued without a write.
abbrev pub NotIssued : Snapshot → ExecutionPermit → Type 0
NotIssued s permit = ⊥

-- The last attempt of the permit's reservation has this status.
pub AlreadyMarked : ExecutionPermit → ReservationStatus → Snapshot → Unit {0} → Type 0
AlreadyMarked permit to s done =
    (r : Reservation) × (t : Attempt) × Elem r s.execution_reservations
    × (r.reservation_id ≡ permit.reservation_id)
    × (last r.attempts ≡ some t)
    × (t.permit_id ≡ permit.permit_id)
    × (t.status ≡ to)

-- The permit is that of the last attempt of a reservation of the action, which is the owner's and
-- was not dispatched.
pub Recoverable : ContractRef → Reference → Snapshot → ExecutionPermit → Type 0
Recoverable action_ref owner_ref s permit =
    (r : Reservation) × (t : Attempt) × Elem r s.execution_reservations
    × (r.action_ref ≡ action_ref)
    × (last r.attempts ≡ some t)
    × (t.request.owner_ref ≡ owner_ref)
    × ((t.status ≡ permit_issued) ⊎ (t.status ≡ delivered))
    × (permit ≡ recovered_permit r t)

pub marked :
    (s : Snapshot) (permit : ExecutionPermit) (expected to : ReservationStatus) (now : ℕ)
    (r : Reservation) (change : Change)
    → permit_transition permit expected to now s ≡ ok (r, change)
    → change ≡ unchanged
    → AlreadyMarked permit to s tt
unfolding AlreadyMarked permit_transition locate judge_transition validate_permit_matches_attempt
marked s permit expected to now r change h k =
    let p = λ (x : Reservation). x.reservation_id == permit.reservation_id in
    elim (Option-cases (find p s.execution_reservations)) [
      | inl e ↦ absurd (ground arith)
      | inr (x, e) ↦ elim (Option-cases (last x.attempts)) [
        | inl l ↦ absurd (ground arith)
        | inr (t, l) ↦
            let (m, named) = find-some p x s.execution_reservations e in
            (x, t, m, ground arith, l, ground arith, ground arith)
      ]
    ]

pub recoverable :
    (s : Snapshot) (action_ref : ContractRef) (owner_ref : Reference) (now : ℕ) (r : Reservation)
    (t : Attempt) (change : Change)
    → permit_recovery action_ref owner_ref now s ≡ ok (r, t, change)
    → Recoverable action_ref owner_ref s (recovered_permit r t)
unfolding Recoverable permit_recovery locate
recoverable s action_ref owner_ref now r t change h =
    let p = λ (x : Reservation). x.action_ref == action_ref in
    elim (Option-cases (find p s.execution_reservations)) [
      | inl e ↦ absurd (ground arith)
      | inr (x, e) ↦ elim (Option-cases (last x.attempts)) [
        | inl l ↦ absurd (ground arith)
        | inr (y, l) ↦
            let (m, named) = find-some p x s.execution_reservations e in
            (x, y, m, ground arith, l, ground arith, ground arith, ground arith)
      ]
    ]
