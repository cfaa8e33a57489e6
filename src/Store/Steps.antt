-- ===== src/Store/Steps.antt =====
-- The steps of the stored snapshot: what each operation of file_store.rs that writes makes of the
-- snapshot that it has loaded.
pub mod Replayed
pub mod InFlight
pub mod Withdrawn
pub mod Committed
pub mod Issued
pub mod Moved
pub mod Fates
pub mod Current
use idr.Base.{◌≡◌, ok, Option, Text, ℕ}
use idr.Protocol.Reference.{Reference}
use idr.Protocol.Id.{Uuid}
use idr.Protocol.Digest.{Codec}
use idr.Protocol.ContractRef.{ContractRef}
use idr.Protocol.Permit.{VerifiedPermitRequest}
use idr.Store.Error.{StoreError}
use idr.Store.Contract.{ContractSnapshot, record_ref}
use idr.Store.Snapshot.{
  Snapshot, default_snapshot, ReservationStatus, permit_issued, delivered, dispatched, Attempt,
  Reservation, ExecutionPermit,
}
use idr.Store.Sealing.{seal_next_snapshot}
use idr.Store.Reserve.{reserve}
use idr.Store.Commit.{ReceiptProof, commit_candidate}
use idr.Store.Permits.{Change, changed, change_attempt, permit_transition, permit_recovery}

-- The two marks that an owner puts on its permit: the states before and after.
pub data Marks (expected to : ReservationStatus) : Type 0 where
  delivery : expected ≡ permit_issued → to ≡ delivered → Marks expected to
  dispatch : expected ≡ delivered → to ≡ dispatched → Marks expected to

module _ (codec : Codec) where
  -- From the loaded snapshot to the candidate, before its seal.
  pub data Candidate (s : Snapshot) : Snapshot → Type 0 where
    commit :
        {u : Snapshot} (c : ContractSnapshot) (proof : Option ReceiptProof)
        (reference : ContractRef)
        → record_ref codec c ≡ ok reference
        → commit_candidate codec c proof reference s ≡ ok u
        → Candidate s u
    issue :
        {u : Snapshot} (minted : Uuid) (v : VerifiedPermitRequest) (trusted_now : ℕ) (id : Uuid)
        → reserve codec minted v trusted_now s ≡ ok (u, id)
        → Candidate s u
    transition :
        {u : Snapshot} (permit : ExecutionPermit) (expected to : ReservationStatus)
        (trusted_now : ℕ) (r : Reservation) (f : Attempt → Attempt) (error : Option StoreError)
        → Marks expected to
        → permit_transition permit expected to trusted_now s ≡ ok (r, changed f error)
        → u ≡ change_attempt r.reservation_id f s
        → Candidate s u
    recovery :
        {u : Snapshot} (action_ref : ContractRef) (owner_ref : Reference) (trusted_now : ℕ)
        (r : Reservation) (t : Attempt) (f : Attempt → Attempt) (error : Option StoreError)
        → permit_recovery action_ref owner_ref trusted_now s ≡ ok (r, t, changed f error)
        → u ≡ change_attempt r.reservation_id f s
        → Candidate s u

  pub data Step (s s' : Snapshot) : Type 0 where
    seal : (u : Snapshot) → Candidate s u → seal_next_snapshot codec u s ≡ ok s' → Step s s'

  -- The snapshots that a store can come to from an empty one.
  pub data Reachable : Snapshot → Type 0 where
    empty : {s : Snapshot} → s ≡ default_snapshot → Reachable s
    next : {s s' : Snapshot} → Reachable s → Step s s' → Reachable s'
