-- ===== src/Store/Operations.antt =====
-- crates/idr-store/src/file_store.rs: the operations of `FileHumanCenteredContractStoreV1`.
pub mod Leaves
pub mod Idle
pub mod Sequels
pub mod Refined
use idr.Base.{
  ℕ, Bool, false, true, ◌&&◌, ◌==◌, ◌differs◌, if◌then◌else◌, List, length, any, contains, find,
  Option, none, some, is_some, ok, err, ok_or, Text,
}
use idr.Protocol.Reference.{Reference}
use idr.Protocol.Id.{Uuid, ContractKind, ContractId, kind_eq, id_eq}
use idr.Protocol.Digest.{Codec}
use idr.Protocol.ContractRef.{ContractRef, contract_ref_eq}
use idr.Protocol.Permit.{VerifiedPermitRequest}
use idr.Protocol.Receipt.Attested.{VerifiedReceipt, into_parts}
use idr.Store.Error.{
  StoreError, Stored, lift, verified_receipt_proof_required, trusted_clock_unavailable,
}
use idr.Store.Contract
use idr.Store.Contract.{ContractSnapshot, record_ref, is_named}
use idr.Store.Snapshot.{
  Snapshot, ExecutionPermit, ReservationStatus, permit_issued, delivered, dispatched, record_of,
}
use idr.Store.Sealing.{seal_next_snapshot}
use idr.Store.Validity.{validate_snapshot}
use idr.Store.Anchors.{Format}
use idr.Store.Machine.{Store, Effect, ◌>>=◌, ◌>>◌, pure, raise, from, refuse, set_cached}
use idr.Store.Files.{persist_snapshot, refresh}
use idr.Store.Reserve.{reserve, issued_permit}
use idr.Store.Receipts.{validate_receipt_proof_at}
use idr.Store.Commit.{ReceiptProof, is_receipt, commit_candidate}
use idr.Store.Permits.{
  Change, unchanged, changed, change_attempt, permit_transition, permit_recovery, recovered_permit,
}

pub data CommitOutcome : Type 0 where
  committed : ContractRef → CommitOutcome
  already_committed : ContractRef → CommitOutcome

-- The error that an operation returns behind its write.
abbrev pub report : Option StoreError → Effect (Unit {0})
report none = pure tt
report (some e) = raise e

-- The test of `load_current`.
abbrev pub is_pointer : ContractKind → ContractId → ContractRef → Bool
is_pointer kind contract_id pointer = pointer.kind == kind && pointer.contract_id == contract_id

-- What the operations call and this repository does not hold: `format` reads and writes the files,
-- `hyphenated` prints a UUID, `clock` is what `TrustedClockV1::now` returns.
module _ (format : Format) (codec : Codec) (hyphenated : Uuid → Text) (clock : Option ℕ) where
  unfoldable pub now : Effect ℕ
  now = from (ok_or clock trusted_clock_unavailable)

  -- The end of every operation that writes: seal, validate, persist, and keep the candidate.
  unfoldable pub store_candidate : Snapshot → Snapshot → Effect (Unit {0})
  store_candidate current candidate = do
    sealed ← from (seal_next_snapshot codec candidate current)
    from (validate_snapshot codec hyphenated sealed)
    persist_snapshot format sealed
    set_cached sealed

  unfoldable pub check_proof : ContractSnapshot → Option ReceiptProof → Effect (Unit {0})
  check_proof c none = pure tt
  check_proof (ContractSnapshot.execution_receipt receipt) (some (envelope, verified_at)) = do
    trusted_now ← now
    from (validate_receipt_proof_at codec hyphenated receipt envelope verified_at trusted_now)
  check_proof c (some proof) = raise verified_receipt_proof_required

  unfoldable pub commit_new :
      ContractSnapshot → Option ReceiptProof → ContractRef → Snapshot → Effect CommitOutcome
  commit_new c proof reference current = do
    candidate ← from (commit_candidate codec c proof reference current)
    store_candidate current candidate
    pure (committed reference)

  -- `commit_internal`
  unfoldable pub commit_internal : ContractSnapshot → Option ReceiptProof → Effect CommitOutcome
  commit_internal c proof = do
    refuse (is_receipt c differs is_some proof) verified_receipt_proof_required
    from (lift (Contract.validate codec c))
    reference ← from (lift (record_ref codec c))
    current ← refresh format codec hyphenated
    check_proof c proof
    if any (is_named codec reference) current.records
        then pure (already_committed reference)
        else commit_new c proof reference current

  -- `commit`
  unfoldable pub commit : ContractSnapshot → Effect CommitOutcome
  commit c = do refuse (is_receipt c) verified_receipt_proof_required; commit_internal c none

  -- `commit_execution_receipt`
  unfoldable pub commit_execution_receipt : VerifiedReceipt → Effect CommitOutcome
  commit_execution_receipt v =
      let (receipt, envelope, verified_at) = into_parts v in
      commit_internal (ContractSnapshot.execution_receipt receipt) (some (envelope, verified_at))

  -- `issue_execution_permit`; `minted` is what `Uuid::new_v4` returns.
  unfoldable pub issue_execution_permit : Uuid → VerifiedPermitRequest → Effect ExecutionPermit
  issue_execution_permit minted v = do
    current ← refresh format codec hyphenated
    trusted_now ← now
    (candidate, reservation_id) ← from (reserve codec minted v trusted_now current)
    store_candidate current candidate
    pure (issued_permit v trusted_now reservation_id)

  -- The write of a change, and the error behind it.
  unfoldable pub apply_change : Snapshot → Uuid → Change → Effect (Unit {0})
  apply_change current reservation_id unchanged = pure tt
  apply_change current reservation_id (changed f error) = do
    store_candidate current (change_attempt reservation_id f current)
    report error

  -- `transition_execution_permit`
  unfoldable pub transition_execution_permit :
      ExecutionPermit → ReservationStatus → ReservationStatus → Effect (Unit {0})
  transition_execution_permit permit expected next = do
    current ← refresh format codec hyphenated
    trusted_now ← now
    (r, change) ← from (permit_transition permit expected next trusted_now current)
    apply_change current r.reservation_id change

  unfoldable pub mark_execution_permit_delivered : ExecutionPermit → Effect (Unit {0})
  mark_execution_permit_delivered permit =
      transition_execution_permit permit permit_issued delivered

  unfoldable pub mark_execution_dispatched : ExecutionPermit → Effect (Unit {0})
  mark_execution_dispatched permit = transition_execution_permit permit delivered dispatched

  -- `recover_execution_permit`
  unfoldable pub recover_execution_permit : ContractRef → Reference → Effect ExecutionPermit
  recover_execution_permit action_ref owner_ref = do
    current ← refresh format codec hyphenated
    trusted_now ← now
    (r, t, change) ← from (permit_recovery action_ref owner_ref trusted_now current)
    apply_change current r.reservation_id change
    pure (recovered_permit r t)

  abbrev pub current_record : Snapshot → Option ContractRef → Option ContractSnapshot
  current_record s none = none
  current_record s (some reference) =
      if contains s.invalidated_refs reference then none else record_of codec s.records reference

  -- `load_current`
  unfoldable pub load_current : ContractKind → ContractId → Effect (Option ContractSnapshot)
  load_current kind contract_id = do
    current ← refresh format codec hyphenated
    pure (current_record current (find (is_pointer kind contract_id) current.current_pointers))

  -- `is_invalidated`
  unfoldable pub is_invalidated : ContractRef → Effect Bool
  is_invalidated reference = do
    current ← refresh format codec hyphenated
    pure (contains current.invalidated_refs reference)

  -- `revision_count`
  unfoldable pub revision_count : Effect ℕ
  revision_count = do current ← refresh format codec hyphenated; pure (length current.records)
