-- ===== src/Store/Commit.antt =====
-- crates/idr-store/src/file_store.rs: what `commit_internal` does to the loaded snapshot.
pub mod Replay
pub mod Pointers
use idr.Base.{
  ℕ, Bool, false, true, ◌&&◌, ◌||◌, not, ◌==◌, ◌!=◌, List, [], ◌∷◌, ◌++◌, any, contains, Option,
  none, some, is_some, ok, err, deny, ok_or, map_err, try_each, ◌>>◌, ◌>>=◌,
}
use idr.Protocol.Digest.{Codec}
use idr.Protocol.Id.{kind_eq}
use idr.Protocol.ContractRef.{ContractRef, contract_ref_eq}
use idr.Protocol.Proof.{SignedProofEnvelope}
use idr.Store.Error.{
  Stored, stale_current_pointer, stale_dependency, cross_object_mismatch, corrupt_snapshot,
  verified_receipt_proof_required,
}
use idr.Store.Contract.{ContractSnapshot, metadata, is_named}
use idr.Store.Snapshot.{Snapshot, pointer_to, record_of, option_ref_eq}
use idr.Store.Consistency.{validate_cross_object_consistency}
use idr.Store.Invalidation.{invalidate_dependents, replace_pointer}
use idr.Store.History.{lineage_context_is_continuous, succeeds, begins}
use idr.Store.Receipts.{apply_execution_receipt_transition}

-- The proof of a receipt with the time of its verification.
abbrev pub ReceiptProof : Type 0
ReceiptProof = SignedProofEnvelope × ℕ

abbrev pub is_receipt : ContractSnapshot → Bool
is_receipt (ContractSnapshot.execution_receipt _) = true
is_receipt _ = false

-- The match on the previous pointer, and the test on its record.
unfoldable pub check_previous :
    Codec → Snapshot → ContractSnapshot → ContractRef → Option ContractRef → Stored (Unit {0})
check_previous codec s c reference none =
    deny (not (begins reference (metadata c))) stale_current_pointer
check_previous codec s c reference (some pointer) = do
  deny (not (pointer.kind == reference.kind && succeeds pointer reference (metadata c)))
      stale_current_pointer
  previous ← ok_or (record_of codec s.records pointer) corrupt_snapshot
  deny (not (lineage_context_is_continuous (metadata previous) (metadata c))) cross_object_mismatch

-- The body of the loop over the dependencies.
unfoldable pub check_current_dependency : Codec → Snapshot → ContractRef → Stored (Unit {0})
check_current_dependency codec s dependency =
    deny
      (pointer_to s.current_pointers dependency != some dependency
        || contains s.invalidated_refs dependency
        || not (any (is_named codec dependency) s.records))
      stale_dependency

-- `if let Some(previous) = &previous { invalidate_dependents(&mut candidate, previous)?; }`
abbrev pub supersede : Codec → Snapshot → Option ContractRef → Stored Snapshot
supersede codec s none = ok s
supersede codec s (some previous) = invalidate_dependents codec s previous

-- The transition of a receipt's attempt, where the contract is a receipt.
abbrev pub settle :
    Snapshot → ContractSnapshot → ContractRef → Option ReceiptProof → Stored Snapshot
settle s (ContractSnapshot.execution_receipt receipt) reference (some (envelope, verified_at)) =
    apply_execution_receipt_transition s receipt reference envelope verified_at
settle s (ContractSnapshot.execution_receipt receipt) reference none =
    err verified_receipt_proof_required
settle s _ reference proof = ok s

-- The tests on the loaded snapshot.
unfoldable pub check_commit : Codec → ContractSnapshot → ContractRef → Snapshot → Stored (Unit {0})
check_commit codec c reference s = do
  check_previous codec s c reference (pointer_to s.current_pointers reference)
  try_each (check_current_dependency codec s) (metadata c).dependency_refs
  map_err (λ _. cross_object_mismatch)
      (validate_cross_object_consistency codec c s.records s.execution_reservations)

-- The candidate, up to its seal.
unfoldable pub commit_candidate :
    Codec → ContractSnapshot → Option ReceiptProof → ContractRef → Snapshot → Stored Snapshot
commit_candidate codec c proof reference s = do
  check_commit codec c reference s
  superseded ← supersede codec s (pointer_to s.current_pointers reference)
  let recorded : Snapshot = record superseded { records = superseded.records ++ c ∷ [] }
  settled ← settle recorded c reference proof
  ok (record settled { current_pointers = replace_pointer settled.current_pointers reference })
