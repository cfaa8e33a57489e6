-- ===== src/Store/Sealing.antt =====
-- crates/idr-store/src/file_store.rs: the digest chain of the snapshots.
use idr.Base.{
  ℕ, ltb, Bool, nat_eq, if◌then◌else◌, List, Option, none, some, ok, ok_or, ◌>>=◌, [], checked_add,
  u64_max, Text, String,
}
use idr.Protocol.ContractRef.{ContractRef}
use idr.Protocol.Digest.{Codec, valid_digest}
use idr.Store.Error.{Stored, serialization, sequence_overflow}
use idr.Store.Contract.{ContractSnapshot}
use idr.Store.Snapshot.{Reservation, Snapshot}

-- `valid_store_digest`, which tests what `valid_digest` of the protocol tests.
abbrev pub valid_store_digest : Text → Bool
valid_store_digest value = valid_digest value

abbrev pub SealInput : Type 0
SealInput =
    String
    × ℕ
    × Option Text
    × List ContractSnapshot
    × List ContractRef
    × List ContractRef
    × List Reservation

abbrev pub seal_input : Snapshot → SealInput
seal_input s = (
  "idr-store-snapshot-v3", s.sequence, s.previous_snapshot_digest, s.records, s.current_pointers,
  s.invalidated_refs, s.execution_reservations,
)

-- `compute_snapshot_digest`
unfoldable pub compute_snapshot_digest : Codec → Snapshot → Stored Text
compute_snapshot_digest codec s = do
  bytes ← ok_or (codec.to_vec (seal_input s)) serialization
  ok (codec.sha256_hex bytes)

-- The snapshot's place in the chain, before its digest is set.
abbrev pub chained : Snapshot → ℕ → Snapshot → Snapshot
chained candidate sequence previous = record candidate {
  sequence = sequence;
  previous_snapshot_digest =
      if ltb 0 previous.sequence then some previous.snapshot_digest else none;
  snapshot_digest = [];
}

-- `seal_next_snapshot`
unfoldable pub seal_next_snapshot : Codec → Snapshot → Snapshot → Stored Snapshot
seal_next_snapshot codec candidate previous = do
  sequence ← ok_or (checked_add u64_max previous.sequence 1) sequence_overflow
  digest ← compute_snapshot_digest codec (chained candidate sequence previous)
  ok (record (chained candidate sequence previous) { snapshot_digest = digest })
