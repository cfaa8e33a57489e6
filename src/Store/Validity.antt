-- ===== src/Store/Validity.antt =====
-- crates/idr-store/src/file_store.rs: `validate_snapshot`.
pub mod Reservations
use idr.Base.{
  ℕ, suc, ◌+◌, zero, Bool, false, true, ◌&&◌, ◌||◌, not, ◌==◌, ◌!=◌, nat_eq, ltb, leb,
  if◌then◌else◌, List, [], ◌∷◌, ◌++◌, is_empty, length, any, contains, index_of, find, filter,
  Option, none, some, is_some, is_none_or, is_some_and, is_err, ok, err, deny, try_each, ◌>>◌,
  ◌>>=◌, Text, text_eq, Eq,
}
use idr.Protocol.Id.{Uuid, kind_eq, id_eq}
use idr.Protocol.Digest.{Codec}
use idr.Protocol.ContractRef
use idr.Protocol.ContractRef.{ContractRef, contract_ref_eq, ContractRef-discrete}
use idr.Protocol.Metadata.{Metadata}
use idr.Store.Error.{Stored, lift, corrupt_snapshot}
use idr.Store.Contract
use idr.Store.Contract.{ContractSnapshot, metadata, record_ref}
use idr.Store.Snapshot.{Snapshot, Reservation, same_contract, pointer_to, option_ref_eq}
use idr.Store.Consistency.{validate_cross_object_consistency}
use idr.Store.History.{replay_history}
use idr.Store.Sealing.{valid_store_digest, compute_snapshot_digest}
use idr.Store.Validity.Reservations.{validate_reservations}

abbrev pub is_empty_state : Snapshot → Bool
is_empty_state s =
    is_empty s.records
    && is_empty s.current_pointers
    && is_empty s.invalidated_refs
    && is_empty s.execution_reservations

-- The tests on an initial snapshot and on a sealed one; a `||` with a `?` in it returns its left
-- side first.
unfoldable pub check_initial : Snapshot → Stored (Unit {0})
check_initial s =
    deny
      (not (is_empty_state s)
        || is_some s.previous_snapshot_digest
        || not (is_empty s.snapshot_digest))
      corrupt_snapshot

unfoldable pub check_sealed : Codec → Snapshot → Stored (Unit {0})
check_sealed codec s = do
  deny
      (not (valid_store_digest s.snapshot_digest)
        || is_some_and s.previous_snapshot_digest (λ digest. not (valid_store_digest digest)))
      corrupt_snapshot
  computed ← compute_snapshot_digest codec s
  deny (computed != s.snapshot_digest) corrupt_snapshot

unfoldable pub check_seal : Codec → Snapshot → Stored (Unit {0})
check_seal codec s = if s.sequence == 0 then check_initial s else check_sealed codec s

-- Two references name the same revision of a contract: they have one `revision_key`.
abbrev pub same_revision : ContractRef → ContractRef → Bool
same_revision a b = same_contract a b && a.revision == b.revision

-- The first loop over the records: their references in order, which are the keys of
-- `record_refs` and of `record_positions`.
unfoldable pub collect_refs :
    Codec → List ContractSnapshot → List ContractRef → Stored (List ContractRef)
collect_refs codec [] refs = ok refs
collect_refs codec (c ∷ cs) refs = do
  lift (Contract.validate codec c)
  reference ← lift (record_ref codec c)
  deny (contains refs reference || any (same_revision reference) refs) corrupt_snapshot
  collect_refs codec cs (refs ++ reference ∷ [])

-- `record_positions.get(reference).is_none_or(|p| *p >= position)`
abbrev pub is_not_before : List ContractRef → ℕ → ContractRef → Bool
is_not_before refs position reference =
    is_none_or (index_of refs reference) (λ earlier. leb position earlier)

-- The tests on the predecessor and on the dependencies of the record at a position.
unfoldable pub misplaced : List ContractRef → ℕ → ContractRef → Metadata → Bool
misplaced refs position reference m =
    is_some_and m.predecessor_ref
      (λ predecessor. predecessor.kind != reference.kind || is_not_before refs position predecessor)
    || any (is_not_before refs position) m.dependency_refs

-- The map `latest_refs`, whose keys are read off its values.
unfoldable pub insert_latest : List ContractRef → ContractRef → List ContractRef
insert_latest latest reference =
    if is_some_and (pointer_to latest reference) (λ l. leb reference.revision l.revision)
    then latest
    else filter (λ l. not (same_contract l reference)) latest ++ reference ∷ []

-- The second loop over the records; `prior` are those before the position.
unfoldable pub check_records :
    Codec
    → List ContractRef
    → List Reservation
    → List ContractSnapshot
    → List ContractSnapshot
    → List ContractRef
    → Stored (List ContractRef)
check_records codec refs reservations prior [] latest = ok latest
check_records codec refs reservations prior (c ∷ cs) latest = do
  reference ← lift (record_ref codec c)
  deny (misplaced refs (length prior) reference (metadata c)) corrupt_snapshot
  deny (is_err (validate_cross_object_consistency codec c prior reservations)) corrupt_snapshot
  check_records codec refs reservations (prior ++ c ∷ []) cs (insert_latest latest reference)

-- The loop over the pointers: those seen, whose keys are `current_ids`.
unfoldable pub check_pointers :
    List ContractRef → List ContractRef → List ContractRef → List ContractRef → Stored ℕ
check_pointers refs latest [] seen = ok (length seen)
check_pointers refs latest (pointer ∷ pointers) seen = do
  lift (ContractRef.validate pointer)
  deny
      (not (contains refs pointer)
        || any (same_contract pointer) seen
        || pointer_to latest pointer != some pointer)
      corrupt_snapshot
  check_pointers refs latest pointers (pointer ∷ seen)

unfoldable pub check_invalidated : List ContractRef → ContractRef → Stored (Unit {0})
check_invalidated refs reference = do
  lift (ContractRef.validate reference)
  deny (not (contains refs reference)) corrupt_snapshot

unfoldable pub ListRef-discrete : Discrete (List ContractRef)
ListRef-discrete = hlevel ContractRef-discrete

instance abbrev pub list_ref_eq : Eq (List ContractRef)
list_ref_eq = record { dec = ListRef-discrete }

-- The comparison with the replayed history.
unfoldable pub check_replay : Codec → Snapshot → Stored (Unit {0})
check_replay codec s = do
  replayed ← replay_history codec s.records
  deny
      (replayed.current_pointers != s.current_pointers
        || replayed.invalidated_refs != s.invalidated_refs)
      corrupt_snapshot

-- `validate_snapshot`
unfoldable pub validate_snapshot : Codec → (Uuid → Text) → Snapshot → Stored (Unit {0})
validate_snapshot codec hyphenated s = do
  check_seal codec s
  refs ← collect_refs codec s.records []
  latest ← check_records codec refs s.execution_reservations [] s.records []
  current ← check_pointers refs latest s.current_pointers []
  deny (current != length latest) corrupt_snapshot
  try_each (check_invalidated refs) s.invalidated_refs
  check_replay codec s
  validate_reservations codec hyphenated s
