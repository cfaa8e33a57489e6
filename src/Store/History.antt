-- ===== src/Store/History.antt =====
-- crates/idr-store/src/file_store.rs: `replay_history`, the pointers and the invalidated references
-- that a history of records leads to.
use idr.Base.{
  Bool, ◌&&◌, ◌==◌, nat_eq, List, [], ◌∷◌, ◌++◌, Option, none, some, is_none, ok, deny, ok_or, not,
  ◌>>◌, ◌>>=◌,
}
use idr.Protocol.Reference.{authority_context_eq}
use idr.Protocol.Id.{id_eq}
use idr.Protocol.Digest.{Codec}
use idr.Protocol.ContractRef.{ContractRef, contract_ref_eq}
use idr.Protocol.Metadata.{Metadata, follows}
use idr.Store.Error.{Stored, lift, corrupt_snapshot}
use idr.Store.Contract.{ContractSnapshot, metadata, record_ref}
use idr.Store.Snapshot.{Snapshot, default_snapshot, pointer_to, record_of, option_ref_eq}
use idr.Store.Invalidation.{invalidate_dependents, replace_pointer}

-- `lineage_context_is_continuous`
unfoldable pub lineage_context_is_continuous : Metadata → Metadata → Bool
lineage_context_is_continuous previous next =
    previous.run_id == next.run_id
    && previous.turn_id == next.turn_id
    && previous.authority_context == next.authority_context

-- The revision that follows a pointer's, with that pointer as its predecessor.
abbrev pub succeeds : ContractRef → ContractRef → Metadata → Bool
succeeds pointer reference m =
    follows pointer.revision reference.revision && m.predecessor_ref == some pointer

-- A first revision, without a predecessor.
abbrev pub begins : ContractRef → Metadata → Bool
begins reference m = reference.revision == 1 && is_none m.predecessor_ref

-- The match on the previous pointer.
unfoldable pub replay_previous :
    Codec → Snapshot → ContractSnapshot → ContractRef → Option ContractRef → Stored Snapshot
replay_previous codec s c reference none = do
  deny (not (begins reference (metadata c))) corrupt_snapshot
  ok s
replay_previous codec s c reference (some pointer) = do
  deny (not (succeeds pointer reference (metadata c))) corrupt_snapshot
  previous ← ok_or (record_of codec s.records pointer) corrupt_snapshot
  deny (not (lineage_context_is_continuous (metadata previous) (metadata c))) corrupt_snapshot
  invalidate_dependents codec s pointer

-- The body of the loop.
unfoldable pub replay_record : Codec → Snapshot → ContractSnapshot → Stored Snapshot
replay_record codec s c = do
  reference ← lift (record_ref codec c)
  replayed ← replay_previous codec s c reference (pointer_to s.current_pointers reference)
  ok (record replayed {
    records = replayed.records ++ c ∷ [];
    current_pointers = replace_pointer replayed.current_pointers reference;
  })

unfoldable pub replay_from : Codec → Snapshot → List ContractSnapshot → Stored Snapshot
replay_from codec s [] = ok s
replay_from codec s (c ∷ cs) = replay_record codec s c >>= λ s'. replay_from codec s' cs

-- `replay_history`
unfoldable pub replay_history : Codec → List ContractSnapshot → Stored Snapshot
unfolding replay_from
replay_history codec records = replay_from codec default_snapshot records
