-- ===== src/Store/Files.antt =====
-- crates/idr-store/src/file_store.rs: reading and writing the snapshot file and the anchor file.
pub mod Cached
pub mod Spared
pub mod Torn
pub mod Written
pub mod Loads
pub mod Recovery
use idr.Base.{
  ℕ, Bool, false, true, ◌&&◌, not, ltb, if◌then◌else◌, List, [], ◌∷◌, length, is_empty, all, Option,
  none, some, ok, err, ok_or, Text,
}
use idr.Protocol.Id.{Uuid}
use idr.Protocol.Digest.{Codec}
use idr.Store.Error.{Stored, io, serialization, poisoned, corrupt_snapshot, corrupt_anchor}
use idr.Store.Snapshot.{Snapshot, default_snapshot}
use idr.Store.Validity.{validate_snapshot}
use idr.Store.Anchors.{
  AnchorRecord, anchor_of, Verdict, anchored, append_needed, judge_anchors, is_ascii_whitespace,
  committed, Format, committed_anchors, validate_anchor_chain,
}
use idr.Store.Machine.{
  Disk, Store, Effect, ◌>>=◌, ◌>>◌, pure, raise, from, refuse, get_disk, set_cached, call, quiet,
  quiets, append,
}

-- `acquire_store_lock`: the directory, the lock file and the lock. The lock is held to the end of
-- the operation.
unfoldable pub acquire_store_lock : Effect (Unit {0})
acquire_store_lock = quiets 3

-- `fs::rename(&temporary, path)`
unfoldable pub rename : List ℕ → Effect (Unit {0})
unfolding call
rename bytes = call io (λ n disk. disk) (λ disk. record disk { snapshot_file = some bytes })

-- Opening for append creates the file.
abbrev pub created : Option (List ℕ) → Option (List ℕ)
created none = some []
created (some bytes) = some bytes

unfoldable pub open_anchor : Effect (Unit {0})
unfolding call
open_anchor =
    call io (λ n disk. disk) (λ disk. record disk { anchor_file = created disk.anchor_file })

-- `file.set_len(committed_len)`
unfoldable pub truncate_anchor : Effect (Unit {0})
unfolding call
truncate_anchor =
    call io (λ n disk. disk)
      (λ disk. record disk {
        anchor_file = elim disk.anchor_file [ none ↦ none | some bytes ↦ some (committed bytes) ];
      })

-- What the end of `read_anchor_records` does with the bytes behind the last newline.
unfoldable pub drop_torn : List ℕ → Effect (Unit {0})
drop_torn bytes =
    if ltb (length (committed bytes)) (length bytes)
    then (do quiet; truncate_anchor; quiets 3)
    else pure tt

-- The last test of `read_anchor_records`: a file of blanks only.
unfoldable pub refuse_blank : List ℕ → List AnchorRecord → Effect (Unit {0})
refuse_blank bytes anchors =
    refuse
      (is_empty (committed bytes)
        && not (is_empty bytes)
        && is_empty anchors
        && all is_ascii_whitespace bytes)
      corrupt_anchor

module _ (format : Format) where
  -- `append_anchor`; `serde_json::to_writer` reports a failed write as its own error.
  unfoldable pub append_anchor : Snapshot → Effect (Unit {0})
  append_anchor s = do
    open_anchor
    bytes ← from (ok_or (format.anchor_bytes (anchor_of s)) serialization)
    append serialization bytes
    append io (10 ∷ [])
    quiets 3

  -- `persist_snapshot`; the temporary file is created, written and synced before the rename.
  unfoldable pub persist_snapshot : Snapshot → Effect (Unit {0})
  persist_snapshot s = do
    quiet
    bytes ← from (ok_or (format.snapshot_bytes s) serialization)
    quiets 3
    rename bytes
    quiets 2
    append_anchor s

  unfoldable pub parse_file : List ℕ → Stored Snapshot
  parse_file bytes =
      if is_empty bytes
      then err corrupt_snapshot
      else ok_or (format.parse_snapshot bytes) serialization

  unfoldable pub read_file : Option (List ℕ) → Effect Snapshot
  read_file none = pure default_snapshot
  read_file (some bytes) = do quiet; from (parse_file bytes)

  -- `read_snapshot`
  unfoldable pub read_snapshot : Effect Snapshot
  read_snapshot = do disk ← get_disk; read_file disk.snapshot_file

  unfoldable pub read_anchor_file : Option (List ℕ) → Effect (List AnchorRecord)
  read_anchor_file none = pure []
  read_anchor_file (some bytes) = do
    quiet
    anchors ← from (committed_anchors format bytes)
    drop_torn bytes
    refuse_blank bytes anchors
    pure anchors

  -- `read_anchor_records`
  unfoldable pub read_anchor_records : Effect (List AnchorRecord)
  read_anchor_records = do disk ← get_disk; read_anchor_file disk.anchor_file

  unfoldable pub follow : Snapshot → Verdict → Effect (Unit {0})
  follow s anchored = pure tt
  follow s append_needed = append_anchor s

  -- `validate_or_recover_anchor`
  unfoldable pub validate_or_recover_anchor : Snapshot → Effect (Unit {0})
  validate_or_recover_anchor s = do
    anchors ← read_anchor_records
    from (validate_anchor_chain anchors)
    verdict ← from (judge_anchors s anchors)
    follow s verdict

  module _ (codec : Codec) (hyphenated : Uuid → Text) where
    -- `load_snapshot`
    unfoldable pub load_snapshot : Effect Snapshot
    load_snapshot = do
      s ← read_snapshot
      from (validate_snapshot codec hyphenated s)
      validate_or_recover_anchor s
      pure s

    -- `open_with_clock`: the store that it returns has the loaded snapshot.
    unfoldable pub open_with_clock : Effect (Unit {0})
    open_with_clock = do acquire_store_lock; s ← load_snapshot; set_cached s

    -- The start of every operation: the mutex, the lock, and the snapshot read again.
    unfoldable pub refresh : Effect Snapshot
    refresh store =
        if store.poisoned
        then (err poisoned, store)
        else (do acquire_store_lock; s ← load_snapshot; set_cached s; pure s) store
