-- ===== src/Store/Files/Spared.antt =====
-- Loading of crates/idr-store/src/file_store.rs leaves the snapshot file alone.
use Prim.Native.Nat.{zero, suc}
use idr.Base.{
  ℕ, ◌≡◌, refl, ◌∙◌, Bool, List, Option, none, some, ok, err, arith, Text, Bool-cases, Option-cases,
  inl, inr, ltb, length,
}
use idr.Protocol.Id.{Uuid}
use idr.Protocol.Digest.{Codec}
use idr.Store.Error.{StoreError, Stored}
use idr.Store.Snapshot.{Snapshot}
use idr.Store.Anchors.{AnchorRecord, Verdict, anchored, append_needed, Format, committed}
use idr.Store.Machine.{
  Disk, Store, Effect, ◌>>=◌, ◌>>◌, pure, from, refuse, get_disk, set_cached, call, quiet, quiets,
  append, next_fault,
}
use idr.Store.Files.{
  acquire_store_lock, open_anchor, truncate_anchor, drop_torn, refuse_blank, append_anchor,
  read_file, read_snapshot, read_anchor_file, read_anchor_records, follow,
  validate_or_recover_anchor, load_snapshot, refresh,
}

-- An effect that leaves the snapshot file as it is, wherever the file system fails.
unfoldable pub Spares : {A : Type 0} → Effect A → Type 0
Spares m = (st : Store) → (m st).1.disk.snapshot_file ≡ st.disk.snapshot_file

bind-Spares :
    {A B : Type 0} (m : Effect A) (f : A → Effect B)
    → Spares m
    → ((a : A) → Spares (f a))
    → Spares (m >>= f)
unfolding Spares
bind-Spares {A} {B} m f k l st = behind (m st).0 (m st).1 (k st)
  where
    after : Stored A → Store → Stored B × Store
    after r x = elim r [ ok a ↦ f a x | err e ↦ (err e, x) ]

    behind :
        (r : Stored A) (x : Store)
        → x.disk.snapshot_file ≡ st.disk.snapshot_file
        → (after r x).1.disk.snapshot_file ≡ st.disk.snapshot_file
    behind (ok a) x h = l a x ∙ h
    behind (err e) x h = h

then-Spares :
    {B : Type 0} (m : Effect (Unit {0})) (n : Effect B) → Spares m → Spares n → Spares (m >> n)
then-Spares m n k l = bind-Spares m (λ _. n) k (λ _. l)

from-Spares : {A : Type 0} (r : Stored A) → Spares (from r)
unfolding Spares
from-Spares r st = refl

pure-Spares : {A : Type 0} (a : A) → Spares (pure a)
unfolding Spares
pure-Spares a st = refl

refuse-Spares : (b : Bool) (e : StoreError) → Spares (refuse b e)
unfolding Spares
refuse-Spares b e st = refl

get_disk-Spares : Spares get_disk
unfolding Spares
get_disk-Spares st = refl

set_cached-Spares : (s : Snapshot) → Spares (set_cached s)
unfolding Spares
set_cached-Spares s st = refl

call-Spares :
    (e : StoreError) (partial : ℕ → Disk → Disk) (whole : Disk → Disk)
    → ((n : ℕ) (x : Disk) → (partial n x).snapshot_file ≡ x.snapshot_file)
    → ((x : Disk) → (whole x).snapshot_file ≡ x.snapshot_file)
    → Spares (call e partial whole)
unfolding Spares call
call-Spares e partial whole h k st = elim (Option-cases (next_fault st.faults).0) [
  | inl whole_call ↦ ground (arith, k st.disk)
  | inr (n, fault) ↦ ground (arith, h n st.disk)
]

quiet-Spares : Spares quiet
unfolding quiet
quiet-Spares = call-Spares _ _ _ (λ n x. refl) (λ x. refl)

quiets-Spares : (n : ℕ) → Spares (quiets n)
unfolding quiets
quiets-Spares zero = pure-Spares tt
quiets-Spares (suc n) = then-Spares quiet (quiets n) quiet-Spares (quiets-Spares n)

append-Spares : (e : StoreError) (bytes : List ℕ) → Spares (append e bytes)
unfolding append
append-Spares e bytes = call-Spares _ _ _ (λ n x. refl) (λ x. refl)

open_anchor-Spares : Spares open_anchor
unfolding open_anchor
open_anchor-Spares = call-Spares _ _ _ (λ n x. refl) (λ x. refl)

truncate_anchor-Spares : Spares truncate_anchor
unfolding truncate_anchor
truncate_anchor-Spares = call-Spares _ _ _ (λ n x. refl) (λ x. refl)

ruleset spares = (
  bind-Spares, then-Spares, from-Spares, pure-Spares, refuse-Spares, get_disk-Spares,
  set_cached-Spares, quiet-Spares, quiets-Spares, append-Spares, open_anchor-Spares,
  truncate_anchor-Spares,
)

acquire_store_lock-Spares : Spares acquire_store_lock
unfolding acquire_store_lock
acquire_store_lock-Spares = quiets-Spares 3

drop_torn-Spares : (bytes : List ℕ) → Spares (drop_torn bytes)
unfolding drop_torn
drop_torn-Spares bytes = elim (Bool-cases (ltb (length (committed bytes)) (length bytes))) [
  | inl e ↦ rw e (search spares)
  | inr e ↦ rw e (search spares)
]

refuse_blank-Spares :
    (bytes : List ℕ) (anchors : List AnchorRecord) → Spares (refuse_blank bytes anchors)
unfolding refuse_blank
refuse_blank-Spares bytes anchors = refuse-Spares _ _

module _ (format : Format) where
  append_anchor-Spares : (s : Snapshot) → Spares (append_anchor format s)
  unfolding append_anchor
  append_anchor-Spares s = search spares

  read_file-Spares : (o : Option (List ℕ)) → Spares (read_file format o)
  unfolding read_file
  read_file-Spares none = pure-Spares _
  read_file-Spares (some bytes) = search spares

  read_anchor_file-Spares : (o : Option (List ℕ)) → Spares (read_anchor_file format o)
  unfolding read_anchor_file
  read_anchor_file-Spares none = pure-Spares _
  read_anchor_file-Spares (some bytes) =
      search (spares, drop_torn-Spares, refuse_blank-Spares) depth 14 fits 4000

  read_snapshot-Spares : Spares (read_snapshot format)
  unfolding read_snapshot
  read_snapshot-Spares =
      bind-Spares get_disk _ get_disk-Spares (λ disk. read_file-Spares disk.snapshot_file)

  read_anchor_records-Spares : Spares (read_anchor_records format)
  unfolding read_anchor_records
  read_anchor_records-Spares =
      bind-Spares get_disk _ get_disk-Spares (λ disk. read_anchor_file-Spares disk.anchor_file)

  follow-Spares : (s : Snapshot) (v : Verdict) → Spares (follow format s v)
  unfolding follow
  follow-Spares s anchored = pure-Spares tt
  follow-Spares s append_needed = append_anchor-Spares s

  validate_or_recover_anchor-Spares : (s : Snapshot) → Spares (validate_or_recover_anchor format s)
  unfolding validate_or_recover_anchor
  validate_or_recover_anchor-Spares s =
      search (spares, read_anchor_records-Spares, follow-Spares s) depth 14 fits 4000

  load_snapshot-Spares :
      (codec : Codec) (hyphenated : Uuid → Text) → Spares (load_snapshot format codec hyphenated)
  unfolding load_snapshot
  load_snapshot-Spares codec hyphenated =
      search (spares, read_snapshot-Spares, validate_or_recover_anchor-Spares) depth 14 fits 4000

  loads-Spares :
      (codec : Codec) (hyphenated : Uuid → Text)
      → Spares (
          acquire_store_lock
          >> (load_snapshot format codec hyphenated >>= λ s. (set_cached s >> pure s)))
  loads-Spares codec hyphenated =
      then-Spares acquire_store_lock
        (load_snapshot format codec hyphenated >>= λ s. (set_cached s >> pure s))
        acquire_store_lock-Spares
        (bind-Spares (load_snapshot format codec hyphenated) (λ s. set_cached s >> pure s)
          (load_snapshot-Spares codec hyphenated)
          (λ s. then-Spares (set_cached s) (pure s) (set_cached-Spares s) (pure-Spares s)))

  -- The start of an operation, whatever it returns.
  pub refresh-Spares :
      (codec : Codec) (hyphenated : Uuid → Text) → Spares (refresh format codec hyphenated)
  unfolding refresh Spares
  refresh-Spares codec hyphenated st = elim (Bool-cases st.poisoned) [
    | inl p ↦ ground arith
    | inr p ↦ ground (arith, loads-Spares codec hyphenated st)
  ]
