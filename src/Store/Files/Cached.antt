-- ===== src/Store/Files/Cached.antt =====
-- Reading and writing the files leaves the snapshot behind the mutex alone.
use Prim.Native.Nat.{zero, suc}
use idr.Base.{
  ℕ, ◌≡◌, refl, ◌∙◌, Bool, List, Option, none, some, ok, err, arith, Text, Bool-cases, inl, inr,
  ltb, length,
}
use idr.Protocol.Id.{Uuid}
use idr.Protocol.Digest.{Codec}
use idr.Store.Error.{StoreError, Stored}
use idr.Store.Snapshot.{Snapshot}
use idr.Store.Anchors.{AnchorRecord, Verdict, anchored, append_needed, Format, committed}
use idr.Store.Machine.{
  Disk, Store, Effect, ◌>>=◌, ◌>>◌, pure, from, refuse, get_disk, call, quiet, quiets, append,
}
use idr.Store.Files.{
  acquire_store_lock, rename, open_anchor, truncate_anchor, drop_torn, refuse_blank, append_anchor,
  persist_snapshot, read_file, read_snapshot, read_anchor_file, read_anchor_records, follow,
  validate_or_recover_anchor, load_snapshot, refresh,
}

abbrev pub Unchanged : {A : Type 0} → Store → Stored A × Store → Type 0
Unchanged st out = (out.1.cached ≡ st.cached) × (out.1.poisoned ≡ st.poisoned)

-- An effect that changes the disk and the faults only.
unfoldable pub Keeps : {A : Type 0} → Effect A → Type 0
Keeps m = (st : Store) → Unchanged st (m st)

bind-Keeps :
    {A B : Type 0} (m : Effect A) (f : A → Effect B)
    → Keeps m
    → ((a : A) → Keeps (f a))
    → Keeps (m >>= f)
unfolding Keeps
bind-Keeps {A} {B} m f k l st = behind (m st).0 (m st).1 (k st)
  where
    behind :
        (r : Stored A) (st' : Store)
        → (st'.cached ≡ st.cached) × (st'.poisoned ≡ st.poisoned)
        → Unchanged {A = B} st (elim r [ ok a ↦ f a st' | err e ↦ (err e, st') ])
    behind (ok a) st' h = ((l a st').0 ∙ h.0, (l a st').1 ∙ h.1)
    behind (err e) st' h = h

then-Keeps :
    {B : Type 0} (m : Effect (Unit {0})) (n : Effect B) → Keeps m → Keeps n → Keeps (m >> n)
then-Keeps m n k l = bind-Keeps m (λ _. n) k (λ _. l)

from-Keeps : {A : Type 0} (r : Stored A) → Keeps (from r)
unfolding Keeps
from-Keeps r st = (refl, refl)

pure-Keeps : {A : Type 0} (a : A) → Keeps (pure a)
unfolding Keeps
pure-Keeps a st = (refl, refl)

refuse-Keeps : (b : Bool) (e : StoreError) → Keeps (refuse b e)
unfolding Keeps
refuse-Keeps b e st = (refl, refl)

get_disk-Keeps : Keeps get_disk
unfolding Keeps
get_disk-Keeps st = (refl, refl)

call-Keeps :
    (e : StoreError) (partial : ℕ → Disk → Disk) (whole : Disk → Disk)
    → Keeps (call e partial whole)
unfolding Keeps call
call-Keeps e partial whole st = ground arith

quiet-Keeps : Keeps quiet
unfolding quiet
quiet-Keeps = call-Keeps _ _ _

quiets-Keeps : (n : ℕ) → Keeps (quiets n)
unfolding quiets
quiets-Keeps zero = pure-Keeps tt
quiets-Keeps (suc n) = then-Keeps quiet (quiets n) quiet-Keeps (quiets-Keeps n)

append-Keeps : (e : StoreError) (bytes : List ℕ) → Keeps (append e bytes)
unfolding append
append-Keeps e bytes = call-Keeps _ _ _

rename-Keeps : (bytes : List ℕ) → Keeps (rename bytes)
unfolding rename
rename-Keeps bytes = call-Keeps _ _ _

open_anchor-Keeps : Keeps open_anchor
unfolding open_anchor
open_anchor-Keeps = call-Keeps _ _ _

truncate_anchor-Keeps : Keeps truncate_anchor
unfolding truncate_anchor
truncate_anchor-Keeps = call-Keeps _ _ _

ruleset keeps = (
  bind-Keeps, then-Keeps, from-Keeps, pure-Keeps, refuse-Keeps, get_disk-Keeps, quiet-Keeps,
  quiets-Keeps, append-Keeps, rename-Keeps, open_anchor-Keeps, truncate_anchor-Keeps,
)

pub acquire_store_lock-Keeps : Keeps acquire_store_lock
unfolding acquire_store_lock
acquire_store_lock-Keeps = quiets-Keeps 3

drop_torn-Keeps : (bytes : List ℕ) → Keeps (drop_torn bytes)
unfolding drop_torn
drop_torn-Keeps bytes = elim (Bool-cases (ltb (length (committed bytes)) (length bytes))) [
  | inl e ↦ rw e (search keeps)
  | inr e ↦ rw e (search keeps)
]

refuse_blank-Keeps :
    (bytes : List ℕ) (anchors : List AnchorRecord) → Keeps (refuse_blank bytes anchors)
unfolding refuse_blank
refuse_blank-Keeps bytes anchors = refuse-Keeps _ _

module _ (format : Format) where
  append_anchor-Keeps : (s : Snapshot) → Keeps (append_anchor format s)
  unfolding append_anchor
  append_anchor-Keeps s = search keeps

  pub persist_snapshot-Keeps : (s : Snapshot) → Keeps (persist_snapshot format s)
  unfolding persist_snapshot
  persist_snapshot-Keeps s = search (keeps, append_anchor-Keeps) depth 14 fits 4000

  read_file-Keeps : (o : Option (List ℕ)) → Keeps (read_file format o)
  unfolding read_file
  read_file-Keeps none = pure-Keeps _
  read_file-Keeps (some bytes) = search keeps

  read_anchor_file-Keeps : (o : Option (List ℕ)) → Keeps (read_anchor_file format o)
  unfolding read_anchor_file
  read_anchor_file-Keeps none = pure-Keeps _
  read_anchor_file-Keeps (some bytes) =
      search (keeps, drop_torn-Keeps, refuse_blank-Keeps) depth 14 fits 4000

  read_snapshot-Keeps : Keeps (read_snapshot format)
  unfolding read_snapshot
  read_snapshot-Keeps =
      bind-Keeps get_disk _ get_disk-Keeps (λ disk. read_file-Keeps disk.snapshot_file)

  read_anchor_records-Keeps : Keeps (read_anchor_records format)
  unfolding read_anchor_records
  read_anchor_records-Keeps =
      bind-Keeps get_disk _ get_disk-Keeps (λ disk. read_anchor_file-Keeps disk.anchor_file)

  follow-Keeps : (s : Snapshot) (v : Verdict) → Keeps (follow format s v)
  unfolding follow
  follow-Keeps s anchored = pure-Keeps tt
  follow-Keeps s append_needed = append_anchor-Keeps s

  validate_or_recover_anchor-Keeps : (s : Snapshot) → Keeps (validate_or_recover_anchor format s)
  unfolding validate_or_recover_anchor
  validate_or_recover_anchor-Keeps s =
      search (keeps, read_anchor_records-Keeps, follow-Keeps s) depth 14 fits 4000

  pub load_snapshot-Keeps :
      (codec : Codec) (hyphenated : Uuid → Text) → Keeps (load_snapshot format codec hyphenated)
  unfolding load_snapshot
  load_snapshot-Keeps codec hyphenated =
      search (keeps, read_snapshot-Keeps, validate_or_recover_anchor-Keeps) depth 14 fits 4000

  -- The start of an operation: the loaded snapshot is the one that is kept.
  pub refresh-cached :
      (codec : Codec) (hyphenated : Uuid → Text) (st st' : Store) (s : Snapshot)
      → refresh format codec hyphenated st ≡ (ok s, st')
      → st'.cached ≡ s
  unfolding refresh
  refresh-cached codec hyphenated st st' s h = elim (Bool-cases st.poisoned) [
    | inl p ↦ absurd (ground arith)
    | inr p ↦ ground arith
  ]

  pub refresh-err :
      (codec : Codec) (hyphenated : Uuid → Text) (st st' : Store) (e : StoreError)
      → refresh format codec hyphenated st ≡ (err e, st')
      → st'.cached ≡ st.cached
  unfolding refresh Keeps
  refresh-err codec hyphenated st st' e h = elim (Bool-cases st.poisoned) [
    | inl p ↦ ground arith
    | inr p ↦ ground (
      arith,
      acquire_store_lock-Keeps st,
      load_snapshot-Keeps codec hyphenated (acquire_store_lock st).1,
    )
  ]
