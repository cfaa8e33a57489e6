-- ===== src/Store/Machine.antt =====
-- The state of crates/idr-store/src/file_store.rs: the snapshot behind the mutex, the two files and
-- the faults of the file system; an operation changes the state also where it returns an error.
use idr.Base.{ℕ, Bool, if◌then◌else◌, List, [], ◌∷◌, ◌++◌, Option, none, some, ok, err, zero, suc}
use idr.Store.Error.{StoreError, Stored, io}
use idr.Store.Snapshot.{Snapshot}

-- The snapshot file and the anchor file, where they exist.
pub record Disk : Type 0 where
  pub snapshot_file : Option (List ℕ)
  pub anchor_file : Option (List ℕ)

-- `faults` says how the calls of the file system to come end: in success, or in an error after so
-- many bytes. Past its end every call succeeds.
pub record Store : Type 0 where
  pub cached : Snapshot
  pub poisoned : Bool
  pub disk : Disk
  pub faults : List (Option ℕ)

abbrev pub Effect : Type 0 → Type 0
Effect A = Store → Stored A × Store

infixl 5 ◌>>=◌ ◌>>◌
abbrev pub ◌>>=◌ : {A B : Type 0} → Effect A → (A → Effect B) → Effect B
◌>>=◌ m f store =
    let (r, store') = m store in elim r [ ok a ↦ f a store' | err e ↦ (err e, store') ]

abbrev pub ◌>>◌ : {B : Type 0} → Effect (Unit {0}) → Effect B → Effect B
m >> k = m >>= λ _. k

module _ {A : Type 0} where
  abbrev pub pure : A → Effect A
  pure a store = (ok a, store)

  abbrev pub raise : StoreError → Effect A
  raise e store = (err e, store)

  -- A result of code that does not touch the state.
  abbrev pub from : Stored A → Effect A
  from r store = (r, store)

abbrev pub refuse : Bool → StoreError → Effect (Unit {0})
refuse bad e store = (if bad then err e else ok tt, store)

abbrev pub get_disk : Effect Disk
get_disk store = (ok store.disk, store)

abbrev pub set_cached : Snapshot → Effect (Unit {0})
set_cached s store = (ok tt, record store { cached = s })

-- How the next call ends, and the faults behind it.
abbrev pub next_fault : List (Option ℕ) → Option ℕ × List (Option ℕ)
next_fault [] = (none, [])
next_fault (fault ∷ faults) = (fault, faults)

-- A call of the file system: its effect where it fails after so many bytes, and where it succeeds.
unfoldable pub call : StoreError → (ℕ → Disk → Disk) → (Disk → Disk) → Effect (Unit {0})
call error partial whole store =
    let (fault, faults) = next_fault store.faults in
    elim fault [
      | none ↦ (ok tt, record store { disk = whole store.disk; faults = faults })
      | some n ↦ (err error, record store { disk = partial n store.disk; faults = faults })
    ]

-- A call that changes neither file: it makes a directory, opens, locks or syncs, or it writes a
-- temporary file.
unfoldable pub quiet : Effect (Unit {0})
unfolding call
quiet = call io (λ n disk. disk) (λ disk. disk)

unfoldable pub quiets : ℕ → Effect (Unit {0})
unfolding quiet
quiets zero = pure tt
quiets (suc n) = quiet >> quiets n

unfoldable pub take : ℕ → List ℕ → List ℕ
take zero bytes = []
take (suc n) [] = []
take (suc n) (byte ∷ bytes) = byte ∷ take n bytes

abbrev pub contents : Option (List ℕ) → List ℕ
contents none = []
contents (some bytes) = bytes

-- The anchor file after a write at its end.
abbrev pub appended : List ℕ → Disk → Disk
appended bytes disk = record disk { anchor_file = some (contents disk.anchor_file ++ bytes) }

-- A write at the end of the anchor file.
unfoldable pub append : StoreError → List ℕ → Effect (Unit {0})
unfolding call take
append error bytes = call error (λ n. appended (take n bytes)) (appended bytes)
