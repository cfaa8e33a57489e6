-- ===== src/Store/Operations/Leaves.antt =====
-- What an operation of crates/idr-store/src/file_store.rs leaves behind of the snapshot that it has
-- loaded: in memory and in the two files.
use idr.Base.{
  ◌≡◌, ◌⊎◌, inl, inr, refl, sym, subst, ◌∙◌, Option, ℕ, ok, err, arith, Text, Result-cases,
}
use idr.Protocol.Id.{Uuid}
use idr.Protocol.Digest.{Codec}
use idr.Store.Error.{StoreError, Stored}
use idr.Store.Snapshot.{Snapshot}
use idr.Store.Sealing.{seal_next_snapshot}
use idr.Store.Validity.{validate_snapshot}
use idr.Store.Anchors.{Format}
use idr.Store.Machine.{Store, Effect, ◌>>◌, from, set_cached}
use idr.Store.Files.{persist_snapshot}
use idr.Store.Files.Cached.{Keeps, persist_snapshot-Keeps}
use idr.Store.Files.Written.{Written, Either, persist_snapshot-Written}
use idr.Store.Steps.{Candidate, Step, seal}
use idr.Store.Operations.{store_candidate}

module _ (format : Format) (codec : Codec) (hyphenated : Uuid → Text) where
  -- The operation wrote nothing and kept the loaded snapshot, which it reports as a success only in
  -- a result that `Idle` admits; or it failed in a write of a valid step, so that the snapshot file
  -- is the old one or that of the step; or it put a valid step of the loaded snapshot into memory and
  -- into the files.
  pub data Leaves {A : Type 0} (Idle : A → Type 0) (s : Snapshot) (loaded : Store)
      (out : Stored A × Store) : Type 0 where
    kept :
        out.1.cached ≡ s
        → out.1.disk ≡ loaded.disk
        → ((a : A) → out.0 ≡ ok a → Idle a)
        → Leaves Idle s loaded out
    broken :
        (e : StoreError) (s' : Snapshot)
        → out.0 ≡ err e
        → out.1.cached ≡ s
        → Step codec s s'
        → validate_snapshot codec hyphenated s' ≡ ok tt
        → (out.1.disk.snapshot_file ≡ loaded.disk.snapshot_file)
          ⊎ (out.1.disk.snapshot_file ≡ format.snapshot_bytes s')
        → Leaves Idle s loaded out
    stored :
        Step codec s out.1.cached
        → validate_snapshot codec hyphenated out.1.cached ≡ ok tt
        → Written format loaded.disk out.1.cached out.1.disk
        → Leaves Idle s loaded out

  -- An effect that touches neither the snapshot nor the files.
  abbrev pub IsSilent : {A : Type 0} → Effect A → Type 0
  IsSilent m = (x : Store) → ((m x).1.cached ≡ x.cached) × ((m x).1.disk ≡ x.disk)

  silent-Leaves :
      {A : Type 0} (Before : Unit {0} → Type 0) (Idle : A → Type 0) (s : Snapshot)
      (loaded x : Store) (m : Effect A)
      → IsSilent m
      → (Before tt → (a : A) → (m x).0 ≡ ok a → Idle a)
      → Leaves Before s loaded (ok tt, x)
      → Leaves Idle s loaded (m x)
  silent-Leaves Before Idle s loaded x m silent pass (kept c d idle) =
      kept ((silent x).0 ∙ c) ((silent x).1 ∙ d) (pass (idle tt refl))
  silent-Leaves Before Idle s loaded x m silent pass (broken e s' k c step valid file) =
      absurd (ground arith)
  silent-Leaves Before Idle s loaded x m silent pass (stored step valid written) =
      stored (subst (Step codec s) (sym (silent x).0) step)
        (subst (λ (y : Snapshot). validate_snapshot codec hyphenated y ≡ ok tt) (sym (silent x).0)
          valid)
        (subst (λ (y : Snapshot). Written format loaded.disk y (m x).1.disk) (sym (silent x).0)
          (subst (Written format loaded.disk x.cached) (sym (silent x).1) written))

  failed-Leaves :
      {A B : Type 0} (Before : B → Type 0) (Idle : A → Type 0) (s : Snapshot) (loaded x : Store)
      (e : StoreError)
      → Leaves Before s loaded (err e, x)
      → Leaves Idle s loaded (err e, x)
  failed-Leaves Before Idle s loaded x e (kept c d idle) = kept c d (λ a h. absurd (ground arith))
  failed-Leaves Before Idle s loaded x e (broken y s' k c step valid file) =
      broken e s' refl c step valid file
  failed-Leaves Before Idle s loaded x e (stored step valid written) = stored step valid written

  -- What follows an operation and is silent leaves the same.
  pub then-Leaves :
      {A : Type 0} (Before : Unit {0} → Type 0) (Idle : A → Type 0) (s : Snapshot) (st : Store)
      (m : Effect (Unit {0})) (n : Effect A)
      → IsSilent n
      → (Before tt → (x : Store) (a : A) → (n x).0 ≡ ok a → Idle a)
      → Leaves Before s st (m st)
      → Leaves Idle s st ((m >> n) st)
  then-Leaves {A} Before Idle s st m n silent pass h = behind (m st).0 (m st).1 h
    where
      behind :
          (r : Stored (Unit {0})) (x : Store)
          → Leaves Before s st (r, x)
          → Leaves Idle s st (elim r [ ok _ ↦ n x | err e ↦ (err e, x) ])
      behind (ok tt) x k = silent-Leaves Before Idle s st x n silent (λ b a e. pass b x a e) k
      behind (err e) x k = failed-Leaves Before Idle s st x e k

  -- No success without a write.
  abbrev pub Never : {A : Type 0} → A → Type 0
  Never a = ⊥

  -- The end of an operation, on the store that has loaded the snapshot.
  pub store_candidate-Leaves :
      (clock : Option ℕ) (s u : Snapshot) (st : Store)
      → st.cached ≡ s
      → Candidate codec s u
      → Leaves Never s st (store_candidate format codec hyphenated clock s u st)
  unfolding store_candidate
  store_candidate-Leaves clock s u st e c = elim (Result-cases (seal_next_snapshot codec u s)) [
    | inr (x, k) ↦ rw k (kept e refl (λ a h. absurd (ground arith)))
    | inl (s', k) ↦ rw k (sealed s' (seal u c k))
  ]
    where
      written :
          (s' : Snapshot) (r : Stored (Unit {0})) (x : Store)
          → Step codec s s'
          → validate_snapshot codec hyphenated s' ≡ ok tt
          → x.cached ≡ st.cached
          → ((a : Unit {0}) → r ≡ ok a → Written format st.disk s' x.disk)
          → ((y : StoreError) → r ≡ err y → Either format st.disk s' x.disk)
          → Leaves
              (Never {A = Unit {0}})
              s
              st
              (elim r [ ok _ ↦ set_cached s' x | err y ↦ (err y, x) ])
      written s' (ok a) x step valid same won lost = stored step valid (won a refl)
      written s' (err y) x step valid same won lost =
          broken y s' refl (same ∙ e) step valid (lost y refl)

      sealed :
          (s' : Snapshot)
          → Step codec s s'
          → Leaves (Never {A = Unit {0}}) s st (
              (from (validate_snapshot codec hyphenated s')
                  >> (persist_snapshot format s' >> set_cached s'))
                st)
      sealed s' step = elim (Result-cases (validate_snapshot codec hyphenated s')) [
        | inr (x, v) ↦ rw v (kept e refl (λ a h. absurd (ground arith)))
        | inl (a, v) ↦
            let write = persist_snapshot-Written format st.disk s' in
            rw v (
              written s' (persist_snapshot format s' st).0 (persist_snapshot format s' st).1 step v
                (unfold Keeps in (persist_snapshot-Keeps format s' st).0) (write.succeeds st refl)
                (write.fails st refl))
      ]
