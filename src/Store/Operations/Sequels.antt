-- ===== src/Store/Operations/Sequels.antt =====
-- Operations of crates/idr-store/src/file_store.rs step by step: what each effect of an operation
-- leaves of the loaded snapshot, and of those behind it.
use idr.Base.{
  ℕ, ◌≡◌, ◌⊎◌, inl, inr, refl, sym, ap, subst, ◌∙◌, arith, Bool, true, false, Option, none, some,
  ok, err, Text, Option-cases,
}
use idr.Protocol.Id.{Uuid}
use idr.Protocol.Digest.{Codec}
use idr.Protocol.ContractRef.{contract_ref_eq}
use idr.Store.Error.{StoreError, Stored}
use idr.Store.Snapshot.{Snapshot, Attempt}
use idr.Store.Anchors.{Format}
use idr.Store.Machine.{Store, Effect, ◌>>=◌, ◌>>◌, pure, from, refuse}
use idr.Store.Files.{refresh}
use idr.Store.Files.Cached.{refresh-cached, refresh-err}
use idr.Store.Files.Spared.{Spares, refresh-Spares}
use idr.Store.Operations.Leaves.{Leaves, Never, kept, IsSilent, then-Leaves, store_candidate-Leaves}
use idr.Store.Permits.{Change, unchanged, changed, change_attempt}
use idr.Store.Steps.{Candidate}
use idr.Store.Operations.{now, store_candidate, report, apply_change}

module _ (format : Format) (codec : Codec) (hyphenated : Uuid → Text) (clock : Option ℕ) where
  -- An effect that leaves the loaded snapshot, or a step of it.
  unfoldable pub StepsFrom : {A : Type 0} → (A → Type 0) → Snapshot → Effect A → Type 0
  StepsFrom Idle s m =
      (st : Store) → st.cached ≡ s → Leaves format codec hyphenated Idle s st (m st)

  -- An operation fails before it has a snapshot, and leaves the kept one and the snapshot file; or
  -- it has loaded a snapshot from the files, and leaves that one or a step of it, in memory and in
  -- the files. `Idle` are the results of a success that writes nothing.
  pub Refines : {A : Type 0} → (Snapshot → A → Type 0) → Effect A → Type 0
  Refines Idle m =
      (st : Store)
      → ((e : StoreError) × ((m st).0 ≡ err e)
          × ((m st).1.cached ≡ st.cached)
          × ((m st).1.disk.snapshot_file ≡ st.disk.snapshot_file))
        ⊎ ((s : Snapshot) × (loaded : Store) × (refresh format codec hyphenated st ≡ (ok s, loaded))
            × (loaded.disk.snapshot_file ≡ st.disk.snapshot_file)
            × Leaves format codec hyphenated (Idle s) s loaded (m st))

  pub store-StepsFrom :
      {A : Type 0} (Idle : A → Type 0) (s u : Snapshot) (n : Effect A)
      → IsSilent format codec hyphenated n
      → Candidate codec s u
      → StepsFrom Idle s (store_candidate format codec hyphenated clock s u >> n)
  unfolding StepsFrom
  store-StepsFrom Idle s u n silent c st e =
      then-Leaves format codec hyphenated (Never format codec hyphenated) Idle s st
        (store_candidate format codec hyphenated clock s u) n silent (λ b. absurd b)
        (store_candidate-Leaves format codec hyphenated clock s u st e c)

  pub change-StepsFrom :
      (Idle : Unit {0} → Type 0) (s : Snapshot) (id : Uuid) (change : Change)
      → (change ≡ unchanged → Idle tt)
      → ((f : Attempt → Attempt) (error : Option StoreError)
          → change ≡ changed f error
          → Candidate codec s (change_attempt id f s))
      → StepsFrom Idle s (apply_change format codec hyphenated clock s id change)
  unfolding apply_change StepsFrom
  change-StepsFrom Idle s id unchanged i c st e = kept e refl (λ a h. i refl)
  change-StepsFrom Idle s id (changed f none) i c st e =
      store-StepsFrom Idle s (change_attempt id f s) (report none) (λ x. (refl, refl))
        (c f none refl) st e
  change-StepsFrom Idle s id (changed f (some error)) i c st e =
      store-StepsFrom Idle s (change_attempt id f s) (report (some error)) (λ x. (refl, refl))
        (c f (some error) refl) st e

  pub return-StepsFrom :
      {A : Type 0} (Before : Unit {0} → Type 0) (Idle : A → Type 0) (s : Snapshot)
      (m : Effect (Unit {0})) (a : A)
      → (Before tt → Idle a)
      → StepsFrom Before s m
      → StepsFrom Idle s (m >> pure a)
  unfolding StepsFrom
  return-StepsFrom Before Idle s m a pass h st e =
      then-Leaves format codec hyphenated Before Idle s st m (pure a) (λ x. (refl, refl))
        (λ b x c k. subst Idle (ground arith) (pass b)) (h st e)

  pub refresh-Refines :
      {A : Type 0} (Idle : Snapshot → A → Type 0) (m : Snapshot → Effect A)
      → ((s : Snapshot) → StepsFrom (Idle s) s (m s))
      → Refines Idle (refresh format codec hyphenated >>= m)
  unfolding Refines StepsFrom Spares
  refresh-Refines {A} Idle m h st =
      behind (refresh format codec hyphenated st).0 (refresh format codec hyphenated st).1 refl
    where
      After : Stored A × Store → Type 0
      After out =
          ((e : StoreError) × (out.0 ≡ err e)
            × (out.1.cached ≡ st.cached)
            × (out.1.disk.snapshot_file ≡ st.disk.snapshot_file))
          ⊎ ((s : Snapshot) × (loaded : Store) × (refresh format codec hyphenated st
                ≡ (ok s, loaded))
              × (loaded.disk.snapshot_file ≡ st.disk.snapshot_file)
              × Leaves format codec hyphenated (Idle s) s loaded out)

      spared :
          (r : Stored Snapshot) (loaded : Store)
          → refresh format codec hyphenated st ≡ (r, loaded)
          → loaded.disk.snapshot_file ≡ st.disk.snapshot_file
      spared r loaded e =
          ap (λ (o : Stored Snapshot × Store). o.1.disk.snapshot_file) (sym e)
          ∙ refresh-Spares format codec hyphenated st

      behind :
          (r : Stored Snapshot) (loaded : Store)
          → refresh format codec hyphenated st ≡ (r, loaded)
          → After (elim r [ ok s ↦ m s loaded | err e ↦ (err e, loaded) ])
      behind (ok s) loaded e = inr (
        s,
        loaded,
        e,
        spared (ok s) loaded e,
        h s loaded (refresh-cached format codec hyphenated st loaded s e),
      )
      behind (err x) loaded e =
          inl (x, refl, refresh-err format codec hyphenated st loaded x e, spared (err x) loaded e)

  pub pure-StepsFrom :
      {A : Type 0} (Idle : A → Type 0) (s : Snapshot) (a : A) → Idle a → StepsFrom Idle s (pure a)
  unfolding StepsFrom
  pure-StepsFrom Idle s a i st e = kept e refl (λ b h. subst Idle (ground arith) i)

  -- The time is read where it is there.
  pub now-StepsFrom :
      {A : Type 0} (Idle : A → Type 0) (s : Snapshot) (m : ℕ → Effect A)
      → ((t : ℕ) → StepsFrom Idle s (m t))
      → StepsFrom Idle s (now format codec hyphenated clock >>= m)
  unfolding now StepsFrom
  now-StepsFrom Idle s m h st e = elim (Option-cases clock) [
    | inl k ↦ rw k (kept e refl (λ a r. absurd (ground arith)))
    | inr (t, k) ↦ rw k (h t st e)
  ]

  pub from-StepsFrom :
      {A B : Type 0} (Idle : A → Type 0) (s : Snapshot) (r : Stored B) (m : B → Effect A)
      → ((b : B) → r ≡ ok b → StepsFrom Idle s (m b))
      → StepsFrom Idle s (from r >>= m)
  unfolding StepsFrom
  from-StepsFrom Idle s (ok b) m h st e = h b refl st e
  from-StepsFrom Idle s (err x) m h st e = kept e refl (λ a k. absurd (ground arith))

  pub from-Refines :
      {A B : Type 0} (Idle : Snapshot → A → Type 0) (r : Stored B) (m : B → Effect A)
      → ((b : B) → r ≡ ok b → Refines Idle (m b))
      → Refines Idle (from r >>= m)
  unfolding Refines
  from-Refines Idle (ok b) m h = h b refl
  from-Refines Idle (err x) m h = λ st. inl (x, refl, refl, refl)

  pub refuse-Refines :
      {A : Type 0} (Idle : Snapshot → A → Type 0) (b : Bool) (x : StoreError) (m : Effect A)
      → Refines Idle m
      → Refines Idle (refuse b x >> m)
  unfolding Refines
  refuse-Refines Idle true x m h = λ st. inl (x, refl, refl, refl)
  refuse-Refines Idle false x m h = h
