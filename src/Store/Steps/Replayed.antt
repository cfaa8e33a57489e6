-- ===== src/Store/Steps/Replayed.antt =====
-- A store refines its history: its pointers and invalidated references are what a replay gives.
use idr.Base.{ℕ, ◌≡◌, ok, arith, inl, inr, subst, sym, ◌∙◌, ◌⊎◌, ◌++◌, ◌∷◌, []}
use idr.Protocol.Id.{Uuid}
use idr.Protocol.Digest.{Codec}
use idr.Protocol.Permit.{VerifiedPermitRequest}
use idr.Store.Contract.{ContractSnapshot}
use idr.Store.Snapshot.{Snapshot, default_snapshot}
use idr.Store.Sealing.{seal_next_snapshot}
use idr.Store.Reserve.{reserve}
use idr.Store.Permits.{change_attempt}
use idr.Store.Validity.{check_replay, list_ref_eq}
use idr.Store.History.{replay_history, replay_from}
use idr.Store.Commit.Replay.{Agrees, Agrees-check_replay, commit_candidate-replay}
use idr.Store.Steps.{
  Candidate, commit, issue, transition, recovery, Step, seal, Reachable, empty, next,
}

module _ (codec : Codec) where
  pub reserve-Agrees :
      (s u : Snapshot) (minted id : Uuid) (v : VerifiedPermitRequest) (now : ℕ)
      → reserve codec minted v now s ≡ ok (u, id)
      → Agrees u s
  unfolding reserve
  reserve-Agrees s u minted id v now h = ground arith

  pub seal-Agrees : (u s s' : Snapshot) → seal_next_snapshot codec u s ≡ ok s' → Agrees s' u
  unfolding seal_next_snapshot
  seal-Agrees u s s' h = ground arith

  -- The history grows by at most one record.
  abbrev pub Grows : Snapshot → Snapshot → Type 0
  Grows s u = (u.records ≡ s.records) ⊎ ((c : ContractSnapshot) × (u.records ≡ s.records ++ c ∷ []))

  candidate-replay :
      (s u : Snapshot)
      → check_replay codec s ≡ ok tt
      → Candidate codec s u
      → (check_replay codec u ≡ ok tt) × Grows s u
  unfolding change_attempt
  candidate-replay s u h (commit c proof reference e k) =
      let (replayed, grown) = commit_candidate-replay codec s u c reference proof h e k in
      (replayed, inr (c, grown))
  candidate-replay s u h (issue minted v now id k) =
      let same = reserve-Agrees s u minted id v now k in
      (Agrees-check_replay codec u s same h, inl same.records)
  candidate-replay s u h (transition permit expected to now r f error m k e) =
      (Agrees-check_replay codec u s (ground arith) h, inl (ground arith))
  candidate-replay s u h (recovery action_ref owner_ref now r t f error k e) =
      (Agrees-check_replay codec u s (ground arith) h, inl (ground arith))

  step-replay :
      (s s' : Snapshot)
      → check_replay codec s ≡ ok tt
      → Step codec s s'
      → (check_replay codec s' ≡ ok tt) × Grows s s'
  step-replay s s' h (seal u c e) =
      let (replayed, grown) = candidate-replay s u h c in
      let same = seal-Agrees u s s' e in
      (
        Agrees-check_replay codec s' u same replayed,
        elim grown [ inl k ↦ inl (same.records ∙ k) | inr (c', k) ↦ inr (c', same.records ∙ k) ],
      )

  empty-replay : check_replay codec default_snapshot ≡ ok tt
  unfolding check_replay replay_history replay_from
  empty-replay = ground arith

  Reachable-check_replay : (s : Snapshot) → Reachable codec s → check_replay codec s ≡ ok tt
  Reachable-check_replay s (empty e) =
      subst (λ x. check_replay codec x ≡ ok tt) (sym e) empty-replay
  Reachable-check_replay s (next {s = x} r st) = (step-replay x s (Reachable-check_replay x r) st).0

  -- In every snapshot that a store can come to from an empty one, the pointers and the invalidated
  -- references are those that a replay of its records gives: what the store says is current and
  -- valid is determined by its history, and a step changes the history by at most one record at
  -- its end.
  pub Reachable-replay :
      (s s' : Snapshot)
      → Reachable codec s
      → Step codec s s'
      → (check_replay codec s ≡ ok tt) × (check_replay codec s' ≡ ok tt) × Grows s s'
  Reachable-replay s s' r st =
      let h = Reachable-check_replay s r in
      let (h', grown) = step-replay s s' h st in (h, h', grown)
