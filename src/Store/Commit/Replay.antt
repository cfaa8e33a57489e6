-- ===== src/Store/Commit/Replay.antt =====
-- The store's pointers and invalidated references are those that its history of records leads to:
-- a commit keeps what `validate_snapshot` compares with `replay_history`.
use idr.Base.{
  ◌≡◌, ap, sym, ◌∙◌, List, [], ◌∷◌, ◌++◌, Option, none, some, ok, inl, inr, ◌>>=◌, arith,
  Result-cases,
}
use mathlib.Core.List.{append-nil, append_assoc}
use idr.Protocol.Digest.{Codec}
use idr.Protocol.ContractRef.{ContractRef}
use idr.Store.Contract.{ContractSnapshot, record_ref}
use idr.Store.Snapshot.{Snapshot, default_snapshot, pointer_to, record_of}
use idr.Store.Invalidation.{
  invalidate_dependents, replace_pointer, reconcile_invalidated_execution_reservations,
}
use idr.Store.History.{replay_previous, replay_record, replay_from, replay_history}
use idr.Store.Receipts.{apply_execution_receipt_transition}
use idr.Store.Validity.{check_replay, list_ref_eq}
use idr.Store.Commit.{
  ReceiptProof, check_previous, check_commit, supersede, settle, commit_candidate,
}

-- Two snapshots have the same history, pointers and invalidated references.
pub record Agrees (s t : Snapshot) : Type 0 where
  pub records : s.records ≡ t.records
  pub pointers : s.current_pointers ≡ t.current_pointers
  pub invalidated : s.invalidated_refs ≡ t.invalidated_refs

module _ (codec : Codec) where
  -- What an invalidation does to these does not depend on the reservations.
  invalidate-Agrees :
      (s t s' : Snapshot) (stale : ContractRef)
      → Agrees s t
      → invalidate_dependents codec s stale ≡ ok s'
      → (t' : Snapshot) × (invalidate_dependents codec t stale ≡ ok t') × Agrees s' t'
  unfolding invalidate_dependents reconcile_invalidated_execution_reservations
  invalidate-Agrees s t s' stale g h = elim (Result-cases (invalidate_dependents codec t stale)) [
    | inl (t', e) ↦ (t', e, ground arith)
    | inr (x, e) ↦ absurd (ground arith)
  ]

  invalidate-keeps :
      (s s' : Snapshot) (stale : ContractRef)
      → invalidate_dependents codec s stale ≡ ok s'
      → (s'.records ≡ s.records) × (s'.current_pointers ≡ s.current_pointers)
  unfolding invalidate_dependents reconcile_invalidated_execution_reservations
  invalidate-keeps s s' stale h = ground arith

  settle-Agrees :
      (s s' : Snapshot) (c : ContractSnapshot) (reference : ContractRef)
      (proof : Option ReceiptProof)
      → settle s c reference proof ≡ ok s'
      → Agrees s' s
  unfolding apply_execution_receipt_transition
  settle-Agrees s s' (ContractSnapshot.intent _) reference proof h = ground arith
  settle-Agrees s s' (ContractSnapshot.decision _) reference proof h = ground arith
  settle-Agrees s s' (ContractSnapshot.turn_coordination _) reference proof h = ground arith
  settle-Agrees s s' (ContractSnapshot.response _) reference proof h = ground arith
  settle-Agrees s s' (ContractSnapshot.action _) reference proof h = ground arith
  settle-Agrees s s' (ContractSnapshot.execution_receipt r) reference none h = cc
  settle-Agrees s s' (ContractSnapshot.execution_receipt r) reference (some p) h = ground arith
  settle-Agrees s s' (ContractSnapshot.outcome _) reference proof h = ground arith
  settle-Agrees s s' (ContractSnapshot.human_model_assertion _) reference proof h = ground arith

  -- The match of a commit on the previous pointer is the match of the replay.
  previous-Agrees :
      (s t s' : Snapshot) (c : ContractSnapshot) (reference : ContractRef) (o : Option ContractRef)
      → Agrees s t
      → check_previous codec s c reference o ≡ ok tt
      → supersede codec s o ≡ ok s'
      → (t' : Snapshot) × (replay_previous codec t c reference o ≡ ok t') × Agrees s' t'
  unfolding check_previous replay_previous
  previous-Agrees s t s' c reference none g h k = (t, ground arith, ground arith)
  previous-Agrees s t s' c reference (some p) g h k =
      let (t', e, g') = invalidate-Agrees s t s' p g k in
      (t', ground (arith, ap (λ l. record_of codec l p) g.records), g')

  -- A commit does to the pointers and the invalidated references what a replay of its record does.
  commit-replays :
      (s t s' : Snapshot) (c : ContractSnapshot) (reference : ContractRef)
      (proof : Option ReceiptProof)
      → Agrees s t
      → record_ref codec c ≡ ok reference
      → commit_candidate codec c proof reference s ≡ ok s'
      → (t' : Snapshot) × (replay_record codec t c ≡ ok t') × Agrees s' t'
  unfolding commit_candidate check_commit replay_record
  commit-replays s t s' c reference proof g e h =
      let previous = pointer_to s.current_pointers reference in
      elim (Result-cases (supersede codec s previous)) [
        | inr (x, k) ↦ absurd (ground arith)
        | inl (u, k) ↦
            let (t', f, g') = previous-Agrees s t u c reference previous g (ground arith) k in
            let recorded : Snapshot = record u { records = u.records ++ c ∷ [] } in
            elim (Result-cases (settle recorded c reference proof)) [
              | inr (x, l) ↦ absurd (ground arith)
              | inl (v, l) ↦ (
                record t' {
                  records = t'.records ++ c ∷ [];
                  current_pointers = replace_pointer t'.current_pointers reference;
                },
                ground (arith, ap (λ p. pointer_to p reference) g.pointers),
                ground (arith, settle-Agrees recorded v c reference proof l),
              )
            ]
      ]

  replay-append :
      (s t t' : Snapshot) (cs : List ContractSnapshot) (c : ContractSnapshot)
      → replay_from codec s cs ≡ ok t
      → replay_record codec t c ≡ ok t'
      → replay_from codec s (cs ++ c ∷ []) ≡ ok t'
  unfolding replay_from
  replay-append s t t' [] c h k = ground arith
  replay-append s t t' (d ∷ ds) c h k = elim (Result-cases (replay_record codec s d)) [
    | inl (u, e) ↦ ground (arith, replay-append u t t' ds c)
    | inr (x, e) ↦ absurd (ground arith)
  ]

  replay_record-records :
      (s s' : Snapshot) (c : ContractSnapshot)
      → replay_record codec s c ≡ ok s'
      → s'.records ≡ s.records ++ c ∷ []
  unfolding replay_record replay_previous
  replay_record-records s s' c h = elim (Result-cases (record_ref codec c)) [
    | inr (x, e) ↦ absurd (ground arith)
    | inl (reference, e) ↦ kept (pointer_to s.current_pointers reference) reference (ground arith)
  ]
    where
      kept :
          (o : Option ContractRef) (reference : ContractRef)
          → (replay_previous codec s c reference o >>= λ (t : Snapshot). ok (record t {
            records = t.records ++ c ∷ [];
            current_pointers = replace_pointer t.current_pointers reference;
          }))
            ≡ ok s'
          → s'.records ≡ s.records ++ c ∷ []
      kept none reference k = ground arith
      kept (some p) reference k = elim (Result-cases (invalidate_dependents codec s p)) [
        | inr (x, f) ↦ absurd (ground arith)
        | inl (t, f) ↦ ground (arith, invalidate-keeps s t p f)
      ]

  replay_from-records :
      (s s' : Snapshot) (cs : List ContractSnapshot)
      → replay_from codec s cs ≡ ok s'
      → s'.records ≡ s.records ++ cs
  unfolding replay_from
  replay_from-records s s' [] h = ground (arith, append-nil s.records)
  replay_from-records s s' (c ∷ cs) h = elim (Result-cases (replay_record codec s c)) [
    | inr (x, e) ↦ absurd (ground arith)
    | inl (t, e) ↦
        replay_from-records t s' cs (ground arith)
        ∙ ap (λ l. l ++ cs) (replay_record-records s t c e)
        ∙ append_assoc s.records (c ∷ []) cs
  ]

  -- The history of a snapshot replays to its pointers and its invalidated references.
  pub Replays : Snapshot → Type 0
  Replays s = (t : Snapshot) × (replay_history codec s.records ≡ ok t) × Agrees s t

  check_replay-Replays : (s : Snapshot) → check_replay codec s ≡ ok tt → Replays s
  unfolding check_replay Replays replay_history
  check_replay-Replays s h = elim (Result-cases (replay_history codec s.records)) [
    | inr (x, e) ↦ absurd (ground arith)
    | inl (t, e) ↦ (
      t,
      e,
      record {
        records = sym (replay_from-records default_snapshot t s.records e);
        pointers = ground arith;
        invalidated = ground arith;
      },
    )
  ]

  Replays-check_replay : (s : Snapshot) → Replays s → check_replay codec s ≡ ok tt
  unfolding check_replay Replays
  Replays-check_replay s (t, e, g) = ground arith

  -- A commit on a snapshot whose pointers and invalidated references are those that its history
  -- replays to leads to another such snapshot, whose history is the old one with the new record at
  -- its end: the replay that `validate_snapshot` makes of the pointers and the invalidated references
  -- does not refuse what a commit makes of a snapshot that it accepts.
  pub commit_candidate-replay :
      (s s' : Snapshot) (c : ContractSnapshot) (reference : ContractRef)
      (proof : Option ReceiptProof)
      → check_replay codec s ≡ ok tt
      → record_ref codec c ≡ ok reference
      → commit_candidate codec c proof reference s ≡ ok s'
      → (check_replay codec s' ≡ ok tt) × (s'.records ≡ s.records ++ c ∷ [])
  unfolding Replays replay_history
  commit_candidate-replay s s' c reference proof h e k =
      let (t, f, g) = check_replay-Replays s h in
      let (t', r, g') = commit-replays s t s' c reference proof g e k in
      let history : s'.records ≡ s.records ++ c ∷ [] =
        g'.records ∙ replay_record-records t t' c r ∙ ap (λ l. l ++ c ∷ []) (sym g.records) in
      (
        Replays-check_replay s' (
          t',
          ap (replay_from codec default_snapshot) history
              ∙ replay-append default_snapshot t t' s.records c f r,
          g',
        ),
        history,
      )

  -- The comparison reads the history, the pointers and the invalidated references only.
  pub Agrees-check_replay :
      (s t : Snapshot) → Agrees s t → check_replay codec t ≡ ok tt → check_replay codec s ≡ ok tt
  unfolding check_replay
  Agrees-check_replay s t g h = ground arith
