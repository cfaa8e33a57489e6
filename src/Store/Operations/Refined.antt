-- ===== src/Store/Operations/Refined.antt =====
-- The operations refine the steps of the snapshot.
use idr.Base.{
  ℕ, ◌≡◌, inl, inr, refl, sym, ap, subst, ◌∙◌, any, nat_eq, Option, none, some, is_some, ok, err,
  arith, Text, Bool-cases, Result-cases, Option-cases, ◌differs◌, if◌then◌else◌,
}
use idr.Protocol.Reference.{Reference, reference_eq}
use idr.Protocol.Id.{Uuid, id_eq, kind_eq}
use idr.Protocol.Digest.{Codec}
use idr.Protocol.ContractRef.{ContractRef, contract_ref_eq}
use idr.Protocol.Permit.{VerifiedPermitRequest}
use idr.Store.Error.{Stored, lift, verified_receipt_proof_required}
use idr.Store.Contract
use idr.Store.Contract.{ContractSnapshot, record_ref, is_named}
use idr.Store.Snapshot.{
  Snapshot, reservation_status_eq, permit_request_eq, ExecutionPermit, ReservationStatus,
  permit_issued, delivered, dispatched,
}
use idr.Store.Anchors.{Format}
use idr.Store.Machine.{Store, Effect, ◌>>=◌, ◌>>◌, pure, from}
use idr.Store.Files.{refresh}
use idr.Store.Operations.Leaves.{Leaves, kept}
use idr.Store.Reserve.{reserve, issued_permit}
use idr.Store.Commit.{ReceiptProof, is_receipt, commit_candidate}
use idr.Store.Permits.{Change, unchanged, permit_transition, permit_recovery, recovered_permit}
use idr.Store.Steps.{commit, issue, transition, recovery, Marks, delivery, dispatch}
use idr.Store.Operations
use idr.Store.Operations.{
  CommitOutcome, now, store_candidate, check_proof, commit_new, commit_internal,
  issue_execution_permit, report, apply_change, transition_execution_permit,
  mark_execution_permit_delivered, mark_execution_dispatched, recover_execution_permit,
}
use idr.Store.Operations.Sequels.{
  StepsFrom, Refines, pure-StepsFrom, now-StepsFrom, from-StepsFrom, store-StepsFrom,
  change-StepsFrom, return-StepsFrom, refresh-Refines, from-Refines, refuse-Refines,
}
use idr.Store.Operations.Idle.{
  AlreadyRecorded, NotIssued, AlreadyMarked, Recoverable, marked, recoverable,
}

module _ (format : Format) (codec : Codec) (hyphenated : Uuid → Text) (clock : Option ℕ) where
  commit_new-StepsFrom :
      (c : ContractSnapshot) (proof : Option ReceiptProof) (reference : ContractRef) (s : Snapshot)
      → record_ref codec c ≡ ok reference
      → StepsFrom format codec hyphenated clock
          (AlreadyRecorded codec c s)
          s
          (commit_new format codec hyphenated clock c proof reference s)
  unfolding commit_new StepsFrom
  commit_new-StepsFrom c proof reference s r st e =
      elim (Result-cases (commit_candidate codec c proof reference s)) [
        | inr (x, k) ↦ rw k (kept e refl (λ a h. absurd (ground arith)))
        | inl (u, k) ↦ rw k (
            store-StepsFrom format codec hyphenated clock (AlreadyRecorded codec c s) s u
              (pure (Operations.committed reference)) (λ x. (refl, refl))
              (commit c proof reference r k) st e)
      ]

  issue-Refines :
      (minted : Uuid) (v : VerifiedPermitRequest)
      → Refines format codec hyphenated clock NotIssued
          (issue_execution_permit format codec hyphenated clock minted v)
  unfolding issue_execution_permit
  issue-Refines minted v =
      refresh-Refines format codec hyphenated clock NotIssued
        (λ s. now format codec hyphenated clock >>= λ t.
          from (reserve codec minted v t s) >>= λ (u, id).
          store_candidate format codec hyphenated clock s u >> pure (issued_permit v t id))
        (λ s.
          now-StepsFrom format codec hyphenated clock (NotIssued s) s
            (λ t. from (reserve codec minted v t s) >>= λ (u, id).
              store_candidate format codec hyphenated clock s u >> pure (issued_permit v t id))
            (λ t.
              from-StepsFrom format codec hyphenated clock (NotIssued s) s
                (reserve codec minted v t s)
                (λ (u, id).
                  store_candidate format codec hyphenated clock s u >> pure (issued_permit v t id))
                (λ (u, id) h.
                  store-StepsFrom format codec hyphenated clock (NotIssued s) s u
                    (pure (issued_permit v t id)) (λ x. (refl, refl)) (issue minted v t id h))))

  transition-Refines :
      (permit : ExecutionPermit) (expected to : ReservationStatus)
      → Marks expected to
      → Refines format codec hyphenated clock
          (AlreadyMarked permit to)
          (transition_execution_permit format codec hyphenated clock permit expected to)
  unfolding transition_execution_permit
  transition-Refines permit expected to m =
      refresh-Refines format codec hyphenated clock (AlreadyMarked permit to)
        (λ s. now format codec hyphenated clock >>= λ t.
          from (permit_transition permit expected to t s) >>= λ (r, change).
          apply_change format codec hyphenated clock s r.reservation_id change)
        (λ s.
          now-StepsFrom format codec hyphenated clock (AlreadyMarked permit to s) s
            (λ t. from (permit_transition permit expected to t s) >>= λ (r, change).
              apply_change format codec hyphenated clock s r.reservation_id change)
            (λ t.
              from-StepsFrom format codec hyphenated clock (AlreadyMarked permit to s) s
                (permit_transition permit expected to t s)
                (λ (r, change).
                  apply_change format codec hyphenated clock s r.reservation_id change)
                (λ (r, change) h.
                  change-StepsFrom format codec hyphenated clock (AlreadyMarked permit to s) s
                    r.reservation_id change (λ k. marked s permit expected to t r change h k)
                    (λ f error k.
                      transition permit expected to t r f error m
                        (h ∙ ap (λ (c : Change). ok (r, c)) k) refl))))

  recovery-Refines :
      (action_ref : ContractRef) (owner_ref : Reference)
      → Refines format codec hyphenated clock
          (Recoverable action_ref owner_ref)
          (recover_execution_permit format codec hyphenated clock action_ref owner_ref)
  unfolding recover_execution_permit
  recovery-Refines action_ref owner_ref =
      refresh-Refines format codec hyphenated clock (Recoverable action_ref owner_ref)
        (λ s. now format codec hyphenated clock >>= λ t.
          from (permit_recovery action_ref owner_ref t s) >>= λ (r, a, change).
          apply_change format codec hyphenated clock s r.reservation_id change
          >> pure (recovered_permit r a))
        (λ s.
          now-StepsFrom format codec hyphenated clock (Recoverable action_ref owner_ref s) s
            (λ t. from (permit_recovery action_ref owner_ref t s) >>= λ (r, a, change).
              apply_change format codec hyphenated clock s r.reservation_id change
              >> pure (recovered_permit r a))
            (λ t.
              from-StepsFrom format codec hyphenated clock (Recoverable action_ref owner_ref s) s
                (permit_recovery action_ref owner_ref t s)
                (λ (r, a, change).
                  apply_change format codec hyphenated clock s r.reservation_id change
                  >> pure (recovered_permit r a))
                (λ (r, a, change) h.
                  return-StepsFrom format codec hyphenated clock (λ _. change ≡ unchanged)
                    (Recoverable action_ref owner_ref s) s
                    (apply_change format codec hyphenated clock s r.reservation_id change)
                    (recovered_permit r a) (λ k. recoverable s action_ref owner_ref t r a change h)
                    (change-StepsFrom format codec hyphenated clock (λ _. change ≡ unchanged) s
                      r.reservation_id change (λ k. k)
                      (λ f error k.
                        recovery action_ref owner_ref t r a f error
                          (h ∙ ap (λ (c : Change). ok (r, a, c)) k) refl)))))

  check_proof-state :
      (c : ContractSnapshot) (proof : Option ReceiptProof) (st : Store)
      → (check_proof format codec hyphenated clock c proof st).1 ≡ st
  unfolding check_proof now
  check_proof-state c none st = refl
  check_proof-state (ContractSnapshot.execution_receipt r) (some p) st = elim (Option-cases clock) [
    | inl k ↦ rw k refl
    | inr (t, k) ↦ rw k refl
  ]
  check_proof-state (ContractSnapshot.intent _) (some p) st = refl
  check_proof-state (ContractSnapshot.decision _) (some p) st = refl
  check_proof-state (ContractSnapshot.turn_coordination _) (some p) st = refl
  check_proof-state (ContractSnapshot.response _) (some p) st = refl
  check_proof-state (ContractSnapshot.action _) (some p) st = refl
  check_proof-state (ContractSnapshot.outcome _) (some p) st = refl
  check_proof-state (ContractSnapshot.human_model_assertion _) (some p) st = refl

  proof-StepsFrom :
      {A : Type 0} (Idle : A → Type 0) (s : Snapshot) (c : ContractSnapshot)
      (proof : Option ReceiptProof) (m : Effect A)
      → StepsFrom format codec hyphenated clock Idle s m
      → StepsFrom format codec hyphenated clock Idle s
          (check_proof format codec hyphenated clock c proof >> m)
  unfolding StepsFrom
  proof-StepsFrom {A} Idle s c proof m h st e =
      behind (check_proof format codec hyphenated clock c proof st).0
        (check_proof format codec hyphenated clock c proof st).1 (check_proof-state c proof st)
    where
      behind :
          (r : Stored (Unit {0})) (st' : Store)
          → st' ≡ st
          → Leaves format codec hyphenated Idle s st
              (elim r [ ok _ ↦ m st' | err x ↦ (err x, st') ])
      behind (ok _) st' k =
          subst (λ (x : Store). Leaves format codec hyphenated Idle s st (m x)) (sym k) (h st e)
      behind (err x) st' k =
          kept (ap (λ (x : Store). x.cached) k ∙ e) (ap (λ (x : Store). x.disk) k)
            (λ a h. absurd (ground arith))

  -- The end of `commit_internal`.
  recorded_or_new :
      ContractSnapshot → Option ReceiptProof → ContractRef → Snapshot → Effect CommitOutcome
  recorded_or_new c proof reference s =
      if any (is_named codec reference) s.records
      then pure (Operations.already_committed reference)
      else commit_new format codec hyphenated clock c proof reference s

  recorded-StepsFrom :
      (c : ContractSnapshot) (proof : Option ReceiptProof) (reference : ContractRef) (s : Snapshot)
      → record_ref codec c ≡ ok reference
      → StepsFrom format codec hyphenated clock
          (AlreadyRecorded codec c s)
          s
          (recorded_or_new c proof reference s)
  unfolding recorded_or_new AlreadyRecorded
  recorded-StepsFrom c proof reference s r =
      elim (Bool-cases (any (is_named codec reference) s.records)) [
        | inl old ↦ rw old (
            pure-StepsFrom format codec hyphenated clock (AlreadyRecorded codec c s) s
              (Operations.already_committed reference) (reference, r, refl, old))
        | inr fresh ↦ rw fresh (commit_new-StepsFrom c proof reference s r)
      ]

  lifted_ref :
      (c : ContractSnapshot) (reference : ContractRef)
      → lift (record_ref codec c) ≡ ok reference
      → record_ref codec c ≡ ok reference
  lifted_ref c reference h = ground arith

  commit-Refines :
      (c : ContractSnapshot) (proof : Option ReceiptProof)
      → Refines format codec hyphenated clock
          (AlreadyRecorded codec c)
          (commit_internal format codec hyphenated clock c proof)
  unfolding commit_internal recorded_or_new
  commit-Refines c proof =
      refuse-Refines format codec hyphenated clock (AlreadyRecorded codec c)
        (is_receipt c differs is_some proof) verified_receipt_proof_required _
        (from-Refines format codec hyphenated clock (AlreadyRecorded codec c)
          (lift (Contract.validate codec c)) _
          (λ u valid.
            from-Refines format codec hyphenated clock (AlreadyRecorded codec c)
              (lift (record_ref codec c))
              (λ reference. refresh format codec hyphenated >>= λ s.
                check_proof format codec hyphenated clock c proof
                >> recorded_or_new c proof reference s)
              (λ reference h.
                refresh-Refines format codec hyphenated clock (AlreadyRecorded codec c)
                  (λ s.
                    check_proof format codec hyphenated clock c proof
                    >> recorded_or_new c proof reference s)
                  (λ s.
                    proof-StepsFrom (AlreadyRecorded codec c s) s c proof
                      (recorded_or_new c proof reference s)
                      (recorded-StepsFrom c proof reference s (lifted_ref c reference h))))))

  -- Every operation that writes refines the steps of the snapshot, whatever it returns and wherever
  -- a call of the file system fails. It returns an error before it has a snapshot, and the one in
  -- memory and the snapshot file stay; or it has loaded a snapshot from the files, the load has left
  -- the snapshot file as it was, and one of three things holds. Neither the loaded snapshot nor the
  -- files have changed since, and the operation returns an error, or there was nothing to write: the
  -- contract is recorded and reported as such, the permit's last attempt is already marked so, or
  -- the returned permit is that of an attempt of this owner for this action, issued or delivered. Or
  -- the operation returns an error, the loaded snapshot is in memory, and the snapshot file is the
  -- old one or that of a valid step. Or a valid step of the loaded snapshot is in memory, its bytes
  -- are the snapshot file, and its anchor is one more line of the anchor file. So an issue
  -- that succeeds has written.
  pub operations-Refines :
      (c : ContractSnapshot) (proof : Option ReceiptProof) (minted : Uuid)
      (v : VerifiedPermitRequest) (permit : ExecutionPermit) (action_ref : ContractRef)
      (owner_ref : Reference)
      → Refines format codec hyphenated clock
          (AlreadyRecorded codec c)
          (commit_internal format codec hyphenated clock c proof)
        × Refines format codec hyphenated clock NotIssued
            (issue_execution_permit format codec hyphenated clock minted v)
        × Refines format codec hyphenated clock
            (AlreadyMarked permit delivered)
            (mark_execution_permit_delivered format codec hyphenated clock permit)
        × Refines format codec hyphenated clock
            (AlreadyMarked permit dispatched)
            (mark_execution_dispatched format codec hyphenated clock permit)
        × Refines format codec hyphenated clock
            (Recoverable action_ref owner_ref)
            (recover_execution_permit format codec hyphenated clock action_ref owner_ref)
  unfolding mark_execution_permit_delivered mark_execution_dispatched
  operations-Refines c proof minted v permit action_ref owner_ref = (
    commit-Refines c proof,
    issue-Refines minted v,
    transition-Refines permit permit_issued delivered (delivery refl refl),
    transition-Refines permit delivered dispatched (dispatch refl refl),
    recovery-Refines action_ref owner_ref,
  )
