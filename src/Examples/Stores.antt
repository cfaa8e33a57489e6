-- ===== src/Examples/Stores.antt =====
-- The theorems on the file store at concrete inputs.
use idr.Base.{
  ℕ, ◌≡◌, ◌≢◌, ◌↔◌, ◌⊎◌, ◌++◌, ◌==◌, ◌+◌, refl, sym, subst, inl, inr, ok, err, [], ◌∷◌, some, none,
  arith, List, Elem, Distinct, map, true, false, if◌then◌else◌,
}
use idr.Base
use idr.Protocol.Id.{intent, action, decision}
use idr.Protocol.ContractRef.{ContractRef}
use idr.Store.Error.{execution_lease_expired}
use idr.Store.Contract
use idr.Store.Contract.{record_ref}
use idr.Store.Snapshot.{
  Snapshot, Attempt, Reservation, permit_issued, delivered, dispatched, expired, record_of,
  reservation_status_eq, ExecutionPermit, is_current,
}
use idr.Store.Validity.{check_replay, validate_snapshot}
use idr.Store.Validity.Reservations.{mistimed}
use idr.Store.Anchors.{Format}
use idr.Store.Invalidation.{invalidate_dependents}
use idr.Store.Invalidation.Closure.{Affected, invalidate_dependents-exact}
use idr.Store.Commit.Replay.{commit_candidate-replay}
use idr.Store.Steps.Replayed.{Grows, Reachable-replay}
use idr.Store.Steps.InFlight.{KeepsCurrent}
use idr.Store.Steps.Fates.{Heir, Fate}
use idr.Store.Steps.Current.{Step-Fate, Reachable-KeepsCurrent}
use idr.Store.Reserve.{check_retry, issued_permit}
use idr.Store.Reserve.Rules.{Grounds, reserve-Grounds}
use idr.Store.Permits.{is_over, set_status, changed, judge_transition}
use idr.Store.Permits.Lifecycle.{dispatched_expires}
use idr.Store.Operations.{
  commit_internal, issue_execution_permit, mark_execution_permit_delivered,
  mark_execution_dispatched, recover_execution_permit,
}
use idr.Store.Operations.Sequels.{Refines}
use idr.Store.Operations.Idle.{AlreadyRecorded, NotIssued, AlreadyMarked, Recoverable}
use idr.Store.Operations.Refined.{operations-Refines}
use idr.Store.Accepted.{validate_snapshot-attempts}
use idr.Store.Accepted.Attempts.{Numbered, action_of, proof_of, nonce_of, authorization_of}
use idr.Examples.Samples.{zeros, name, ref, blank_codec, printed}
use idr.Examples.Permits.{permit}
use idr.Examples.Stored.{
  revised_record, revised_ref, revised_named, attempt, reservation, planned, permitted, revised,
  sealed_revised, permit_reserved, revision_committed, revision_step, Reachable-permitted,
}

permitted_replayed : check_replay blank_codec permitted ≡ ok tt
permitted_replayed =
    (Reachable-replay blank_codec permitted sealed_revised Reachable-permitted revision_step).0

commit_candidate-replay_example :
    (check_replay blank_codec revised ≡ ok tt)
    × (revised.records ≡ permitted.records ++ revised_record ∷ [])
commit_candidate-replay_example =
    commit_candidate-replay blank_codec permitted revised revised_record revised_ref none
      permitted_replayed revised_named revision_committed

Reachable-replay_example :
    (check_replay blank_codec permitted ≡ ok tt)
    × (check_replay blank_codec sealed_revised ≡ ok tt)
    × Grows blank_codec permitted sealed_revised
Reachable-replay_example =
    Reachable-replay blank_codec permitted sealed_revised Reachable-permitted revision_step

intent_found : record_of blank_codec permitted.records (ref intent 12) ≢ none
unfolding Base.Text-discrete Base.all Base.any Base.contains Base.dedup Base.filter Base.has_control
    Base.is_blank Base.len Base.sort Base.sort_dedup Base.trim Base.try_each Base.ℕ_discrete
    idr.Protocol.Collections.validate_required_text
    idr.Protocol.Collections.validate_text_collection idr.Protocol.ContractRef.ContractRef-discrete
    idr.Protocol.ContractRef.cmp idr.Protocol.ContractRef.new idr.Protocol.ContractRef.validate
    idr.Protocol.Digest.check_digest idr.Protocol.Digest.contract_digest
    idr.Protocol.Digest.valid_digest idr.Protocol.Id.ContractKind-discrete
    idr.Protocol.Id.Identifier-discrete idr.Protocol.Metadata.check_dependency
    idr.Protocol.Metadata.check_lineage idr.Protocol.Metadata.continues
    idr.Protocol.Metadata.malformed idr.Protocol.Metadata.validate
    idr.Protocol.Reference.Reference-discrete idr.Protocol.Reference.new
    idr.Protocol.Reference.refused idr.Protocol.Reference.validate Contract.record_ref
    idr.Base.BTree.add idr.Base.BTree.lookup idr.Base.BTree.update
    idr.Protocol.Intent.ListText-discrete idr.Protocol.Intent.ResolutionMethod-discrete
    idr.Protocol.Intent.collect_ranks idr.Protocol.Intent.miscomposed idr.Protocol.Intent.ranks_from
    idr.Protocol.Intent.validate idr.Protocol.Intent.validate_hypothesis
    idr.Protocol.Intent.validate_ranked_hypotheses idr.Protocol.Intent.record_ref
    idr.Protocol.Collections.unique_strings idr.Protocol.Decision.badly_weighted
    idr.Protocol.Decision.check_choice idr.Protocol.Decision.check_collections
    idr.Protocol.Decision.check_option idr.Protocol.Decision.check_recommendation
    idr.Protocol.Decision.validate idr.Protocol.Decision.validate_risk
    idr.Protocol.Decision.record_ref idr.Protocol.Action.AuthorizationState-discrete
    idr.Protocol.Action.check_decision_ref idr.Protocol.Action.check_impact
    idr.Protocol.Action.check_parameters idr.Protocol.Action.record_ref idr.Protocol.Action.validate
    idr.Protocol.Json.validate_json_payload idr.Protocol.Json.walk idr.Store.Snapshot.pointer_to
    idr.Store.Snapshot.record_of idr.Store.Contract.is_named Base.find
    idr.Store.Snapshot.OptionRef-discrete idr.Protocol.Reference.AuthorityContext-discrete
    idr.Store.Snapshot.is_current Base.last Base.map_first Base.map_last
    idr.Store.History.lineage_context_is_continuous idr.Store.Sealing.compute_snapshot_digest
intent_found h = ground arith

decision_found : record_of blank_codec permitted.records (ref decision 9) ≢ none
unfolding Base.Text-discrete Base.all Base.any Base.contains Base.dedup Base.filter Base.has_control
    Base.is_blank Base.len Base.sort Base.sort_dedup Base.trim Base.try_each Base.ℕ_discrete
    idr.Protocol.Collections.validate_required_text
    idr.Protocol.Collections.validate_text_collection idr.Protocol.ContractRef.ContractRef-discrete
    idr.Protocol.ContractRef.cmp idr.Protocol.ContractRef.new idr.Protocol.ContractRef.validate
    idr.Protocol.Digest.check_digest idr.Protocol.Digest.contract_digest
    idr.Protocol.Digest.valid_digest idr.Protocol.Id.ContractKind-discrete
    idr.Protocol.Id.Identifier-discrete idr.Protocol.Metadata.check_dependency
    idr.Protocol.Metadata.check_lineage idr.Protocol.Metadata.continues
    idr.Protocol.Metadata.malformed idr.Protocol.Metadata.validate
    idr.Protocol.Reference.Reference-discrete idr.Protocol.Reference.new
    idr.Protocol.Reference.refused idr.Protocol.Reference.validate Contract.record_ref
    idr.Base.BTree.add idr.Base.BTree.lookup idr.Base.BTree.update
    idr.Protocol.Intent.ListText-discrete idr.Protocol.Intent.ResolutionMethod-discrete
    idr.Protocol.Intent.collect_ranks idr.Protocol.Intent.miscomposed idr.Protocol.Intent.ranks_from
    idr.Protocol.Intent.validate idr.Protocol.Intent.validate_hypothesis
    idr.Protocol.Intent.validate_ranked_hypotheses idr.Protocol.Intent.record_ref
    idr.Protocol.Collections.unique_strings idr.Protocol.Decision.badly_weighted
    idr.Protocol.Decision.check_choice idr.Protocol.Decision.check_collections
    idr.Protocol.Decision.check_option idr.Protocol.Decision.check_recommendation
    idr.Protocol.Decision.validate idr.Protocol.Decision.validate_risk
    idr.Protocol.Decision.record_ref idr.Protocol.Action.AuthorizationState-discrete
    idr.Protocol.Action.check_decision_ref idr.Protocol.Action.check_impact
    idr.Protocol.Action.check_parameters idr.Protocol.Action.record_ref idr.Protocol.Action.validate
    idr.Protocol.Json.validate_json_payload idr.Protocol.Json.walk idr.Store.Snapshot.pointer_to
    idr.Store.Snapshot.record_of idr.Store.Contract.is_named Base.find
    idr.Store.Snapshot.OptionRef-discrete idr.Protocol.Reference.AuthorityContext-discrete
    idr.Store.Snapshot.is_current Base.last Base.map_first Base.map_last
    idr.Store.History.lineage_context_is_continuous idr.Store.Sealing.compute_snapshot_digest
decision_found h = ground arith

action_found : record_of blank_codec permitted.records (ref action 7) ≢ none
unfolding Base.Text-discrete Base.all Base.any Base.contains Base.dedup Base.filter Base.has_control
    Base.is_blank Base.len Base.sort Base.sort_dedup Base.trim Base.try_each Base.ℕ_discrete
    idr.Protocol.Collections.validate_required_text
    idr.Protocol.Collections.validate_text_collection idr.Protocol.ContractRef.ContractRef-discrete
    idr.Protocol.ContractRef.cmp idr.Protocol.ContractRef.new idr.Protocol.ContractRef.validate
    idr.Protocol.Digest.check_digest idr.Protocol.Digest.contract_digest
    idr.Protocol.Digest.valid_digest idr.Protocol.Id.ContractKind-discrete
    idr.Protocol.Id.Identifier-discrete idr.Protocol.Metadata.check_dependency
    idr.Protocol.Metadata.check_lineage idr.Protocol.Metadata.continues
    idr.Protocol.Metadata.malformed idr.Protocol.Metadata.validate
    idr.Protocol.Reference.Reference-discrete idr.Protocol.Reference.new
    idr.Protocol.Reference.refused idr.Protocol.Reference.validate Contract.record_ref
    idr.Base.BTree.add idr.Base.BTree.lookup idr.Base.BTree.update
    idr.Protocol.Intent.ListText-discrete idr.Protocol.Intent.ResolutionMethod-discrete
    idr.Protocol.Intent.collect_ranks idr.Protocol.Intent.miscomposed idr.Protocol.Intent.ranks_from
    idr.Protocol.Intent.validate idr.Protocol.Intent.validate_hypothesis
    idr.Protocol.Intent.validate_ranked_hypotheses idr.Protocol.Intent.record_ref
    idr.Protocol.Collections.unique_strings idr.Protocol.Decision.badly_weighted
    idr.Protocol.Decision.check_choice idr.Protocol.Decision.check_collections
    idr.Protocol.Decision.check_option idr.Protocol.Decision.check_recommendation
    idr.Protocol.Decision.validate idr.Protocol.Decision.validate_risk
    idr.Protocol.Decision.record_ref idr.Protocol.Action.AuthorizationState-discrete
    idr.Protocol.Action.check_decision_ref idr.Protocol.Action.check_impact
    idr.Protocol.Action.check_parameters idr.Protocol.Action.record_ref idr.Protocol.Action.validate
    idr.Protocol.Json.validate_json_payload idr.Protocol.Json.walk idr.Store.Snapshot.pointer_to
    idr.Store.Snapshot.record_of idr.Store.Contract.is_named Base.find
    idr.Store.Snapshot.OptionRef-discrete idr.Protocol.Reference.AuthorityContext-discrete
    idr.Store.Snapshot.is_current Base.last Base.map_first Base.map_last
    idr.Store.History.lineage_context_is_continuous idr.Store.Sealing.compute_snapshot_digest
action_found h = ground arith

permitted_recorded :
    (p : ContractRef)
    → Elem p permitted.current_pointers
    → record_of blank_codec permitted.records p ≢ none
permitted_recorded p (inl e) =
    subst (λ (x : ContractRef). record_of blank_codec permitted.records x ≢ none) (sym e)
      intent_found
permitted_recorded p (inr (inl e)) =
    subst (λ (x : ContractRef). record_of blank_codec permitted.records x ≢ none) (sym e)
      decision_found
permitted_recorded p (inr (inr (inl e))) =
    subst (λ (x : ContractRef). record_of blank_codec permitted.records x ≢ none) (sym e)
      action_found
permitted_recorded p (inr (inr (inr m))) = elim m [ ]

invalidate_dependents-exact_example :
    (s' : Snapshot) × (invalidate_dependents blank_codec permitted (ref intent 12) ≡ ok s')
    × ((p : ContractRef)
        → Elem p s'.invalidated_refs ↔ (
            Elem p permitted.invalidated_refs
            ⊎ Affected blank_codec permitted.records permitted.current_pointers
                permitted.invalidated_refs
                (ref intent 12)
                p))
    × (s'.records ≡ permitted.records)
    × (s'.current_pointers ≡ permitted.current_pointers)
invalidate_dependents-exact_example =
    invalidate_dependents-exact blank_codec permitted (ref intent 12) permitted_recorded

permitted_current : KeepsCurrent permitted
permitted_current = (Reachable-KeepsCurrent blank_codec permitted Reachable-permitted)

-- The revision of the intent makes the action stale, whose attempt was issued.
transfer_stale : is_current sealed_revised (ref action 7) ≡ false
unfolding is_current Base.contains idr.Protocol.ContractRef.ContractRef-discrete
    idr.Protocol.Id.ContractKind-discrete idr.Protocol.Id.Identifier-discrete Base.ℕ_discrete
    Base.Text-discrete
transfer_stale = refl

attempt_last : Base.last reservation.attempts ≡ some attempt
unfolding Base.last
attempt_last = refl

Step-Fate_example :
    Heir sealed_revised.execution_reservations reservation attempt (Fate sealed_revised attempt)
Step-Fate_example =
    Step-Fate blank_codec permitted sealed_revised reservation attempt permitted_current
      revision_step (inl refl) attempt_last refl transfer_stale

Reachable-KeepsCurrent_example : KeepsCurrent permitted
Reachable-KeepsCurrent_example = Reachable-KeepsCurrent blank_codec permitted Reachable-permitted

-- Files whose every value is one byte.
abbrev blank_format : Format
blank_format = record {
  snapshot_bytes = λ s. some (48 ∷ []);
  parse_snapshot = λ bytes. some permitted;
  anchor_bytes = λ anchor. some (48 ∷ []);
  parse_anchor = λ bytes. none;
}

abbrev owned : ExecutionPermit
owned = issued_permit permit 20 99

operations-Refines_example :
    Refines blank_format blank_codec printed
      (some 20)
      (AlreadyRecorded blank_codec revised_record)
      (commit_internal blank_format blank_codec printed (some 20) revised_record none)
    × Refines blank_format blank_codec printed
        (some 20)
        NotIssued
        (issue_execution_permit blank_format blank_codec printed (some 20) 99 permit)
    × Refines blank_format blank_codec printed
        (some 20)
        (AlreadyMarked owned delivered)
        (mark_execution_permit_delivered blank_format blank_codec printed (some 20) owned)
    × Refines blank_format blank_codec printed
        (some 20)
        (AlreadyMarked owned dispatched)
        (mark_execution_dispatched blank_format blank_codec printed (some 20) owned)
    × Refines blank_format blank_codec printed (some 20) (Recoverable (ref action 7) (name b'w')) (
        recover_execution_permit blank_format blank_codec printed
          (some 20)
          (ref action 7)
          (name b'w'))
operations-Refines_example =
    operations-Refines blank_format blank_codec printed (some 20) revised_record none 99 permit
      owned (ref action 7) (name b'w')

abbrev sent : Attempt
sent = record attempt { status = dispatched; delivered_at = some 21; dispatched_at = some 22 }

sent_over : is_over 45 sent ≡ true
unfolding is_over
sent_over = refl

sent_timed : mistimed sent ≡ false
unfolding mistimed
sent_timed = refl

dispatched_expires_example :
    (judge_transition true 45 delivered dispatched sent
      ≡ ok (changed (set_status expired) (some execution_lease_expired)))
    × (mistimed (set_status expired sent) ≡ false)
    × (check_retry 2 (set_status expired sent) ≡ ok tt)
    × (check_retry 2 sent ≢ ok tt)
dispatched_expires_example =
    dispatched_expires 45 delivered dispatched sent refl sent_over sent_timed (ground arith)

reserve-Grounds_example :
    Grounds blank_codec permit 20 planned
    × ((r : Reservation) (t : Attempt)
        → Elem r planned.execution_reservations
        → Elem t r.attempts
        → (t.proof_id ≢ permit.verified_proof.envelope.claims.proof_id)
          × (t.proof_nonce ≢ zeros)
          × (t.authorization.authorization_id ≢ 3))
reserve-Grounds_example = reserve-Grounds blank_codec 99 99 permit 20 planned _ permit_reserved

pub permitted_accepted : validate_snapshot blank_codec printed permitted ≡ ok tt
unfolding validate_snapshot idr.Protocol.Hex.decode_hex idr.Base.Bytes.as_bytes
    idr.Store.Validity.check_seal idr.Store.Validity.check_sealed idr.Store.Validity.check_initial
    idr.Store.Validity.collect_refs idr.Store.Validity.check_records idr.Store.Validity.misplaced
    idr.Store.Validity.insert_latest idr.Store.Validity.check_pointers
    idr.Store.Validity.check_invalidated idr.Store.Validity.check_replay
    idr.Store.Validity.ListRef-discrete idr.Store.Validity.Reservations.validate_reservations
    idr.Store.Validity.Reservations.check_reservations
    idr.Store.Validity.Reservations.check_attempts idr.Store.Validity.Reservations.check_receipt_ref
    idr.Store.Validity.Reservations.misreserved idr.Store.Validity.Reservations.misattributed
    idr.Store.Validity.Reservations.is_reused idr.Store.Validity.Reservations.mistimed
    idr.Store.History.replay_history idr.Store.History.replay_from idr.Store.History.replay_record
    idr.Store.History.replay_previous idr.Store.Sealing.compute_snapshot_digest Contract.validate
    idr.Protocol.Proof.validate_shape idr.Protocol.Proof.validate
    idr.Protocol.Proof.ProofKind-discrete Base.index_of Base.Text-discrete Base.all Base.any
    Base.contains Base.dedup Base.filter Base.has_control Base.is_blank Base.len Base.sort
    Base.sort_dedup Base.trim Base.try_each Base.ℕ_discrete
    idr.Protocol.Collections.validate_required_text
    idr.Protocol.Collections.validate_text_collection idr.Protocol.ContractRef.ContractRef-discrete
    idr.Protocol.ContractRef.cmp idr.Protocol.ContractRef.new idr.Protocol.ContractRef.validate
    idr.Protocol.Digest.check_digest idr.Protocol.Digest.contract_digest
    idr.Protocol.Digest.valid_digest idr.Protocol.Id.ContractKind-discrete
    idr.Protocol.Id.Identifier-discrete idr.Protocol.Metadata.check_dependency
    idr.Protocol.Metadata.check_lineage idr.Protocol.Metadata.continues
    idr.Protocol.Metadata.malformed idr.Protocol.Metadata.validate
    idr.Protocol.Reference.Reference-discrete idr.Protocol.Reference.new
    idr.Protocol.Reference.refused idr.Protocol.Reference.validate Contract.record_ref
    idr.Base.BTree.add idr.Base.BTree.lookup idr.Base.BTree.update
    idr.Protocol.Intent.ListText-discrete idr.Protocol.Intent.ResolutionMethod-discrete
    idr.Protocol.Intent.collect_ranks idr.Protocol.Intent.miscomposed idr.Protocol.Intent.ranks_from
    idr.Protocol.Intent.validate idr.Protocol.Intent.validate_hypothesis
    idr.Protocol.Intent.validate_ranked_hypotheses idr.Protocol.Intent.record_ref
    idr.Protocol.Collections.unique_strings idr.Protocol.Decision.badly_weighted
    idr.Protocol.Decision.check_choice idr.Protocol.Decision.check_collections
    idr.Protocol.Decision.check_option idr.Protocol.Decision.check_recommendation
    idr.Protocol.Decision.validate idr.Protocol.Decision.validate_risk
    idr.Protocol.Decision.record_ref idr.Protocol.Action.AuthorizationState-discrete
    idr.Protocol.Action.check_decision_ref idr.Protocol.Action.check_impact
    idr.Protocol.Action.check_parameters idr.Protocol.Action.record_ref idr.Protocol.Action.validate
    idr.Protocol.Json.validate_json_payload idr.Protocol.Json.walk idr.Store.Snapshot.pointer_to
    idr.Store.Snapshot.record_of idr.Store.Contract.is_named
    idr.Store.Consistency.validate_cross_object_consistency idr.Store.Invalidation.replace_pointer
    Base.find idr.Store.Snapshot.OptionRef-discrete idr.Protocol.Reference.AuthorityContext-discrete
    idr.Store.Consistency.find_record idr.Store.Consistency.same_context
    idr.Store.Consistency.check_decision idr.Store.Consistency.check_action_decision
    idr.Store.Consistency.exceeds idr.Protocol.Authorization.AuthorizationDecision-discrete
    idr.Protocol.Authorization.authorization_digest idr.Protocol.Authorization.outside_window
    idr.Protocol.Authorization.unbound idr.Protocol.Authorization.validate_for
    idr.Protocol.Permit.badly_leased idr.Protocol.Permit.miscopied idr.Protocol.Permit.untimely
    idr.Protocol.Permit.validate_at idr.Protocol.Permit.validate_for idr.Store.Snapshot.is_current
    Base.last Base.map_first idr.Store.Invalidation.invalidate_dependents
    idr.Store.Invalidation.invalidate_loop idr.Store.Invalidation.visit_pointers
    idr.Store.Invalidation.visit_pointer idr.Store.Invalidation.invalidate_execution_reservation
    idr.Store.Invalidation.reconcile_invalidated_execution_reservations Base.map_last
    idr.Store.History.lineage_context_is_continuous
permitted_accepted = refl

validate_snapshot-attempts_example :
    Distinct (action_of reservation ∷ [])
    × ((r : Reservation) → Elem r permitted.execution_reservations → Numbered 1 r.attempts)
    × Distinct (proof_of attempt ∷ [])
    × Distinct (nonce_of attempt ∷ [])
    × Distinct (authorization_of attempt ∷ [])
validate_snapshot-attempts_example =
    validate_snapshot-attempts blank_codec printed permitted permitted_accepted
