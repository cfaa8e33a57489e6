-- ===== src/Examples/Recovery.antt =====
-- The recovery of the file store at a write that is cut off.
use idr.Base.{
  ℕ, ◌≡◌, ◌⊎◌, false, refl, ok, [], ◌∷◌, some, none, arith, List, Option, if◌then◌else◌, ◌==◌,
  nat_eq,
}
use idr.Base
use idr.Store.Contract
use idr.Store.Snapshot.{Snapshot}
use idr.Store.Validity.{validate_snapshot}
use idr.Store.Anchors.{
  AnchorRecord, anchored, append_needed, committed, judge_anchors, Format, committed_anchors,
}
use idr.Store.Machine.{Disk, Store, contents}
use idr.Store.Files.{persist_snapshot, load_snapshot, read_snapshot}
use idr.Store.Files.Loads.{started, is_blank_file, load_ok}
use idr.Store.Files.Recovery.{RoundTrips, Settled, persist_snapshot-recovers}
use idr.Examples.Samples.{zeros, blank_codec, printed}
use idr.Examples.Stored.{permitted, revised, sealed_revised, revision_sealed}
use idr.Examples.Stores.{permitted_accepted}

-- Two snapshots and the anchors of their chain, each written as its sequence.
abbrev numbered : ℕ → AnchorRecord
numbered n = record {
  sequence = n;
  snapshot_digest = zeros;
  previous_snapshot_digest = if n == 1 then none else some zeros;
}

abbrev snapshot_at : List ℕ → Option Snapshot
snapshot_at [] = none
snapshot_at (n ∷ _) = some (if n == 4 then permitted else sealed_revised)

abbrev anchor_at : List ℕ → Option AnchorRecord
anchor_at [] = none
anchor_at (n ∷ _) = some (numbered n)

abbrev by_number : Format
by_number = record {
  snapshot_bytes = λ s. some (s.sequence ∷ []);
  parse_snapshot = snapshot_at;
  anchor_bytes = λ a. some (a.sequence ∷ []);
  parse_anchor = anchor_at;
}

abbrev disk : Disk
disk = record {
  snapshot_file = some (4 ∷ []);
  anchor_file = some (1 ∷ 10 ∷ 2 ∷ 10 ∷ 3 ∷ 10 ∷ 4 ∷ 10 ∷ []);
}

abbrev chain : List AnchorRecord
chain = numbered 1 ∷ numbered 2 ∷ numbered 3 ∷ numbered 4 ∷ []

-- The write fails at the newline of the new anchor.
abbrev cut_off : Store
cut_off = record {
  cached = permitted;
  poisoned = false;
  disk = disk;
  faults = none ∷ none ∷ none ∷ none ∷ none ∷ none ∷ none ∷ none ∷ none ∷ some 0 ∷ [];
}

disk_whole : committed (contents disk.anchor_file) ≡ contents disk.anchor_file
unfolding committed Base.ℕ_discrete
disk_whole = refl

disk_anchors : committed_anchors by_number (contents disk.anchor_file) ≡ ok chain
unfolding committed_anchors idr.Store.Anchors.parse_anchors idr.Store.Anchors.committed_lines
    Base.ℕ_discrete Base.all idr.Store.Anchors.validate_anchor_chain idr.Store.Anchors.check_anchor
    idr.Protocol.Digest.valid_digest idr.Protocol.Receipt.OptionText-discrete Base.Text-discrete
disk_anchors = refl

disk_judged : judge_anchors permitted chain ≡ ok anchored
unfolding judge_anchors Base.ℕ_discrete Base.last Base.Text-discrete
    idr.Protocol.Receipt.OptionText-discrete
disk_judged = refl

disk_snapshot : read_snapshot by_number (started disk) ≡ (ok permitted, started disk)
unfolding read_snapshot idr.Store.Files.read_file idr.Store.Machine.quiet idr.Store.Files.parse_file
    Base.ℕ_discrete
disk_snapshot = refl

disk_bytes : is_blank_file (contents disk.anchor_file) chain ≡ false
unfolding committed Base.ℕ_discrete
disk_bytes = refl

disk-Settled : Settled by_number blank_codec printed disk permitted
disk-Settled = record {
  anchors = chain;
  loads = load_ok by_number blank_codec printed disk permitted (record {
    anchors = chain;
    verdict = anchored;
    line = 4 ∷ [];
    is_snapshot = disk_snapshot;
    is_valid = permitted_accepted;
    has_anchors = disk_anchors;
    has_bytes = disk_bytes;
    is_judged = disk_judged;
    is_written = refl;
  });
  is_whole = disk_whole;
  has_anchors = disk_anchors;
  is_judged = disk_judged;
}

revised_trips : RoundTrips by_number sealed_revised (5 ∷ []) (5 ∷ [])
unfolding Base.ℕ_discrete
revised_trips = record {
  snapshot_written = refl;
  snapshot_read = refl;
  has_image = refl;
  anchor_written = refl;
  anchor_read = refl;
  one_line = ((λ h. absurd (ground arith)), tt);
  starts = refl;
}

revised_accepted : validate_snapshot blank_codec printed sealed_revised ≡ ok tt
unfolding validate_snapshot idr.Protocol.Hex.decode_hex idr.Base.Bytes.as_bytes
    idr.Store.Validity.check_seal idr.Store.Validity.check_sealed idr.Store.Validity.check_initial
    idr.Store.Validity.collect_refs idr.Store.Validity.check_records idr.Store.Validity.misplaced
    idr.Store.Validity.insert_latest idr.Store.Validity.check_pointers
    idr.Store.Validity.check_invalidated idr.Store.Validity.check_replay
    idr.Store.Validity.ListRef-discrete idr.Store.Validity.Reservations.validate_reservations
    idr.Store.Validity.Reservations.check_reservations
    idr.Store.Validity.Reservations.check_attempts idr.Store.Validity.Reservations.check_receipt_ref
    idr.Store.Validity.Reservations.misreserved idr.Store.Validity.Reservations.misattributed
    idr.Store.Validity.Reservations.is_reused idr.Store.Validity.Reservations.mistimed
    idr.Store.History.replay_history idr.Store.History.replay_from idr.Store.History.replay_record
    idr.Store.History.replay_previous idr.Store.Sealing.compute_snapshot_digest Contract.validate
    idr.Protocol.Proof.validate_shape idr.Protocol.Proof.validate
    idr.Protocol.Proof.ProofKind-discrete Base.index_of Base.Text-discrete Base.all Base.any
    Base.contains Base.dedup Base.filter Base.has_control Base.is_blank Base.len Base.sort
    Base.sort_dedup Base.trim Base.try_each Base.ℕ_discrete
    idr.Protocol.Collections.validate_required_text
    idr.Protocol.Collections.validate_text_collection idr.Protocol.ContractRef.ContractRef-discrete
    idr.Protocol.ContractRef.cmp idr.Protocol.ContractRef.new idr.Protocol.ContractRef.validate
    idr.Protocol.Digest.check_digest idr.Protocol.Digest.contract_digest
    idr.Protocol.Digest.valid_digest idr.Protocol.Id.ContractKind-discrete
    idr.Protocol.Id.Identifier-discrete idr.Protocol.Metadata.check_dependency
    idr.Protocol.Metadata.check_lineage idr.Protocol.Metadata.continues
    idr.Protocol.Metadata.malformed idr.Protocol.Metadata.validate
    idr.Protocol.Reference.Reference-discrete idr.Protocol.Reference.new
    idr.Protocol.Reference.refused idr.Protocol.Reference.validate Contract.record_ref
    idr.Base.BTree.add idr.Base.BTree.lookup idr.Base.BTree.update
    idr.Protocol.Intent.ListText-discrete idr.Protocol.Intent.ResolutionMethod-discrete
    idr.Protocol.Intent.collect_ranks idr.Protocol.Intent.miscomposed idr.Protocol.Intent.ranks_from
    idr.Protocol.Intent.validate idr.Protocol.Intent.validate_hypothesis
    idr.Protocol.Intent.validate_ranked_hypotheses idr.Protocol.Intent.record_ref
    idr.Protocol.Collections.unique_strings idr.Protocol.Decision.badly_weighted
    idr.Protocol.Decision.check_choice idr.Protocol.Decision.check_collections
    idr.Protocol.Decision.check_option idr.Protocol.Decision.check_recommendation
    idr.Protocol.Decision.validate idr.Protocol.Decision.validate_risk
    idr.Protocol.Decision.record_ref idr.Protocol.Action.AuthorizationState-discrete
    idr.Protocol.Action.check_decision_ref idr.Protocol.Action.check_impact
    idr.Protocol.Action.check_parameters idr.Protocol.Action.record_ref idr.Protocol.Action.validate
    idr.Protocol.Json.validate_json_payload idr.Protocol.Json.walk idr.Store.Snapshot.pointer_to
    idr.Store.Snapshot.record_of idr.Store.Contract.is_named
    idr.Store.Consistency.validate_cross_object_consistency idr.Store.Invalidation.replace_pointer
    Base.find idr.Store.Snapshot.OptionRef-discrete idr.Protocol.Reference.AuthorityContext-discrete
    idr.Store.Consistency.find_record idr.Store.Consistency.same_context
    idr.Store.Consistency.check_decision idr.Store.Consistency.check_action_decision
    idr.Store.Consistency.exceeds idr.Protocol.Authorization.AuthorizationDecision-discrete
    idr.Protocol.Authorization.authorization_digest idr.Protocol.Authorization.outside_window
    idr.Protocol.Authorization.unbound idr.Protocol.Authorization.validate_for
    idr.Protocol.Permit.badly_leased idr.Protocol.Permit.miscopied idr.Protocol.Permit.untimely
    idr.Protocol.Permit.validate_at idr.Protocol.Permit.validate_for idr.Store.Snapshot.is_current
    Base.last Base.map_first idr.Store.Invalidation.invalidate_dependents
    idr.Store.Invalidation.invalidate_loop idr.Store.Invalidation.visit_pointers
    idr.Store.Invalidation.visit_pointer idr.Store.Invalidation.invalidate_execution_reservation
    idr.Store.Invalidation.reconcile_invalidated_execution_reservations Base.map_last
    idr.Store.History.lineage_context_is_continuous
revised_accepted = refl

persist_snapshot-recovers_example :
    let (result, st') = persist_snapshot by_number sealed_revised cut_off in
    let (loaded, _) = load_snapshot by_number blank_codec printed (started st'.disk) in
    ((loaded ≡ ok permitted) ⊎ (loaded ≡ ok sealed_revised))
    × (result ≡ ok tt → loaded ≡ ok sealed_revised)
persist_snapshot-recovers_example =
    persist_snapshot-recovers by_number blank_codec printed permitted sealed_revised revised
      (5 ∷ []) (5 ∷ []) cut_off disk-Settled revision_sealed revised_accepted revised_trips
