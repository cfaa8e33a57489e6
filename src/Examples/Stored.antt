-- ===== src/Examples/Stored.antt =====
-- A store that comes from an intent, a decision, an action and its permit, to a revised intent.
use idr.Base.{ℕ, ◌≡◌, ◌++◌, refl, ok, [], ◌∷◌, some, none, List, false}
use idr.Base
use idr.Protocol.Id.{Uuid, intent, action, decision}
use idr.Protocol.ContractRef.{ContractRef}
use idr.Protocol.Intent.{IntentContract, deterministic_fast_path}
use idr.Store.Contract
use idr.Store.Contract.{ContractSnapshot, record_ref}
use idr.Store.Snapshot.{Snapshot, default_snapshot, Attempt, Reservation, cancelled}
use idr.Store.Commit.{commit_candidate}
use idr.Store.Sealing.{seal_next_snapshot}
use idr.Store.Reserve.{reserve, next_attempt, first_reservation}
use idr.Store.Steps.{commit, issue, Step, seal, Reachable, empty, next}
use idr.Examples.Samples.{zeros, name, ref, metadata, blank_codec, transfer}
use idr.Examples.Decisions.{decided}
use idr.Examples.Permits.{permit}
use idr.Examples.Intents.{ranked}

-- The intent on which the decision depends, and its second revision.
abbrev pub wish : IntentContract
wish = record {
  metadata = metadata intent 12 [];
  user_stated_intent_ref = name b'u';
  base_hypotheses = ranked b'h' 1 ∷ [];
  personalized_hypotheses = ranked b'h' 1 ∷ [];
  primary_hypothesis_ref = name b'h';
  confidence = record { value = 6000 };
  ambiguity = false;
  clarification_required = false;
  human_model_effects = [];
  resolution_method = deterministic_fast_path;
  record_digest = zeros;
}

abbrev pub revised_wish : IntentContract
revised_wish = record wish {
  metadata = record wish.metadata { revision = 2; predecessor_ref = some (ref intent 12) };
}

abbrev pub revised_ref : ContractRef
revised_ref = record (ref intent 12) { revision = 2 }

abbrev pub wish_record : ContractSnapshot
wish_record = ContractSnapshot.intent wish

abbrev pub decision_record : ContractSnapshot
decision_record = ContractSnapshot.decision decided

abbrev pub action_record : ContractSnapshot
action_record = ContractSnapshot.action transfer

abbrev pub revised_record : ContractSnapshot
revised_record = ContractSnapshot.intent revised_wish

abbrev pub attempt : Attempt
attempt = next_attempt permit 20

abbrev pub reservation : Reservation
reservation = first_reservation 99 (ref action 7) transfer attempt

-- The snapshot after the intent, after the decision, after the action and after the permit.
abbrev pub wished : Snapshot
wished = record default_snapshot {
  sequence = 1;
  snapshot_digest = zeros;
  records = wish_record ∷ [];
  current_pointers = ref intent 12 ∷ [];
}

abbrev pub resolved : Snapshot
resolved = record wished {
  sequence = 2;
  previous_snapshot_digest = some zeros;
  records = wish_record ∷ decision_record ∷ [];
  current_pointers = ref intent 12 ∷ ref decision 9 ∷ [];
}

abbrev pub planned : Snapshot
planned = record resolved {
  sequence = 3;
  records = wish_record ∷ decision_record ∷ action_record ∷ [];
  current_pointers = ref intent 12 ∷ ref decision 9 ∷ ref action 7 ∷ [];
}

abbrev pub permitted : Snapshot
permitted = record planned { sequence = 4; execution_reservations = reservation ∷ [] }

-- The revision of the intent invalidates the decision and the action, and cancels its attempt.
abbrev pub revised : Snapshot
revised = record permitted {
  sequence = 4;
  records = wish_record ∷ decision_record ∷ action_record ∷ revised_record ∷ [];
  current_pointers = revised_ref ∷ ref decision 9 ∷ ref action 7 ∷ [];
  invalidated_refs = ref decision 9 ∷ ref action 7 ∷ [];
  execution_reservations =
      record reservation { attempts = record attempt { status = cancelled } ∷ [] } ∷ [];
}

abbrev pub sealed_revised : Snapshot
sealed_revised = record revised { sequence = 5 }

-- The candidates, before their seal.
abbrev unsealed : ℕ → Snapshot → Snapshot → Snapshot
unsealed sequence before after = record after {
  sequence = sequence;
  previous_snapshot_digest = before.previous_snapshot_digest;
  snapshot_digest = before.snapshot_digest;
}

wish_named : record_ref blank_codec wish_record ≡ ok (ref intent 12)
unfolding Base.Text-discrete Base.all Base.any Base.contains Base.dedup Base.filter Base.has_control
    Base.is_blank Base.len Base.sort Base.sort_dedup Base.trim Base.try_each Base.ℕ_discrete
    idr.Protocol.Collections.validate_required_text
    idr.Protocol.Collections.validate_text_collection idr.Protocol.ContractRef.ContractRef-discrete
    idr.Protocol.ContractRef.cmp idr.Protocol.ContractRef.new idr.Protocol.ContractRef.validate
    idr.Protocol.Digest.check_digest idr.Protocol.Digest.contract_digest
    idr.Protocol.Digest.valid_digest idr.Protocol.Id.ContractKind-discrete
    idr.Protocol.Id.Identifier-discrete idr.Protocol.Metadata.check_dependency
    idr.Protocol.Metadata.check_lineage idr.Protocol.Metadata.continues
    idr.Protocol.Metadata.malformed idr.Protocol.Metadata.validate
    idr.Protocol.Reference.Reference-discrete idr.Protocol.Reference.new
    idr.Protocol.Reference.refused idr.Protocol.Reference.validate Contract.record_ref
    idr.Base.BTree.add idr.Base.BTree.lookup idr.Base.BTree.update
    idr.Protocol.Intent.ListText-discrete idr.Protocol.Intent.ResolutionMethod-discrete
    idr.Protocol.Intent.collect_ranks idr.Protocol.Intent.miscomposed idr.Protocol.Intent.ranks_from
    idr.Protocol.Intent.validate idr.Protocol.Intent.validate_hypothesis
    idr.Protocol.Intent.validate_ranked_hypotheses idr.Protocol.Intent.record_ref
    idr.Protocol.Collections.unique_strings
wish_named = refl

decision_named : record_ref blank_codec decision_record ≡ ok (ref decision 9)
unfolding Base.Text-discrete Base.all Base.any Base.contains Base.dedup Base.filter Base.has_control
    Base.is_blank Base.len Base.sort Base.sort_dedup Base.trim Base.try_each Base.ℕ_discrete
    idr.Protocol.Collections.validate_required_text
    idr.Protocol.Collections.validate_text_collection idr.Protocol.ContractRef.ContractRef-discrete
    idr.Protocol.ContractRef.cmp idr.Protocol.ContractRef.new idr.Protocol.ContractRef.validate
    idr.Protocol.Digest.check_digest idr.Protocol.Digest.contract_digest
    idr.Protocol.Digest.valid_digest idr.Protocol.Id.ContractKind-discrete
    idr.Protocol.Id.Identifier-discrete idr.Protocol.Metadata.check_dependency
    idr.Protocol.Metadata.check_lineage idr.Protocol.Metadata.continues
    idr.Protocol.Metadata.malformed idr.Protocol.Metadata.validate
    idr.Protocol.Reference.Reference-discrete idr.Protocol.Reference.new
    idr.Protocol.Reference.refused idr.Protocol.Reference.validate Contract.record_ref
    idr.Protocol.Decision.badly_weighted idr.Protocol.Decision.check_choice
    idr.Protocol.Decision.check_collections idr.Protocol.Decision.check_option
    idr.Protocol.Decision.check_recommendation idr.Protocol.Decision.validate
    idr.Protocol.Decision.validate_risk idr.Protocol.Decision.record_ref
decision_named = refl

action_named : record_ref blank_codec action_record ≡ ok (ref action 7)
unfolding Base.Text-discrete Base.all Base.any Base.contains Base.dedup Base.filter Base.has_control
    Base.is_blank Base.len Base.sort Base.sort_dedup Base.trim Base.try_each Base.ℕ_discrete
    idr.Protocol.Collections.validate_required_text
    idr.Protocol.Collections.validate_text_collection idr.Protocol.ContractRef.ContractRef-discrete
    idr.Protocol.ContractRef.cmp idr.Protocol.ContractRef.new idr.Protocol.ContractRef.validate
    idr.Protocol.Digest.check_digest idr.Protocol.Digest.contract_digest
    idr.Protocol.Digest.valid_digest idr.Protocol.Id.ContractKind-discrete
    idr.Protocol.Id.Identifier-discrete idr.Protocol.Metadata.check_dependency
    idr.Protocol.Metadata.check_lineage idr.Protocol.Metadata.continues
    idr.Protocol.Metadata.malformed idr.Protocol.Metadata.validate
    idr.Protocol.Reference.Reference-discrete idr.Protocol.Reference.new
    idr.Protocol.Reference.refused idr.Protocol.Reference.validate Contract.record_ref
    idr.Protocol.Action.AuthorizationState-discrete idr.Protocol.Action.check_decision_ref
    idr.Protocol.Action.check_impact idr.Protocol.Action.check_parameters
    idr.Protocol.Action.record_ref idr.Protocol.Action.validate
    idr.Protocol.Json.validate_json_payload idr.Protocol.Json.walk
action_named = refl

pub revised_named : record_ref blank_codec revised_record ≡ ok revised_ref
unfolding Base.Text-discrete Base.all Base.any Base.contains Base.dedup Base.filter Base.has_control
    Base.is_blank Base.len Base.sort Base.sort_dedup Base.trim Base.try_each Base.ℕ_discrete
    idr.Protocol.Collections.validate_required_text
    idr.Protocol.Collections.validate_text_collection idr.Protocol.ContractRef.ContractRef-discrete
    idr.Protocol.ContractRef.cmp idr.Protocol.ContractRef.new idr.Protocol.ContractRef.validate
    idr.Protocol.Digest.check_digest idr.Protocol.Digest.contract_digest
    idr.Protocol.Digest.valid_digest idr.Protocol.Id.ContractKind-discrete
    idr.Protocol.Id.Identifier-discrete idr.Protocol.Metadata.check_dependency
    idr.Protocol.Metadata.check_lineage idr.Protocol.Metadata.continues
    idr.Protocol.Metadata.malformed idr.Protocol.Metadata.validate
    idr.Protocol.Reference.Reference-discrete idr.Protocol.Reference.new
    idr.Protocol.Reference.refused idr.Protocol.Reference.validate Contract.record_ref
    idr.Base.BTree.add idr.Base.BTree.lookup idr.Base.BTree.update
    idr.Protocol.Intent.ListText-discrete idr.Protocol.Intent.ResolutionMethod-discrete
    idr.Protocol.Intent.collect_ranks idr.Protocol.Intent.miscomposed idr.Protocol.Intent.ranks_from
    idr.Protocol.Intent.validate idr.Protocol.Intent.validate_hypothesis
    idr.Protocol.Intent.validate_ranked_hypotheses idr.Protocol.Intent.record_ref
    idr.Protocol.Collections.unique_strings
revised_named = refl

wish_committed :
    commit_candidate blank_codec wish_record none (ref intent 12) default_snapshot
    ≡ ok (unsealed 0 default_snapshot wished)
unfolding Base.Text-discrete Base.all Base.any Base.contains Base.dedup Base.filter Base.has_control
    Base.is_blank Base.len Base.sort Base.sort_dedup Base.trim Base.try_each Base.ℕ_discrete
    idr.Protocol.Collections.validate_required_text
    idr.Protocol.Collections.validate_text_collection idr.Protocol.ContractRef.ContractRef-discrete
    idr.Protocol.ContractRef.cmp idr.Protocol.ContractRef.new idr.Protocol.ContractRef.validate
    idr.Protocol.Digest.check_digest idr.Protocol.Digest.contract_digest
    idr.Protocol.Digest.valid_digest idr.Protocol.Id.ContractKind-discrete
    idr.Protocol.Id.Identifier-discrete idr.Protocol.Metadata.check_dependency
    idr.Protocol.Metadata.check_lineage idr.Protocol.Metadata.continues
    idr.Protocol.Metadata.malformed idr.Protocol.Metadata.validate
    idr.Protocol.Reference.Reference-discrete idr.Protocol.Reference.new
    idr.Protocol.Reference.refused idr.Protocol.Reference.validate Contract.record_ref
    commit_candidate idr.Store.Commit.check_commit idr.Store.Commit.check_previous
    idr.Store.Commit.check_current_dependency idr.Store.Snapshot.pointer_to
    idr.Store.Snapshot.record_of idr.Store.Contract.is_named
    idr.Store.Consistency.validate_cross_object_consistency idr.Store.Invalidation.replace_pointer
    Base.find
wish_committed = refl

decision_committed :
    commit_candidate blank_codec decision_record none (ref decision 9) wished
    ≡ ok (unsealed 1 wished resolved)
unfolding idr.Store.Snapshot.OptionRef-discrete idr.Protocol.Reference.AuthorityContext-discrete
    idr.Protocol.Action.AuthorizationState-discrete Base.Text-discrete Base.all Base.any
    Base.contains Base.dedup Base.filter Base.has_control Base.is_blank Base.len Base.sort
    Base.sort_dedup Base.trim Base.try_each Base.ℕ_discrete
    idr.Protocol.Collections.validate_required_text
    idr.Protocol.Collections.validate_text_collection idr.Protocol.ContractRef.ContractRef-discrete
    idr.Protocol.ContractRef.cmp idr.Protocol.ContractRef.new idr.Protocol.ContractRef.validate
    idr.Protocol.Digest.check_digest idr.Protocol.Digest.contract_digest
    idr.Protocol.Digest.valid_digest idr.Protocol.Id.ContractKind-discrete
    idr.Protocol.Id.Identifier-discrete idr.Protocol.Metadata.check_dependency
    idr.Protocol.Metadata.check_lineage idr.Protocol.Metadata.continues
    idr.Protocol.Metadata.malformed idr.Protocol.Metadata.validate
    idr.Protocol.Reference.Reference-discrete idr.Protocol.Reference.new
    idr.Protocol.Reference.refused idr.Protocol.Reference.validate Contract.record_ref
    commit_candidate idr.Store.Commit.check_commit idr.Store.Commit.check_previous
    idr.Store.Commit.check_current_dependency idr.Store.Snapshot.pointer_to
    idr.Store.Snapshot.record_of idr.Store.Contract.is_named
    idr.Store.Consistency.validate_cross_object_consistency idr.Store.Invalidation.replace_pointer
    Base.find idr.Base.BTree.add idr.Base.BTree.lookup idr.Base.BTree.update
    idr.Protocol.Intent.ListText-discrete idr.Protocol.Intent.ResolutionMethod-discrete
    idr.Protocol.Intent.collect_ranks idr.Protocol.Intent.miscomposed idr.Protocol.Intent.ranks_from
    idr.Protocol.Intent.validate idr.Protocol.Intent.validate_hypothesis
    idr.Protocol.Intent.validate_ranked_hypotheses idr.Protocol.Intent.record_ref
    idr.Protocol.Collections.unique_strings idr.Store.Consistency.find_record
    idr.Store.Consistency.same_context idr.Store.Consistency.check_decision
    idr.Store.Consistency.check_action_decision idr.Store.Consistency.exceeds
decision_committed = refl

action_committed :
    commit_candidate blank_codec action_record none (ref action 7) resolved
    ≡ ok (unsealed 2 resolved planned)
unfolding idr.Store.Snapshot.OptionRef-discrete idr.Protocol.Reference.AuthorityContext-discrete
    idr.Protocol.Action.AuthorizationState-discrete Base.Text-discrete Base.all Base.any
    Base.contains Base.dedup Base.filter Base.has_control Base.is_blank Base.len Base.sort
    Base.sort_dedup Base.trim Base.try_each Base.ℕ_discrete
    idr.Protocol.Collections.validate_required_text
    idr.Protocol.Collections.validate_text_collection idr.Protocol.ContractRef.ContractRef-discrete
    idr.Protocol.ContractRef.cmp idr.Protocol.ContractRef.new idr.Protocol.ContractRef.validate
    idr.Protocol.Digest.check_digest idr.Protocol.Digest.contract_digest
    idr.Protocol.Digest.valid_digest idr.Protocol.Id.ContractKind-discrete
    idr.Protocol.Id.Identifier-discrete idr.Protocol.Metadata.check_dependency
    idr.Protocol.Metadata.check_lineage idr.Protocol.Metadata.continues
    idr.Protocol.Metadata.malformed idr.Protocol.Metadata.validate
    idr.Protocol.Reference.Reference-discrete idr.Protocol.Reference.new
    idr.Protocol.Reference.refused idr.Protocol.Reference.validate Contract.record_ref
    commit_candidate idr.Store.Commit.check_commit idr.Store.Commit.check_previous
    idr.Store.Commit.check_current_dependency idr.Store.Snapshot.pointer_to
    idr.Store.Snapshot.record_of idr.Store.Contract.is_named
    idr.Store.Consistency.validate_cross_object_consistency idr.Store.Invalidation.replace_pointer
    Base.find idr.Base.BTree.add idr.Base.BTree.lookup idr.Base.BTree.update
    idr.Protocol.Intent.ListText-discrete idr.Protocol.Intent.ResolutionMethod-discrete
    idr.Protocol.Intent.collect_ranks idr.Protocol.Intent.miscomposed idr.Protocol.Intent.ranks_from
    idr.Protocol.Intent.validate idr.Protocol.Intent.validate_hypothesis
    idr.Protocol.Intent.validate_ranked_hypotheses idr.Protocol.Intent.record_ref
    idr.Protocol.Collections.unique_strings idr.Protocol.Decision.badly_weighted
    idr.Protocol.Decision.check_choice idr.Protocol.Decision.check_collections
    idr.Protocol.Decision.check_option idr.Protocol.Decision.check_recommendation
    idr.Protocol.Decision.validate idr.Protocol.Decision.validate_risk
    idr.Protocol.Decision.record_ref idr.Store.Consistency.find_record
    idr.Store.Consistency.same_context idr.Store.Consistency.check_decision
    idr.Store.Consistency.check_action_decision idr.Store.Consistency.exceeds
action_committed = refl

pub permit_reserved :
    reserve blank_codec 99 permit 20 planned ≡ ok (unsealed 3 planned permitted, 99)
unfolding Base.Text-discrete Base.all Base.any Base.contains Base.dedup Base.filter Base.has_control
    Base.is_blank Base.len Base.sort Base.sort_dedup Base.trim Base.try_each Base.ℕ_discrete
    idr.Protocol.Collections.validate_required_text
    idr.Protocol.Collections.validate_text_collection idr.Protocol.ContractRef.ContractRef-discrete
    idr.Protocol.ContractRef.cmp idr.Protocol.ContractRef.new idr.Protocol.ContractRef.validate
    idr.Protocol.Digest.check_digest idr.Protocol.Digest.contract_digest
    idr.Protocol.Digest.valid_digest idr.Protocol.Id.ContractKind-discrete
    idr.Protocol.Id.Identifier-discrete idr.Protocol.Metadata.check_dependency
    idr.Protocol.Metadata.check_lineage idr.Protocol.Metadata.continues
    idr.Protocol.Metadata.malformed idr.Protocol.Metadata.validate
    idr.Protocol.Reference.Reference-discrete idr.Protocol.Reference.new
    idr.Protocol.Reference.refused idr.Protocol.Reference.validate Contract.record_ref
    idr.Protocol.Action.AuthorizationState-discrete idr.Protocol.Action.check_decision_ref
    idr.Protocol.Action.check_impact idr.Protocol.Action.check_parameters
    idr.Protocol.Action.record_ref idr.Protocol.Action.validate
    idr.Protocol.Json.validate_json_payload idr.Protocol.Json.walk idr.Base.BTree.add
    idr.Base.BTree.lookup idr.Base.BTree.update idr.Protocol.Intent.ListText-discrete
    idr.Protocol.Intent.ResolutionMethod-discrete idr.Protocol.Intent.collect_ranks
    idr.Protocol.Intent.miscomposed idr.Protocol.Intent.ranks_from idr.Protocol.Intent.validate
    idr.Protocol.Intent.validate_hypothesis idr.Protocol.Intent.validate_ranked_hypotheses
    idr.Protocol.Intent.record_ref idr.Protocol.Collections.unique_strings
    idr.Protocol.Decision.badly_weighted idr.Protocol.Decision.check_choice
    idr.Protocol.Decision.check_collections idr.Protocol.Decision.check_option
    idr.Protocol.Decision.check_recommendation idr.Protocol.Decision.validate
    idr.Protocol.Decision.validate_risk idr.Protocol.Decision.record_ref
    idr.Protocol.Authorization.AuthorizationDecision-discrete
    idr.Protocol.Authorization.authorization_digest idr.Protocol.Authorization.outside_window
    idr.Protocol.Authorization.unbound idr.Protocol.Authorization.validate_for
    idr.Protocol.Permit.badly_leased idr.Protocol.Permit.miscopied idr.Protocol.Permit.untimely
    idr.Protocol.Permit.validate_at idr.Protocol.Permit.validate_for reserve
    idr.Store.Reserve.find_action idr.Store.Reserve.place idr.Store.Reserve.check_retry
    idr.Store.Snapshot.is_current idr.Store.Contract.is_named Base.find Base.last Base.map_first
permit_reserved = refl

pub revision_committed :
    commit_candidate blank_codec revised_record none revised_ref permitted ≡ ok revised
unfolding idr.Store.Snapshot.OptionRef-discrete idr.Protocol.Reference.AuthorityContext-discrete
    idr.Protocol.Action.AuthorizationState-discrete Base.Text-discrete Base.all Base.any
    Base.contains Base.dedup Base.filter Base.has_control Base.is_blank Base.len Base.sort
    Base.sort_dedup Base.trim Base.try_each Base.ℕ_discrete
    idr.Protocol.Collections.validate_required_text
    idr.Protocol.Collections.validate_text_collection idr.Protocol.ContractRef.ContractRef-discrete
    idr.Protocol.ContractRef.cmp idr.Protocol.ContractRef.new idr.Protocol.ContractRef.validate
    idr.Protocol.Digest.check_digest idr.Protocol.Digest.contract_digest
    idr.Protocol.Digest.valid_digest idr.Protocol.Id.ContractKind-discrete
    idr.Protocol.Id.Identifier-discrete idr.Protocol.Metadata.check_dependency
    idr.Protocol.Metadata.check_lineage idr.Protocol.Metadata.continues
    idr.Protocol.Metadata.malformed idr.Protocol.Metadata.validate
    idr.Protocol.Reference.Reference-discrete idr.Protocol.Reference.new
    idr.Protocol.Reference.refused idr.Protocol.Reference.validate Contract.record_ref
    commit_candidate idr.Store.Commit.check_commit idr.Store.Commit.check_previous
    idr.Store.Commit.check_current_dependency idr.Store.Snapshot.pointer_to
    idr.Store.Snapshot.record_of idr.Store.Contract.is_named
    idr.Store.Consistency.validate_cross_object_consistency idr.Store.Invalidation.replace_pointer
    Base.find idr.Base.BTree.add idr.Base.BTree.lookup idr.Base.BTree.update
    idr.Protocol.Intent.ListText-discrete idr.Protocol.Intent.ResolutionMethod-discrete
    idr.Protocol.Intent.collect_ranks idr.Protocol.Intent.miscomposed idr.Protocol.Intent.ranks_from
    idr.Protocol.Intent.validate idr.Protocol.Intent.validate_hypothesis
    idr.Protocol.Intent.validate_ranked_hypotheses idr.Protocol.Intent.record_ref
    idr.Protocol.Collections.unique_strings idr.Protocol.Decision.badly_weighted
    idr.Protocol.Decision.check_choice idr.Protocol.Decision.check_collections
    idr.Protocol.Decision.check_option idr.Protocol.Decision.check_recommendation
    idr.Protocol.Decision.validate idr.Protocol.Decision.validate_risk
    idr.Protocol.Decision.record_ref idr.Protocol.Action.check_decision_ref
    idr.Protocol.Action.check_impact idr.Protocol.Action.check_parameters
    idr.Protocol.Action.record_ref idr.Protocol.Action.validate
    idr.Protocol.Json.validate_json_payload idr.Protocol.Json.walk
    idr.Store.Invalidation.invalidate_dependents idr.Store.Invalidation.invalidate_loop
    idr.Store.Invalidation.visit_pointers idr.Store.Invalidation.visit_pointer
    idr.Store.Invalidation.invalidate_execution_reservation
    idr.Store.Invalidation.reconcile_invalidated_execution_reservations
    idr.Store.Snapshot.is_current Base.map_last idr.Store.History.lineage_context_is_continuous
    idr.Store.Consistency.find_record idr.Store.Consistency.same_context
    idr.Store.Consistency.check_decision idr.Store.Consistency.check_action_decision
    idr.Store.Consistency.exceeds
revision_committed = refl

wish_sealed :
    seal_next_snapshot blank_codec (unsealed 0 default_snapshot wished) default_snapshot ≡ ok wished
unfolding seal_next_snapshot idr.Store.Sealing.compute_snapshot_digest
wish_sealed = refl

decision_sealed : seal_next_snapshot blank_codec (unsealed 1 wished resolved) wished ≡ ok resolved
unfolding seal_next_snapshot idr.Store.Sealing.compute_snapshot_digest
decision_sealed = refl

action_sealed : seal_next_snapshot blank_codec (unsealed 2 resolved planned) resolved ≡ ok planned
unfolding seal_next_snapshot idr.Store.Sealing.compute_snapshot_digest
action_sealed = refl

permit_sealed : seal_next_snapshot blank_codec (unsealed 3 planned permitted) planned ≡ ok permitted
unfolding seal_next_snapshot idr.Store.Sealing.compute_snapshot_digest
permit_sealed = refl

pub revision_sealed : seal_next_snapshot blank_codec revised permitted ≡ ok sealed_revised
unfolding seal_next_snapshot idr.Store.Sealing.compute_snapshot_digest
revision_sealed = refl

pub Reachable-permitted : Reachable blank_codec permitted
Reachable-permitted =
    next
      (next
        (next
          (next (empty refl) (
            seal _ (commit wish_record none (ref intent 12) wish_named wish_committed) wish_sealed))
          (seal _ (commit decision_record none (ref decision 9) decision_named decision_committed)
            decision_sealed))
        (seal _ (commit action_record none (ref action 7) action_named action_committed)
          action_sealed))
      (seal _ (issue 99 permit 20 99 permit_reserved) permit_sealed)

pub revision_step : Step blank_codec permitted sealed_revised
revision_step =
    seal _ (commit revised_record none revised_ref revised_named revision_committed) revision_sealed
