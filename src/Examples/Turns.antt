-- ===== src/Examples/Turns.antt =====
-- The theorems on coordination plans at concrete inputs.
use idr.Base.{◌≡◌, ◌↔◌, refl, ok, [], ◌∷◌, inl, true, false, Elem, ◌&&◌, ◌||◌, is_empty}
use idr.Base
use idr.Protocol.Reference
use idr.Protocol.Id.{action, response}
use idr.Protocol.ContractRef.{ContractRef}
use idr.Protocol.Guards.{
  CoordinationFacts, respond_then_confirm_then_act, select_turn_coordination_mode,
}
use idr.Protocol.Turn
use idr.Protocol.Turn.{Gate, user_authorization, has_authorization_gate}
use idr.Protocol.Turn.Graph.{dependency_path_exists}
use idr.Protocol.Turn.Graph.Routes.{Route}
use idr.Protocol.Turn.Graph.Search.{dependency_path_exists_iff}
use idr.Protocol.Turn.Rules.{validate-response_first, validate-act_first, validate-gated}
use idr.Protocol.Turn.Selected.{validate-selected}
use idr.Examples.Samples.{blank_codec, ref, announces, confirming, reporting}

confirming_valid : Turn.validate blank_codec confirming ≡ ok tt
unfolding Turn.validate idr.Protocol.Metadata.validate idr.Protocol.Metadata.malformed
    Base.ℕ_discrete Base.is_blank Reference.validate Base.try_each Base.Text-discrete Base.len
    Base.has_control idr.Protocol.Metadata.check_lineage idr.Protocol.Metadata.check_dependency
    idr.Protocol.ContractRef.validate idr.Protocol.Digest.valid_digest
    idr.Protocol.Id.Identifier-discrete idr.Protocol.Id.ContractKind-discrete
    idr.Protocol.Collections.validate_required_text idr.Base.BTree.add idr.Base.BTree.lookup
    idr.Base.BTree.update Base.all Base.any Base.contains Base.filter Base.dedup Base.sort
    Base.sort_dedup Base.trim idr.Protocol.ContractRef.ContractRef-discrete
    idr.Protocol.ContractRef.cmp idr.Protocol.Digest.check_digest
    idr.Protocol.Digest.contract_digest idr.Protocol.Metadata.continues Reference.new
    Reference.refused idr.Protocol.Turn.Acyclic.dependency_graph_is_acyclic
    idr.Protocol.Turn.Acyclic.record_edge idr.Protocol.Turn.Acyclic.record_edges
    idr.Protocol.Turn.Acyclic.relax idr.Protocol.Turn.Acyclic.visit_loop
    Turn.CoordinationMode-discrete Turn.GateKind-discrete dependency_path_exists
    idr.Protocol.Turn.Graph.path_loop Turn.check_edge Turn.check_gate Turn.check_order
    Turn.check_shape Turn.is_unannounced Turn.is_unfounded
confirming_valid = refl

reporting_valid : Turn.validate blank_codec reporting ≡ ok tt
unfolding Turn.validate idr.Protocol.Metadata.validate idr.Protocol.Metadata.malformed
    Base.ℕ_discrete Base.is_blank Reference.validate Base.try_each Base.Text-discrete Base.len
    Base.has_control idr.Protocol.Metadata.check_lineage idr.Protocol.Metadata.check_dependency
    idr.Protocol.ContractRef.validate idr.Protocol.Digest.valid_digest
    idr.Protocol.Id.Identifier-discrete idr.Protocol.Id.ContractKind-discrete
    idr.Protocol.Collections.validate_required_text idr.Base.BTree.add idr.Base.BTree.lookup
    idr.Base.BTree.update Base.all Base.any Base.contains Base.filter Base.dedup Base.sort
    Base.sort_dedup Base.trim idr.Protocol.ContractRef.ContractRef-discrete
    idr.Protocol.ContractRef.cmp idr.Protocol.Digest.check_digest
    idr.Protocol.Digest.contract_digest idr.Protocol.Metadata.continues Reference.new
    Reference.refused idr.Protocol.Turn.Acyclic.dependency_graph_is_acyclic
    idr.Protocol.Turn.Acyclic.record_edge idr.Protocol.Turn.Acyclic.record_edges
    idr.Protocol.Turn.Acyclic.relax idr.Protocol.Turn.Acyclic.visit_loop
    Turn.CoordinationMode-discrete Turn.GateKind-discrete dependency_path_exists
    idr.Protocol.Turn.Graph.path_loop Turn.check_edge Turn.check_gate Turn.check_order
    Turn.check_shape Turn.is_unannounced Turn.is_unfounded
reporting_valid = refl

announced_by_path : dependency_path_exists (ref response 5) (ref action 7) (announces ∷ []) ≡ true
unfolding dependency_path_exists idr.Protocol.Turn.Graph.path_loop Base.contains Base.filter
    idr.Protocol.ContractRef.ContractRef-discrete idr.Protocol.Id.ContractKind-discrete
    idr.Protocol.Id.Identifier-discrete Base.ℕ_discrete Base.Text-discrete
announced_by_path = refl

abbrev transfer_facts : CoordinationFacts
transfer_facts = record {
  response_planned = true;
  action_planned = true;
  explicit_confirmation_requested = false;
  authorization_required = true;
  action_is_read_only = false;
  long_running = false;
  stream_progress = false;
  safe_to_parallelize = false;
}

transfer_confirms : select_turn_coordination_mode transfer_facts ≡ ok respond_then_confirm_then_act
unfolding select_turn_coordination_mode
transfer_confirms = refl

validate-response_first_example :
    (r : ContractRef) × Elem r confirming.response_refs
    × Route confirming.dependencies r (ref action 7)
validate-response_first_example =
    validate-response_first blank_codec confirming confirming_valid refl (ref action 7) (inl refl)

validate-act_first_example :
    (a : ContractRef) × Elem a reporting.action_refs
    × Route reporting.dependencies a (ref response 5)
validate-act_first_example =
    validate-act_first blank_codec reporting reporting_valid refl (ref response 5) (inl refl)

validate-gated_example :
    (g : Gate) × Elem g confirming.gates
    × (g.gate_kind ≡ user_authorization)
    × (g.required_before ≡ ref action 7)
validate-gated_example =
    validate-gated blank_codec confirming confirming_valid refl (ref action 7) (inl refl)

validate-selected_example :
    ((true ≡ true) ↔ (is_empty confirming.action_refs ≡ false))
    × (has_authorization_gate confirming ≡ (true && (false || true)))
    × ((false || true) ≡ true
        → (a : ContractRef) → Elem a confirming.action_refs
        → (g : Gate) × Elem g confirming.gates
          × (g.gate_kind ≡ user_authorization)
          × (g.required_before ≡ a))
validate-selected_example =
    validate-selected blank_codec transfer_facts confirming confirming_valid transfer_confirms

dependency_path_exists_iff_example : Route (announces ∷ []) (ref response 5) (ref action 7)
dependency_path_exists_iff_example =
    (dependency_path_exists_iff (ref response 5) (ref action 7) (announces ∷ [])).0
      announced_by_path
