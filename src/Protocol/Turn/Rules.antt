-- ===== src/Protocol/Turn/Rules.antt =====
-- What a valid coordination plan guarantees.
use idr.Base.{◌≡◌, true, false, ok, arith, Elem, any-true, any-false, ◌&&◌, ◌==◌, try_each}
use idr.Protocol.Id.{kind_eq}
use idr.Protocol.Digest.{Codec}
use idr.Protocol.ContractRef.{ContractRef, contract_ref_eq}
use idr.Protocol.Guards.{act_then_respond, respond_then_confirm_then_act}
use idr.Protocol.Turn.Graph.{dependency_path_exists}
use idr.Protocol.Turn.Graph.Routes.{Route}
use idr.Protocol.Turn.Graph.Search.{dependency_path_exists_iff}
use idr.Protocol.Turn.{
  Plan, Gate, user_authorization, mode_eq, gate_kind_eq, known_refs, check_shape, check_edge,
  check_gate, is_ungated, is_response_first, is_unannounced, is_unfounded, check_order, validate,
}

module _ (codec : Codec) (p : Plan) (h : validate codec p ≡ ok tt) where
  pub valid_shape : check_shape p ≡ ok tt
  unfolding validate
  valid_shape = ground arith

  valid_order : check_order p ≡ ok tt
  unfolding validate
  valid_order = ground arith

  valid_edges : try_each (check_edge (known_refs p)) p.dependencies ≡ ok tt
  unfolding validate
  valid_edges = ground arith

  valid_gates : try_each (check_gate (known_refs p)) p.gates ≡ ok tt
  unfolding validate
  valid_gates = ground arith

  announced :
      is_response_first p.mode ≡ true
      → (a : ContractRef) → Elem a p.action_refs
      → is_unannounced p a ≡ false
  unfolding check_order
  announced m a e = any-false (is_unannounced p) a p.action_refs (ground (arith, valid_order)) e

  -- In a valid plan of a mode that responds before it acts, every action is reached by a path of
  -- dependencies from some response.
  pub validate-response_first :
      is_response_first p.mode ≡ true
      → (a : ContractRef) → Elem a p.action_refs
      → (r : ContractRef) × Elem r p.response_refs × Route p.dependencies r a
  unfolding is_unannounced
  validate-response_first m a e =
      let (r, k, t) =
        any-true (λ r. dependency_path_exists r a p.dependencies) p.response_refs
          (ground (arith, announced m a e)) in
      (r, k, (dependency_path_exists_iff r a p.dependencies).0 t)

  founded :
      p.mode ≡ act_then_respond
      → (r : ContractRef) → Elem r p.response_refs
      → is_unfounded p r ≡ false
  unfolding check_order
  founded m r e = any-false (is_unfounded p) r p.response_refs (ground (arith, valid_order)) e

  -- In a valid plan that acts and then responds, every response is reached from some action.
  pub validate-act_first :
      p.mode ≡ act_then_respond
      → (r : ContractRef) → Elem r p.response_refs
      → (a : ContractRef) × Elem a p.action_refs × Route p.dependencies a r
  unfolding is_unfounded
  validate-act_first m r e =
      let (a, k, t) =
        any-true (λ a. dependency_path_exists a r p.dependencies) p.action_refs
          (ground (arith, founded m r e)) in
      (a, k, (dependency_path_exists_iff a r p.dependencies).0 t)

  gated :
      p.mode ≡ respond_then_confirm_then_act
      → (a : ContractRef) → Elem a p.action_refs
      → is_ungated p a ≡ false
  unfolding check_order
  gated m a e = any-false (is_ungated p) a p.action_refs (ground (arith, valid_order)) e

  -- In a valid plan that asks for confirmation, every action has an authorization gate of its own.
  pub validate-gated :
      p.mode ≡ respond_then_confirm_then_act
      → (a : ContractRef) → Elem a p.action_refs
      → (g : Gate) × Elem g p.gates × (g.gate_kind ≡ user_authorization) × (g.required_before ≡ a)
  validate-gated m a e =
      let (g, k, t) =
        any-true (λ (g : Gate). g.gate_kind == user_authorization && g.required_before == a) p.gates
          (ground (arith, gated m a e)) in
      (g, k, ground arith, ground arith)
