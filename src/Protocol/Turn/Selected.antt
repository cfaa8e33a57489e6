-- ===== src/Protocol/Turn/Selected.antt =====
-- The mode that the policy selects, in the plan that carries it.
use idr.Base.{◌≡◌, ◌↔◌, refl, true, false, ok, arith, List, [], ◌∷◌, Elem, ◌||◌, ◌&&◌, is_empty}
use idr.Protocol.Digest.{Codec}
use idr.Protocol.ContractRef.{ContractRef}
use idr.Protocol.Guards.{
  CoordinationFacts, respond_then_confirm_then_act, select_turn_coordination_mode,
}
use idr.Protocol.Turn.{
  Plan, Gate, user_authorization, mode_eq, has_authorization_gate, check_shape, validate,
}
use idr.Protocol.Turn.Rules.{valid_shape, validate-gated}

select_confirmation :
    (f : CoordinationFacts)
    → f.response_planned ≡ true
    → f.action_planned ≡ true
    → (f.explicit_confirmation_requested || f.authorization_required) ≡ true
    → select_turn_coordination_mode f ≡ ok respond_then_confirm_then_act
unfolding select_turn_coordination_mode
select_confirmation f r a c = ground arith

shape-modes :
    (f : CoordinationFacts) (p : Plan)
    → check_shape p ≡ ok tt
    → select_turn_coordination_mode f ≡ ok p.mode
    → (f.response_planned ≡ true)
      × ((f.action_planned ≡ true) ↔ (is_empty p.action_refs ≡ false))
      × (has_authorization_gate p
          ≡ (f.action_planned && (f.explicit_confirmation_requested || f.authorization_required)))
unfolding check_shape select_turn_coordination_mode
shape-modes f p h s = (ground arith, ground arith, ground arith)

-- A valid plan whose mode the policy selected has actions exactly if an action was planned, has an
-- authorization gate exactly if an action was planned that needs a confirmation or authorization,
-- and then each of its actions has a gate of its own.
pub validate-selected :
    (codec : Codec) (f : CoordinationFacts) (p : Plan)
    → validate codec p ≡ ok tt
    → select_turn_coordination_mode f ≡ ok p.mode
    → ((f.action_planned ≡ true) ↔ (is_empty p.action_refs ≡ false))
      × (has_authorization_gate p
          ≡ (f.action_planned && (f.explicit_confirmation_requested || f.authorization_required)))
      × ((f.explicit_confirmation_requested || f.authorization_required) ≡ true
          → (a : ContractRef) → Elem a p.action_refs
          → (g : Gate) × Elem g p.gates
            × (g.gate_kind ≡ user_authorization)
            × (g.required_before ≡ a))
validate-selected codec f p h s =
    let (responds, acts, gate) = shape-modes f p (valid_shape codec p h) s in
    (
      acts,
      gate,
      λ needed a m.
          let planned : f.action_planned ≡ true = acts.1 (nonempty a p.action_refs m) in
          let confirms : select_turn_coordination_mode f ≡ ok respond_then_confirm_then_act =
            select_confirmation f responds planned needed in
          validate-gated codec p h (ground (arith, s, confirms)) a m,
    )
  where
    nonempty : (a : ContractRef) (xs : List ContractRef) → Elem a xs → is_empty xs ≡ false
    nonempty a [] m = elim m [ ]
    nonempty a (x ∷ xs) m = refl
