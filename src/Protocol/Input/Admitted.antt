-- ===== src/Protocol/Input/Admitted.antt =====
-- Which roles an admitted input event may carry.
use idr.Base.{
  ◌≡◌, ◌⊎◌, true, false, not, ok, arith, Elem, any-false, sort_dedup, sort_dedup-Elem, contains,
  contains_iff,
}
use idr.Protocol.Input.{
  SourceActor, SemanticRole, user, human_approver, policy_engine, authorization, InputEvent,
  semantic_role_ord, semantic_role_eq, source_actor_may_assert, SemanticRole-discrete,
  badly_assigned, validate,
}

assigned : (e : InputEvent) → validate e ≡ ok tt → badly_assigned e ≡ false
unfolding validate
assigned e h = ground arith

may_assert :
    (e : InputEvent) (role : SemanticRole)
    → badly_assigned e ≡ false
    → Elem role e.semantic_roles
    → source_actor_may_assert e.source_actor role ≡ true
unfolding badly_assigned
may_assert e role h m =
    let refused : not (source_actor_may_assert e.source_actor role) ≡ false =
      any-false (λ r. not (source_actor_may_assert e.source_actor r)) role e.semantic_roles
        (ground arith) m in
    ground (arith, refused)

authorizers :
    (s : SourceActor)
    → source_actor_may_assert s authorization ≡ true
    → (s ≡ user) ⊎ ((s ≡ human_approver) ⊎ (s ≡ policy_engine))
unfolding source_actor_may_assert contains SemanticRole-discrete
authorizers s h = ground arith

primary-Elem :
    (e : InputEvent)
    → badly_assigned e ≡ false
    → Elem e.primary_semantic_role (sort_dedup e.semantic_roles)
unfolding badly_assigned
primary-Elem e h =
    (contains_iff (sort_dedup e.semantic_roles) e.primary_semantic_role).0 (ground arith)

-- In a valid input event the primary role is one of its roles, its source may assert each of them,
-- and it carries an authorization only if it comes from the user, a human approver or the policy
-- engine: never from the host, an agent, a tool or another system.
pub validate-roles :
    (e : InputEvent)
    → validate e ≡ ok tt
    → Elem e.primary_semantic_role e.semantic_roles
      × ((role : SemanticRole)
          → Elem role e.semantic_roles
          → source_actor_may_assert e.source_actor role ≡ true)
      × (Elem authorization e.semantic_roles
          → (e.source_actor ≡ user)
            ⊎ ((e.source_actor ≡ human_approver) ⊎ (e.source_actor ≡ policy_engine)))
validate-roles e h =
    let fine : badly_assigned e ≡ false = assigned e h in
    (
      (sort_dedup-Elem e.primary_semantic_role e.semantic_roles).0 (primary-Elem e fine),
      (λ role m. may_assert e role fine m),
      λ m. authorizers e.source_actor (may_assert e authorization fine m),
    )
