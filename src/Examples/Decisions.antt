-- ===== src/Examples/Decisions.antt =====
-- The theorems on input events and decisions at concrete inputs.
use idr.Base.{
  ℕ, ◌≡◌, ◌≤◌, ◌↔◌, ◌⊎◌, ◌++◌, refl, ok, [], ◌∷◌, some, none, List, Elem, length, is_some, true,
  false,
}
use idr.Base
use idr.Protocol.Reference
use idr.Protocol.Reference.{Reference}
use idr.Protocol.Id.{intent, decision, low, medium, rank}
use idr.Protocol.Input
use idr.Protocol.Input.{
  InputEvent, SemanticRole, user, human_approver, policy_engine, authorization, sha256_prefix,
  source_actor_may_assert,
}
use idr.Protocol.Input.Admitted.{validate-roles}
use idr.Protocol.Decision
use idr.Protocol.Decision.{
  DecisionContract, Recommendation, user_decided, recommendation_ready, option_refs, option_texts,
  weights, sum,
}
use idr.Protocol.Decision.Chosen.{validate-chosen}
use idr.Examples.Samples.{zeros, id, name, ref, metadata, blank_codec}

-- A user's command, with an authorization.
abbrev command_event : InputEvent
command_event = record {
  event_id = id 11;
  run_id = id 1;
  turn_id = id 2;
  source_actor = user;
  actor_ref = name b'a';
  primary_semantic_role = SemanticRole.command;
  semantic_roles = SemanticRole.command ∷ authorization ∷ [];
  content_ref = name b'c';
  content_digest = sha256_prefix ++ zeros;
  correlation_ref = name b'd';
  logical_time = 3;
  schema_version = 1;
}

command_valid : Input.validate command_event ≡ ok tt
unfolding Input.validate Base.ℕ_discrete Input.badly_assigned Base.sort_dedup Base.contains
    Input.SemanticRole-discrete Base.any source_actor_may_assert Base.is_blank Input.strip_prefix
    idr.Protocol.Digest.valid_digest
command_valid = refl

validate-roles_example :
    Elem SemanticRole.command command_event.semantic_roles
    × ((role : SemanticRole)
        → Elem role command_event.semantic_roles
        → source_actor_may_assert user role ≡ true)
    × (Elem authorization command_event.semantic_roles
        → (user ≡ user) ⊎ ((user ≡ human_approver) ⊎ (user ≡ policy_engine)))
validate-roles_example = validate-roles command_event command_valid

-- A decision of the user for one of two options, on one weighted criterion.
abbrev pub decided : DecisionContract
decided = record {
  metadata = metadata decision 9 (ref intent 12 ∷ []);
  intent_ref = ref intent 12;
  subject = b's' ∷ [];
  stage = user_decided;
  objective = b'o' ∷ [];
  constraints = [];
  criteria =
      record {
        name = b'c' ∷ [];
        importance = Decision.required;
        weight = some (record { value = 10000 });
        evidence_refs = [];
      }
      ∷ [];
  options =
      record {
        option_ref = name b'y';
        label = b'l' ∷ [];
        description = b'd' ∷ [];
        evidence_refs = [];
        reversible = true;
      }
      ∷ record {
        option_ref = name b'n';
        label = b'l' ∷ [];
        description = b'd' ∷ [];
        evidence_refs = [];
        reversible = true;
      }
      ∷ [];
  evidence_refs = [];
  conflicts = [];
  risks = [];
  uncertainty = [];
  recommendation = some (record {
    option_ref = name b'n';
    confidence = record { value = 7000 };
    conditions = [];
    evidence_refs = [];
  });
  selected_option_ref = some (name b'y');
  required_user_inputs = [];
  authorization_boundary = record {
    maximum_automatic_impact = low;
    user_confirmation_required = true;
    required_authority_refs = [];
    prohibited_automatic_operations = [];
  };
  record_digest = zeros;
}

decided_valid : Decision.validate blank_codec decided ≡ ok tt
unfolding Decision.validate idr.Protocol.Metadata.validate idr.Protocol.Metadata.malformed
    Base.ℕ_discrete Base.is_blank Reference.validate Base.try_each Base.Text-discrete Base.len
    Base.has_control idr.Protocol.Metadata.check_lineage idr.Protocol.Metadata.check_dependency
    idr.Protocol.ContractRef.validate idr.Protocol.Digest.valid_digest
    idr.Protocol.Id.Identifier-discrete idr.Protocol.Id.ContractKind-discrete
    idr.Protocol.Collections.validate_required_text Base.all Base.any Base.contains Base.dedup
    Base.sort Base.sort_dedup Base.trim idr.Protocol.Collections.validate_text_collection
    idr.Protocol.ContractRef.ContractRef-discrete Decision.badly_weighted Decision.check_choice
    Decision.check_collections Decision.check_option Decision.check_recommendation
    Decision.validate_risk idr.Protocol.Digest.check_digest idr.Protocol.Digest.contract_digest
    idr.Protocol.Metadata.continues Reference.new Reference.refused
decided_valid = refl

validate-chosen_example :
    (length (option_refs decided) ≡ length decided.options)
    × ((r : Reference) → some (name b'y') ≡ some r → Elem r.text (option_texts decided))
    × ((r : Recommendation)
        → decided.recommendation ≡ some r
        → Elem r.option_ref.text (option_texts decided))
    × ((user_decided ≡ user_decided) ↔ (is_some (some (name b'y')) ≡ true))
    × (user_decided ≡ recommendation_ready → is_some decided.recommendation ≡ true)
    × (rank low ≤ 1)
    × ((weights decided.criteria ≡ [])
        ⊎ ((length (weights decided.criteria) ≡ length decided.criteria)
            × (sum (weights decided.criteria) ≡ 10000)))
validate-chosen_example = validate-chosen blank_codec decided decided_valid
