-- ===== src/Examples/Actions.antt =====
-- The theorems on actions and their authorization at concrete inputs.
use idr.Base.{◌≡◌, ◌≤◌, ◌<◌, refl, ok, err, [], ◌∷◌, arith, some, inl, inr}
use idr.Base
use idr.Protocol.Id.{action, decision, rank}
use idr.Protocol.ContractRef.{ContractRef}
use idr.Protocol.Reference
use idr.Protocol.Action
use idr.Protocol.Action.{ActionContract, issue}
use idr.Protocol.Action.Rules.{validate-binds}
use idr.Protocol.Collections.{canonical_references}
use idr.Protocol.Digest.{contract_digest}
use idr.Protocol.Authorization.{
  ExactActionAuthorization, validate_for, evaluate_action_admission, admit, approve,
}
use idr.Protocol.Authorization.Admission.{
  AllPass, Cleared, evaluate_action_admission-admit_iff, evaluate_action_admission-high_impact,
}
use idr.Examples.Samples.{blank_codec, transfer, approval, favourable}

transfer_valid : Action.validate blank_codec transfer ≡ ok tt
unfolding Action.validate idr.Protocol.Metadata.validate idr.Protocol.Metadata.malformed
    Base.ℕ_discrete Base.is_blank Reference.validate Base.try_each Base.Text-discrete Base.len
    Base.has_control idr.Protocol.Metadata.check_lineage idr.Protocol.Metadata.check_dependency
    idr.Protocol.ContractRef.validate idr.Protocol.Digest.valid_digest
    idr.Protocol.Id.Identifier-discrete idr.Protocol.Id.ContractKind-discrete
    idr.Protocol.Collections.validate_text_collection Base.all Base.any Base.contains Base.trim
    Action.AuthorizationState-discrete Action.check_decision_ref Action.check_impact
    Action.check_parameters idr.Protocol.Collections.validate_required_text
    idr.Protocol.ContractRef.ContractRef-discrete idr.Protocol.Digest.check_digest contract_digest
    idr.Protocol.Json.validate_json_payload idr.Protocol.Json.walk idr.Protocol.Metadata.continues
    Reference.new Reference.refused
transfer_valid = refl

approved_at_20 : validate_for blank_codec approval transfer 20 ≡ ok tt
unfolding validate_for Action.validate idr.Protocol.Metadata.validate
    idr.Protocol.Metadata.malformed Base.ℕ_discrete Base.is_blank Reference.validate Base.try_each
    Base.Text-discrete Base.len Base.has_control idr.Protocol.Metadata.check_lineage
    idr.Protocol.Metadata.check_dependency idr.Protocol.ContractRef.validate
    idr.Protocol.Digest.valid_digest idr.Protocol.Id.Identifier-discrete
    idr.Protocol.Id.ContractKind-discrete Base.all Base.any Base.contains Base.trim
    Action.AuthorizationState-discrete Action.check_decision_ref Action.check_impact
    Action.check_parameters Action.record_ref idr.Protocol.Authorization.outside_window
    idr.Protocol.Authorization.unbound idr.Protocol.Collections.validate_required_text
    idr.Protocol.Collections.validate_text_collection idr.Protocol.ContractRef.ContractRef-discrete
    idr.Protocol.ContractRef.new idr.Protocol.Digest.check_digest contract_digest
    idr.Protocol.Json.validate_json_payload idr.Protocol.Json.walk idr.Protocol.Metadata.continues
    Reference.Reference-discrete Reference.new Reference.refused
approved_at_20 = refl

admitted_at_20 :
    (evaluate_action_admission blank_codec transfer favourable (some approval) 20).outcome ≡ admit
unfolding evaluate_action_admission Action.validate idr.Protocol.Metadata.validate
    idr.Protocol.Metadata.malformed Base.ℕ_discrete Base.is_blank Reference.validate Base.try_each
    Base.Text-discrete Base.len Base.has_control idr.Protocol.Metadata.check_lineage
    idr.Protocol.Metadata.check_dependency idr.Protocol.ContractRef.validate
    idr.Protocol.Digest.valid_digest idr.Protocol.Id.Identifier-discrete
    idr.Protocol.Id.ContractKind-discrete Base.all Base.any Base.contains Base.filter Base.trim
    Action.AuthorizationState-discrete Action.check_decision_ref Action.check_impact
    Action.check_parameters Action.record_ref
    idr.Protocol.Authorization.AuthorizationDecision-discrete
    idr.Protocol.Authorization.decide_authorized idr.Protocol.Authorization.decide_facts
    idr.Protocol.Authorization.decide_state idr.Protocol.Authorization.failed_checks
    idr.Protocol.Authorization.outside_window idr.Protocol.Authorization.unbound validate_for
    idr.Protocol.Collections.validate_required_text
    idr.Protocol.Collections.validate_text_collection idr.Protocol.ContractRef.ContractRef-discrete
    idr.Protocol.ContractRef.new idr.Protocol.Digest.check_digest contract_digest
    idr.Protocol.Json.validate_json_payload idr.Protocol.Json.walk idr.Protocol.Metadata.continues
    Reference.Reference-discrete Reference.new Reference.refused
admitted_at_20 = refl

validate-binds_example : transfer ≡ transfer
validate-binds_example =
    validate-binds blank_codec transfer transfer transfer_valid transfer_valid refl (λ e. refl)

evaluate_action_admission-admit_iff_example :
    (Action.validate blank_codec transfer ≡ ok tt)
    × (0 < 20)
    × (20 < transfer.metadata.valid_until)
    × Cleared blank_codec transfer (some approval) 20
    × AllPass favourable
evaluate_action_admission-admit_iff_example =
    (evaluate_action_admission-admit_iff blank_codec favourable 20 transfer (some approval)).0
      admitted_at_20

evaluate_action_admission-high_impact_example :
    (w : ExactActionAuthorization) × (some approval ≡ some w)
    × (w.decision ≡ approve)
    × (Action.record_ref blank_codec transfer ≡ ok w.action_ref)
    × (w.issued_at ≤ 20)
    × (20 < w.expires_at)
evaluate_action_admission-high_impact_example =
    evaluate_action_admission-high_impact blank_codec transfer favourable (some approval) 20
      (omega arith) admitted_at_20
