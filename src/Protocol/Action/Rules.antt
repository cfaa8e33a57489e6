-- ===== src/Protocol/Action/Rules.antt =====
-- What `ActionContractV1::validate` demands, and what its digest binds.
use idr.Base.{
  ◌≤◌, ◌≡◌, ◌≢◌, ◌↔◌, refl, sym, ap, ◌∙◌, false, true, ok, arith, Option, none, some, is_some,
  is_empty, Elem, contains_iff, try_some,
}
use idr.Protocol.Error.{digest_mismatch}
use idr.Protocol.Id.{action, decision, rank}
use idr.Protocol.Digest.{Codec, contract_digest, check_digest, check_digest-ok_iff}
use idr.Protocol.ContractRef
use idr.Protocol.ContractRef.{ContractRef, contract_ref_eq}
use idr.Protocol.Collections.{
  canonical_references, validate_required_text, validate_text_collection,
}
use idr.Protocol.Json.{validate_json_payload}
use idr.Protocol.Metadata
use idr.Protocol.Metadata.{Metadata}
use idr.Protocol.Action.{
  ActionContract, ActionDraft, digest_input, not_required, check_decision_ref, check_parameters,
  check_impact, validate, seal, issue,
}

-- A decision that an action rests on is a sound reference to a decision, and a dependency.
abbrev pub RestsOn : Metadata → Option ContractRef → Type 0
RestsOn m none = Unit {0}
RestsOn m (some r) =
    (ContractRef.validate r ≡ ok tt) × (r.kind ≡ decision) × Elem r m.dependency_refs

pub record IsValid (codec : Codec) (a : ActionContract) : Type 0 where
  pub metadata_valid : Metadata.validate a.metadata ≡ ok tt
  pub is_action : a.metadata.contract_kind ≡ action
  pub preconditions_valid : validate_text_collection a.preconditions ≡ ok tt
  pub requirements_valid : validate_text_collection a.verification_requirements ≡ ok tt
  pub key_valid : validate_required_text a.idempotency_key ≡ ok tt
  pub payload_valid : validate_json_payload codec.to_vec a.parameters ≡ ok tt
  pub parameters_checked : check_parameters codec a ≡ ok tt
  pub decision_checked : RestsOn a.metadata a.decision_ref
  pub high_authorized : 2 ≤ rank a.impact_level → a.authorization_state ≢ not_required
  pub high_decided : 2 ≤ rank a.impact_level → is_some a.decision_ref ≡ true
  pub irreversible_decided : a.reversible ≡ false → is_some a.decision_ref ≡ true
  pub compensated : a.reversible ≡ true → is_empty a.compensation_operations ≡ false
  pub sealed : contract_digest codec "action-contract-v1" (digest_input a) ≡ ok a.record_digest

check_decision_ref-ok_iff :
    (m : Metadata) (o : Option ContractRef)
    → (try_some (check_decision_ref m) o ≡ ok tt) ↔ RestsOn m o
unfolding check_decision_ref
check_decision_ref-ok_iff m none = ((λ _. tt), λ _. refl)
check_decision_ref-ok_iff m (some r) = ground (arith, contains_iff m.dependency_refs r)

record Rules (a : ActionContract) : Type 0 where
  high_authorized : 2 ≤ rank a.impact_level → a.authorization_state ≢ not_required
  high_decided : 2 ≤ rank a.impact_level → is_some a.decision_ref ≡ true
  irreversible_decided : a.reversible ≡ false → is_some a.decision_ref ≡ true
  compensated : a.reversible ≡ true → is_empty a.compensation_operations ≡ false

check_impact-Rules : (a : ActionContract) → check_impact a ≡ ok tt → Rules a
unfolding check_impact
check_impact-Rules a h = record {
  high_authorized = λ r e. ground arith;
  high_decided = λ r. ground arith;
  irreversible_decided = λ r. ground arith;
  compensated = λ r. ground arith;
}

check_impact_of_Rules : (a : ActionContract) → Rules a → check_impact a ≡ ok tt
unfolding check_impact
check_impact_of_Rules a r =
    ground (arith, r.high_authorized, r.high_decided, r.irreversible_decided, r.compensated)

module _ (codec : Codec) (a : ActionContract) where
  seal_iff :
      (check_digest codec "action-contract-v1" (digest_input a) a.record_digest digest_mismatch
        ≡ ok tt)
      ↔ (contract_digest codec "action-contract-v1" (digest_input a) ≡ ok a.record_digest)
  seal_iff =
      check_digest-ok_iff codec "action-contract-v1" (digest_input a) a.record_digest
        digest_mismatch

  validate-IsValid : validate codec a ≡ ok tt → IsValid codec a
  unfolding validate
  validate-IsValid h =
      let rules : Rules a = check_impact-Rules a (ground arith) in
      record {
        metadata_valid = ground arith;
        is_action = ground arith;
        preconditions_valid = ground arith;
        requirements_valid = ground arith;
        key_valid = ground arith;
        payload_valid = ground arith;
        parameters_checked = ground arith;
        decision_checked = (check_decision_ref-ok_iff a.metadata a.decision_ref).0 (ground arith);
        high_authorized = rules.high_authorized;
        high_decided = rules.high_decided;
        irreversible_decided = rules.irreversible_decided;
        compensated = rules.compensated;
        sealed = (seal_iff).0 (ground arith);
      }

  validate_of_IsValid : IsValid codec a → validate codec a ≡ ok tt
  unfolding validate
  validate_of_IsValid v =
      let rules : check_impact a ≡ ok tt = check_impact_of_Rules a (record {
        high_authorized = v.high_authorized;
        high_decided = v.high_decided;
        irreversible_decided = v.irreversible_decided;
        compensated = v.compensated;
      }) in
      ground (
        arith,
        rules,
        (check_decision_ref-ok_iff a.metadata a.decision_ref).1 v.decision_checked,
        (seal_iff).1 v.sealed,
        v.metadata_valid,
        v.is_action,
        v.preconditions_valid,
        v.requirements_valid,
        v.key_valid,
        v.payload_valid,
        v.parameters_checked,
      )

  -- An action contract is accepted exactly when its metadata are valid and of kind action, its
  -- texts, payload and parameter digest pass their checks, its decision is a dependency, high
  -- impact comes with a decision and an authorization, an irreversible action with a decision, a
  -- reversible one with a compensation, and its digest is that of its contents.
  pub action_ok_iff : (validate codec a ≡ ok tt) ↔ IsValid codec a
  action_ok_iff = (validate-IsValid, validate_of_IsValid)

digest_input-injective :
    (a b : ActionContract)
    → digest_input a ≡ digest_input b
    → a.record_digest ≡ b.record_digest
    → a ≡ b
digest_input-injective a b e d = ground arith

-- Two accepted contracts with the same record digest are the same contract, where the digest does
-- not collide on their contents.
pub validate-binds :
    (codec : Codec) (a b : ActionContract)
    → validate codec a ≡ ok tt
    → validate codec b ≡ ok tt
    → a.record_digest ≡ b.record_digest
    → (contract_digest codec "action-contract-v1" (digest_input a)
          ≡ contract_digest codec "action-contract-v1" (digest_input b)
        → digest_input a ≡ digest_input b)
    → a ≡ b
validate-binds codec a b h k e distinct =
    let x : _ = ((action_ok_iff codec a).0 h).sealed in
    let y : _ = ((action_ok_iff codec b).0 k).sealed in
    digest_input-injective a b (distinct (x ∙ ap ok e ∙ sym y)) e

-- An issued contract has the arguments as its fields, with the two lists of references made
-- canonical and the digests computed, and is accepted by `validate`.
pub issue-ok :
    (codec : Codec) (d : ActionDraft) (a : ActionContract)
    → issue codec d ≡ ok a
    → (validate codec a ≡ ok tt)
      × (a.metadata ≡ d.metadata)
      × (a.decision_ref ≡ d.decision_ref)
      × (a.parameters ≡ d.parameters)
      × (a.authorization_state ≡ d.authorization_state)
      × (a.impact_level ≡ d.impact_level)
      × (a.reversible ≡ d.reversible)
      × (canonical_references d.required_authority_refs ≡ ok a.required_authority_refs)
      × (canonical_references d.compensation_operations ≡ ok a.compensation_operations)
      × (contract_digest codec "action-parameters-v1" d.parameters ≡ ok a.parameter_digest)
unfolding issue seal
issue-ok codec d a h = ground arith
