-- ===== src/Protocol/Outcome/Validity.antt =====
-- What `OutcomeRecordV1::validate` decides.
use idr.Base.{
  ◌≡◌, ◌↔◌, ◌⊎◌, refl, false, true, Bool, ok, arith, is_some, is_none, is_empty, Option, none, some,
  Elem, contains_iff, try_some,
}
use idr.Protocol.Error.{digest_mismatch}
use idr.Protocol.Id.{ContractKind, kind_eq, decision, action, execution_receipt, outcome}
use idr.Protocol.Digest.{Codec, contract_digest, check_digest, check_digest-ok_iff}
use idr.Protocol.ContractRef
use idr.Protocol.ContractRef.{ContractRef, contract_ref_eq}
use idr.Protocol.Collections.{validate_required_text, validate_text_collection}
use idr.Protocol.Metadata
use idr.Protocol.Metadata.{Metadata}
use idr.Protocol.Outcome.{
  OutcomeRecord, observed, unknown, conflicted, execution_quality, decision_quality,
  insufficient_evidence, digest_input, check_reference, check_attribution, validate,
  outcome_state_eq, outcome_attribution_eq,
}

-- A reference that is there is sound, of the given kind, and a dependency.
abbrev pub Refers : ContractKind → Metadata → Option ContractRef → Type 0
Refers kind m none = Unit {0}
Refers kind m (some r) =
    (ContractRef.validate r ≡ ok tt) × (r.kind ≡ kind) × Elem r m.dependency_refs

-- What each state and attribution must come with.
pub record Accounts (o : OutcomeRecord) : Type 0 where
  pub unknown_cause : o.state ≡ unknown → o.attribution ≡ insufficient_evidence
  pub unknown_results :
      o.state ≡ unknown
      → (is_empty o.observed_results ≡ true)
        × (is_empty o.success_criteria_satisfied ≡ true)
        × (is_empty o.success_criteria_unsatisfied ≡ true)
  pub observed_results :
      o.state ≡ observed
      → (is_empty o.observed_results ≡ false) × (is_empty o.evidence_refs ≡ false)
  pub conflicting :
      o.state ≡ conflicted
      → (is_empty o.success_criteria_satisfied ≡ false)
        × (is_empty o.success_criteria_unsatisfied ≡ false)
  pub executed : o.attribution ≡ execution_quality → is_some o.execution_receipt_ref ≡ true
  pub decided : o.attribution ≡ decision_quality → is_some o.decision_ref ≡ true

pub record IsValid (codec : Codec) (o : OutcomeRecord) : Type 0 where
  pub metadata_valid : Metadata.validate o.metadata ≡ ok tt
  pub is_outcome : o.metadata.contract_kind ≡ outcome
  pub objective_valid : validate_required_text o.objective ≡ ok tt
  pub results_valid : validate_text_collection o.observed_results ≡ ok tt
  pub satisfied_valid : validate_text_collection o.success_criteria_satisfied ≡ ok tt
  pub unsatisfied_valid : validate_text_collection o.success_criteria_unsatisfied ≡ ok tt
  pub has_subject : (is_some o.decision_ref ≡ true) ⊎ (is_some o.action_ref ≡ true)
  pub of_decision : Refers decision o.metadata o.decision_ref
  pub of_action : Refers action o.metadata o.action_ref
  pub of_receipt : Refers execution_receipt o.metadata o.execution_receipt_ref
  pub receipt_of_action : is_some o.execution_receipt_ref ≡ true → is_some o.action_ref ≡ true
  pub accounts : Accounts o
  pub sealed : contract_digest codec "outcome-record-v1" (digest_input o) ≡ ok o.record_digest

check_reference-ok_iff :
    (kind : ContractKind) (lonely : Bool) (m : Metadata) (r : Option ContractRef)
    → (try_some (check_reference kind lonely m) r ≡ ok tt)
      ↔ (Refers kind m r × (is_some r ≡ true → lonely ≡ false))
unfolding check_reference
check_reference-ok_iff kind lonely m none = ((λ _. (tt, λ e. cc)), λ _. refl)
check_reference-ok_iff kind lonely m (some r) = ground (arith, contains_iff m.dependency_refs r)

check_attribution-Accounts : (o : OutcomeRecord) → check_attribution o ≡ ok tt → Accounts o
unfolding check_attribution
check_attribution-Accounts o h = record {
  unknown_cause = λ e. ground arith;
  unknown_results = λ e. ground arith;
  observed_results = λ e. ground arith;
  conflicting = λ e. ground arith;
  executed = λ e. ground arith;
  decided = λ e. ground arith;
}

check_attribution_of_Accounts : (o : OutcomeRecord) → Accounts o → check_attribution o ≡ ok tt
unfolding check_attribution
check_attribution_of_Accounts o a = ground (
  arith, a.unknown_cause, a.unknown_results, a.observed_results, a.conflicting, a.executed,
  a.decided,
)

lonely_iff :
    (o p : Option ContractRef)
    → (is_some o ≡ true → is_none p ≡ false) ↔ (is_some o ≡ true → is_some p ≡ true)
lonely_iff o p = ground arith

module _ (codec : Codec) (o : OutcomeRecord) where
  seal_iff :
      (check_digest codec "outcome-record-v1" (digest_input o) o.record_digest digest_mismatch
        ≡ ok tt)
      ↔ (contract_digest codec "outcome-record-v1" (digest_input o) ≡ ok o.record_digest)
  seal_iff =
      check_digest-ok_iff codec "outcome-record-v1" (digest_input o) o.record_digest digest_mismatch

  of_receipt_iff :
      (try_some
          (check_reference execution_receipt (is_none o.action_ref) o.metadata)
          o.execution_receipt_ref
        ≡ ok tt)
      ↔ (Refers execution_receipt o.metadata o.execution_receipt_ref
          × (is_some o.execution_receipt_ref ≡ true → is_none o.action_ref ≡ false))
  of_receipt_iff =
      check_reference-ok_iff execution_receipt (is_none o.action_ref) o.metadata
        o.execution_receipt_ref

  validate-IsValid : validate codec o ≡ ok tt → IsValid codec o
  unfolding validate
  validate-IsValid h =
      let receipt = of_receipt_iff.0 (ground arith) in
      record {
        metadata_valid = ground arith;
        is_outcome = ground arith;
        objective_valid = ground arith;
        results_valid = ground arith;
        satisfied_valid = ground arith;
        unsatisfied_valid = ground arith;
        has_subject = ground arith;
        of_decision =
            ((check_reference-ok_iff decision false o.metadata o.decision_ref).0 (ground arith)).0;
        of_action =
            ((check_reference-ok_iff action false o.metadata o.action_ref).0 (ground arith)).0;
        of_receipt = receipt.0;
        receipt_of_action = (lonely_iff o.execution_receipt_ref o.action_ref).0 receipt.1;
        accounts = check_attribution-Accounts o (ground arith);
        sealed = (seal_iff).0 (ground arith);
      }

  validate_of_IsValid : IsValid codec o → validate codec o ≡ ok tt
  unfolding validate
  validate_of_IsValid v = ground (
    arith,
    v.metadata_valid,
    v.is_outcome,
    v.objective_valid,
    v.results_valid,
    v.satisfied_valid,
    v.unsatisfied_valid,
    v.has_subject,
    (check_reference-ok_iff decision false o.metadata o.decision_ref).1 (v.of_decision, λ _. refl),
    (check_reference-ok_iff action false o.metadata o.action_ref).1 (v.of_action, λ _. refl),
    (of_receipt_iff).1
        (v.of_receipt, (lonely_iff o.execution_receipt_ref o.action_ref).1 v.receipt_of_action),
    check_attribution_of_Accounts o v.accounts,
    (seal_iff).1 v.sealed,
  )

  -- An outcome is accepted exactly when its metadata are valid and of kind outcome, its texts pass
  -- their checks, it is of a decision or an action, its references are sound, of their kinds and
  -- dependencies, a receipt comes with an action, its state and attribution come with what they
  -- claim (an unknown outcome has no results and no cause), and its digest is that of its contents.
  pub outcome_ok_iff : (validate codec o ≡ ok tt) ↔ IsValid codec o
  outcome_ok_iff = (validate-IsValid, validate_of_IsValid)
