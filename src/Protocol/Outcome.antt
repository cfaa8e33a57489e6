-- ===== src/Protocol/Outcome.antt =====
-- crates/idr-protocol/src/human_centered/outcome.rs: `OutcomeRecordV1`.
pub mod Validity
use idr.Base.{
  ℕ, Bool, true, false, ◌||◌, ◌&&◌, ◌==◌, ◌!=◌, not, List, [], is_empty, contains, Option, none,
  some, is_none, ok, err, deny, ◌>>◌, ◌>>=◌, try_some, Text, Eq,
}
use idr.Protocol.Error.{Checked, contract_kind_mismatch, invalid_contract, digest_mismatch}
use idr.Protocol.Reference.{Reference}
use idr.Protocol.Id.{
  BasisPoints, ContractKind, kind_eq, decision, action, execution_receipt, outcome,
}
use idr.Protocol.Digest.{Codec, contract_digest, check_digest}
use idr.Protocol.ContractRef
use idr.Protocol.ContractRef.{ContractRef, contract_ref_eq}
use idr.Protocol.Collections.{
  validate_required_text, validate_text_collection, canonical_references,
}
use idr.Protocol.Metadata
use idr.Protocol.Metadata.{Metadata}

pub data OutcomeState : Type 0 where
  observed partially_observed unknown conflicted : OutcomeState

unfoldable pub OutcomeState-discrete : Discrete OutcomeState
OutcomeState-discrete = hlevel

instance abbrev pub outcome_state_eq : Eq OutcomeState
outcome_state_eq = record { dec = OutcomeState-discrete }

pub data OutcomeAttribution : Type 0 where
  intent_resolution decision_quality execution_quality environment_change : OutcomeAttribution
  mixed insufficient_evidence : OutcomeAttribution

unfoldable pub OutcomeAttribution-discrete : Discrete OutcomeAttribution
OutcomeAttribution-discrete = hlevel

instance abbrev pub outcome_attribution_eq : Eq OutcomeAttribution
outcome_attribution_eq = record { dec = OutcomeAttribution-discrete }

pub record OutcomeRecord : Type 0 where
  pub metadata : Metadata
  pub decision_ref : Option ContractRef
  pub action_ref : Option ContractRef
  pub execution_receipt_ref : Option ContractRef
  pub objective : Text
  pub state : OutcomeState
  pub observed_results : List Text
  pub success_criteria_satisfied : List Text
  pub success_criteria_unsatisfied : List Text
  pub attribution : OutcomeAttribution
  pub attribution_confidence : BasisPoints
  pub evidence_refs : List Reference
  pub follow_up_required : Bool
  pub record_digest : Text

abbrev pub DigestInput : Type 0
DigestInput =
    Metadata
    × Option ContractRef
    × Option ContractRef
    × Option ContractRef
    × Text
    × OutcomeState
    × List Text
    × List Text
    × List Text
    × OutcomeAttribution
    × BasisPoints
    × List Reference
    × Bool

abbrev pub digest_input : OutcomeRecord → DigestInput
digest_input o = (
  o.metadata, o.decision_ref, o.action_ref, o.execution_receipt_ref, o.objective, o.state,
  o.observed_results, o.success_criteria_satisfied, o.success_criteria_unsatisfied, o.attribution,
  o.attribution_confidence, o.evidence_refs, o.follow_up_required,
)

-- The check of one of the three references; `lonely` is the third test of the receipt's.
unfoldable pub check_reference : ContractKind → Bool → Metadata → ContractRef → Checked (Unit {0})
check_reference kind lonely m reference = do
  ContractRef.validate reference
  deny (reference.kind != kind || not (contains m.dependency_refs reference) || lonely)
      invalid_contract

-- `match self.state`: what a state must come with.
abbrev pub misreported : OutcomeState → OutcomeRecord → Bool
misreported observed o = is_empty o.observed_results || is_empty o.evidence_refs
misreported unknown o =
    not (is_empty o.observed_results)
    || not (is_empty o.success_criteria_satisfied)
    || not (is_empty o.success_criteria_unsatisfied)
misreported conflicted o =
    is_empty o.success_criteria_satisfied || is_empty o.success_criteria_unsatisfied
misreported partially_observed o = false

-- The tests on the state and the attribution.
unfoldable pub check_attribution : OutcomeRecord → Checked (Unit {0})
check_attribution o = do
  deny (o.state == unknown && o.attribution != insufficient_evidence) invalid_contract
  deny (misreported o.state o) invalid_contract
  deny
      (o.attribution == execution_quality && is_none o.execution_receipt_ref
        || o.attribution == decision_quality && is_none o.decision_ref)
      invalid_contract

-- `OutcomeRecordV1::validate`
unfoldable pub validate : Codec → OutcomeRecord → Checked (Unit {0})
validate codec o = do
  Metadata.validate o.metadata
  deny (o.metadata.contract_kind != outcome) contract_kind_mismatch
  validate_required_text o.objective
  validate_text_collection o.observed_results
  validate_text_collection o.success_criteria_satisfied
  validate_text_collection o.success_criteria_unsatisfied
  deny (is_none o.decision_ref && is_none o.action_ref) invalid_contract
  try_some (check_reference decision false o.metadata) o.decision_ref
  try_some (check_reference action false o.metadata) o.action_ref
  try_some (check_reference execution_receipt (is_none o.action_ref) o.metadata)
      o.execution_receipt_ref
  check_attribution o
  check_digest codec "outcome-record-v1" (digest_input o) o.record_digest digest_mismatch

-- Setting the digest and validating, the end of `issue`.
unfoldable pub seal : Codec → OutcomeRecord → Checked OutcomeRecord
seal codec value = do
  digest ← contract_digest codec "outcome-record-v1" (digest_input value)
  validate codec (record value { record_digest = digest })
  ok (record value { record_digest = digest })

-- `OutcomeRecordV1::issue`: its arguments are the fields of `d`, whose evidence is not yet
-- canonical and whose digest is not read.
unfoldable pub issue : Codec → OutcomeRecord → Checked OutcomeRecord
issue codec d = do
  evidence ← canonical_references d.evidence_refs
  seal codec (record d { evidence_refs = evidence; record_digest = [] })

-- `OutcomeRecordV1::record_ref`
unfoldable pub record_ref : Codec → OutcomeRecord → Checked ContractRef
record_ref codec o = do
  validate codec o
  ContractRef.new outcome o.metadata.contract_id o.metadata.revision o.record_digest
