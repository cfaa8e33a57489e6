-- ===== src/Protocol/Response.antt =====
-- crates/idr-protocol/src/human_centered/response.rs: `ResponseContractV1`.
pub mod Rendered
use idr.Base.{
  ℕ, Bool, true, false, ◌||◌, ◌&&◌, ◌==◌, ◌!=◌, not, List, [], is_empty, contains, ok, err, deny,
  ◌>>◌, ◌>>=◌, try_each, Text, Eq,
}
use idr.Protocol.Error.{Checked, contract_kind_mismatch, invalid_contract, digest_mismatch}
use idr.Protocol.Reference.{Reference}
use idr.Protocol.Id.{
  ContractKind, kind_eq, intent, decision, action, execution_receipt, outcome, response,
}
use idr.Protocol.Digest.{Codec, contract_digest, check_digest}
use idr.Protocol.ContractRef
use idr.Protocol.ContractRef.{ContractRef, contract_ref_eq}
use idr.Protocol.Collections.{validate_text_collection, canonical_references}
use idr.Protocol.Metadata
use idr.Protocol.Metadata.{Metadata}

pub data ResponsePhase : Type 0 where
  pre_action progress post_action final : ResponsePhase

unfoldable pub ResponsePhase-discrete : Discrete ResponsePhase
ResponsePhase-discrete = hlevel

instance abbrev pub response_phase_eq : Eq ResponsePhase
response_phase_eq = record { dec = ResponsePhase-discrete }

pub data ResponseType : Type 0 where
  answer clarification recommendation challenge confirmation_request : ResponseType
  progress_update execution_report recovery_offer : ResponseType

unfoldable pub ResponseType-discrete : Discrete ResponseType
ResponseType-discrete = hlevel

instance abbrev pub response_type_eq : Eq ResponseType
response_type_eq = record { dec = ResponseType-discrete }

pub data ExplanationDepth : Type 0 where
  minimal low medium high : ExplanationDepth

pub data TerminologyLevel : Type 0 where
  plain professional expert : TerminologyLevel

pub record ResponseContract : Type 0 where
  pub metadata : Metadata
  pub source_contract_refs : List ContractRef
  pub response_phase : ResponsePhase
  pub response_type : ResponseType
  pub answer_structure : List Text
  pub evidence_refs : List Reference
  pub explanation_depth : ExplanationDepth
  pub terminology_level : TerminologyLevel
  pub clarification_questions : List Text
  pub uncertainty_disclosures : List Text
  pub prohibited_content_refs : List Reference
  pub requires_post_render_policy_check : Bool
  pub record_digest : Text

abbrev pub DigestInput : Type 0
DigestInput =
    Metadata
    × List ContractRef
    × ResponsePhase
    × ResponseType
    × List Text
    × List Reference
    × ExplanationDepth
    × TerminologyLevel
    × List Text
    × List Text
    × List Reference
    × Bool

abbrev pub digest_input : ResponseContract → DigestInput
digest_input r = (
  r.metadata, r.source_contract_refs, r.response_phase, r.response_type, r.answer_structure,
  r.evidence_refs, r.explanation_depth, r.terminology_level, r.clarification_questions,
  r.uncertainty_disclosures, r.prohibited_content_refs, r.requires_post_render_policy_check,
)

abbrev pub is_source_kind : ContractKind → Bool
is_source_kind intent = true
is_source_kind decision = true
is_source_kind action = true
is_source_kind execution_receipt = true
is_source_kind outcome = true
is_source_kind _ = false

abbrev pub is_result_kind : ContractKind → Bool
is_result_kind execution_receipt = true
is_result_kind outcome = true
is_result_kind _ = false

-- The body of the loop over the sources.
unfoldable pub check_source : ResponseContract → ContractRef → Checked (Unit {0})
check_source r reference = do
  ContractRef.validate reference
  deny (not (is_source_kind reference.kind) || not (contains r.metadata.dependency_refs reference))
      invalid_contract
  deny (r.response_phase == pre_action && is_result_kind reference.kind) invalid_contract

-- `ResponseContractV1::validate`
unfoldable pub validate : Codec → ResponseContract → Checked (Unit {0})
validate codec r = do
  Metadata.validate r.metadata
  deny (r.metadata.contract_kind != response) contract_kind_mismatch
  validate_text_collection r.answer_structure
  validate_text_collection r.clarification_questions
  validate_text_collection r.uncertainty_disclosures
  deny
      (is_empty r.source_contract_refs
        || is_empty r.answer_structure
        || not r.requires_post_render_policy_check)
      invalid_contract
  try_each (check_source r) r.source_contract_refs
  deny (r.response_type == clarification && is_empty r.clarification_questions) invalid_contract
  check_digest codec "response-contract-v1" (digest_input r) r.record_digest digest_mismatch

-- Setting the digest and validating, the end of `issue`.
unfoldable pub seal : Codec → ResponseContract → Checked ResponseContract
seal codec value = do
  digest ← contract_digest codec "response-contract-v1" (digest_input value)
  validate codec (record value { record_digest = digest })
  ok (record value { record_digest = digest })

-- `ResponseContractV1::issue`: its arguments are the fields of `d`, whose references are not yet
-- canonical; its last two fields are not read.
unfoldable pub issue : Codec → ResponseContract → Checked ResponseContract
issue codec d = do
  evidence ← canonical_references d.evidence_refs
  prohibited ← canonical_references d.prohibited_content_refs
  seal codec (record d {
    evidence_refs = evidence;
    prohibited_content_refs = prohibited;
    requires_post_render_policy_check = true;
    record_digest = [];
  })

-- `ResponseContractV1::record_ref`
unfoldable pub record_ref : Codec → ResponseContract → Checked ContractRef
record_ref codec r = do
  validate codec r
  ContractRef.new response r.metadata.contract_id r.metadata.revision r.record_digest
