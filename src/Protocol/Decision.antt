-- ===== src/Protocol/Decision.antt =====
-- crates/idr-protocol/src/human_centered/decision.rs: `DecisionContractV1`.
pub mod Chosen
use idr.Base.{
  ℕ, zero, ◌+◌, Bool, true, false, ◌||◌, ◌&&◌, ◌==◌, ◌!=◌, not, nat_eq, ltb, leb, List, [], ◌∷◌,
  length, map, is_empty, any, contains, Option, none, some, is_some, is_none, is_err, ok, err, deny,
  ◌>>◌, ◌>>=◌, try_each, try_some, Text, text_eq, text_ord, sort_dedup, Eq,
}
use idr.Protocol.Error.{
  Checked, contract_kind_mismatch, invalid_contract, digest_mismatch, collection_limit_exceeded,
}
use idr.Protocol.Reference.{Reference}
use idr.Protocol.Id.{BasisPoints, ImpactLevel, kind_eq, rank, intent, decision}
use idr.Protocol.Digest.{Codec, contract_digest, check_digest}
use idr.Protocol.ContractRef
use idr.Protocol.ContractRef.{ContractRef, contract_ref_eq}
use idr.Protocol.Collections.{
  validate_required_text, validate_text_collection, canonical_references,
}
use idr.Protocol.Metadata
use idr.Protocol.Metadata.{Metadata}

pub data DecisionStage : Type 0 where
  framing gathering_evidence generating_options comparing_options : DecisionStage
  awaiting_user_input recommendation_ready user_decided : DecisionStage

pub data CriterionImportance : Type 0 where
  required high medium low : CriterionImportance

pub record DecisionCriterion : Type 0 where
  pub name : Text
  pub importance : CriterionImportance
  pub weight : Option BasisPoints
  pub evidence_refs : List Reference

-- `DecisionCriterionV1::new`
unfoldable pub new_criterion : DecisionCriterion → Checked DecisionCriterion
new_criterion d = do
  evidence ← canonical_references d.evidence_refs
  validate_required_text d.name
  ok (record d { evidence_refs = evidence })

pub record DecisionOption : Type 0 where
  pub option_ref : Reference
  pub label : Text
  pub description : Text
  pub evidence_refs : List Reference
  pub reversible : Bool

-- `DecisionOptionV1::new`
unfoldable pub new_option : DecisionOption → Checked DecisionOption
new_option d = do
  evidence ← canonical_references d.evidence_refs
  validate_required_text d.label
  validate_required_text d.description
  ok (record d { evidence_refs = evidence })

pub record DecisionRisk : Type 0 where
  pub summary : Text
  pub impact : ImpactLevel
  pub likelihood : BasisPoints
  pub evidence_refs : List Reference
  pub mitigation : Option Text

-- `DecisionRiskV1::validate`
unfoldable pub validate_risk : DecisionRisk → Checked (Unit {0})
validate_risk r = do validate_required_text r.summary; try_some validate_required_text r.mitigation

pub record Recommendation : Type 0 where
  pub option_ref : Reference
  pub confidence : BasisPoints
  pub conditions : List Text
  pub evidence_refs : List Reference

pub record AuthorizationBoundary : Type 0 where
  pub maximum_automatic_impact : ImpactLevel
  pub user_confirmation_required : Bool
  pub required_authority_refs : List Reference
  pub prohibited_automatic_operations : List Reference

pub record DecisionContract : Type 0 where
  pub metadata : Metadata
  pub intent_ref : ContractRef
  pub subject : Text
  pub stage : DecisionStage
  pub objective : Text
  pub constraints : List Text
  pub criteria : List DecisionCriterion
  pub options : List DecisionOption
  pub evidence_refs : List Reference
  pub conflicts : List Text
  pub risks : List DecisionRisk
  pub uncertainty : List Text
  pub recommendation : Option Recommendation
  pub selected_option_ref : Option Reference
  pub required_user_inputs : List Text
  pub authorization_boundary : AuthorizationBoundary
  pub record_digest : Text

abbrev pub DigestInput : Type 0
DigestInput =
    (Metadata
      × ContractRef
      × Text
      × DecisionStage
      × Text
      × List Text
      × List DecisionCriterion
      × List DecisionOption)
    × (List Reference
        × List Text
        × List DecisionRisk
        × List Text
        × Option Recommendation
        × Option Reference
        × List Text
        × AuthorizationBoundary)

abbrev pub digest_input : DecisionContract → DigestInput
digest_input d = (
  (d.metadata, d.intent_ref, d.subject, d.stage, d.objective, d.constraints, d.criteria, d.options),
  (
    d.evidence_refs, d.conflicts, d.risks, d.uncertainty, d.recommendation, d.selected_option_ref,
    d.required_user_inputs, d.authorization_boundary,
  ),
)

abbrev pub option_texts : DecisionContract → List Text
option_texts d = map (λ (o : DecisionOption). o.option_ref.text) d.options

-- `option_refs`, a set
abbrev pub option_refs : DecisionContract → List Text
option_refs d = sort_dedup (option_texts d)

-- `weighted_criteria`: the weights that are there.
abbrev pub weights : List DecisionCriterion → List ℕ
weights [] = []
weights (c ∷ cs) = elim c.weight [ none ↦ weights cs | some w ↦ w.value ∷ weights cs ]

-- `.sum::<u32>()`, which 256 weights of 16 bits do not overflow.
abbrev pub sum : List ℕ → ℕ
sum [] = 0
sum (n ∷ ns) = n + sum ns

unfoldable pub badly_weighted : DecisionContract → Bool
badly_weighted d =
    not (is_empty (weights d.criteria))
    && (length (weights d.criteria) != length d.criteria || sum (weights d.criteria) != 10000)

unfoldable pub check_option : DecisionOption → Checked (Unit {0})
check_option o = do validate_required_text o.label; validate_required_text o.description

unfoldable pub check_recommendation : List Text → Recommendation → Checked (Unit {0})
check_recommendation refs r = do
  validate_text_collection r.conditions
  deny (not (contains refs r.option_ref.text)) invalid_contract

abbrev pub selects_unknown : List Text → Option Reference → Bool
selects_unknown refs none = false
selects_unknown refs (some selected) = not (contains refs selected.text)

-- `match self.stage`: what a stage must come with, and without.
abbrev pub misstaged : DecisionStage → DecisionContract → Bool
misstaged awaiting_user_input d = is_empty d.required_user_inputs || is_some d.selected_option_ref
misstaged recommendation_ready d =
    (is_none d.recommendation || not (is_empty d.required_user_inputs))
    || is_some d.selected_option_ref
misstaged user_decided d = is_none d.selected_option_ref || not (is_empty d.required_user_inputs)
misstaged framing d = is_some d.selected_option_ref
misstaged gathering_evidence d = is_some d.selected_option_ref
misstaged generating_options d = is_some d.selected_option_ref
misstaged comparing_options d = is_some d.selected_option_ref

-- The tests on the collections, up to the options' texts.
unfoldable pub check_collections : DecisionContract → Checked (Unit {0})
check_collections d = do
  deny (ltb 256 (length d.criteria) || ltb 256 (length d.options) || ltb 256 (length d.risks))
      collection_limit_exceeded
  deny
      (d.intent_ref.kind != intent
        || not (contains d.metadata.dependency_refs d.intent_ref)
        || any (λ (c : DecisionCriterion). is_err (validate_required_text c.name)) d.criteria
        || any (λ r. is_err (validate_risk r)) d.risks)
      invalid_contract
  deny
      (length (option_refs d) != length d.options
        || is_empty d.options && is_empty d.required_user_inputs)
      invalid_contract
  deny (badly_weighted d) invalid_contract
  try_each check_option d.options

-- The tests on what is recommended and selected, and on the authorization boundary.
unfoldable pub check_choice : DecisionContract → Checked (Unit {0})
check_choice d = do
  try_some (check_recommendation (option_refs d)) d.recommendation
  deny (selects_unknown (option_refs d) d.selected_option_ref) invalid_contract
  deny (misstaged d.stage d) invalid_contract
  deny (leb (rank ImpactLevel.high) (rank d.authorization_boundary.maximum_automatic_impact))
      invalid_contract

-- `DecisionContractV1::validate`
unfoldable pub validate : Codec → DecisionContract → Checked (Unit {0})
validate codec d = do
  Metadata.validate d.metadata
  deny (d.metadata.contract_kind != decision) contract_kind_mismatch
  ContractRef.validate d.intent_ref
  validate_required_text d.subject
  validate_required_text d.objective
  validate_text_collection d.constraints
  validate_text_collection d.conflicts
  validate_text_collection d.uncertainty
  validate_text_collection d.required_user_inputs
  check_collections d
  check_choice d
  check_digest codec "decision-contract-v1" (digest_input d) d.record_digest digest_mismatch

-- Setting the digest and validating, the end of `issue`.
unfoldable pub seal : Codec → DecisionContract → Checked DecisionContract
seal codec value = do
  digest ← contract_digest codec "decision-contract-v1" (digest_input value)
  validate codec (record value { record_digest = digest })
  ok (record value { record_digest = digest })

-- `DecisionContractV1::issue`: its arguments are the fields of `d`, whose evidence is not yet
-- canonical and whose digest is not read.
unfoldable pub issue : Codec → DecisionContract → Checked DecisionContract
issue codec d = do
  evidence ← canonical_references d.evidence_refs
  seal codec (record d { evidence_refs = evidence; record_digest = [] })

-- `DecisionContractV1::record_ref`
unfoldable pub record_ref : Codec → DecisionContract → Checked ContractRef
record_ref codec d = do
  validate codec d
  ContractRef.new decision d.metadata.contract_id d.metadata.revision d.record_digest
