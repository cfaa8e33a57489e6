-- ===== src/Protocol/Intent.antt =====
-- crates/idr-protocol/src/human_centered/intent.rs: hypotheses and `IntentContractV1`.
pub mod Ranking
pub mod Personal
use Prim.Native.Nat.{◌%◌}
use idr.Base.{
  ℕ, zero, suc, ◌+◌, ◌^◌, Bool, true, false, ◌||◌, ◌&&◌, ◌==◌, ◌!=◌, not, nat_eq, nat_ord, ltb,
  List, [], ◌∷◌, length, map, is_empty, any, all, contains, Option, none, some, is_some, ok, err,
  deny, ◌>>◌, ◌>>=◌, Text, Text-discrete, text_eq, text_ord, sort_dedup, is_blank, Eq,
}
use idr.Base.BTree.{lookup, update, add}
use idr.Protocol.Error.{
  Checked, contract_kind_mismatch, invalid_contract, digest_mismatch, collection_limit_exceeded,
}
use idr.Protocol.Reference.{Reference, reference_eq}
use idr.Protocol.Id.{BasisPoints, kind_eq, intent, human_model_assertion}
use idr.Protocol.Digest.{Codec, contract_digest, check_digest}
use idr.Protocol.ContractRef
use idr.Protocol.ContractRef.{ContractRef, contract_ref_eq}
use idr.Protocol.Collections.{validate_required_text, canonical_references}
use idr.Protocol.Metadata
use idr.Protocol.Metadata.{Metadata}

pub data ResolutionMethod : Type 0 where
  deterministic_fast_path full_path : ResolutionMethod

unfoldable pub ResolutionMethod-discrete : Discrete ResolutionMethod
ResolutionMethod-discrete = hlevel

instance abbrev pub resolution_method_eq : Eq ResolutionMethod
resolution_method_eq = record { dec = ResolutionMethod-discrete }

pub record Hypothesis : Type 0 where
  pub hypothesis_ref : Reference
  pub intent_name : Text
  pub confidence : BasisPoints
  pub supporting_evidence_refs : List Reference
  pub contradicting_evidence_refs : List Reference

-- `IntentHypothesisV1::validate`
unfoldable pub validate_hypothesis : Hypothesis → Checked (Unit {0})
validate_hypothesis h = do
  validate_required_text h.intent_name
  deny
      (is_blank h.hypothesis_ref.text
        || any (contains h.contradicting_evidence_refs) h.supporting_evidence_refs)
      invalid_contract

-- `IntentHypothesisV1::new`: its arguments are the fields of `h`, whose evidence is not yet
-- canonical.
unfoldable pub new_hypothesis : Hypothesis → Checked Hypothesis
new_hypothesis h = do
  supporting ← canonical_references h.supporting_evidence_refs
  contradicting ← canonical_references h.contradicting_evidence_refs
  let value : Hypothesis = record h {
    supporting_evidence_refs = supporting;
    contradicting_evidence_refs = contradicting;
  }
  validate_hypothesis value
  ok value

pub record RankedHypothesis : Type 0 where
  pub hypothesis : Hypothesis
  pub rank : ℕ

-- `RankedIntentHypothesisV1::new`
unfoldable pub new_ranked : Hypothesis → ℕ → Checked RankedHypothesis
new_ranked h rank = do
  validate_hypothesis h
  deny (rank == 0) invalid_contract
  ok (record { hypothesis = h; rank = rank })

pub data EffectKind : Type 0 where
  reordered_base_hypothesis added_personalized_hypothesis : EffectKind
  exposed_model_expression_conflict : EffectKind

pub record IntentEffect : Type 0 where
  pub assertion_ref : ContractRef
  pub effect_kind : EffectKind
  pub affected_hypothesis_ref : Reference
  pub base_rank : Option ℕ
  pub personalized_rank : ℕ
  pub explanation_ref : Reference

-- `base_rank == Some(0)`
abbrev pub is_some_zero : Option ℕ → Bool
is_some_zero none = false
is_some_zero (some rank) = rank == 0

-- `HumanModelIntentEffectV1::new`: its arguments are the fields of `e`.
unfoldable pub new_effect : IntentEffect → Checked IntentEffect
new_effect e = do
  ContractRef.validate e.assertion_ref
  deny
      (e.assertion_ref.kind != human_model_assertion
        || e.personalized_rank == 0
        || is_some_zero e.base_rank)
      invalid_contract
  ok e

pub record IntentContract : Type 0 where
  pub metadata : Metadata
  pub user_stated_intent_ref : Reference
  pub base_hypotheses : List RankedHypothesis
  pub personalized_hypotheses : List RankedHypothesis
  pub primary_hypothesis_ref : Reference
  pub confidence : BasisPoints
  pub ambiguity : Bool
  pub clarification_required : Bool
  pub human_model_effects : List IntentEffect
  pub resolution_method : ResolutionMethod
  pub record_digest : Text

abbrev pub DigestInput : Type 0
DigestInput =
    Metadata
    × Reference
    × List RankedHypothesis
    × List RankedHypothesis
    × Reference
    × BasisPoints
    × Bool
    × Bool
    × List IntentEffect
    × ResolutionMethod

abbrev pub digest_input : IntentContract → DigestInput
digest_input i = (
  i.metadata, i.user_stated_intent_ref, i.base_hypotheses, i.personalized_hypotheses,
  i.primary_hypothesis_ref, i.confidence, i.ambiguity, i.clarification_required,
  i.human_model_effects, i.resolution_method,
)

-- The loop of `validate_ranked_hypotheses`: the set of the ranks, where each rank and each
-- reference is new.
unfoldable pub collect_ranks : List RankedHypothesis → List ℕ → List (Text × ℕ) → Checked (List ℕ)
collect_ranks [] ranks references = ok ranks
collect_ranks (v ∷ vs) ranks references = do
  validate_hypothesis v.hypothesis
  let key : Text = v.hypothesis.hypothesis_ref.text
  let (is_new, ranks') = add v.rank ranks
  deny (v.rank == 0 || not is_new || is_some (lookup key references)) invalid_contract
  collect_ranks vs ranks' (update key v.rank (λ _. v.rank) references)

-- `(start..start + n).map(|value| value as u16)`
unfoldable pub ranks_from : ℕ → ℕ → List ℕ
ranks_from start zero = []
ranks_from start (suc n) = (start % 2 ^ 16) ∷ ranks_from (start + 1) n

unfoldable pub validate_ranked_hypotheses : List RankedHypothesis → Checked (Unit {0})
validate_ranked_hypotheses values = do
  deny (ltb 256 (length values)) collection_limit_exceeded
  ranks ← collect_ranks values [] []
  deny (ranks != ranks_from 1 (length values)) invalid_contract

abbrev pub hypothesis_texts : List RankedHypothesis → List Text
hypothesis_texts values = map (λ (v : RankedHypothesis). v.hypothesis.hypothesis_ref.text) values

-- `base_refs` and `personalized_refs`, which are sets.
abbrev pub hypothesis_refs : List RankedHypothesis → List Text
hypothesis_refs values = sort_dedup (hypothesis_texts values)

unfoldable pub ListText-discrete : Discrete (List Text)
ListText-discrete = hlevel Text-discrete

instance abbrev pub list_text_eq : Eq (List Text)
list_text_eq = record { dec = ListText-discrete }

-- The test of `validate` on the sets of references and on the effects.
unfoldable pub miscomposed : IntentContract → Bool
miscomposed i =
    not (
      all (contains (hypothesis_refs i.personalized_hypotheses))
        (hypothesis_refs i.base_hypotheses))
    || not (contains (hypothesis_refs i.personalized_hypotheses) i.primary_hypothesis_ref.text)
    || i.resolution_method == deterministic_fast_path
      && (not (is_empty i.human_model_effects)
          || hypothesis_refs i.base_hypotheses != hypothesis_refs i.personalized_hypotheses)
    || any (λ (e : IntentEffect). not (contains i.metadata.dependency_refs e.assertion_ref))
        i.human_model_effects

-- `IntentContractV1::validate`
unfoldable pub validate : Codec → IntentContract → Checked (Unit {0})
validate codec i = do
  Metadata.validate i.metadata
  deny (i.metadata.contract_kind != intent) contract_kind_mismatch
  validate_ranked_hypotheses i.base_hypotheses
  validate_ranked_hypotheses i.personalized_hypotheses
  deny
      (is_blank i.user_stated_intent_ref.text
        || is_empty i.base_hypotheses
        || is_empty i.personalized_hypotheses)
      invalid_contract
  deny (miscomposed i) invalid_contract
  check_digest codec "intent-contract-v1" (digest_input i) i.record_digest digest_mismatch

-- `IntentContractV1::issue`: its arguments are the fields of `value`, whose digest is not read.
unfoldable pub issue : Codec → IntentContract → Checked IntentContract
issue codec value = do
  digest ← contract_digest codec "intent-contract-v1" (digest_input value)
  validate codec (record value { record_digest = digest })
  ok (record value { record_digest = digest })

-- `IntentContractV1::record_ref`
unfoldable pub record_ref : Codec → IntentContract → Checked ContractRef
record_ref codec i = do
  validate codec i
  ContractRef.new intent i.metadata.contract_id i.metadata.revision i.record_digest
