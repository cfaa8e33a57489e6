-- ===== src/Protocol/Response/Rendered.antt =====
-- crates/idr-protocol/src/human_centered/response.rs: rendered responses and their admission.
pub mod Admission
use idr.Base.{
  is_some_and, ℕ, Bool, true, false, ◌||◌, ◌==◌, ◌!=◌, not, nat_eq, text_eq, ltb, leb, List, [],
  ◌∷◌, ◌++◌, is_empty, String, ok, err, deny, ◌>>◌, ◌>>=◌, is_err, Text, len, is_blank,
  if◌then◌else◌,
}
use idr.Protocol.Error.{Checked, invalid_contract, invalid_text, digest_mismatch}
use idr.Protocol.Reference.{Reference, reference_eq}
use idr.Protocol.Digest.{Codec, contract_digest, valid_digest}
use idr.Protocol.ContractRef.{ContractRef, contract_ref_eq}
use idr.Protocol.Metadata.{schema_version_v1}
use idr.Protocol.Guards.{rule_version_v1, push_if}
use idr.Protocol.Input.{strip_prefix, sha256_prefix}
use idr.Protocol.Response
use idr.Protocol.Response.{ResponseContract, record_ref}

pub record RenderedEnvelope : Type 0 where
  pub response_ref : ContractRef
  pub content_digest : Text
  pub renderer_ref : Reference
  pub rendered_at : ℕ
  pub schema_version : ℕ

-- The disjuncts of `validate_for` behind its `?`.
unfoldable pub unrenderable : RenderedEnvelope → ResponseContract → Bool
unrenderable e r =
    not (is_some_and (strip_prefix sha256_prefix e.content_digest) valid_digest)
    || is_blank e.renderer_ref.text
    || e.rendered_at == 0
    || leb r.metadata.valid_until e.rendered_at
    || e.schema_version != schema_version_v1

-- `RenderedResponseEnvelopeV1::validate_for`
unfoldable pub validate_for : Codec → RenderedEnvelope → ResponseContract → Checked (Unit {0})
validate_for codec e r = do
  Response.validate codec r
  response_ref ← record_ref codec r
  deny (e.response_ref != response_ref || unrenderable e r) invalid_contract

-- The first two disjuncts of `validate_content`, and the test of `new`.
abbrev pub unfit : Text → Bool
unfit content = is_blank content || ltb 1048576 (len content)

-- `RenderedResponseEnvelopeV1::validate_content`
unfoldable pub validate_content : Codec → RenderedEnvelope → Text → Checked (Unit {0})
validate_content codec e content = do
  deny (unfit content) digest_mismatch
  digest ← contract_digest codec "rendered-response-content-v1" content
  deny (e.content_digest != sha256_prefix ++ digest) digest_mismatch

-- `RenderedResponseEnvelopeV1::new`
unfoldable pub new : Codec → ResponseContract → Text → Reference → ℕ → Checked RenderedEnvelope
new codec r content renderer_ref rendered_at = do
  deny (unfit content) invalid_text
  response_ref ← record_ref codec r
  digest ← contract_digest codec "rendered-response-content-v1" content
  let value : RenderedEnvelope = record {
    response_ref = response_ref;
    content_digest = sha256_prefix ++ digest;
    renderer_ref = renderer_ref;
    rendered_at = rendered_at;
    schema_version = schema_version_v1;
  }
  validate_for codec value r
  ok value

pub record PolicyFacts : Type 0 where
  pub policy_evaluation_ref : Reference
  pub policy_revision_ref : Reference
  pub evaluated_response_ref : ContractRef
  pub evaluated_content_digest : Text
  pub evaluated_at : ℕ
  pub expires_at : ℕ
  pub content_policy_allows : Bool
  pub evidence_traceable : Bool
  pub required_uncertainty_present : Bool
  pub prohibited_content_absent : Bool
  pub authority_scope_respected : Bool

pub data ResponseOutcome : Type 0 where
  allow block : ResponseOutcome

pub record ResponseDecision : Type 0 where
  pub outcome : ResponseOutcome
  pub reason_codes : List String
  pub policy_evaluation_ref : Reference
  pub rule_version : ℕ

-- The tests on the times of the evaluation and of the sending.
unfoldable pub evaluated_amiss : PolicyFacts → RenderedEnvelope → ResponseContract → Bool
evaluated_amiss f e r =
    ltb f.evaluated_at e.rendered_at
    || leb f.expires_at f.evaluated_at
    || f.evaluated_at == 0
    || ltb r.metadata.valid_until f.expires_at

unfoldable pub sent_amiss : PolicyFacts → ResponseContract → ℕ → Bool
sent_amiss f r valid_at =
    ltb valid_at f.evaluated_at || leb f.expires_at valid_at || leb r.metadata.valid_until valid_at

-- The reasons of the five facts, in their order.
abbrev pub fact_reasons : PolicyFacts → List String
fact_reasons f = push_if (not f.content_policy_allows) "content_policy_denied" (
    push_if (not f.evidence_traceable) "evidence_not_traceable" (
      push_if (not f.required_uncertainty_present) "required_uncertainty_missing" (
        push_if (not f.prohibited_content_absent) "prohibited_content_present"
          (push_if (not f.authority_scope_respected) "authority_scope_not_respected" []))))

unfoldable pub reasons :
    Codec → ResponseContract → RenderedEnvelope → Text → PolicyFacts → ℕ → List String
reasons codec r e content f valid_at =
    push_if (is_err (validate_for codec e r) || is_err (validate_content codec e content))
      "rendered_response_not_bound_to_contract"
      (push_if (is_blank f.policy_evaluation_ref.text) "policy_evaluation_reference_missing" (
        push_if (f.policy_revision_ref != r.metadata.policy_revision_ref) "policy_revision_mismatch"
          (push_if
            (f.evaluated_response_ref != e.response_ref
              || f.evaluated_content_digest != e.content_digest)
            "policy_evaluation_binding_mismatch"
            (push_if (evaluated_amiss f e r) "policy_evaluation_time_invalid"
              (push_if (sent_amiss f r valid_at) "response_send_time_invalid" (fact_reasons f))))))

unfoldable pub evaluate_rendered_response_admission :
    Codec → ResponseContract → RenderedEnvelope → Text → PolicyFacts → ℕ → ResponseDecision
unfolding reasons
evaluate_rendered_response_admission codec r e content f valid_at = record {
  outcome = if is_empty (reasons codec r e content f valid_at) then allow else block;
  reason_codes = reasons codec r e content f valid_at;
  policy_evaluation_ref = f.policy_evaluation_ref;
  rule_version = rule_version_v1;
}
