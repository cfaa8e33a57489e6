-- ===== src/Examples/Responses.antt =====
-- The theorems on rendered responses at concrete inputs.
use idr.Base.{ℕ, ◌≡◌, ◌↔◌, ◌++◌, refl, ok, [], ◌∷◌, Text, true}
use idr.Base
use idr.Protocol.Reference
use idr.Protocol.Id.{intent, response}
use idr.Protocol.Input.{sha256_prefix}
use idr.Protocol.Response
use idr.Protocol.Response.{ResponseContract, final, answer, minimal, plain}
use idr.Protocol.Response.Rendered
use idr.Protocol.Response.Rendered.{
  RenderedEnvelope, PolicyFacts, allow, validate_content, evaluate_rendered_response_admission,
}
use idr.Protocol.Response.Rendered.Admission.{
  Renders, Evaluated, evaluate_rendered_response_admission-allow_iff,
}
use idr.Examples.Samples.{zeros, name, ref, metadata, blank_codec}

abbrev reply : ResponseContract
reply = record {
  metadata = metadata response 5 (ref intent 12 ∷ []);
  source_contract_refs = ref intent 12 ∷ [];
  response_phase = final;
  response_type = answer;
  answer_structure = (b'a' ∷ []) ∷ [];
  evidence_refs = [];
  explanation_depth = minimal;
  terminology_level = plain;
  clarification_questions = [];
  uncertainty_disclosures = [];
  prohibited_content_refs = [];
  requires_post_render_policy_check = true;
  record_digest = zeros;
}

abbrev rendering : RenderedEnvelope
rendering = record {
  response_ref = ref response 5;
  content_digest = sha256_prefix ++ zeros;
  renderer_ref = name b'r';
  rendered_at = 30;
  schema_version = 1;
}

abbrev evaluation : PolicyFacts
evaluation = record {
  policy_evaluation_ref = name b'e';
  policy_revision_ref = name b'r';
  evaluated_response_ref = ref response 5;
  evaluated_content_digest = sha256_prefix ++ zeros;
  evaluated_at = 31;
  expires_at = 60;
  content_policy_allows = true;
  evidence_traceable = true;
  required_uncertainty_present = true;
  prohibited_content_absent = true;
  authority_scope_respected = true;
}

abbrev content : Text
content = b'h' ∷ b'i' ∷ []

sent_at_40 :
    (evaluate_rendered_response_admission blank_codec reply rendering content evaluation 40).outcome
    ≡ allow
unfolding evaluate_rendered_response_admission Rendered.validate_for Response.validate
    idr.Protocol.Metadata.validate idr.Protocol.Metadata.malformed Base.ℕ_discrete Base.is_blank
    Reference.validate Base.try_each Base.Text-discrete Base.len Base.has_control
    idr.Protocol.Metadata.check_lineage idr.Protocol.Metadata.check_dependency
    idr.Protocol.ContractRef.validate idr.Protocol.Digest.valid_digest
    idr.Protocol.Id.Identifier-discrete Base.all Base.any Base.contains Base.trim
    idr.Protocol.Collections.validate_required_text
    idr.Protocol.Collections.validate_text_collection idr.Protocol.ContractRef.ContractRef-discrete
    idr.Protocol.ContractRef.new idr.Protocol.Digest.check_digest
    idr.Protocol.Digest.contract_digest idr.Protocol.Id.ContractKind-discrete
    idr.Protocol.Input.strip_prefix idr.Protocol.Metadata.continues Reference.Reference-discrete
    Reference.new Reference.refused Rendered.evaluated_amiss Rendered.reasons Rendered.sent_amiss
    Rendered.unrenderable validate_content Response.ResponsePhase-discrete
    Response.ResponseType-discrete Response.check_source Response.record_ref
sent_at_40 = refl

content_valid : validate_content blank_codec rendering content ≡ ok tt
unfolding validate_content Base.is_blank Base.ℕ_discrete Base.len
    idr.Protocol.Digest.contract_digest Base.Text-discrete
content_valid = refl

evaluate_rendered_response_admission-allow_iff_example :
    Renders blank_codec reply rendering content × Evaluated reply rendering evaluation 40
evaluate_rendered_response_admission-allow_iff_example =
    (evaluate_rendered_response_admission-allow_iff blank_codec reply rendering content evaluation
        40).0
      sent_at_40
