-- ===== src/Protocol/Response/Rendered/Admission.antt =====
-- Which rendered responses may be sent.
use idr.Base.{
  ℕ, ◌≤◌, ◌<◌, ◌≡◌, ◌↔◌, true, false, [], ◌++◌, ok, some, arith, Text, is_blank, len, Result-cases,
  inl, inr, sym, ap, ◌∙◌,
}
use idr.Protocol.Digest.{Codec, contract_digest, valid_digest}
use idr.Protocol.Input.{strip_prefix, sha256_prefix}
use idr.Protocol.Response
use idr.Protocol.Response.{ResponseContract, record_ref}
use idr.Protocol.Response.Rendered.{
  RenderedEnvelope, PolicyFacts, allow, validate_for, validate_content, unrenderable,
  evaluated_amiss, sent_amiss, reasons, evaluate_rendered_response_admission,
}

-- The rendering is of this response, by the response's own reference, and of this content, by the
-- digest of the content, and it was made while the response was valid.
pub record Renders (codec : Codec) (r : ResponseContract) (e : RenderedEnvelope) (content : Text)
    : Type 0 where
  pub valid_response : Response.validate codec r ≡ ok tt
  pub of_response : record_ref codec r ≡ ok e.response_ref
  pub digest : Text
  pub is_digest : contract_digest codec "rendered-response-content-v1" content ≡ ok digest
  pub is_well_formed : valid_digest digest ≡ true
  pub of_content : e.content_digest ≡ sha256_prefix ++ digest
  pub has_content : is_blank content ≡ false
  pub in_bounds : len content ≤ 1048576
  pub has_renderer : is_blank e.renderer_ref.text ≡ false
  pub in_time : (0 < e.rendered_at) × (e.rendered_at < r.metadata.valid_until)
  pub version : e.schema_version ≡ 1

-- The policy's evaluation is of this rendering, under the response's policy, in time and favourable.
pub record Evaluated (r : ResponseContract) (e : RenderedEnvelope) (f : PolicyFacts) (t : ℕ)
    : Type 0 where
  pub identified : is_blank f.policy_evaluation_ref.text ≡ false
  pub same_policy : f.policy_revision_ref ≡ r.metadata.policy_revision_ref
  pub of_response : f.evaluated_response_ref ≡ e.response_ref
  pub of_content : f.evaluated_content_digest ≡ e.content_digest
  pub after_rendering : (e.rendered_at ≤ f.evaluated_at) × (0 < f.evaluated_at)
  pub before_sending : f.evaluated_at ≤ t
  pub unexpired : t < f.expires_at
  pub within_response : f.expires_at ≤ r.metadata.valid_until
  pub content_policy_allows : f.content_policy_allows ≡ true
  pub evidence_traceable : f.evidence_traceable ≡ true
  pub required_uncertainty_present : f.required_uncertainty_present ≡ true
  pub prohibited_content_absent : f.prohibited_content_absent ≡ true
  pub authority_scope_respected : f.authority_scope_respected ≡ true

reasons-nil :
    (codec : Codec) (r : ResponseContract) (e : RenderedEnvelope) (content : Text) (f : PolicyFacts)
    (t : ℕ)
    → reasons codec r e content f t ≡ []
    → (validate_for codec e r ≡ ok tt)
      × (validate_content codec e content ≡ ok tt)
      × Evaluated r e f t
unfolding reasons evaluated_amiss sent_amiss
reasons-nil codec r e content f t h = (ground arith, ground arith, ground arith)

reasons_of_Evaluated :
    (codec : Codec) (r : ResponseContract) (e : RenderedEnvelope) (content : Text) (f : PolicyFacts)
    (t : ℕ)
    → validate_for codec e r ≡ ok tt
    → validate_content codec e content ≡ ok tt
    → Evaluated r e f t
    → reasons codec r e content f t ≡ []
unfolding reasons evaluated_amiss sent_amiss
reasons_of_Evaluated codec r e content f t h k w = ground arith

prefix-injective : (s t : Text) → sha256_prefix ++ s ≡ sha256_prefix ++ t → s ≡ t
prefix-injective s t h = ground arith

content-digest :
    (codec : Codec) (e : RenderedEnvelope) (content : Text)
    → validate_content codec e content ≡ ok tt
    → (d : Text) × (contract_digest codec "rendered-response-content-v1" content ≡ ok d)
      × (e.content_digest ≡ sha256_prefix ++ d)
unfolding validate_content
content-digest codec e content h =
    elim (Result-cases (contract_digest codec "rendered-response-content-v1" content)) [
      | inl (d, ed) ↦ (d, ed, ground arith)
      | inr (x, ex) ↦ absurd (ground arith)
    ]

strip_prefix-append : (d : Text) → strip_prefix sha256_prefix (sha256_prefix ++ d) ≡ some d
unfolding strip_prefix
strip_prefix-append d = ground arith

renderable-digest :
    (e : RenderedEnvelope) (r : ResponseContract) (d : Text)
    → e.content_digest ≡ sha256_prefix ++ d
    → unrenderable e r ≡ false
    → valid_digest d ≡ true
unfolding unrenderable
renderable-digest e r d s h = ground (arith, strip_prefix-append d)

validate_for-parts :
    (codec : Codec) (r : ResponseContract) (e : RenderedEnvelope)
    → validate_for codec e r ≡ ok tt
    → (Response.validate codec r ≡ ok tt)
      × (record_ref codec r ≡ ok e.response_ref)
      × (unrenderable e r ≡ false)
unfolding validate_for
validate_for-parts codec r e h = elim (Result-cases (record_ref codec r)) [
  | inr (x, k) ↦ absurd (ground arith)
  | inl (reference, k) ↦ (ground arith, ground arith, ground arith)
]

content-Renders :
    (codec : Codec) (r : ResponseContract) (e : RenderedEnvelope) (content : Text)
    → validate_for codec e r ≡ ok tt
    → validate_content codec e content ≡ ok tt
    → Renders codec r e content
unfolding validate_content unrenderable
content-Renders codec r e content h k =
    let (valid, named, fit) = validate_for-parts codec r e h in
    let (d, is_d, same) = content-digest codec e content k in
    record {
      valid_response = valid;
      of_response = named;
      digest = d;
      is_digest = is_d;
      is_well_formed = renderable-digest e r d same fit;
      of_content = same;
      has_content = ground arith;
      in_bounds = ground arith;
      has_renderer = ground arith;
      in_time = (ground arith, ground arith);
      version = ground arith;
    }

validate_for_of_Renders :
    (codec : Codec) (r : ResponseContract) (e : RenderedEnvelope) (content : Text)
    → Renders codec r e content
    → validate_for codec e r ≡ ok tt
unfolding validate_for unrenderable
validate_for_of_Renders codec r e content w = ground (
  arith,
  w.valid_response,
  w.of_response,
  w.of_content,
  w.is_well_formed,
  w.has_renderer,
  w.in_time,
  w.version,
  strip_prefix-append w.digest,
)

validate_content_of_Renders :
    (codec : Codec) (r : ResponseContract) (e : RenderedEnvelope) (content : Text)
    → Renders codec r e content
    → validate_content codec e content ≡ ok tt
unfolding validate_content
validate_content_of_Renders codec r e content w =
    ground (arith, w.is_digest, w.of_content, w.has_content, w.in_bounds)

-- A rendered response may be sent exactly when the response is valid; the rendering carries the
-- reference of this very response and the well-formed digest of this very content, which is not
-- blank and has at most 1,048,576 bytes, names its renderer, is of schema version 1 and was made
-- before the response expired; and a policy evaluation with a reference of its own, of this very
-- rendering, under the response's policy and not earlier than the rendering, is made by the time of
-- sending, not expired then, expires no later than the response, and is favourable in all five facts.
pub evaluate_rendered_response_admission-allow_iff :
    (codec : Codec) (r : ResponseContract) (e : RenderedEnvelope) (content : Text) (f : PolicyFacts)
    (t : ℕ)
    → ((evaluate_rendered_response_admission codec r e content f t).outcome ≡ allow)
      ↔ (Renders codec r e content × Evaluated r e f t)
unfolding evaluate_rendered_response_admission
evaluate_rendered_response_admission-allow_iff codec r e content f t = (
  (λ h.
      let (bound, same, evaluated) = reasons-nil codec r e content f t (ground arith) in
      (content-Renders codec r e content bound same, evaluated)),
  λ (w, evaluated). ground (
    arith,
    reasons_of_Evaluated codec r e content f t (validate_for_of_Renders codec r e content w)
        (validate_content_of_Renders codec r e content w) evaluated,
  ),
)

-- One rendering, one content: two contents that pass for the same rendering are the same, where the
-- digest does not collide on them.
pub validate_content_unique :
    (codec : Codec) (e : RenderedEnvelope) (s t : Text)
    → validate_content codec e s ≡ ok tt
    → validate_content codec e t ≡ ok tt
    → (contract_digest codec "rendered-response-content-v1" s
          ≡ contract_digest codec "rendered-response-content-v1" t
        → s ≡ t)
    → s ≡ t
validate_content_unique codec e s t h k distinct =
    let (d, ed, es) = content-digest codec e s h in
    let (d', ed', et) = content-digest codec e t k in
    distinct (ed ∙ ap ok (prefix-injective d d' (sym es ∙ et)) ∙ sym ed')
