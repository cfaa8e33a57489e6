-- ===== src/Protocol/Proof/Injective.antt =====
-- The signed bytes of claims determine the claims: no two claims share a signature's message.
use idr.Base.{ℕ, ◌≡◌, ◌<◌, ◌^◌, refl, sym, ◌∙◌, List, ◌++◌, length, ok, arith}
use idr.Base.Bytes.{IsText, to_be_bytes, length-to_be_bytes, to_be_bytes-injective, append-split}
use idr.Protocol.Id.{Uuid}
use idr.Protocol.Proof.{ProofKind, ProofClaims, tag, canonical_signing_bytes, signature_domain}
use idr.Protocol.Proof.Signing.{
  field-split, times, scopes, subjects, layout, Fits, InRange, bytes-Fits, bytes-built,
  built-layout, validate-InRange,
}

-- The texts of claims are texts of Unicode scalar values, as every `String` is.
pub record HasTexts (c : ProofClaims) : Type 0 where
  pub issuer : IsText c.issuer_ref.text
  pub subject : IsText c.subject_ref.text
  pub digest : IsText c.subject_digest
  pub tenant : IsText c.tenant_ref.text
  pub scope : IsText c.scope_ref.text
  pub purpose : IsText c.purpose_ref.text
  pub policy : IsText c.policy_revision_ref.text
  pub nonce : IsText c.nonce

-- What the uuid crate documents of the hyphenated form: 36 characters, another for each UUID.
pub record PrintsUuids (hyphenated : Uuid → List ℕ) : Type 0 where
  pub length_36 : (u : Uuid) → length (hyphenated u) ≡ 36
  pub injective : (u v : Uuid) → hyphenated u ≡ hyphenated v → u ≡ v

tag-injective : (a b : ProofKind) → tag a ≡ tag b → a ≡ b
tag-injective a b h = ground arith

number-split :
    (k m n : ℕ) (xs ys : List ℕ)
    → m < 256 ^ k
    → n < 256 ^ k
    → to_be_bytes k m ++ xs ≡ to_be_bytes k n ++ ys
    → (m ≡ n) × (xs ≡ ys)
number-split k m n xs ys h i e =
    let (same, rest) =
      append-split (to_be_bytes k m) (to_be_bytes k n) xs ys
        (length-to_be_bytes k m ∙ sym (length-to_be_bytes k n)) e in
    (to_be_bytes-injective k m n h i same, rest)

module _ (c d : ProofClaims) (f : Fits c) (g : Fits d) (t : HasTexts c) (u : HasTexts d) where
  times-split :
      InRange c
      → InRange d
      → times c ≡ times d
      → (c.issued_at ≡ d.issued_at)
        × (c.expires_at ≡ d.expires_at)
        × (c.nonce ≡ d.nonce)
        × (c.schema_version ≡ d.schema_version)
  times-split r q e =
      let (issued, e1) = number-split 8 c.issued_at d.issued_at _ _ r.issued q.issued e in
      let (expires, e2) = number-split 8 c.expires_at d.expires_at _ _ r.expires q.expires e1 in
      let (nonce, e3) = field-split c.nonce d.nonce _ _ f.nonce g.nonce t.nonce u.nonce e2 in
      (
        issued,
        expires,
        nonce,
        to_be_bytes-injective 2 c.schema_version d.schema_version r.schema q.schema e3,
      )

  scopes-split :
      scopes c ≡ scopes d
      → (c.tenant_ref.text ≡ d.tenant_ref.text)
        × (c.scope_ref.text ≡ d.scope_ref.text)
        × (c.purpose_ref.text ≡ d.purpose_ref.text)
        × (c.policy_revision_ref.text ≡ d.policy_revision_ref.text)
        × (times c ≡ times d)
  scopes-split e =
      let (tenant, e1) =
        field-split c.tenant_ref.text d.tenant_ref.text _ _ f.tenant g.tenant t.tenant u.tenant e in
      let (scope, e2) =
        field-split c.scope_ref.text d.scope_ref.text _ _ f.scope g.scope t.scope u.scope e1 in
      let (purpose, e3) =
        field-split c.purpose_ref.text d.purpose_ref.text _ _ f.purpose g.purpose t.purpose
          u.purpose e2 in
      let (policy, e4) =
        field-split c.policy_revision_ref.text d.policy_revision_ref.text _ _ f.policy g.policy
          t.policy u.policy e3 in
      (tenant, scope, purpose, policy, e4)

  subjects-split :
      subjects c ≡ subjects d
      → (c.issuer_ref.text ≡ d.issuer_ref.text)
        × (c.subject_ref.text ≡ d.subject_ref.text)
        × (c.subject_digest ≡ d.subject_digest)
        × (scopes c ≡ scopes d)
  subjects-split e =
      let (issuer, e1) =
        field-split c.issuer_ref.text d.issuer_ref.text _ _ f.issuer g.issuer t.issuer u.issuer e in
      let (subject, e2) =
        field-split c.subject_ref.text d.subject_ref.text _ _ f.subject g.subject t.subject
          u.subject e1 in
      let (digest, e3) =
        field-split c.subject_digest d.subject_digest _ _ f.digest g.digest t.digest u.digest e2 in
      (issuer, subject, digest, e3)

  layout-injective :
      (hyphenated : Uuid → List ℕ)
      → PrintsUuids hyphenated
      → InRange c
      → InRange d
      → layout hyphenated c ≡ layout hyphenated d
      → c ≡ d
  layout-injective hyphenated p r q e =
      let (_, e1) = append-split signature_domain signature_domain _ _ refl e in
      let (ids, e2) =
        append-split (hyphenated c.proof_id.uuid) (hyphenated d.proof_id.uuid) _ _
          (p.length_36 _ ∙ sym (p.length_36 _)) e1 in
      let id : c.proof_id.uuid ≡ d.proof_id.uuid = p.injective _ _ ids in
      let kind : c.proof_kind ≡ d.proof_kind =
        tag-injective c.proof_kind d.proof_kind (ground (arith, e2)) in
      let (issuer, subject, digest, e3) = subjects-split (ground (arith, e2)) in
      let (tenant, scope, purpose, policy, e4) = scopes-split e3 in
      let (issued, expires, nonce, schema) = times-split r q e4 in
      ground (
        arith, id, kind, issuer, subject, digest, tenant, scope, purpose, policy, issued, expires,
        nonce, schema,
      )

-- Two claims with the same signed bytes are the same claims, field by field: the encoding is
-- unambiguous, whatever their texts of Unicode scalar values hold, where UUIDs are printed in 36
-- characters, each in its own way.
pub canonical_signing_bytes-injective :
    (hyphenated : Uuid → List ℕ) (c d : ProofClaims) (bytes : List ℕ)
    → PrintsUuids hyphenated
    → HasTexts c
    → HasTexts d
    → canonical_signing_bytes hyphenated c ≡ ok bytes
    → canonical_signing_bytes hyphenated d ≡ ok bytes
    → c ≡ d
canonical_signing_bytes-injective hyphenated c d bytes p t u h k =
    let (is_c, valid_c) = bytes-built hyphenated c bytes h in
    let (is_d, valid_d) = bytes-built hyphenated d bytes k in
    layout-injective c d (bytes-Fits hyphenated c bytes h) (bytes-Fits hyphenated d bytes k) t u
      hyphenated p (validate-InRange c valid_c) (validate-InRange d valid_d)
      (sym (built-layout hyphenated c) ∙ sym is_c ∙ is_d ∙ built-layout hyphenated d)
