-- ===== src/Protocol/Proof/Signing.antt =====
-- The signed bytes of claims determine the claims.
use mathlib.Core.List.{append_assoc}
use idr.Base.{ℕ, ◌^◌, ◌<◌, ◌≡◌, sym, ◌∙◌, List, [], ◌∷◌, ◌++◌, ok, arith, Text, len}
use idr.Base.Bytes.{
  as_bytes, to_be_bytes, IsText, as_bytes-injective, length-as_bytes, length-to_be_bytes,
  to_be_bytes-injective, append-split,
}
use idr.Protocol.Id.{Uuid}
use idr.Protocol.Proof.{
  ProofClaims, tag, validate, append_text, canonical_signing_bytes, signature_domain,
}

-- A text with its length in front.
abbrev pub field : Text → List ℕ
field s = to_be_bytes 4 (len s) ++ as_bytes s

append_text-ok :
    (bytes : List ℕ) (s : Text) (out : List ℕ)
    → append_text bytes s ≡ ok out
    → (len s < 4294967296) × (out ≡ bytes ++ field s)
unfolding append_text
append_text-ok bytes s out h = ground arith

pub field-split :
    (s t : Text) (xs ys : List ℕ)
    → len s < 4294967296
    → len t < 4294967296
    → IsText s
    → IsText t
    → field s ++ xs ≡ field t ++ ys
    → (s ≡ t) × (xs ≡ ys)
field-split s t xs ys h k i j e =
    let (counts, e') =
      append-split (to_be_bytes 4 (len s)) (to_be_bytes 4 (len t)) (as_bytes s ++ xs)
        (as_bytes t ++ ys) (length-to_be_bytes 4 (len s) ∙ sym (length-to_be_bytes 4 (len t)))
        (sym (append_assoc (to_be_bytes 4 (len s)) (as_bytes s) xs)
          ∙ e
          ∙ append_assoc (to_be_bytes 4 (len t)) (as_bytes t) ys) in
    let same : len s ≡ len t = to_be_bytes-injective 4 (len s) (len t) h k counts in
    let (bytes, rest) =
      append-split (as_bytes s) (as_bytes t) xs ys
        (length-as_bytes s ∙ same ∙ sym (length-as_bytes t)) e' in
    (as_bytes-injective s t i j bytes, rest)

-- The parts of the message behind its first texts, read from the front.
abbrev pub times : ProofClaims → List ℕ
times c =
    to_be_bytes 8 c.issued_at
    ++ (to_be_bytes 8 c.expires_at ++ (field c.nonce ++ to_be_bytes 2 c.schema_version))

abbrev pub scopes : ProofClaims → List ℕ
scopes c =
    field c.tenant_ref.text
    ++ (field c.scope_ref.text
        ++ (field c.purpose_ref.text ++ (field c.policy_revision_ref.text ++ times c)))

abbrev pub subjects : ProofClaims → List ℕ
subjects c =
    field c.issuer_ref.text ++ (field c.subject_ref.text ++ (field c.subject_digest ++ scopes c))

-- The whole message.
abbrev pub layout : (Uuid → List ℕ) → ProofClaims → List ℕ
layout hyphenated c =
    signature_domain ++ (hyphenated c.proof_id.uuid ++ (tag c.proof_kind ∷ subjects c))

-- The message as it is built, from the left.
abbrev pub built : (Uuid → List ℕ) → ProofClaims → List ℕ
built hyphenated c =
    (signature_domain ++ (hyphenated c.proof_id.uuid ++ tag c.proof_kind ∷ []))
    ++ field c.issuer_ref.text
    ++ field c.subject_ref.text
    ++ field c.subject_digest
    ++ field c.tenant_ref.text
    ++ field c.scope_ref.text
    ++ field c.purpose_ref.text
    ++ field c.policy_revision_ref.text
    ++ (to_be_bytes 8 c.issued_at ++ to_be_bytes 8 c.expires_at)
    ++ field c.nonce
    ++ to_be_bytes 2 c.schema_version

pub record Fits (c : ProofClaims) : Type 0 where
  pub issuer : len c.issuer_ref.text < 4294967296
  pub subject : len c.subject_ref.text < 4294967296
  pub digest : len c.subject_digest < 4294967296
  pub tenant : len c.tenant_ref.text < 4294967296
  pub scope : len c.scope_ref.text < 4294967296
  pub purpose : len c.purpose_ref.text < 4294967296
  pub policy : len c.policy_revision_ref.text < 4294967296
  pub nonce : len c.nonce < 4294967296

pub bytes-Fits :
    (hyphenated : Uuid → List ℕ) (c : ProofClaims) (b : List ℕ)
    → canonical_signing_bytes hyphenated c ≡ ok b
    → Fits c
unfolding canonical_signing_bytes append_text
bytes-Fits hyphenated c b h = ground arith

pub bytes-built :
    (hyphenated : Uuid → List ℕ) (c : ProofClaims) (b : List ℕ)
    → canonical_signing_bytes hyphenated c ≡ ok b
    → (b ≡ built hyphenated c) × (validate c ≡ ok tt)
unfolding canonical_signing_bytes append_text
bytes-built hyphenated c b h = ground arith

pub built-layout :
    (hyphenated : Uuid → List ℕ) (c : ProofClaims) → built hyphenated c ≡ layout hyphenated c
built-layout hyphenated c = simp append_assoc

pub record InRange (c : ProofClaims) : Type 0 where
  pub issued : c.issued_at < 256 ^ 8
  pub expires : c.expires_at < 256 ^ 8
  pub schema : c.schema_version < 256 ^ 2

pub validate-InRange : (c : ProofClaims) → validate c ≡ ok tt → InRange c
unfolding validate
validate-InRange c h = ground arith
