-- ===== src/Protocol/Proof.antt =====
-- crates/idr-protocol/src/human_centered/trust.rs: proof claims, envelopes and what is signed.
pub mod Signing
pub mod Injective
use idr.Base.{
  ℕ, ◌+◌, Bool, true, false, ◌||◌, ◌&&◌, not, ◌==◌, ◌!=◌, nat_eq, ltb, leb, List, [], ◌∷◌, ◌++◌,
  any, Option, none, some, is_none, ok, err, deny, ◌>>◌, ◌>>=◌, Text, len, is_blank, String,
  if◌then◌else◌, Eq,
}
use idr.Base.Bytes.{as_bytes, to_be_bytes}
use idr.Protocol.Error.{Checked, invalid_contract, invalid_text, proof_verification_failed}
use idr.Protocol.Reference.{Reference, Reference-discrete}
use idr.Protocol.Id.{Uuid, ProofId, is_empty_id}
use idr.Protocol.Digest.{valid_digest}
use idr.Protocol.ContractRef.{max_safe_wire_integer}
use idr.Protocol.Metadata.{schema_version_v1}
use idr.Protocol.Hex.{decode_hex}

pub data ProofKind : Type 0 where
  input_admission context_snapshot intent_fast_path_facts decision_necessity_facts : ProofKind
  turn_coordination_facts authority_grant policy_evaluation capability : ProofKind
  human_confirmation dependency_snapshot outcome_observation execution_permit : ProofKind
  provider_execution_receipt : ProofKind

unfoldable pub ProofKind-discrete : Discrete ProofKind
ProofKind-discrete = hlevel

instance abbrev pub proof_kind_eq : Eq ProofKind
proof_kind_eq = record { dec = ProofKind-discrete }

abbrev pub tag : ProofKind → ℕ
tag input_admission = 1
tag context_snapshot = 2
tag intent_fast_path_facts = 3
tag decision_necessity_facts = 4
tag turn_coordination_facts = 5
tag authority_grant = 6
tag policy_evaluation = 7
tag capability = 8
tag human_confirmation = 9
tag dependency_snapshot = 10
tag outcome_observation = 11
tag execution_permit = 12
tag provider_execution_receipt = 13

pub record ProofClaims : Type 0 where
  pub proof_id : ProofId
  pub proof_kind : ProofKind
  pub issuer_ref : Reference
  pub subject_ref : Reference
  pub subject_digest : Text
  pub tenant_ref : Reference
  pub scope_ref : Reference
  pub purpose_ref : Reference
  pub policy_revision_ref : Reference
  pub issued_at : ℕ
  pub expires_at : ℕ
  pub nonce : Text
  pub schema_version : ℕ

abbrev pub is_blank_ref : Reference → Bool
is_blank_ref r = is_blank r.text

abbrev pub references : ProofClaims → List Reference
references c =
    c.issuer_ref ∷ c.subject_ref ∷ c.tenant_ref ∷ c.scope_ref ∷ c.purpose_ref
    ∷ c.policy_revision_ref ∷ []

-- `ProofClaimsV1::validate`
unfoldable pub validate : ProofClaims → Checked (Unit {0})
validate c =
    deny
      (is_empty_id c.proof_id
        || any is_blank_ref (references c)
        || not (valid_digest c.subject_digest)
        || c.issued_at == 0
        || leb c.expires_at c.issued_at
        || ltb max_safe_wire_integer c.expires_at
        || len c.nonce != 64
        || not (valid_digest c.nonce)
        || c.schema_version != schema_version_v1)
      invalid_contract

-- `ProofClaimsV1::new`: its arguments are the other fields; `minted` is what `mint` returns.
unfoldable pub new : ProofId → ProofClaims → Checked ProofClaims
unfolding validate
new minted d =
    let value : ProofClaims = record d { proof_id = minted; schema_version = schema_version_v1 } in
    validate value >> ok value

-- `append_text`: the length in four bytes, and the bytes; what it appends to stands before.
unfoldable pub append_text : List ℕ → Text → Checked (List ℕ)
append_text bytes value =
    if ltb 4294967295 (len value)
    then err invalid_text
    else ok (bytes ++ (to_be_bytes 4 (len value) ++ as_bytes value))

-- `PROOF_SIGNATURE_DOMAIN`: "idr-proof-v1" and a zero byte.
abbrev pub signature_domain : List ℕ
signature_domain =
    b'i' ∷ b'd' ∷ b'r' ∷ b'-' ∷ b'p' ∷ b'r' ∷ b'o' ∷ b'o' ∷ b'f' ∷ b'-' ∷ b'v' ∷ b'1' ∷ 0 ∷ []

-- `canonical_signing_bytes`; `hyphenated` prints a UUID, as the uuid crate does.
unfoldable pub canonical_signing_bytes : (Uuid → List ℕ) → ProofClaims → Checked (List ℕ)
canonical_signing_bytes hyphenated c = do
  validate c
  let b0 = signature_domain ++ (hyphenated c.proof_id.uuid ++ tag c.proof_kind ∷ [])
  b1 ← append_text b0 c.issuer_ref.text
  b2 ← append_text b1 c.subject_ref.text
  b3 ← append_text b2 c.subject_digest
  b4 ← append_text b3 c.tenant_ref.text
  b5 ← append_text b4 c.scope_ref.text
  b6 ← append_text b5 c.purpose_ref.text
  b7 ← append_text b6 c.policy_revision_ref.text
  let b8 = b7 ++ (to_be_bytes 8 c.issued_at ++ to_be_bytes 8 c.expires_at)
  b9 ← append_text b8 c.nonce
  ok (b9 ++ to_be_bytes 2 c.schema_version)

pub record SignedProofEnvelope : Type 0 where
  pub claims : ProofClaims
  pub key_id : Reference
  pub signature : Text

unfoldable pub validate_shape : SignedProofEnvelope → Checked (Unit {0})
validate_shape e = do
  validate e.claims
  deny
      (is_blank e.key_id.text
        || len e.signature != 128
        || is_none (decode_hex 64 (as_bytes e.signature)))
      proof_verification_failed

-- `SignedProofEnvelopeV1::new`
unfoldable pub new_envelope : ProofClaims → Reference → Text → Checked SignedProofEnvelope
unfolding validate_shape
new_envelope claims key_id signature =
    let value : SignedProofEnvelope = record {
      claims = claims;
      key_id = key_id;
      signature = signature;
    } in
    validate_shape value >> ok value
