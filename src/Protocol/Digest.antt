-- ===== src/Protocol/Digest.antt =====
-- crates/idr-protocol/src/human_centered/common.rs: `contract_digest` and `valid_digest`.
-- serde_json and sha2 are parameters.
use idr.Base.{
  ℕ, ◌≡◌, Bool, true, ◌&&◌, ◌||◌, ◌==◌, ◌!=◌, text_eq, nat_eq, arith, deny, ◌↔◌, Result-cases, inl,
  inr, leb, List, Option, ok, ok_or, ◌>>=◌, Text, String, len, all,
}
use idr.Protocol.Error.{ProtocolError, Checked, serialization}

-- `serde_json::to_vec` of a value, and the lower-case hexadecimal SHA-256 of bytes.
pub record Codec : Type 1 where
  pub to_vec : {A : Type 0} → A → Option (List ℕ)
  pub sha256_hex : List ℕ → Text

unfoldable pub contract_digest : {A : Type 0} → Codec → String → A → Checked Text
contract_digest {A} codec domain value = do
  let pair : String × A = (domain, value)
  bytes ← ok_or (codec.to_vec pair) serialization
  ok (codec.sha256_hex bytes)

-- `if contract_digest(domain, value)? != expected { return Err(error) }`
unfoldable pub check_digest :
    {A : Type 0} → Codec → String → A → Text → ProtocolError → Checked (Unit {0})
check_digest codec domain value expected error = do
  computed ← contract_digest codec domain value
  deny (computed != expected) error

pub check_digest-ok_iff :
    {A : Type 0} (codec : Codec) (domain : String) (value : A) (expected : Text)
    (error : ProtocolError)
    → (check_digest codec domain value expected error ≡ ok tt)
      ↔ (contract_digest codec domain value ≡ ok expected)
unfolding check_digest
check_digest-ok_iff codec domain value expected error =
    elim (Result-cases (contract_digest codec domain value)) [
      | inl (d, e) ↦ rw e (ground arith)
      | inr (x, e) ↦ rw e (ground arith)
    ]

abbrev pub is_hex_byte : ℕ → Bool
is_hex_byte byte = leb b'0' byte && leb byte b'9' || leb b'a' byte && leb byte b'f'

unfoldable pub valid_digest : Text → Bool
unfolding len all
valid_digest value = len value == 64 && all is_hex_byte value

-- What SHA-256 is documented to give: 32 bytes, printed as 64 hexadecimal digits.
abbrev pub PrintsDigests : Codec → Type 0
PrintsDigests codec = (bytes : List ℕ) → valid_digest (codec.sha256_hex bytes) ≡ true
