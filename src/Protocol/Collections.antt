-- ===== src/Protocol/Collections.antt =====
-- crates/idr-protocol/src/human_centered/common.rs: text checks and canonical collections.
pub mod Canonical
use idr.Base.{
  ℕ, Bool, true, false, ◌||◌, ◌==◌, nat_eq, not, ltb, List, [], ◌∷◌, length, any, ok, err, deny,
  ◌>>◌, ◌>>=◌, try_each, Text, len, is_blank, has_control, Ord, sort_dedup, Ordering, text_ord,
  if◌then◌else◌, ◌≡◌, ◌↔◌, arith, contains, text_eq, Elem, sort_dedup-Elem,
}
use idr.Protocol.Error.{Checked, invalid_text, invalid_reference, collection_limit_exceeded}
use idr.Protocol.Reference.{Reference}
use idr.Protocol.ContractRef
use idr.Protocol.ContractRef.{ContractRef, contract_ref_ord}

unfoldable pub validate_required_text : Text → Checked (Unit {0})
validate_required_text value =
    deny (is_blank value || ltb 4096 (len value) || has_control value) invalid_text

unfoldable pub validate_text_collection : List Text → Checked (Unit {0})
validate_text_collection values = do
  deny (ltb 256 (length values)) collection_limit_exceeded
  try_each validate_required_text values

pub reference-cmp_eq : (a b : Reference) → (text_ord.cmp a.text b.text ≡ Ordering.eq) ↔ (a ≡ b)
reference-cmp_eq a b = ground (arith, text_ord.cmp_eq a.text b.text)

-- The key of `sort_by` in `canonical_references`.
instance abbrev pub reference_ord : Ord Reference
reference_ord = record {
  cmp = λ a b. text_ord.cmp a.text b.text;
  cmp_eq = reference-cmp_eq;
  cmp_flip = λ a b. text_ord.cmp_flip a.text b.text;
  cmp_trans = λ a b c. text_ord.cmp_trans a.text b.text c.text;
}

unfoldable pub canonical_references : List Reference → Checked (List Reference)
canonical_references values = do
  deny (ltb 256 (length values)) collection_limit_exceeded
  let sorted = sort_dedup values
  deny (any (λ value. is_blank value.text) sorted) invalid_reference
  ok sorted

unfoldable pub canonical_contract_references : List ContractRef → Checked (List ContractRef)
canonical_contract_references values = do
  deny (ltb 256 (length values)) collection_limit_exceeded
  try_each ContractRef.validate values
  ok (sort_dedup values)

-- `unique_strings`: the set of the values is as large as the list.
unfoldable pub unique_strings : List Text → Bool
unique_strings values = length (sort_dedup values) == length values
