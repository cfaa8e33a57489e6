-- ===== src/Protocol/ContractRef.antt =====
-- crates/idr-protocol/src/human_centered/common.rs: `HumanCenteredContractRefV1`.
use Prim.Native.Nat.{Ordering, compare}
use idr.Base.{
  ℕ, ◌≡◌, ◌↔◌, ◌||◌, not, ◌==◌, nat_eq, ltb, Eq, Ord, ok, deny, ◌>>◌, Text, Text-discrete, text_ord,
  ℕ_discrete, arith,
}
use idr.Protocol.Error.{Checked, invalid_contract_reference}
use idr.Protocol.Id.{
  ContractId, ContractKind, ContractKind-discrete, Identifier-discrete, is_empty_id, kind_index,
}
use idr.Protocol.Digest.{valid_digest}

abbrev pub max_safe_wire_integer : ℕ
max_safe_wire_integer = 9007199254740991

pub record ContractRef : Type 0 where
  pub kind : ContractKind
  pub contract_id : ContractId
  pub revision : ℕ
  pub record_digest : Text

unfoldable pub ContractRef-discrete : Discrete ContractRef
ContractRef-discrete =
    hlevel (ContractKind-discrete, Identifier-discrete, ℕ_discrete, Text-discrete)

instance abbrev pub contract_ref_eq : Eq ContractRef
contract_ref_eq = record { dec = ContractRef-discrete }

unfoldable pub validate : ContractRef → Checked (Unit {0})
validate r =
    deny
      (is_empty_id r.contract_id
        || r.revision == 0
        || ltb max_safe_wire_integer r.revision
        || not (valid_digest r.record_digest))
      invalid_contract_reference

unfoldable pub new : ContractKind → ContractId → ℕ → Text → Checked ContractRef
unfolding validate
new kind contract_id revision record_digest =
    let value : ContractRef = record {
      kind = kind;
      contract_id = contract_id;
      revision = revision;
      record_digest = record_digest;
    } in
    validate value >> ok value

-- The lexicographic step of a derived `Ord`.
abbrev pub then_cmp : Ordering → Ordering → Ordering
then_cmp Ordering.eq next = next
then_cmp Ordering.lt next = Ordering.lt
then_cmp Ordering.gt next = Ordering.gt

-- The derived `Ord`, which is also the key of `sort_by_key` in `canonical_contract_references`.
unfoldable pub cmp : ContractRef → ContractRef → Ordering
cmp a b = then_cmp (compare (kind_index a.kind) (kind_index b.kind)) (
    then_cmp (compare a.contract_id.uuid b.contract_id.uuid)
      (then_cmp (compare a.revision b.revision) (text_ord.cmp a.record_digest b.record_digest)))

kind_index-injective : (a b : ContractKind) → kind_index a ≡ kind_index b → a ≡ b
kind_index-injective a b h = ground arith

pub cmp-eq_iff : (a b : ContractRef) → (cmp a b ≡ Ordering.eq) ↔ (a ≡ b)
unfolding cmp
cmp-eq_iff a b =
    ground
      (arith, kind_index-injective a.kind b.kind, text_ord.cmp_eq a.record_digest b.record_digest)

pub cmp-flip : (a b : ContractRef) → (cmp a b ≡ Ordering.lt) ↔ (cmp b a ≡ Ordering.gt)
unfolding cmp
cmp-flip a b = ground (arith, text_ord.cmp_flip a.record_digest b.record_digest)

pub cmp_trans :
    (a b c : ContractRef) → cmp a b ≡ Ordering.lt → cmp b c ≡ Ordering.lt → cmp a c ≡ Ordering.lt
unfolding cmp
cmp_trans a b c = ground (arith, text_ord.cmp_trans a.record_digest b.record_digest c.record_digest)

instance abbrev pub contract_ref_ord : Ord ContractRef
contract_ref_ord = record {
  cmp = cmp;
  cmp_eq = cmp-eq_iff;
  cmp_flip = cmp-flip;
  cmp_trans = cmp_trans;
}
