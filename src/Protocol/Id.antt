-- ===== src/Protocol/Id.antt =====
-- crates/idr-protocol/src/human_centered/common.rs: identifiers, kinds, impact and basis points.
-- A `Uuid` of the uuid crate is its 128-bit value; what the crate reads off the value (version and
-- variant) is a parameter.
use idr.Base.{
  ℕ, ◌==◌, nat_eq, Bool, ◌||◌, ◌&&◌, not, if◌then◌else◌, leb, ltb, ok, err, Eq, ℕ_discrete,
}
use idr.Protocol.Error.{Checked, empty_identifier, invalid_basis_points}

abbrev pub Uuid : Type 0
Uuid = ℕ

-- `Uuid::is_nil`
abbrev pub is_nil : Uuid → Bool
is_nil u = u == 0

pub record UuidFormat : Type 0 where
  pub version_num : Uuid → ℕ
  pub is_rfc4122 : Uuid → Bool

-- The type that the macro `uuid_id!` declares; the program has six copies of it.
pub record Identifier : Type 0 where
  pub uuid : Uuid

abbrev pub RunId : Type 0
RunId = Identifier

abbrev pub TurnId : Type 0
TurnId = Identifier

abbrev pub ContractId : Type 0
ContractId = Identifier

abbrev pub ProofId : Type 0
ProofId = Identifier

unfoldable pub Identifier-discrete : Discrete Identifier
Identifier-discrete = hlevel ℕ_discrete

instance abbrev pub id_eq : Eq Identifier
id_eq = record { dec = Identifier-discrete }

abbrev pub is_empty_id : Identifier → Bool
is_empty_id i = is_nil i.uuid

unfoldable pub from_uuid : UuidFormat → Uuid → Checked Identifier
from_uuid format value =
    let version = format.version_num value in
    if is_nil value || not (format.is_rfc4122 value) || not (leb 1 version && leb version 8)
    then err empty_identifier
    else ok (record { uuid = value })

pub data ContractKind : Type 0 where
  intent decision turn_coordination response action execution_receipt outcome : ContractKind
  human_model_assertion human_model_update_candidate : ContractKind

unfoldable pub ContractKind-discrete : Discrete ContractKind
ContractKind-discrete = hlevel

instance abbrev pub kind_eq : Eq ContractKind
kind_eq = record { dec = ContractKind-discrete }

-- The order of declaration, which the derived `Ord` follows.
abbrev pub kind_index : ContractKind → ℕ
kind_index intent = 0
kind_index decision = 1
kind_index turn_coordination = 2
kind_index response = 3
kind_index action = 4
kind_index execution_receipt = 5
kind_index outcome = 6
kind_index human_model_assertion = 7
kind_index human_model_update_candidate = 8

pub data ImpactLevel : Type 0 where
  low medium high critical : ImpactLevel

unfoldable pub ImpactLevel-discrete : Discrete ImpactLevel
ImpactLevel-discrete = hlevel

instance abbrev pub impact_eq : Eq ImpactLevel
impact_eq = record { dec = ImpactLevel-discrete }

abbrev pub rank : ImpactLevel → ℕ
rank low = 0
rank medium = 1
rank high = 2
rank critical = 3

pub record BasisPoints : Type 0 where
  pub value : ℕ

-- `UnitIntervalBasisPointsV1::new`
unfoldable pub new_basis_points : ℕ → Checked BasisPoints
new_basis_points value =
    if ltb 10000 value then err (invalid_basis_points value) else ok (record { value = value })
