-- ===== src/Protocol/Input.antt =====
-- crates/idr-protocol/src/human_centered/input.rs: canonical input events.
pub mod Admitted
use idr.Base.{
  is_some_and, ℕ, ◌≡◌, ◌↔◌, arith, Bool, true, false, ◌||◌, ◌==◌, ◌!=◌, not, nat_eq, ltb, List, [],
  ◌∷◌, length, is_empty, any, contains, Option, none, some, ok, deny, ◌>>◌, ◌>>=◌, Text, is_blank,
  Eq, Ord, if◌then◌else◌, Ordering, compare-eq_iff, compare-flip, compare_trans, sort_dedup,
}
use Prim.Native.Nat.{compare}
use idr.Protocol.Error.{Checked, invalid_contract}
use idr.Protocol.Reference.{Reference}
use idr.Protocol.Id.{RunId, TurnId, Identifier, is_empty_id}
use idr.Protocol.Digest.{valid_digest}
use idr.Protocol.ContractRef.{max_safe_wire_integer}
use idr.Protocol.Metadata.{schema_version_v1}

pub data SourceActor : Type 0 where
  user host agent tool external_system human_approver scheduler policy_engine : SourceActor
  device_environment : SourceActor

pub data SemanticRole : Type 0 where
  objective intent command fact observation proposal authorization policy : SemanticRole
  result feedback time_trigger security_signal : SemanticRole

unfoldable pub SemanticRole-discrete : Discrete SemanticRole
SemanticRole-discrete = hlevel

instance abbrev pub semantic_role_eq : Eq SemanticRole
semantic_role_eq = record { dec = SemanticRole-discrete }

-- The order of declaration, which the derived `Ord` follows.
abbrev pub role_index : SemanticRole → ℕ
role_index objective = 0
role_index intent = 1
role_index command = 2
role_index fact = 3
role_index observation = 4
role_index proposal = 5
role_index authorization = 6
role_index policy = 7
role_index result = 8
role_index feedback = 9
role_index time_trigger = 10
role_index security_signal = 11

abbrev pub role_cmp : SemanticRole → SemanticRole → Ordering
role_cmp a b = compare (role_index a) (role_index b)

role_index-injective : (a b : SemanticRole) → role_index a ≡ role_index b → a ≡ b
role_index-injective a b h = ground arith

pub role_cmp-eq_iff : (a b : SemanticRole) → (role_cmp a b ≡ Ordering.eq) ↔ (a ≡ b)
role_cmp-eq_iff a b =
    ground (arith, compare-eq_iff (role_index a) (role_index b), role_index-injective a b)

instance abbrev pub semantic_role_ord : Ord SemanticRole
semantic_role_ord = record {
  cmp = role_cmp;
  cmp_eq = role_cmp-eq_iff;
  cmp_flip = λ a b. compare-flip (role_index a) (role_index b);
  cmp_trans = λ a b c. compare_trans (role_index a) (role_index b) (role_index c);
}

pub record InputEvent : Type 0 where
  pub event_id : Identifier
  pub run_id : RunId
  pub turn_id : TurnId
  pub source_actor : SourceActor
  pub actor_ref : Reference
  pub primary_semantic_role : SemanticRole
  pub semantic_roles : List SemanticRole
  pub content_ref : Reference
  pub content_digest : Text
  pub correlation_ref : Reference
  pub logical_time : ℕ
  pub schema_version : ℕ

unfoldable pub source_actor_may_assert : SourceActor → SemanticRole → Bool
source_actor_may_assert user role =
    contains (objective ∷ intent ∷ command ∷ fact ∷ proposal ∷ authorization ∷ feedback ∷ []) role
source_actor_may_assert host role = not (contains (authorization ∷ []) role)
source_actor_may_assert agent role =
    contains (fact ∷ observation ∷ proposal ∷ result ∷ feedback ∷ []) role
source_actor_may_assert tool role =
    contains (fact ∷ observation ∷ result ∷ security_signal ∷ []) role
source_actor_may_assert external_system role =
    contains (fact ∷ observation ∷ result ∷ security_signal ∷ []) role
source_actor_may_assert human_approver role = contains (authorization ∷ feedback ∷ fact ∷ []) role
source_actor_may_assert scheduler role = role == time_trigger
source_actor_may_assert policy_engine role =
    contains (policy ∷ authorization ∷ security_signal ∷ []) role
source_actor_may_assert device_environment role =
    contains (observation ∷ fact ∷ security_signal ∷ []) role

-- `str::strip_prefix`
unfoldable pub strip_prefix : Text → Text → Option Text
strip_prefix [] value = some value
strip_prefix (p ∷ prefix) [] = none
strip_prefix (p ∷ prefix) (c ∷ value) =
    let rest = strip_prefix prefix value in if p == c then rest else none

-- "sha256:"
abbrev pub sha256_prefix : Text
sha256_prefix = b's' ∷ b'h' ∷ b'a' ∷ b'2' ∷ b'5' ∷ b'6' ∷ b':' ∷ []

-- The disjuncts of `validate` on the roles.
unfoldable pub badly_assigned : InputEvent → Bool
badly_assigned e =
    is_empty e.semantic_roles
    || ltb 16 (length e.semantic_roles)
    || length (sort_dedup e.semantic_roles) != length e.semantic_roles
    || not (contains (sort_dedup e.semantic_roles) e.primary_semantic_role)
    || any (λ role. not (source_actor_may_assert e.source_actor role)) e.semantic_roles

-- `CanonicalInputEventV1::validate`
unfoldable pub validate : InputEvent → Checked (Unit {0})
validate e =
    deny
      (is_empty_id e.event_id
        || is_empty_id e.run_id
        || is_empty_id e.turn_id
        || badly_assigned e
        || is_blank e.actor_ref.text
        || is_blank e.content_ref.text
        || is_blank e.correlation_ref.text
        || not (is_some_and (strip_prefix sha256_prefix e.content_digest) valid_digest)
        || e.logical_time == 0
        || ltb max_safe_wire_integer e.logical_time
        || e.schema_version != schema_version_v1)
      invalid_contract

-- The struct literal of `new`: its arguments are the other fields of `d`.
abbrev pub minted_event : Identifier → InputEvent → InputEvent
minted_event minted d = record d {
  event_id = minted;
  semantic_roles = sort_dedup d.semantic_roles;
  schema_version = schema_version_v1;
}

-- `CanonicalInputEventV1::new`; `minted` is what `mint` returns.
unfoldable pub new : Identifier → InputEvent → Checked InputEvent
new minted d = validate (minted_event minted d) >> ok (minted_event minted d)
