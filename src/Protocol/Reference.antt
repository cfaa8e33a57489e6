-- ===== src/Protocol/Reference.antt =====
-- crates/idr-protocol/src/lib.rs: references and the authority context.
use idr.Base.{
  Bool, ◌!=◌, ◌||◌, [], ◌∷◌, Result, ok, err, ◌>>=◌, try_each, Text, text_eq, len, trim, is_blank,
  has_control, Eq, if◌then◌else◌, ltb, Text-discrete, text_ord,
}

pub record Reference : Type 0 where
  pub text : Text

unfoldable pub Reference-discrete : Discrete Reference
Reference-discrete = hlevel Text-discrete

instance abbrev pub reference_eq : Eq Reference
reference_eq = record { dec = Reference-discrete }

pub data ReferenceValidationError : Type 0 where
  reference_invalid : ReferenceValidationError

-- The condition under which `ReferenceV1::new` refuses a text.
unfoldable pub refused : Text → Bool
refused value = is_blank value || trim value != value || ltb 512 (len value) || has_control value

unfoldable pub new : Text → Result Reference ReferenceValidationError
unfolding refused
new value = if refused value then err reference_invalid else ok (record { text = value })

pub record AuthorityContext : Type 0 where
  pub subject_ref : Reference
  pub actor_ref : Reference
  pub caller_ref : Reference
  pub tenant_ref : Reference
  pub scope_ref : Reference
  pub purpose_ref : Reference
  pub operation_ref : Reference

unfoldable pub AuthorityContext-discrete : Discrete AuthorityContext
AuthorityContext-discrete = hlevel Reference-discrete

instance abbrev pub authority_context_eq : Eq AuthorityContext
authority_context_eq = record { dec = AuthorityContext-discrete }

check_reference : Reference → Result (Unit {0}) ReferenceValidationError
unfolding new
check_reference reference = new reference.text >>= λ _. ok tt

-- `AuthorityContextV1::validate`
unfoldable pub validate : AuthorityContext → Result (Unit {0}) ReferenceValidationError
unfolding check_reference
validate c = try_each check_reference (
    c.subject_ref ∷ c.actor_ref ∷ c.caller_ref ∷ c.tenant_ref ∷ c.scope_ref ∷ c.purpose_ref
    ∷ c.operation_ref ∷ [])
