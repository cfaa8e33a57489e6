-- ===== src/Protocol/Error.antt =====
-- crates/idr-protocol/src/human_centered/common.rs: the protocol's errors.
use idr.Base.{ℕ, Result}
use idr.Protocol.Reference.{ReferenceValidationError}

pub data ProtocolError : Type 0 where
  empty_identifier : ProtocolError
  invalid_basis_points : ℕ → ProtocolError
  invalid_text invalid_reference invalid_contract_reference invalid_metadata : ProtocolError
  contract_kind_mismatch invalid_revision_lineage invalid_dependency : ProtocolError
  collection_limit_exceeded payload_limit_exceeded invalid_contract : ProtocolError
  invalid_transition digest_mismatch proof_verification_failed : ProtocolError
  revision_overflow serialization : ProtocolError

abbrev pub Checked : Type 0 → Type 0
Checked A = Result A ProtocolError

-- `impl From<ReferenceValidationErrorV1>`
abbrev pub from_reference_error : ReferenceValidationError → ProtocolError
from_reference_error _ = invalid_reference
