-- ===== src/Store/Snapshot.antt =====
-- crates/idr-store/src/file_store.rs: the durable snapshot, its reservations and their attempts.
use idr.Base.{
  ℕ, ℕ_discrete, Bool, true, false, ◌&&◌, not, ◌==◌, List, [], find, contains, Option, none, Text,
  Text-discrete, Eq,
}
use idr.Protocol.Reference.{Reference, Reference-discrete}
use idr.Protocol.Id.{Uuid, ProofId, kind_eq, id_eq}
use idr.Protocol.Digest.{Codec}
use idr.Protocol.ContractRef.{ContractRef, contract_ref_eq, ContractRef-discrete}
use idr.Protocol.Proof.{SignedProofEnvelope}
use idr.Protocol.Authorization.{ExactActionAuthorization}
use idr.Protocol.Permit.{PermitRequest}
use idr.Store.Contract.{ContractSnapshot, is_named}

pub data ReservationStatus : Type 0 where
  permit_issued delivered dispatched cancelled reconciliation_required : ReservationStatus
  succeeded failed partially_succeeded rejected compensated expired : ReservationStatus

unfoldable pub ReservationStatus-discrete : Discrete ReservationStatus
ReservationStatus-discrete = hlevel

instance abbrev pub reservation_status_eq : Eq ReservationStatus
reservation_status_eq = record { dec = ReservationStatus-discrete }

-- `ExecutionReservationStatusV1::permits_retry`
abbrev pub permits_retry : ReservationStatus → Bool
permits_retry failed = true
permits_retry rejected = true
permits_retry expired = true
permits_retry _ = false

-- `ExecutionReservationStatusV1::is_terminal`
abbrev pub is_terminal : ReservationStatus → Bool
is_terminal succeeded = true
is_terminal failed = true
is_terminal partially_succeeded = true
is_terminal rejected = true
is_terminal compensated = true
is_terminal cancelled = true
is_terminal expired = true
is_terminal _ = false

pub record Attempt : Type 0 where
  pub attempt : ℕ
  pub permit_id : ProofId
  pub proof_id : ProofId
  pub proof_nonce : Text
  pub proof_issuer_ref : Reference
  pub proof_key_id : Reference
  pub proof_expires_at : ℕ
  pub subject_digest : Text
  pub permit_proof_envelope : SignedProofEnvelope
  pub authorization : ExactActionAuthorization
  pub request : PermitRequest
  pub consumed_at : ℕ
  pub status : ReservationStatus
  pub delivered_at : Option ℕ
  pub dispatched_at : Option ℕ
  pub receipt_ref : Option ContractRef
  pub receipt_proof_envelope : Option SignedProofEnvelope
  pub receipt_verified_at : Option ℕ

pub record Reservation : Type 0 where
  pub reservation_id : Uuid
  pub action_ref : ContractRef
  pub tenant_ref : Reference
  pub operation_ref : Reference
  pub idempotency_key : Text
  pub attempts : List Attempt

pub record Snapshot : Type 0 where
  pub sequence : ℕ
  pub previous_snapshot_digest : Option Text
  pub snapshot_digest : Text
  pub records : List ContractSnapshot
  pub current_pointers : List ContractRef
  pub invalidated_refs : List ContractRef
  pub execution_reservations : List Reservation

-- `HumanCenteredStoreSnapshotV1::default()`
abbrev pub default_snapshot : Snapshot
default_snapshot = record {
  sequence = 0;
  previous_snapshot_digest = none;
  snapshot_digest = [];
  records = [];
  current_pointers = [];
  invalidated_refs = [];
  execution_reservations = [];
}

pub record ExecutionPermit : Type 0 where
  pub reservation_id : Uuid
  pub permit_id : ProofId
  pub proof_key_id : Reference
  pub proof_verified_at : ℕ
  pub issued_at : ℕ
  pub request : PermitRequest

unfoldable pub PermitRequest-discrete : Discrete PermitRequest
PermitRequest-discrete =
    hlevel (Reference-discrete, ContractRef-discrete, ℕ_discrete, Text-discrete)

instance abbrev pub permit_request_eq : Eq PermitRequest
permit_request_eq = record { dec = PermitRequest-discrete }

unfoldable pub OptionRef-discrete : Discrete (Option ContractRef)
OptionRef-discrete = hlevel ContractRef-discrete

instance abbrev pub option_ref_eq : Eq (Option ContractRef)
option_ref_eq = record { dec = OptionRef-discrete }

-- Two references name revisions of one contract.
abbrev pub same_contract : ContractRef → ContractRef → Bool
same_contract a b = a.kind == b.kind && a.contract_id == b.contract_id

-- The pointer to the current revision of a contract.
unfoldable pub pointer_to : List ContractRef → ContractRef → Option ContractRef
pointer_to pointers reference = find (λ pointer. same_contract pointer reference) pointers

-- The first record that a reference names.
unfoldable pub record_of : Codec → List ContractSnapshot → ContractRef → Option ContractSnapshot
record_of codec records reference = find (is_named codec reference) records

-- A reference is a current pointer, and it is not invalidated.
unfoldable pub is_current : Snapshot → ContractRef → Bool
is_current s reference =
    contains s.current_pointers reference && not (contains s.invalidated_refs reference)
