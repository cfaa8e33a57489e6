-- ===== src/Store/Error.antt =====
-- crates/idr-store/src/file_store.rs: `HumanCenteredStoreErrorV1`.
use idr.Base.{Result, map_err}
use idr.Protocol.Error.{ProtocolError, Checked}

pub data StoreError : Type 0 where
  protocol : ProtocolError → StoreError
  io serialization poisoned stale_current_pointer stale_dependency : StoreError
  cross_object_mismatch corrupt_snapshot corrupt_anchor rollback_detected : StoreError
  proof_replay_detected authorization_already_consumed trusted_clock_unavailable : StoreError
  execution_already_reserved execution_reservation_not_found : StoreError
  execution_permit_mismatch execution_owner_mismatch execution_lease_expired : StoreError
  execution_requires_reconciliation execution_action_invalidated : StoreError
  invalid_execution_transition verified_receipt_proof_required : StoreError
  invalid_execution_attempt attempt_overflow sequence_overflow : StoreError

abbrev pub Stored : Type 0 → Type 0
Stored A = Result A StoreError

-- `?` on a result of the protocol: `#[from] HumanCenteredProtocolError`.
abbrev pub lift : {A : Type 0} → Checked A → Stored A
lift m = map_err protocol m
