-- ===== src/Store/Reserve.antt =====
-- crates/idr-store/src/file_store.rs: the reservation that `issue_execution_permit` makes.
pub mod Rules
use idr.Base.{
  ℕ, Bool, false, true, ◌&&◌, ◌||◌, not, ◌==◌, ◌!=◌, nat_eq, if◌then◌else◌, List, [], ◌∷◌, ◌++◌,
  any, contains, find, last, map_first, Option, none, some, ok, err, deny, ok_or, ◌>>◌, ◌>>=◌,
  checked_add, u32_max, Text, text_eq,
}
use idr.Protocol.Reference.{Reference, reference_eq}
use idr.Protocol.Id.{Uuid, id_eq}
use idr.Protocol.Digest.{Codec}
use idr.Protocol.ContractRef.{ContractRef, contract_ref_eq}
use idr.Protocol.Action.{ActionContract}
use idr.Protocol.Permit
use idr.Protocol.Permit.{VerifiedPermitRequest}
use idr.Store.Error.{
  Stored, lift, stale_current_pointer, corrupt_snapshot, proof_replay_detected,
  authorization_already_consumed, execution_already_reserved, attempt_overflow,
  invalid_execution_attempt,
}
use idr.Store.Contract.{ContractSnapshot, is_named}
use idr.Store.Snapshot.{
  Attempt, Reservation, Snapshot, ExecutionPermit, permit_issued, permits_retry, is_current,
}

-- `.find_map(…)`: the first action that the reference names.
abbrev pub action_named : Codec → ContractRef → ContractSnapshot → Bool
action_named codec reference (ContractSnapshot.action a) =
    is_named codec reference (ContractSnapshot.action a)
action_named codec reference _ = false

abbrev pub to_action : Option ContractSnapshot → Stored ActionContract
to_action (some (ContractSnapshot.action a)) = ok a
to_action _ = err corrupt_snapshot

unfoldable pub find_action : Codec → List ContractSnapshot → ContractRef → Stored ActionContract
find_action codec records reference = to_action (find (action_named codec reference) records)

-- An attempt has used the proof or its nonce.
abbrev pub uses_proof : VerifiedPermitRequest → Attempt → Bool
uses_proof v t =
    t.proof_id == v.verified_proof.envelope.claims.proof_id
    || t.proof_nonce == v.verified_proof.envelope.claims.nonce

abbrev pub uses_authorization : VerifiedPermitRequest → Attempt → Bool
uses_authorization v t = t.authorization.authorization_id == v.request.authorization_id

abbrev pub any_attempt : (Attempt → Bool) → List Reservation → Bool
any_attempt p reservations = any (λ (r : Reservation). any p r.attempts) reservations

-- `next_attempt`
abbrev pub next_attempt : VerifiedPermitRequest → ℕ → Attempt
next_attempt v trusted_now = record {
  attempt = v.request.attempt;
  permit_id = v.verified_proof.envelope.claims.proof_id;
  proof_id = v.verified_proof.envelope.claims.proof_id;
  proof_nonce = v.verified_proof.envelope.claims.nonce;
  proof_issuer_ref = v.verified_proof.envelope.claims.issuer_ref;
  proof_key_id = v.verified_proof.envelope.key_id;
  proof_expires_at = v.verified_proof.envelope.claims.expires_at;
  subject_digest = v.request.request_digest;
  permit_proof_envelope = v.verified_proof.envelope;
  authorization = v.authorization;
  request = v.request;
  consumed_at = trusted_now;
  status = permit_issued;
  delivered_at = none;
  dispatched_at = none;
  receipt_ref = none;
  receipt_proof_envelope = none;
  receipt_verified_at = none;
}

-- The reservation that a first attempt makes.
abbrev pub first_reservation : Uuid → ContractRef → ActionContract → Attempt → Reservation
first_reservation minted action_ref a t = record {
  reservation_id = minted;
  action_ref = action_ref;
  tenant_ref = a.metadata.authority_context.tenant_ref;
  operation_ref = a.operation_ref;
  idempotency_key = a.idempotency_key;
  attempts = t ∷ [];
}

-- The reservation of the same tenant, operation and idempotency key.
abbrev pub same_scope : ActionContract → Reservation → Bool
same_scope a r =
    r.tenant_ref == a.metadata.authority_context.tenant_ref
    && r.operation_ref == a.operation_ref
    && r.idempotency_key == a.idempotency_key

-- The test of `.position(…)`.
abbrev pub is_conflicting : ContractRef → ActionContract → Reservation → Bool
is_conflicting action_ref a r = r.action_ref == action_ref || same_scope a r

abbrev pub add_attempt : Attempt → Reservation → Reservation
add_attempt t r = record r { attempts = r.attempts ++ t ∷ [] }

-- The tests on the attempt before; `||` does not read the number of one that permits no retry.
unfoldable pub check_retry : ℕ → Attempt → Stored (Unit {0})
check_retry attempt previous = do
  deny (not (permits_retry previous.status)) execution_already_reserved
  next ← ok_or (checked_add u32_max previous.attempt 1) attempt_overflow
  deny (attempt != next) execution_already_reserved

-- The reservations with the new attempt, and the identifier of its reservation.
unfoldable pub place :
    Uuid
    → ContractRef
    → ActionContract
    → Attempt
    → List Reservation
    → Option Reservation
    → Stored (List Reservation × Uuid)
place minted action_ref a t reservations none = do
  deny (t.attempt != 1) invalid_execution_attempt
  ok (reservations ++ first_reservation minted action_ref a t ∷ [], minted)
place minted action_ref a t reservations (some r) = do
  deny (r.action_ref != action_ref || not (same_scope a r)) execution_already_reserved
  previous ← ok_or (last r.attempts) corrupt_snapshot
  check_retry t.attempt previous
  ok (map_first (is_conflicting action_ref a) (add_attempt t) reservations, r.reservation_id)

-- From the loaded snapshot to the candidate and the identifier of the reservation; `minted` is what
-- `Uuid::new_v4` returns.
unfoldable pub reserve :
    Codec → Uuid → VerifiedPermitRequest → ℕ → Snapshot → Stored (Snapshot × Uuid)
reserve codec minted v trusted_now s = do
  deny (not (is_current s v.request.action_ref)) stale_current_pointer
  a ← find_action codec s.records v.request.action_ref
  lift (Permit.validate_at codec v a trusted_now)
  deny (any_attempt (uses_proof v) s.execution_reservations) proof_replay_detected
  deny (any_attempt (uses_authorization v) s.execution_reservations) authorization_already_consumed
  (reservations, reservation_id) ←
      place minted v.request.action_ref a (next_attempt v trusted_now) s.execution_reservations
        (find (is_conflicting v.request.action_ref a) s.execution_reservations)
  ok (record s { execution_reservations = reservations }, reservation_id)

-- The permit that the operation returns.
abbrev pub issued_permit : VerifiedPermitRequest → ℕ → Uuid → ExecutionPermit
issued_permit v trusted_now reservation_id = record {
  reservation_id = reservation_id;
  permit_id = v.verified_proof.envelope.claims.proof_id;
  proof_key_id = v.verified_proof.envelope.key_id;
  proof_verified_at = v.verified_proof.verified_at;
  issued_at = trusted_now;
  request = v.request;
}
