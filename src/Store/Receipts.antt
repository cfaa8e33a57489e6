-- ===== src/Store/Receipts.antt =====
-- crates/idr-store/src/file_store.rs: what a committed receipt does to its attempt.
use idr.Base.{
  ℕ, Bool, ◌&&◌, ◌||◌, not, ◌==◌, ◌!=◌, nat_eq, ltb, leb, find, map_first, some, ok, deny, ok_or,
  ◌>>◌, ◌>>=◌, Text, text_eq,
}
use idr.Protocol.Reference.{reference_eq}
use idr.Protocol.Id.{Uuid, id_eq}
use idr.Protocol.Digest.{Codec}
use idr.Protocol.Error.{proof_verification_failed}
use idr.Protocol.ContractRef.{ContractRef, contract_ref_eq}
use idr.Protocol.Proof.{
  ProofClaims, SignedProofEnvelope, proof_kind_eq, provider_execution_receipt, validate_shape,
}
use idr.Protocol.TrustRoot.{ExpectedProofBinding}
use idr.Protocol.Receipt
use idr.Protocol.Receipt.{
  ExecutionReceipt, ExecutionState, proof_subject_ref, expected_provider_proof_binding,
}
use idr.Store.Error.{
  Stored, protocol, lift, execution_reservation_not_found, invalid_execution_transition,
}
use idr.Store.Snapshot.{
  ReservationStatus, succeeded, failed, partially_succeeded, rejected, compensated, Attempt,
  Reservation, Snapshot,
}
use idr.Store.Consistency.{is_open}

-- `match receipt.state()`
abbrev pub status_of : ExecutionState → ReservationStatus
status_of ExecutionState.succeeded = succeeded
status_of ExecutionState.failed = failed
status_of ExecutionState.partially_succeeded = partially_succeeded
status_of ExecutionState.rejected = rejected
status_of ExecutionState.compensated = compensated

-- `receipt_matches_attempt_parts`
unfoldable pub receipt_matches_attempt_parts : ExecutionReceipt → ContractRef → Attempt → Bool
receipt_matches_attempt_parts receipt action_ref t =
    receipt.action_ref == action_ref
    && receipt.permit_id == t.permit_id
    && receipt.authorization_id == t.authorization.authorization_id
    && receipt.provider_ref == t.request.provider_ref
    && receipt.owner_ref == t.request.owner_ref
    && receipt.dispatch_nonce == t.request.dispatch_nonce
    && receipt.attempt == t.attempt
    && receipt.idempotency_key == t.request.idempotency_key

abbrev pub is_receipt_reservation : ExecutionReceipt → Reservation → Bool
is_receipt_reservation receipt r = r.action_ref == receipt.action_ref

abbrev pub is_receipt_attempt : ExecutionReceipt → Attempt → Bool
is_receipt_attempt receipt t = t.permit_id == receipt.permit_id

-- The assignments to the attempt.
abbrev pub settled : ExecutionReceipt → ContractRef → SignedProofEnvelope → ℕ → Attempt → Attempt
settled receipt receipt_ref envelope verified_at t = record t {
  status = status_of receipt.state;
  receipt_ref = some receipt_ref;
  receipt_proof_envelope = some envelope;
  receipt_verified_at = some verified_at;
}

-- `apply_execution_receipt_transition`
unfoldable pub apply_execution_receipt_transition :
    Snapshot → ExecutionReceipt → ContractRef → SignedProofEnvelope → ℕ → Stored Snapshot
apply_execution_receipt_transition s receipt receipt_ref envelope verified_at = do
  r ←
      ok_or (find (is_receipt_reservation receipt) s.execution_reservations)
        execution_reservation_not_found
  t ← ok_or (find (is_receipt_attempt receipt) r.attempts) execution_reservation_not_found
  deny (not (is_open t.status) || not (receipt_matches_attempt_parts receipt r.action_ref t))
      invalid_execution_transition
  ok (record s {
    execution_reservations =
        map_first (is_receipt_reservation receipt)
          (λ (x : Reservation). record x {
            attempts =
                map_first (is_receipt_attempt receipt)
                  (settled receipt receipt_ref envelope verified_at) x.attempts;
          })
          s.execution_reservations;
  })

-- The disjuncts behind the two `?` of the test of `validate_receipt_proof_at`.
unfoldable pub unacceptable :
    ProofClaims → ExpectedProofBinding → ContractRef → ExecutionReceipt → ℕ → ℕ → Bool
unacceptable claims expected receipt_ref receipt verified_at trusted_now =
    claims.subject_digest != receipt_ref.record_digest
    || claims.tenant_ref != expected.tenant_ref
    || claims.scope_ref != expected.scope_ref
    || claims.purpose_ref != expected.purpose_ref
    || claims.policy_revision_ref != expected.policy_revision_ref
    || claims.nonce != receipt.dispatch_nonce
    || ltb claims.issued_at receipt.completed_at
    || ltb trusted_now receipt.completed_at
    || ltb trusted_now claims.issued_at
    || leb claims.expires_at trusted_now
    || ltb verified_at claims.issued_at
    || leb claims.expires_at verified_at
    || ltb trusted_now verified_at

-- `validate_receipt_proof_at`
unfoldable pub validate_receipt_proof_at :
    Codec → (Uuid → Text) → ExecutionReceipt → SignedProofEnvelope → ℕ → ℕ → Stored (Unit {0})
validate_receipt_proof_at codec hyphenated receipt envelope verified_at trusted_now = do
  lift (Receipt.validate codec receipt)
  lift (validate_shape envelope)
  expected ← lift (expected_provider_proof_binding hyphenated receipt)
  deny
      (envelope.claims.proof_kind != provider_execution_receipt
        || envelope.claims.issuer_ref != receipt.provider_ref)
      (protocol proof_verification_failed)
  subject_ref ← lift (proof_subject_ref hyphenated receipt)
  deny (envelope.claims.subject_ref != subject_ref) (protocol proof_verification_failed)
  receipt_ref ← lift (Receipt.record_ref codec receipt)
  deny (unacceptable envelope.claims expected receipt_ref receipt verified_at trusted_now)
      (protocol proof_verification_failed)
