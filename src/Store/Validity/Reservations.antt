-- ===== src/Store/Validity/Reservations.antt =====
-- crates/idr-store/src/file_store.rs: the tests of `validate_snapshot` on the reservations.
use idr.Base.{
  ℕ, ◌+◌, Bool, ◌&&◌, ◌||◌, not, ◌==◌, ◌!=◌, nat_eq, ltb, leb, List, [], ◌∷◌, is_empty, any,
  contains, Option, none, some, is_some, is_none, is_none_or, is_some_and, ok, err, deny, ok_or,
  ◌>>◌, ◌>>=◌, Text, text_eq, is_blank, u32_max,
}
use idr.Protocol.Reference.{Reference, reference_eq}
use idr.Protocol.Id.{Uuid, ProofId, id_eq, is_nil, is_empty_id}
use idr.Protocol.Digest.{Codec}
use idr.Protocol.ContractRef
use idr.Protocol.ContractRef.{ContractRef, contract_ref_eq}
use idr.Protocol.Action.{ActionContract}
use idr.Protocol.Permit
use idr.Protocol.Proof.{
  ProofClaims, proof_kind_eq, execution_permit, provider_execution_receipt, validate_shape,
}
use idr.Protocol.Receipt.{ExecutionReceipt, proof_subject_ref}
use idr.Store.Error.{Stored, lift, corrupt_snapshot}
use idr.Store.Contract.{ContractSnapshot}
use idr.Store.Snapshot.{
  ReservationStatus, permit_issued, delivered, dispatched, expired, cancelled,
  reconciliation_required, succeeded, failed, partially_succeeded, rejected, compensated,
  permits_retry, Attempt, Reservation, Snapshot, record_of,
}
use idr.Store.Sealing.{valid_store_digest}
use idr.Store.Consistency.{receipt_matches_attempt}

-- The sets that the loop fills, each as the list of what was inserted.
pub record Seen : Type 0 where
  pub reservation_ids : List Uuid
  pub authorization_ids : List Uuid
  pub idempotency_scopes : List (Reference × Reference × Text)
  pub reserved_actions : List ContractRef
  pub proof_ids : List ProofId
  pub proof_nonces : List Text

abbrev pub nothing_seen : Seen
nothing_seen = record {
  reservation_ids = [];
  authorization_ids = [];
  idempotency_scopes = [];
  reserved_actions = [];
  proof_ids = [];
  proof_nonces = [];
}

-- `let Some(Action(action)) = records.find(…) else { return Err(CorruptSnapshot) }`
abbrev pub stored_action : Option ContractSnapshot → Stored ActionContract
stored_action (some (ContractSnapshot.action a)) = ok a
stored_action _ = err corrupt_snapshot

abbrev pub stored_receipt : Option ContractSnapshot → Stored ExecutionReceipt
stored_receipt (some (ContractSnapshot.execution_receipt r)) = ok r
stored_receipt _ = err corrupt_snapshot

-- The test on what the attempt says of its number, its proof and its times.
unfoldable pub misattributed : Attempt → ProofClaims → ActionContract → Reservation → ℕ → Bool
misattributed t claims a r expected =
    t.attempt != expected
    || t.request.attempt != expected
    || t.permit_id != t.proof_id
    || is_empty_id t.proof_id
    || not (valid_store_digest t.proof_nonce)
    || t.proof_nonce != t.request.dispatch_nonce
    || is_blank t.proof_issuer_ref.text
    || is_blank t.proof_key_id.text
    || ltb t.proof_expires_at t.request.lease_until
    || claims.proof_id != t.proof_id
    || claims.proof_kind != execution_permit
    || claims.issuer_ref != t.proof_issuer_ref
    || t.permit_proof_envelope.key_id != t.proof_key_id
    || claims.subject_ref != t.request.request_ref
    || claims.subject_digest != t.request.request_digest
    || claims.nonce != t.request.dispatch_nonce
    || claims.expires_at != t.proof_expires_at
    || not (valid_store_digest t.subject_digest)
    || t.subject_digest != t.request.request_digest
    || t.authorization.authorization_id != t.request.authorization_id
    || ltb t.consumed_at t.request.lease_issued_at
    || leb t.request.lease_until t.consumed_at
    || leb t.proof_expires_at t.consumed_at
    || leb t.authorization.expires_at t.consumed_at
    || leb a.metadata.valid_until t.consumed_at
    || t.request.action_ref != r.action_ref

-- The disjuncts of that test that insert into a set: what was seen before.
unfoldable pub is_reused : Seen → Attempt → Bool
is_reused seen t =
    contains seen.proof_ids t.proof_id
    || contains seen.proof_nonces t.proof_nonce
    || contains seen.authorization_ids t.authorization.authorization_id

abbrev pub has_no_receipt : Attempt → Bool
has_no_receipt t =
    is_none t.receipt_ref && is_none t.receipt_proof_envelope && is_none t.receipt_verified_at

abbrev pub has_receipt_parts : Attempt → Bool
has_receipt_parts t =
    is_some t.delivered_at
    && is_some t.dispatched_at
    && is_some t.receipt_ref
    && is_some t.receipt_proof_envelope
    && is_some t.receipt_verified_at

-- `timing_is_valid`
abbrev pub timing_is_valid : ReservationStatus → Attempt → Bool
timing_is_valid permit_issued t =
    is_none t.delivered_at && is_none t.dispatched_at && has_no_receipt t
timing_is_valid delivered t = is_some t.delivered_at && is_none t.dispatched_at && has_no_receipt t
timing_is_valid dispatched t = is_some t.delivered_at && is_some t.dispatched_at && has_no_receipt t
timing_is_valid expired t = has_no_receipt t
timing_is_valid cancelled t = is_none t.dispatched_at && has_no_receipt t
timing_is_valid reconciliation_required t =
    is_some t.delivered_at && is_some t.dispatched_at && has_no_receipt t
timing_is_valid succeeded t = has_receipt_parts t
timing_is_valid failed t = has_receipt_parts t
timing_is_valid partially_succeeded t = has_receipt_parts t
timing_is_valid rejected t = has_receipt_parts t
timing_is_valid compensated t = has_receipt_parts t

unfoldable pub mistimed : Attempt → Bool
mistimed t =
    not (timing_is_valid t.status t)
    || is_some_and t.delivered_at (λ delivered_at. ltb delivered_at t.consumed_at)
    || is_some_and t.dispatched_at (λ dispatched_at.
      is_none_or t.delivered_at (λ delivered_at. ltb dispatched_at delivered_at))

-- The test on the claims of a receipt's proof, behind the `?` of `proof_subject_ref`.
unfoldable pub misproved : ProofClaims → ExecutionReceipt → ContractRef → Attempt → Bool
misproved claims receipt receipt_ref t =
    claims.subject_digest != receipt_ref.record_digest
    || claims.nonce != receipt.dispatch_nonce
    || ltb claims.issued_at receipt.completed_at
    || is_none_or t.receipt_verified_at
        (λ verified_at. ltb verified_at claims.issued_at || leb claims.expires_at verified_at)

abbrev pub scope_of : Reservation → Reference × Reference × Text
scope_of r = (r.tenant_ref, r.operation_ref, r.idempotency_key)

abbrev pub is_scope_seen : Seen → Reservation → Bool
is_scope_seen seen r =
    any
      (λ (s : Reference × Reference × Text).
        s.0 == r.tenant_ref && s.1 == r.operation_ref && s.2 == r.idempotency_key)
      seen.idempotency_scopes

-- The test on a reservation before its attempts.
unfoldable pub misreserved : Reservation → ActionContract → Seen → Bool
misreserved r a seen =
    is_nil r.reservation_id
    || contains seen.reservation_ids r.reservation_id
    || r.tenant_ref != a.metadata.authority_context.tenant_ref
    || r.operation_ref != a.operation_ref
    || r.idempotency_key != a.idempotency_key
    || is_empty r.attempts
    || contains seen.reserved_actions r.action_ref
    || is_scope_seen seen r

-- The insertions of the two tests.
abbrev pub see_attempt : Seen → Attempt → Seen
see_attempt seen t = record seen {
  proof_ids = t.proof_id ∷ seen.proof_ids;
  proof_nonces = t.proof_nonce ∷ seen.proof_nonces;
  authorization_ids = t.authorization.authorization_id ∷ seen.authorization_ids;
}

abbrev pub see_reservation : Seen → Reservation → Seen
see_reservation seen r = record seen {
  reservation_ids = r.reservation_id ∷ seen.reservation_ids;
  reserved_actions = r.action_ref ∷ seen.reserved_actions;
  idempotency_scopes = scope_of r ∷ seen.idempotency_scopes;
}

-- `hyphenated` prints a UUID, for `proof_subject_ref`.
module _ (codec : Codec) (hyphenated : Uuid → Text) where
  unfoldable pub check_receipt_ref :
      List ContractSnapshot → Reservation → Attempt → Option ContractRef → Stored (Unit {0})
  check_receipt_ref records r t none = ok tt
  check_receipt_ref records r t (some receipt_ref) = do
    receipt ← stored_receipt (record_of codec records receipt_ref)
    deny (not (receipt_matches_attempt receipt r t)) corrupt_snapshot
    envelope ← ok_or t.receipt_proof_envelope corrupt_snapshot
    lift (validate_shape envelope)
    deny
        (envelope.claims.proof_kind != provider_execution_receipt
          || envelope.claims.issuer_ref != receipt.provider_ref)
        corrupt_snapshot
    subject_ref ← lift (proof_subject_ref hyphenated receipt)
    deny
        (envelope.claims.subject_ref != subject_ref
          || misproved envelope.claims receipt receipt_ref t)
        corrupt_snapshot

  -- The loop over the attempts of a reservation; `index` counts from 0.
  unfoldable pub check_attempts :
      List ContractSnapshot → ActionContract → Reservation → ℕ → List Attempt → Seen → Stored Seen
  check_attempts records a r index [] seen = ok seen
  check_attempts records a r index (t ∷ ts) seen = do
    deny (ltb u32_max (index + 1)) corrupt_snapshot
    lift (Permit.validate_for codec t.request a t.authorization)
    lift (validate_shape t.permit_proof_envelope)
    deny (misattributed t t.permit_proof_envelope.claims a r (index + 1) || is_reused seen t)
        corrupt_snapshot
    deny (mistimed t) corrupt_snapshot
    check_receipt_ref records r t t.receipt_ref
    deny (not (is_empty ts) && not (permits_retry t.status)) corrupt_snapshot
    check_attempts records a r (index + 1) ts (see_attempt seen t)

  unfoldable pub check_reservations :
      List ContractSnapshot → List Reservation → Seen → Stored (Unit {0})
  check_reservations records [] seen = ok tt
  check_reservations records (r ∷ rs) seen = do
    lift (ContractRef.validate r.action_ref)
    a ← stored_action (record_of codec records r.action_ref)
    deny (misreserved r a seen) corrupt_snapshot
    seen' ← check_attempts records a r 0 r.attempts (see_reservation seen r)
    check_reservations records rs seen'

  -- The loop over the reservations.
  unfoldable pub validate_reservations : Snapshot → Stored (Unit {0})
  validate_reservations s = check_reservations s.records s.execution_reservations nothing_seen
