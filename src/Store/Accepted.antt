-- ===== src/Store/Accepted.antt =====
-- What `validate_snapshot` of crates/idr-store/src/file_store.rs says of the reservations of a
-- snapshot that it accepts.
pub mod Attempts
use idr.Base.{
  ℕ, ◌+◌, ◌≡◌, ◌≢◌, ◌↔◌, ◌⊎◌, inl, inr, refl, subst, sym, Bool, true, false, not, ◌||◌, ◌&&◌, List,
  [], ◌∷◌, ◌++◌, map, is_empty, Elem, Distinct, contains, contains_iff, Option, none, some, ok, err,
  arith, Result-cases, append-Elem, Distinct-append, Eq, Text, text_eq, nat_eq,
}
use mathlib.Core.List.{map-append}
use idr.Protocol.Id.{Uuid, ProofId, id_eq}
use idr.Protocol.Digest.{Codec}
use idr.Protocol.ContractRef
use idr.Protocol.ContractRef.{ContractRef, contract_ref_eq}
use idr.Protocol.Action.{ActionContract}
use idr.Protocol.Permit
use idr.Protocol.Proof.{validate_shape}
use idr.Store.Error.{lift}
use idr.Store.Contract.{ContractSnapshot}
use idr.Store.Snapshot.{permits_retry, Attempt, Reservation, Snapshot, record_of}
use idr.Store.Validity.{validate_snapshot}
use idr.Store.Validity.Reservations.{
  Seen, nothing_seen, check_attempts, check_reservations, validate_reservations, misattributed,
  is_reused, mistimed, check_receipt_ref, see_attempt, see_reservation, stored_action, misreserved,
}
use idr.Store.Accepted.Attempts.{
  Numbered, all_attempts, action_of, proof_of, nonce_of, authorization_of, reservations-Distinct,
  reservations-actions, reservations-Numbered,
}

accepted-reservations :
    (codec : Codec) (hyphenated : Uuid → Text) (s : Snapshot)
    → validate_snapshot codec hyphenated s ≡ ok tt
    → check_reservations codec hyphenated s.records s.execution_reservations nothing_seen ≡ ok tt
unfolding validate_snapshot validate_reservations
accepted-reservations codec hyphenated s h = ground arith

fresh-proof :
    (seen : Seen) (t : Attempt) → is_reused seen t ≡ false → Elem (proof_of t) seen.proof_ids → ⊥
unfolding is_reused
fresh-proof seen t h m =
    let found = (contains_iff seen.proof_ids t.proof_id).1 m in absurd (ground arith)

fresh-nonce :
    (seen : Seen) (t : Attempt) → is_reused seen t ≡ false → Elem (nonce_of t) seen.proof_nonces → ⊥
unfolding is_reused
fresh-nonce seen t h m =
    let found = (contains_iff seen.proof_nonces t.proof_nonce).1 m in absurd (ground arith)

fresh-authorization :
    (seen : Seen) (t : Attempt)
    → is_reused seen t ≡ false
    → Elem (authorization_of t) seen.authorization_ids
    → ⊥
unfolding is_reused
fresh-authorization seen t h m =
    let found = (contains_iff seen.authorization_ids t.authorization.authorization_id).1 m in
    absurd (ground arith)

-- A snapshot that `validate_snapshot` accepts has at most one reservation for an action; the
-- attempts of each reservation are numbered from 1 without a gap, and every one that another
-- follows is in a state that permits a retry; and over the attempts of all reservations no proof
-- id, no proof nonce and no authorization id occurs twice.
pub validate_snapshot-attempts :
    (codec : Codec) (hyphenated : Uuid → Text) (s : Snapshot)
    → validate_snapshot codec hyphenated s ≡ ok tt
    → let ts = all_attempts s.execution_reservations in
      Distinct (map action_of s.execution_reservations)
      × ((r : Reservation) → Elem r s.execution_reservations → Numbered 1 r.attempts)
      × Distinct (map proof_of ts)
      × Distinct (map nonce_of ts)
      × Distinct (map authorization_of ts)
validate_snapshot-attempts codec hyphenated s h =
    let rs = s.execution_reservations in
    let ok_reservations = accepted-reservations codec hyphenated s h in
    (
      (reservations-actions codec hyphenated s.records rs nothing_seen ok_reservations).0,
      reservations-Numbered codec hyphenated s.records rs nothing_seen ok_reservations,
      (reservations-Distinct codec hyphenated s.records proof_of (λ seen. seen.proof_ids)
          (λ seen t. refl) (λ seen r. refl) fresh-proof rs nothing_seen ok_reservations).0,
      (reservations-Distinct codec hyphenated s.records nonce_of (λ seen. seen.proof_nonces)
          (λ seen t. refl) (λ seen r. refl) fresh-nonce rs nothing_seen ok_reservations).0,
      (reservations-Distinct codec hyphenated s.records authorization_of
          (λ seen. seen.authorization_ids) (λ seen t. refl) (λ seen r. refl) fresh-authorization rs
          nothing_seen ok_reservations).0,
    )
