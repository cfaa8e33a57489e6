-- ===== src/Store/Steps/Fates.antt =====
-- What a commit of crates/idr-store/src/file_store.rs makes of the attempts in flight whose actions
-- it leaves without effect.
pub mod Settled
use idr.Base.{
  ℕ, ◌≡◌, ◌⊎◌, inl, inr, refl, sym, ap, subst, ◌∙◌, Bool, true, false, ◌!=◌, if◌then◌else◌, List,
  ◌∷◌, ◌++◌, [], Elem, map, map_first, last, Option, none, some, ok, arith, Bool-cases,
  Result-cases, Elem-map, Elem-map_first, last-map_last, last-map_first_forward, last-append,
  sort_dedup,
}
use idr.Protocol.Id.{ProofId, kind_eq, id_eq, action}
use idr.Protocol.Digest.{Codec}
use idr.Protocol.ContractRef.{ContractRef, contract_ref_eq, contract_ref_ord}
use idr.Protocol.Receipt.{ExecutionReceipt}
use idr.Protocol.Proof.{SignedProofEnvelope}
use idr.Store.Contract.{ContractSnapshot}
use idr.Store.Snapshot.{
  permit_issued, delivered, dispatched, cancelled, reconciliation_required, Attempt, Reservation,
  Snapshot, is_current, pointer_to, ReservationStatus, succeeded, failed, partially_succeeded,
  rejected, compensated, expired,
}
use idr.Store.Invalidation.{
  invalidate_dependents, invalidate_execution_reservation, invalidate_loop, invalidate_fuel,
  finished, reconcile_invalidated_execution_reservations, abandoned, abandon,
}
use idr.Store.Receipts.{
  apply_execution_receipt_transition, settled, status_of, is_receipt_reservation,
  is_receipt_attempt,
}
use idr.Store.Commit.{ReceiptProof, supersede, settle, commit_candidate}
use idr.Store.Steps.InFlight.{in_flight, Flies, KeepsCurrent}
use idr.Store.Steps.Committed.{commit-Parts, commit-KeepsCurrent}

-- The last attempt of a reservation, later on: in the reservation of the same action stands an
-- attempt of the same permit, of which `P` holds.
pub record Heir (rs : List Reservation) (r : Reservation) (t : Attempt) (P : Attempt → Type 0)
    : Type 0 where
  pub reservation : Reservation
  pub attempt : Attempt
  pub is_reserved : Elem reservation rs
  pub is_last : last reservation.attempts ≡ some attempt
  pub is_for : reservation.action_ref ≡ r.action_ref
  pub same_permit : attempt.permit_id ≡ t.permit_id
  pub fate : P attempt

-- How an attempt ends whose action is no longer current: cancelled where it was not dispatched, to
-- be reconciled where it was, or in the state that the receipt reports which the step records.
pub data Fate (s : Snapshot) (t t' : Attempt) : Type 0 where
  called_off :
      (t.status ≡ permit_issued) ⊎ (t.status ≡ delivered) → t'.status ≡ cancelled → Fate s t t'
  unresolved : t.status ≡ dispatched → t'.status ≡ reconciliation_required → Fate s t t'
  reported :
      (receipt : ExecutionReceipt)
      → last s.records ≡ some (ContractSnapshot.execution_receipt receipt)
      → receipt.permit_id ≡ t.permit_id
      → t'.status ≡ status_of receipt.state
      → Fate s t t'

-- The attempt is as it was, or abandoned.
abbrev pub Stays : Attempt → Attempt → Type 0
Stays t t' = (t' ≡ t) ⊎ (t'.status ≡ abandoned t.status)

abandon-Heir :
    (keep : Reservation → Bool) (rs : List Reservation) (r : Reservation) (t : Attempt)
    → Elem r rs
    → last r.attempts ≡ some t
    → Heir (map (λ (x : Reservation). if keep x then x else abandon x) rs) r t (Stays t)
abandon-Heir keep rs r t m h =
    let step = λ (x : Reservation). if keep x then x else abandon x in
    let here = Elem-map step r rs m in
    elim (Bool-cases (keep r)) [
      | inl kept ↦ record {
        reservation = r;
        attempt = t;
        is_reserved = subst (λ (x : Reservation). Elem x (map step rs)) (ground arith) here;
        is_last = h;
        is_for = refl;
        same_permit = refl;
        fate = inl refl;
      }
      | inr lost ↦ record {
        reservation = abandon r;
        attempt = record t { status = abandoned t.status };
        is_reserved = subst (λ (x : Reservation). Elem x (map step rs)) (ground arith) here;
        is_last = ground (
          arith,
          last-map_last (λ (a : Attempt). record a { status = abandoned a.status }) r.attempts,
        );
        is_for = refl;
        same_permit = refl;
        fate = inr refl;
      }
    ]

Stays-trans : (t x y : Attempt) → Stays t x → Stays x y → Stays t y
Stays-trans t x y (inl e) (inl k) = inl (k ∙ e)
Stays-trans t x y (inl e) (inr k) = inr (ground arith)
Stays-trans t x y (inr e) (inl k) = inr (ground arith)
Stays-trans t x y (inr e) (inr k) = inr (ground arith)

withdrawn-Heir :
    (stale : ContractRef) (rs : List Reservation) (r : Reservation) (t : Attempt)
    → Elem r rs
    → last r.attempts ≡ some t
    → Heir (invalidate_execution_reservation stale rs) r t (Stays t)
unfolding invalidate_execution_reservation
withdrawn-Heir stale rs r t m h = elim (Bool-cases (stale.kind != action)) [
  | inl other ↦ rw other (record {
    reservation = r;
    attempt = t;
    is_reserved = m;
    is_last = h;
    is_for = refl;
    same_permit = refl;
    fate = inl refl;
  })
  | inr same ↦ rw same (abandon-Heir (λ (x : Reservation). x.action_ref != stale) rs r t m h)
]

-- The heir of an heir.
pub then-Heir :
    {P Q : Attempt → Type 0} (rs rs' : List Reservation) (r : Reservation) (t : Attempt)
    (h : Heir rs r t P) (k : Heir rs' h.reservation h.attempt Q) (R : Attempt → Type 0)
    → R k.attempt
    → Heir rs' r t R
then-Heir rs rs' r t h k R fate = record {
  reservation = k.reservation;
  attempt = k.attempt;
  is_reserved = k.is_reserved;
  is_last = k.is_last;
  is_for = k.is_for ∙ h.is_for;
  same_permit = k.same_permit ∙ h.same_permit;
  fate = fate;
}

module _ (codec : Codec) where
  invalidate-Heir :
      (s u : Snapshot) (stale : ContractRef) (r : Reservation) (t : Attempt)
      → invalidate_dependents codec s stale ≡ ok u
      → Elem r s.execution_reservations
      → last r.attempts ≡ some t
      → Heir u.execution_reservations r t (Stays t)
  unfolding invalidate_dependents reconcile_invalidated_execution_reservations
  invalidate-Heir s u stale r t h m e =
      elim (Result-cases (
        finished (
          invalidate_loop codec s.records s.current_pointers (invalidate_fuel s.current_pointers)
            (stale ∷ []) [] s.invalidated_refs))) [
              | inr (x, k) ↦ absurd (ground arith)
              | inl (result, k) ↦
                  let rs = invalidate_execution_reservation stale s.execution_reservations in
                  let w : Snapshot = record s {
                    invalidated_refs = sort_dedup result;
                    execution_reservations = rs;
                  } in
                  let is_u : reconcile_invalidated_execution_reservations w ≡ u = ground arith in
                  let first = withdrawn-Heir stale s.execution_reservations r t m e in
                  let second =
                    abandon-Heir (λ (x : Reservation). is_current w x.action_ref) rs
                      first.reservation first.attempt first.is_reserved first.is_last in
                  subst (λ (x : Snapshot). Heir x.execution_reservations r t (Stays t)) is_u
                    (then-Heir rs
                      (reconcile_invalidated_execution_reservations w).execution_reservations r t
                      first second (Stays t)
                      (Stays-trans t first.attempt second.attempt first.fate second.fate))
            ]

  pub supersede-Heir :
      (s u : Snapshot) (o : Option ContractRef) (r : Reservation) (t : Attempt)
      → supersede codec s o ≡ ok u
      → Elem r s.execution_reservations
      → last r.attempts ≡ some t
      → Heir u.execution_reservations r t (Stays t)
  supersede-Heir s u none r t h m e =
      let same : s ≡ u = ground arith in
      record {
        reservation = r;
        attempt = t;
        is_reserved = subst (λ (x : Snapshot). Elem r x.execution_reservations) same m;
        is_last = e;
        is_for = refl;
        same_permit = refl;
        fate = inl refl;
      }
  supersede-Heir s u (some p) r t h m e = invalidate-Heir s u p r t h m e
