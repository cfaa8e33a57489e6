-- ===== src/Store/Steps/Withdrawn.antt =====
-- What an invalidation and a receipt of crates/idr-store/src/file_store.rs do to the attempts in
-- flight.
use idr.Base.{
  ℕ, ◌≡◌, ◌≢◌, inl, inr, sym, ap, subst, ◌∙◌, true, false, ◌!=◌, if◌then◌else◌, List, ◌∷◌, [], map,
  map_first, last, find-some, Option, none, some, ok, arith, Bool-cases, Result-cases,
  map_first-Elem, last-map_first, sort_dedup,
}
use idr.Protocol.Id.{kind_eq, id_eq, action}
use idr.Protocol.Digest.{Codec}
use idr.Protocol.ContractRef.{ContractRef, contract_ref_eq, contract_ref_ord}
use idr.Protocol.Receipt.{ExecutionReceipt, ExecutionState}
use idr.Protocol.Proof.{SignedProofEnvelope}
use idr.Store.Contract.{ContractSnapshot}
use idr.Store.Snapshot.{Reservation, Snapshot, is_current}
use idr.Store.Invalidation.{
  invalidate_dependents, invalidate_execution_reservation, invalidate_loop, invalidate_fuel,
  finished, reconcile_invalidated_execution_reservations, abandon,
}
use idr.Store.Receipts.{
  apply_execution_receipt_transition, settled, status_of, is_receipt_reservation,
  is_receipt_attempt,
}
use idr.Store.Commit.{ReceiptProof, settle}
use idr.Store.Steps.InFlight.{in_flight, Flies, map-Flies}

withdrawn-Flies :
    (stale a : ContractRef) (rs : List Reservation)
    → Flies (invalidate_execution_reservation stale rs) a
    → Flies rs a × (stale.kind ≡ action → a ≢ stale)
unfolding invalidate_execution_reservation
withdrawn-Flies stale a rs f = elim (Bool-cases (stale.kind != action)) [
  | inl other ↦ (subst (λ (l : List Reservation). Flies l a) (ground arith) f, (λ k. ground arith))
  | inr same ↦
      let step : invalidate_execution_reservation stale rs
          ≡ map (λ (r : Reservation). if r.action_ref != stale then r else abandon r) rs =
        ground arith in
      let (r, m, kept, is_for, g) =
        map-Flies (λ (r : Reservation). r.action_ref != stale) rs a
          (subst (λ (l : List Reservation). Flies l a) step f) in
      (g, λ k e. ground arith)
]

module _ (codec : Codec) where
  pub invalidate-Flies :
      (s u : Snapshot) (stale a : ContractRef)
      → invalidate_dependents codec s stale ≡ ok u
      → Flies u.execution_reservations a
      → Flies s.execution_reservations a
        × (is_current u a ≡ true)
        × (stale.kind ≡ action → a ≢ stale)
        × (u.current_pointers ≡ s.current_pointers)
  unfolding invalidate_dependents reconcile_invalidated_execution_reservations
  invalidate-Flies s u stale a h f =
      elim (Result-cases (
        finished (
          invalidate_loop codec s.records s.current_pointers (invalidate_fuel s.current_pointers)
            (stale ∷ []) [] s.invalidated_refs))) [
              | inr (x, e) ↦ absurd (ground arith)
              | inl (result, e) ↦
                  let m : Snapshot = record s {
                    invalidated_refs = sort_dedup result;
                    execution_reservations =
                        invalidate_execution_reservation stale s.execution_reservations;
                  } in
                  let is_u : reconcile_invalidated_execution_reservations m ≡ u = ground arith in
                  let (r, k, kept, is_for, g) =
                    map-Flies (λ (r : Reservation). is_current m r.action_ref)
                      m.execution_reservations a
                      (subst (λ (x : Snapshot). Flies x.execution_reservations a) (sym is_u) f) in
                  let (g', apart) = withdrawn-Flies stale a s.execution_reservations g in
                  (
                    g',
                    subst (λ (x : Snapshot). is_current x a ≡ true) is_u
                        (unfold is_current in
                          subst (λ (b : ContractRef). is_current m b ≡ true) is_for kept),
                    apart,
                    ap (λ (x : Snapshot). x.current_pointers) (sym is_u),
                  )
            ]

settled-lands : (state : ExecutionState) → in_flight (status_of state) ≡ false
settled-lands state = ground arith

settle_receipt-Flies :
    (receipt : ExecutionReceipt) (reference a : ContractRef) (envelope : SignedProofEnvelope)
    (t : ℕ) (rs : List Reservation)
    → Flies
        (map_first
          (is_receipt_reservation receipt)
          (λ (x : Reservation). record x {
            attempts =
                map_first
                  (is_receipt_attempt receipt)
                  (settled receipt reference envelope t)
                  x.attempts;
          })
          rs)
        a
    → Flies rs a
settle_receipt-Flies receipt reference a envelope t rs f =
    elim (map_first-Elem (is_receipt_reservation receipt)
      (λ (x : Reservation). record x {
        attempts =
            map_first (is_receipt_attempt receipt) (settled receipt reference envelope t)
              x.attempts;
      })
      f.reservation rs f.is_reserved) [
        | inl old ↦ record {
          reservation = f.reservation;
          attempt = f.attempt;
          is_reserved = old;
          is_last = f.is_last;
          flies = f.flies;
          is_for = f.is_for;
        }
        | inr (x, found, e) ↦
            let is_last : last (
                  map_first (is_receipt_attempt receipt) (settled receipt reference envelope t)
                    x.attempts)
                ≡ some f.attempt =
              ap (λ (r : Reservation). last r.attempts) (sym e) ∙ f.is_last in
            elim (last-map_first (is_receipt_attempt receipt) (settled receipt reference envelope t)
              x.attempts f.attempt is_last) [
                | inl same ↦ record {
                  reservation = x;
                  attempt = f.attempt;
                  is_reserved = (find-some (is_receipt_reservation receipt) x rs found).0;
                  is_last = same;
                  flies = f.flies;
                  is_for = ap (λ (r : Reservation). r.action_ref) (sym e) ∙ f.is_for;
                }
                | inr (y, was, hit, e') ↦
                    absurd (ground (arith, settled-lands receipt.state, f.flies))
              ]
      ]

-- What a settling leaves in flight, and what it leaves alone.
abbrev Settles : Snapshot → Snapshot → ContractRef → Type 0
Settles s u a =
    Flies s.execution_reservations a
    × (u.current_pointers ≡ s.current_pointers)
    × (u.invalidated_refs ≡ s.invalidated_refs)

same-Settles :
    (s u : Snapshot) (a : ContractRef) → u ≡ s → Flies u.execution_reservations a → Settles s u a
same-Settles s u a e f = (
  subst (λ (x : Snapshot). Flies x.execution_reservations a) e f,
  ap (λ (x : Snapshot). x.current_pointers) e,
  ap (λ (x : Snapshot). x.invalidated_refs) e,
)

pub settle-Settles :
    (s u : Snapshot) (c : ContractSnapshot) (reference a : ContractRef)
    (proof : Option ReceiptProof)
    → settle s c reference proof ≡ ok u
    → Flies u.execution_reservations a
    → Settles s u a
unfolding apply_execution_receipt_transition
settle-Settles s u (ContractSnapshot.execution_receipt r) reference a none h f = cc
settle-Settles s u (ContractSnapshot.execution_receipt r) reference a (some (envelope, t)) h f =
    let step : u.execution_reservations
        ≡ map_first (is_receipt_reservation r)
            (λ (x : Reservation). record x {
              attempts =
                  map_first (is_receipt_attempt r) (settled r reference envelope t) x.attempts;
            })
            s.execution_reservations =
      ground arith in
    (
      settle_receipt-Flies r reference a envelope t s.execution_reservations
          (subst (λ (l : List Reservation). Flies l a) step f),
      ground arith,
      ground arith,
    )
settle-Settles s u (ContractSnapshot.intent _) reference a proof h f =
    same-Settles s u a (ground arith) f
settle-Settles s u (ContractSnapshot.decision _) reference a proof h f =
    same-Settles s u a (ground arith) f
settle-Settles s u (ContractSnapshot.turn_coordination _) reference a proof h f =
    same-Settles s u a (ground arith) f
settle-Settles s u (ContractSnapshot.response _) reference a proof h f =
    same-Settles s u a (ground arith) f
settle-Settles s u (ContractSnapshot.action _) reference a proof h f =
    same-Settles s u a (ground arith) f
settle-Settles s u (ContractSnapshot.outcome _) reference a proof h f =
    same-Settles s u a (ground arith) f
settle-Settles s u (ContractSnapshot.human_model_assertion _) reference a proof h f =
    same-Settles s u a (ground arith) f
