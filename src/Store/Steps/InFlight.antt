-- ===== src/Store/Steps/InFlight.antt =====
-- Which actions have an attempt in flight, and what changes of the reservations leave of them.
use idr.Base.{
  ◌≡◌, inl, inr, sym, ap, ◌∙◌, Bool, true, false, if◌then◌else◌, List, Elem, map, last, some, arith,
  Bool-cases, Option-cases, map-Elem, last-map_last,
}
use idr.Protocol.Id.{action}
use idr.Protocol.ContractRef.{ContractRef}
use idr.Store.Snapshot.{
  ReservationStatus, permit_issued, delivered, dispatched, Attempt, Reservation, Snapshot,
  is_current,
}
use idr.Store.Invalidation.{abandoned, abandon}
use idr.Store.Commit.Pointers.{OnePointer}

-- The provider may yet act on the permit.
abbrev pub in_flight : ReservationStatus → Bool
in_flight permit_issued = true
in_flight delivered = true
in_flight dispatched = true
in_flight _ = false

-- The last attempt of a reservation of the action is in flight.
pub record Flies (reservations : List Reservation) (a : ContractRef) : Type 0 where
  pub reservation : Reservation
  pub attempt : Attempt
  pub is_reserved : Elem reservation reservations
  pub is_last : last reservation.attempts ≡ some attempt
  pub flies : in_flight attempt.status ≡ true
  pub is_for : reservation.action_ref ≡ a

-- What is in flight is an action, and it is current.
pub record KeepsCurrent (s : Snapshot) : Type 0 where
  pub one : OnePointer s.current_pointers
  pub is_action : (a : ContractRef) → Flies s.execution_reservations a → a.kind ≡ action
  pub current : (a : ContractRef) → Flies s.execution_reservations a → is_current s a ≡ true

abandoned-lands : (status : ReservationStatus) → in_flight (abandoned status) ≡ false
abandoned-lands status = ground arith

pub abandon-lands :
    (r : Reservation) (t : Attempt)
    → last (abandon r).attempts ≡ some t
    → in_flight t.status ≡ false
abandon-lands r t h = elim (Option-cases (last r.attempts)) [
  | inl e ↦ absurd (
      ground (
        arith,
        last-map_last (λ (a : Attempt). record a { status = abandoned a.status }) r.attempts,
      ))
  | inr (x, e) ↦ ground (
    arith,
    last-map_last (λ (a : Attempt). record a { status = abandoned a.status }) r.attempts,
    abandoned-lands x.status,
  )
]

-- A change of the reservations that some pass the test of and others not: what it leaves in flight
-- did not pass, and was in flight before.
pub map-Flies :
    (keep : Reservation → Bool) (rs : List Reservation) (a : ContractRef)
    → Flies (map (λ (r : Reservation). if keep r then r else abandon r) rs) a
    → (r : Reservation) × Elem r rs × (keep r ≡ true) × (r.action_ref ≡ a) × Flies rs a
map-Flies keep rs a f =
    let (x, m, e) =
      map-Elem (λ (r : Reservation). if keep r then r else abandon r) f.reservation rs
        f.is_reserved in
    elim (Bool-cases (keep x)) [
      | inr lost ↦ absurd (ground (arith, abandon-lands x f.attempt, f.is_last, f.flies))
      | inl kept ↦
          let same : f.reservation ≡ x = ground arith in
          let is_for : x.action_ref ≡ a =
            ap (λ (r : Reservation). r.action_ref) (sym same) ∙ f.is_for in
          (
            x,
            m,
            kept,
            is_for,
            record {
              reservation = x;
              attempt = f.attempt;
              is_reserved = m;
              is_last = ap (λ (r : Reservation). last r.attempts) (sym same) ∙ f.is_last;
              flies = f.flies;
              is_for = is_for;
            },
          )
    ]
