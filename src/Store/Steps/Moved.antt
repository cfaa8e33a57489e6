-- ===== src/Store/Steps/Moved.antt =====
-- The marks on a permit of crates/idr-store/src/file_store.rs, its recovery, and the attempts in
-- flight.
use idr.Base.{
  ℕ, ◌≡◌, inl, inr, sym, ap, subst, ◌∙◌, Bool, true, false, ◌==◌, nat_eq, map_first, map_last, last,
  find, find-some, Option, some, ok, arith, Option-cases, Result-cases, map_first-Elem,
  last-map_last,
}
use idr.Protocol.Reference.{Reference, reference_eq}
use idr.Protocol.Id.{Uuid, kind_eq}
use idr.Protocol.ContractRef.{ContractRef, contract_ref_eq}
use idr.Store.Error.{StoreError}
use idr.Store.Snapshot.{
  ReservationStatus, Attempt, Reservation, Snapshot, ExecutionPermit, is_current,
  reservation_status_eq,
}
use idr.Store.Permits.{
  Change, changed, change_attempt, permit_transition, permit_recovery, locate, judge_transition,
}
use idr.Store.Steps.InFlight.{in_flight, Flies, KeepsCurrent}
use idr.Store.Steps.{Marks, delivery, dispatch}
use idr.Store.Steps.Issued.{old_flight}

-- A change of an attempt that flies only where it flew before.
pub change-KeepsCurrent :
    (s : Snapshot) (id : Uuid) (f : Attempt → Attempt)
    → ((r : Reservation) (t : Attempt)
        → find (λ (x : Reservation). x.reservation_id == id) s.execution_reservations ≡ some r
        → last r.attempts ≡ some t
        → in_flight (f t).status ≡ true
        → in_flight t.status ≡ true)
    → KeepsCurrent s
    → KeepsCurrent (change_attempt id f s)
unfolding change_attempt
change-KeepsCurrent s id f lands k =
    let named = λ (x : Reservation). x.reservation_id == id in
    let edit = λ (x : Reservation). record x { attempts = map_last f x.attempts } in
    let rs = s.execution_reservations in
    let origin : (b : ContractRef) → Flies (map_first named edit rs) b → Flies rs b = λ b g.
      elim (map_first-Elem named edit g.reservation rs g.is_reserved) [
        | inl m ↦ old_flight rs (map_first named edit rs) b g m
        | inr (r, found, same) ↦
            let after : last (map_last f r.attempts) ≡ some g.attempt =
              ap (λ (y : Reservation). last y.attempts) (sym same) ∙ g.is_last in
            elim (Option-cases (last r.attempts)) [
              | inl e ↦ absurd (ground (arith, last-map_last f r.attempts))
              | inr (t, e) ↦
                  let is_ft : g.attempt ≡ f t = ground (arith, last-map_last f r.attempts) in
                  record {
                    reservation = r;
                    attempt = t;
                    is_reserved = (find-some named r rs found).0;
                    is_last = e;
                    flies =
                        lands r t found e
                          (ap (λ (y : Attempt). in_flight y.status) (sym is_ft) ∙ g.flies);
                    is_for = ap (λ (y : Reservation). y.action_ref) (sym same) ∙ g.is_for;
                  }
            ]
      ] in
    record {
      one = k.one;
      is_action = λ b g. k.is_action b (origin b g);
      current = λ b g. unfold is_current in k.current b (origin b g);
    }

judged-lands :
    (b : Bool) (now : ℕ) (expected to : ReservationStatus) (t : Attempt) (f : Attempt → Attempt)
    (e : Option StoreError)
    → Marks expected to
    → judge_transition b now expected to t ≡ ok (changed f e)
    → in_flight (f t).status ≡ true
    → in_flight t.status ≡ true
unfolding judge_transition
judged-lands b now expected to t f e (delivery p q) h l = ground arith
judged-lands b now expected to t f e (dispatch p q) h l = ground arith

-- What an operation on a permit locates.
record Located (s : Snapshot) (r : Reservation) (t : Attempt) : Type 0 where
  is_reservation :
      find (λ (x : Reservation). x.reservation_id == r.reservation_id) s.execution_reservations
      ≡ some r
  is_last : last r.attempts ≡ some t

transition-Located :
    (s : Snapshot) (permit : ExecutionPermit) (expected to : ReservationStatus) (now : ℕ)
    (r : Reservation) (change : Change)
    → permit_transition permit expected to now s ≡ ok (r, change)
    → (t : Attempt) × Located s r t
      × (judge_transition (is_current s r.action_ref) now expected to t ≡ ok change)
unfolding permit_transition locate
transition-Located s permit expected to now r change h =
    let p = λ (x : Reservation). x.reservation_id == permit.reservation_id in
    elim (Option-cases (find p s.execution_reservations)) [
      | inl e ↦ absurd (ground arith)
      | inr (x, e) ↦ elim (Option-cases (last x.attempts)) [
        | inl k ↦ absurd (ground arith)
        | inr (t, k) ↦
            elim (Result-cases (judge_transition (is_current s x.action_ref) now expected to t)) [
              | inr (y, j) ↦ absurd (ground arith)
              | inl (c, j) ↦
                  let is_r : x ≡ r = ground arith in
                  let named : permit.reservation_id ≡ r.reservation_id =
                    ground (arith, find-some p x s.execution_reservations e) in
                  (
                    t,
                    record {
                      is_reservation =
                          subst
                            (λ (i : Uuid).
                              find (λ (y : Reservation). y.reservation_id == i)
                                s.execution_reservations
                              ≡ some r)
                            named (e ∙ ap some is_r);
                      is_last = ap (λ (y : Reservation). last y.attempts) (sym is_r) ∙ k;
                    },
                    ground arith,
                  )
            ]
      ]
    ]

pub transition-KeepsCurrent :
    (s : Snapshot) (permit : ExecutionPermit) (expected to : ReservationStatus) (now : ℕ)
    (r : Reservation) (f : Attempt → Attempt) (e : Option StoreError)
    → Marks expected to
    → permit_transition permit expected to now s ≡ ok (r, changed f e)
    → KeepsCurrent s
    → KeepsCurrent (change_attempt r.reservation_id f s)
transition-KeepsCurrent s permit expected to now r f e m h k =
    let (t, located, judged) = transition-Located s permit expected to now r (changed f e) h in
    change-KeepsCurrent s r.reservation_id f
      (λ x y found is_last flies.
        let is_r : x ≡ r = ground (arith, located.is_reservation) in
        let is_t : y ≡ t =
          ground (arith, located.is_last, ap (λ (z : Reservation). last z.attempts) is_r) in
        subst (λ (z : Attempt). in_flight z.status ≡ true) (sym is_t)
          (judged-lands (is_current s r.action_ref) now expected to t f e m judged
            (subst (λ (z : Attempt). in_flight (f z).status ≡ true) is_t flies)))
      k

pub recovery-expires :
    (s : Snapshot) (action_ref : ContractRef) (owner_ref : Reference) (now : ℕ) (r : Reservation)
    (t x : Attempt) (f : Attempt → Attempt) (e : Option StoreError)
    → permit_recovery action_ref owner_ref now s ≡ ok (r, t, changed f e)
    → in_flight (f x).status ≡ false
unfolding permit_recovery
recovery-expires s action_ref owner_ref now r t x f e h =
    elim (Result-cases (locate (λ (r : Reservation). r.action_ref == action_ref) s)) [
      | inr (y, k) ↦ absurd (ground arith)
      | inl ((q, z), k) ↦ ground arith
    ]
