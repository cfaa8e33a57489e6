-- ===== src/Store/Steps/Issued.antt =====
-- The issue of a permit of crates/idr-store/src/file_store.rs and the attempts in flight.
use idr.Base.{
  ℕ, ◌≡◌, ◌⊎◌, inl, inr, refl, sym, ap, subst, ◌∙◌, true, nat_eq, List, ◌∷◌, ◌++◌, [], Elem,
  map_first, find, find-some, Option, none, some, ok, arith, Option-cases, Result-cases,
  append-Elem, map_first-Elem,
}
use idr.Protocol.Reference.{reference_eq}
use idr.Protocol.Id.{Uuid, kind_eq, action}
use idr.Protocol.Digest.{Codec}
use idr.Protocol.ContractRef
use idr.Protocol.ContractRef.{ContractRef, contract_ref_eq}
use idr.Protocol.Action
use idr.Protocol.Action.{ActionContract}
use idr.Protocol.Permit.{VerifiedPermitRequest}
use idr.Store.Contract.{ContractSnapshot, is_named, record_ref}
use idr.Store.Snapshot.{Attempt, Reservation, Snapshot, is_current, reservation_status_eq}
use idr.Store.Reserve.{
  reserve, place, find_action, action_named, next_attempt, first_reservation, is_conflicting,
  add_attempt,
}
use idr.Store.Commit.Pointers.{OnePointer}
use idr.Store.Steps.InFlight.{Flies, KeepsCurrent}

-- A change of the reservations that lets only one more, current action fly.
module _ (s u : Snapshot) (a0 : ContractRef) where
  flying-KeepsCurrent :
      u.current_pointers ≡ s.current_pointers
      → u.invalidated_refs ≡ s.invalidated_refs
      → ((a : ContractRef)
          → Flies u.execution_reservations a
          → Flies s.execution_reservations a
            ⊎ ((a ≡ a0) × (a0.kind ≡ action) × (is_current s a0 ≡ true)))
      → KeepsCurrent s
      → KeepsCurrent u
  unfolding is_current
  flying-KeepsCurrent ptrs inv origin k = record {
    one = subst OnePointer (sym ptrs) k.one;
    is_action = λ a f. elim (origin a f) [
      | inl g ↦ k.is_action a g
      | inr (e, kind, _) ↦ ap (λ (x : ContractRef). x.kind) e ∙ kind
    ];
    current = λ a f. elim (origin a f) [
      | inl g ↦ ground (arith, k.current a g, ptrs, inv)
      | inr (e, _, current) ↦ ground (arith, e, current, ptrs, inv)
    ];
  }

module _ (codec : Codec) where
  found-action :
      (records : List ContractSnapshot) (reference : ContractRef) (a : ActionContract)
      → find_action codec records reference ≡ ok a
      → reference.kind ≡ action
  unfolding find_action is_named record_ref Action.record_ref ContractRef.new
  found-action records reference a h =
      elim (Option-cases (find (action_named codec reference) records)) [
        | inl e ↦ absurd (ground arith)
        | inr (c, e) ↦ ground (arith, find-some (action_named codec reference) c records e)
      ]

pub old_flight :
    (rs rs' : List Reservation) (b : ContractRef) (f : Flies rs' b)
    → Elem f.reservation rs
    → Flies rs b
old_flight rs rs' b f m = record {
  reservation = f.reservation;
  attempt = f.attempt;
  is_reserved = m;
  is_last = f.is_last;
  flies = f.flies;
  is_for = f.is_for;
}

place-Flies :
    (minted id : Uuid) (reference b : ContractRef) (a : ActionContract) (t : Attempt)
    (rs rs' : List Reservation) (o : Option Reservation)
    → find (is_conflicting reference a) rs ≡ o
    → place minted reference a t rs o ≡ ok (rs', id)
    → Flies rs' b
    → Flies rs b ⊎ (b ≡ reference)
unfolding place
place-Flies minted id reference b a t rs rs' none e h f =
    let step : rs' ≡ rs ++ first_reservation minted reference a t ∷ [] = ground arith in
    elim ((append-Elem f.reservation rs (first_reservation minted reference a t ∷ [])).0
      (subst (Elem f.reservation) step f.is_reserved)) [
        | inl m ↦ inl (old_flight rs rs' b f m)
        | inr (inl same) ↦ inr (sym f.is_for ∙ ap (λ (r : Reservation). r.action_ref) same)
        | inr (inr none_left) ↦ absurd none_left
      ]
place-Flies minted id reference b a t rs rs' (some r) e h f =
    let step : rs' ≡ map_first (is_conflicting reference a) (add_attempt t) rs = ground arith in
    let owned : r.action_ref ≡ reference = ground arith in
    elim (map_first-Elem (is_conflicting reference a) (add_attempt t) f.reservation rs
      (subst (Elem f.reservation) step f.is_reserved)) [
        | inl m ↦ inl (old_flight rs rs' b f m)
        | inr (x, found, same) ↦
            let is_r : x ≡ r = ground arith in
            inr (
              sym f.is_for
              ∙ ap (λ (y : Reservation). y.action_ref) same
              ∙ ap (λ (y : Reservation). y.action_ref) is_r
              ∙ owned)
      ]

-- What a candidate of `issue_execution_permit` is made of.
record Issued (codec : Codec) (s u : Snapshot) (minted id : Uuid) (v : VerifiedPermitRequest)
    (now : ℕ) : Type 0 where
  is_current_action : is_current s v.request.action_ref ≡ true
  contract : ActionContract
  is_found : find_action codec s.records v.request.action_ref ≡ ok contract
  reservations : List Reservation
  is_placed :
      place minted v.request.action_ref contract
        (next_attempt v now)
        s.execution_reservations
        (find (is_conflicting v.request.action_ref contract) s.execution_reservations)
      ≡ ok (reservations, id)
  is_end : u ≡ record s { execution_reservations = reservations }

reserve-Issued :
    (codec : Codec) (s u : Snapshot) (minted id : Uuid) (v : VerifiedPermitRequest) (now : ℕ)
    → reserve codec minted v now s ≡ ok (u, id)
    → Issued codec s u minted id v now
unfolding reserve
reserve-Issued codec s u minted id v now h =
    elim (Result-cases (find_action codec s.records v.request.action_ref)) [
      | inr (x, e) ↦ absurd (ground arith)
      | inl (a, e) ↦
          elim (Result-cases (
            place minted v.request.action_ref a (next_attempt v now) s.execution_reservations
              (find (is_conflicting v.request.action_ref a) s.execution_reservations))) [
                | inr (x, k) ↦ absurd (ground arith)
                | inl ((rs, i), k) ↦ record {
                  is_current_action = ground arith;
                  contract = a;
                  is_found = e;
                  reservations = rs;
                  is_placed = ground arith;
                  is_end = ground arith;
                }
              ]
    ]

pub issue-KeepsCurrent :
    (codec : Codec) (s u : Snapshot) (minted id : Uuid) (v : VerifiedPermitRequest) (now : ℕ)
    → KeepsCurrent s
    → reserve codec minted v now s ≡ ok (u, id)
    → KeepsCurrent u
issue-KeepsCurrent codec s u minted id v now k h =
    let i = reserve-Issued codec s u minted id v now h in
    let kind = found-action codec s.records v.request.action_ref i.contract i.is_found in
    flying-KeepsCurrent s u v.request.action_ref
      (ap (λ (x : Snapshot). x.current_pointers) i.is_end)
      (ap (λ (x : Snapshot). x.invalidated_refs) i.is_end)
      (λ b f.
        elim (place-Flies minted id v.request.action_ref b i.contract (next_attempt v now)
          s.execution_reservations i.reservations
          (find (is_conflicting v.request.action_ref i.contract) s.execution_reservations) refl
          i.is_placed (subst (λ (x : Snapshot). Flies x.execution_reservations b) i.is_end f)) [
            | inl g ↦ inl g
            | inr e ↦ inr (e, kind, i.is_current_action)
          ])
      k
