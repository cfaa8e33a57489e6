-- ===== src/Store/Steps/Fates/Settled.antt =====
-- What the receipt of a commit of crates/idr-store/src/file_store.rs makes of the attempts in flight,
-- and the fate of those whose actions the commit leaves without effect.
use idr.Base.{
  ℕ, ◌≡◌, ◌⊎◌, inl, inr, refl, sym, ap, subst, ◌∙◌, true, false, List, ◌∷◌, ◌++◌, [], Elem,
  map_first, last, Option, none, some, ok, arith, Elem-map_first, last-map_first_forward,
  last-append,
}
use idr.Protocol.Id.{kind_eq, id_eq}
use idr.Protocol.Digest.{Codec}
use idr.Protocol.ContractRef.{ContractRef, contract_ref_eq, contract_ref_ord}
use idr.Protocol.Receipt.{ExecutionReceipt}
use idr.Protocol.Proof.{SignedProofEnvelope}
use idr.Store.Contract.{ContractSnapshot}
use idr.Store.Snapshot.{
  permit_issued, delivered, dispatched, cancelled, reconciliation_required, Attempt, Reservation,
  Snapshot, is_current, pointer_to, ReservationStatus, succeeded, failed, partially_succeeded,
  rejected, compensated, expired,
}
use idr.Store.Invalidation.{abandoned}
use idr.Store.Receipts.{
  apply_execution_receipt_transition, settled, status_of, is_receipt_reservation,
  is_receipt_attempt,
}
use idr.Store.Commit.{ReceiptProof, settle, commit_candidate}
use idr.Store.Steps.InFlight.{in_flight, KeepsCurrent}
use idr.Store.Steps.Committed.{commit-Parts, commit-KeepsCurrent}
use idr.Store.Steps.Fates.{
  Heir, Fate, called_off, unresolved, reported, Stays, then-Heir, supersede-Heir,
}

-- The attempt is as it was, or the commit of a receipt for its permit has settled it.
abbrev Settled : ContractSnapshot → Attempt → Attempt → Type 0
Settled c t t' =
    (t' ≡ t)
    ⊎ ((receipt : ExecutionReceipt) × (c ≡ ContractSnapshot.execution_receipt receipt)
        × (receipt.permit_id ≡ t.permit_id)
        × (t'.status ≡ status_of receipt.state))

receipt-Heir :
    (receipt : ExecutionReceipt) (reference : ContractRef) (envelope : SignedProofEnvelope) (n : ℕ)
    (rs : List Reservation) (r : Reservation) (t : Attempt)
    → Elem r rs
    → last r.attempts ≡ some t
    → Heir
        (map_first
          (is_receipt_reservation receipt)
          (λ (x : Reservation). record x {
            attempts =
                map_first
                  (is_receipt_attempt receipt)
                  (settled receipt reference envelope n)
                  x.attempts;
          })
          rs)
        r
        t
        (Settled (ContractSnapshot.execution_receipt receipt) t)
receipt-Heir receipt reference envelope n rs r t m h =
    let is_its = is_receipt_attempt receipt in
    let change = settled receipt reference envelope n in
    let edit = λ (x : Reservation). record x { attempts = map_first is_its change x.attempts } in
    elim (Elem-map_first (is_receipt_reservation receipt) edit r rs m) [
      | inl old ↦ record {
        reservation = r;
        attempt = t;
        is_reserved = old;
        is_last = h;
        is_for = refl;
        same_permit = refl;
        fate = inl refl;
      }
      | inr (k, new) ↦ elim (last-map_first_forward is_its change r.attempts t h) [
        | inl e ↦ record {
          reservation = edit r;
          attempt = t;
          is_reserved = new;
          is_last = e;
          is_for = refl;
          same_permit = refl;
          fate = inl refl;
        }
        | inr (hit, e) ↦ record {
          reservation = edit r;
          attempt = change t;
          is_reserved = new;
          is_last = e;
          is_for = refl;
          same_permit = refl;
          fate = inr (receipt, refl, ground arith, refl);
        }
      ]
    ]

same-Heir :
    (s u : Snapshot) (r : Reservation) (t : Attempt) (P : Attempt → Type 0)
    → u ≡ s
    → Elem r s.execution_reservations
    → last r.attempts ≡ some t
    → P t
    → Heir u.execution_reservations r t P
same-Heir s u r t P same m e p = record {
  reservation = r;
  attempt = t;
  is_reserved = subst (λ (x : Snapshot). Elem r x.execution_reservations) (sym same) m;
  is_last = e;
  is_for = refl;
  same_permit = refl;
  fate = p;
}

settle-Heir :
    (s u : Snapshot) (c : ContractSnapshot) (reference : ContractRef) (proof : Option ReceiptProof)
    (r : Reservation) (t : Attempt)
    → settle s c reference proof ≡ ok u
    → Elem r s.execution_reservations
    → last r.attempts ≡ some t
    → Heir u.execution_reservations r t (Settled c t)
unfolding apply_execution_receipt_transition
settle-Heir s u (ContractSnapshot.execution_receipt x) reference none r t h m e = cc
settle-Heir s u (ContractSnapshot.execution_receipt x) reference (some (envelope, n)) r t h m e =
    let step : u.execution_reservations
        ≡ map_first (is_receipt_reservation x)
            (λ (y : Reservation). record y {
              attempts =
                  map_first (is_receipt_attempt x) (settled x reference envelope n) y.attempts;
            })
            s.execution_reservations =
      ground arith in
    subst (λ (l : List Reservation). Heir l r t (Settled (ContractSnapshot.execution_receipt x) t))
      (sym step) (receipt-Heir x reference envelope n s.execution_reservations r t m e)
settle-Heir s u (ContractSnapshot.intent _) reference proof r t h m e =
    same-Heir s u r t _ (ground arith) m e (inl refl)
settle-Heir s u (ContractSnapshot.decision _) reference proof r t h m e =
    same-Heir s u r t _ (ground arith) m e (inl refl)
settle-Heir s u (ContractSnapshot.turn_coordination _) reference proof r t h m e =
    same-Heir s u r t _ (ground arith) m e (inl refl)
settle-Heir s u (ContractSnapshot.response _) reference proof r t h m e =
    same-Heir s u r t _ (ground arith) m e (inl refl)
settle-Heir s u (ContractSnapshot.action _) reference proof r t h m e =
    same-Heir s u r t _ (ground arith) m e (inl refl)
settle-Heir s u (ContractSnapshot.outcome _) reference proof r t h m e =
    same-Heir s u r t _ (ground arith) m e (inl refl)
settle-Heir s u (ContractSnapshot.human_model_assertion _) reference proof r t h m e =
    same-Heir s u r t _ (ground arith) m e (inl refl)

settle-records :
    (s u : Snapshot) (c : ContractSnapshot) (reference : ContractRef) (proof : Option ReceiptProof)
    → settle s c reference proof ≡ ok u
    → u.records ≡ s.records
unfolding apply_execution_receipt_transition
settle-records s u (ContractSnapshot.execution_receipt r) reference none h = cc
settle-records s u (ContractSnapshot.execution_receipt r) reference (some p) h = ground arith
settle-records s u (ContractSnapshot.intent _) reference proof h = ground arith
settle-records s u (ContractSnapshot.decision _) reference proof h = ground arith
settle-records s u (ContractSnapshot.turn_coordination _) reference proof h = ground arith
settle-records s u (ContractSnapshot.response _) reference proof h = ground arith
settle-records s u (ContractSnapshot.action _) reference proof h = ground arith
settle-records s u (ContractSnapshot.outcome _) reference proof h = ground arith
settle-records s u (ContractSnapshot.human_model_assertion _) reference proof h = ground arith

-- The fate of an attempt in flight whose action is not current after the commit.
ending :
    (s' : Snapshot) (c : ContractSnapshot) (t x y : Attempt)
    → last s'.records ≡ some c
    → in_flight t.status ≡ true
    → x.permit_id ≡ t.permit_id
    → Stays t x
    → Settled c x y
    → (y ≡ t) ⊎ Fate s' t y
ending s' c t x y l f p (inl e) (inl k) = inl (k ∙ e)
ending s' c t x y l f p (inr e) (inl k) =
    let is_y : y.status ≡ abandoned t.status = ap (λ (z : Attempt). z.status) k ∙ e in
    inr (abandoned-Fate t.status refl)
  where
    abandoned-Fate : (status : ReservationStatus) → t.status ≡ status → Fate s' t y
    abandoned-Fate permit_issued h = called_off (inl h) (ground arith)
    abandoned-Fate delivered h = called_off (inr h) (ground arith)
    abandoned-Fate dispatched h = unresolved h (ground arith)
    abandoned-Fate cancelled h = absurd (ground arith)
    abandoned-Fate reconciliation_required h = absurd (ground arith)
    abandoned-Fate succeeded h = absurd (ground arith)
    abandoned-Fate failed h = absurd (ground arith)
    abandoned-Fate partially_succeeded h = absurd (ground arith)
    abandoned-Fate rejected h = absurd (ground arith)
    abandoned-Fate compensated h = absurd (ground arith)
    abandoned-Fate expired h = absurd (ground arith)
ending s' c t x y l f p stays (inr (receipt, is_c, named, e)) =
    inr (reported receipt (l ∙ ap some is_c) (named ∙ p) e)

-- A commit that leaves an attempt's action without effect ends the attempt.
pub commit-Fate :
    (codec : Codec) (s s' : Snapshot) (c : ContractSnapshot) (reference : ContractRef)
    (proof : Option ReceiptProof) (r : Reservation) (t : Attempt)
    → KeepsCurrent s
    → commit_candidate codec c proof reference s ≡ ok s'
    → Elem r s.execution_reservations
    → last r.attempts ≡ some t
    → in_flight t.status ≡ true
    → is_current s' r.action_ref ≡ false
    → Heir s'.execution_reservations r t (Fate s' t)
commit-Fate codec s s' c reference proof r t k h m e f gone =
    let parts = commit-Parts codec s s' c reference proof h in
    let u = parts.superseded in
    let w = parts.receipted in
    let recorded : Snapshot = record u { records = u.records ++ c ∷ [] } in
    let o = pointer_to s.current_pointers reference in
    let first = supersede-Heir codec s u o r t parts.is_superseded m e in
    let second =
      settle-Heir recorded w c reference proof first.reservation first.attempt parts.is_settled
        first.is_reserved first.is_last in
    let kept : s'.execution_reservations ≡ w.execution_reservations =
      ap (λ (x : Snapshot). x.execution_reservations) parts.is_end in
    let grown : s'.records ≡ u.records ++ c ∷ [] =
      ap (λ (x : Snapshot). x.records) parts.is_end
      ∙ settle-records recorded w c reference proof parts.is_settled in
    let newest : last s'.records ≡ some c = ap last grown ∙ last-append u.records c in
    let here : Elem second.reservation s'.execution_reservations =
      subst (Elem second.reservation) (sym kept) second.is_reserved in
    elim (ending s' c t first.attempt second.attempt newest f first.same_permit first.fate
      second.fate) [
        | inl same ↦ absurd (
            flown (
              (commit-KeepsCurrent codec s s' c reference proof k h).current r.action_ref (record {
                reservation = second.reservation;
                attempt = second.attempt;
                is_reserved = here;
                is_last = second.is_last;
                flies = ap (λ (x : Attempt). in_flight x.status) same ∙ f;
                is_for = second.is_for ∙ first.is_for;
              })))
        | inr fate ↦
            subst (λ (l : List Reservation). Heir l r t (Fate s' t)) (sym kept)
              (then-Heir u.execution_reservations w.execution_reservations r t first second
                (Fate s' t) fate)
      ]
  where
    flown : is_current s' r.action_ref ≡ true → ⊥
    flown now = ground arith
