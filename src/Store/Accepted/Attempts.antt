-- ===== src/Store/Accepted/Attempts.antt =====
-- crates/idr-store/src/file_store.rs: the loops of `validate_snapshot` over the reservations and
-- their attempts.
use idr.Base.{
  ℕ, ◌+◌, ◌≡◌, ◌↔◌, ◌⊎◌, inl, inr, refl, subst, sym, true, false, List, [], ◌∷◌, ◌++◌, map,
  is_empty, Elem, Distinct, contains_iff, ok, arith, Result-cases, append-Elem, Distinct-append, Eq,
  Text, text_eq, nat_eq,
}
use mathlib.Core.List.{map-append}
use idr.Protocol.Id.{Uuid, ProofId, id_eq}
use idr.Protocol.Digest.{Codec}
use idr.Protocol.ContractRef.{ContractRef, contract_ref_eq}
use idr.Protocol.Action.{ActionContract}
use idr.Store.Contract.{ContractSnapshot}
use idr.Store.Snapshot.{permits_retry, Attempt, Reservation, record_of}
use idr.Store.Validity.Reservations.{
  Seen, check_attempts, check_reservations, misattributed, is_reused, check_receipt_ref,
  see_attempt, see_reservation, stored_action, misreserved,
}

-- The attempts are numbered upwards, and each but the last permits a retry.
abbrev pub Numbered : ℕ → List Attempt → Type 0
Numbered n [] = Unit {0}
Numbered n (t ∷ ts) =
    (t.attempt ≡ n) × (is_empty ts ≡ false → permits_retry t.status ≡ true) × Numbered (n + 1) ts

abbrev pub action_of : Reservation → ContractRef
action_of r = r.action_ref

abbrev pub proof_of : Attempt → ProofId
proof_of t = t.proof_id

abbrev pub nonce_of : Attempt → Text
nonce_of t = t.proof_nonce

abbrev pub authorization_of : Attempt → Uuid
authorization_of t = t.authorization.authorization_id

-- The attempts of all reservations.
abbrev pub all_attempts : List Reservation → List Attempt
all_attempts [] = []
all_attempts (r ∷ rs) = r.attempts ++ all_attempts rs

module _ (codec : Codec) (hyphenated : Uuid → Text) (records : List ContractSnapshot) where
  misattributed-number :
      (t : Attempt) (a : ActionContract) (r : Reservation) (n : ℕ)
      → misattributed t t.permit_proof_envelope.claims a r n ≡ false
      → t.attempt ≡ n
  unfolding misattributed
  misattributed-number t a r n h = ground arith

  attempts-step :
      (a : ActionContract) (r : Reservation) (i : ℕ) (t : Attempt) (ts : List Attempt)
      (seen seen' : Seen)
      → check_attempts codec hyphenated records a r i (t ∷ ts) seen ≡ ok seen'
      → (check_attempts codec hyphenated records a r (i + 1) ts (see_attempt seen t) ≡ ok seen')
        × (is_reused seen t ≡ false)
        × (misattributed t t.permit_proof_envelope.claims a r (i + 1) ≡ false)
        × (is_empty ts ≡ false → permits_retry t.status ≡ true)
  unfolding check_attempts
  attempts-step a r i t ts seen seen' h =
      elim (Result-cases (check_receipt_ref codec hyphenated records r t t.receipt_ref)) [
        | inr (x, e) ↦ absurd (ground arith)
        | inl (u, e) ↦ (ground arith, ground arith, ground arith, λ k. ground arith)
      ]

  pub attempts-Numbered :
      (a : ActionContract) (r : Reservation) (i : ℕ) (ts : List Attempt) (seen seen' : Seen)
      → check_attempts codec hyphenated records a r i ts seen ≡ ok seen'
      → Numbered (i + 1) ts
  attempts-Numbered a r i [] seen seen' h = tt
  attempts-Numbered a r i (t ∷ ts) seen seen' h =
      let (rest, _, number, retried) = attempts-step a r i t ts seen seen' h in
      (
        misattributed-number t a r (i + 1) number,
        retried,
        attempts-Numbered a r (i + 1) ts (see_attempt seen t) seen' rest,
      )

  reservation-step :
      (r : Reservation) (rs : List Reservation) (seen : Seen)
      → check_reservations codec hyphenated records (r ∷ rs) seen ≡ ok tt
      → (a : ActionContract) × (seen' : Seen) × (check_attempts codec hyphenated records a r 0
            r.attempts
            (see_reservation seen r)
          ≡ ok seen')
        × (check_reservations codec hyphenated records rs seen' ≡ ok tt)
        × (misreserved r a seen ≡ false)
  unfolding check_reservations
  reservation-step r rs seen h =
      elim (Result-cases (stored_action (record_of codec records r.action_ref))) [
        | inr (x, e) ↦ absurd (ground arith)
        | inl (a, e) ↦
            elim (Result-cases
              (check_attempts codec hyphenated records a r 0 r.attempts (see_reservation seen r))) [
                | inr (x, k) ↦ absurd (ground arith)
                | inl (seen', k) ↦ (a, seen', k, ground arith, ground arith)
              ]
      ]

  -- A key of an attempt whose values the loop collects.
  module _ {K : Type 0} ⦃eq : Eq K⦄ (key : Attempt → K) (kept : Seen → List K)
      (kept_attempt : (seen : Seen) (t : Attempt) → kept (see_attempt seen t) ≡ key t ∷ kept seen)
      (kept_reservation : (seen : Seen) (r : Reservation)
        → kept (see_reservation seen r) ≡ kept seen)
      (kept_fresh : (seen : Seen) (t : Attempt)
        → is_reused seen t ≡ false
        → Elem (key t) (kept seen)
        → ⊥) where
    -- What a part of the loop collects.
    Collects : List K → Seen → Seen → Type 0
    Collects ks seen seen' =
        Distinct ks
        × ((k : K) → Elem k ks → Elem k (kept seen) → ⊥)
        × ((k : K) → Elem k (kept seen') ↔ (Elem k (kept seen) ⊎ Elem k ks))

    attempts-Collects :
        (a : ActionContract) (r : Reservation) (i : ℕ) (ts : List Attempt) (seen seen' : Seen)
        → check_attempts codec hyphenated records a r i ts seen ≡ ok seen'
        → Collects (map key ts) seen seen'
    unfolding Collects
    attempts-Collects a r i [] seen seen' h =
        let same : seen ≡ seen' = unfold check_attempts in ground arith in
        (
          tt,
          (λ k m. absurd m),
          λ k. (
            (λ m. inl (subst (λ (s : Seen). Elem k (kept s)) (sym same) m)),
            λ m. elim m [ inl o ↦ subst (λ (s : Seen). Elem k (kept s)) same o | inr o ↦ absurd o ],
          ),
        )
    attempts-Collects a r i (t ∷ ts) seen seen' h =
        let (rest, fresh, _, _) = attempts-step a r i t ts seen seen' h in
        let (distinct, apart, collected) =
          attempts-Collects a r (i + 1) ts (see_attempt seen t) seen' rest in
        let grown = kept_attempt seen t in
        (
          ((λ m. apart (key t) m (subst (Elem (key t)) (sym grown) (inl refl))), distinct),
          (λ k m o. elim m [
            | inl e ↦ kept_fresh seen t fresh (subst (λ (x : K). Elem x (kept seen)) e o)
            | inr n ↦ apart k n (subst (Elem k) (sym grown) (inr o))
          ]),
          λ k. (
            (λ m. elim ((collected k).0 m) [
              | inr n ↦ inr (inr n)
              | inl o ↦
                  let o' : Elem k (key t ∷ kept seen) = subst (Elem k) grown o in
                  elim o' [ inl e ↦ inr (inl e) | inr n ↦ inl n ]
            ]),
            λ m. (collected k).1 (elim m [
              | inl o ↦ inl (subst (Elem k) (sym grown) (inr o))
              | inr (inl e) ↦ inl (subst (Elem k) (sym grown) (inl e))
              | inr (inr n) ↦ inr n
            ]),
          ),
        )

    pub reservations-Distinct :
        (rs : List Reservation) (seen : Seen)
        → check_reservations codec hyphenated records rs seen ≡ ok tt
        → Distinct (map key (all_attempts rs))
          × ((k : K) → Elem k (map key (all_attempts rs)) → Elem k (kept seen) → ⊥)
    unfolding Collects
    reservations-Distinct [] seen h = (tt, λ k m. absurd m)
    reservations-Distinct (r ∷ rs) seen h =
        let (a, seen', own, rest, _) = reservation-step r rs seen h in
        let (d, apart, collected) =
          attempts-Collects a r 0 r.attempts (see_reservation seen r) seen' own in
        let (d', apart') = reservations-Distinct rs seen' rest in
        let whole = map-append key r.attempts (all_attempts rs) in
        let same = kept_reservation seen r in
        (
          subst Distinct (sym whole) (
              Distinct-append (map key r.attempts) (map key (all_attempts rs)) d d'
                (λ k m n. apart' k n ((collected k).1 (inr m)))),
          λ k m o.
              elim ((append-Elem k (map key r.attempts) (map key (all_attempts rs))).0
                (subst (Elem k) whole m)) [
                  | inl n ↦ apart k n (subst (Elem k) (sym same) o)
                  | inr n ↦ apart' k n ((collected k).1 (inl (subst (Elem k) (sym same) o)))
                ],
        )

  attempts-reserved :
      (a : ActionContract) (r : Reservation) (i : ℕ) (ts : List Attempt) (seen seen' : Seen)
      → check_attempts codec hyphenated records a r i ts seen ≡ ok seen'
      → seen.reserved_actions ≡ seen'.reserved_actions
  attempts-reserved a r i [] seen seen' h = unfold check_attempts in ground arith
  attempts-reserved a r i (t ∷ ts) seen seen' h =
      let (rest, _, _, _) = attempts-step a r i t ts seen seen' h in
      attempts-reserved a r (i + 1) ts (see_attempt seen t) seen' rest

  misreserved-fresh :
      (r : Reservation) (a : ActionContract) (seen : Seen)
      → misreserved r a seen ≡ false
      → Elem r.action_ref seen.reserved_actions
      → ⊥
  unfolding misreserved
  misreserved-fresh r a seen h m =
      let found = (contains_iff seen.reserved_actions r.action_ref).1 m in absurd (ground arith)

  pub reservations-actions :
      (rs : List Reservation) (seen : Seen)
      → check_reservations codec hyphenated records rs seen ≡ ok tt
      → Distinct (map action_of rs)
        × ((k : ContractRef) → Elem k (map action_of rs) → Elem k seen.reserved_actions → ⊥)
  reservations-actions [] seen h = (tt, λ k m. absurd m)
  reservations-actions (r ∷ rs) seen h =
      let (a, seen', own, rest, fresh) = reservation-step r rs seen h in
      let (d, apart) = reservations-actions rs seen' rest in
      let same = attempts-reserved a r 0 r.attempts (see_reservation seen r) seen' own in
      (
        ((λ m. apart r.action_ref m (subst (Elem r.action_ref) same (inl refl))), d),
        λ k m o. elim m [
          | inl e ↦
              misreserved-fresh r a seen fresh
                (subst (λ (x : ContractRef). Elem x seen.reserved_actions) e o)
          | inr n ↦ apart k n (subst (Elem k) same (inr o))
        ],
      )

  pub reservations-Numbered :
      (rs : List Reservation) (seen : Seen)
      → check_reservations codec hyphenated records rs seen ≡ ok tt
      → (r : Reservation) → Elem r rs
      → Numbered 1 r.attempts
  reservations-Numbered [] seen h r m = absurd m
  reservations-Numbered (r ∷ rs) seen h q m =
      let (a, seen', own, rest, _) = reservation-step r rs seen h in
      elim m [
        | inl e ↦
            subst (λ (x : Reservation). Numbered 1 x.attempts) (sym e)
              (attempts-Numbered a r 0 r.attempts (see_reservation seen r) seen' own)
        | inr n ↦ reservations-Numbered rs seen' rest q n
      ]
