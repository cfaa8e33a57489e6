-- ===== src/Store/Reserve/Rules.antt =====
-- When `issue_execution_permit` makes a candidate.
use idr.Base.{
  refl, text_eq, nat_eq, ℕ, ◌+◌, ◌≡◌, ◌≢◌, inl, inr, true, false, List, find, last, Option, none,
  some, ok, arith, Result-cases, Option-cases, Elem, any, any-false,
}
use idr.Protocol.Id.{Uuid, id_eq}
use idr.Protocol.Digest.{Codec}
use idr.Protocol.ContractRef.{ContractRef, contract_ref_eq}
use idr.Protocol.Action.{ActionContract}
use idr.Protocol.Permit
use idr.Protocol.Permit.{VerifiedPermitRequest}
use idr.Store.Snapshot.{Attempt, Reservation, Snapshot, permits_retry, is_current}
use idr.Store.Reserve.{
  reserve, place, find_action, next_attempt, check_retry, is_conflicting, any_attempt, uses_proof,
  uses_authorization,
}

-- The place of a new attempt: the first of its action and of its scope, or the one behind the last
-- attempt of the action's reservation, which permits a retry.
pub data Placed (action_ref : ContractRef) (a : ActionContract) (attempt : ℕ)
    (reservations : List Reservation) : Type 0 where
  first :
      attempt ≡ 1
      → find (is_conflicting action_ref a) reservations ≡ none
      → Placed action_ref a attempt reservations
  retry :
      (r : Reservation) (previous : Attempt)
      → find (is_conflicting action_ref a) reservations ≡ some r
      → r.action_ref ≡ action_ref
      → last r.attempts ≡ some previous
      → permits_retry previous.status ≡ true
      → attempt ≡ previous.attempt + 1
      → Placed action_ref a attempt reservations

place-Placed :
    (minted id : Uuid) (action_ref : ContractRef) (a : ActionContract) (t : Attempt)
    (rs rs' : List Reservation) (o : Option Reservation)
    → find (is_conflicting action_ref a) rs ≡ o
    → place minted action_ref a t rs o ≡ ok (rs', id)
    → Placed action_ref a t.attempt rs
unfolding place check_retry
place-Placed minted id action_ref a t rs rs' none e h = first (ground arith) e
place-Placed minted id action_ref a t rs rs' (some r) e h = elim (Option-cases (last r.attempts)) [
  | inl k ↦ absurd (ground arith)
  | inr (previous, k) ↦ retry r previous e (ground arith) k (ground arith) (ground arith)
]

-- What an issued permit rests on.
pub record Grounds (codec : Codec) (v : VerifiedPermitRequest) (now : ℕ) (s : Snapshot)
    : Type 0 where
  pub current : is_current s v.request.action_ref ≡ true
  pub contract : ActionContract
  pub is_found : find_action codec s.records v.request.action_ref ≡ ok contract
  pub is_valid : Permit.validate_at codec v contract now ≡ ok tt
  pub placed : Placed v.request.action_ref contract v.request.attempt s.execution_reservations

reserve-parts :
    (codec : Codec) (minted id : Uuid) (v : VerifiedPermitRequest) (now : ℕ) (s u : Snapshot)
    → reserve codec minted v now s ≡ ok (u, id)
    → Grounds codec v now s
      × (any_attempt (uses_proof v) s.execution_reservations ≡ false)
      × (any_attempt (uses_authorization v) s.execution_reservations ≡ false)
unfolding reserve
reserve-parts codec minted id v now s u h =
    elim (Result-cases (find_action codec s.records v.request.action_ref)) [
      | inr (x, e) ↦ absurd (ground arith)
      | inl (a, e) ↦
          elim (Result-cases (
            place minted v.request.action_ref a (next_attempt v now) s.execution_reservations
              (find (is_conflicting v.request.action_ref a) s.execution_reservations))) [
                | inr (x, k) ↦ absurd (ground arith)
                | inl ((rs, i), k) ↦ (
                  record {
                    current = ground arith;
                    contract = a;
                    is_found = e;
                    is_valid = ground arith;
                    placed =
                        place-Placed minted i v.request.action_ref a (next_attempt v now)
                          s.execution_reservations rs
                          (find (is_conflicting v.request.action_ref a) s.execution_reservations)
                          refl k;
                  },
                  ground arith,
                  ground arith,
                )
              ]
    ]

-- A permit is issued only for a current action of the store against which its request is valid at
-- the trusted time, as the first attempt of the action and its idempotency scope or as the next
-- attempt behind one that permits a retry, and only if no attempt of any reservation has used its
-- proof, its nonce or its authorization.
pub reserve-Grounds :
    (codec : Codec) (minted id : Uuid) (v : VerifiedPermitRequest) (now : ℕ) (s u : Snapshot)
    → reserve codec minted v now s ≡ ok (u, id)
    → Grounds codec v now s
      × ((r : Reservation) (t : Attempt)
          → Elem r s.execution_reservations
          → Elem t r.attempts
          → (t.proof_id ≢ v.verified_proof.envelope.claims.proof_id)
            × (t.proof_nonce ≢ v.verified_proof.envelope.claims.nonce)
            × (t.authorization.authorization_id ≢ v.request.authorization_id))
reserve-Grounds codec minted id v now s u h =
    let (grounds, proof_fresh, authorization_fresh) = reserve-parts codec minted id v now s u h in
    (
      grounds,
      λ r t m k.
          let no_proof =
            any-false (λ (x : Reservation). any (uses_proof v) x.attempts) r
              s.execution_reservations proof_fresh m in
          let no_auth =
            any-false (λ (x : Reservation). any (uses_authorization v) x.attempts) r
              s.execution_reservations authorization_fresh m in
          let a = any-false (uses_proof v) t r.attempts no_proof k in
          let b = any-false (uses_authorization v) t r.attempts no_auth k in
          (ground arith, ground arith, ground arith),
    )
