-- ===== src/Store/Steps/Current.antt =====
-- What is in flight in a store of crates/idr-store/src/file_store.rs is current.
use idr.Base.{◌≡◌, refl, sym, ap, subst, ◌∙◌, nat_eq, ok, some, true, false, Elem, last, arith}
use idr.Protocol.Reference.{reference_eq}
use idr.Protocol.Id.{kind_eq}
use idr.Protocol.Digest.{Codec}
use idr.Protocol.ContractRef.{ContractRef, contract_ref_eq}
use idr.Store.Snapshot.{
  Snapshot, Reservation, Attempt, default_snapshot, is_current, reservation_status_eq,
}
use idr.Store.Sealing.{seal_next_snapshot}
use idr.Store.Commit.Pointers.{OnePointer}
use idr.Store.Commit.Replay.{Agrees}
use idr.Store.Steps.InFlight.{in_flight, Flies, KeepsCurrent}
use idr.Store.Steps.Replayed.{seal-Agrees, reserve-Agrees}
use idr.Store.Steps.Committed.{commit-KeepsCurrent}
use idr.Store.Steps.Fates.{Heir, Fate, called_off, unresolved, reported}
use idr.Store.Steps.Fates.Settled.{commit-Fate}
use idr.Store.Permits.{change_attempt}
use idr.Store.Steps.{
  Candidate, commit, issue, transition, recovery, Step, seal, Reachable, empty, next,
}
use idr.Store.Steps.Issued.{issue-KeepsCurrent}
use idr.Store.Steps.Moved.{change-KeepsCurrent, recovery-expires, transition-KeepsCurrent}

sealed_keeps :
    (codec : Codec) (u s s' : Snapshot)
    → KeepsCurrent u
    → seal_next_snapshot codec u s ≡ ok s'
    → KeepsCurrent s'
unfolding is_current
sealed_keeps codec u s s' k h =
    let same = seal-Agrees codec u s s' h in
    let kept : s'.execution_reservations ≡ u.execution_reservations =
      unfold seal_next_snapshot in ground arith in
    record {
      one = subst OnePointer (sym same.pointers) k.one;
      is_action = λ a f. k.is_action a (subst (λ l. Flies l a) kept f);
      current = λ a f.
          ground
            (arith, k.current a (subst (λ l. Flies l a) kept f), same.pointers, same.invalidated);
    }

-- A step lets no attempt fly for an action that is not current.
Step-KeepsCurrent :
    (codec : Codec) (s s' : Snapshot) → KeepsCurrent s → Step codec s s' → KeepsCurrent s'
Step-KeepsCurrent codec s s' k (seal u c h) = sealed_keeps codec u s s' (candidate c) h
  where
    candidate : Candidate codec s u → KeepsCurrent u
    candidate (commit c proof reference e h') = commit-KeepsCurrent codec s u c reference proof k h'
    candidate (issue minted v now id h') = issue-KeepsCurrent codec s u minted id v now k h'
    candidate (transition permit expected to now r f e m h' p) =
        subst KeepsCurrent (sym p) (transition-KeepsCurrent s permit expected to now r f e m h' k)
    candidate (recovery action_ref owner_ref now r t f e h' p) = subst KeepsCurrent (sym p) (
        change-KeepsCurrent s r.reservation_id f
          (λ x y found is_last flies.
            absurd (ground (arith, recovery-expires s action_ref owner_ref now r t y f e h')))
          k)

-- What is current does not depend on the reservations.
current_same :
    (s u : Snapshot) (a : ContractRef)
    → u.current_pointers ≡ s.current_pointers
    → u.invalidated_refs ≡ s.invalidated_refs
    → is_current s a ≡ true
    → is_current u a ≡ false
    → ⊥
unfolding is_current
current_same s u a p i h k = ground arith

-- A step ends what it leaves without effect. Where only attempts for current actions are in flight
-- (issued, delivered or dispatched) before a step, and the action of one of them is not current
-- after it, a reservation of that action stands there with an attempt of the same permit at its
-- end. It is cancelled if it was issued or delivered, and in need of reconciliation if it was
-- dispatched. There is one exception: the newest record is a receipt for the permit, and the attempt
-- has the state that the receipt reports.
pub Step-Fate :
    (codec : Codec) (s s' : Snapshot) (r : Reservation) (t : Attempt)
    → KeepsCurrent s
    → Step codec s s'
    → Elem r s.execution_reservations
    → last r.attempts ≡ some t
    → in_flight t.status ≡ true
    → is_current s' r.action_ref ≡ false
    → Heir s'.execution_reservations r t (Fate s' t)
Step-Fate codec s s' r t k (seal u c h) m e f gone = sealed (candidate c)
  where
    same : Agrees s' u
    same = seal-Agrees codec u s s' h

    kept : s'.execution_reservations ≡ u.execution_reservations
    kept = unfold seal_next_snapshot in ground arith

    gone_before : is_current u r.action_ref ≡ false
    gone_before = unfold is_current in ground (arith, same.pointers, same.invalidated)

    was : is_current s r.action_ref ≡ true
    was = k.current r.action_ref (record {
      reservation = r;
      attempt = t;
      is_reserved = m;
      is_last = e;
      flies = f;
      is_for = refl;
    })

    untouched :
        u.current_pointers ≡ s.current_pointers
        → u.invalidated_refs ≡ s.invalidated_refs
        → Heir u.execution_reservations r t (Fate u t)
    untouched p i = absurd (current_same s u r.action_ref p i was gone_before)

    candidate : Candidate codec s u → Heir u.execution_reservations r t (Fate u t)
    candidate (commit c proof reference _ h') =
        commit-Fate codec s u c reference proof r t k h' m e f gone_before
    candidate (issue minted v now id h') =
        let as_issued = reserve-Agrees codec s u minted id v now h' in
        untouched as_issued.pointers as_issued.invalidated
    candidate (transition permit expected to now x g error marks h' p) =
        untouched (unfold change_attempt in ground arith) (unfold change_attempt in ground arith)
    candidate (recovery action_ref owner_ref now x y g error h' p) =
        untouched (unfold change_attempt in ground arith) (unfold change_attempt in ground arith)

    sealed :
        Heir u.execution_reservations r t (Fate u t)
        → Heir s'.execution_reservations r t (Fate s' t)
    sealed heir = record {
      reservation = heir.reservation;
      attempt = heir.attempt;
      is_reserved = subst (Elem heir.reservation) (sym kept) heir.is_reserved;
      is_last = heir.is_last;
      is_for = heir.is_for;
      same_permit = heir.same_permit;
      fate = elim heir.fate [
        | called_off a b ↦ called_off a b
        | unresolved a b ↦ unresolved a b
        | reported receipt l named status ↦ reported receipt (ap last same.records ∙ l) named status
      ];
    }

empty-KeepsCurrent : KeepsCurrent default_snapshot
empty-KeepsCurrent = record {
  one = λ a b m. absurd m;
  is_action = λ a f. absurd f.is_reserved;
  current = λ a f. absurd f.is_reserved;
}

-- In every snapshot that a store can come to from an empty one, what is in flight is an action that
-- is current: the last attempt of a reservation is issued, delivered or dispatched only while the
-- action's revision is the current one and is not invalidated, and there is one current revision
-- of a contract.
pub Reachable-KeepsCurrent : (codec : Codec) (s : Snapshot) → Reachable codec s → KeepsCurrent s
Reachable-KeepsCurrent codec s (empty e) = subst KeepsCurrent (sym e) empty-KeepsCurrent
Reachable-KeepsCurrent codec s (next {s = x} r st) =
    Step-KeepsCurrent codec x s (Reachable-KeepsCurrent codec x r) st
