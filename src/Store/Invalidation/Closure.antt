-- ===== src/Store/Invalidation/Closure.antt =====
-- `invalidate_dependents` invalidates exactly what depends on the superseded revision, over any
-- number of steps.
use idr.Base.{
  ℕ, zero, suc, ◌+◌, ◌≤◌, ◌<◌, ◌≡◌, ◌≢◌, ◌↔◌, ◌⊎◌, inl, inr, refl, sym, ap, ◌∙◌, subst, true, false,
  List, [], ◌∷◌, ◌++◌, length, length-append, Elem, Option, none, some, ok, err, arith, Bool-cases,
  Result-cases, contains, contains_iff, append-Elem, sort_dedup, sort_dedup-Elem, StrictlySorted,
}
use idr.Base.BTree.{add}
use idr.Base.BTree.Laws.{add-Elem, add-new, add-StrictlySorted}
use idr.Protocol.Digest.{Codec}
use idr.Protocol.ContractRef.{ContractRef, contract_ref_eq, contract_ref_ord}
use idr.Store.Error.{StoreError, Stored}
use idr.Store.Contract.{ContractSnapshot}
use idr.Store.Snapshot.{Snapshot, same_contract, record_of}
use idr.Store.Invalidation.{
  visit_pointers, invalidate_loop, invalidate_fuel, invalidate_dependents,
  reconcile_invalidated_execution_reservations, invalidate_execution_reservation,
}
use idr.Store.Invalidation.Spread.{
  absent, DependsOn, Spreads, Round, visit_pointers-Round, Dangling, visit_pointers-err,
}

-- A reference that is not new to a sorted set is in it.
seen_before :
    (w : ContractRef) (visited : List ContractRef)
    → (add w visited).0 ≡ false
    → StrictlySorted visited
    → Elem w visited
seen_before w visited h s = elim (Bool-cases (contains visited w)) [
  | inl old ↦ (contains_iff visited w).0 old
  | inr new ↦ ground (arith, (add-new w visited s).1 (λ m. ground (arith, contains_iff visited w)))
]

module _ (codec : Codec) (records : List ContractSnapshot) (pointers : List ContractRef) where
  -- The current pointers that depend on the root, directly or through others of them, and that
  -- were not invalidated before.
  pub data Affected (invalidated : List ContractRef) (root : ContractRef)
      : ContractRef → Type 0 where
    direct :
        {p : ContractRef}
        → Elem p pointers
        → Spreads codec records root invalidated p
        → Affected invalidated root p
    through :
        {q p : ContractRef}
        → Affected invalidated root q
        → Elem p pointers
        → Spreads codec records q invalidated p
        → Affected invalidated root p

  module _ (before : List ContractRef) (root : ContractRef) where
    -- The invariant of the loop.
    record Progress (queue visited invalidated : List ContractRef) : Type 0 where
      sorted : StrictlySorted visited
      sound : (p : ContractRef) → Elem p invalidated → Elem p before ⊎ Affected before root p
      queued : (q : ContractRef) → Elem q queue → (q ≡ root) ⊎ Affected before root q
      kept : (p : ContractRef) → Elem p before → Elem p invalidated
      started : Elem root visited ⊎ Elem root queue
      pending :
          (p : ContractRef)
          → Elem p invalidated
          → (Elem p before → ⊥)
          → Elem p visited ⊎ Elem p queue
      closed :
          (w p : ContractRef)
          → Elem w visited
          → Elem p pointers
          → same_contract p w ≡ false
          → DependsOn codec records p w
          → Elem p invalidated

    skip-Progress :
        (w : ContractRef) (queue visited invalidated : List ContractRef)
        → Elem w visited
        → Progress (w ∷ queue) visited invalidated
        → Progress queue visited invalidated
    skip-Progress w queue visited invalidated m i = record {
      sorted = i.sorted;
      sound = i.sound;
      queued = λ q k. i.queued q (inr k);
      kept = i.kept;
      started = elim i.started [
        | inl k ↦ inl k
        | inr (inl e) ↦ inl (subst (λ (x : ContractRef). Elem x visited) (sym e) m)
        | inr (inr k) ↦ inr k
      ];
      pending = λ p k n. elim (i.pending p k n) [
        | inl v ↦ inl v
        | inr (inl e) ↦ inl (subst (λ (x : ContractRef). Elem x visited) (sym e) m)
        | inr (inr v) ↦ inr v
      ];
      closed = i.closed;
    }

    -- What a reference taken from the queue adds is affected.
    spread-Affected :
        (w p : ContractRef) (queue visited invalidated : List ContractRef)
        → Progress (w ∷ queue) visited invalidated
        → Elem p pointers
        → Spreads codec records w invalidated p
        → Affected before root p
    unfolding Spreads
    spread-Affected w p queue visited invalidated i m (a, b, c) = elim (i.queued w (inl refl)) [
      | inl e ↦ direct m (
        subst (λ (x : ContractRef). same_contract p x ≡ false) e a,
        (λ k. b (i.kept p k)),
        subst (λ (x : ContractRef). DependsOn codec records p x) e c,
      )
      | inr v ↦ through v m (a, (λ k. b (i.kept p k)), c)
    ]

    search-Progress :
        (w : ContractRef) (queue visited invalidated : List ContractRef)
        (state : List ContractRef × List ContractRef)
        (r : Round codec records w pointers pointers invalidated queue state)
        → Progress (w ∷ queue) visited invalidated
        → Progress (queue ++ r.added) (add w visited).1 (invalidated ++ r.added)
    search-Progress w queue visited invalidated state r i = record {
      sorted = add-StrictlySorted w visited i.sorted;
      sound = λ p m. elim ((append-Elem p invalidated r.added).0 m) [
        | inl k ↦ i.sound p k
        | inr k ↦
            inr (spread-Affected w p queue visited invalidated i (r.sound p k).0 (r.sound p k).1)
      ];
      queued = λ q m. elim ((append-Elem q queue r.added).0 m) [
        | inl k ↦ i.queued q (inr k)
        | inr k ↦
            inr (spread-Affected w q queue visited invalidated i (r.sound q k).0 (r.sound q k).1)
      ];
      kept = λ p m. (append-Elem p invalidated r.added).1 (inl (i.kept p m));
      started = elim i.started [
        | inl k ↦ inl ((add-Elem root w visited).1 (inr k))
        | inr (inl e) ↦ inl ((add-Elem root w visited).1 (inl e))
        | inr (inr k) ↦ inr ((append-Elem root queue r.added).1 (inl k))
      ];
      pending = λ p m n. elim ((append-Elem p invalidated r.added).0 m) [
        | inr k ↦ inr ((append-Elem p queue r.added).1 (inr k))
        | inl k ↦ elim (i.pending p k n) [
          | inl v ↦ inl ((add-Elem p w visited).1 (inr v))
          | inr (inl e) ↦ inl ((add-Elem p w visited).1 (inl e))
          | inr (inr v) ↦ inr ((append-Elem p queue r.added).1 (inl v))
        ]
      ];
      closed = λ v p m k a d. elim ((add-Elem v w visited).0 m) [
        | inr old ↦ (append-Elem p invalidated r.added).1 (inl (i.closed v p old k a d))
        | inl e ↦
            r.complete p k (subst (λ (x : ContractRef). same_contract p x ≡ false) e a)
              (subst (λ (x : ContractRef). DependsOn codec records p x) e d)
      ];
    }

    -- At the end, with an empty queue, what is affected is invalidated.
    Affected-invalidated :
        (p : ContractRef) (visited invalidated : List ContractRef)
        → Progress [] visited invalidated
        → Affected before root p
        → Elem p invalidated × (Elem p before → ⊥)
    unfolding Spreads
    Affected-invalidated p visited invalidated i (direct m (a, b, c)) =
        (elim i.started [ inl v ↦ i.closed root p v m a c | inr k ↦ absurd k ], b)
    Affected-invalidated p visited invalidated i (through {q} v m (a, b, c)) =
        let (k, n) = Affected-invalidated q visited invalidated i v in
        (elim (i.pending q k n) [ inl w ↦ i.closed q p w m a c | inr x ↦ absurd x ], b)

    -- What the loop may return.
    pub Outcome : Option (Stored (List ContractRef)) → Type 0
    Outcome o =
        ((e : StoreError) × Dangling codec records pointers × (o ≡ some (err e)))
        ⊎ ((result : List ContractRef) × (o ≡ some (ok result))
            × ((p : ContractRef) → Elem p result ↔ (Elem p before ⊎ Affected before root p)))

    -- The rounds of the loop: for a reference seen before, and for a new one.
    loop_old :
        (fuel : ℕ) (w : ContractRef) (queue visited invalidated : List ContractRef)
        → (add w visited).0 ≡ false
        → invalidate_loop codec records pointers (suc fuel) (w ∷ queue) visited invalidated
          ≡ invalidate_loop codec records pointers fuel queue visited invalidated
    unfolding invalidate_loop
    loop_old fuel w queue visited invalidated h = ground arith

    loop_err :
        (fuel : ℕ) (w : ContractRef) (queue visited invalidated : List ContractRef) (x : StoreError)
        → (add w visited).0 ≡ true
        → visit_pointers codec records w pointers (invalidated, queue) ≡ err x
        → invalidate_loop codec records pointers (suc fuel) (w ∷ queue) visited invalidated
          ≡ some (err x)
    unfolding invalidate_loop
    loop_err fuel w queue visited invalidated x h e = ground arith

    loop_new :
        (fuel : ℕ) (w : ContractRef) (queue visited invalidated inv' queue' : List ContractRef)
        → (add w visited).0 ≡ true
        → visit_pointers codec records w pointers (invalidated, queue) ≡ ok (inv', queue')
        → invalidate_loop codec records pointers (suc fuel) (w ∷ queue) visited invalidated
          ≡ invalidate_loop codec records pointers fuel queue' (add w visited).1 inv'
    unfolding invalidate_loop
    loop_new fuel w queue visited invalidated inv' queue' h e = ground arith

    loop-Outcome :
        (fuel : ℕ) (queue visited invalidated : List ContractRef)
        → length queue + absent pointers invalidated < fuel
        → Progress queue visited invalidated
        → Outcome (invalidate_loop codec records pointers fuel queue visited invalidated)
    unfolding invalidate_loop Outcome
    loop-Outcome zero queue visited invalidated h i = absurd (omega arith)
    loop-Outcome (suc fuel) [] visited invalidated h i = inr (
      invalidated,
      refl,
      λ p. (
        i.sound p,
        λ m. elim m [
          | inl k ↦ i.kept p k
          | inr k ↦ (Affected-invalidated p visited invalidated i k).0
        ],
      ),
    )
    loop-Outcome (suc fuel) (w ∷ queue) visited invalidated h i =
        elim (Bool-cases (add w visited).0) [
          | inr old ↦ subst Outcome (sym (loop_old fuel w queue visited invalidated old)) (
              loop-Outcome fuel queue visited invalidated (omega arith)
                (skip-Progress w queue visited invalidated (seen_before w visited old i.sorted) i))
          | inl new ↦
              elim (Result-cases (visit_pointers codec records w pointers (invalidated, queue))) [
                | inr (x, e) ↦ inl (
                  x,
                  visit_pointers-err codec records w pointers invalidated queue x e,
                  loop_err fuel w queue visited invalidated x new e,
                )
                | inl (state, e) ↦
                    let r =
                      visit_pointers-Round codec records w pointers pointers invalidated queue state
                        (λ p m. m) e in
                    subst Outcome
                      (sym (
                        loop_new fuel w queue visited invalidated (invalidated ++ r.added)
                          (queue ++ r.added) new (e ∙ ap ok r.is_state)))
                      (loop-Outcome fuel (queue ++ r.added) (add w visited).1
                        (invalidated ++ r.added)
                        (omega (arith, length-append queue r.added, r.counted))
                        (search-Progress w queue visited invalidated state r i))
              ]
        ]

    start-Progress : Progress (root ∷ []) [] before
    start-Progress = record {
      sorted = tt;
      sound = λ p m. inl m;
      queued = λ q m. elim m [ inl e ↦ inl e | inr k ↦ absurd k ];
      kept = λ p m. m;
      started = inr (inl refl);
      pending = λ p m n. absurd (n m);
      closed = λ w p m k a d. absurd m;
    }

    absent-le : (ps : List ContractRef) → absent ps before ≤ length ps
    unfolding absent
    absent-le [] = omega arith
    absent-le (p ∷ ps) = ground (arith, absent-le ps)

    pub invalidate_loop-Outcome :
        Outcome
          (invalidate_loop codec records pointers (invalidate_fuel pointers) (root ∷ []) [] before)
    invalidate_loop-Outcome =
        loop-Outcome (invalidate_fuel pointers) (root ∷ []) [] before
          (omega (arith, absent-le pointers)) start-Progress

module _ (codec : Codec) where
  -- Where every current pointer has a record, an invalidation succeeds, and the references that are
  -- invalidated after it are exactly those that were before, and the current pointers that depend
  -- on the superseded revision: directly, or through others that it invalidates, over any number of
  -- steps. The history and the pointers stay.
  pub invalidate_dependents-exact :
      (s : Snapshot) (root : ContractRef)
      → ((p : ContractRef) → Elem p s.current_pointers → record_of codec s.records p ≢ none)
      → (s' : Snapshot) × (invalidate_dependents codec s root ≡ ok s')
        × ((p : ContractRef)
            → Elem p s'.invalidated_refs ↔ (
                Elem p s.invalidated_refs
                ⊎ Affected codec s.records s.current_pointers s.invalidated_refs root p))
        × (s'.records ≡ s.records)
        × (s'.current_pointers ≡ s.current_pointers)
  unfolding invalidate_dependents reconcile_invalidated_execution_reservations Outcome
  invalidate_dependents-exact s root recorded =
      elim (invalidate_loop-Outcome codec s.records s.current_pointers s.invalidated_refs root) [
        | inl (x, d, e) ↦ absurd (recorded d.pointer d.is_pointer d.is_missing)
        | inr (result, e, exact) ↦ (
          reconcile_invalidated_execution_reservations (record s {
            invalidated_refs = sort_dedup result;
            execution_reservations = invalidate_execution_reservation root s.execution_reservations;
          }),
          ground arith,
          (λ p. ground (arith, sort_dedup-Elem p result, exact p)),
          refl,
          refl,
        )
      ]
