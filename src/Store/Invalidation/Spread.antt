-- ===== src/Store/Invalidation/Spread.antt =====
-- One round of the invalidation: the pointers that depend on the reference taken from the queue.
use idr.Base.{
  ℕ, suc, ◌+◌, ◌≤◌, ◌≡◌, ◌||◌, inl, inr, refl, sym, subst, true, false, List, [], ◌∷◌, ◌++◌, length,
  contains, contains_iff, Elem, none, some, ok, err, arith, Bool-cases, Option-cases, Result-cases,
  append-Elem,
}
use mathlib.Core.List.{append-nil, append_assoc}
use idr.Protocol.Digest.{Codec}
use idr.Protocol.ContractRef.{ContractRef, contract_ref_eq}
use idr.Store.Error.{StoreError}
use idr.Store.Contract.{ContractSnapshot, metadata}
use idr.Store.Snapshot.{same_contract, record_of}
use idr.Store.Invalidation.{visit_pointer, visit_pointers}

-- The pointers that are not in a list, counted.
unfoldable pub absent : List ContractRef → List ContractRef → ℕ
absent [] invalidated = 0
absent (p ∷ ps) invalidated =
    let rest = absent ps invalidated in
    elim (contains invalidated p) [ true ↦ rest | false ↦ suc rest ]

absent-append-le :
    (ps inv : List ContractRef) (p : ContractRef) → absent ps (inv ++ p ∷ []) ≤ absent ps inv
unfolding absent
absent-append-le [] inv p = omega arith
absent-append-le (q ∷ ps) inv p = ground (
  arith,
  absent-append-le ps inv p,
  contains_iff inv q,
  contains_iff (inv ++ p ∷ []) q,
  append-Elem q inv (p ∷ []),
)

absent-append-lt :
    (ps inv : List ContractRef) (p : ContractRef)
    → Elem p ps
    → contains inv p ≡ false
    → suc (absent ps (inv ++ p ∷ [])) ≤ absent ps inv
unfolding absent
absent-append-lt [] inv p m h = elim m [ ]
absent-append-lt (q ∷ ps) inv p (inl e) h =
    ground
      (arith, absent-append-le ps inv p, contains_iff (inv ++ p ∷ []) q, append-Elem q inv (p ∷ []))
absent-append-lt (q ∷ ps) inv p (inr m) h = ground (
  arith,
  absent-append-lt ps inv p m h,
  contains_iff inv q,
  contains_iff (inv ++ p ∷ []) q,
  append-Elem q inv (p ∷ []),
)

module _ (codec : Codec) (records : List ContractSnapshot) where
  -- The record of a pointer names a reference among its dependencies.
  pub record DependsOn (p d : ContractRef) : Type 0 where
    pub contract : ContractSnapshot
    pub is_record : record_of codec records p ≡ some contract
    pub has_dependency : Elem d (metadata contract).dependency_refs

  -- What a round adds for a pointer that it visits.
  unfoldable pub Spreads : ContractRef → List ContractRef → ContractRef → Type 0
  Spreads stale inv p = (same_contract p stale ≡ false) × (Elem p inv → ⊥) × DependsOn p stale

  pub data Visited (stale p : ContractRef) (inv queue : List ContractRef)
      : List ContractRef × List ContractRef → Type 0 where
    passed :
        {state : List ContractRef × List ContractRef}
        → state ≡ (inv, queue)
        → (Spreads stale inv p → ⊥)
        → Visited stale p inv queue state
    spread :
        {state : List ContractRef × List ContractRef}
        → state ≡ (inv ++ p ∷ [], queue ++ p ∷ [])
        → Spreads stale inv p
        → Visited stale p inv queue state

  visit-Visited :
      (stale p : ContractRef) (inv queue : List ContractRef)
      (state : List ContractRef × List ContractRef)
      → visit_pointer codec records stale p (inv, queue) ≡ ok state
      → Visited stale p inv queue state
  unfolding visit_pointer Spreads
  visit-Visited stale p inv queue state h =
      elim (Bool-cases (same_contract p stale || contains inv p)) [
        | inl skip ↦ passed (ground arith) (λ s. ground (arith, contains_iff inv p))
        | inr go ↦ elim (Option-cases (record_of codec records p)) [
          | inl none_found ↦ absurd (ground arith)
          | inr (c, e) ↦ elim (Bool-cases (contains (metadata c).dependency_refs stale)) [
            | inl hit ↦ spread (ground arith) (
              ground arith,
              (λ m. ground (arith, contains_iff inv p)),
              record {
                contract = c;
                is_record = e;
                has_dependency = (contains_iff (metadata c).dependency_refs stale).0 hit;
              },
            )
            | inr miss ↦ passed (ground arith) (λ s. ground (
              arith,
              contains_iff (metadata c).dependency_refs stale,
              s.2.is_record,
              s.2.has_dependency,
            ))
          ]
        ]
      ]

  -- What a round does: the references that it adds to both lists.
  pub record Round (stale : ContractRef) (pointers ps inv queue : List ContractRef)
      (state : List ContractRef × List ContractRef) : Type 0 where
    pub added : List ContractRef
    pub is_state : state ≡ (inv ++ added, queue ++ added)
    pub sound : (p : ContractRef) → Elem p added → Elem p ps × Spreads stale inv p
    pub complete :
        (p : ContractRef)
        → Elem p ps
        → same_contract p stale ≡ false
        → DependsOn p stale
        → Elem p (inv ++ added)
    pub counted : absent pointers (inv ++ added) + length added ≤ absent pointers inv

  Spreads-weaken :
      (stale p q : ContractRef) (inv : List ContractRef)
      → Spreads stale (inv ++ p ∷ []) q
      → Spreads stale inv q
  unfolding Spreads
  Spreads-weaken stale p q inv (a, b, c) = (a, (λ m. b ((append-Elem q inv (p ∷ [])).1 (inl m))), c)

  pass-Round :
      (stale p : ContractRef) (pointers ps inv queue : List ContractRef)
      (state : List ContractRef × List ContractRef)
      → (Spreads stale inv p → ⊥)
      → Round stale pointers ps inv queue state
      → Round stale pointers (p ∷ ps) inv queue state
  unfolding Spreads
  pass-Round stale p pointers ps inv queue state no_spread r = record {
    added = r.added;
    is_state = r.is_state;
    sound = λ q m. (inr (r.sound q m).0, (r.sound q m).1);
    complete = λ q m a d. elim m [
      | inr k ↦ r.complete q k a d
      | inl e ↦ elim (Bool-cases (contains inv q)) [
        | inl old ↦ (append-Elem q inv r.added).1 (inl ((contains_iff inv q).0 old))
        | inr new ↦ absurd (
            subst (λ (x : ContractRef). Spreads stale inv x → ⊥) (sym e) no_spread
              (a, (λ k. ground (arith, contains_iff inv q)), d))
      ]
    ];
    counted = r.counted;
  }

  spread-Round :
      (stale p : ContractRef) (pointers ps inv queue : List ContractRef)
      (state : List ContractRef × List ContractRef)
      → Elem p pointers
      → Spreads stale inv p
      → Round stale pointers ps (inv ++ p ∷ []) (queue ++ p ∷ []) state
      → Round stale pointers (p ∷ ps) inv queue state
  unfolding Spreads
  spread-Round stale p pointers ps inv queue state m0 sp r =
      let moved : (inv ++ p ∷ []) ++ r.added ≡ inv ++ p ∷ r.added =
        append_assoc inv (p ∷ []) r.added in
      let moved_queue : (queue ++ p ∷ []) ++ r.added ≡ queue ++ p ∷ r.added =
        append_assoc queue (p ∷ []) r.added in
      let fresh : contains inv p ≡ false = ground (arith, contains_iff inv p) in
      record {
        added = p ∷ r.added;
        is_state = cc (r.is_state, moved, moved_queue);
        sound = λ q m. elim m [
          | inl e ↦ (inl e, subst (λ (x : ContractRef). Spreads stale inv x) (sym e) sp)
          | inr k ↦ (inr (r.sound q k).0, Spreads-weaken stale p q inv (r.sound q k).1)
        ];
        complete = λ q m a d. elim m [
          | inl e ↦ (append-Elem q inv (p ∷ r.added)).1 (inr (inl e))
          | inr k ↦ subst (Elem q) moved (r.complete q k a d)
        ];
        counted = omega (
          arith,
          subst
              (λ (l : List ContractRef).
                absent pointers l + length r.added ≤ absent pointers (inv ++ p ∷ []))
              moved r.counted,
          absent-append-lt pointers inv p m0 fresh,
        );
      }

  pub visit_pointers-Round :
      (stale : ContractRef) (pointers ps inv queue : List ContractRef)
      (state : List ContractRef × List ContractRef)
      → ((p : ContractRef) → Elem p ps → Elem p pointers)
      → visit_pointers codec records stale ps (inv, queue) ≡ ok state
      → Round stale pointers ps inv queue state
  unfolding visit_pointers
  visit_pointers-Round stale pointers [] inv queue state sub h = record {
    added = [];
    is_state = ground (arith, append-nil inv, append-nil queue);
    sound = λ p m. elim m [ ];
    complete = λ p m a d. elim m [ ];
    counted = ground (arith, append-nil inv);
  }
  visit_pointers-Round stale pointers (p ∷ ps) inv queue state sub h =
      elim (Result-cases (visit_pointer codec records stale p (inv, queue))) [
        | inr (x, e) ↦ absurd (ground arith)
        | inl (next, e) ↦ elim (visit-Visited stale p inv queue next e) [
          | passed same no_spread ↦ pass-Round stale p pointers ps inv queue state no_spread (
              visit_pointers-Round stale pointers ps inv queue state (λ q m. sub q (inr m))
                (ground arith))
          | spread same sp ↦
              spread-Round stale p pointers ps inv queue state (sub p (inl refl)) sp (
                visit_pointers-Round stale pointers ps (inv ++ p ∷ []) (queue ++ p ∷ []) state
                  (λ q m. sub q (inr m)) (ground arith))
        ]
      ]

  -- A current pointer without a record, on which the store gives up.
  pub record Dangling (pointers : List ContractRef) : Type 0 where
    pub pointer : ContractRef
    pub is_pointer : Elem pointer pointers
    pub is_missing : record_of codec records pointer ≡ none

  visit-err :
      (stale p : ContractRef) (inv queue : List ContractRef) (x : StoreError)
      → visit_pointer codec records stale p (inv, queue) ≡ err x
      → record_of codec records p ≡ none
  unfolding visit_pointer
  visit-err stale p inv queue x h = elim (Option-cases (record_of codec records p)) [
    | inl e ↦ e
    | inr (c, e) ↦ absurd (ground arith)
  ]

  pub visit_pointers-err :
      (stale : ContractRef) (ps inv queue : List ContractRef) (x : StoreError)
      → visit_pointers codec records stale ps (inv, queue) ≡ err x
      → Dangling ps
  unfolding visit_pointers
  visit_pointers-err stale [] inv queue x h = cc
  visit_pointers-err stale (p ∷ ps) inv queue x h =
      elim (Result-cases (visit_pointer codec records stale p (inv, queue))) [
        | inr (y, e) ↦ record {
          pointer = p;
          is_pointer = inl refl;
          is_missing = visit-err stale p inv queue y e;
        }
        | inl ((inv', queue'), e) ↦
            let d = visit_pointers-err stale ps inv' queue' x (ground arith) in
            record { pointer = d.pointer; is_pointer = inr d.is_pointer; is_missing = d.is_missing }
      ]
