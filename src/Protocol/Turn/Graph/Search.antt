-- ===== src/Protocol/Turn/Graph/Search.antt =====
-- `dependency_path_exists` decides whether there is a path.
use idr.Base.{
  append-Elem, ℕ, zero, suc, ◌+◌, ◌≤◌, ◌<◌, ◌≡◌, ◌↔◌, ◌⊎◌, inl, inr, refl, subst, Bool, true, false,
  List, [], ◌∷◌, ◌++◌, length, length-append, filter, contains, contains_iff, Elem, some, arith,
  Bool-cases,
}
use idr.Protocol.ContractRef.{ContractRef, contract_ref_eq}
use idr.Protocol.Turn.Graph.{Edge, successors, path_loop, path_fuel, found, dependency_path_exists}
use idr.Protocol.Turn.Graph.Routes.{Links, Route, edge, extend, Links-successors}

-- The edges that leave a node not yet visited.
pending_edges : List Edge → List ContractRef → ℕ
pending_edges [] visited = 0
pending_edges (e ∷ es) visited =
    let rest = pending_edges es visited in
    elim (contains visited e.before) [ true ↦ rest | false ↦ suc rest ]

pending-visit :
    (es : List Edge) (visited : List ContractRef) (c : ContractRef)
    → contains visited c ≡ false
    → pending_edges es (c ∷ visited) + length (successors es c) ≡ pending_edges es visited
unfolding pending_edges filter contains
pending-visit [] visited c h = omega arith
pending-visit (e ∷ es) visited c h = ground (arith, pending-visit es visited c h)

module _ (es : List Edge) (t : ContractRef) where
  -- Enough fuel: a round for each node in the queue and for each edge still to come.
  path_loop_total :
      (fuel : ℕ) (queue visited : List ContractRef)
      → length queue + pending_edges es visited < fuel
      → (b : Bool) × (path_loop es t fuel queue visited ≡ some b)
  unfolding path_loop
  path_loop_total zero queue visited h = absurd (omega arith)
  path_loop_total (suc fuel) [] visited h = (false, refl)
  path_loop_total (suc fuel) (c ∷ rest) visited h = elim (Bool-cases (contains visited c)) [
    | inl old ↦ rw old (path_loop_total fuel rest visited (omega arith))
    | inr new ↦ elim (Bool-cases (contains (successors es c) t)) [
      | inl hit ↦ (true, rw (new, hit))
      | inr miss ↦
          rw (new, miss)
            (path_loop_total fuel (rest ++ successors es c) (c ∷ visited)
              (omega (arith, length-append rest (successors es c), pending-visit es visited c new)))
    ]
  ]

  Route-prepend : {a b c : ContractRef} → Links es a b → Route es b c → Route es a c
  Route-prepend h (edge k) = extend (edge h) k
  Route-prepend h (extend r k) = extend (Route-prepend h r) k

  -- A search that succeeds has a path to the target from a node of its queue.
  path_loop_sound :
      (fuel : ℕ) (queue visited : List ContractRef)
      → path_loop es t fuel queue visited ≡ some true
      → (x : ContractRef) × Elem x queue × Route es x t
  unfolding path_loop
  path_loop_sound zero queue visited h = cc
  path_loop_sound (suc fuel) [] visited h = cc
  path_loop_sound (suc fuel) (c ∷ rest) visited h = elim (Bool-cases (contains visited c)) [
    | inl old ↦ let (x, m, r) = path_loop_sound fuel rest visited (ground arith) in (x, inr m, r)
    | inr new ↦ elim (Bool-cases (contains (successors es c) t)) [
      | inl hit ↦ (
        c,
        inl refl,
        edge ((Links-successors es c t).0 ((contains_iff (successors es c) t).0 hit)),
      )
      | inr miss ↦
          let (x, m, r) =
            path_loop_sound fuel (rest ++ successors es c) (c ∷ visited) (ground arith) in
          elim ((append-Elem x rest (successors es c)).0 m) [
            | inl k ↦ (x, inr k, r)
            | inr k ↦ (c, inl refl, Route-prepend ((Links-successors es c x).0 k) r)
          ]
    ]
  ]

  -- The edges from visited nodes lead to visited or queued nodes, and none leads to the target.
  Explored : List ContractRef → List ContractRef → Type 0
  Explored queue visited =
      (w x : ContractRef)
      → Elem w visited
      → Links es w x
      → (x ≡ t → ⊥) × (Elem x visited ⊎ Elem x queue)

  Closure : List ContractRef → List ContractRef → Type 0
  Closure queue visited =
      (closed : List ContractRef) × ((a : ContractRef)
        → Elem a queue ⊎ Elem a visited
        → Elem a closed)
      × ((w x : ContractRef) → Elem w closed → Links es w x → (x ≡ t → ⊥) × Elem x closed)

  skip-Explored :
      (c : ContractRef) (rest visited : List ContractRef)
      → contains visited c ≡ true
      → Explored (c ∷ rest) visited
      → Explored rest visited
  unfolding Explored
  skip-Explored c rest visited old inv w x m l =
      ground (arith, inv w x m l, contains_iff visited c, contains_iff visited x)

  search-Explored :
      (c : ContractRef) (rest visited : List ContractRef)
      → contains (successors es c) t ≡ false
      → Explored (c ∷ rest) visited
      → Explored (rest ++ successors es c) (c ∷ visited)
  unfolding Explored
  search-Explored c rest visited miss inv w x (inl e) l =
      let s : Elem x (successors es c) =
        (Links-successors es c x).1 (subst (λ n. Links es n x) e l) in
      (
        (λ is_t. ground (
          arith,
          (contains_iff (successors es c) t).1 (subst (λ n. Elem n (successors es c)) is_t s),
        )),
        inr ((append-Elem x rest (successors es c)).1 (inr s)),
      )
  search-Explored c rest visited miss inv w x (inr m) l =
      ground (arith, inv w x m l, append-Elem x rest (successors es c))

  -- A search that fails ends with a set that holds its queue, is closed under edges, and from
  -- which no edge leads to the target.
  path_loop_closes :
      (fuel : ℕ) (queue visited : List ContractRef)
      → Explored queue visited
      → path_loop es t fuel queue visited ≡ some false
      → Closure queue visited
  unfolding path_loop Closure Explored
  path_loop_closes zero queue visited inv h = cc
  path_loop_closes (suc fuel) [] visited inv h =
      (visited, (λ a m. ground arith), λ w x m l. ground (arith, inv w x m l))
  path_loop_closes (suc fuel) (c ∷ rest) visited inv h = elim (Bool-cases (contains visited c)) [
    | inl old ↦
        let (closed, holds_all, shut) =
          path_loop_closes fuel rest visited (skip-Explored c rest visited old inv)
            (ground arith) in
        (closed, (λ a m. ground (arith, holds_all a, contains_iff visited c)), shut)
    | inr new ↦ elim (Bool-cases (contains (successors es c) t)) [
      | inl hit ↦ absurd (ground arith)
      | inr miss ↦
          let (closed, holds_all, shut) =
            path_loop_closes fuel (rest ++ successors es c) (c ∷ visited)
              (search-Explored c rest visited miss inv) (ground arith) in
          (closed, (λ a m. ground (arith, holds_all a, append-Elem a rest (successors es c))), shut)
    ]
  ]

  Closed-Route :
      (closed : List ContractRef)
      → ((w x : ContractRef) → Elem w closed → Links es w x → (x ≡ t → ⊥) × Elem x closed)
      → (a b : ContractRef) → Elem a closed
      → Route es a b
      → (b ≡ t → ⊥) × Elem b closed
  Closed-Route closed shut a b m (edge l) = shut a b m l
  Closed-Route closed shut a b m (extend {b = x} r l) =
      shut x b (Closed-Route closed shut a x m r).1 l

pending_edges-le :
    (es : List Edge) (visited : List ContractRef) → pending_edges es visited ≤ length es
unfolding pending_edges
pending_edges-le [] visited = omega arith
pending_edges-le (e ∷ es) visited = ground (arith, pending_edges-le es visited)

path_exists_total :
    (start target : ContractRef) (es : List Edge)
    → (b : Bool) × (path_loop es target (path_fuel es) (start ∷ []) [] ≡ some b)
path_exists_total start target es =
    path_loop_total es target (path_fuel es) (start ∷ []) [] (omega (arith, pending_edges-le es []))

path_refused :
    (start target : ContractRef) (es : List Edge)
    → path_loop es target (path_fuel es) (start ∷ []) [] ≡ some false
    → Route es start target
    → ⊥
unfolding Closure Explored
path_refused start target es h r =
    let (closed, holds_all, shut) =
      path_loop_closes es target (path_fuel es) (start ∷ []) [] (λ w x m l. elim m [ ]) h in
    (Closed-Route es target closed shut start target (holds_all start (inl (inl refl))) r).0 refl

-- `dependency_path_exists` is true exactly when there is a non-empty path from the start to the
-- target.
pub dependency_path_exists_iff :
    (start target : ContractRef) (edges : List Edge)
    → (dependency_path_exists start target edges ≡ true) ↔ Route edges start target
unfolding dependency_path_exists
dependency_path_exists_iff start target edges =
    decided (path_exists_total start target edges).0 (path_exists_total start target edges).1
  where
    decided :
        (b : Bool)
        → path_loop edges target (path_fuel edges) (start ∷ []) [] ≡ some b
        → (found (path_loop edges target (path_fuel edges) (start ∷ []) []) ≡ true)
          ↔ Route edges start target
    decided true e = (
      (λ _.
          let (x, m, r) = path_loop_sound edges target (path_fuel edges) (start ∷ []) [] e in
          subst (λ n. Route edges n target) (ground arith) r),
      λ _. rw e,
    )
    decided false e =
        ((λ h. absurd (ground (arith, e, h))), λ r. absurd (path_refused start target edges e r))
