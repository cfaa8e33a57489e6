-- ===== src/Base/Order.antt =====
-- Rust's `Ord`, `sort` and `dedup` over a strict total order.
use Prim.Native.Nat.{Ordering, ℕ, compare}
use mathlib.Core.Path.{◌≡◌, refl, sym}
use mathlib.Core.Logic.{◌⊎◌, inl, inr, ◌↔◌}
use mathlib.Core.List.{List, [], ◌∷◌}
use native.Mathlib.Omega.{arith}
use idr.Base.Lists.{Elem}

-- `cmp` computes the order, and its laws say that it is a strict total one.
pub record Ord (A : Type 0) : Type 0 where
  pub cmp : A → A → Ordering
  pub cmp_eq : (a b : A) → (cmp a b ≡ Ordering.eq) ↔ (a ≡ b)
  pub cmp_flip : (a b : A) → (cmp a b ≡ Ordering.lt) ↔ (cmp b a ≡ Ordering.gt)
  pub cmp_trans :
      (a b c : A) → cmp a b ≡ Ordering.lt → cmp b c ≡ Ordering.lt → cmp a c ≡ Ordering.lt

pub compare-eq_iff : (a b : ℕ) → (compare a b ≡ Ordering.eq) ↔ (a ≡ b)
compare-eq_iff a b = ground arith

pub compare-flip : (a b : ℕ) → (compare a b ≡ Ordering.lt) ↔ (compare b a ≡ Ordering.gt)
compare-flip a b = ground arith

pub compare_trans :
    (a b c : ℕ) → compare a b ≡ Ordering.lt → compare b c ≡ Ordering.lt → compare a c ≡ Ordering.lt
compare_trans a b c = ground arith

instance abbrev pub nat_ord : Ord ℕ
nat_ord = record {
  cmp = compare;
  cmp_eq = compare-eq_iff;
  cmp_flip = compare-flip;
  cmp_trans = compare_trans;
}

module _ {A : Type 0} ⦃o : Ord A⦄ where
  insert : A → List A → List A
  insert x [] = x ∷ []
  insert x (y ∷ ys) =
      let later = y ∷ insert x ys in elim (o.cmp x y) [ Ordering.gt ↦ later | _ ↦ x ∷ y ∷ ys ]

  -- `.sort()`
  unfoldable pub sort : List A → List A
  unfolding insert
  sort [] = []
  sort (x ∷ xs) = insert x (sort xs)

  dedup_from : A → List A → List A
  dedup_from x [] = x ∷ []
  dedup_from x (y ∷ ys) = elim (o.cmp x y) [
    | Ordering.eq ↦ dedup_from x ys
    | _ ↦ x ∷ dedup_from y ys
  ]

  -- `.dedup()`: of each run of equal elements the first stays.
  unfoldable pub dedup : List A → List A
  unfolding dedup_from
  dedup [] = []
  dedup (x ∷ xs) = dedup_from x xs

  abbrev pub Ahead : A → List A → Type 0
  Ahead x [] = Unit {0}
  Ahead x (y ∷ ys) = (o.cmp x y ≡ Ordering.gt → ⊥) × Ahead x ys

  abbrev pub Sorted : List A → Type 0
  Sorted [] = Unit {0}
  Sorted (x ∷ xs) = Ahead x xs × Sorted xs

  -- Every element is smaller than those behind it.
  abbrev pub Below : A → List A → Type 0
  Below x [] = Unit {0}
  Below x (y ∷ ys) = (o.cmp x y ≡ Ordering.lt) × Below x ys

  abbrev pub StrictlySorted : List A → Type 0
  StrictlySorted [] = Unit {0}
  StrictlySorted (x ∷ xs) = Below x xs × StrictlySorted xs

  insert-Elem : (a x : A) (xs : List A) → Elem a (insert x xs) ↔ ((a ≡ x) ⊎ Elem a xs)
  unfolding insert
  insert-Elem a x [] = ground arith
  insert-Elem a x (y ∷ ys) = ground (arith, insert-Elem a x ys)

  pub sort-Elem : (a : A) (xs : List A) → Elem a (sort xs) ↔ Elem a xs
  unfolding sort
  sort-Elem a [] = ((λ m. m), (λ m. m))
  sort-Elem a (x ∷ xs) = ground (arith, sort-Elem a xs, insert-Elem a x (sort xs))

  dedup_from-Elem : (a x : A) (xs : List A) → Elem a (dedup_from x xs) ↔ Elem a (x ∷ xs)
  unfolding dedup_from
  dedup_from-Elem a x [] = ((λ m. m), (λ m. m))
  dedup_from-Elem a x (y ∷ ys) =
      ground (arith, dedup_from-Elem a x ys, dedup_from-Elem a y ys, o.cmp_eq x y)

  pub dedup-Elem : (a : A) (xs : List A) → Elem a (dedup xs) ↔ Elem a xs
  unfolding dedup
  dedup-Elem a [] = ((λ m. m), (λ m. m))
  dedup-Elem a (x ∷ xs) = dedup_from-Elem a x xs

  insert-Ahead :
      (a x : A) (xs : List A) → (o.cmp a x ≡ Ordering.gt → ⊥) → Ahead a xs → Ahead a (insert x xs)
  unfolding insert
  insert-Ahead a x [] h k = (h, tt)
  insert-Ahead a x (y ∷ ys) h k = ground (arith, insert-Ahead a x ys h k.1)

  Ahead-trans : (a x : A) (xs : List A) → (o.cmp a x ≡ Ordering.gt → ⊥) → Ahead x xs → Ahead a xs
  Ahead-trans a x [] h k = tt
  Ahead-trans a x (y ∷ ys) h k = (
    ground (
      arith,
      o.cmp_trans a x y,
      o.cmp_trans y a x,
      o.cmp_eq a x,
      o.cmp_eq x y,
      o.cmp_flip y a,
      o.cmp_flip y x,
      o.cmp_flip x y,
      o.cmp_flip a y,
    ),
    Ahead-trans a x ys h k.1,
  )

  insert-Sorted : (x : A) (xs : List A) → Sorted xs → Sorted (insert x xs)
  unfolding insert
  insert-Sorted x [] s = (tt, tt)
  insert-Sorted x (y ∷ ys) s = ground (
    arith,
    insert-Sorted x ys s.1,
    insert-Ahead y x ys,
    Ahead-trans x y ys,
    o.cmp_flip x y,
    o.cmp_flip y x,
  )

  pub sort-Sorted : (xs : List A) → Sorted (sort xs)
  unfolding sort
  sort-Sorted [] = tt
  sort-Sorted (x ∷ xs) = insert-Sorted x (sort xs) (sort-Sorted xs)

  Below-trans : (a x : A) (xs : List A) → o.cmp a x ≡ Ordering.lt → Below x xs → Below a xs
  Below-trans a x [] h k = tt
  Below-trans a x (y ∷ ys) h k = (o.cmp_trans a x y h k.0, Below-trans a x ys h k.1)

  dedup_from-Below :
      (a x : A) (xs : List A)
      → o.cmp a x ≡ Ordering.lt
      → Ahead x xs
      → Sorted xs
      → Below a (dedup_from x xs)
  unfolding dedup_from
  dedup_from-Below a x [] h k s = (h, tt)
  dedup_from-Below a x (y ∷ ys) h k s =
      ground (arith, dedup_from-Below a x ys h k.1 s.1, dedup_from-Below a y ys, o.cmp_trans a x y)

  dedup_from-StrictlySorted :
      (x : A) (xs : List A) → Ahead x xs → Sorted xs → StrictlySorted (dedup_from x xs)
  unfolding dedup_from
  dedup_from-StrictlySorted x [] k s = (tt, tt)
  dedup_from-StrictlySorted x (y ∷ ys) k s = ground (
    arith,
    dedup_from-StrictlySorted x ys k.1 s.1,
    dedup_from-StrictlySorted y ys s.0 s.1,
    dedup_from-Below x y ys,
  )

  pub dedup-StrictlySorted : (xs : List A) → Sorted xs → StrictlySorted (dedup xs)
  unfolding dedup
  dedup-StrictlySorted [] s = tt
  dedup-StrictlySorted (x ∷ xs) s = dedup_from-StrictlySorted x xs s.0 s.1

  pub Below-Elem : (x a : A) (xs : List A) → Below x xs → Elem a xs → o.cmp x a ≡ Ordering.lt
  Below-Elem x a [] b m = elim m [ ]
  Below-Elem x a (y ∷ ys) b (inl e) = rw e b.0
  Below-Elem x a (y ∷ ys) b (inr m) = Below-Elem x a ys b.1 m

  irreflexive : (a : A) → o.cmp a a ≡ Ordering.lt → ⊥
  irreflexive a h = ground (arith, o.cmp_eq a a)

  head-eq :
      (x y : A) (xs ys : List A)
      → Below x xs
      → Below y ys
      → ((a : A) → Elem a (x ∷ xs) ↔ Elem a (y ∷ ys))
      → x ≡ y
  head-eq x y xs ys b c same = ground (
    arith,
    (same x).0 (inl refl),
    (same y).1 (inl refl),
    Below-Elem x y xs b,
    Below-Elem y x ys c,
    o.cmp_flip x y,
  )

  tail-subset :
      (x y : A) (xs ys : List A)
      → x ≡ y
      → Below x xs
      → ((a : A) → Elem a (x ∷ xs) → Elem a (y ∷ ys))
      → (a : A) → Elem a xs
      → Elem a ys
  tail-subset x y xs ys e b sub a m =
      ground (arith, sub a (inr m), Below-Elem x a xs b m, irreflexive a)

  -- A strictly sorted list is determined by its elements.
  pub StrictlySorted-unique :
      (xs ys : List A)
      → StrictlySorted xs
      → StrictlySorted ys
      → ((a : A) → Elem a xs ↔ Elem a ys)
      → xs ≡ ys
  StrictlySorted-unique [] [] s t same = refl
  StrictlySorted-unique [] (y ∷ ys) s t same = absurd ((same y).1 (inl refl))
  StrictlySorted-unique (x ∷ xs) [] s t same = absurd ((same x).0 (inl refl))
  StrictlySorted-unique (x ∷ xs) (y ∷ ys) s t same =
      let e : x ≡ y = head-eq x y xs ys s.0 t.0 same in
      let rest : xs ≡ ys = StrictlySorted-unique xs ys s.1 t.1 (λ a. (
        tail-subset x y xs ys e s.0 (λ b. (same b).0) a,
        tail-subset y x ys xs (sym e) t.0 (λ b. (same b).1) a,
      )) in
      cc (e, rest)

  -- `.sort(); .dedup();`
  unfoldable pub sort_dedup : List A → List A
  unfolding sort dedup
  sort_dedup xs = dedup (sort xs)

  pub sort_dedup-StrictlySorted : (xs : List A) → StrictlySorted (sort_dedup xs)
  unfolding sort_dedup
  sort_dedup-StrictlySorted xs = dedup-StrictlySorted (sort xs) (sort-Sorted xs)

  pub sort_dedup-Elem : (a : A) (xs : List A) → Elem a (sort_dedup xs) ↔ Elem a xs
  unfolding sort_dedup
  sort_dedup-Elem a xs = ground (arith, dedup-Elem a (sort xs), sort-Elem a xs)

  pub sort_dedup_unique :
      (xs ys : List A) → ((a : A) → Elem a xs ↔ Elem a ys) → sort_dedup xs ≡ sort_dedup ys
  sort_dedup_unique xs ys same =
      StrictlySorted-unique (sort_dedup xs) (sort_dedup ys) (sort_dedup-StrictlySorted xs)
        (sort_dedup-StrictlySorted ys)
        (λ a. ground (arith, sort_dedup-Elem a xs, sort_dedup-Elem a ys, same a))
