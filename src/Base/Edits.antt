-- ===== src/Base/Edits.antt =====
-- What a list holds after a search or a change.
use mathlib.Core.Path.{◌≡◌, refl, subst, sym, ap}
use mathlib.Core.Logic.{◌⊎◌, inl, inr, ◌↔◌}
use mathlib.Core.Bool.{Bool, true, false}
use mathlib.Core.Option.{none, some}
use mathlib.Core.List.{List, [], ◌∷◌, ◌++◌, map}
use native.Mathlib.Omega.{arith}
use idr.Base.Tests.{Bool-cases}
use idr.Base.Lists.{Elem, Distinct, append-Elem, find, filter, last, map_last, map_first}

module _ {A : Type 0} where
  pub find-some :
      (p : A → Bool) (x : A) (xs : List A) → find p xs ≡ some x → Elem x xs × (p x ≡ true)
  unfolding find
  find-some p x [] h = cc
  find-some p x (y ∷ ys) h = ground (arith, find-some p x ys)

  pub find-none : (p : A → Bool) (x : A) (xs : List A) → find p xs ≡ none → Elem x xs → p x ≡ false
  unfolding find
  find-none p x [] h m = elim m [ ]
  find-none p x (y ∷ ys) h m = ground (arith, find-none p x ys)

  pub filter-Elem :
      (p : A → Bool) (x : A) (xs : List A) → Elem x (filter p xs) ↔ (Elem x xs × (p x ≡ true))
  unfolding filter
  filter-Elem p x [] = ground arith
  filter-Elem p x (y ∷ ys) = ground (arith, filter-Elem p x ys)

  pub map_first-Elem :
      (p : A → Bool) (f : A → A) (y : A) (xs : List A)
      → Elem y (map_first p f xs)
      → Elem y xs ⊎ ((x : A) × (find p xs ≡ some x) × (y ≡ f x))
  unfolding map_first find
  map_first-Elem p f y [] m = elim m [ ]
  map_first-Elem p f y (x ∷ xs) m = elim (Bool-cases (p x)) [
    | inl t ↦
        let step : map_first p f (x ∷ xs) ≡ f x ∷ xs = ground arith in
        let changed : Elem y (f x ∷ xs) = subst (Elem y) step m in
        elim changed [ inl e ↦ inr (x, ground arith, e) | inr k ↦ inl (inr k) ]
    | inr t ↦
        let step : map_first p f (x ∷ xs) ≡ x ∷ map_first p f xs = ground arith in
        let kept : Elem y (x ∷ map_first p f xs) = subst (Elem y) step m in
        elim kept [
          | inl e ↦ inl (inl e)
          | inr k ↦ elim (map_first-Elem p f y xs k) [
            | inl old ↦ inl (inr old)
            | inr (z, found, c) ↦ inr (z, ground arith, c)
          ]
        ]
  ]

  pub last-append : (xs : List A) (x : A) → last (xs ++ x ∷ []) ≡ some x
  unfolding last
  last-append [] x = refl
  last-append (y ∷ []) x = refl
  last-append (y ∷ z ∷ zs) x = last-append (z ∷ zs) x

  pub last-map_last :
      (f : A → A) (xs : List A)
      → last (map_last f xs) ≡ elim (last xs) [ none ↦ none | some x ↦ some (f x) ]
  unfolding last map_last
  last-map_last f [] = refl
  last-map_last f (x ∷ []) = refl
  last-map_last f (x ∷ y ∷ []) = refl
  last-map_last f (x ∷ y ∷ z ∷ zs) = last-map_last f (y ∷ z ∷ zs)

  pub last-Elem : (xs : List A) (x : A) → last xs ≡ some x → Elem x xs
  unfolding last
  last-Elem [] x h = cc
  last-Elem (y ∷ []) x h = ground arith
  last-Elem (y ∷ z ∷ zs) x h = inr (last-Elem (z ∷ zs) x h)

  -- The last element after a change of some element is the old one, or the changed old one.
  pub last-map_first :
      (p : A → Bool) (f : A → A) (xs : List A) (y : A)
      → last (map_first p f xs) ≡ some y
      → (last xs ≡ some y) ⊎ ((x : A) × (last xs ≡ some x) × (p x ≡ true) × (y ≡ f x))
  unfolding last map_first
  last-map_first p f [] y h = cc
  last-map_first p f (x ∷ []) y h = elim (Bool-cases (p x)) [
    | inl t ↦ inr (x, refl, t, ground arith)
    | inr t ↦ inl (ground arith)
  ]
  last-map_first p f (x ∷ z ∷ zs) y h = elim (Bool-cases (p x)) [
    | inl t ↦ inl (ground arith)
    | inr t ↦ last-map_first p f (z ∷ zs) y (longer t)
  ]
    where
      longer : p x ≡ false → last (map_first p f (z ∷ zs)) ≡ some y
      longer t = ground arith

  -- An element that a change passes by stays, and the one that it finds becomes its image.
  pub Elem-map_first :
      (p : A → Bool) (f : A → A) (y : A) (xs : List A)
      → Elem y xs
      → Elem y (map_first p f xs) ⊎ ((p y ≡ true) × Elem (f y) (map_first p f xs))
  unfolding map_first
  Elem-map_first p f y [] m = elim m [ ]
  Elem-map_first p f y (x ∷ xs) m = elim (Bool-cases (p x)) [
    | inl t ↦
        let step : map_first p f (x ∷ xs) ≡ f x ∷ xs = ground arith in
        elim m [
          | inl e ↦ inr (ground arith, subst (Elem (f y)) (sym step) (inl (ap f e)))
          | inr k ↦ inl (subst (Elem y) (sym step) (inr k))
        ]
    | inr t ↦
        let step : map_first p f (x ∷ xs) ≡ x ∷ map_first p f xs = ground arith in
        elim m [
          | inl e ↦ inl (subst (Elem y) (sym step) (inl e))
          | inr k ↦ elim (Elem-map_first p f y xs k) [
            | inl old ↦ inl (subst (Elem y) (sym step) (inr old))
            | inr (h, new) ↦ inr (h, subst (Elem (f y)) (sym step) (inr new))
          ]
        ]
  ]

  -- The last element before a change of some element is the new one, or its image is.
  pub last-map_first_forward :
      (p : A → Bool) (f : A → A) (xs : List A) (x : A)
      → last xs ≡ some x
      → (last (map_first p f xs) ≡ some x) ⊎ ((p x ≡ true) × (last (map_first p f xs) ≡ some (f x)))
  unfolding last map_first
  last-map_first_forward p f [] x h = cc
  last-map_first_forward p f (y ∷ []) x h = elim (Bool-cases (p y)) [
    | inl t ↦ inr (ground arith, ground arith)
    | inr t ↦ inl (ground arith)
  ]
  last-map_first_forward p f (y ∷ z ∷ zs) x h = elim (Bool-cases (p y)) [
    | inl t ↦ inl (ground arith)
    | inr t ↦ elim (last-map_first_forward p f (z ∷ zs) x h) [
      | inl e ↦ inl (behind t e)
      | inr (k, e) ↦ inr (k, behind t e)
    ]
  ]
    where
      behind :
          {w : A}
          → p y ≡ false
          → last (map_first p f (z ∷ zs)) ≡ some w
          → last (map_first p f (y ∷ z ∷ zs)) ≡ some w
      behind t e = elim (Bool-cases (p z)) [ inl s ↦ ground arith | inr s ↦ ground arith ]

pub Elem-map : {A B : Type 0} (f : A → B) (y : A) (xs : List A) → Elem y xs → Elem (f y) (map f xs)
Elem-map f y [] m = elim m [ ]
Elem-map f y (x ∷ xs) (inl e) = inl (ap f e)
Elem-map f y (x ∷ xs) (inr m) = inr (Elem-map f y xs m)

pub map-Elem :
    {A B : Type 0} (f : A → B) (y : B) (xs : List A)
    → Elem y (map f xs)
    → (x : A) × Elem x xs × (y ≡ f x)
map-Elem f y [] m = elim m [ ]
map-Elem f y (x ∷ xs) (inl e) = (x, inl refl, e)
map-Elem f y (x ∷ xs) (inr m) = let (z, k, e) = map-Elem f y xs m in (z, inr k, e)

pub Distinct-append :
    {A : Type 0} (xs ys : List A)
    → Distinct xs
    → Distinct ys
    → ((k : A) → Elem k xs → Elem k ys → ⊥)
    → Distinct (xs ++ ys)
Distinct-append [] ys d e apart = e
Distinct-append (x ∷ xs) ys d e apart = (
  (λ m. elim ((append-Elem x xs ys).0 m) [ inl n ↦ d.0 n | inr n ↦ apart x (inl refl) n ]),
  Distinct-append xs ys d.1 e (λ k m n. apart k (inr m) n),
)
