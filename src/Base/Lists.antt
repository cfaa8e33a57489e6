-- ===== src/Base/Lists.antt =====
-- Lists measured by native numbers, Boolean quantifiers over them, and the predicates they decide.
use Prim.Native.Nat.{ℕ, suc, ◌+◌}
use mathlib.Core.Path.{◌≡◌, refl, sym, subst}
use mathlib.Core.Logic.{◌⊎◌, inl, inr, ◌↔◌}
use mathlib.Core.Bool.{Bool, true, false, ◌||◌, ◌&&◌}
use mathlib.Core.Option.{Option, none, some}
use mathlib.Core.List.{List, [], ◌∷◌, ◌++◌}
use native.Mathlib.Omega.{arith}
use idr.Base.Tests.{Eq, ◌==◌, if◌then◌else◌, Bool-cases}

module _ {ℓ} {A : Type ℓ} where
  abbrev pub length : List A → ℕ
  length [] = 0
  length (x ∷ xs) = suc (length xs)

  pub length-append : (xs ys : List A) → length (xs ++ ys) ≡ length xs + length ys
  length-append [] ys = omega arith
  length-append (x ∷ xs) ys = omega (arith, length-append xs ys)

  abbrev pub is_empty : List A → Bool
  is_empty [] = true
  is_empty (_ ∷ _) = false

  -- `.iter().any(p)`; the recursive call has no effect, so it may be made early.
  unfoldable pub any : (A → Bool) → List A → Bool
  any p [] = false
  any p (x ∷ xs) = p x || any p xs

  unfoldable pub all : (A → Bool) → List A → Bool
  all p [] = true
  all p (x ∷ xs) = p x && all p xs

  -- `.iter().filter(p)`
  unfoldable pub filter : (A → Bool) → List A → List A
  filter p [] = []
  filter p (x ∷ xs) = let rest = filter p xs in if p x then x ∷ rest else rest

module _ {ℓ} {A : Type ℓ} where
  -- `.iter().find(p)`
  unfoldable pub find : (A → Bool) → List A → Option A
  find p [] = none
  find p (x ∷ xs) = let rest = find p xs in if p x then some x else rest

  -- `.last()`
  unfoldable pub last : List A → Option A
  last [] = none
  last (x ∷ []) = some x
  last (_ ∷ y ∷ ys) = last (y ∷ ys)

  -- A change of the last element, `if let Some(x) = xs.last_mut() { … }`.
  unfoldable pub map_last : (A → A) → List A → List A
  map_last f [] = []
  map_last f (x ∷ []) = f x ∷ []
  map_last f (x ∷ y ∷ ys) = x ∷ map_last f (y ∷ ys)

  -- A change of the first element that passes the test, `if let Some(x) = xs.iter_mut().find(p)`.
  unfoldable pub map_first : (A → Bool) → (A → A) → List A → List A
  map_first p f [] = []
  map_first p f (x ∷ xs) = let rest = x ∷ map_first p f xs in if p x then f x ∷ xs else rest

module _ {A : Type 0} where
  -- `x` is an element of the list.
  abbrev pub Elem : A → List A → Type 0
  Elem x [] = ⊥
  Elem x (y ∷ ys) = (x ≡ y) ⊎ Elem x ys

  pub any-false : (p : A → Bool) (x : A) (xs : List A) → any p xs ≡ false → Elem x xs → p x ≡ false
  unfolding any
  any-false p x [] h m = elim m [ ]
  any-false p x (y ∷ ys) h (inl e) = ground arith
  any-false p x (y ∷ ys) h (inr m) = any-false p x ys (ground arith) m

  pub any-true : (p : A → Bool) (xs : List A) → any p xs ≡ true → (x : A) × Elem x xs × (p x ≡ true)
  unfolding any
  any-true p [] h = cc
  any-true p (y ∷ ys) h = elim (Bool-cases (p y)) [
    | inl e ↦ (y, inl refl, e)
    | inr e ↦
        let rest : (x : A) × Elem x ys × (p x ≡ true) = any-true p ys (ground arith) in
        (rest.0, inr rest.1, rest.2)
  ]

  pub any_intro : (p : A → Bool) (x : A) (xs : List A) → Elem x xs → p x ≡ true → any p xs ≡ true
  unfolding any
  any_intro p x [] m t = elim m [ ]
  any_intro p x (y ∷ ys) (inl e) t = ground arith
  any_intro p x (y ∷ ys) (inr m) t = ground (arith, any_intro p x ys m t)

module _ {A : Type 0} ⦃e : Eq A⦄ where
  -- `.contains(x)`
  unfoldable pub contains : List A → A → Bool
  contains [] a = false
  contains (x ∷ xs) a = x == a || contains xs a

  -- The position of the first element equal to `a`.
  unfoldable pub index_of : List A → A → Option ℕ
  index_of [] a = none
  index_of (x ∷ xs) a =
      let later : Option ℕ = elim (index_of xs a) [ none ↦ none | some i ↦ some (suc i) ] in
      if x == a then some 0 else later

  pub contains_iff : (xs : List A) (a : A) → (contains xs a ≡ true) ↔ Elem a xs
  unfolding contains
  contains_iff [] a = ((λ h. cc), λ m. elim m [ ])
  contains_iff (x ∷ xs) a = ground (arith, contains_iff xs a)

module _ {A : Type 0} where
  -- `P` holds of every element.
  abbrev pub All : (A → Type 0) → List A → Type 0
  All P [] = Unit {0}
  All P (x ∷ xs) = P x × All P xs

  pub All-Elem : (P : A → Type 0) (x : A) (xs : List A) → All P xs → Elem x xs → P x
  All-Elem P x [] h m = elim m [ ]
  All-Elem P x (y ∷ ys) h (inl e) = subst P (sym e) h.0
  All-Elem P x (y ∷ ys) h (inr m) = All-Elem P x ys h.1 m

  pub All-intro : (P : A → Type 0) (xs : List A) → ((x : A) → Elem x xs → P x) → All P xs
  All-intro P [] h = tt
  All-intro P (x ∷ xs) h = (h x (inl refl), All-intro P xs (λ y m. h y (inr m)))

  pub All-iff : (P Q : A → Type 0) → ((x : A) → P x ↔ Q x) → (xs : List A) → All P xs ↔ All Q xs
  All-iff P Q h [] = ((λ _. tt), λ _. tt)
  All-iff P Q h (x ∷ xs) =
      ((λ a. ((h x).0 a.0, (All-iff P Q h xs).0 a.1)), λ a. ((h x).1 a.0, (All-iff P Q h xs).1 a.1))

  -- No element occurs twice.
  abbrev pub Distinct : List A → Type 0
  Distinct [] = Unit {0}
  Distinct (x ∷ xs) = (Elem x xs → ⊥) × Distinct xs

  pub all-true : (p : A → Bool) (x : A) (xs : List A) → all p xs ≡ true → Elem x xs → p x ≡ true
  unfolding all
  all-true p x [] h m = elim m [ ]
  all-true p x (y ∷ ys) h (inl e) = ground arith
  all-true p x (y ∷ ys) h (inr m) = all-true p x ys (ground arith) m

  pub append-Elem : (a : A) (xs ys : List A) → Elem a (xs ++ ys) ↔ (Elem a xs ⊎ Elem a ys)
  append-Elem a [] ys = ground arith
  append-Elem a (x ∷ xs) ys = ground (arith, append-Elem a xs ys)
