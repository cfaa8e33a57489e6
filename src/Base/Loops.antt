-- ===== src/Base/Loops.antt =====
-- What the loops `try_each` and `try_some` decide.
use mathlib.Core.Path.{◌≡◌, refl}
use mathlib.Core.Logic.{◌↔◌}
use mathlib.Core.List.{List, [], ◌∷◌}
use native.Mathlib.Omega.{arith}
use idr.Base.Fallible.{Result, ok, err, try_each}
use idr.Base.Lists.{All}

module _ {A E : Type 0} (f : A → Result (Unit {0}) E) where
  pub try_each-ok_iff : (xs : List A) → (try_each f xs ≡ ok tt) ↔ All (λ x. f x ≡ ok tt) xs
  unfolding try_each
  try_each-ok_iff [] = ((λ _. tt), λ _. refl)
  try_each-ok_iff (x ∷ xs) = ground (arith, try_each-ok_iff xs)

  -- A loop that returns an error returns one of the body's.
  pub try_each-ne_err :
      (e : E) → ((x : A) → f x ≡ err e → ⊥) → (xs : List A) → try_each f xs ≡ err e → ⊥
  unfolding try_each
  try_each-ne_err e never [] h = cc
  try_each-ne_err e never (x ∷ xs) h = ground (arith, never x, try_each-ne_err e never xs)
