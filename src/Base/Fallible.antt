-- ===== src/Base/Fallible.antt =====
-- Rust's `Result` with the `?` operator as bind, and the guard `if bad { return Err(e) }`.
use mathlib.Core.Path.{◌≡◌, refl}
use mathlib.Core.Bool.{Bool, true, false}
use mathlib.Core.Logic.{◌⊎◌, inl, inr}
use mathlib.Core.Option.{Option, none, some}
use mathlib.Core.List.{List, [], ◌∷◌}

pub data Result {ℓ κ} (A : Type ℓ) (E : Type κ) : Type (ℓ ⊔ κ) where
  ok : A → Result A E
  err : E → Result A E

infixl 5 ◌>>=◌ ◌>>◌
abbrev pub ◌>>=◌ {ℓ κ μ} :
    {A : Type ℓ} {B : Type κ} {E : Type μ} → Result A E → (A → Result B E) → Result B E
ok a >>= f = f a
err e >>= f = err e

abbrev pub ◌>>◌ {ℓ μ} : {B : Type ℓ} {E : Type μ} → Result (Unit {0}) E → Result B E → Result B E
m >> k = m >>= λ _. k

-- `if bad { return Err(e); }`
abbrev pub deny {μ} : {E : Type μ} → Bool → E → Result (Unit {0}) E
deny true e = err e
deny false e = ok tt

abbrev pub map_err {ℓ κ μ} :
    {A : Type ℓ} {E : Type κ} {F : Type μ} → (E → F) → Result A E → Result A F
map_err f (ok a) = ok a
map_err f (err e) = err (f e)

-- `.ok_or(e)`
abbrev pub ok_or {ℓ κ} : {A : Type ℓ} {E : Type κ} → Option A → E → Result A E
ok_or none e = err e
ok_or (some a) e = ok a

abbrev pub is_err {ℓ κ} : {A : Type ℓ} {E : Type κ} → Result A E → Bool
is_err (ok _) = false
is_err (err _) = true

-- `for x in xs { f(x)?; }`
unfoldable pub try_each {ℓ κ} :
    {A : Type ℓ} {E : Type κ} → (A → Result (Unit {0}) E) → List A → Result (Unit {0}) E
try_each f [] = ok tt
try_each f (x ∷ xs) = f x >> try_each f xs

-- `if let Some(x) = &o { f(x)?; }`
abbrev pub try_some {ℓ κ} :
    {A : Type ℓ} {E : Type κ} → (A → Result (Unit {0}) E) → Option A → Result (Unit {0}) E
try_some f none = ok tt
try_some f (some x) = f x

pub Result-cases {ℓ κ} :
    {A : Type ℓ} {E : Type κ} (m : Result A E) → ((a : A) × (m ≡ ok a)) ⊎ ((e : E) × (m ≡ err e))
Result-cases (ok a) = inl (a, refl)
Result-cases (err e) = inr (e, refl)
