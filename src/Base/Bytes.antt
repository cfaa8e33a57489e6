-- ===== src/Base/Bytes.antt =====
-- Byte strings: UTF-8, big-endian integers, and lists that are read off from the front.
use Prim.Native.Nat.{ℕ, zero, suc, ◌+◌, ◌/◌, ◌%◌, ◌^◌, ◌<◌}
use mathlib.Core.Path.{◌≡◌, refl, ◌∙◌, sym}
use mathlib.Core.List.{List, [], ◌∷◌, ◌++◌}
use native.Mathlib.Omega.{arith}
use native.Mathlib.Nat.{pow-suc}
use idr.Base.Tests.{ltb, if◌then◌else◌}
use idr.Base.Lists.{length, All, length-append}
use idr.Base.Strings.{Text, len, utf8_width}

-- The bytes of a Unicode scalar value.
unfoldable pub utf8 : ℕ → List ℕ
utf8 c =
    if ltb c 0x80
    then c ∷ []
    else if ltb c 0x800
    then (0xC0 + c / 64) ∷ (0x80 + c % 64) ∷ []
    else if ltb c 0x10000
    then (0xE0 + c / 4096) ∷ (0x80 + (c / 64) % 64) ∷ (0x80 + c % 64) ∷ []
    else (0xF0 + c / 262144)
      ∷ (0x80 + (c / 4096) % 64)
      ∷ (0x80 + (c / 64) % 64)
      ∷ (0x80 + c % 64)
      ∷ []

-- `str::as_bytes`
unfoldable pub as_bytes : Text → List ℕ
unfolding utf8
as_bytes [] = []
as_bytes (c ∷ cs) = utf8 c ++ as_bytes cs

-- Every element is a Unicode scalar value, or a surrogate; so is every text of the program.
abbrev pub IsText : Text → Type 0
IsText = All (λ c. c < 0x110000)

utf8-split :
    (c d : ℕ) (xs ys : List ℕ)
    → c < 0x110000
    → d < 0x110000
    → utf8 c ++ xs ≡ utf8 d ++ ys
    → (c ≡ d) × (xs ≡ ys)
unfolding utf8
utf8-split c d xs ys h k e = ground arith

utf8-cons : (c : ℕ) (xs : List ℕ) → utf8 c ++ xs ≡ [] → ⊥
unfolding utf8
utf8-cons c xs e = ground arith

pub as_bytes-injective : (s t : Text) → IsText s → IsText t → as_bytes s ≡ as_bytes t → s ≡ t
unfolding as_bytes
as_bytes-injective [] [] h k e = refl
as_bytes-injective [] (d ∷ ds) h k e = absurd (utf8-cons d (as_bytes ds) (sym e))
as_bytes-injective (c ∷ cs) [] h k e = absurd (utf8-cons c (as_bytes cs) e)
as_bytes-injective (c ∷ cs) (d ∷ ds) h k e =
    let (head, tail) = utf8-split c d (as_bytes cs) (as_bytes ds) h.0 k.0 e in
    cc (head, as_bytes-injective cs ds h.1 k.1 tail)

length-utf8 : (c : ℕ) → length (utf8 c) ≡ utf8_width c
unfolding utf8 utf8_width
length-utf8 c = ground arith

-- `len` is the number of bytes.
pub length-as_bytes : (s : Text) → length (as_bytes s) ≡ len s
unfolding as_bytes len
length-as_bytes [] = refl
length-as_bytes (c ∷ cs) =
    omega (arith, length-append (utf8 c) (as_bytes cs), length-utf8 c, length-as_bytes cs)

-- `to_be_bytes` of an integer of the given width in bytes.
unfoldable pub to_be_bytes : ℕ → ℕ → List ℕ
to_be_bytes zero n = []
to_be_bytes (suc k) n = to_be_bytes k (n / 256) ++ n % 256 ∷ []

pub length-to_be_bytes : (k n : ℕ) → length (to_be_bytes k n) ≡ k
unfolding to_be_bytes
length-to_be_bytes zero n = refl
length-to_be_bytes (suc k) n =
    omega (
      arith,
      length-append (to_be_bytes k (n / 256)) (n % 256 ∷ []),
      length-to_be_bytes k (n / 256),
    )

-- Two lists that begin with parts of the same length.
pub append-split :
    (xs ys front back : List ℕ)
    → length xs ≡ length ys
    → xs ++ front ≡ ys ++ back
    → (xs ≡ ys) × (front ≡ back)
append-split [] [] front back h e = (refl, e)
append-split [] (y ∷ ys) front back h e = absurd (omega arith)
append-split (x ∷ xs) [] front back h e = absurd (omega arith)
append-split (x ∷ xs) (y ∷ ys) front back h e =
    let (same, rest) = append-split xs ys front back (omega arith) (cc) in (cc same, rest)

div-lt_pow : (k n : ℕ) → n < 256 ^ suc k → n / 256 < 256 ^ k
div-lt_pow k n h = omega (arith, pow-suc 256 k)

pub to_be_bytes-injective :
    (k m n : ℕ) → m < 256 ^ k → n < 256 ^ k → to_be_bytes k m ≡ to_be_bytes k n → m ≡ n
unfolding to_be_bytes
to_be_bytes-injective zero m n h i e = omega arith
to_be_bytes-injective (suc k) m n h i e =
    let lengths : length (to_be_bytes k (m / 256)) ≡ length (to_be_bytes k (n / 256)) =
      length-to_be_bytes k (m / 256) ∙ sym (length-to_be_bytes k (n / 256)) in
    let (front, last) =
      append-split (to_be_bytes k (m / 256)) (to_be_bytes k (n / 256)) (m % 256 ∷ []) (n % 256 ∷ [])
        lengths e in
    let high : m / 256 ≡ n / 256 =
      to_be_bytes-injective k (m / 256) (n / 256) (div-lt_pow k m h) (div-lt_pow k n i) front in
    let low : m % 256 ≡ n % 256 = ground (arith, last) in omega (arith, high, low)
