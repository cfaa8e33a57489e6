-- ===== src/Base/Strings.antt =====
-- What the program uses of Rust's `str`: a text is the list of its Unicode scalar values.
use Prim.Native.Nat.{ℕ, zero, suc, ◌+◌, ◌/◌, ◌%◌, Ordering, compare}
use mathlib.Core.Path.{◌≡◌, refl}
use mathlib.Core.Logic.{◌↔◌}
use mathlib.Core.Bool.{Bool, ◌||◌, ◌&&◌}
use mathlib.Core.List.{List, [], ◌∷◌, ◌++◌, reverse}
use native.Mathlib.Omega.{arith}
use native.Mathlib.Decide.{ℕ_discrete}
use idr.Base.Tests.{Eq, leb, ltb, if◌then◌else◌, ◌==◌, nat_eq}
use idr.Base.Lists.{any, is_empty}
use idr.Base.Order.{Ord}

abbrev pub Text : Type 0
Text = List ℕ

unfoldable pub Text-discrete : Discrete Text
Text-discrete = hlevel ℕ_discrete

instance abbrev pub text_eq : Eq Text
text_eq = record { dec = Text-discrete }

-- `char::is_whitespace`: the Unicode property White_Space.
pub is_whitespace : ℕ → Bool
is_whitespace c =
    leb 9 c && leb c 13
    || c == 32
    || c == 0x85
    || c == 0xA0
    || c == 0x1680
    || leb 0x2000 c && leb c 0x200A
    || c == 0x2028
    || c == 0x2029
    || c == 0x202F
    || c == 0x205F
    || c == 0x3000

-- `char::is_control`: the Unicode category Cc.
pub is_control : ℕ → Bool
is_control c = ltb c 32 || leb 127 c && leb c 159

-- `str::len` counts the bytes of UTF-8.
unfoldable pub utf8_width : ℕ → ℕ
utf8_width c = if ltb c 0x80 then 1 else if ltb c 0x800 then 2 else if ltb c 0x10000 then 3 else 4

unfoldable pub len : Text → ℕ
unfolding utf8_width
len [] = 0
len (c ∷ cs) = utf8_width c + len cs

unfoldable pub trim_start : Text → Text
unfolding is_whitespace
trim_start [] = []
trim_start (c ∷ cs) = let rest = trim_start cs in if is_whitespace c then rest else c ∷ cs

unfoldable pub trim : Text → Text
unfolding trim_start
trim s = reverse (trim_start (reverse (trim_start s)))

-- `s.trim().is_empty()`
unfoldable pub is_blank : Text → Bool
unfolding trim
is_blank s = is_empty (trim s)

unfoldable pub has_control : Text → Bool
unfolding is_control any
has_control s = any is_control s

-- `str::cmp` compares bytes of UTF-8, which orders texts as their scalar values do.
abbrev pub cmp : Text → Text → Ordering
cmp [] [] = Ordering.eq
cmp [] (_ ∷ _) = Ordering.lt
cmp (_ ∷ _) [] = Ordering.gt
cmp (a ∷ xs) (b ∷ ys) =
    let rest = cmp xs ys in
    elim (compare a b) [
      | Ordering.eq ↦ rest
      | Ordering.lt ↦ Ordering.lt
      | Ordering.gt ↦ Ordering.gt
    ]

pub cmp-eq_iff : (a b : Text) → (cmp a b ≡ Ordering.eq) ↔ (a ≡ b)
cmp-eq_iff [] [] = ground arith
cmp-eq_iff [] (b ∷ ys) = ground arith
cmp-eq_iff (a ∷ xs) [] = ground arith
cmp-eq_iff (a ∷ xs) (b ∷ ys) = ground (arith, cmp-eq_iff xs ys)

pub cmp-flip : (a b : Text) → (cmp a b ≡ Ordering.lt) ↔ (cmp b a ≡ Ordering.gt)
cmp-flip [] [] = ground arith
cmp-flip [] (b ∷ ys) = ground arith
cmp-flip (a ∷ xs) [] = ground arith
cmp-flip (a ∷ xs) (b ∷ ys) = ground (arith, cmp-flip xs ys)

pub cmp_trans :
    (a b c : Text) → cmp a b ≡ Ordering.lt → cmp b c ≡ Ordering.lt → cmp a c ≡ Ordering.lt
cmp_trans [] [] c h k = k
cmp_trans [] (b ∷ ys) [] h k = cc
cmp_trans [] (b ∷ ys) (c ∷ zs) h k = refl
cmp_trans (a ∷ xs) [] c h k = cc
cmp_trans (a ∷ xs) (b ∷ ys) [] h k = k
cmp_trans (a ∷ xs) (b ∷ ys) (c ∷ zs) h k = ground (arith, cmp_trans xs ys zs)

instance abbrev pub text_ord : Ord Text
text_ord = record { cmp = cmp; cmp_eq = cmp-eq_iff; cmp_flip = cmp-flip; cmp_trans = cmp_trans }

-- The decimal digits of a number of at most the given count of digits, the last ones.
unfoldable digits : ℕ → ℕ → Text
digits zero n = []
digits (suc k) n =
    let front = digits k (n / 10) in
    if ltb n 10 then (b'0' + n) ∷ [] else front ++ (b'0' + n % 10) ∷ []

-- `Display` of a `u64`, which has at most 20 digits.
unfoldable pub decimal : ℕ → Text
unfolding digits
decimal n = digits 20 n

-- A text of ASCII characters, for examples.
abbrev pub repeat : ℕ → ℕ → Text
repeat zero c = []
repeat (suc n) c = c ∷ repeat n c
