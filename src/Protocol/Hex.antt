-- ===== src/Protocol/Hex.antt =====
-- crates/idr-protocol/src/human_centered/trust.rs: `decode_hex` and `decode_nibble`.
pub mod RoundTrip
use idr.Base.{
  ℕ, zero, suc, ◌+◌, ◌-◌, ◌*◌, Bool, ◌&&◌, leb, List, [], ◌∷◌, length, Option, none, some,
  if◌then◌else◌, ◌==◌, nat_eq,
}

unfoldable pub decode_nibble : ℕ → Option ℕ
decode_nibble value =
    if leb b'0' value && leb value b'9'
    then some (value - b'0')
    else if leb b'a' value && leb value b'f'
    then some (value - b'a' + 10)
    else none

-- `Option`'s `?` in the loop: the first bad digit ends it.
abbrev pub join : Option ℕ → Option ℕ → Option (List ℕ) → Option (List ℕ)
join (some high) (some low) (some rest) = some ((high * 16 + low) ∷ rest)
join none _ _ = none
join (some _) none _ = none
join (some _) (some _) none = none

-- The loop over the output bytes, two digits to each.
unfoldable pub decode_pairs : ℕ → List ℕ → Option (List ℕ)
unfolding decode_nibble
decode_pairs zero digits = some []
decode_pairs (suc n) (h ∷ l ∷ digits) =
    join (decode_nibble h) (decode_nibble l) (decode_pairs n digits)
decode_pairs (suc n) [] = none
decode_pairs (suc n) (h ∷ []) = none

-- `decode_hex::<N>`
unfoldable pub decode_hex : ℕ → List ℕ → Option (List ℕ)
unfolding decode_pairs
decode_hex n value = if length value == n * 2 then decode_pairs n value else none
