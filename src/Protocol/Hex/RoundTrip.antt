-- ===== src/Protocol/Hex/RoundTrip.antt =====
-- Decoding undoes the printing of bytes in lower-case hexadecimal, and nothing else decodes.
use Prim.Native.Nat.{◌/◌, ◌%◌}
use idr.Base.{
  ℕ, zero, suc, ◌+◌, ◌-◌, ◌*◌, ◌<◌, ◌≡◌, ◌↔◌, refl, List, [], ◌∷◌, length, Option, none, some,
  arith, All, ltb, if◌then◌else◌, ap, sym,
}
use idr.Protocol.Hex.{decode_nibble, decode_pairs, decode_hex, join}

abbrev pub nibble : ℕ → ℕ
nibble n = if ltb n 10 then b'0' + n else b'a' + n - 10

-- The lower-case hexadecimal digits of bytes, two to each.
abbrev pub encode_hex : List ℕ → List ℕ
encode_hex [] = []
encode_hex (b ∷ bs) = nibble (b / 16) ∷ nibble (b % 16) ∷ encode_hex bs

decode-nibble : (n : ℕ) → n < 16 → decode_nibble (nibble n) ≡ some n
unfolding decode_nibble
decode-nibble n h = ground arith

nibble-decode : (c n : ℕ) → decode_nibble c ≡ some n → (nibble n ≡ c) × (n < 16)
unfolding decode_nibble
nibble-decode c n h = ground arith

decode_pairs-encode :
    (bs : List ℕ) → All (λ b. b < 256) bs → decode_pairs (length bs) (encode_hex bs) ≡ some bs
unfolding decode_pairs
decode_pairs-encode [] h = refl
decode_pairs-encode (b ∷ bs) h =
    rw
      (
        decode-nibble (b / 16) (omega arith),
        decode-nibble (b % 16) (omega arith),
        decode_pairs-encode bs h.1,
      )
      (ap (λ n. some (n ∷ bs)) (omega arith))

length-encode_hex : (bs : List ℕ) → length (encode_hex bs) ≡ length bs * 2
length-encode_hex [] = refl
length-encode_hex (b ∷ bs) = omega (arith, length-encode_hex bs)

join-some :
    (a b : Option ℕ) (r : Option (List ℕ)) (out : List ℕ)
    → join a b r ≡ some out
    → (h : ℕ) × (l : ℕ) × (rest : List ℕ) × (a ≡ some h)
      × (b ≡ some l)
      × (r ≡ some rest)
      × (out ≡ (h * 16 + l) ∷ rest)
join-some none b r out e = cc
join-some (some h) none r out e = cc
join-some (some h) (some l) none out e = cc
join-some (some h) (some l) (some rest) out e = (h, l, rest, refl, refl, refl, ground arith)

encode-decode_pairs :
    (n : ℕ) (digits bs : List ℕ)
    → length digits ≡ n * 2
    → decode_pairs n digits ≡ some bs
    → (encode_hex bs ≡ digits) × (length bs ≡ n) × All (λ b. b < 256) bs
unfolding decode_pairs
encode-decode_pairs zero [] bs l e = ground arith
encode-decode_pairs zero (d ∷ ds) bs l e = absurd (omega arith)
encode-decode_pairs (suc n) [] bs l e = absurd (omega arith)
encode-decode_pairs (suc n) (h ∷ []) bs l e = absurd (omega arith)
encode-decode_pairs (suc n) (h ∷ d ∷ ds) bs l e =
    let (a, b, rest, ea, eb, er, eout) =
      join-some (decode_nibble h) (decode_nibble d) (decode_pairs n ds) bs e in
    let (same, size, bytes) = encode-decode_pairs n ds rest (omega arith) er in
    let (ha, la) = nibble-decode h a ea in
    let (hb, lb) = nibble-decode d b eb in
    let hi : (a * 16 + b) / 16 ≡ a = omega arith in
    let lo : (a * 16 + b) % 16 ≡ b = omega arith in
    rw eout (rw (hi, lo, ha, hb, same) refl, omega arith, (omega arith, bytes))

-- A text decodes to n bytes exactly when it is the lower-case hexadecimal text of those bytes.
pub decode_hex_iff :
    (n : ℕ) (digits bs : List ℕ)
    → (decode_hex n digits ≡ some bs)
      ↔ ((digits ≡ encode_hex bs) × (length bs ≡ n) × All (λ b. b < 256) bs)
unfolding decode_hex
decode_hex_iff n digits bs = (to, from)
  where
    to :
        decode_hex n digits ≡ some bs
        → (digits ≡ encode_hex bs) × (length bs ≡ n) × All (λ b. b < 256) bs
    to e =
        let (same, size, bytes) = encode-decode_pairs n digits bs (ground arith) (ground arith) in
        (sym same, size, bytes)

    from :
        (digits ≡ encode_hex bs) × (length bs ≡ n) × All (λ b. b < 256) bs
        → decode_hex n digits ≡ some bs
    from (same, size, bytes) =
        let sized : length digits ≡ n * 2 = rw same (omega (arith, length-encode_hex bs)) in
        let decoded : decode_pairs n digits ≡ some bs =
          rw (same, ← size) (decode_pairs-encode bs bytes) in
        ground (arith, sized, decoded)
