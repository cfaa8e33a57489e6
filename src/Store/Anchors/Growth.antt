-- ===== src/Store/Anchors/Growth.antt =====
-- The anchor file of crates/idr-store/src/file_store.rs under a write at its end: what
-- `read_anchor_records` makes of it.
use idr.Base.{
  ℕ, ◌≡◌, ◌≢◌, refl, false, ◌==◌, nat_eq, List, [], ◌∷◌, ◌++◌, all, is_empty, last, Option, none,
  some, ok, arith, Bool-cases, Result-cases, Option-cases, inl, inr,
}
use idr.Store.Anchors.{
  AnchorRecord, check_anchor, check_anchors, validate_anchor_chain, is_ascii_whitespace, committed,
  extend_line, committed_lines, Format, parse_anchors, committed_anchors,
}

-- No byte is a newline.
abbrev pub OneLine : List ℕ → Type 0
OneLine [] = Unit {0}
OneLine (byte ∷ bytes) = (byte ≢ 10) × OneLine bytes

torn_line : (torn : List ℕ) → OneLine torn → committed_lines torn ≡ []
unfolding committed_lines
torn_line [] h = refl
torn_line (byte ∷ torn) h = ground (arith, torn_line torn h.1)

-- Bytes behind the last newline do not count.
torn_lines :
    (bytes torn : List ℕ) → OneLine torn → committed_lines (bytes ++ torn) ≡ committed_lines bytes
unfolding committed_lines
torn_lines [] torn h = torn_line torn h
torn_lines (byte ∷ bytes) torn h = ground (arith, torn_lines bytes torn h)

last_line : (line : List ℕ) → OneLine line → committed_lines (line ++ 10 ∷ []) ≡ line ∷ []
unfolding committed_lines
last_line [] h = ground arith
last_line (byte ∷ line) h = ground (arith, last_line line h.1)

whole_tail :
    (byte : ℕ) (bytes : List ℕ) → committed (byte ∷ bytes) ≡ byte ∷ bytes → committed bytes ≡ bytes
unfolding committed
whole_tail byte bytes h = ground arith

has_line :
    (byte : ℕ) (bytes : List ℕ)
    → committed (byte ∷ bytes) ≡ byte ∷ bytes
    → is_empty (committed_lines (byte ∷ bytes)) ≡ false
unfolding committed committed_lines
has_line byte [] h = ground arith
has_line byte (next ∷ bytes) h =
    ground (arith, has_line next bytes (whole_tail byte (next ∷ bytes) h))

extend_line-append :
    (byte : ℕ) (line : List ℕ) (lines : List (List ℕ))
    → is_empty lines ≡ false
    → extend_line byte (lines ++ line ∷ []) ≡ extend_line byte lines ++ line ∷ []
extend_line-append byte line [] h = absurd (ground arith)
extend_line-append byte line (first ∷ lines) h = refl

before_last :
    (byte : ℕ) (bytes : List ℕ)
    → committed (byte ∷ bytes) ≡ byte ∷ bytes
    → (byte == 10) ≡ false
    → is_empty (committed_lines bytes) ≡ false
unfolding committed
before_last byte [] h e = absurd (ground arith)
before_last byte (next ∷ bytes) h e = has_line next bytes (whole_tail byte (next ∷ bytes) h)

-- A whole line behind whole lines is one more line.
line_added :
    (bytes line : List ℕ)
    → committed bytes ≡ bytes
    → OneLine line
    → committed_lines (bytes ++ (line ++ 10 ∷ [])) ≡ committed_lines bytes ++ line ∷ []
unfolding committed_lines
line_added [] line h l = last_line line l
line_added (byte ∷ bytes) line h l =
    let rest = line_added bytes line (whole_tail byte bytes h) l in
    elim (Bool-cases (byte == 10)) [
      | inl e ↦ ground (arith, rest)
      | inr e ↦ ground (
        arith,
        rest,
        extend_line-append byte line (committed_lines bytes) (before_last byte bytes h e),
      )
    ]

module _ (format : Format) where
  parse_anchors-append :
      (lines : List (List ℕ)) (line : List ℕ) (anchors : List AnchorRecord) (a : AnchorRecord)
      → parse_anchors format lines ≡ ok anchors
      → all is_ascii_whitespace line ≡ false
      → format.parse_anchor line ≡ some a
      → parse_anchors format (lines ++ line ∷ []) ≡ ok (anchors ++ a ∷ [])
  unfolding parse_anchors
  parse_anchors-append [] line anchors a h w p = ground arith
  parse_anchors-append (first ∷ lines) line anchors a h w p =
      elim (Option-cases (format.parse_anchor first)) [
        | inl n ↦ absurd (ground arith)
        | inr (b, e) ↦ elim (Result-cases (parse_anchors format lines)) [
          | inr (x, k) ↦ absurd (ground arith)
          | inl (bs, k) ↦ ground (arith, parse_anchors-append lines line bs a k w p)
        ]
      ]

-- The anchor before the place behind a chain.
abbrev latest_from : Option AnchorRecord → List AnchorRecord → Option AnchorRecord
latest_from previous [] = previous
latest_from previous (a ∷ chain) = latest_from (some a) chain

latest-last :
    (a : AnchorRecord) (chain : List AnchorRecord) → latest_from (some a) chain ≡ last (a ∷ chain)
unfolding last
latest-last a [] = refl
latest-last a (b ∷ chain) = latest-last b chain

latest_is_last : (chain : List AnchorRecord) → latest_from none chain ≡ last chain
unfolding last
latest_is_last [] = refl
latest_is_last (a ∷ chain) = latest-last a chain

check_anchors-append :
    (previous : Option AnchorRecord) (chain : List AnchorRecord) (a : AnchorRecord)
    → check_anchors previous chain ≡ ok tt
    → check_anchor (latest_from previous chain) a ≡ ok tt
    → check_anchors previous (chain ++ a ∷ []) ≡ ok tt
unfolding check_anchors
check_anchors-append previous [] a h k = ground arith
check_anchors-append previous (b ∷ chain) a h k = elim (Result-cases (check_anchor previous b)) [
  | inr (x, e) ↦ absurd (ground arith)
  | inl (u, e) ↦ ground (arith, check_anchors-append (some b) chain a (ground arith) k)
]

-- A file of whole lines with a further line reads as its anchors and that of the line, where the
-- line's anchor is linked to the last one.
pub committed_anchors-append :
    (format : Format) (bytes line : List ℕ) (anchors : List AnchorRecord) (a : AnchorRecord)
    → committed bytes ≡ bytes
    → OneLine line
    → committed_anchors format bytes ≡ ok anchors
    → all is_ascii_whitespace line ≡ false
    → format.parse_anchor line ≡ some a
    → check_anchor (last anchors) a ≡ ok tt
    → committed_anchors format (bytes ++ (line ++ 10 ∷ [])) ≡ ok (anchors ++ a ∷ [])
unfolding committed_anchors validate_anchor_chain
committed_anchors-append format bytes line anchors a c l h w p k =
    elim (Result-cases (parse_anchors format (committed_lines bytes))) [
      | inr (x, e) ↦ absurd (ground arith)
      | inl (chain, e) ↦ ground (
        arith,
        line_added bytes line c l,
        parse_anchors-append format (committed_lines bytes) line chain a e w p,
        latest_is_last chain,
        check_anchors-append none chain a,
      )
    ]

-- A file with the bytes of a torn write behind its last newline reads as before.
pub committed_anchors_torn :
    (format : Format) (bytes torn : List ℕ)
    → OneLine torn
    → committed_anchors format (bytes ++ torn) ≡ committed_anchors format bytes
unfolding committed_anchors
committed_anchors_torn format bytes torn h = ground (arith, torn_lines bytes torn h)

pub committed_torn :
    (bytes torn : List ℕ) → OneLine torn → committed (bytes ++ torn) ≡ committed bytes
unfolding committed
committed_torn [] [] h = refl
committed_torn [] (byte ∷ torn) h = ground (arith, committed_torn [] torn h.1)
committed_torn (byte ∷ bytes) torn h = ground (arith, committed_torn bytes torn h)
