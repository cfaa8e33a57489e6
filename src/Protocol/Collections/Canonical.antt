-- ===== src/Protocol/Collections/Canonical.antt =====
-- Canonical collections: what `canonical_references` and its twin return.
use idr.Base.{
  ◌≤◌, ◌≡◌, ◌↔◌, false, List, length, any, ok, arith, Elem, All, StrictlySorted, sort_dedup,
  sort_dedup-Elem, sort_dedup-StrictlySorted, sort_dedup_unique, is_blank, any-false,
  try_each-ok_iff, try_each,
}
use idr.Protocol.Reference.{Reference}
use idr.Protocol.ContractRef
use idr.Protocol.ContractRef.{ContractRef, contract_ref_ord}
use idr.Protocol.Collections.{reference_ord, canonical_references, canonical_contract_references}

canonical_references-eq :
    (values out : List Reference) → canonical_references values ≡ ok out → out ≡ sort_dedup values
unfolding canonical_references
canonical_references-eq values out h = ground arith

canonical_references-any :
    (values out : List Reference)
    → canonical_references values ≡ ok out
    → any (λ value. is_blank value.text) out ≡ false
unfolding canonical_references
canonical_references-any values out h = ground arith

canonical_references-length :
    (values out : List Reference) → canonical_references values ≡ ok out → length values ≤ 256
unfolding canonical_references
canonical_references-length values out h = ground arith

-- The canonical list is strictly ordered, has the elements of the given list and no blank one,
-- and comes from at most 256 references.
pub canonical_references-ok :
    (values out : List Reference)
    → canonical_references values ≡ ok out
    → StrictlySorted out
      × ((r : Reference) → Elem r out ↔ Elem r values)
      × ((r : Reference) → Elem r values → is_blank r.text ≡ false)
      × (length values ≤ 256)
canonical_references-ok values out h =
    let e : out ≡ sort_dedup values = canonical_references-eq values out h in
    let same : (r : Reference) → Elem r out ↔ Elem r values =
      λ r. rw e (sort_dedup-Elem r values) in
    (
      rw e (sort_dedup-StrictlySorted values),
      same,
      (λ r m.
          any-false (λ value. is_blank value.text) r out (canonical_references-any values out h)
            ((same r).1 m)),
      canonical_references-length values out h,
    )

-- The canonical list depends on the set of references alone: two lists with the same elements, in
-- any order and with any repeats, have the same canonical list.
pub canonical_references_unique :
    (values others out out' : List Reference)
    → ((r : Reference) → Elem r values ↔ Elem r others)
    → canonical_references values ≡ ok out
    → canonical_references others ≡ ok out'
    → out ≡ out'
canonical_references_unique values others out out' same h k = cc (
  canonical_references-eq values out h,
  canonical_references-eq others out' k,
  sort_dedup_unique values others same,
)

canonical_contract_references-eq :
    (values out : List ContractRef)
    → canonical_contract_references values ≡ ok out
    → (out ≡ sort_dedup values)
      × (try_each ContractRef.validate values ≡ ok tt)
      × (length values ≤ 256)
unfolding canonical_contract_references
canonical_contract_references-eq values out h = ground arith

-- The canonical list of contract references is strictly ordered and has the elements of the given
-- list, each of them a sound reference.
pub canonical_contract_references-ok :
    (values out : List ContractRef)
    → canonical_contract_references values ≡ ok out
    → StrictlySorted out
      × ((r : ContractRef) → Elem r out ↔ Elem r values)
      × All (λ r. ContractRef.validate r ≡ ok tt) values
      × (length values ≤ 256)
canonical_contract_references-ok values out h =
    let (e, sound, bounded) = canonical_contract_references-eq values out h in
    (
      rw e (sort_dedup-StrictlySorted values),
      (λ r. rw e (sort_dedup-Elem r values)),
      (try_each-ok_iff ContractRef.validate values).0 sound,
      bounded,
    )
