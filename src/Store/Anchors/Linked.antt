-- ===== src/Store/Anchors/Linked.antt =====
-- The anchor of the next snapshot of crates/idr-store/src/file_store.rs behind the last one.
use idr.Base.{
  ◌+◌, ◌≤◌, ◌≡◌, inl, inr, u64_max, if◌then◌else◌, nat_eq, ltb, List, [], ◌∷◌, ◌++◌, last,
  last-append, none, some, ok, arith, Text, Option-cases,
}
use idr.Protocol.Id.{Uuid}
use idr.Protocol.Digest.{Codec}
use idr.Store.Snapshot.{Snapshot}
use idr.Store.Sealing.{seal_next_snapshot}
use idr.Store.Validity.{validate_snapshot, check_seal, check_sealed}
use idr.Store.Anchors.{
  AnchorRecord, anchor_of, check_anchor, anchored, append_needed, judge_anchors,
}

-- The link of a sealed snapshot to the one before it.
pub record Follows (s s' : Snapshot) : Type 0 where
  pub sequence : s'.sequence ≡ s.sequence + 1
  pub is_bounded : s'.sequence ≤ u64_max
  pub previous :
      s'.previous_snapshot_digest ≡ (if ltb 0 s.sequence then some s.snapshot_digest else none)

pub sealed-Follows :
    (codec : Codec) (u s s' : Snapshot) → seal_next_snapshot codec u s ≡ ok s' → Follows s s'
unfolding seal_next_snapshot
sealed-Follows codec u s s' h = record {
  sequence = ground arith;
  is_bounded = ground arith;
  previous = ground arith;
}

-- The anchor of a valid snapshot that follows an anchored one is linked to the last anchor.
pub valid_digests :
    (codec : Codec) (hyphenated : Uuid → Text) (s s' : Snapshot)
    → Follows s s'
    → validate_snapshot codec hyphenated s' ≡ ok tt
    → check_sealed codec s' ≡ ok tt
unfolding validate_snapshot check_seal
valid_digests codec hyphenated s s' f h = ground (arith, f.sequence)

pub next_linked :
    (codec : Codec) (s s' : Snapshot) (anchors : List AnchorRecord)
    → Follows s s'
    → check_sealed codec s' ≡ ok tt
    → judge_anchors s anchors ≡ ok anchored
    → check_anchor (last anchors) (anchor_of s') ≡ ok tt
unfolding check_sealed check_anchor judge_anchors last
next_linked codec s s' [] f h j = ground (arith, f.sequence, f.is_bounded, f.previous)
next_linked codec s s' (a ∷ anchors) f h j = elim (Option-cases (last (a ∷ anchors))) [
  | inl e ↦ ground (arith, f.sequence, f.is_bounded, f.previous)
  | inr (l, e) ↦ ground (arith, f.sequence, f.is_bounded, f.previous)
]

pub next_judged :
    (s s' : Snapshot) (anchors : List AnchorRecord)
    → Follows s s'
    → judge_anchors s anchors ≡ ok anchored
    → judge_anchors s' anchors ≡ ok append_needed
unfolding judge_anchors last
next_judged s s' [] f j = ground (arith, f.sequence, f.is_bounded, f.previous)
next_judged s s' (a ∷ anchors) f j = elim (Option-cases (last (a ∷ anchors))) [
  | inl e ↦ ground (arith, f.sequence, f.is_bounded, f.previous)
  | inr (l, e) ↦ ground (arith, f.sequence, f.is_bounded, f.previous)
]

pub own_judged :
    (s s' : Snapshot) (anchors : List AnchorRecord)
    → Follows s s'
    → judge_anchors s' (anchors ++ anchor_of s' ∷ []) ≡ ok anchored
unfolding judge_anchors
own_judged s s' anchors f = ground (arith, last-append anchors (anchor_of s'), f.sequence)
