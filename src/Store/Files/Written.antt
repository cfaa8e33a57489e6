-- ===== src/Store/Files/Written.antt =====
-- Which snapshot a write of crates/idr-store/src/file_store.rs puts on the disk.
use mathlib.Core.List.{append_assoc, append-nil}
use idr.Base.{
  ℕ, ◌≡◌, ◌⊎◌, inl, inr, refl, List, [], ◌∷◌, ◌++◌, Option, some, ok_or, arith, Option-cases,
}
use idr.Store.Error.{StoreError, serialization, io}
use idr.Store.Snapshot.{Snapshot}
use idr.Store.Anchors.{anchor_of, Format}
use idr.Store.Machine.{Disk, Effect, ◌>>=◌, ◌>>◌, from, quiets, contents, append}
use idr.Store.Files.{rename, open_anchor, append_anchor, persist_snapshot}
use idr.Store.Files.Torn.{
  Leads, call-Leads, then-Leads, quiet-Leads, quiets-Leads, contents-created,
}

-- The bytes of this snapshot are the snapshot file, and its anchor is one more line of the anchor
-- file.
pub record Written (format : Format) (before : Disk) (s : Snapshot) (after : Disk) : Type 0 where
  pub image : List ℕ
  pub is_image : format.snapshot_bytes s ≡ some image
  pub snapshot_file : after.snapshot_file ≡ some image
  pub line : List ℕ
  pub is_line : format.anchor_bytes (anchor_of s) ≡ some line
  pub anchor_file : contents after.anchor_file ≡ contents before.anchor_file ++ (line ++ 10 ∷ [])

-- What is left of a value that may be missing.
from-Leads :
    {A B : Type 0} {P R E : Disk → Type 0} (o : Option A) (e : StoreError) (f : A → Effect B)
    → ((x : Disk) → P x → E x)
    → ((b : A) → o ≡ some b → Leads P (f b) R E)
    → Leads P (from (ok_or o e) >>= f) R E
from-Leads o e f w k = elim (Option-cases o) [
  | inl h ↦
      rw h
        (record { succeeds = λ st p a r. absurd (ground arith); fails = λ st p x r. w st.disk p })
  | inr (b, h) ↦ rw h (k b h)
]

module _ (format : Format) (before : Disk) (s : Snapshot) where
  -- The snapshot file is the one from before, or that of this snapshot.
  abbrev pub Either : Disk → Type 0
  Either x = (x.snapshot_file ≡ before.snapshot_file) ⊎ (x.snapshot_file ≡ format.snapshot_bytes s)

  -- The snapshot is renamed into place, with these bytes behind the old anchors.
  record Renamed (image bytes : List ℕ) (x : Disk) : Type 0 where
    is_image : format.snapshot_bytes s ≡ some image
    snapshot_file : x.snapshot_file ≡ some image
    anchor_file : contents x.anchor_file ≡ contents before.anchor_file ++ bytes

  Renamed-Either : (image bytes : List ℕ) (x : Disk) → Renamed image bytes x → Either x
  Renamed-Either image bytes x r = inr (ground (arith, r.is_image, r.snapshot_file))

  same-Either : (x : Disk) → x ≡ before → Either x
  same-Either x e = inl (ground arith)

  append-Leads :
      (image bytes more : List ℕ) (e : StoreError)
      → Leads (Renamed image bytes) (append e more) (Renamed image (bytes ++ more)) Either
  unfolding append
  append-Leads image bytes more e =
      let joined = append_assoc (contents before.anchor_file) bytes more in
      call-Leads _ _ _ (λ n x p. inr (ground (arith, p.is_image, p.snapshot_file)))
        (λ x p. record {
          is_image = p.is_image;
          snapshot_file = p.snapshot_file;
          anchor_file = ground (arith, p.anchor_file, joined);
        })

  open-Leads : (image : List ℕ) → Leads (Renamed image []) open_anchor (Renamed image []) Either
  unfolding open_anchor
  open-Leads image =
      call-Leads _ _ _ (λ n x p. Renamed-Either image [] x p)
        (λ x p. record {
          is_image = p.is_image;
          snapshot_file = p.snapshot_file;
          anchor_file = ground (arith, p.anchor_file, contents-created x.anchor_file);
        })

  rename-Leads :
      (image : List ℕ)
      → format.snapshot_bytes s ≡ some image
      → Leads (λ x. x ≡ before) (rename image) (Renamed image []) Either
  unfolding rename
  rename-Leads image h =
      call-Leads _ _ _ (λ n x p. same-Either x p)
        (λ x p. record {
          is_image = h;
          snapshot_file = refl;
          anchor_file = ground (arith, append-nil (contents before.anchor_file));
        })

  end-Leads :
      (image line : List ℕ)
      → format.anchor_bytes (anchor_of s) ≡ some line
      → Leads (Renamed image (line ++ 10 ∷ [])) (quiets 3) (Written format before s) Either
  end-Leads image line h = record {
    succeeds = λ st p a k. written ((quiets-Leads 3 (Renamed-Either image _)).succeeds st p a k);
    fails = (quiets-Leads 3 (Renamed-Either image _)).fails;
  }
    where
      written : {x : Disk} → Renamed image (line ++ 10 ∷ []) x → Written format before s x
      written p = record {
        image = image;
        is_image = p.is_image;
        snapshot_file = p.snapshot_file;
        line = line;
        is_line = h;
        anchor_file = p.anchor_file;
      }

  append_anchor-Leads :
      (image : List ℕ)
      → Leads (Renamed image []) (append_anchor format s) (Written format before s) Either
  unfolding append_anchor
  append_anchor-Leads image = then-Leads _ _ (open-Leads image) (
      from-Leads (format.anchor_bytes (anchor_of s)) _
        (λ bytes. append serialization bytes >> (append io (10 ∷ []) >> quiets 3))
        (Renamed-Either image [])
        (λ line h.
          then-Leads _ _ (append-Leads image [] line serialization)
            (then-Leads _ _ (append-Leads image line (10 ∷ []) io) (end-Leads image line h))))

  -- A write that succeeds leaves the snapshot and its anchor on the disk, and one that fails leaves
  -- the old snapshot file, or that of the snapshot.
  pub persist_snapshot-Written :
      Leads (λ x. x ≡ before) (persist_snapshot format s) (Written format before s) Either
  unfolding persist_snapshot
  persist_snapshot-Written = then-Leads _ _ (quiet-Leads same-Either) (
      from-Leads (format.snapshot_bytes s) _
        (λ bytes. quiets 3 >> (rename bytes >> (quiets 2 >> append_anchor format s))) same-Either
        (λ image h. then-Leads _ _ (quiets-Leads 3 same-Either) (
          then-Leads _ _ (rename-Leads image h) (
            then-Leads _ _ (quiets-Leads 2 (Renamed-Either image []))
              (append_anchor-Leads image)))))
