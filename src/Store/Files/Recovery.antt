-- ===== src/Store/Files/Recovery.antt =====
-- Recovery of the file store of crates/idr-store/src/file_store.rs after a write that failed or was
-- cut off: what the next load reads.
use idr.Base.{
  ℕ, ◌≡◌, ◌⊎◌, inl, inr, refl, ◌∙◌, ap, false, nat_eq, List, [], ◌∷◌, ◌++◌, is_empty, all, some, ok,
  arith, Text, Result-cases,
}
use idr.Protocol.Id.{Uuid}
use idr.Protocol.Digest.{Codec}
use idr.Store.Error.{Stored}
use idr.Store.Snapshot.{Snapshot}
use idr.Store.Sealing.{seal_next_snapshot}
use idr.Store.Validity.{validate_snapshot}
use idr.Store.Anchors.{
  AnchorRecord, anchor_of, anchored, append_needed, judge_anchors, is_ascii_whitespace, committed,
  Format, committed_anchors,
}
use idr.Store.Anchors.Growth.{
  OneLine, committed_anchors-append, committed_anchors_torn, committed_torn,
}
use idr.Store.Machine.{Disk, Store, quiet, call, contents}
use idr.Store.Files.{persist_snapshot, load_snapshot, read_snapshot, read_file, parse_file}
use idr.Store.Files.Torn.{
  Starts, IsTorn, Behind, Left, untouched, torn, whole, persist_snapshot-Leads,
}
use idr.Store.Files.Loads.{started, is_blank_file, load_ok}
use idr.Store.Anchors.Linked.{sealed-Follows, valid_digests, next_linked, next_judged, own_judged}

-- What serde_json does at a snapshot and its anchor: it reads back what it has written; the text of a
-- snapshot is not empty, and that of an anchor is one line that does not start with a blank.
pub record RoundTrips (format : Format) (s : Snapshot) (image line : List ℕ) : Type 0 where
  pub snapshot_written : format.snapshot_bytes s ≡ some image
  pub snapshot_read : format.parse_snapshot image ≡ some s
  pub has_image : is_empty image ≡ false
  pub anchor_written : format.anchor_bytes (anchor_of s) ≡ some line
  pub anchor_read : format.parse_anchor line ≡ some (anchor_of s)
  pub one_line : OneLine line
  pub starts : Starts line

-- A disk between two operations: it loads as the snapshot, the anchor file ends in a newline, and its
-- last anchor is the snapshot's.
pub record Settled (format : Format) (codec : Codec) (hyphenated : Uuid → Text) (x : Disk)
    (s : Snapshot) : Type 0 where
  pub anchors : List AnchorRecord
  pub loads : (load_snapshot format codec hyphenated (started x)).0 ≡ ok s
  pub is_whole : committed (contents x.anchor_file) ≡ contents x.anchor_file
  pub has_anchors : committed_anchors format (contents x.anchor_file) ≡ ok anchors
  pub is_judged : judge_anchors s anchors ≡ ok anchored

image_read :
    (format : Format) (s : Snapshot) (image line : List ℕ) (x : Disk)
    → RoundTrips format s image line
    → x.snapshot_file ≡ some image
    → read_snapshot format (started x) ≡ (ok s, started x)
unfolding read_snapshot read_file parse_file quiet call
image_read format s image line x t h = rw h (rw t.has_image (rw t.snapshot_read refl))

Starts-all : (line : List ℕ) → Starts line → all is_ascii_whitespace line ≡ false
unfolding all
Starts-all [] h = absurd h
Starts-all (byte ∷ line) h = ground arith

torn-is_blank_file :
    (bytes tail : List ℕ) (anchors : List AnchorRecord)
    → committed bytes ≡ bytes
    → IsTorn tail
    → is_blank_file (bytes ++ tail) anchors ≡ false
torn-is_blank_file [] tail anchors h t = ground arith
torn-is_blank_file (byte ∷ bytes) tail anchors h t =
    ground (arith, committed_torn (byte ∷ bytes) tail t.0)

grown-is_blank_file :
    (bytes : List ℕ) (anchors : List AnchorRecord) (a : AnchorRecord)
    → is_blank_file bytes (anchors ++ a ∷ []) ≡ false
grown-is_blank_file bytes [] a = ground arith
grown-is_blank_file bytes (b ∷ anchors) a = ground arith

module _ (format : Format) (codec : Codec) (hyphenated : Uuid → Text) (s s' u : Snapshot)
    (image line : List ℕ) (trips : RoundTrips format s' image line)
    (sealed : seal_next_snapshot codec u s ≡ ok s')
    (is_valid : validate_snapshot codec hyphenated s' ≡ ok tt) where
  reload : Disk → Stored Snapshot
  reload x = (load_snapshot format codec hyphenated (started x)).0

  torn_reloads :
      (before x : Disk) (bytes : List ℕ)
      → Settled format codec hyphenated before s
      → IsTorn bytes
      → x.snapshot_file ≡ some image
      → contents x.anchor_file ≡ contents before.anchor_file ++ bytes
      → reload x ≡ ok s'
  unfolding reload
  torn_reloads before x bytes k t h a = load_ok format codec hyphenated x s' (record {
    anchors = k.anchors;
    verdict = append_needed;
    line = line;
    is_snapshot = image_read format s' image line x trips h;
    is_valid = is_valid;
    has_anchors =
        ap (committed_anchors format) a
        ∙ committed_anchors_torn format (contents before.anchor_file) bytes t.0
        ∙ k.has_anchors;
    has_bytes =
        ap (λ (b : List ℕ). is_blank_file b k.anchors) a
        ∙ torn-is_blank_file (contents before.anchor_file) bytes k.anchors k.is_whole t;
    is_judged = next_judged s s' k.anchors (sealed-Follows codec u s s' sealed) k.is_judged;
    is_written = trips.anchor_written;
  })

  whole_reloads :
      (before x : Disk)
      → Settled format codec hyphenated before s
      → x.snapshot_file ≡ some image
      → contents x.anchor_file ≡ contents before.anchor_file ++ (line ++ 10 ∷ [])
      → reload x ≡ ok s'
  unfolding reload
  whole_reloads before x k h a =
      let f = sealed-Follows codec u s s' sealed in
      load_ok format codec hyphenated x s' (record {
        anchors = k.anchors ++ anchor_of s' ∷ [];
        verdict = anchored;
        line = line;
        is_snapshot = image_read format s' image line x trips h;
        is_valid = is_valid;
        has_anchors =
            ap (committed_anchors format) a
            ∙ committed_anchors-append format (contents before.anchor_file) line k.anchors
                (anchor_of s') k.is_whole trips.one_line k.has_anchors
                (Starts-all line trips.starts) trips.anchor_read
                (next_linked codec s s' k.anchors f (valid_digests codec hyphenated s s' f is_valid)
                  k.is_judged);
        has_bytes = grown-is_blank_file (contents x.anchor_file) k.anchors (anchor_of s');
        is_judged = own_judged s s' k.anchors f;
        is_written = trips.anchor_written;
      })

  Left-reload :
      (before x : Disk)
      → Settled format codec hyphenated before s
      → Left before image line x
      → (reload x ≡ ok s) ⊎ (reload x ≡ ok s')
  unfolding reload
  Left-reload before x k (untouched e) =
      inl (ap (λ (y : Disk). (load_snapshot format codec hyphenated (started y)).0) e ∙ k.loads)
  Left-reload before x k (torn bytes t h a) = inr (torn_reloads before x bytes k t h a)
  Left-reload before x k (whole h a) = inr (whole_reloads before x k h a)

-- The store survives a write that fails or is cut off. Where the next sealed and valid snapshot is
-- written over a settled disk, its two texts are read back as they were written, and the anchor's is
-- one line: wherever the file system fails, even within the write of that line, a store that is
-- started on what is left loads the old snapshot or the new one, and no error; and it loads the new
-- one where the write has succeeded.
pub persist_snapshot-recovers :
    (format : Format) (codec : Codec) (hyphenated : Uuid → Text) (s s' u : Snapshot)
    (image line : List ℕ) (st : Store)
    → Settled format codec hyphenated st.disk s
    → seal_next_snapshot codec u s ≡ ok s'
    → validate_snapshot codec hyphenated s' ≡ ok tt
    → RoundTrips format s' image line
    → let (result, st') = persist_snapshot format s' st in
      let (loaded, _) = load_snapshot format codec hyphenated (started st'.disk) in
      ((loaded ≡ ok s) ⊎ (loaded ≡ ok s')) × (result ≡ ok tt → loaded ≡ ok s')
unfolding reload Behind
persist_snapshot-recovers format codec hyphenated s s' u image line st k sealed valid t =
    let leads =
      persist_snapshot-Leads st.disk image line t.one_line t.starts format s' t.snapshot_written
        t.anchor_written in
    let out = persist_snapshot format s' st in
    elim (Result-cases out.0) [
      | inl (x, h) ↦
          let (image_kept, line_kept) = leads.succeeds st refl x h in
          let loaded =
            whole_reloads format codec hyphenated s s' u image line t sealed valid st.disk
              out.1.disk k image_kept line_kept in
          (inr loaded, λ h'. loaded)
      | inr (e, h) ↦ (
        Left-reload format codec hyphenated s s' u image line t sealed valid st.disk out.1.disk k
            (leads.fails st refl e h),
        λ h'. absurd (ground arith),
      )
    ]
