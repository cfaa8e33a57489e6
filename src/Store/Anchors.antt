-- ===== src/Store/Anchors.antt =====
-- crates/idr-store/src/file_store.rs: the records of the anchor file, and their chain.
pub mod Growth
pub mod Linked
use idr.Base.{
  ℕ, Bool, ◌&&◌, ◌||◌, not, ◌==◌, nat_eq, if◌then◌else◌, List, [], ◌∷◌, is_empty, all, Option, none,
  some, is_none, is_some_and, ok, err, deny, ok_or, ◌>>◌, ◌>>=◌, Text, text_eq, last,
}
use idr.Protocol.Metadata.{follows}
use idr.Protocol.Receipt.{option_text_eq}
use idr.Store.Error.{Stored, corrupt_anchor, rollback_detected}
use idr.Store.Snapshot.{Snapshot}
use idr.Store.Sealing.{valid_store_digest}

pub record AnchorRecord : Type 0 where
  pub sequence : ℕ
  pub snapshot_digest : Text
  pub previous_snapshot_digest : Option Text

-- The anchor of a snapshot, the struct literal of `append_anchor`.
abbrev pub anchor_of : Snapshot → AnchorRecord
anchor_of s = record {
  sequence = s.sequence;
  snapshot_digest = s.snapshot_digest;
  previous_snapshot_digest = s.previous_snapshot_digest;
}

-- The match on the anchor before.
abbrev pub is_linked : Option AnchorRecord → AnchorRecord → Bool
is_linked none anchor = anchor.sequence == 1 && is_none anchor.previous_snapshot_digest
is_linked (some prior) anchor =
    follows prior.sequence anchor.sequence
    && anchor.previous_snapshot_digest == some prior.snapshot_digest

unfoldable pub check_anchor : Option AnchorRecord → AnchorRecord → Stored (Unit {0})
check_anchor previous anchor = do
  deny
      (not (valid_store_digest anchor.snapshot_digest)
        || is_some_and anchor.previous_snapshot_digest (λ digest. not (valid_store_digest digest)))
      corrupt_anchor
  deny (not (is_linked previous anchor)) corrupt_anchor

unfoldable pub check_anchors : Option AnchorRecord → List AnchorRecord → Stored (Unit {0})
check_anchors previous [] = ok tt
check_anchors previous (anchor ∷ anchors) =
    check_anchor previous anchor >> check_anchors (some anchor) anchors

-- `validate_anchor_chain`
unfoldable pub validate_anchor_chain : List AnchorRecord → Stored (Unit {0})
unfolding check_anchors
validate_anchor_chain anchors = check_anchors none anchors

-- What `validate_or_recover_anchor` decides on a valid chain: whether to append an anchor.
pub data Verdict : Type 0 where
  anchored append_needed : Verdict

abbrev pub is_anchor_of : AnchorRecord → Snapshot → Bool
is_anchor_of latest s =
    latest.sequence == s.sequence
    && latest.snapshot_digest == s.snapshot_digest
    && latest.previous_snapshot_digest == s.previous_snapshot_digest

abbrev pub is_anchor_before : AnchorRecord → Snapshot → Bool
is_anchor_before latest s =
    follows latest.sequence s.sequence && s.previous_snapshot_digest == some latest.snapshot_digest

abbrev pub judge_latest : Snapshot → Option AnchorRecord → Stored Verdict
judge_latest s none =
    if s.sequence == 1 && is_none s.previous_snapshot_digest
    then ok append_needed
    else err rollback_detected
judge_latest s (some latest) =
    if is_anchor_of latest s
    then ok anchored
    else if is_anchor_before latest s
    then ok append_needed
    else err rollback_detected

unfoldable pub judge_anchors : Snapshot → List AnchorRecord → Stored Verdict
judge_anchors s anchors =
    if s.sequence == 0
    then (if is_empty anchors then ok anchored else err rollback_detected)
    else judge_latest s (last anchors)

-- `u8::is_ascii_whitespace`
abbrev pub is_ascii_whitespace : ℕ → Bool
is_ascii_whitespace byte = byte == 32 || byte == 9 || byte == 10 || byte == 12 || byte == 13

-- The bytes up to and with the last newline, `&bytes[..committed_len]`.
unfoldable pub committed : List ℕ → List ℕ
committed [] = []
committed (byte ∷ bytes) =
    let later = committed bytes in if byte == 10 || not (is_empty later) then byte ∷ later else []

abbrev pub extend_line : ℕ → List (List ℕ) → List (List ℕ)
extend_line byte [] = []
extend_line byte (line ∷ lines) = (byte ∷ line) ∷ lines

-- The lines that a newline ends: the pieces of the committed bytes without their last newline.
unfoldable pub committed_lines : List ℕ → List (List ℕ)
committed_lines [] = []
committed_lines (byte ∷ bytes) =
    let later = committed_lines bytes in if byte == 10 then [] ∷ later else extend_line byte later

-- The parts of serde_json that the store reads and writes its two files with.
pub record Format : Type 0 where
  pub snapshot_bytes : Snapshot → Option (List ℕ)
  pub parse_snapshot : List ℕ → Option Snapshot
  pub anchor_bytes : AnchorRecord → Option (List ℕ)
  pub parse_anchor : List ℕ → Option AnchorRecord

-- The loop over the lines.
unfoldable pub parse_anchors : Format → List (List ℕ) → Stored (List AnchorRecord)
parse_anchors format [] = ok []
parse_anchors format (line ∷ lines) = do
  deny (all is_ascii_whitespace line) corrupt_anchor
  anchor ← ok_or (format.parse_anchor line) corrupt_anchor
  anchors ← parse_anchors format lines
  ok (anchor ∷ anchors)

-- The first part of `read_anchor_records`: the anchors of a file's committed lines.
unfoldable pub committed_anchors : Format → List ℕ → Stored (List AnchorRecord)
committed_anchors format bytes = do
  anchors ← parse_anchors format (committed_lines bytes)
  validate_anchor_chain anchors
  ok anchors
