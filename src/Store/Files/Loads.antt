-- ===== src/Store/Files/Loads.antt =====
-- A load of the file store of crates/idr-store/src/file_store.rs on a disk that does not fail.
use idr.Base.{
  ℕ, ◌≡◌, inl, inr, refl, ◌∙◌, ap, Bool, false, not, ◌&&◌, nat_eq, ltb, List, [], ◌∷◌, is_empty,
  all, length, Option, none, some, ok, err, arith, Text, Result-cases, Bool-cases,
}
use idr.Protocol.Id.{Uuid}
use idr.Protocol.Digest.{Codec}
use idr.Store.Error.{Stored}
use idr.Store.Snapshot.{Snapshot, default_snapshot}
use idr.Store.Validity.{validate_snapshot}
use idr.Store.Anchors.{
  AnchorRecord, anchor_of, validate_anchor_chain, Verdict, anchored, append_needed, judge_anchors,
  is_ascii_whitespace, committed, Format, committed_anchors, parse_anchors, committed_lines,
}
use idr.Store.Machine.{
  Disk, Store, Effect, ◌>>=◌, ◌>>◌, pure, from, quiets, quiet, call, append, appended, contents,
}
use idr.Store.Files.{
  load_snapshot, read_snapshot, read_anchor_records, read_anchor_file, drop_torn, refuse_blank,
  truncate_anchor, open_anchor, created, follow, append_anchor, validate_or_recover_anchor,
}

-- A store that has just been started on a disk, on which no call fails.
abbrev pub started : Disk → Store
started disk = record { cached = default_snapshot; poisoned = false; disk = disk; faults = [] }

-- A file that `read_anchor_records` refuses, although its committed lines are in order: blanks only.
abbrev pub is_blank_file : List ℕ → List AnchorRecord → Bool
is_blank_file bytes anchors =
    is_empty (committed bytes)
    && not (is_empty bytes)
    && is_empty anchors
    && all is_ascii_whitespace bytes

bind_ok :
    {A B : Type 0} (m : Effect A) (f : A → Effect B) (st st' : Store) (a : A)
    → m st ≡ (ok a, st')
    → (m >>= f) st ≡ f a st'
bind_ok {A} {B} m f st st' a h =
    ap (λ (o : Stored A × Store). elim o.0 [ ok b ↦ f b o.1 | err e ↦ (err e, o.1) ]) h

module _ (format : Format) where
  drop_torn_ok :
      (bytes : List ℕ) (x : Disk) → (y : Disk) × (drop_torn bytes (started x) ≡ (ok tt, started y))
  unfolding drop_torn truncate_anchor quiets quiet call
  drop_torn_ok bytes x = elim (Bool-cases (ltb (length (committed bytes)) (length bytes))) [
    | inl e ↦ (
      record x {
        anchor_file = elim x.anchor_file [ none ↦ none | some bytes ↦ some (committed bytes) ];
      },
      rw e refl,
    )
    | inr e ↦ (x, rw e refl)
  ]

  refuse_blank_ok :
      (bytes : List ℕ) (anchors : List AnchorRecord) (x : Disk)
      → is_blank_file bytes anchors ≡ false
      → refuse_blank bytes anchors (started x) ≡ (ok tt, started x)
  unfolding refuse_blank
  refuse_blank_ok bytes anchors x b = rw b refl

  no_anchors :
      (anchors : List AnchorRecord) → committed_anchors format [] ≡ ok anchors → [] ≡ anchors
  unfolding committed_anchors committed_lines parse_anchors
  no_anchors anchors h = ground arith

  read_anchor_file_ok :
      (o : Option (List ℕ)) (anchors : List AnchorRecord) (x : Disk)
      → committed_anchors format (contents o) ≡ ok anchors
      → is_blank_file (contents o) anchors ≡ false
      → (y : Disk) × (read_anchor_file format o (started x) ≡ (ok anchors, started y))
  unfolding read_anchor_file quiet call
  read_anchor_file_ok none anchors x h b =
      (x, ap (λ (as' : List AnchorRecord). (ok as', started x)) (no_anchors anchors h))
  read_anchor_file_ok (some bytes) anchors x h b =
      let (y, e) = drop_torn_ok bytes x in
      (
        y,
        bind_ok (from (committed_anchors format bytes))
              (λ found. drop_torn bytes >> (refuse_blank bytes found >> pure found)) (started x)
              (started x) anchors (ap (λ (r : Stored (List AnchorRecord)). (r, started x)) h)
            ∙ bind_ok (drop_torn bytes) (λ _. refuse_blank bytes anchors >> pure anchors)
                (started x) (started y) tt e
            ∙ bind_ok (refuse_blank bytes anchors) (λ _. pure anchors) (started y) (started y) tt
                (refuse_blank_ok bytes anchors y b),
      )

  append_anchor_ok :
      (s : Snapshot) (line : List ℕ) (x : Disk)
      → format.anchor_bytes (anchor_of s) ≡ some line
      → (y : Disk) × (append_anchor format s (started x) ≡ (ok tt, started y))
  unfolding append_anchor open_anchor append quiets quiet call
  append_anchor_ok s line x h = (
    appended (10 ∷ []) (appended line (record x { anchor_file = created x.anchor_file })),
    rw h refl,
  )

  -- What decides that a load reads a snapshot.
  pub record Reads (codec : Codec) (hyphenated : Uuid → Text) (x : Disk) (s : Snapshot)
      : Type 0 where
    pub anchors : List AnchorRecord
    pub verdict : Verdict
    pub line : List ℕ
    pub is_snapshot : read_snapshot format (started x) ≡ (ok s, started x)
    pub is_valid : validate_snapshot codec hyphenated s ≡ ok tt
    pub has_anchors : committed_anchors format (contents x.anchor_file) ≡ ok anchors
    pub has_bytes : is_blank_file (contents x.anchor_file) anchors ≡ false
    pub is_judged : judge_anchors s anchors ≡ ok verdict
    pub is_written : format.anchor_bytes (anchor_of s) ≡ some line

  committed-chain :
      (bytes : List ℕ) (anchors : List AnchorRecord)
      → committed_anchors format bytes ≡ ok anchors
      → validate_anchor_chain anchors ≡ ok tt
  unfolding committed_anchors
  committed-chain bytes anchors h =
      elim (Result-cases (parse_anchors format (committed_lines bytes))) [
        | inr (x, e) ↦ absurd (ground arith)
        | inl (found, e) ↦ elim (Result-cases (validate_anchor_chain found)) [
          | inr (x, k) ↦ absurd (ground arith)
          | inl (u, k) ↦ ground arith
        ]
      ]

  follow_ok :
      (s : Snapshot) (verdict : Verdict) (line : List ℕ) (x : Disk)
      → format.anchor_bytes (anchor_of s) ≡ some line
      → (y : Disk) × (follow format s verdict (started x) ≡ (ok tt, started y))
  unfolding follow
  follow_ok s anchored line x h = (x, refl)
  follow_ok s append_needed line x h = append_anchor_ok s line x h

  recover_ok :
      (codec : Codec) (hyphenated : Uuid → Text) (x : Disk) (s : Snapshot)
      → Reads codec hyphenated x s
      → (y : Disk) × (validate_or_recover_anchor format s (started x) ≡ (ok tt, started y))
  unfolding validate_or_recover_anchor read_anchor_records
  recover_ok codec hyphenated x s r =
      let (y, read) = read_anchor_file_ok x.anchor_file r.anchors x r.has_anchors r.has_bytes in
      let (z, followed) = follow_ok s r.verdict r.line y r.is_written in
      let chain = committed-chain (contents x.anchor_file) r.anchors r.has_anchors in
      (
        z,
        bind_ok (read_anchor_records format)
              (λ found.
                from (validate_anchor_chain found)
                >> (from (judge_anchors s found) >>= λ verdict. follow format s verdict))
              (started x) (started y) r.anchors read
            ∙ bind_ok (from (validate_anchor_chain r.anchors))
                (λ _. from (judge_anchors s r.anchors) >>= λ verdict. follow format s verdict)
                (started y) (started y) tt (ap (λ (o : Stored (Unit {0})). (o, started y)) chain)
            ∙ bind_ok (from (judge_anchors s r.anchors)) (λ verdict. follow format s verdict)
                (started y) (started y) r.verdict
                (ap (λ (o : Stored Verdict). (o, started y)) r.is_judged)
            ∙ followed,
      )

  pub load_ok :
      (codec : Codec) (hyphenated : Uuid → Text) (x : Disk) (s : Snapshot)
      → Reads codec hyphenated x s
      → (load_snapshot format codec hyphenated (started x)).0 ≡ ok s
  unfolding load_snapshot
  load_ok codec hyphenated x s r =
      let (y, recovered) = recover_ok codec hyphenated x s r in
      ap (λ (o : Stored Snapshot × Store). o.0)
        (bind_ok (read_snapshot format)
            (λ found.
              from (validate_snapshot codec hyphenated found)
              >> (validate_or_recover_anchor format found >> pure found))
            (started x) (started x) s r.is_snapshot
          ∙ bind_ok (from (validate_snapshot codec hyphenated s))
              (λ _. validate_or_recover_anchor format s >> pure s) (started x) (started x) tt
              (ap (λ (o : Stored (Unit {0})). (o, started x)) r.is_valid)
          ∙ bind_ok (validate_or_recover_anchor format s) (λ _. pure s) (started x) (started y) tt
              recovered)
