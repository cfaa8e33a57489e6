-- ===== src/Store/Files/Torn.antt =====
-- What a write of the snapshot of crates/idr-store/src/file_store.rs leaves behind on the disk,
-- wherever the file system fails.
use Prim.Native.Nat.{zero, suc}
use mathlib.Core.List.{append_assoc, append-nil}
use idr.Base.{
  ℕ, ◌≡◌, ◌⊎◌, subst, refl, sym, false, not, ◌&&◌, List, [], ◌∷◌, ◌++◌, is_empty, all, Option, none,
  some, ok, err, ok_or, arith, Option-cases, inl, inr,
}
use idr.Store.Error.{StoreError, Stored, io, serialization}
use idr.Store.Snapshot.{Snapshot}
use idr.Store.Anchors.{anchor_of, is_ascii_whitespace, Format}
use idr.Store.Anchors.Growth.{OneLine}
use idr.Store.Machine.{
  Disk, Store, Effect, ◌>>=◌, ◌>>◌, from, call, quiet, quiets, take, contents, append, next_fault,
}
use idr.Store.Files.{rename, open_anchor, append_anchor, persist_snapshot, created}

-- A line that does not start with a blank.
abbrev pub Starts : List ℕ → Type 0
Starts [] = ⊥
Starts (byte ∷ bytes) = is_ascii_whitespace byte ≡ false

-- What a torn write of such a line leaves: no newline, and not blanks only.
abbrev pub IsTorn : List ℕ → Type 0
IsTorn torn = OneLine torn × (not (is_empty torn) && all is_ascii_whitespace torn ≡ false)

take-OneLine : (n : ℕ) (line : List ℕ) → OneLine line → OneLine (take n line)
unfolding take
take-OneLine zero line h = tt
take-OneLine (suc n) [] h = tt
take-OneLine (suc n) (byte ∷ line) h = (h.0, take-OneLine n line h.1)

take-IsTorn : (n : ℕ) (line : List ℕ) → OneLine line → Starts line → IsTorn (take n line)
unfolding take all
take-IsTorn zero line h s = (tt, refl)
take-IsTorn (suc n) [] h s = absurd s
take-IsTorn (suc n) (byte ∷ line) h s = ((h.0, take-OneLine n line h.1), ground arith)

line-IsTorn : (line : List ℕ) → OneLine line → Starts line → IsTorn line
unfolding all
line-IsTorn [] h s = absurd s
line-IsTorn (byte ∷ line) h s = (h, ground arith)

-- From a disk of `P` an effect comes to one of `R` where it succeeds, and to one of `E` where it
-- fails.
pub record Leads {A : Type 0} (P : Disk → Type 0) (m : Effect A) (R E : Disk → Type 0)
    : Type 0 where
  pub succeeds : (st : Store) → P st.disk → (a : A) → (m st).0 ≡ ok a → R (m st).1.disk
  pub fails : (st : Store) → P st.disk → (e : StoreError) → (m st).0 ≡ err e → E (m st).1.disk

call-cases :
    (e : StoreError) (partial : ℕ → Disk → Disk) (whole : Disk → Disk) (st : Store)
    → (((call e partial whole st).0 ≡ ok tt) × ((call e partial whole st).1.disk ≡ whole st.disk))
      ⊎ ((n : ℕ) × ((call e partial whole st).0 ≡ err e)
          × ((call e partial whole st).1.disk ≡ partial n st.disk))
unfolding call
call-cases e partial whole st = elim (Option-cases (next_fault st.faults).0) [
  | inl h ↦ inl (ground arith, ground arith)
  | inr (n, h) ↦ inr (n, ground arith, ground arith)
]

pub call-Leads :
    {P R E : Disk → Type 0} (e : StoreError) (partial : ℕ → Disk → Disk) (whole : Disk → Disk)
    → ((n : ℕ) (x : Disk) → P x → E (partial n x))
    → ((x : Disk) → P x → R (whole x))
    → Leads P (call e partial whole) R E
call-Leads {P} {R} {E} e partial whole f g = record {
  succeeds = λ st p a k. elim (call-cases e partial whole st) [
    | inl (h, d) ↦ subst R (sym d) (g st.disk p)
    | inr (n, h, d) ↦ absurd (ground arith)
  ];
  fails = λ st p x k. elim (call-cases e partial whole st) [
    | inl (h, d) ↦ absurd (ground arith)
    | inr (n, h, d) ↦ subst E (sym d) (f n st.disk p)
  ];
}

pub bind-Leads :
    {A B : Type 0} {P Q R E : Disk → Type 0} (m : Effect A) (f : A → Effect B)
    → Leads P m Q E
    → ((a : A) → Leads Q (f a) R E)
    → Leads P (m >>= f) R E
bind-Leads {A} {B} {P} {Q} {R} {E} m f k l = record {
  succeeds = λ st p. won (m st).0 (m st).1 (k.succeeds st p);
  fails = λ st p. lost (m st).0 (m st).1 (k.succeeds st p) (k.fails st p);
}
  where
    after : Stored A → Store → Stored B × Store
    after r st' = elim r [ ok a ↦ f a st' | err e ↦ (err e, st') ]

    won :
        (r : Stored A) (st' : Store)
        → ((a : A) → r ≡ ok a → Q st'.disk)
        → (b : B) → (after r st').0 ≡ ok b
        → R (after r st').1.disk
    won (ok a) st' h b k = (l a).succeeds st' (h a refl) b k
    won (err e) st' h b k = absurd (ground arith)

    lost :
        (r : Stored A) (st' : Store)
        → ((a : A) → r ≡ ok a → Q st'.disk)
        → ((e : StoreError) → r ≡ err e → E st'.disk)
        → (e : StoreError) → (after r st').0 ≡ err e
        → E (after r st').1.disk
    lost (ok a) st' h j x k = (l a).fails st' (h a refl) x k
    lost (err e) st' h j x k = j e refl

pub then-Leads :
    {B : Type 0} {P Q R E : Disk → Type 0} (m : Effect (Unit {0})) (n : Effect B)
    → Leads P m Q E
    → Leads Q n R E
    → Leads P (m >> n) R E
then-Leads m n k l = bind-Leads m (λ _. n) k (λ _. l)

pub quiet-Leads : {P E : Disk → Type 0} → ((x : Disk) → P x → E x) → Leads P quiet P E
unfolding quiet
quiet-Leads f = call-Leads _ _ _ (λ n x p. f x p) (λ x p. p)

pub quiets-Leads : {P E : Disk → Type 0} (n : ℕ) → ((x : Disk) → P x → E x) → Leads P (quiets n) P E
unfolding quiets
quiets-Leads zero f = record { succeeds = λ st p a k. p; fails = λ st p e k. absurd (ground arith) }
quiets-Leads (suc n) f = then-Leads quiet (quiets n) (quiet-Leads f) (quiets-Leads n f)

known-Leads :
    {A B : Type 0} {P R E : Disk → Type 0} (o : Option A) (b : A) (e : StoreError)
    (f : A → Effect B)
    → o ≡ some b
    → Leads P (f b) R E
    → Leads P (from (ok_or o e) >>= f) R E
known-Leads o b e f h k = rw h k

pub contents-created : (o : Option (List ℕ)) → contents (created o) ≡ contents o
contents-created none = refl
contents-created (some bytes) = refl

take_one : (n : ℕ) → (take n (10 ∷ []) ≡ []) ⊎ (take n (10 ∷ []) ≡ 10 ∷ [])
unfolding take
take_one zero = inl refl
take_one (suc zero) = inr refl
take_one (suc (suc n)) = inr refl

-- `before` is the disk on which the write starts, `image` the new snapshot file and `line` the new
-- anchor.
module _ (before : Disk) (image line : List ℕ) where
  -- The new snapshot file, with these bytes behind the old anchors.
  unfoldable pub Behind : List ℕ → Disk → Type 0
  Behind bytes x =
      (x.snapshot_file ≡ some image)
      × (contents x.anchor_file ≡ contents before.anchor_file ++ bytes)

  -- The disks that a write can leave.
  pub data Left (x : Disk) : Type 0 where
    untouched : x ≡ before → Left x
    torn :
        (bytes : List ℕ)
        → IsTorn bytes
        → x.snapshot_file ≡ some image
        → contents x.anchor_file ≡ contents before.anchor_file ++ bytes
        → Left x
    whole :
        x.snapshot_file ≡ some image
        → contents x.anchor_file ≡ contents before.anchor_file ++ (line ++ 10 ∷ [])
        → Left x

  Behind-Left : (bytes : List ℕ) → IsTorn bytes → (x : Disk) → Behind bytes x → Left x
  unfolding Behind
  Behind-Left bytes t x (s, a) = torn bytes t s a

  whole-Left : (x : Disk) → Behind (line ++ 10 ∷ []) x → Left x
  unfolding Behind
  whole-Left x (s, a) = whole s a

  module _ (one_line : OneLine line) (starts : Starts line) where
    none-Left : (x : Disk) → Behind [] x → Left x
    none-Left = Behind-Left [] (tt, refl)

    open-Leads : Leads (Behind []) open_anchor (Behind []) Left
    unfolding open_anchor Behind
    open-Leads =
        call-Leads _ _ _ (λ n x p. none-Left x p)
          (λ x p. (p.0, ground (arith, contents-created x.anchor_file)))

    line-Leads : (e : StoreError) → Leads (Behind []) (append e line) (Behind line) Left
    unfolding append Behind
    line-Leads e =
        call-Leads _ _ _
          (λ n x p.
            torn (take n line) (take-IsTorn n line one_line starts) p.0
              (ground (arith, append-nil (contents before.anchor_file))))
          (λ x p. (p.0, ground (arith, append-nil (contents before.anchor_file))))

    newline-Leads :
        (e : StoreError) → Leads (Behind line) (append e (10 ∷ [])) (Behind (line ++ 10 ∷ [])) Left
    unfolding append Behind
    newline-Leads e =
        let joined = append_assoc (contents before.anchor_file) line (10 ∷ []) in
        call-Leads _ _ _
          (λ n x p. elim (take_one n) [
            | inl h ↦
                torn line (line-IsTorn line one_line starts) p.0
                  (ground (arith, append-nil (contents before.anchor_file ++ line)))
            | inr h ↦ whole p.0 (ground (arith, joined))
          ])
          (λ x p. (p.0, ground (arith, joined)))

    append_anchor-Leads :
        (format : Format) (s : Snapshot)
        → format.anchor_bytes (anchor_of s) ≡ some line
        → Leads (Behind []) (append_anchor format s) (Behind (line ++ 10 ∷ [])) Left
    unfolding append_anchor
    append_anchor-Leads format s h = then-Leads _ _ open-Leads (
        known-Leads _ line _
          (λ bytes. append serialization bytes >> (append io (10 ∷ []) >> quiets 3)) h
          (then-Leads _ _ (line-Leads _)
            (then-Leads _ _ (newline-Leads _) (quiets-Leads 3 whole-Left))))

    rename-Leads : Leads (λ x. x ≡ before) (rename image) (Behind []) Left
    unfolding rename Behind
    rename-Leads =
        call-Leads _ _ _ (λ n x p. untouched p)
          (λ x p. (refl, ground (arith, append-nil (contents before.anchor_file))))

    -- A write of the snapshot that succeeds has written both files whole, and one that fails anywhere
    -- leaves one of those disks.
    pub persist_snapshot-Leads :
        (format : Format) (s : Snapshot)
        → format.snapshot_bytes s ≡ some image
        → format.anchor_bytes (anchor_of s) ≡ some line
        → Leads (λ x. x ≡ before) (persist_snapshot format s) (Behind (line ++ 10 ∷ [])) Left
    unfolding persist_snapshot
    persist_snapshot-Leads format s h k = then-Leads _ _ (quiet-Leads (λ x p. untouched p)) (
        known-Leads _ image _
          (λ bytes. quiets 3 >> (rename bytes >> (quiets 2 >> append_anchor format s))) h
          (then-Leads _ _ (quiets-Leads 3 (λ x p. untouched p)) (
            then-Leads _ _ rename-Leads
              (then-Leads _ _ (quiets-Leads 2 none-Left) (append_anchor-Leads format s k)))))
