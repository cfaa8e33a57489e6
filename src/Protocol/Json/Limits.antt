-- ===== src/Protocol/Json/Limits.antt =====
-- What `validate_json_payload` decides: the payload's own size and depth.
use Prim.Native.Nat.{max}
use idr.Base.{
  ℕ, zero, suc, ◌+◌, ◌≤◌, ◌<◌, ◌≡◌, refl, ◌↔◌, ◌⊎◌, inl, List, [], ◌∷◌, length, Option, some, ok,
  err, arith, Option-cases, inr,
}
use idr.Protocol.Error.{payload_limit_exceeded}
use idr.Protocol.Json.{
  Value, Items, Fields, null, bool, number, string, array, object, nil, cons, end, field, Stack,
  push_items, push_fields, push_children, walk, max_nodes, max_depth, max_bytes, enough, finished,
  validate_json_payload,
}

-- The number of values in a payload, itself included.
abbrev mutual
  pub size : Value → ℕ
  size null = 1
  size (bool _) = 1
  size (number _) = 1
  size (string _) = 1
  size (array vs) = 1 + size_items vs
  size (object fs) = 1 + size_fields fs

  pub size_items : Items → ℕ
  size_items nil = 0
  size_items (cons v vs) = size v + size_items vs

  pub size_fields : Fields → ℕ
  size_fields end = 0
  size_fields (field k v fs) = size v + size_fields fs

-- The number of levels of a payload; a scalar and an empty container have one.
abbrev mutual
  pub depth : Value → ℕ
  depth null = 1
  depth (bool _) = 1
  depth (number _) = 1
  depth (string _) = 1
  depth (array vs) = 1 + depth_items vs
  depth (object fs) = 1 + depth_fields fs

  pub depth_items : Items → ℕ
  depth_items nil = 0
  depth_items (cons v vs) = max (depth v) (depth_items vs)

  pub depth_fields : Fields → ℕ
  depth_fields end = 0
  depth_fields (field k v fs) = max (depth v) (depth_fields fs)

abbrev total : Stack → ℕ
total [] = 0
total ((v, d) ∷ st) = size v + total st

-- No value on the stack reaches below level `n`.
abbrev Within : ℕ → Stack → Type 0
Within n [] = Unit {0}
Within n ((v, d) ∷ st) = (d + depth v ≤ suc n) × Within n st

total-push_items :
    (vs : Items) (d : ℕ) (st : Stack) → total (push_items vs d st) ≡ size_items vs + total st
total-push_items nil d st = omega arith
total-push_items (cons v vs) d st = omega (arith, total-push_items vs d ((v, d) ∷ st))

total-push_fields :
    (fs : Fields) (d : ℕ) (st : Stack) → total (push_fields fs d st) ≡ size_fields fs + total st
total-push_fields end d st = omega arith
total-push_fields (field k v fs) d st = omega (arith, total-push_fields fs d ((v, d) ∷ st))

total-push_children :
    (v : Value) (d : ℕ) (st : Stack) → suc (total (push_children v d st)) ≡ size v + total st
total-push_children null d st = omega arith
total-push_children (bool _) d st = omega arith
total-push_children (number _) d st = omega arith
total-push_children (string _) d st = omega arith
total-push_children (array vs) d st = omega (arith, total-push_items vs (d + 1) st)
total-push_children (object fs) d st = omega (arith, total-push_fields fs (d + 1) st)

Within-push_items :
    (n : ℕ) (vs : Items) (d : ℕ) (st : Stack)
    → d ≤ suc n
    → Within n (push_items vs d st) ↔ ((d + depth_items vs ≤ suc n) × Within n st)
Within-push_items n nil d st h = ((λ w. (omega arith, w)), λ w. w.1)
Within-push_items n (cons v vs) d st h =
    let (to, from) = Within-push_items n vs d ((v, d) ∷ st) h in
    (
      (λ w. (omega (arith, (to w).0, (to w).1.0), (to w).1.1)),
      λ w. from (omega arith, (omega arith, w.1)),
    )

Within-push_fields :
    (n : ℕ) (fs : Fields) (d : ℕ) (st : Stack)
    → d ≤ suc n
    → Within n (push_fields fs d st) ↔ ((d + depth_fields fs ≤ suc n) × Within n st)
Within-push_fields n end d st h = ((λ w. (omega arith, w)), λ w. w.1)
Within-push_fields n (field k v fs) d st h =
    let (to, from) = Within-push_fields n fs d ((v, d) ∷ st) h in
    (
      (λ w. (omega (arith, (to w).0, (to w).1.0), (to w).1.1)),
      λ w. from (omega arith, (omega arith, w.1)),
    )

Within-push_children :
    (n : ℕ) (v : Value) (d : ℕ) (st : Stack)
    → d ≤ n
    → Within n (push_children v d st) ↔ Within n ((v, d) ∷ st)
Within-push_children n null d st h = ((λ w. (omega arith, w)), λ w. w.1)
Within-push_children n (bool _) d st h = ((λ w. (omega arith, w)), λ w. w.1)
Within-push_children n (number _) d st h = ((λ w. (omega arith, w)), λ w. w.1)
Within-push_children n (string _) d st h = ((λ w. (omega arith, w)), λ w. w.1)
Within-push_children n (array vs) d st h =
    let (to, from) = Within-push_items n vs (d + 1) st (omega arith) in
    ((λ w. (omega (arith, (to w).0), (to w).1)), λ w. from (omega arith, w.1))
Within-push_children n (object fs) d st h =
    let (to, from) = Within-push_fields n fs (d + 1) st (omega arith) in
    ((λ w. (omega (arith, (to w).0), (to w).1)), λ w. from (omega arith, w.1))

depth_pos : (v : Value) → 1 ≤ depth v
depth_pos null = omega arith
depth_pos (bool _) = omega arith
depth_pos (number _) = omega arith
depth_pos (string _) = omega arith
depth_pos (array vs) = omega arith
depth_pos (object fs) = omega arith

size_pos : (v : Value) → 1 ≤ size v
size_pos null = omega arith
size_pos (bool _) = omega arith
size_pos (number _) = omega arith
size_pos (string _) = omega arith
size_pos (array vs) = omega arith
size_pos (object fs) = omega arith

-- With fuel for every round that the node limit allows, the loop ends.
walk_total :
    (fuel : ℕ) (st : Stack) (nodes : ℕ)
    → nodes ≤ max_nodes
    → max_nodes < fuel + nodes
    → (walk fuel st nodes ≡ some (ok tt)) ⊎ (walk fuel st nodes ≡ some (err payload_limit_exceeded))
unfolding walk
walk_total zero st nodes h k = absurd (omega arith)
walk_total (suc fuel) [] nodes h k = inl refl
walk_total (suc fuel) ((v, d) ∷ st) nodes h k =
    ground (arith, walk_total fuel (push_children v d st) (nodes + 1))

walk-ok_iff :
    (fuel : ℕ) (st : Stack) (nodes : ℕ)
    → nodes ≤ max_nodes
    → max_nodes < fuel + nodes
    → (walk fuel st nodes ≡ some (ok tt)) ↔ ((nodes + total st ≤ max_nodes) × Within max_depth st)
unfolding walk
walk-ok_iff zero st nodes h k = absurd (omega arith)
walk-ok_iff (suc fuel) [] nodes h k = ((λ _. (omega arith, tt)), λ _. refl)
walk-ok_iff (suc fuel) ((v, d) ∷ st) nodes h k = ground (
  arith,
  walk-ok_iff fuel (push_children v d st) (nodes + 1),
  total-push_children v d st,
  Within-push_children max_depth v d st,
  depth_pos v,
  size_pos v,
)

walk_start-ok_iff :
    (value : Value)
    → (walk enough ((value, 1) ∷ []) 0 ≡ some (ok tt))
      ↔ ((size value ≤ max_nodes) × (depth value ≤ max_depth))
walk_start-ok_iff value =
    let (to, from) = walk-ok_iff enough ((value, 1) ∷ []) 0 (omega arith) (omega arith) in
    (
      (λ e. (omega (arith, (to e).0), omega (arith, (to e).1.0))),
      λ h. from (omega arith, (omega arith, tt)),
    )

finished-ok_iff :
    (value : Value)
    → (finished (walk enough ((value, 1) ∷ []) 0) ≡ ok tt)
      ↔ ((size value ≤ max_nodes) × (depth value ≤ max_depth))
finished-ok_iff value =
    ground (arith, walk_start-ok_iff value, walk_total enough ((value, 1) ∷ []) 0)

-- A payload is accepted exactly when it serialises to at most 1,048,576 bytes, holds at most
-- 10,000 values and is at most 32 levels deep.
pub validate_json_payload-ok_iff :
    (to_vec : Value → Option (List ℕ)) (value : Value)
    → (validate_json_payload to_vec value ≡ ok tt) ↔ (
        (bytes : List ℕ) × (to_vec value ≡ some bytes)
        × (length bytes ≤ max_bytes)
        × (size value ≤ max_nodes)
        × (depth value ≤ max_depth))
unfolding validate_json_payload
validate_json_payload-ok_iff to_vec value = elim (Option-cases (to_vec value)) [
  | inl e ↦ rw e ((λ h. cc h), λ w. absurd (cc (w.1)))
  | inr (bytes, e) ↦ rw e (
    (λ h. (
      bytes,
      refl,
      ground arith,
      ground (arith, finished-ok_iff value),
      ground (arith, finished-ok_iff value),
    )),
    λ w. ground (arith, finished-ok_iff value),
  )
]
