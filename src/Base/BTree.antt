-- ===== src/Base/BTree.antt =====
-- Rust's `BTreeMap` and `BTreeSet`: lists in the order of their keys.
pub mod Laws
use Prim.Native.Nat.{Ordering}
use mathlib.Core.Option.{Option, none, some}
use mathlib.Core.Bool.{Bool, true, false}
use mathlib.Core.List.{List, [], ◌∷◌}
use idr.Base.Order.{Ord}

module _ {K V : Type 0} ⦃o : Ord K⦄ where
  -- `map.get(&key)`
  unfoldable pub lookup : K → List (K × V) → Option V
  lookup key [] = none
  lookup key ((k, v) ∷ m) =
      let later = lookup key m in
      elim (o.cmp key k) [ Ordering.eq ↦ some v | Ordering.lt ↦ none | Ordering.gt ↦ later ]

  -- `*map.entry(key).or_insert(default)` changed by `f`
  unfoldable pub update : K → V → (V → V) → List (K × V) → List (K × V)
  update key default f [] = (key, f default) ∷ []
  update key default f ((k, v) ∷ m) =
      let later = (k, v) ∷ update key default f m in
      elim (o.cmp key k) [
        | Ordering.eq ↦ (k, f v) ∷ m
        | Ordering.lt ↦ (key, f default) ∷ (k, v) ∷ m
        | Ordering.gt ↦ later
      ]

module _ {K : Type 0} ⦃o : Ord K⦄ where
  -- `set.insert(key)`: whether the key is new, and the set with it.
  unfoldable pub add : K → List K → Bool × List K
  add key [] = (true, key ∷ [])
  add key (k ∷ s) =
      let (is_new, later) = add key s in
      elim (o.cmp key k) [
        | Ordering.eq ↦ (false, k ∷ s)
        | Ordering.lt ↦ (true, key ∷ k ∷ s)
        | Ordering.gt ↦ (is_new, k ∷ later)
      ]
