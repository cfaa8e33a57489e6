-- ===== src/Base/BTree/Laws.antt =====
-- The laws of the maps and sets: what a lookup finds after a change, and what a set holds.
use Prim.Native.Nat.{Ordering}
use mathlib.Core.Path.{◌≡◌, refl}
use mathlib.Core.Logic.{◌≢◌, ◌⊎◌, ◌↔◌}
use mathlib.Core.Option.{none, some}
use mathlib.Core.Bool.{true}
use mathlib.Core.List.{List, [], ◌∷◌}
use native.Mathlib.Omega.{arith}
use idr.Base.Lists.{Elem}
use idr.Base.Order.{Ord, Below, StrictlySorted, Below-Elem}
use idr.Base.BTree.{lookup, update, add}

module _ {K V : Type 0} ⦃o : Ord K⦄ (default : V) (f : V → V) where
  pub lookup-update_same :
      (key : K) (m : List (K × V))
      → lookup key (update key default f m)
        ≡ some (elim (lookup key m) [ none ↦ f default | some v ↦ f v ])
  unfolding lookup update
  lookup-update_same key [] = ground (arith, o.cmp_eq key key)
  lookup-update_same key ((k, v) ∷ m) =
      ground (arith, o.cmp_eq key key, o.cmp_eq key k, lookup-update_same key m)

  pub lookup-update_other :
      (key other : K) (m : List (K × V))
      → other ≢ key
      → lookup other (update key default f m) ≡ lookup other m
  unfolding lookup update
  lookup-update_other key other [] ne = ground (arith, o.cmp_eq other key)
  lookup-update_other key other ((k, v) ∷ m) ne = ground (
    arith,
    o.cmp_eq other key,
    o.cmp_eq key k,
    o.cmp_eq other k,
    o.cmp_trans other key k,
    lookup-update_other key other m ne,
  )

module _ {K : Type 0} ⦃o : Ord K⦄ where
  pub add-Elem : (a key : K) (s : List K) → Elem a (add key s).1 ↔ ((a ≡ key) ⊎ Elem a s)
  unfolding add
  add-Elem a key [] = ground arith
  add-Elem a key (k ∷ s) = ground (arith, o.cmp_eq key k, add-Elem a key s)

  Below-add :
      (k key : K) (s : List K) → o.cmp k key ≡ Ordering.lt → Below k s → Below k (add key s).1
  unfolding add
  Below-add k key [] h b = (h, tt)
  Below-add k key (x ∷ s) h b = ground (arith, Below-add k key s h b.1)

  Below-trans : (a x : K) (xs : List K) → o.cmp a x ≡ Ordering.lt → Below x xs → Below a xs
  Below-trans a x [] h k = tt
  Below-trans a x (y ∷ ys) h k = (o.cmp_trans a x y h k.0, Below-trans a x ys h k.1)

  pub add-StrictlySorted : (key : K) (s : List K) → StrictlySorted s → StrictlySorted (add key s).1
  unfolding add
  add-StrictlySorted key [] h = (tt, tt)
  add-StrictlySorted key (k ∷ s) h = ground (
    arith,
    add-StrictlySorted key s h.1,
    Below-add k key s,
    Below-trans key k s,
    o.cmp_flip k key,
  )

  -- In a sorted set the first result tells whether the key is new.
  pub add-new :
      (key : K) (s : List K) → StrictlySorted s → ((add key s).0 ≡ true) ↔ (Elem key s → ⊥)
  unfolding add
  add-new key [] h = ((λ _ m. elim m [ ]), λ _. refl)
  add-new key (k ∷ s) h = ground (
    arith,
    add-new key s h.1,
    o.cmp_eq key k,
    o.cmp_flip k key,
    o.cmp_flip key k,
    Below-Elem k key s h.0,
  )
