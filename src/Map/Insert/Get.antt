-- ===== src/Map/Insert/Get.antt =====
-- `get` after `insert`.
use Prim.Native.Nat.Ordering.{eq}
use btree_forest_arena.Prelude.{ℕ, ◌<◌, ◌≡◌, ◌∙◌, ap, some, List, [], ◌∷◌, arith}
use mathlib.Core.Option
use btree_forest_arena.Prelude.Order.{Ord}
use btree_forest_arena.Store.{NodePtr, Slab}
use btree_forest_arena.Node.{Node, max_keys}
use btree_forest_arena.Node.View.{val_of}
use btree_forest_arena.Tree.{lookup}
use btree_forest_arena.Tree.Repr.{IsMap}
use btree_forest_arena.Tree.Upsert.{upsert}
use btree_forest_arena.Map.{BTreeMap, before, find, get}
use btree_forest_arena.Map.Lookup.Retrieve.{get-lookup}
use btree_forest_arena.Map.Insert.{insert}
use btree_forest_arena.Map.Insert.Fit.{insert-upsert}

module _ {K V : Type 0} ⦃o : Ord K⦄ (k : K) (v : V) where
  pub lookup-upsert : (es : List (K × V)) → Option.map val_of (lookup (upsert k v es) k) ≡ some v
  lookup-upsert [] = ground (arith, o.eq_self k)
  lookup-upsert (e ∷ es) = ground (arith, o.eq_self k, lookup-upsert es)

  pub lookup-upsert_other :
      (es : List (K × V)) (x : K) → (o.cmp k x ≡ eq → ⊥) → lookup (upsert k v es) x ≡ lookup es x
  lookup-upsert_other [] x other = ground (arith, other)
  lookup-upsert_other (e ∷ es) x other =
      ground (arith, other, lookup-upsert_other es x other, o.eq_of_eq e.0 k, o.eq_trans k e.0 x)

module _ {S K V : Type 0} ⦃o : Ord K⦄ (store : Slab S (Node K V)) where
  module _ (s : S) (m : BTreeMap) (es : List (K × V)) (k : K) (v : V) (is : IsMap store s m es)
      (room : (p : NodePtr) (i : ℕ) (n : Node K V)
        → find store m k s ≡ some (before p i, s)
        → store.deref p s ≡ some n
        → n.len < max_keys) where
    -- On a map with the entries `es`, if the leaf where `find` stops has fewer than 8 entries or the key
    -- is found, then `insert` succeeds, and after it `get` of the key returns the new value.
    pub insert-get :
        (m' : BTreeMap) × (s' : S) × (insert store m k v s
          ≡ some ((m', Option.map val_of (lookup es k)), s'))
        × (get store m' k s' ≡ some (some v, s'))
    insert-get =
        let r = insert-upsert store s m es k v is room in
        (
          r.m',
          r.s',
          r.runs,
          get-lookup store k r.is_map ∙ ap (λ y. some (y, r.s')) (lookup-upsert k v es),
        )

    -- On a map with the entries `es`, if the leaf where `find` stops has fewer than 8 entries or the key
    -- is found, then `insert` succeeds, and after it `get` of a key `x` that compares different returns
    -- the value that `x` had.
    pub insert-get_other :
        (x : K)
        → (o.cmp k x ≡ eq → ⊥)
        → (m' : BTreeMap) × (s' : S) × (insert store m k v s
            ≡ some ((m', Option.map val_of (lookup es k)), s'))
          × (get store m' x s' ≡ some (Option.map val_of (lookup es x), s'))
    insert-get_other x other =
        let r = insert-upsert store s m es k v is room in
        (
          r.m',
          r.s',
          r.runs,
          get-lookup store x r.is_map
              ∙ ap (λ y. some (Option.map val_of y, r.s')) (lookup-upsert_other k v es x other),
        )
