-- ===== src/Map/Insert/Recall.antt =====
-- `get` after an `insert` that may split a leaf.
use Prim.Native.Nat.Ordering.{eq}
use btree_forest_arena.Prelude.{ℕ, ◌≡◌, ◌∙◌, ap, inl, inr, some, List}
use mathlib.Core.Option
use btree_forest_arena.Prelude.Order.{Ord}
use btree_forest_arena.Store.{NodePtr, Slab}
use btree_forest_arena.Node.{Node, max_keys, next}
use btree_forest_arena.Node.View.{val_of}
use btree_forest_arena.Tree.{lookup}
use btree_forest_arena.Tree.Repr.{IsMap}
use btree_forest_arena.Map.{BTreeMap, before, find, get}
use btree_forest_arena.Map.Lookup.Retrieve.{get-lookup}
use btree_forest_arena.Map.Insert.{insert}
use btree_forest_arena.Map.Insert.Get.{lookup-upsert, lookup-upsert_other}
use btree_forest_arena.Map.Insert.Relink.{LeafBehind}
use btree_forest_arena.Map.Insert.Settle.{IsFilledMap}
use btree_forest_arena.Map.Insert.Filled.{insert-IsFilledMap}

module _ {S K V : Type 0} ⦃o : Ord K⦄ (store : Slab S (Node K V)) where
  IsFilledMap-IsMap :
      (s : S) (m : BTreeMap) (es : List (K × V)) → IsFilledMap store s m es → IsMap store s m es
  IsFilledMap-IsMap s m es (inl empty) = inl empty
  IsFilledMap-IsMap s m es (inr t) = inr t.is

  -- On a map with the entries `es` and no empty leaf, `insert` succeeds and returns the value of the
  -- entry that it replaces; after it `get` of the key returns the new value, and `get` of a key that
  -- compares different the value that this key had. If the key is absent and the leaf where `find` stops
  -- has 8 entries, this is under the condition that the leaf linked behind it, if any, is another leaf of
  -- the arena.
  pub insert-get_any :
      (s : S) (m : BTreeMap) (es : List (K × V)) (k : K) (v : V)
      → IsFilledMap store s m es
      → ((p : NodePtr) (i : ℕ) (n : Node K V)
          → find store m k s ≡ some (before p i, s)
          → store.deref p s ≡ some n
          → n.len ≡ max_keys
          → (q : NodePtr) → next n ≡ some (some q)
          → LeafBehind store s p q)
      → (m' : BTreeMap) × (s' : S) × (insert store m k v s
          ≡ some ((m', Option.map val_of (lookup es k)), s'))
        × (get store m' k s' ≡ some (some v, s'))
        × ((x : K)
            → (o.cmp k x ≡ eq → ⊥)
            → get store m' x s' ≡ some (Option.map val_of (lookup es x), s'))
  insert-get_any s m es k v is behind =
      let r = insert-IsFilledMap store s m es k v is behind in
      let is' = IsFilledMap-IsMap r.s' r.m' _ r.is_map in
      (
        r.m',
        r.s',
        r.runs,
        get-lookup store k is' ∙ ap (λ y. some (y, r.s')) (lookup-upsert k v es),
        λ x other.
            get-lookup store x is'
            ∙ ap (λ y. some (Option.map val_of y, r.s')) (lookup-upsert_other k v es x other),
      )
