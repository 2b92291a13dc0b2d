-- ===== src/Map/Remove/Get.antt =====
-- `get` after `remove`.
use Prim.Native.Nat.Ordering.{eq}
use btree_forest_arena.Prelude.{
  ℕ, ◌<◌, ◌/◌, ◌≡◌, refl, ◌∙◌, ap, Option, none, some, List, [], ◌∷◌, arith,
}
use mathlib.Core.Option
use btree_forest_arena.Prelude.Order.{Ord}
use btree_forest_arena.Store.{NodePtr, Slab}
use btree_forest_arena.Node.{Node, max_keys}
use btree_forest_arena.Node.View.{val_of}
use btree_forest_arena.Tree.{lookup}
use btree_forest_arena.Tree.Repr.{IsMap}
use btree_forest_arena.Tree.Erase.{erase}
use btree_forest_arena.Map.{BTreeMap, found_at, find, get}
use btree_forest_arena.Map.Lookup.Retrieve.{get-lookup}
use btree_forest_arena.Map.Remove.{remove, remove_key_value}
use btree_forest_arena.Map.Remove.Room.{remove_key_value-erase}

module _ {K V : Type 0} ⦃o : Ord K⦄ (k : K) where
  lookup-erase_other :
      (es : List (K × V)) (x : K) → (o.cmp k x ≡ eq → ⊥) → lookup (erase k es) x ≡ lookup es x
  lookup-erase_other [] x other = refl
  lookup-erase_other (e ∷ es) x other =
      ground (arith, other, lookup-erase_other es x other, o.eq_of_eq e.0 k, o.eq_trans k e.0 x)

module _ {S K V : Type 0} ⦃o : Ord K⦄ (store : Slab S (Node K V)) where
  remove-runs :
      (s s' : S) (m m' : BTreeMap) (k : K) (found : Option (K × V))
      → remove_key_value store m k s ≡ some ((m', found), s')
      → remove store m k s ≡ some ((m', Option.map val_of found), s')
  unfolding remove
  remove-runs s s' m m' k none runs = rw runs
  remove-runs s s' m m' k (some e) runs = rw runs

  -- On a map with the entries `es`, if the leaf that has the key has more than 4 entries or no leaf has
  -- the key, then `remove` succeeds and returns the value that `k` had, and after it `get` of a key `x`
  -- that compares different returns the value that `x` had.
  pub remove-get_other :
      (s : S) (m : BTreeMap) (es : List (K × V)) (k : K)
      → IsMap store s m es
      → ((p : NodePtr) (i : ℕ) (n : Node K V)
          → find store m k s ≡ some (found_at p i, s)
          → store.deref p s ≡ some n
          → max_keys / 2 < n.len)
      → (x : K) → (o.cmp k x ≡ eq → ⊥)
      → (m' : BTreeMap) × (s' : S) × (remove store m k s
          ≡ some ((m', Option.map val_of (lookup es k)), s'))
        × (get store m' x s' ≡ some (Option.map val_of (lookup es x), s'))
  remove-get_other s m es k is room x other =
      let r = remove_key_value-erase store s m es k is room in
      (
        r.m',
        r.s',
        remove-runs s r.s' m r.m' k (lookup es k) r.runs,
        get-lookup store x r.is_map
            ∙ ap (λ y. some (Option.map val_of y, r.s')) (lookup-erase_other k es x other),
      )
