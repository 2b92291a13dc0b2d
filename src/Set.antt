-- ===== src/Set.antt =====
-- src/set.rs: a set is a map with the values `()`.
pub mod Refines
use btree_forest_arena.Prelude.{ℕ, Bool, Option, none, some, List, [], ◌∷◌, map, is_some, not}
use mathlib.Core.Option
use btree_forest_arena.Prelude.Order.{Ord}
use btree_forest_arena.Slots.{RangeBounds}
use btree_forest_arena.Store.{NodePtr, Slab, Run, pure, ◌>>=◌, ◌>>◌}
use btree_forest_arena.Node.{Node}
use btree_forest_arena.Node.View.{key_of}
use btree_forest_arena.Map
use btree_forest_arena.Map.{BTreeMap}
use btree_forest_arena.Map.Insert
use btree_forest_arena.Map.Remove
use btree_forest_arena.Map.Drop
use btree_forest_arena.Map.Validate
use btree_forest_arena.Iter
use btree_forest_arena.Iter.{Iter}
use btree_forest_arena.Iter.Into
use btree_forest_arena.Iter.Into.{IntoIter}
use btree_forest_arena.Range
use btree_forest_arena.Copyable.Nodes as Traversal
use btree_forest_arena.Copyable.Nodes.{NodeIter}
use btree_forest_arena.Range.{Range}

-- The tuple struct `BTreeSet`.
pub record BTreeSet : Type 0 where
  pub inner : BTreeMap

abbrev pub Void : Type 0
Void = Unit {0}

unfoldable pub new_in : BTreeSet
unfolding Map.new_in
new_in = record { inner = Map.new_in }

unfoldable pub len : BTreeSet → ℕ
unfolding Map.len
len t = Map.len t.inner

unfoldable pub is_empty : BTreeSet → Bool
unfolding Map.is_empty
is_empty t = Map.is_empty t.inner

-- `BTree::nodes` of a set.
unfoldable pub nodes : BTreeSet → NodeIter
unfolding Traversal.nodes
nodes t = Traversal.nodes t.inner

module _ {S T : Type 0} (store : Slab S (Node T Void)) where
  unfoldable pub clear : BTreeSet → Run S BTreeSet
  unfolding Map.Drop.clear
  clear t = do m ← Map.Drop.clear store t.inner; pure (record { inner = m })

  unfoldable pub first : BTreeSet → Run S (Option T)
  unfolding Map.first_key_value
  first t = do kv ← Map.first_key_value store t.inner; pure (Option.map key_of kv)

  unfoldable pub last : BTreeSet → Run S (Option T)
  unfolding Map.last_key_value
  last t = do kv ← Map.last_key_value store t.inner; pure (Option.map key_of kv)

  unfoldable pub pop_first : BTreeSet → Run S (BTreeSet × Option T)
  unfolding Map.Remove.pop_first
  pop_first t = do
    (m, kv) ← Map.Remove.pop_first store t.inner
    pure (record { inner = m }, Option.map key_of kv)

  unfoldable pub pop_last : BTreeSet → Run S (BTreeSet × Option T)
  unfolding Map.Remove.pop_last
  pop_last t = do
    (m, kv) ← Map.Remove.pop_last store t.inner
    pure (record { inner = m }, Option.map key_of kv)

  -- The iterators have the iterators of the map inside; `next` and `next_back` drop the value.
  unfoldable pub iter : BTreeSet → Run S Iter
  unfolding Iter.iter
  iter t = Iter.iter store t.inner

  unfoldable pub iter_next : Iter → Run S (Iter × Option T)
  unfolding Iter.next
  iter_next it = do (it', kv) ← Iter.next store it; pure (it', Option.map key_of kv)

  unfoldable pub iter_next_back : Iter → Run S (Iter × Option T)
  unfolding Iter.next_back
  iter_next_back it = do (it', kv) ← Iter.next_back store it; pure (it', Option.map key_of kv)

  unfoldable pub into_iter : BTreeSet → Run S IntoIter
  unfolding Into.into_iter
  into_iter t = Into.into_iter store t.inner

  unfoldable pub into_iter_next : IntoIter → Run S (IntoIter × Option T)
  unfolding Into.next
  into_iter_next it = do (it', kv) ← Into.next store it; pure (it', Option.map key_of kv)

  unfoldable pub into_iter_next_back : IntoIter → Run S (IntoIter × Option T)
  unfolding Into.next_back
  into_iter_next_back it = do (it', kv) ← Into.next_back store it; pure (it', Option.map key_of kv)

  unfoldable pub range_next : Range → Run S (Range × Option T)
  unfolding Range.next
  range_next r = do (r', kv) ← Range.next store r; pure (r', Option.map key_of kv)

  unfoldable pub range_next_back : Range → Run S (Range × Option T)
  unfolding Range.next_back
  range_next_back r = do (r', kv) ← Range.next_back store r; pure (r', Option.map key_of kv)

module _ {S T : Type 0} ⦃o : Ord T⦄ (store : Slab S (Node T Void)) where
  unfoldable pub contains : BTreeSet → T → Run S Bool
  unfolding Map.contains_key
  contains t value = Map.contains_key store t.inner value

  unfoldable pub get : BTreeSet → T → Run S (Option T)
  unfolding Map.get_key
  get t value = Map.get_key store t.inner value

  -- The set, and whether the value was not already present.
  unfoldable pub insert : BTreeSet → T → Run S (BTreeSet × Bool)
  unfolding Map.Insert.insert
  insert t value = do
    (m, old) ← Map.Insert.insert store t.inner value tt
    pure (record { inner = m }, not (is_some old))

  -- The set, and whether the value was present.
  unfoldable pub remove : BTreeSet → T → Run S (BTreeSet × Bool)
  unfolding Map.Remove.remove
  remove t value = do
    (m, old) ← Map.Remove.remove store t.inner value
    pure (record { inner = m }, is_some old)

  unfoldable pub range : BTreeSet → RangeBounds T → Run S Range
  unfolding Range.range
  range t bounds = Range.range store t.inner bounds

  unfoldable pub validate : BTreeSet → Run S (Unit {0})
  unfolding Map.Validate.validate
  validate t = Map.Validate.validate store t.inner

  unfoldable pub extend : BTreeSet → List T → Run S BTreeSet
  unfolding Map.Insert.extend
  extend t values = do
    m ← Map.Insert.extend store t.inner (map (λ v. (v, tt)) values)
    pure (record { inner = m })
