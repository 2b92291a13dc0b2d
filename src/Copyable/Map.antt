-- ===== src/Copyable/Map.antt =====
-- src/copyable/map.rs: a map that is copied as raw data and is not dropped.
use btree_forest_arena.Prelude.{ℕ, Bool, Option}
use btree_forest_arena.Prelude.Order.{Ord}
use btree_forest_arena.Slots.{RangeBounds}
use btree_forest_arena.Store.{Slab, Run, pure, ◌>>=◌}
use btree_forest_arena.Node.{Node}
use btree_forest_arena.Map as Inner
use btree_forest_arena.Map.Validate as Checks
use btree_forest_arena.Iter as Walks
use btree_forest_arena.Iter.{Iter}
use btree_forest_arena.Range as Ranges
use btree_forest_arena.Range.{Range}
use btree_forest_arena.Copyable.Nodes as Traversal
use btree_forest_arena.Copyable.Nodes.{NodeIter}

-- The bytes of a map; `deref` reads them as the map again.
pub record RawBTreeMap : Type 0 where
  pub bytes : Inner.BTreeMap

pub record BTreeMap : Type 0 where
  pub inner : RawBTreeMap

unfoldable pub raw_from : Inner.BTreeMap → RawBTreeMap
raw_from m = record { bytes = m }

unfoldable pub deref : RawBTreeMap → Inner.BTreeMap
deref r = r.bytes

-- `From`, and `Clone`, which copies the bytes.
unfoldable pub from : Inner.BTreeMap → BTreeMap
unfolding raw_from
from m = record { inner = raw_from m }

unfoldable pub clone : BTreeMap → BTreeMap
clone m = m

-- `build`; what `f` does to the new map is given as a run.
unfoldable pub build : {S : Type 0} → (Inner.BTreeMap → Run S Inner.BTreeMap) → Run S BTreeMap
unfolding Inner.new_in from
build f = do m ← f Inner.new_in; pure (from m)

unfoldable pub len : BTreeMap → ℕ
unfolding Inner.len deref
len m = Inner.len (deref m.inner)

unfoldable pub is_empty : BTreeMap → Bool
unfolding Inner.is_empty deref
is_empty m = Inner.is_empty (deref m.inner)

unfoldable pub nodes : BTreeMap → NodeIter
unfolding Traversal.nodes deref
nodes m = Traversal.nodes (deref m.inner)

module _ {S K V : Type 0} (store : Slab S (Node K V)) where
  unfoldable pub first_key_value : BTreeMap → Run S (Option (K × V))
  unfolding Inner.first_key_value deref
  first_key_value m = Inner.first_key_value store (deref m.inner)

  unfoldable pub last_key_value : BTreeMap → Run S (Option (K × V))
  unfolding Inner.last_key_value deref
  last_key_value m = Inner.last_key_value store (deref m.inner)

  unfoldable pub iter : BTreeMap → Run S Iter
  unfolding Walks.iter deref
  iter m = Walks.iter store (deref m.inner)

module _ {S K V : Type 0} ⦃o : Ord K⦄ (store : Slab S (Node K V)) where
  unfoldable pub contains_key : BTreeMap → K → Run S Bool
  unfolding Inner.contains_key deref
  contains_key m k = Inner.contains_key store (deref m.inner) k

  unfoldable pub get : BTreeMap → K → Run S (Option V)
  unfolding Inner.get deref
  get m k = Inner.get store (deref m.inner) k

  unfoldable pub get_key : BTreeMap → K → Run S (Option K)
  unfolding Inner.get_key deref
  get_key m k = Inner.get_key store (deref m.inner) k

  unfoldable pub get_key_value : BTreeMap → K → Run S (Option (K × V))
  unfolding Inner.get_key_value deref
  get_key_value m k = Inner.get_key_value store (deref m.inner) k

  unfoldable pub validate : BTreeMap → Run S (Unit {0})
  unfolding Checks.validate deref
  validate m = Checks.validate store (deref m.inner)

  unfoldable pub range : BTreeMap → RangeBounds K → Run S Range
  unfolding Ranges.range deref
  range m bounds = Ranges.range store (deref m.inner) bounds
