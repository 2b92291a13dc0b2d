-- ===== src/Copyable/Set.antt =====
-- src/copyable/set.rs: a set that is copied as raw data and is not dropped.
use btree_forest_arena.Prelude.{ℕ, Bool, Option}
use btree_forest_arena.Prelude.Order.{Ord}
use btree_forest_arena.Slots.{RangeBounds}
use btree_forest_arena.Store.{Slab, Run, pure, ◌>>=◌}
use btree_forest_arena.Node.{Node}
use btree_forest_arena.Iter.{Iter}
use btree_forest_arena.Range.{Range}
use btree_forest_arena.Set as Inner
use btree_forest_arena.Set.{Void}
use btree_forest_arena.Copyable.Nodes.{NodeIter}

pub record RawBTreeSet : Type 0 where
  pub bytes : Inner.BTreeSet

pub record BTreeSet : Type 0 where
  pub inner : RawBTreeSet

unfoldable pub raw_from : Inner.BTreeSet → RawBTreeSet
raw_from t = record { bytes = t }

unfoldable pub deref : RawBTreeSet → Inner.BTreeSet
deref r = r.bytes

unfoldable pub from : Inner.BTreeSet → BTreeSet
unfolding raw_from
from t = record { inner = raw_from t }

unfoldable pub clone : BTreeSet → BTreeSet
clone t = t

-- `build`; what `f` does to the new set is given as a run.
unfoldable pub build : {S : Type 0} → (Inner.BTreeSet → Run S Inner.BTreeSet) → Run S BTreeSet
unfolding Inner.new_in from
build f = do t ← f Inner.new_in; pure (from t)

unfoldable pub len : BTreeSet → ℕ
unfolding Inner.len deref
len t = Inner.len (deref t.inner)

unfoldable pub is_empty : BTreeSet → Bool
unfolding Inner.is_empty deref
is_empty t = Inner.is_empty (deref t.inner)

unfoldable pub nodes : BTreeSet → NodeIter
unfolding Inner.nodes deref
nodes t = Inner.nodes (deref t.inner)

module _ {S T : Type 0} (store : Slab S (Node T Void)) where
  unfoldable pub first : BTreeSet → Run S (Option T)
  unfolding Inner.first deref
  first t = Inner.first store (deref t.inner)

  unfoldable pub last : BTreeSet → Run S (Option T)
  unfolding Inner.last deref
  last t = Inner.last store (deref t.inner)

  unfoldable pub iter : BTreeSet → Run S Iter
  unfolding Inner.iter deref
  iter t = Inner.iter store (deref t.inner)

module _ {S T : Type 0} ⦃o : Ord T⦄ (store : Slab S (Node T Void)) where
  unfoldable pub contains : BTreeSet → T → Run S Bool
  unfolding Inner.contains deref
  contains t value = Inner.contains store (deref t.inner) value

  unfoldable pub get : BTreeSet → T → Run S (Option T)
  unfolding Inner.get deref
  get t value = Inner.get store (deref t.inner) value

  unfoldable pub validate : BTreeSet → Run S (Unit {0})
  unfolding Inner.validate deref
  validate t = Inner.validate store (deref t.inner)

  unfoldable pub range : BTreeSet → RangeBounds T → Run S Range
  unfolding Inner.range deref
  range t bounds = Inner.range store (deref t.inner) bounds
