-- ===== src/Copyable/Gc.antt =====
-- src/copyable/store.rs: the collection of the nodes that no tree reaches.
use btree_forest_arena.Prelude.{ℕ, Bool, List, [], ◌∷◌, ◌++◌, contains}
use btree_forest_arena.Store.{NodePtr, Slab, Run, pure, ◌>>=◌}
use btree_forest_arena.Node.{Node}
use btree_forest_arena.Map.{BTreeMap}
use btree_forest_arena.Copyable.Nodes
use btree_forest_arena.Copyable.Nodes.{nodes}

module _ {S K V : Type 0} (store : Slab S (Node K V)) where
  -- `BTreeStore::retain_shared`.
  unfoldable pub retain_shared : (NodePtr → Bool) → Run S (Unit {0})
  retain_shared f s = pure tt (store.retain_shared f s)

  -- `flat_map(|b_tree| b_tree.nodes()).collect()`; every tree is of this store. The fuel is for the nodes
  -- of one tree. The set of the nodes is a list.
  unfoldable pub mark : ℕ → List BTreeMap → Run S (List NodePtr)
  unfolding Nodes.collect nodes
  mark fuel [] = pure []
  mark fuel (m ∷ ms) = do
    reached ← Nodes.collect store fuel (nodes m)
    rest ← mark fuel ms
    pure (reached ++ rest)

  unfoldable pub tracing_gc : ℕ → List BTreeMap → Run S (Unit {0})
  unfolding mark retain_shared
  tracing_gc fuel ms = do reached ← mark fuel ms; retain_shared (contains reached)
