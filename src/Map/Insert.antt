-- ===== src/Map/Insert.antt =====
-- The operations of src/map.rs that insert.
pub mod Root
pub mod Get
pub mod Fit
pub mod Grow
pub mod Absorb
pub mod Halved
pub mod Divide
pub mod GrowRoot
pub mod NewRoot
pub mod Relink
pub mod SplitLeaf
pub mod LeafOverflow
pub mod Path
pub mod Settle
pub mod Filled
pub mod Recall
use btree_forest_arena.Prelude.{
  ℕ, zero, suc, ◌+◌, Bool, true, false, Option, none, some, List, [], ◌∷◌, ltb, ◌==◌, if◌then◌else◌,
  expect,
}
use btree_forest_arena.Prelude.Order.{Ord}
use btree_forest_arena.Store.{
  NodePtr, Slab, Run, pure, and_then, ◌>>=◌, ◌>>◌, lift, assert, as_ref, as_mut, alloc,
}
use btree_forest_arena.Node.{
  Node, max_keys, leaf_node, internal_node, parent, set_parent, next, set_next, set_prev, edges,
  val, replace_val,
}
use btree_forest_arena.Node.Leaf.{insert_val, split_leaf}
use btree_forest_arena.Node.Edges.{insert_edge, set_last_edge, split_internal, adopt}
use btree_forest_arena.Map.Defs.{BTreeMap, Find, no_root, before, found_at, find, get}

module _ {S K V : Type 0} (store : Slab S (Node K V)) where
  unfoldable pub insert_root : BTreeMap → K → V → Run S BTreeMap
  unfolding leaf_node insert_val alloc
  insert_root m k v = do
    assert (m.length == 0)
    root ← lift (insert_val leaf_node 0 k v)
    p ← alloc store root
    pure (record m { root = some p; length = m.length + 1 })

  -- A new root over the left node at `left` and the right node at `right`.
  unfoldable pub grow_root : BTreeMap → NodePtr → NodePtr → K → Run S BTreeMap
  unfolding alloc internal_node set_parent set_last_edge insert_edge
  grow_root m left right k = do
    root ← alloc store internal_node
    l ← as_ref store left
    as_mut store left (set_parent l root 0)
    r ← as_ref store right
    as_mut store right (set_parent r root 0)
    set_last_edge store root right
    insert_edge store root 0 false k left
    pure (record m { root = some root; height = m.height + 1 })

  -- The `loop` of `insert_before`: `right` and the split key are to be hung behind `node`.
  unfoldable pub insert_up : ℕ → BTreeMap → NodePtr → NodePtr → K → Run S BTreeMap
  unfolding parent set_parent insert_edge split_internal alloc adopt edges grow_root
  insert_up zero m node right k = lift none
  insert_up (suc fuel) m node right k = do
    n ← as_ref store node
    up ← lift (parent n)
    elim up [
      | none ↦ grow_root m node right k
      | some (p, idx) ↦ (do
        r ← as_ref store right
        as_mut store right (set_parent r p (idx + 1))
        pn ← as_ref store p
        elim (ltb pn.len max_keys) [
          | true ↦ (do insert_edge store p idx true k right; pure m)
          | false ↦ (do
            (k', right_node) ← split_internal store p idx k right
            right' ← alloc store right_node
            children ← lift (edges right_node)
            adopt store right' children
            insert_up fuel m p right' k')
        ])
    ]

  -- The leaf behind the new one gets it as its previous leaf.
  unfoldable pub relink : Option NodePtr → NodePtr → Run S (Unit {0})
  unfolding set_prev
  relink none right = pure tt
  relink (some q) right = do
    a ← as_ref store q
    a' ← lift (set_prev a (some right))
    as_mut store q a'

  -- The fuel is the number of levels: one round for each, up to the root.
  unfoldable pub insert_before : BTreeMap → K → V → NodePtr → ℕ → Run S BTreeMap
  unfolding insert_val split_leaf alloc set_next next set_prev relink insert_up
  insert_before m k v node idx = do
    n ← as_ref store node
    m' ← elim (ltb n.len max_keys) [
      | true ↦ (do n' ← lift (insert_val n idx k v); as_mut store node n'; pure m)
      | false ↦ (do
        (left, k', right_node) ← lift (split_leaf n idx k v)
        as_mut store node left
        right ← alloc store right_node
        l ← as_ref store node
        l' ← lift (set_next l (some right))
        as_mut store node l'
        r ← as_ref store right
        r' ← lift (set_prev r (some node))
        as_mut store right r'
        after ← lift (next r')
        relink after right
        insert_up (m.height + 1) m node right k')
    ]
    pure (record m' { length = m'.length + 1 })

module _ {S K V : Type 0} ⦃o : Ord K⦄ (store : Slab S (Node K V)) where
  -- The map, and the value that was replaced.
  unfoldable pub insert : BTreeMap → K → V → Run S (BTreeMap × Option V)
  unfolding find insert_root insert_before replace_val
  insert m k v = do
    f ← find store m k
    elim f [
      | no_root ↦ (do m' ← insert_root store m k v; pure (m', none))
      | before node idx ↦ (do m' ← insert_before store m k v node idx; pure (m', none))
      | found_at node idx ↦ (do
        n ← as_ref store node
        (n', old) ← lift (replace_val n idx v)
        as_mut store node n'
        pure (m, some old))
    ]

  -- The map, and the value that the returned reference reads.
  unfoldable pub get_or_insert : BTreeMap → K → V → Run S (BTreeMap × V)
  unfolding find insert_root insert_before get val
  get_or_insert m k v = do
    f ← find store m k
    elim f [
      | no_root ↦ (do
        m' ← insert_root store m k v
        root ← lift (expect m'.root)
        n ← as_ref store root
        stored ← lift (val n 0)
        pure (m', stored))
      | before node idx ↦ (do
        m' ← insert_before store m k v node idx
        got ← get store m' k
        stored ← lift (expect got)
        pure (m', stored))
      | found_at node idx ↦ (do n ← as_ref store node; stored ← lift (val n idx); pure (m, stored))
    ]

  unfoldable pub extend : BTreeMap → List (K × V) → Run S BTreeMap
  unfolding insert
  extend m [] = pure m
  extend m ((k, v) ∷ rest) = do (m', _) ← insert m k v; extend m' rest
