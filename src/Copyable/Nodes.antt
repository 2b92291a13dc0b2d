-- ===== src/Copyable/Nodes.antt =====
-- src/copyable/sealed.rs: the walk over the nodes of a tree.
pub mod Faults
use Prim.Native.Nat.{compare}
use Prim.Native.Nat.Ordering.{lt, eq, gt}
use btree_forest_arena.Prelude.{
  ℕ, zero, suc, ◌+◌, ◌-◌, Bool, true, false, Option, none, some, List, [], ◌∷◌, ltb, expect,
}
use btree_forest_arena.Store.{NodePtr, Slab, Run, pure, ◌>>=◌, ◌>>◌, lift, as_ref}
use btree_forest_arena.Node.{Node, edge}
use btree_forest_arena.Map.{BTreeMap}

pub record NodeIter : Type 0 where
  pub current : Option NodePtr
  pub current_height : ℕ
  pub max_height : ℕ

-- `NodeIter::new`.
unfoldable pub node_iter : Option NodePtr → ℕ → NodeIter
node_iter root height = record { current = root; current_height = height; max_height = height }

-- `BTree::nodes` of a map.
unfoldable pub nodes : BTreeMap → NodeIter
unfolding node_iter
nodes m = node_iter m.root m.height

module _ {S K V : Type 0} (store : Slab S (Node K V)) where
  -- The `loop`, on fuel: the node that comes next, and the height that is then the current one. The
  -- index is read from the node after it has become its parent.
  unfoldable pub next_ancestor : ℕ → ℕ → NodePtr → ℕ → Run S (Option NodePtr × ℕ)
  unfolding edge
  next_ancestor zero max_height p height = lift none
  next_ancestor (suc fuel) max_height p height = elim (compare height max_height) [
    | gt ↦ lift none
    | eq ↦ pure (none, height)
    | lt ↦ (do
      n ← as_ref store p
      q ← lift (expect n.parent)
      up ← as_ref store q
      index ← lift up.parent_idx
      elim (ltb index up.len) [
        | true ↦ (do child ← lift (edge up (index + 1)); pure (some child, height + 1))
        | false ↦ next_ancestor fuel max_height q (height + 1)
      ])
  ]

  -- The step from the node that is yielded.
  unfoldable pub advance_from : NodeIter → NodePtr → Run S NodeIter
  unfolding edge next_ancestor
  advance_from it p = elim (ltb 0 it.current_height) [
    | true ↦ (do
      n ← as_ref store p
      child ← lift (edge n 0)
      pure (record it { current = some child; current_height = it.current_height - 1 }))
    | false ↦ (do
      (current, height) ← next_ancestor (it.max_height + 1) it.max_height p it.current_height
      pure (record it { current = current; current_height = height }))
  ]

  unfoldable pub next : NodeIter → Run S (NodeIter × Option NodePtr)
  unfolding advance_from
  next it = elim it.current [
    | none ↦ pure (it, none)
    | some p ↦ (do it' ← advance_from it p; pure (it', some p))
  ]

  -- `collect`, on fuel.
  unfoldable pub collect : ℕ → NodeIter → Run S (List NodePtr)
  unfolding next
  collect zero it = lift none
  collect (suc fuel) it = do
    (it', node) ← next it
    elim node [ none ↦ pure [] | some p ↦ (do rest ← collect fuel it'; pure (p ∷ rest)) ]
