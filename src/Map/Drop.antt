-- ===== src/Map/Drop.antt =====
-- `clear`, `Drop` and the functions of src/map.rs that give nodes back to the arena.
pub mod Clear
pub mod Frees
use btree_forest_arena.Prelude.{
  ℕ, zero, suc, ◌+◌, ◌-◌, ◌≡◌, Bool, true, false, Option, none, some, List, [], ◌∷◌, ◌++◌, leb, ltb,
  ◌==◌,
}
use btree_forest_arena.Store.{
  NodePtr, Slab, Run, pure, and_then, ◌>>=◌, ◌>>◌, lift, assert, as_ref, dealloc,
}
use btree_forest_arena.Node.{Node, keys, vals, edges, parent}
use btree_forest_arena.Map.Defs.{BTreeMap}

module _ {S K V : Type 0} (store : Slab S (Node K V)) where
  -- `for &child in edges { drop_node_ptr(child, …) }`: what was dropped, in order.
  unfoldable pub drop_children :
      (NodePtr → Run S (List K × List V)) → List NodePtr → Run S (List K × List V)
  drop_children drop_child [] = pure ([], [])
  drop_children drop_child (p ∷ ps) = do
    (ks, vs) ← drop_child p
    (ks', vs') ← drop_children drop_child ps
    pure (ks ++ ks', vs ++ vs')

  -- The keys and the values that `drop_in_place` is called on, in order.
  unfoldable pub drop_node_ptr : ℕ → NodePtr → Run S (List K × List V)
  unfolding keys vals edges drop_children dealloc
  drop_node_ptr zero p = do
    n ← as_ref store p
    ks ← lift (keys n)
    vs ← lift (vals n)
    dealloc store p
    pure (ks, vs)
  drop_node_ptr (suc h) p = do
    n ← as_ref store p
    ks ← lift (keys n)
    children ← lift (edges n)
    (ks', vs') ← drop_children (drop_node_ptr h) children
    dealloc store p
    pure (ks ++ ks', vs')

  unfoldable pub drop_root : BTreeMap → Run S (List K × List V)
  unfolding drop_node_ptr
  drop_root m = elim m.root [ none ↦ pure ([], []) | some root ↦ drop_node_ptr m.height root ]

  unfoldable pub clear : BTreeMap → Run S BTreeMap
  unfolding drop_root
  clear m = do _ ← drop_root m; pure (record m { root = none; length = 0 })

  -- `Drop::drop`; `true` while the thread unwinds.
  unfoldable pub drop : Bool → BTreeMap → Run S BTreeMap
  unfolding drop_root
  drop true m = pure m
  drop false m = do _ ← drop_root m; pure (record m { root = none })

  -- The loop of `dealloc_up_firsts`, on fuel.
  unfoldable pub dealloc_up_firsts : ℕ → NodePtr → ℕ → Run S (Unit {0})
  unfolding parent dealloc
  dealloc_up_firsts zero p idx = lift none
  dealloc_up_firsts (suc fuel) p idx = do
    n ← as_ref store p
    assert (leb idx n.len)
    elim (idx == 0) [
      | false ↦ pure tt
      | true ↦ (do
        up ← lift (parent n)
        dealloc store p
        elim up [ none ↦ pure tt | some (q, i) ↦ dealloc_up_firsts fuel q i ])
    ]

  -- The `while let` loop of `dealloc_up_lasts`, on fuel.
  unfoldable pub dealloc_up : ℕ → NodePtr → Run S (Unit {0})
  unfolding parent dealloc
  dealloc_up zero p = lift none
  dealloc_up (suc fuel) p = do
    n ← as_ref store p
    up ← lift (parent n)
    dealloc store p
    elim up [
      | none ↦ pure tt
      | some (q, i) ↦ (do
        above ← as_ref store q
        assert (leb i above.len)
        elim (i == above.len) [ false ↦ pure tt | true ↦ dealloc_up fuel q ])
    ]

  unfoldable pub dealloc_up_lasts : ℕ → NodePtr → ℕ → Run S (Unit {0})
  unfolding dealloc_up
  dealloc_up_lasts fuel p idx = do
    n ← as_ref store p
    assert (ltb idx n.len)
    elim (idx == n.len - 1) [ false ↦ pure tt | true ↦ dealloc_up fuel p ]
