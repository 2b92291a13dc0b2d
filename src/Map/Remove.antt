-- ===== src/Map/Remove.antt =====
-- The operations of src/map.rs that remove: `post_removal` restores the balance.
pub mod Room
pub mod Get
use btree_forest_arena.Prelude.{
  ℕ, zero, suc, ◌+◌, ◌-◌, ◌/◌, Bool, true, false, Option, none, some, ltb, ◌==◌, if◌then◌else◌,
}
use btree_forest_arena.Prelude.Order.{Ord}
use btree_forest_arena.Store.{
  NodePtr, Slab, Run, pure, ◌>>=◌, ◌>>◌, lift, assert, as_ref, as_mut, dealloc,
}
use btree_forest_arena.Node.{
  Node, max_keys, parent, set_parent, clear_parent, prev, next, set_next, set_prev, key, edge,
  edges, replace_key,
}
use btree_forest_arena.Node.Leaf.{insert_val, remove_val, merge_prev_leaf, merge_next_leaf}
use btree_forest_arena.Node.Edges.{
  insert_edge, remove_edge, remove_last_edge, merge_prev_internal, merge_next_internal, adopt,
}
use btree_forest_arena.Map.Defs.{BTreeMap, no_root, before, found_at, find, first_leaf, last_leaf}

module _ {S K V : Type 0} (store : Slab S (Node K V)) where
  -- The node at `p` has no parent: it is the root.
  unfoldable pub shrink_root : BTreeMap → NodePtr → Node K V → Bool → Run S BTreeMap
  unfolding edge dealloc clear_parent
  shrink_root m p n true = if n.len == 0 then pure (record m { root = none }) else pure m
  shrink_root m p n false = elim (ltb n.len 1) [
    | false ↦ pure m
    | true ↦ (do
      assert (ltb 0 m.height)
      child ← lift (edge n 0)
      dealloc store p
      c ← as_ref store child
      as_mut store child (clear_parent c)
      pure (record m { root = some child; height = m.height - 1 }))
  ]

  -- The last entry or edge of the previous sibling at `q` moves to the node at `p`.
  unfoldable pub take_from_prev : NodePtr → NodePtr → NodePtr → ℕ → Bool → Run S (Unit {0})
  unfolding remove_val insert_val replace_key remove_last_edge set_parent insert_edge
  take_from_prev p q parent_ptr idx true = do
    sibling ← as_ref store q
    (sibling', (k, v)) ← lift (remove_val sibling (sibling.len - 1))
    as_mut store q sibling'
    n ← as_ref store p
    n' ← lift (insert_val n 0 k v)
    as_mut store p n'
    up ← as_ref store parent_ptr
    (up', _) ← lift (replace_key up (idx - 1) k)
    as_mut store parent_ptr up'
  take_from_prev p q parent_ptr idx false = do
    (k, e) ← remove_last_edge store q
    up ← as_ref store parent_ptr
    (up', k') ← lift (replace_key up (idx - 1) k)
    as_mut store parent_ptr up'
    child ← as_ref store e
    as_mut store e (set_parent child p 0)
    insert_edge store p 0 false k' e

  -- The first entry or edge of the next sibling at `q` moves to the node at `p`.
  unfoldable pub take_from_next : NodePtr → NodePtr → NodePtr → ℕ → Bool → Run S (Unit {0})
  unfolding key remove_val insert_val replace_key remove_edge set_parent insert_edge
  take_from_next p q parent_ptr idx true = do
    after ← as_ref store q
    second ← lift (key after 1)
    up ← as_ref store parent_ptr
    (up', _) ← lift (replace_key up idx second)
    as_mut store parent_ptr up'
    (after', (k, v)) ← lift (remove_val after 0)
    as_mut store q after'
    n ← as_ref store p
    n' ← lift (insert_val n n.len k v)
    as_mut store p n'
  take_from_next p q parent_ptr idx false = do
    (k, e) ← remove_edge store q 0 false
    up ← as_ref store parent_ptr
    (up', k') ← lift (replace_key up idx k)
    as_mut store parent_ptr up'
    n ← as_ref store p
    child ← as_ref store e
    as_mut store e (set_parent child p (n.len + 1))
    insert_edge store p n.len true k' e

  -- The node at `p` absorbs the previous sibling at `q`, which leaves the parent and the arena.
  unfoldable pub merge_prev : NodePtr → NodePtr → NodePtr → ℕ → Bool → Run S (Unit {0})
  unfolding merge_prev_leaf prev set_next key edges adopt merge_prev_internal remove_edge dealloc
  merge_prev p q parent_ptr idx is_leaf = do
    elim is_leaf [
      | true ↦ (do
        n ← as_ref store p
        sibling ← as_ref store q
        n' ← lift (merge_prev_leaf n q sibling)
        as_mut store p n'
        new_prev ← lift (prev n')
        elim new_prev [
          | none ↦ pure tt
          | some r ↦ (do
            far ← as_ref store r
            far' ← lift (set_next far (some p))
            as_mut store r far')
        ])
      | false ↦ (do
        up ← as_ref store parent_ptr
        k ← lift (key up (idx - 1))
        sibling ← as_ref store q
        children ← lift (edges sibling)
        adopt store p children
        merge_prev_internal store p k q)
    ]
    (_, e) ← remove_edge store parent_ptr (idx - 1) false
    assert (e == q)
    dealloc store q

  -- The node at `p` absorbs the next sibling at `q`, which leaves the parent and the arena.
  unfoldable pub merge_next : NodePtr → NodePtr → NodePtr → ℕ → Bool → Run S (Unit {0})
  unfolding merge_next_leaf next set_prev key edges adopt merge_next_internal remove_edge dealloc
  merge_next p q parent_ptr idx is_leaf = do
    elim is_leaf [
      | true ↦ (do
        n ← as_ref store p
        after ← as_ref store q
        n' ← lift (merge_next_leaf n q after)
        as_mut store p n'
        new_next ← lift (next n')
        elim new_next [
          | none ↦ pure tt
          | some r ↦ (do
            far ← as_ref store r
            far' ← lift (set_prev far (some p))
            as_mut store r far')
        ])
      | false ↦ (do
        up ← as_ref store parent_ptr
        k ← lift (key up idx)
        after ← as_ref store q
        children ← lift (edges after)
        adopt store p children
        merge_next_internal store p k q)
    ]
    (_, e) ← remove_edge store parent_ptr idx true
    assert (e == q)
    dealloc store q

  -- What one round of the loop tries: both siblings in turn, and then a merge. The result says
  -- whether the loop goes on with the parent.
  unfoldable pub try_prev : NodePtr → NodePtr → ℕ → Bool → Run S Bool
  unfolding edge take_from_prev
  try_prev p parent_ptr idx is_leaf = elim (ltb 0 idx) [
    | false ↦ pure false
    | true ↦ (do
      up ← as_ref store parent_ptr
      q ← lift (edge up (idx - 1))
      sibling ← as_ref store q
      elim (ltb (max_keys / 2) sibling.len) [
        | false ↦ pure false
        | true ↦ (do take_from_prev p q parent_ptr idx is_leaf; pure true)
      ])
  ]

  unfoldable pub try_next : NodePtr → NodePtr → ℕ → Bool → Run S Bool
  unfolding edge take_from_next
  try_next p parent_ptr idx is_leaf = do
    up ← as_ref store parent_ptr
    elim (ltb idx up.len) [
      | false ↦ pure false
      | true ↦ (do
        q ← lift (edge up (idx + 1))
        after ← as_ref store q
        elim (ltb (max_keys / 2) after.len) [
          | false ↦ pure false
          | true ↦ (do take_from_next p q parent_ptr idx is_leaf; pure true)
        ])
    ]

  unfoldable pub merge_sibling : NodePtr → NodePtr → ℕ → Bool → Run S (Unit {0})
  unfolding edge merge_prev merge_next
  merge_sibling p parent_ptr idx is_leaf = do
    up ← as_ref store parent_ptr
    elim (ltb 0 idx) [
      | true ↦ (do q ← lift (edge up (idx - 1)); merge_prev p q parent_ptr idx is_leaf)
      | false ↦ (do q ← lift (edge up (idx + 1)); merge_next p q parent_ptr idx is_leaf)
    ]

  -- The `while` loop of `post_removal`.
  unfoldable pub rebalance : ℕ → BTreeMap → NodePtr → Bool → Run S BTreeMap
  unfolding parent shrink_root try_prev try_next merge_sibling
  rebalance zero m p is_leaf = lift none
  rebalance (suc fuel) m p is_leaf = do
    n ← as_ref store p
    elim (ltb n.len (max_keys / 2)) [
      | false ↦ pure m
      | true ↦ (do
        above ← lift (parent n)
        elim above [
          | none ↦ shrink_root m p n is_leaf
          | some (parent_ptr, idx) ↦ (do
            from_prev ← try_prev p parent_ptr idx is_leaf
            elim from_prev [
              | true ↦ pure m
              | false ↦ (do
                from_next ← try_next p parent_ptr idx is_leaf
                elim from_next [
                  | true ↦ pure m
                  | false ↦ (do
                    merge_sibling p parent_ptr idx is_leaf
                    rebalance fuel m parent_ptr false)
                ])
            ])
        ])
    ]

  -- The fuel is the number of levels: one round for each, up to the root.
  unfoldable pub post_removal : BTreeMap → NodePtr → Run S BTreeMap
  unfolding rebalance
  post_removal m p = do
    assert (ltb 0 m.length)
    rebalance (m.height + 1) (record m { length = m.length - 1 }) p true

  -- `node.as_mut().remove_val(idx)`, and `post_removal`.
  unfoldable pub remove_at_address : BTreeMap → NodePtr → ℕ → Run S (BTreeMap × (K × V))
  unfolding remove_val post_removal
  remove_at_address m p idx = do
    n ← as_ref store p
    (n', kv) ← lift (remove_val n idx)
    as_mut store p n'
    m' ← post_removal m p
    pure (m', kv)

  unfoldable pub pop_first : BTreeMap → Run S (BTreeMap × Option (K × V))
  unfolding first_leaf remove_at_address
  pop_first m = do
    leaf ← first_leaf store m
    elim leaf [
      | none ↦ pure (m, none)
      | some p ↦ (do (m', kv) ← remove_at_address m p 0; pure (m', some kv))
    ]

  unfoldable pub pop_last : BTreeMap → Run S (BTreeMap × Option (K × V))
  unfolding last_leaf remove_at_address
  pop_last m = do
    leaf ← last_leaf store m
    elim leaf [
      | none ↦ pure (m, none)
      | some p ↦ (do
        n ← as_ref store p
        assert (ltb 0 n.len)
        (m', kv) ← remove_at_address m p (n.len - 1)
        pure (m', some kv))
    ]

module _ {S K V : Type 0} ⦃o : Ord K⦄ (store : Slab S (Node K V)) where
  unfoldable pub remove_key_value : BTreeMap → K → Run S (BTreeMap × Option (K × V))
  unfolding find remove_at_address
  remove_key_value m k = do
    f ← find store m k
    elim f [
      | no_root ↦ pure (m, none)
      | before _ _ ↦ pure (m, none)
      | found_at p idx ↦ (do (m', kv) ← remove_at_address store m p idx; pure (m', some kv))
    ]

  unfoldable pub remove : BTreeMap → K → Run S (BTreeMap × Option V)
  unfolding remove_key_value
  remove m k = do
    (m', kv) ← remove_key_value m k
    pure (m', elim kv [ none ↦ none | some (_, v) ↦ some v ])
