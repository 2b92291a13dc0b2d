-- ===== src/Map/Defs.antt =====
-- The struct of src/map.rs, `find`, and the operations that only read the tree.
use btree_forest_arena.Prelude.{ℕ, zero, suc, ◌+◌, Bool, true, false, Option, none, some}
use btree_forest_arena.Prelude.Order.{Ord}
use btree_forest_arena.Store.{NodePtr, Slab, Run, pure, ◌>>=◌, lift, as_ref}
use btree_forest_arena.Node.{
  Node, key, val, key_val, edge, keys, first_key_value as first_of_node,
  last_key_value as last_of_node,
}
use btree_forest_arena.Search.{Found, ok, err, binary_search_by}

-- The reference to the store is the parameter `store` of the operations.
pub record BTreeMap : Type 0 where
  pub root : Option NodePtr
  pub length : ℕ
  pub height : ℕ

pub data Find : Type 0 where
  no_root : Find
  before : NodePtr → ℕ → Find
  found_at : NodePtr → ℕ → Find

-- The edge that the loop of `find` follows: behind the separator that was found, or before the next.
abbrev pub child_index : Found → ℕ
child_index (ok i) = i + 1
child_index (err i) = i

-- The address with which the loop of `find` breaks at the leaf `p`.
abbrev pub at_leaf : NodePtr → Found → Find
at_leaf p (ok i) = found_at p i
at_leaf p (err i) = before p i

-- `matches!(…, Find::At { .. })`
abbrev pub is_found : Find → Bool
is_found no_root = false
is_found (before p i) = false
is_found (found_at p i) = true

unfoldable pub new_in : BTreeMap
new_in = record { root = none; length = 0; height = 0 }

unfoldable pub len : BTreeMap → ℕ
len m = m.length

unfoldable pub is_empty : BTreeMap → Bool
is_empty m = elim m.root [ none ↦ true | some _ ↦ false ]

module _ {S K V : Type 0} (store : Slab S (Node K V)) where
  -- `for _ in 0..self.height`
  unfoldable pub descend_first : ℕ → NodePtr → Run S NodePtr
  unfolding edge
  descend_first zero p = pure p
  descend_first (suc h) p = do n ← as_ref store p; child ← lift (edge n 0); descend_first h child

  unfoldable pub descend_last : ℕ → NodePtr → Run S NodePtr
  unfolding edge
  descend_last zero p = pure p
  descend_last (suc h) p = do n ← as_ref store p; child ← lift (edge n n.len); descend_last h child

  unfoldable pub first_leaf : BTreeMap → Run S (Option NodePtr)
  unfolding descend_first
  first_leaf m = elim m.root [
    | none ↦ pure none
    | some root ↦ (do p ← descend_first m.height root; pure (some p))
  ]

  unfoldable pub last_leaf : BTreeMap → Run S (Option NodePtr)
  unfolding descend_last
  last_leaf m = elim m.root [
    | none ↦ pure none
    | some root ↦ (do p ← descend_last m.height root; pure (some p))
  ]

  unfoldable pub first_key_value : BTreeMap → Run S (Option (K × V))
  unfolding first_leaf first_of_node
  first_key_value m = do
    leaf ← first_leaf m
    elim leaf [
      | none ↦ pure none
      | some p ↦ (do n ← as_ref store p; kv ← lift (first_of_node n); pure (some kv))
    ]

  unfoldable pub last_key_value : BTreeMap → Run S (Option (K × V))
  unfolding last_leaf last_of_node
  last_key_value m = do
    leaf ← last_leaf m
    elim leaf [
      | none ↦ pure none
      | some p ↦ (do n ← as_ref store p; kv ← lift (last_of_node n); pure (some kv))
    ]

module _ {S K V : Type 0} ⦃o : Ord K⦄ (store : Slab S (Node K V)) where
  -- The loop of `find`, `height` levels above the leaves.
  unfoldable pub find_in : ℕ → NodePtr → K → Run S Find
  unfolding keys edge binary_search_by
  find_in zero p k = do
    n ← as_ref store p
    ks ← lift (keys n)
    r ← lift (binary_search_by (λ x. o.cmp x k) ks)
    pure (at_leaf p r)
  find_in (suc height) p k = do
    n ← as_ref store p
    ks ← lift (keys n)
    r ← lift (binary_search_by (λ x. o.cmp x k) ks)
    child ← lift (edge n (child_index r))
    find_in height child k

  unfoldable pub find : BTreeMap → K → Run S Find
  unfolding find_in
  find m k = elim m.root [ none ↦ pure no_root | some root ↦ find_in m.height root k ]

  unfoldable pub contains_key : BTreeMap → K → Run S Bool
  unfolding find
  contains_key m k = do f ← find m k; pure (is_found f)

  -- `match self.find(key) { Find::At { node, idx } => Some(node.as_ref().read(idx)), _ => None }`
  unfoldable pub read_found : {R : Type 0} → (Node K V → ℕ → Option R) → Find → Run S (Option R)
  read_found read no_root = pure none
  read_found read (before p idx) = pure none
  read_found read (found_at p idx) = do n ← as_ref store p; r ← lift (read n idx); pure (some r)

  unfoldable pub get : BTreeMap → K → Run S (Option V)
  unfolding find read_found val
  get m k = do f ← find m k; read_found val f

  unfoldable pub get_key : BTreeMap → K → Run S (Option K)
  unfolding find read_found key
  get_key m k = do f ← find m k; read_found key f

  unfoldable pub get_key_value : BTreeMap → K → Run S (Option (K × V))
  unfolding find read_found key_val
  get_key_value m k = do f ← find m k; read_found key_val f
