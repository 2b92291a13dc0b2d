-- ===== src/Node/Defs.antt =====
-- The data types of src/node.rs, and the accessors that read and write single fields and slots.
use btree_forest_arena.Prelude.{ℕ, ◌+◌, ◌-◌, Option, none, some, List, ltb, check, ◌>>=◌, ◌>>◌}
use btree_forest_arena.Slots.{Slots, maybe_uninit_array, write, assume_init_slice}
use btree_forest_arena.Store.{NodePtr}

-- `M`: the number of keys and values in a leaf.
abbrev pub max_keys : ℕ
max_keys = 8

pub record LeafData (V : Type 0) : Type 0 where
  pub vals : Slots V
  pub prev : Option NodePtr
  pub next : Option NodePtr

pub record InternalData : Type 0 where
  pub edges : Slots NodePtr

pub data NodeData (V : Type 0) : Type 0 where
  leaf_data : LeafData V → NodeData V
  internal_data : InternalData → NodeData V

-- `parent_idx` is a `MaybeUninit`. A length is at most 8, so that its `u16` does not overflow.
pub record Node (K V : Type 0) : Type 0 where
  pub parent : Option NodePtr
  pub parent_idx : Option ℕ
  pub len : ℕ
  pub keys : Slots K
  pub d : NodeData V

module _ {V : Type 0} where
  -- `NodeData::leaf`, `NodeData::internal`.
  unfoldable pub leaf_of : NodeData V → Option (LeafData V)
  leaf_of (leaf_data l) = some l
  leaf_of (internal_data i) = none

  unfoldable pub internal_of : NodeData V → Option InternalData
  internal_of (leaf_data l) = none
  internal_of (internal_data i) = some i

module _ {K V : Type 0} where
  unfoldable pub leaf_node : Node K V
  unfolding maybe_uninit_array
  leaf_node = record {
    parent = none;
    parent_idx = none;
    len = 0;
    keys = maybe_uninit_array;
    d = leaf_data (record { vals = maybe_uninit_array; prev = none; next = none });
  }

  unfoldable pub internal_node : Node K V
  unfolding maybe_uninit_array
  internal_node = record {
    parent = none;
    parent_idx = none;
    len = 0;
    keys = maybe_uninit_array;
    d = internal_data (record { edges = maybe_uninit_array });
  }

  -- A parent whose index is not initialised is a fault.
  unfoldable pub parent : Node K V → Option (Option (NodePtr × ℕ))
  parent n = elim n.parent [
    | none ↦ some none
    | some p ↦ elim n.parent_idx [ none ↦ none | some i ↦ some (some (p, i)) ]
  ]

  unfoldable pub parent_idx : Node K V → Option (Option ℕ)
  parent_idx n = elim n.parent [
    | none ↦ some none
    | some p ↦ elim n.parent_idx [ none ↦ none | some i ↦ some (some i) ]
  ]

  unfoldable pub set_parent : Node K V → NodePtr → ℕ → Node K V
  set_parent n p i = record n { parent = some p; parent_idx = some i }

  unfoldable pub clear_parent : Node K V → Node K V
  clear_parent n = record n { parent = none; parent_idx = none }

  unfoldable pub prev : Node K V → Option (Option NodePtr)
  unfolding leaf_of
  prev n = do l ← leaf_of n.d; some l.prev

  unfoldable pub set_prev : Node K V → Option NodePtr → Option (Node K V)
  unfolding leaf_of
  set_prev n p = do l ← leaf_of n.d; some (record n { d = leaf_data (record l { prev = p }) })

  unfoldable pub next : Node K V → Option (Option NodePtr)
  unfolding leaf_of
  next n = do l ← leaf_of n.d; some l.next

  unfoldable pub set_next : Node K V → Option NodePtr → Option (Node K V)
  unfolding leaf_of
  set_next n p = do l ← leaf_of n.d; some (record n { d = leaf_data (record l { next = p }) })

  unfoldable pub key : Node K V → ℕ → Option K
  key n idx = do check (ltb idx n.len); n.keys idx

  -- `*n.key_mut(idx) = k`.
  unfoldable pub key_mut : Node K V → ℕ → K → Option (Node K V)
  unfolding write
  key_mut n idx k = do
    check (ltb idx n.len)
    keys' ← write max_keys n.keys idx k
    some (record n { keys = keys' })

  unfoldable pub val : Node K V → ℕ → Option V
  unfolding leaf_of
  val n idx = do check (ltb idx n.len); l ← leaf_of n.d; l.vals idx

  -- `*n.val_mut(idx) = v`.
  unfoldable pub val_mut : Node K V → ℕ → V → Option (Node K V)
  unfolding leaf_of write
  val_mut n idx v = do
    check (ltb idx n.len)
    l ← leaf_of n.d
    vals' ← write max_keys l.vals idx v
    some (record n { d = leaf_data (record l { vals = vals' }) })

  unfoldable pub read_val : Node K V → ℕ → Option V
  unfolding leaf_of
  read_val n idx = do check (ltb idx n.len); l ← leaf_of n.d; l.vals idx

  unfoldable pub write_val : Node K V → ℕ → V → Option (Node K V)
  unfolding leaf_of write
  write_val n idx v = do
    check (ltb idx n.len)
    l ← leaf_of n.d
    vals' ← write max_keys l.vals idx v
    some (record n { d = leaf_data (record l { vals = vals' }) })

  unfoldable pub key_val : Node K V → ℕ → Option (K × V)
  unfolding leaf_of
  key_val n idx = do
    check (ltb idx n.len)
    k ← n.keys idx
    l ← leaf_of n.d
    v ← l.vals idx
    some (k, v)

  unfoldable pub read_key_val : Node K V → ℕ → Option (K × V)
  unfolding leaf_of
  read_key_val n idx = do
    check (ltb idx n.len)
    k ← n.keys idx
    l ← leaf_of n.d
    v ← l.vals idx
    some (k, v)

  unfoldable pub edge : Node K V → ℕ → Option NodePtr
  unfolding internal_of
  edge n idx = do check (ltb idx (n.len + 1)); i ← internal_of n.d; i.edges idx

  -- `*n.edge_mut(idx) = p`.
  unfoldable pub edge_mut : Node K V → ℕ → NodePtr → Option (Node K V)
  unfolding internal_of write
  edge_mut n idx p = do
    check (ltb idx (n.len + 1))
    i ← internal_of n.d
    edges' ← write (max_keys + 1) i.edges idx p
    some (record n { d = internal_data (record i { edges = edges' }) })

  unfoldable pub keys : Node K V → Option (List K)
  unfolding assume_init_slice
  keys n = do check (ltb n.len (max_keys + 1)); assume_init_slice n.keys 0 n.len

  unfoldable pub vals : Node K V → Option (List V)
  unfolding leaf_of assume_init_slice
  vals n = do l ← leaf_of n.d; check (ltb n.len (max_keys + 1)); assume_init_slice l.vals 0 n.len

  unfoldable pub edges : Node K V → Option (List NodePtr)
  unfolding internal_of assume_init_slice
  edges n = do
    i ← internal_of n.d
    check (ltb n.len (max_keys + 1))
    assume_init_slice i.edges 0 (n.len + 1)

  unfoldable pub first_key_value : Node K V → Option (K × V)
  unfolding leaf_of
  first_key_value n = do
    check (ltb 0 n.len)
    k ← n.keys 0
    l ← leaf_of n.d
    v ← l.vals 0
    some (k, v)

  unfoldable pub last_key_value : Node K V → Option (K × V)
  unfolding leaf_of
  last_key_value n = do
    check (ltb 0 n.len)
    k ← n.keys (n.len - 1)
    l ← leaf_of n.d
    v ← l.vals (n.len - 1)
    some (k, v)

  -- The node, and the key that was replaced.
  unfoldable pub replace_key : Node K V → ℕ → K → Option (Node K V × K)
  unfolding write
  replace_key n idx k = do
    check (ltb idx n.len)
    old_key ← n.keys idx
    keys' ← write max_keys n.keys idx k
    some (record n { keys = keys' }, old_key)

  -- The node, and the value that was replaced.
  unfoldable pub replace_val : Node K V → ℕ → V → Option (Node K V × V)
  unfolding leaf_of write
  replace_val n idx v = do
    check (ltb idx n.len)
    l ← leaf_of n.d
    old_val ← l.vals idx
    vals' ← write max_keys l.vals idx v
    some (record n { d = leaf_data (record l { vals = vals' }) }, old_val)

  -- `swap(self.key_mut(idx), key); swap(self.val_mut(idx), &mut val)`.
  unfoldable pub swap_entry : Node K V → ℕ → K → V → Option (Node K V × K × V)
  unfolding key key_mut val val_mut
  swap_entry n idx k v = do
    old_key ← key n idx
    n' ← key_mut n idx k
    old_val ← val n' idx
    n'' ← val_mut n' idx v
    some (n'', old_key, old_val)

  -- `swap(self.key_mut(idx), key); swap(self.edge_mut(idx + 1), &mut edge)`.
  unfoldable pub swap_edge : Node K V → ℕ → K → NodePtr → Option (Node K V × K × NodePtr)
  unfolding key key_mut edge edge_mut
  swap_edge n idx k e = do
    old_key ← key n idx
    n' ← key_mut n idx k
    old_edge ← edge n' (idx + 1)
    n'' ← edge_mut n' (idx + 1) e
    some (n'', old_key, old_edge)
