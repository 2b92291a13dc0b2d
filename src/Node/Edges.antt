-- ===== src/Node/Edges.antt =====
-- The operations of src/node.rs on an internal node. They change the `parent_idx` of children, so they
-- run on the arena and take the address of the node.
pub mod Renumber
pub mod Insert
pub mod Swap
pub mod Shift
pub mod Halves
pub mod Split
use btree_forest_arena.Prelude.{
  ℕ, zero, suc, ◌+◌, ◌-◌, ◌/◌, Bool, Option, none, some, List, [], ◌∷◌, ltb, leb, ◌==◌,
  if◌then◌else◌, expect,
}
use btree_forest_arena.Slots.{
  write, ◌to◌, up_to, unsafe_copy_slice_overlapping, unsafe_copy_slice_nonoverlapping,
  assume_init_slice,
}
use btree_forest_arena.Store.{
  NodePtr, ptr_eq, Slab, Run, pure, ◌>>=◌, ◌>>◌, lift, assert, as_ref, as_mut,
}
use btree_forest_arena.Node.Defs.{
  max_keys, Node, internal_data, internal_of, internal_node, edge, swap_edge, parent_idx,
}

-- `-= 1`, with the fault of its underflow.
unfoldable pub decrement : ℕ → Option ℕ
decrement zero = none
decrement (suc i) = some i

module _ {S K V : Type 0} (store : Slab S (Node K V)) where
  -- `*edge.as_mut().parent_idx.assume_init_mut() = f(…)`, for each edge in turn.
  unfoldable pub map_parent_idxs : (ℕ → Option ℕ) → List NodePtr → Run S (Unit {0})
  map_parent_idxs f [] = pure tt
  map_parent_idxs f (e ∷ rest) = do
    n ← as_ref store e
    i ← lift n.parent_idx
    j ← lift (f i)
    as_mut store e (record n { parent_idx = some j })
    map_parent_idxs f rest

  -- `parent_idx = i`, `i + 1`, … for the edges in turn.
  unfoldable pub number_parent_idxs : ℕ → List NodePtr → Run S (Unit {0})
  number_parent_idxs i [] = pure tt
  number_parent_idxs i (e ∷ rest) = do
    n ← as_ref store e
    as_mut store e (record n { parent_idx = some i })
    number_parent_idxs (i + 1) rest

  -- `for child in edges { child.as_mut().parent = Some(p) }`
  unfoldable pub adopt : NodePtr → List NodePtr → Run S (Unit {0})
  adopt p [] = pure tt
  adopt p (e ∷ rest) = do
    n ← as_ref store e
    as_mut store e (record n { parent = some p })
    adopt p rest

  -- `debug_assert_eq!(edge.as_ref().parent_idx(), Some(i))`
  unfoldable pub assert_parent_idx : NodePtr → ℕ → Run S (Unit {0})
  unfolding parent_idx ptr_eq
  assert_parent_idx e i = do
    n ← as_ref store e
    at ← lift (parent_idx n)
    assert (ptr_eq at (some i))

  unfoldable pub insert_edge : NodePtr → ℕ → Bool → K → NodePtr → Run S (Unit {0})
  unfolding internal_of assert_parent_idx map_parent_idxs
  insert_edge p idx after_key k e = do
    n ← as_ref store p
    assert (leb idx n.len)
    assert (ltb n.len max_keys)
    let after_edge_idx = if after_key then idx + 1 else idx
    assert_parent_idx e after_edge_idx
    d ← lift (internal_of n.d)
    keys' ← lift (
        if ltb idx n.len
        then unsafe_copy_slice_overlapping max_keys n.keys ((idx + 1) to (n.len + 1)) (idx to n.len)
        else some n.keys)
    edges' ← lift (
        if ltb after_edge_idx (n.len + 1)
        then unsafe_copy_slice_overlapping (max_keys + 1) d.edges
            ((after_edge_idx + 1) to (n.len + 2)) (after_edge_idx to (n.len + 1))
        else some d.edges)
    later ← lift (assume_init_slice edges' (after_edge_idx + 1) (n.len + 1 - after_edge_idx))
    map_parent_idxs (λ i. some (i + 1)) later
    keys'' ← lift (write max_keys keys' idx k)
    edges'' ← lift (write (max_keys + 1) edges' after_edge_idx e)
    as_mut store p (record n {
      len = n.len + 1;
      keys = keys'';
      d = internal_data (record d { edges = edges'' });
    })

  unfoldable pub set_last_edge : NodePtr → NodePtr → Run S (Unit {0})
  unfolding internal_of assert_parent_idx
  set_last_edge p e = do
    n ← as_ref store p
    assert_parent_idx e n.len
    d ← lift (internal_of n.d)
    edges' ← lift (write (max_keys + 1) d.edges n.len e)
    as_mut store p (record n { d = internal_data (record d { edges = edges' }) })

  unfoldable pub remove_edge : NodePtr → ℕ → Bool → Run S (K × NodePtr)
  unfolding internal_of edge assert_parent_idx map_parent_idxs decrement
  remove_edge p idx after_key = do
    n ← as_ref store p
    assert (ltb idx n.len)
    assert (ltb 0 n.len)
    let edge_idx = if after_key then idx + 1 else idx
    checked ← lift (edge n edge_idx)
    assert_parent_idx checked edge_idx
    k ← lift (n.keys idx)
    d ← lift (internal_of n.d)
    e ← lift (d.edges edge_idx)
    keys' ← lift (
        if ltb (idx + 1) n.len
        then unsafe_copy_slice_overlapping max_keys n.keys (idx to (n.len - 1)) ((idx + 1) to n.len)
        else some n.keys)
    edges' ← lift (
        if ltb edge_idx n.len
        then unsafe_copy_slice_overlapping (max_keys + 1) d.edges (edge_idx to n.len)
            ((edge_idx + 1) to (n.len + 1))
        else some d.edges)
    later ← lift (assume_init_slice edges' edge_idx (n.len - edge_idx))
    map_parent_idxs decrement later
    as_mut store p (record n {
      len = n.len - 1;
      keys = keys';
      d = internal_data (record d { edges = edges' });
    })
    pure (k, e)

  unfoldable pub remove_last_edge : NodePtr → Run S (K × NodePtr)
  unfolding internal_of edge assert_parent_idx
  remove_last_edge p = do
    n ← as_ref store p
    assert (ltb 0 n.len)
    checked ← lift (edge n n.len)
    assert_parent_idx checked n.len
    k ← lift (n.keys (n.len - 1))
    d ← lift (internal_of n.d)
    e ← lift (d.edges n.len)
    as_mut store p (record n { len = n.len - 1 })
    pure (k, e)

  -- `while idx < median`, with `median - idx` rounds left.
  unfoldable pub shift_forward : ℕ → Node K V → ℕ → K → NodePtr → Run S (Node K V × K × NodePtr)
  unfolding swap_edge assert_parent_idx
  shift_forward zero n idx k e = pure (n, k, e)
  shift_forward (suc rounds) n idx k e = do
    (n', k', e') ← lift (swap_edge n idx k e)
    assert_parent_idx e' (idx + 1)
    moved ← as_ref store e'
    as_mut store e' (record moved { parent_idx = some (idx + 1 + 1) })
    shift_forward rounds n' (idx + 1) k' e'

  -- `while idx > median`, with `idx - median` rounds left.
  unfoldable pub shift_backward : ℕ → Node K V → ℕ → K → NodePtr → Run S (Node K V × K × NodePtr)
  unfolding swap_edge assert_parent_idx
  shift_backward zero n idx k e = pure (n, k, e)
  shift_backward (suc rounds) n idx k e = do
    (n', k', e') ← lift (swap_edge n (idx - 1) k e)
    assert_parent_idx e' (idx - 1 + 1)
    shift_backward rounds n' (idx - 1) k' e'

  -- The node at `p` becomes the left one; the split key and the right node are returned.
  unfoldable pub split_internal : NodePtr → ℕ → K → NodePtr → Run S (K × Node K V)
  unfolding internal_of internal_node assert_parent_idx shift_forward shift_backward
      number_parent_idxs
  split_internal p idx k e = do
    n ← as_ref store p
    assert (leb idx n.len)
    assert (leb (max_keys / 2) n.len)
    assert_parent_idx e (idx + 1)
    let median = n.len / 2
    let right = internal_node {K = K} {V = V}
    (n₁, k₁, e₁) ← shift_forward (median - idx) n idx k e
    (n₂, k₂, e₂) ← shift_backward (idx - median) n₁ (idx + (median - idx)) k₁ e₁
    d ← lift (internal_of n₂.d)
    r ← lift (internal_of right.d)
    keys' ← lift (
        unsafe_copy_slice_nonoverlapping max_keys right.keys (0 to median) n₂.keys
          (median to n₂.len))
    edges' ← lift (
        unsafe_copy_slice_nonoverlapping (max_keys + 1) r.edges (1 to (median + 1)) d.edges
          ((median + 1) to (n₂.len + 1)))
    edges'' ← lift (write (max_keys + 1) edges' 0 e₂)
    moved ← lift (assume_init_slice edges'' 0 (median + 1))
    number_parent_idxs 0 moved
    as_mut store p (record n₂ { len = median })
    pure (
      k₂,
      record right {
        len = n₂.len - median;
        keys = keys';
        d = internal_data (record r { edges = edges'' });
      },
    )

  -- The node at `p` absorbs the one at `q`, which stands before it.
  unfoldable pub merge_prev_internal : NodePtr → K → NodePtr → Run S (Unit {0})
  unfolding internal_of parent_idx ptr_eq map_parent_idxs
  merge_prev_internal p middle_key q = do
    self ← as_ref store p
    before ← as_ref store q
    assert (ptr_eq before.parent self.parent)
    bi ← lift (parent_idx before)
    i ← lift (expect bi)
    si ← lift (parent_idx self)
    j ← lift (expect si)
    assert (i + 1 == j)
    assert (ltb (before.len + self.len) max_keys)
    let new_len = before.len + self.len + 1
    d ← lift (internal_of self.d)
    b ← lift (internal_of before.d)
    keys' ← lift (
        unsafe_copy_slice_overlapping max_keys self.keys ((before.len + 1) to new_len)
          (up_to self.len))
    edges' ← lift (
        unsafe_copy_slice_overlapping (max_keys + 1) d.edges ((before.len + 1) to (new_len + 1))
          (up_to (self.len + 1)))
    moved ← lift (assume_init_slice edges' (before.len + 1) (self.len + 1))
    map_parent_idxs (λ m. some (m + (before.len + 1))) moved
    keys'' ← lift (
        unsafe_copy_slice_nonoverlapping max_keys keys' (0 to before.len) before.keys
          (0 to before.len))
    edges'' ← lift (
        unsafe_copy_slice_nonoverlapping (max_keys + 1) edges' (0 to (before.len + 1)) b.edges
          (0 to (before.len + 1)))
    keys''' ← lift (write max_keys keys'' before.len middle_key)
    as_mut store p (record self {
      len = new_len;
      keys = keys''';
      d = internal_data (record d { edges = edges'' });
    })

  -- The node at `p` absorbs the one at `q`, which stands behind it.
  unfoldable pub merge_next_internal : NodePtr → K → NodePtr → Run S (Unit {0})
  unfolding internal_of parent_idx ptr_eq map_parent_idxs
  merge_next_internal p middle_key q = do
    self ← as_ref store p
    after ← as_ref store q
    assert (ptr_eq self.parent after.parent)
    si ← lift (parent_idx self)
    i ← lift (expect si)
    ai ← lift (parent_idx after)
    j ← lift (expect ai)
    assert (i + 1 == j)
    assert (ltb (self.len + after.len) max_keys)
    let new_len = self.len + after.len + 1
    d ← lift (internal_of self.d)
    a ← lift (internal_of after.d)
    keys' ← lift (write max_keys self.keys self.len middle_key)
    keys'' ← lift (
        unsafe_copy_slice_nonoverlapping max_keys keys' ((self.len + 1) to new_len) after.keys
          (0 to after.len))
    edges' ← lift (
        unsafe_copy_slice_nonoverlapping (max_keys + 1) d.edges ((self.len + 1) to (new_len + 1))
          a.edges (0 to (after.len + 1)))
    moved ← lift (assume_init_slice edges' (self.len + 1) (after.len + 1))
    map_parent_idxs (λ m. some (m + (self.len + 1))) moved
    as_mut store p (record self {
      len = new_len;
      keys = keys'';
      d = internal_data (record d { edges = edges' });
    })
