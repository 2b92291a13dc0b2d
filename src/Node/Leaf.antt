-- ===== src/Node/Leaf.antt =====
-- The operations of src/node.rs on a leaf: inserting, removing, splitting and merging.
pub mod Contents
pub mod Swaps
pub mod Split
pub mod Merge
use btree_forest_arena.Prelude.{
  ℕ, zero, suc, ◌+◌, ◌-◌, ◌/◌, Option, none, some, ltb, leb, ◌==◌, if◌then◌else◌, check, expect,
  ◌>>=◌, ◌>>◌,
}
use btree_forest_arena.Slots.{
  write, ◌to◌, up_to, unsafe_copy_slice_overlapping, unsafe_copy_slice_nonoverlapping,
}
use btree_forest_arena.Store.{NodePtr, ptr_eq}
use btree_forest_arena.Node.Defs.{
  max_keys, Node, leaf_data, leaf_of, leaf_node, swap_entry, prev, set_prev, next, set_next,
  parent_idx,
}

module _ {K V : Type 0} where
  unfoldable pub insert_val : Node K V → ℕ → K → V → Option (Node K V)
  unfolding leaf_of
  insert_val n idx k v = do
    check (leb idx n.len)
    check (ltb n.len max_keys)
    l ← leaf_of n.d
    keys' ←
        if ltb idx n.len
        then unsafe_copy_slice_overlapping max_keys n.keys ((idx + 1) to (n.len + 1)) (idx to n.len)
        else some n.keys
    vals' ←
        if ltb idx n.len
        then unsafe_copy_slice_overlapping max_keys l.vals ((idx + 1) to (n.len + 1)) (idx to n.len)
        else some l.vals
    keys'' ← write max_keys keys' idx k
    vals'' ← write max_keys vals' idx v
    some (record n { len = n.len + 1; keys = keys''; d = leaf_data (record l { vals = vals'' }) })

  -- The node, and the entry that was removed.
  unfoldable pub remove_val : Node K V → ℕ → Option (Node K V × (K × V))
  unfolding leaf_of
  remove_val n idx = do
    check (ltb idx n.len)
    check (ltb 0 n.len)
    k ← n.keys idx
    l ← leaf_of n.d
    v ← l.vals idx
    keys' ←
        if ltb (idx + 1) n.len
        then unsafe_copy_slice_overlapping max_keys n.keys (idx to (n.len - 1)) ((idx + 1) to n.len)
        else some n.keys
    vals' ←
        if ltb (idx + 1) n.len
        then unsafe_copy_slice_overlapping max_keys l.vals (idx to (n.len - 1)) ((idx + 1) to n.len)
        else some l.vals
    some (
      record n { len = n.len - 1; keys = keys'; d = leaf_data (record l { vals = vals' }) },
      (k, v),
    )

  -- `while idx < median`, with `median - idx` rounds left.
  unfoldable pub swap_forward : ℕ → Node K V → ℕ → K → V → Option (Node K V × K × V)
  unfolding swap_entry
  swap_forward zero n idx k v = some (n, k, v)
  swap_forward (suc rounds) n idx k v = do
    (n', k', v') ← swap_entry n idx k v
    swap_forward rounds n' (idx + 1) k' v'

  -- `while idx > median`, with `idx - median` rounds left.
  unfoldable pub swap_backward : ℕ → Node K V → ℕ → K → V → Option (Node K V × K × V)
  unfolding swap_entry
  swap_backward zero n idx k v = some (n, k, v)
  swap_backward (suc rounds) n idx k v = do
    (n', k', v') ← swap_entry n (idx - 1) k v
    swap_backward rounds n' (idx - 1) k' v'

  -- What follows the loops of `split_leaf`: the left node, the split key and the right node.
  unfoldable pub cut_leaf : ℕ → Node K V → K → V → Option (Node K V × K × Node K V)
  unfolding leaf_node leaf_of
  cut_leaf median n k v = do
    let right = leaf_node {K = K} {V = V}
    l ← leaf_of n.d
    r ← leaf_of right.d
    keys' ←
        unsafe_copy_slice_nonoverlapping max_keys right.keys (1 to (median + 1)) n.keys
          (median to n.len)
    vals' ←
        unsafe_copy_slice_nonoverlapping max_keys r.vals (1 to (median + 1)) l.vals
          (median to n.len)
    keys'' ← write max_keys keys' 0 k
    vals'' ← write max_keys vals' 0 v
    some (
      record n { len = median },
      k,
      record right {
        len = n.len - median + 1;
        keys = keys'';
        d = leaf_data (record r { vals = vals''; next = l.next });
      },
    )

  unfoldable pub split_leaf : Node K V → ℕ → K → V → Option (Node K V × K × Node K V)
  unfolding swap_forward swap_backward cut_leaf
  split_leaf n idx k v = do
    check (leb idx n.len)
    check (leb (max_keys / 2) n.len)
    let median = n.len / 2
    (n₁, k₁, v₁) ← swap_forward (median - idx) n idx k v
    (n₂, k₂, v₂) ← swap_backward (idx - median) n₁ (idx + (median - idx)) k₁ v₁
    cut_leaf median n₂ k₂ v₂

  -- `self` absorbs `prev`, which stands at `q`.
  unfoldable pub merge_prev_leaf : Node K V → NodePtr → Node K V → Option (Node K V)
  unfolding prev parent_idx leaf_of set_prev ptr_eq
  merge_prev_leaf self q before = do
    self_prev ← prev self
    check (ptr_eq self_prev (some q))
    check (ptr_eq before.parent self.parent)
    bi ← parent_idx before
    i ← expect bi
    si ← parent_idx self
    j ← expect si
    check (i + 1 == j)
    check (leb (before.len + self.len) max_keys)
    let new_len = before.len + self.len
    l ← leaf_of self.d
    b ← leaf_of before.d
    keys' ←
        unsafe_copy_slice_overlapping max_keys self.keys (before.len to new_len) (up_to self.len)
    vals' ← unsafe_copy_slice_overlapping max_keys l.vals (before.len to new_len) (up_to self.len)
    keys'' ←
        unsafe_copy_slice_nonoverlapping max_keys keys' (0 to before.len) before.keys
          (0 to before.len)
    vals'' ←
        unsafe_copy_slice_nonoverlapping max_keys vals' (0 to before.len) b.vals (0 to before.len)
    before_prev ← prev before
    set_prev
        (record self { len = new_len; keys = keys''; d = leaf_data (record l { vals = vals'' }) })
        before_prev

  -- `self` absorbs `next`, which stands at `q`.
  unfoldable pub merge_next_leaf : Node K V → NodePtr → Node K V → Option (Node K V)
  unfolding next parent_idx leaf_of set_next ptr_eq
  merge_next_leaf self q after = do
    self_next ← next self
    check (ptr_eq self_next (some q))
    check (ptr_eq self.parent after.parent)
    si ← parent_idx self
    i ← expect si
    ai ← parent_idx after
    j ← expect ai
    check (i + 1 == j)
    check (leb (self.len + after.len) max_keys)
    let new_len = self.len + after.len
    l ← leaf_of self.d
    a ← leaf_of after.d
    keys' ←
        unsafe_copy_slice_nonoverlapping max_keys self.keys (self.len to new_len) after.keys
          (0 to after.len)
    vals' ←
        unsafe_copy_slice_nonoverlapping max_keys l.vals (self.len to new_len) a.vals
          (0 to after.len)
    after_next ← next after
    set_next
        (record self { len = new_len; keys = keys'; d = leaf_data (record l { vals = vals' }) })
        after_next
