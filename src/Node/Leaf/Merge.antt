-- ===== src/Node/Leaf/Merge.antt =====
-- `merge_prev_leaf` and `merge_next_leaf` join the entries of two siblings.
use mathlib.Core.List.{map-append}
use btree_forest_arena.Prelude.{
  ℕ, ◌+◌, ◌-◌, ◌≤◌, ◌≡◌, refl, Option, some, List, ◌++◌, map, arith, length, length-map,
  length-append, le→leb, ==_refl,
}
use btree_forest_arena.Slots.{
  Slots, ◌to◌, up_to, copied, unsafe_copy_slice_overlapping, unsafe_copy_slice_nonoverlapping,
}
use btree_forest_arena.Slots.Holds.{
  append-Holds, prepend-Holds, overlapping_up_to-copied, nonoverlapping-copied,
}
use btree_forest_arena.Store.{NodePtr, ptr_eq}
use btree_forest_arena.Node.Defs.{
  Node, leaf_data, leaf_of, max_keys, prev, next, set_prev, set_next, parent_idx,
}
use btree_forest_arena.Node.View.{IsLeaf, SameParent, key_of, val_of}
use btree_forest_arena.Node.Leaf.{merge_prev_leaf, merge_next_leaf}

-- `left` and `right` are children `i` and `i + 1` of one parent.
pub record Siblings {K V : Type 0} (left right : Node K V) (p : NodePtr) (i : ℕ) : Type 0 where
  pub left_parent : left.parent ≡ some p
  pub right_parent : right.parent ≡ some p
  pub left_idx : left.parent_idx ≡ some i
  pub right_idx : right.parent_idx ≡ some (i + 1)

module _ {K V : Type 0} {left right : Node K V} {ls rs : List (K × V)} {a b c d : Option NodePtr}
    {p : NodePtr} {i : ℕ} (siblings : Siblings left right p i) (l : IsLeaf left ls a b)
    (r : IsLeaf right rs c d) (fits : length ls + length rs ≤ max_keys) where
  -- If two leaves are adjacent siblings with at most 8 entries together and the left one is at `q`, the
  -- previous leaf of the right one, then `merge_prev_leaf` gives a leaf with the entries of both, the
  -- left ones first, the previous leaf of the left one and the parent of the right one.
  pub merge_prev_leaf-IsLeaf :
      (q : NodePtr)
      → c ≡ some q
      → (n' : Node K V) × (merge_prev_leaf right q left ≡ some n')
        × IsLeaf n' (ls ++ rs) a d
        × SameParent right n'
  unfolding merge_prev_leaf prev set_prev parent_idx leaf_of ptr_eq
  merge_prev_leaf-IsLeaf q linked = (
    record right {
      len = left.len + right.len;
      keys =
          copied (copied right.keys left.len right.keys 0 (right.len - 0)) 0 left.keys 0
            (left.len - 0);
      d = leaf_data (record {
        vals =
            copied (copied r.l.vals left.len r.l.vals 0 (right.len - 0)) 0 l.l.vals 0
              (left.len - 0);
        prev = l.l.prev;
        next = r.l.next;
      });
    },
    rw (
      r.is_leaf,
      r.before,
      linked,
      ==_refl q,
      siblings.left_parent,
      siblings.right_parent,
      ==_refl p,
      siblings.left_idx,
      siblings.right_idx,
      ==_refl (i + 1),
      le→leb (left.len + right.len) max_keys (omega (arith, l.count, r.count)),
      l.is_leaf,
      moved right.keys,
      moved r.l.vals,
      copied_in _ left.keys,
      copied_in _ l.l.vals,
    ),
    record {
      l = record {
        vals =
            copied (copied r.l.vals left.len r.l.vals 0 (right.len - 0)) 0 l.l.vals 0
              (left.len - 0);
        prev = l.l.prev;
        next = r.l.next;
      };
      is_leaf = refl;
      count = omega (arith, l.count, r.count, length-append ls rs);
      fits = omega (arith, length-append ls rs);
      has_keys = rw (map-append key_of ls rs) (
          prepend-Holds right.keys left.keys (map key_of rs) (map key_of ls) _ _ _
            (omega (arith, r.count, length-map key_of rs))
            (omega (arith, l.count, length-map key_of ls))
            (omega (arith, l.count, length-map key_of ls)) r.has_keys l.has_keys);
      has_vals = rw (map-append val_of ls rs) (
          prepend-Holds r.l.vals l.l.vals (map val_of rs) (map val_of ls) _ _ _
            (omega (arith, r.count, length-map val_of rs))
            (omega (arith, l.count, length-map val_of ls))
            (omega (arith, l.count, length-map val_of ls)) r.has_vals l.has_vals);
      before = l.before;
      after = r.after;
    },
    record { parent = refl; parent_idx = refl },
  )
    where
      moved :
          {A : Type 0} (f : Slots A)
          → unsafe_copy_slice_overlapping max_keys f
              (left.len to (left.len + right.len))
              (up_to right.len)
            ≡ some (copied f left.len f 0 (right.len - 0))
      moved f =
          overlapping_up_to-copied max_keys f left.len (left.len + right.len) right.len
            (omega arith) (omega arith) (omega (arith, l.count, r.count))
            (omega (arith, l.count, r.count))

      copied_in :
          {A : Type 0} (f g : Slots A)
          → unsafe_copy_slice_nonoverlapping max_keys f (0 to left.len) g (0 to left.len)
            ≡ some (copied f 0 g 0 (left.len - 0))
      copied_in f g =
          nonoverlapping-copied max_keys f 0 left.len g 0 left.len (omega arith) (omega arith)
            (omega arith) (omega (arith, l.count)) (omega (arith, l.count))

  -- If two leaves are adjacent siblings with at most 8 entries together and the right one is at `q`, the
  -- next leaf of the left one, then `merge_next_leaf` gives a leaf with the entries of both, the left
  -- ones first, the next leaf of the right one and the parent of the left one.
  pub merge_next_leaf-IsLeaf :
      (q : NodePtr)
      → b ≡ some q
      → (n' : Node K V) × (merge_next_leaf left q right ≡ some n')
        × IsLeaf n' (ls ++ rs) a d
        × SameParent left n'
  unfolding merge_next_leaf next set_next parent_idx leaf_of ptr_eq
  merge_next_leaf-IsLeaf q linked = (
    record left {
      len = left.len + right.len;
      keys = copied left.keys left.len right.keys 0 (right.len - 0);
      d = leaf_data (record {
        vals = copied l.l.vals left.len r.l.vals 0 (right.len - 0);
        prev = l.l.prev;
        next = r.l.next;
      });
    },
    rw (
      l.is_leaf,
      l.after,
      linked,
      ==_refl q,
      siblings.left_parent,
      siblings.right_parent,
      ==_refl p,
      siblings.left_idx,
      siblings.right_idx,
      ==_refl (i + 1),
      le→leb (left.len + right.len) max_keys (omega (arith, l.count, r.count)),
      r.is_leaf,
      behind left.keys right.keys,
      behind l.l.vals r.l.vals,
    ),
    record {
      l = record {
        vals = copied l.l.vals left.len r.l.vals 0 (right.len - 0);
        prev = l.l.prev;
        next = r.l.next;
      };
      is_leaf = refl;
      count = omega (arith, l.count, r.count, length-append ls rs);
      fits = omega (arith, length-append ls rs);
      has_keys = rw (map-append key_of ls rs) (
          append-Holds left.keys right.keys (map key_of ls) (map key_of rs) _ _
            (omega (arith, l.count, length-map key_of ls))
            (omega (arith, r.count, length-map key_of rs)) l.has_keys r.has_keys);
      has_vals = rw (map-append val_of ls rs) (
          append-Holds l.l.vals r.l.vals (map val_of ls) (map val_of rs) _ _
            (omega (arith, l.count, length-map val_of ls))
            (omega (arith, r.count, length-map val_of rs)) l.has_vals r.has_vals);
      before = l.before;
      after = r.after;
    },
    record { parent = refl; parent_idx = refl },
  )
    where
      behind :
          {A : Type 0} (f g : Slots A)
          → unsafe_copy_slice_nonoverlapping max_keys f
              (left.len to (left.len + right.len))
              g
              (0 to right.len)
            ≡ some (copied f left.len g 0 (right.len - 0))
      behind f g =
          nonoverlapping-copied max_keys f left.len (left.len + right.len) g 0 right.len
            (omega arith) (omega arith) (omega arith) (omega (arith, l.count, r.count))
            (omega (arith, r.count))
