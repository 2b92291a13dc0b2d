-- ===== src/Tests/Leaves.antt =====
-- The theorems on leaves at concrete leaves.
use btree_forest_arena.Prelude.{ℕ, ◌≡◌, refl, none, some, List, [], ◌∷◌, arith}
use btree_forest_arena.Node.{Node, replace_val}
use btree_forest_arena.Node.View.{IsLeaf, SameParent}
use btree_forest_arena.Node.Leaf.{
  insert_val, remove_val, split_leaf, merge_prev_leaf, merge_next_leaf,
}
use btree_forest_arena.Node.Leaf.Contents.{insert_val-IsLeaf, remove_val-IsLeaf, replace_val-IsLeaf}
use btree_forest_arena.Node.Leaf.Split.{Split, split_leaf-Split}
use btree_forest_arena.Node.Leaf.Merge.{merge_prev_leaf-IsLeaf, merge_next_leaf-IsLeaf}
use btree_forest_arena.Tests.Fixtures.{
  leaf_with, leaf_with-IsLeaf, low, high, all_entries, low_leaf, high_leaf,
}

insert_val-IsLeaf_example :
    (n' : Node ℕ ℕ) × (insert_val low_leaf 1 12 9 ≡ some n')
    × IsLeaf n' ((10, 1) ∷ (12, 9) ∷ (15, 2) ∷ []) none (some 2)
    × SameParent low_leaf n'
insert_val-IsLeaf_example =
    insert_val-IsLeaf (leaf_with-IsLeaf (some 0) 0 low none (some 2) (omega arith)) 1 12 9
      (omega arith) (omega arith)

remove_val-IsLeaf_example :
    (n' : Node ℕ ℕ) × (remove_val high_leaf 1 ≡ some (n', (30, 4)))
    × IsLeaf n' ((20, 3) ∷ (35, 5) ∷ []) (some 1) none
    × SameParent high_leaf n'
remove_val-IsLeaf_example =
    remove_val-IsLeaf (leaf_with-IsLeaf (some 0) 1 high (some 1) none (omega arith)) 1 (30, 4) refl
      (omega arith)

merge_prev_leaf-IsLeaf_example :
    (n' : Node ℕ ℕ) × (merge_prev_leaf high_leaf 1 low_leaf ≡ some n')
    × IsLeaf n' all_entries none none
    × SameParent high_leaf n'
merge_prev_leaf-IsLeaf_example =
    merge_prev_leaf-IsLeaf
      (record { left_parent = refl; right_parent = refl; left_idx = refl; right_idx = refl })
      (leaf_with-IsLeaf (some 0) 0 low none (some 2) (omega arith))
      (leaf_with-IsLeaf (some 0) 1 high (some 1) none (omega arith)) (omega arith) 1 refl

merge_next_leaf-IsLeaf_example :
    (n' : Node ℕ ℕ) × (merge_next_leaf low_leaf 2 high_leaf ≡ some n')
    × IsLeaf n' all_entries none none
    × SameParent low_leaf n'
merge_next_leaf-IsLeaf_example =
    merge_next_leaf-IsLeaf
      (record { left_parent = refl; right_parent = refl; left_idx = refl; right_idx = refl })
      (leaf_with-IsLeaf (some 0) 0 low none (some 2) (omega arith))
      (leaf_with-IsLeaf (some 0) 1 high (some 1) none (omega arith)) (omega arith) 2 refl

abbrev full : List (ℕ × ℕ)
full = (1, 1) ∷ (3, 3) ∷ (5, 5) ∷ (7, 7) ∷ (9, 9) ∷ (11, 11) ∷ (13, 13) ∷ (15, 15) ∷ []

split_leaf-Split_example :
    Split
      (leaf_with none 0 full none (some 4))
      ((1, 1) ∷ (2, 2) ∷ (3, 3) ∷ (5, 5) ∷ (7, 7) ∷ (9, 9) ∷ (11, 11) ∷ (13, 13) ∷ (15, 15) ∷ [])
      none
      (some 4)
      (split_leaf (leaf_with none 0 full none (some 4)) 1 2 2)
split_leaf-Split_example =
    split_leaf-Split 1 2 2 (leaf_with-IsLeaf none 0 full none (some 4) (omega arith)) refl
      (omega arith)

replace_val-IsLeaf_example :
    (n' : Node ℕ ℕ) × (replace_val low_leaf 1 7 ≡ some (n', 2))
    × IsLeaf n' ((10, 1) ∷ (15, 7) ∷ []) none (some 2)
    × SameParent low_leaf n'
replace_val-IsLeaf_example =
    replace_val-IsLeaf (leaf_with-IsLeaf (some 0) 0 low none (some 2) (omega arith)) 1 (15, 2) 7
      refl (omega arith)
