-- ===== src/Tests/Walks.antt =====
-- The theorems on iterators, on dropping and on the walk over the nodes, at the arena of Tests/Fixtures.
use btree_forest_arena.Prelude.{
  ℕ, ◌≡◌, refl, inl, Bool, false, ◌&&◌, none, some, [], ◌∷◌, arith, ◌==◌, contains, if◌then◌else◌,
}
use btree_forest_arena.Store.Vector.{vector}
use btree_forest_arena.Map.Drop.{drop_root}
use btree_forest_arena.Map.Drop.Frees.{drop_root-Freed}
use btree_forest_arena.Cursor.Chain.{in_leaf}
use btree_forest_arena.Iter.{Iter}
use btree_forest_arena.Iter.Views.{eq_iters}
use btree_forest_arena.Iter.Equal.{Before, eq_iters-same_list}
use btree_forest_arena.Iter.Into.{IntoIter, next, next_back}
use btree_forest_arena.Iter.Into.Ends.{next-next_back}
use btree_forest_arena.Copyable.Nodes.{nodes, collect}
use btree_forest_arena.Copyable.Nodes.Faults.{collect-nodes}
use btree_forest_arena.Tests.Fixtures.{
  leaf_with-IsLeaf, low, high, root_node, low_leaf, high_leaf, arena, two_leaves, tree, root_at,
  child,
}

abbrev walk_from : ℕ → ℕ → Iter
walk_from i n = record {
  cursor = record { node = some 2; index = i };
  back_cursor = record { node = some 2; index = 2 };
  length = n;
}

abbrev same_pair : ℕ × ℕ → ℕ × ℕ → Bool
same_pair a b = (a.0 == b.0) && (a.1 == b.1)

at_one : Before vector arena (walk_from 1 2) ((30, 4) ∷ (35, 5) ∷ [])
at_one = record {
  ahead =
      in_leaf high []
        (
          2,
          high_leaf,
          some 1,
          none,
          refl,
          refl,
          leaf_with-IsLeaf (some 0) 1 high (some 1) none (omega arith),
          omega arith,
          refl,
        )
        (omega arith) refl;
  count = refl;
}

at_two : Before vector arena (walk_from 2 1) ((35, 5) ∷ [])
at_two = record {
  ahead =
      in_leaf high []
        (
          2,
          high_leaf,
          some 1,
          none,
          refl,
          refl,
          leaf_with-IsLeaf (some 0) 1 high (some 1) none (omega arith),
          omega arith,
          refl,
        )
        (omega arith) refl;
  count = refl;
}

eq_iters-same_list_example :
    eq_iters vector same_pair 3 (walk_from 1 2) (walk_from 2 1) arena ≡ some (false, arena)
eq_iters-same_list_example =
    eq_iters-same_list vector same_pair arena (walk_from 1 2) (walk_from 2 1)
      ((30, 4) ∷ (35, 5) ∷ []) ((35, 5) ∷ []) 3 at_one at_two (omega arith)

drop_root-Freed_example :
    (s' : _) × (drop_root vector two_leaves arena
      ≡ some ((20 ∷ 10 ∷ 15 ∷ 20 ∷ 30 ∷ 35 ∷ [], 1 ∷ 2 ∷ 3 ∷ 4 ∷ 5 ∷ []), s'))
    × ((p : ℕ)
        → vector.deref p s' ≡ (if contains (0 ∷ 1 ∷ 2 ∷ []) p then none else vector.deref p arena))
drop_root-Freed_example = drop_root-Freed vector arena two_leaves tree refl (root_at, child)

collect-nodes_example : collect vector 20 (nodes two_leaves) arena ≡ none
collect-nodes_example =
    collect-nodes vector arena two_leaves 0 tree (root_at, child) refl refl (omega arith, λ c h. tt)
      (inl refl) 20

abbrev owning : IntoIter
owning = record {
  cursor = record { node = some 1; index = 1 };
  back_cursor = record { node = some 2; index = 0 };
  length = 2;
  levels = 2;
}

next-next_back_example :
    (it' : IntoIter) × (s' : _) × (next vector owning arena ≡ some ((it', some (15, 2)), s'))
    × (it'.length ≡ 1)
    × (next_back vector it' s' ≡ none)
next-next_back_example =
    next-next_back vector arena owning 1 2 0 low_leaf high_leaf root_node low high none none 1 0 1 0
      (15, 2) (20, 3) (20 ∷ []) (1 ∷ 2 ∷ []) refl refl refl refl refl
      (leaf_with-IsLeaf (some 0) 0 low none (some 2) (omega arith)) refl refl refl
      (leaf_with-IsLeaf (some 0) 1 high (some 1) none (omega arith)) refl (λ h. omega (arith, h))
      refl refl refl (root_at.internal) (omega arith)
