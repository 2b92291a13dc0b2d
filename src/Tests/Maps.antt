-- ===== src/Tests/Maps.antt =====
-- The theorems on maps, cursors, iterators and ranges at the arena of Tests/Fixtures.
use Prim.Native.Nat.{compare}
use btree_forest_arena.Prelude.{ℕ, ◌≡◌, refl, inl, inr, false, none, some, [], ◌∷◌, arith}
use btree_forest_arena.Prelude.Order.{nat_ord}
use btree_forest_arena.Store.{as_ref}
use btree_forest_arena.Store.Vector.{vector}
use btree_forest_arena.Search.{err, binary_search_by}
use btree_forest_arena.Search.Linear.{binary_search_by-eq-scan}
use btree_forest_arena.Cursor
use btree_forest_arena.Cursor.{Cursor}
use btree_forest_arena.Map.{
  BTreeMap, first_leaf, last_leaf, get, get_key, get_key_value, contains_key,
}
use btree_forest_arena.Map.Lookup.Retrieve.{
  get-lookup, get_key-lookup, get_key_value-lookup, contains_key-lookup,
}
use btree_forest_arena.Map.Insert.{insert}
use btree_forest_arena.Map.Drop.{clear}
use btree_forest_arena.Map.Drop.Clear.{clear-insert-get}
use btree_forest_arena.Iter.{Iter, iter, collect}
use btree_forest_arena.Iter.Order.{iter-collect, collect-rest}
use btree_forest_arena.Cursor.Chain.{in_leaf}
use btree_forest_arena.Range
use btree_forest_arena.Range.{Range}
use btree_forest_arena.Range.Ends.{next-end, next_back-start}
use btree_forest_arena.Tests.Fixtures.{
  leaf_with-IsLeaf, low, high, all_entries, low_leaf, high_leaf, arena, two_leaves,
  two_leaves-IsMap,
}

get-lookup_example : get vector two_leaves 30 arena ≡ some (some 4, arena)
unfolding nat_ord
get-lookup_example = get-lookup vector 30 two_leaves-IsMap

get_key-lookup_example : get_key vector two_leaves 20 arena ≡ some (some 20, arena)
unfolding nat_ord
get_key-lookup_example = get_key-lookup vector 20 two_leaves-IsMap

get_key_value-lookup_example : get_key_value vector two_leaves 15 arena ≡ some (some (15, 2), arena)
unfolding nat_ord
get_key_value-lookup_example = get_key_value-lookup vector 15 two_leaves-IsMap

contains_key-lookup_example : contains_key vector two_leaves 25 arena ≡ some (false, arena)
unfolding nat_ord
contains_key-lookup_example = contains_key-lookup vector 25 two_leaves-IsMap

binary_search_by-eq-scan_example :
    binary_search_by (λ x. compare x 25) (10 ∷ 20 ∷ 30 ∷ []) ≡ some (err 2)
binary_search_by-eq-scan_example =
    binary_search_by-eq-scan (λ x. compare x 25) (10 ∷ 20 ∷ 30 ∷ [])
      (inl refl, (inl refl, (inr tt, tt)))

clear-insert-get_example :
    (m'' : BTreeMap) × (s'' : _) × (insert {K = ℕ} {V = ℕ} vector
        (record two_leaves { root = none; length = 0 })
        4
        40
        (none ∷ none ∷ none ∷ [])
      ≡ some ((m'', none), s''))
    × (get {K = ℕ} {V = ℕ} vector m'' 4 s'' ≡ none)
unfolding clear nat_ord as_ref
clear-insert-get_example =
    clear-insert-get vector arena (none ∷ none ∷ none ∷ []) two_leaves
      (record two_leaves { root = none; length = 0 }) 0 4 4 40 refl refl

iter-collect_example :
    (it : Iter) × (iter vector two_leaves arena ≡ some (it, arena))
    × (collect vector 6 it arena ≡ some (all_entries, arena))
unfolding first_leaf last_leaf as_ref
iter-collect_example =
    iter-collect vector arena two_leaves 1 2 high_leaf low high (high ∷ []) (some 1) none refl refl
      (
        1,
        low_leaf,
        none,
        some 2,
        refl,
        refl,
        leaf_with-IsLeaf (some 0) 0 low none (some 2) (omega arith),
        omega arith,
        (
          2,
          high_leaf,
          some 1,
          none,
          refl,
          refl,
          leaf_with-IsLeaf (some 0) 1 high (some 1) none (omega arith),
          omega arith,
          refl,
        ),
      )
      refl (leaf_with-IsLeaf (some 0) 1 high (some 1) none (omega arith)) (omega arith) refl 6
      (omega arith)

abbrev cursor_to : ℕ → ℕ → Cursor
cursor_to p i = record { node = some p; index = i }

abbrev range_from_to : ℕ → ℕ → ℕ → ℕ → Range
range_from_to p i q j = record {
  cursor = cursor_to p i;
  back_cursor = cursor_to q j;
  bounds = some (record { start_node = p; end_node = q; start_index = i; end_index = j });
}

next-end_example :
    (r' : Range) × (Range.next vector (range_from_to 1 1 2 0) arena
      ≡ some ((r', some (15, 2)), arena))
    × (Range.next vector r' arena ≡ some ((r', none), arena))
    × (Range.next_back vector r' arena ≡ some ((r', none), arena))
unfolding Range.peek as_ref Cursor.advance Cursor.address Range.end_address
next-end_example =
    next-end vector arena (range_from_to 1 1 2 0) _ (cursor_to 2 0) (15, 2) refl refl refl refl

next_back-start_example :
    (r' : Range) × (Range.next_back vector (range_from_to 1 1 2 0) arena
      ≡ some ((r', some (20, 3)), arena))
    × (Range.next_back vector r' arena ≡ some ((r', none), arena))
    × (Range.next vector r' arena ≡ some ((r', none), arena))
unfolding Range.peek_back as_ref Cursor.advance_back Cursor.address Range.start_address
next_back-start_example =
    next_back-start vector arena (range_from_to 1 1 2 0) _ (cursor_to 1 1) (20, 3) refl refl refl
      refl

collect-rest_example :
    collect vector 4
      (record { cursor = cursor_to 2 1; back_cursor = cursor_to 2 2; length = 2 })
      arena
    ≡ some ((30, 4) ∷ (35, 5) ∷ [], arena)
collect-rest_example =
    collect-rest vector arena
      (record { cursor = cursor_to 2 1; back_cursor = cursor_to 2 2; length = 2 })
      ((30, 4) ∷ (35, 5) ∷ []) 4
      (in_leaf high []
        (
          2,
          high_leaf,
          some 1,
          none,
          refl,
          refl,
          leaf_with-IsLeaf (some 0) 1 high (some 1) none (omega arith),
          omega arith,
          refl,
        )
        (omega arith) refl)
      refl (omega arith)
