-- ===== src/Tests/Runs.antt =====
-- Runs of the model on maps built by insertion and removal.
use Prim.Native.Nat.{◌%◌}
use btree_forest_arena.Prelude.{
  ℕ, zero, suc, ◌*◌, ◌≡◌, refl, Option, none, some, List, [], ◌∷◌, map,
}
use btree_forest_arena.Prelude.Order.{nat_ord}
use btree_forest_arena.Slots.{
  included, unsafe_copy_slice_overlapping, unsafe_copy_slice_nonoverlapping,
}
use btree_forest_arena.Store.{as_ref, as_mut, Run, pure, ◌>>=◌}
use btree_forest_arena.Store.Vector.{vector, Cells}
use btree_forest_arena.Node.{Node}
use btree_forest_arena.Map.{BTreeMap, new_in, get}
use btree_forest_arena.Map.Insert.{insert, extend}
use btree_forest_arena.Map.Remove.{remove}
use btree_forest_arena.Map.Drop.{clear}
use btree_forest_arena.Iter.{iter, collect, collect_back}
use btree_forest_arena.Range
use btree_forest_arena.Range.{range}

abbrev Arena : Type 0
Arena = Cells (Node ℕ ℕ)

-- Entries with the keys `37 * i % 101`, for `i` below `n`.
abbrev scattered : ℕ → List (ℕ × ℕ)
scattered zero = []
scattered (suc n) = (n * 37 % 101, n) ∷ scattered n

abbrev remove_all : BTreeMap → List ℕ → Run Arena BTreeMap
remove_all m [] = pure m
remove_all m (k ∷ ks) = do (m', _) ← remove vector m k; remove_all m' ks

abbrev keys_only : Option (List (ℕ × ℕ) × Arena) → List ℕ
keys_only none = []
keys_only (some (es, _)) = map (λ e. e.0) es

abbrev sorted_run : Run Arena (List (ℕ × ℕ))
sorted_run = do m ← extend vector new_in (scattered 20); it ← iter vector m; collect vector 21 it

abbrev removed_run : Run Arena (List (ℕ × ℕ))
removed_run = do
  m ← extend vector new_in (scattered 30)
  m' ← remove_all m (map (λ e. e.0) (scattered 26))
  it ← iter vector m'
  collect_back vector 5 it

abbrev range_run : Run Arena (List (ℕ × ℕ))
range_run = do
  m ← extend vector new_in (scattered 20)
  it ← range vector m (record { start_bound = included 4; end_bound = included 20 })
  Range.collect vector 21 it

abbrev cleared_run : Run Arena (Option ℕ)
cleared_run = do
  m ← extend vector new_in (scattered 9)
  m' ← clear vector m
  (m'', _) ← insert vector m' 4 4
  get vector m'' 4

insertions_sort :
    keys_only (sorted_run [])
    ≡ 0 ∷ 3 ∷ 10 ∷ 13 ∷ 20 ∷ 23 ∷ 30 ∷ 37 ∷ 40 ∷ 47 ∷ 50 ∷ 57 ∷ 60 ∷ 67 ∷ 74 ∷ 77 ∷ 84 ∷ 87 ∷ 94
      ∷ 97 ∷ []
unfolding extend insert iter collect nat_ord as_ref new_in unsafe_copy_slice_overlapping as_mut
    unsafe_copy_slice_nonoverlapping
insertions_sort = refl

removals_leave_the_rest : keys_only (removed_run []) ≡ 90 ∷ 63 ∷ 53 ∷ 26 ∷ []
unfolding extend insert remove iter collect_back nat_ord as_ref new_in unsafe_copy_slice_overlapping
    as_mut unsafe_copy_slice_nonoverlapping
removals_leave_the_rest = refl

-- The key 20 is in the map and in the range.
range_loses_its_end : keys_only (range_run []) ≡ 10 ∷ 13 ∷ []
unfolding extend insert range Range.collect nat_ord as_ref new_in unsafe_copy_slice_overlapping
    as_mut unsafe_copy_slice_nonoverlapping
range_loses_its_end = refl

cleared_map_faults : cleared_run [] ≡ none
unfolding extend insert clear get nat_ord as_ref new_in unsafe_copy_slice_overlapping as_mut
    unsafe_copy_slice_nonoverlapping
cleared_map_faults = refl
