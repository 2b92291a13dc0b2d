-- ===== src/Search.antt =====
-- `slice::binary_search_by` of the standard library, over the keys of a node.
pub mod Linear
use Prim.Native.Nat.{Ordering}
use Prim.Native.Nat.Ordering.{lt, eq, gt}
use btree_forest_arena.Prelude.{
  ℕ, zero, suc, ◌+◌, ◌-◌, ◌/◌, Option, none, some, List, length, get_elem?, ltb, if◌then◌else◌,
}

-- `Result<usize, usize>`: the index of a match, or the one where a match could be inserted.
pub data Found : Type 0 where
  ok : ℕ → Found
  err : ℕ → Found

module _ {A : Type 0} (f : A → Ordering) (xs : List A) where
  -- `while left < right`; a round at least halves the interval. `none` is out of fuel.
  unfoldable pub search_loop : ℕ → ℕ → ℕ → Option Found
  search_loop zero left right = if ltb left right then none else some (err left)
  search_loop (suc fuel) left right =
      let mid = left + (right - left) / 2 in
      let above = search_loop fuel (mid + 1) right in
      let below = search_loop fuel left mid in
      if ltb left right
      then (elim (get_elem? xs mid) [
        | none ↦ none
        | some a ↦ elim (f a) [ lt ↦ above | gt ↦ below | eq ↦ some (ok mid) ]
      ])
      else some (err left)

  unfoldable pub binary_search_by : Option Found
  unfolding search_loop
  binary_search_by = search_loop (length xs) 0 (length xs)
