-- ===== src/Tests/Sets.antt =====
-- The theorems on sets, at a set of one leaf.
use btree_forest_arena.Prelude.{
  ℕ, zero, suc, ◌<◌, ◌≡◌, refl, inr, true, none, some, List, [], ◌∷◌, map, arith, subst, get_elem?,
}
use btree_forest_arena.Prelude.Order.{nat_ord}
use btree_forest_arena.Store.Vector.{vector, Cells}
use btree_forest_arena.Node.{Node, leaf_data}
use btree_forest_arena.Node.View.{val_of}
use btree_forest_arena.Set.{BTreeSet, Void, insert, contains}
use btree_forest_arena.Set.Refines.{IsSetOf, with_void, contains-among, insert-adjoin}

abbrev three : List ℕ
three = 3 ∷ 5 ∷ 8 ∷ []

abbrev leaf : Node ℕ Void
leaf = record {
  parent = none;
  parent_idx = none;
  len = 3;
  keys = get_elem? three;
  d =
      leaf_data
        (record { vals = get_elem? (map val_of (map with_void three)); prev = none; next = none });
}

abbrev cells : Cells (Node ℕ Void)
cells = some leaf ∷ []

abbrev small_set : BTreeSet
small_set = record { inner = record { root = some 0; length = 3; height = 0 } }

small_set-IsSetOf : IsSetOf vector cells small_set three
unfolding nat_ord
small_set-IsSetOf = inr (record {
  tree = (0, map with_void three);
  rooted = refl;
  represented = record {
    n = leaf;
    prev = none;
    next = none;
    live = refl;
    leaf = record {
      l = record { vals = get_elem? (map val_of (map with_void three)); prev = none; next = none };
      is_leaf = refl;
      count = refl;
      fits = omega arith;
      has_keys = λ j lt. refl;
      has_vals = λ j lt. refl;
      before = refl;
      after = refl;
    };
    has_parent = refl;
  };
  ordered = ((refl, (refl, tt)), ((refl, tt), (tt, tt)));
  same_entries = refl;
  counted = refl;
})

cells_have_room : (p : ℕ) (n : Node ℕ Void) → vector.deref p cells ≡ some n → n.len < 8
cells_have_room zero n h = let same : leaf ≡ n = cc in subst (λ m. m.len < 8) same (omega arith)
cells_have_room (suc p) n h = absurd cc

contains-among_example : contains vector small_set 5 cells ≡ some (true, cells)
unfolding nat_ord
contains-among_example = contains-among vector cells small_set three 5 small_set-IsSetOf

insert-adjoin_example :
    (t' : BTreeSet) × (s' : _) × (insert vector small_set 6 cells ≡ some ((t', true), s'))
    × IsSetOf vector s' t' (3 ∷ 5 ∷ 6 ∷ 8 ∷ [])
unfolding nat_ord
insert-adjoin_example =
    insert-adjoin vector cells small_set three 6 small_set-IsSetOf
      (λ p i n found live. cells_have_room p n live)
