-- ===== src/Tests/Removes.antt =====
-- The theorems on removal at a map of one leaf.
use btree_forest_arena.Prelude.{
  ℕ, zero, suc, ◌<◌, ◌≡◌, refl, inr, none, some, [], ◌∷◌, arith, subst,
}
use btree_forest_arena.Prelude.Order.{nat_ord}
use btree_forest_arena.Store.Vector.{vector, Cells}
use btree_forest_arena.Node.{Node}
use btree_forest_arena.Map.{BTreeMap, get}
use btree_forest_arena.Map.Remove.{remove}
use btree_forest_arena.Map.Remove.Get.{remove-get_other}
use btree_forest_arena.Map.Remove.Room.{Removed, remove_key_value-erase}
use btree_forest_arena.Tree.Repr.{IsMap}
use btree_forest_arena.Tests.Fixtures.{leaf_with, leaf_with-IsLeaf, all_entries}

abbrev one_leaf : Cells (Node ℕ ℕ)
one_leaf = some (leaf_with none 0 all_entries none none) ∷ []

abbrev small_map : BTreeMap
small_map = record { root = some 0; length = 5; height = 0 }

small_map-IsMap : IsMap vector one_leaf small_map all_entries
unfolding nat_ord
small_map-IsMap = inr (record {
  tree = (0, all_entries);
  rooted = refl;
  represented = record {
    n = leaf_with none 0 all_entries none none;
    prev = none;
    next = none;
    live = refl;
    leaf = leaf_with-IsLeaf none 0 all_entries none none (omega arith);
    has_parent = refl;
  };
  ordered = (
    (refl, (refl, (refl, (refl, tt)))),
    ((refl, (refl, (refl, tt))), ((refl, (refl, tt)), ((refl, tt), (tt, tt)))),
  );
  same_entries = refl;
  counted = refl;
})

leaves_have_spare : (p : ℕ) (n : Node ℕ ℕ) → vector.deref p one_leaf ≡ some n → 4 < n.len
leaves_have_spare zero n h =
    let same : leaf_with none 0 all_entries none none ≡ n = cc in
    subst (λ m. 4 < m.len) same (omega arith)
leaves_have_spare (suc p) n h = absurd cc

remove_key_value-erase_example : Removed vector one_leaf small_map 20 all_entries
remove_key_value-erase_example =
    remove_key_value-erase vector one_leaf small_map all_entries 20 small_map-IsMap
      (λ p i n found live. leaves_have_spare p n live)

remove-get_other_example :
    (m' : BTreeMap) × (s' : _) × (remove vector small_map 20 one_leaf ≡ some ((m', some 3), s'))
    × (get vector m' 30 s' ≡ some (some 4, s'))
unfolding nat_ord
remove-get_other_example =
    remove-get_other vector one_leaf small_map all_entries 20 small_map-IsMap
      (λ p i n found live. leaves_have_spare p n live) 30 (λ h. cc)
