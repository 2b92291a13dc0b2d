-- ===== src/Tests/Splits.antt =====
-- The theorems on insertions that split a leaf, at a full root leaf.
use Prim.Native.Nat.{compare}
use Prim.Native.Nat.Ordering.{eq}
use btree_forest_arena.Node.View.{val_of}
use btree_forest_arena.Tree.{lookup}
use btree_forest_arena.Map.Insert.Recall.{insert-get_any}
use mathlib.Core.Option
use btree_forest_arena.Prelude.{
  ℕ, zero, suc, ◌≡◌, refl, sym, subst, Option, inr, none, some, List, [], ◌∷◌, arith, insert_at,
  get_elem?,
}
use btree_forest_arena.Prelude.Order.{nat_ord}
use btree_forest_arena.Slots.{unsafe_copy_slice_nonoverlapping, unsafe_copy_slice_overlapping}
use btree_forest_arena.Store.{as_ref, as_mut}
use btree_forest_arena.Store.Vector.{vector, Cells}
use btree_forest_arena.Node.{Node, next, leaf_of}
use btree_forest_arena.Map.{BTreeMap, get}
use btree_forest_arena.Map.Insert.{insert, insert_before}
use btree_forest_arena.Map.Insert.Relink.{LeafBehind}
use btree_forest_arena.Map.Insert.SplitLeaf.{LeafSplit, insert_before-LeafSplit}
use btree_forest_arena.Map.Insert.Settle.{IsFilledMap}
use btree_forest_arena.Map.Insert.Filled.{Upserted, insert-IsFilledMap}
use btree_forest_arena.Tests.Fixtures.{leaf_with, leaf_with-IsLeaf}

abbrev full : List (ℕ × ℕ)
full = (1, 1) ∷ (3, 3) ∷ (5, 5) ∷ (7, 7) ∷ (9, 9) ∷ (11, 11) ∷ (13, 13) ∷ (15, 15) ∷ []

abbrev full_leaf : Node ℕ ℕ
full_leaf = leaf_with none 0 full none none

abbrev one_leaf : Cells (Node ℕ ℕ)
one_leaf = some full_leaf ∷ []

abbrev leaf_map : BTreeMap
leaf_map = record { root = some 0; length = 8; height = 0 }

leaf_map-IsFilledMap : IsFilledMap vector one_leaf leaf_map full
unfolding nat_ord
leaf_map-IsFilledMap = inr (record {
  is = record {
    tree = (0, full);
    rooted = refl;
    represented = record {
      n = full_leaf;
      prev = none;
      next = none;
      live = refl;
      leaf = leaf_with-IsLeaf none 0 full none none (omega arith);
      has_parent = refl;
    };
    ordered = (
      (refl, (refl, (refl, (refl, (refl, (refl, (refl, tt))))))),
      (
        (refl, (refl, (refl, (refl, (refl, (refl, tt)))))),
        (
          (refl, (refl, (refl, (refl, (refl, tt))))),
          (
            (refl, (refl, (refl, (refl, tt)))),
            ((refl, (refl, (refl, tt))), ((refl, (refl, tt)), ((refl, tt), (tt, tt)))),
          ),
        ),
      ),
    );
    same_entries = refl;
    counted = refl;
  };
  filled = omega arith;
})

no_next : (p q : ℕ) (n : Node ℕ ℕ) → vector.deref p one_leaf ≡ some n → next n ≡ some (some q) → ⊥
unfolding next leaf_of
no_next zero q n live behind =
    let same : full_leaf ≡ n = cc in
    let nothing : ◌≡◌ {A = Option (Option ℕ)} (some none) (some (some q)) =
      subst (λ m. next m ≡ some (some q)) (sym same) behind in
    cc
no_next (suc p) q n live behind = cc

insert-IsFilledMap_example : Upserted vector one_leaf leaf_map 4 4 full
insert-IsFilledMap_example =
    insert-IsFilledMap vector one_leaf leaf_map full 4 4 leaf_map-IsFilledMap
      (λ p i n found live eight q behind. absurd (no_next p q n live behind))

-- The root leaf is split, and the map has the height 1.
insert_height :
    Option.map {B = ℕ × Option ℕ}
      (λ r. (r.0.0.height, r.0.0.root))
      (insert vector leaf_map 4 4 one_leaf)
    ≡ some (1, some 2)
unfolding insert nat_ord as_ref as_mut unsafe_copy_slice_nonoverlapping
    unsafe_copy_slice_overlapping
insert_height = refl

insert-get_any_example :
    (m' : BTreeMap) × (s' : Cells (Node ℕ ℕ)) × (insert vector leaf_map 4 4 one_leaf
      ≡ some ((m', none), s'))
    × (get vector m' 4 s' ≡ some (some 4, s'))
    × ((x : ℕ)
        → (compare 4 x ≡ eq → ⊥)
        → get vector m' x s' ≡ some (Option.map val_of (lookup full x), s'))
unfolding nat_ord
insert-get_any_example =
    insert-get_any vector one_leaf leaf_map full 4 4 leaf_map-IsFilledMap
      (λ p i n found live eight q behind. absurd (no_next p q n live behind))

-- The full leaf at address 0, with the leaf at address 1 behind it.
abbrev first_leaf : Node ℕ ℕ
first_leaf = leaf_with none 0 full none (some 1)

abbrev second_leaf : Node ℕ ℕ
second_leaf = leaf_with none 1 ((20, 3) ∷ (30, 4) ∷ []) (some 0) none

abbrev linked_leaves : Cells (Node ℕ ℕ)
linked_leaves = some first_leaf ∷ some second_leaf ∷ []

behind_first : (q : ℕ) → ◌≡◌ {A = Option ℕ} (some 1) (some q) → LeafBehind vector linked_leaves 0 q
behind_first q is =
    let same : 1 ≡ q = cc in
    subst (LeafBehind vector linked_leaves 0) same (record {
      n = second_leaf;
      l = record { vals = get_elem? (3 ∷ 4 ∷ []); prev = some 0; next = none };
      live = refl;
      is_leaf = refl;
      apart = λ e. omega (arith, e);
    })

insert_before-LeafSplit_example :
    LeafSplit vector linked_leaves leaf_map 0 first_leaf
      (insert_at 2 (4, 4) full)
      none
      (some 1)
      (insert_before vector leaf_map 4 4 0 2 linked_leaves)
insert_before-LeafSplit_example =
    insert_before-LeafSplit vector linked_leaves leaf_map 0 first_leaf full none (some 1) 4 4 2 refl
      (leaf_with-IsLeaf none 0 full none (some 1) (omega arith)) refl (omega arith) behind_first
