-- ===== src/Tests/Fixtures.antt =====
-- Concrete nodes, and an arena with a map of height 1.
use btree_forest_arena.Prelude.{
  ℕ, zero, suc, ◌≤◌, ◌≡◌, refl, inl, inr, Option, none, some, List, [], ◌∷◌, map, length, get_elem?,
  arith, subst,
}
use btree_forest_arena.Store.{NodePtr}
use btree_forest_arena.Store.Vector.{vector, Cells}
use btree_forest_arena.Node.{Node, leaf_data, internal_data}
use btree_forest_arena.Node.View.{IsLeaf, key_of, val_of}
use btree_forest_arena.Prelude.Order.{nat_ord}
use btree_forest_arena.Map.{BTreeMap}
use btree_forest_arena.Tree.{Tree}
use btree_forest_arena.Tree.Repr.{InternalAt, Repr, IsMap}

-- A leaf with the entries, at index `i` of the parent `up`.
abbrev pub leaf_with :
    Option NodePtr → ℕ → List (ℕ × ℕ) → Option NodePtr → Option NodePtr → Node ℕ ℕ
leaf_with up i es p q = record {
  parent = up;
  parent_idx = some i;
  len = length es;
  keys = get_elem? (map key_of es);
  d = leaf_data (record { vals = get_elem? (map val_of es); prev = p; next = q });
}

pub leaf_with-IsLeaf :
    (up : Option NodePtr) (i : ℕ) (es : List (ℕ × ℕ)) (p q : Option NodePtr)
    → length es ≤ 8
    → IsLeaf (leaf_with up i es p q) es p q
leaf_with-IsLeaf up i es p q fits = record {
  l = record { vals = get_elem? (map val_of es); prev = p; next = q };
  is_leaf = refl;
  count = refl;
  fits = fits;
  has_keys = λ j lt. refl;
  has_vals = λ j lt. refl;
  before = refl;
  after = refl;
}

abbrev pub low : List (ℕ × ℕ)
low = (10, 1) ∷ (15, 2) ∷ []

abbrev pub high : List (ℕ × ℕ)
high = (20, 3) ∷ (30, 4) ∷ (35, 5) ∷ []

abbrev pub all_entries : List (ℕ × ℕ)
all_entries = (10, 1) ∷ (15, 2) ∷ (20, 3) ∷ (30, 4) ∷ (35, 5) ∷ []

abbrev pub root_node : Node ℕ ℕ
root_node = record {
  parent = none;
  parent_idx = none;
  len = 1;
  keys = get_elem? (20 ∷ []);
  d = internal_data (record { edges = get_elem? (1 ∷ 2 ∷ []) });
}

abbrev pub low_leaf : Node ℕ ℕ
low_leaf = leaf_with (some 0) 0 low none (some 2)

abbrev pub high_leaf : Node ℕ ℕ
high_leaf = leaf_with (some 0) 1 high (some 1) none

-- The root at address 0 has the leaves at the addresses 1 and 2.
abbrev pub arena : Cells (Node ℕ ℕ)
arena = some root_node ∷ some low_leaf ∷ some high_leaf ∷ []

abbrev pub two_leaves : BTreeMap
two_leaves = record { root = some 0; length = 5; height = 1 }

abbrev pub tree : Tree ℕ ℕ 1
tree = (0, 20 ∷ [], (1, low) ∷ (2, high) ∷ [])

pub child :
    (i : ℕ) (c : Tree ℕ ℕ 0) → get_elem? tree.2 i ≡ some c → Repr vector 0 arena (some (0, i)) c
child zero c h =
    let same : (1, low) ≡ c = cc in
    subst (Repr vector 0 arena (some (0, 0))) same (record {
      n = low_leaf;
      prev = none;
      next = some 2;
      live = refl;
      leaf = leaf_with-IsLeaf (some 0) 0 low none (some 2) (omega arith);
      has_parent = (refl, refl);
    })
child (suc zero) c h =
    let same : (2, high) ≡ c = cc in
    subst (Repr vector 0 arena (some (0, 1))) same (record {
      n = high_leaf;
      prev = some 1;
      next = none;
      live = refl;
      leaf = leaf_with-IsLeaf (some 0) 1 high (some 1) none (omega arith);
      has_parent = (refl, refl);
    })
child (suc (suc i)) c h = absurd cc

abbrev pub root_at : InternalAt vector arena none 0 (20 ∷ []) (1 ∷ 2 ∷ [])
root_at = record {
  n = root_node;
  live = refl;
  internal = record {
    i = record { edges = get_elem? (1 ∷ 2 ∷ []) };
    is_internal = refl;
    count = refl;
    fits = omega arith;
    branches = refl;
    has_keys = λ j lt. refl;
    has_edges = λ j lt. refl;
  };
  has_parent = refl;
}

pub two_leaves-IsMap : IsMap vector arena two_leaves all_entries
unfolding nat_ord
two_leaves-IsMap = inr (record {
  tree = tree;
  rooted = refl;
  represented = (root_at, child);
  ordered = (
    (tt, tt),
    ((refl, (refl, tt)), (inr refl, (inl refl, (inl refl, tt))), tt),
    (((refl, tt), (tt, tt)), (((refl, (refl, tt)), ((refl, tt), (tt, tt))), tt)),
  );
  same_entries = refl;
  counted = refl;
})
