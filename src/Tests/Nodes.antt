-- ===== src/Tests/Nodes.antt =====
-- The theorem on `split_internal` at a node with eight keys.
use btree_forest_arena.Prelude.{
  ℕ, zero, suc, ◌≡◌, refl, subst, none, some, List, [], ◌∷◌, get_elem?, insert_at, arith,
}
use btree_forest_arena.Store.{NodePtr}
use btree_forest_arena.Store.Vector.{vector, Cells}
use btree_forest_arena.Node.{Node, internal_data}
use btree_forest_arena.Node.View.{IsInternal}
use btree_forest_arena.Node.Edges.{split_internal}
use btree_forest_arena.Node.Edges.Shift.{Numbered}
use btree_forest_arena.Node.Edges.Split.{InternalSplit, split_internal-InternalSplit}
use btree_forest_arena.Tests.Fixtures.{leaf_with}

abbrev separators : List ℕ
separators = 10 ∷ 20 ∷ 40 ∷ 50 ∷ 60 ∷ 70 ∷ 80 ∷ 90 ∷ []

abbrev children : List NodePtr
children = 1 ∷ 2 ∷ 3 ∷ 5 ∷ 6 ∷ 7 ∷ 8 ∷ 9 ∷ 10 ∷ []

abbrev full_node : Node ℕ ℕ
full_node = record {
  parent = none;
  parent_idx = none;
  len = 8;
  keys = get_elem? separators;
  d = internal_data (record { edges = get_elem? children });
}

abbrev child_at : ℕ → ℕ → Node ℕ ℕ
child_at i k = leaf_with (some 0) i ((k, k) ∷ []) none none

-- The child at address 4 is to be hung behind the one at address 3.
abbrev full_arena : Cells (Node ℕ ℕ)
full_arena =
    some full_node
    ∷ some (child_at 0 0)
    ∷ some (child_at 1 10)
    ∷ some (child_at 2 20)
    ∷ some (child_at 3 30)
    ∷ some (child_at 3 40)
    ∷ some (child_at 4 50)
    ∷ some (child_at 5 60)
    ∷ some (child_at 6 70)
    ∷ some (child_at 7 80)
    ∷ some (child_at 8 90)
    ∷ []

full_node-IsInternal : IsInternal full_node separators children
full_node-IsInternal = record {
  i = record { edges = get_elem? children };
  is_internal = refl;
  count = refl;
  fits = omega arith;
  branches = refl;
  has_keys = λ j lt. refl;
  has_edges = λ j lt. refl;
}

placed :
    (p q : NodePtr) (n : Node ℕ ℕ) (j : ℕ)
    → vector.deref p full_arena ≡ some n
    → n.parent ≡ some 0
    → n.parent_idx ≡ some j
    → p ≡ q
    → (m : Node ℕ ℕ) × (vector.deref q full_arena ≡ some m)
      × (m.parent ≡ some 0)
      × (m.parent_idx ≡ some j)
placed p q n j live up index same =
    (n, subst (λ x. vector.deref x full_arena ≡ some n) same live, up, index)

numbered : Numbered vector full_arena 0 (insert_at 3 4 children) 3
numbered zero q at = placed 1 q (child_at 0 0) 0 refl refl refl cc
numbered (suc zero) q at = placed 2 q (child_at 1 10) 1 refl refl refl cc
numbered (suc (suc zero)) q at = placed 3 q (child_at 2 20) 2 refl refl refl cc
numbered (suc (suc (suc zero))) q at = placed 4 q (child_at 3 30) 3 refl refl refl cc
numbered (suc (suc (suc (suc zero)))) q at = placed 5 q (child_at 3 40) 3 refl refl refl cc
numbered (suc (suc (suc (suc (suc zero))))) q at = placed 6 q (child_at 4 50) 4 refl refl refl cc
numbered (suc (suc (suc (suc (suc (suc zero)))))) q at =
    placed 7 q (child_at 5 60) 5 refl refl refl cc
numbered (suc (suc (suc (suc (suc (suc (suc zero))))))) q at =
    placed 8 q (child_at 6 70) 6 refl refl refl cc
numbered (suc (suc (suc (suc (suc (suc (suc (suc zero)))))))) q at =
    placed 9 q (child_at 7 80) 7 refl refl refl cc
numbered (suc (suc (suc (suc (suc (suc (suc (suc (suc zero))))))))) q at =
    placed 10 q (child_at 8 90) 8 refl refl refl cc
numbered (suc (suc (suc (suc (suc (suc (suc (suc (suc (suc i)))))))))) q at = cc

split_internal-InternalSplit_example :
    InternalSplit vector full_arena 0 full_node
      (insert_at 2 30 separators)
      (insert_at 3 4 children)
      (split_internal vector 0 2 30 4 full_arena)
split_internal-InternalSplit_example =
    split_internal-InternalSplit vector full_arena 0 4 full_node separators children 2 30 refl
      full_node-IsInternal refl (omega arith)
      (refl, (refl, (refl, (refl, (refl, (refl, (refl, (refl, (refl, (refl, tt)))))))))) refl
      numbered
