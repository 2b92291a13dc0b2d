-- ===== src/Tests/Ranges.antt =====
-- The theorem on a range that starts at its end, at the second leaf of Tests/Fixtures.
use btree_forest_arena.Prelude.{
  ℕ, ◌≡◌, refl, ap, sym, subst, ◌∙◌, Option, none, some, [], ◌∷◌, arith, suc, ◌⊎◌, inl, inr,
}
use btree_forest_arena.Store.Vector.{vector}
use btree_forest_arena.Store.{as_ref}
use btree_forest_arena.Node.{next, leaf_of}
use btree_forest_arena.Cursor.{Cursor, advance, address}
use btree_forest_arena.Cursor.Chain.{in_leaf}
use btree_forest_arena.Range.{NodeBounds, Range, range_of, collect, start_address, end_address}
use btree_forest_arena.Range.Ends.{Behind, one_step, more_steps, range_of-past_end}
use btree_forest_arena.Tests.Fixtures.{arena, high, high_leaf, leaf_with-IsLeaf}

abbrev at_high : ℕ → Cursor
at_high i = record { node = some 2; index = i }

abbrev gone : Cursor
gone = record { node = none; index = 0 }

abbrev one_entry : NodeBounds
one_entry = record { start_node = 2; end_node = 2; start_index = 0; end_index = 0 }

moves_to :
    (c c' d : Cursor)
    → advance vector c arena ≡ some (c', arena)
    → advance vector c arena ≡ some (d, arena)
    → c' ≡ d
moves_to c c' d a b =
    let same : ◌≡◌ {A = Option (Cursor × _)} (some (c', arena)) (some (d, arena)) = sym a ∙ b in cc

step_one : advance vector (at_high 0) arena ≡ some (at_high 1, arena)
unfolding advance as_ref next leaf_of
step_one = refl

step_two : advance vector (at_high 1) arena ≡ some (at_high 2, arena)
unfolding advance as_ref next leaf_of
step_two = refl

step_three : advance vector (at_high 2) arena ≡ some (gone, arena)
unfolding advance as_ref next leaf_of
step_three = refl

no_step : (d : Cursor) → advance vector gone arena ≡ some (d, arena) → ⊥
unfolding advance
no_step d h = cc

from_gone : (c d : Cursor) → c ≡ gone → Behind vector arena c d → ⊥
from_gone c d at (one_step h) =
    no_step d (subst (λ x. advance vector x arena ≡ some (d, arena)) at h)
from_gone c d at (more_steps {c' = c'} h b) =
    no_step c' (subst (λ x. advance vector x arena ≡ some (c', arena)) at h)

follow :
    (c c' d : Cursor)
    → advance vector c arena ≡ some (c', arena)
    → Behind vector arena c d
    → (d ≡ c') ⊎ Behind vector arena c' d
follow c c' d moves (one_step h) = inl (sym (moves_to c c' d moves h))
follow c c' d moves (more_steps {c' = c''} h b) =
    inr (subst (λ x. Behind vector arena x d) (sym (moves_to c c' c'' moves h)) b)

not_first : (i : ℕ) → address (at_high (suc i)) ≡ some (end_address one_entry) → ⊥
unfolding address end_address
not_first i h =
    let pair : ◌≡◌ {A = ℕ × ℕ} (2, suc i) (2, 0) = cc in
    let index : suc i ≡ 0 = ap (λ a. a.1) pair in omega (arith, index)

not_gone : address gone ≡ some (end_address one_entry) → ⊥
unfolding address
not_gone h = cc

no_return :
    (d : Cursor) → Behind vector arena (at_high 0) d → address d ≡ some (end_address one_entry) → ⊥
no_return d b at = elim (follow (at_high 0) (at_high 1) d step_one b) [
  | inl one ↦ not_first 0 (ap address (sym one) ∙ at)
  | inr b₁ ↦ elim (follow (at_high 1) (at_high 2) d step_two b₁) [
    | inl two ↦ not_first 1 (ap address (sym two) ∙ at)
    | inr b₂ ↦ elim (follow (at_high 2) gone d step_three b₂) [
      | inl none_left ↦ not_gone (ap address (sym none_left) ∙ at)
      | inr b₃ ↦ from_gone gone d refl b₃
    ]
  ]
]

range_of-past_end_example :
    (r : Range) × (range_of vector (some one_entry) arena ≡ some (r, arena))
    × (collect vector 4 r arena ≡ some ((20, 3) ∷ (30, 4) ∷ (35, 5) ∷ [], arena))
unfolding start_address end_address
range_of-past_end_example =
    range_of-past_end vector arena one_entry high_leaf high 4 refl refl (omega arith)
      (in_leaf high []
        (
          2,
          high_leaf,
          some 1,
          none,
          refl,
          refl,
          leaf_with-IsLeaf (some 0) 1 high (some 1) none (omega arith),
          omega arith,
          refl,
        )
        (omega arith) refl)
      no_return (omega arith)
