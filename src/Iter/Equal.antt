-- ===== src/Iter/Equal.antt =====
-- The equality of maps compares their entries in order.
use btree_forest_arena.Prelude.{
  ℕ, zero, suc, ◌-◌, ◌<◌, ◌≡◌, inl, inr, Bool, true, false, none, some, List, [], ◌∷◌, arith,
  length, ne→==, ◌==◌, Bool-cases,
}
use btree_forest_arena.Store.{Slab, Run}
use btree_forest_arena.Node.{Node}
use btree_forest_arena.Cursor.Chain.{Ahead, Ahead-Yields}
use btree_forest_arena.Iter.{Iter, next}
use btree_forest_arena.Iter.Order.{peek-more, peek-done, advance-more}
use btree_forest_arena.Iter.Views.{eq_iters, eq_step, same_list}

module _ {S K V : Type 0} (store : Slab S (Node K V)) where
  -- The iterator stands before the entries `rest` and has as many left to yield.
  pub record Before (s : S) (it : Iter) (rest : List (K × V)) : Type 0 where
    pub ahead : Ahead store s it.cursor rest
    pub count : it.length ≡ length rest

  record Steps (s : S) (it : Iter) (e : K × V) (rest : List (K × V)) : Type 0 where
    it' : Iter
    steps : next store it s ≡ some ((it', some e), s)
    later : Before s it' rest

  next-Steps :
      (s : S) (it : Iter) (e : K × V) (rest : List (K × V))
      → Before s it (e ∷ rest)
      → Steps s it e rest
  unfolding next
  next-Steps s it e rest h =
      let step = Ahead-Yields store s it.cursor e rest h.ahead in
      let more : it.length == 0 ≡ false = ne→== it.length 0 (λ z. omega (arith, h.count)) in
      record {
        it' = record it { cursor = step.c'; length = it.length - 1 };
        steps = rw (
          peek-more store s it more,
          step.reads,
          advance-more store s it step.c' more step.moves,
        );
        later = record { ahead = step.ahead; count = omega (arith, h.count) };
      }

  next-done : (s : S) (it : Iter) → Before s it [] → next store it s ≡ some ((it, none), s)
  unfolding next
  next-done s it h = rw (peek-done store s it h.count)

  eq_step_alike :
      (same : K × V → K × V → Bool) (x y : K × V) (rest : Unit {0} → Run S Bool) (s : S)
      → same x y ≡ true
      → eq_step store same rest (some x) (some y) s ≡ rest tt s
  unfolding eq_step
  eq_step_alike same x y rest s alike = rw (eq_step, alike)

  eq_step_unlike :
      (same : K × V → K × V → Bool) (x y : K × V) (rest : Unit {0} → Run S Bool) (s : S)
      → same x y ≡ false
      → eq_step store same rest (some x) (some y) s ≡ some (false, s)
  unfolding eq_step
  eq_step_unlike same x y rest s unlike = rw (eq_step, unlike)

  -- If the iterators stand before the entries `xs` and `ys`, the comparison gives whether these are
  -- pairwise the same and equally many; one round more than `xs` has entries is enough fuel.
  pub eq_iters-same_list :
      (same : K × V → K × V → Bool) (s : S) (a b : Iter) (xs ys : List (K × V)) (fuel : ℕ)
      → Before s a xs
      → Before s b ys
      → length xs < fuel
      → eq_iters store same fuel a b s ≡ some (same_list same xs ys, s)
  unfolding eq_iters eq_step
  eq_iters-same_list same s a b xs ys zero h k lt = absurd (omega arith)
  eq_iters-same_list same s a b [] [] (suc fuel) h k lt = rw (next-done s a h, next-done s b k)
  eq_iters-same_list same s a b [] (y ∷ ys) (suc fuel) h k lt =
      let step = next-Steps s b y ys k in rw (next-done s a h, step.steps)
  eq_iters-same_list same s a b (x ∷ xs) [] (suc fuel) h k lt =
      let step = next-Steps s a x xs h in rw (step.steps, next-done s b k)
  eq_iters-same_list same s a b (x ∷ xs) (y ∷ ys) (suc fuel) h k lt =
      let step = next-Steps s a x xs h in
      let step' = next-Steps s b y ys k in
      elim (Bool-cases (same x y)) [
        | inl alike ↦ rw (
          step.steps,
          step'.steps,
          eq_step_alike same x y (λ _. eq_iters store same fuel step.it' step'.it') s alike,
          alike,
          eq_iters-same_list same s step.it' step'.it' xs ys fuel step.later step'.later
              (omega arith),
        )
        | inr unlike ↦ rw (
          step.steps,
          step'.steps,
          eq_step_unlike same x y (λ _. eq_iters store same fuel step.it' step'.it') s unlike,
          unlike,
        )
      ]
