-- ===== src/Iter/Order.antt =====
-- The entries that an iterator yields.
use btree_forest_arena.Prelude.{
  ℕ, zero, suc, ◌-◌, ◌<◌, ◌≡◌, Option, none, some, List, [], ◌∷◌, concat, arith, subst, sym, length,
  ne→==, ◌==◌, false, lt→ltb,
}
use btree_forest_arena.Store.{NodePtr, Slab}
use btree_forest_arena.Store.Access.{as_ref-live}
use btree_forest_arena.Node.{Node}
use btree_forest_arena.Node.View.{IsLeaf}
use btree_forest_arena.Map.{BTreeMap, first_leaf, last_leaf}
use btree_forest_arena.Cursor
use btree_forest_arena.Cursor.{key_value, Cursor, cursor_at, cursor_at_end, validate}
use btree_forest_arena.Cursor.Chain.{Chain, Ahead, Chain-Ahead, Ahead-Yields}
use btree_forest_arena.Iter.{Iter, iter, peek, advance, next, collect}

module _ {S K V : Type 0} (store : Slab S (Node K V)) where
  pub peek-more :
      (s : S) (it : Iter) → it.length == 0 ≡ false → peek store it s ≡ key_value store it.cursor s
  unfolding peek
  peek-more s it more = ground (arith, more)

  pub peek-done : (s : S) (it : Iter) → it.length ≡ 0 → peek store it s ≡ some (none, s)
  unfolding peek
  peek-done s it done = ground (arith, done)

  pub advance-more :
      (s : S) (it : Iter) (c : Cursor)
      → it.length == 0 ≡ false
      → Cursor.advance store it.cursor s ≡ some (c, s)
      → advance store it s ≡ some (record it { cursor = c; length = it.length - 1 }, s)
  unfolding advance
  advance-more s it c more moves = ground (arith, more, moves)

  -- From a cursor that stands before the entries `rest`, with as many entries left to yield, the
  -- iterator yields just these, in order; one round more than there are entries is enough fuel.
  pub collect-rest :
      (s : S) (it : Iter) (rest : List (K × V)) (fuel : ℕ)
      → Ahead store s it.cursor rest
      → it.length ≡ length rest
      → length rest < fuel
      → collect store fuel it s ≡ some (rest, s)
  unfolding collect next
  collect-rest s it rest zero ahead count lt = absurd (omega arith)
  collect-rest s it [] (suc fuel) ahead count lt = rw (peek-done s it count)
  collect-rest s it (e ∷ rest) (suc fuel) ahead count lt =
      let step = Ahead-Yields store s it.cursor e rest ahead in
      let more : it.length == 0 ≡ false = ne→== it.length 0 (λ z. omega arith) in
      rw (
        peek-more s it more,
        step.reads,
        advance-more s it step.c' more step.moves,
        collect-rest s (record it { cursor = step.c'; length = it.length - 1 }) rest fuel step.ahead
            (omega arith) (omega arith),
      )

  -- A new iterator over a map of which `first_leaf` is where the chain of leaves begins, `last_leaf` is
  -- a leaf with entries, and the length counts the entries of the leaves yields these, in order.
  pub iter-collect :
      (s : S) (m : BTreeMap) (p q : NodePtr) (n : Node K V) (es fs : List (K × V))
      (ess : List (List (K × V))) (back after : Option NodePtr)
      → first_leaf store m s ≡ some (some p, s)
      → last_leaf store m s ≡ some (some q, s)
      → Chain store s (some p) (es ∷ ess)
      → store.deref q s ≡ some n
      → IsLeaf n fs back after
      → 0 < length fs
      → m.length ≡ length (concat (es ∷ ess))
      → (fuel : ℕ) → m.length < fuel
      → (it : Iter) × (iter store m s ≡ some (it, s))
        × (collect store fuel it s ≡ some (concat (es ∷ ess), s))
  unfolding iter cursor_at cursor_at_end validate
  iter-collect s m p q n es fs ess back after first last chain live leaf filled count fuel enough =
      let same : p ≡ chain.0 = cc in
      let here : store.deref p s ≡ some chain.1 =
        subst (λ x. store.deref x s ≡ some chain.1) (sym same) chain.5 in
      (
        record {
          cursor = record { node = some p; index = 0 };
          back_cursor = record { node = some q; index = n.len - 1 };
          length = m.length;
        },
        rw (
          first,
          as_ref-live store here,
          lt→ltb 0 chain.1.len (omega (arith, chain.6.count, chain.7)),
          last,
          as_ref-live store live,
          lt→ltb 0 n.len (omega (arith, leaf.count)),
          as_ref-live store live,
          lt→ltb (n.len - 1) n.len (omega (arith, leaf.count)),
        ),
        collect-rest s _ (concat (es ∷ ess)) fuel (Chain-Ahead store s (some p) (es ∷ ess) chain)
            count (omega arith),
      )
