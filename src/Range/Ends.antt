-- ===== src/Range/Ends.antt =====
-- How a range ends.
use btree_forest_arena.Prelude.{
  ℕ, zero, suc, ◌<◌, ◌≡◌, refl, sym, ap, subst, ◌∙◌, ◌==◌, Bool-cases, inl, inr, ==→≡, lt→ltb,
  Option, true, false, none, some, List, [], ◌∷◌, length, ==_refl, arith,
}
use btree_forest_arena.Store.{NodePtr, Slab}
use btree_forest_arena.Store.Access.{as_ref-live}
use btree_forest_arena.Node.{Node}
use btree_forest_arena.Cursor
use btree_forest_arena.Cursor.{Cursor, validate, cursor_at, address, is_attached, detach, key_value}
use btree_forest_arena.Cursor.Chain.{Ahead, Ahead-Yields, Ahead-done}
use btree_forest_arena.Range.Defs.{
  NodeBounds, Range, start_address, end_address, address_eq, settle, settle_back, peek, peek_back,
  advance, advance_back, next, next_back, collect, range_of,
}

address_eq_refl : (a : NodePtr × ℕ) → address_eq (some a) (some a) ≡ true
unfolding address_eq
address_eq_refl a = ground (arith, ==_refl a.0, ==_refl a.1)

address_eq-apart : (a b : NodePtr × ℕ) → (a ≡ b → ⊥) → address_eq (some a) (some b) ≡ false
unfolding address_eq
address_eq-apart a b apart = elim (Bool-cases (a.0 == b.0)) [
  | inl same_node ↦ elim (Bool-cases (a.1 == b.1)) [
    | inl same_index ↦ absurd (
        apart (
          ap (λ p. (p, a.1)) (==→≡ a.0 b.0 same_node)
          ∙ ap (λ i. (b.0, i)) (==→≡ a.1 b.1 same_index)))
    | inr differs ↦ ground (arith, same_node, differs)
  ]
  | inr differs ↦ ground (arith, differs)
]

module _ {S K V : Type 0} (store : Slab S (Node K V)) where
  settle-end :
      (s : S) (r : Range) (b : NodeBounds) (c : Cursor)
      → r.bounds ≡ some b
      → address c ≡ some (end_address b)
      → settle store r c s
        ≡ some (record r { cursor = detach c; back_cursor = detach r.back_cursor }, s)
  unfolding settle address is_attached
  settle-end s r b c bounds at_end = ground (arith, bounds, at_end, address_eq_refl (end_address b))

  -- If `next` yields `e` and the cursor then stands at the inclusive end, the range is exhausted on both
  -- sides: the entry at the end is not yielded.
  pub next-end :
      (s : S) (r : Range) (b : NodeBounds) (c : Cursor) (e : K × V)
      → r.bounds ≡ some b
      → peek store r s ≡ some (some e, s)
      → Cursor.advance store r.cursor s ≡ some (c, s)
      → address c ≡ some (end_address b)
      → (r' : Range) × (next store r s ≡ some ((r', some e), s))
        × (next store r' s ≡ some ((r', none), s))
        × (next_back store r' s ≡ some ((r', none), s))
  unfolding next next_back advance detach peek peek_back key_value
  next-end s r b c e bounds yields moves at_end = (
    record r { cursor = detach c; back_cursor = detach r.back_cursor },
    rw (yields, moves, settle-end s r b c bounds at_end),
    refl,
    refl,
  )

  settle_back-start :
      (s : S) (r : Range) (b : NodeBounds) (c : Cursor)
      → r.bounds ≡ some b
      → address c ≡ some (start_address b)
      → settle_back store r c s
        ≡ some (record r { cursor = detach r.cursor; back_cursor = detach c }, s)
  unfolding settle_back address is_attached
  settle_back-start s r b c bounds at_start =
      ground (arith, bounds, at_start, address_eq_refl (start_address b))

  -- If `next_back` yields `e` and the back cursor then stands at the inclusive start, the range is
  -- exhausted on both sides: the entry at the start is not yielded.
  pub next_back-start :
      (s : S) (r : Range) (b : NodeBounds) (c : Cursor) (e : K × V)
      → r.bounds ≡ some b
      → peek_back store r s ≡ some (some e, s)
      → Cursor.advance_back store r.back_cursor s ≡ some (c, s)
      → address c ≡ some (start_address b)
      → (r' : Range) × (next_back store r s ≡ some ((r', some e), s))
        × (next_back store r' s ≡ some ((r', none), s))
        × (next store r' s ≡ some ((r', none), s))
  unfolding next next_back advance_back detach peek peek_back key_value
  next_back-start s r b c e bounds yields moves at_start = (
    record r { cursor = detach r.cursor; back_cursor = detach c },
    rw (yields, moves, settle_back-start s r b c bounds at_start),
    refl,
    refl,
  )

  settle-past :
      (s : S) (r : Range) (b : NodeBounds) (c : Cursor) (node : Option NodePtr)
      → c.node ≡ node
      → r.bounds ≡ some b
      → (address c ≡ some (end_address b) → ⊥)
      → (r' : Range) × (settle store r c s ≡ some (r', s)) × (r'.cursor ≡ c) × (r'.bounds ≡ some b)
  unfolding settle address is_attached
  settle-past s r b c none at bounds past =
      (record r { cursor = c; back_cursor = detach r.back_cursor }, rw at refl, refl, bounds)
  settle-past s r b c (some p) at bounds past =
      let apart : address_eq (some (p, c.index)) (some (end_address b)) ≡ false =
        address_eq-apart (p, c.index) (end_address b) (λ same. past (rw at (ap some same))) in
      (record r { cursor = c }, ground (arith, at, bounds, apart), refl, bounds)

  -- The cursor `d` is where the cursor `c` comes to after one step or more.
  pub data Behind (s : S) : Cursor → Cursor → Type 0 where
    one_step : {c d : Cursor} → Cursor.advance store c s ≡ some (d, s) → Behind s c d
    more_steps :
        {c c' d : Cursor} → Cursor.advance store c s ≡ some (c', s) → Behind s c' d → Behind s c d

  collect-onward :
      (s : S) (r : Range) (b : NodeBounds) (rest : List (K × V)) (fuel : ℕ)
      → r.bounds ≡ some b
      → Ahead store s r.cursor rest
      → ((d : Cursor) → Behind s r.cursor d → address d ≡ some (end_address b) → ⊥)
      → length rest < fuel
      → collect store fuel r s ≡ some (rest, s)
  unfolding collect next peek advance
  collect-onward s r b rest zero bounds ahead past lt = absurd (omega arith)
  collect-onward s r b [] (suc fuel) bounds ahead past lt = rw (Ahead-done store s r.cursor ahead)
  collect-onward s r b (e ∷ rest) (suc fuel) bounds ahead past lt =
      let step = Ahead-Yields store s r.cursor e rest ahead in
      let (r', settles, there, bounds') =
        settle-past s r b step.c' step.c'.node refl bounds (past step.c' (one_step step.moves)) in
      rw (
        step.reads,
        step.moves,
        settles,
        collect-onward s r' b rest fuel bounds'
            (subst (λ c. Ahead store s c rest) (sym there) step.ahead)
            (λ d behind. past d (more_steps step.moves (subst (λ c. Behind s c d) there behind)))
            (omega arith),
      )

  -- If a range starts at its end, then it does not stop behind the one entry that it should yield: if the
  -- entries from there on to the last leaf are `es`, and the cursor does not come to the end again on
  -- its way, then the range yields all of `es`.
  pub range_of-past_end :
      (s : S) (b : NodeBounds) (n : Node K V) (es : List (K × V)) (fuel : ℕ)
      → start_address b ≡ end_address b
      → store.deref b.start_node s ≡ some n
      → b.start_index < n.len
      → Ahead store s (record { node = some b.start_node; index = b.start_index }) es
      → ((d : Cursor)
          → Behind s (record { node = some b.start_node; index = b.start_index }) d
          → address d ≡ some (end_address b)
          → ⊥)
      → length es < fuel
      → (r : Range) × (range_of store (some b) s ≡ some (r, s))
        × (collect store fuel r s ≡ some (es, s))
  unfolding range_of cursor_at validate start_address end_address
  range_of-past_end s b n es fuel single live within ahead past enough =
      let c : Cursor = record { node = some b.start_node; index = b.start_index } in
      let r : Range = record {
        cursor = c;
        back_cursor = record { node = some b.end_node; index = b.end_index };
        bounds = some b;
      } in
      let live' : store.deref b.end_node s ≡ some n =
        subst (λ p. store.deref p s ≡ some n) (ap (λ a. a.0) single) live in
      let within' : b.end_index < n.len = subst (λ i. i < n.len) (ap (λ a. a.1) single) within in
      (
        r,
        rw
            (
              as_ref-live store live,
              lt→ltb b.start_index n.len within,
              as_ref-live store live',
              lt→ltb b.end_index n.len within',
            )
            refl,
        collect-onward s r b es fuel refl ahead past enough,
      )
