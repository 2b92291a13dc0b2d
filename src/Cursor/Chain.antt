-- ===== src/Cursor/Chain.antt =====
-- The entries that lie ahead of a cursor.
use btree_forest_arena.Prelude.{
  ℕ, zero, suc, ◌+◌, ◌-◌, ◌<◌, ◌≡◌, refl, ◌∙◌, sym, ap, inl, inr, Option, none, some, List, [], ◌∷◌,
  ◌++◌, concat, arith, subst, ltb→le, length, get_elem?, get_elem?-some, drop, lt→ltb, ltb, ltb→lt,
  Bool-cases,
}
use btree_forest_arena.Store.{NodePtr, Slab}
use btree_forest_arena.Store.Access.{as_ref-live}
use btree_forest_arena.Node.{Node, next, leaf_of}
use btree_forest_arena.Node.View.{IsLeaf}
use btree_forest_arena.Map.Lookup.Retrieve.{key_val_of_IsLeaf}
use btree_forest_arena.Cursor.{Cursor, advance, key_value}

module _ {S K V : Type 0} (store : Slab S (Node K V)) where
  -- The leaves that the links lead to from `start` on have the runs of entries `ess`, none empty.
  abbrev pub Chain : S → Option NodePtr → List (List (K × V)) → Type 0
  Chain s start [] = start ≡ none
  Chain s start (es ∷ ess) =
      (p : NodePtr) × (n : Node K V) × (back : Option NodePtr) × (after : Option NodePtr) × (start
        ≡ some p)
      × (store.deref p s ≡ some n)
      × IsLeaf n es back after
      × (0 < length es)
      × Chain s after ess

  -- The cursor stands before the entries `rest`.
  pub data Ahead (s : S) (c : Cursor) (rest : List (K × V)) : Type 0 where
    at_end : c.node ≡ none → rest ≡ [] → Ahead s c rest
    in_leaf :
        (es : List (K × V)) (ess : List (List (K × V)))
        → Chain s c.node (es ∷ ess)
        → c.index < length es
        → rest ≡ drop c.index es ++ concat ess
        → Ahead s c rest

  pub Chain-Ahead :
      (s : S) (start : Option NodePtr) (ess : List (List (K × V)))
      → Chain s start ess
      → Ahead s (record { node = start; index = 0 }) (concat ess)
  Chain-Ahead s start [] h = at_end h refl
  Chain-Ahead s start (es ∷ ess) h = in_leaf es ess h h.7 refl

  drop-get :
      {A : Type 0} (xs : List A) (i : ℕ) {a : A}
      → get_elem? xs i ≡ some a
      → drop i xs ≡ a ∷ drop (i + 1) xs
  drop-get [] i h = cc
  drop-get (x ∷ xs) zero h = cc
  drop-get (x ∷ xs) (suc i) {a} h =
      drop-get xs i h
      ∙ ap (λ j. a ∷ drop j (x ∷ xs)) {x = suc (i + 1)} {y = suc i + 1} (omega arith)

  drop_all : {A : Type 0} (xs : List A) (i : ℕ) → length xs ≡ i → drop i xs ≡ []
  drop_all [] zero h = refl
  drop_all [] (suc i) h = refl
  drop_all (x ∷ xs) zero h = absurd (omega arith)
  drop_all (x ∷ xs) (suc i) h = drop_all xs i (omega arith)

  -- The cursor yields the first entry ahead of it, and moves behind it.
  pub record Yields (s : S) (c : Cursor) (e : K × V) (rest : List (K × V)) : Type 0 where
    pub c' : Cursor
    pub reads : key_value store c s ≡ some (some e, s)
    pub moves : advance store c s ≡ some (c', s)
    pub ahead : Ahead s c' rest

  pub Ahead-Yields :
      (s : S) (c : Cursor) (e : K × V) (rest : List (K × V))
      → Ahead s c (e ∷ rest)
      → Yields s c e rest
  unfolding key_value advance next leaf_of
  Ahead-Yields s c e rest (at_end h nothing) = cc
  Ahead-Yields s c e rest
        (in_leaf es ess (p, n, back, after, at, live, leaf, filled, chain) lt is) =
      let (a, found) = get_elem?-some es c.index lt in
      let split : e ∷ rest ≡ a ∷ (drop (c.index + 1) es ++ concat ess) =
        is ∙ ap (λ xs. xs ++ concat ess) (drop-get es c.index found) in
      let first : a ≡ e = cc in
      let later : rest ≡ drop (c.index + 1) es ++ concat ess = cc in
      let reads : key_value store c s ≡ some (some e, s) =
        rw (at, as_ref-live store live, key_val_of_IsLeaf leaf c.index a found, first) in
      elim (Bool-cases (ltb c.index (n.len - 1))) [
        | inl within ↦ record {
          c' = record c { index = c.index + 1 };
          reads = reads;
          moves =
              rw (at, as_ref-live store live, lt→ltb 0 n.len (omega (arith, leaf.count)), within);
          ahead =
              in_leaf es ess (p, n, back, after, at, live, leaf, filled, chain)
                (omega (arith, leaf.count, ltb→lt c.index (n.len - 1) within)) later;
        }
        | inr past ↦ record {
          c' = record { node = after; index = 0 };
          reads = reads;
          moves = rw (
            at,
            as_ref-live store live,
            lt→ltb 0 n.len (omega (arith, leaf.count)),
            past,
            leaf.is_leaf,
            leaf.after,
          );
          ahead =
              subst (Ahead s (record { node = after; index = 0 }))
                (sym (
                  later
                  ∙ ap (λ xs. xs ++ concat ess)
                      (drop_all es (c.index + 1)
                        (omega (arith, leaf.count, ltb→le c.index (n.len - 1) past)))))
                (Chain-Ahead s after ess chain);
        }
      ]

  pub Ahead-done : (s : S) (c : Cursor) → Ahead s c [] → key_value store c s ≡ some (none, s)
  unfolding key_value
  Ahead-done s c (at_end h nothing) = rw h
  Ahead-done s c (in_leaf es ess h lt is) =
      let (a, found) = get_elem?-some es c.index lt in
      let split : [] ≡ a ∷ (drop (c.index + 1) es ++ concat ess) =
        is ∙ ap (λ xs. xs ++ concat ess) (drop-get es c.index found) in
      absurd cc
