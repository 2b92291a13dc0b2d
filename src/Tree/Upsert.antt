-- ===== src/Tree/Upsert.antt =====
-- Insertion into an ordered list of entries.
use Prim.Native.Nat.Ordering.{lt, eq, gt}
use btree_forest_arena.Prelude.{◌≡◌, refl, inl, inr, List, [], ◌∷◌, ◌++◌, map, arith, All}
use btree_forest_arena.Prelude.Order.{Ord, ◌≺◌, ◌≼◌, Ordering-cases}
use btree_forest_arena.Node.View.{key_of}
use btree_forest_arena.Tree.Edit.{Edit, All-weaken}
use btree_forest_arena.Tree.Order.{IsSorted}

-- The entry takes the place of the first one with an equal key, whose key stays, or else its place in
-- the order.
abbrev pub upsert : {K V : Type 0} ⦃o : Ord K⦄ → K → V → List (K × V) → List (K × V)
upsert k v [] = (k, v) ∷ []
upsert ⦃o⦄ k v (e ∷ es) = elim (o.cmp e.0 k) [
  | lt ↦ e ∷ upsert ⦃o = o⦄ k v es
  | eq ↦ (e.0, v) ∷ es
  | gt ↦ (k, v) ∷ e ∷ es
]

module _ {K V : Type 0} ⦃o : Ord K⦄ (k : K) (v : V) where
  upsert-lt :
      (e : K × V) (es : List (K × V)) → o.cmp e.0 k ≡ lt → upsert k v (e ∷ es) ≡ e ∷ upsert k v es
  upsert-lt e es h = ground (arith, h)

  upsert-eq :
      (e : K × V) (es : List (K × V)) → o.cmp e.0 k ≡ eq → upsert k v (e ∷ es) ≡ (e.0, v) ∷ es
  upsert-eq e es h = ground (arith, h)

  upsert-gt :
      (e : K × V) (es : List (K × V)) → o.cmp e.0 k ≡ gt → upsert k v (e ∷ es) ≡ (k, v) ∷ e ∷ es
  upsert-gt e es h = ground (arith, h)

  pub upsert-All :
      (Q : K → Type 0) (es : List (K × V))
      → Q k
      → All (λ e. Q e.0) es
      → All (λ e. Q e.0) (upsert k v es)
  upsert-All Q [] q h = (q, tt)
  upsert-All Q (e ∷ es) q h = elim (Ordering-cases (o.cmp e.0 k)) [
    | inl below ↦ rw (upsert-lt e es below) (h.0, upsert-All Q es q h.1)
    | inr (inl same) ↦ rw (upsert-eq e es same) (h.0, h.1)
    | inr (inr above) ↦ rw (upsert-gt e es above) (q, (h.0, h.1))
  ]

  upsert-append_below :
      (xs ys : List (K × V)) → All (λ e. e.0 ≺ k) xs → upsert k v (xs ++ ys) ≡ xs ++ upsert k v ys
  upsert-append_below [] ys h = refl
  upsert-append_below (x ∷ xs) ys h = ground (arith, h.0, upsert-append_below xs ys h.1)

  upsert-append_above :
      (xs ys : List (K × V))
      → All (λ e. o.cmp e.0 k ≡ gt) ys
      → upsert k v (xs ++ ys) ≡ upsert k v xs ++ ys
  upsert-append_above [] [] h = refl
  upsert-append_above [] (y ∷ ys) h = ground (arith, h.0)
  upsert-append_above (x ∷ xs) ys h = ground (arith, upsert-append_above xs ys h)

  All-map : (P : K → Type 0) (es : List (K × V)) → All P (map key_of es) → All (λ e. P e.0) es
  All-map P [] h = tt
  All-map P (e ∷ es) h = (h.0, All-map P es h.1)

  All-map_back : (P : K → Type 0) (es : List (K × V)) → All (λ e. P e.0) es → All P (map key_of es)
  All-map_back P [] h = tt
  All-map_back P (e ∷ es) h = (h.0, All-map_back P es h.1)

  pub upsert-IsSorted :
      (es : List (K × V)) → IsSorted (map key_of es) → IsSorted (map key_of (upsert k v es))
  upsert-IsSorted [] h = (tt, tt)
  upsert-IsSorted (e ∷ es) h = elim (Ordering-cases (o.cmp e.0 k)) [
    | inl below ↦ rw (upsert-lt e es below) (
      All-map_back (λ y. e.0 ≺ y) (upsert k v es)
          (upsert-All (λ y. e.0 ≺ y) es below (All-map (λ y. e.0 ≺ y) es h.0)),
      upsert-IsSorted es h.1,
    )
    | inr (inl same) ↦ rw (upsert-eq e es same) (h.0, h.1)
    | inr (inr above) ↦
        let less = o.lt_of_gt e.0 k above in
        rw (upsert-gt e es above) (
          (
            less,
            All-weaken (λ y. e.0 ≺ y) (λ y. k ≺ y) (map key_of es)
                (λ y l. o.lt_trans k e.0 y less l) h.0,
          ),
          h,
        )
  ]

  pub upsert-Edit : Edit k (upsert k v)
  upsert-Edit = record {
    keeps_below = λ x es less h. upsert-All (λ y. y ≺ x) es less h;
    keeps_above = λ x es le h. upsert-All (λ y. x ≼ y) es le h;
    keeps_order = upsert-IsSorted;
    skips_below = upsert-append_below;
    skips_above = upsert-append_above;
  }
