-- ===== src/Tree/Erase.antt =====
-- Removal from an ordered list of entries.
use Prim.Native.Nat.Ordering.{lt, eq, gt}
use btree_forest_arena.Prelude.{
  ◌≡◌, refl, inl, inr, none, some, List, [], ◌∷◌, ◌++◌, map, arith, get_elem?, remove_at, All,
}
use btree_forest_arena.Prelude.Order.{Ord, ◌≺◌, ◌≼◌, Ordering-cases}
use btree_forest_arena.Search.{Found, ok, err}
use btree_forest_arena.Search.Linear.{scan, shift}
use btree_forest_arena.Node.View.{key_of}
use btree_forest_arena.Tree.Defs.{lookup}
use btree_forest_arena.Tree.Edit.{Edit}
use btree_forest_arena.Tree.Order.{IsSorted, probe}

-- Without the first entry with an equal key.
abbrev pub erase : {K V : Type 0} ⦃o : Ord K⦄ → K → List (K × V) → List (K × V)
erase k [] = []
erase ⦃o⦄ k (e ∷ es) = elim (o.cmp e.0 k) [ lt ↦ e ∷ erase ⦃o = o⦄ k es | eq ↦ es | gt ↦ e ∷ es ]

module _ {K V : Type 0} ⦃o : Ord K⦄ (k : K) where
  erase-lt : (e : K × V) (es : List (K × V)) → o.cmp e.0 k ≡ lt → erase k (e ∷ es) ≡ e ∷ erase k es
  erase-lt e es h = ground (arith, h)

  erase-eq : (e : K × V) (es : List (K × V)) → o.cmp e.0 k ≡ eq → erase k (e ∷ es) ≡ es
  erase-eq e es h = ground (arith, h)

  erase-gt : (e : K × V) (es : List (K × V)) → o.cmp e.0 k ≡ gt → erase k (e ∷ es) ≡ e ∷ es
  erase-gt e es h = ground (arith, h)

  erase-All : (Q : K × V → Type 0) (es : List (K × V)) → All Q es → All Q (erase k es)
  erase-All Q [] h = tt
  erase-All Q (e ∷ es) h = elim (Ordering-cases (o.cmp e.0 k)) [
    | inl below ↦ rw (erase-lt e es below) (h.0, erase-All Q es h.1)
    | inr (inl same) ↦ rw (erase-eq e es same) h.1
    | inr (inr above) ↦ rw (erase-gt e es above) h
  ]

  erase-All_keys :
      (Q : K → Type 0) (es : List (K × V)) → All Q (map key_of es) → All Q (map key_of (erase k es))
  erase-All_keys Q [] h = tt
  erase-All_keys Q (e ∷ es) h = elim (Ordering-cases (o.cmp e.0 k)) [
    | inl below ↦ rw (erase-lt e es below) (h.0, erase-All_keys Q es h.1)
    | inr (inl same) ↦ rw (erase-eq e es same) h.1
    | inr (inr above) ↦ rw (erase-gt e es above) h
  ]

  erase-IsSorted :
      (es : List (K × V)) → IsSorted (map key_of es) → IsSorted (map key_of (erase k es))
  erase-IsSorted [] h = tt
  erase-IsSorted (e ∷ es) h = elim (Ordering-cases (o.cmp e.0 k)) [
    | inl below ↦
        rw (erase-lt e es below) (erase-All_keys (λ y. e.0 ≺ y) es h.0, erase-IsSorted es h.1)
    | inr (inl same) ↦ rw (erase-eq e es same) h.1
    | inr (inr above) ↦ rw (erase-gt e es above) h
  ]

  erase-append_below :
      (xs ys : List (K × V)) → All (λ e. e.0 ≺ k) xs → erase k (xs ++ ys) ≡ xs ++ erase k ys
  erase-append_below [] ys h = refl
  erase-append_below (x ∷ xs) ys h = ground (arith, h.0, erase-append_below xs ys h.1)

  erase-append_above :
      (xs ys : List (K × V))
      → All (λ e. o.cmp e.0 k ≡ gt) ys
      → erase k (xs ++ ys) ≡ erase k xs ++ ys
  erase-append_above [] [] h = refl
  erase-append_above [] (y ∷ ys) h = ground (arith, h.0)
  erase-append_above (x ∷ xs) ys h = ground (arith, erase-append_above xs ys h)

  pub erase-Edit : Edit {K = K} {V = V} k (erase k)
  erase-Edit = record {
    keeps_below = λ x es less h. erase-All (λ e. e.0 ≺ x) es h;
    keeps_above = λ x es le h. erase-All (λ e. x ≼ e.0) es h;
    keeps_order = erase-IsSorted;
    skips_below = erase-append_below;
    skips_above = erase-append_above;
  }

  -- A list without an entry with an equal key stays.
  pub erase-absent : (es : List (K × V)) → lookup es k ≡ none → erase k es ≡ es
  erase-absent [] h = refl
  erase-absent (e ∷ es) h = ground (arith, erase-absent es)

  -- At the place that a scan of the keys gives, the entry is what `erase` takes out.
  abbrev pub Takes : List (K × V) → Found → Type 0
  Takes es (ok i) =
      (e : K × V) × (get_elem? es i ≡ some e)
      × (remove_at i es ≡ erase k es)
      × (lookup es k ≡ some e)
  Takes es (err i) = Unit

  pub scan-Takes : (es : List (K × V)) → Takes es (scan (probe k) (map key_of es))
  scan-Takes [] = tt
  scan-Takes (e ∷ es) = elim (Ordering-cases (o.cmp e.0 k)) [
    | inl below ↦ rw (below, scan) (later (scan (probe k) (map key_of es)) below (scan-Takes es))
    | inr (inl same) ↦ rw (same, scan) (e, refl, ground (arith, same), ground (arith, same))
    | inr (inr above) ↦ rw (above, scan) tt
  ]
    where
      later : (r : Found) → o.cmp e.0 k ≡ lt → Takes es r → Takes (e ∷ es) (shift r)
      later (ok i) below (found, at, takes, is) =
          (found, at, ground (arith, takes), ground (arith, is))
      later (err i) below h = tt
