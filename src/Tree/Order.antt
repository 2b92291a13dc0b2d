-- ===== src/Tree/Order.antt =====
-- The order of the keys in a tree, and that the edge chosen by a search leads to the key.
use Prim.Native.Nat.{Ordering}
use Prim.Native.Nat.Ordering.{lt, eq, gt}
use btree_forest_arena.Prelude.{
  ℕ, zero, suc, ◌+◌, ◌≡◌, refl, ◌⊎◌, inl, inr, none, some, List, [], ◌∷◌, ◌++◌, map, concat, arith,
  get_elem?, All, subst, ◌∙◌,
}
use mathlib.Core.List.{append-nil}
use btree_forest_arena.Prelude.Order.{Ord, ◌≺◌, ◌≼◌, Ordering-cases}
use btree_forest_arena.Search.{Found, ok, err}
use btree_forest_arena.Search.Linear.{scan, shift, IsProbe}
use btree_forest_arena.Node.View.{key_of}
use btree_forest_arena.Tree.Defs.{Tree, entries, lookup}
use btree_forest_arena.Map.{child_index}

module _ {K : Type 0} ⦃o : Ord K⦄ where
  -- Strictly ascending.
  abbrev pub IsSorted : List K → Type 0
  IsSorted [] = Unit
  IsSorted (x ∷ xs) = All (λ y. x ≺ y) xs × IsSorted xs

  -- The probe of `find`.
  abbrev pub probe : K → K → Ordering
  probe k x = o.cmp x k

  pub above_sorted :
      (x k : K) (xs : List K)
      → (o.cmp x k ≡ eq) ⊎ (o.cmp x k ≡ gt)
      → All (λ y. x ≺ y) xs
      → All (λ y. probe k y ≡ gt) xs
  above_sorted x k [] c h = tt
  above_sorted x k (y ∷ xs) (inl same) h = (
    o.gt_of_lt k y (o.eq_lt_trans k x y (o.eq_of_eq x k same) h.0),
    above_sorted x k xs (inl same) h.1,
  )
  above_sorted x k (y ∷ xs) (inr above) h = (
    o.gt_of_lt k y (o.lt_trans k x y (o.lt_of_gt x k above) h.0),
    above_sorted x k xs (inr above) h.1,
  )

  pub IsSorted-IsProbe : (k : K) (xs : List K) → IsSorted xs → IsProbe (probe k) xs
  IsSorted-IsProbe k [] h = tt
  IsSorted-IsProbe k (x ∷ xs) h = elim (Ordering-cases (o.cmp x k)) [
    | inl below ↦ (inl below, IsSorted-IsProbe k xs h.1)
    | inr rest ↦ (inr (above_sorted x k xs rest h.0), IsSorted-IsProbe k xs h.1)
  ]

  pub scan_above : (k : K) (ks : List K) → All (λ y. probe k y ≡ gt) ks → scan (probe k) ks ≡ err 0
  scan_above k [] h = refl
  scan_above k (y ∷ ks) h = ground (arith, h.0)

module _ {K V : Type 0} ⦃o : Ord K⦄ where
  -- The keys `ks` separate the runs of entries `ess`, of which there is one more.
  abbrev pub IsParted : List K → List (List (K × V)) → Type 0
  IsParted ks [] = ⊥
  IsParted [] (es ∷ []) = Unit
  IsParted [] (es ∷ fs ∷ ess) = ⊥
  IsParted (k ∷ ks) (es ∷ ess) =
      All (λ e. e.0 ≺ k) es × All (λ e. k ≼ e.0) (concat ess) × IsParted ks ess

module _ (K V : Type 0) ⦃o : Ord K⦄ where
  abbrev pub IsOrdered : (h : ℕ) → Tree K V h → Type 0
  IsOrdered zero t = IsSorted (map key_of t.1)
  IsOrdered (suc h) t =
      IsSorted t.1 × IsParted t.1 (map (entries K V h) t.2) × All (IsOrdered h) t.2

module _ {K V : Type 0} ⦃o : Ord K⦄ where
  lookup-append-none :
      (xs ys : List (K × V)) (k : K) → lookup xs k ≡ none → lookup (xs ++ ys) k ≡ lookup ys k
  lookup-append-none [] ys k h = refl
  lookup-append-none (x ∷ xs) ys k h = ground (arith, lookup-append-none xs ys k)

  lookup-append-below :
      (xs ys : List (K × V)) (k : K) → lookup ys k ≡ none → lookup (xs ++ ys) k ≡ lookup xs k
  lookup-append-below [] ys k h = h
  lookup-append-below (x ∷ xs) ys k h = ground (arith, lookup-append-below xs ys k)

  lookup-none_below :
      (es : List (K × V)) (x k : K) → o.cmp x k ≡ lt → All (λ e. e.0 ≺ x) es → lookup es k ≡ none
  lookup-none_below [] x k c h = refl
  lookup-none_below (e ∷ es) x k c h =
      ground (arith, o.lt_trans e.0 x k h.0 c, lookup-none_below es x k c h.1)

  lookup-none_above :
      (es : List (K × V)) (x k : K) → o.cmp x k ≡ gt → All (λ e. x ≼ e.0) es → lookup es k ≡ none
  lookup-none_above [] x k c h = refl
  lookup-none_above (e ∷ es) x k c (inl less, h) = ground (
    arith,
    o.gt_of_lt k e.0 (o.lt_trans k x e.0 (o.lt_of_gt x k c) less),
    lookup-none_above es x k c h,
  )
  lookup-none_above (e ∷ es) x k c (inr same, h) = ground (
    arith,
    o.gt_of_lt k e.0 (o.lt_eq_trans k x e.0 (o.lt_of_gt x k c) same),
    lookup-none_above es x k c h,
  )

  lookup-none_same_below :
      (es : List (K × V)) (x k : K) → o.cmp x k ≡ eq → All (λ e. e.0 ≺ x) es → lookup es k ≡ none
  lookup-none_same_below [] x k c h = refl
  lookup-none_same_below (e ∷ es) x k c h =
      ground (arith, o.lt_eq_trans e.0 x k h.0 c, lookup-none_same_below es x k c h.1)

  -- The run behind the edge that the search follows has the entry, if any run has it.
  pub lookup-child :
      (ks : List K) (ess : List (List (K × V))) (k : K)
      → IsSorted ks
      → IsParted ks ess
      → (es : List (K × V)) × (get_elem? ess (child_index (scan (probe k) ks)) ≡ some es)
        × (lookup (concat ess) k ≡ lookup es k)
  lookup-child ks [] k s p = absurd p
  lookup-child [] (es ∷ []) k s p = (es, refl, rw append-nil)
  lookup-child [] (es ∷ fs ∷ ess) k s p = absurd p
  lookup-child (x ∷ ks) (es ∷ ess) k s p = elim (Ordering-cases (o.cmp x k)) [
    | inl below ↦
        let (run, at, same) = lookup-child ks ess k s.1 p.2 in
        (
          run,
          ground (arith, shifted (scan (probe k) ks) at),
          lookup-append-none es (concat ess) k (lookup-none_below es x k below p.0) ∙ same,
        )
    | inr (inl equal) ↦
        let (run, at, same) = lookup-child ks ess k s.1 p.2 in
        let start : get_elem? ess 0 ≡ some run =
          rw (scan_above k ks (above_sorted x k ks (inl equal) s.0)) at at in
        (
          run,
          ground (arith, start),
          lookup-append-none es (concat ess) k (lookup-none_same_below es x k equal p.0) ∙ same,
        )
    | inr (inr above) ↦ (
      es,
      ground arith,
      lookup-append-below es (concat ess) k (lookup-none_above (concat ess) x k above p.1),
    )
  ]
    where
      shifted :
          (r : Found) {run : List (K × V)}
          → get_elem? ess (child_index r) ≡ some run
          → get_elem? (es ∷ ess) (child_index (shift r)) ≡ some run
      shifted (ok i) {run} h =
          let next : suc (i + 1) ≡ suc i + 1 = omega arith in
          subst (λ j. get_elem? (es ∷ ess) j ≡ some run) next h
      shifted (err i) h = h
