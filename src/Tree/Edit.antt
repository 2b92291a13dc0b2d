-- ===== src/Tree/Edit.antt =====
-- Edits of a list of entries at one key, and of the run of entries that a search leads to.
use Prim.Native.Nat.Ordering.{lt, eq, gt}
use btree_forest_arena.Prelude.{
  ℕ, suc, ◌≡◌, refl, ◌∙◌, sym, ap, subst, inl, inr, some, List, [], ◌∷◌, ◌++◌, map, concat, arith,
  get_elem?, set, All,
}
use mathlib.Core.List.{append-nil}
use btree_forest_arena.Prelude.Order.{Ord, ◌≺◌, ◌≼◌, Ordering-cases}
use btree_forest_arena.Search.{Found, ok, err}
use btree_forest_arena.Search.Linear.{scan, shift}
use btree_forest_arena.Node.View.{key_of}
use btree_forest_arena.Tree.Order.{IsSorted, IsParted, probe, scan_above, above_sorted}
use btree_forest_arena.Map.{child_index}

-- `f` changes the entries with the key `k` only, in order.
pub record Edit {K V : Type 0} ⦃o : Ord K⦄ (k : K) (f : List (K × V) → List (K × V)) : Type 0 where
  pub keeps_below :
      (x : K) (es : List (K × V)) → k ≺ x → All (λ e. e.0 ≺ x) es → All (λ e. e.0 ≺ x) (f es)
  pub keeps_above :
      (x : K) (es : List (K × V)) → x ≼ k → All (λ e. x ≼ e.0) es → All (λ e. x ≼ e.0) (f es)
  pub keeps_order : (es : List (K × V)) → IsSorted (map key_of es) → IsSorted (map key_of (f es))
  pub skips_below : (xs ys : List (K × V)) → All (λ e. e.0 ≺ k) xs → f (xs ++ ys) ≡ xs ++ f ys
  pub skips_above :
      (xs ys : List (K × V)) → All (λ e. o.cmp e.0 k ≡ gt) ys → f (xs ++ ys) ≡ f xs ++ ys

module _ where
  pub All-weaken :
      {A : Type 0} (P Q : A → Type 0) (xs : List A) → ((x : A) → P x → Q x) → All P xs → All Q xs
  All-weaken P Q [] f h = tt
  All-weaken P Q (x ∷ xs) f h = (f x h.0, All-weaken P Q xs f h.1)

module _ {K V : Type 0} ⦃o : Ord K⦄ {k : K} {f : List (K × V) → List (K × V)}
    (edit : Edit k f) where
  -- The run behind the edge that a search follows takes the entry.
  pub record Placed (ks : List K) (ess : List (List (K × V))) (i : ℕ) : Type 0 where
    pub run : List (K × V)
    pub at : get_elem? ess i ≡ some run
    pub parted : IsParted ks (set ess i (f run))
    pub joined : concat (set ess i (f run)) ≡ f (concat ess)

  everything_above :
      (x : K) (es : List (K × V)) → k ≺ x → All (λ e. x ≼ e.0) es → All (λ e. o.cmp e.0 k ≡ gt) es
  everything_above x es less h =
      All-weaken (λ e. x ≼ e.0) (λ e. o.cmp e.0 k ≡ gt) es
        (λ e l. elim l [
          | inl below ↦ o.gt_of_lt k e.0 (o.lt_trans k x e.0 less below)
          | inr same ↦ o.gt_of_lt k e.0 (o.lt_eq_trans k x e.0 less same)
        ])
        h

  behind-Placed :
      (x : K) (ks : List K) (es : List (K × V)) (ess : List (List (K × V))) (i : ℕ)
      → IsParted (x ∷ ks) (es ∷ ess)
      → All (λ e. e.0 ≺ k) es
      → x ≼ k
      → Placed ks ess i
      → Placed (x ∷ ks) (es ∷ ess) (suc i)
  behind-Placed x ks es ess i p less le rest = record {
    run = rest.run;
    at = rest.at;
    parted = (
      p.0,
      subst (All (λ e. x ≼ e.0)) (sym rest.joined) (edit.keeps_above x (concat ess) le p.1),
      rest.parted,
    );
    joined = ap (λ xs. es ++ xs) rest.joined ∙ sym (edit.skips_below es (concat ess) less);
  }

  child_index-shift : (r : Found) → suc (child_index r) ≡ child_index (shift r)
  child_index-shift (ok i) = omega arith
  child_index-shift (err i) = refl

  scan-lt :
      (x : K) (ks : List K) → o.cmp x k ≡ lt → scan (probe k) (x ∷ ks) ≡ shift (scan (probe k) ks)
  scan-lt x ks h = ground (arith, h)

  scan-eq : (x : K) (ks : List K) → o.cmp x k ≡ eq → scan (probe k) (x ∷ ks) ≡ ok 0
  scan-eq x ks h = ground (arith, h)

  scan-gt : (x : K) (ks : List K) → o.cmp x k ≡ gt → scan (probe k) (x ∷ ks) ≡ err 0
  scan-gt x ks h = ground (arith, h)

  pub child-Placed :
      (ks : List K) (ess : List (List (K × V)))
      → IsSorted ks
      → IsParted ks ess
      → Placed ks ess (child_index (scan (probe k) ks))
  child-Placed ks [] s p = absurd p
  child-Placed [] (es ∷ []) s p = record {
    run = es;
    at = refl;
    parted = tt;
    joined = append-nil (f es) ∙ ap f (sym (append-nil es));
  }
  child-Placed [] (es ∷ fs ∷ ess) s p = absurd p
  child-Placed (x ∷ ks) (es ∷ ess) s p = elim (Ordering-cases (o.cmp x k)) [
    | inl below ↦
        subst (Placed (x ∷ ks) (es ∷ ess))
          (child_index-shift (scan (probe k) ks) ∙ ap child_index (sym (scan-lt x ks below)))
          (behind-Placed x ks es ess (child_index (scan (probe k) ks)) p
            (All-weaken (λ e. e.0 ≺ x) (λ e. e.0 ≺ k) es (λ e l. o.lt_trans e.0 x k l below) p.0)
            (inl below) (child-Placed ks ess s.1 p.2))
    | inr (inl equal) ↦
        subst (Placed (x ∷ ks) (es ∷ ess)) {x = 1} (ap child_index (sym (scan-eq x ks equal))) (
          behind-Placed x ks es ess 0 p
            (All-weaken (λ e. e.0 ≺ x) (λ e. e.0 ≺ k) es (λ e l. o.lt_eq_trans e.0 x k l equal) p.0)
            (inr equal)
            (subst (Placed ks ess)
              (ap child_index (scan_above k ks (above_sorted x k ks (inl equal) s.0)))
              (child-Placed ks ess s.1 p.2)))
    | inr (inr above) ↦
        let less = o.lt_of_gt x k above in
        subst (Placed (x ∷ ks) (es ∷ ess)) {x = 0} (ap child_index (sym (scan-gt x ks above)))
          (record {
            run = es;
            at = refl;
            parted = (edit.keeps_below x es less p.0, p.1, p.2);
            joined =
                sym (edit.skips_above es (concat ess) (everything_above x (concat ess) less p.1));
          })
  ]
