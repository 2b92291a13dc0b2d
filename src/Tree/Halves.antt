-- ===== src/Tree/Halves.antt =====
-- A sorted run of keys and the runs of entries between them are cut at a key.
use btree_forest_arena.Prelude.{
  ℕ, zero, suc, ◌≡◌, refl, ◌∙◌, sym, ap, subst, some, List, [], ◌∷◌, ◌++◌, concat, get_elem?, take,
  drop, All, All-append, All-append_left, All-append_right, All-get_elem?,
}
use mathlib.Core.List.{append-nil, append_assoc}
use btree_forest_arena.Prelude.Order.{Ord, ◌≺◌, ◌≼◌}
use btree_forest_arena.Tree.Edit.{All-weaken}
use btree_forest_arena.Tree.Order.{IsSorted, IsParted}

module _ {A : Type 0} where
  pub take-drop : (n : ℕ) (xs : List A) → take n xs ++ drop n xs ≡ xs
  take-drop zero xs = refl
  take-drop (suc n) [] = refl
  take-drop (suc n) (x ∷ xs) = ap (λ ys. x ∷ ys) (take-drop n xs)

  pub All-take : (P : A → Type 0) (n : ℕ) (xs : List A) → All P xs → All P (take n xs)
  All-take P zero xs h = tt
  All-take P (suc n) [] h = tt
  All-take P (suc n) (x ∷ xs) h = (h.0, All-take P n xs h.1)

  pub All-drop : (P : A → Type 0) (n : ℕ) (xs : List A) → All P xs → All P (drop n xs)
  All-drop P zero xs h = h
  All-drop P (suc n) [] h = tt
  All-drop P (suc n) (x ∷ xs) h = All-drop P n xs h.1

  All-concat-take :
      (P : A → Type 0) (n : ℕ) (xss : List (List A))
      → All P (concat xss)
      → All P (concat (take n xss))
  All-concat-take P zero xss h = tt
  All-concat-take P (suc n) [] h = tt
  All-concat-take P (suc n) (xs ∷ xss) h =
      All-append P xs (concat (take n xss)) (All-append_left P xs (concat xss) h)
        (All-concat-take P n xss (All-append_right P xs (concat xss) h))

  pub concat-take-drop :
      (n : ℕ) (xss : List (List A)) → concat (take n xss) ++ concat (drop n xss) ≡ concat xss
  concat-take-drop zero xss = refl
  concat-take-drop (suc n) [] = refl
  concat-take-drop (suc n) (xs ∷ xss) =
      append_assoc xs (concat (take n xss)) (concat (drop n xss))
      ∙ ap (λ ys. xs ++ ys) (concat-take-drop n xss)

module _ {K V : Type 0} ⦃o : Ord K⦄ where
  -- The keys and the runs on both sides of the key `k` at place `n`.
  pub record Halves (n : ℕ) (k : K) (ks : List K) (ess : List (List (K × V))) : Type 0 where
    pub left_sorted : IsSorted (take n ks)
    pub right_sorted : IsSorted (drop (suc n) ks)
    pub left_parted : IsParted (take n ks) (take (suc n) ess)
    pub right_parted : IsParted (drop (suc n) ks) (drop (suc n) ess)
    pub low : All (λ e. e.0 ≺ k) (concat (take (suc n) ess))
    pub high : All (λ e. k ≼ e.0) (concat (drop (suc n) ess))

  pub IsParted-Halves :
      (n : ℕ) (k : K) (ks : List K) (ess : List (List (K × V)))
      → get_elem? ks n ≡ some k
      → IsSorted ks
      → IsParted ks ess
      → Halves n k ks ess
  IsParted-Halves n k ks [] at s p = absurd p
  IsParted-Halves n k [] (es ∷ ess) at s p = cc
  IsParted-Halves zero k (x ∷ ks) (es ∷ ess) at s p =
      let same : x ≡ k = cc in
      record {
        left_sorted = tt;
        right_sorted = s.1;
        left_parted = tt;
        right_parted = p.2;
        low =
            subst (λ y. All (λ e. e.0 ≺ y) (es ++ [])) same
              (subst (All (λ e. e.0 ≺ x)) (sym (append-nil es)) p.0);
        high = subst (λ y. All (λ e. y ≼ e.0) (concat ess)) same p.1;
      }
  IsParted-Halves (suc n) k (x ∷ ks) (es ∷ ess) at s p =
      let rest = IsParted-Halves n k ks ess at s.1 p.2 in
      let less : x ≺ k = All-get_elem? (λ y. x ≺ y) ks n s.0 at in
      record {
        left_sorted = (All-take (λ y. x ≺ y) n ks s.0, rest.left_sorted);
        right_sorted = rest.right_sorted;
        left_parted = (p.0, All-concat-take (λ e. x ≼ e.0) (suc n) ess p.1, rest.left_parted);
        right_parted = rest.right_parted;
        low =
            All-append (λ e. e.0 ≺ k) es (concat (take (suc n) ess))
              (All-weaken (λ e. e.0 ≺ x) (λ e. e.0 ≺ k) es (λ e l. o.lt_trans e.0 x k l less) p.0)
              rest.low;
        high = rest.high;
      }
