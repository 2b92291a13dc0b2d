-- ===== src/Tree/Cut.antt =====
-- A run of entries is cut in two, with a key between the parts.
use btree_forest_arena.Prelude.{
  ℕ, zero, suc, ◌<◌, ◌≡◌, sym, ap, subst, inl, inr, some, List, [], ◌∷◌, ◌++◌, concat, arith,
  length, get_elem?, set, insert_at, All, All-append, All-append_left, All-append_right,
}
use mathlib.Core.List.{append-nil, append_assoc}
use btree_forest_arena.Prelude.Order.{Ord, ◌≺◌, ◌≼◌}
use btree_forest_arena.Tree.Edit.{All-weaken}
use btree_forest_arena.Tree.Order.{IsSorted, IsParted}

module _ {A : Type 0} where
  pub All-insert_at :
      (P : A → Type 0) (xs : List A) (i : ℕ) (a : A) → P a → All P xs → All P (insert_at i a xs)
  All-insert_at P xs zero a p h = (p, h)
  All-insert_at P [] (suc i) a p h = (p, tt)
  All-insert_at P (x ∷ xs) (suc i) a p h = (h.0, All-insert_at P xs i a p h.1)

  All-run :
      (P : A → Type 0) (xss : List (List A)) (i : ℕ) {ys : List A} (xs : List A)
      → get_elem? xss i ≡ some ys
      → All P (concat (set xss i xs))
      → All P xs
  All-run P [] i xs at h = cc
  All-run P (zs ∷ xss) zero xs at h = All-append_left P xs (concat xss) h
  All-run P (zs ∷ xss) (suc i) xs at h =
      All-run P xss i xs at (All-append_right P zs (concat (set xss i xs)) h)

  -- The two parts in place of the run.
  pub concat-cut :
      (xss : List (List A)) (i : ℕ) {zs : List A} (xs ys : List A)
      → get_elem? xss i ≡ some zs
      → concat (insert_at (suc i) ys (set xss i xs)) ≡ concat (set xss i (xs ++ ys))
  concat-cut [] i xs ys at = cc
  concat-cut (zs ∷ xss) zero xs ys at = sym (append_assoc xs ys (concat xss))
  concat-cut (zs ∷ xss) (suc i) xs ys at = ap (λ r. zs ++ r) (concat-cut xss i xs ys at)

module _ {K : Type 0} ⦃o : Ord K⦄ where
  le-lt : (x y z : K) → x ≼ y → y ≺ z → x ≺ z
  le-lt x y z (inl h) k = o.lt_trans x y z h k
  le-lt x y z (inr h) k = o.eq_lt_trans x y z h k

  lt-le : (x y z : K) → x ≺ y → y ≼ z → x ≺ z
  lt-le x y z h (inl k) = o.lt_trans x y z h k
  lt-le x y z h (inr k) = o.lt_eq_trans x y z h k

module _ {K V : Type 0} ⦃o : Ord K⦄ where
  -- The key stands between the parts, and neither is empty.
  pub record Cut (k : K) (xs ys : List (K × V)) : Type 0 where
    pub low : All (λ e. e.0 ≺ k) xs
    pub high : All (λ e. k ≼ e.0) ys
    pub some_low : 0 < length xs
    pub some_high : 0 < length ys

  -- Keys with an entry between them.
  pub between :
      (x y : K) (es : List (K × V))
      → 0 < length es
      → All (λ e. x ≼ e.0) es
      → All (λ e. e.0 ≺ y) es
      → x ≺ y
  between x y [] some_entry h k = absurd (omega arith)
  between x y (e ∷ es) some_entry h k = le-lt x e.0 y h.0 k.0

  -- The keys and the runs after the cut.
  pub record CutRuns (ks : List K) (ess : List (List (K × V))) (i : ℕ) (k : K)
      (xs ys : List (K × V)) : Type 0 where
    pub sorted : IsSorted (insert_at i k ks)
    pub parted : IsParted (insert_at i k ks) (insert_at (suc i) ys (set ess i xs))

  pub Cut-CutRuns :
      (ks : List K) (ess : List (List (K × V))) (i : ℕ) (k : K) {zs : List (K × V)}
      (xs ys : List (K × V))
      → get_elem? ess i ≡ some zs
      → IsSorted ks
      → IsParted ks (set ess i (xs ++ ys))
      → Cut k xs ys
      → CutRuns ks ess i k xs ys
  Cut-CutRuns ks [] i k xs ys at s p c = cc
  Cut-CutRuns [] (es ∷ []) zero k xs ys at s p c = record {
    sorted = (tt, tt);
    parted = (c.low, subst (All (λ e. k ≼ e.0)) (sym (append-nil ys)) c.high, tt);
  }
  Cut-CutRuns [] (es ∷ fs ∷ ess) zero k xs ys at s p c = absurd p
  Cut-CutRuns (x ∷ ks) (es ∷ ess) zero k xs ys at s p c =
      let below = All-append_right (λ e. e.0 ≺ x) xs ys p.0 in
      let less = between k x ys c.some_high c.high below in
      record {
        sorted = (
          (less, All-weaken (λ y. x ≺ y) (λ y. k ≺ y) ks (λ y h. o.lt_trans k x y less h) s.0),
          s,
        );
        parted = (
          c.low,
          All-append (λ e. k ≼ e.0) ys (concat ess) c.high
              (All-weaken (λ e. x ≼ e.0) (λ e. k ≼ e.0) (concat ess)
                (λ e h. inl (lt-le k x e.0 less h)) p.1),
          (below, p.1, p.2),
        );
      }
  Cut-CutRuns [] (es ∷ []) (suc i) k xs ys at s p c = cc
  Cut-CutRuns [] (es ∷ fs ∷ ess) (suc zero) k xs ys at s p c = absurd p
  Cut-CutRuns [] (es ∷ fs ∷ ess) (suc (suc i)) k xs ys at s p c = absurd p
  Cut-CutRuns (x ∷ ks) (es ∷ ess) (suc i) k xs ys at s p c =
      let rest = Cut-CutRuns ks ess i k xs ys at s.1 p.2 c in
      let less =
        between x k xs c.some_low
          (All-append_left (λ e. x ≼ e.0) xs ys (All-run (λ e. x ≼ e.0) ess i (xs ++ ys) at p.1))
          c.low in
      record {
        sorted = (All-insert_at (λ y. x ≺ y) ks i k less s.0, rest.sorted);
        parted =
            (p.0, subst (All (λ e. x ≼ e.0)) (sym (concat-cut ess i xs ys at)) p.1, rest.parted);
      }
