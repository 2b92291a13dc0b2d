-- ===== src/Map/Insert/Halved.antt =====
-- A full node with a new child is cut at its fifth key into two ordered trees without empty leaves.
use btree_forest_arena.Prelude.{
  ℕ, zero, suc, ◌<◌, ◌≡◌, ◌∙◌, sym, ap, subst, some, List, [], ◌∷◌, ◌++◌, map, map-take, map-drop,
  concat, arith, length, length-append, get_elem?, take, drop, All,
}
use btree_forest_arena.Prelude.Order.{Ord, ◌≺◌, ◌≼◌}
use btree_forest_arena.Store.{NodePtr}
use btree_forest_arena.Tree.{Tree, entries}
use btree_forest_arena.Tree.Order.{IsParted, IsOrdered}
use btree_forest_arena.Tree.Cut.{Cut}
use btree_forest_arena.Tree.Halves.{IsParted-Halves, All-take, All-drop, concat-take-drop}
use btree_forest_arena.Map.Insert.Grow.{IsFilled}

module _ (K V : Type 0) ⦃o : Ord K⦄ where
  -- Every tree has an entry, if every leaf has.
  pub filled-some :
      (h : ℕ) (t : Tree K V h) → IsOrdered K V h t → IsFilled K V h t → 0 < length (entries K V h t)
  filled-some zero t ord filled = filled
  filled-some (suc h) (p, ks, []) ord filled = absurd ord.1
  filled-some (suc h) (p, ks, c ∷ cs) ord filled = omega (
    arith,
    filled-some h c ord.2.0 filled.0,
    length-append (entries K V h c) (concat (map (entries K V h) cs)),
  )

  module _ (h : ℕ) (p right : NodePtr) (ks : List K) (cs : List (Tree K V h)) (k : K) where
    abbrev pub low_tree : Tree K V (suc h)
    low_tree = (p, take 4 ks, take 5 cs)

    abbrev pub high_tree : Tree K V (suc h)
    high_tree = (right, drop 5 ks, drop 5 cs)

    -- The two halves of a tree that is cut at its fifth key.
    pub record Halved : Type 0 where
      pub left_ordered : IsOrdered K V (suc h) low_tree
      pub right_ordered : IsOrdered K V (suc h) high_tree
      pub left_filled : IsFilled K V (suc h) low_tree
      pub right_filled : IsFilled K V (suc h) high_tree
      pub cut : Cut k (entries K V (suc h) low_tree) (entries K V (suc h) high_tree)
      pub joined :
          entries K V (suc h) low_tree ++ entries K V (suc h) high_tree
          ≡ concat (map (entries K V h) cs)

    pub IsOrdered-Halved :
        get_elem? ks 4 ≡ some k
        → IsOrdered K V (suc h) (p, ks, cs)
        → IsFilled K V (suc h) (p, ks, cs)
        → Halved
    IsOrdered-Halved at ord filled =
        let x = IsParted-Halves 4 k ks (map (entries K V h) cs) at ord.0 ord.1 in
        let first : map (entries K V h) (take 5 cs) ≡ take 5 (map (entries K V h) cs) =
          map-take (entries K V h) 5 cs in
        let second : map (entries K V h) (drop 5 cs) ≡ drop 5 (map (entries K V h) cs) =
          map-drop (entries K V h) 5 cs in
        let left_ord : IsOrdered K V (suc h) low_tree = (
          x.left_sorted,
          subst (IsParted (take 4 ks)) (sym first) x.left_parted,
          All-take (IsOrdered K V h) 5 cs ord.2,
        ) in
        let right_ord : IsOrdered K V (suc h) high_tree = (
          x.right_sorted,
          subst (IsParted (drop 5 ks)) (sym second) x.right_parted,
          All-drop (IsOrdered K V h) 5 cs ord.2,
        ) in
        let left_fill = All-take (IsFilled K V h) 5 cs filled in
        let right_fill = All-drop (IsFilled K V h) 5 cs filled in
        record {
          left_ordered = left_ord;
          right_ordered = right_ord;
          left_filled = left_fill;
          right_filled = right_fill;
          cut = record {
            low = subst (λ ess. All (λ e. e.0 ≺ k) (concat ess)) (sym first) x.low;
            high = subst (λ ess. All (λ e. k ≼ e.0) (concat ess)) (sym second) x.high;
            some_low = filled-some (suc h) low_tree left_ord left_fill;
            some_high = filled-some (suc h) high_tree right_ord right_fill;
          };
          joined =
              ap (λ ess. concat ess ++ concat (map (entries K V h) (drop 5 cs))) first
              ∙ ap (λ ess. concat (take 5 (map (entries K V h) cs)) ++ concat ess) second
              ∙ concat-take-drop 5 (map (entries K V h) cs);
        }
