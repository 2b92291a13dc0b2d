-- ===== src/Map/Insert/NewRoot.antt =====
-- The loop has come up to the root: the two trees get a new root.
use btree_forest_arena.Prelude.{
  ℕ, zero, suc, ◌+◌, ◌≡◌, refl, ◌∙◌, sym, ap, subst, true, Option, none, some, List, [], ◌∷◌, ◌++◌,
  contains, All,
}
use mathlib.Core.List.{append-nil}
use btree_forest_arena.Prelude.Order.{Ord, ◌≼◌}
use btree_forest_arena.Store.{NodePtr, Slab}
use btree_forest_arena.Store.Access.{as_ref-live}
use btree_forest_arena.Node.{Node, set_parent, parent}
use btree_forest_arena.Tree.{Tree, addr, nodes, entries}
use btree_forest_arena.Tree.Order.{IsOrdered}
use btree_forest_arena.Tree.Repr.{Repr}
use btree_forest_arena.Tree.Nodes.{nodes-live}
use btree_forest_arena.Tree.Alike.{Alike, belows, Stays-same, Repr-Placed}
use btree_forest_arena.Tree.Apart.{
  false-not-true, orphans-outside, self-outside, addr-inside, belows-nodes,
}
use btree_forest_arena.Tree.Hang.{Alike-parent, Repr-Root}
use btree_forest_arena.Map.Defs.{BTreeMap}
use btree_forest_arena.Map.Insert.{insert_up, grow_root}
use btree_forest_arena.Map.Insert.Grow.{IsFilled, Overflow}
use btree_forest_arena.Map.Insert.GrowRoot.{grow_root-RootGrown}

module _ {S K V : Type 0} ⦃o : Ord K⦄ (store : Slab S (Node K V)) where
  pub record Rooted (m : BTreeMap) (h : ℕ) (es : List (K × V)) (r : Option (BTreeMap × S))
      : Type 0 where
    pub s' : S
    pub t' : Tree K V (suc h)
    pub runs : r ≡ some (record m { root = some (t'.0); height = m.height + 1 }, s')
    pub represented : Repr store (suc h) s' none t'
    pub ordered : IsOrdered K V (suc h) t'
    pub filled : IsFilled K V (suc h) t'
    pub same_entries : entries K V (suc h) t' ≡ es

  insert_up-root :
      {s : S} {n : Node K V} (fuel : ℕ) (m : BTreeMap) (node right : NodePtr) (k : K)
      → store.deref node s ≡ some n
      → n.parent ≡ none
      → insert_up store (suc fuel) m node right k s ≡ grow_root store m node right k s
  unfolding insert_up parent
  insert_up-root fuel m node right k live no_parent = rw (as_ref-live store live, no_parent)

  -- A tree whose root gets the parent `p`; the nodes below it stay.
  adopted :
      (h : ℕ) (s s' : S) (t : Tree K V h) (p : NodePtr) (i : ℕ) (n : Node K V)
      → Repr store h s none t
      → store.deref (addr K V h t) s ≡ some n
      → store.deref (addr K V h t) s' ≡ some (set_parent n p i)
      → ((q : NodePtr) → contains (belows K V h t) q ≡ true → store.deref q s' ≡ store.deref q s)
      → Repr store h s' (some (p, i)) t
  unfolding set_parent
  adopted h s s' t p i n r live live' same =
      Repr-Placed store h s s' none (some (p, i)) t
        (λ m here.
          let one : n ≡ m = cc (live, here) in
          record {
            n' = set_parent n p i;
            live = live';
            alike = subst (λ x. Alike x (set_parent n p i)) one (Alike-parent n (some p) (some i));
            has_parent = (refl, refl);
          })
        (λ q below. Stays-same store s s' q (same q below)) r

  pub Overflow-Rooted :
      (levels : ℕ) (m : BTreeMap) (h : ℕ) (s : S) (t : Tree K V h) (es : List (K × V))
      (run : Option (BTreeMap × S))
      → Overflow store levels m s h none t es run
      → Rooted m h es run
  Overflow-Rooted levels m h s t es run f =
      let left = Repr-Root store h f.s' none f.t₁ f.left in
      let right = Repr-Root store h f.s' none f.t₂ f.right in
      let x =
        grow_root-RootGrown store f.s' m (addr K V h f.t₁) (addr K V h f.t₂) left.n right.n f.k
          left.live right.live f.apart in
      let new : (q : NodePtr) (n : Node K V) → store.deref q f.s' ≡ some n → q ≡ x.root → ⊥ =
        λ q n live same.
          let there : store.deref x.root f.s' ≡ some n =
            subst (λ y. store.deref y f.s' ≡ some n) same live in
          let gone = x.fresh in cc in
      let t' : Tree K V (suc h) = (x.root, f.k ∷ [], f.t₁ ∷ f.t₂ ∷ []) in
      record {
        s' = x.s';
        t' = t';
        runs =
            f.runs
            ∙ insert_up-root f.fuel m (addr K V h f.t₁) (addr K V h f.t₂) f.k left.live
                left.has_parent
            ∙ x.runs;
        represented = (
          record { n = x.n; live = x.live; internal = x.internal; has_parent = x.no_parent },
          elim [
            | zero ↦ λ c at.
                let same : f.t₁ ≡ c = cc in
                subst (Repr store h x.s' (some (x.root, 0))) same (
                  adopted h f.s' x.s' f.t₁ x.root 0 left.n f.left left.live x.at_left (λ q below.
                    let inside = belows-nodes store h f.t₁ q below in
                    let (n, live) = nodes-live store h f.s' none f.t₁ q f.left inside in
                    x.others q (new q n live)
                      (λ e.
                        false-not-true (self-outside store h f.s' none f.t₁ f.left)
                          (subst (λ y. contains (belows K V h f.t₁) y ≡ true) e below))
                      (λ e.
                        false-not-true
                          (orphans-outside store h f.s' none none f.t₁ f.t₂ q f.left f.right f.apart
                            inside)
                          (subst (λ y. contains (nodes K V h f.t₂) y ≡ true) (sym e)
                            (addr-inside store h f.t₂)))))
            | suc zero ↦ λ c at.
                let same : f.t₂ ≡ c = cc in
                subst (Repr store h x.s' (some (x.root, 1))) same (
                  adopted h f.s' x.s' f.t₂ x.root 1 right.n f.right right.live x.at_right
                    (λ q below.
                      let inside = belows-nodes store h f.t₂ q below in
                      let (n, live) = nodes-live store h f.s' none f.t₂ q f.right inside in
                      x.others q (new q n live)
                        (λ e.
                          false-not-true
                            (orphans-outside store h f.s' none none f.t₂ f.t₁ q f.right f.left
                              (λ z. f.apart (sym z)) inside)
                            (subst (λ y. contains (nodes K V h f.t₁) y ≡ true) (sym e)
                              (addr-inside store h f.t₁)))
                        (λ e.
                          false-not-true (self-outside store h f.s' none f.t₂ f.right)
                            (subst (λ y. contains (belows K V h f.t₂) y ≡ true) e below))))
            | suc (suc i) ↦ λ c at. cc
          ],
        );
        ordered = (
          (tt, tt),
          (
            f.cut.low,
            subst (All (λ e. f.k ≼ e.0)) (sym (append-nil (entries K V h f.t₂))) f.cut.high,
            tt,
          ),
          (f.left_ordered, (f.right_ordered, tt)),
        );
        filled = (f.left_filled, (f.right_filled, tt));
        same_entries =
            ap (λ xs. entries K V h f.t₁ ++ xs) (append-nil (entries K V h f.t₂)) ∙ f.joined;
      }
