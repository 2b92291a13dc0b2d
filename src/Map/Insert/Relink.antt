-- ===== src/Map/Insert/Relink.antt =====
-- The links of leaves: `set_next`, `set_prev`, and the leaf behind a new one.
use btree_forest_arena.Prelude.{
  ◌≡◌, refl, ◌∙◌, sym, ap, subst, Option, none, some, map, ◌==◌, Bool-cases, inl, inr, ==→≡, ==→≢,
}
use btree_forest_arena.Slots.Holds.{Holds}
use btree_forest_arena.Store.{NodePtr, Slab}
use btree_forest_arena.Store.Access.{as_ref-live, as_mut-live}
use btree_forest_arena.Node.{
  Node, LeafData, leaf_data, internal_data, leaf_of, next, set_next, set_prev,
}
use btree_forest_arena.Node.View.{val_of}
use btree_forest_arena.Node.Edges.Renumber.{deref-other, deref_self}
use btree_forest_arena.Tree.Alike.{Alike, Stays, Stays-same}
use btree_forest_arena.Map.Insert.{relink}

module _ {K V : Type 0} where
  pub set_next-leaf :
      (n : Node K V) (l : LeafData V) (x : Option NodePtr)
      → n.d ≡ leaf_data l
      → set_next n x ≡ some (record n { d = leaf_data (record l { next = x }) })
  unfolding set_next leaf_of
  set_next-leaf n l x is = rw is

  pub set_prev-leaf :
      (n : Node K V) (l : LeafData V) (x : Option NodePtr)
      → n.d ≡ leaf_data l
      → set_prev n x ≡ some (record n { d = leaf_data (record l { prev = x }) })
  unfolding set_prev leaf_of
  set_prev-leaf n l x is = rw is

  pub next-leaf : (n : Node K V) (l : LeafData V) → n.d ≡ leaf_data l → next n ≡ some l.next
  unfolding next leaf_of
  next-leaf n l is = rw is

  -- A leaf whose links change.
  Alike-links :
      (n : Node K V) (l : LeafData V) (b a : Option NodePtr)
      → n.d ≡ leaf_data l
      → Alike n (record n { d = leaf_data (record l { prev = b; next = a }) })
  Alike-links n l b a is = record {
    as_leaf = λ es b' a' leaf. (
      b,
      a,
      record {
        l = record l { prev = b; next = a };
        is_leaf = refl;
        count = leaf.count;
        fits = leaf.fits;
        has_keys = leaf.has_keys;
        has_vals =
            let same : leaf_data leaf.l ≡ leaf_data l = sym leaf.is_leaf ∙ is in
            let one : leaf.l ≡ l = cc in
            subst (λ y. Holds y.vals (map val_of es)) one leaf.has_vals;
        before = refl;
        after = refl;
      },
    );
    as_internal =
        λ ks ps i. let same : leaf_data l ≡ internal_data i.i = sym is ∙ i.is_internal in cc;
  }

  -- The leaf with the data `l`, now with `p` as its previous leaf.
  abbrev pub with_prev : Node K V → LeafData V → NodePtr → Node K V
  with_prev n l p = record n { d = leaf_data (record l { prev = some p }) }

module _ {S K V : Type 0} (store : Slab S (Node K V)) where
  -- The leaf that is linked behind the leaf at `p`, if any, is another one of the arena.
  pub record LeafBehind (s : S) (p q : NodePtr) : Type 0 where
    pub n : Node K V
    pub l : LeafData V
    pub live : store.deref q s ≡ some n
    pub is_leaf : n.d ≡ leaf_data l
    pub apart : q ≡ p → ⊥

  -- The leaf `after` has `right` as its previous leaf; nothing else has changed.
  pub record Relinked (s : S) (right : NodePtr) (after : Option NodePtr) (r : Option (Unit {0} × S))
      : Type 0 where
    pub s' : S
    pub runs : r ≡ some (tt, s')
    pub others : (q : NodePtr) → (after ≡ some q → ⊥) → store.deref q s' ≡ store.deref q s
    pub stays : (q : NodePtr) → Stays store s s' q
    pub linked :
        (q : NodePtr) (n : Node K V) (l : LeafData V)
        → after ≡ some q
        → store.deref q s ≡ some n
        → n.d ≡ leaf_data l
        → store.deref q s' ≡ some (with_prev n l right)

  pub relink-Relinked :
      (s : S) (p right : NodePtr) (after : Option NodePtr)
      → ((q : NodePtr) → after ≡ some q → LeafBehind s p q)
      → Relinked s right after (relink store after right s)
  unfolding relink
  relink-Relinked s p right none behind = record {
    s' = s;
    runs = refl;
    others = λ q out. refl;
    stays = λ q. Stays-same store s s q refl;
    linked = λ q n l is live leaf. cc;
  }
  relink-Relinked s p right (some a) behind =
      let b = behind a refl in
      let n' : Node K V = record b.n { d = leaf_data (record b.l { prev = some right }) } in
      record {
        s' = store.assign a n' s;
        runs =
            rw
              (
                as_ref-live store b.live,
                set_prev-leaf b.n b.l (some right) b.is_leaf,
                as_mut-live store n' b.live,
              )
              refl;
        others = λ q out. deref-other store q n' b.live (λ same. out (ap some (sym same)));
        stays = λ q n live. elim (Bool-cases (q == a)) [
          | inl same ↦
              let here : store.deref a s ≡ some n =
                subst (λ x. store.deref x s ≡ some n) (==→≡ q a same) live in
              let one : b.n ≡ n = cc (b.live, here) in
              record {
                n' = n';
                live =
                    subst (λ x. store.deref x (store.assign a n' s) ≡ some n') (sym (==→≡ q a same))
                      (deref_self store n' b.live);
                alike =
                    subst (λ x. Alike x n') one
                      (Alike-links b.n b.l (some right) b.l.next b.is_leaf);
                same_parent = record {
                  parent = ap (λ x. x.parent) one;
                  parent_idx = ap (λ x. x.parent_idx) one;
                };
              }
          | inr differs ↦
              Stays-same store s (store.assign a n' s) q
                (deref-other store q n' b.live (==→≢ q a differs)) n live
        ];
        linked = λ q n l is live leaf.
            let same : a ≡ q = cc in
            let here : store.deref a s ≡ some n =
              subst (λ x. store.deref x s ≡ some n) (sym same) live in
            let one : b.n ≡ n = cc (b.live, here) in
            let variant : leaf_data b.l ≡ leaf_data l = sym b.is_leaf ∙ ap (λ x. x.d) one ∙ leaf in
            let inner : b.l ≡ l = cc in
            subst (λ x. store.deref x (store.assign a n' s) ≡ some (with_prev n l right)) same
              (deref_self store n' b.live
                ∙ ap (λ x. some (with_prev x b.l right)) one
                ∙ ap (λ x. some (with_prev n x right)) inner);
      }
