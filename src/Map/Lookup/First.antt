-- ===== src/Map/Lookup/First.antt =====
-- `first_leaf` and `first_key_value` on a map whose entries are known.
use btree_forest_arena.Prelude.{
  ℕ, zero, suc, ◌<◌, ◌≡◌, refl, ◌∙◌, sym, ap, inl, inr, Option, none, some, List, [], ◌∷◌, ◌++◌,
  map, concat, arith, length, get_elem?, lt→ltb, subst,
}
use mathlib.Core.List.{append-nil, append_assoc}
use btree_forest_arena.Prelude.Order.{Ord}
use btree_forest_arena.Store.{NodePtr, Slab}
use btree_forest_arena.Store.Access.{as_ref-live}
use btree_forest_arena.Node.{Node, first_key_value as first_of_node, leaf_of}
use btree_forest_arena.Node.View.{IsLeaf}
use btree_forest_arena.Tree.{Tree, addr, entries}
use btree_forest_arena.Tree.Repr.{LeafAt, Repr, IsMap}
use btree_forest_arena.Map.Defs.{BTreeMap, descend_first, first_leaf, first_key_value}
use btree_forest_arena.Map.Lookup.{edge_of_IsInternal}

module _ {S K V : Type 0} (store : Slab S (Node K V)) where
  -- The descent ends at the leaf with the first entries.
  record FirstLeaf (s : S) (h : ℕ) (t : Tree K V h) (r : Option (NodePtr × S)) : Type 0 where
    p : NodePtr
    up : Option (NodePtr × ℕ)
    es : List (K × V)
    rest : List (K × V)
    at : LeafAt store s up p es
    runs : r ≡ some (p, s)
    begins : entries K V h t ≡ es ++ rest

  descend_first-FirstLeaf :
      (h : ℕ) (s : S) (up : Option (NodePtr × ℕ)) (t : Tree K V h)
      → Repr store h s up t
      → FirstLeaf s h t (descend_first store h (addr K V h t) s)
  unfolding descend_first
  descend_first-FirstLeaf zero s up t r = record {
    p = t.0;
    up = up;
    es = t.1;
    rest = [];
    at = r;
    runs = refl;
    begins = sym (append-nil t.1);
  }
  descend_first-FirstLeaf (suc h) s up (p, ks, []) r = absurd (omega (arith, r.0.internal.branches))
  descend_first-FirstLeaf (suc h) s up (p, ks, c ∷ cs) r =
      let below = descend_first-FirstLeaf h s (some (p, 0)) c (r.1 0 c refl) in
      record {
        p = below.p;
        up = below.up;
        es = below.es;
        rest = below.rest ++ concat (map (entries K V h) cs);
        at = below.at;
        runs =
            rw
              (
                as_ref-live store r.0.live,
                edge_of_IsInternal 0 (addr K V h c) r.0.internal refl (omega arith),
              )
              below.runs;
        begins =
            ap (λ xs. xs ++ concat (map (entries K V h) cs)) below.begins
            ∙ append_assoc below.es below.rest (concat (map (entries K V h) cs));
      }

  first_of_IsLeaf :
      {n : Node K V} {e : K × V} {es : List (K × V)} {p q : Option NodePtr}
      → IsLeaf n (e ∷ es) p q
      → first_of_node n ≡ some e
  unfolding first_of_node leaf_of
  first_of_IsLeaf {n} {e} {es} leaf = rw (
    lt→ltb 0 n.len (omega (arith, leaf.count)),
    leaf.has_keys 0 (omega arith),
    leaf.is_leaf,
    leaf.has_vals 0 (omega arith),
  )

  first_in_tree :
      (s : S) (m : BTreeMap) (t : Tree K V m.height)
      → m.root ≡ some (addr K V m.height t)
      → (f : FirstLeaf s m.height t (descend_first store m.height (addr K V m.height t) s))
      → (es : List (K × V)) → f.es ≡ es
      → 0 < length es
      → first_key_value store m s ≡ some (get_elem? (entries K V m.height t) 0, s)
  unfolding first_key_value first_leaf
  first_in_tree s m t rooted f [] same filled = absurd (omega arith)
  first_in_tree s m t rooted f (e ∷ es) same filled =
      let leaf : IsLeaf f.at.n (e ∷ es) f.at.prev f.at.next =
        subst (λ xs. IsLeaf f.at.n xs f.at.prev f.at.next) same f.at.leaf in
      let begins : entries K V m.height t ≡ (e ∷ es) ++ f.rest =
        f.begins ∙ ap (λ xs. xs ++ f.rest) same in
      rw (rooted, f.runs, as_ref-live store f.at.live, first_of_IsLeaf leaf, begins)

  first_leaf_in_tree :
      (s : S) (m : BTreeMap) (t : Tree K V m.height)
      → m.root ≡ some (addr K V m.height t)
      → (f : FirstLeaf s m.height t (descend_first store m.height (addr K V m.height t) s))
      → first_leaf store m s ≡ some (some f.p, s)
  unfolding first_leaf
  first_leaf_in_tree s m t rooted f = rw (rooted, f.runs)

module _ {S K V : Type 0} ⦃o : Ord K⦄ (store : Slab S (Node K V)) where
  -- On a map with the entries `es` whose first leaf is not empty, or that has no root, `first_key_value`
  -- returns the first of the entries, or none if there is none, and leaves the arena as it is.
  pub first_key_value-head :
      (s : S) (m : BTreeMap) (es : List (K × V))
      → IsMap store s m es
      → ((p : NodePtr) (n : Node K V)
          → first_leaf store m s ≡ some (some p, s)
          → store.deref p s ≡ some n
          → 0 < n.len)
      → first_key_value store m s ≡ some (get_elem? es 0, s)
  unfolding first_key_value first_leaf
  first_key_value-head s m es (inl (no_root, nothing, _, _)) filled =
      ground (arith, no_root, nothing)
  first_key_value-head s m es (inr is) filled =
      let f = descend_first-FirstLeaf store m.height s none is.tree is.represented in
      let some_key =
        filled f.p f.at.n (first_leaf_in_tree store s m is.tree is.rooted f) f.at.live in
      first_in_tree store s m is.tree is.rooted f f.es refl
        (omega (arith, f.at.leaf.count, some_key))
      ∙ ap (λ xs. some (get_elem? xs 0, s)) is.same_entries
