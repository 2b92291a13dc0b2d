-- ===== src/Map/Drop/Frees.antt =====
-- Dropping a tree gives back each of its nodes, and drops its keys and entries.
use btree_forest_arena.Prelude.{
  ℕ, zero, suc, ◌+◌, ◌≡◌, refl, ◌∙◌, sym, subst, Bool, true, false, ◌||◌, ◌==◌, ◌⊎◌, inl, inr,
  Option, none, some, List, [], ◌∷◌, ◌++◌, map, concat, arith, length-map, get_elem?, if◌then◌else◌,
  contains, lt→ltb, Bool-cases,
}
use mathlib.Core.List.{map-append}
use btree_forest_arena.Slots.Holds.{slice-Holds}
use btree_forest_arena.Store.{NodePtr, Slab}
use btree_forest_arena.Store.Access.{as_ref-live, dealloc-live}
use btree_forest_arena.Node.{Node, vals, edges, max_keys, leaf_of, internal_of}
use btree_forest_arena.Node.View.{IsLeaf, IsInternal, key_of, val_of}
use btree_forest_arena.Map.Lookup.{keys_of_IsLeaf, keys_of_IsInternal}
use btree_forest_arena.Map.Drop.{drop_children, drop_node_ptr, drop_root}
use btree_forest_arena.Map.Defs.{BTreeMap}
use btree_forest_arena.Tree.{Tree, addr, entries, nodes}
use btree_forest_arena.Tree.Repr.{Repr}
use btree_forest_arena.Tree.Agrees.{Freed, Freed-append, Freed-live, Repr-Freed}
use btree_forest_arena.Tree.Nodes.{contains-InChild, nodes-Below, Below-once, root-not-Below}

module _ (K V : Type 0) where
  -- The keys of a tree in the order in which they are dropped: those of a node before those below it.
  abbrev pub all_keys : (h : ℕ) → Tree K V h → List K
  all_keys zero t = map key_of t.1
  all_keys (suc h) t = t.1 ++ concat (map (all_keys h) t.2)

  -- The values of the leaves, in order.
  abbrev pub all_vals : (h : ℕ) → Tree K V h → List V
  all_vals zero t = map val_of t.1
  all_vals (suc h) t = concat (map (all_vals h) t.2)

  map-concat :
      (h : ℕ) (cs : List (Tree K V h))
      → ((t : Tree K V h) → all_vals h t ≡ map val_of (entries K V h t))
      → concat (map (all_vals h) cs) ≡ map val_of (concat (map (entries K V h) cs))
  map-concat h [] one = refl
  map-concat h (c ∷ cs) one =
      rw (one c, map-concat h cs one)
        (sym (map-append val_of (entries K V h c) (concat (map (entries K V h) cs))))

  -- They are the values of the entries.
  all_vals-entries : (h : ℕ) (t : Tree K V h) → all_vals h t ≡ map val_of (entries K V h t)
  all_vals-entries zero t = refl
  all_vals-entries (suc h) t = map-concat h t.2 (all_vals-entries h)

module _ {K V : Type 0} where
  vals_of_IsLeaf :
      {n : Node K V} {es : List (K × V)} {p q : Option NodePtr}
      → IsLeaf n es p q
      → vals n ≡ some (map val_of es)
  unfolding vals leaf_of
  vals_of_IsLeaf {n} {es} leaf =
      rw (leaf.is_leaf, lt→ltb n.len (max_keys + 1) (omega (arith, leaf.count, leaf.fits)))
        (slice-Holds leaf.l.vals (map val_of es) n.len leaf.has_vals
          (omega (arith, leaf.count, length-map val_of es)))

  pub edges_of_IsInternal :
      {n : Node K V} {ks : List K} {ps : List NodePtr} → IsInternal n ks ps → edges n ≡ some ps
  unfolding edges internal_of
  edges_of_IsInternal {n} {ks} {ps} i =
      rw (i.is_internal, lt→ltb n.len (max_keys + 1) (omega (arith, i.count, i.fits)))
        (slice-Holds i.i.edges ps (n.len + 1) i.has_edges (omega (arith, i.count, i.branches)))

index_of : (q a b : ℕ) → ◌≡◌ {A = Option (NodePtr × ℕ)} (some (q, a)) (some (q, b)) → a ≡ b
index_of q a b h = cc

module _ {S K V : Type 0} (store : Slab S (Node K V)) where
  -- The run gives back the listed nodes, and dropped the keys and the values.
  pub record Drops (s : S) (ks : List K) (vs : List V) (ps : List NodePtr)
      (r : Option ((List K × List V) × S)) : Type 0 where
    pub s' : S
    pub runs : r ≡ some ((ks, vs), s')
    pub freed : Freed store s s' ps

  -- The children at the indices from `i` on, where dropping one child drops its tree.
  drop_children-Drops :
      (h : ℕ) (s : S) (q : NodePtr) (i : ℕ) (cs : List (Tree K V h))
      → ((s : S) (up : Option (NodePtr × ℕ)) (t : Tree K V h)
          → Repr store h s up t
          → Drops s
              (all_keys K V h t)
              (all_vals K V h t)
              (nodes K V h t)
              (drop_node_ptr store h (addr K V h t) s))
      → ((j : ℕ) (c : Tree K V h) → get_elem? cs j ≡ some c → Repr store h s (some (q, i + j)) c)
      → Drops s
          (concat (map (all_keys K V h) cs))
          (concat (map (all_vals K V h) cs))
          (concat (map (nodes K V h) cs))
          (drop_children store (drop_node_ptr store h) (map (addr K V h) cs) s)
  unfolding drop_children
  drop_children-Drops h s q i [] one reprs = record { s' = s; runs = refl; freed = λ p. refl }
  drop_children-Drops h s q i (c ∷ cs) one reprs =
      let first = one s (some (q, i + 0)) c (reprs 0 c refl) in
      let rest = drop_children-Drops h first.s' q (i + 1) cs one (λ j c' at.
        subst (λ k. Repr store h first.s' (some (q, k)) c') {x = i + suc j} {y = i + 1 + j}
          (omega arith)
          (Repr-Freed store h s first.s' (some (q, i + suc j)) c' (nodes K V h c) first.freed
            (λ p has. apart j c' p at has (Bool-cases (contains (nodes K V h c) p)))
            (reprs (suc j) c' at))) in
      record {
        s' = rest.s';
        runs = rw (first.runs, rest.runs) refl;
        freed =
            Freed-append store s first.s' rest.s' (nodes K V h c) (concat (map (nodes K V h) cs))
              first.freed rest.freed;
      }
    where
      apart :
          (j : ℕ) (c' : Tree K V h) (p : NodePtr)
          → get_elem? cs j ≡ some c'
          → contains (nodes K V h c') p ≡ true
          → ((contains (nodes K V h c) p ≡ true) ⊎ (contains (nodes K V h c) p ≡ false))
          → contains (nodes K V h c) p ≡ false
      apart j c' p at has (inr out) = out
      apart j c' p at has (inl both) =
          let same : ◌≡◌ {A = Option (NodePtr × ℕ)} (some (q, i + 0)) (some (q, i + suc j)) =
            Below-once store h s (some (q, i + 0)) (some (q, i + suc j)) p
              (nodes-Below store h s (some (q, i + 0)) c p (reprs 0 c refl) both)
              (nodes-Below store h s (some (q, i + suc j)) c' p (reprs (suc j) c' at) has) in
          absurd (omega (arith, index_of q (i + 0) (i + suc j) same))

  -- Dropping a represented tree succeeds; it drops the keys and the values of its nodes, gives back
  -- each of its nodes, and leaves the other nodes as they are.
  pub drop_node_ptr-Drops :
      (h : ℕ) (s : S) (up : Option (NodePtr × ℕ)) (t : Tree K V h)
      → Repr store h s up t
      → Drops s
          (all_keys K V h t)
          (all_vals K V h t)
          (nodes K V h t)
          (drop_node_ptr store h (addr K V h t) s)
  unfolding drop_node_ptr
  drop_node_ptr-Drops zero s up t r = record {
    s' = store.discard t.0 s;
    runs = rw (
      as_ref-live store r.live,
      keys_of_IsLeaf r.leaf,
      vals_of_IsLeaf r.leaf,
      dealloc-live store r.live,
    );
    freed = λ p. store.deref-discard p t.0 r.n s r.live ∙ one p (p == t.0);
  }
    where
      one :
          (p : NodePtr) (b : Bool)
          → (if b then none else store.deref p s) ≡ (if b || false then none else store.deref p s)
      one p true = refl
      one p false = refl
  drop_node_ptr-Drops (suc h) s up t r =
      let below = drop_children-Drops h s t.0 0 t.2 (drop_node_ptr-Drops h) (λ j c at.
        subst (λ k. Repr store h s (some (t.0, k)) c) {x = j} {y = 0 + j} (omega arith)
          (r.1 j c at)) in
      let ps = concat (map (nodes K V h) t.2) in
      let outside : contains ps t.0 ≡ false = root_apart (Bool-cases (contains ps t.0)) in
      let live = Freed-live store s below.s' ps below.freed outside r.0.live in
      record {
        s' = store.discard t.0 below.s';
        runs = rw (
          as_ref-live store r.0.live,
          keys_of_IsInternal r.0.internal,
          edges_of_IsInternal r.0.internal,
          below.runs,
          dealloc-live store live,
        );
        freed = λ p.
            store.deref-discard p t.0 r.0.n below.s' live
            ∙ or_else (store.deref p below.s') (store.deref p s) (p == t.0) (contains ps p)
                (below.freed p);
      }
    where
      root_apart :
          ((contains (concat (map (nodes K V h) t.2)) t.0 ≡ true)
            ⊎ (contains (concat (map (nodes K V h) t.2)) t.0 ≡ false))
          → contains (concat (map (nodes K V h) t.2)) t.0 ≡ false
      root_apart (inr out) = out
      root_apart (inl has) =
          let j = contains-InChild K V h t.2 t.0 has in
          absurd (
            root-not-Below store h s up (some (t.0, j.i)) t t.0 r
              (nodes-Below store h s (some (t.0, j.i)) j.c t.0 (r.1 j.i j.c j.at) j.has) refl)

      or_else :
          (x y : Option (Node K V)) (a b : Bool)
          → x ≡ (if b then none else y)
          → (if a then none else x) ≡ (if a || b then none else y)
      or_else x y true b e = refl
      or_else x y false b e = e

  -- Dropping the root of a map whose nodes represent a tree succeeds; it drops the keys of all nodes
  -- and the values of all entries, gives back each node of the tree, and leaves the others as they are.
  pub drop_root-Freed :
      (s : S) (m : BTreeMap) (t : Tree K V m.height)
      → m.root ≡ some (addr K V m.height t)
      → Repr store m.height s none t
      → (s' : S) × (drop_root store m s
          ≡ some ((all_keys K V m.height t, map val_of (entries K V m.height t)), s'))
        × ((p : NodePtr)
            → store.deref p s'
              ≡ (if contains (nodes K V m.height t) p then none else store.deref p s))
  unfolding drop_root
  drop_root-Freed s m t rooted r =
      let d = drop_node_ptr-Drops m.height s none t r in
      (d.s', rw (rooted, d.runs, all_vals-entries K V m.height t) refl, d.freed)
