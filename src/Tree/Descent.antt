-- ===== src/Tree/Descent.antt =====
-- The entries of the leaf where `find` stops are edited: what the tree is then.
use btree_forest_arena.Prelude.{
  ℕ, zero, suc, ◌+◌, ◌≡◌, refl, ◌∙◌, sym, ap, subst, inl, inr, Bool-cases, Option, none, some, List,
  [], ◌∷◌, map, concat, arith, length, length-append, get_elem?, get_elem?-map, get_elem?-map_inv,
  get_elem?-set, set, lt_length_of_get, All, All-get_elem?, ◌==◌, if◌then◌else◌, ==→≡, ==→≢,
  map-set, set_same,
}
use btree_forest_arena.Prelude.Order.{Ord}
use btree_forest_arena.Store.{NodePtr, Slab}
use btree_forest_arena.Search.Linear.{scan}
use btree_forest_arena.Node.{Node, LeafData, leaf_data}
use btree_forest_arena.Node.View.{IsLeaf, SameParent, key_of}
use btree_forest_arena.Tree.{Tree, addr, entries, lookup}
use btree_forest_arena.Tree.Order.{IsSorted, IsParted, IsOrdered, probe, lookup-child}
use btree_forest_arena.Tree.Repr.{HasParent, LeafAt, InternalAt, Repr}
use btree_forest_arena.Tree.Edit.{Edit, child-Placed}
use btree_forest_arena.Tree.Frame.{
  ascend, above, above-live, deref-assign_self, InternalAt-assign, Repr-assign,
}
use btree_forest_arena.Map.{Find, child_index, at_leaf, find_in}
use btree_forest_arena.Map.Lookup.{find_in-child, find_in_leaf}

module _ {A : Type 0} where
  pub All-set : (P : A → Type 0) (xs : List A) (i : ℕ) (a : A) → All P xs → P a → All P (set xs i a)
  All-set P [] i a h q = tt
  All-set P (x ∷ xs) zero a h q = (q, h.1)
  All-set P (x ∷ xs) (suc i) a h q = (h.0, All-set P xs i a h.1 q)

  pub concat-set-length :
      (xss : List (List A)) (i : ℕ) (xs ys : List A)
      → get_elem? xss i ≡ some xs
      → length (concat (set xss i ys)) + length xs ≡ length (concat xss) + length ys
  concat-set-length [] i xs ys h = cc
  concat-set-length (zs ∷ xss) zero xs ys h =
      let same : zs ≡ xs = cc in
      omega (arith, ap length same, length-append ys (concat xss), length-append zs (concat xss))
  concat-set-length (zs ∷ xss) (suc i) xs ys h = omega (
    arith,
    concat-set-length xss i xs ys h,
    length-append zs (concat (set xss i ys)),
    length-append zs (concat xss),
  )

module _ {S K V : Type 0} ⦃o : Ord K⦄ (store : Slab S (Node K V)) {k : K}
    {f : List (K × V) → List (K × V)} (edit : Edit k f) where
  -- The tree after the leaf at `p` was replaced by the node `n'`.
  pub record Rebuilt (s : S) (h : ℕ) (up : Option (NodePtr × ℕ)) (t : Tree K V h) (p : NodePtr)
      (n' : Node K V) (old new : ℕ) : Type 0 where
    pub t' : Tree K V h
    pub same_addr : addr K V h t' ≡ addr K V h t
    pub represented : Repr store h (store.assign p n' s) up t'
    pub ordered : IsOrdered K V h t'
    pub edited : entries K V h t' ≡ f (entries K V h t)
    pub grown : length (entries K V h t') + old ≡ length (entries K V h t) + new

  pub record Lands (s : S) (h : ℕ) (up : Option (NodePtr × ℕ)) (t : Tree K V h)
      (r : Option (Find × S)) : Type 0 where
    pub p : NodePtr
    pub es : List (K × V)
    pub leaf_up : Option (NodePtr × ℕ)
    pub at : LeafAt store s leaf_up p es
    pub sorted : IsSorted (map key_of es)
    pub runs : r ≡ some (at_leaf p (scan (probe k) (map key_of es)), s)
    pub same_lookup : lookup (entries K V h t) k ≡ lookup es k
    pub climbs : ascend store h p s ≡ up
    pub rebuilt :
        (n' : Node K V)
        → IsLeaf n' (f es) at.prev at.next
        → SameParent at.n n'
        → Rebuilt s h up t p n' (length es) (length (f es))

  SameParent-HasParent :
      {n n' : Node K V} (up : Option (NodePtr × ℕ))
      → SameParent n n'
      → HasParent n up
      → HasParent n' up
  SameParent-HasParent none same h = same.parent ∙ h
  SameParent-HasParent (some (p, i)) same h = (same.parent ∙ h.0, same.parent_idx ∙ h.1)

  -- The parent of a subtree that was rebuilt.
  rebuild :
      (s : S) (h : ℕ) (up : Option (NodePtr × ℕ)) (t : Tree K V (suc h)) (idx : ℕ) (c : Tree K V h)
      (p : NodePtr) (n n' : Node K V) (l : LeafData V) (old new : ℕ)
      → store.deref p s ≡ some n
      → n.d ≡ leaf_data l
      → Repr store (suc h) s up t
      → IsOrdered K V (suc h) t
      → get_elem? t.2 idx ≡ some c
      → ascend store h p s ≡ some (t.0, idx)
      → Rebuilt s h (some (t.0, idx)) c p n' old new
      → IsParted t.1 (set (map (entries K V h) t.2) idx (f (entries K V h c)))
      → concat (set (map (entries K V h) t.2) idx (f (entries K V h c)))
        ≡ f (concat (map (entries K V h) t.2))
      → Rebuilt s (suc h) up t p n' old new
  rebuild s h up t idx c p n n' l old new live leaf r ord at_child climbs b parted joined = record {
    t' = (t.0, t.1, set t.2 idx b.t');
    same_addr = refl;
    represented = (
      subst (InternalAt store (store.assign p n' s) up t.0 t.1) (sym same_addrs)
          (InternalAt-assign store n' l live leaf r.0),
      child,
    );
    ordered = (
      ord.0,
      subst (IsParted t.1) (sym new_runs) parted,
      All-set (IsOrdered K V h) t.2 idx b.t' ord.2 b.ordered,
    );
    edited = ap concat new_runs ∙ joined;
    grown = omega (
      arith,
      b.grown,
      ap (λ ess. length (concat ess)) (map-set (entries K V h) t.2 idx b.t'),
      concat-set-length (map (entries K V h) t.2) idx (entries K V h c) (entries K V h b.t')
          (get_elem?-map (entries K V h) t.2 idx at_child),
    );
  }
    where
      same_addrs : map (addr K V h) (set t.2 idx b.t') ≡ map (addr K V h) t.2
      same_addrs =
          map-set (addr K V h) t.2 idx b.t'
          ∙ ap (set (map (addr K V h) t.2) idx) b.same_addr
          ∙ set_same (map (addr K V h) t.2) idx (addr K V h c)
              (get_elem?-map (addr K V h) t.2 idx at_child)

      new_runs :
          map (entries K V h) (set t.2 idx b.t')
          ≡ set (map (entries K V h) t.2) idx (f (entries K V h c))
      new_runs =
          map-set (entries K V h) t.2 idx b.t' ∙ ap (set (map (entries K V h) t.2) idx) b.edited

      child :
          (i : ℕ) (c' : Tree K V h)
          → get_elem? (set t.2 idx b.t') i ≡ some c'
          → Repr store h (store.assign p n' s) (some (t.0, i)) c'
      child i c' at =
          let at' : (if i == idx then some b.t' else get_elem? t.2 i) ≡ some c' =
            sym (get_elem?-set t.2 idx b.t' i (lt_length_of_get t.2 idx at_child)) ∙ at in
          elim (Bool-cases (i == idx)) [
            | inl same ↦
                let here : b.t' ≡ c' = ground (arith, at', same) in
                subst (λ j. Repr store h (store.assign p n' s) (some (t.0, j)) c')
                  (sym (==→≡ i idx same))
                  (subst (Repr store h (store.assign p n' s) (some (t.0, idx))) here b.represented)
            | inr differs ↦
                let there : get_elem? t.2 i ≡ some c' = ground (arith, at', differs) in
                Repr-assign store h s (some (t.0, i)) c' p n n' l live leaf
                  (λ e.
                    let both : some (t.0, i) ≡ some (t.0, idx) = sym e ∙ climbs in
                    ==→≢ i idx differs cc)
                  (r.1 i c' there)
          ]

  pub find_in-Lands :
      (s : S) (h : ℕ) (up : Option (NodePtr × ℕ)) (t : Tree K V h)
      → Repr store h s up t
      → IsOrdered K V h t
      → Lands s h up t (find_in store h (addr K V h t) k s)
  find_in-Lands s zero up t r ord = record {
    p = t.0;
    es = t.1;
    leaf_up = up;
    at = r;
    sorted = ord;
    runs = find_in_leaf store s up t k r ord;
    same_lookup = refl;
    climbs = above-live store 0 r.live r.has_parent;
    rebuilt = λ n' leaf same. record {
      t' = (t.0, f t.1);
      same_addr = refl;
      represented = record {
        n = n';
        prev = r.prev;
        next = r.next;
        live = deref-assign_self store n' r.live;
        leaf = leaf;
        has_parent = SameParent-HasParent up same r.has_parent;
      };
      ordered = edit.keeps_order t.1 ord;
      edited = refl;
      grown = omega arith;
    };
  }
  find_in-Lands s (suc h) up t r ord =
      let idx = child_index (scan (probe k) t.1) in
      let placed = child-Placed edit t.1 (map (entries K V h) t.2) ord.0 ord.1 in
      let (run, at_run, same) = lookup-child t.1 (map (entries K V h) t.2) k ord.0 ord.1 in
      let (c, at_child, run_of) = get_elem?-map_inv (entries K V h) t.2 _ placed.at in
      let same_run : run ≡ placed.run = cc in
      let rest =
        find_in-Lands s h (some (t.0, idx)) c (r.1 idx c at_child)
          (All-get_elem? (IsOrdered K V h) t.2 idx ord.2 at_child) in
      record {
        p = rest.p;
        es = rest.es;
        leaf_up = rest.leaf_up;
        at = rest.at;
        sorted = rest.sorted;
        runs = find_in-child store h s up t k c r ord.0 at_child ∙ rest.runs;
        same_lookup = same ∙ ap (λ es. lookup es k) (same_run ∙ sym run_of) ∙ rest.same_lookup;
        climbs =
            ap (λ q. above store q s) rest.climbs ∙ above-live store idx r.0.live r.0.has_parent;
        rebuilt = λ n' leaf kept.
            rebuild s h up t idx c rest.p rest.at.n n' rest.at.leaf.l _ _ rest.at.live
              rest.at.leaf.is_leaf r ord at_child rest.climbs (rest.rebuilt n' leaf kept)
              (subst (λ es. IsParted t.1 (set (map (entries K V h) t.2) idx (f es))) (sym run_of)
                placed.parted)
              (subst
                (λ es.
                  concat (set (map (entries K V h) t.2) idx (f es))
                  ≡ f (concat (map (entries K V h) t.2)))
                (sym run_of) placed.joined);
      }
