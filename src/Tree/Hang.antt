-- ===== src/Tree/Hang.antt =====
-- A tree without a parent is hung into a node, behind one of its children.
use btree_forest_arena.Prelude.{
  ℕ, zero, suc, ◌+◌, ◌-◌, ◌<◌, ◌≤◌, ◌≡◌, refl, ◌∙◌, sym, ap, subst, inl, inr, true, false,
  Bool-cases, Option, none, some, List, map, concat, arith, length, length-map, get_elem?,
  get_elem?-map, get_elem?-map_inv, get_elem?-drop, get_elem?-insert_at, drop, insert_at,
  map-insert_at, contains, ltb, ◌==◌, if◌then◌else◌, ltb→lt, ltb→le, ==→≡, ==→≢,
}
use btree_forest_arena.Store.{NodePtr, Slab}
use btree_forest_arena.Node.{Node, max_keys, set_parent}
use btree_forest_arena.Node.View.{IsInternal}
use btree_forest_arena.Node.Edges.{insert_edge}
use btree_forest_arena.Node.Edges.Renumber.{contains-cons, deref-other, deref_self}
use btree_forest_arena.Node.Edges.Insert.{
  Children, EdgeInserted, insert_edge-EdgeInserted, contains-drop,
}
use btree_forest_arena.Tree.Defs.{Tree, addr, nodes}
use btree_forest_arena.Tree.Repr.{HasParent, Repr}
use btree_forest_arena.Tree.Agrees.{contains-concat}
use btree_forest_arena.Tree.Alike.{
  Alike, Alike-same, HasParent-Same, belows, Stays, Stays-same, Repr-Placed,
}
use btree_forest_arena.Tree.Apart.{
  false-not-true, outside, contains-place, apart-outside, root-outside, self-outside, addr-inside,
  children-Distinct, place_of, belows-nodes,
}

module _ {K V : Type 0} where
  pub Alike-parent :
      (n : Node K V) (p : Option NodePtr) (i : Option ℕ)
      → Alike n (record n { parent = p; parent_idx = i })
  Alike-parent n p i = record {
    as_leaf = λ es b a x. (
      b,
      a,
      record {
        l = x.l;
        is_leaf = x.is_leaf;
        count = x.count;
        fits = x.fits;
        has_keys = x.has_keys;
        has_vals = x.has_vals;
        before = x.before;
        after = x.after;
      },
    );
    as_internal = λ ks ps x. record {
      i = x.i;
      is_internal = x.is_internal;
      count = x.count;
      fits = x.fits;
      branches = x.branches;
      has_keys = x.has_keys;
      has_edges = x.has_edges;
    };
  }

module _ {S K V : Type 0} (store : Slab S (Node K V)) where
  pub record Root (s : S) (p : NodePtr) (up : Option (NodePtr × ℕ)) : Type 0 where
    pub n : Node K V
    pub live : store.deref p s ≡ some n
    pub has_parent : HasParent n up

  pub Repr-Root :
      (h : ℕ) (s : S) (up : Option (NodePtr × ℕ)) (t : Tree K V h)
      → Repr store h s up t
      → Root s (addr K V h t) up
  Repr-Root zero s up t r = record { n = r.n; live = r.live; has_parent = r.has_parent }
  Repr-Root (suc h) s up t r = record { n = r.0.n; live = r.0.live; has_parent = r.0.has_parent }

module _ {S K V : Type 0} (store : Slab S (Node K V)) (h : ℕ) (s : S) (up : Option (NodePtr × ℕ))
    (t : Tree K V (suc h)) (e : Tree K V h) (r : Repr store (suc h) s up t)
    (re : Repr store h s none e) where
  abbrev ps : List NodePtr
  ps = map (addr K V h) t.2

  none-some : (q : NodePtr × ℕ) → ◌≡◌ {A = Option (NodePtr × ℕ)} (some q) none → ⊥
  none-some q x = cc

  child-not_new :
      (j : ℕ) (c : Tree K V h) (q : NodePtr)
      → get_elem? t.2 j ≡ some c
      → contains (nodes K V h c) q ≡ true
      → contains (nodes K V h e) q ≡ false
  child-not_new j c q at has =
      apart-outside store h s (some (t.0, j)) none c e q (r.1 j c at) re (none-some (t.0, j)) has

  -- The child that an address of the list is of.
  listed :
      (l : ℕ) (q : NodePtr)
      → get_elem? ps l ≡ some q
      → (c : Tree K V h) × (get_elem? t.2 l ≡ some c) × (contains (nodes K V h c) q ≡ true)
  listed l q at =
      let (c, at_c, is) = get_elem?-map_inv (addr K V h) t.2 l at in
      (c, at_c, subst (λ x. contains (nodes K V h c) x ≡ true) is (addr-inside store h c))

  new_not_listed : (q : NodePtr) → contains (nodes K V h e) q ≡ true → contains ps q ≡ false
  new_not_listed q has = outside (contains ps q) (λ in_list.
      let (l, at) = contains-place ps q in_list in
      let (c, at_c, inside) = listed l q at in false-not-true (child-not_new l c q at_c inside) has)

  below_not_listed :
      (j : ℕ) (c : Tree K V h) (q : NodePtr)
      → get_elem? t.2 j ≡ some c
      → contains (belows K V h c) q ≡ true
      → contains (nodes K V h c) q ≡ true
      → contains ps q ≡ false
  below_not_listed j c q at below inside = outside (contains ps q) (λ in_list.
      let (l, at_l) = contains-place ps q in_list in
      let (d, at_d, is) = get_elem?-map_inv (addr K V h) t.2 l at_l in
      let (d', at_d', inside') = listed l q at_l in
      elim (Bool-cases (j == l)) [
        | inl same ↦
            let one : get_elem? t.2 l ≡ some c =
              subst (λ x. get_elem? t.2 x ≡ some c) (==→≡ j l same) at in
            let both : d ≡ c = cc in
            false-not-true (self-outside store h s (some (t.0, j)) c (r.1 j c at)) (
              subst (λ x. contains (belows K V h c) x ≡ true) (sym is ∙ ap (addr K V h) both) below)
        | inr differs ↦
            false-not-true
              (apart-outside store h s (some (t.0, j)) (some (t.0, l)) c d' q (r.1 j c at)
                (r.1 l d' at_d') (λ x. ==→≢ j l differs (place_of t.0 j l x)) inside)
              inside'
      ])

  first_not_later :
      (j i : ℕ) (q : NodePtr) → get_elem? ps j ≡ some q → j < i → contains (drop i ps) q ≡ false
  first_not_later j i q at less = outside (contains (drop i ps) q) (λ in_list.
      let (l, at_l) = contains-place (drop i ps) q in_list in
      let at_l' : get_elem? ps (i + l) ≡ some q = sym (get_elem?-drop i ps l) ∙ at_l in
      let (c, at_c, inside) = listed j q at in
      let (d, at_d, inside') = listed (i + l) q at_l' in
      false-not-true
        (apart-outside store h s (some (t.0, j)) (some (t.0, i + l)) c d q (r.1 j c at_c)
          (r.1 (i + l) d at_d) (λ x. omega (arith, less, place_of t.0 j (i + l) x)) inside)
        inside')

  not_root :
      (q : NodePtr) (up' : Option (NodePtr × ℕ)) (c : Tree K V h)
      → Repr store h s up' c
      → contains (nodes K V h c) q ≡ true
      → q ≡ t.0
      → ⊥
  not_root q up' c rc has same =
      false-not-true (root-outside store h s up up' t c r rc)
        (subst (λ x. contains (nodes K V h c) x ≡ true) same has)

  not_new_root : (q : NodePtr) → contains (nodes K V h e) q ≡ false → q ≡ addr K V h e → ⊥
  not_new_root q out same =
      false-not-true out
        (subst (λ x. contains (nodes K V h e) x ≡ true) (sym same) (addr-inside store h e))

  -- The root of the new tree, and what it is once its parent is set.
  root : Root store s (addr K V h e) none
  root = Repr-Root store h s none e re

  pub record Hung (idx : ℕ) (k : K) : Type 0 where
    pub s' : S
    pub runs :
        (rn : Node K V)
        → store.deref (addr K V h e) s ≡ some rn
        → insert_edge store t.0 idx true k
            (addr K V h e)
            (store.assign (addr K V h e) (set_parent rn t.0 (idx + 1)) s)
          ≡ some (tt, s')
    pub represented : Repr store (suc h) s' up (t.0, insert_at idx k t.1, insert_at (suc idx) e t.2)
    pub others :
        (q : NodePtr)
        → contains (nodes K V (suc h) t) q ≡ false
        → (q ≡ addr K V h e → ⊥)
        → store.deref q s' ≡ store.deref q s

  abbrev adopted : ℕ → S
  adopted idx = store.assign (addr K V h e) (set_parent root.n t.0 (idx + 1)) s

  before_insert :
      (idx : ℕ) (q : NodePtr)
      → (q ≡ addr K V h e → ⊥)
      → store.deref q (adopted idx) ≡ store.deref q s
  before_insert idx q apart = deref-other store q (set_parent root.n t.0 (idx + 1)) root.live apart

  t_not_new : t.0 ≡ addr K V h e → ⊥
  t_not_new = not_new_root t.0 (root-outside store h s up none t e r re)

  Children-before : (idx : ℕ) → Children store (adopted idx) t.0 ps
  Children-before idx = record {
    distinct = children-Distinct store h s up t r;
    no_loop = outside (contains ps t.0) (λ has.
        let (l, at) = contains-place ps t.0 has in
        let (c, at_c, inside) = listed l t.0 at in
        false-not-true (root-outside store h s up (some (t.0, l)) t c r (r.1 l c at_c)) inside);
    numbered = λ j q at.
        let (c, at_c, is) = get_elem?-map_inv (addr K V h) t.2 j at in
        let (c', at_c', inside) = listed j q at in
        let n = Repr-Root store h s (some (t.0, j)) c (r.1 j c at_c) in
        let live : store.deref q s ≡ some n.n = subst (λ x. store.deref x s ≡ some n.n) is n.live in
        (
          n.n,
          before_insert idx q (not_new_root q (child-not_new j c' q at_c' inside)) ∙ live,
          n.has_parent.1,
        );
  }

  inserted :
      (idx : ℕ) (k : K)
      → length t.1 < max_keys
      → idx ≤ length t.1
      → EdgeInserted store
          (adopted idx)
          t.0
          r.0.n
          t.1
          ps
          idx
          (idx + 1)
          k
          (addr K V h e)
          (insert_edge store t.0 idx true k (addr K V h e) (adopted idx))
  unfolding set_parent
  inserted idx k room le =
      insert_edge-EdgeInserted store (adopted idx) t.0 (addr K V h e) r.0.n
        (set_parent root.n t.0 (idx + 1)) t.1 ps idx true (idx + 1) k refl (omega (arith, le))
        (before_insert idx t.0 t_not_new ∙ r.0.live) r.0.internal room le (Children-before idx)
        (deref_self store (set_parent root.n t.0 (idx + 1)) root.live) refl refl

  module _ (idx : ℕ) (k : K) (room : length t.1 < max_keys) (le : idx ≤ length t.1) where
    abbrev x :
        EdgeInserted store
          (adopted idx)
          t.0
          r.0.n
          t.1
          ps
          idx
          (idx + 1)
          k
          (addr K V h e)
          (insert_edge store t.0 idx true k (addr K V h e) (adopted idx))
    x = inserted idx k room le

    untouched :
        (q : NodePtr)
        → (q ≡ t.0 → ⊥)
        → (q ≡ addr K V h e → ⊥)
        → contains (drop (idx + 1) ps) q ≡ false
        → store.deref q x.s' ≡ store.deref q s
    untouched q not_t not_e out = x.others q not_t out ∙ before_insert idx q not_e

    child-below :
        (j : ℕ) (c : Tree K V h) (q : NodePtr)
        → get_elem? t.2 j ≡ some c
        → contains (belows K V h c) q ≡ true
        → contains (nodes K V h c) q ≡ true
        → Stays store s x.s' q
    child-below j c q at below inside = Stays-same store s x.s' q (
        untouched q (not_root q (some (t.0, j)) c (r.1 j c at) inside)
          (not_new_root q (child-not_new j c q at inside))
          (contains-drop (idx + 1) ps q (below_not_listed j c q at below inside)))

    low-child :
        (j : ℕ) (c : Tree K V h)
        → get_elem? t.2 j ≡ some c
        → j < idx + 1
        → Repr store h x.s' (some (t.0, j)) c
    low-child j c at less =
        Repr-Placed store h s x.s' (some (t.0, j)) (some (t.0, j)) c
          (λ n live.
            let root_c = Repr-Root store h s (some (t.0, j)) c (r.1 j c at) in
            let one : root_c.n ≡ n = cc in
            let inside = addr-inside store h c in
            record {
              n' = n;
              live =
                  untouched (addr K V h c)
                    (not_root (addr K V h c) (some (t.0, j)) c (r.1 j c at) inside)
                    (not_new_root (addr K V h c) (child-not_new j c (addr K V h c) at inside))
                    (first_not_later j (idx + 1) (addr K V h c)
                      (get_elem?-map (addr K V h) t.2 j at) less)
                  ∙ live;
              alike = Alike-same n;
              has_parent = subst (λ m. HasParent m (some (t.0, j))) one root_c.has_parent;
            })
          (λ q below. child-below j c q at below (belows-nodes store h c q below)) (r.1 j c at)

    high-child :
        (l : ℕ) (c : Tree K V h)
        → get_elem? t.2 (idx + 1 + l) ≡ some c
        → Repr store h x.s' (some (t.0, idx + 1 + l + 1)) c
    high-child l c at =
        Repr-Placed store h s x.s' (some (t.0, idx + 1 + l)) (some (t.0, idx + 1 + l + 1)) c
          (λ n live.
            let root_c = Repr-Root store h s (some (t.0, idx + 1 + l)) c (r.1 (idx + 1 + l) c at) in
            let one : root_c.n ≡ n = cc in
            let inside = addr-inside store h c in
            record {
              n' = record n { parent_idx = some (idx + 1 + l + 1) };
              live =
                  x.moved l (addr K V h c) n
                    (get_elem?-drop (idx + 1) ps l
                      ∙ get_elem?-map (addr K V h) t.2 (idx + 1 + l) at)
                    (before_insert idx (addr K V h c) (
                        not_new_root (addr K V h c)
                          (child-not_new (idx + 1 + l) c (addr K V h c) at inside))
                      ∙ live);
              alike = Alike-parent n n.parent (some (idx + 1 + l + 1));
              has_parent = (ap (λ m. m.parent) (sym one) ∙ root_c.has_parent.0, refl);
            })
          (λ q below. child-below (idx + 1 + l) c q at below (belows-nodes store h c q below))
          (r.1 (idx + 1 + l) c at)

    new-child : Repr store h x.s' (some (t.0, idx + 1)) e
    unfolding set_parent
    new-child =
        Repr-Placed store h s x.s' none (some (t.0, idx + 1)) e
          (λ n live.
            let one : root.n ≡ n = cc (root.live, live) in
            let inside = addr-inside store h e in
            record {
              n' = set_parent root.n t.0 (idx + 1);
              live =
                  x.others (addr K V h e) (not_root (addr K V h e) none e re inside) (
                    contains-drop (idx + 1) ps (addr K V h e)
                      (new_not_listed (addr K V h e) inside))
                  ∙ deref_self store (set_parent root.n t.0 (idx + 1)) root.live;
              alike =
                  subst (λ m. Alike m (set_parent root.n t.0 (idx + 1))) one
                    (Alike-parent root.n (some t.0) (some (idx + 1)));
              has_parent = (refl, refl);
            })
          (λ q below.
            let inside = belows-nodes store h e q below in
            Stays-same store s x.s' q (
              untouched q (not_root q none e re inside)
                (λ same.
                  false-not-true (self-outside store h s none e re)
                    (subst (λ y. contains (belows K V h e) y ≡ true) same below))
                (contains-drop (idx + 1) ps q (new_not_listed q inside))))
          re

    -- The children of the node after the edge was inserted.
    child :
        (i : ℕ) (c : Tree K V h)
        → get_elem? (insert_at (suc idx) e t.2) i ≡ some c
        → Repr store h x.s' (some (t.0, i)) c
    child i c at =
        let split : (if ltb i (suc idx)
              then get_elem? t.2 i
              else if i == suc idx
              then some e
              else get_elem? t.2 (i - 1))
            ≡ some c =
          sym (
            get_elem?-insert_at (suc idx) e t.2 i
              (omega (arith, le, length-map (addr K V h) t.2, r.0.internal.branches)))
          ∙ at in
        elim (Bool-cases (ltb i (suc idx))) [
          | inl before ↦
              low-child i c (ground (arith, split, before))
                (omega (arith, ltb→lt i (suc idx) before))
          | inr behind ↦ elim (Bool-cases (i == suc idx)) [
            | inl here ↦
                let one : e ≡ c = ground (arith, split, behind, here) in
                subst (λ j. Repr store h x.s' (some (t.0, j)) c) {x = idx + 1} {y = i}
                  (omega (arith, ==→≡ i (suc idx) here))
                  (subst (Repr store h x.s' (some (t.0, idx + 1))) one new-child)
            | inr later ↦
                let past : suc idx < i =
                  omega (arith, ltb→le i (suc idx) behind, ==→≢ i (suc idx) later) in
                let old : get_elem? t.2 (i - 1) ≡ some c = ground (arith, split, behind, later) in
                subst (λ j. Repr store h x.s' (some (t.0, j)) c)
                  {x = idx + 1 + (i - 1 - (idx + 1)) + 1} {y = i} (omega (arith, past))
                  (high-child (i - 1 - (idx + 1)) c (
                    subst (λ j. get_elem? t.2 j ≡ some c) {x = i - 1}
                      {y = idx + 1 + (i - 1 - (idx + 1))} (omega (arith, past)) old))
          ]
        ]

    -- With room for one more key, `insert_edge` hangs the tree behind the child at `idx`.
    pub insert_edge-Hung : Hung idx k
    insert_edge-Hung = record {
      s' = x.s';
      runs = λ rn live.
          let one : root.n ≡ rn = cc (root.live, live) in
          subst
            (λ m.
              insert_edge store t.0 idx true k (addr K V h e)
                (store.assign (addr K V h e) (set_parent m t.0 (idx + 1)) s)
              ≡ some (tt, x.s'))
            one x.runs;
      represented = (
        record {
          n = x.n';
          live = x.live;
          internal =
              subst (IsInternal x.n' (insert_at idx k t.1))
                (ap (λ j. insert_at j (addr K V h e) ps) {x = idx + 1} {y = suc idx} (omega arith)
                  ∙ sym (map-insert_at (addr K V h) (suc idx) e t.2))
                x.internal;
          has_parent = HasParent-Same r.0.n x.n' up x.same_parent r.0.has_parent;
        },
        child,
      );
      others = λ q out not_e.
          let (not_t, not_below) = contains-cons q t.0 (concat (map (nodes K V h) t.2)) out in
          untouched q not_t not_e (
            contains-drop (idx + 1) ps q (
              outside (contains ps q) (λ in_list.
                let (l, at) = contains-place ps q in_list in
                let (c, at_c, inside) = listed l q at in
                false-not-true not_below (contains-concat (nodes K V h) t.2 l q at_c inside))));
    }
