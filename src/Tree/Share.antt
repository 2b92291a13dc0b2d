-- ===== src/Tree/Share.antt =====
-- `split_internal` and `adopt` on a represented tree: a full node with a new child becomes two nodes.
use btree_forest_arena.Prelude.{
  ℕ, suc, ◌+◌, ◌-◌, ◌<◌, ◌≤◌, ◌≡◌, refl, ◌∙◌, sym, ap, subst, inl, inr, true, false, Bool-cases,
  Option, none, some, List, map, map-take, map-drop, arith, length, get_elem?, get_elem?-map,
  get_elem?-drop, get_elem?-take, take, drop, insert_at, contains, ◌==◌, ==→≡, ==→≢, ne→==, ==_refl,
  ltb, ltb→lt, ltb→le,
}
use btree_forest_arena.Store.{NodePtr, Slab}
use btree_forest_arena.Node.{Node, max_keys}
use btree_forest_arena.Node.View.{IsInternal}
use btree_forest_arena.Node.Edges.{split_internal, adopt}
use btree_forest_arena.Node.Edges.Renumber.{Touched, contains-get, adopt-Touched}
use btree_forest_arena.Node.Edges.Insert.{contains-drop, Distinct-drop}
use btree_forest_arena.Node.Edges.Halves.{get-take, Distinct-apart}
use btree_forest_arena.Node.Edges.Shift.{inserted_at}
use btree_forest_arena.Node.Edges.Split.{InternalSplit, split_internal-InternalSplit}
use btree_forest_arena.Tree.Defs.{Tree, addr, nodes}
use btree_forest_arena.Tree.Repr.{Repr}
use btree_forest_arena.Tree.Nodes.{nodes-live}
use btree_forest_arena.Tree.Alike.{Stays-same, Repr-Placed, belows, HasParent-Same}
use btree_forest_arena.Tree.Apart.{
  false-not-true, outside, contains-place, root-outside, addr-inside, belows-nodes,
}
use btree_forest_arena.Tree.Hang.{Alike-parent, Repr-Root}
use btree_forest_arena.Tree.Part.{
  cs, qs, qs-eq, hooked, hooked-other, listed, not_root, below_not_listed, child-Repr, child-Hooked,
  old_place, qs-Distinct, qs-no_loop, qs-Numbered,
}

module _ {S K V : Type 0} (store : Slab S (Node K V)) (h : ℕ) (s : S) (up : Option (NodePtr × ℕ))
    (t : Tree K V (suc h)) (e : Tree K V h) (r : Repr store (suc h) s up t)
    (re : Repr store h s none e) (idx : ℕ) (le : idx ≤ length t.1) where
  abbrev hook : S
  hook = hooked store h s up t e r re idx le

  abbrev all : List NodePtr
  all = qs store h s up t e r re idx le

  abbrev family : List (Tree K V h)
  family = cs store h s up t e r re idx le

  all-eq : map (addr K V h) family ≡ all
  all-eq = qs-eq store h s up t e r re idx le

  -- The tree and the new one have become two trees with the same children, and the key between them.
  pub record Shared (k : K) : Type 0 where
    pub s₁ : S
    pub s₂ : S
    pub s' : S
    pub right : NodePtr
    pub key : K
    pub rn : Node K V
    pub splits : split_internal store t.0 idx k (addr K V h e) hook ≡ some ((key, rn), s₁)
    pub allocates : store.alloc rn s₁ ≡ (right, s₂)
    pub right_internal : IsInternal rn (drop 5 (insert_at idx k t.1)) (drop 5 all)
    pub adopts : adopt store right (drop 5 all) s₂ ≡ some (tt, s')
    pub split_key : get_elem? (insert_at idx k t.1) 4 ≡ some key
    pub fresh : (q : NodePtr) (n : Node K V) → store.deref q s ≡ some n → q ≡ right → ⊥
    pub represented_left :
        Repr store (suc h) s' up (t.0, take 4 (insert_at idx k t.1), take 5 family)
    pub represented_right :
        Repr store (suc h) s' none (right, drop 5 (insert_at idx k t.1), drop 5 family)
    pub others :
        (q : NodePtr) (n : Node K V)
        → (q ≡ t.0 → ⊥)
        → contains all q ≡ false
        → store.deref q s ≡ some n
        → store.deref q s' ≡ some n

  module _ (k : K) (full : length t.1 ≡ max_keys) where
    abbrev ks : List K
    ks = insert_at idx k t.1

    pub t_not_new : t.0 ≡ addr K V h e → ⊥
    t_not_new same =
        false-not-true (root-outside store h s up none t e r re)
          (subst (λ x. contains (nodes K V h e) x ≡ true) (sym same) (addr-inside store h e))

    cut :
        InternalSplit store hook t.0 r.0.n ks all
          (split_internal store t.0 idx k (addr K V h e) hook)
    cut =
        split_internal-InternalSplit store hook t.0 (addr K V h e) r.0.n t.1 (map (addr K V h) t.2)
          idx k (hooked-other store h s up t e r re idx le t.0 t_not_new ∙ r.0.live) r.0.internal
          full le (qs-Distinct store h s up t e r re idx le)
          (qs-no_loop store h s up t e r re idx le) (qs-Numbered store h s up t e r re idx le)

    -- A node that is no child and not the root is untouched by the split.
    cut-other :
        (q : NodePtr)
        → (q ≡ t.0 → ⊥)
        → contains all q ≡ false
        → store.deref q cut.s' ≡ store.deref q s
    cut-other q not_t out =
        cut.others q not_t out
        ∙ hooked-other store h s up t e r re idx le q (λ same.
          let has : contains all q ≡ true =
            subst (λ y. contains all y ≡ true) (sym same) contains-new in
          false-not-true out has)
      where
        contains-new : contains all (addr K V h e) ≡ true
        contains-new = contains-get all (idx + 1) (
            inserted_at store (idx + 1) (addr K V h e) (map (addr K V h) t.2)
              (omega (arith, le, r.0.internal.branches)))

    listed_at :
        (i : ℕ) (c : Tree K V h)
        → get_elem? family i ≡ some c
        → get_elem? all i ≡ some (addr K V h c)
    listed_at i c at =
        ap (λ xs. get_elem? xs i) (sym all-eq) ∙ get_elem?-map (addr K V h) family i at

    -- The root of a child after the split.
    abbrev child_root :
        (i : ℕ) (c : Tree K V h) (n : Node K V)
        → get_elem? family i ≡ some c
        → store.deref (addr K V h c) s ≡ some n
        → Node K V
    child_root i c n at live = (child-Hooked store h s up t e r re idx le i c n at live).m

    low_root :
        (i : ℕ) (c : Tree K V h) (n : Node K V)
        → get_elem? family i ≡ some c
        → i < 5
        → store.deref (addr K V h c) s ≡ some n
        → store.deref (addr K V h c) cut.s'
          ≡ some (record n { parent = some t.0; parent_idx = some i })
    low_root i c n at lt live =
        let x = child-Hooked store h s up t e r re idx le i c n at live in
        cut.left_children i (addr K V h c) x.m
          (get_elem?-take 5 all i ∙ (ground (arith, lt, listed_at i c at))) x.live
        ∙ ap (λ a. some (record x.m { parent = a; parent_idx = some i })) x.has_parent
        ∙ ap some (x.same (some t.0) (some i))

    high_root :
        (i : ℕ) (c : Tree K V h) (n : Node K V)
        → get_elem? family (5 + i) ≡ some c
        → store.deref (addr K V h c) s ≡ some n
        → store.deref (addr K V h c) cut.s'
          ≡ some (record n { parent = some t.0; parent_idx = some i })
    high_root i c n at live =
        let x = child-Hooked store h s up t e r re idx le (5 + i) c n at live in
        cut.right_children i (addr K V h c) x.m (get_elem?-drop 5 all i ∙ listed_at (5 + i) c at)
          x.live
        ∙ ap (λ a. some (record x.m { parent = a; parent_idx = some i })) x.has_parent
        ∙ ap some (x.same (some t.0) (some i))

    stays_live :
        (q : NodePtr) (n : Node K V)
        → store.deref q s ≡ some n
        → (m : Node K V) × (store.deref q cut.s' ≡ some m)
    stays_live q n live = elim (Bool-cases (q == t.0)) [
      | inl top ↦ (cut.ln, ap (λ x. store.deref x cut.s') (==→≡ q t.0 top) ∙ cut.live)
      | inr below ↦ elim (Bool-cases (contains all q)) [
        | inl has ↦
            let (i, at) = contains-place all q has in
            let (c, at_c, is) = listed store h s up t e r re idx le i q at in
            let live' : store.deref (addr K V h c) s ≡ some n =
              subst (λ x. store.deref x s ≡ some n) (sym is) live in
            elim (Bool-cases (ltb i 5)) [
              | inl low ↦ (
                record n { parent = some t.0; parent_idx = some i },
                ap (λ x. store.deref x cut.s') (sym is)
                    ∙ low_root i c n at_c (ltb→lt i 5 low) live',
              )
              | inr high ↦
                  let there : get_elem? family (5 + (i - 5)) ≡ some c =
                    subst (λ j. get_elem? family j ≡ some c) {x = i} {y = 5 + (i - 5)}
                      (omega (arith, ltb→le i 5 high)) at_c in
                  (
                    record n { parent = some t.0; parent_idx = some (i - 5) },
                    ap (λ x. store.deref x cut.s') (sym is) ∙ high_root (i - 5) c n there live',
                  )
            ]
        | inr out ↦ (n, cut-other q (==→≢ q t.0 below) out ∙ live)
      ]
    ]

    abbrev right : NodePtr
    right = (store.alloc cut.rn cut.s').0

    abbrev placed : S
    placed = (store.alloc cut.rn cut.s').1

    new : (q : NodePtr) (n : Node K V) → store.deref q s ≡ some n → q ≡ right → ⊥
    new q n live same =
        let (m, live') = stays_live q n live in
        let there : store.deref right cut.s' ≡ some m =
          subst (λ x. store.deref x cut.s' ≡ some m) same live' in
        cc (store.alloc_fresh cut.rn cut.s')

    placed-other : (q : NodePtr) → (q ≡ right → ⊥) → store.deref q placed ≡ store.deref q cut.s'
    placed-other q apart = store.deref-alloc q cut.rn cut.s' ∙ rw (ne→== q right apart)

    child_live :
        (i : ℕ) (q : NodePtr)
        → get_elem? all i ≡ some q
        → (c : Tree K V h) × (n : Node K V) × (get_elem? family i ≡ some c)
          × (addr K V h c ≡ q)
          × (store.deref q s ≡ some n)
    child_live i q at =
        let (c, at_c, is) = listed store h s up t e r re idx le i q at in
        let root =
          Repr-Root store h s (old_place t.0 idx i) c
            (child-Repr store h s up t e r re idx le i c at_c) in
        (c, root.n, at_c, is, subst (λ x. store.deref x s ≡ some root.n) is root.live)

    adopted :
        Touched store placed
          (drop 5 all)
          0
          (λ j n. record n { parent = some right })
          (adopt store right (drop 5 all) placed)
    adopted =
        adopt-Touched store placed right (drop 5 all) 0
          (Distinct-drop 5 all (qs-Distinct store h s up t e r re idx le))
          (λ j q at.
            let (c, n, at_c, is, live) = child_live (5 + j) q (sym (get_elem?-drop 5 all j) ∙ at) in
            let (m, live') = stays_live q n live in (m, placed-other q (new q n live) ∙ live'))

    below_child :
        (i : ℕ) (c : Tree K V h) (q : NodePtr)
        → get_elem? family i ≡ some c
        → contains (belows K V h c) q ≡ true
        → store.deref q adopted.s' ≡ store.deref q s
    below_child i c q at below =
        let inside = belows-nodes store h c q below in
        let out = below_not_listed store h s up t e r re idx le i c q at below in
        let (n, live) =
          nodes-live store h s (old_place t.0 idx i) c q
            (child-Repr store h s up t e r re idx le i c at) inside in
        adopted.others q (contains-drop 5 all q out)
        ∙ placed-other q (new q n live)
        ∙ cut-other q (not_root store h s up t e r re idx le i c q at inside) out

    low_child :
        (i : ℕ) (c : Tree K V h)
        → get_elem? (take 5 family) i ≡ some c
        → Repr store h adopted.s' (some (t.0, i)) c
    low_child i c at =
        let (lt, at_c) = get-take 5 family i at in
        Repr-Placed store h s adopted.s' (old_place t.0 idx i) (some (t.0, i)) c
          (λ n live. record {
            n' = record n { parent = some t.0; parent_idx = some i };
            live =
                adopted.others (addr K V h c) (
                  Distinct-apart 5 all i (qs-Distinct store h s up t e r re idx le)
                    (listed_at i c at_c) lt)
                ∙ placed-other (addr K V h c) (new (addr K V h c) n live)
                ∙ low_root i c n at_c lt live;
            alike = Alike-parent n (some t.0) (some i);
            has_parent = (refl, refl);
          })
          (λ q below. Stays-same store s adopted.s' q (below_child i c q at_c below))
          (child-Repr store h s up t e r re idx le i c at_c)

    high_child :
        (i : ℕ) (c : Tree K V h)
        → get_elem? (drop 5 family) i ≡ some c
        → Repr store h adopted.s' (some (right, i)) c
    high_child i c at =
        let at_c : get_elem? family (5 + i) ≡ some c = sym (get_elem?-drop 5 family i) ∙ at in
        Repr-Placed store h s adopted.s' (old_place t.0 idx (5 + i)) (some (right, i)) c
          (λ n live. record {
            n' = record n { parent = some right; parent_idx = some i };
            live =
                adopted.moved i (addr K V h c) (record n { parent = some t.0; parent_idx = some i })
                  (get_elem?-drop 5 all i ∙ listed_at (5 + i) c at_c)
                  (placed-other (addr K V h c) (new (addr K V h c) n live)
                    ∙ high_root i c n at_c live);
            alike = Alike-parent n (some right) (some i);
            has_parent = (refl, refl);
          })
          (λ q below. Stays-same store s adopted.s' q (below_child (5 + i) c q at_c below))
          (child-Repr store h s up t e r re idx le (5 + i) c at_c)

    right_not_listed : contains (drop 5 all) right ≡ false
    right_not_listed = outside (contains (drop 5 all) right) (λ has.
        let (i, at) = contains-place (drop 5 all) right has in
        let (c, n, at_c, is, live) = child_live (5 + i) right (sym (get_elem?-drop 5 all i) ∙ at) in
        new right n live refl)

    -- `split_internal` on a full node with a new child, and `adopt` of the children of the right node.
    pub split-Shared : Shared k
    split-Shared = record {
      s₁ = cut.s';
      s₂ = placed;
      s' = adopted.s';
      right = right;
      key = cut.key;
      rn = cut.rn;
      splits = cut.runs;
      allocates = refl;
      right_internal = cut.right;
      adopts = adopted.runs;
      split_key = cut.split_key;
      fresh = new;
      represented_left = (
        record {
          n = cut.ln;
          live =
              adopted.others t.0 (contains-drop 5 all t.0 (qs-no_loop store h s up t e r re idx le))
              ∙ placed-other t.0 (new t.0 r.0.n r.0.live)
              ∙ cut.live;
          internal =
              subst (IsInternal cut.ln (take 4 ks))
                (ap (take 5) (sym all-eq) ∙ sym (map-take (addr K V h) 5 family)) cut.left;
          has_parent = HasParent-Same r.0.n cut.ln up cut.same_parent r.0.has_parent;
        },
        low_child,
      );
      represented_right = (
        record {
          n = cut.rn;
          live =
              adopted.others right right_not_listed
              ∙ store.deref-alloc right cut.rn cut.s'
              ∙ rw (==_refl right) refl;
          internal =
              subst (IsInternal cut.rn (drop 5 ks))
                (ap (drop 5) (sym all-eq) ∙ sym (map-drop (addr K V h) 5 family)) cut.right;
          has_parent = cut.no_parent;
        },
        high_child,
      );
      others = λ q n not_t out live.
          adopted.others q (contains-drop 5 all q out)
          ∙ placed-other q (new q n live)
          ∙ cut-other q not_t out
          ∙ live;
    }
