-- ===== src/Map/Insert/Divide.antt =====
-- A full node takes in the second of the two trees that its child became, and becomes two nodes.
use btree_forest_arena.Prelude.{
  ℕ, suc, ◌+◌, ◌-◌, ◌≤◌, ◌≡◌, refl, ◌∙◌, sym, ap, subst, inl, inr, true, false, Bool-cases, Option,
  none, some, List, map, concat, arith, length, length-map, get_elem?, get_elem?-set,
  get_elem?-insert_at, get_elem?-drop, set, length-set, take, drop, insert_at, lt_length_of_get,
  contains, ltb, ◌==◌, if◌then◌else◌, ==→≡,
}
use btree_forest_arena.Prelude.Order.{Ord}
use btree_forest_arena.Store.{NodePtr, Slab, Run, and_then, ◌>>=◌, ◌>>◌, lift, alloc}
use btree_forest_arena.Store.Access.{as_ref-live, as_mut-live}
use btree_forest_arena.Node.{Node, max_keys, set_parent, parent, edges}
use btree_forest_arena.Node.Edges.{split_internal, adopt}
use btree_forest_arena.Node.Edges.Renumber.{contains-cons}
use btree_forest_arena.Node.Edges.Halves.{get-take}
use btree_forest_arena.Tree.{Tree, addr, nodes, entries}
use btree_forest_arena.Tree.Order.{IsParted, IsOrdered}
use btree_forest_arena.Tree.Repr.{Repr}
use btree_forest_arena.Tree.Agrees.{contains-concat, contains-head, contains-later}
use btree_forest_arena.Tree.Nodes.{contains-InChild, or-cases}
use btree_forest_arena.Tree.Apart.{false-not-true, outside, contains-place}
use btree_forest_arena.Tree.Hang.{Repr-Root}
use btree_forest_arena.Tree.Part.{hooked-other, listed, inside_of}
use btree_forest_arena.Tree.Share.{Shared, split-Shared, t_not_new}
use btree_forest_arena.Map.Defs.{BTreeMap}
use btree_forest_arena.Map.Drop.Frees.{edges_of_IsInternal}
use btree_forest_arena.Map.Insert.{insert_up}
use btree_forest_arena.Map.Insert.Grow.{IsFilled, Overflow}
use btree_forest_arena.Map.Insert.Halved.{Halved, IsOrdered-Halved}
use btree_forest_arena.Map.Insert.Absorb.{
  Repr-child, outside_child, with_both-entries, with_both-IsOrdered, with_both-IsFilled,
}

module _ {S K V : Type 0} (store : Slab S (Node K V)) where
  -- The rest of a round once the parent is split.
  abbrev go_up : ℕ → BTreeMap → NodePtr → K × Node K V → Run S BTreeMap
  go_up fuel m p y = do
    q ← alloc store y.1
    children ← lift (edges y.1)
    adopt store q children
    insert_up store fuel m p q y.0

  -- One round, if the parent is full.
  insert_up-full :
      (fuel : ℕ) (m : BTreeMap) (node right p q : NodePtr) (k key : K) (idx : ℕ) (s s₁ s₂ s₃ : S)
      (n rn pn x : Node K V) (children : List NodePtr)
      → store.deref node s ≡ some n
      → n.parent ≡ some p
      → n.parent_idx ≡ some idx
      → store.deref right s ≡ some rn
      → store.deref p (store.assign right (set_parent rn p (idx + 1)) s) ≡ some pn
      → ltb pn.len max_keys ≡ false
      → split_internal store p idx k right (store.assign right (set_parent rn p (idx + 1)) s)
        ≡ some ((key, x), s₁)
      → store.alloc x s₁ ≡ (q, s₂)
      → edges x ≡ some children
      → adopt store q children s₂ ≡ some (tt, s₃)
      → insert_up store (suc fuel) m node right k s ≡ insert_up store fuel m p q key s₃
  unfolding insert_up parent alloc
  insert_up-full fuel m node right p q k key idx s s₁ s₂ s₃ n rn pn x children live has index
        live_right live_p full splits allocates is adopts =
      rw
        (
          as_ref-live store live,
          has,
          index,
          as_ref-live store live_right,
          as_mut-live store (set_parent rn p (idx + 1)) live_right,
          as_ref-live store live_p,
        )
        (ground (arith, full, tail))
    where
      tail :
          and_then
            (split_internal store p idx k right (store.assign right (set_parent rn p (idx + 1)) s))
            (go_up fuel m p)
          ≡ insert_up store fuel m p q key s₃
      tail = rw (splits, allocates, is, adopts) refl

module _ {S K V : Type 0} ⦃o : Ord K⦄ (store : Slab S (Node K V)) (levels : ℕ) (m : BTreeMap)
    (h : ℕ) (s : S) (up : Option (NodePtr × ℕ)) (t : Tree K V (suc h)) (idx : ℕ) (c : Tree K V h)
    (es : List (K × V)) (run : Option (BTreeMap × S)) (r : Repr store (suc h) s up t)
    (at : get_elem? t.2 idx ≡ some c)
    (f : Overflow store levels m s h (some (t.0, idx)) c es run) where
  mid : Repr store (suc h) f.s' up (t.0, t.1, set t.2 idx f.t₁)
  mid = Repr-child store h s f.s' up t r idx c f.t₁ at f.same_addr f.others f.left

  within : idx ≤ length t.1
  within =
      omega (arith, r.0.internal.branches, length-map (addr K V h) t.2, lt_length_of_get t.2 idx at)

  abbrev family : List (Tree K V h)
  family = insert_at (suc idx) f.t₂ (set t.2 idx f.t₁)

  -- The nodes of the children that were there before are nodes of the tree.
  family-inside :
      (i : ℕ) (d : Tree K V h) (q : NodePtr) (n : Node K V)
      → get_elem? family i ≡ some d
      → contains (nodes K V h d) q ≡ true
      → store.deref q s ≡ some n
      → contains (nodes K V (suc h) t) q ≡ true
  family-inside i d q n at_d has live =
      let split : (if ltb i (suc idx)
            then get_elem? (set t.2 idx f.t₁) i
            else if i == suc idx
            then some f.t₂
            else get_elem? (set t.2 idx f.t₁) (i - 1))
          ≡ some d =
        sym (
          get_elem?-insert_at (suc idx) f.t₂ (set t.2 idx f.t₁) i
            (omega (arith, length-set t.2 idx f.t₁, lt_length_of_get t.2 idx at)))
        ∙ at_d in
      elim (Bool-cases (ltb i (suc idx))) [
        | inl before ↦ old i (ground (arith, split, before))
        | inr behind ↦ elim (Bool-cases (i == suc idx)) [
          | inl here ↦
              let one : f.t₂ ≡ d = ground (arith, split, behind, here) in
              in_child (
                f.right_within q n live
                  (subst (λ x. contains (nodes K V h x) q ≡ true) (sym one) has))
          | inr later ↦ old (i - 1) (ground (arith, split, behind, later))
        ]
      ]
    where
      in_child : contains (nodes K V h c) q ≡ true → contains (nodes K V (suc h) t) q ≡ true
      in_child inside =
          contains-later t.0 q (concat (map (nodes K V h) t.2))
            (contains-concat (nodes K V h) t.2 idx q at inside)

      old :
          (j : ℕ)
          → get_elem? (set t.2 idx f.t₁) j ≡ some d
          → contains (nodes K V (suc h) t) q ≡ true
      old j at_j =
          let split : (if j == idx then some f.t₁ else get_elem? t.2 j) ≡ some d =
            sym (get_elem?-set t.2 idx f.t₁ j (lt_length_of_get t.2 idx at)) ∙ at_j in
          elim (Bool-cases (j == idx)) [
            | inl same ↦
                let one : f.t₁ ≡ d = ground (arith, split, same) in
                in_child (
                  f.left_within q n live
                    (subst (λ x. contains (nodes K V h x) q ≡ true) (sym one) has))
            | inr differs ↦
                contains-later t.0 q (concat (map (nodes K V h) t.2))
                  (contains-concat (nodes K V h) t.2 j q (ground (arith, split, differs)) has)
          ]

  module _ (full : length t.1 ≡ max_keys) (ord : IsOrdered K V (suc h) t)
      (filled : IsFilled K V (suc h) t)
      (parted : IsParted t.1 (set (map (entries K V h) t.2) idx es)) (deep : suc h ≤ levels) where
    x : Shared store h f.s' up (t.0, t.1, set t.2 idx f.t₁) f.t₂ mid f.right idx within f.k
    x =
        split-Shared store h f.s' up (t.0, t.1, set t.2 idx f.t₁) f.t₂ mid f.right idx within f.k
          full

    halved : Halved K V h t.0 x.right (insert_at idx f.k t.1) family x.key
    halved =
        IsOrdered-Halved K V h t.0 x.right (insert_at idx f.k t.1) family x.key x.split_key
          (with_both-IsOrdered K V h t idx c f.k f.t₁ f.t₂ at ord
            (subst (λ xs. IsParted t.1 (set (map (entries K V h) t.2) idx xs)) (sym f.joined)
              parted)
            f.left_ordered f.right_ordered f.cut)
          (with_both-IsFilled K V h t idx c f.k f.t₁ f.t₂ filled f.left_filled f.right_filled)

    unlisted :
        (q : NodePtr) (n : Node K V)
        → contains (nodes K V (suc h) t) q ≡ false
        → store.deref q s ≡ some n
        → contains (insert_at (idx + 1) (addr K V h f.t₂) (map (addr K V h) (set t.2 idx f.t₁))) q
          ≡ false
    unlisted q n out live =
        outside
          (contains (insert_at (idx + 1) (addr K V h f.t₂) (map (addr K V h) (set t.2 idx f.t₁))) q)
          (λ has.
            let (i, at_i) =
              contains-place
                (insert_at (idx + 1) (addr K V h f.t₂) (map (addr K V h) (set t.2 idx f.t₁))) q
                has in
            let (d, at_d, is) =
              listed store h f.s' up (t.0, t.1, set t.2 idx f.t₁) f.t₂ mid f.right idx within i q
                at_i in
            let inside =
              inside_of store h f.s' up (t.0, t.1, set t.2 idx f.t₁) f.t₂ mid f.right idx within d q
                is in
            false-not-true out (family-inside i d q n at_d inside live))

    run_up : run ≡ insert_up store f.fuel m t.0 x.right x.key x.s'
    run_up =
        let node = Repr-Root store h f.s' (some (t.0, idx)) f.t₁ f.left in
        let new = Repr-Root store h f.s' none f.t₂ f.right in
        f.runs
        ∙ insert_up-full store f.fuel m (addr K V h f.t₁) (addr K V h f.t₂) t.0 x.right f.k x.key
            idx f.s' x.s₁ x.s₂ x.s' node.n new.n mid.0.n x.rn _ node.live node.has_parent.0
            node.has_parent.1 new.live
            (hooked-other store h f.s' up (t.0, t.1, set t.2 idx f.t₁) f.t₂ mid f.right idx within
                t.0
                (t_not_new store h f.s' up (t.0, t.1, set t.2 idx f.t₁) f.t₂ mid f.right idx within
                  f.k full)
              ∙ mid.0.live)
            (ground (arith, mid.0.internal.count, full)) x.splits x.allocates
            (edges_of_IsInternal x.right_internal) x.adopts

    pub Overflow-Divided :
        Overflow store levels m s (suc h) up t (concat (set (map (entries K V h) t.2) idx es)) run
    Overflow-Divided = record {
      fuel = f.fuel - 1;
      s' = x.s';
      t₁ = (t.0, take 4 (insert_at idx f.k t.1), take 5 family);
      t₂ = (x.right, drop 5 (insert_at idx f.k t.1), drop 5 family);
      k = x.key;
      fuel_left = omega (arith, f.fuel_left, deep);
      runs =
          run_up
          ∙ ap (λ j. insert_up store j m t.0 x.right x.key x.s') {x = f.fuel} {y = suc (f.fuel - 1)}
              (omega (arith, f.fuel_left, deep));
      same_addr = refl;
      apart = λ same. x.fresh t.0 mid.0.n mid.0.live same;
      left = x.represented_left;
      right = x.represented_right;
      left_ordered = halved.left_ordered;
      right_ordered = halved.right_ordered;
      left_filled = halved.left_filled;
      right_filled = halved.right_filled;
      cut = halved.cut;
      joined =
          halved.joined
          ∙ with_both-entries K V h t idx c f.k f.t₁ f.t₂ at
          ∙ ap (λ xs. concat (set (map (entries K V h) t.2) idx xs)) f.joined;
      others = λ q out n live.
          let a = f.others q (outside_child K V h t idx c at q out) n live in
          record {
            n' = a.n';
            live =
                x.others q a.n' (contains-cons q t.0 (concat (map (nodes K V h) t.2)) out).0
                  (unlisted q n out live) a.live;
            alike = a.alike;
            same_parent = a.same_parent;
          };
      left_within = λ q n live has.
          elim (or-cases (q == t.0) (contains (concat (map (nodes K V h) (take 5 family))) q) has) [
            | inl here ↦
                subst (λ y. contains (nodes K V (suc h) t) y ≡ true) (sym (==→≡ q t.0 here))
                  (contains-head t.0 (concat (map (nodes K V h) t.2)))
            | inr later ↦
                let j = contains-InChild K V h (take 5 family) q later in
                family-inside j.i j.c q n (get-take 5 family j.i j.at).1 j.has live
          ];
      right_within = λ q n live has.
          elim (or-cases (q == x.right) (contains (concat (map (nodes K V h) (drop 5 family))) q)
            has) [
              | inl here ↦ elim (Bool-cases (contains (nodes K V (suc h) t) q)) [
                | inl inside ↦ inside
                | inr out ↦
                    let a = f.others q (outside_child K V h t idx c at q out) n live in
                    absurd (x.fresh q a.n' a.live (==→≡ q x.right here))
              ]
              | inr later ↦
                  let j = contains-InChild K V h (drop 5 family) q later in
                  family-inside (5 + j.i) j.c q n (sym (get_elem?-drop 5 family j.i) ∙ j.at) j.has
                    live
            ];
    }
