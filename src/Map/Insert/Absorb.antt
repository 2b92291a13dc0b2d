-- ===== src/Map/Insert/Absorb.antt =====
-- A node with room takes in the second of the two trees that its child became.
use btree_forest_arena.Prelude.{
  ℕ, suc, ◌+◌, ◌<◌, ◌≤◌, ◌≡◌, refl, ◌∙◌, sym, ap, subst, inl, inr, true, false, Option, none, some,
  List, ◌++◌, map, concat, arith, length, length-map, get_elem?, get_elem?-map, get_elem?-set, set,
  insert_at, map-insert_at, map-set, set_same, lt_length_of_get, contains, ◌==◌, if◌then◌else◌,
  Bool-cases, ==→≡, ==→≢,
}
use btree_forest_arena.Prelude.Order.{Ord}
use btree_forest_arena.Store.{NodePtr, Slab}
use btree_forest_arena.Node.{Node, max_keys, set_parent}
use btree_forest_arena.Node.Edges.Renumber.{contains-cons, deref-other}
use btree_forest_arena.Tree.{Tree, addr, nodes, entries}
use btree_forest_arena.Tree.Order.{IsParted, IsOrdered}
use btree_forest_arena.Tree.Repr.{InternalAt, Repr}
use btree_forest_arena.Tree.Agrees.{contains-concat}
use btree_forest_arena.Tree.Nodes.{contains-InChild, or-cases}
use btree_forest_arena.Tree.Alike.{
  Stays, Stays-same, Stays-trans, Repr-Stays, InternalAt-Placed, Kept-Placed,
}
use btree_forest_arena.Tree.Apart.{
  false-not-true, outside, apart-outside, root-outside, addr-inside, place_of,
}
use btree_forest_arena.Tree.Cut.{Cut, Cut-CutRuns, concat-cut, All-insert_at}
use btree_forest_arena.Tree.Descent.{All-set}
use btree_forest_arena.Tree.Hang.{Repr-Root, insert_edge-Hung}
use btree_forest_arena.Map.Defs.{BTreeMap}
use btree_forest_arena.Map.Insert.Grow.{IsFilled, Absorbed, Overflow, insert_up-room}

module _ {S K V : Type 0} ⦃o : Ord K⦄ (store : Slab S (Node K V)) (h : ℕ) (s s' : S)
    (up : Option (NodePtr × ℕ)) (t : Tree K V (suc h)) (r : Repr store (suc h) s up t) (idx : ℕ)
    (c c' : Tree K V h) (at : get_elem? t.2 idx ≡ some c) (same_addr : addr K V h c' ≡ addr K V h c)
    (others : (q : NodePtr) → contains (nodes K V h c) q ≡ false → Stays store s s' q) where
  same_addrs : map (addr K V h) (set t.2 idx c') ≡ map (addr K V h) t.2
  same_addrs =
      map-set (addr K V h) t.2 idx c'
      ∙ ap (set (map (addr K V h) t.2) idx) same_addr
      ∙ set_same (map (addr K V h) t.2) idx (addr K V h c) (get_elem?-map (addr K V h) t.2 idx at)

  -- One child was changed and keeps its place: the tree with the changed child is represented.
  pub Repr-child :
      Repr store h s' (some (t.0, idx)) c' → Repr store (suc h) s' up (t.0, t.1, set t.2 idx c')
  Repr-child changed = (
    subst (InternalAt store s' up t.0 t.1) (sym same_addrs) (
        InternalAt-Placed store up r.0 (
          Kept-Placed store up r.0.has_parent (
            others t.0 (root-outside store h s up (some (t.0, idx)) t c r (r.1 idx c at)) r.0.n
              r.0.live))),
    λ i d at_d.
        let split : (if i == idx then some c' else get_elem? t.2 i) ≡ some d =
          sym (get_elem?-set t.2 idx c' i (lt_length_of_get t.2 idx at)) ∙ at_d in
        elim (Bool-cases (i == idx)) [
          | inl same ↦
              let here : c' ≡ d = ground (arith, split, same) in
              subst (λ j. Repr store h s' (some (t.0, j)) d) (sym (==→≡ i idx same))
                (subst (Repr store h s' (some (t.0, idx))) here changed)
          | inr differs ↦
              let there : get_elem? t.2 i ≡ some d = ground (arith, split, differs) in
              Repr-Stays store h s s' (some (t.0, i)) d
                (λ q inside. others q (
                  apart-outside store h s (some (t.0, i)) (some (t.0, idx)) d c q (r.1 i d there)
                    (r.1 idx c at) (λ x. ==→≢ i idx differs (place_of t.0 i idx x)) inside))
                (r.1 i d there)
        ],
  )

-- The tree after its child at `idx` became the two trees `c₁` and `c₂`, with the key `k` between them.
abbrev pub with_both :
    (K V : Type 0) (h : ℕ) → Tree K V (suc h) → ℕ → K → Tree K V h → Tree K V h → Tree K V (suc h)
with_both K V h t idx k c₁ c₂ = (t.0, insert_at idx k t.1, insert_at (suc idx) c₂ (set t.2 idx c₁))

module _ (K V : Type 0) ⦃o : Ord K⦄ (h : ℕ) (t : Tree K V (suc h)) (idx : ℕ) (c : Tree K V h)
    (k : K) (c₁ c₂ : Tree K V h) where
  runs_of_both :
      map (entries K V h) (insert_at (suc idx) c₂ (set t.2 idx c₁))
      ≡ insert_at
          (suc idx)
          (entries K V h c₂)
          (set (map (entries K V h) t.2) idx (entries K V h c₁))
  runs_of_both =
      map-insert_at (entries K V h) (suc idx) c₂ (set t.2 idx c₁)
      ∙ ap (insert_at (suc idx) (entries K V h c₂)) (map-set (entries K V h) t.2 idx c₁)

  pub with_both-entries :
      get_elem? t.2 idx ≡ some c
      → entries K V (suc h) (with_both K V h t idx k c₁ c₂)
        ≡ concat (set (map (entries K V h) t.2) idx (entries K V h c₁ ++ entries K V h c₂))
  with_both-entries at =
      ap concat runs_of_both
      ∙ concat-cut (map (entries K V h) t.2) idx (entries K V h c₁) (entries K V h c₂)
          (get_elem?-map (entries K V h) t.2 idx at)

  pub with_both-IsOrdered :
      get_elem? t.2 idx ≡ some c
      → IsOrdered K V (suc h) t
      → IsParted t.1 (set (map (entries K V h) t.2) idx (entries K V h c₁ ++ entries K V h c₂))
      → IsOrdered K V h c₁
      → IsOrdered K V h c₂
      → Cut k (entries K V h c₁) (entries K V h c₂)
      → IsOrdered K V (suc h) (with_both K V h t idx k c₁ c₂)
  with_both-IsOrdered at ord parted ord₁ ord₂ cut =
      let runs =
        Cut-CutRuns t.1 (map (entries K V h) t.2) idx k (entries K V h c₁) (entries K V h c₂)
          (get_elem?-map (entries K V h) t.2 idx at) ord.0 parted cut in
      (
        runs.sorted,
        subst (IsParted (insert_at idx k t.1)) (sym runs_of_both) runs.parted,
        All-insert_at (IsOrdered K V h) (set t.2 idx c₁) (suc idx) c₂ ord₂
            (All-set (IsOrdered K V h) t.2 idx c₁ ord.2 ord₁),
      )

  pub with_both-IsFilled :
      IsFilled K V (suc h) t
      → IsFilled K V h c₁
      → IsFilled K V h c₂
      → IsFilled K V (suc h) (with_both K V h t idx k c₁ c₂)
  with_both-IsFilled filled filled₁ filled₂ =
      All-insert_at (IsFilled K V h) (set t.2 idx c₁) (suc idx) c₂ filled₂
        (All-set (IsFilled K V h) t.2 idx c₁ filled filled₁)

module _ (K V : Type 0) (h : ℕ) (t : Tree K V (suc h)) (idx : ℕ) (c : Tree K V h) where
  pub outside_child :
      get_elem? t.2 idx ≡ some c
      → (q : NodePtr) → contains (nodes K V (suc h) t) q ≡ false
      → contains (nodes K V h c) q ≡ false
  outside_child at q out =
      let (_, below) = contains-cons q t.0 (concat (map (nodes K V h) t.2)) out in
      outside (contains (nodes K V h c) q)
        (λ inside. false-not-true below (contains-concat (nodes K V h) t.2 idx q at inside))

module _ {S K V : Type 0} (store : Slab S (Node K V)) (h : ℕ) (s : S) (t : Tree K V (suc h))
    (idx : ℕ) (c c' : Tree K V h) where
  pub outside_changed :
      get_elem? t.2 idx ≡ some c
      → ((q : NodePtr) (n : Node K V)
          → store.deref q s ≡ some n
          → contains (nodes K V h c') q ≡ true
          → contains (nodes K V h c) q ≡ true)
      → (q : NodePtr) (n : Node K V) → store.deref q s ≡ some n
      → contains (nodes K V (suc h) t) q ≡ false
      → contains (nodes K V (suc h) (t.0, t.1, set t.2 idx c')) q ≡ false
  outside_changed at within q n live out =
      outside (contains (nodes K V (suc h) (t.0, t.1, set t.2 idx c')) q) (λ has.
        let (not_root, below) = contains-cons q t.0 (concat (map (nodes K V h) t.2)) out in
        elim (or-cases (q == t.0) (contains (concat (map (nodes K V h) (set t.2 idx c'))) q) has) [
          | inl here ↦ not_root (==→≡ q t.0 here)
          | inr later ↦
              let j = contains-InChild K V h (set t.2 idx c') q later in
              let split : (if j.i == idx then some c' else get_elem? t.2 j.i) ≡ some j.c =
                sym (get_elem?-set t.2 idx c' j.i (lt_length_of_get t.2 idx at)) ∙ j.at in
              elim (Bool-cases (j.i == idx)) [
                | inl same ↦
                    let one : j.c ≡ c' = ground (arith, split, same) in
                    false-not-true (outside_child K V h t idx c at q out)
                      (within q n live (subst (λ d. contains (nodes K V h d) q ≡ true) one j.has))
                | inr differs ↦
                    let there : get_elem? t.2 j.i ≡ some j.c = ground (arith, split, differs) in
                    false-not-true below (contains-concat (nodes K V h) t.2 j.i q there j.has)
              ]
        ])

module _ {S K V : Type 0} ⦃o : Ord K⦄ (store : Slab S (Node K V)) where
  pub Overflow-Absorbed :
      (levels : ℕ) (m : BTreeMap) (h : ℕ) (s : S) (up : Option (NodePtr × ℕ)) (t : Tree K V (suc h))
      (idx : ℕ) (c : Tree K V h) (es : List (K × V)) (run : Option (BTreeMap × S))
      → Repr store (suc h) s up t
      → IsOrdered K V (suc h) t
      → IsFilled K V (suc h) t
      → get_elem? t.2 idx ≡ some c
      → IsParted t.1 (set (map (entries K V h) t.2) idx es)
      → length t.1 < max_keys
      → Overflow store levels m s h (some (t.0, idx)) c es run
      → Absorbed store m s (suc h) up t (concat (set (map (entries K V h) t.2) idx es)) run
  Overflow-Absorbed levels m h s up t idx c es run r ord filled at parted room f =
      let mid = Repr-child store h s f.s' up t r idx c f.t₁ at f.same_addr f.others f.left in
      let le : idx ≤ length t.1 =
        omega (
          arith,
          r.0.internal.branches,
          length-map (addr K V h) t.2,
          lt_length_of_get t.2 idx at,
        ) in
      let hung =
        insert_edge-Hung store h f.s' up (t.0, t.1, set t.2 idx f.t₁) f.t₂ mid f.right idx f.k room
          le in
      let node = Repr-Root store h f.s' (some (t.0, idx)) f.t₁ f.left in
      let new = Repr-Root store h f.s' none f.t₂ f.right in
      let apart : t.0 ≡ addr K V h f.t₂ → ⊥ = λ same.
        false-not-true
          (root-outside store h f.s' up none (t.0, t.1, set t.2 idx f.t₁) f.t₂ mid f.right)
          (subst (λ x. contains (nodes K V h f.t₂) x ≡ true) (sym same)
            (addr-inside store h f.t₂)) in
      record {
        s' = hung.s';
        t' = with_both K V h t idx f.k f.t₁ f.t₂;
        runs =
            f.runs
            ∙ insert_up-room store f.fuel m (addr K V h f.t₁) (addr K V h f.t₂) t.0 f.k idx f.s'
                hung.s' node.n new.n mid.0.n node.live node.has_parent.0 node.has_parent.1 new.live
                (deref-other store t.0 (set_parent new.n t.0 (idx + 1)) new.live apart ∙ mid.0.live)
                (omega (arith, mid.0.internal.count, room)) (hung.runs new.n new.live);
        same_addr = refl;
        represented = hung.represented;
        ordered =
            with_both-IsOrdered K V h t idx c f.k f.t₁ f.t₂ at ord
              (subst (λ xs. IsParted t.1 (set (map (entries K V h) t.2) idx xs)) (sym f.joined)
                parted)
              f.left_ordered f.right_ordered f.cut;
        filled = with_both-IsFilled K V h t idx c f.k f.t₁ f.t₂ filled f.left_filled f.right_filled;
        same_entries =
            with_both-entries K V h t idx c f.k f.t₁ f.t₂ at
            ∙ ap (λ xs. concat (set (map (entries K V h) t.2) idx xs)) f.joined;
        others = λ q out n live.
            Stays-trans store s f.s' hung.s' q (f.others q (outside_child K V h t idx c at q out))
              (Stays-same store f.s' hung.s' q (
                hung.others q (outside_changed store h s t idx c f.t₁ at f.left_within q n live out)
                  (λ same. false-not-true (outside_child K V h t idx c at q out) (
                    f.right_within q n live (
                      subst (λ x. contains (nodes K V h f.t₂) x ≡ true) (sym same)
                        (addr-inside store h f.t₂))))))
              n live;
      }
