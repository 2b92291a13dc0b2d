-- ===== src/Node/Edges/Split.antt =====
-- `split_internal` inserts the key and the edge, and cuts the keys and the edges in two.
use btree_forest_arena.Prelude.{
  ℕ, ◌+◌, ◌-◌, ◌/◌, ◌≤◌, ◌≡◌, refl, ◌∙◌, sym, ap, subst, true, false, Option, none, some, List, ◌∷◌,
  arith, length, insert_at, take, drop, length-take, length-drop, length-insert_at, get_elem?,
  get_elem?-drop, le→leb, leb, contains, ◌==◌, if◌then◌else◌,
}
use btree_forest_arena.Slots.{
  Slots, copied, maybe_uninit_array, write, ◌to◌, assume_init_slice,
  unsafe_copy_slice_nonoverlapping,
}
use btree_forest_arena.Slots.Holds.{
  Holds, copy_front-Holds, nonoverlapping-copied, take-Holds, slice-Holds,
}
use btree_forest_arena.Store.{NodePtr, Slab}
use btree_forest_arena.Store.Access.{as_ref-live, as_mut-live}
use btree_forest_arena.Node.Defs.{
  Node, InternalData, internal_data, internal_of, internal_node, max_keys,
}
use btree_forest_arena.Node.View.{IsInternal, SameParent}
use btree_forest_arena.Node.Edges.{
  split_internal, shift_forward, shift_backward, number_parent_idxs,
}
use btree_forest_arena.Node.Edges.Renumber.{
  Distinct, contains-get, deref-other, deref_self, number_parent_idxs-Touched,
}
use btree_forest_arena.Node.Edges.Insert.{assert_parent_idx-live, contains-drop, Distinct-drop}
use btree_forest_arena.Node.Edges.Shift.{
  Numbered, shift_forward-Shifted, shift_backward-Shifted, inserted_at,
}
use btree_forest_arena.Node.Edges.Halves.{
  take-insert_at, drop-insert_at, drop_past-insert_at, get-insert_at, behind-Holds, get-take,
  Distinct-apart,
}

new_internal-none : (K V : Type 0) → (internal_node {K = K} {V = V}).parent ≡ none
unfolding internal_node
new_internal-none K V = refl

module _ {S K V : Type 0} (store : Slab S (Node K V)) where
  -- With the keys `ks` and the edges `qs` after the insertion: the node at `p` keeps the first four keys
  -- and five edges, the fifth key is split off, and a new node without a parent has the others. Each
  -- child has its place as its index.
  pub record InternalSplit (s : S) (p : NodePtr) (n : Node K V) (ks : List K) (qs : List NodePtr)
      (r : Option ((K × Node K V) × S)) : Type 0 where
    pub s' : S
    pub key : K
    pub ln : Node K V
    pub rn : Node K V
    pub runs : r ≡ some ((key, rn), s')
    pub split_key : get_elem? ks 4 ≡ some key
    pub live : store.deref p s' ≡ some ln
    pub left : IsInternal ln (take 4 ks) (take 5 qs)
    pub right : IsInternal rn (drop 5 ks) (drop 5 qs)
    pub same_parent : SameParent n ln
    pub no_parent : rn.parent ≡ none
    pub left_children :
        (i : ℕ) (q : NodePtr) (m : Node K V)
        → get_elem? (take 5 qs) i ≡ some q
        → store.deref q s ≡ some m
        → store.deref q s' ≡ some (record m { parent_idx = some i })
    pub right_children :
        (i : ℕ) (q : NodePtr) (m : Node K V)
        → get_elem? (drop 5 qs) i ≡ some q
        → store.deref q s ≡ some m
        → store.deref q s' ≡ some (record m { parent_idx = some i })
    pub others :
        (q : NodePtr) → (q ≡ p → ⊥) → contains qs q ≡ false → store.deref q s' ≡ store.deref q s

  split_internal-runs :
      (s s₁ s₂ s₃ : S) (p e e₁ e₂ : NodePtr) (n m n₁ n₂ x : Node K V) (k k₁ k₂ : K)
      (d : InternalData) (kg : Slots K) (ef : Slots NodePtr) (moved : List NodePtr) (idx : ℕ)
      → store.deref p s ≡ some n
      → leb idx n.len ≡ true
      → leb 4 n.len ≡ true
      → n.len / 2 ≡ 4
      → store.deref e s ≡ some m
      → m.parent ≡ some p
      → m.parent_idx ≡ some (idx + 1)
      → shift_forward store (4 - idx) n idx k e s ≡ some ((n₁, k₁, e₁), s₁)
      → shift_backward store (idx - 4) n₁ (idx + (4 - idx)) k₁ e₁ s₁ ≡ some ((n₂, k₂, e₂), s₂)
      → n₂.d ≡ internal_data d
      → unsafe_copy_slice_nonoverlapping max_keys maybe_uninit_array (0 to 4) n₂.keys (4 to n₂.len)
        ≡ some kg
      → unsafe_copy_slice_nonoverlapping
          (max_keys + 1)
          maybe_uninit_array
          (1 to 5)
          d.edges
          (5 to (n₂.len + 1))
        ≡ some ef
      → assume_init_slice (λ j. if j == 0 then some e₂ else ef j) 0 5 ≡ some moved
      → number_parent_idxs store 0 moved s₂ ≡ some (tt, s₃)
      → store.deref p s₃ ≡ some x
      → split_internal store p idx k e s
        ≡ some (
          (
            k₂,
            record (internal_node {K = K} {V = V}) {
              len = n₂.len - 4;
              keys = kg;
              d = internal_data (record { edges = λ j. if j == 0 then some e₂ else ef j });
            },
          ),
          store.assign p (record n₂ { len = 4 }) s₃,
        )
  unfolding split_internal internal_of internal_node write
  split_internal-runs s s₁ s₂ s₃ p e e₁ e₂ n m n₁ n₂ x k k₁ k₂ d kg ef moved idx live le enough half
        live' has index forward backward is k_copy e_copy slice runs still =
      rw
        (
          as_ref-live store live,
          le,
          enough,
          half,
          assert_parent_idx-live store live' has index,
          forward,
          backward,
          is,
          k_copy,
          e_copy,
          slice,
          runs,
          as_mut-live store (record n₂ { len = 4; d = internal_data d }) still,
        )
        refl

  -- On an internal node with 8 keys whose children have their places as their indices, `split_internal`
  -- with a child that is to be hung behind the place `idx` succeeds. With the key and the child inserted
  -- there, four keys and five edges stay in the node, which keeps its parent; the fifth key is returned,
  -- with a new node that has no parent and holds the other four keys and five edges; and each child
  -- gets its place as its index. No other node changes.
  pub split_internal-InternalSplit :
      (s : S) (p e : NodePtr) (n : Node K V) (ks : List K) (ps : List NodePtr) (idx : ℕ) (k : K)
      → store.deref p s ≡ some n
      → IsInternal n ks ps
      → length ks ≡ max_keys
      → idx ≤ length ks
      → Distinct (insert_at (idx + 1) e ps)
      → contains (insert_at (idx + 1) e ps) p ≡ false
      → Numbered store s p (insert_at (idx + 1) e ps) (idx + 1)
      → InternalSplit s p n
          (insert_at idx k ks)
          (insert_at (idx + 1) e ps)
          (split_internal store p idx k e s)
  split_internal-InternalSplit s p e n ks ps idx k live a full le d no_loop numbered =
      let ks' = insert_at idx k ks in
      let qs = insert_at (idx + 1) e ps in
      let (m, live_e, up, index) =
        numbered (idx + 1) e (inserted_at store (idx + 1) e ps (omega (arith, a.branches, le))) in
      let index' : m.parent_idx ≡ some (idx + 1) = index ∙ ap some (ground arith) in
      let there =
        shift_forward-Shifted store (4 - idx) s p n ks ks' ps qs idx (idx + (4 - idx)) k e a refl
          refl (omega (arith, length-insert_at idx k ks)) refl (omega (arith, full, le)) d
          numbered in
      let here =
        shift_backward-Shifted store (idx - 4) there.s' p there.n' there.ks ks' there.ps qs
          (idx + (4 - idx)) 4 (idx + (4 - idx) + 1) there.k there.e there.internal there.all_keys
          there.all_edges there.keys_length (omega arith)
          (omega (arith, there.keys_length, length-insert_at idx k ks, full, le)) (omega arith)
          there.numbered in
      let h = here.internal in
      let eight : length here.ks ≡ 8 =
        omega (arith, here.keys_length, length-insert_at idx k ks, full) in
      let keys_right : drop 5 ks' ≡ drop 4 here.ks =
        ap (drop 5) (sym here.all_keys)
        ∙ drop_past-insert_at 4 here.k here.ks (omega (arith, eight)) in
      let keys_left : take 4 ks' ≡ take 4 here.ks =
        ap (take 4) (sym here.all_keys) ∙ take-insert_at 4 here.k here.ks (omega (arith, eight)) in
      let edges_right : drop 5 qs ≡ here.e ∷ drop 5 here.ps =
        ap (drop 5) (sym here.all_edges)
        ∙ drop-insert_at 5 here.e here.ps (omega (arith, h.branches, eight)) in
      let edges_left : take 5 qs ≡ take 5 here.ps =
        ap (take 5) (sym here.all_edges)
        ∙ take-insert_at 5 here.e here.ps (omega (arith, h.branches, eight)) in
      let long : length here.ps ≡ here.n'.len + 1 = omega (arith, h.branches, h.count) in
      let ef = copied maybe_uninit_array 1 h.i.edges 5 (here.n'.len + 1 - 5) in
      let eg : Slots NodePtr = λ j. if j == 0 then some here.e else ef j in
      let kg = copied maybe_uninit_array 0 here.n'.keys 4 (here.n'.len - 4) in
      let e_holds : Holds eg (here.e ∷ drop 5 here.ps) =
        behind-Holds h.i.edges maybe_uninit_array here.ps 5 (here.n'.len + 1) here.e h.has_edges
          long in
      let k_holds : Holds kg (drop 4 here.ks) =
        subst (λ c. Holds (copied maybe_uninit_array 0 here.n'.keys 4 (c - 4)) (drop 4 here.ks))
          (sym h.count) (copy_front-Holds here.n'.keys maybe_uninit_array here.ks 4 h.has_keys) in
      let slice : assume_init_slice eg 0 5 ≡ some (drop 5 qs) =
        slice-Holds eg (here.e ∷ drop 5 here.ps) 5 e_holds
          (omega (arith, length-drop 5 here.ps, h.branches, eight))
        ∙ ap some (sym edges_right) in
      let t =
        number_parent_idxs-Touched store here.s' (drop 5 qs) 0 (Distinct-drop 5 qs d) (λ j q at.
          let (x, live_q, up_q, index_q) =
            here.numbered (5 + j) q (sym (get_elem?-drop 5 qs j) ∙ at) in
          (x, live_q)) in
      let still : store.deref p t.s' ≡ some n =
        t.others p (contains-drop 5 qs p no_loop)
        ∙ here.others p no_loop
        ∙ there.others p no_loop
        ∙ live in
      let ln : Node K V = record here.n' { len = 4 } in
      let not_p : (i : ℕ) (q : NodePtr) → get_elem? qs i ≡ some q → q ≡ p → ⊥ = λ i q at same.
        let has : contains qs p ≡ true =
          subst (λ y. contains qs y ≡ true) same (contains-get qs i at) in
        cc (has, no_loop) in
      let kept : (q : NodePtr) (x : Node K V)
          → store.deref q s ≡ some x
          → (i : Option ℕ) × (store.deref q here.s' ≡ some (record x { parent_idx = i })) =
        λ q x is.
          let (i, is') = there.kept q x is in
          let (i', is'') = here.kept q (record x { parent_idx = i }) is' in (i', is'') in
      record {
        s' = store.assign p ln t.s';
        key = here.k;
        ln = ln;
        rn = record (internal_node {K = K} {V = V}) {
          len = here.n'.len - 4;
          keys = kg;
          d = internal_data (record { edges = eg });
        };
        runs =
            split_internal-runs s there.s' here.s' t.s' p e there.e here.e n m there.n' here.n' n k
              there.k here.k h.i kg ef (drop 5 qs) idx live
              (le→leb idx n.len (omega (arith, a.count, le)))
              (le→leb 4 n.len (omega (arith, a.count, full))) (omega (arith, a.count, full)) live_e
              up index' there.runs here.runs h.is_internal
              (nonoverlapping-copied max_keys maybe_uninit_array 0 4 here.n'.keys 4 here.n'.len
                (omega arith) (omega (arith, h.count, eight)) (omega (arith, h.count, eight))
                (omega arith) (omega (arith, h.count, eight)))
              (nonoverlapping-copied (max_keys + 1) maybe_uninit_array 1 5 h.i.edges 5
                (here.n'.len + 1) (omega arith) (omega (arith, h.count, eight))
                (omega (arith, h.count, eight)) (omega arith) (omega (arith, h.count, eight)))
              slice t.runs still;
        split_key =
            ap (λ xs. get_elem? xs 4) (sym here.all_keys)
            ∙ get-insert_at 4 here.k here.ks (omega (arith, eight));
        live = deref_self store ln still;
        left = record {
          i = h.i;
          is_internal = h.is_internal;
          count = omega (arith, length-take 4 ks', length-insert_at idx k ks, full);
          fits = omega (arith, length-take 4 ks');
          branches = omega (
            arith,
            length-take 4 ks',
            length-insert_at idx k ks,
            full,
            length-take 5 qs,
            length-insert_at (idx + 1) e ps,
            a.branches,
          );
          has_keys =
              subst (Holds here.n'.keys) (sym keys_left)
                (take-Holds here.n'.keys here.ks 4 h.has_keys);
          has_edges =
              subst (Holds h.i.edges) (sym edges_left) (take-Holds h.i.edges here.ps 5 h.has_edges);
        };
        right = record {
          i = record { edges = eg };
          is_internal = refl;
          count = omega (arith, length-drop 5 ks', length-insert_at idx k ks, full, h.count, eight);
          fits = omega (arith, length-drop 5 ks', length-insert_at idx k ks, full);
          branches = omega (
            arith,
            length-drop 5 ks',
            length-insert_at idx k ks,
            full,
            length-drop 5 qs,
            length-insert_at (idx + 1) e ps,
            a.branches,
          );
          has_keys = subst (Holds kg) (sym keys_right) k_holds;
          has_edges = subst (Holds eg) (sym edges_right) e_holds;
        };
        same_parent = record {
          parent = here.same_parent.parent ∙ there.same_parent.parent;
          parent_idx = here.same_parent.parent_idx ∙ there.same_parent.parent_idx;
        };
        no_parent = new_internal-none K V;
        left_children = λ i q x at is.
            let (less, at_q) = get-take 5 qs i at in
            let (j, is') = kept q x is in
            let (y, live_y, up_y, index_y) = here.numbered i q at_q in
            let same : y ≡ record x { parent_idx = j } = cc (live_y, is') in
            let place : j ≡ some i =
              ap (λ z. z.parent_idx) (sym same)
              ∙ index_y
              ∙ ap some
                  (ground (arith, less, le→leb i (idx + (4 - idx) + 1) (omega (arith, less)))) in
            deref-other store q ln still (not_p i q at_q)
            ∙ t.others q (Distinct-apart 5 qs i d at_q less)
            ∙ is'
            ∙ ap (λ z. some (record x { parent_idx = z })) place;
        right_children = λ i q x at is.
            let (j, is') = kept q x is in
            deref-other store q ln still (not_p (5 + i) q (sym (get_elem?-drop 5 qs i) ∙ at))
            ∙ t.moved i q (record x { parent_idx = j }) at is'
            ∙ ap (λ z. some (record x { parent_idx = some z })) {x = 0 + i} (omega arith);
        others = λ q apart out.
            deref-other store q ln still apart
            ∙ t.others q (contains-drop 5 qs q out)
            ∙ here.others q out
            ∙ there.others q out;
      }
