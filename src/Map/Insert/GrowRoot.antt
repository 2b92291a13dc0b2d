-- ===== src/Map/Insert/GrowRoot.antt =====
-- `grow_root` puts a new root over two trees without parents.
use btree_forest_arena.Prelude.{
  zero, suc, ◌+◌, ◌≡◌, refl, ◌∙◌, sym, subst, false, Option, none, some, [], ◌∷◌, arith, contains,
  ◌==◌, if◌then◌else◌, ne→==, ==_refl,
}
use btree_forest_arena.Slots.{maybe_uninit_array}
use btree_forest_arena.Slots.Holds.{write-eq-some}
use btree_forest_arena.Store.{NodePtr, Slab, alloc}
use btree_forest_arena.Store.Access.{as_ref-live, as_mut-live}
use btree_forest_arena.Node.{
  Node, InternalData, max_keys, set_parent, internal_node, internal_data, internal_of,
}
use btree_forest_arena.Node.View.{IsInternal}
use btree_forest_arena.Node.Edges.{set_last_edge}
use btree_forest_arena.Node.Edges.Renumber.{deref-other, deref_self}
use btree_forest_arena.Node.Edges.Insert.{
  Children, insert_edge-EdgeInserted, assert_parent_idx-live,
}
use btree_forest_arena.Map.Defs.{BTreeMap}
use btree_forest_arena.Map.Insert.{grow_root}

module _ {S K V : Type 0} (store : Slab S (Node K V)) where
  -- The first edge of a node without keys.
  set_last_edge-live :
      {s : S} {n m : Node K V} {d : InternalData} (p e : NodePtr)
      → store.deref p s ≡ some n
      → n.d ≡ internal_data d
      → n.len ≡ 0
      → store.deref e s ≡ some m
      → m.parent ≡ some p
      → m.parent_idx ≡ some 0
      → set_last_edge store p e s
        ≡ some (
          tt,
          store.assign p
              (record n {
                d = internal_data (record d { edges = λ j. if j == 0 then some e else d.edges j });
              })
              s,
        )
  unfolding set_last_edge internal_of
  set_last_edge-live {d = d} p e live is empty live' has index =
      rw
        (
          as_ref-live store live,
          empty,
          assert_parent_idx-live store live' has index,
          is,
          write-eq-some (max_keys + 1) d.edges 0 e (omega arith),
        )
        (as_mut-live store _ live)

  one_edge :
      (e : NodePtr)
      → IsInternal
          (record (internal_node {K = K} {V = V}) {
            d =
                internal_data
                  (record { edges = λ j. if j == 0 then some e else maybe_uninit_array j });
          })
          []
          (e ∷ [])
  unfolding internal_node
  one_edge e = record {
    i = record { edges = λ j. if j == 0 then some e else maybe_uninit_array j };
    is_internal = refl;
    count = refl;
    fits = omega arith;
    branches = refl;
    has_keys = λ j lt. absurd (omega (arith, lt));
    has_edges = elim [ zero ↦ λ lt. refl | suc j ↦ λ lt. absurd (omega (arith, lt)) ];
  }

  not_in_one : (q e : NodePtr) → (q ≡ e → ⊥) → contains (e ∷ []) q ≡ false
  not_in_one q e differs = ground (arith, ne→== q e differs)

  only_child :
      (p : NodePtr) (s : S) {e : NodePtr} (n : Node K V)
      → store.deref e s ≡ some n
      → n.parent_idx ≡ some 0
      → (p ≡ e → ⊥)
      → Children store s p (e ∷ [])
  only_child p s {e} n live index differs = record {
    distinct = (refl, tt);
    no_loop = not_in_one p e differs;
    numbered = elim [
      | zero ↦ λ q at.
          let same : e ≡ q = cc in (n, subst (λ x. store.deref x s ≡ some n) same live, index)
      | suc j ↦ λ q at. cc
    ];
  }

  -- The new root has the two trees as its children; nothing else has changed.
  pub record RootGrown (s : S) (m : BTreeMap) (left right : NodePtr) (ln rn : Node K V) (k : K)
      (r : Option (BTreeMap × S)) : Type 0 where
    pub s' : S
    pub root : NodePtr
    pub n : Node K V
    pub fresh : store.deref root s ≡ none
    pub runs : r ≡ some (record m { root = some root; height = m.height + 1 }, s')
    pub live : store.deref root s' ≡ some n
    pub internal : IsInternal n (k ∷ []) (left ∷ right ∷ [])
    pub no_parent : n.parent ≡ none
    pub at_left : store.deref left s' ≡ some (set_parent ln root 0)
    pub at_right : store.deref right s' ≡ some (set_parent rn root 1)
    pub others :
        (q : NodePtr)
        → (q ≡ root → ⊥)
        → (q ≡ left → ⊥)
        → (q ≡ right → ⊥)
        → store.deref q s' ≡ store.deref q s

  pub grow_root-RootGrown :
      (s : S) (m : BTreeMap) (left right : NodePtr) (ln rn : Node K V) (k : K)
      → store.deref left s ≡ some ln
      → store.deref right s ≡ some rn
      → (left ≡ right → ⊥)
      → RootGrown s m left right ln rn k (grow_root store m left right k s)
  unfolding grow_root alloc internal_node set_parent
  grow_root-RootGrown s m left right ln rn k live_left live_right apart =
      let root = (store.alloc internal_node s).0 in
      let s₁ = (store.alloc internal_node s).1 in
      let fresh : store.deref root s ≡ none = store.alloc_fresh internal_node s in
      let left_old : left ≡ root → ⊥ = λ e. not_fresh live_left e fresh in
      let right_old : right ≡ root → ⊥ = λ e. not_fresh live_right e fresh in
      let root₁ : store.deref root s₁ ≡ some internal_node =
        store.deref-alloc root internal_node s ∙ rw (==_refl root) in
      let old₁ : (q : NodePtr) → (q ≡ root → ⊥) → store.deref q s₁ ≡ store.deref q s =
        λ q not_root. store.deref-alloc q internal_node s ∙ rw (ne→== q root not_root) in
      let left₁ = old₁ left left_old ∙ live_left in
      let s₂ = store.assign left (set_parent ln root 0) s₁ in
      let right₂ =
        deref-other store right (set_parent ln root 0) left₁ (λ e. apart (sym e))
        ∙ old₁ right right_old
        ∙ live_right in
      let s₃ = store.assign right (set_parent rn root 0) s₂ in
      let root₃ =
        deref-other store root (set_parent rn root 0) right₂ (λ e. right_old (sym e))
        ∙ deref-other store root (set_parent ln root 0) left₁ (λ e. left_old (sym e))
        ∙ root₁ in
      let right₃ = deref_self store (set_parent rn root 0) right₂ in
      let n₄ : Node K V = record internal_node {
        d =
            internal_data
              (record { edges = λ j. if j == 0 then some right else maybe_uninit_array j });
      } in
      let s₄ = store.assign root n₄ s₃ in
      let root₄ = deref_self store n₄ root₃ in
      let right₄ = deref-other store right n₄ root₃ right_old ∙ right₃ in
      let left₄ =
        deref-other store left n₄ root₃ left_old
        ∙ deref-other store left (set_parent rn root 0) right₂ apart
        ∙ deref_self store (set_parent ln root 0) left₁ in
      let x =
        insert_edge-EdgeInserted store s₄ root left n₄ (set_parent ln root 0) [] (right ∷ []) 0
          false 0 k refl (omega arith) root₄ (one_edge right) (omega arith) (omega arith)
          (only_child root s₄ (set_parent rn root 0) right₄ refl (λ e. right_old (sym e))) left₄
          refl refl in
      record {
        s' = x.s';
        root = root;
        n = x.n';
        fresh = fresh;
        runs =
            rw
              (
                as_ref-live store left₁,
                as_mut-live store (set_parent ln root 0) left₁,
                as_ref-live store right₂,
                as_mut-live store (set_parent rn root 0) right₂,
                set_last_edge-live root right root₃ refl refl right₃ refl refl,
                x.runs,
              )
              refl;
        live = x.live;
        internal = x.internal;
        no_parent = x.same_parent.parent;
        at_left = x.others left left_old (not_in_one left right apart) ∙ left₄;
        at_right = x.moved 0 right (set_parent rn root 0) refl right₄;
        others = λ q not_root not_left not_right.
            x.others q not_root (not_in_one q right not_right)
            ∙ deref-other store q n₄ root₃ not_root
            ∙ deref-other store q (set_parent rn root 0) right₂ not_right
            ∙ deref-other store q (set_parent ln root 0) left₁ not_left
            ∙ old₁ q not_root;
      }
    where
      not_fresh :
          {p q : NodePtr} {n : Node K V}
          → store.deref p s ≡ some n
          → p ≡ q
          → store.deref q s ≡ none
          → ⊥
      not_fresh {p} {q} {n} live e none_there =
          let there : store.deref q s ≡ some n = subst (λ x. store.deref x s ≡ some n) e live in cc
