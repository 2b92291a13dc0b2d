-- ===== src/Tree/Frame.antt =====
-- A leaf is changed: what becomes of the other nodes of a tree. The parents lead from a leaf to the root,
-- so that a leaf stands at one place of the tree only.
use btree_forest_arena.Prelude.{
  ℕ, zero, suc, ◌≡◌, ◌∙◌, sym, ap, subst, Option, none, some, List, arith, ==_refl, ne→==,
}
use btree_forest_arena.Store.{NodePtr, Slab}
use btree_forest_arena.Node.{Node, leaf_data, internal_data, LeafData, InternalData, NodeData}
use btree_forest_arena.Tree.Defs.{Tree}
use btree_forest_arena.Tree.Repr.{HasParent, InternalAt, Repr}

-- The parent of a node and its index there.
abbrev pub parent_of : {K V : Type 0} → Node K V → Option (NodePtr × ℕ)
parent_of n = elim n.parent [
  | none ↦ none
  | some p ↦ elim n.parent_idx [ none ↦ none | some i ↦ some (p, i) ]
]

pub leaf_not_internal :
    {V : Type 0} (d : NodeData V) (l : LeafData V) (i : InternalData)
    → d ≡ leaf_data l
    → d ≡ internal_data i
    → ⊥
leaf_not_internal d l i a b = cc

module _ {S K V : Type 0} (store : Slab S (Node K V)) where
  -- The parent of the node at the pointer.
  abbrev pub above : Option (NodePtr × ℕ) → S → Option (NodePtr × ℕ)
  above none s = none
  above (some (p, i)) s = elim (store.deref p s) [ none ↦ none | some n ↦ parent_of n ]

  -- The parent, `h` levels up.
  abbrev pub ascend : ℕ → NodePtr → S → Option (NodePtr × ℕ)
  ascend zero p s = above (some (p, 0)) s
  ascend (suc h) p s = above (ascend h p s) s

  HasParent-parent_of :
      (n : Node K V) (up : Option (NodePtr × ℕ)) → HasParent n up → parent_of n ≡ up
  HasParent-parent_of n none h = ground (arith, h)
  HasParent-parent_of n (some (p, i)) h = ground (arith, h.0, h.1)

  pub above-live :
      {s : S} {p : NodePtr} {n : Node K V} {up : Option (NodePtr × ℕ)} (i : ℕ)
      → store.deref p s ≡ some n
      → HasParent n up
      → above (some (p, i)) s ≡ up
  above-live {s} {p} {n} {up} i live has = rw (above, live) (HasParent-parent_of n up has)

  -- A node other than the one at `p` is as it was.
  pub deref-assign_other :
      {s : S} {p q : NodePtr} {n m : Node K V} (n' : Node K V)
      → store.deref p s ≡ some n
      → store.deref q s ≡ some m
      → (q ≡ p → ⊥)
      → store.deref q (store.assign p n' s) ≡ some m
  deref-assign_other {s} {p} {q} {n} n' live other differs =
      store.deref-assign q p n' n s live ∙ (rw (ne→== q p differs) other)

  pub deref-assign_self :
      {s : S} {p : NodePtr} {n : Node K V} (n' : Node K V)
      → store.deref p s ≡ some n
      → store.deref p (store.assign p n' s) ≡ some n'
  deref-assign_self {s} {p} {n} n' live = store.deref-assign p p n' n s live ∙ rw (==_refl p)

  pub InternalAt-assign :
      {s : S} {up : Option (NodePtr × ℕ)} {q : NodePtr} {ks : List K} {ps : List NodePtr}
      {p : NodePtr} {n : Node K V} (n' : Node K V) (l : LeafData V)
      → store.deref p s ≡ some n
      → n.d ≡ leaf_data l
      → InternalAt store s up q ks ps
      → InternalAt store (store.assign p n' s) up q ks ps
  InternalAt-assign {s} {p = p} {n = n} n' l live leaf a = record {
    n = a.n;
    live = deref-assign_other n' live a.live (λ same.
        let moved : store.deref p s ≡ some a.n =
          subst (λ x. store.deref x s ≡ some a.n) same a.live in
        let one : a.n ≡ n = cc in
        leaf_not_internal n.d l a.internal.i leaf
          (ap (λ m. m.d) (sym one) ∙ a.internal.is_internal));
    internal = a.internal;
    has_parent = a.has_parent;
  }

  -- A tree that does not have the leaf at `p` is represented as before.
  pub Repr-assign :
      (h : ℕ) (s : S) (up : Option (NodePtr × ℕ)) (t : Tree K V h) (p : NodePtr) (n n' : Node K V)
      (l : LeafData V)
      → store.deref p s ≡ some n
      → n.d ≡ leaf_data l
      → (ascend h p s ≡ up → ⊥)
      → Repr store h s up t
      → Repr store h (store.assign p n' s) up t
  Repr-assign zero s up t p n n' l live leaf away r = record {
    n = r.n;
    prev = r.prev;
    next = r.next;
    live = deref-assign_other n' live r.live (λ same.
        away (above-live 0 (subst (λ q. store.deref q s ≡ some r.n) same r.live) r.has_parent));
    leaf = r.leaf;
    has_parent = r.has_parent;
  }
  Repr-assign (suc h) s up t p n n' l live leaf away r = (
    InternalAt-assign n' l live leaf r.0,
    λ i c at.
        Repr-assign h s (some (t.0, i)) c p n n' l live leaf
          (λ e. away (ap (λ q. above q s) e ∙ above-live i r.0.live r.0.has_parent)) (r.1 i c at),
  )
