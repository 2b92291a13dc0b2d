-- ===== src/Tree/Nodes.antt =====
-- The nodes of a represented tree: each address stands at one place of the tree only.
use btree_forest_arena.Prelude.{
  ℕ, zero, suc, ◌+◌, ◌≡◌, refl, ◌∙◌, sym, ap, subst, ◌⊎◌, inl, inr, Option, none, some, List, [],
  ◌∷◌, map, concat, arith, get_elem?, Bool, true, false, ◌||◌, ◌==◌, ==→≡, contains,
  contains-append,
}
use mathlib.Core.Option.{some-injective}
use btree_forest_arena.Store.{NodePtr, Slab}
use btree_forest_arena.Node.{Node, internal_data}
use btree_forest_arena.Tree.Defs.{Tree, addr, nodes}
use btree_forest_arena.Tree.Repr.{LeafAt, InternalAt, Repr}
use btree_forest_arena.Tree.Frame.{ascend, above, above-live, leaf_not_internal}

pub or-cases : (a b : Bool) → (a || b) ≡ true → ((a ≡ true) ⊎ (b ≡ true))
or-cases true b h = inl refl
or-cases false b h = inr h

module _ (K V : Type 0) where
  -- The child in which an address stands.
  pub record InChild (h : ℕ) (cs : List (Tree K V h)) (p : NodePtr) : Type 0 where
    pub i : ℕ
    pub c : Tree K V h
    pub at : get_elem? cs i ≡ some c
    pub has : contains (nodes K V h c) p ≡ true

  pub contains-InChild :
      (h : ℕ) (cs : List (Tree K V h)) (p : NodePtr)
      → contains (concat (map (nodes K V h) cs)) p ≡ true
      → InChild h cs p
  contains-InChild h [] p has = cc
  contains-InChild h (c ∷ cs) p has =
      elim (or-cases (contains (nodes K V h c) p) (contains (concat (map (nodes K V h) cs)) p)
        (sym (contains-append (nodes K V h c) (concat (map (nodes K V h) cs)) p) ∙ has)) [
          | inl here ↦ record { i = 0; c = c; at = refl; has = here }
          | inr later ↦
              let r = contains-InChild h cs p later in
              record { i = suc r.i; c = r.c; at = r.at; has = r.has }
        ]

abbrev owner : Option (NodePtr × ℕ) → Option NodePtr
owner none = none
owner (some (q, i)) = some q

module _ {S K V : Type 0} (store : Slab S (Node K V)) where
  -- The address `d` levels up.
  abbrev reach : ℕ → NodePtr → S → Option NodePtr
  reach zero p s = some p
  reach (suc d) p s = owner (ascend store d p s)

  -- The node at `p` is the root of a tree of height `a`, from which the parents lead up to the root at
  -- `top` of a tree of height `h`, and on to `up`.
  pub record Below (s : S) (h : ℕ) (up : Option (NodePtr × ℕ)) (top p : NodePtr) : Type 0 where
    a : ℕ
    d : ℕ
    sum : a + d ≡ h
    u : Tree K V a
    is : addr K V a u ≡ p
    up' : Option (NodePtr × ℕ)
    repr : Repr store a s up' u
    rises : ascend store d p s ≡ up
    tops : reach d p s ≡ some top

  Below-self :
      (h : ℕ) (s : S) (up : Option (NodePtr × ℕ)) (t : Tree K V h) (p : NodePtr)
      → Repr store h s up t
      → ascend store 0 (addr K V h t) s ≡ up
      → p ≡ addr K V h t
      → Below s h up (addr K V h t) p
  Below-self h s up t p r rises same = record {
    a = h;
    d = 0;
    sum = omega arith;
    u = t;
    is = sym same;
    up' = up;
    repr = r;
    rises = subst (λ q. ascend store 0 q s ≡ up) (sym same) rises;
    tops = ap some same;
  }

  pub nodes-Below :
      (h : ℕ) (s : S) (up : Option (NodePtr × ℕ)) (t : Tree K V h) (p : NodePtr)
      → Repr store h s up t
      → contains (nodes K V h t) p ≡ true
      → Below s h up (addr K V h t) p
  nodes-Below zero s up t p r has =
      Below-self zero s up t p r (above-live store 0 r.live r.has_parent)
        (elim (or-cases (p == t.0) false has) [ inl here ↦ ==→≡ p t.0 here | inr later ↦ cc ])
  nodes-Below (suc h) s up t p r has =
      elim (or-cases (p == t.0) (contains (concat (map (nodes K V h) t.2)) p) has) [
        | inl here ↦
            Below-self (suc h) s up t p r (above-live store 0 r.0.live r.0.has_parent)
              (==→≡ p t.0 here)
        | inr later ↦
            let j = contains-InChild K V h t.2 p later in
            let below = nodes-Below h s (some (t.0, j.i)) j.c p (r.1 j.i j.c j.at) j.has in
            record {
              a = below.a;
              d = suc below.d;
              sum = omega (arith, below.sum);
              u = below.u;
              is = below.is;
              up' = below.up';
              repr = below.repr;
              rises =
                  ap (λ q. above store q s) below.rises
                  ∙ above-live store j.i r.0.live r.0.has_parent;
              tops = ap owner below.rises;
            }
      ]

  leaf-no-internal :
      {s : S} {up up' : Option (NodePtr × ℕ)} {p q : NodePtr} {es : List (K × V)} {ks : List K}
      {ps : List NodePtr}
      → LeafAt store s up p es
      → InternalAt store s up' q ks ps
      → p ≡ q
      → ⊥
  leaf-no-internal {s} {p = p} {q = q} a b same =
      let moved : store.deref p s ≡ some b.n =
        subst (λ x. store.deref x s ≡ some b.n) (sym same) b.live in
      let one : a.n ≡ b.n = cc in
      leaf_not_internal a.n.d a.leaf.l b.internal.i a.leaf.is_leaf
        (ap (λ m. m.d) one ∙ b.internal.is_internal)

  -- The first edges of one internal node.
  first_edge :
      {s : S} {up up' : Option (NodePtr × ℕ)} {p q : NodePtr} {ks ks' : List K} {a b : NodePtr}
      {ps qs : List NodePtr}
      → InternalAt store s up p ks (a ∷ ps)
      → InternalAt store s up' q ks' (b ∷ qs)
      → p ≡ q
      → a ≡ b
  first_edge {s} {p = p} {q = q} {a = a} {b = b} x y same =
      let moved : store.deref p s ≡ some y.n =
        subst (λ r. store.deref r s ≡ some y.n) (sym same) y.live in
      let one : x.n ≡ y.n = cc in
      let variant : internal_data x.internal.i ≡ internal_data y.internal.i =
        sym x.internal.is_internal ∙ ap (λ m. m.d) one ∙ y.internal.is_internal in
      let first : x.internal.i.edges 0 ≡ some a = x.internal.has_edges 0 (omega arith) in
      let second : y.internal.i.edges 0 ≡ some b = y.internal.has_edges 0 (omega arith) in
      let inner : x.internal.i ≡ y.internal.i = cc in
      let slots : x.internal.i.edges 0 ≡ y.internal.i.edges 0 = ap (λ i. i.edges 0) inner in cc

  -- A node is the root of represented trees of one height only.
  pub same_height :
      (a b : ℕ) (s : S) (up up' : Option (NodePtr × ℕ)) (t : Tree K V a) (t' : Tree K V b)
      → Repr store a s up t
      → Repr store b s up' t'
      → addr K V a t ≡ addr K V b t'
      → a ≡ b
  same_height zero zero s up up' t t' r r' same = refl
  same_height zero (suc b) s up up' t t' r r' same = absurd (leaf-no-internal r r'.0 same)
  same_height (suc a) zero s up up' t t' r r' same = absurd (leaf-no-internal r' r.0 (sym same))
  same_height (suc a) (suc b) s up up' (p, ks, []) t' r r' same =
      absurd (omega (arith, r.0.internal.branches))
  same_height (suc a) (suc b) s up up' (p, ks, c ∷ cs) (p', ks', []) r r' same =
      absurd (omega (arith, r'.0.internal.branches))
  same_height (suc a) (suc b) s up up' (p, ks, c ∷ cs) (p', ks', c' ∷ cs') r r' same = ap suc (
      same_height a b s (some (p, 0)) (some (p', 0)) c c' (r.1 0 c refl) (r'.1 0 c' refl)
        (first_edge r.0 r'.0 same))

  same_depth :
      (h : ℕ) (s : S) (up up' : Option (NodePtr × ℕ)) {top top' : NodePtr} (p : NodePtr)
      (x : Below s h up top p) (y : Below s h up' top' p)
      → x.d ≡ y.d
  same_depth h s up up' p x y =
      let level : x.a ≡ y.a =
        same_height x.a y.a s x.up' y.up' x.u y.u x.repr y.repr (x.is ∙ sym y.is) in
      omega (arith, level, x.sum, y.sum)

  -- An address is below two trees of one height only if they have the same parent and index.
  pub Below-once :
      (h : ℕ) (s : S) (up up' : Option (NodePtr × ℕ)) {top top' : NodePtr} (p : NodePtr)
      → Below s h up top p
      → Below s h up' top' p
      → up ≡ up'
  Below-once h s up up' p x y =
      sym x.rises ∙ ap (λ d. ascend store d p s) (same_depth h s up up' p x y) ∙ y.rises

  pub Below-top :
      (h : ℕ) (s : S) (up up' : Option (NodePtr × ℕ)) (top top' p : NodePtr)
      → Below s h up top p
      → Below s h up' top' p
      → top ≡ top'
  Below-top h s up up' top top' p x y =
      some-injective top top'
        (sym x.tops ∙ ap (λ d. reach d p s) (same_depth h s up up' p x y) ∙ y.tops)

  -- The root of a tree is not a node of a child.
  pub root-not-Below :
      (h : ℕ) (s : S) (up up' : Option (NodePtr × ℕ)) (t : Tree K V (suc h)) {top : NodePtr}
      (p : NodePtr)
      → Repr store (suc h) s up t
      → Below s h up' top p
      → p ≡ t.0
      → ⊥
  root-not-Below h s up up' t p r x same =
      let level : x.a ≡ suc h = same_height x.a (suc h) s x.up' up x.u t x.repr r (x.is ∙ same) in
      omega (arith, level, x.sum)

  Repr-live :
      (h : ℕ) (s : S) (up : Option (NodePtr × ℕ)) (t : Tree K V h)
      → Repr store h s up t
      → (n : Node K V) × (store.deref (addr K V h t) s ≡ some n)
  Repr-live zero s up t r = (r.n, r.live)
  Repr-live (suc h) s up t r = (r.0.n, r.0.live)

  -- The nodes of a represented tree are there.
  pub nodes-live :
      (h : ℕ) (s : S) (up : Option (NodePtr × ℕ)) (t : Tree K V h) (p : NodePtr)
      → Repr store h s up t
      → contains (nodes K V h t) p ≡ true
      → (n : Node K V) × (store.deref p s ≡ some n)
  nodes-live h s up t p r has =
      let x = nodes-Below h s up t p r has in
      let (n, live) = Repr-live x.a s x.up' x.u x.repr in
      (n, subst (λ q. store.deref q s ≡ some n) x.is live)
