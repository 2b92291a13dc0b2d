-- ===== src/Tree/Alike.antt =====
-- Nodes that hold the same but for links and parents, and trees whose nodes change only so.
use btree_forest_arena.Prelude.{
  ℕ, zero, suc, ◌≡◌, refl, ◌∙◌, true, Option, none, some, List, [], map, concat, contains,
}
use btree_forest_arena.Store.{NodePtr, Slab}
use btree_forest_arena.Node.{Node}
use btree_forest_arena.Node.View.{IsLeaf, IsInternal, SameParent}
use btree_forest_arena.Tree.Defs.{Tree, addr, nodes}
use btree_forest_arena.Tree.Repr.{HasParent, LeafAt, InternalAt, Repr}
use btree_forest_arena.Tree.Agrees.{contains-head, contains-later, contains-concat}

module _ {K V : Type 0} where
  -- The second node holds what the first one does; the links of a leaf and the parent may differ.
  pub record Alike (n n' : Node K V) : Type 0 where
    pub as_leaf :
        (es : List (K × V)) (b a : Option NodePtr)
        → IsLeaf n es b a
        → (b' : Option NodePtr) × (a' : Option NodePtr) × IsLeaf n' es b' a'
    pub as_internal : (ks : List K) (ps : List NodePtr) → IsInternal n ks ps → IsInternal n' ks ps

  pub Alike-same : (n : Node K V) → Alike n n
  Alike-same n = record { as_leaf = λ es b a l. (b, a, l); as_internal = λ ks ps i. i }

  pub Alike-trans : {n n' n'' : Node K V} → Alike n n' → Alike n' n'' → Alike n n''
  Alike-trans f g = record {
    as_leaf = λ es b a l. let (b', a', l') = f.as_leaf es b a l in g.as_leaf es b' a' l';
    as_internal = λ ks ps i. g.as_internal ks ps (f.as_internal ks ps i);
  }

  pub HasParent-Same :
      (n n' : Node K V) (up : Option (NodePtr × ℕ))
      → SameParent n n'
      → HasParent n up
      → HasParent n' up
  HasParent-Same n n' none same h = same.parent ∙ h
  HasParent-Same n n' (some (p, i)) same h = (same.parent ∙ h.0, same.parent_idx ∙ h.1)

module _ (K V : Type 0) where
  -- The addresses below the root.
  abbrev pub belows : (h : ℕ) → Tree K V h → List NodePtr
  belows zero t = []
  belows (suc h) t = concat (map (nodes K V h) t.2)

module _ {S K V : Type 0} (store : Slab S (Node K V)) where
  -- What becomes of the node `n` at `p`.
  pub record Kept (s' : S) (p : NodePtr) (n : Node K V) : Type 0 where
    pub n' : Node K V
    pub live : store.deref p s' ≡ some n'
    pub alike : Alike n n'
    pub same_parent : SameParent n n'

  -- If there is a node at `p`, it stays there, and stays where it is in the tree.
  abbrev pub Stays : S → S → NodePtr → Type 0
  Stays s s' p = (n : Node K V) → store.deref p s ≡ some n → Kept s' p n

  pub Stays-same : (s s' : S) (p : NodePtr) → store.deref p s' ≡ store.deref p s → Stays s s' p
  Stays-same s s' p same n live = record {
    n' = n;
    live = same ∙ live;
    alike = Alike-same n;
    same_parent = record { parent = refl; parent_idx = refl };
  }

  pub Stays-trans : (s s' s'' : S) (p : NodePtr) → Stays s s' p → Stays s' s'' p → Stays s s'' p
  Stays-trans s s' s'' p f g n live =
      let a = f n live in
      let b = g a.n' a.live in
      record {
        n' = b.n';
        live = b.live;
        alike = Alike-trans a.alike b.alike;
        same_parent = record {
          parent = b.same_parent.parent ∙ a.same_parent.parent;
          parent_idx = b.same_parent.parent_idx ∙ a.same_parent.parent_idx;
        };
      }

  -- What becomes of the root of a tree that is moved to the place `up`.
  pub record Placed (s' : S) (p : NodePtr) (up : Option (NodePtr × ℕ)) (n : Node K V) : Type 0 where
    pub n' : Node K V
    pub live : store.deref p s' ≡ some n'
    pub alike : Alike n n'
    pub has_parent : HasParent n' up

  pub LeafAt-Placed :
      {s s' : S} {up : Option (NodePtr × ℕ)} {p : NodePtr} {es : List (K × V)}
      (up' : Option (NodePtr × ℕ)) (r : LeafAt store s up p es)
      → Placed s' p up' r.n
      → LeafAt store s' up' p es
  LeafAt-Placed {es = es} up' r k =
      let (b, a, leaf) = k.alike.as_leaf es r.prev r.next r.leaf in
      record { n = k.n'; prev = b; next = a; live = k.live; leaf = leaf; has_parent = k.has_parent }

  pub InternalAt-Placed :
      {s s' : S} {up : Option (NodePtr × ℕ)} {p : NodePtr} {ks : List K} {ps : List NodePtr}
      (up' : Option (NodePtr × ℕ)) (r : InternalAt store s up p ks ps)
      → Placed s' p up' r.n
      → InternalAt store s' up' p ks ps
  InternalAt-Placed {ks = ks} {ps = ps} up' r k = record {
    n = k.n';
    live = k.live;
    internal = k.alike.as_internal ks ps r.internal;
    has_parent = k.has_parent;
  }

  pub Kept-Placed :
      {s' : S} {p : NodePtr} {n : Node K V} (up : Option (NodePtr × ℕ))
      → HasParent n up
      → Kept s' p n
      → Placed s' p up n
  Kept-Placed {n = n} up has k = record {
    n' = k.n';
    live = k.live;
    alike = k.alike;
    has_parent = HasParent-Same n k.n' up k.same_parent has;
  }

  pub Repr-Stays :
      (h : ℕ) (s s' : S) (up : Option (NodePtr × ℕ)) (t : Tree K V h)
      → ((p : NodePtr) → contains (nodes K V h t) p ≡ true → Stays s s' p)
      → Repr store h s up t
      → Repr store h s' up t
  Repr-Stays zero s s' up t f r =
      LeafAt-Placed up r (Kept-Placed up r.has_parent (f t.0 (contains-head t.0 []) r.n r.live))
  Repr-Stays (suc h) s s' up t f r = (
    InternalAt-Placed up r.0 (
        Kept-Placed up r.0.has_parent
          (f t.0 (contains-head t.0 (concat (map (nodes K V h) t.2))) r.0.n r.0.live)),
    λ i c at.
        Repr-Stays h s s' (some (t.0, i)) c
          (λ p has. f p (
            contains-later t.0 p (concat (map (nodes K V h) t.2))
              (contains-concat (nodes K V h) t.2 i p at has)))
          (r.1 i c at),
  )

  -- The root takes the place `up'`, and the nodes below it stay.
  pub Repr-Placed :
      (h : ℕ) (s s' : S) (up up' : Option (NodePtr × ℕ)) (t : Tree K V h)
      → ((n : Node K V) → store.deref (addr K V h t) s ≡ some n → Placed s' (addr K V h t) up' n)
      → ((p : NodePtr) → contains (belows K V h t) p ≡ true → Stays s s' p)
      → Repr store h s up t
      → Repr store h s' up' t
  Repr-Placed zero s s' up up' t f below r = LeafAt-Placed up' r (f r.n r.live)
  Repr-Placed (suc h) s s' up up' t f below r = (
    InternalAt-Placed up' r.0 (f r.0.n r.0.live),
    λ i c at.
        Repr-Stays h s s' (some (t.0, i)) c
          (λ p has. below p (contains-concat (nodes K V h) t.2 i p at has)) (r.1 i c at),
  )
