-- ===== src/Tree/Agrees.antt =====
-- A tree stays represented while its own nodes stay as they are.
use btree_forest_arena.Prelude.{
  ℕ, zero, suc, ◌≡◌, refl, ◌∙◌, true, false, Option, none, some, List, [], ◌∷◌, ◌++◌, map, concat,
  arith, get_elem?, if◌then◌else◌, contains, contains-append, ==_refl,
}
use btree_forest_arena.Store.{NodePtr, Slab}
use btree_forest_arena.Node.{Node}
use btree_forest_arena.Tree.Defs.{Tree, nodes}
use btree_forest_arena.Tree.Repr.{Repr}

pub contains-head : (p : ℕ) (ps : List ℕ) → contains (p ∷ ps) p ≡ true
contains-head p ps = ground (arith, ==_refl p)

pub contains-later : (q p : ℕ) (ps : List ℕ) → contains ps p ≡ true → contains (q ∷ ps) p ≡ true
contains-later q p ps has = ground (arith, has)

pub contains-concat :
    {A : Type 0} (f : A → List ℕ) (cs : List A) (i : ℕ) {c : A} (p : ℕ)
    → get_elem? cs i ≡ some c
    → contains (f c) p ≡ true
    → contains (concat (map f cs)) p ≡ true
contains-concat f [] i p at has = cc
contains-concat f (x ∷ cs) zero {c} p at has =
    let same : x ≡ c = cc in contains-append (f x) (concat (map f cs)) p ∙ rw (same, has)
contains-concat f (x ∷ cs) (suc i) p at has =
    ground (arith, contains-append (f x) (concat (map f cs)) p, contains-concat f cs i p at has)

module _ {S K V : Type 0} (store : Slab S (Node K V)) where
  -- The nodes at the listed addresses are the same in both states.
  abbrev pub Agrees : S → S → List NodePtr → Type 0
  Agrees s s' ps = (p : NodePtr) → contains ps p ≡ true → store.deref p s' ≡ store.deref p s

  pub Repr-Agrees :
      (h : ℕ) (s s' : S) (up : Option (NodePtr × ℕ)) (t : Tree K V h)
      → Agrees s s' (nodes K V h t)
      → Repr store h s up t
      → Repr store h s' up t
  Repr-Agrees zero s s' up t f r = record {
    n = r.n;
    prev = r.prev;
    next = r.next;
    live = f t.0 (contains-head t.0 []) ∙ r.live;
    leaf = r.leaf;
    has_parent = r.has_parent;
  }
  Repr-Agrees (suc h) s s' up t f r = (
    record {
      n = r.0.n;
      live = f t.0 (contains-head t.0 (concat (map (nodes K V h) t.2))) ∙ r.0.live;
      internal = r.0.internal;
      has_parent = r.0.has_parent;
    },
    λ i c at.
        Repr-Agrees h s s' (some (t.0, i)) c
          (λ p has. f p (
            contains-later t.0 p (concat (map (nodes K V h) t.2))
              (contains-concat (nodes K V h) t.2 i p at has)))
          (r.1 i c at),
  )

  -- The nodes at the listed addresses are given back, and the others are as they were.
  abbrev pub Freed : S → S → List NodePtr → Type 0
  Freed s s' ps =
      (p : NodePtr) → store.deref p s' ≡ (if contains ps p then none else store.deref p s)

  pub Freed-append :
      (s s' s'' : S) (xs ys : List NodePtr)
      → Freed s s' xs
      → Freed s' s'' ys
      → Freed s s'' (xs ++ ys)
  Freed-append s s' s'' xs ys f g p = ground (arith, f p, g p, contains-append xs ys p)

  pub Freed-live :
      (s s' : S) (ps : List NodePtr) {p : NodePtr} {n : Node K V}
      → Freed s s' ps
      → contains ps p ≡ false
      → store.deref p s ≡ some n
      → store.deref p s' ≡ some n
  Freed-live s s' ps {p} f out live = f p ∙ (rw out live)

  pub Repr-Freed :
      (h : ℕ) (s s' : S) (up : Option (NodePtr × ℕ)) (t : Tree K V h) (ps : List NodePtr)
      → Freed s s' ps
      → ((p : NodePtr) → contains (nodes K V h t) p ≡ true → contains ps p ≡ false)
      → Repr store h s up t
      → Repr store h s' up t
  Repr-Freed h s s' up t ps f apart r =
      Repr-Agrees h s s' up t (λ p has. f p ∙ (rw (apart p has) refl)) r
