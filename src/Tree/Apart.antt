-- ===== src/Tree/Apart.antt =====
-- Trees at different places have no node in common.
use btree_forest_arena.Prelude.{
  ℕ, zero, suc, ◌≡◌, refl, sym, ap, subst, inl, inr, Bool, true, false, Bool-cases, ==→≡, Option,
  some, List, [], ◌∷◌, map, concat, arith, get_elem?, get_elem?-map_inv, contains, ◌==◌,
}
use btree_forest_arena.Store.{NodePtr, Slab}
use btree_forest_arena.Node.{Node}
use btree_forest_arena.Node.Edges.Renumber.{Distinct}
use btree_forest_arena.Tree.Defs.{Tree, addr, nodes}
use btree_forest_arena.Tree.Repr.{Repr}
use btree_forest_arena.Tree.Agrees.{contains-head, contains-later}
use btree_forest_arena.Tree.Alike.{belows}
use btree_forest_arena.Tree.Nodes.{
  contains-InChild, nodes-Below, Below-once, Below-top, root-not-Below,
}

pub false-not-true : {b : Bool} → b ≡ false → b ≡ true → ⊥
false-not-true h k = cc

pub outside : (b : Bool) → (b ≡ true → ⊥) → b ≡ false
outside true f = absurd (f refl)
outside false f = refl

pub place_of : (p i j : ℕ) → ◌≡◌ {A = Option (NodePtr × ℕ)} (some (p, i)) (some (p, j)) → i ≡ j
place_of p i j h = cc

-- Where an address of the list stands.
pub contains-place :
    (ps : List ℕ) (q : ℕ) → contains ps q ≡ true → (j : ℕ) × (get_elem? ps j ≡ some q)
contains-place [] q has = cc
contains-place (p ∷ ps) q has = elim (Bool-cases (q == p)) [
  | inl same ↦ (0, ap some (sym (==→≡ q p same)))
  | inr differs ↦ let (j, at) = contains-place ps q (ground (arith, has, differs)) in (suc j, at)
]

pub Distinct-places :
    (ps : List ℕ)
    → ((i j : ℕ) (q : ℕ) → get_elem? ps i ≡ some q → get_elem? ps j ≡ some q → i ≡ j)
    → Distinct ps
Distinct-places [] f = tt
Distinct-places (p ∷ ps) f = (
  outside (contains ps p)
      (λ has. let (j, at) = contains-place ps p has in omega (arith, f 0 (suc j) p refl at)),
  Distinct-places ps (λ i j q a b. omega (arith, f (suc i) (suc j) q a b)),
)

module _ {S K V : Type 0} (store : Slab S (Node K V)) where
  pub apart-outside :
      (h : ℕ) (s : S) (up up' : Option (NodePtr × ℕ)) (t t' : Tree K V h) (q : NodePtr)
      → Repr store h s up t
      → Repr store h s up' t'
      → (up ≡ up' → ⊥)
      → contains (nodes K V h t) q ≡ true
      → contains (nodes K V h t') q ≡ false
  apart-outside h s up up' t t' q r r' differs has = outside (contains (nodes K V h t') q) (λ has'.
      differs (
        Below-once store h s up up' q (nodes-Below store h s up t q r has)
          (nodes-Below store h s up' t' q r' has')))

  pub orphans-outside :
      (h : ℕ) (s : S) (up up' : Option (NodePtr × ℕ)) (t t' : Tree K V h) (q : NodePtr)
      → Repr store h s up t
      → Repr store h s up' t'
      → (addr K V h t ≡ addr K V h t' → ⊥)
      → contains (nodes K V h t) q ≡ true
      → contains (nodes K V h t') q ≡ false
  orphans-outside h s up up' t t' q r r' differs has =
      outside (contains (nodes K V h t') q) (λ has'. differs (
        Below-top store h s up up' (addr K V h t) (addr K V h t') q
          (nodes-Below store h s up t q r has) (nodes-Below store h s up' t' q r' has')))

  pub root-outside :
      (h : ℕ) (s : S) (up up' : Option (NodePtr × ℕ)) (t : Tree K V (suc h)) (c : Tree K V h)
      → Repr store (suc h) s up t
      → Repr store h s up' c
      → contains (nodes K V h c) t.0 ≡ false
  root-outside h s up up' t c r r' =
      outside (contains (nodes K V h c) t.0) (λ has.
        root-not-Below store h s up up' t t.0 r (nodes-Below store h s up' c t.0 r' has) refl)

  -- A root is not below itself.
  pub self-outside :
      (h : ℕ) (s : S) (up : Option (NodePtr × ℕ)) (t : Tree K V h)
      → Repr store h s up t
      → contains (belows K V h t) (addr K V h t) ≡ false
  self-outside zero s up t r = refl
  self-outside (suc h) s up t r = outside (contains (belows K V (suc h) t) t.0) (λ has.
      let j = contains-InChild K V h t.2 t.0 has in
      false-not-true (root-outside h s up (some (t.0, j.i)) t j.c r (r.1 j.i j.c j.at)) j.has)

  pub addr-inside : (h : ℕ) (t : Tree K V h) → contains (nodes K V h t) (addr K V h t) ≡ true
  addr-inside zero t = contains-head t.0 []
  addr-inside (suc h) t = contains-head t.0 (concat (map (nodes K V h) t.2))

  pub belows-nodes :
      (h : ℕ) (t : Tree K V h) (q : NodePtr)
      → contains (belows K V h t) q ≡ true
      → contains (nodes K V h t) q ≡ true
  belows-nodes zero t q has = cc
  belows-nodes (suc h) t q has = contains-later t.0 q (concat (map (nodes K V h) t.2)) has

  -- The addresses of the children differ.
  pub children-Distinct :
      (h : ℕ) (s : S) (up : Option (NodePtr × ℕ)) (t : Tree K V (suc h))
      → Repr store (suc h) s up t
      → Distinct (map (addr K V h) t.2)
  children-Distinct h s up t r = Distinct-places (map (addr K V h) t.2) (λ i j q a b.
      let (c, at, is) = get_elem?-map_inv (addr K V h) t.2 i a in
      let (d, at', is') = get_elem?-map_inv (addr K V h) t.2 j b in
      place_of t.0 i j (
        Below-once store h s (some (t.0, i)) (some (t.0, j)) q
          (nodes-Below store h s (some (t.0, i)) c q (r.1 i c at)
            (subst (λ x. contains (nodes K V h c) x ≡ true) is (addr-inside h c)))
          (nodes-Below store h s (some (t.0, j)) d q (r.1 j d at')
            (subst (λ x. contains (nodes K V h d) x ≡ true) is' (addr-inside h d)))))
