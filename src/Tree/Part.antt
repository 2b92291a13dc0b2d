-- ===== src/Tree/Part.antt =====
-- The children of a full node, with a new one among them, are shared out between two nodes.
use btree_forest_arena.Prelude.{
  ℕ, suc, ◌+◌, ◌-◌, ◌<◌, ◌≤◌, ◌≡◌, refl, ◌∙◌, sym, ap, subst, ◌⊎◌, inl, inr, true, false,
  Bool-cases, Option, none, some, List, map, arith, length, length-map, get_elem?,
  get_elem?-map_inv, get_elem?-insert_at, insert_at, map-insert_at, contains, ltb, leb, ◌==◌,
  if◌then◌else◌, ltb→lt, ltb→le, ==→≡, ==→≢,
}
use btree_forest_arena.Store.{NodePtr, Slab}
use btree_forest_arena.Node.{Node, set_parent}
use btree_forest_arena.Node.Edges.Renumber.{Distinct, deref-other, deref_self}
use btree_forest_arena.Node.Edges.Shift.{Numbered}
use btree_forest_arena.Tree.Defs.{Tree, addr, nodes}
use btree_forest_arena.Tree.Repr.{HasParent, Repr}
use btree_forest_arena.Tree.Alike.{belows}
use btree_forest_arena.Tree.Apart.{
  false-not-true, outside, contains-place, apart-outside, root-outside, self-outside, addr-inside,
  Distinct-places, place_of, belows-nodes,
}
use btree_forest_arena.Tree.Hang.{Root, Repr-Root}

-- The place among the old children of the one at place `i` of the new list; the new child had none.
unfoldable pub old_place : NodePtr → ℕ → ℕ → Option (NodePtr × ℕ)
old_place p idx i =
    if ltb i (suc idx) then some (p, i) else if i == suc idx then none else some (p, i - 1)

old_place-cases :
    (p : NodePtr) (idx i : ℕ)
    → ((old_place p idx i ≡ some (p, i)) × (i < suc idx))
      ⊎ ((old_place p idx i ≡ none) × (i ≡ suc idx))
      ⊎ ((old_place p idx i ≡ some (p, i - 1)) × (suc idx < i))
unfolding old_place
old_place-cases p idx i = elim (Bool-cases (ltb i (suc idx))) [
  | inl before ↦ inl (rw before refl, ltb→lt i (suc idx) before)
  | inr behind ↦ elim (Bool-cases (i == suc idx)) [
    | inl here ↦ inr (inl (rw (behind, here) refl, ==→≡ i (suc idx) here))
    | inr later ↦ inr (
        inr (
          rw (behind, later) refl,
          omega (arith, ltb→le i (suc idx) behind, ==→≢ i (suc idx) later),
        ))
  ]
]

some-not-none : (a : NodePtr × ℕ) → ◌≡◌ {A = Option (NodePtr × ℕ)} (some a) none → ⊥
some-not-none a h = cc

old_place-injective : (p : NodePtr) (idx i j : ℕ) → old_place p idx i ≡ old_place p idx j → i ≡ j
old_place-injective p idx i j same = elim (old_place-cases p idx i) [
  | inl (is, lt) ↦ elim (old_place-cases p idx j) [
    | inl (is', lt') ↦ place_of p i j (sym is ∙ same ∙ is')
    | inr (inl (is', at')) ↦ absurd (some-not-none (p, i) (sym is ∙ same ∙ is'))
    | inr (inr (is', more')) ↦ omega (arith, lt, more', place_of p i (j - 1) (sym is ∙ same ∙ is'))
  ]
  | inr (inl (is, at)) ↦ elim (old_place-cases p idx j) [
    | inl (is', lt') ↦ absurd (some-not-none (p, j) (sym is' ∙ sym same ∙ is))
    | inr (inl (is', at')) ↦ at ∙ sym at'
    | inr (inr (is', more')) ↦ absurd (some-not-none (p, j - 1) (sym is' ∙ sym same ∙ is))
  ]
  | inr (inr (is, more)) ↦ elim (old_place-cases p idx j) [
    | inl (is', lt') ↦ omega (arith, lt', more, place_of p (i - 1) j (sym is ∙ same ∙ is'))
    | inr (inl (is', at')) ↦ absurd (some-not-none (p, i - 1) (sym is ∙ same ∙ is'))
    | inr (inr (is', more')) ↦
        omega (arith, more, more', place_of p (i - 1) (j - 1) (sym is ∙ same ∙ is'))
  ]
]

module _ {S K V : Type 0} (store : Slab S (Node K V)) (h : ℕ) (s : S) (up : Option (NodePtr × ℕ))
    (t : Tree K V (suc h)) (e : Tree K V h) (r : Repr store (suc h) s up t)
    (re : Repr store h s none e) (idx : ℕ) (le : idx ≤ length t.1) where
  -- The children with the new one.
  abbrev pub cs : List (Tree K V h)
  cs = insert_at (suc idx) e t.2

  abbrev pub qs : List NodePtr
  qs = insert_at (idx + 1) (addr K V h e) (map (addr K V h) t.2)

  pub qs-eq : map (addr K V h) cs ≡ qs
  qs-eq =
      map-insert_at (addr K V h) (suc idx) e t.2
      ∙ ap (λ j. insert_at j (addr K V h e) (map (addr K V h) t.2)) {x = suc idx} {y = idx + 1}
          (omega arith)

  pub child-Repr :
      (i : ℕ) (c : Tree K V h) → get_elem? cs i ≡ some c → Repr store h s (old_place t.0 idx i) c
  unfolding old_place
  child-Repr i c at =
      let split : (if ltb i (suc idx)
            then get_elem? t.2 i
            else if i == suc idx
            then some e
            else get_elem? t.2 (i - 1))
          ≡ some c =
        sym (
          get_elem?-insert_at (suc idx) e t.2 i
            (omega (arith, le, length-map (addr K V h) t.2, r.0.internal.branches)))
        ∙ at in
      elim (Bool-cases (ltb i (suc idx))) [
        | inl before ↦ rw before (r.1 i c (ground (arith, split, before)))
        | inr behind ↦ elim (Bool-cases (i == suc idx)) [
          | inl here ↦
              let one : e ≡ c = ground (arith, split, behind, here) in
              rw (behind, here) (subst (Repr store h s none) one re)
          | inr later ↦ rw (behind, later) (r.1 (i - 1) c (ground (arith, split, behind, later)))
        ]
      ]

  -- Two of the children have no node in common.
  children-apart :
      (i j : ℕ) (c d : Tree K V h) (q : NodePtr)
      → get_elem? cs i ≡ some c
      → get_elem? cs j ≡ some d
      → (i ≡ j → ⊥)
      → contains (nodes K V h c) q ≡ true
      → contains (nodes K V h d) q ≡ false
  children-apart i j c d q at at' apart inside =
      apart-outside store h s (old_place t.0 idx i) (old_place t.0 idx j) c d q (child-Repr i c at)
        (child-Repr j d at') (λ same. apart (old_place-injective t.0 idx i j same)) inside

  -- The child that an address of the list is of.
  pub listed :
      (i : ℕ) (q : NodePtr)
      → get_elem? qs i ≡ some q
      → (c : Tree K V h) × (get_elem? cs i ≡ some c) × (addr K V h c ≡ q)
  listed i q at =
      let (c, at_c, is) =
        get_elem?-map_inv (addr K V h) cs i (ap (λ xs. get_elem? xs i) qs-eq ∙ at) in
      (c, at_c, is)

  pub inside_of :
      (c : Tree K V h) (q : NodePtr) → addr K V h c ≡ q → contains (nodes K V h c) q ≡ true
  inside_of c q is = subst (λ x. contains (nodes K V h c) x ≡ true) is (addr-inside store h c)

  pub qs-Distinct : Distinct qs
  qs-Distinct = Distinct-places qs (λ i j q a b.
      let (c, at, is) = listed i q a in
      let (d, at', is') = listed j q b in
      elim (Bool-cases (i == j)) [
        | inl same ↦ ==→≡ i j same
        | inr differs ↦ absurd (
            false-not-true (children-apart i j c d q at at' (==→≢ i j differs) (inside_of c q is))
              (inside_of d q is'))
      ])

  -- A node of a child is not the root.
  pub not_root :
      (i : ℕ) (c : Tree K V h) (q : NodePtr)
      → get_elem? cs i ≡ some c
      → contains (nodes K V h c) q ≡ true
      → q ≡ t.0
      → ⊥
  not_root i c q at has same =
      false-not-true (root-outside store h s up (old_place t.0 idx i) t c r (child-Repr i c at))
        (subst (λ x. contains (nodes K V h c) x ≡ true) same has)

  pub qs-no_loop : contains qs t.0 ≡ false
  qs-no_loop = outside (contains qs t.0) (λ has.
      let (i, at) = contains-place qs t.0 has in
      let (c, at_c, is) = listed i t.0 at in not_root i c t.0 at_c (inside_of c t.0 is) refl)

  -- A node below a child is not in the list.
  pub below_not_listed :
      (i : ℕ) (c : Tree K V h) (q : NodePtr)
      → get_elem? cs i ≡ some c
      → contains (belows K V h c) q ≡ true
      → contains qs q ≡ false
  below_not_listed i c q at below = outside (contains qs q) (λ has.
      let (j, at_j) = contains-place qs q has in
      let (d, at_d, is) = listed j q at_j in
      elim (Bool-cases (i == j)) [
        | inl same ↦
            let there : get_elem? cs j ≡ some c =
              subst (λ x. get_elem? cs x ≡ some c) (==→≡ i j same) at in
            let one : d ≡ c = cc in
            false-not-true (self-outside store h s (old_place t.0 idx i) c (child-Repr i c at))
              (subst (λ x. contains (belows K V h c) x ≡ true) (sym is ∙ ap (addr K V h) one) below)
        | inr differs ↦
            false-not-true
              (children-apart i j c d q at at_d (==→≢ i j differs) (belows-nodes store h c q below))
              (inside_of d q is)
      ])

  -- The root of the new tree, and the arena once its parent is set.
  abbrev pub root : Root store s (addr K V h e) none
  root = Repr-Root store h s none e re

  abbrev pub hooked : S
  hooked = store.assign (addr K V h e) (set_parent root.n t.0 (idx + 1)) s

  pub hooked-other : (q : NodePtr) → (q ≡ addr K V h e → ⊥) → store.deref q hooked ≡ store.deref q s
  hooked-other q apart = deref-other store q (set_parent root.n t.0 (idx + 1)) root.live apart

  -- The root of a child in that arena: it names the parent and its index, and else is what it was.
  pub record Hooked (i : ℕ) (c : Tree K V h) (n : Node K V) : Type 0 where
    pub m : Node K V
    pub live : store.deref (addr K V h c) hooked ≡ some m
    pub has_parent : m.parent ≡ some t.0
    pub has_index : m.parent_idx ≡ some (if leb i (idx + 1) then i else i - 1)
    pub same :
        (a : Option NodePtr) (b : Option ℕ)
        → record m { parent = a; parent_idx = b } ≡ record n { parent = a; parent_idx = b }

  pub child-Hooked :
      (i : ℕ) (c : Tree K V h) (n : Node K V)
      → get_elem? cs i ≡ some c
      → store.deref (addr K V h c) s ≡ some n
      → Hooked i c n
  unfolding set_parent
  child-Hooked i c n at live =
      let rc = Repr-Root store h s (old_place t.0 idx i) c (child-Repr i c at) in
      let one : rc.n ≡ n = cc (rc.live, live) in
      let has = subst (λ m. HasParent m (old_place t.0 idx i)) one rc.has_parent in
      elim (old_place-cases t.0 idx i) [
        | inl (is, lt) ↦
            let has' = subst (λ u. HasParent n u) is has in
            record {
              m = n;
              live =
                  hooked-other (addr K V h c) (not_new i c at (λ same. omega (arith, same, lt)))
                  ∙ live;
              has_parent = has'.0;
              has_index = has'.1 ∙ ap some (ground (arith, lt));
              same = λ a b. refl;
            }
        | inr (inl (is, here)) ↦
            let it : c ≡ e = new_at i c at here in
            let node : root.n ≡ n =
              subst (λ d. store.deref (addr K V h d) s ≡ some n → root.n ≡ n) (sym it)
                (λ l. cc (root.live, l)) live in
            record {
              m = set_parent n t.0 (idx + 1);
              live =
                  subst (λ d. store.deref (addr K V h d) hooked ≡ some (set_parent n t.0 (idx + 1)))
                    (sym it)
                    (deref_self store (set_parent root.n t.0 (idx + 1)) root.live
                      ∙ ap (λ y. some (set_parent y t.0 (idx + 1))) node);
              has_parent = refl;
              has_index = ap some (ground (arith, here));
              same = λ a b. refl;
            }
        | inr (inr (is, more)) ↦
            let has' = subst (λ u. HasParent n u) is has in
            record {
              m = n;
              live =
                  hooked-other (addr K V h c) (not_new i c at (λ same. omega (arith, same, more)))
                  ∙ live;
              has_parent = has'.0;
              has_index = has'.1 ∙ ap some (ground (arith, more));
              same = λ a b. refl;
            }
      ]
    where
      long : suc idx ≤ length t.2
      long = omega (arith, le, length-map (addr K V h) t.2, r.0.internal.branches)

      at_new : get_elem? cs (suc idx) ≡ some e
      at_new = get_elem?-insert_at (suc idx) e t.2 (suc idx) long ∙ ground arith

      new_at : (j : ℕ) (d : Tree K V h) → get_elem? cs j ≡ some d → j ≡ suc idx → d ≡ e
      new_at j d at_d here =
          let there : get_elem? cs (suc idx) ≡ some d =
            subst (λ x. get_elem? cs x ≡ some d) here at_d in
          cc (there, at_new)

      not_new :
          (j : ℕ) (d : Tree K V h)
          → get_elem? cs j ≡ some d
          → (j ≡ suc idx → ⊥)
          → addr K V h d ≡ addr K V h e
          → ⊥
      not_new j d at_d differs same =
          false-not-true
            (children-apart j (suc idx) d e (addr K V h d) at_d at_new differs
              (addr-inside store h d))
            (inside_of e (addr K V h d) (sym same))

  pub qs-Numbered : Numbered store hooked t.0 qs (idx + 1)
  qs-Numbered i q at =
      let (c, at_c, is) = listed i q at in
      let rc = Repr-Root store h s (old_place t.0 idx i) c (child-Repr i c at_c) in
      let x = child-Hooked i c rc.n at_c rc.live in
      (x.m, subst (λ y. store.deref y hooked ≡ some x.m) is x.live, x.has_parent, x.has_index)
