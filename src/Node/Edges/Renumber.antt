-- ===== src/Node/Edges/Renumber.antt =====
-- The loops of src/node.rs and src/map.rs that change each child in turn.
use btree_forest_arena.Prelude.{
  ℕ, zero, suc, ◌+◌, ◌≡◌, refl, ◌∙◌, sym, ap, subst, true, false, Option, some, List, [], ◌∷◌,
  arith, get_elem?, contains, ==_refl, ne→==,
}
use btree_forest_arena.Store.{NodePtr, Slab}
use btree_forest_arena.Store.Access.{as_ref-live, as_mut-live}
use btree_forest_arena.Node.Defs.{Node}
use btree_forest_arena.Node.Edges.{map_parent_idxs, number_parent_idxs, adopt}

-- No address twice.
abbrev pub Distinct : List NodePtr → Type 0
Distinct [] = Unit
Distinct (p ∷ ps) = (contains ps p ≡ false) × Distinct ps

pub contains-get : (ps : List ℕ) (j : ℕ) {q : ℕ} → get_elem? ps j ≡ some q → contains ps q ≡ true
contains-get [] j at = cc
contains-get (p ∷ ps) zero {q} at = let same : p ≡ q = cc in rw same (ground (arith, ==_refl q))
contains-get (p ∷ ps) (suc j) at = ground (arith, contains-get ps j at)

pub contains-cons :
    (p q : ℕ) (ps : List ℕ) → contains (q ∷ ps) p ≡ false → (p ≡ q → ⊥) × (contains ps p ≡ false)
contains-cons p q ps out = (λ e. ground (arith, e), ground (arith))

module _ {S K V : Type 0} (store : Slab S (Node K V)) where
  -- The node at place `j` of the list, counted from `i` on, becomes what `g` makes of it.
  pub record Touched (s : S) (ps : List NodePtr) (i : ℕ) (g : ℕ → Node K V → Node K V)
      (r : Option (Unit {0} × S)) : Type 0 where
    pub s' : S
    pub runs : r ≡ some (tt, s')
    pub others : (q : NodePtr) → contains ps q ≡ false → store.deref q s' ≡ store.deref q s
    pub moved :
        (j : ℕ) (q : NodePtr) (n : Node K V)
        → get_elem? ps j ≡ some q
        → store.deref q s ≡ some n
        → store.deref q s' ≡ some (g (i + j) n)

  pub deref-other :
      {s : S} {q : NodePtr} {n : Node K V} (x : NodePtr) (n' : Node K V)
      → store.deref q s ≡ some n
      → (x ≡ q → ⊥)
      → store.deref x (store.assign q n' s) ≡ store.deref x s
  deref-other {s} {q} {n} x n' live apart =
      store.deref-assign x q n' n s live ∙ rw (ne→== x q apart)

  pub deref_self :
      {s : S} {q : NodePtr} {n : Node K V} (n' : Node K V)
      → store.deref q s ≡ some n
      → store.deref q (store.assign q n' s) ≡ some n'
  deref_self {s} {q} {n} n' live = store.deref-assign q q n' n s live ∙ rw (==_refl q)

  Touched-step :
      {s : S} {q : NodePtr} {n : Node K V} {ps : List NodePtr} {i : ℕ} {r : Option (Unit {0} × S)}
      (g : ℕ → Node K V → Node K V)
      → store.deref q s ≡ some n
      → contains ps q ≡ false
      → Touched (store.assign q (g i n) s) ps (suc i) g r
      → Touched s (q ∷ ps) i g r
  Touched-step {s} {q} {n} {ps} {i} g live out rest = record {
    s' = rest.s';
    runs = rest.runs;
    others = λ x none_of.
        let (apart, later) = contains-cons x q ps none_of in
        rest.others x later ∙ deref-other x (g i n) live apart;
    moved = elim [
      | zero ↦ λ x m at is.
          let same : q ≡ x = cc in
          let one : n ≡ m = subst (λ y. store.deref y s ≡ some m → n ≡ m) same (λ h. cc) is in
          subst (λ y. store.deref y rest.s' ≡ some (g (i + 0) m)) same
            (rest.others q out
              ∙ deref_self (g i n) live
              ∙ ap some (ap (g i) one ∙ ap (λ k. g k m) {x = i} {y = i + 0} (omega arith)))
      | suc j ↦ λ x m at is.
          let apart : x ≡ q → ⊥ = λ e.
            false_true (sym out ∙ subst (λ y. contains ps y ≡ true) e (contains-get ps j at)) in
          rest.moved j x m at (deref-other x (g i n) live apart ∙ is)
          ∙ ap (λ k. some (g k m)) {x = suc i + j} {y = i + suc j} (omega arith)
    ];
  }
    where
      false_true : false ≡ true → ⊥
      false_true e = cc

  -- `parent_idx += 1`, where the children stand at the places from `i` on.
  pub map_parent_idxs-Touched :
      (s : S) (ps : List NodePtr) (i : ℕ)
      → Distinct ps
      → ((j : ℕ) (q : NodePtr)
          → get_elem? ps j ≡ some q
          → (n : Node K V) × (store.deref q s ≡ some n) × (n.parent_idx ≡ some (i + j)))
      → Touched s ps i
          (λ j n. record n { parent_idx = some (j + 1) })
          (map_parent_idxs store (λ j. some (j + 1)) ps s)
  unfolding map_parent_idxs
  map_parent_idxs-Touched s [] i distinct numbered = record {
    s' = s;
    runs = refl;
    others = λ q out. refl;
    moved = λ j q n at live. cc;
  }
  map_parent_idxs-Touched s (q ∷ ps) i distinct numbered =
      let (n, live, index) = numbered 0 q refl in
      let here : n.parent_idx ≡ some i = index ∙ ap some (omega arith) in
      let s₁ = store.assign q (record n { parent_idx = some (i + 1) }) s in
      let rest = map_parent_idxs-Touched s₁ ps (suc i) distinct.1 (λ j x at.
        let (m, live', index') = numbered (suc j) x at in
        (
          m,
          deref-other x (record n { parent_idx = some (i + 1) }) live (apart j x at) ∙ live',
          index' ∙ ap some (omega arith),
        )) in
      Touched-step (λ j m. record m { parent_idx = some (j + 1) }) live distinct.0
        (record {
          s' = rest.s';
          runs =
              rw
                (
                  as_ref-live store live,
                  here,
                  as_mut-live store (record n { parent_idx = some (i + 1) }) live,
                )
                rest.runs;
          others = rest.others;
          moved = rest.moved;
        })
    where
      apart : (j : ℕ) (x : NodePtr) → get_elem? ps j ≡ some x → x ≡ q → ⊥
      apart j x at e =
          let both : contains ps q ≡ true =
            subst (λ y. contains ps y ≡ true) e (contains-get ps j at) in
          cc

  -- `parent_idx = i`, `i + 1`, …
  pub number_parent_idxs-Touched :
      (s : S) (ps : List NodePtr) (i : ℕ)
      → Distinct ps
      → ((j : ℕ) (q : NodePtr)
          → get_elem? ps j ≡ some q
          → (n : Node K V) × (store.deref q s ≡ some n))
      → Touched s ps i (λ j n. record n { parent_idx = some j }) (number_parent_idxs store i ps s)
  unfolding number_parent_idxs
  number_parent_idxs-Touched s [] i distinct all_live = record {
    s' = s;
    runs = refl;
    others = λ q out. refl;
    moved = λ j q n at live. cc;
  }
  number_parent_idxs-Touched s (q ∷ ps) i distinct all_live =
      let (n, live) = all_live 0 q refl in
      let s₁ = store.assign q (record n { parent_idx = some i }) s in
      let rest = number_parent_idxs-Touched s₁ ps (suc i) distinct.1 (λ j x at.
        let (m, live') = all_live (suc j) x at in
        (m, deref-other x (record n { parent_idx = some i }) live (apart j x at) ∙ live')) in
      Touched-step (λ j m. record m { parent_idx = some j }) live distinct.0
        (record {
          s' = rest.s';
          runs =
              rw (as_ref-live store live, as_mut-live store (record n { parent_idx = some i }) live)
                (ap (λ k. number_parent_idxs store k ps s₁) {x = i + 1} {y = suc i} (omega arith)
                  ∙ rest.runs);
          others = rest.others;
          moved = rest.moved;
        })
    where
      apart : (j : ℕ) (x : NodePtr) → get_elem? ps j ≡ some x → x ≡ q → ⊥
      apart j x at e =
          let both : contains ps q ≡ true =
            subst (λ y. contains ps y ≡ true) e (contains-get ps j at) in
          cc

  -- `parent = Some(p)`
  pub adopt-Touched :
      (s : S) (p : NodePtr) (ps : List NodePtr) (i : ℕ)
      → Distinct ps
      → ((j : ℕ) (q : NodePtr)
          → get_elem? ps j ≡ some q
          → (n : Node K V) × (store.deref q s ≡ some n))
      → Touched s ps i (λ j n. record n { parent = some p }) (adopt store p ps s)
  unfolding adopt
  adopt-Touched s p [] i distinct all_live = record {
    s' = s;
    runs = refl;
    others = λ q out. refl;
    moved = λ j q n at live. cc;
  }
  adopt-Touched s p (q ∷ ps) i distinct all_live =
      let (n, live) = all_live 0 q refl in
      let s₁ = store.assign q (record n { parent = some p }) s in
      let rest = adopt-Touched s₁ p ps (suc i) distinct.1 (λ j x at.
        let (m, live') = all_live (suc j) x at in
        (m, deref-other x (record n { parent = some p }) live (apart j x at) ∙ live')) in
      Touched-step (λ j m. record m { parent = some p }) live distinct.0
        (record {
          s' = rest.s';
          runs =
              rw (as_ref-live store live, as_mut-live store (record n { parent = some p }) live)
                rest.runs;
          others = rest.others;
          moved = rest.moved;
        })
    where
      apart : (j : ℕ) (x : NodePtr) → get_elem? ps j ≡ some x → x ≡ q → ⊥
      apart j x at e =
          let both : contains ps q ≡ true =
            subst (λ y. contains ps y ≡ true) e (contains-get ps j at) in
          cc
