-- ===== src/Node/Edges/Shift.antt =====
-- The two loops of `split_internal` only move the place of insertion.
use btree_forest_arena.Prelude.{
  ℕ, zero, suc, ◌+◌, ◌-◌, ◌≤◌, ◌≡◌, refl, ◌∙◌, sym, ap, subst, inl, inr, true, false, Bool-cases,
  Option, some, List, [], ◌∷◌, arith, length, insert_at, set, length-set, get_elem?, get_elem?-some,
  le→leb, leb, insert_at-set, insert_at-set_back, contains, ◌==◌, ==→≡, ==→≢, if◌then◌else◌,
}
use btree_forest_arena.Store.{NodePtr, Slab}
use btree_forest_arena.Store.Access.{as_ref-live, as_mut-live}
use btree_forest_arena.Node.Defs.{Node}
use btree_forest_arena.Node.View.{IsInternal, SameParent}
use btree_forest_arena.Node.Edges.{shift_forward, shift_backward}
use btree_forest_arena.Node.Edges.Renumber.{Distinct, contains-get, deref-other, deref_self}
use btree_forest_arena.Node.Edges.Insert.{assert_parent_idx-live}
use btree_forest_arena.Node.Edges.Swap.{swap_edge-IsInternal}

module _ {S K V : Type 0} (store : Slab S (Node K V)) where
  -- The children of the node at `p`, of which those behind place `b` still have the index before theirs.
  abbrev pub Numbered : S → NodePtr → List NodePtr → ℕ → Type 0
  Numbered s p qs b =
      (i : ℕ) (q : NodePtr)
      → get_elem? qs i ≡ some q
      → (n : Node K V) × (store.deref q s ≡ some n)
        × (n.parent ≡ some p)
        × (n.parent_idx ≡ some (if leb i b then i else i - 1))

  -- The node, the held edge and the arena after a loop that took the place of insertion to `j`; `qs` are
  -- the edges with the held one inserted.
  pub record Shifted (s : S) (p : NodePtr) (n : Node K V) (ks' : List K) (qs : List NodePtr)
      (b j : ℕ) (r : Option ((Node K V × K × NodePtr) × S)) : Type 0 where
    pub s' : S
    pub n' : Node K V
    pub ks : List K
    pub ps : List NodePtr
    pub k : K
    pub e : NodePtr
    pub runs : r ≡ some ((n', k, e), s')
    pub internal : IsInternal n' ks ps
    pub keys_length : length ks + 1 ≡ length ks'
    pub all_keys : insert_at j k ks ≡ ks'
    pub all_edges : insert_at (j + 1) e ps ≡ qs
    pub same_parent : SameParent n n'
    pub numbered : Numbered s' p qs b
    pub kept :
        (q : NodePtr) (m : Node K V)
        → store.deref q s ≡ some m
        → (i : Option ℕ) × (store.deref q s' ≡ some (record m { parent_idx = i }))
    pub others : (q : NodePtr) → contains qs q ≡ false → store.deref q s' ≡ store.deref q s

  pub Distinct-index :
      (qs : List NodePtr) (i j : ℕ) {q : NodePtr}
      → Distinct qs
      → get_elem? qs i ≡ some q
      → get_elem? qs j ≡ some q
      → i ≡ j
  Distinct-index [] i j d at at' = cc
  Distinct-index (x ∷ qs) zero zero d at at' = refl
  Distinct-index (x ∷ qs) zero (suc j) {q} d at at' =
      let same : x ≡ q = cc in
      let has : contains qs x ≡ true =
        subst (λ y. contains qs y ≡ true) (sym same) (contains-get qs j at') in
      absurd (cc (has, d.0))
  Distinct-index (x ∷ qs) (suc i) zero {q} d at at' =
      let same : x ≡ q = cc in
      let has : contains qs x ≡ true =
        subst (λ y. contains qs y ≡ true) (sym same) (contains-get qs i at) in
      absurd (cc (has, d.0))
  Distinct-index (x ∷ qs) (suc i) (suc j) d at at' = ap suc (Distinct-index qs i j d.1 at at')

  pub inserted_at :
      (i : ℕ) (x : NodePtr) (xs : List NodePtr)
      → i ≤ length xs
      → get_elem? (insert_at i x xs) i ≡ some x
  inserted_at zero x xs le = refl
  inserted_at (suc i) x [] le = absurd (omega arith)
  inserted_at (suc i) x (y ∷ xs) le = inserted_at i x xs (omega arith)

  -- The child behind the held one gets the next index.
  renumber-Numbered :
      (s : S) (p : NodePtr) (qs : List NodePtr) (b : ℕ) (e : NodePtr) (m : Node K V)
      → Distinct qs
      → Numbered s p qs b
      → get_elem? qs (b + 1) ≡ some e
      → store.deref e s ≡ some m
      → m.parent ≡ some p
      → Numbered (store.assign e (record m { parent_idx = some (b + 1) }) s) p qs (b + 1)
  renumber-Numbered s p qs b e m d numbered at_e live up i q at = elim (Bool-cases (q == e)) [
    | inl same ↦
        let one : q ≡ e = ==→≡ q e same in
        let here : i ≡ b + 1 =
          Distinct-index qs i (b + 1) d at
            (subst (λ x. get_elem? qs (b + 1) ≡ some x) (sym one) at_e) in
        let s' = store.assign e (record m { parent_idx = some (b + 1) }) s in
        (
          record m { parent_idx = some (b + 1) },
          subst (λ x. store.deref x s' ≡ some (record m { parent_idx = some (b + 1) })) (sym one)
              (deref_self store (record m { parent_idx = some (b + 1) }) live),
          up,
          ap some (ground (arith, here)),
        )
    | inr differs ↦
        let (n, live', up', index) = numbered i q at in
        let apart : i ≡ b + 1 → ⊥ = λ here.
          let there : get_elem? qs (b + 1) ≡ some q =
            subst (λ j. get_elem? qs j ≡ some q) here at in
          let one : q ≡ e = cc in ==→≢ q e differs one in
        let same_place : (if leb i b then i else i - 1) ≡ (if leb i (b + 1) then i else i - 1) =
          ground (arith, apart) in
        (
          n,
          deref-other store q (record m { parent_idx = some (b + 1) }) live (==→≢ q e differs)
              ∙ live',
          up',
          index ∙ ap some same_place,
        )
  ]

  pub shift_forward-Shifted :
      (rounds : ℕ) (s : S) (p : NodePtr) (n : Node K V) (ks ks' : List K) (ps qs : List NodePtr)
      (idx j : ℕ) (k : K) (e : NodePtr)
      → IsInternal n ks ps
      → insert_at idx k ks ≡ ks'
      → insert_at (idx + 1) e ps ≡ qs
      → length ks + 1 ≡ length ks'
      → j ≡ idx + rounds
      → j ≤ length ks
      → Distinct qs
      → Numbered s p qs (idx + 1)
      → Shifted s p n ks' qs (j + 1) j (shift_forward store rounds n idx k e s)
  unfolding shift_forward
  shift_forward-Shifted zero s p n ks ks' ps qs idx j k e a all_k all_e size here le d numbered =
      let same : idx ≡ j = omega (arith, here) in
      record {
        s' = s;
        n' = n;
        ks = ks;
        ps = ps;
        k = k;
        e = e;
        runs = refl;
        internal = a;
        keys_length = size;
        all_keys = subst (λ i. insert_at i k ks ≡ ks') same all_k;
        all_edges = subst (λ i. insert_at (i + 1) e ps ≡ qs) same all_e;
        same_parent = record { parent = refl; parent_idx = refl };
        numbered = subst (λ i. Numbered s p qs (i + 1)) same numbered;
        kept = λ q m live. (m.parent_idx, live);
        others = λ q out. refl;
      }
  shift_forward-Shifted (suc rounds) s p n ks ks' ps qs idx j k e a all_k all_e size here le d
        numbered =
      let (k₁, at_k) = get_elem?-some ks idx (omega (arith, here, le)) in
      let (e₁, at_e) = get_elem?-some ps (idx + 1) (omega (arith, here, le, a.branches)) in
      let (n₁, step, a₁, up₁) = swap_edge-IsInternal idx k k₁ e e₁ a at_k at_e in
      let all_k₁ : insert_at (idx + 1) k₁ (set ks idx k) ≡ ks' =
        ap (λ i. insert_at i k₁ (set ks idx k)) {y = suc idx} (omega arith)
        ∙ insert_at-set ks idx k k₁ at_k
        ∙ all_k in
      let all_e₁ : insert_at (idx + 1 + 1) e₁ (set ps (idx + 1) e) ≡ qs =
        ap (λ i. insert_at i e₁ (set ps (idx + 1) e)) {y = suc (idx + 1)} (omega arith)
        ∙ insert_at-set ps (idx + 1) e e₁ at_e
        ∙ all_e in
      let at_e₁ : get_elem? qs (idx + 1 + 1) ≡ some e₁ =
        subst (λ xs. get_elem? xs (idx + 1 + 1) ≡ some e₁) all_e₁
          (inserted_at (idx + 1 + 1) e₁ (set ps (idx + 1) e)
            (omega (arith, length-set ps (idx + 1) e, here, le, a.branches))) in
      let (m, live, up, index) = numbered (idx + 1 + 1) e₁ at_e₁ in
      let index' : m.parent_idx ≡ some (idx + 1) = index ∙ ap some (ground arith) in
      let m' : Node K V = record m { parent_idx = some (idx + 1 + 1) } in
      let s₁ = store.assign e₁ m' s in
      let rest =
        shift_forward-Shifted rounds s₁ p n₁ (set ks idx k) ks' (set ps (idx + 1) e) qs (idx + 1) j
          k₁ e₁ a₁ all_k₁ all_e₁ (omega (arith, size, length-set ks idx k)) (omega (arith, here))
          (omega (arith, le, length-set ks idx k)) d
          (renumber-Numbered s p qs (idx + 1) e₁ m d numbered at_e₁ live up) in
      record {
        s' = rest.s';
        n' = rest.n';
        ks = rest.ks;
        ps = rest.ps;
        k = rest.k;
        e = rest.e;
        runs =
            rw
              (
                step,
                assert_parent_idx-live store live up index',
                as_ref-live store live,
                as_mut-live store m' live,
              )
              rest.runs;
        internal = rest.internal;
        keys_length = rest.keys_length;
        all_keys = rest.all_keys;
        all_edges = rest.all_edges;
        same_parent = record {
          parent = rest.same_parent.parent ∙ up₁.parent;
          parent_idx = rest.same_parent.parent_idx ∙ up₁.parent_idx;
        };
        numbered = rest.numbered;
        kept = λ q x there. elim (Bool-cases (q == e₁)) [
          | inl same ↦
              let one : q ≡ e₁ = ==→≡ q e₁ same in
              let node : m ≡ x =
                subst (λ y. store.deref y s ≡ some x → m ≡ x) (sym one) (λ h. cc (h, live)) there in
              let (i, after) =
                rest.kept q m'
                  (subst (λ y. store.deref y s₁ ≡ some m') (sym one) (deref_self store m' live)) in
              (
                i,
                subst (λ y. store.deref q rest.s' ≡ some (record y { parent_idx = i })) node after,
              )
          | inr differs ↦ rest.kept q x (deref-other store q m' live (==→≢ q e₁ differs) ∙ there)
        ];
        others = λ q out.
            rest.others q out
            ∙ deref-other store q m' live (λ same.
              let has : contains qs q ≡ true =
                subst (λ y. contains qs y ≡ true) (sym same)
                  (contains-get qs (idx + 1 + 1) at_e₁) in
              cc (has, out));
      }

  pub shift_backward-Shifted :
      (rounds : ℕ) (s : S) (p : NodePtr) (n : Node K V) (ks ks' : List K) (ps qs : List NodePtr)
      (idx j b : ℕ) (k : K) (e : NodePtr)
      → IsInternal n ks ps
      → insert_at idx k ks ≡ ks'
      → insert_at (idx + 1) e ps ≡ qs
      → length ks + 1 ≡ length ks'
      → idx ≡ j + rounds
      → idx ≤ length ks
      → idx + 1 ≤ b
      → Numbered s p qs b
      → Shifted s p n ks' qs b j (shift_backward store rounds n idx k e s)
  unfolding shift_backward
  shift_backward-Shifted zero s p n ks ks' ps qs idx j b k e a all_k all_e size here le bound
        numbered =
      let same : idx ≡ j = omega (arith, here) in
      record {
        s' = s;
        n' = n;
        ks = ks;
        ps = ps;
        k = k;
        e = e;
        runs = refl;
        internal = a;
        keys_length = size;
        all_keys = subst (λ i. insert_at i k ks ≡ ks') same all_k;
        all_edges = subst (λ i. insert_at (i + 1) e ps ≡ qs) same all_e;
        same_parent = record { parent = refl; parent_idx = refl };
        numbered = numbered;
        kept = λ q m live. (m.parent_idx, live);
        others = λ q out. refl;
      }
  shift_backward-Shifted (suc rounds) s p n ks ks' ps qs idx j b k e a all_k all_e size here le
        bound numbered =
      let (k₁, at_k) = get_elem?-some ks (idx - 1) (omega (arith, here, le)) in
      let (e₁, at_e) = get_elem?-some ps (idx - 1 + 1) (omega (arith, here, le, a.branches)) in
      let (n₁, step, a₁, up₁) = swap_edge-IsInternal (idx - 1) k k₁ e e₁ a at_k at_e in
      let all_k₁ : insert_at (idx - 1) k₁ (set ks (idx - 1) k) ≡ ks' =
        insert_at-set_back ks (idx - 1) k k₁ at_k
        ∙ ap (λ i. insert_at i k ks) {x = suc (idx - 1)} (omega (arith, here))
        ∙ all_k in
      let all_e₁ : insert_at (idx - 1 + 1) e₁ (set ps (idx - 1 + 1) e) ≡ qs =
        insert_at-set_back ps (idx - 1 + 1) e e₁ at_e
        ∙ ap (λ i. insert_at i e ps) {x = suc (idx - 1 + 1)} (omega (arith, here))
        ∙ all_e in
      let at_e₁ : get_elem? qs (idx - 1 + 1) ≡ some e₁ =
        subst (λ xs. get_elem? xs (idx - 1 + 1) ≡ some e₁) all_e₁
          (inserted_at (idx - 1 + 1) e₁ (set ps (idx - 1 + 1) e)
            (omega (arith, length-set ps (idx - 1 + 1) e, here, le, a.branches))) in
      let (m, live, up, index) = numbered (idx - 1 + 1) e₁ at_e₁ in
      let within : leb (idx - 1 + 1) b ≡ true =
        le→leb (idx - 1 + 1) b (omega (arith, here, bound)) in
      let index' : m.parent_idx ≡ some (idx - 1 + 1) = index ∙ ap some (ground (arith, within)) in
      let rest =
        shift_backward-Shifted rounds s p n₁ (set ks (idx - 1) k) ks' (set ps (idx - 1 + 1) e) qs
          (idx - 1) j b k₁ e₁ a₁ all_k₁ all_e₁ (omega (arith, size, length-set ks (idx - 1) k))
          (omega (arith, here)) (omega (arith, le, length-set ks (idx - 1) k))
          (omega (arith, bound, here)) numbered in
      record {
        s' = rest.s';
        n' = rest.n';
        ks = rest.ks;
        ps = rest.ps;
        k = rest.k;
        e = rest.e;
        runs = rw (step, assert_parent_idx-live store live up index') rest.runs;
        internal = rest.internal;
        keys_length = rest.keys_length;
        all_keys = rest.all_keys;
        all_edges = rest.all_edges;
        same_parent = record {
          parent = rest.same_parent.parent ∙ up₁.parent;
          parent_idx = rest.same_parent.parent_idx ∙ up₁.parent_idx;
        };
        numbered = rest.numbered;
        kept = rest.kept;
        others = rest.others;
      }
