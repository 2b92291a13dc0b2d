-- ===== src/Node/Leaf/Swaps.antt =====
-- The two loops of `split_leaf` only move the place of insertion.
use btree_forest_arena.Prelude.{
  ℕ, zero, suc, ◌+◌, ◌-◌, ◌≤◌, ◌<◌, ◌≡◌, refl, ◌∙◌, ap, Option, some, List, map, arith, length,
  insert_at, set, get_elem?, map-set, length-map, length-set, get_elem?-some, get_elem?-map, lt→ltb,
  ltb, true, insert_at-set, insert_at-set_back,
}
use btree_forest_arena.Slots.Holds.{write-Holds}
use btree_forest_arena.Store.{NodePtr}
use btree_forest_arena.Node.Defs.{Node, leaf_data, leaf_of, max_keys, swap_entry}
use btree_forest_arena.Node.View.{IsLeaf, SameParent, key_of, val_of}
use btree_forest_arena.Node.Leaf.{swap_forward, swap_backward}

module _ {K V : Type 0} where
  swap_entry-IsLeaf :
      {n : Node K V} {es : List (K × V)} {p q : Option NodePtr} (idx : ℕ) (k : K) (v : V)
      (e : K × V)
      → IsLeaf n es p q
      → get_elem? es idx ≡ some e
      → idx < length es
      → (n' : Node K V) × (swap_entry n idx k v ≡ some (n', e.0, e.1))
        × IsLeaf n' (set es idx (k, v)) p q
        × SameParent n n'
  unfolding swap_entry leaf_of
  swap_entry-IsLeaf {n} {es} idx k v e leaf at lt =
      let within : ltb idx n.len ≡ true = lt→ltb idx n.len (omega arith) in
      let k_read : n.keys idx ≡ some (key_of e) =
        has_keys idx (omega (arith, length-map key_of es)) ∙ get_elem?-map key_of es idx at in
      let v_read : l.vals idx ≡ some (val_of e) =
        has_vals idx (omega (arith, length-map val_of es)) ∙ get_elem?-map val_of es idx at in
      let (kg, k_write, k_holds) =
        write-Holds max_keys n.keys (map key_of es) idx k has_keys
          (omega (arith, length-map key_of es)) (omega (arith, length-map key_of es)) in
      let (vg, v_write, v_holds) =
        write-Holds max_keys l.vals (map val_of es) idx v has_vals
          (omega (arith, length-map val_of es)) (omega (arith, length-map val_of es)) in
      (
        record n { keys = kg; d = leaf_data (record l { vals = vg }) },
        rw (within, k_read, k_write, within, is_leaf, v_read, v_write),
        record {
          l = record l { vals = vg };
          is_leaf = refl;
          count = omega (arith, length-set es idx (k, v));
          fits = omega (arith, length-set es idx (k, v));
          has_keys = rw (map-set key_of es idx (k, v)) k_holds;
          has_vals = rw (map-set val_of es idx (k, v)) v_holds;
          before = before;
          after = after;
        },
        record { parent = refl; parent_idx = refl },
      )
    where
      open leaf use {l, is_leaf, count, fits, has_keys, has_vals, before, after}

  -- The node and the held entry after a loop that took the place of insertion from `i` to `j`.
  pub record Swapped (n : Node K V) (es : List (K × V)) (p q : Option NodePtr) (i j : ℕ) (k : K)
      (v : V) (r : Option (Node K V × K × V)) : Type 0 where
    pub n' : Node K V
    pub es' : List (K × V)
    pub k' : K
    pub v' : V
    pub runs : r ≡ some (n', k', v')
    pub leaf : IsLeaf n' es' p q
    pub same_length : length es' ≡ length es
    pub same_insertion : insert_at j (k', v') es' ≡ insert_at i (k, v) es
    pub same_parent : SameParent n n'

  pub swap_forward-Swapped :
      (rounds : ℕ) {n : Node K V} {es : List (K × V)} {p q : Option NodePtr} (i j : ℕ) (k : K)
      (v : V)
      → IsLeaf n es p q
      → j ≡ i + rounds
      → j ≤ length es
      → Swapped n es p q i j k v (swap_forward rounds n i k v)
  unfolding swap_forward
  swap_forward-Swapped zero {n} {es} i j k v leaf e le = record {
    n' = n;
    es' = es;
    k' = k;
    v' = v;
    runs = refl;
    leaf = leaf;
    same_length = refl;
    same_insertion = ap (λ t. insert_at t (k, v) es) (omega arith);
    same_parent = record { parent = refl; parent_idx = refl };
  }
  swap_forward-Swapped (suc rounds) {n} {es} i j k v leaf e le =
      let (entry, at) = get_elem?-some es i (omega arith) in
      let (n₁, step, leaf₁, parent₁) = swap_entry-IsLeaf i k v entry leaf at (omega arith) in
      let rest =
        swap_forward-Swapped rounds (i + 1) j (entry.0) (entry.1) leaf₁ (omega arith)
          (omega (arith, length-set es i (k, v))) in
      record {
        n' = rest.n';
        es' = rest.es';
        k' = rest.k';
        v' = rest.v';
        runs = rw step rest.runs;
        leaf = rest.leaf;
        same_length = rest.same_length ∙ length-set es i (k, v);
        same_insertion =
            rest.same_insertion
            ∙ ap (λ t. insert_at t entry (set es i (k, v))) {y = suc i} (omega arith)
            ∙ insert_at-set es i (k, v) entry at;
        same_parent = record {
          parent = rest.same_parent.parent ∙ parent₁.parent;
          parent_idx = rest.same_parent.parent_idx ∙ parent₁.parent_idx;
        };
      }

  pub swap_backward-Swapped :
      (rounds : ℕ) {n : Node K V} {es : List (K × V)} {p q : Option NodePtr} (i j : ℕ) (k : K)
      (v : V)
      → IsLeaf n es p q
      → i ≡ j + rounds
      → i ≤ length es
      → Swapped n es p q i j k v (swap_backward rounds n i k v)
  unfolding swap_backward
  swap_backward-Swapped zero {n} {es} i j k v leaf e le = record {
    n' = n;
    es' = es;
    k' = k;
    v' = v;
    runs = refl;
    leaf = leaf;
    same_length = refl;
    same_insertion = ap (λ t. insert_at t (k, v) es) (omega arith);
    same_parent = record { parent = refl; parent_idx = refl };
  }
  swap_backward-Swapped (suc rounds) {n} {es} i j k v leaf e le =
      let (entry, at) = get_elem?-some es (i - 1) (omega arith) in
      let (n₁, step, leaf₁, parent₁) = swap_entry-IsLeaf (i - 1) k v entry leaf at (omega arith) in
      let rest =
        swap_backward-Swapped rounds (i - 1) j (entry.0) (entry.1) leaf₁ (omega arith)
          (omega (arith, length-set es (i - 1) (k, v))) in
      record {
        n' = rest.n';
        es' = rest.es';
        k' = rest.k';
        v' = rest.v';
        runs = rw step rest.runs;
        leaf = rest.leaf;
        same_length = rest.same_length ∙ length-set es (i - 1) (k, v);
        same_insertion =
            rest.same_insertion
            ∙ insert_at-set_back es (i - 1) (k, v) entry at
            ∙ ap (λ t. insert_at t (k, v) es) {x = suc (i - 1)} (omega arith);
        same_parent = record {
          parent = rest.same_parent.parent ∙ parent₁.parent;
          parent_idx = rest.same_parent.parent_idx ∙ parent₁.parent_idx;
        };
      }
