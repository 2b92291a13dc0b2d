-- ===== src/Node/Leaf/Contents.antt =====
-- `insert_val` and `remove_val` on the entries of a leaf.
use btree_forest_arena.Prelude.{
  set, set_same, map-set, length-set, ℕ, ◌+◌, ◌-◌, ◌≤◌, ◌<◌, ◌≡◌, refl, ◌∙◌, Option, some, List,
  map, arith, length, insert_at, remove_at, get_elem?, map-insert_at, map-remove_at, length-map,
  length-insert_at, length-remove_at, get_elem?-map, lt→ltb, le→leb,
}
use btree_forest_arena.Slots.Holds.{write-Holds, make_room, close_gap}
use btree_forest_arena.Store.{NodePtr}
use btree_forest_arena.Node.Defs.{Node, leaf_data, leaf_of, replace_val, max_keys}
use btree_forest_arena.Node.View.{IsLeaf, SameParent, key_of, val_of}
use btree_forest_arena.Node.Leaf.{insert_val, remove_val}

module _ {K V : Type 0} {n : Node K V} {es : List (K × V)} {p q : Option NodePtr}
    (leaf : IsLeaf n es p q) where
  open leaf use {l, is_leaf, count, fits, has_keys, has_vals, before, after}

  -- In a leaf with fewer than 8 entries, `insert_val` at an index up to the length succeeds and inserts
  -- the entry there; the links and the parent stay.
  pub insert_val-IsLeaf :
      (idx : ℕ) (k : K) (v : V)
      → idx ≤ length es
      → length es < max_keys
      → (n' : Node K V) × (insert_val n idx k v ≡ some n')
        × IsLeaf n' (insert_at idx (k, v) es) p q
        × SameParent n n'
  unfolding insert_val leaf_of
  insert_val-IsLeaf idx k v le room =
      let (kf, kg, k_move, k_write, k_holds) =
        make_room max_keys n.keys (map key_of es) idx n.len k has_keys
          (omega (arith, length-map key_of es)) (omega arith) (omega arith) in
      let (vf, vg, v_move, v_write, v_holds) =
        make_room max_keys l.vals (map val_of es) idx n.len v has_vals
          (omega (arith, length-map val_of es)) (omega arith) (omega arith) in
      (
        record n { len = n.len + 1; keys = kg; d = leaf_data (record l { vals = vg }) },
        rw (
          le→leb idx n.len (omega arith),
          lt→ltb n.len max_keys (omega arith),
          is_leaf,
          k_move,
          v_move,
          k_write,
          v_write,
        ),
        record {
          l = record l { vals = vg };
          is_leaf = refl;
          count = omega (arith, length-insert_at idx (k, v) es);
          fits = omega (arith, length-insert_at idx (k, v) es);
          has_keys = rw (map-insert_at key_of idx (k, v) es) k_holds;
          has_vals = rw (map-insert_at val_of idx (k, v) es) v_holds;
          before = before;
          after = after;
        },
        record { parent = refl; parent_idx = refl },
      )

  -- In a leaf with the entry `e` at the index, `remove_val` returns `e` and leaves the other entries in
  -- order; the links and the parent stay.
  pub remove_val-IsLeaf :
      (idx : ℕ) (e : K × V)
      → get_elem? es idx ≡ some e
      → idx < length es
      → (n' : Node K V) × (remove_val n idx ≡ some (n', e))
        × IsLeaf n' (remove_at idx es) p q
        × SameParent n n'
  unfolding remove_val leaf_of
  remove_val-IsLeaf idx e at lt =
      let k_read : n.keys idx ≡ some (key_of e) =
        has_keys idx (omega (arith, length-map key_of es)) ∙ get_elem?-map key_of es idx at in
      let v_read : l.vals idx ≡ some (val_of e) =
        has_vals idx (omega (arith, length-map val_of es)) ∙ get_elem?-map val_of es idx at in
      let (kg, k_move, k_holds) =
        close_gap max_keys n.keys (map key_of es) idx n.len has_keys
          (omega (arith, length-map key_of es)) (omega arith) (omega arith) in
      let (vg, v_move, v_holds) =
        close_gap max_keys l.vals (map val_of es) idx n.len has_vals
          (omega (arith, length-map val_of es)) (omega arith) (omega arith) in
      (
        record n { len = n.len - 1; keys = kg; d = leaf_data (record l { vals = vg }) },
        rw (
          lt→ltb idx n.len (omega arith),
          lt→ltb 0 n.len (omega arith),
          k_read,
          is_leaf,
          v_read,
          k_move,
          v_move,
        ),
        record {
          l = record l { vals = vg };
          is_leaf = refl;
          count = omega (arith, length-remove_at idx es lt);
          fits = omega (arith, length-remove_at idx es lt);
          has_keys = rw (map-remove_at key_of idx es) k_holds;
          has_vals = rw (map-remove_at val_of idx es) v_holds;
          before = before;
          after = after;
        },
        record { parent = refl; parent_idx = refl },
      )

  -- In a leaf with the entry `e` at the index, `replace_val` returns its value; the key, the other
  -- entries, the links and the parent stay.
  pub replace_val-IsLeaf :
      (idx : ℕ) (e : K × V) (v : V)
      → get_elem? es idx ≡ some e
      → idx < length es
      → (n' : Node K V) × (replace_val n idx v ≡ some (n', e.1))
        × IsLeaf n' (set es idx (e.0, v)) p q
        × SameParent n n'
  unfolding replace_val leaf_of
  replace_val-IsLeaf idx e v at lt =
      let v_read : l.vals idx ≡ some (val_of e) =
        has_vals idx (omega (arith, length-map val_of es)) ∙ get_elem?-map val_of es idx at in
      let (vg, v_write, v_holds) =
        write-Holds max_keys l.vals (map val_of es) idx v has_vals
          (omega (arith, length-map val_of es)) (omega (arith, length-map val_of es)) in
      let same_keys : map key_of (set es idx (e.0, v)) ≡ map key_of es =
        map-set key_of es idx (e.0, v)
        ∙ set_same (map key_of es) idx e.0 (get_elem?-map key_of es idx at) in
      (
        record n { d = leaf_data (record l { vals = vg }) },
        rw (lt→ltb idx n.len (omega arith), is_leaf, v_read, v_write),
        record {
          l = record l { vals = vg };
          is_leaf = refl;
          count = omega (arith, length-set es idx (e.0, v));
          fits = omega (arith, length-set es idx (e.0, v));
          has_keys = rw same_keys has_keys;
          has_vals = rw (map-set val_of es idx (e.0, v)) v_holds;
          before = before;
          after = after;
        },
        record { parent = refl; parent_idx = refl },
      )
