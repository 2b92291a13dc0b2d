-- ===== src/Node/Leaf/Split.antt =====
-- `split_leaf` inserts the entry and cuts the entries in two.
use btree_forest_arena.Prelude.{
  ℕ, ◌+◌, ◌-◌, ◌/◌, ◌≤◌, ◌≡◌, refl, ◌∙◌, sym, subst, Option, none, some, List, ◌∷◌, ◌++◌, map,
  arith, length, insert_at, take, drop, map-take, map-drop, length-map, length-take, length-drop,
  le→leb, insert_at-append-drop, take-append_self, drop-append_self,
}
use btree_forest_arena.Slots.{maybe_uninit_array}
use btree_forest_arena.Slots.Holds.{Holds, copy_behind-Holds, nonoverlapping-copied, take-Holds}
use btree_forest_arena.Store.{NodePtr}
use btree_forest_arena.Node.Defs.{Node, leaf_data, leaf_of, leaf_node, max_keys}
use btree_forest_arena.Node.View.{IsLeaf, SameParent, key_of, val_of}
use btree_forest_arena.Node.Leaf.{swap_forward, swap_backward, cut_leaf, split_leaf}
use btree_forest_arena.Node.Leaf.Swaps.{Swapped, swap_forward-Swapped, swap_backward-Swapped}

module _ {K V : Type 0} where
  -- What `split_leaf` returns: the left node keeps the parent and the previous leaf, the right node is
  -- new and knows only the next leaf, and the split key is the first key of the right node.
  pub record Split (n : Node K V) (es : List (K × V)) (p q : Option NodePtr)
      (r : Option (Node K V × K × Node K V)) : Type 0 where
    pub left : Node K V
    pub key : K
    pub right : Node K V
    pub value : V
    pub rest : List (K × V)
    pub runs : r ≡ some (left, key, right)
    pub left_leaf : IsLeaf left (take (max_keys / 2) es) p q
    pub right_leaf : IsLeaf right (drop (max_keys / 2) es) none q
    pub first : drop (max_keys / 2) es ≡ (key, value) ∷ rest
    pub same_parent : SameParent n left
    pub no_parent : right.parent ≡ none

  cut_leaf-Split :
      {n n₂ : Node K V} {es : List (K × V)} {p q : Option NodePtr} (k : K) (v : V)
      → IsLeaf n₂ es p q
      → SameParent n n₂
      → n₂.len ≡ max_keys
      → Split n (take 4 es ++ ((k, v) ∷ drop 4 es)) p q (cut_leaf 4 n₂ k v)
  unfolding cut_leaf leaf_of leaf_node
  cut_leaf-Split {n} {n₂} {es} k v leaf same full =
      let (kg, k_write, k_holds) =
        copy_behind-Holds max_keys n₂.keys maybe_uninit_array (map key_of es) 4 k has_keys
          (omega arith) in
      let (vg, v_write, v_holds) =
        copy_behind-Holds max_keys l.vals maybe_uninit_array (map val_of es) 4 v has_vals
          (omega arith) in
      let k_size : length (map key_of es) ≡ n₂.len = omega (arith, length-map key_of es) in
      let v_size : length (map val_of es) ≡ n₂.len = omega (arith, length-map val_of es) in
      record {
        left = record n₂ { len = 4 };
        key = k;
        right = record {
          parent = none;
          parent_idx = none;
          len = n₂.len - 4 + 1;
          keys = kg;
          d = leaf_data (record { vals = vg; prev = none; next = l.next });
        };
        value = v;
        rest = drop 4 es;
        runs = rw (
          is_leaf,
          nonoverlapping-copied max_keys maybe_uninit_array 1 5 n₂.keys 4 n₂.len (omega arith)
              (omega arith) (omega arith) (omega arith) (omega arith),
          nonoverlapping-copied max_keys maybe_uninit_array 1 5 l.vals 4 n₂.len (omega arith)
              (omega arith) (omega arith) (omega arith) (omega arith),
          rw k_size at k_write,
          rw v_size at v_write,
        );
        left_leaf = rw (take-append_self (take 4 es) ((k, v) ∷ drop 4 es) 4 (four)) (record {
          l = l;
          is_leaf = is_leaf;
          count = sym (four);
          fits = omega (arith, length-take 4 es);
          has_keys = rw (map-take key_of 4 es) (take-Holds n₂.keys (map key_of es) 4 has_keys);
          has_vals = rw (map-take val_of 4 es) (take-Holds l.vals (map val_of es) 4 has_vals);
          before = before;
          after = after;
        });
        right_leaf = rw behind (record {
          l = record { vals = vg; prev = none; next = l.next };
          is_leaf = refl;
          count = omega (arith, length-drop 4 es);
          fits = omega (arith, length-drop 4 es);
          has_keys = subst (λ xs. Holds kg (k ∷ xs)) (sym (map-drop key_of 4 es)) k_holds;
          has_vals = subst (λ xs. Holds vg (v ∷ xs)) (sym (map-drop val_of 4 es)) v_holds;
          before = refl;
          after = after;
        });
        first = behind;
        same_parent = record { parent = same.parent; parent_idx = same.parent_idx };
        no_parent = refl;
      }
    where
      open leaf use {l, is_leaf, count, fits, has_keys, has_vals, before, after}

      four : length (take 4 es) ≡ 4
      four = omega (arith, length-take 4 es)

      behind : drop 4 (take 4 es ++ ((k, v) ∷ drop 4 es)) ≡ (k, v) ∷ drop 4 es
      behind = drop-append_self (take 4 es) ((k, v) ∷ drop 4 es) 4 four

  -- On a leaf with 8 entries, `split_leaf` at an index up to the length succeeds. With the new entry
  -- inserted at the index, the first four entries stay in the node, which keeps its links and its
  -- parent; the other five go to a new node, which has the next leaf and no parent, and whose first
  -- key is the split key.
  pub split_leaf-Split :
      {n : Node K V} {es : List (K × V)} {p q : Option NodePtr} (idx : ℕ) (k : K) (v : V)
      → IsLeaf n es p q
      → length es ≡ max_keys
      → idx ≤ length es
      → Split n (insert_at idx (k, v) es) p q (split_leaf n idx k v)
  unfolding split_leaf
  split_leaf-Split {n} {es} {p} {q} idx k v leaf full le =
      rw
        (
          le→leb idx n.len (omega (arith, leaf.count)),
          le→leb 4 n.len (omega (arith, leaf.count)),
          median,
          there.runs,
          here.runs,
          sym (here.same_insertion ∙ there.same_insertion)
              ∙ insert_at-append-drop 4 (here.k', here.v') here.es' (omega (arith, still_full)),
        )
        (cut_leaf-Split here.k' here.v' here.leaf
          (record {
            parent = here.same_parent.parent ∙ there.same_parent.parent;
            parent_idx = here.same_parent.parent_idx ∙ there.same_parent.parent_idx;
          })
          (omega (arith, here.leaf.count, still_full)))
    where
      median : n.len / 2 ≡ 4
      median = omega (arith, leaf.count)

      there : Swapped n es p q idx (idx + (4 - idx)) k v (swap_forward (4 - idx) n idx k v)
      there = swap_forward-Swapped (4 - idx) idx (idx + (4 - idx)) k v leaf refl (omega arith)

      here :
          Swapped there.n' there.es' p q
            (idx + (4 - idx))
            4
            there.k'
            there.v'
            (swap_backward (idx - 4) there.n' (idx + (4 - idx)) there.k' there.v')
      here =
          swap_backward-Swapped (idx - 4) (idx + (4 - idx)) 4 there.k' there.v' there.leaf
            (omega arith) (omega (arith, there.same_length))

      still_full : length here.es' ≡ max_keys
      still_full = omega (arith, here.same_length, there.same_length)
