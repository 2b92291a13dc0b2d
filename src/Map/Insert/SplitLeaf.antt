-- ===== src/Map/Insert/SplitLeaf.antt =====
-- `insert_before` at a full leaf, up to its loop: the leaf is split and the links are set.
use btree_forest_arena.Prelude.{
  ℕ, ◌+◌, ◌/◌, ◌≤◌, ◌≡◌, refl, ◌∙◌, sym, ap, subst, false, Option, none, some, List, map, arith,
  length, ltb, insert_at, take, drop, ==_refl, ne→==, ◌∷◌,
}
use btree_forest_arena.Slots.Holds.{Holds}
use btree_forest_arena.Store.{NodePtr, Slab, and_then, alloc}
use btree_forest_arena.Store.Access.{as_ref-live, as_mut-live}
use btree_forest_arena.Node.{Node, LeafData, leaf_data, max_keys}
use btree_forest_arena.Node.View.{IsLeaf, SameParent, val_of}
use btree_forest_arena.Node.Leaf.Split.{split_leaf-Split}
use btree_forest_arena.Node.Edges.Renumber.{deref-other, deref_self}
use btree_forest_arena.Tree.Alike.{Stays}
use btree_forest_arena.Map.Defs.{BTreeMap}
use btree_forest_arena.Map.Insert.{insert_up, insert_before}
use btree_forest_arena.Map.Insert.Relink.{
  set_next-leaf, set_prev-leaf, with_prev, LeafBehind, relink-Relinked,
}

module _ {S K V : Type 0} (store : Slab S (Node K V)) where
  -- The leaf at `p` keeps the first four of the entries `es`, and a new leaf behind it has the others;
  -- the loop goes on with it. The links lead from the leaf at `p` to the new leaf and on to the leaf
  -- `after`, and back; any other node stays as it was.
  pub record LeafSplit (s : S) (m : BTreeMap) (p : NodePtr) (n : Node K V) (es : List (K × V))
      (before after : Option NodePtr) (r : Option (BTreeMap × S)) : Type 0 where
    pub s' : S
    pub right : NodePtr
    pub ln : Node K V
    pub rn : Node K V
    pub key : K
    pub value : V
    pub rest : List (K × V)
    pub first : drop (max_keys / 2) es ≡ (key, value) ∷ rest
    pub runs :
        r
        ≡ and_then
            (insert_up store (m.height + 1) m p right key s')
            (λ m' s''. some (record m' { length = m'.length + 1 }, s''))
    pub fresh : store.deref right s ≡ none
    pub live_left : store.deref p s' ≡ some ln
    pub left_leaf : IsLeaf ln (take (max_keys / 2) es) before (some right)
    pub same_parent : SameParent n ln
    pub live_right : store.deref right s' ≡ some rn
    pub right_leaf : IsLeaf rn (drop (max_keys / 2) es) (some p) after
    pub no_parent : rn.parent ≡ none
    pub others : (q : NodePtr) → (q ≡ p → ⊥) → Stays store s s' q
    pub linked :
        (q : NodePtr) (n : Node K V) (l : LeafData V)
        → after ≡ some q
        → store.deref q s ≡ some n
        → n.d ≡ leaf_data l
        → store.deref q s' ≡ some (with_prev n l right)
    pub unlinked :
        (q : NodePtr) (n : Node K V)
        → (q ≡ p → ⊥)
        → (after ≡ some q → ⊥)
        → store.deref q s ≡ some n
        → store.deref q s' ≡ some n

  link_next :
      (n : Node K V) (l : LeafData V) (es : List (K × V)) (b a x : Option NodePtr)
      → n.d ≡ leaf_data l
      → IsLeaf n es b a
      → IsLeaf (record n { d = leaf_data (record l { next = x }) }) es b x
  link_next n l es b a x is leaf =
      let same : leaf_data leaf.l ≡ leaf_data l = sym leaf.is_leaf ∙ is in
      let one : leaf.l ≡ l = cc in
      record {
        l = record l { next = x };
        is_leaf = refl;
        count = leaf.count;
        fits = leaf.fits;
        has_keys = leaf.has_keys;
        has_vals = subst (λ y. Holds y.vals (map val_of es)) one leaf.has_vals;
        before = ap (λ y. y.prev) (sym one) ∙ leaf.before;
        after = refl;
      }

  link_prev :
      (n : Node K V) (l : LeafData V) (es : List (K × V)) (b a x : Option NodePtr)
      → n.d ≡ leaf_data l
      → IsLeaf n es b a
      → IsLeaf (record n { d = leaf_data (record l { prev = x }) }) es x a
  link_prev n l es b a x is leaf =
      let same : leaf_data leaf.l ≡ leaf_data l = sym leaf.is_leaf ∙ is in
      let one : leaf.l ≡ l = cc in
      record {
        l = record l { prev = x };
        is_leaf = refl;
        count = leaf.count;
        fits = leaf.fits;
        has_keys = leaf.has_keys;
        has_vals = subst (λ y. Holds y.vals (map val_of es)) one leaf.has_vals;
        before = refl;
        after = ap (λ y. y.next) (sym one) ∙ leaf.after;
      }

  -- At a leaf with 8 entries, whose next leaf, if any, is another leaf of the arena, `insert_before` splits
  -- the leaf with the entry inserted at the index, and goes on with its loop and the new leaf. The leaf
  -- keeps four entries and its link to the leaf before, the new leaf has the others; the links lead from
  -- the leaf to the new leaf and on to the leaf that was next, and back, and no other node changes.
  pub insert_before-LeafSplit :
      (s : S) (m : BTreeMap) (p : NodePtr) (n : Node K V) (es : List (K × V))
      (before after : Option NodePtr) (k : K) (v : V) (idx : ℕ)
      → store.deref p s ≡ some n
      → IsLeaf n es before after
      → length es ≡ max_keys
      → idx ≤ length es
      → ((q : NodePtr) → after ≡ some q → LeafBehind store s p q)
      → LeafSplit s m p n (insert_at idx (k, v) es) before after (insert_before store m k v p idx s)
  unfolding insert_before alloc
  insert_before-LeafSplit s m p n es before after k v idx live leaf full le behind =
      let x = split_leaf-Split idx k v leaf full le in
      let no_room : ltb n.len max_keys ≡ false = ground (arith, leaf.count, full) in
      let s₁ = store.assign p x.left s in
      let p₁ = deref_self store x.left live in
      let right = (store.alloc x.right s₁).0 in
      let s₂ = (store.alloc x.right s₁).1 in
      let gone : store.deref right s₁ ≡ none = store.alloc_fresh x.right s₁ in
      let not_gone : (q : NodePtr) (y : Node K V) → store.deref q s₁ ≡ some y → q ≡ right → ⊥ =
        λ q y there same.
          let here : store.deref right s₁ ≡ some y =
            subst (λ z. store.deref z s₁ ≡ some y) same there in
          cc (here, gone) in
      let p_old = not_gone p x.left p₁ in
      let old : (q : NodePtr) → (q ≡ right → ⊥) → store.deref q s₂ ≡ store.deref q s₁ =
        λ q not_right. store.deref-alloc q x.right s₁ ∙ rw (ne→== q right not_right) in
      let right₂ : store.deref right s₂ ≡ some x.right =
        store.deref-alloc right x.right s₁ ∙ rw (==_refl right) in
      let p₂ = old p p_old ∙ p₁ in
      let left' : Node K V = record x.left {
        d = leaf_data (record x.left_leaf.l { next = some right });
      } in
      let s₃ = store.assign p left' s₂ in
      let right₃ = deref-other store right left' p₂ (λ e. p_old (sym e)) ∙ right₂ in
      let right' : Node K V = record x.right {
        d = leaf_data (record x.right_leaf.l { prev = some p });
      } in
      let s₄ = store.assign right right' s₃ in
      let right₄ = deref_self store right' right₃ in
      let p₄ = deref-other store p right' right₃ p_old ∙ deref_self store left' p₂ in
      let moved : (q : NodePtr) (y : Node K V)
          → store.deref q s ≡ some y
          → (q ≡ p → ⊥)
          → store.deref q s₄ ≡ some y =
        λ q y there not_p.
          let there₁ = deref-other store q x.left live not_p ∙ there in
          let not_right = not_gone q y there₁ in
          deref-other store q right' right₃ not_right
          ∙ deref-other store q left' p₂ not_p
          ∙ old q not_right
          ∙ there₁ in
      let link = relink-Relinked store s₄ p right x.right_leaf.l.next (λ q is.
        let b = behind q (sym x.right_leaf.after ∙ is) in
        record {
          n = b.n;
          l = b.l;
          live = moved q b.n b.live b.apart;
          is_leaf = b.is_leaf;
          apart = b.apart;
        }) in
      record {
        s' = link.s';
        right = right;
        ln = left';
        rn = right';
        key = x.key;
        value = x.value;
        rest = x.rest;
        first = x.first;
        runs =
            rw
              (
                as_ref-live store live,
                no_room,
                x.runs,
                as_mut-live store x.left live,
                as_ref-live store p₂,
                set_next-leaf x.left x.left_leaf.l (some right) x.left_leaf.is_leaf,
                as_mut-live store left' p₂,
                as_ref-live store right₃,
                set_prev-leaf x.right x.right_leaf.l (some p) x.right_leaf.is_leaf,
                as_mut-live store right' right₃,
                link.runs,
              )
              refl;
        fresh = sym (deref-other store right x.left live (λ e. p_old (sym e))) ∙ gone;
        live_left = link.others p (λ is. (behind p (sym x.right_leaf.after ∙ is)).apart refl) ∙ p₄;
        left_leaf =
            link_next x.left x.left_leaf.l (take 4 (insert_at idx (k, v) es)) before after
              (some right) x.left_leaf.is_leaf x.left_leaf;
        same_parent = record {
          parent = x.same_parent.parent;
          parent_idx = x.same_parent.parent_idx;
        };
        live_right =
            link.others right (λ is.
              let b = behind right (sym x.right_leaf.after ∙ is) in
              not_gone right b.n (deref-other store right x.left live b.apart ∙ b.live) refl)
            ∙ right₄;
        right_leaf =
            link_prev x.right x.right_leaf.l (drop 4 (insert_at idx (k, v) es)) none after (some p)
              x.right_leaf.is_leaf x.right_leaf;
        no_parent = x.no_parent;
        others = λ q not_p y there. link.stays q y (moved q y there not_p);
        linked = λ q y l is there is_leaf.
            link.linked q y l (x.right_leaf.after ∙ is) (moved q y there (behind q is).apart)
              is_leaf;
        unlinked = λ q y not_p not_after there.
            link.others q (λ is. not_after (sym x.right_leaf.after ∙ is)) ∙ moved q y there not_p;
      }
