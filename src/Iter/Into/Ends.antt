-- ===== src/Iter/Into/Ends.antt =====
-- The two ends of an owning iterator that stand in neighbouring leaves.
use btree_forest_arena.Prelude.{
  ℕ, suc, ◌+◌, ◌-◌, ◌<◌, ◌≡◌, refl, ◌∙◌, ap, subst, Option, none, some, List, arith, length,
  get_elem?, ◌==◌, false, lt→ltb, le→ltb, le→leb, ne→==, ==_refl,
}
use btree_forest_arena.Store.{NodePtr, Slab, as_ref}
use btree_forest_arena.Store.Access.{as_ref-live, dealloc-live}
use btree_forest_arena.Node.{Node, next as next_of_node, prev as prev_of_node, parent, leaf_of}
use btree_forest_arena.Node.View.{IsLeaf, IsInternal}
use btree_forest_arena.Map.Drop.{dealloc_up_lasts, dealloc_up}
use btree_forest_arena.Map.Lookup.Retrieve.{read_key_val_of_IsLeaf}
use btree_forest_arena.Cursor
use btree_forest_arena.Cursor.{Cursor, address, read_key_value}
use btree_forest_arena.Tree.Frame.{leaf_not_internal}
use btree_forest_arena.Iter.Into.{IntoIter, next, next_back}

module _ {S K V : Type 0} (store : Slab S (Node K V)) where
  read-leaf :
      {s : S} {n : Node K V} {es : List (K × V)} {b a : Option NodePtr} {e : K × V} (p : NodePtr)
      (i : ℕ)
      → store.deref p s ≡ some n
      → IsLeaf n es b a
      → get_elem? es i ≡ some e
      → read_key_value store (record { node = some p; index = i }) s ≡ some (some e, s)
  unfolding read_key_value
  read-leaf p i live leaf at = rw (as_ref-live store live, read_key_val_of_IsLeaf leaf i _ at)

  advance-past :
      {s : S} {n : Node K V} {es : List (K × V)} {b a : Option NodePtr} (p : NodePtr) (i : ℕ)
      → store.deref p s ≡ some n
      → IsLeaf n es b a
      → i + 1 ≡ length es
      → Cursor.advance store (record { node = some p; index = i }) s
        ≡ some (record { node = a; index = 0 }, s)
  unfolding Cursor.advance next_of_node leaf_of
  advance-past {n = n} p i live leaf last = rw (
    as_ref-live store live,
    lt→ltb 0 n.len (omega (arith, leaf.count)),
    le→ltb i (n.len - 1) (omega (arith, leaf.count)),
    leaf.is_leaf,
    leaf.after,
  )

  -- After its last entry a leaf goes back to the arena; its parent stays if it has later children.
  dealloc-last :
      {s : S} {n up : Node K V} (p r : NodePtr) (i j fuel : ℕ)
      → store.deref p s ≡ some n
      → i + 1 ≡ n.len
      → n.parent ≡ some r
      → n.parent_idx ≡ some j
      → store.deref r (store.discard p s) ≡ some up
      → j < up.len
      → dealloc_up_lasts store (suc fuel) p i s ≡ some (tt, store.discard p s)
  unfolding dealloc_up_lasts dealloc_up parent
  dealloc-last {s} {n} {up} p r i j fuel live last has index above within =
      let here : i ≡ n.len - 1 = omega (arith, last) in
      rw (
        as_ref-live store live,
        lt→ltb i n.len (omega (arith, last)),
        here,
        ==_refl (n.len - 1),
        as_ref-live store live,
        has,
        index,
        dealloc-live store live,
        as_ref-live store above,
        le→leb j up.len (omega (arith, within)),
        ne→== j up.len (λ e. omega (arith, within, e)),
      )

  deref-discard_other :
      {s : S} {p q : NodePtr} {n m : Node K V}
      → store.deref p s ≡ some n
      → store.deref q s ≡ some m
      → (q ≡ p → ⊥)
      → store.deref q (store.discard p s) ≡ some m
  deref-discard_other {s} {p} {q} {n} live other differs =
      store.deref-discard q p n s live ∙ rw (ne→== q p differs, other)

  next-step :
      (s s' : S) (it : IntoIter) (p : NodePtr) (i : ℕ) (c : Cursor) (kv : K × V)
      → it.length == 0 ≡ false
      → read_key_value store it.cursor s ≡ some (some kv, s)
      → address it.cursor ≡ some (p, i)
      → Cursor.advance store it.cursor s ≡ some (c, s)
      → dealloc_up_lasts store it.levels p i s ≡ some (tt, s')
      → next store it s ≡ some ((record it { cursor = c; length = it.length - 1 }, some kv), s')
  unfolding next
  next-step s s' it p i c kv more reads at moves gives_back =
      rw (next, more, reads, at, moves, gives_back)

  next_back-fault :
      (s : S) (it : IntoIter) (p : NodePtr) (i : ℕ) (kv : K × V)
      → it.length == 0 ≡ false
      → read_key_value store it.back_cursor s ≡ some (some kv, s)
      → address it.back_cursor ≡ some (p, i)
      → Cursor.advance_back store it.back_cursor s ≡ none
      → next_back store it s ≡ none
  unfolding next_back
  next_back-fault s it p i kv more reads at moves = rw (next_back, more, reads, at, moves)

  advance_back-gone :
      {s : S} {m : Node K V} {fs : List (K × V)} {a : Option NodePtr} (p q : NodePtr)
      → store.deref p s ≡ none
      → store.deref q s ≡ some m
      → IsLeaf m fs (some p) a
      → Cursor.advance_back store (record { node = some q; index = 0 }) s ≡ none
  unfolding Cursor.advance_back prev_of_node leaf_of as_ref
  advance_back-gone p q gone live leaf = rw (live, leaf.is_leaf, leaf.before, gone)

  back-gone :
      {s : S} {m : Node K V} {fs : List (K × V)} {f : K × V} {a : Option NodePtr} (p q : NodePtr)
      (it : IntoIter)
      → store.deref p s ≡ none
      → store.deref q s ≡ some m
      → IsLeaf m fs (some p) a
      → get_elem? fs 0 ≡ some f
      → it.back_cursor ≡ record { node = some q; index = 0 }
      → it.length == 0 ≡ false
      → next_back store it s ≡ none
  unfolding address
  back-gone {s} {f = f} p q it gone live leaf at stands more =
      next_back-fault s it q 0 f more (rw stands (read-leaf q 0 live leaf at)) (rw stands refl)
        (rw stands (advance_back-gone p q gone live leaf))

  -- The front of an owning iterator stands at the last entry of a leaf that is not the last child of its
  -- parent, and the back at the first entry of the leaf behind it. Then `next` succeeds with the entry,
  -- and `next_back` after it faults, though an entry is left: it reads the leaf that `next` gave back.
  pub next-next_back :
      (s : S) (it : IntoIter) (p q r : NodePtr) (n m up : Node K V) (es fs : List (K × V))
      (b a : Option NodePtr) (i j fuel left : ℕ) (e f : K × V) (ks : List K) (ps : List NodePtr)
      → it.cursor ≡ record { node = some p; index = i }
      → it.back_cursor ≡ record { node = some q; index = 0 }
      → it.length ≡ suc (suc left)
      → it.levels ≡ suc fuel
      → store.deref p s ≡ some n
      → IsLeaf n es b (some q)
      → get_elem? es i ≡ some e
      → i + 1 ≡ length es
      → store.deref q s ≡ some m
      → IsLeaf m fs (some p) a
      → get_elem? fs 0 ≡ some f
      → (q ≡ p → ⊥)
      → n.parent ≡ some r
      → n.parent_idx ≡ some j
      → store.deref r s ≡ some up
      → IsInternal up ks ps
      → j < up.len
      → (it' : IntoIter) × (s' : S) × (next store it s ≡ some ((it', some e), s'))
        × (it'.length ≡ suc left)
        × (next_back store it' s' ≡ none)
  unfolding address
  next-next_back s it p q r n m up es fs b a i j fuel left e f ks ps front back count levels live
        leaf at last live' leaf' at' apart has index above internal within =
      let r_apart : r ≡ p → ⊥ = λ same.
        let moved : store.deref p s ≡ some up = subst (λ x. store.deref x s ≡ some up) same above in
        let one : n ≡ up = cc in
        leaf_not_internal n.d leaf.l internal.i leaf.is_leaf
          (ap (λ x. x.d) one ∙ internal.is_internal) in
      let it' : IntoIter = record it {
        cursor = record { node = some q; index = 0 };
        length = it.length - 1;
      } in
      (
        it',
        store.discard p s,
        next-step s (store.discard p s) it p i (record { node = some q; index = 0 }) e
            (ne→== it.length 0 (λ z. omega (arith, count, z)))
            (rw front (read-leaf p i live leaf at)) (rw front refl)
            (rw front (advance-past p i live leaf last))
            (rw levels (
              dealloc-last p r i j fuel live (omega (arith, last, leaf.count)) has index
                (deref-discard_other live above r_apart) within)),
        omega (arith, count),
        back-gone p q it' (store.deref-discard p p n s live ∙ rw (==_refl p))
            (deref-discard_other live live' apart) leaf' at' back
            (ne→== (it.length - 1) 0 (λ z. omega (arith, count, z))),
      )
