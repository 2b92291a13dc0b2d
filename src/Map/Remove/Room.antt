-- ===== src/Map/Remove/Room.antt =====
-- Removal where no leaf underflows.
use btree_forest_arena.Prelude.{
  ℕ, zero, suc, ◌+◌, ◌-◌, ◌/◌, ◌<◌, ◌≡◌, refl, ◌∙◌, sym, ap, subst, inl, inr, Bool, true, false,
  none, some, List, map, arith, length, length-remove_at, lt_length_of_get, ltb, lt→ltb, le→ltb,
}
use btree_forest_arena.Prelude.Order.{Ord}
use btree_forest_arena.Store.{NodePtr, Slab}
use btree_forest_arena.Store.Access.{as_ref-live, as_mut-live}
use btree_forest_arena.Search.{Found, ok, err}
use btree_forest_arena.Search.Linear.{scan}
use btree_forest_arena.Node.{Node, max_keys}
use btree_forest_arena.Node.View.{IsLeaf, key_of}
use btree_forest_arena.Node.Leaf.{remove_val}
use btree_forest_arena.Node.Leaf.Contents.{remove_val-IsLeaf}
use btree_forest_arena.Tree.{addr, entries, lookup}
use btree_forest_arena.Tree.Order.{probe}
use btree_forest_arena.Tree.Repr.{IsTree, IsMap}
use btree_forest_arena.Tree.Erase.{erase, erase-Edit, erase-absent, Takes, scan-Takes}
use btree_forest_arena.Tree.Frame.{deref-assign_self}
use btree_forest_arena.Tree.Descent.{Lands, find_in-Lands}
use btree_forest_arena.Map.{BTreeMap, found_at, at_leaf, find, find_in}
use btree_forest_arena.Map.Lookup.Retrieve.{Answers, scan-Answers}
use btree_forest_arena.Map.Lookup.{find-root}
use btree_forest_arena.Map.Remove.{rebalance, post_removal, remove_at_address, remove_key_value}

module _ {S K V : Type 0} (store : Slab S (Node K V)) where
  rebalance-balanced :
      (fuel : ℕ) (m : BTreeMap) (p : NodePtr) (is_leaf : Bool) (s : S) (n : Node K V)
      → 0 < fuel
      → store.deref p s ≡ some n
      → ltb n.len (max_keys / 2) ≡ false
      → rebalance store fuel m p is_leaf s ≡ some (m, s)
  unfolding rebalance
  rebalance-balanced zero m p is_leaf s n h live full = absurd (omega arith)
  rebalance-balanced (suc fuel) m p is_leaf s n h live full =
      ground (arith, as_ref-live store live, full)

  remove_at_address-balanced :
      (m : BTreeMap) (p : NodePtr) (idx : ℕ) (s : S) (n n' : Node K V) (e : K × V)
      → store.deref p s ≡ some n
      → remove_val n idx ≡ some (n', e)
      → ltb n'.len (max_keys / 2) ≡ false
      → 0 < m.length
      → remove_at_address store m p idx s
        ≡ some ((record m { length = m.length - 1 }, e), store.assign p n' s)
  unfolding remove_at_address post_removal
  remove_at_address-balanced m p idx s n n' e live removed full filled = rw (
    as_ref-live store live,
    removed,
    as_mut-live store n' live,
    lt→ltb 0 m.length filled,
    rebalance-balanced (m.height + 1) (record m { length = m.length - 1 }) p true
        (store.assign p n' s) n' (omega arith) (deref-assign_self store n' live) full,
  )

module _ {S K V : Type 0} ⦃o : Ord K⦄ (store : Slab S (Node K V)) where
  -- The map after `remove_key_value`, which returned the entry that it removed.
  pub record Removed (s : S) (m : BTreeMap) (k : K) (es : List (K × V)) : Type 0 where
    pub m' : BTreeMap
    pub s' : S
    pub runs : remove_key_value store m k s ≡ some ((m', lookup es k), s')
    pub is_map : IsMap store s' m' (erase k es)

  remove-tree :
      (s : S) (m : BTreeMap) (es : List (K × V)) (k : K) (is : IsTree store s m es)
      → (l : Lands store
          (erase-Edit k)
          s
          m.height
          none
          is.tree
          (find_in store m.height (addr K V m.height is.tree) k s))
      → (r : Found) → find store m k s ≡ some (at_leaf l.p r, s)
      → Takes k l.es r
      → Answers l.es k r
      → ((p : NodePtr) (i : ℕ) (n : Node K V)
          → find store m k s ≡ some (found_at p i, s)
          → store.deref p s ≡ some n
          → max_keys / 2 < n.len)
      → Removed s m k (entries K V m.height is.tree)
  unfolding remove_key_value
  remove-tree s m es k is l (ok i) found (e, at, takes, is_first) answers room =
      let full : max_keys / 2 < l.at.n.len = room l.p i l.at.n found l.at.live in
      let (n', removed, leaf, same) =
        remove_val-IsLeaf l.at.leaf i e at (lt_length_of_get l.es i at) in
      let b = l.rebuilt n' (subst (λ xs. IsLeaf n' xs l.at.prev l.at.next) takes leaf) same in
      let size = length-remove_at i l.es (lt_length_of_get l.es i at) in
      let counted = is.counted ∙ ap length (sym is.same_entries) in
      record {
        m' = record m { length = m.length - 1 };
        s' = store.assign l.p n' s;
        runs = rw (
          found,
          remove_at_address-balanced store m l.p i s l.at.n n' e l.at.live removed
              (le→ltb n'.len (max_keys / 2)
                (omega (arith, leaf.count, l.at.leaf.count, size, full)))
              (omega (arith, counted, b.grown, ap length takes, size)),
          l.same_lookup,
          is_first,
        );
        is_map = inr (record {
          tree = b.t';
          rooted = is.rooted ∙ ap some (sym b.same_addr);
          represented = b.represented;
          ordered = b.ordered;
          same_entries = b.edited;
          counted = omega (arith, counted, b.grown, ap length b.edited, ap length takes, size);
        });
      }
  remove-tree s m es k is l (err i) found h absent room =
      let no_entry : lookup (entries K V m.height is.tree) k ≡ none = l.same_lookup ∙ absent in
      record {
        m' = m;
        s' = s;
        runs = rw (found, no_entry);
        is_map = inr (record {
          tree = is.tree;
          rooted = is.rooted;
          represented = is.represented;
          ordered = is.ordered;
          same_entries = sym (erase-absent k (entries K V m.height is.tree) no_entry);
          counted =
              is.counted
              ∙ ap length (
                  sym is.same_entries
                  ∙ sym (erase-absent k (entries K V m.height is.tree) no_entry));
        });
      }

  -- On a map with the entries `es`, if the leaf that has the key has more than 4 entries or no leaf has
  -- the key, then `remove_key_value` succeeds, returns the first entry with an equal key, and gives a
  -- map with the entries `erase k es`.
  pub remove_key_value-erase :
      (s : S) (m : BTreeMap) (es : List (K × V)) (k : K)
      → IsMap store s m es
      → ((p : NodePtr) (i : ℕ) (n : Node K V)
          → find store m k s ≡ some (found_at p i, s)
          → store.deref p s ≡ some n
          → max_keys / 2 < n.len)
      → Removed s m k es
  unfolding remove_key_value find
  remove_key_value-erase s m es k (inl (no_root, nothing, empty, flat)) room =
      subst (Removed s m k) (sym nothing) (record {
        m' = m;
        s' = s;
        runs = ground (arith, no_root);
        is_map = inl (no_root, refl, empty, flat);
      })
  remove_key_value-erase s m es k (inr is) room =
      let l =
        find_in-Lands store (erase-Edit k) s m.height none is.tree is.represented is.ordered in
      subst (Removed s m k) is.same_entries (
        remove-tree s m es k is l (scan (probe k) (map key_of l.es))
          (find-root store s m k is.rooted ∙ l.runs) (scan-Takes k l.es)
          (scan-Answers l.es k l.sorted) room)
