-- ===== src/Map/Insert/Filled.antt =====
-- `insert` keeps a map well-formed, without empty leaves, also where it splits a leaf.
use btree_forest_arena.Prelude.{
  ℕ, ◌+◌, ◌<◌, ◌≡◌, refl, ◌∙◌, sym, ap, subst, inl, inr, Bool-cases, Option, none, some, List, [],
  ◌∷◌, map, arith, length, ltb, lt_length_of_get,
}
use mathlib.Core.Option
use btree_forest_arena.Prelude.Order.{Ord}
use btree_forest_arena.Store.{NodePtr, Slab, and_then}
use btree_forest_arena.Store.Access.{as_ref-live, as_mut-live}
use btree_forest_arena.Search.{Found, ok, err}
use btree_forest_arena.Search.Linear.{scan}
use btree_forest_arena.Node.{Node, max_keys, next, replace_val, leaf_of}
use btree_forest_arena.Node.View.{IsLeaf, key_of, val_of}
use btree_forest_arena.Node.Leaf.Contents.{insert_val-IsLeaf, replace_val-IsLeaf}
use btree_forest_arena.Tree.{Tree, addr, entries, lookup}
use btree_forest_arena.Tree.Order.{probe}
use btree_forest_arena.Tree.Upsert.{upsert, upsert-Edit, upsert-IsSorted}
use btree_forest_arena.Map.{BTreeMap, before, at_leaf, find}
use btree_forest_arena.Map.Lookup.{find-root}
use btree_forest_arena.Map.Insert.{insert, insert_before}
use btree_forest_arena.Map.Insert.Root.{insert-Rooted}
use btree_forest_arena.Map.Insert.Fit.{Puts, scan-Puts, insert_before-room}
use btree_forest_arena.Map.Insert.Relink.{LeafBehind}
use btree_forest_arena.Map.Insert.SplitLeaf.{LeafSplit, insert_before-LeafSplit}
use btree_forest_arena.Map.Insert.LeafOverflow.{LeafSplit-Overflow}
use btree_forest_arena.Map.Insert.Path.{Grows, find_in-Grows}
use btree_forest_arena.Map.Insert.Settle.{
  IsFilledMap, Settled, Absorbed-Settled, Outcome-Settled, leaf-Absorbed,
}

module _ {S K V : Type 0} ⦃o : Ord K⦄ (store : Slab S (Node K V)) where
  -- The map after `insert`, which replaced the value of an entry with the key, if there was one.
  pub record Upserted (s : S) (m : BTreeMap) (k : K) (v : V) (es : List (K × V)) : Type 0 where
    pub m' : BTreeMap
    pub s' : S
    pub runs : insert store m k v s ≡ some ((m', Option.map val_of (lookup es k)), s')
    pub is_map : IsFilledMap store s' m' (upsert k v es)

  LeafNext :
      (n : Node K V) (es : List (K × V)) (b : Option NodePtr) (q : NodePtr)
      → IsLeaf n es b (some q)
      → next n ≡ some (some q)
  unfolding next leaf_of
  LeafNext n es b q leaf = rw (leaf.is_leaf, leaf.after)

  upsert-some : (k : K) (v : V) (es : List (K × V)) → 0 < length (upsert k v es)
  upsert-some k v [] = omega arith
  upsert-some k v (e ∷ es) = ground arith

  insert-found :
      (s : S) (m : BTreeMap) (k : K) (v : V) (p : NodePtr) (i : ℕ) {n n' : Node K V} {old : V}
      → find store m k s ≡ some (at_leaf p (ok i), s)
      → store.deref p s ≡ some n
      → replace_val n i v ≡ some (n', old)
      → insert store m k v s ≡ some ((m, some old), store.assign p n' s)
  unfolding insert
  insert-found s m k v p i {n' = n'} found live replaced =
      rw (found, as_ref-live store live, replaced, as_mut-live store n' live)

  insert-absent :
      (s : S) (m m' : BTreeMap) (k : K) (v : V) (p : NodePtr) (i : ℕ) {s' : S}
      → find store m k s ≡ some (at_leaf p (err i), s)
      → insert_before store m k v p i s ≡ some (m', s')
      → insert store m k v s ≡ some ((m', none), s')
  unfolding insert
  insert-absent s m m' k v p i found inserted = rw (found, inserted)

  -- The end of `insert_before`.
  abbrev one_longer : Option (BTreeMap × S) → Option (BTreeMap × S)
  one_longer r = and_then r (λ m' s'. some (record m' { length = m'.length + 1 }, s'))

  absent-Upserted :
      (s : S) (m : BTreeMap) (k : K) (v : V) (es : List (K × V)) (p : NodePtr) (i : ℕ)
      (r : Option (BTreeMap × S))
      → find store m k s ≡ some (at_leaf p (err i), s)
      → insert_before store m k v p i s ≡ one_longer r
      → lookup es k ≡ none
      → m.length + 1 ≡ length (upsert k v es)
      → Settled store m (upsert k v es) r
      → Upserted s m k v es
  absent-Upserted s m k v es p i r found inserted absent counted x = record {
    m' = record x.m' { length = x.m'.length + 1 };
    s' = x.s';
    runs = rw absent (
        insert-absent s m (record x.m' { length = x.m'.length + 1 }) k v p i found
          (inserted ∙ ap one_longer x.runs));
    is_map = inr (x.is_tree (x.m'.length + 1) (omega (arith, x.same_length, counted)));
  }

  insert-tree :
      (s : S) (m : BTreeMap) (k : K) (v : V) (t : Tree K V m.height)
      → m.root ≡ some (addr K V m.height t)
      → m.length ≡ length (entries K V m.height t)
      → (g : Grows store (upsert-Edit k v) s m.height none t (find store m k s)) → (r : Found)
      → find store m k s ≡ some (at_leaf g.p r, s)
      → Puts k v g.es r
      → ((p : NodePtr) (i : ℕ) (n : Node K V)
          → find store m k s ≡ some (before p i, s)
          → store.deref p s ≡ some n
          → n.len ≡ max_keys
          → (q : NodePtr) → next n ≡ some (some q)
          → LeafBehind store s p q)
      → Upserted s m k v (entries K V m.height t)
  insert-tree s m k v t rooted counted g (ok i) found (e, at, puts, is, size) behind =
      let (n', replaced, leaf, same) =
        replace_val-IsLeaf g.at.leaf i e v at (lt_length_of_get g.es i at) in
      let x = Absorbed-Settled store m s t (upsert k v (entries K V m.height t)) _ rooted (
        g.absorbed m _ (
          leaf-Absorbed store s m g.leaf_up g.p g.es (upsert k v g.es) g.at n'
            (subst (λ xs. IsLeaf n' xs g.at.prev g.at.next) puts leaf) same
            (upsert-IsSorted k v g.es g.sorted) (upsert-some k v g.es))) in
      let returned : some e.1 ≡ Option.map val_of (lookup (entries K V m.height t) k) =
        rw (g.same_lookup, is) refl in
      record {
        m' = x.m';
        s' = x.s';
        runs =
            insert-found s m k v g.p i found g.at.live replaced
            ∙ ap (Option.map (λ y. ((y.0, some e.1), y.1))) x.runs
            ∙ ap (λ y. some ((x.m', y), x.s')) returned;
        is_map = inr (x.is_tree x.m'.length (omega (arith, x.same_length, counted, g.grown, size)));
      }
  insert-tree s m k v t rooted counted g (err i) found (le, puts, is, size) behind =
      let es' = upsert k v (entries K V m.height t) in
      let absent : lookup (entries K V m.height t) k ≡ none = g.same_lookup ∙ is in
      let more : m.length + 1 ≡ length es' = omega (arith, counted, g.grown, size) in
      let sorted = upsert-IsSorted k v g.es g.sorted in
      elim (Bool-cases (ltb g.at.n.len max_keys)) [
        | inl fits ↦
            let less : g.at.n.len < max_keys = ground (arith, fits) in
            let (n', inserted, leaf, same) =
              insert_val-IsLeaf g.at.leaf i k v le (omega (arith, g.at.leaf.count, less)) in
            absent-Upserted s m k v (entries K V m.height t) g.p i (some (m, store.assign g.p n' s))
              found (insert_before-room store m k v i g.at.live less inserted) absent more
              (Absorbed-Settled store m s t es' _ rooted (
                g.absorbed m _ (
                  leaf-Absorbed store s m g.leaf_up g.p g.es (upsert k v g.es) g.at n'
                    (subst (λ xs. IsLeaf n' xs g.at.prev g.at.next) puts leaf) same sorted
                    (upsert-some k v g.es))))
        | inr full ↦
            let eight : g.at.n.len ≡ max_keys =
              ground (arith, full, g.at.leaf.count, g.at.leaf.fits) in
            let x : LeafSplit store s m g.p g.at.n (upsert k v g.es) g.at.prev g.at.next
                (insert_before store m k v g.p i s) =
              subst
                (λ xs.
                  LeafSplit store s m g.p g.at.n xs g.at.prev g.at.next
                    (insert_before store m k v g.p i s))
                puts
                (insert_before-LeafSplit store s m g.p g.at.n g.es g.at.prev g.at.next k v i
                  g.at.live g.at.leaf (omega (arith, eight, g.at.leaf.count)) le
                  (λ q is_next. behind g.p i g.at.n found g.at.live eight q (
                    LeafNext g.at.n g.es g.at.prev q
                      (subst (IsLeaf g.at.n g.es g.at.prev) is_next g.at.leaf)))) in
            absent-Upserted s m k v (entries K V m.height t) g.p i _ found x.runs absent more (
              Outcome-Settled store m.height m s t es' _ rooted (
                g.outcome m.height m _ (omega arith) (
                  LeafSplit-Overflow store s m g.leaf_up g.p g.es (upsert k v g.es) g.at _
                    (omega (arith, size, g.at.leaf.count, eight)) sorted x)))
      ]

  -- On a map with the entries `es` and no empty leaf, `insert` succeeds, returns the value of the entry
  -- that it replaces, and gives a map with the entries `upsert k v es` and no empty leaf. If the key is
  -- absent and the leaf where `find` stops has 8 entries, this is under the condition that the leaf
  -- linked behind it, if any, is another leaf of the arena.
  pub insert-IsFilledMap :
      (s : S) (m : BTreeMap) (es : List (K × V)) (k : K) (v : V)
      → IsFilledMap store s m es
      → ((p : NodePtr) (i : ℕ) (n : Node K V)
          → find store m k s ≡ some (before p i, s)
          → store.deref p s ≡ some n
          → n.len ≡ max_keys
          → (q : NodePtr) → next n ≡ some (some q)
          → LeafBehind store s p q)
      → Upserted s m k v es
  insert-IsFilledMap s m es k v (inl (no_root, nothing, empty, flat)) behind =
      let r = insert-Rooted store s m k v no_root empty in
      subst (Upserted s m k v) (sym nothing) (record {
        m' = record m { root = some r.p; length = m.length + 1 };
        s' = r.s';
        runs = r.runs;
        is_map =
            subst
              (λ h.
                IsFilledMap store r.s'
                  (record { root = some r.p; length = m.length + 1; height = h }) ((k, v) ∷ []))
              (sym flat)
              (inr (record {
                is = record {
                  tree = (r.p, (k, v) ∷ []);
                  rooted = refl;
                  represented = record {
                    n = r.n;
                    prev = none;
                    next = none;
                    live = r.live;
                    leaf = r.leaf;
                    has_parent = r.no_parent;
                  };
                  ordered = (tt, tt);
                  same_entries = refl;
                  counted = omega (arith, empty);
                };
                filled = omega arith;
              }));
      })
  insert-IsFilledMap s m es k v (inr tree) behind =
      let is = tree.is in
      let g =
        find_in-Grows store (upsert-Edit k v) s m.height none is.tree is.represented is.ordered
          tree.filled in
      let found : Grows store (upsert-Edit k v) s m.height none is.tree (find store m k s) =
        subst (Grows store (upsert-Edit k v) s m.height none is.tree)
          (sym (find-root store s m k is.rooted)) g in
      subst (Upserted s m k v) is.same_entries (
        insert-tree s m k v is.tree is.rooted (is.counted ∙ ap length (sym is.same_entries)) found
          (scan (probe k) (map key_of found.es)) found.runs (scan-Puts k v found.es found.sorted)
          behind)
