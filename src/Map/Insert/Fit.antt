-- ===== src/Map/Insert/Fit.antt =====
-- `insert` where no leaf is split.
use Prim.Native.Nat.Ordering.{lt}
use btree_forest_arena.Prelude.{
  ℕ, ◌+◌, ◌<◌, ◌≤◌, ◌≡◌, refl, ◌∙◌, sym, ap, subst, inl, inr, none, some, List, [], ◌∷◌, map, arith,
  length, get_elem?, insert_at, set, lt→ltb, lt_length_of_get,
}
use mathlib.Core.Option
use btree_forest_arena.Prelude.Order.{Ord, Ordering-cases}
use btree_forest_arena.Store.{NodePtr, Slab}
use btree_forest_arena.Store.Access.{as_ref-live, as_mut-live}
use btree_forest_arena.Search.{Found, ok, err}
use btree_forest_arena.Search.Linear.{scan, shift}
use btree_forest_arena.Node.{Node, max_keys}
use btree_forest_arena.Node.View.{IsLeaf, key_of, val_of}
use btree_forest_arena.Node.Leaf.{insert_val}
use btree_forest_arena.Node.Leaf.Contents.{insert_val-IsLeaf, replace_val-IsLeaf}
use btree_forest_arena.Tree.{Tree, addr, entries, lookup}
use btree_forest_arena.Tree.Order.{IsSorted, probe, above_sorted}
use btree_forest_arena.Tree.Repr.{IsMap}
use btree_forest_arena.Tree.Upsert.{upsert, upsert-Edit}
use btree_forest_arena.Map.{BTreeMap, new_in, before, at_leaf, find, find_in}
use btree_forest_arena.Map.Lookup.{find-root}
use btree_forest_arena.Map.Lookup.Retrieve.{lookup-none_larger}
use btree_forest_arena.Map.Insert.{insert, insert_before}
use btree_forest_arena.Map.Insert.Root.{insert-Rooted}
use btree_forest_arena.Tree.Descent.{Lands, find_in-Lands}

module _ {K V : Type 0} ⦃o : Ord K⦄ (k : K) (v : V) where
  -- At the place that a scan of the keys gives, the entry is where `upsert` puts it.
  abbrev pub Puts : List (K × V) → Found → Type 0
  Puts es (ok i) =
      (e : K × V) × (get_elem? es i ≡ some e)
      × (set es i (e.0, v) ≡ upsert k v es)
      × (lookup es k ≡ some e)
      × (length (upsert k v es) ≡ length es)
  Puts es (err i) =
      (i ≤ length es)
      × (insert_at i (k, v) es ≡ upsert k v es)
      × (lookup es k ≡ none)
      × (length (upsert k v es) ≡ length es + 1)

  pub scan-Puts :
      (es : List (K × V)) → IsSorted (map key_of es) → Puts es (scan (probe k) (map key_of es))
  scan-Puts [] h = (omega arith, refl, refl, refl)
  scan-Puts (e ∷ es) h = elim (Ordering-cases (o.cmp e.0 k)) [
    | inl below ↦ rw (below, scan) (later (scan (probe k) (map key_of es)) below (scan-Puts es h.1))
    | inr (inl same) ↦
        rw (same, scan) (e, refl, ground (arith, same), ground (arith, same), ground (arith, same))
    | inr (inr above) ↦
        rw (above, scan)
          (
            omega arith,
            ground (arith, above),
            ground (
              arith,
              lookup-none_larger es k (above_sorted e.0 k (map key_of es) (inr above) h.0),
            ),
            ground (arith, above),
          )
  ]
    where
      later : (r : Found) → o.cmp e.0 k ≡ lt → Puts es r → Puts (e ∷ es) (shift r)
      later (ok i) below (found, at, puts, is, size) =
          (found, at, ground (arith, puts), ground (arith, is), ground (arith, size))
      later (err i) below (le, puts, is, size) =
          (omega arith, ground (arith, puts), ground (arith, is), ground (arith, size))

module _ {S K V : Type 0} ⦃o : Ord K⦄ (store : Slab S (Node K V)) where
  pub insert_before-room :
      (m : BTreeMap) {s : S} {p : NodePtr} {n n' : Node K V} (k : K) (v : V) (idx : ℕ)
      → store.deref p s ≡ some n
      → n.len < max_keys
      → insert_val n idx k v ≡ some n'
      → insert_before store m k v p idx s
        ≡ some (record m { length = m.length + 1 }, store.assign p n' s)
  unfolding insert_before
  insert_before-room m {n = n} {n'} k v idx live room inserted =
      rw (as_ref-live store live, lt→ltb n.len max_keys room, inserted, as_mut-live store n' live)

  -- The map after `insert`, which replaced `old`.
  pub record Inserted (s : S) (m : BTreeMap) (k : K) (v : V) (es : List (K × V)) : Type 0 where
    pub m' : BTreeMap
    pub s' : S
    pub runs : insert store m k v s ≡ some ((m', Option.map val_of (lookup es k)), s')
    pub is_map : IsMap store s' m' (upsert k v es)

  insert-tree :
      (s : S) (m : BTreeMap) (k : K) (v : V) (t : Tree K V m.height)
      → m.root ≡ some (addr K V m.height t)
      → m.length ≡ length (entries K V m.height t)
      → (l : Lands store
          (upsert-Edit k v)
          s
          m.height
          none
          t
          (find_in store m.height (addr K V m.height t) k s))
      → (r : Found) → find store m k s ≡ some (at_leaf l.p r, s)
      → Puts k v l.es r
      → ((p : NodePtr) (i : ℕ) (n : Node K V)
          → find store m k s ≡ some (before p i, s)
          → store.deref p s ≡ some n
          → n.len < max_keys)
      → Inserted s m k v (entries K V m.height t)
  unfolding insert
  insert-tree s m k v t rooted counted l (ok i) found (e, at, puts, is, size) room =
      let (n', replaced, leaf, same) =
        replace_val-IsLeaf l.at.leaf i e v at (lt_length_of_get l.es i at) in
      let b = l.rebuilt n' (subst (λ xs. IsLeaf n' xs l.at.prev l.at.next) puts leaf) same in
      record {
        m' = m;
        s' = store.assign l.p n' s;
        runs = rw (
          found,
          as_ref-live store l.at.live,
          replaced,
          as_mut-live store n' l.at.live,
          l.same_lookup,
          is,
        );
        is_map = inr (record {
          tree = b.t';
          rooted = rooted ∙ ap some (sym b.same_addr);
          represented = b.represented;
          ordered = b.ordered;
          same_entries = b.edited;
          counted = omega (arith, b.grown, ap length b.edited);
        });
      }
  insert-tree s m k v t rooted counted l (err i) found (le, puts, is, size) room =
      let fits : l.at.n.len < max_keys = room l.p i l.at.n found l.at.live in
      let (n', inserted, leaf, same) =
        insert_val-IsLeaf l.at.leaf i k v le (omega (arith, l.at.leaf.count, fits)) in
      let b = l.rebuilt n' (subst (λ xs. IsLeaf n' xs l.at.prev l.at.next) puts leaf) same in
      record {
        m' = record m { length = m.length + 1 };
        s' = store.assign l.p n' s;
        runs = rw (found, insert_before-room m k v i l.at.live fits inserted, l.same_lookup, is);
        is_map = inr (record {
          tree = b.t';
          rooted = rooted ∙ ap some (sym b.same_addr);
          represented = b.represented;
          ordered = b.ordered;
          same_entries = b.edited;
          counted = omega (arith, b.grown, ap length b.edited);
        });
      }

  pub insert-no_root :
      (s : S) (m : BTreeMap) (k : K) (v : V)
      → m.root ≡ none
      → m.length ≡ 0
      → m.height ≡ 0
      → Inserted s m k v []
  insert-no_root s m k v no_root empty flat =
      let r = insert-Rooted store s m k v no_root empty in
      record {
        m' = record m { root = some r.p; length = m.length + 1 };
        s' = r.s';
        runs = r.runs;
        is_map =
            subst
              (λ h.
                IsMap store r.s' (record { root = some r.p; length = m.length + 1; height = h })
                  ((k, v) ∷ []))
              (sym flat)
              (inr (record {
                tree = (r.p, (k, v) ∷ []);
                rooted = refl;
                represented = record {
                  n = r.n;
                  prev = none;
                  next = none;
                  live = r.live;
                  leaf = r.leaf;
                  has_parent = r.no_parent;
                };
                ordered = (tt, tt);
                same_entries = refl;
                counted = omega (arith, empty);
              }));
      }

  -- `insert` into a new map succeeds, replaces nothing, and gives a map that has just this entry.
  pub insert-new_in : (s : S) (k : K) (v : V) → Inserted s new_in k v []
  unfolding new_in
  insert-new_in s k v = insert-no_root s new_in k v refl refl refl

  -- On a map with the entries `es`, if the leaf where `find` stops has fewer than 8 entries or the key is
  -- found, then `insert` succeeds, returns the value of the entry that it replaces, and gives a map
  -- with the entries `upsert k v es`.
  pub insert-upsert :
      (s : S) (m : BTreeMap) (es : List (K × V)) (k : K) (v : V)
      → IsMap store s m es
      → ((p : NodePtr) (i : ℕ) (n : Node K V)
          → find store m k s ≡ some (before p i, s)
          → store.deref p s ≡ some n
          → n.len < max_keys)
      → Inserted s m k v es
  insert-upsert s m es k v (inl (no_root, nothing, empty, flat)) room =
      subst (Inserted s m k v) (sym nothing) (insert-no_root s m k v no_root empty flat)
  insert-upsert s m es k v (inr is) room =
      let l =
        find_in-Lands store (upsert-Edit k v) s m.height none is.tree is.represented is.ordered in
      subst (Inserted s m k v) is.same_entries (
        insert-tree s m k v is.tree is.rooted (is.counted ∙ ap length (sym is.same_entries)) l
          (scan (probe k) (map key_of l.es)) (find-root store s m k is.rooted ∙ l.runs)
          (scan-Puts k v l.es l.sorted) room)
