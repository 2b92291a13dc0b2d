-- ===== src/Map/Lookup.antt =====
-- `find` and the retrievals on a map whose entries are known.
pub mod Retrieve
pub mod First
use Prim.Native.Nat.{Ordering}
use Prim.Native.Nat.Ordering.{lt, eq, gt}
use btree_forest_arena.Prelude.{
  ℕ, zero, suc, ◌+◌, ◌<◌, ◌≡◌, refl, ◌∙◌, sym, ap, inl, inr, Bool, true, false, Option, none, some,
  List, [], ◌∷◌, map, arith, length, get_elem?, get_elem?-map, get_elem?-map_inv, All,
  All-get_elem?, lt→ltb, lt_length_of_get, length-map, ◌⊎◌, bind, check, ltb,
}
use btree_forest_arena.Prelude.Order.{Ord, Ordering-cases}
use btree_forest_arena.Slots.Holds.{Holds, slice-Holds}
use btree_forest_arena.Store.{NodePtr, Slab}
use btree_forest_arena.Store.Access.{as_ref-live}
use btree_forest_arena.Search.{Found, ok, err}
use btree_forest_arena.Search.Linear.{scan, shift, binary_search_by-eq-scan}
use btree_forest_arena.Node.{Node, keys, edge, max_keys, leaf_of, internal_of}
use btree_forest_arena.Node.View.{IsLeaf, IsInternal, key_of, val_of}
use btree_forest_arena.Tree.{Tree, addr, entries, lookup}
use btree_forest_arena.Tree.Order.{IsSorted, IsOrdered, probe, IsSorted-IsProbe, lookup-child}
use btree_forest_arena.Tree.Repr.{LeafAt, InternalAt, Repr, IsTree, IsMap}
use btree_forest_arena.Map.Defs.{
  BTreeMap, Find, no_root, before, found_at, at_leaf, child_index, find_in, find, get,
  get_key_value, contains_key,
}

module _ {K V : Type 0} where
  pub keys_of_IsLeaf :
      {n : Node K V} {es : List (K × V)} {p q : Option NodePtr}
      → IsLeaf n es p q
      → keys n ≡ some (map key_of es)
  unfolding keys
  keys_of_IsLeaf {n} {es} leaf =
      rw (lt→ltb n.len (max_keys + 1) (omega (arith, leaf.count, leaf.fits))) (
        slice-Holds n.keys (map key_of es) n.len leaf.has_keys
          (omega (arith, leaf.count, length-map key_of es)))

  pub keys_of_IsInternal :
      {n : Node K V} {ks : List K} {ps : List NodePtr} → IsInternal n ks ps → keys n ≡ some ks
  unfolding keys
  keys_of_IsInternal {n} {ks} i =
      rw (lt→ltb n.len (max_keys + 1) (omega (arith, i.count, i.fits)))
        (slice-Holds n.keys ks n.len i.has_keys i.count)

  pub edge_of_IsInternal :
      {n : Node K V} {ks : List K} {ps : List NodePtr} (idx : ℕ) (p : NodePtr)
      → IsInternal n ks ps
      → get_elem? ps idx ≡ some p
      → idx < length ps
      → edge n idx ≡ some p
  unfolding edge internal_of
  edge_of_IsInternal {n} {ks} {ps} idx p i at lt' =
      rw (lt→ltb idx (n.len + 1) (omega (arith, i.count, i.branches)), i.is_internal)
        (i.has_edges idx lt' ∙ at)

  pub edge_of_IsLeaf :
      {n : Node K V} {es : List (K × V)} {p q : Option NodePtr} (i : ℕ)
      → IsLeaf n es p q
      → edge n i ≡ none
  unfolding edge internal_of
  edge_of_IsLeaf {n} i leaf = rw leaf.is_leaf (nothing (check (ltb i (n.len + 1))))
    where
      nothing : (c : Option (Unit {0})) → bind {B = NodePtr} c (λ _. none) ≡ none
      nothing none = refl
      nothing (some c) = refl

module _ {S K V : Type 0} ⦃o : Ord K⦄ (store : Slab S (Node K V)) where
  -- `find` stops at a leaf that has the entry of the key, if the tree has one.
  pub record Finds (s : S) (h : ℕ) (t : Tree K V h) (k : K) (r : Option (Find × S)) : Type 0 where
    pub p : NodePtr
    pub es : List (K × V)
    pub up : Option (NodePtr × ℕ)
    pub at : LeafAt store s up p es
    pub sorted : IsSorted (map key_of es)
    pub runs : r ≡ some (at_leaf p (scan (probe k) (map key_of es)), s)
    pub same_lookup : lookup (entries K V h t) k ≡ lookup es k

  -- One round of the loop of `find`.
  pub find_in-child :
      (h : ℕ) (s : S) (up : Option (NodePtr × ℕ)) (t : Tree K V (suc h)) (k : K) (c : Tree K V h)
      → Repr store (suc h) s up t
      → IsSorted t.1
      → get_elem? t.2 (child_index (scan (probe k) t.1)) ≡ some c
      → find_in store (suc h) t.0 k s ≡ find_in store h (addr K V h c) k s
  unfolding find_in
  find_in-child h s up t k c r sorted at_child =
      let idx = child_index (scan (probe k) t.1) in
      let at_edge : get_elem? (map (addr K V h) t.2) idx ≡ some (addr K V h c) =
        get_elem?-map (addr K V h) t.2 idx at_child in
      rw (
        as_ref-live store r.0.live,
        keys_of_IsInternal r.0.internal,
        binary_search_by-eq-scan (probe k) t.1 (IsSorted-IsProbe k t.1 sorted),
        edge_of_IsInternal idx (addr K V h c) r.0.internal at_edge
            (lt_length_of_get (map (addr K V h) t.2) idx at_edge),
      )

  pub find_in_leaf :
      (s : S) (up : Option (NodePtr × ℕ)) (t : Tree K V 0) (k : K)
      → Repr store 0 s up t
      → IsSorted (map key_of t.1)
      → find_in store 0 t.0 k s ≡ some (at_leaf t.0 (scan (probe k) (map key_of t.1)), s)
  unfolding find_in
  find_in_leaf s up t k r sorted = rw (
    as_ref-live store r.live,
    keys_of_IsLeaf r.leaf,
    binary_search_by-eq-scan (probe k) (map key_of t.1)
        (IsSorted-IsProbe k (map key_of t.1) sorted),
  )

  pub find_in-Finds :
      (h : ℕ) (s : S) (up : Option (NodePtr × ℕ)) (t : Tree K V h) (k : K)
      → Repr store h s up t
      → IsOrdered K V h t
      → Finds s h t k (find_in store h (addr K V h t) k s)
  find_in-Finds zero s up t k r ord = record {
    p = t.0;
    es = t.1;
    up = up;
    at = r;
    sorted = ord;
    runs = find_in_leaf s up t k r ord;
    same_lookup = refl;
  }
  find_in-Finds (suc h) s up t k r ord =
      let (run, at_run, same) = lookup-child t.1 (map (entries K V h) t.2) k ord.0 ord.1 in
      let (c, at_child, run_of) = get_elem?-map_inv (entries K V h) t.2 _ at_run in
      let idx = child_index (scan (probe k) t.1) in
      let rest =
        find_in-Finds h s (some (t.0, idx)) c k (r.1 idx c at_child)
          (All-get_elem? (IsOrdered K V h) t.2 idx ord.2 at_child) in
      record {
        p = rest.p;
        es = rest.es;
        up = rest.up;
        at = rest.at;
        sorted = rest.sorted;
        runs = find_in-child h s up t k c r ord.0 at_child ∙ rest.runs;
        same_lookup = same ∙ ap (λ es. lookup es k) (sym run_of) ∙ rest.same_lookup;
      }

  pub find-root :
      (s : S) (m : BTreeMap) (k : K) {p : NodePtr}
      → m.root ≡ some p
      → find store m k s ≡ find_in store m.height p k s
  unfolding find
  find-root s m k rooted = rw rooted
