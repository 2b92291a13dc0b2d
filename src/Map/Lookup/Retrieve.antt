-- ===== src/Map/Lookup/Retrieve.antt =====
-- What the retrievals return, against a search through the list of the entries.
use Prim.Native.Nat.Ordering.{lt, gt}
use btree_forest_arena.Prelude.{
  ℕ, ◌≡◌, refl, ◌∙◌, ap, inl, inr, true, Option, none, some, List, [], ◌∷◌, map, arith, get_elem?,
  get_elem?-map, All, lt→ltb, lt_length_of_get, length-map, subst, ltb, is_some,
}
use mathlib.Core.Option
use btree_forest_arena.Prelude.Order.{Ord, Ordering-cases}
use btree_forest_arena.Store.{NodePtr, Slab, pure, and_then}
use btree_forest_arena.Store.Access.{as_ref-live}
use btree_forest_arena.Search.{Found, ok, err}
use btree_forest_arena.Search.Linear.{scan, shift}
use btree_forest_arena.Node.{Node, key, val, key_val, read_key_val, leaf_of}
use btree_forest_arena.Node.View.{IsLeaf, key_of, val_of}
use btree_forest_arena.Tree.{Tree, addr, entries, lookup}
use btree_forest_arena.Tree.Order.{IsSorted, probe, above_sorted}
use btree_forest_arena.Tree.Repr.{IsMap}
use btree_forest_arena.Map.Defs.{
  BTreeMap, Find, at_leaf, find, find_in, read_found, get, get_key, get_key_value, contains_key,
  is_found,
}
use btree_forest_arena.Map.Lookup.{Finds, find_in-Finds}

module _ {K V : Type 0} ⦃o : Ord K⦄ where
  -- What a scan of the keys says of the entry with an equal key.
  abbrev pub Answers : List (K × V) → K → Found → Type 0
  Answers es k (ok i) = (e : K × V) × (get_elem? es i ≡ some e) × (lookup es k ≡ some e)
  Answers es k (err i) = lookup es k ≡ none

  pub lookup-none_larger :
      (es : List (K × V)) (k : K) → All (λ x. probe k x ≡ gt) (map key_of es) → lookup es k ≡ none
  lookup-none_larger [] k h = refl
  lookup-none_larger (e ∷ es) k h = ground (arith, lookup-none_larger es k h.1)

  pub scan-Answers :
      (es : List (K × V)) (k : K)
      → IsSorted (map key_of es)
      → Answers es k (scan (probe k) (map key_of es))
  scan-Answers [] k h = refl
  scan-Answers (e ∷ es) k h = elim (Ordering-cases (o.cmp e.0 k)) [
    | inl below ↦
        rw (below, scan) (later (scan (probe k) (map key_of es)) below (scan-Answers es k h.1))
    | inr (inl same) ↦ rw (same, scan) (e, refl, rw (same, lookup))
    | inr (inr above) ↦
        rw (above, scan)
          (ground
            (arith, lookup-none_larger es k (above_sorted e.0 k (map key_of es) (inr above) h.0)))
  ]
    where
      later : (r : Found) → o.cmp e.0 k ≡ lt → Answers es k r → Answers (e ∷ es) k (shift r)
      later (ok i) below (found, at, is) = (found, at, ground arith)
      later (err i) below is = ground arith

module _ {K V : Type 0} {n : Node K V} {es : List (K × V)} {p q : Option NodePtr}
    (leaf : IsLeaf n es p q) (i : ℕ) (e : K × V) (at : get_elem? es i ≡ some e) where
  pub read_key : n.keys i ≡ some e.0
  read_key =
      leaf.has_keys i (omega (arith, lt_length_of_get es i at, length-map key_of es))
      ∙ get_elem?-map key_of es i at

  pub read_value : leaf.l.vals i ≡ some e.1
  read_value =
      leaf.has_vals i (omega (arith, lt_length_of_get es i at, length-map val_of es))
      ∙ get_elem?-map val_of es i at

  pub within : ltb i n.len ≡ true
  within = lt→ltb i n.len (omega (arith, lt_length_of_get es i at, leaf.count))

  pub key_of_IsLeaf : key n i ≡ some e.0
  unfolding key
  key_of_IsLeaf = rw (within, read_key)

  pub val_of_IsLeaf : val n i ≡ some e.1
  unfolding val leaf_of
  val_of_IsLeaf = rw (within, leaf.is_leaf, read_value)

  pub key_val_of_IsLeaf : key_val n i ≡ some e
  unfolding key_val leaf_of
  key_val_of_IsLeaf = rw (within, read_key, leaf.is_leaf, read_value)

  pub read_key_val_of_IsLeaf : read_key_val n i ≡ some e
  unfolding read_key_val leaf_of
  read_key_val_of_IsLeaf = rw (within, read_key, leaf.is_leaf, read_value)

map_self : {A : Type 0} (x : Option A) → Option.map (λ a. a) x ≡ x
map_self none = refl
map_self (some a) = refl

module _ {S K V : Type 0} ⦃o : Ord K⦄ (store : Slab S (Node K V)) where
  -- A retrieval reads, in the leaf where `find` stops, the entry that the list of entries has.
  read_found-lookup :
      {R : Type 0} {s : S} {h : ℕ} {t : Tree K V h} {k : K} {r : Option (Find × S)}
      (read : Node K V → ℕ → Option R) (f : K × V → R)
      → Finds store s h t k r
      → ((n : Node K V) (es : List (K × V)) (p q : Option NodePtr) (i : ℕ) (e : K × V)
          → IsLeaf n es p q
          → get_elem? es i ≡ some e
          → read n i ≡ some (f e))
      → and_then r (read_found store read) ≡ some (Option.map f (lookup (entries K V h t) k), s)
  unfolding read_found
  read_found-lookup {s} {h} {t} {k} read f finds reads =
      rw (finds.runs, finds.same_lookup)
        (answer (scan (probe k) (map key_of finds.es)) (scan-Answers finds.es k finds.sorted))
    where
      answer :
          (r : Found)
          → Answers finds.es k r
          → read_found store read (at_leaf finds.p r) s ≡ some (Option.map f (lookup finds.es k), s)
      answer (ok i) (e, at, is) =
          rw (
            as_ref-live store finds.at.live,
            reads finds.at.n finds.es _ _ i e finds.at.leaf at,
            is,
          )
      answer (err i) is = rw is

  module _ {s : S} {m : BTreeMap} {es : List (K × V)} where
    retrieve-lookup :
        {R : Type 0} (read : Node K V → ℕ → Option R) (f : K × V → R) (k : K)
        → IsMap store s m es
        → ((n : Node K V) (es : List (K × V)) (p q : Option NodePtr) (i : ℕ) (e : K × V)
            → IsLeaf n es p q
            → get_elem? es i ≡ some e
            → read n i ≡ some (f e))
        → and_then (find store m k s) (read_found store read) ≡ some (Option.map f (lookup es k), s)
    unfolding find read_found
    retrieve-lookup read f k (inl (no_node, nothing, _, _)) reads = rw (no_node, nothing)
    retrieve-lookup read f k (inr is) reads = rw (is.rooted) (
        subst
          (λ xs.
            and_then (find_in store m.height (addr K V m.height is.tree) k s)
              (read_found store read)
            ≡ some (Option.map f (lookup xs k), s))
          is.same_entries
          (read_found-lookup read f
            (find_in-Finds store m.height s none is.tree k is.represented is.ordered) reads))

    -- On a map with the entries `es`, `get` returns the value of the first one whose key compares equal, or
    -- none if there is none, and leaves the arena as it is.
    pub get-lookup :
        (k : K) → IsMap store s m es → get store m k s ≡ some (Option.map val_of (lookup es k), s)
    unfolding get
    get-lookup k is =
        retrieve-lookup val val_of k is (λ n xs p q i e leaf at. val_of_IsLeaf leaf i e at)

    -- On a map with the entries `es`, `get_key` returns the key of the first one whose key compares equal,
    -- or none if there is none, and leaves the arena as it is.
    pub get_key-lookup :
        (k : K)
        → IsMap store s m es
        → get_key store m k s ≡ some (Option.map key_of (lookup es k), s)
    unfolding get_key
    get_key-lookup k is =
        retrieve-lookup key key_of k is (λ n xs p q i e leaf at. key_of_IsLeaf leaf i e at)

    -- On a map with the entries `es`, `get_key_value` returns the first one whose key compares equal, or
    -- none if there is none, and leaves the arena as it is.
    pub get_key_value-lookup :
        (k : K) → IsMap store s m es → get_key_value store m k s ≡ some (lookup es k, s)
    unfolding get_key_value
    get_key_value-lookup k is =
        retrieve-lookup key_val (λ e. e) k is
          (λ n xs p q i e leaf at. key_val_of_IsLeaf leaf i e at)
        ∙ ap (λ x. some (x, s)) (map_self (lookup es k))

    -- On a map with the entries `es`, `contains_key` says whether the key of one compares equal, and
    -- leaves the arena as it is.
    pub contains_key-lookup :
        (k : K) → IsMap store s m es → contains_key store m k s ≡ some (is_some (lookup es k), s)
    unfolding contains_key find
    contains_key-lookup k (inl (no_node, nothing, _, _)) = rw (no_node, nothing)
    contains_key-lookup k (inr is) =
        rw (is.rooted, finds.runs, ← is.same_entries, finds.same_lookup)
          (answer (scan (probe k) (map key_of finds.es)) (scan-Answers finds.es k finds.sorted))
      where
        finds :
            Finds store s m.height is.tree k
              (find_in store m.height (addr K V m.height is.tree) k s)
        finds = find_in-Finds store m.height s none is.tree k is.represented is.ordered

        answer :
            (r : Found)
            → Answers finds.es k r
            → pure (is_found (at_leaf finds.p r)) s ≡ some (is_some (lookup finds.es k), s)
        answer (ok i) (e, at, is') = rw is'
        answer (err i) is' = rw is'
