-- ===== src/Map/Insert/Path.antt =====
-- From the leaf where `find` stops up to the root, when the leaf became two.
use btree_forest_arena.Prelude.{
  ℕ, zero, suc, ◌+◌, ◌≡◌, refl, ◌∙◌, sym, ap, subst, Option, some, List, map, concat, arith, length,
  map-set, ◌≤◌, ◌⊎◌, inl, inr, Bool-cases, ltb, ltb→lt, ltb→le, get_elem?, get_elem?-map,
  get_elem?-map_inv, set, All-get_elem?,
}
use btree_forest_arena.Prelude.Order.{Ord}
use btree_forest_arena.Store.{NodePtr, Slab}
use btree_forest_arena.Search.Linear.{scan}
use btree_forest_arena.Node.{Node, max_keys}
use btree_forest_arena.Node.View.{key_of}
use btree_forest_arena.Tree.{Tree, addr, entries, lookup}
use btree_forest_arena.Tree.Order.{IsSorted, IsParted, IsOrdered, probe, lookup-child}
use btree_forest_arena.Tree.Repr.{LeafAt, Repr}
use btree_forest_arena.Tree.Edit.{Edit, child-Placed}
use btree_forest_arena.Tree.Descent.{All-set, concat-set-length}
use btree_forest_arena.Map.{BTreeMap, Find, child_index, at_leaf, find_in}
use btree_forest_arena.Map.Lookup.{find_in-child, find_in_leaf}
use btree_forest_arena.Map.Insert.Grow.{IsFilled, Absorbed, Overflow}
use btree_forest_arena.Map.Insert.Absorb.{Repr-child, outside_child, Overflow-Absorbed}
use btree_forest_arena.Map.Insert.Divide.{Overflow-Divided}

module _ {S K V : Type 0} ⦃o : Ord K⦄ (store : Slab S (Node K V)) where
  -- The tree of a changed child changes with it.
  Absorbed-parent :
      (m : BTreeMap) (h : ℕ) (s : S) (up : Option (NodePtr × ℕ)) (t : Tree K V (suc h)) (idx : ℕ)
      (c : Tree K V h) (es : List (K × V)) (run : Option (BTreeMap × S))
      → Repr store (suc h) s up t
      → IsOrdered K V (suc h) t
      → IsFilled K V (suc h) t
      → get_elem? t.2 idx ≡ some c
      → IsParted t.1 (set (map (entries K V h) t.2) idx es)
      → Absorbed store m s h (some (t.0, idx)) c es run
      → Absorbed store m s (suc h) up t (concat (set (map (entries K V h) t.2) idx es)) run
  Absorbed-parent m h s up t idx c es run r ord filled at parted a =
      let new_runs : map (entries K V h) (set t.2 idx a.t') ≡ set (map (entries K V h) t.2) idx es =
        map-set (entries K V h) t.2 idx a.t'
        ∙ ap (set (map (entries K V h) t.2) idx) a.same_entries in
      record {
        s' = a.s';
        t' = (t.0, t.1, set t.2 idx a.t');
        runs = a.runs;
        same_addr = refl;
        represented =
            Repr-child store h s a.s' up t r idx c a.t' at a.same_addr a.others a.represented;
        ordered = (
          ord.0,
          subst (IsParted t.1) (sym new_runs) parted,
          All-set (IsOrdered K V h) t.2 idx a.t' ord.2 a.ordered,
        );
        filled = All-set (IsFilled K V h) t.2 idx a.t' filled a.filled;
        same_entries = ap concat new_runs;
        others = λ q out. a.others q (outside_child K V h t idx c at q out);
      }

  -- A tree took in what came from its leaf, or became two trees.
  abbrev pub Outcome :
      ℕ
      → BTreeMap
      → S
      → (h : ℕ) → Option (NodePtr × ℕ)
      → Tree K V h
      → List (K × V)
      → Option (BTreeMap × S)
      → Type 0
  Outcome levels m s h up t es run =
      Overflow store levels m s h up t es run ⊎ Absorbed store m s h up t es run

  module _ {k : K} {f : List (K × V) → List (K × V)} (edit : Edit k f) where
    -- Where `find` stops, and what becomes of the tree when the leaf there became two.
    pub record Grows (s : S) (h : ℕ) (up : Option (NodePtr × ℕ)) (t : Tree K V h)
        (r : Option (Find × S)) : Type 0 where
      pub p : NodePtr
      pub es : List (K × V)
      pub leaf_up : Option (NodePtr × ℕ)
      pub at : LeafAt store s leaf_up p es
      pub sorted : IsSorted (map key_of es)
      pub runs : r ≡ some (at_leaf p (scan (probe k) (map key_of es)), s)
      pub same_lookup : lookup (entries K V h t) k ≡ lookup es k
      pub grown :
          length (f (entries K V h t)) + length es ≡ length (entries K V h t) + length (f es)
      pub absorbed :
          (m : BTreeMap) (run : Option (BTreeMap × S))
          → Absorbed store m s 0 leaf_up (p, es) (f es) run
          → Absorbed store m s h up t (f (entries K V h t)) run
      pub outcome :
          (levels : ℕ) (m : BTreeMap) (run : Option (BTreeMap × S))
          → h ≤ levels
          → Overflow store levels m s 0 leaf_up (p, es) (f es) run
          → Outcome levels m s h up t (f (entries K V h t)) run

    parent_outcome :
        (levels : ℕ) (m : BTreeMap) (s : S) (h : ℕ) (up : Option (NodePtr × ℕ))
        (t : Tree K V (suc h)) (idx : ℕ) (c : Tree K V h) (es : List (K × V))
        (run : Option (BTreeMap × S))
        → Repr store (suc h) s up t
        → IsOrdered K V (suc h) t
        → IsFilled K V (suc h) t
        → get_elem? t.2 idx ≡ some c
        → IsParted t.1 (set (map (entries K V h) t.2) idx es)
        → suc h ≤ levels
        → Outcome levels m s h (some (t.0, idx)) c es run
        → Outcome levels m s (suc h) up t (concat (set (map (entries K V h) t.2) idx es)) run
    parent_outcome levels m s h up t idx c es run r ord filled at parted deep (inr x) =
        inr (Absorbed-parent m h s up t idx c es run r ord filled at parted x)
    parent_outcome levels m s h up t idx c es run r ord filled at parted deep (inl x) =
        elim (Bool-cases (ltb (length t.1) max_keys)) [
          | inl room ↦ inr (
              Overflow-Absorbed store levels m h s up t idx c es run r ord filled at parted
                (ltb→lt (length t.1) max_keys room) x)
          | inr no_room ↦ inl (
              Overflow-Divided store levels m h s up t idx c es run r at x
                (omega (arith, ltb→le (length t.1) max_keys no_room, r.0.internal.fits)) ord filled
                parted deep)
        ]

    pub find_in-Grows :
        (s : S) (h : ℕ) (up : Option (NodePtr × ℕ)) (t : Tree K V h)
        → Repr store h s up t
        → IsOrdered K V h t
        → IsFilled K V h t
        → Grows s h up t (find_in store h (addr K V h t) k s)
    find_in-Grows s zero up t r ord filled = record {
      p = t.0;
      es = t.1;
      leaf_up = up;
      at = r;
      sorted = ord;
      runs = find_in_leaf store s up t k r ord;
      same_lookup = refl;
      grown = omega arith;
      absorbed = λ m run x. x;
      outcome = λ levels m run deep x. inl x;
    }
    find_in-Grows s (suc h) up t r ord filled =
        let idx = child_index (scan (probe k) t.1) in
        let placed = child-Placed edit t.1 (map (entries K V h) t.2) ord.0 ord.1 in
        let (run, at_run, same) = lookup-child t.1 (map (entries K V h) t.2) k ord.0 ord.1 in
        let (c, at_child, run_of) = get_elem?-map_inv (entries K V h) t.2 _ placed.at in
        let same_run : run ≡ placed.run = cc in
        let rest =
          find_in-Grows s h (some (t.0, idx)) c (r.1 idx c at_child)
            (All-get_elem? (IsOrdered K V h) t.2 idx ord.2 at_child)
            (All-get_elem? (IsFilled K V h) t.2 idx filled at_child) in
        let joined : concat (set (map (entries K V h) t.2) idx (f (entries K V h c)))
            ≡ f (concat (map (entries K V h) t.2)) =
          subst
            (λ es.
              concat (set (map (entries K V h) t.2) idx (f es))
              ≡ f (concat (map (entries K V h) t.2)))
            (sym run_of) placed.joined in
        let parted : IsParted t.1 (set (map (entries K V h) t.2) idx (f (entries K V h c))) =
          subst (λ es. IsParted t.1 (set (map (entries K V h) t.2) idx (f es))) (sym run_of)
            placed.parted in
        record {
          p = rest.p;
          es = rest.es;
          leaf_up = rest.leaf_up;
          at = rest.at;
          sorted = rest.sorted;
          runs = find_in-child store h s up t k c r ord.0 at_child ∙ rest.runs;
          same_lookup = same ∙ ap (λ es. lookup es k) (same_run ∙ sym run_of) ∙ rest.same_lookup;
          grown = omega (
            arith,
            rest.grown,
            ap length joined,
            concat-set-length (map (entries K V h) t.2) idx (entries K V h c) (f (entries K V h c))
                (get_elem?-map (entries K V h) t.2 idx at_child),
          );
          absorbed = λ m run x.
              subst (λ es. Absorbed store m s (suc h) up t es run) joined
                (Absorbed-parent m h s up t idx c (f (entries K V h c)) run r ord filled at_child
                  parted (rest.absorbed m run x));
          outcome = λ levels m run deep x.
              subst (λ es. Outcome levels m s (suc h) up t es run) joined
                (parent_outcome levels m s h up t idx c (f (entries K V h c)) run r ord filled
                  at_child parted deep (rest.outcome levels m run (omega (arith, deep)) x));
        }
