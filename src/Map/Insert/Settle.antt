-- ===== src/Map/Insert/Settle.antt =====
-- `insert` on a map without empty leaves, whether a leaf is split or not.
use btree_forest_arena.Prelude.{
  ℕ, suc, ◌+◌, ◌<◌, ◌≡◌, refl, ◌∙◌, sym, ap, subst, ◌⊎◌, inl, inr, Option, none, some, List, [],
  map, arith, length,
}
use btree_forest_arena.Prelude.Order.{Ord}
use btree_forest_arena.Store.{NodePtr, Slab}
use btree_forest_arena.Node.{Node}
use btree_forest_arena.Node.View.{IsLeaf, SameParent, key_of}
use btree_forest_arena.Node.Edges.Renumber.{contains-cons, deref-other, deref_self}
use btree_forest_arena.Tree.{Tree, addr}
use btree_forest_arena.Tree.Order.{IsSorted}
use btree_forest_arena.Tree.Repr.{LeafAt, IsTree}
use btree_forest_arena.Tree.Alike.{HasParent-Same, Stays-same}
use btree_forest_arena.Map.{BTreeMap}
use btree_forest_arena.Map.Insert.Grow.{IsFilled, Absorbed}
use btree_forest_arena.Map.Insert.NewRoot.{Rooted, Overflow-Rooted}
use btree_forest_arena.Map.Insert.Path.{Outcome}

module _ {S K V : Type 0} ⦃o : Ord K⦄ (store : Slab S (Node K V)) where
  -- A tree with the entries `es` that has no empty leaf.
  pub record IsFilledTree (s : S) (m : BTreeMap) (es : List (K × V)) : Type 0 where
    pub is : IsTree store s m es
    pub filled : IsFilled K V m.height is.tree

  -- The map has the entries `es`, in this order, and no empty leaf.
  abbrev pub IsFilledMap : S → BTreeMap → List (K × V) → Type 0
  IsFilledMap s m es =
      (m.root ≡ none) × (es ≡ []) × (m.length ≡ 0) × (m.height ≡ 0) ⊎ IsFilledTree s m es

  -- The run gives a tree with the entries `es`, once its length is set.
  pub record Settled (m : BTreeMap) (es : List (K × V)) (r : Option (BTreeMap × S)) : Type 0 where
    pub m' : BTreeMap
    pub s' : S
    pub runs : r ≡ some (m', s')
    pub same_length : m'.length ≡ m.length
    pub is_tree : (l : ℕ) → l ≡ length es → IsFilledTree s' (record m' { length = l }) es

  pub Absorbed-Settled :
      (m : BTreeMap) (s : S) (t : Tree K V m.height) (es : List (K × V))
      (run : Option (BTreeMap × S))
      → m.root ≡ some (addr K V m.height t)
      → Absorbed store m s m.height none t es run
      → Settled m es run
  Absorbed-Settled m s t es run rooted a = record {
    m' = m;
    s' = a.s';
    runs = a.runs;
    same_length = refl;
    is_tree = λ l counted. record {
      is = record {
        tree = a.t';
        rooted = rooted ∙ ap some (sym a.same_addr);
        represented = a.represented;
        ordered = a.ordered;
        same_entries = a.same_entries;
        counted = counted;
      };
      filled = a.filled;
    };
  }

  pub Rooted-Settled :
      (m : BTreeMap) (es : List (K × V)) (run : Option (BTreeMap × S))
      → Rooted store m m.height es run
      → Settled m es run
  Rooted-Settled m es run a = record {
    m' = record m { root = some (a.t'.0); height = m.height + 1 };
    s' = a.s';
    runs = a.runs;
    same_length = refl;
    is_tree = λ l counted.
        let taller : suc m.height ≡ m.height + 1 = omega arith in
        subst (λ j. IsFilledTree a.s' (record { root = some (a.t'.0); length = l; height = j }) es)
          taller
          (record {
            is = record {
              tree = a.t';
              rooted = refl;
              represented = a.represented;
              ordered = a.ordered;
              same_entries = a.same_entries;
              counted = counted;
            };
            filled = a.filled;
          });
  }

  pub Outcome-Settled :
      (levels : ℕ) (m : BTreeMap) (s : S) (t : Tree K V m.height) (es : List (K × V))
      (run : Option (BTreeMap × S))
      → m.root ≡ some (addr K V m.height t)
      → Outcome store levels m s m.height none t es run
      → Settled m es run
  Outcome-Settled levels m s t es run rooted (inl f) =
      Rooted-Settled m es run (Overflow-Rooted store levels m m.height s t es run f)
  Outcome-Settled levels m s t es run rooted (inr a) = Absorbed-Settled m s t es run rooted a

  -- A leaf that is written takes in its new entries.
  pub leaf-Absorbed :
      (s : S) (m : BTreeMap) (up : Option (NodePtr × ℕ)) (p : NodePtr) (old es : List (K × V))
      (a : LeafAt store s up p old) (n' : Node K V)
      → IsLeaf n' es a.prev a.next
      → SameParent a.n n'
      → IsSorted (map key_of es)
      → 0 < length es
      → Absorbed store m s 0 up (p, old) es (some (m, store.assign p n' s))
  leaf-Absorbed s m up p old es a n' leaf same sorted some_entry = record {
    s' = store.assign p n' s;
    t' = (p, es);
    runs = refl;
    same_addr = refl;
    represented = record {
      n = n';
      prev = a.prev;
      next = a.next;
      live = deref_self store n' a.live;
      leaf = leaf;
      has_parent = HasParent-Same a.n n' up same a.has_parent;
    };
    ordered = sorted;
    filled = some_entry;
    same_entries = refl;
    others = λ q out.
        Stays-same store s (store.assign p n' s) q
          (deref-other store q n' a.live (contains-cons q p [] out).0);
  }
