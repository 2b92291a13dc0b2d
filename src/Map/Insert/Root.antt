-- ===== src/Map/Insert/Root.antt =====
-- `insert` into a map without a root.
use btree_forest_arena.Prelude.{
  ◌+◌, ◌≡◌, refl, inl, inr, Option, none, some, [], ◌∷◌, arith, ==_refl, ◌∙◌, ◌⊎◌, true, false,
  Bool-cases, ==→≡, subst, sym, ◌==◌, if◌then◌else◌,
}
use btree_forest_arena.Prelude.Order.{Ord}
use btree_forest_arena.Store.{NodePtr, Slab, alloc}
use btree_forest_arena.Slots.{maybe_uninit_array}
use btree_forest_arena.Node.{Node, leaf_node}
use btree_forest_arena.Node.View.{IsLeaf}
use btree_forest_arena.Node.Leaf.Contents.{insert_val-IsLeaf}
use btree_forest_arena.Map.{BTreeMap, find}
use btree_forest_arena.Map.Insert.{insert, insert_root}

module _ {K V : Type 0} where
  leaf_node-IsLeaf : IsLeaf (leaf_node {K = K} {V = V}) [] none none
  unfolding leaf_node maybe_uninit_array
  leaf_node-IsLeaf = record {
    l = record { vals = maybe_uninit_array; prev = none; next = none };
    is_leaf = refl;
    count = refl;
    fits = omega arith;
    has_keys = λ i lt. absurd (omega arith);
    has_vals = λ i lt. absurd (omega arith);
    before = refl;
    after = refl;
  }

blank : (K V : Type 0) → (leaf_node {K = K} {V = V}).parent ≡ none
unfolding leaf_node
blank K V = refl

module _ {S K V : Type 0} ⦃o : Ord K⦄ (store : Slab S (Node K V)) where
  -- What `insert` does to a map without a root.
  pub record Rooted (s : S) (m : BTreeMap) (k : K) (v : V) (r : Option ((BTreeMap × Option V) × S))
      : Type 0 where
    pub p : NodePtr
    pub s' : S
    pub n : Node K V
    pub runs : r ≡ some ((record m { root = some p; length = m.length + 1 }, none), s')
    pub live : store.deref p s' ≡ some n
    pub leaf : IsLeaf n ((k, v) ∷ []) none none
    pub no_parent : n.parent ≡ none
    pub kept :
        (q : NodePtr) (other : Node K V)
        → store.deref q s ≡ some other
        → store.deref q s' ≡ some other

  pub insert-Rooted :
      (s : S) (m : BTreeMap) (k : K) (v : V)
      → m.root ≡ none
      → m.length ≡ 0
      → Rooted s m k v (insert store m k v s)
  unfolding insert find insert_root alloc
  insert-Rooted s m k v no_root empty =
      let (n, inserted, leaf, same) =
        insert_val-IsLeaf (leaf_node-IsLeaf {K = K} {V = V}) 0 k v (omega arith) (omega arith) in
      record {
        p = (store.alloc n s).0;
        s' = (store.alloc n s).1;
        n = n;
        runs = ground (arith, no_root, empty, inserted);
        live = rw (store.deref-alloc (store.alloc n s).0 n s, ==_refl (store.alloc n s).0) refl;
        leaf = leaf;
        no_parent = same.parent ∙ blank K V;
        kept = λ q other live.
            store.deref-alloc q n s
            ∙ older n (store.alloc n s).0 q other live (Bool-cases (q == (store.alloc n s).0))
                (store.alloc_fresh n s);
      }
    where
      older :
          (n : Node K V) (fresh q : NodePtr) (other : Node K V)
          → store.deref q s ≡ some other
          → (q == fresh ≡ true) ⊎ (q == fresh ≡ false)
          → store.deref fresh s ≡ none
          → (if q == fresh then some n else store.deref q s) ≡ some other
      older n fresh q other live (inl same) free =
          absurd (cc (subst (λ x. store.deref x s ≡ none) (sym (==→≡ q fresh same)) free, live))
      older n fresh q other live (inr differs) free = rw differs live
