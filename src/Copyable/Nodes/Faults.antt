-- ===== src/Copyable/Nodes/Faults.antt =====
-- The walk over the nodes of a tree that has more than one.
use btree_forest_arena.Prelude.{
  ℕ, zero, suc, ◌+◌, ◌<◌, ◌≡◌, refl, ap, ◌⊎◌, inl, inr, Option, none, some, List, [], ◌∷◌, arith,
  length, get_elem?, lt→ltb,
}
use Prim.Native.Nat.{compare}
use Prim.Native.Nat.Ordering.{lt}
use btree_forest_arena.Store.{NodePtr, Slab}
use btree_forest_arena.Store.Access.{as_ref-live}
use btree_forest_arena.Node.{Node, edge}
use btree_forest_arena.Map.{BTreeMap}
use btree_forest_arena.Map.Lookup.{edge_of_IsInternal, edge_of_IsLeaf}
use btree_forest_arena.Tree.{Tree}
use btree_forest_arena.Tree.Repr.{LeafAt, InternalAt, Repr}
use btree_forest_arena.Copyable.Nodes.{
  NodeIter, nodes, node_iter, next, next_ancestor, advance_from, collect,
}

module _ (K V : Type 0) where
  -- Down the first edges, each internal node has a key.
  abbrev pub IsFilled : (h : ℕ) → Tree K V h → Type 0
  IsFilled zero t = Unit
  IsFilled (suc h) t =
      (0 < length t.1) × ((c : Tree K V h) → get_elem? t.2 0 ≡ some c → IsFilled h c)

compare-lt : (a b : ℕ) → a < b → compare a b ≡ lt
compare-lt a b h = ground arith

module _ {S K V : Type 0} (store : Slab S (Node K V)) where
  -- The index of a node that no node has beside it as an earlier child, or that has no parent.
  abbrev pub IsFirst : Node K V → Type 0
  IsFirst n = (n.parent_idx ≡ none) ⊎ (n.parent_idx ≡ some 0)

  abbrev walk : ℕ → NodePtr → ℕ → NodeIter
  walk max p h = record { current = some p; current_height = h; max_height = max }

  collect-fault :
      (s : S) (it : NodeIter) (fuel : ℕ) → next store it s ≡ none → collect store fuel it s ≡ none
  unfolding collect
  collect-fault s it zero h = refl
  collect-fault s it (suc fuel) h = rw h

  collect-later :
      (s : S) (it it' : NodeIter) (p : NodePtr) (fuel : ℕ)
      → next store it s ≡ some ((it', some p), s)
      → ((fuel : ℕ) → collect store fuel it' s ≡ none)
      → collect store fuel it s ≡ none
  unfolding collect
  collect-later s it it' p zero h later = refl
  collect-later s it it' p (suc fuel) h later = rw (h, later fuel)

  next_down :
      {s : S} {up : Option (NodePtr × ℕ)} {p q : NodePtr} {ks : List K} {ps : List NodePtr}
      (max h : ℕ)
      → InternalAt store s up p ks (q ∷ ps)
      → next store (walk max p (suc h)) s ≡ some ((walk max q h, some p), s)
  unfolding next advance_from
  next_down {q = q} max h a =
      rw
        (
          advance_from,
          lt→ltb 0 (suc h) (omega arith),
          as_ref-live store a.live,
          edge_of_IsInternal 0 q a.internal refl (omega arith),
        )
        (ap (λ k. some ((walk max q k, some _), _)) (omega arith))

  -- A leaf that the iterator takes for an internal node.
  next_in_leaf :
      {s : S} {up : Option (NodePtr × ℕ)} {p : NodePtr} {es : List (K × V)} (max h : ℕ)
      → LeafAt store s up p es
      → next store (walk max p (suc h)) s ≡ none
  unfolding next advance_from
  next_in_leaf max h a = rw (
    advance_from,
    lt→ltb 0 (suc h) (omega arith),
    as_ref-live store a.live,
    edge_of_IsLeaf 0 a.leaf,
  )

  -- The step from the first leaf below `q`: the index of `q` itself is read.
  no_index_step :
      {s : S} {p q : NodePtr} {n up : Node K V} (max fuel : ℕ)
      → 0 < max
      → store.deref p s ≡ some n
      → n.parent ≡ some q
      → store.deref q s ≡ some up
      → up.parent_idx ≡ none
      → next_ancestor store (suc fuel) max p 0 s ≡ none
  unfolding next_ancestor
  no_index_step max fuel high live has above fails = rw (
    next_ancestor,
    compare-lt 0 max high,
    as_ref-live store live,
    has,
    as_ref-live store above,
    fails,
  )

  first_index_step :
      {s : S} {p q c : NodePtr} {n up : Node K V} (max fuel : ℕ)
      → 0 < max
      → store.deref p s ≡ some n
      → n.parent ≡ some q
      → store.deref q s ≡ some up
      → up.parent_idx ≡ some 0
      → 0 < up.len
      → edge up 1 ≡ some c
      → next_ancestor store (suc fuel) max p 0 s ≡ some ((some c, 1), s)
  unfolding next_ancestor
  first_index_step {up = up} max fuel high live has above index filled second =
      rw
        (
          next_ancestor,
          compare-lt 0 max high,
          as_ref-live store live,
          has,
          as_ref-live store above,
          index,
        )
        (ground (arith, filled, second))

  next_up_fault :
      {s : S} {p q : NodePtr} {n up : Node K V} (max : ℕ)
      → 0 < max
      → store.deref p s ≡ some n
      → n.parent ≡ some q
      → store.deref q s ≡ some up
      → up.parent_idx ≡ none
      → next store (walk max p 0) s ≡ none
  unfolding next advance_from
  next_up_fault {up = up} max high live has above fails =
      let e : max + 1 ≡ suc max = omega arith in
      rw (e, no_index_step max max high live has above fails)

  next_up :
      {s : S} {p q c : NodePtr} {n up : Node K V} (max : ℕ)
      → 0 < max
      → store.deref p s ≡ some n
      → n.parent ≡ some q
      → store.deref q s ≡ some up
      → up.parent_idx ≡ some 0
      → 0 < up.len
      → edge up 1 ≡ some c
      → next store (walk max p 0) s ≡ some ((walk max c 1, some p), s)
  unfolding next advance_from
  next_up {up = up} max high live has above index filled second =
      let e : max + 1 ≡ suc max = omega arith in
      rw (e, first_index_step max max high live has above index filled second)

  -- From the node above the first leaf.
  above_first_leaf :
      (s : S) (up : Option (NodePtr × ℕ)) (t : Tree K V 1) (max : ℕ) (r : Repr store 1 s up t)
      → IsFilled K V 1 t
      → IsFirst r.0.n
      → 0 < max
      → (fuel : ℕ) → collect store fuel (walk max t.0 1) s ≡ none
  above_first_leaf s up (p, ks, []) max r filled first high fuel =
      absurd (omega (arith, r.0.internal.branches))
  above_first_leaf s up (p, ks, c ∷ []) max r filled first high fuel =
      absurd (omega (arith, r.0.internal.branches, filled.0))
  above_first_leaf s up (p, ks, c ∷ d ∷ cs) max r filled first high fuel =
      let a = r.1 0 c refl in
      let b = r.1 1 d refl in
      collect-later s (walk max p 1) (walk max c.0 0) p fuel (next_down max 0 r.0) (elim first [
        | inl no_index ↦ λ f.
            collect-fault s (walk max c.0 0) f
              (next_up_fault max high a.live a.has_parent.0 r.0.live no_index)
        | inr index ↦ λ f.
            collect-later s (walk max c.0 0) (walk max d.0 1) c.0 f
              (next_up max high a.live a.has_parent.0 r.0.live index
                (omega (arith, r.0.internal.count, filled.0))
                (edge_of_IsInternal 1 d.0 r.0.internal refl (omega arith)))
              (λ g. collect-fault s (walk max d.0 1) g (next_in_leaf max 0 b))
      ])

  down_first_edges :
      (h : ℕ) (s : S) (up : Option (NodePtr × ℕ)) (t : Tree K V (suc h)) (max : ℕ)
      (r : Repr store (suc h) s up t)
      → IsFilled K V (suc h) t
      → IsFirst r.0.n
      → 0 < max
      → (fuel : ℕ) → collect store fuel (walk max t.0 (suc h)) s ≡ none
  down_first_edges zero s up t max r filled first high fuel =
      above_first_leaf s up t max r filled first high fuel
  down_first_edges (suc h) s up (p, ks, []) max r filled first high fuel =
      absurd (omega (arith, r.0.internal.branches))
  down_first_edges (suc h) s up (p, ks, c ∷ cs) max r filled first high fuel =
      let below = r.1 0 c refl in
      collect-later s (walk max p (suc (suc h))) (walk max c.0 (suc h)) p fuel
        (next_down max (suc h) r.0)
        (down_first_edges h s (some (p, 0)) c max below (filled.1 c refl) (inr below.0.has_parent.1)
          high)

  -- Collecting the nodes of a map that has more than one node never succeeds, if down the first edges
  -- each internal node has a key and the root has no index or the index 0: behind the first leaf the
  -- iterator reads the index of the node above it, and takes another leaf for an internal node.
  pub collect-nodes :
      (s : S) (m : BTreeMap) (h : ℕ) (t : Tree K V (suc h)) (r : Repr store (suc h) s none t)
      → m.height ≡ suc h
      → m.root ≡ some (t.0)
      → IsFilled K V (suc h) t
      → IsFirst r.0.n
      → (fuel : ℕ) → collect store fuel (nodes m) s ≡ none
  unfolding nodes node_iter
  collect-nodes s m h t r high rooted filled first fuel =
      rw (high, rooted) (down_first_edges h s none t (suc h) r filled first (omega arith) fuel)
