-- ===== src/Map/Insert/Grow.antt =====
-- The loop of `insert_before` on the levels of a tree: what is known when it has come up to a level.
use btree_forest_arena.Prelude.{
  ℕ, zero, suc, ◌+◌, ◌<◌, ◌≡◌, true, false, Option, none, some, List, ◌++◌, arith, length, contains,
  lt→ltb, All,
}
use btree_forest_arena.Prelude.Order.{Ord}
use btree_forest_arena.Store.{NodePtr, Slab}
use btree_forest_arena.Store.Access.{as_ref-live, as_mut-live}
use btree_forest_arena.Node.{Node, max_keys, set_parent, parent}
use btree_forest_arena.Node.Edges.{insert_edge}
use btree_forest_arena.Tree.{Tree, addr, nodes, entries}
use btree_forest_arena.Tree.Order.{IsOrdered}
use btree_forest_arena.Tree.Repr.{Repr}
use btree_forest_arena.Tree.Alike.{Stays}
use btree_forest_arena.Tree.Cut.{Cut}
use btree_forest_arena.Map.Defs.{BTreeMap}
use btree_forest_arena.Map.Insert.{insert_up}

module _ (K V : Type 0) where
  -- Every leaf has an entry.
  abbrev pub IsFilled : (h : ℕ) → Tree K V h → Type 0
  IsFilled zero t = 0 < length t.1
  IsFilled (suc h) t = All (IsFilled h) t.2

module _ {S K V : Type 0} ⦃o : Ord K⦄ (store : Slab S (Node K V)) where
  -- The run is done, and the tree `t` became one with the entries `es`.
  pub record Absorbed (m : BTreeMap) (s : S) (h : ℕ) (up : Option (NodePtr × ℕ)) (t : Tree K V h)
      (es : List (K × V)) (r : Option (BTreeMap × S)) : Type 0 where
    pub s' : S
    pub t' : Tree K V h
    pub runs : r ≡ some (m, s')
    pub same_addr : addr K V h t' ≡ addr K V h t
    pub represented : Repr store h s' up t'
    pub ordered : IsOrdered K V h t'
    pub filled : IsFilled K V h t'
    pub same_entries : entries K V h t' ≡ es
    pub others : (q : NodePtr) → contains (nodes K V h t) q ≡ false → Stays store s s' q

  -- The tree `t` became two, which together have the entries `es`; the run goes on with the second one,
  -- to be hung behind the first. Nodes of the two that the arena had before are nodes of `t`.
  pub record Overflow (levels : ℕ) (m : BTreeMap) (s : S) (h : ℕ) (up : Option (NodePtr × ℕ))
      (t : Tree K V h) (es : List (K × V)) (r : Option (BTreeMap × S)) : Type 0 where
    pub fuel : ℕ
    pub s' : S
    pub t₁ : Tree K V h
    pub t₂ : Tree K V h
    pub k : K
    pub fuel_left : h + suc fuel ≡ suc levels
    pub runs : r ≡ insert_up store (suc fuel) m (addr K V h t₁) (addr K V h t₂) k s'
    pub same_addr : addr K V h t₁ ≡ addr K V h t
    pub apart : addr K V h t₁ ≡ addr K V h t₂ → ⊥
    pub left : Repr store h s' up t₁
    pub right : Repr store h s' none t₂
    pub left_ordered : IsOrdered K V h t₁
    pub right_ordered : IsOrdered K V h t₂
    pub left_filled : IsFilled K V h t₁
    pub right_filled : IsFilled K V h t₂
    pub cut : Cut k (entries K V h t₁) (entries K V h t₂)
    pub joined : entries K V h t₁ ++ entries K V h t₂ ≡ es
    pub others : (q : NodePtr) → contains (nodes K V h t) q ≡ false → Stays store s s' q
    pub left_within :
        (q : NodePtr) (n : Node K V)
        → store.deref q s ≡ some n
        → contains (nodes K V h t₁) q ≡ true
        → contains (nodes K V h t) q ≡ true
    pub right_within :
        (q : NodePtr) (n : Node K V)
        → store.deref q s ≡ some n
        → contains (nodes K V h t₂) q ≡ true
        → contains (nodes K V h t) q ≡ true

  -- One round, if the parent has room.
  pub insert_up-room :
      (fuel : ℕ) (m : BTreeMap) (node right p : NodePtr) (k : K) (idx : ℕ) (s s' : S)
      (n rn pn : Node K V)
      → store.deref node s ≡ some n
      → n.parent ≡ some p
      → n.parent_idx ≡ some idx
      → store.deref right s ≡ some rn
      → store.deref p (store.assign right (set_parent rn p (idx + 1)) s) ≡ some pn
      → pn.len < max_keys
      → insert_edge store p idx true k right (store.assign right (set_parent rn p (idx + 1)) s)
        ≡ some (tt, s')
      → insert_up store (suc fuel) m node right k s ≡ some (m, s')
  unfolding insert_up parent
  insert_up-room fuel m node right p k idx s s' n rn pn live has index live_right live_p room
        inserted =
      rw
        (
          as_ref-live store live,
          has,
          index,
          as_ref-live store live_right,
          as_mut-live store (set_parent rn p (idx + 1)) live_right,
          as_ref-live store live_p,
        )
        (ground (arith, lt→ltb pn.len max_keys room, inserted))
