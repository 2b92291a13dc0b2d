-- ===== src/Tree/Repr.antt =====
-- When the nodes of an arena represent a tree, and a map its entries.
use btree_forest_arena.Prelude.{
  ℕ, zero, suc, ◌≡◌, ◌⊎◌, Option, none, some, List, [], map, length, get_elem?,
}
use btree_forest_arena.Prelude.Order.{Ord}
use btree_forest_arena.Store.{NodePtr, Slab}
use btree_forest_arena.Node.{Node}
use btree_forest_arena.Node.View.{IsLeaf, IsInternal}
use btree_forest_arena.Map.{BTreeMap}
use btree_forest_arena.Tree.Defs.{Tree, addr, entries}
use btree_forest_arena.Tree.Order.{IsOrdered}

-- The parent of a node and its index there, or no parent at the root.
abbrev pub HasParent : {K V : Type 0} → Node K V → Option (NodePtr × ℕ) → Type 0
HasParent n none = n.parent ≡ none
HasParent n (some (p, i)) = (n.parent ≡ some p) × (n.parent_idx ≡ some i)

module _ {S K V : Type 0} (store : Slab S (Node K V)) where
  pub record LeafAt (s : S) (up : Option (NodePtr × ℕ)) (p : NodePtr) (es : List (K × V))
      : Type 0 where
    pub n : Node K V
    pub prev : Option NodePtr
    pub next : Option NodePtr
    pub live : store.deref p s ≡ some n
    pub leaf : IsLeaf n es prev next
    pub has_parent : HasParent n up

  pub record InternalAt (s : S) (up : Option (NodePtr × ℕ)) (p : NodePtr) (ks : List K)
      (ps : List NodePtr) : Type 0 where
    pub n : Node K V
    pub live : store.deref p s ≡ some n
    pub internal : IsInternal n ks ps
    pub has_parent : HasParent n up

  -- The nodes at the addresses of the tree have its keys, entries, edges and parents.
  abbrev pub Repr : (h : ℕ) → S → Option (NodePtr × ℕ) → Tree K V h → Type 0
  Repr zero s up t = LeafAt s up t.0 t.1
  Repr (suc h) s up t =
      InternalAt s up t.0 t.1 (map (addr K V h) t.2)
      × ((i : ℕ) (c : Tree K V h) → get_elem? t.2 i ≡ some c → Repr h s (some (t.0, i)) c)

module _ {S K V : Type 0} ⦃o : Ord K⦄ (store : Slab S (Node K V)) where
  pub record IsTree (s : S) (m : BTreeMap) (es : List (K × V)) : Type 0 where
    pub tree : Tree K V m.height
    pub rooted : m.root ≡ some (addr K V m.height tree)
    pub represented : Repr store m.height s none tree
    pub ordered : IsOrdered K V m.height tree
    pub same_entries : entries K V m.height tree ≡ es
    pub counted : m.length ≡ length es

  -- The map has the entries `es`, in this order.
  abbrev pub IsMap : S → BTreeMap → List (K × V) → Type 0
  IsMap s m es = (m.root ≡ none) × (es ≡ []) × (m.length ≡ 0) × (m.height ≡ 0) ⊎ IsTree s m es
