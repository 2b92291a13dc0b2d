-- ===== src/Node/View.antt =====
-- What a node holds: a leaf as the list of its entries, an internal node as its keys and edges.
use btree_forest_arena.Prelude.{◌+◌, ◌≤◌, ◌≡◌, Option, List, map, length}
use btree_forest_arena.Slots.Holds.{Holds}
use btree_forest_arena.Store.{NodePtr}
use btree_forest_arena.Node.Defs.{Node, LeafData, InternalData, leaf_data, internal_data, max_keys}

module _ {K V : Type 0} where
  abbrev pub key_of : K × V → K
  key_of e = e.0

  abbrev pub val_of : K × V → V
  val_of e = e.1

  pub record IsLeaf (n : Node K V) (es : List (K × V)) (prev next : Option NodePtr) : Type 0 where
    pub l : LeafData V
    pub is_leaf : n.d ≡ leaf_data l
    pub count : n.len ≡ length es
    pub fits : length es ≤ max_keys
    pub has_keys : Holds n.keys (map key_of es)
    pub has_vals : Holds l.vals (map val_of es)
    pub before : l.prev ≡ prev
    pub after : l.next ≡ next

  pub record IsInternal (n : Node K V) (ks : List K) (ps : List NodePtr) : Type 0 where
    pub i : InternalData
    pub is_internal : n.d ≡ internal_data i
    pub count : n.len ≡ length ks
    pub fits : length ks ≤ max_keys
    pub branches : length ps ≡ length ks + 1
    pub has_keys : Holds n.keys ks
    pub has_edges : Holds i.edges ps

  -- The second node has the parent of the first.
  pub record SameParent (n n' : Node K V) : Type 0 where
    pub parent : n'.parent ≡ n.parent
    pub parent_idx : n'.parent_idx ≡ n.parent_idx
