-- ===== src/Tree/Defs.antt =====
-- Trees of a given height, with the address of each node; a leaf has height 0.
use Prim.Native.Nat.Ordering.{eq}
use btree_forest_arena.Prelude.{ℕ, zero, suc, Option, none, some, List, [], ◌∷◌, map, concat}
use btree_forest_arena.Prelude.Order.{Ord}
use btree_forest_arena.Store.{NodePtr}

-- An internal node has its keys and its children.
abbrev pub Tree : Type 0 → Type 0 → ℕ → Type 0
Tree K V zero = NodePtr × List (K × V)
Tree K V (suc h) = NodePtr × List K × List (Tree K V h)

module _ (K V : Type 0) where
  abbrev pub addr : (h : ℕ) → Tree K V h → NodePtr
  addr zero t = t.0
  addr (suc h) t = t.0

  -- The entries of the leaves, from left to right.
  abbrev pub entries : (h : ℕ) → Tree K V h → List (K × V)
  entries zero t = t.1
  entries (suc h) t = concat (map (entries h) t.2)

  -- The addresses of the nodes, a node before its children.
  abbrev pub nodes : (h : ℕ) → Tree K V h → List NodePtr
  nodes zero t = t.0 ∷ []
  nodes (suc h) t = t.0 ∷ concat (map (nodes h) t.2)

-- The first entry with a key that compares equal.
abbrev pub lookup : {K V : Type 0} ⦃o : Ord K⦄ → List (K × V) → K → Option (K × V)
lookup [] k = none
lookup ⦃o⦄ (e ∷ es) k = elim (o.cmp e.0 k) [ eq ↦ some e | _ ↦ lookup ⦃o = o⦄ es k ]
