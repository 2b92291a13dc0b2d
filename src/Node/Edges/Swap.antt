-- ===== src/Node/Edges/Swap.antt =====
-- `swap_edge` of src/node.rs on the keys and the edges of a node.
use btree_forest_arena.Prelude.{
  ℕ, ◌+◌, ◌≡◌, refl, ◌∙◌, true, some, List, arith, set, length-set, get_elem?, lt→ltb,
  lt_length_of_get, ltb,
}
use btree_forest_arena.Slots.Holds.{write-Holds}
use btree_forest_arena.Store.{NodePtr}
use btree_forest_arena.Node.Defs.{Node, internal_data, internal_of, max_keys, swap_edge}
use btree_forest_arena.Node.View.{IsInternal, SameParent}

module _ {K V : Type 0} where
  pub swap_edge-IsInternal :
      {n : Node K V} {ks : List K} {ps : List NodePtr} (idx : ℕ) (k k' : K) (e e' : NodePtr)
      → IsInternal n ks ps
      → get_elem? ks idx ≡ some k'
      → get_elem? ps (idx + 1) ≡ some e'
      → (n' : Node K V) × (swap_edge n idx k e ≡ some (n', k', e'))
        × IsInternal n' (set ks idx k) (set ps (idx + 1) e)
        × SameParent n n'
  unfolding swap_edge internal_of
  swap_edge-IsInternal {n} {ks} {ps} idx k k' e e' a at at' =
      let lt = lt_length_of_get ks idx at in
      let within : ltb idx n.len ≡ true = lt→ltb idx n.len (omega (arith, a.count)) in
      let reach : ltb (idx + 1) (n.len + 1) ≡ true =
        lt→ltb (idx + 1) (n.len + 1) (omega (arith, a.count)) in
      let (kg, k_write, k_holds) = write-Holds max_keys n.keys ks idx k a.has_keys lt a.fits in
      let (eg, e_write, e_holds) =
        write-Holds (max_keys + 1) a.i.edges ps (idx + 1) e a.has_edges
          (lt_length_of_get ps (idx + 1) at') (omega (arith, a.branches, a.fits)) in
      (
        record n { keys = kg; d = internal_data (record a.i { edges = eg }) },
        rw
            (
              within,
              a.has_keys idx lt ∙ at,
              k_write,
              reach,
              a.is_internal,
              a.has_edges (idx + 1) (lt_length_of_get ps (idx + 1) at') ∙ at',
              e_write,
            )
            refl,
        record {
          i = record a.i { edges = eg };
          is_internal = refl;
          count = omega (arith, a.count, length-set ks idx k);
          fits = omega (arith, a.fits, length-set ks idx k);
          branches = omega (arith, a.branches, length-set ks idx k, length-set ps (idx + 1) e);
          has_keys = k_holds;
          has_edges = e_holds;
        },
        record { parent = refl; parent_idx = refl },
      )
