-- ===== src/Lib.antt =====
-- B+ trees whose nodes live in a shared slab arena, and the map over them.
--
-- The program. src/node.rs has the nodes: a leaf holds up to 8 keys and values and links to the
-- leaves beside it, an internal node up to 8 keys and one edge more, and each node knows its parent
-- and its index there. src/map.rs has the map: a root pointer, a length and a height, with lookup,
-- insertion with splits, removal with redistribution and merges, `clear` and `Drop`, iterators and
-- ranges. src/cursor.rs has positions among the leaves, src/store.rs the arena that several maps share.
--
-- The files.
--   Prelude            Boolean tests, lists and options over the native numbers, and the bound `Ord`.
--   Slots              Arrays of `MaybeUninit`: `maybe_uninit_array` of src/utils.rs and the two copying
--                      helpers of src/node.rs. `Holds` says that the first slots have a list.
--   Store              The arena as a record of operations and laws, what runs on it, and a vector that
--                      meets the laws. `ptr_eq` is src/utils/ptr_eq.rs.
--   Node               src/node.rs. Leaf has the operations on leaves, Edges those on internal nodes,
--                      View what a node holds, as a list.
--   Search             The binary search of the standard library that `find` calls, and a scan.
--   Tree               Trees of a height with the addresses of their nodes, their order, and when the
--                      nodes of an arena represent one: `IsMap` is the invariant of a map. Edit has
--                      changes at one key of a list of entries, Frame and Descent what a change of one
--                      leaf makes of the tree. Alike, Apart, Cut and Halves have trees whose nodes change
--                      places, Hang a tree that is hung into a node, Part and Share a node whose
--                      children are shared out between two.
--   Map                src/map.rs: Defs has the struct, `find` and the reads, Insert, Remove, Update and
--                      Drop the operations that change the tree, Validate the checks of `validate`.
--   Cursor, Iter       src/cursor.rs, and the iterators of src/map.rs: those that borrow the map, the views
--                      on keys and values, the equality of maps, and IntoIter, which owns the map.
--   Range              `node_bounds` and the ranges of src/map.rs, with the address helpers of src/node.rs.
--   Set                src/set.rs, and an ordered list of values that it refines.
--   Copyable           src/copyable/: Map and Set are the raw copies, Nodes the walk over the nodes of a
--                      tree, Gc the tracing collector.
--   Tests              Runs of the model, and instances of the theorems.
--
-- The correspondence. A function of the source has its name here. A function that can panic or run
-- into undefined behaviour returns an option: a failed `debug_assert!`, a slice out of bounds, an
-- uninitialised slot, a pointer that is not live and the wrong variant of the union of `NodeData` are
-- `none`. A function on nodes alone maps a node to a new one; one that reaches other nodes takes the
-- arena from state to state. Pointers are numbers, and a pointer to the node being changed is passed
-- beside it where the source compares addresses. `key.clone()` is the key itself. Helpers split the
-- long functions: `insert_up` and `grow_root` are the loop of `insert_before`, `rebalance`, `try_prev`,
-- `try_next` and `merge_sibling` the loop of `post_removal`, `settle` the end of `Range::advance`.
--
-- Bounds and fuel. A length is at most 8 and an index at most 9, so that no `u16` overflows. Loops over
-- levels recurse on the height, or on fuel of one more than the height, one round for each level. The
-- binary search has as much fuel as there are keys, and it is shown to be enough. `collect` has fuel
-- for one round more than there are entries, and it is shown to be enough.
--
-- Not modelled. `print`, `Debug`, `Hash` and the orders on maps are left out: they write or fold what the
-- iterators yield. `IterMut`, `RangeMut` and `ValuesMut` walk as `Iter`, `Range` and `Values` do.
-- `assert_store` compares references to the store, of which the model has one.
-- The removals after which a leaf underflows are modelled and run, and have no theorem yet; nor have
-- the operations on internal nodes, but for `insert_edge` and `split_internal`. The invariant of a map
-- says nothing of the links between the leaves.
pub mod Prelude
pub mod Slots
pub mod Store
pub mod Node
pub mod Search
pub mod Tree
pub mod Map
pub mod Cursor
pub mod Iter
pub mod Range
pub mod Set
pub mod Copyable
pub mod Tests
