-- ===== src/Node.antt =====
-- src/node.rs: the nodes, in which the leaf and the internal variant of the union are told apart, and
-- reading the wrong variant is a fault, as is a failed `debug_assert!`.
mod Defs
pub mod Leaf
pub mod Edges
pub mod View
pub use Defs.{LeafData, InternalData, NodeData, leaf_data, internal_data, Node}
unfoldable pub use Defs.{
  max_keys, leaf_node, internal_node, leaf_of, internal_of, parent, parent_idx, set_parent,
  clear_parent, prev, set_prev, next, set_next, key, key_mut, val, val_mut, read_val, write_val,
  key_val, read_key_val, edge, edge_mut, keys, vals, edges, first_key_value, last_key_value,
  replace_key, replace_val, swap_entry, swap_edge,
}
