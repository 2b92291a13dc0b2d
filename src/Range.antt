-- ===== src/Range.antt =====
-- `node_bounds`, `Range` and `RangeMut` of src/map.rs, with the address helpers of src/node.rs.
pub mod Ends
mod Defs
pub use Defs.{NodeBounds, Range}
unfoldable pub use Defs.{
  normalize_address, address_before, address_after, start_address, end_address, address_eq,
  node_bounds, range_of, range, peek, peek_back, advance, advance_back, next, next_back, collect,
}
