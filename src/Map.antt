-- ===== src/Map.antt =====
-- src/map.rs: the map, and the operations that only read it.
pub mod Insert
pub mod Remove
pub mod Drop
pub mod Update
pub mod Validate
pub mod Lookup
mod Defs
pub use Defs.{BTreeMap, Find, no_root, before, found_at}
unfoldable pub use Defs.{
  child_index, at_leaf, is_found, new_in, len, is_empty, first_leaf, last_leaf, descend_first,
  descend_last, find_in, find, read_found, contains_key, get, get_key, get_key_value,
  first_key_value, last_key_value,
}
