-- ===== src/Tree.antt =====
-- The tree that the nodes of an arena represent.
pub mod Order
pub mod Repr
pub mod Upsert
pub mod Edit
pub mod Erase
pub mod Descent
pub mod Frame
pub mod Nodes
pub mod Agrees
pub mod Alike
pub mod Cut
pub mod Halves
pub mod Apart
pub mod Hang
pub mod Part
pub mod Share
mod Defs
pub use Defs.{Tree, addr, entries, nodes, lookup}
