-- ===== src/Store.antt =====
-- src/store.rs: the arena that holds the nodes of every tree. `SlabArena` is code of another package,
-- so it is a parameter: a record of its operations, with the laws that it documents.
mod Defs
pub mod Vector
pub mod Access
pub use Defs.{Slab}
unfoldable pub use Defs.{
  NodePtr, ptr_eq, Run, pure, and_then, ◌>>=◌, ◌>>◌, lift, assert, as_ref, as_mut, alloc, dealloc,
}
