-- ===== src/Copyable.antt =====
-- src/copyable/: maps and sets that are only read, the walk over the nodes of a tree, and the tracing
-- collector.
pub mod Nodes
pub mod Gc
pub mod Map
pub mod Set
