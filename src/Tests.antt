-- ===== src/Tests.antt =====
-- Runs of the model on concrete maps, and instances of the theorems.
mod Fixtures
mod Inserts
mod Leaves
mod Maps
mod Removes
mod Runs
mod Walks
mod Sets
mod Splits
mod Nodes
mod Ranges
