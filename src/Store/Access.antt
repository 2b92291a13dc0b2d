-- ===== src/Store/Access.antt =====
-- Reads and writes through live pointers.
use btree_forest_arena.Prelude.{◌≡◌, some}
use btree_forest_arena.Store.Defs.{NodePtr, Slab, as_ref, as_mut, dealloc}

module _ {S N : Type 0} (store : Slab S N) where
  pub as_ref-live :
      {p : NodePtr} {n : N} {s : S} → store.deref p s ≡ some n → as_ref store p s ≡ some (n, s)
  unfolding as_ref
  as_ref-live h = rw h

  pub as_mut-live :
      {p : NodePtr} {m : N} {s : S} (n : N)
      → store.deref p s ≡ some m
      → as_mut store p n s ≡ some (tt, store.assign p n s)
  unfolding as_mut
  as_mut-live n h = rw h

  pub dealloc-live :
      {p : NodePtr} {m : N} {s : S}
      → store.deref p s ≡ some m
      → dealloc store p s ≡ some (tt, store.discard p s)
  unfolding dealloc
  dealloc-live h = rw h
