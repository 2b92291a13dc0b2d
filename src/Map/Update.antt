-- ===== src/Map/Update.antt =====
-- `update_and_return` and `update` of src/map.rs, with a callback that can panic.
use btree_forest_arena.Prelude.{ℕ, Option, none, some}
use btree_forest_arena.Prelude.Order.{Ord}
use btree_forest_arena.Store.{NodePtr, Slab, Run, pure, ◌>>=◌, ◌>>◌, lift, as_ref, as_mut}
use btree_forest_arena.Node.{Node, read_val, write_val}
use btree_forest_arena.Map.Defs.{BTreeMap, no_root, before, found_at, find}
use btree_forest_arena.Map.Insert.{insert_root, insert_before}
use btree_forest_arena.Map.Remove.{remove_at_address}

-- How a callback ends: with a result, or by a panic.
pub data Outcome (A : Type 0) : Type 0 where
  returned : A → Outcome A
  panicked : Outcome A

module _ {S K V R : Type 0} ⦃o : Ord K⦄ (store : Slab S (Node K V)) where
  -- What follows `update(None)`: `add` inserts the value.
  unfoldable pub absent_update :
      BTreeMap → (V → Run S BTreeMap) → Outcome (Option V × R) → Run S (BTreeMap × Outcome R)
  absent_update m add panicked = pure (m, panicked)
  absent_update m add (returned (none, r)) = pure (m, returned r)
  absent_update m add (returned (some v, r)) = do m' ← add v; pure (m', returned r)

  -- What follows `update(Some(val))`, at the address of the entry.
  unfoldable pub present_update :
      BTreeMap → NodePtr → ℕ → Outcome (Option V × R) → Run S (BTreeMap × Outcome R)
  unfolding remove_at_address write_val
  present_update m p idx panicked = do
    (m', _) ← remove_at_address store m p idx
    pure (m', panicked)
  present_update m p idx (returned (none, r)) = do
    (m', _) ← remove_at_address store m p idx
    pure (m', returned r)
  present_update m p idx (returned (some v, r)) = do
    n ← as_ref store p
    n' ← lift (write_val n idx v)
    as_mut store p n'
    pure (m, returned r)

  unfoldable pub update_and_return :
      BTreeMap → K → (Option V → Outcome (Option V × R)) → Run S (BTreeMap × Outcome R)
  unfolding find absent_update present_update insert_root insert_before read_val
  update_and_return m k update = do
    f ← find store m k
    elim f [
      | no_root ↦ absent_update m (insert_root store m k) (update none)
      | before p idx ↦ absent_update m (λ v. insert_before store m k v p idx) (update none)
      | found_at p idx ↦ (do
        n ← as_ref store p
        v ← lift (read_val n idx)
        present_update m p idx (update (some v)))
    ]

module _ {S K V : Type 0} ⦃o : Ord K⦄ (store : Slab S (Node K V)) where
  unfoldable pub update :
      BTreeMap → K → (Option V → Outcome (Option V)) → Run S (BTreeMap × Outcome (Unit {0}))
  unfolding update_and_return
  update m k f =
      update_and_return store m k
        (λ v. elim (f v) [ panicked ↦ panicked | returned w ↦ returned (w, tt) ])
