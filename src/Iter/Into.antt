-- ===== src/Iter/Into.antt =====
-- `IntoIter` of src/map.rs: it owns the entries, and gives back the nodes that it is done with.
pub mod Ends
use btree_forest_arena.Prelude.{
  ℕ, zero, suc, ◌+◌, ◌-◌, Bool, true, false, Option, none, some, List, [], ◌∷◌, ◌==◌, expect,
}
use btree_forest_arena.Store.{NodePtr, Slab, Run, pure, ◌>>=◌, ◌>>◌, lift}
use btree_forest_arena.Node.{Node}
use btree_forest_arena.Map.{BTreeMap, first_leaf, last_leaf}
use btree_forest_arena.Map.Drop.{dealloc_up_firsts, dealloc_up_lasts}
use btree_forest_arena.Cursor
use btree_forest_arena.Cursor.{Cursor, cursor_at, cursor_at_end, address, read_key_value}

-- The height of the tree is kept beside the fields, as the fuel of the walk up to the root.
pub record IntoIter : Type 0 where
  pub cursor : Cursor
  pub back_cursor : Cursor
  pub length : ℕ
  pub levels : ℕ

module _ {S K V : Type 0} (store : Slab S (Node K V)) where
  -- `IntoIter::new`; the map is forgotten and not dropped.
  unfoldable pub into_iter : BTreeMap → Run S IntoIter
  unfolding first_leaf last_leaf cursor_at cursor_at_end
  into_iter m = do
    first ← first_leaf store m
    c ← cursor_at store first 0
    last ← last_leaf store m
    d ← cursor_at_end store last
    pure (record { cursor = c; back_cursor = d; length = m.length; levels = m.height + 1 })

  unfoldable pub next : IntoIter → Run S (IntoIter × Option (K × V))
  unfolding read_key_value address Cursor.advance dealloc_up_lasts
  next it = elim (it.length == 0) [
    | true ↦ pure (it, none)
    | false ↦ (do
      read ← read_key_value store it.cursor
      kv ← lift (expect read)
      (p, idx) ← lift (expect (address it.cursor))
      c ← Cursor.advance store it.cursor
      dealloc_up_lasts store it.levels p idx
      pure (record it { cursor = c; length = it.length - 1 }, some kv))
  ]

  unfoldable pub next_back : IntoIter → Run S (IntoIter × Option (K × V))
  unfolding read_key_value address Cursor.advance_back dealloc_up_firsts
  next_back it = elim (it.length == 0) [
    | true ↦ pure (it, none)
    | false ↦ (do
      read ← read_key_value store it.back_cursor
      kv ← lift (expect read)
      (p, idx) ← lift (expect (address it.back_cursor))
      c ← Cursor.advance_back store it.back_cursor
      dealloc_up_firsts store it.levels p idx
      pure (record it { back_cursor = c; length = it.length - 1 }, some kv))
  ]

  -- `size_hint` and `len`.
  unfoldable pub remaining : IntoIter → ℕ
  remaining it = it.length

  -- A `for` loop over the map, on fuel.
  unfoldable pub collect : ℕ → IntoIter → Run S (List (K × V))
  unfolding next
  collect zero it = lift none
  collect (suc fuel) it = do
    (it', kv) ← next it
    elim kv [ none ↦ pure [] | some e ↦ (do rest ← collect fuel it'; pure (e ∷ rest)) ]
