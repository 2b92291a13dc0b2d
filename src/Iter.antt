-- ===== src/Iter.antt =====
-- `Iter`, `IterMut`, `Keys` and `Values` of src/map.rs.
pub mod Order
pub mod Into
pub mod Views
pub mod Equal
use btree_forest_arena.Prelude.{
  ℕ, zero, suc, ◌+◌, ◌-◌, Bool, true, false, Option, none, some, List, [], ◌∷◌, ltb, ◌==◌,
}
use btree_forest_arena.Store.{NodePtr, Slab, Run, pure, and_then, ◌>>=◌, ◌>>◌, lift}
use btree_forest_arena.Node.{Node}
use btree_forest_arena.Map.{BTreeMap, first_leaf, last_leaf}
use btree_forest_arena.Cursor
use btree_forest_arena.Cursor.{Cursor, cursor_at, cursor_at_end, key_value}

pub record Iter : Type 0 where
  pub cursor : Cursor
  pub back_cursor : Cursor
  pub length : ℕ

module _ {S K V : Type 0} (store : Slab S (Node K V)) where
  -- `Iter::new`.
  unfoldable pub iter : BTreeMap → Run S Iter
  unfolding first_leaf last_leaf cursor_at cursor_at_end
  iter m = do
    first ← first_leaf store m
    c ← cursor_at store first 0
    last ← last_leaf store m
    b ← cursor_at_end store last
    pure (record { cursor = c; back_cursor = b; length = m.length })

  unfoldable pub peek : Iter → Run S (Option (K × V))
  unfolding key_value
  peek it = elim (it.length == 0) [ true ↦ pure none | false ↦ key_value store it.cursor ]

  unfoldable pub peek_back : Iter → Run S (Option (K × V))
  unfolding key_value
  peek_back it = elim (it.length == 0) [ true ↦ pure none | false ↦ key_value store it.back_cursor ]

  unfoldable pub advance : Iter → Run S Iter
  unfolding Cursor.advance
  advance it = elim (it.length == 0) [
    | true ↦ lift none
    | false ↦ (do
      c ← Cursor.advance store it.cursor
      pure (record it { cursor = c; length = it.length - 1 }))
  ]

  unfoldable pub advance_back : Iter → Run S Iter
  unfolding Cursor.advance_back
  advance_back it = elim (it.length == 0) [
    | true ↦ lift none
    | false ↦ (do
      c ← Cursor.advance_back store it.back_cursor
      pure (record it { back_cursor = c; length = it.length - 1 }))
  ]

  unfoldable pub next : Iter → Run S (Iter × Option (K × V))
  unfolding peek advance
  next it = do
    kv ← peek it
    elim kv [ none ↦ pure (it, none) | some e ↦ (do it' ← advance it; pure (it', some e)) ]

  unfoldable pub next_back : Iter → Run S (Iter × Option (K × V))
  unfolding peek_back advance_back
  next_back it = do
    kv ← peek_back it
    elim kv [ none ↦ pure (it, none) | some e ↦ (do it' ← advance_back it; pure (it', some e)) ]

  -- A `for` loop over the iterator, on fuel: the entries in the order in which `next` gives them.
  unfoldable pub collect : ℕ → Iter → Run S (List (K × V))
  unfolding next
  collect zero it = lift none
  collect (suc fuel) it = do
    (it', kv) ← next it
    elim kv [ none ↦ pure [] | some e ↦ (do rest ← collect fuel it'; pure (e ∷ rest)) ]

  unfoldable pub collect_back : ℕ → Iter → Run S (List (K × V))
  unfolding next_back
  collect_back zero it = lift none
  collect_back (suc fuel) it = do
    (it', kv) ← next_back it
    elim kv [ none ↦ pure [] | some e ↦ (do rest ← collect_back fuel it'; pure (e ∷ rest)) ]
