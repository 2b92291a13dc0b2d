-- ===== src/Cursor.antt =====
-- src/cursor.rs: a position among the entries of the leaves, moved along the links between the leaves.
pub mod Chain
use btree_forest_arena.Prelude.{
  ℕ, ◌+◌, ◌-◌, Bool, true, false, Option, none, some, ltb, if◌then◌else◌,
}
use btree_forest_arena.Store.{NodePtr, Slab, Run, pure, and_then, ◌>>=◌, ◌>>◌, lift, assert, as_ref}
use btree_forest_arena.Node.{Node, key_val, read_key_val as read_entry, prev, next}

pub record Cursor : Type 0 where
  pub node : Option NodePtr
  pub index : ℕ

unfoldable pub new_detached : Cursor
new_detached = record { node = none; index = 0 }

unfoldable pub is_attached : Cursor → Bool
is_attached c = elim c.node [ none ↦ false | some _ ↦ true ]

unfoldable pub detach : Cursor → Cursor
detach c = record c { node = none }

unfoldable pub address : Cursor → Option (NodePtr × ℕ)
address c = elim c.node [ none ↦ none | some p ↦ some (p, c.index) ]

module _ {S K V : Type 0} (store : Slab S (Node K V)) where
  unfoldable pub validate : Cursor → Run S (Unit {0})
  validate c = elim c.node [
    | none ↦ pure tt
    | some p ↦ (do n ← as_ref store p; assert (ltb c.index n.len))
  ]

  -- `Cursor::new`.
  unfoldable pub cursor_at : Option NodePtr → ℕ → Run S Cursor
  unfolding validate
  cursor_at node index = do
    let c : Cursor = record { node = node; index = index }
    validate c
    pure c

  -- `Cursor::new_at_end`.
  unfoldable pub cursor_at_end : Option NodePtr → Run S Cursor
  unfolding cursor_at
  cursor_at_end none = cursor_at none 0
  cursor_at_end (some p) = do
    n ← as_ref store p
    assert (ltb 0 n.len)
    cursor_at (some p) (n.len - 1)

  unfoldable pub advance : Cursor → Run S Cursor
  unfolding next
  advance c = elim c.node [
    | none ↦ lift none
    | some p ↦ (do
      n ← as_ref store p
      assert (ltb 0 n.len)
      elim (ltb c.index (n.len - 1)) [
        | true ↦ pure (record c { index = c.index + 1 })
        | false ↦ (do after ← lift (next n); pure (record { node = after; index = 0 }))
      ])
  ]

  unfoldable pub advance_back : Cursor → Run S Cursor
  unfolding prev
  advance_back c = elim (ltb 0 c.index) [
    | true ↦ pure (record c { index = c.index - 1 })
    | false ↦ elim c.node [
      | none ↦ lift none
      | some p ↦ (do
        n ← as_ref store p
        before ← lift (prev n)
        elim before [
          | none ↦ pure (record { node = none; index = 0 })
          | some q ↦ (do
            b ← as_ref store q
            assert (ltb 0 b.len)
            pure (record { node = some q; index = b.len - 1 }))
        ])
    ]
  ]

  unfoldable pub key_value : Cursor → Run S (Option (K × V))
  unfolding key_val
  key_value c = elim c.node [
    | none ↦ pure none
    | some p ↦ (do n ← as_ref store p; kv ← lift (key_val n c.index); pure (some kv))
  ]

  unfoldable pub read_key_value : Cursor → Run S (Option (K × V))
  unfolding read_entry
  read_key_value c = elim c.node [
    | none ↦ pure none
    | some p ↦ (do n ← as_ref store p; kv ← lift (read_entry n c.index); pure (some kv))
  ]
