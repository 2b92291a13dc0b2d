-- ===== src/Range/Defs.antt =====
-- The bounds of a range of keys, and the iterator over it.
use Prim.Native.Nat.{compare}
use Prim.Native.Nat.Ordering.{lt, eq, gt}
use btree_forest_arena.Prelude.{
  ℕ, zero, suc, ◌+◌, ◌-◌, Bool, true, false, ◌&&◌, ◌||◌, Option, none, some, List, [], ◌∷◌, ltb,
  ◌==◌, if◌then◌else◌,
}
use btree_forest_arena.Prelude.Order.{Ord}
use btree_forest_arena.Slots.{Bound, included, excluded, unbounded, RangeBounds}
use btree_forest_arena.Store.{NodePtr, ptr_eq, Slab, Run, pure, ◌>>=◌, ◌>>◌, lift, assert, as_ref}
use btree_forest_arena.Node.{Node, prev as prev_leaf, next as next_leaf}
use btree_forest_arena.Map.{BTreeMap, no_root, before, found_at, find, first_leaf, last_leaf}
use btree_forest_arena.Cursor
use btree_forest_arena.Cursor.{
  Cursor, new_detached, cursor_at, is_attached, detach, address, key_value,
}

pub record NodeBounds : Type 0 where
  pub start_node : NodePtr
  pub end_node : NodePtr
  pub start_index : ℕ
  pub end_index : ℕ

-- `bounds` is not initialised if the range is empty.
pub record Range : Type 0 where
  pub cursor : Cursor
  pub back_cursor : Cursor
  pub bounds : Option NodeBounds

unfoldable pub start_address : NodeBounds → NodePtr × ℕ
start_address b = (b.start_node, b.start_index)

unfoldable pub end_address : NodeBounds → NodePtr × ℕ
end_address b = (b.end_node, b.end_index)

-- `PtrEq` at an optional address.
unfoldable pub address_eq : Option (NodePtr × ℕ) → Option (NodePtr × ℕ) → Bool
address_eq none none = true
address_eq none (some b) = false
address_eq (some a) none = false
address_eq (some (p, i)) (some (q, j)) = p == q && i == j

module _ {S K V : Type 0} (store : Slab S (Node K V)) where
  unfoldable pub normalize_address : NodePtr → ℕ → Run S (Option (NodePtr × ℕ))
  unfolding next_leaf
  normalize_address p idx = do
    n ← as_ref store p
    elim (ltb idx n.len) [
      | true ↦ pure (some (p, idx))
      | false ↦ (do
        assert (idx == n.len)
        after ← lift (next_leaf n)
        elim after [ none ↦ pure none | some q ↦ pure (some (q, 0)) ])
    ]

  unfoldable pub address_before : NodePtr → ℕ → Run S (Option (NodePtr × ℕ))
  unfolding prev_leaf
  address_before p idx = do
    n ← as_ref store p
    elim (ltb 0 idx) [
      | true ↦ pure (some (p, idx - 1))
      | false ↦ (do
        ahead ← lift (prev_leaf n)
        elim ahead [
          | none ↦ pure none
          | some q ↦ (do b ← as_ref store q; assert (ltb 0 b.len); pure (some (q, b.len - 1)))
        ])
    ]

  unfoldable pub address_after : NodePtr → ℕ → Run S (Option (NodePtr × ℕ))
  unfolding next_leaf
  address_after p idx = do
    n ← as_ref store p
    assert (ltb 0 n.len)
    elim (compare idx (n.len - 1)) [
      | lt ↦ pure (some (p, idx + 1))
      | eq ↦ (do
        after ← lift (next_leaf n)
        elim after [ none ↦ pure none | some q ↦ pure (some (q, 0)) ])
      | gt ↦ (do
        assert (idx == n.len)
        after ← lift (next_leaf n)
        elim after [ none ↦ pure none | some q ↦ pure (some (q, 1)) ])
    ]

  -- The check that the start does not stand just behind the end.
  unfoldable pub checked_bounds :
      Option (NodePtr × ℕ) → Option (NodePtr × ℕ) → Run S (Option NodeBounds)
  unfolding prev_leaf ptr_eq
  checked_bounds none end' = pure none
  checked_bounds (some start) none = pure none
  checked_bounds (some (p, i)) (some (q, j)) = do
    n ← as_ref store p
    ahead ← (if i == 0 then lift (prev_leaf n) else pure none)
    elim (p == q && i == j + 1 || i == 0 && ptr_eq ahead (some q)) [
      | true ↦ pure none
      | false ↦
          pure (some (record { start_node = p; end_node = q; start_index = i; end_index = j }))
    ]

module _ {S K V : Type 0} ⦃o : Ord K⦄ (store : Slab S (Node K V)) where
  unfoldable pub start_of_range : BTreeMap → Bound K → Run S (Option (NodePtr × ℕ))
  unfolding find normalize_address address_after first_leaf
  start_of_range m (included k) = do
    f ← find store m k
    elim f [
      | no_root ↦ pure none
      | before p idx ↦ normalize_address store p idx
      | found_at p idx ↦ pure (some (p, idx))
    ]
  start_of_range m (excluded k) = do
    f ← find store m k
    elim f [
      | no_root ↦ pure none
      | before p idx ↦ normalize_address store p idx
      | found_at p idx ↦ address_after store p idx
    ]
  start_of_range m unbounded = do
    leaf ← first_leaf store m
    elim leaf [ none ↦ pure none | some p ↦ pure (some (p, 0)) ]

  unfoldable pub end_of_range : BTreeMap → Bound K → Run S (Option (NodePtr × ℕ))
  unfolding find address_before last_leaf
  end_of_range m (included k) = do
    f ← find store m k
    elim f [
      | no_root ↦ pure none
      | before p idx ↦ address_before store p idx
      | found_at p idx ↦ pure (some (p, idx))
    ]
  end_of_range m (excluded k) = do
    f ← find store m k
    elim f [
      | no_root ↦ pure none
      | before p idx ↦ address_before store p idx
      | found_at p idx ↦ address_before store p idx
    ]
  end_of_range m unbounded = do
    leaf ← last_leaf store m
    elim leaf [
      | none ↦ pure none
      | some p ↦ (do n ← as_ref store p; assert (ltb 0 n.len); pure (some (p, n.len - 1)))
    ]

  -- Without a start the end is not looked for.
  unfoldable pub node_bounds : BTreeMap → RangeBounds K → Run S (Option NodeBounds)
  unfolding start_of_range end_of_range checked_bounds
  node_bounds m bounds = do
    start ← start_of_range m bounds.start_bound
    elim start [
      | none ↦ pure none
      | some a ↦ (do end' ← end_of_range m bounds.end_bound; checked_bounds store (some a) end')
    ]

module _ {S K V : Type 0} (store : Slab S (Node K V)) where
  -- `Range::new`, from the bounds on.
  unfoldable pub range_of : Option NodeBounds → Run S Range
  unfolding new_detached cursor_at
  range_of none = pure (record { cursor = new_detached; back_cursor = new_detached; bounds = none })
  range_of (some b) = do
    c ← cursor_at store (some b.start_node) b.start_index
    d ← cursor_at store (some b.end_node) b.end_index
    pure (record { cursor = c; back_cursor = d; bounds = some b })

  unfoldable pub peek : Range → Run S (Option (K × V))
  unfolding key_value
  peek r = key_value store r.cursor

  unfoldable pub peek_back : Range → Run S (Option (K × V))
  unfolding key_value
  peek_back r = key_value store r.back_cursor

  -- What `advance` does once the cursor has moved to `c`; `bounds` is read only if it is attached.
  unfoldable pub settle : Range → Cursor → Run S Range
  unfolding is_attached detach address address_eq end_address
  settle r c = elim (is_attached c) [
    | false ↦ pure (record r { cursor = c; back_cursor = detach r.back_cursor })
    | true ↦ (do
      b ← lift r.bounds
      elim (address_eq (address c) (some (end_address b))) [
        | true ↦ pure (record r { cursor = detach c; back_cursor = detach r.back_cursor })
        | false ↦ pure (record r { cursor = c })
      ])
  ]

  unfoldable pub advance : Range → Run S Range
  unfolding Cursor.advance settle
  advance r = do c ← Cursor.advance store r.cursor; settle r c

  unfoldable pub settle_back : Range → Cursor → Run S Range
  unfolding is_attached detach address address_eq start_address
  settle_back r c = elim (is_attached c) [
    | false ↦ pure (record r { back_cursor = c; cursor = detach r.cursor })
    | true ↦ (do
      b ← lift r.bounds
      elim (address_eq (address c) (some (start_address b))) [
        | true ↦ pure (record r { cursor = detach r.cursor; back_cursor = detach c })
        | false ↦ pure (record r { back_cursor = c })
      ])
  ]

  unfoldable pub advance_back : Range → Run S Range
  unfolding Cursor.advance_back settle_back
  advance_back r = do c ← Cursor.advance_back store r.back_cursor; settle_back r c

  unfoldable pub next : Range → Run S (Range × Option (K × V))
  unfolding peek advance
  next r = do
    kv ← peek r
    elim kv [ none ↦ pure (r, none) | some e ↦ (do r' ← advance r; pure (r', some e)) ]

  unfoldable pub next_back : Range → Run S (Range × Option (K × V))
  unfolding peek_back advance_back
  next_back r = do
    kv ← peek_back r
    elim kv [ none ↦ pure (r, none) | some e ↦ (do r' ← advance_back r; pure (r', some e)) ]

  -- A `for` loop over the range, on fuel.
  unfoldable pub collect : ℕ → Range → Run S (List (K × V))
  unfolding next
  collect zero r = lift none
  collect (suc fuel) r = do
    (r', kv) ← next r
    elim kv [ none ↦ pure [] | some e ↦ (do rest ← collect fuel r'; pure (e ∷ rest)) ]

module _ {S K V : Type 0} ⦃o : Ord K⦄ (store : Slab S (Node K V)) where
  -- `Range::new`.
  unfoldable pub range : BTreeMap → RangeBounds K → Run S Range
  unfolding node_bounds range_of
  range m bounds = do b ← node_bounds store m bounds; range_of store b
