-- ===== src/Iter/Views.antt =====
-- `Keys`, `Values`, `range_keys`, `range_values` and the equality of maps of src/map.rs.
use btree_forest_arena.Prelude.{
  ℕ, zero, suc, Bool, true, false, ◌&&◌, Option, none, some, List, [], ◌∷◌,
}
use mathlib.Core.Option
use btree_forest_arena.Store.{Slab, Run, pure, ◌>>=◌, lift}
use btree_forest_arena.Node.{Node}
use btree_forest_arena.Node.View.{key_of, val_of}
use btree_forest_arena.Map.{BTreeMap}
use btree_forest_arena.Iter.{Iter, iter, next, next_back}

pub record Keys : Type 0 where
  pub keys_of : Iter

pub record Values : Type 0 where
  pub values_of : Iter

module _ {S K V : Type 0} (store : Slab S (Node K V)) where
  unfoldable pub keys : BTreeMap → Run S Keys
  unfolding iter
  keys m = do it ← iter store m; pure (record { keys_of = it })

  unfoldable pub values : BTreeMap → Run S Values
  unfolding iter
  values m = do it ← iter store m; pure (record { values_of = it })

  unfoldable pub keys_next : Keys → Run S (Keys × Option K)
  unfolding next
  keys_next ks = do
    (it, kv) ← next store ks.keys_of
    pure (record { keys_of = it }, Option.map key_of kv)

  unfoldable pub keys_next_back : Keys → Run S (Keys × Option K)
  unfolding next_back
  keys_next_back ks = do
    (it, kv) ← next_back store ks.keys_of
    pure (record { keys_of = it }, Option.map key_of kv)

  unfoldable pub values_next : Values → Run S (Values × Option V)
  unfolding next
  values_next vs = do
    (it, kv) ← next store vs.values_of
    pure (record { values_of = it }, Option.map val_of kv)

  unfoldable pub values_next_back : Values → Run S (Values × Option V)
  unfolding next_back
  values_next_back vs = do
    (it, kv) ← next_back store vs.values_of
    pure (record { values_of = it }, Option.map val_of kv)

  -- What `Iterator::eq` does with the two items, and with the iterators behind them.
  unfoldable pub eq_step :
      (K × V → K × V → Bool)
      → (Unit {0} → Run S Bool)
      → Option (K × V)
      → Option (K × V)
      → Run S Bool
  eq_step same rest none none = pure true
  eq_step same rest none (some y) = pure false
  eq_step same rest (some x) none = pure false
  eq_step same rest (some x) (some y) = elim (same x y) [ true ↦ rest tt | false ↦ pure false ]

  -- `Iterator::eq` on two iterators, on fuel; `same` compares two entries.
  unfoldable pub eq_iters : (K × V → K × V → Bool) → ℕ → Iter → Iter → Run S Bool
  unfolding next eq_step
  eq_iters same zero a b = lift none
  eq_iters same (suc fuel) a b = do
    (a', x) ← next store a
    (b', y) ← next store b
    eq_step same (λ _. eq_iters same fuel a' b') x y

  -- `PartialEq::eq` of maps: `same` is the equality of pairs. The second iterator reads the arena of its
  -- own map, which is the same one.
  unfoldable pub eq_maps : (K × V → K × V → Bool) → ℕ → BTreeMap → BTreeMap → Run S Bool
  unfolding iter eq_iters
  eq_maps same fuel m m' = do a ← iter store m; b ← iter store m'; eq_iters same fuel a b

-- Equality of lists, entry by entry.
abbrev pub same_list : {A : Type 0} → (A → A → Bool) → List A → List A → Bool
same_list same [] [] = true
same_list same [] (y ∷ ys) = false
same_list same (x ∷ xs) [] = false
same_list same (x ∷ xs) (y ∷ ys) = same x y && same_list same xs ys
