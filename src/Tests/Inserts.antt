-- ===== src/Tests/Inserts.antt =====
-- The theorems on insertion and on the first entry at the arena of Tests/Fixtures.
use btree_forest_arena.Prelude.{[], ℕ, zero, suc, ◌<◌, ◌≡◌, none, some, arith, subst}
use btree_forest_arena.Prelude.Order.{nat_ord}
use btree_forest_arena.Store.Vector.{vector}
use btree_forest_arena.Node.{Node}
use btree_forest_arena.Map.{BTreeMap, get, new_in, first_key_value}
use btree_forest_arena.Map.Lookup.First.{first_key_value-head}
use btree_forest_arena.Map.Insert.{insert}
use btree_forest_arena.Map.Insert.Fit.{Inserted, insert-upsert, insert-new_in}
use btree_forest_arena.Map.Insert.Get.{insert-get, insert-get_other}
use btree_forest_arena.Tests.Fixtures.{
  all_entries, root_node, low_leaf, high_leaf, arena, two_leaves, two_leaves-IsMap,
}

nodes_have_room : (p : ℕ) (n : Node ℕ ℕ) → vector.deref p arena ≡ some n → n.len < 8
nodes_have_room zero n h =
    let same : root_node ≡ n = cc in subst (λ m. m.len < 8) same (omega arith)
nodes_have_room (suc zero) n h =
    let same : low_leaf ≡ n = cc in subst (λ m. m.len < 8) same (omega arith)
nodes_have_room (suc (suc zero)) n h =
    let same : high_leaf ≡ n = cc in subst (λ m. m.len < 8) same (omega arith)
nodes_have_room (suc (suc (suc p))) n h = absurd cc

insert-upsert_example : Inserted vector arena two_leaves 25 9 all_entries
insert-upsert_example =
    insert-upsert vector arena two_leaves all_entries 25 9 two_leaves-IsMap
      (λ p i n found live. nodes_have_room p n live)

insert-get_example :
    (m' : BTreeMap) × (s' : _) × (insert vector two_leaves 25 9 arena ≡ some ((m', none), s'))
    × (get vector m' 25 s' ≡ some (some 9, s'))
unfolding nat_ord
insert-get_example =
    insert-get vector arena two_leaves all_entries 25 9 two_leaves-IsMap
      (λ p i n found live. nodes_have_room p n live)

insert-get_other_example :
    (m' : BTreeMap) × (s' : _) × (insert vector two_leaves 25 9 arena ≡ some ((m', none), s'))
    × (get vector m' 30 s' ≡ some (some 4, s'))
unfolding nat_ord
insert-get_other_example =
    insert-get_other vector arena two_leaves all_entries 25 9 two_leaves-IsMap
      (λ p i n found live. nodes_have_room p n live) 30 (λ h. cc)

insert-new_in_example : Inserted vector arena new_in 7 70 []
insert-new_in_example = insert-new_in vector arena 7 70

nodes_have_keys : (p : ℕ) (n : Node ℕ ℕ) → vector.deref p arena ≡ some n → 0 < n.len
nodes_have_keys zero n h =
    let same : root_node ≡ n = cc in subst (λ m. 0 < m.len) same (omega arith)
nodes_have_keys (suc zero) n h =
    let same : low_leaf ≡ n = cc in subst (λ m. 0 < m.len) same (omega arith)
nodes_have_keys (suc (suc zero)) n h =
    let same : high_leaf ≡ n = cc in subst (λ m. 0 < m.len) same (omega arith)
nodes_have_keys (suc (suc (suc p))) n h = absurd cc

first_key_value-head_example : first_key_value vector two_leaves arena ≡ some (some (10, 1), arena)
first_key_value-head_example =
    first_key_value-head vector arena two_leaves all_entries two_leaves-IsMap
      (λ p n first live. nodes_have_keys p n live)
