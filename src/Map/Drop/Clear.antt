-- ===== src/Map/Drop/Clear.antt =====
-- What `clear` leaves behind.
use btree_forest_arena.Prelude.{ℕ, suc, ◌+◌, ◌≡◌, refl, ◌∙◌, Option, none, some, List, map}
use btree_forest_arena.Prelude.Order.{Ord}
use btree_forest_arena.Store.{NodePtr, Slab, and_then, ◌>>=◌, lift}
use btree_forest_arena.Store.Access.{as_ref-live}
use btree_forest_arena.Search.{Found, binary_search_by}
use btree_forest_arena.Node.{Node, edge}
use btree_forest_arena.Node.View.{IsLeaf, key_of}
use btree_forest_arena.Map.{BTreeMap, Find, child_index, find_in, find, get}
use btree_forest_arena.Map.Lookup.{keys_of_IsLeaf, edge_of_IsLeaf}
use btree_forest_arena.Map.Insert.{insert}
use btree_forest_arena.Map.Insert.Root.{insert-Rooted}
use btree_forest_arena.Map.Drop.{clear, drop_root}

module _ {S K V : Type 0} ⦃o : Ord K⦄ (store : Slab S (Node K V)) where
  clear-keeps_height :
      (s s' : S) (m m' : BTreeMap)
      → clear store m s ≡ some (m', s')
      → (m'.root ≡ none) × (m'.length ≡ 0) × (m'.height ≡ m.height)
  unfolding clear
  clear-keeps_height s s' m m' h = after (drop_root store m s) h
    where
      after :
          (r : Option ((List K × List V) × S))
          → and_then r (λ _ t. some (record m { root = none; length = 0 }, t)) ≡ some (m', s')
          → (m'.root ≡ none) × (m'.length ≡ 0) × (m'.height ≡ m.height)
      after none h = cc
      after (some r) h = (cc, cc, cc)

  find_in_leaf :
      {s : S} {p : NodePtr} {n : Node K V} {es : List (K × V)} {a b : Option NodePtr} (h : ℕ)
      (k : K)
      → store.deref p s ≡ some n
      → IsLeaf n es a b
      → find_in store (suc h) p k s ≡ none
  unfolding find_in
  find_in_leaf {s} {p} {n} {es} h k live leaf =
      rw (as_ref-live store live, keys_of_IsLeaf leaf)
        (stuck (binary_search_by (λ x. o.cmp x k) (map key_of es)))
    where
      stuck :
          (r : Option Found)
          → and_then {B = Find}
              (lift r s)
              (λ r. lift (edge n (child_index r)) >>= λ child. find_in store h child k)
            ≡ none
      stuck none = refl
      stuck (some r) = rw (edge_of_IsLeaf (child_index r) leaf)

  get_in_leaf :
      (m : BTreeMap) (k : K) {s : S} {p : NodePtr} {n : Node K V} {es : List (K × V)}
      {a b : Option NodePtr} {h : ℕ}
      → m.root ≡ some p
      → m.height ≡ suc h
      → store.deref p s ≡ some n
      → IsLeaf n es a b
      → get store m k s ≡ none
  unfolding get find
  get_in_leaf m k {h = h} rooted high live leaf = rw (rooted, high, find_in_leaf h k live leaf)

  -- If the height of a map is not 0 and `clear` succeeds, then a later `insert` of any entry succeeds, and
  -- after it `get` of any key faults: `clear` keeps the height, and the root is a leaf that is read as
  -- an internal node.
  pub clear-insert-get :
      (s s' : S) (m m' : BTreeMap) (h : ℕ) (k x : K) (v : V)
      → m.height ≡ suc h
      → clear store m s ≡ some (m', s')
      → (m'' : BTreeMap) × (s'' : S) × (insert store m' k v s' ≡ some ((m'', none), s''))
        × (get store m'' x s'' ≡ none)
  unfolding get find
  clear-insert-get s s' m m' h k x v high cleared =
      let (no_root, empty, same) = clear-keeps_height s s' m m' cleared in
      let r = insert-Rooted store s' m' k v no_root empty in
      (
        record m' { root = some r.p; length = m'.length + 1 },
        r.s',
        r.runs,
        get_in_leaf (record m' { root = some r.p; length = m'.length + 1 }) x refl (same ∙ high)
            r.live r.leaf,
      )
