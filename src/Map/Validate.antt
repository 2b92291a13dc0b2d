-- ===== src/Map/Validate.antt =====
-- `BTreeMap::validate` of src/map.rs: the complaints that it collects, and the panic if there is one.
use Prim.Native.Nat.Ordering.{lt, gt}
use btree_forest_arena.Prelude.{
  ℕ, zero, suc, ◌+◌, ◌/◌, Bool, true, false, Option, none, some, List, [], ◌∷◌, ◌++◌, leb, ◌==◌,
  expect,
}
use btree_forest_arena.Prelude.Order.{Ord}
use btree_forest_arena.Store.{NodePtr, ptr_eq, Slab, Run, pure, ◌>>=◌, lift, assert, as_ref}
use btree_forest_arena.Node.{Node, max_keys, parent, prev, next, key, edge}
use btree_forest_arena.Map.Defs.{BTreeMap}

-- The messages.
pub data Complaint : Type 0 where
  parent_pointer parent_index too_few too_many prev_leaf next_leaf tree_length : Complaint
  out_of_order : ℕ → Complaint

abbrev pub Errors : Type 0
Errors = List (NodePtr × Complaint)

-- `assert(cond, msg)`: what is pushed.
abbrev pub complain : NodePtr → Bool → Complaint → Errors
complain p true c = []
complain p false c = (p, c) ∷ []

-- What has been seen: the complaints, the number of entries, the last key and the last leaf.
pub record Seen (K : Type 0) : Type 0 where
  pub errors : Errors
  pub len : ℕ
  pub last_key : Option K
  pub last_leaf : Option NodePtr

module _ {K : Type 0} ⦃o : Ord K⦄ where
  -- `key >= prev_key`, and `key > prev_key`.
  abbrev pub at_least : K → K → Bool
  at_least k prev = elim (o.cmp k prev) [ lt ↦ false | _ ↦ true ]

  abbrev pub greater : K → K → Bool
  greater k prev = elim (o.cmp k prev) [ gt ↦ true | _ ↦ false ]

  -- The check of the first key of a leaf, and of any other key.
  abbrev pub follows : ℕ → K → Option K → Bool
  follows i k none = true
  follows zero k (some prev) = at_least k prev
  follows (suc i) k (some prev) = greater k prev

  abbrev pub follows_strictly : K → Option K → Bool
  follows_strictly k none = true
  follows_strictly k (some prev) = greater k prev

module _ {S K V : Type 0} ⦃o : Ord K⦄ (store : Slab S (Node K V)) where
  -- `for i in 0..node.len`, with `rounds` left.
  unfoldable pub validate_keys : ℕ → NodePtr → Node K V → ℕ → Option K → Option (Errors × Option K)
  unfolding key
  validate_keys zero p n i prev_key = some ([], prev_key)
  validate_keys (suc rounds) p n i prev_key = elim (key n i) [
    | none ↦ none
    | some k ↦ elim (validate_keys rounds p n (i + 1) (some k)) [
      | none ↦ none
      | some (errors, last) ↦
          some (complain p (follows i k prev_key) (out_of_order i) ++ errors, last)
    ]
  ]

  -- What is checked of every node, leaf or not.
  unfoldable pub validate_header : NodePtr → Node K V → Option (NodePtr × ℕ) → Option Errors
  unfolding parent ptr_eq
  validate_header p n up = elim (parent n) [
    | none ↦ none
    | some at ↦ some (
        complain p (ptr_eq (fst_of at) (fst_of up)) parent_pointer
        ++ (complain p (ptr_eq (snd_of at) (snd_of up)) parent_index
            ++ (complain p (leb (min_len up) n.len) too_few
                ++ complain p (leb n.len max_keys) too_many)))
  ]
    where
      fst_of : Option (NodePtr × ℕ) → Option ℕ
      fst_of none = none
      fst_of (some (q, i)) = some q

      snd_of : Option (NodePtr × ℕ) → Option ℕ
      snd_of none = none
      snd_of (some (q, i)) = some i

      min_len : Option (NodePtr × ℕ) → ℕ
      min_len none = 1
      min_len (some a) = max_keys / 2

  -- The check of the next leaf of the last one, just above the leaves.
  unfoldable pub validate_link : ℕ → Option NodePtr → NodePtr → Run S Errors
  unfolding next ptr_eq
  validate_link (suc height) last child = pure []
  validate_link zero none child = pure []
  validate_link zero (some q) child = do
    n ← as_ref store q
    after ← lift (next n)
    pure (complain q (ptr_eq after (some child)) next_leaf)

  -- `for i in 0..node.len + 1`, with `rounds` left, in a node whose children have the height `height`.
  unfoldable pub validate_edges :
      (NodePtr → ℕ → Option K → Option NodePtr → Run S (Seen K))
      → ℕ
      → ℕ
      → NodePtr
      → Node K V
      → ℕ
      → Option K
      → Option NodePtr
      → Run S (Seen K)
  unfolding key edge validate_link
  validate_edges child height zero p n i last_key last_leaf =
      pure (record { errors = []; len = 0; last_key = last_key; last_leaf = last_leaf })
  validate_edges child height (suc rounds) p n i last_key last_leaf = do
    (errors, separator) ← lift (elim i [
      | zero ↦ some ([], last_key)
      | suc j ↦ elim (key n j) [
        | none ↦ none
        | some k ↦ some (complain p (follows_strictly k last_key) (out_of_order (suc j)), some k)
      ]
    ])
    c ← lift (edge n i)
    linked ← validate_link height last_leaf c
    seen ← child c i separator last_leaf
    rest ← validate_edges child height rounds p n (i + 1) seen.last_key seen.last_leaf
    pure (record rest {
      errors = errors ++ (linked ++ (seen.errors ++ rest.errors));
      len = seen.len + rest.len;
    })

  unfoldable pub validate_node :
      ℕ → NodePtr → Option (NodePtr × ℕ) → Option K → Option NodePtr → Run S (Seen K)
  unfolding validate_header validate_keys validate_edges prev ptr_eq
  validate_node zero p up last_key last_leaf = do
    n ← as_ref store p
    header ← lift (validate_header p n up)
    before ← lift (prev n)
    (errors, last) ← lift (validate_keys n.len p n 0 last_key)
    k ← lift (expect last)
    pure (record {
      errors = header ++ (complain p (ptr_eq before last_leaf) prev_leaf ++ errors);
      len = n.len;
      last_key = some k;
      last_leaf = some p;
    })
  validate_node (suc height) p up last_key last_leaf = do
    n ← as_ref store p
    header ← lift (validate_header p n up)
    seen ←
        validate_edges (λ c i. validate_node height c (some (p, i))) height (n.len + 1) p n 0
          last_key last_leaf
    k ← lift (expect seen.last_key)
    q ← lift (expect seen.last_leaf)
    pure (record seen { errors = header ++ seen.errors })

  -- The complaints of `validate`.
  unfoldable pub complaints : BTreeMap → Run S Errors
  unfolding validate_node next ptr_eq
  complaints m = elim m.root [
    | none ↦ pure []
    | some root ↦ (do
      seen ← validate_node m.height root none none none
      q ← lift (expect seen.last_leaf)
      n ← as_ref store q
      after ← lift (next n)
      pure (
          seen.errors
          ++ (complain root (seen.len == m.length) tree_length
              ++ complain q (ptr_eq after none) next_leaf)))
  ]

  unfoldable pub validate : BTreeMap → Run S (Unit {0})
  unfolding complaints
  validate m = do errors ← complaints m; assert (no_complaint errors)
    where
      no_complaint : Errors → Bool
      no_complaint [] = true
      no_complaint (e ∷ es) = false
