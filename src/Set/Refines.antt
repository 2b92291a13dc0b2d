-- ===== src/Set/Refines.antt =====
-- The set as an ordered list of values.
use Prim.Native.Nat.Ordering.{lt, eq, gt}
use mathlib.Core.Option
use btree_forest_arena.Prelude.{
  ℕ, ◌<◌, ◌≡◌, refl, ◌∙◌, ap, subst, Bool, true, false, not, Option, none, some, List, [], ◌∷◌, map,
  is_some, arith,
}
use btree_forest_arena.Prelude.Order.{Ord}
use btree_forest_arena.Store.{NodePtr, Slab}
use btree_forest_arena.Node.{Node, max_keys}
use btree_forest_arena.Node.View.{val_of}
use btree_forest_arena.Tree.{lookup}
use btree_forest_arena.Tree.Upsert.{upsert}
use btree_forest_arena.Tree.Repr.{IsMap}
use btree_forest_arena.Map.{find, before}
use btree_forest_arena.Map.Insert.Fit.{insert-upsert}
use btree_forest_arena.Map.Lookup.Retrieve.{contains_key-lookup}
use btree_forest_arena.Set.{BTreeSet, Void, insert, contains}

-- The value at its place in the order; a value that compares equal stays.
abbrev pub adjoin : {T : Type 0} ⦃o : Ord T⦄ → T → List T → List T
adjoin v [] = v ∷ []
adjoin ⦃o⦄ v (x ∷ xs) = elim (o.cmp x v) [
  | lt ↦ x ∷ adjoin ⦃o = o⦄ v xs
  | eq ↦ x ∷ xs
  | gt ↦ v ∷ x ∷ xs
]

-- Whether a value of the list compares equal.
abbrev pub among : {T : Type 0} ⦃o : Ord T⦄ → T → List T → Bool
among v [] = false
among ⦃o⦄ v (x ∷ xs) = elim (o.cmp x v) [ eq ↦ true | _ ↦ among ⦃o = o⦄ v xs ]

module _ {T : Type 0} where
  abbrev pub with_void : T → T × Void
  with_void x = (x, tt)

module _ {T : Type 0} ⦃o : Ord T⦄ where
  upsert-adjoin :
      (v : T) (xs : List T) → upsert v (tt {0}) (map with_void xs) ≡ map with_void (adjoin v xs)
  upsert-adjoin v [] = refl
  upsert-adjoin v (x ∷ xs) = ground (arith, upsert-adjoin v xs)

  lookup-among : (v : T) (xs : List T) → is_some (lookup (map with_void xs) v) ≡ among v xs
  lookup-among v [] = refl
  lookup-among v (x ∷ xs) = ground (arith, lookup-among v xs)

is_some-map : {A B : Type 0} (f : A → B) (x : Option A) → is_some (Option.map f x) ≡ is_some x
is_some-map f none = refl
is_some-map f (some a) = refl

module _ {S T : Type 0} ⦃o : Ord T⦄ (store : Slab S (Node T Void)) where
  -- The set has the values `xs`, in this order.
  abbrev pub IsSetOf : S → BTreeSet → List T → Type 0
  IsSetOf s t xs = IsMap store s t.inner (map with_void xs)

  -- On a set of the values `xs`, `contains` says whether one of them compares equal, and leaves the arena
  -- as it is.
  pub contains-among :
      (s : S) (t : BTreeSet) (xs : List T) (v : T)
      → IsSetOf s t xs
      → contains store t v s ≡ some (among v xs, s)
  unfolding contains
  contains-among s t xs v is =
      contains_key-lookup store v is ∙ ap (λ b. some (b, s)) (lookup-among v xs)

  -- On a set of the values `xs`, if the leaf where `find` stops has fewer than 8 values or the value is
  -- found, then `insert` succeeds, says whether the value is new, and gives a set of the values
  -- `adjoin v xs`.
  pub insert-adjoin :
      (s : S) (t : BTreeSet) (xs : List T) (v : T)
      → IsSetOf s t xs
      → ((p : NodePtr) (i : ℕ) (n : Node T Void)
          → find store t.inner v s ≡ some (before p i, s)
          → store.deref p s ≡ some n
          → n.len < max_keys)
      → (t' : BTreeSet) × (s' : S) × (insert store t v s ≡ some ((t', not (among v xs)), s'))
        × IsSetOf s' t' (adjoin v xs)
  unfolding insert
  insert-adjoin s t xs v is room =
      let r = insert-upsert store s t.inner (map with_void xs) v tt is room in
      (
        record { inner = r.m' },
        r.s',
        rw r.runs (
            ap (λ b. some ((record { inner = r.m' }, not b), r.s'))
              (is_some-map val_of (lookup (map with_void xs) v) ∙ lookup-among v xs)),
        subst (IsMap store r.s' r.m') (upsert-adjoin v xs) r.is_map,
      )
