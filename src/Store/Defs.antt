-- ===== src/Store/Defs.antt =====
-- The interface of the arena, and the code that runs on it.
use btree_forest_arena.Prelude.{
  ℕ, ◌≡◌, Bool, true, false, Option, none, some, ◌==◌, if◌then◌else◌, check,
}

-- `UnsafeRef<Node>`: an address. `ptr_eq` is `==`.
abbrev pub NodePtr : Type 0
NodePtr = ℕ

-- src/utils/ptr_eq.rs, at `Option<NodePtr>` and at `Option<u16>`.
unfoldable pub ptr_eq : Option ℕ → Option ℕ → Bool
ptr_eq none none = true
ptr_eq none (some b) = false
ptr_eq (some a) none = false
ptr_eq (some a) (some b) = a == b

-- `SlabArena<N>` with states `S`. `deref` is the node behind a pointer, `none` if the pointer is not
-- live; `assign` is what a write through `as_mut` does. Only live pointers are written and discarded.
pub record Slab (S N : Type 0) : Type 0 where
  pub alloc : N → S → NodePtr × S
  pub deref : NodePtr → S → Option N
  pub assign : NodePtr → N → S → S
  pub discard : NodePtr → S → S
  pub retain_shared : (NodePtr → Bool) → S → S
  pub alloc_fresh : (n : N) (s : S) → deref (alloc n s).0 s ≡ none
  pub deref-alloc :
      (p : NodePtr) (n : N) (s : S)
      → deref p (alloc n s).1 ≡ (if p == (alloc n s).0 then some n else deref p s)
  pub deref-assign :
      (p q : NodePtr) (n m : N) (s : S)
      → deref q s ≡ some m
      → deref p (assign q n s) ≡ (if p == q then some n else deref p s)
  pub deref-discard :
      (p q : NodePtr) (m : N) (s : S)
      → deref q s ≡ some m
      → deref p (discard q s) ≡ (if p == q then none else deref p s)
  pub deref-retain_shared :
      (p : NodePtr) (keep : NodePtr → Bool) (s : S)
      → deref p (retain_shared keep s) ≡ (if keep p then deref p s else none)

-- Code that runs on the arena: it faults (`none`), or gives a result and the new arena.
abbrev pub Run : Type 0 → Type 0 → Type 0
Run S A = S → Option (A × S)

module _ {S : Type 0} where
  abbrev pub pure : {A : Type 0} → A → Run S A
  pure a s = some (a, s)

  abbrev pub and_then : {A B : Type 0} → Option (A × S) → (A → Run S B) → Option (B × S)
  and_then none f = none
  and_then (some (a, s)) f = f a s

  infixl 5 ◌>>=◌ ◌>>◌
  abbrev pub ◌>>=◌ : {A B : Type 0} → Run S A → (A → Run S B) → Run S B
  m >>= f = λ s. and_then (m s) f

  abbrev pub ◌>>◌ : {B : Type 0} → Run S (Unit {0}) → Run S B → Run S B
  m >> k = m >>= λ _. k

  abbrev pub lift : {A : Type 0} → Option A → Run S A
  lift none s = none
  lift (some a) s = some (a, s)

  abbrev pub assert : Bool → Run S (Unit {0})
  assert b = lift (check b)

module _ {S N : Type 0} (store : Slab S N) where
  -- `p.as_ref()`.
  unfoldable pub as_ref : NodePtr → Run S N
  as_ref p s = lift (store.deref p s) s

  -- `*p.as_mut() = n`.
  unfoldable pub as_mut : NodePtr → N → Run S (Unit {0})
  as_mut p n s = and_then (lift (store.deref p s) s) (λ _ s'. some (tt, store.assign p n s'))

  unfoldable pub alloc : N → Run S NodePtr
  alloc n s = some (store.alloc n s)

  unfoldable pub dealloc : NodePtr → Run S (Unit {0})
  dealloc p s = and_then (lift (store.deref p s) s) (λ _ s'. some (tt, store.discard p s'))
