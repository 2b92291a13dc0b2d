-- ===== src/Store/Vector.antt =====
-- An arena that meets the laws of `Slab`: a vector of cells, none of which is used twice.
use btree_forest_arena.Prelude.{
  ℕ, zero, suc, ◌+◌, ◌≡◌, refl, Bool, Option, none, some, List, [], ◌∷◌, ◌++◌, arith, length,
  get_elem?, set, ◌==◌, if◌then◌else◌, get_elem?-none,
}
use native.Mathlib.Nat.{zero-add}
use btree_forest_arena.Store.Defs.{NodePtr, Slab}

abbrev pub Cells : Type 0 → Type 0
Cells N = List (Option N)

module _ {N : Type 0} where
  abbrev pub cell : NodePtr → Cells N → Option N
  cell p s = elim (get_elem? s p) [ none ↦ none | some c ↦ c ]

  abbrev pub retain_from : ℕ → (NodePtr → Bool) → Cells N → Cells N
  retain_from i keep [] = []
  retain_from i keep (c ∷ s) = (if keep i then c else none) ∷ retain_from (suc i) keep s

  pub cell-push :
      (p : NodePtr) (n : N) (s : Cells N)
      → cell p (s ++ (some n ∷ [])) ≡ (if p == length s then some n else cell p s)
  cell-push zero n [] = refl
  cell-push (suc p) n [] = ground arith
  cell-push zero n (c ∷ s) = ground arith
  cell-push (suc p) n (c ∷ s) = ground (arith, cell-push p n s)

  pub cell-set :
      (p q : NodePtr) (c : Option N) (m : N) (s : Cells N)
      → cell q s ≡ some m
      → cell p (set s q c) ≡ (if p == q then c else cell p s)
  cell-set p q c m [] h = cc
  cell-set zero zero c m (d ∷ s) h = refl
  cell-set (suc p) zero c m (d ∷ s) h = ground arith
  cell-set zero (suc q) c m (d ∷ s) h = ground arith
  cell-set (suc p) (suc q) c m (d ∷ s) h = ground (arith, cell-set p q c m s h)

  pub cell-retain_from :
      (i p : ℕ) (keep : NodePtr → Bool) (s : Cells N)
      → cell p (retain_from i keep s) ≡ (if keep (i + p) then cell p s else none)
  cell-retain_from i p keep [] = ground arith
  cell-retain_from i zero keep (c ∷ s) = ground arith
  cell-retain_from i (suc p) keep (c ∷ s) = ground (arith, cell-retain_from (suc i) p keep s)

  pub cell_beyond : (s : Cells N) → cell (length s) s ≡ none
  cell_beyond s = ground (arith, get_elem?-none s (length s) (omega arith))

  abbrev pub vector : Slab (Cells N) N
  vector = record {
    alloc = λ n s. (length s, s ++ (some n ∷ []));
    deref = cell;
    assign = λ p n s. set s p (some n);
    discard = λ p s. set s p none;
    retain_shared = retain_from 0;
    alloc_fresh = λ n s. cell_beyond s;
    deref-alloc = cell-push;
    deref-assign = λ p q n m s h. cell-set p q (some n) m s h;
    deref-discard = λ p q m s h. cell-set p q none m s h;
    deref-retain_shared = λ p keep s. rw zero-add at (cell-retain_from 0 p keep s);
  }
