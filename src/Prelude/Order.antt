-- ===== src/Prelude/Order.antt =====
-- The bound `Ord` on keys: `cmp`, with the laws that the trait asks of it. Keys that compare equal
-- need not be the same value.
use Prim.Native.Nat.{ℕ, compare, Ordering}
use Prim.Native.Nat.Ordering.{lt, eq, gt}
use mathlib.Core.Path.{◌≡◌, refl}
use mathlib.Core.Logic.{◌⊎◌, inl, inr}
use native.Mathlib.Omega.{arith}

pub record IsTotalOrder {K : Type 0} (f : K → K → Ordering) : Type 0 where
  pub eq_trans : (a b c : K) → f a b ≡ eq → f b c ≡ eq → f a c ≡ eq
  pub eq_lt_trans : (a b c : K) → f a b ≡ eq → f b c ≡ lt → f a c ≡ lt
  pub lt_eq_trans : (a b c : K) → f a b ≡ lt → f b c ≡ eq → f a c ≡ lt
  pub lt_trans : (a b c : K) → f a b ≡ lt → f b c ≡ lt → f a c ≡ lt
  pub eq_of_eq : (a b : K) → f a b ≡ eq → f b a ≡ eq
  pub gt_of_lt : (a b : K) → f a b ≡ lt → f b a ≡ gt
  pub lt_of_gt : (a b : K) → f a b ≡ gt → f b a ≡ lt
  pub eq_self : (a : K) → f a a ≡ eq

pub record Ord (K : Type 0) : Type 0 where
  pub cmp : K → K → Ordering
  pub total : IsTotalOrder cmp
  pub open total use *

module _ {K : Type 0} ⦃o : Ord K⦄ where
  infix 50 ◌≺◌ ◌≼◌
  -- Strictly below.
  abbrev pub ◌≺◌ : K → K → Type 0
  x ≺ y = o.cmp x y ≡ lt

  -- Not above.
  abbrev pub ◌≼◌ : K → K → Type 0
  x ≼ y = (o.cmp x y ≡ lt) ⊎ (o.cmp x y ≡ eq)

pub compare-IsTotalOrder : IsTotalOrder compare
compare-IsTotalOrder = ground arith

instance unfoldable pub nat_ord : Ord ℕ
nat_ord = record { total = compare-IsTotalOrder; cmp = compare }

pub Ordering-cases : (c : Ordering) → (c ≡ lt) ⊎ (c ≡ eq) ⊎ (c ≡ gt)
Ordering-cases lt = inl refl
Ordering-cases eq = inr (inl refl)
Ordering-cases gt = inr (inr refl)
