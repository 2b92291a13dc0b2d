-- ===== src/Prelude/Fallible.antt =====
-- `Option` as the monad of code that can fault: `none` is a panic or undefined behaviour.
use mathlib.Core.Path.{◌≡◌, refl}
use mathlib.Core.Bool.{Bool, true, false}
use mathlib.Core.Option.{Option, none, some}

-- A failed `debug_assert!`, `assert!` or slice bound.
abbrev pub check : Bool → Option (Unit {0})
check true = some tt
check false = none

module _ {ℓ κ} {A : Type ℓ} {B : Type κ} where
  abbrev pub bind : Option A → (A → Option B) → Option B
  bind none f = none
  bind (some a) f = f a

  pub bind-eq-some :
      (m : Option A) (f : A → Option B) {b : B}
      → bind m f ≡ some b
      → (a : A) × (m ≡ some a) × (f a ≡ some b)
  bind-eq-some none f h = cc
  bind-eq-some (some a) f h = (a, refl, h)

infixl 5 ◌>>=◌ ◌>>◌
abbrev pub ◌>>=◌ {ℓ κ} : {A : Type ℓ} {B : Type κ} → Option A → (A → Option B) → Option B
m >>= f = bind m f

abbrev pub ◌>>◌ {κ} : {B : Type κ} → Option (Unit {0}) → Option B → Option B
m >> k = bind m (λ _. k)

-- `Option::unwrap` and `Option::expect`: `None` is a panic.
abbrev pub expect {ℓ} : {A : Type ℓ} → Option A → Option A
expect o = o
