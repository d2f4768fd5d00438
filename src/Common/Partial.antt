-- ===== src/Common/Partial.antt =====
-- Sequencing of code that may panic: `none` is the panic.
use mathlib.Core.Path.{◌≡◌, refl, sym, subst}
use mathlib.Core.Bool.{Bool, true, false}
use mathlib.Core.Option.{Option, none, some}
use marian_edge.Common.Tests.{if◌then◌else◌}

infixl 5 ◌>>=◌
abbrev pub ◌>>=◌ {ℓ κ} : {A : Type ℓ} {B : Type κ} → Option A → (A → Option B) → Option B
none >>= f = none
some a >>= f = f a

-- The code runs to its end, and its value has the property.
abbrev pub Runs {ℓ} : {A : Type ℓ} → (A → Type 0) → Option A → Type 0
Runs P none = ⊥
Runs P (some a) = P a

module _ {ℓ} {A : Type ℓ} (P : A → Type 0) where
  pub Runs-of : (m : Option A) (a : A) → m ≡ some a → P a → Runs P m
  Runs-of m a e h = subst (Runs P) (sym e) h

  pub Runs-result : (m : Option A) → Runs P m → (a : A) × (m ≡ some a) × P a
  Runs-result none h = absurd h
  Runs-result (some a) h = (a, refl, h)

  pub Runs-bind {κ} :
      {B : Type κ} (Q : B → Type 0) (m : Option A) (f : A → Option B)
      → Runs P m
      → ((a : A) → P a → Runs Q (f a))
      → Runs Q (m >>= f)
  Runs-bind Q none f h k = absurd h
  Runs-bind Q (some a) f h k = k a h

-- One of two runs, by a test.
pub Runs-if {ℓ} :
    {A : Type ℓ} (P : A → Type 0) (b : Bool) (m n : Option A)
    → (b ≡ true → Runs P m)
    → (b ≡ false → Runs P n)
    → Runs P (if b then m else n)
Runs-if P true m n h k = h refl
Runs-if P false m n h k = k refl

pub Runs-known {ℓ κ} :
    {A : Type ℓ} {B : Type κ} (Q : B → Type 0) (m : Option A) (a : A) (f : A → Option B)
    → m ≡ some a
    → Runs Q (f a)
    → Runs Q (m >>= f)
Runs-known Q m a f e h = subst (λ o. Runs Q (o >>= f)) (sym e) h
