-- ===== src/Common/Results.antt =====
-- Results of code that can fail with an error of type `E`, or stop: `crash` is a panic of the
-- source, or fuel that ran out.
use mathlib.Core.Path.{◌≡◌, refl, sym, subst}
use marian_edge.Common.Tests.{if◌then◌else◌}
use mathlib.Core.Logic.{◌≢◌}
use mathlib.Core.Option.{Option, none, some}
use mathlib.Core.Bool.{Bool, true, false}

pub data Outcome {ℓ κ} (E : Type ℓ) (A : Type κ) : Type (ℓ ⊔ κ) where
  ok : A → Outcome E A
  err : E → Outcome E A
  crash : Outcome E A

infixl 5 ◌>>=◌ ◌>>◌
abbrev pub ◌>>=◌ {ℓ κ μ} :
    {E : Type ℓ} {A : Type κ} {B : Type μ} → Outcome E A → (A → Outcome E B) → Outcome E B
ok a >>= f = f a
err e >>= f = err e
crash >>= f = crash

abbrev pub ◌>>◌ {ℓ μ} : {E : Type ℓ} {B : Type μ} → Outcome E (Unit {0}) → Outcome E B → Outcome E B
m >> k = m >>= λ _. k

-- `if fails { return Err(e) }`.
abbrev pub fail_if {ℓ} : {E : Type ℓ} → Bool → E → Outcome E (Unit {0})
fail_if true e = err e
fail_if false e = ok tt

-- `option.ok_or(e)`.
abbrev pub ok_or {ℓ κ} : {E : Type ℓ} {A : Type κ} → Option A → E → Outcome E A
ok_or none e = err e
ok_or (some a) e = ok a

-- An expression that panics where it has no value.
abbrev pub or_crash {ℓ κ} : {E : Type ℓ} {A : Type κ} → Option A → Outcome E A
or_crash none = crash
or_crash (some a) = ok a

-- Total correctness up to errors: no crash, and a result has the property.
abbrev pub Ensures {ℓ κ} : {E : Type ℓ} {A : Type κ} → (A → Type 0) → Outcome E A → Type 0
Ensures P (ok a) = P a
Ensures P (err e) = Unit
Ensures P crash = ⊥

-- A result, and it has the property.
abbrev pub Gives {ℓ κ} : {E : Type ℓ} {A : Type κ} → (A → Type 0) → Outcome E A → Type 0
Gives P (ok a) = P a
Gives P (err e) = ⊥
Gives P crash = ⊥

module _ {ℓ κ} {E : Type ℓ} {A : Type κ} (P : A → Type 0) where
  pub Gives-fail_if :
      (b : Bool) (e : E) (f : Unit {0} → Outcome E A)
      → b ≡ false
      → Gives P (f tt)
      → Gives P (fail_if b e >>= f)
  Gives-fail_if true e f h g = absurd cc
  Gives-fail_if false e f h g = g

module _ {ℓ κ} {E : Type ℓ} {A : Type κ} (P : A → Type 0) where
  pub Ensures-bind {μ} :
      {B : Type μ} (Q : B → Type 0) (m : Outcome E A) (f : A → Outcome E B)
      → Ensures P m
      → ((a : A) → P a → Ensures Q (f a))
      → Ensures Q (m >>= f)
  Ensures-bind Q (ok a) f h k = k a h
  Ensures-bind Q (err e) f h k = tt
  Ensures-bind Q crash f h k = absurd h

  pub Ensures-ok : (m : Outcome E A) (a : A) → Ensures P m → m ≡ ok a → P a
  Ensures-ok m a h e = subst (Ensures P) e h

  pub Ensures-ne-crash : (m : Outcome E A) → Ensures P m → m ≢ crash
  Ensures-ne-crash m h e = subst (Ensures P) e h

  -- A weaker property of the same result.
  pub Ensures-mono :
      (Q : A → Type 0) (m : Outcome E A) → Ensures P m → ((a : A) → P a → Q a) → Ensures Q m
  Ensures-mono Q (ok a) h k = k a h
  Ensures-mono Q (err e) h k = tt
  Ensures-mono Q crash h k = h

module _ {ℓ κ} {E : Type ℓ} {A : Type κ} (P : A → Type 0) where
  -- One of two results, by a test.
  pub Ensures-if :
      (b : Bool) (m n : Outcome E A)
      → (b ≡ true → Ensures P m)
      → (b ≡ false → Ensures P n)
      → Ensures P (if b then m else n)
  Ensures-if true m n h k = h refl
  Ensures-if false m n h k = k refl

  pub Ensures-elim :
      (b : Bool) (m n : Outcome E A)
      → (b ≡ true → Ensures P m)
      → (b ≡ false → Ensures P n)
      → Ensures P (elim b [ true ↦ m | false ↦ n ])
  Ensures-elim true m n h k = h refl
  Ensures-elim false m n h k = k refl

  pub Ensures-or_crash {μ} :
      {B : Type μ} (o : Option B) (b : B) (f : B → Outcome E A)
      → o ≡ some b
      → Ensures P (f b)
      → Ensures P (or_crash o >>= f)
  Ensures-or_crash o b f e h = subst (λ x. Ensures P (or_crash x >>= f)) (sym e) h

  pub Ensures-fail_if :
      (b : Bool) (e : E) (f : Unit {0} → Outcome E A)
      → (b ≡ false → Ensures P (f tt))
      → Ensures P (fail_if b e >>= f)
  Ensures-fail_if true e f h = tt
  Ensures-fail_if false e f h = h refl

  pub Ensures-option {μ} :
      {B : Type μ} (o : Option B) (m : B → Outcome E A) (n : Outcome E A)
      → ((b : B) → o ≡ some b → Ensures P (m b))
      → (o ≡ none → Ensures P n)
      → Ensures P (elim o [ some b ↦ m b | none ↦ n ])
  Ensures-option none m n h k = k refl
  Ensures-option (some b) m n h k = h b refl

  pub Ensures-ok_or {μ} :
      {B : Type μ} (o : Option B) (e : E) (f : B → Outcome E A)
      → ((b : B) → o ≡ some b → Ensures P (f b))
      → Ensures P (ok_or o e >>= f)
  Ensures-ok_or none e f h = tt
  Ensures-ok_or (some b) e f h = h b refl

  -- A step whose result does not matter, where it does not crash.
  pub Ensures-after {μ} :
      {B : Type μ} (m : Outcome E B) (f : B → Outcome E A)
      → m ≢ crash
      → ((b : B) → m ≡ ok b → Ensures P (f b))
      → Ensures P (m >>= f)
  Ensures-after (ok b) f h k = k b refl
  Ensures-after (err e) f h k = tt
  Ensures-after crash f h k = absurd (h refl)

pub ok_or-ne-crash {ℓ κ} : {E : Type ℓ} {A : Type κ} (o : Option A) (e : E) → ok_or o e ≢ crash
ok_or-ne-crash none e p = cc
ok_or-ne-crash (some a) e p = cc
