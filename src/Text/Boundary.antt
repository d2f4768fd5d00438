-- ===== src/Text/Boundary.antt =====
-- Scalar boundaries: where stepping over a text is defined, and how far it goes.
use marian_edge.Common.{
  ℕ, zero, suc, ◌+◌, ◌-◌, ◌≤◌, ◌<◌, ◌≡◌, refl, true, [], ◌∷◌, some, arith, inl, inr, lt-or-le,
}
use marian_edge.Text.{
  Text, len_utf8, byte_length, slice_from, slice_to, is_char_boundary, scalar_at, scalar_before,
}

abbrev pub IsBoundary : Text → ℕ → Type 0
IsBoundary s i = is_char_boundary s i ≡ true

pub len_utf8_bounds : (c : ℕ) → (1 ≤ len_utf8 c) × (len_utf8 c ≤ 4)
unfolding len_utf8
len_utf8_bounds c = ground arith

pub zero-IsBoundary : (s : Text) → IsBoundary s 0
unfolding is_char_boundary
zero-IsBoundary s = refl

-- The boundaries behind the first scalar are those of the rest.
pub IsBoundary-tail :
    (c : ℕ) (s : Text) (i : ℕ)
    → IsBoundary (c ∷ s) (suc i)
    → (len_utf8 c ≤ suc i) × IsBoundary s (suc i - len_utf8 c)
unfolding is_char_boundary slice_from
IsBoundary-tail c s i h = ground arith

tail-IsBoundary :
    (c : ℕ) (s : Text) (i : ℕ)
    → len_utf8 c ≤ i
    → IsBoundary s (i - len_utf8 c)
    → IsBoundary (c ∷ s) i
unfolding is_char_boundary slice_from
tail-IsBoundary c s zero le h = refl
tail-IsBoundary c s (suc i) le h = ground arith

pub IsBoundary-le : (s : Text) (i : ℕ) → IsBoundary s i → i ≤ byte_length s
unfolding byte_length
IsBoundary-le s zero h = omega arith
IsBoundary-le [] (suc i) h = unfold is_char_boundary slice_from in cc
IsBoundary-le (c ∷ s) (suc i) h =
    let (le, b) = IsBoundary-tail c s i h in omega (arith, IsBoundary-le s (suc i - len_utf8 c) b)

pub end-IsBoundary : (s : Text) → IsBoundary s (byte_length s)
unfolding byte_length
end-IsBoundary [] = zero-IsBoundary []
end-IsBoundary (c ∷ s) = tail-IsBoundary c s (len_utf8 c + byte_length s) (omega arith) (
    let e : len_utf8 c + byte_length s - len_utf8 c ≡ byte_length s = omega arith in
    rw e (end-IsBoundary s))

-- What one step of a forward scan gives.
abbrev pub StepsTo : Text → ℕ → ℕ → ℕ → Type 0
StepsTo s i e c = (scalar_at s i ≡ some c) × IsBoundary s (i + len_utf8 c) × (i + len_utf8 c ≤ e)

scalar_at_tail :
    (c : ℕ) (s : Text) (i : ℕ)
    → len_utf8 c ≤ suc i
    → scalar_at (c ∷ s) (suc i) ≡ scalar_at s (suc i - len_utf8 c)
unfolding scalar_at slice_from
scalar_at_tail c s i le = ground arith

-- Below a boundary there is a scalar at every boundary, and it ends by that boundary.
pub scalar_at_lem :
    (s : Text) (i e : ℕ) → IsBoundary s i → IsBoundary s e → i < e → (c : ℕ) × StepsTo s i e c
scalar_at_lem [] i zero bi be lt = absurd (omega arith)
scalar_at_lem [] i (suc e) bi be lt =
    absurd (omega (arith, IsBoundary-le [] (suc e) be, nil_length))
  where
    nil_length : byte_length [] ≡ 0
    nil_length = unfold byte_length in refl
scalar_at_lem (c ∷ s) i zero bi be lt = absurd (omega arith)
scalar_at_lem (c ∷ s) zero (suc e) bi be lt =
    let (le, _) = IsBoundary-tail c s e be in
    let z : 0 + len_utf8 c - len_utf8 c ≡ 0 = omega arith in
    let b : IsBoundary (c ∷ s) (0 + len_utf8 c) =
      tail-IsBoundary c s (0 + len_utf8 c) (omega arith) (rw z (zero-IsBoundary s)) in
    (c, (unfold scalar_at slice_from in refl, b, omega arith))
scalar_at_lem (c ∷ s) (suc i) (suc e) bi be lt =
    let (lei, bi') = IsBoundary-tail c s i bi in
    let (lee, be') = IsBoundary-tail c s e be in
    let (d, step) =
      scalar_at_lem s (suc i - len_utf8 c) (suc e - len_utf8 c) bi' be' (omega arith) in
    let z : suc i + len_utf8 d - len_utf8 c ≡ suc i - len_utf8 c + len_utf8 d = omega arith in
    let b : IsBoundary (c ∷ s) (suc i + len_utf8 d) =
      tail-IsBoundary c s (suc i + len_utf8 d) (omega arith) (rw z step.1) in
    (d, (rw (scalar_at_tail c s i lei) step.0, b, omega arith))

-- What one step of a backward scan gives.
abbrev pub StepsBack : Text → ℕ → ℕ → Type 0
StepsBack s e c =
    (scalar_before s e ≡ some c)
    × (len_utf8 c ≤ e)
    × IsBoundary s (e - len_utf8 c)
    × (scalar_at s (e - len_utf8 c) ≡ some c)

scalar_before_tail :
    (c : ℕ) (s : Text) (e d : ℕ)
    → len_utf8 c ≤ suc e
    → scalar_before s (suc e - len_utf8 c) ≡ some d
    → scalar_before (c ∷ s) (suc e) ≡ some d
unfolding scalar_before slice_to
scalar_before_tail c s e d le h = ground arith

scalar_before_head :
    (c : ℕ) (s : Text) (e : ℕ)
    → len_utf8 c ≤ suc e
    → suc e - len_utf8 c ≡ 0
    → scalar_before (c ∷ s) (suc e) ≡ some c
unfolding scalar_before slice_to
scalar_before_head c s e le z = ground arith

-- Above zero there is a scalar before every boundary, and it starts at a boundary.
pub scalar_before_lem : (s : Text) (e : ℕ) → IsBoundary s e → 0 < e → (c : ℕ) × StepsBack s e c
scalar_before_lem [] zero be lt = absurd (omega arith)
scalar_before_lem [] (suc e) be lt = absurd (omega (arith, IsBoundary-le [] (suc e) be, nil_length))
  where
    nil_length : byte_length [] ≡ 0
    nil_length = unfold byte_length in refl
scalar_before_lem (c ∷ s) zero be lt = absurd (omega arith)
scalar_before_lem (c ∷ s) (suc e) be lt =
    let (le, be') = IsBoundary-tail c s e be in
    elim (lt-or-le 0 (suc e - len_utf8 c)) [
      | inl more ↦
          let (d, step) = scalar_before_lem s (suc e - len_utf8 c) be' more in
          let z : suc e - len_utf8 d - len_utf8 c ≡ suc e - len_utf8 c - len_utf8 d = omega arith in
          let b : IsBoundary (c ∷ s) (suc e - len_utf8 d) =
            tail-IsBoundary c s (suc e - len_utf8 d) (omega arith) (rw z step.2) in
          let y : suc e - len_utf8 d ≡ suc (e - len_utf8 d) = omega (arith, len_utf8_bounds c) in
          let x : suc (e - len_utf8 d) - len_utf8 c ≡ suc e - len_utf8 c - len_utf8 d =
            omega (arith, len_utf8_bounds c) in
          let at : scalar_at (c ∷ s) (suc e - len_utf8 d) ≡ some d =
            rw (y, scalar_at_tail c s (e - len_utf8 d) (omega arith), x) step.3 in
          (d, (scalar_before_tail c s e d le step.0, omega arith, b, at))
      | inr done ↦
          let z : suc e - len_utf8 c ≡ 0 = omega arith in
          let at : scalar_at (c ∷ s) (suc e - len_utf8 c) ≡ some c =
            rw z (unfold scalar_at slice_from in refl) in
          (c, (scalar_before_head c s e le z, omega arith, rw z (zero-IsBoundary (c ∷ s)), at))
    ]
