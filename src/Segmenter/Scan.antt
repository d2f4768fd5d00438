-- ===== src/Segmenter/Scan.antt =====
-- The scans of segmenter.rs end, without a panic, at a boundary, and pass over the scalars they test.
use marian_edge.Common.{
  some_inj, none, ap, Option, ℕ, zero, suc, ◌+◌, ◌-◌, ◌≤◌, ◌<◌, ◌≡◌, refl, sym, ◌∙◌, Bool, true,
  false, [], ◌∷◌, ◌++◌, some, arith, Bool-cases, inl, inr, ltb, ltb→lt, lt→ltb, subst, all,
}
use marian_edge.Text.{Text, len_utf8, slice, scalar_at, is_whitespace}
use marian_edge.Text.Boundary.{IsBoundary, scalar_at_lem, len_utf8_bounds}
use marian_edge.Text.Slices.{slice_scalar, slice_append, slice_empty}
use marian_edge.Segmenter.{
  next_scalar, skip_while, consume_whitespace, consume_terminators, consume_closing_marks,
  is_terminator, is_closing_mark,
}

-- Every scalar between two offsets passes the test.
abbrev pub Spans : (ℕ → Bool) → Text → ℕ → ℕ → Type 0
Spans p s a b = (t : Text) × (slice s a b ≡ some t) × (all p t ≡ true)

abbrev pub IsBlank : Text → ℕ → ℕ → Type 0
IsBlank = Spans is_whitespace

all_append : (p : ℕ → Bool) (t u : Text) → all p t ≡ true → all p u ≡ true → all p (t ++ u) ≡ true
all_append p [] u h k = k
all_append p (c ∷ t) u h k = ground (arith, all_append p t u)

pub Spans-append :
    (p : ℕ → Bool) (s : Text) (a b c : ℕ) → Spans p s a b → Spans p s b c → Spans p s a c
Spans-append p s a b c (t, e, h) (u, f, k) =
    (t ++ u, slice_append s a b c e f, all_append p t u h k)

pub Spans-empty : (p : ℕ → Bool) (s : Text) (a : ℕ) → IsBoundary s a → Spans p s a a
Spans-empty p s a h = ([], slice_empty s a h, refl)

pub Spans-scalar :
    (p : ℕ → Bool) (s : Text) (a c : ℕ)
    → scalar_at s a ≡ some c
    → p c ≡ true
    → Spans p s a (a + len_utf8 c)
Spans-scalar p s a c at h = (c ∷ [], slice_scalar s a c at, rw h)

-- One step of a scan below `e`.
abbrev pub Next : Text → ℕ → ℕ → Type 0
Next s i e =
    (c : ℕ) × (n : ℕ) × (next_scalar s i ≡ some (c, n))
    × (i < n)
    × (n ≤ e)
    × IsBoundary s n
    × (scalar_at s i ≡ some c)
    × (n ≡ i + len_utf8 c)

pub next_scalar_at :
    (s : Text) (i c : ℕ) → scalar_at s i ≡ some c → next_scalar s i ≡ some (c, i + len_utf8 c)
unfolding next_scalar
next_scalar_at s i c h = rw h

pub next_scalar_lem : (s : Text) (i e : ℕ) → IsBoundary s i → IsBoundary s e → i < e → Next s i e
next_scalar_lem s i e bi be lt =
    let (c, step) = scalar_at_lem s i e bi be lt in
    let (low, _) = len_utf8_bounds c in
    (c, i + len_utf8 c, next_scalar_at s i c step.0, omega arith, step.2, step.1, step.0, refl)

-- The end of a scan from `i` that may go as far as `e`.
abbrev pub EndsBy : (ℕ → Bool) → Text → ℕ → ℕ → ℕ → Type 0
EndsBy p s i e j = (i ≤ j) × (j ≤ e) × IsBoundary s j × Spans p s i j

skip_while_stop :
    (p : ℕ → Bool) (f : ℕ) (s : Text) (i e : ℕ)
    → ltb i e ≡ false
    → skip_while p (suc f) s i e ≡ some i
unfolding skip_while
skip_while_stop p f s i e h = rw (h, skip_while)

skip_while_round :
    (p : ℕ → Bool) (f : ℕ) (s : Text) (i e c n : ℕ)
    → ltb i e ≡ true
    → next_scalar s i ≡ some (c, n)
    → skip_while p (suc f) s i e ≡ (elim (p c) [ true ↦ skip_while p f s n e | false ↦ some i ])
unfolding skip_while
skip_while_round p f s i e c n h k = rw (h, skip_while) (rw k)

skip_while_lem :
    (p : ℕ → Bool) (f : ℕ) (s : Text) (i e : ℕ)
    → e - i < f
    → IsBoundary s i
    → IsBoundary s e
    → i ≤ e
    → (j : ℕ) × (skip_while p f s i e ≡ some j) × EndsBy p s i e j
skip_while_lem p zero s i e h bi be le = absurd (omega arith)
skip_while_lem p (suc f) s i e h bi be le = elim (Bool-cases (ltb i e)) [
  | inl more ↦
      let (c, n, next, lt, ne, bn, at, eq) = next_scalar_lem s i e bi be (ltb→lt i e more) in
      elim (Bool-cases (p c)) [
        | inl pass ↦
            let (j, run, ends) = skip_while_lem p f s n e (omega arith) bn be ne in
            let head : Spans p s i n =
              subst (Spans p s i) (sym eq) (Spans-scalar p s i c at pass) in
            (
              j,
              skip_while_round p f s i e c n more next ∙ rw (pass, run),
              (omega arith, ends.1, ends.2, Spans-append p s i n j head ends.3),
            )
        | inr fail ↦ (
          i,
          skip_while_round p f s i e c n more next ∙ rw fail,
          (omega arith, le, bi, Spans-empty p s i bi),
        )
      ]
  | inr done ↦ (i, skip_while_stop p f s i e done, (omega arith, le, bi, Spans-empty p s i bi))
]

-- A scan that passes its first scalar goes beyond it.
skip_while-progress :
    (p : ℕ → Bool) (s : Text) (i e c n j : ℕ)
    → IsBoundary s i
    → IsBoundary s e
    → i < e
    → next_scalar s i ≡ some (c, n)
    → p c ≡ true
    → skip_while p (suc (e - i)) s i e ≡ some j
    → i < j
skip_while-progress p s i e c n j bi be lt next pass run =
    let (c', n', next', lt', ne, bn, at, eq) = next_scalar_lem s i e bi be lt in
    let same : n ≡ n' = ap (λ o. second n o) (sym next ∙ next') in
    let (j', run', ends) =
      skip_while_lem p (e - i) s n e (omega arith) (rw same bn) be (omega arith) in
    let whole : skip_while p (suc (e - i)) s i e ≡ some j' =
      skip_while_round p (e - i) s i e c n (lt→ltb i e lt) next ∙ rw (pass, run') in
    let q : j ≡ j' = some_inj (sym run ∙ whole) in omega (arith, ends.0)
  where
    second : ℕ → Option (ℕ × ℕ) → ℕ
    second d none = d
    second d (some (a, b)) = b

-- A scan over white space ends, within the range, at a boundary, and passes over white space only.
pub consume_whitespace_lem :
    (s : Text) (i e : ℕ)
    → IsBoundary s i
    → IsBoundary s e
    → i ≤ e
    → (j : ℕ) × (consume_whitespace s i e ≡ some j) × EndsBy is_whitespace s i e j
unfolding consume_whitespace
consume_whitespace_lem s i e = skip_while_lem is_whitespace (suc (e - i)) s i e (omega arith)

pub consume_terminators_lem :
    (s : Text) (i e : ℕ)
    → IsBoundary s i
    → IsBoundary s e
    → i ≤ e
    → (j : ℕ) × (consume_terminators s i e ≡ some j) × EndsBy is_terminator s i e j
unfolding consume_terminators
consume_terminators_lem s i e = skip_while_lem is_terminator (suc (e - i)) s i e (omega arith)

pub consume_closing_marks_lem :
    (s : Text) (i e : ℕ)
    → IsBoundary s i
    → IsBoundary s e
    → i ≤ e
    → (j : ℕ) × (consume_closing_marks s i e ≡ some j) × EndsBy is_closing_mark s i e j
unfolding consume_closing_marks
consume_closing_marks_lem s i e = skip_while_lem is_closing_mark (suc (e - i)) s i e (omega arith)

pub consume_whitespace-progress :
    (s : Text) (i e c n j : ℕ)
    → IsBoundary s i
    → IsBoundary s e
    → i < e
    → next_scalar s i ≡ some (c, n)
    → is_whitespace c ≡ true
    → consume_whitespace s i e ≡ some j
    → i < j
unfolding consume_whitespace
consume_whitespace-progress = skip_while-progress is_whitespace

pub consume_terminators-progress :
    (s : Text) (i e c n j : ℕ)
    → IsBoundary s i
    → IsBoundary s e
    → i < e
    → next_scalar s i ≡ some (c, n)
    → is_terminator c ≡ true
    → consume_terminators s i e ≡ some j
    → i < j
unfolding consume_terminators
consume_terminators-progress = skip_while-progress is_terminator
