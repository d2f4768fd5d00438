-- ===== src/Segmenter/Back.antt =====
-- The scans of segmenter.rs that move backwards: trimming, and the boundary at or below an index.
use marian_edge.Common.{
  ℕ, zero, suc, ◌+◌, ◌-◌, ◌≤◌, ◌<◌, ◌≡◌, sym, ◌∙◌, true, false, some, arith, Bool-cases, inl, inr,
  ltb, lt→ltb, ltb→lt, subst,
}
use marian_edge.Text.{Text, len_utf8, scalar_at, scalar_before, is_char_boundary, is_whitespace}
use marian_edge.Text.Boundary.{IsBoundary, scalar_before_lem, len_utf8_bounds}
use marian_edge.Segmenter.{
  previous_scalar, trim_loop, trim_trailing_whitespace, floor_loop, floor_char_boundary,
  previous_char_boundary,
}
use marian_edge.Segmenter.Scan.{Spans-scalar, Spans-empty, Spans-append, IsBlank}

-- One step back from a boundary above zero.
abbrev pub Previous : Text → ℕ → Type 0
Previous s e =
    (i : ℕ) × (c : ℕ) × (previous_scalar s e ≡ some (i, c))
    × (i < e)
    × IsBoundary s i
    × (scalar_at s i ≡ some c)
    × (e ≡ i + len_utf8 c)

previous_scalar_before :
    (s : Text) (e c : ℕ)
    → scalar_before s e ≡ some c
    → previous_scalar s e ≡ some (e - len_utf8 c, c)
unfolding previous_scalar
previous_scalar_before s e c h = rw h

pub previous_scalar_lem : (s : Text) (e : ℕ) → IsBoundary s e → 0 < e → Previous s e
previous_scalar_lem s e be lt =
    let (c, step) = scalar_before_lem s e be lt in
    let (low, _) = len_utf8_bounds c in
    (
      e - len_utf8 c,
      c,
      previous_scalar_before s e c step.0,
      omega (arith, step.1),
      step.2,
      step.3,
      omega (arith, step.1),
    )

trim_loop_stop : (f : ℕ) (s : Text) (e : ℕ) → ltb 0 e ≡ false → trim_loop (suc f) s e ≡ some e
unfolding trim_loop
trim_loop_stop f s e h = rw (h, trim_loop)

trim_loop_round :
    (f : ℕ) (s : Text) (e c i : ℕ)
    → ltb 0 e ≡ true
    → previous_scalar s e ≡ some (i, c)
    → trim_loop (suc f) s e ≡ (elim (is_whitespace c) [ true ↦ trim_loop f s i | false ↦ some e ])
unfolding trim_loop
trim_loop_round f s e c i h k = rw (h, trim_loop) (rw k)

-- The end of a trim that started at `e`.
abbrev pub TrimsTo : Text → ℕ → ℕ → Type 0
TrimsTo s e j = (j ≤ e) × IsBoundary s j × IsBlank s j e

trim_loop_lem :
    (f : ℕ) (s : Text) (e : ℕ)
    → e < f
    → IsBoundary s e
    → (j : ℕ) × (trim_loop f s e ≡ some j) × TrimsTo s e j
trim_loop_lem zero s e h be = absurd (omega arith)
trim_loop_lem (suc f) s e h be = elim (Bool-cases (ltb 0 e)) [
  | inl more ↦
      let (i, c, prev, lt, bi, at, eq) = previous_scalar_lem s e be (ltb→lt 0 e more) in
      elim (Bool-cases (is_whitespace c)) [
        | inl pass ↦
            let (j, run, ends) = trim_loop_lem f s i (omega arith) bi in
            let tail : IsBlank s i e =
              subst (IsBlank s i) (sym eq) (Spans-scalar is_whitespace s i c at pass) in
            (
              j,
              trim_loop_round f s e c i more prev ∙ rw (pass, run),
              (omega (arith, ends.0), ends.1, Spans-append is_whitespace s j i e ends.2 tail),
            )
        | inr fail ↦ (
          e,
          trim_loop_round f s e c i more prev ∙ rw fail,
          (omega arith, be, Spans-empty is_whitespace s e be),
        )
      ]
  | inr done ↦ (e, trim_loop_stop f s e done, (omega arith, be, Spans-empty is_whitespace s e be))
]

pub trim_trailing_whitespace_lem :
    (s : Text) (e : ℕ)
    → IsBoundary s e
    → (j : ℕ) × (trim_trailing_whitespace s e ≡ some j) × TrimsTo s e j
unfolding trim_trailing_whitespace
trim_trailing_whitespace_lem s e = trim_loop_lem (suc e) s e (omega arith)

floor_loop_lem :
    (left : ℕ) (s : Text) (index : ℕ)
    → left ≤ index
    → IsBoundary s (index - left)
    → (index - left ≤ floor_loop left s index)
      × (floor_loop left s index ≤ index)
      × IsBoundary s (floor_loop left s index)
unfolding floor_loop
floor_loop_lem zero s index le b =
    let z : index - 0 ≡ index = omega arith in (omega arith, omega arith, rw z at b)
floor_loop_lem (suc left) s index le b = elim (Bool-cases (is_char_boundary s index)) [
  | inl here ↦ rw (here, floor_loop) (omega arith, omega arith, here)
  | inr below ↦
      let z : index - suc left ≡ index - 1 - left = omega arith in
      let ih = floor_loop_lem left s (index - 1) (omega arith) (rw z at b) in
      rw (below, floor_loop) (omega (arith, ih.0), omega (arith, ih.1), ih.2)
]

-- The boundary at or below `index`, not below the boundary `minimum`.
pub floor_char_boundary_lem :
    (s : Text) (index minimum : ℕ)
    → IsBoundary s minimum
    → minimum ≤ index
    → (minimum ≤ floor_char_boundary s index minimum)
      × (floor_char_boundary s index minimum ≤ index)
      × IsBoundary s (floor_char_boundary s index minimum)
unfolding floor_char_boundary
floor_char_boundary_lem s index minimum b le =
    let z : index - (index - minimum) ≡ minimum = omega arith in
    let f = floor_loop_lem (index - minimum) s index (omega arith) (rw z b) in
    (omega (arith, f.0), f.1, f.2)

-- The boundary strictly below `index`, if `minimum` lies below it.
pub previous_char_boundary_lem :
    (s : Text) (index minimum : ℕ)
    → IsBoundary s minimum
    → minimum < index
    → (minimum ≤ previous_char_boundary s index minimum)
      × (previous_char_boundary s index minimum < index)
      × IsBoundary s (previous_char_boundary s index minimum)
unfolding previous_char_boundary
previous_char_boundary_lem s index minimum b lt =
    let z : index - 1 - (index - 1 - minimum) ≡ minimum = omega arith in
    let f = floor_loop_lem (index - 1 - minimum) s (index - 1) (omega arith) (rw z b) in
    rw (lt→ltb _ _ lt, previous_char_boundary) (omega (arith, f.0), omega (arith, f.1), f.2)
