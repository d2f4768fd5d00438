-- ===== src/Segmenter/Break/Dashes.antt =====
-- The dashes and priorities of the search for break points: none of their scans panics.
use marian_edge.Common.{
  ℕ, zero, suc, ◌+◌, ◌≤◌, ◌<◌, ◌≡◌, refl, sym, ap, ◌∙◌, true, false, Option, none, some, arith,
  Bool-cases, inl, inr, leb, subst, if◌then◌else◌, some_inj, ◌==◌, ==_iff, Option-cases,
}
use marian_edge.Common.Partial.{◌>>=◌, Runs, Runs-known, Runs-bind, Runs-if}
use marian_edge.Text.{Text, is_whitespace, scalar_at, len_utf8}
use marian_edge.Text.Boundary.{IsBoundary, scalar_at_lem}
use marian_edge.Segmenter.{Range, next_scalar, previous_scalar}
use marian_edge.Segmenter.Scan.{next_scalar_lem}
use marian_edge.Segmenter.Back.{previous_scalar_lem}
use marian_edge.Segmenter.Break.{
  byte_is, is_hard_mark, is_comma, is_dash_boundary, priority_of, dash_loop,
}

-- The code runs to its end.
abbrev pub Done {ℓ} : {A : Type ℓ} → A → Type 0
Done _ = Unit {0}

abbrev pub Total {ℓ} : {A : Type ℓ} → Option A → Type 0
Total = Runs Done

module _ (s : Text) (range : Range) (be : IsBoundary s range.finish) where
  -- An ASCII scalar is one byte long.
  dash_next :
      (i : ℕ) (c : ℕ)
      → IsBoundary s i
      → i < range.finish
      → scalar_at s i ≡ some c
      → c ≡ b'-'
      → IsBoundary s (i + 1)
  dash_next i c bi lt at dash =
      let (c', step) = scalar_at_lem s i range.finish bi be lt in
      let same : c' ≡ c = some_inj (sym step.0 ∙ at) in
      let one : len_utf8 c' ≡ 1 = ap len_utf8 (same ∙ dash) ∙ dash_len in
      subst (IsBoundary s) (ap (◌+◌ i) one) step.1
    where
      dash_len : len_utf8 b'-' ≡ 1
      dash_len = unfold len_utf8 in refl

  is_dash_boundary-Total :
      (i : ℕ)
      → IsBoundary s i
      → IsBoundary s (i + 1)
      → range.start ≤ i
      → Total (is_dash_boundary s i range)
  unfolding is_dash_boundary
  is_dash_boundary-Total i bi bi' le =
      Runs-bind Done Done
        (if i == range.start
          then some true
          else (previous_scalar s i >>= λ p. some (is_whitespace p.1)))
        _
        (Runs-if Done (i == range.start) (some true)
          (previous_scalar s i >>= λ p. some (is_whitespace p.1)) (λ _. tt)
          λ ne.
            let (j, c, prev, _, _, _, _) = previous_scalar_lem s i bi (positive i ne le) in
            Runs-known Done (previous_scalar s i) (j, c) (λ p. some (is_whitespace p.1)) prev tt)
        λ before _.
          Runs-bind Done Done
            (if leb range.finish (i + 1)
              then some true
              else (next_scalar s (i + 1) >>= λ p. some (is_whitespace p.0)))
            _
            (Runs-if Done (leb range.finish (i + 1)) (some true)
              (next_scalar s (i + 1) >>= λ p. some (is_whitespace p.0)) (λ _. tt)
              λ more.
                let (c, n, next, _, _, _, _, _) =
                  next_scalar_lem s (i + 1) range.finish bi' be (below i more) in
                Runs-known Done (next_scalar s (i + 1)) (c, n) (λ p. some (is_whitespace p.0)) next
                  tt)
            λ after _. tt
    where
      positive : (i : ℕ) → (i == range.start) ≡ false → range.start ≤ i → 0 < i
      positive i ne le = ground arith

      below : (i : ℕ) → leb range.finish (i + 1) ≡ false → i + 1 < range.finish
      below i more = ground arith

  pub dash_loop_lem :
      (left i : ℕ)
      → IsBoundary s i
      → i + left ≤ range.finish
      → (i ≤ dash_loop left s i)
        × (dash_loop left s i ≤ range.finish)
        × IsBoundary s (dash_loop left s i)
  unfolding dash_loop
  dash_loop_lem zero i bi le = (omega arith, omega arith, bi)
  dash_loop_lem (suc left) i bi le = elim (Bool-cases (byte_is s i b'-')) [
    | inl dash ↦
        let (c, at, e) = byte_is_scalar i dash in
        let ih = dash_loop_lem left (i + 1) (dash_next i c bi (omega arith) at e) (omega arith) in
        rw (dash, dash_loop) (omega (arith, ih.0), ih.1, ih.2)
    | inr other ↦ rw (other, dash_loop) (omega arith, omega arith, bi)
  ]
    where
      byte_is_scalar :
          (i : ℕ) → byte_is s i b'-' ≡ true → (c : ℕ) × (scalar_at s i ≡ some c) × (c ≡ b'-')
      byte_is_scalar i h = elim (Option-cases (scalar_at s i)) [
        | inl e ↦ let bad : false ≡ true = rw (e, byte_is) at h in absurd (cc)
        | inr (c, e) ↦ (c, e, (==_iff c b'-').0 (rw (e, byte_is) at h))
      ]

  pub priority_of-Total :
      (c n i : ℕ)
      → IsBoundary s i
      → i < range.finish
      → range.start ≤ i
      → next_scalar s i ≡ some (c, n)
      → Total (priority_of s c i range)
  unfolding priority_of
  priority_of-Total c n i bi lt le next =
      let (c', n', next', _, _, bn, at, _) = next_scalar_lem s i range.finish bi be lt in
      let same : c' ≡ c = ap (λ p. p.0) (some_inj {a = (c', n')} {b = (c, n)} (sym next' ∙ next)) in
      Runs-if {A = Option ℕ} Done (is_hard_mark c) (some (some 0)) _ (λ _. tt)
        λ _.
          Runs-if {A = Option ℕ} Done (is_comma c) (some (some 1)) _ (λ _. tt)
            λ _.
              Runs-if {A = Option ℕ} Done (c == b'-') _ (some none)
                (λ dash.
                  Runs-bind Done Done (is_dash_boundary s i range) _
                    (is_dash_boundary-Total i bi
                      (dash_next i c bi lt (at ∙ ap some same) ((==_iff c b'-').0 dash)) le)
                    λ cut _. tt)
                (λ _. tt)
