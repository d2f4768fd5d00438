-- ===== src/Segmenter/Sentence/Period.antt =====
-- `period_can_end_sentence` and `boundary_follows` never panic on the indices of the splitter.
use marian_edge.Common.{
  ℕ, ◌+◌, ◌-◌, ◌≤◌, ◌<◌, ◌≡◌, refl, sym, ap, ◌∙◌, Bool, true, false, ◌&&◌, [], ◌∷◌, Option, none,
  some, arith, ltb, ltb→lt, subst, ◌==◌, ==_iff, if◌then◌else◌,
}
use marian_edge.Common.Partial.{◌>>=◌, Runs, Runs-known, Runs-bind, Runs-if}
use marian_edge.Text.{Text, len_utf8, byte_length, slice, slice_to, slice_from, is_whitespace}
use marian_edge.Text.Boundary.{IsBoundary, end-IsBoundary, zero-IsBoundary}
use marian_edge.Text.Slices.{
  slice_from_zero, slice_total, slice_to_total, slice_from_total, slice_to_cons, slice_from_next,
  slice_from-IsBoundary,
}
use marian_edge.Segmenter.{next_scalar, previous_scalar}
use marian_edge.Segmenter.Scan.{next_scalar_lem}
use marian_edge.Segmenter.Back.{previous_scalar_lem}
use marian_edge.Segmenter.Sentence.{
  is_ascii_digit, neighbour_before, neighbour_after, token_start, is_token_delimiter,
  period_can_end_sentence, boundary_follows, sentence_ends, is_some_and,
}

-- The code runs to its end.
abbrev pub Total {ℓ} : {A : Type ℓ} → Option A → Type 0
Total = Runs (λ _. Unit {0})

abbrev pub Done {ℓ} : {A : Type ℓ} → A → Type 0
Done _ = Unit {0}

neighbour_before-Total : (s : Text) (i : ℕ) → IsBoundary s i → Total (neighbour_before s i)
unfolding neighbour_before
neighbour_before-Total s i b =
    Runs-if Done (ltb 0 i) (previous_scalar s i >>= λ p. some (some p.1)) (some none)
      (λ more.
        let (j, c, prev, _, _, _, _) = previous_scalar_lem s i b (ltb→lt 0 i more) in
        Runs-known Done (previous_scalar s i) (j, c) (λ p. some (some p.1)) prev tt)
      (λ _. tt)

neighbour_after-Total : (s : Text) (i : ℕ) → IsBoundary s (i + 1) → Total (neighbour_after s i)
unfolding neighbour_after
neighbour_after-Total s i b =
    Runs-if Done (ltb (i + 1) (byte_length s)) (next_scalar s (i + 1) >>= λ p. some (some p.0))
      (some none)
      (λ more.
        let (c, n, next, _, _, _, _, _) =
          next_scalar_lem s (i + 1) (byte_length s) b (end-IsBoundary s) (ltb→lt _ _ more) in
        Runs-known Done (next_scalar s (i + 1)) (c, n) (λ p. some (some p.0)) next tt)
      (λ _. tt)

delimited :
    (s : Text) (t : Bool) (found m : ℕ)
    → IsBoundary s found
    → IsBoundary s m
    → found ≤ m
    → IsBoundary s (if t then m else found) × ((if t then m else found) ≤ m)
delimited s true found m b bm le = (bm, omega arith)
delimited s false found m b bm le = (b, le)

-- The start of the token is a boundary at or before the end of the scanned text.
token_start_lem :
    (s : Text) (p : Text) (found offset n : ℕ) (q : Text)
    → slice_from s offset ≡ some q
    → slice_to q n ≡ some p
    → IsBoundary s found
    → found ≤ offset
    → IsBoundary s (token_start found offset p) × (token_start found offset p ≤ offset + n)
unfolding token_start
token_start_lem s [] found offset n q h k b le = (b, omega arith)
token_start_lem s (c ∷ p) found offset n q h k b le =
    let (q', same, fits, k') = slice_to_cons q n c p k in
    let h' = slice_from_next s offset c q' (h ∙ ap some same) in
    let b' = slice_from-IsBoundary s (offset + len_utf8 c) h' in
    let found' = if is_token_delimiter c then offset + len_utf8 c else found in
    let facts : IsBoundary s found' × (found' ≤ offset + len_utf8 c) =
      delimited s (is_token_delimiter c) found (offset + len_utf8 c) b b' (omega arith) in
    let ih =
      token_start_lem s p found' (offset + len_utf8 c) (n - len_utf8 c) q' h' k' facts.0 facts.1 in
    (ih.0, omega (arith, ih.1, fits))

boundary_follows-Total :
    (s : Text) (i e : ℕ) → IsBoundary s i → IsBoundary s e → Total (boundary_follows s i e)
unfolding boundary_follows
boundary_follows-Total s i e bi be =
    Runs-if Done (i == e) (some true) _ (λ _. tt)
      λ _.
        Runs-if Done (ltb i e) (next_scalar s i >>= λ p. some (is_whitespace p.0)) (some false)
          (λ more.
            let (c, n, next, _, _, _, _, _) = next_scalar_lem s i e bi be (ltb→lt _ _ more) in
            Runs-known Done (next_scalar s i) (c, n) (λ p. some (is_whitespace p.0)) next tt)
          (λ _. tt)

-- A period is one byte long.
after_period :
    (s : Text) (i e c n : ℕ)
    → IsBoundary s e
    → IsBoundary s i
    → i < e
    → next_scalar s i ≡ some (c, n)
    → c ≡ b'.'
    → IsBoundary s (i + 1)
after_period s i e c n be bi lt next dot =
    let (c', n', next', _, _, bn, _, eq) = next_scalar_lem s i e bi be lt in
    let same : c ≡ c' = cc in
    let one : len_utf8 c' ≡ 1 = ap len_utf8 (sym same ∙ dot) ∙ period_len in
    subst (IsBoundary s) (eq ∙ ap (◌+◌ i) one) bn
  where
    period_len : len_utf8 b'.' ≡ 1
    period_len = unfold len_utf8 in refl

period_can_end_sentence-Total :
    (s : Text) (i q : ℕ)
    → IsBoundary s i
    → IsBoundary s (i + 1)
    → IsBoundary s q
    → Total (period_can_end_sentence s i q)
unfolding period_can_end_sentence
period_can_end_sentence-Total s i q bi bi' bq =
    let (before, eb) = slice_to_total s i bi in
    let (following, ef) = slice_from_total s q bq in
    let (start, within) =
      token_start_lem s before 0 0 i s (slice_from_zero s) eb (zero-IsBoundary s) (omega arith) in
    let (raw, er) = slice_total s (token_start 0 0 before) (i + 1) start bi' (omega arith) in
    Runs-bind Done Done (neighbour_before s i) _ (neighbour_before-Total s i bi) λ previous _.
      Runs-bind Done Done (neighbour_after s i) _ (neighbour_after-Total s i bi') λ next _.
        Runs-if Done (is_some_and is_ascii_digit previous && is_some_and is_ascii_digit next)
          (some false) _ (λ _. tt)
          λ _. Runs-known Done (slice_to s i) before _ eb (
            Runs-known Done (slice s (token_start 0 0 before) (i + 1)) raw _ er
              (Runs-known Done (slice_from s q) following _ ef tt))

-- Whether a sentence ends is decided at every terminator of the text.
pub sentence_ends-Total :
    (s : Text) (e i q c n : ℕ)
    → IsBoundary s e
    → IsBoundary s i
    → IsBoundary s q
    → i < e
    → next_scalar s i ≡ some (c, n)
    → Total (sentence_ends s e i q c)
unfolding sentence_ends
sentence_ends-Total s e i q c n be bi bq lt next =
    Runs-bind Done Done (boundary_follows s q e) _ (boundary_follows-Total s q e bq be) λ follows _.
      Runs-if Done follows _ (some false)
        (λ _.
          Runs-if Done (c == b'.') (period_can_end_sentence s i q) (some true)
            (λ dot.
              let e' : c ≡ b'.' = (==_iff c b'.').0 dot in
              period_can_end_sentence-Total s i q bi (after_period s i e c n be bi lt next e') bq)
            (λ _. tt))
        (λ _. tt)
