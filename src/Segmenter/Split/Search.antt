-- ===== src/Segmenter/Split/Search.antt =====
-- The two binary searches of segmenter.rs end, and what they return fits.
use marian_edge.Common.{
  ℕ, zero, suc, ◌+◌, ◌-◌, ◌/◌, ◌≤◌, ◌<◌, ◌≡◌, refl, true, false, List, [], ◌∷◌, Option, none, some,
  arith, Bool-cases, inl, inr, ltb, ltb→lt, leb, leb→le, length, get_elem?, retain, All,
  All-get_elem?, Outcome, ok, crash, ◌>>=◌, Ensures, Ensures-bind, Ensures-if, Ensures-elim,
  Ensures-or_crash,
}
use marian_edge.Text.{Text}
use marian_edge.Text.Boundary.{IsBoundary}
use marian_edge.Segmenter.{
  SegmentError, BreakPoint, next_scalar, floor_char_boundary, previous_char_boundary,
}
use marian_edge.Segmenter.Counter.{Counted, PieceCounter, count, IsCount, IsSound, count_lem}
use marian_edge.Segmenter.Scan.{next_scalar_lem}
use marian_edge.Segmenter.Back.{floor_char_boundary_lem, previous_char_boundary_lem}
use marian_edge.Segmenter.Break.Points.{IsCut}
use marian_edge.Segmenter.Split.{
  is_candidate, search_breaks, rightmost_fitting_break, search_prefix,
  largest_fitting_scalar_prefix,
}

module _ (text : Text) (count_pieces : Text → Counted) (max_pieces : ℕ) where
  -- The range from `a` to `b` has `n` pieces, which is not too many.
  pub record Fits (a b n : ℕ) : Type 0 where
    pub exact : IsCount text count_pieces a b n
    pub small : n ≤ max_pieces

  abbrev pub Sound : PieceCounter → Type 0
  Sound = IsSound text count_pieces

  -- A count in front of further work.
  pub counting :
      {A : Type 0} (Q : A → Type 0) (counter : PieceCounter) (a b : ℕ)
      (f : ℕ × PieceCounter → Outcome SegmentError A)
      → Sound counter
      → IsBoundary text a
      → IsBoundary text b
      → a ≤ b
      → ((n : ℕ) (counter' : PieceCounter)
          → IsCount text count_pieces a b n
          → Sound counter'
          → Ensures Q (f (n, counter')))
      → Ensures Q (count text count_pieces counter (record { start = a; finish = b }) >>= f)
  counting Q counter a b f sound ba bb le k =
      Ensures-bind (λ r. IsCount text count_pieces a b r.0 × Sound r.1) Q
        (count text count_pieces counter (record { start = a; finish = b })) f
        (count_lem text count_pieces counter (record { start = a; finish = b }) sound ba bb le)
        λ r h. k r.0 r.1 h.0 h.1

  -- A cut strictly inside the range that is left.
  pub record IsCandidate (start end : ℕ) (p : BreakPoint) : Type 0 where
    pub cut : IsCut text end p
    pub content_after : start < p.content_end
    pub next_after : start < p.next_start
    pub next_before : p.next_start < end

  abbrev pub IsBest : ℕ → ℕ → Option (BreakPoint × ℕ) → Type 0
  IsBest start end none = Unit
  IsBest start end (some (p, n)) = IsCandidate start end p × Fits start p.content_end n

  retain-IsCandidate :
      (priority start end : ℕ) (points : List BreakPoint)
      → All (IsCut text end) points
      → All (IsCandidate start end) (retain (is_candidate priority start end) points)
  unfolding is_candidate
  retain-IsCandidate priority start end [] h = tt
  retain-IsCandidate priority start end (p ∷ points) h =
      elim (Bool-cases (is_candidate priority start end p)) [
        | inl keep ↦
            rw (keep, is_candidate) (tests keep, retain-IsCandidate priority start end points h.1)
        | inr skip ↦ rw (skip, is_candidate) (retain-IsCandidate priority start end points h.1)
      ]
    where
      tests : is_candidate priority start end p ≡ true → IsCandidate start end p
      tests keep = record {
        cut = h.0;
        content_after = ground arith;
        next_after = ground arith;
        next_before = ground arith;
      }

  -- The middle of an interval lies in it, and both halves are shorter.
  middle_lem :
      (low high : ℕ) → low < high → (low ≤ low + (high - low) / 2) × (low + (high - low) / 2 < high)
  middle_lem low high lt = (omega arith, omega arith)

  search_breaks_lem :
      (fuel : ℕ) (candidates : List BreakPoint) (start end low high : ℕ)
      (best : Option (BreakPoint × ℕ)) (counter : PieceCounter)
      → high - low ≤ fuel
      → high ≤ length candidates
      → All (IsCandidate start end) candidates
      → IsBoundary text start
      → Sound counter
      → IsBest start end best
      → Ensures
          (λ r. IsBest start end r.0 × Sound r.1)
          (search_breaks text count_pieces max_pieces fuel candidates start low high best counter)
  unfolding search_breaks
  search_breaks_lem zero candidates start end low high best counter hf hl cs bs sound good =
      Ensures-if _ (ltb low high) crash (ok (best, counter))
        (λ more. absurd (omega (arith, ltb→lt low high more))) (λ _. (good, sound))
  search_breaks_lem (suc fuel) candidates start end low high best counter hf hl cs bs sound good =
      elim (Bool-cases (ltb low high)) [
        | inr done ↦ rw (done, search_breaks) (good, sound)
        | inl more ↦
            let (lo, hi) = middle_lem low high (ltb→lt low high more) in
            let m = low + (high - low) / 2 in
            let (p, get, cand) =
              All-get_elem? (IsCandidate start end) candidates m cs (omega arith) in
            rw (more, search_breaks)
              (Ensures-or_crash Q (get_elem? candidates m) p _ get (
                counting Q counter start p.content_end _ sound bs cand.cut.content_boundary
                  (omega (arith, cand.content_after))
                  λ n counter' exact sound'.
                    Ensures-elim Q (leb n max_pieces) _ _
                      (λ small.
                        search_breaks_lem fuel candidates start end (m + 1) high (some (p, n))
                          counter' (omega arith) hl cs bs sound'
                          (cand, record { exact = exact; small = leb→le n max_pieces small }))
                      (λ _.
                        search_breaks_lem fuel candidates start end low m best counter'
                          (omega arith) (omega arith) cs bs sound' good)))
      ]
    where
      Q : Option (BreakPoint × ℕ) × PieceCounter → Type 0
      Q r = IsBest start end r.0 × Sound r.1

  pub rightmost_fitting_break_lem :
      (points : List BreakPoint) (priority start end : ℕ) (counter : PieceCounter)
      → All (IsCut text end) points
      → IsBoundary text start
      → Sound counter
      → Ensures
          (λ r. IsBest start end r.0 × Sound r.1)
          (rightmost_fitting_break text count_pieces max_pieces points priority start end counter)
  unfolding rightmost_fitting_break
  rightmost_fitting_break_lem points priority start end counter cuts bs sound =
      let candidates = retain (is_candidate priority start end) points in
      search_breaks_lem (length candidates) candidates start end 0 (length candidates) none counter
        (omega arith) (omega arith) (retain-IsCandidate priority start end points cuts) bs sound tt

  -- An end behind the start that fits.
  abbrev pub IsPrefix : ℕ → ℕ → ℕ × ℕ → Type 0
  IsPrefix start end b = (start < b.0) × (b.0 ≤ end) × IsBoundary text b.0 × Fits start b.0 b.1

  search_prefix_lem :
      (fuel start end low high : ℕ) (best : ℕ × ℕ) (counter : PieceCounter)
      → high - low ≤ fuel
      → high ≤ end
      → low ≡ best.0
      → IsBoundary text start
      → Sound counter
      → IsPrefix start end best
      → Ensures
          (λ r. IsPrefix start end r.0 × Sound r.1)
          (search_prefix text count_pieces max_pieces fuel start low high best counter)
  unfolding search_prefix
  search_prefix_lem zero start end low high best counter hf he hl bs sound good =
      Ensures-if _ (ltb low high) crash (ok (best, counter))
        (λ more. absurd (omega (arith, ltb→lt low high more))) (λ _. (good, sound))
  search_prefix_lem (suc fuel) start end low high best counter hf he hl bs sound good =
      elim (Bool-cases (ltb low high)) [
        | inr done ↦ rw (done, search_prefix) (good, sound)
        | inl more ↦
            let lt = ltb→lt low high more in
            let raw = low + (high - low + 1) / 2 in
            let middle = floor_char_boundary text raw start in
            let floor = floor_char_boundary_lem text raw start bs (omega (arith, good.0)) in
            rw (more, search_prefix)
              (Ensures-elim Q (leb middle best.0) _ _ (λ _. (good, sound))
                λ further.
                  let beyond = not_leb middle best.0 further in
                  let back =
                    previous_char_boundary_lem text middle start bs (omega (arith, good.0)) in
                  counting Q counter start middle _ sound bs floor.2 (omega (arith, good.0))
                    λ n counter' exact sound'.
                      Ensures-elim Q (leb n max_pieces) _ _
                        (λ small.
                          search_prefix_lem fuel start end middle high (middle, n) counter'
                            (omega (arith, floor.1)) he refl bs sound'
                            (
                              omega (arith, good.0),
                              omega (arith, floor.1),
                              floor.2,
                              record { exact = exact; small = leb→le n max_pieces small },
                            ))
                        (λ _.
                          search_prefix_lem fuel start end low
                            (previous_char_boundary text middle start) best counter'
                            (omega (arith, floor.1, back.1)) (omega (arith, floor.1, back.1)) hl bs
                            sound' good))
      ]
    where
      Q : (ℕ × ℕ) × PieceCounter → Type 0
      Q r = IsPrefix start end r.0 × Sound r.1

      not_leb : (a b : ℕ) → leb a b ≡ false → b < a
      not_leb a b h = ground arith

  -- For a range between two boundaries that is not empty, and a sound counter: the search does not
  -- panic, and a prefix that it returns ends at a boundary behind the start, within the range, with
  -- its exact number of pieces, at most `max_pieces`; the counter is sound again.
  pub largest_fitting_scalar_prefix_lem :
      (start end : ℕ) (counter : PieceCounter)
      → IsBoundary text start
      → IsBoundary text end
      → start < end
      → Sound counter
      → Ensures
          (λ r. IsPrefix start end r.0 × Sound r.1)
          (largest_fitting_scalar_prefix text count_pieces max_pieces start end counter)
  unfolding largest_fitting_scalar_prefix
  largest_fitting_scalar_prefix_lem start end counter bs be lt sound =
      let (c, n, next, more, ne, bn, _, _) = next_scalar_lem text start end bs be lt in
      Ensures-or_crash Q (next_scalar text start) (c, n) _ next
        (counting Q counter start n _ sound bs bn (omega arith) λ m counter' exact sound'.
          Ensures-if Q (ltb max_pieces m) _ _ (λ _. tt)
            λ small.
              search_prefix_lem (end - n) start end n end (n, m) counter' (omega arith)
                (omega arith) refl bs sound'
                (more, ne, bn, record { exact = exact; small = not_ltb max_pieces m small }))
    where
      Q : (ℕ × ℕ) × PieceCounter → Type 0
      Q r = IsPrefix start end r.0 × Sound r.1

      not_ltb : (a b : ℕ) → ltb a b ≡ false → b ≤ a
      not_ltb a b h = ground arith
