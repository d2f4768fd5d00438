-- ===== src/Segmenter/Split/Loop.antt =====
-- The loops of segmenter.rs that cut an oversize sentence and walk over the units: the segments so far
-- always cover the text up to the current offset, and each of them fits.
use mathlib.Core.List.{concat-ne-nil}
use marian_edge.Common.{
  Ensures-option, ℕ, zero, suc, ◌+◌, ◌≤◌, ◌<◌, ◌≡◌, ◌≢◌, false, List, [], ◌∷◌, ◌++◌, Option, some,
  arith, leb, length, length-append, All, All-append, subst, ok, Ensures, Ensures-bind, Ensures-if,
}
use marian_edge.Text.{Text}
use marian_edge.Text.Boundary.{IsBoundary}
use marian_edge.Segmenter.{is_whitespace, Range, TextSegment, BreakPoint, max_segments}
use marian_edge.Segmenter.Span.{IsPiece, Chain, Chain-append}
use marian_edge.Segmenter.Scan.{IsBlank, Spans-empty}
use marian_edge.Segmenter.Counter.{Counted, PieceCounter}
use marian_edge.Segmenter.Break.Points.{IsCut}
use marian_edge.Segmenter.Split.{
  push_segment, select_break, choose_part, rightmost_fitting_break, largest_fitting_scalar_prefix,
}
use marian_edge.Segmenter.Split.Search.{
  Fits, Sound, IsBest, IsPrefix, rightmost_fitting_break_lem, largest_fitting_scalar_prefix_lem,
}

abbrev pub segment_content : TextSegment → Range
segment_content s = s.content_range

abbrev pub segment_separator : TextSegment → Range
segment_separator s = s.separator_range

-- The segments in order, from one offset to another.
abbrev pub Segments : Text → ℕ → List TextSegment → ℕ → Type 0
Segments text = Chain segment_content segment_separator text

module _ (text : Text) (count_pieces : Text → Counted) (max_pieces : ℕ) where
  abbrev pub SegmentFits : TextSegment → Type 0
  SegmentFits s =
      Fits text count_pieces max_pieces s.content_range.start s.content_range.finish s.source_pieces

  -- The segments cover the text up to `b`, fit, and are not too many.
  pub record Covered (result : List TextSegment) (b : ℕ) : Type 0 where
    pub chain : Segments text 0 result b
    pub fits : All SegmentFits result
    pub boundary : IsBoundary text b
    pub bounded : length result ≤ max_segments

  -- The end of the next part, the start of the part behind it, and the pieces.
  abbrev pub IsPart : ℕ → ℕ → ℕ × ℕ × ℕ → Type 0
  IsPart start end p =
      (start < p.0)
      × (p.0 ≤ p.1)
      × (p.1 ≤ end)
      × IsBoundary text p.0
      × IsBoundary text p.1
      × IsBlank text p.0 p.1
      × Fits text count_pieces max_pieces start p.0 p.2

  abbrev BestFound : ℕ → ℕ → Option (BreakPoint × ℕ) × PieceCounter → Type 0
  BestFound start end r =
      IsBest text count_pieces max_pieces start end r.0 × Sound text count_pieces max_pieces r.1

  select_break_lem :
      (left priority : ℕ) (points : List BreakPoint) (start end : ℕ) (counter : PieceCounter)
      → All (IsCut text end) points
      → IsBoundary text start
      → Sound text count_pieces max_pieces counter
      → Ensures
          (BestFound start end)
          (select_break text count_pieces max_pieces left priority points start end counter)
  unfolding select_break
  select_break_lem zero priority points start end counter cuts bs sound = (tt, sound)
  select_break_lem (suc left) priority points start end counter cuts bs sound =
      Ensures-bind (BestFound start end) (BestFound start end)
        (rightmost_fitting_break text count_pieces max_pieces points priority start end counter) _
        (rightmost_fitting_break_lem text count_pieces max_pieces points priority start end counter
          cuts bs sound)
        λ r h.
          Ensures-option (BestFound start end) r.0 _ _
            (λ b e. (subst (IsBest text count_pieces max_pieces start end) e h.0, h.1))
            (λ _. select_break_lem left (priority + 1) points start end r.1 cuts bs h.1)

  pub choose_part_lem :
      (points : List BreakPoint) (start end : ℕ) (counter : PieceCounter)
      → All (IsCut text end) points
      → IsBoundary text start
      → IsBoundary text end
      → start < end
      → Sound text count_pieces max_pieces counter
      → Ensures
          (λ r. IsPart start end r.0 × Sound text count_pieces max_pieces r.1)
          (choose_part text count_pieces max_pieces points start end counter)
  unfolding choose_part
  choose_part_lem points start end counter cuts bs be lt sound =
      Ensures-bind (BestFound start end) Q
        (select_break text count_pieces max_pieces 3 0 points start end counter) _
        (select_break_lem 3 0 points start end counter cuts bs sound)
        λ r h.
          Ensures-option Q r.0 _ _
            (λ b e. (at_cut b (subst (IsBest text count_pieces max_pieces start end) e h.0), h.1))
            (λ _.
              Ensures-bind
                (λ p.
                  IsPrefix text count_pieces max_pieces start end p.0
                  × Sound text count_pieces max_pieces p.1)
                Q (largest_fitting_scalar_prefix text count_pieces max_pieces start end r.1) _
                (largest_fitting_scalar_prefix_lem text count_pieces max_pieces start end r.1 bs be
                  lt h.1)
                λ p k. (at_prefix p.0 k.0, k.1))
    where
      Q : (ℕ × ℕ × ℕ) × PieceCounter → Type 0
      Q r = IsPart start end r.0 × Sound text count_pieces max_pieces r.1

      at_cut :
          (b : BreakPoint × ℕ)
          → IsBest text count_pieces max_pieces start end (some b)
          → IsPart start end (b.0.content_end, b.0.next_start, b.1)
      at_cut b h = (
        h.0.content_after, h.0.cut.ordered, h.0.cut.within, h.0.cut.content_boundary,
        h.0.cut.next_boundary, h.0.cut.blank, h.1,
      )

      at_prefix :
          (p : ℕ × ℕ)
          → IsPrefix text count_pieces max_pieces start end p
          → IsPart start end (p.0, p.0, p.1)
      at_prefix p h = (h.0, omega arith, h.1, h.2, h.2, Spans-empty is_whitespace text p.0 h.2, h.3)

  -- A segment that fits is appended, unless there are too many.
  pub push_segment_lem :
      (result : List TextSegment) (segment : TextSegment) (a : ℕ)
      → Covered result a
      → IsPiece text a segment.content_range segment.separator_range
      → SegmentFits segment
      → Ensures
          (λ r. Covered r segment.separator_range.finish × (r ≢ []))
          (push_segment result segment)
  unfolding push_segment
  push_segment_lem result segment a v piece fit =
      Ensures-if (λ r. Covered r segment.separator_range.finish × (r ≢ []))
        (leb max_segments (length result)) _ (ok (result ++ segment ∷ [])) (λ _. tt)
        λ room. (
          record {
            chain =
                Chain-append segment_content segment_separator text result segment 0 a v.chain
                  piece;
            fits = All-append SegmentFits result (segment ∷ []) v.fits (fit, tt);
            boundary = piece.separator_boundary;
            bounded = appended room;
          },
          concat-ne-nil segment result,
        )
    where
      appended :
          leb max_segments (length result) ≡ false → length (result ++ segment ∷ []) ≤ max_segments
      appended room = ground (arith, length-append result (segment ∷ []))
