-- ===== src/Segmenter/Split/Oversize.antt =====
-- The loop of `split_oversize_unit`, and that over the units: what they return covers the text.
use marian_edge.Common.{
  length-modify_last, All-modify_last, ℕ, zero, suc, ◌-◌, ◌≤◌, ◌<◌, ◌≡◌, ◌≢◌, refl, sym, Bool, true,
  false, List, [], arith, Bool-cases, inl, inr, ltb, ltb→lt, leb, leb→le, if◌then◌else◌,
  modify_last, All, subst, ok, crash, Ensures, Ensures-bind, Ensures-if, Ensures-elim,
  Ensures-or_crash,
}
use marian_edge.Text.{Text}
use marian_edge.Text.Boundary.{IsBoundary}
use marian_edge.Segmenter.{SegmentError, TextSegment, SentenceUnit, BreakPoint}
use marian_edge.Segmenter.Span.{IsPiece, Chain-modify_last}
use marian_edge.Segmenter.Scan.{IsBlank}
use marian_edge.Segmenter.Counter.{Counted, PieceCounter}
use marian_edge.Segmenter.Break.{fallback_break_points}
use marian_edge.Segmenter.Break.Points.{IsCut, fallback_break_points_lem}
use marian_edge.Segmenter.Split.{
  push_segment, choose_part, split_loop, end_segment_at, split_oversize_unit,
}
use marian_edge.Segmenter.Split.Search.{Sound, counting}
use marian_edge.Segmenter.Split.Loop.{
  segment_content, segment_separator, SegmentFits, Covered, IsPart, choose_part_lem,
  push_segment_lem,
}

module _ (text : Text) (count_pieces : Text → Counted) (max_pieces : ℕ) where
  -- What the loop leaves: on an early return the unit is covered; else its content is.
  abbrev Reached : SentenceUnit → List TextSegment → Bool → Type 0
  Reached unit result true = Covered text count_pieces max_pieces result unit.separator.finish
  Reached unit result false =
      Covered text count_pieces max_pieces result unit.content.finish × (result ≢ [])

  abbrev LoopEnds : SentenceUnit → (List TextSegment × Bool) × PieceCounter → Type 0
  LoopEnds unit r = Reached unit r.0.0 r.0.1 × Sound text count_pieces max_pieces r.1

  -- A unit whose content ends at a boundary, with its separator behind it.
  record IsUnit (unit : SentenceUnit) : Type 0 where
    content_boundary : IsBoundary text unit.content.finish
    adjacent : unit.separator.start ≡ unit.content.finish
    ordered : unit.content.finish ≤ unit.separator.finish
    separator_boundary : IsBoundary text unit.separator.finish
    blank : IsBlank text unit.content.finish unit.separator.finish

  split_loop_lem :
      (fuel : ℕ) (points : List BreakPoint) (unit : SentenceUnit) (start : ℕ)
      (counter : PieceCounter) (result : List TextSegment)
      → unit.content.finish - start ≤ fuel
      → start ≤ unit.content.finish
      → All (IsCut text unit.content.finish) points
      → IsUnit unit
      → Sound text count_pieces max_pieces counter
      → Covered text count_pieces max_pieces result start
      → (start ≡ unit.content.finish → result ≢ [])
      → Ensures
          (LoopEnds unit)
          (split_loop text count_pieces max_pieces fuel points unit start counter result)
  unfolding split_loop
  split_loop_lem zero points unit start counter result hf le cuts u sound v ne =
      let at : start ≡ unit.content.finish = omega arith in
      Ensures-if (LoopEnds unit) (ltb start unit.content.finish) crash
        (ok ((result, false), counter))
        (λ more. absurd (omega (arith, ltb→lt start unit.content.finish more)))
        (λ _. ((subst (Covered text count_pieces max_pieces result) at v, ne at), sound))
  split_loop_lem (suc fuel) points unit start counter result hf le cuts u sound v ne =
      elim (Bool-cases (ltb start unit.content.finish)) [
        | inr done ↦
            let at = at_end start unit.content.finish le done in
            rw (done, split_loop)
              ((subst (Covered text count_pieces max_pieces result) at v, ne at), sound)
        | inl more ↦
            let lt = ltb→lt start unit.content.finish more in
            rw (more, split_loop)
              (counting text count_pieces max_pieces (LoopEnds unit) counter start
                unit.content.finish _ sound v.boundary u.content_boundary le
                λ n counter' exact sound'.
                  Ensures-elim (LoopEnds unit) (leb n max_pieces) _ _
                    (λ small.
                      Ensures-bind _ (LoopEnds unit) (push_segment result _) _
                        (push_segment_lem text count_pieces max_pieces result
                          (record {
                            content_range = record { start = start; finish = unit.content.finish };
                            separator_range = unit.separator;
                            source_pieces = n;
                          })
                          start v
                          (record {
                            starts = refl;
                            forward = le;
                            content_boundary = u.content_boundary;
                            adjacent = u.adjacent;
                            ordered = u.ordered;
                            separator_boundary = u.separator_boundary;
                            blank = u.blank;
                          })
                          (record { exact = exact; small = leb→le n max_pieces small }))
                        λ result' h. (h.0, sound'))
                    (λ _.
                      Ensures-bind _ (LoopEnds unit)
                        (choose_part text count_pieces max_pieces points start unit.content.finish
                          counter')
                        _
                        (choose_part_lem text count_pieces max_pieces points start
                          unit.content.finish counter' cuts v.boundary u.content_boundary lt sound')
                        λ p part.
                          Ensures-bind _ (LoopEnds unit) (push_segment result _) _
                            (push_part p.0 part.0)
                            λ result' h.
                              split_loop_lem fuel points unit p.0.1 p.1 result'
                                (omega (arith, part.0.0, part.0.1)) part.0.2 cuts u part.1 h.0
                                (λ _. h.1)))
      ]
    where
      at_end : (a b : ℕ) → a ≤ b → ltb a b ≡ false → a ≡ b
      at_end a b le done = ground arith

      push_part :
          (p : ℕ × ℕ × ℕ)
          → IsPart text count_pieces max_pieces start unit.content.finish p
          → Ensures
              (λ r. Covered text count_pieces max_pieces r p.1 × (r ≢ []))
              (push_segment result (record {
                content_range = record { start = start; finish = p.0 };
                separator_range = record { start = p.0; finish = p.1 };
                source_pieces = p.2;
              }))
      push_part p h =
          push_segment_lem text count_pieces max_pieces result _ start v
            (record {
              starts = refl;
              forward = omega (arith, h.0);
              content_boundary = h.3;
              adjacent = refl;
              ordered = h.1;
              separator_boundary = h.4;
              blank = h.5;
            })
            h.6

  -- The last separator is drawn out where the loop ran to the end of the content.
  finish_unit :
      (unit : SentenceUnit) (result : List TextSegment)
      → IsUnit unit
      → Reached unit result false
      → Covered text count_pieces max_pieces
          (if ltb unit.separator.start unit.separator.finish
            then modify_last (end_segment_at unit.separator.finish) result
            else result)
          unit.separator.finish
  finish_unit unit result u (v, ne) =
      elim (Bool-cases (ltb unit.separator.start unit.separator.finish)) [
        | inl more ↦ rw more (record {
          chain =
              Chain-modify_last segment_content segment_separator text
                (end_segment_at unit.separator.finish) result 0 unit.content.finish
                unit.separator.finish (λ _. refl) (λ _. refl) ne v.chain u.ordered
                u.separator_boundary u.blank;
          fits =
              All-modify_last (SegmentFits text count_pieces max_pieces)
                (end_segment_at unit.separator.finish) (λ _ h. h) result v.fits;
          boundary = u.separator_boundary;
          bounded =
              omega (
                arith,
                v.bounded,
                length-modify_last (end_segment_at unit.separator.finish) result,
              );
        })
        | inr done ↦
            let same = no_separator u.adjacent u.ordered done in
            rw done (subst (Covered text count_pieces max_pieces result) same v)
      ]
    where
      no_separator :
          unit.separator.start ≡ unit.content.finish
          → unit.content.finish ≤ unit.separator.finish
          → ltb unit.separator.start unit.separator.finish ≡ false
          → unit.content.finish ≡ unit.separator.finish
      no_separator a o done = ground arith

  abbrev pub CoversTo : ℕ → List TextSegment × PieceCounter → Type 0
  CoversTo b r = Covered text count_pieces max_pieces r.0 b × Sound text count_pieces max_pieces r.1

  pub split_oversize_unit_lem :
      (unit : SentenceUnit) (a : ℕ) (counter : PieceCounter) (result : List TextSegment)
      → IsPiece text a unit.content unit.separator
      → a < unit.content.finish
      → Covered text count_pieces max_pieces result a
      → Sound text count_pieces max_pieces counter
      → Ensures
          (CoversTo unit.separator.finish)
          (split_oversize_unit text count_pieces max_pieces unit counter result)
  unfolding split_oversize_unit
  split_oversize_unit_lem unit a counter result piece lt v sound =
      let bs = subst (IsBoundary text) (sym piece.starts) v.boundary in
      let le : unit.content.start ≤ unit.content.finish =
        omega (arith, piece.starts, piece.forward) in
      let (points, found, cuts, _) =
        fallback_break_points_lem text unit.content piece.content_boundary bs le in
      Ensures-or_crash Q (fallback_break_points text unit.content) points _ found (
        Ensures-bind (LoopEnds unit) Q
          (split_loop text count_pieces max_pieces (unit.content.finish - unit.content.start) points
            unit unit.content.start counter result)
          _
          (split_loop_lem (unit.content.finish - unit.content.start) points unit unit.content.start
            counter result (omega arith) le cuts is_unit sound
            (subst (Covered text count_pieces max_pieces result) (sym piece.starts) v)
            (λ e. absurd (omega (arith, piece.starts, lt, e))))
          λ r h. ended r.0.0 r.0.1 r.1 h.0 h.1)
    where
      Q : List TextSegment × PieceCounter → Type 0
      Q = CoversTo unit.separator.finish

      is_unit : IsUnit unit
      is_unit = record {
        content_boundary = piece.content_boundary;
        adjacent = piece.adjacent;
        ordered = piece.ordered;
        separator_boundary = piece.separator_boundary;
        blank = piece.blank;
      }

      ended :
          (segments : List TextSegment) (early : Bool) (counter' : PieceCounter)
          → Reached unit segments early
          → Sound text count_pieces max_pieces counter'
          → Ensures {E = SegmentError} Q (
              if early
              then ok (segments, counter')
              else if ltb unit.separator.start unit.separator.finish
              then ok (modify_last (end_segment_at unit.separator.finish) segments, counter')
              else ok (segments, counter'))
      ended segments true counter' h s = (h, s)
      ended segments false counter' h s =
          let k = finish_unit unit segments is_unit h in
          Ensures-if Q (ltb unit.separator.start unit.separator.finish) (ok _) (ok _)
            (λ e. (rw e at k, s)) (λ e. (rw e at k, s))
