-- ===== src/Segmenter/Split.antt =====
-- segmenter.rs, `segment_text` and the search for the longest part of a sentence that fits. The fuel
-- of each loop is the length of the interval that it halves, or the bytes that are left.
pub mod Search
pub mod Loop
pub mod Oversize
pub mod Whole
use marian_edge.Common.{
  ℕ, zero, suc, ◌+◌, ◌-◌, ◌/◌, Bool, true, false, ◌&&◌, List, [], ◌∷◌, ◌++◌, Option, none, some,
  ltb, leb, ◌==◌, if◌then◌else◌, length, get_elem?, retain, modify_last, Outcome, ok, err, crash,
  ◌>>=◌, ◌>>◌, fail_if, or_crash,
}
use marian_edge.Text.{Text, byte_length, slice}
use marian_edge.Segmenter.{
  Range, TextSegment, SegmentError, zero_piece_limit, input_too_large, too_many_segments,
  unsplitable_scalar, SentenceUnit, BreakPoint, max_segmenter_input_bytes, max_segments,
  next_scalar, trim_trailing_whitespace, floor_char_boundary, previous_char_boundary,
}
use marian_edge.Segmenter.Counter.{Counted, PieceCounter, new, count}
use marian_edge.Segmenter.Sentence.{sentence_units}
use marian_edge.Segmenter.Break.{fallback_break_points}

-- `&source[self.content_range]`, `&source[self.separator_range]` and `full_range`.
unfoldable pub content : TextSegment → Text → Option Text
content segment source = slice source segment.content_range.start segment.content_range.finish

unfoldable pub separator : TextSegment → Text → Option Text
separator segment source = slice source segment.separator_range.start segment.separator_range.finish

pub full_range : TextSegment → Range
full_range segment = record {
  start = segment.content_range.start;
  finish = segment.separator_range.finish;
}

pub push_segment : List TextSegment → TextSegment → Outcome SegmentError (List TextSegment)
push_segment result segment =
    if leb max_segments (length result)
    then err (too_many_segments max_segments)
    else ok (result ++ segment ∷ [])

-- The filter of `rightmost_fitting_break`.
pub is_candidate : ℕ → ℕ → ℕ → BreakPoint → Bool
is_candidate priority start end point =
    point.priority == priority
    && ltb start point.content_end
    && ltb start point.next_start
    && ltb point.next_start end

abbrev end_segment_at : ℕ → TextSegment → TextSegment
end_segment_at end segment = record segment {
  separator_range = record { start = segment.separator_range.start; finish = end };
}

module _ (text : Text) (count_pieces : Text → Counted) (max_pieces : ℕ) where
  -- A step of work that uses the counter.
  abbrev pub Counting : Type 0 → Type 0
  Counting A = Outcome SegmentError (A × PieceCounter)

  -- The binary search over the candidates, with the best so far.
  pub search_breaks :
      ℕ
      → List BreakPoint
      → ℕ
      → ℕ
      → ℕ
      → Option (BreakPoint × ℕ)
      → PieceCounter
      → Counting (Option (BreakPoint × ℕ))
  search_breaks zero candidates start low high best counter =
      if ltb low high then crash else ok (best, counter)
  search_breaks (suc fuel) candidates start low high best counter = elim (ltb low high) [
    | false ↦ ok (best, counter)
    | true ↦
        let middle = low + (high - low) / 2 in
        or_crash (get_elem? candidates middle) >>= λ candidate.
        count text count_pieces counter (record { start = start; finish = candidate.content_end })
        >>= λ r. elim (leb r.0 max_pieces) [
          | true ↦ search_breaks fuel candidates start (middle + 1) high (some (candidate, r.0)) r.1
          | false ↦ search_breaks fuel candidates start low middle best r.1
        ]
  ]

  pub rightmost_fitting_break :
      List BreakPoint → ℕ → ℕ → ℕ → PieceCounter → Counting (Option (BreakPoint × ℕ))
  unfolding search_breaks is_candidate
  rightmost_fitting_break points priority start end counter =
      let candidates = retain (is_candidate priority start end) points in
      search_breaks (length candidates) candidates start 0 (length candidates) none counter

  -- The binary search over byte offsets; `best` is an end with its count.
  pub search_prefix : ℕ → ℕ → ℕ → ℕ → ℕ × ℕ → PieceCounter → Counting (ℕ × ℕ)
  search_prefix zero start low high best counter =
      if ltb low high then crash else ok (best, counter)
  search_prefix (suc fuel) start low high best counter = elim (ltb low high) [
    | false ↦ ok (best, counter)
    | true ↦
        let raw_middle = low + (high - low + 1) / 2 in
        let middle = floor_char_boundary text raw_middle start in
        elim (leb middle best.0) [
          | true ↦ ok (best, counter)
          | false ↦
              count text count_pieces counter (record { start = start; finish = middle }) >>= λ r.
              elim (leb r.0 max_pieces) [
                | true ↦ search_prefix fuel start middle high (middle, r.0) r.1
                | false ↦
                    search_prefix fuel start low (previous_char_boundary text middle start) best r.1
              ]
        ]
  ]

  pub largest_fitting_scalar_prefix : ℕ → ℕ → PieceCounter → Counting (ℕ × ℕ)
  unfolding search_prefix
  largest_fitting_scalar_prefix start end counter = or_crash (next_scalar text start) >>= λ p.
      count text count_pieces counter (record { start = start; finish = p.1 }) >>= λ r.
      if ltb max_pieces r.0
      then err (unsplitable_scalar start p.1 r.0 max_pieces)
      else search_prefix (end - p.1) start p.1 end (p.1, r.0) r.1

  -- `for priority in 0..=2`: the first priority that has a cut.
  pub select_break :
      ℕ → ℕ → List BreakPoint → ℕ → ℕ → PieceCounter → Counting (Option (BreakPoint × ℕ))
  select_break zero priority points start end counter = ok (none, counter)
  select_break (suc left) priority points start end counter =
      rightmost_fitting_break points priority start end counter >>= λ r. elim r.0 [
        | some candidate ↦ ok (some candidate, r.1)
        | none ↦ select_break left (priority + 1) points start end r.1
      ]

  -- Where the next part ends, where the part behind it starts, and its pieces.
  pub choose_part : List BreakPoint → ℕ → ℕ → PieceCounter → Counting (ℕ × ℕ × ℕ)
  unfolding select_break rightmost_fitting_break largest_fitting_scalar_prefix
  choose_part points start end counter = select_break 3 0 points start end counter >>= λ r.
      elim r.0 [
        | some candidate ↦ ok ((candidate.0.content_end, candidate.0.next_start, candidate.1), r.1)
        | none ↦
            largest_fitting_scalar_prefix start end r.1 >>= λ p. ok ((p.0.0, p.0.0, p.0.1), p.1)
      ]

  -- The loop of `split_oversize_unit`; the last component tells whether it returned early.
  pub split_loop :
      ℕ
      → List BreakPoint
      → SentenceUnit
      → ℕ
      → PieceCounter
      → List TextSegment
      → Counting (List TextSegment × Bool)
  split_loop zero points unit start counter result =
      if ltb start unit.content.finish then crash else ok ((result, false), counter)
  split_loop (suc fuel) points unit start counter result = elim (ltb start unit.content.finish) [
    | false ↦ ok ((result, false), counter)
    | true ↦
        count text count_pieces counter (record { start = start; finish = unit.content.finish })
        >>= λ r. elim (leb r.0 max_pieces) [
          | true ↦
              push_segment result (record {
                content_range = record { start = start; finish = unit.content.finish };
                separator_range = unit.separator;
                source_pieces = r.0;
              })
              >>= λ result'. ok ((result', true), r.1)
          | false ↦ choose_part points start unit.content.finish r.1 >>= λ p.
              push_segment result (record {
                content_range = record { start = start; finish = p.0.0 };
                separator_range = record { start = p.0.0; finish = p.0.1 };
                source_pieces = p.0.2;
              })
              >>= λ result'. split_loop fuel points unit p.0.1 p.1 result'
        ]
  ]

  pub split_oversize_unit :
      SentenceUnit → PieceCounter → List TextSegment → Counting (List TextSegment)
  unfolding split_loop choose_part push_segment
  split_oversize_unit unit counter result =
      or_crash (fallback_break_points text unit.content) >>= λ points.
      split_loop (unit.content.finish - unit.content.start) points unit unit.content.start counter
        result
      >>= λ r.
          if r.0.1
          then ok (r.0.0, r.1)
          else if ltb unit.separator.start unit.separator.finish
          then ok (modify_last (end_segment_at unit.separator.finish) r.0.0, r.1)
          else ok (r.0.0, r.1)

  -- `for unit in units`.
  pub segment_units :
      List SentenceUnit → PieceCounter → List TextSegment → Counting (List TextSegment)
  unfolding split_oversize_unit
  segment_units [] counter result = ok (result, counter)
  segment_units (unit ∷ units) counter result =
      count text count_pieces counter unit.content >>= λ r.
      (if leb r.0 max_pieces
        then (push_segment result (record {
          content_range = unit.content;
          separator_range = unit.separator;
          source_pieces = r.0;
        })
            >>= λ result'. ok (result', r.1))
        else split_oversize_unit unit r.1 result)
      >>= λ s. segment_units units s.1 s.0

  unfoldable pub segment_text : Outcome SegmentError (List TextSegment)
  unfolding segment_units
  segment_text = do
    fail_if (max_pieces == 0) zero_piece_limit
    fail_if (ltb max_segmenter_input_bytes (byte_length text))
        (input_too_large (byte_length text) max_segmenter_input_bytes)
    content_end ← or_crash (trim_trailing_whitespace text (byte_length text))
    r ← count text count_pieces new (record { start = 0; finish = content_end })
    units ← or_crash (sentence_units text content_end)
    if leb r.0 max_pieces && leb (length units) 1
        then ok (
            record {
              content_range = record { start = 0; finish = content_end };
              separator_range = record { start = content_end; finish = byte_length text };
              source_pieces = r.0;
            }
            ∷ [])
        else (segment_units units r.1 [] >>= λ s. ok s.0)
