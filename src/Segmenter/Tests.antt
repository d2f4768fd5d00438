-- ===== src/Segmenter/Tests.antt =====
-- Runs of the segmenter on a small text, and the theorems about it at that text.
use marian_edge.Common.{
  ℕ, subst, Ensures, arith, ℕ, Ensures, ◌≡◌, ◌≤◌, ◌≢◌, All, crash, refl, [], ◌∷◌, List, some, ok,
  length,
}
use marian_edge.Text.{
  Text, codes, byte_length, len_utf8, scalar_before, scalar_at, is_whitespace, slice,
}
use marian_edge.Text.Boundary.{IsBoundary, zero-IsBoundary, end-IsBoundary}
use marian_edge.Segmenter.Scan.{Spans-empty}
use marian_edge.Segmenter.Back.{TrimsTo, trim_trailing_whitespace_lem}
use marian_edge.Segmenter.Sentence.Units.{Covers, sentence_units_lem}
use marian_edge.Segmenter.Break.Points.{IsCut, AscendTo, fallback_break_points_lem}
use marian_edge.Segmenter.Split.Search.{IsPrefix, largest_fitting_scalar_prefix_lem}
use marian_edge.Segmenter.{
  Range, SentenceUnit, BreakPoint, Range, BreakPoint, SentenceUnit, TextSegment,
  trim_trailing_whitespace, max_segments,
}
use marian_edge.Segmenter.Counter.{
  CountsTo, IsSound, new-IsSound, count_lem, new-IsSound, count_lem, CountsTo, Counted, counted,
  count, new,
}
use marian_edge.Segmenter.Break.{fallback_break_points}
use marian_edge.Segmenter.Sentence.{sentence_units}
use marian_edge.Segmenter.Split.{largest_fitting_scalar_prefix, segment_text}
use marian_edge.Segmenter.Lossless.{
  rejoin, IsGoodSegment, rejoin-segment_text, segment_text-IsGoodSegment, segment_text-ne-crash,
  length-segment_text,
}

-- A tokenizer with a piece for each scalar.
abbrev by_scalar : Text → Counted
by_scalar t = counted (length t)

abbrev sample : Text
sample = codes "Hi there, you. Bye "

abbrev sample_segments : List TextSegment
sample_segments =
    record {
      content_range = record { start = 0; finish = 9 };
      separator_range = record { start = 9; finish = 10 };
      source_pieces = 9;
    }
    ∷ record {
      content_range = record { start = 10; finish = 14 };
      separator_range = record { start = 14; finish = 15 };
      source_pieces = 4;
    }
    ∷ record {
      content_range = record { start = 15; finish = 18 };
      separator_range = record { start = 18; finish = 19 };
      source_pieces = 3;
    }
    ∷ []

segment_sample : segment_text sample by_scalar 9 ≡ ok sample_segments
unfolding segment_text byte_length len_utf8 trim_trailing_whitespace scalar_before is_whitespace
    count new slice sentence_units scalar_at fallback_break_points
segment_sample = refl

rejoin-segment_text_example : rejoin sample sample_segments ≡ some sample
rejoin-segment_text_example =
    rejoin-segment_text sample by_scalar 9 refl sample_segments segment_sample

segment_text-IsGoodSegment_example : All (IsGoodSegment sample by_scalar 9) sample_segments
segment_text-IsGoodSegment_example =
    segment_text-IsGoodSegment sample by_scalar 9 refl sample_segments segment_sample

segment_text-ne-crash_example : segment_text sample by_scalar 9 ≢ crash
segment_text-ne-crash_example = segment_text-ne-crash sample by_scalar 9 refl

length-segment_text_example : length sample_segments ≤ max_segments
length-segment_text_example =
    length-segment_text sample by_scalar 9 refl sample_segments segment_sample

abbrev whole : Range
whole = record { start = 0; finish = 19 }

whole-IsBoundary : IsBoundary sample 19
whole-IsBoundary = subst (IsBoundary sample) measured (end-IsBoundary sample)
  where
    measured : byte_length sample ≡ 19
    measured = unfold byte_length len_utf8 in refl

count_lem_example : Ensures (CountsTo sample by_scalar 0 19) (count sample by_scalar new whole)
count_lem_example =
    count_lem sample by_scalar new whole (new-IsSound sample by_scalar) (zero-IsBoundary sample)
      whole-IsBoundary (omega arith)

sentence_units_lem_example :
    (us : List SentenceUnit) × (sentence_units sample (byte_length sample) ≡ some us)
    × Covers sample (byte_length sample) us
sentence_units_lem_example =
    sentence_units_lem sample (byte_length sample) (end-IsBoundary sample) (omega arith)
      (Spans-empty is_whitespace sample (byte_length sample) (end-IsBoundary sample))

fallback_break_points_lem_example :
    (points : List BreakPoint) × (fallback_break_points sample whole ≡ some points)
    × All (IsCut sample 19) points
    × AscendTo 0 points 19
fallback_break_points_lem_example =
    fallback_break_points_lem sample whole whole-IsBoundary (zero-IsBoundary sample) (omega arith)

largest_fitting_scalar_prefix_lem_example :
    Ensures
      (λ r. IsPrefix sample by_scalar 9 0 19 r.0 × IsSound sample by_scalar r.1)
      (largest_fitting_scalar_prefix sample by_scalar 9 0 19 new)
largest_fitting_scalar_prefix_lem_example =
    largest_fitting_scalar_prefix_lem sample by_scalar 9 0 19 new (zero-IsBoundary sample)
      whole-IsBoundary (omega arith) (new-IsSound sample by_scalar)

trim_trailing_whitespace_lem_example :
    (j : ℕ) × (trim_trailing_whitespace sample 19 ≡ some j) × TrimsTo sample 19 j
trim_trailing_whitespace_lem_example = trim_trailing_whitespace_lem sample 19 whole-IsBoundary
