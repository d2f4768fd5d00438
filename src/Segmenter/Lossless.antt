-- ===== src/Segmenter/Lossless.antt =====
-- What `segment_text` of segmenter.rs promises: no text is lost, every part fits, and it always ends.
use marian_edge.Common.{
  ℕ, ◌≤◌, ◌≡◌, ◌≢◌, refl, sym, ap, ◌∙◌, List, [], ◌∷◌, ◌++◌, Option, some, true, All, all, length,
  ok, crash, Ensures-ok, Ensures-ne-crash,
}
use marian_edge.Common.Partial.{◌>>=◌}
use marian_edge.Text.{Text, byte_length, slice, is_whitespace}
use marian_edge.Text.Boundary.{IsBoundary, zero-IsBoundary}
use marian_edge.Text.Slices.{slice_empty, slice_append, slice_whole, slice_total}
use marian_edge.Segmenter.{TextSegment, max_segments}
use marian_edge.Segmenter.Counter.{Counted, counted}
use marian_edge.Segmenter.Split.{segment_text, content, separator}
use marian_edge.Segmenter.Split.Loop.{Segments, SegmentFits, Covered}
use marian_edge.Segmenter.Split.Whole.{IsSegmentation, segment_text_lem}

-- Contents and separators in turn, as a caller puts a text together again.
pub rejoin : Text → List TextSegment → Option Text
rejoin text [] = some []
rejoin text (segment ∷ segments) = content segment text >>= λ c.
    separator segment text >>= λ w. rejoin text segments >>= λ r. some (c ++ (w ++ r))

rejoin_cons :
    (text : Text) (segment : TextSegment) (segments : List TextSegment) (c w r : Text)
    → content segment text ≡ some c
    → separator segment text ≡ some w
    → rejoin text segments ≡ some r
    → rejoin text (segment ∷ segments) ≡ some (c ++ (w ++ r))
unfolding rejoin
rejoin_cons text segment segments c w r p q s = rw (p, q, s)

rejoin_lem :
    (text : Text) (segments : List TextSegment) (a b : ℕ)
    → Segments text a segments b
    → IsBoundary text a
    → (t : Text) × (rejoin text segments ≡ some t) × (slice text a b ≡ some t)
rejoin_lem text [] a b h ba =
    ([], unfold rejoin in refl, ap (slice text a) (sym h) ∙ slice_empty text a ba)
rejoin_lem text (segment ∷ segments) a b h ba =
    let p = h.0 in
    let cf = segment.content_range.finish in
    let sf = segment.separator_range.finish in
    let (c, ec) = slice_total text a cf ba p.content_boundary p.forward in
    let (w, ew) = slice_total text cf sf p.content_boundary p.separator_boundary p.ordered in
    let (r, er, es) = rejoin_lem text segments sf b h.1 p.separator_boundary in
    (
      c ++ (w ++ r),
      rejoin_cons text segment segments c w r (content_is text segment a c p.starts ec)
          (separator_is text segment cf w p.adjacent ew) er,
      slice_append text a cf b ec (slice_append text cf sf b ew es),
    )
  where
    content_is :
        (text : Text) (segment : TextSegment) (a : ℕ) (c : Text)
        → segment.content_range.start ≡ a
        → slice text a segment.content_range.finish ≡ some c
        → content segment text ≡ some c
    content_is text segment a c e h = unfold content in rw e h

    separator_is :
        (text : Text) (segment : TextSegment) (a : ℕ) (w : Text)
        → segment.separator_range.start ≡ a
        → slice text a segment.separator_range.finish ≡ some w
        → separator segment text ≡ some w
    separator_is text segment a w e h = unfold separator in rw e h

-- A segment whose content the tokenizer counts, within the limit, and whose separator is white space.
abbrev pub IsGoodSegment : Text → (Text → Counted) → ℕ → TextSegment → Type 0
IsGoodSegment text count_pieces max_pieces segment =
    (c : Text) × (w : Text) × (content segment text ≡ some c)
    × (count_pieces c ≡ counted segment.source_pieces)
    × (segment.source_pieces ≤ max_pieces)
    × (separator segment text ≡ some w)
    × (all is_whitespace w ≡ true)

good-Segments :
    (text : Text) (count_pieces : Text → Counted) (max_pieces : ℕ) (segments : List TextSegment)
    (a b : ℕ)
    → Segments text a segments b
    → All (SegmentFits text count_pieces max_pieces) segments
    → All (IsGoodSegment text count_pieces max_pieces) segments
good-Segments text count_pieces max_pieces [] a b h f = tt
good-Segments text count_pieces max_pieces (segment ∷ segments) a b h f =
    let (c, ec, n) = f.0.exact in
    let (w, ew, blank) = h.0.blank in
    (
      (c, w, unfold content in ec, n, f.0.small, unfold separator in rw h.0.adjacent ew, blank),
      good-Segments text count_pieces max_pieces segments segment.separator_range.finish b h.1 f.1,
    )

module _ (text : Text) (count_pieces : Text → Counted) (max_pieces : ℕ)
    (empty_pieces : count_pieces [] ≡ counted 0) where
  segmentation :
      (segments : List TextSegment)
      → segment_text text count_pieces max_pieces ≡ ok segments
      → Covered text count_pieces max_pieces segments (byte_length text)
  segmentation segments e =
      Ensures-ok (IsSegmentation text count_pieces max_pieces empty_pieces)
        (segment_text text count_pieces max_pieces) segments
        (segment_text_lem text count_pieces max_pieces empty_pieces) e

  -- For a tokenizer that counts no piece in the empty text: when `segment_text` returns segments, their
  -- contents and separators in turn, each sliced from the source, are the whole source text.
  pub rejoin-segment_text :
      (segments : List TextSegment)
      → segment_text text count_pieces max_pieces ≡ ok segments
      → rejoin text segments ≡ some text
  rejoin-segment_text segments e =
      let v = segmentation segments e in
      let (t, joined, whole) =
        rejoin_lem text segments 0 (byte_length text) v.chain (zero-IsBoundary text) in
      joined ∙ sym whole ∙ slice_whole text

  -- For a tokenizer that counts no piece in the empty text: every segment that `segment_text` returns
  -- has a content that the tokenizer counts as `source_pieces` pieces, at most `max_pieces`, and a
  -- separator of white space only.
  pub segment_text-IsGoodSegment :
      (segments : List TextSegment)
      → segment_text text count_pieces max_pieces ≡ ok segments
      → All (IsGoodSegment text count_pieces max_pieces) segments
  segment_text-IsGoodSegment segments e =
      let v = segmentation segments e in
      good-Segments text count_pieces max_pieces segments 0 (byte_length text) v.chain v.fits

  -- For a tokenizer that counts no piece in the empty text: `segment_text` never panics and its loops
  -- end within their fuel, for every text and every limit.
  pub segment_text-ne-crash : segment_text text count_pieces max_pieces ≢ crash
  segment_text-ne-crash =
      Ensures-ne-crash (IsSegmentation text count_pieces max_pieces empty_pieces)
        (segment_text text count_pieces max_pieces)
        (segment_text_lem text count_pieces max_pieces empty_pieces)

  -- For a tokenizer that counts no piece in the empty text: `segment_text` returns at most 4096
  -- segments.
  pub length-segment_text :
      (segments : List TextSegment)
      → segment_text text count_pieces max_pieces ≡ ok segments
      → length segments ≤ max_segments
  length-segment_text segments e = (segmentation segments e).bounded
