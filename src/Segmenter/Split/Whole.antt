-- ===== src/Segmenter/Split/Whole.antt =====
-- `segment_text` as a whole.
use marian_edge.Common.{
  &&_split, Ensures-fail_if, lt-or-le, ℕ, ◌≤◌, ◌<◌, ◌≡◌, refl, sym, ap, ◌∙◌, false, ◌&&◌, List, [],
  ◌∷◌, arith, inl, inr, ltb, leb, leb→le, subst, length, some_inj, ◌==◌, ok, Ensures, Ensures-bind,
  Ensures-if, Ensures-or_crash,
}
use marian_edge.Text.{Text, byte_length, slice}
use marian_edge.Text.Boundary.{IsBoundary, zero-IsBoundary, end-IsBoundary}
use marian_edge.Text.Slices.{slice_empty}
use marian_edge.Segmenter.{
  max_segmenter_input_bytes, TextSegment, SentenceUnit, zero_piece_limit, trim_trailing_whitespace,
}
use marian_edge.Segmenter.Span.{IsPiece}
use marian_edge.Segmenter.Scan.{IsBlank}
use marian_edge.Segmenter.Back.{trim_trailing_whitespace_lem}
use marian_edge.Segmenter.Counter.{Counted, counted, PieceCounter, new, IsCount, new-IsSound}
use marian_edge.Segmenter.Sentence.{sentence_units}
use marian_edge.Segmenter.Sentence.Units.{Units, Covers, sentence_units_lem}
use marian_edge.Segmenter.Split.{push_segment, segment_units, segment_text}
use marian_edge.Segmenter.Split.Search.{Sound, counting}
use marian_edge.Segmenter.Split.Loop.{Covered, push_segment_lem}
use marian_edge.Segmenter.Split.Oversize.{CoversTo, split_oversize_unit_lem}

module _ (text : Text) (count_pieces : Text → Counted) (max_pieces : ℕ)
    (empty_pieces : count_pieces [] ≡ counted 0) where
  -- An empty range has no pieces.
  empty_count : (a b n : ℕ) → IsBoundary text a → a ≡ b → IsCount text count_pieces a b n → n ≡ 0
  empty_count a b n ba e (t, sl, c) =
      let nil : [] ≡ t = some_inj (sym (slice_empty text a ba) ∙ ap (slice text a) e ∙ sl) in
      let zero_pieces : counted n ≡ counted 0 = sym c ∙ ap count_pieces (sym nil) ∙ empty_pieces in
      cc

  segment_units_lem :
      (units : List SentenceUnit) (a b : ℕ) (counter : PieceCounter) (result : List TextSegment)
      → Units text a units b
      → Covered text count_pieces max_pieces result a
      → Sound text count_pieces max_pieces counter
      → Ensures
          (CoversTo text count_pieces max_pieces b)
          (segment_units text count_pieces max_pieces units counter result)
  unfolding segment_units
  segment_units_lem [] a b counter result chain v sound =
      (subst (Covered text count_pieces max_pieces result) chain v, sound)
  segment_units_lem (unit ∷ units) a b counter result chain v sound =
      let piece = chain.0 in
      let bs = subst (IsBoundary text) (sym piece.starts) v.boundary in
      let le : unit.content.start ≤ unit.content.finish =
        omega (arith, piece.starts, piece.forward) in
      counting text count_pieces max_pieces (CoversTo text count_pieces max_pieces b) counter
        unit.content.start unit.content.finish _ sound bs piece.content_boundary le
        λ n counter' exact sound'.
          Ensures-bind (CoversTo text count_pieces max_pieces unit.separator.finish)
            (CoversTo text count_pieces max_pieces b) _ _
            (Ensures-if (CoversTo text count_pieces max_pieces unit.separator.finish)
              (leb n max_pieces) _ _
              (λ small.
                Ensures-bind _ (CoversTo text count_pieces max_pieces unit.separator.finish)
                  (push_segment result (record {
                    content_range = unit.content;
                    separator_range = unit.separator;
                    source_pieces = n;
                  }))
                  _
                  (push_segment_lem text count_pieces max_pieces result _ a v piece
                    (record { exact = exact; small = leb→le n max_pieces small }))
                  λ result' h. (h.0, sound'))
              (λ large.
                split_oversize_unit_lem text count_pieces max_pieces unit a counter' result piece
                  (not_empty n large exact piece bs) v sound'))
            λ r h. segment_units_lem units unit.separator.finish b r.1 r.0 chain.1 h.0 h.1
    where
      not_empty :
          (n : ℕ)
          → leb n max_pieces ≡ false
          → IsCount text count_pieces unit.content.start unit.content.finish n
          → IsPiece text a unit.content unit.separator
          → IsBoundary text unit.content.start
          → a < unit.content.finish
      not_empty n large exact piece bs = elim (lt-or-le a unit.content.finish) [
        | inl lt ↦ lt
        | inr le ↦
            let e : unit.content.start ≡ unit.content.finish =
              omega (arith, piece.starts, piece.forward, le) in
            let z = empty_count unit.content.start unit.content.finish n bs e exact in
            absurd (positive large z)
      ]
        where
          positive : leb n max_pieces ≡ false → n ≡ 0 → ⊥
          positive large z = ground arith

  -- Segments that cover the whole text, fit, and are not too many.
  abbrev pub IsSegmentation : List TextSegment → Type 0
  IsSegmentation segments = Covered text count_pieces max_pieces segments (byte_length text)

  pub segment_text_lem : Ensures IsSegmentation (segment_text text count_pieces max_pieces)
  unfolding segment_text
  segment_text_lem = Ensures-fail_if IsSegmentation (max_pieces == 0) zero_piece_limit _ λ _.
      Ensures-fail_if IsSegmentation (ltb max_segmenter_input_bytes (byte_length text)) _ _ λ _.
        let (e, trimmed, ends) =
          trim_trailing_whitespace_lem text (byte_length text) (end-IsBoundary text) in
        Ensures-or_crash IsSegmentation (trim_trailing_whitespace text (byte_length text)) e _
          trimmed
          (counting text count_pieces max_pieces IsSegmentation new 0 e _
            (new-IsSound text count_pieces) (zero-IsBoundary text) ends.1 (omega arith)
            λ n counter exact sound.
              let (units, found, covers) = sentence_units_lem text e ends.1 ends.0 ends.2 in
              Ensures-or_crash IsSegmentation (sentence_units text e) units _ found (
                Ensures-if IsSegmentation (leb n max_pieces && leb (length units) 1) (ok _) _
                  (λ one.
                    whole e n ends.1 ends.0 ends.2 exact (leb→le n max_pieces (&&_split _ _ one).0))
                  (λ several.
                    Ensures-bind (CoversTo text count_pieces max_pieces (byte_length text))
                      IsSegmentation (segment_units text count_pieces max_pieces units counter []) _
                      (segment_units_lem units 0 (byte_length text) counter []
                        (units_chain e n units covers exact several)
                        (record {
                          chain = refl;
                          fits = tt;
                          boundary = zero-IsBoundary text;
                          bounded = omega arith;
                        })
                        sound)
                      λ r h. h.0)))
    where
      whole :
          (e n : ℕ)
          → IsBoundary text e
          → e ≤ byte_length text
          → IsBlank text e (byte_length text)
          → IsCount text count_pieces 0 e n
          → n ≤ max_pieces
          → IsSegmentation (
              record {
                content_range = record { start = 0; finish = e };
                separator_range = record { start = e; finish = byte_length text };
                source_pieces = n;
              }
              ∷ [])
      whole e n be le blank exact small = record {
        chain = (
          record {
            starts = refl;
            forward = omega arith;
            content_boundary = be;
            adjacent = refl;
            ordered = le;
            separator_boundary = end-IsBoundary text;
            blank = blank;
          },
          refl,
        );
        fits = (record { exact = exact; small = small }, tt);
        boundary = end-IsBoundary text;
        bounded = omega arith;
      }

      no_units :
          (units : List SentenceUnit) {n : ℕ}
          → units ≡ []
          → n ≡ 0
          → (leb n max_pieces && leb (length units) 1) ≡ false
          → ⊥
      no_units [] h z several = ground arith
      no_units (u ∷ units) h z several = cc

      units_chain :
          (e n : ℕ) (units : List SentenceUnit)
          → Covers text e units
          → IsCount text count_pieces 0 e n
          → (leb n max_pieces && leb (length units) 1) ≡ false
          → Units text 0 units (byte_length text)
      units_chain e n units (inl chain) exact several = chain
      units_chain e n units (inr (none_left, at_start)) exact several =
          let z = empty_count 0 e n (zero-IsBoundary text) (sym at_start) exact in
          absurd (no_units units none_left z several)
