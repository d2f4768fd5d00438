-- ===== src/Segmenter.antt =====
-- crates/marian-core/src/segmenter.rs: the data, limits and errors, and the scans that move an index
-- over the text. `none` stands for a panic of the source, or for fuel that ran out; each loop is given
-- the bytes that are left as fuel, and one round more.
pub mod Span
pub mod Scan
pub mod Back
pub mod Sentence
pub mod Counter
pub mod Break
pub mod Split
pub mod Lossless
pub mod Tests
use marian_edge.Common.{
  ℕ, zero, suc, ◌+◌, ◌-◌, ◌*◌, Bool, true, false, ◌||◌, List, [], ◌∷◌, Option, none, some, String,
  ltb, ◌==◌,
}
use marian_edge.Text.{
  Text, len_utf8, byte_length, scalar_at, scalar_before, is_char_boundary, is_whitespace,
}

abbrev pub max_segmenter_input_bytes : ℕ
max_segmenter_input_bytes = 4 * 1024 * 1024

abbrev pub max_segments : ℕ
max_segments = 4096

abbrev pub max_encoding_calls : ℕ
max_encoding_calls = 32768

abbrev pub max_encoding_bytes : ℕ
max_encoding_bytes = 64 * 1024 * 1024

abbrev pub max_counted_pieces : ℕ
max_counted_pieces = 8 * 1024 * 1024

-- `Range<usize>`: `start..finish`.
pub record Range : Type 0 where
  pub start : ℕ
  pub finish : ℕ

pub record TextSegment : Type 0 where
  pub content_range : Range
  pub separator_range : Range
  pub source_pieces : ℕ

pub data SegmentError : Type 0 where
  zero_piece_limit : SegmentError
  input_too_large : ℕ → ℕ → SegmentError
  encoding : ℕ → ℕ → String → SegmentError
  encoding_work_limit : String → ℕ → SegmentError
  too_many_segments : ℕ → SegmentError
  unsplitable_scalar : ℕ → ℕ → ℕ → ℕ → SegmentError

pub record SentenceUnit : Type 0 where
  pub content : Range
  pub separator : Range

pub record BreakPoint : Type 0 where
  pub content_end : ℕ
  pub next_start : ℕ
  pub priority : ℕ

abbrev with_end : ℕ → Option ℕ → Option (ℕ × ℕ)
with_end i none = none
with_end i (some c) = some (c, i + len_utf8 c)

unfoldable pub next_scalar : Text → ℕ → Option (ℕ × ℕ)
next_scalar text index = with_end index (scalar_at text index)

abbrev with_start : ℕ → Option ℕ → Option (ℕ × ℕ)
with_start e none = none
with_start e (some c) = some (e - len_utf8 c, c)

unfoldable pub previous_scalar : Text → ℕ → Option (ℕ × ℕ)
previous_scalar text end = with_start end (scalar_before text end)

unfoldable pub is_terminator : ℕ → Bool
is_terminator c =
    c == b'.' || c == b'!' || c == b'?' || c == 0x3002 || c == 0xff01 || c == 0xff1f || c == 0x2026

unfoldable pub is_closing_mark : ℕ → Bool
is_closing_mark c =
    c == b'"'
    || c == b'\''
    || c == 0x2019
    || c == 0x201d
    || c == 0xbb
    || c == b')'
    || c == b']'
    || c == b'}'
    || c == 0x3009
    || c == 0x300b
    || c == 0x300d
    || c == 0x300f
    || c == 0x3011
    || c == 0x3015
    || c == 0x3017
    || c == 0x3019
    || c == 0x301b

-- `while index < end { if !passes(next_scalar(text, index)) { break } index = next }`.
skip_while : (ℕ → Bool) → ℕ → Text → ℕ → ℕ → Option ℕ
skip_while passes zero text index end = none
skip_while passes (suc fuel) text index end = elim (ltb index end) [
  | false ↦ some index
  | true ↦ elim (next_scalar text index) [
    | none ↦ none
    | some (character, next) ↦ elim (passes character) [
      | true ↦ skip_while passes fuel text next end
      | false ↦ some index
    ]
  ]
]

unfoldable pub consume_terminators : Text → ℕ → ℕ → Option ℕ
unfolding skip_while next_scalar is_terminator
consume_terminators text index end = skip_while is_terminator (suc (end - index)) text index end

unfoldable pub consume_closing_marks : Text → ℕ → ℕ → Option ℕ
unfolding skip_while next_scalar is_closing_mark
consume_closing_marks text index end = skip_while is_closing_mark (suc (end - index)) text index end

unfoldable pub consume_whitespace : Text → ℕ → ℕ → Option ℕ
unfolding skip_while next_scalar
consume_whitespace text index end = skip_while is_whitespace (suc (end - index)) text index end

trim_loop : ℕ → Text → ℕ → Option ℕ
trim_loop zero text end = none
trim_loop (suc fuel) text end = elim (ltb 0 end) [
  | false ↦ some end
  | true ↦ elim (previous_scalar text end) [
    | none ↦ none
    | some (start, character) ↦ elim (is_whitespace character) [
      | true ↦ trim_loop fuel text start
      | false ↦ some end
    ]
  ]
]

unfoldable pub trim_trailing_whitespace : Text → ℕ → Option ℕ
unfolding trim_loop previous_scalar
trim_trailing_whitespace text end = trim_loop (suc end) text end

-- `while index > minimum && !text.is_char_boundary(index) { index -= 1 }`, by the distance left.
floor_loop : ℕ → Text → ℕ → ℕ
floor_loop zero text index = index
floor_loop (suc left) text index = elim (is_char_boundary text index) [
  | true ↦ index
  | false ↦ floor_loop left text (index - 1)
]

unfoldable pub floor_char_boundary : Text → ℕ → ℕ → ℕ
unfolding floor_loop
floor_char_boundary text index minimum = floor_loop (index - minimum) text index

unfoldable pub previous_char_boundary : Text → ℕ → ℕ → ℕ
unfolding floor_loop
previous_char_boundary text index minimum = elim (ltb minimum index) [
  | false ↦ minimum
  | true ↦ floor_loop (index - 1 - minimum) text (index - 1)
]
