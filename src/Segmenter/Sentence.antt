-- ===== src/Segmenter/Sentence.antt =====
-- segmenter.rs, `sentence_units` and what decides that a sentence ends.
pub mod Period
pub mod Units
pub mod Tests
use marian_edge.Common.{
  ℕ, zero, suc, ◌+◌, ◌-◌, max, Bool, true, false, not, ◌&&◌, ◌||◌, List, [], ◌∷◌, ◌++◌, map,
  reverse, Option, none, some, ltb, leb, ◌==◌, if◌then◌else◌, length, all, any, retain, drop_while,
  head?, modify_last,
}
use marian_edge.Common.Partial.{◌>>=◌}
use marian_edge.Text.{
  text_eq, Text, codes, len_utf8, byte_length, slice, slice_from, slice_to, is_whitespace,
  is_ascii_digit, is_ascii_lowercase, is_ascii_uppercase, is_ascii_alphabetic, to_ascii_lowercase,
}
use marian_edge.Segmenter.{
  Range, SentenceUnit, next_scalar, previous_scalar, is_terminator, consume_terminators,
  consume_closing_marks, consume_whitespace,
}

abbrev title_abbreviations : List Text
title_abbreviations =
    codes "capt."
    ∷ codes "col."
    ∷ codes "dr."
    ∷ codes "gen."
    ∷ codes "gov."
    ∷ codes "lt."
    ∷ codes "mr."
    ∷ codes "mrs."
    ∷ codes "ms."
    ∷ codes "prof."
    ∷ codes "rep."
    ∷ codes "rev."
    ∷ codes "sen."
    ∷ codes "sgt."
    ∷ codes "sr."
    ∷ codes "st."
    ∷ []

abbrev always_non_terminal_abbreviations : List Text
always_non_terminal_abbreviations =
    codes "e.g."
    ∷ codes "i.e."
    ∷ codes "fig."
    ∷ codes "no."
    ∷ codes "vs."
    ∷ codes "jan."
    ∷ codes "feb."
    ∷ codes "mar."
    ∷ codes "apr."
    ∷ codes "jun."
    ∷ codes "jul."
    ∷ codes "aug."
    ∷ codes "sep."
    ∷ codes "sept."
    ∷ codes "oct."
    ∷ codes "nov."
    ∷ codes "dec."
    ∷ []

abbrev common_abbreviations : List Text
common_abbreviations =
    codes "approx."
    ∷ codes "co."
    ∷ codes "corp."
    ∷ codes "dept."
    ∷ codes "ed."
    ∷ codes "eds."
    ∷ codes "est."
    ∷ codes "etc."
    ∷ codes "inc."
    ∷ codes "ltd."
    ∷ codes "misc."
    ∷ codes "p."
    ∷ codes "pp."
    ∷ codes "vol."
    ∷ []

-- `LIST.contains(&token)`.
contains : List Text → Text → Bool
unfolding text_eq
contains list token = any (text_eq token) list

-- `text.split('.')`, with the component read so far.
split_dots : Text → Text → List Text
split_dots [] component = component ∷ []
split_dots (c ∷ s) component =
    let cut = split_dots s [] in
    let keep = split_dots s (component ++ c ∷ []) in if c == b'.' then component ∷ cut else keep

is_letter : Text → Bool
is_letter [] = false
is_letter (c ∷ []) = len_utf8 c == 1 && is_ascii_alphabetic c
is_letter (c ∷ d ∷ s) = false

is_initial_or_acronym : Text → Bool
unfolding split_dots is_letter len_utf8 is_ascii_alphabetic
is_initial_or_acronym token =
    let components = split_dots (reverse (drop_while (λ c. c == b'.') (reverse token))) [] in
    ltb 0 (length components) && leb (length components) 8 && all is_letter components

-- The test of `matches!(character, '(' | '[' | …)` that starts a token.
is_token_delimiter : ℕ → Bool
unfolding is_whitespace
is_token_delimiter c =
    is_whitespace c || c == b'(' || c == b'[' || c == b'{' || c == b'"' || c == 0x201c

-- `char_indices().rev().find_map(…).unwrap_or(0)`: the offset behind the last delimiter, for scalars
-- that start at `offset`, with the answer for those read before.
token_start : ℕ → ℕ → Text → ℕ
unfolding is_token_delimiter
token_start found offset [] = found
token_start found offset (c ∷ s) =
    token_start (if is_token_delimiter c then offset + len_utf8 c else found) (offset + len_utf8 c)
      s

neighbour_before : Text → ℕ → Option (Option ℕ)
neighbour_before text index =
    if ltb 0 index then (previous_scalar text index >>= λ p. some (some p.1)) else some none

neighbour_after : Text → ℕ → Option (Option ℕ)
neighbour_after text index =
    if ltb (index + 1) (byte_length text)
    then (next_scalar text (index + 1) >>= λ p. some (some p.0))
    else some none

-- `option.is_some_and(test)`.
abbrev is_some_and : (ℕ → Bool) → Option ℕ → Bool
is_some_and test none = false
is_some_and test (some c) = test c

abbrev is_some : Option ℕ → Bool
is_some = is_some_and (λ c. true)

-- The tests of `period_can_end_sentence` on the token before the period and the scalar behind it.
token_can_end : Text → Option ℕ → Bool
unfolding contains is_initial_or_acronym is_ascii_lowercase is_ascii_uppercase is_ascii_digit
token_can_end token following =
    if contains title_abbreviations token && is_some following
    then false
    else if contains always_non_terminal_abbreviations token && is_some following
    then false
    else if contains common_abbreviations token
        && is_some_and (λ c. is_ascii_lowercase c || is_ascii_digit c) following
    then false
    else if is_initial_or_acronym token && is_some_and is_ascii_uppercase following
    then false
    else true

-- `token.retain(|c| c.is_ascii_alphanumeric() || c == '.')` after `to_ascii_lowercase`.
token_of : Text → Text
unfolding to_ascii_lowercase is_ascii_alphabetic is_ascii_digit
token_of raw =
    retain (λ c. is_ascii_alphabetic c || is_ascii_digit c || c == b'.')
      (map to_ascii_lowercase raw)

period_can_end_sentence : Text → ℕ → ℕ → Option Bool
unfolding neighbour_before neighbour_after token_start token_of token_can_end
period_can_end_sentence text index quoted_end = do
  previous ← neighbour_before text index
  next ← neighbour_after text index
  if is_some_and is_ascii_digit previous && is_some_and is_ascii_digit next then some false else (do
    before ← slice_to text index
    raw ← slice text (token_start 0 0 before) (index + 1)
    following ← slice_from text quoted_end
    some (token_can_end (token_of raw) (head? (drop_while is_whitespace following))))

boundary_follows : Text → ℕ → ℕ → Option Bool
unfolding next_scalar is_whitespace
boundary_follows text index end =
    if index == end
    then some true
    else if ltb index end
    then (next_scalar text index >>= λ p. some (is_whitespace p.0))
    else some false

-- The variables of the loop of `sentence_units`.
pub record ScanState : Type 0 where
  pub units : List SentenceUnit
  pub cursor : ℕ
  pub index : ℕ

-- `boundary_follows(…) && (character != '.' || period_can_end_sentence(…))`.
pub sentence_ends : Text → ℕ → ℕ → ℕ → ℕ → Option Bool
unfolding boundary_follows period_can_end_sentence
sentence_ends text end index quoted_end character = do
  follows ← boundary_follows text quoted_end end
  if follows
      then (if character == b'.' then period_can_end_sentence text index quoted_end else some true)
      else some false

terminator_step : Text → ℕ → ScanState → ℕ → ℕ → Option ScanState
unfolding sentence_ends consume_terminators consume_closing_marks consume_whitespace
terminator_step text content_end s character next = do
  punctuation_end ← consume_terminators text s.index content_end
  quoted_end ← consume_closing_marks text punctuation_end content_end
  ends ← sentence_ends text content_end s.index quoted_end character
  if ends
      then (do
        separator_end ← consume_whitespace text quoted_end content_end
        some (record {
          units =
              s.units
              ++ record {
                content = record { start = s.cursor; finish = quoted_end };
                separator = record { start = quoted_end; finish = separator_end };
              }
                ∷ [];
          cursor = separator_end;
          index = separator_end;
        }))
      else some (record s { index = max punctuation_end next })

is_line_break : ℕ → Bool
is_line_break c = c == 0xa || c == 0xd

whitespace_step : Text → ℕ → ScanState → Option ScanState
unfolding is_line_break consume_whitespace
whitespace_step text content_end s = do
  whitespace_end ← consume_whitespace text s.index content_end
  run ← slice text s.index whitespace_end
  if any is_line_break run
      then some (record {
        units =
            s.units
            ++ record {
              content = record { start = s.cursor; finish = s.index };
              separator = record { start = s.index; finish = whitespace_end };
            }
              ∷ [];
        cursor = whitespace_end;
        index = whitespace_end;
      })
      else some (record s { index = whitespace_end })

-- The body of the loop.
unit_step : Text → ℕ → ScanState → Option ScanState
unfolding terminator_step whitespace_step next_scalar
unit_step text content_end s = do
  p ← next_scalar text s.index
  if is_terminator p.0
      then terminator_step text content_end s p.0 p.1
      else if is_whitespace p.0
      then whitespace_step text content_end s
      else some (record s { index = p.1 })

unit_loop : ℕ → Text → ℕ → ScanState → Option ScanState
unit_loop zero text content_end s = none
unit_loop (suc fuel) text content_end s = elim (ltb s.index content_end) [
  | false ↦ some s
  | true ↦ elim (unit_step text content_end s) [
    | none ↦ none
    | some s' ↦ unit_loop fuel text content_end s'
  ]
]

abbrev end_separator_at : ℕ → SentenceUnit → SentenceUnit
end_separator_at end unit = record unit {
  separator = record { start = unit.separator.start; finish = end };
}

-- What follows the loop.
close_units : Text → ℕ → ScanState → List SentenceUnit
close_units text content_end s =
    if ltb s.cursor content_end
    then s.units
      ++ record {
        content = record { start = s.cursor; finish = content_end };
        separator = record { start = content_end; finish = byte_length text };
      }
        ∷ []
    else modify_last (end_separator_at (byte_length text)) s.units

unfoldable pub sentence_units : Text → ℕ → Option (List SentenceUnit)
unfolding unit_loop unit_step close_units
sentence_units text content_end = do
  s ← unit_loop (suc content_end) text content_end (record { units = []; cursor = 0; index = 0 })
  some (close_units text content_end s)
