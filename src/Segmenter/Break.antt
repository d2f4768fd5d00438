-- ===== src/Segmenter/Break.antt =====
-- segmenter.rs, `fallback_break_points` and `is_dash_boundary`: where an oversize sentence may be cut.
pub mod Dashes
pub mod Points
use marian_edge.Common.{
  ℕ, zero, suc, ◌+◌, ◌-◌, Bool, true, false, ◌&&◌, ◌||◌, List, [], ◌∷◌, ◌++◌, Option, none, some,
  ltb, leb, ◌==◌, if◌then◌else◌,
}
use marian_edge.Common.Partial.{◌>>=◌}
use marian_edge.Text.{Text, scalar_at, is_whitespace}
use marian_edge.Segmenter.{Range, BreakPoint, next_scalar, previous_scalar, consume_whitespace}

abbrev scalar_is : ℕ → Option ℕ → Bool
scalar_is b none = false
scalar_is b (some c) = c == b

-- `text.as_bytes()[index] == b`, for an ASCII `b` and an index below the end: inside a longer scalar
-- every byte is at least 0x80.
byte_is : Text → ℕ → ℕ → Bool
byte_is text index b = scalar_is b (scalar_at text index)

unfoldable pub is_dash_boundary : Text → ℕ → Range → Option Bool
unfolding byte_is next_scalar previous_scalar is_whitespace
is_dash_boundary text index range = do
  let repeated = ltb (index + 1) range.finish && byte_is text (index + 1) b'-'
  before_space ←
      (if index == range.start
        then some true
        else (previous_scalar text index >>= λ p. some (is_whitespace p.1)))
  after_space ←
      (if leb range.finish (index + 1)
        then some true
        else (next_scalar text (index + 1) >>= λ p. some (is_whitespace p.0)))
  some (repeated || before_space || after_space)

-- The patterns of the two plain arms of `match character`.
is_hard_mark : ℕ → Bool
is_hard_mark c =
    c == b';' || c == 0xff1b || c == b':' || c == 0xff1a || c == b'/' || c == 0x2013 || c == 0x2014

is_comma : ℕ → Bool
is_comma c = c == b',' || c == 0xff0c

-- `match character { … }`: the priority of a cut behind the scalar.
pub priority_of : Text → ℕ → ℕ → Range → Option (Option ℕ)
unfolding is_dash_boundary is_hard_mark is_comma
priority_of text character index range =
    if is_hard_mark character
    then some (some 0)
    else if is_comma character
    then some (some 1)
    else if character == b'-'
    then (is_dash_boundary text index range >>= λ cut. some (if cut then some 0 else none))
    else some none

-- `while punctuation_end < range.end && bytes[punctuation_end] == b'-' { punctuation_end += 1 }`, by
-- the bytes left in the range.
pub dash_loop : ℕ → Text → ℕ → ℕ
unfolding byte_is
dash_loop zero text index = index
dash_loop (suc left) text index = elim (byte_is text index b'-') [
  | true ↦ dash_loop left text (index + 1)
  | false ↦ index
]

pub record BreakState : Type 0 where
  pub points : List BreakPoint
  pub index : ℕ

-- A cut behind the punctuation at the index, which `next` follows.
punctuation_step : Text → Range → BreakState → ℕ → ℕ → ℕ → Option BreakState
unfolding dash_loop consume_whitespace
punctuation_step text range s character next priority =
    let punctuation_end =
      if character == b'-' then dash_loop (range.finish - next) text next else next in
    consume_whitespace text punctuation_end range.finish >>= λ separator_end. some (record {
      points =
          s.points
          ++ record {
            content_end = punctuation_end;
            next_start = separator_end;
            priority = priority;
          }
            ∷ [];
      index = punctuation_end;
    })

-- The body of the loop of `fallback_break_points`.
break_step : Text → Range → BreakState → Option BreakState
unfolding priority_of punctuation_step next_scalar
break_step text range s = do
  p ← next_scalar text s.index
  if is_whitespace p.0
      then (consume_whitespace text s.index range.finish >>= λ end. some (record {
        points = s.points ++ record { content_end = s.index; next_start = end; priority = 2 } ∷ [];
        index = end;
      }))
      else (priority_of text p.0 s.index range >>= λ cut. elim cut [
        | some priority ↦ punctuation_step text range s p.0 p.1 priority
        | none ↦ some (record s { index = p.1 })
      ])

break_loop : ℕ → Text → Range → BreakState → Option BreakState
break_loop zero text range s = none
break_loop (suc fuel) text range s = elim (ltb s.index range.finish) [
  | false ↦ some s
  | true ↦ elim (break_step text range s) [ none ↦ none | some s' ↦ break_loop fuel text range s' ]
]

unfoldable pub fallback_break_points : Text → Range → Option (List BreakPoint)
unfolding break_loop break_step
fallback_break_points text range =
    break_loop (suc (range.finish - range.start)) text range
      (record { points = []; index = range.start })
    >>= λ s. some s.points
