-- ===== src/Translation.antt =====
-- crates/marian-core/src/types.rs: inputs, outputs, errors, and the key by which requests are batched.
pub mod Keys
use marian_edge.Common.{
  ℕ, zero, suc, ◌+◌, ◌*◌, ◌-◌, max, ◌≡◌, Bool, true, false, ◌&&◌, List, Option, none, some, String,
  leb, ltb, ◌==◌, if◌then◌else◌, length, usize_max,
}
use marian_edge.Text.{Text, text_eq}

pub record TranslationInput : Type 0 where
  pub text : Text
  pub source_lang : Text
  pub target_lang : Text
  pub max_output_tokens : ℕ

-- `score` is a float that the modelled code only passes on or clears.
pub record TranslationOutput (Score : Type 0) : Type 0 where
  pub text : Text
  pub score : Option Score
  pub input_tokens : ℕ
  pub output_tokens : ℕ

-- The messages are left out.
pub data BackendError : Type 0 where
  invalid_input unsupported_direction model inference : BackendError

pub data TranslateError : Type 0 where
  queue_full shutting_down timeout worker_stopped : TranslateError
  backend : BackendError → TranslateError

unfoldable pub input_eq : TranslationInput → TranslationInput → Bool
unfolding text_eq
input_eq a b =
    text_eq a.text b.text
    && text_eq a.source_lang b.source_lang
    && text_eq a.target_lang b.target_lang
    && a.max_output_tokens == b.max_output_tokens

-- The least power of two that is at least `n`, tried from `p` on.
power_from : ℕ → ℕ → ℕ → Option ℕ
power_from zero p n = none
power_from (suc left) p n = elim (leb n p) [ true ↦ some p | false ↦ power_from left (2 * p) n ]

-- `usize::checked_next_power_of_two`: the powers from 2^0 to 2^63 fit.
unfoldable pub checked_next_power_of_two : ℕ → Option ℕ
unfolding power_from
checked_next_power_of_two n = power_from 64 1 n

abbrev unwrap_or : ℕ → Option ℕ → ℕ
unwrap_or d none = d
unwrap_or d (some n) = n

pub record BatchKey : Type 0 where
  pub source_lang : Text
  pub target_lang : Text
  pub max_output_tokens : ℕ
  pub length_bucket : ℕ

unfoldable pub batch_key : TranslationInput → BatchKey
unfolding checked_next_power_of_two
batch_key input = record {
  source_lang = input.source_lang;
  target_lang = input.target_lang;
  max_output_tokens = input.max_output_tokens;
  length_bucket = unwrap_or usize_max (checked_next_power_of_two (max (length input.text) 1));
}

unfoldable pub key_eq : BatchKey → BatchKey → Bool
unfolding text_eq
key_eq a b =
    text_eq a.source_lang b.source_lang
    && text_eq a.target_lang b.target_lang
    && a.max_output_tokens == b.max_output_tokens
    && a.length_bucket == b.length_bucket
