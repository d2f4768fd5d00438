-- ===== src/Server.antt =====
-- crates/marian-server/src/lib.rs: the requests for a translation, from the body to the translator. The
-- translator is a parameter, and so is `char::is_alphabetic`; a handler's answer is what it awaits.
pub mod Requests
pub mod Tests
use marian_edge.Common.{
  ℕ, zero, suc, ◌+◌, ◌*◌, min, max, Bool, true, false, not, ◌&&◌, ◌||◌, List, [], ◌∷◌, map, reverse,
  any, all, Option, none, some, ltb, leb, ◌==◌, if◌then◌else◌, length, drop_while, Outcome, ok, err,
  crash, ◌>>=◌, ◌>>◌, fail_if,
}
use marian_edge.Text.{
  Text, codes, byte_length, is_whitespace, is_ascii_lowercase, to_ascii_lowercase, text_eq,
}
use marian_edge.Translation.{
  TranslationInput, TranslationOutput, BackendError, invalid_input, unsupported_direction, model,
  inference, TranslateError, queue_full, shutting_down, timeout, worker_stopped, backend,
}

abbrev pub max_text_bytes : ℕ
max_text_bytes = 64 * 1024

-- The message is left out.
pub record ApiError : Type 0 where
  pub status : ℕ
  pub retry_after : Bool

abbrev pub bad_request : ApiError
bad_request = record { status = 400; retry_after = false }

abbrev pub payload_too_large : ApiError
payload_too_large = record { status = 413; retry_after = false }

-- `impl From<TranslateError> for ApiError`.
unfoldable pub from_translate_error : TranslateError → ApiError
from_translate_error queue_full = record { status = 503; retry_after = true }
from_translate_error shutting_down = record { status = 503; retry_after = true }
from_translate_error timeout = record { status = 504; retry_after = false }
from_translate_error (backend invalid_input) = record { status = 422; retry_after = false }
from_translate_error (backend unsupported_direction) = record { status = 422; retry_after = false }
from_translate_error (backend model) = record { status = 500; retry_after = false }
from_translate_error (backend inference) = record { status = 500; retry_after = false }
from_translate_error worker_stopped = record { status = 500; retry_after = false }

-- `str::trim`.
unfoldable pub trim : Text → Text
unfolding is_whitespace
trim text = reverse (drop_while is_whitespace (reverse (drop_while is_whitespace text)))

unfoldable pub validate_text : Text → Outcome ApiError (Unit {0})
unfolding trim byte_length
validate_text text = do
  fail_if (length (trim text) == 0) bad_request
  fail_if (ltb max_text_bytes (byte_length text)) payload_too_large
  ok tt

-- `language.split(['-', '_']).next()`.
unfoldable pub primary_of : Text → Text
primary_of [] = []
primary_of (c ∷ cs) = if c == 45 || c == 95 then [] else c ∷ primary_of cs

unfoldable pub normalize_lang : Text → Outcome ApiError Text
unfolding trim primary_of byte_length is_ascii_lowercase to_ascii_lowercase
normalize_lang language =
    let primary = primary_of (map to_ascii_lowercase (trim language)) in
    fail_if
      (not (leb 2 (byte_length primary) && leb (byte_length primary) 3)
        || not (all is_ascii_lowercase primary))
      bad_request
    >> ok primary

unfoldable pub is_kana : ℕ → Bool
is_kana c = (leb 12352 c && leb c 12543) || (leb 65382 c && leb c 65439)

unfoldable pub is_han : ℕ → Bool
is_han c = (leb 13312 c && leb c 19903) || (leb 19968 c && leb c 40959)

abbrev count_if : (ℕ → Bool) → Text → ℕ
count_if p [] = 0
count_if p (c ∷ cs) = (if p c then 1 else 0) + count_if p cs

module _ (is_alphabetic : ℕ → Bool) where
  unfoldable pub detect_language : Text → Text
  unfolding is_kana is_han
  detect_language text =
      if any is_kana text
      then codes "ja"
      else if leb (max (count_if is_alphabetic text) 1) (count_if is_han text * 3)
      then codes "zh"
      else codes "en"

  -- `match source.map(str::trim)`, on a source that is given.
  unfoldable pub normalize_given : Text → Text → Outcome ApiError Text
  unfolding detect_language normalize_lang text_eq to_ascii_lowercase
  normalize_given language text =
      if length language == 0
      then ok (detect_language text)
      else if text_eq (map to_ascii_lowercase language) (codes "auto")
      then ok (detect_language text)
      else normalize_lang language

  unfoldable pub normalize_source : Option Text → Text → Outcome ApiError Text
  unfolding detect_language trim normalize_given
  normalize_source none text = ok (detect_language text)
  normalize_source (some language) text = normalize_given (trim language) text

  -- What `translate` passes to the translator.
  unfoldable pub translation_input :
      Text → Option Text → Text → Option ℕ → Outcome ApiError TranslationInput
  unfolding validate_text normalize_source normalize_lang
  translation_input text from to max_output_tokens = do
    validate_text text
    source ← normalize_source from text
    target ← normalize_lang to
    ok (record {
      text = text;
      source_lang = source;
      target_lang = target;
      max_output_tokens = min (max (unwrap_or_default max_output_tokens) 1) 2048;
    })
    where
      unwrap_or_default : Option ℕ → ℕ
      unwrap_or_default none = 512
      unwrap_or_default (some n) = n

  -- The body of the closure that checks one item of `text_list`.
  unfoldable pub check_item : Option Text → Text → Outcome ApiError (Text × Text)
  unfolding validate_text normalize_source
  check_item default_source text = do
    validate_text text
    source ← normalize_source default_source text
    ok (text, source)

  -- `.collect::<Result<Vec<_>, ApiError>>()`.
  unfoldable pub check_items : Option Text → List Text → Outcome ApiError (List (Text × Text))
  unfolding check_item
  check_items default_source [] = ok []
  check_items default_source (text ∷ texts) = do
    item ← check_item default_source text
    items ← check_items default_source texts
    ok (item ∷ items)

  -- What `immersive_translate` passes to the translator.
  unfoldable pub immersive_inputs :
      Option Text → Text → List Text → Outcome ApiError (List TranslationInput)
  unfolding check_items normalize_lang
  immersive_inputs source_lang target_lang text_list = do
    fail_if (ltb 256 (length text_list)) bad_request
    target ← normalize_lang target_lang
    items ← check_items source_lang text_list
    ok (
        map
          (λ item. record {
            text = item.0;
            source_lang = item.1;
            target_lang = target;
            max_output_tokens = 512;
          })
          items)
