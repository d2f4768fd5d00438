-- ===== src/Pivot.antt =====
-- crates/marian-core/src/pivot.rs: two models behind one another. A stage is the backend trait's
-- `translate_batch_with_repetitions` on the backend's state; `blank` is `x.text.trim().is_empty()`.
pub mod Rows
pub mod Refines
pub mod Tests
use marian_edge.Common.{
  ℕ, max, Bool, true, false, not, ◌&&◌, ◌||◌, List, [], ◌∷◌, map, any, Option, none, some, ◌==◌,
  if◌then◌else◌, length, drop_while,
}
use marian_edge.Text.{Text, text_eq, is_whitespace}
use marian_edge.Translation.{
  TranslationInput, TranslationOutput, BackendError, invalid_input, unsupported_direction,
  inference,
}

-- `Result<T, BackendError>`; a stage that panics is outside the model.
pub data Answer {ℓ} (A : Type ℓ) : Type ℓ where
  done : A → Answer A
  failed : BackendError → Answer A

abbrev pub Stage : Type 0 → Type 0 → Type 0
Stage Score S = S → List TranslationInput → List ℕ → Answer (List (TranslationOutput Score)) × S

pub record Route : Type 0 where
  pub source : Text
  pub pivot : Text
  pub target : Text

-- `inputs.iter().any(|i| i.source_lang != head.source_lang || i.target_lang != head.target_lang)`.
unfoldable pub mixed : TranslationInput → List TranslationInput → Bool
unfolding text_eq
mixed head inputs =
    any
      (λ i.
        not (text_eq i.source_lang head.source_lang)
        || not (text_eq i.target_lang head.target_lang))
      inputs

-- `text.trim().is_empty()`.
unfoldable pub is_blank : Text → Bool
unfolding is_whitespace
is_blank text = length (drop_while is_whitespace text) == 0

-- The row for the first model.
unfoldable pub first_input : Route → TranslationInput → TranslationInput
first_input route i = record i {
  target_lang = route.pivot;
  max_output_tokens = max i.max_output_tokens 512;
}

module _ {Score : Type 0} where
  -- The rows for the second model: `intermediate.iter().zip(inputs)`.
  unfoldable pub second_inputs :
      Route → List (TranslationOutput Score) → List TranslationInput → List TranslationInput
  second_inputs route [] is = []
  second_inputs route (o ∷ os) [] = []
  second_inputs route (o ∷ os) (i ∷ is) =
      record i { text = o.text; source_lang = route.pivot } ∷ second_inputs route os is

  -- A stage that lost a row, or returned an empty one.
  unfoldable pub missing : List TranslationInput → List (TranslationOutput Score) → Bool
  unfolding is_blank
  missing inputs outputs =
      not (length outputs == length inputs) || any (λ x. is_blank x.text) outputs

  -- `for (output, first) in translated.iter_mut().zip(intermediate)`.
  unfoldable pub merge_rows :
      List (TranslationOutput Score)
      → List (TranslationOutput Score)
      → List (TranslationOutput Score)
  merge_rows [] fs = []
  merge_rows (o ∷ os) [] = o ∷ os
  merge_rows (o ∷ os) (f ∷ fs) =
      record o { input_tokens = f.input_tokens; score = none } ∷ merge_rows os fs

module _ {Score S T : Type 0} (first : Stage Score S) (second : Stage Score T) where
  abbrev pub Result : Type 0
  Result = Answer (List (TranslationOutput Score)) × S × T

  -- From the second model's answer on.
  unfoldable pub finish :
      List TranslationInput
      → List (TranslationOutput Score)
      → S
      → Answer (List (TranslationOutput Score)) × T
      → Result
  unfolding missing merge_rows
  finish inputs intermediate s (failed e, t) = (failed e, s, t)
  finish inputs intermediate s (done translated, t) =
      if missing inputs translated
      then (failed inference, s, t)
      else (done (merge_rows translated intermediate), s, t)

  -- From the first model's answer on.
  unfoldable pub run_second :
      Route
      → List TranslationInput
      → List ℕ
      → T
      → Answer (List (TranslationOutput Score)) × S
      → Result
  unfolding missing second_inputs finish
  run_second route inputs repetitions t (failed e, s) = (failed e, s, t)
  run_second route inputs repetitions t (done intermediate, s) =
      if missing inputs intermediate
      then (failed inference, s, t)
      else finish inputs intermediate s
          (second t (second_inputs route intermediate inputs) repetitions)

  only_first : T → Answer (List (TranslationOutput Score)) × S → Result
  only_first t (a, s) = (a, s, t)

  only_second : S → Answer (List (TranslationOutput Score)) × T → Result
  only_second s (a, t) = (a, s, t)

  unfoldable pub translate_batch_with_repetitions :
      Route → S → T → List TranslationInput → List ℕ → Result
  unfolding text_eq mixed first_input run_second only_first only_second
  translate_batch_with_repetitions route s t [] repetitions = (done [], s, t)
  translate_batch_with_repetitions route s t (head ∷ rest) repetitions =
      let inputs = head ∷ rest in
      if not (length inputs == length repetitions) || mixed head inputs
      then (failed invalid_input, s, t)
      else if text_eq head.source_lang route.source && text_eq head.target_lang route.pivot
      then only_first t (first s inputs repetitions)
      else if text_eq head.source_lang route.pivot && text_eq head.target_lang route.target
      then only_second s (second t inputs repetitions)
      else if not (text_eq head.source_lang route.source)
          || not (text_eq head.target_lang route.target)
      then (failed unsupported_direction, s, t)
      else run_second route inputs repetitions t
          (first s (map (first_input route) inputs) repetitions)
