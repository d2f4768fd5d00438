-- ===== src/Cpu/Planner/Tests.antt =====
-- Runs of the planner, and the witnesses of its theorems.
use marian_edge.Common.{
  ok, ◌≡◌, length, ◌≤◌, none, ℕ, ℤ, pos, ◌+◌, refl, List, [], ◌∷◌, map, Option, some, Ensures,
}
use marian_edge.Text.{Text, codes}
use marian_edge.Translation.{TranslationInput}
use marian_edge.Cpu.{BatchOutput, maximum_engine_batch}
use marian_edge.Cpu.Engine.{validate_work_shape}
use marian_edge.Cpu.Planner.Bounds.{longest_of, fill_batch-validate_work_shape}
use marian_edge.Cpu.Planner.{Slot, fill_batch, translate_with_engine}
use marian_edge.Cpu.Planner.Translate.{AreTranslations, translate_with_engine-AreTranslations}

-- A tokenizer with a token for each scalar.
abbrev by_scalar : Text → Option (List ℤ)
by_scalar t = some (map pos t)

-- An engine with the token 72 and the end of the sentence for each row.
abbrev rows_of : List ℕ → ℕ → List ℤ × List ℕ
rows_of [] n = ([], n ∷ [])
rows_of (l ∷ ls) n = let r = rows_of ls (2 + n) in (pos 72 ∷ pos 0 ∷ r.0, n ∷ r.1)

abbrev engine : List ℤ → List ℕ → List ℕ → Option BatchOutput
engine tokens offsets limits =
    let r = rows_of limits 0 in some (record { tokens = r.0; offsets = r.1 })

abbrev decode : List ℤ → Option Text
decode ids = some (codes "h")

abbrev inputs : List TranslationInput
inputs =
    record { text = codes "Hi. "; source_lang = []; target_lang = []; max_output_tokens = 4 }
    ∷ record { text = codes "You"; source_lang = []; target_lang = []; max_output_tokens = 2 }
    ∷ []

translate_with_engine-AreTranslations_example :
    Ensures
      (AreTranslations by_scalar 128 engine decode (pos 0) {Score = ℕ} inputs)
      (translate_with_engine by_scalar 128 engine decode [] [] (pos 0) inputs)
translate_with_engine-AreTranslations_example =
    translate_with_engine-AreTranslations by_scalar 128 engine decode (pos 0) ℕ [] [] inputs refl

-- One input with a segment of two tokens.
abbrev one_slot : List Slot
one_slot =
    record {
      segments =
          record { translated = none; separator_text = []; input_tokens = 2; output_tokens = 0 }
          ∷ [];
      work = record { input_index = 0; segment_index = 0; tokens = pos 72 ∷ pos 0 ∷ [] } ∷ [];
      position = 0;
      remaining = 8;
    }
    ∷ []

fill_batch-validate_work_shape_example :
    (length (fill_batch one_slot 0 0) ≤ maximum_engine_batch)
    × (validate_work_shape (length (fill_batch one_slot 0 0)) (longest_of (fill_batch one_slot 0 0))
        ≡ ok tt)
fill_batch-validate_work_shape_example = fill_batch-validate_work_shape one_slot
