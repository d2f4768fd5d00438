-- ===== src/Pivot/Tests.antt =====
-- The theorems about pivot.rs, for two models that mark the text with the language.
use marian_edge.Common.{ℕ, ◌≡◌, refl, [], ◌∷◌, map, some}
use marian_edge.Text.{codes, text_eq, is_whitespace}
use marian_edge.Translation.{TranslationInput, TranslationOutput}
use marian_edge.Pivot.{
  done, Stage, Route, mixed, is_blank, first_input, translate_batch_with_repetitions,
}
use marian_edge.Pivot.Rows.{KeepsRows, translate_batch-KeepsRows}
use marian_edge.Pivot.Refines.{TranslatesBy, pivot_row, translate_batch-pivot_row}

abbrev via_english : Route
via_english = record { source = codes "ja"; pivot = codes "en"; target = codes "zh" }

abbrev mark_row : TranslationInput → TranslationOutput ℕ
mark_row i = record { text = 91 ∷ i.text; score = some 1; input_tokens = 3; output_tokens = 4 }

abbrev marking : Stage ℕ ℕ
marking s inputs repetitions = (done (map mark_row inputs), s)

marking-TranslatesBy : TranslatesBy mark_row marking
marking-TranslatesBy s inputs repetitions = (s, refl)

abbrev row : ℕ → TranslationInput
row c = record {
  text = c ∷ [];
  source_lang = codes "ja";
  target_lang = codes "zh";
  max_output_tokens = 512;
}

translate_batch-KeepsRows_example :
    KeepsRows
      (row 65 ∷ row 66 ∷ [])
      (translate_batch_with_repetitions marking marking via_english 0 0
        (row 65 ∷ row 66 ∷ [])
        (1 ∷ 1 ∷ [])).0
translate_batch-KeepsRows_example =
    translate_batch-KeepsRows marking marking via_english 0 0 (row 65) (row 66 ∷ []) (1 ∷ 1 ∷ [])
      (unfold text_eq in refl) (unfold text_eq in refl)

translate_batch-pivot_row_example :
    (translate_batch_with_repetitions marking marking via_english 0 0
      (row 65 ∷ row 66 ∷ [])
      (1 ∷ 1 ∷ [])).0
    ≡ done (map (pivot_row mark_row mark_row via_english) (row 65 ∷ row 66 ∷ []))
translate_batch-pivot_row_example =
    translate_batch-pivot_row marking marking mark_row mark_row marking-TranslatesBy
      marking-TranslatesBy via_english 0 0 (row 65) (row 66 ∷ []) (1 ∷ 1 ∷ []) refl
      (unfold mixed text_eq in refl) (unfold text_eq in refl) (unfold text_eq in refl)
      (unfold text_eq in refl) (unfold text_eq in refl)
      (unfold is_blank is_whitespace first_input in refl)
      (unfold is_blank is_whitespace first_input in refl)
