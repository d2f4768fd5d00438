-- ===== src/Pivot/Rows.antt =====
-- What crosses both models of pivot.rs: each row stays a row of its own.
use marian_edge.Common.{
  not-false, ||_split, ℕ, suc, ◌≡◌, refl, sym, ap, ◌∙◌, false, not, ◌&&◌, ◌||◌, List, [], ◌∷◌, map,
  any, none, ◌==◌, ==_iff, if_cases, length, All, arith,
}
use marian_edge.Text.{text_eq}
use marian_edge.Translation.{TranslationInput, TranslationOutput}
use marian_edge.Pivot.{
  Answer, done, failed, Stage, Route, mixed, is_blank, first_input, second_inputs, missing,
  merge_rows, Result, finish, run_second, translate_batch_with_repetitions,
}

module _ {Score : Type 0} where
  -- A row with a text and without a score.
  abbrev pub IsPivotRow : TranslationOutput Score → Type 0
  IsPivotRow o = (o.score ≡ none) × (is_blank o.text ≡ false)

  -- A success has a row for each input.
  abbrev pub KeepsRows : List TranslationInput → Answer (List (TranslationOutput Score)) → Type 0
  KeepsRows inputs (failed e) = Unit
  KeepsRows inputs (done outputs) = (length outputs ≡ length inputs) × All IsPivotRow outputs

  missing_split :
      (inputs : List TranslationInput) (outputs : List (TranslationOutput Score))
      → missing inputs outputs ≡ false
      → (length outputs ≡ length inputs) × (any (λ x. is_blank x.text) outputs ≡ false)
  unfolding missing
  missing_split inputs outputs h =
      let (same, full) =
        ||_split (not (length outputs == length inputs)) (any (λ x. is_blank x.text) outputs) h in
      ((==_iff (length outputs) (length inputs)).0 (not-false _ same), full)

  merge_rows-KeepsRows :
      (translated intermediate : List (TranslationOutput Score))
      → length translated ≡ length intermediate
      → any (λ x. is_blank x.text) translated ≡ false
      → (length (merge_rows translated intermediate) ≡ length translated)
        × All IsPivotRow (merge_rows translated intermediate)
  unfolding merge_rows
  merge_rows-KeepsRows [] fs e h = (refl, tt)
  merge_rows-KeepsRows (o ∷ os) [] e h = absurd (omega (arith, e))
  merge_rows-KeepsRows (o ∷ os) (f ∷ fs) e h =
      let (full, rest) = ||_split (is_blank o.text) (any (λ x. is_blank x.text) os) h in
      let (n, rows) = merge_rows-KeepsRows os fs (omega (arith, e)) rest in
      (ap suc n, ((refl, full), rows))

module _ {Score S T : Type 0} (first : Stage Score S) (second : Stage Score T) where
  finish-KeepsRows :
      (inputs : List TranslationInput) (intermediate : List (TranslationOutput Score)) (s : S)
      (answer : Answer (List (TranslationOutput Score)) × T)
      → length intermediate ≡ length inputs
      → KeepsRows inputs (finish first second inputs intermediate s answer).0
  unfolding finish
  finish-KeepsRows inputs intermediate s (failed e, t) same = tt
  finish-KeepsRows inputs intermediate s (done translated, t) same =
      if_cases (λ (r : Result first second). KeepsRows inputs r.0) (missing inputs translated) _ _
        (λ _. tt)
        λ full_rows.
          let (n, full) = missing_split inputs translated full_rows in
          let (m, rows) = merge_rows-KeepsRows translated intermediate (n ∙ sym same) full in
          (m ∙ n, rows)

  run_second-KeepsRows :
      (route : Route) (inputs : List TranslationInput) (repetitions : List ℕ) (t : T)
      (answer : Answer (List (TranslationOutput Score)) × S)
      → KeepsRows inputs (run_second first second route inputs repetitions t answer).0
  unfolding run_second
  run_second-KeepsRows route inputs repetitions t (failed e, s) = tt
  run_second-KeepsRows route inputs repetitions t (done intermediate, s) =
      if_cases (λ (r : Result first second). KeepsRows inputs r.0) (missing inputs intermediate) _ _
        (λ _. tt)
        λ full_rows.
          finish-KeepsRows inputs intermediate s
            (second t (second_inputs route intermediate inputs) repetitions)
            (missing_split inputs intermediate full_rows).0

  -- Whatever the two models do: a batch whose head neither goes from the source to the pivot language nor
  -- from the pivot to the target language, when it succeeds, has a row for each input, none of them blank,
  -- and none of them with a score.
  pub translate_batch-KeepsRows :
      (route : Route) (s : S) (t : T) (head : TranslationInput) (rest : List TranslationInput)
      (repetitions : List ℕ)
      → (text_eq head.source_lang route.source && text_eq head.target_lang route.pivot) ≡ false
      → (text_eq head.source_lang route.pivot && text_eq head.target_lang route.target) ≡ false
      → KeepsRows
          (head ∷ rest)
          (translate_batch_with_repetitions first second route s t (head ∷ rest) repetitions).0
  unfolding translate_batch_with_repetitions
  translate_batch-KeepsRows route s t head rest repetitions p q =
      if_cases K (not (length (head ∷ rest) == length repetitions) || mixed head (head ∷ rest)) _ _
        (λ _. tt)
        λ _.
          rw (p, q)
            (if_cases K
              (not (text_eq head.source_lang route.source)
                || not (text_eq head.target_lang route.target))
              _ _ (λ _. tt)
              λ _.
                run_second-KeepsRows route (head ∷ rest) repetitions t
                  (first s (map (first_input route) (head ∷ rest)) repetitions))
    where
      K : Result first second → Type 0
      K r = KeepsRows (head ∷ rest) r.0
