-- ===== src/Pivot/Refines.antt =====
-- Two models that translate row by row, behind one another: pivot.rs as one row-by-row translation.
use marian_edge.Common.{
  ℕ, suc, ◌≡◌, refl, ap, true, false, List, [], ◌∷◌, map, any, none, ==_iff, length,
}
use marian_edge.Text.{text_eq}
use marian_edge.Translation.{TranslationInput, TranslationOutput}
use marian_edge.Pivot.{
  done, Stage, Route, mixed, is_blank, first_input, second_inputs, missing, merge_rows, finish,
  run_second, translate_batch_with_repetitions,
}

-- A stage that always succeeds, with `f` of each row.
abbrev pub TranslatesBy :
    {Score S : Type 0} → (TranslationInput → TranslationOutput Score) → Stage Score S → Type 0
TranslatesBy {Score} {S} f stage =
    (s : S) (inputs : List TranslationInput) (repetitions : List ℕ)
    → (s' : S) × (stage s inputs repetitions ≡ (done (map f inputs), s'))

module _ {Score : Type 0} (f g : TranslationInput → TranslationOutput Score) (route : Route) where
  abbrev pub second_row : TranslationInput → TranslationInput
  second_row i = record i { text = (f (first_input route i)).text; source_lang = route.pivot }

  -- One row through both models.
  abbrev pub pivot_row : TranslationInput → TranslationOutput Score
  pivot_row i = record (g (second_row i)) {
    input_tokens = (f (first_input route i)).input_tokens;
    score = none;
  }

  abbrev firsts : List TranslationInput → List (TranslationOutput Score)
  firsts inputs = map f (map (first_input route) inputs)

  second_inputs-map :
      (inputs : List TranslationInput)
      → second_inputs route (firsts inputs) inputs ≡ map second_row inputs
  unfolding second_inputs
  second_inputs-map [] = refl
  second_inputs-map (i ∷ is) = ap (λ x. second_row i ∷ x) (second_inputs-map is)

  merge_rows-map :
      (inputs : List TranslationInput)
      → merge_rows (map g (map second_row inputs)) (firsts inputs) ≡ map pivot_row inputs
  unfolding merge_rows
  merge_rows-map [] = refl
  merge_rows-map (i ∷ is) = ap (λ x. pivot_row i ∷ x) (merge_rows-map is)

missing-false :
    {Score : Type 0} (inputs : List TranslationInput) (outputs : List (TranslationOutput Score))
    → length outputs ≡ length inputs
    → any (λ x. is_blank x.text) outputs ≡ false
    → missing inputs outputs ≡ false
unfolding missing
missing-false inputs outputs same full =
    rw (full, (==_iff (length outputs) (length inputs)).1 same) refl

length-map2 :
    {A B C : Type 0} (f : B → C) (g : A → B) (xs : List A) → length (map f (map g xs)) ≡ length xs
length-map2 f g [] = refl
length-map2 f g (x ∷ xs) = ap suc (length-map2 f g xs)

module _ {Score S T : Type 0} (first : Stage Score S) (second : Stage Score T)
    (f g : TranslationInput → TranslationOutput Score) (by_first : TranslatesBy f first)
    (by_second : TranslatesBy g second) (route : Route) where
  run_second_lem :
      (inputs : List TranslationInput) (repetitions : List ℕ) (t : T) (s : S)
      → any (λ x. is_blank x.text) (map f (map (first_input route) inputs)) ≡ false
      → any (λ x. is_blank x.text) (map g (map (second_row f g route) inputs)) ≡ false
      → (run_second first second route inputs repetitions t
          (done (map f (map (first_input route) inputs)), s)).0
        ≡ done (map (pivot_row f g route) inputs)
  unfolding run_second finish
  run_second_lem inputs repetitions t s full₁ full₂ =
      let (t', run) = by_second t (map (second_row f g route) inputs) repetitions in
      rw
        (
          missing-false inputs _ (length-map2 f (first_input route) inputs) full₁,
          second_inputs-map f g route inputs,
          run,
          missing-false inputs _ (length-map2 g (second_row f g route) inputs) full₂,
          merge_rows-map f g route inputs,
        )
        refl

  -- For models that translate row by row with `f` and `g`: a batch with one direction, from the source to
  -- the target language, that neither model serves alone, with as many repetition counts as rows, and for
  -- which neither model gives a blank text, succeeds with the rows in order, each translated by `f` to the
  -- pivot language, with at least 512 output tokens, and from there by `g`.
  pub translate_batch-pivot_row :
      (s : S) (t : T) (head : TranslationInput) (rest : List TranslationInput)
      (repetitions : List ℕ)
      → length (head ∷ rest) ≡ length repetitions
      → mixed head (head ∷ rest) ≡ false
      → text_eq head.source_lang route.source ≡ true
      → text_eq head.target_lang route.target ≡ true
      → text_eq head.target_lang route.pivot ≡ false
      → text_eq head.source_lang route.pivot ≡ false
      → any (λ x. is_blank x.text) (map f (map (first_input route) (head ∷ rest))) ≡ false
      → any (λ x. is_blank x.text) (map g (map (second_row f g route) (head ∷ rest))) ≡ false
      → (translate_batch_with_repetitions first second route s t (head ∷ rest) repetitions).0
        ≡ done (map (pivot_row f g route) (head ∷ rest))
  unfolding translate_batch_with_repetitions
  translate_batch-pivot_row s t head rest repetitions same one from to not_pivot not_from full₁
        full₂ =
      let (s', run) = by_first s (map (first_input route) (head ∷ rest)) repetitions in
      rw
        (
          (==_iff (length (head ∷ rest)) (length repetitions)).1 same,
          one,
          from,
          to,
          not_pivot,
          not_from,
          run,
        )
        (run_second_lem (head ∷ rest) repetitions t s' full₁ full₂)
