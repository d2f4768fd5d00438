-- ===== src/Cpu/Planner/Translate.antt =====
-- `translate_with_engine` as a whole: whatever the engine does, a translation has the shape of its input.
use marian_edge.Common.{
  some_inj, ℕ, ℤ, suc, ◌+◌, ◌≤◌, ◌≡◌, refl, sym, ap, ◌∙◌, subst, List, [], ◌∷◌, ◌++◌, append_assoc,
  append-nil, Option, none, some, any, length, checked_add, Ensures, Ensures-bind, Ensures-ok_or,
  Ensures-fail_if, Ensures-mono, arith, if_cases, leb, usize_max,
}
use marian_edge.Text.{Text}
use marian_edge.Translation.{TranslationInput, TranslationOutput, inference, unsupported_direction}
use marian_edge.Cpu.{BatchOutput}
use marian_edge.Cpu.Planner.{
  PlannedOutput, Slot, wrong_direction, plan_inputs, run_batches, work_count, join_segments,
  join_slots, translate_with_engine,
}
use marian_edge.Cpu.Planner.Slots.{gaps_of, output_sum}
use marian_edge.Cpu.Planner.Family.{Goal, AreSlots}
use marian_edge.Cpu.Planner.Loop.{run_batches-AreSlots}
use marian_edge.Cpu.Planner.Plan.{IsGoalOf, AreGoals, plan_inputs_lem}

-- Parts and separators in turn.
abbrev pub interleave : List Text → List Text → Text
interleave [] gaps = []
interleave (p ∷ ps) [] = p
interleave (p ∷ ps) (g ∷ gs) = p ++ (g ++ interleave ps gs)

-- A text of translated parts between the given separators.
abbrev pub IsJoined : List Text → Text → Type 0
IsJoined gaps text =
    (parts : List Text) × (length parts ≡ length gaps) × (text ≡ interleave parts gaps)

join_segments_lem :
    (segments : List PlannedOutput) (text : Text) (inputs outputs : ℕ)
    → Ensures
        (λ r.
          ((parts : List Text) × (length parts ≡ length (gaps_of segments))
            × (r.0 ≡ text ++ interleave parts (gaps_of segments)))
          × (r.2 ≡ outputs + output_sum segments))
        (join_segments segments text inputs outputs)
unfolding join_segments
join_segments_lem [] text inputs outputs = (([], refl, sym (append-nil text)), omega arith)
join_segments_lem (s ∷ ss) text inputs outputs =
    Ensures-ok_or Joined s.translated inference _ λ t _.
      Ensures-ok_or Joined (checked_add inputs s.input_tokens) inference _ λ i _.
        Ensures-ok_or Joined (checked_add outputs s.output_tokens) inference _ λ o e.
          Ensures-mono _ Joined (join_segments ss (text ++ (t ++ s.separator_text)) i o)
            (join_segments_lem ss (text ++ (t ++ s.separator_text)) i o)
            λ r ((parts, n, same), m). (
              (
                t ∷ parts,
                ap suc n,
                same
                    ∙ append_assoc text (t ++ s.separator_text) (interleave parts (gaps_of ss))
                    ∙ ap (λ z. text ++ z)
                        (append_assoc t s.separator_text (interleave parts (gaps_of ss))),
              ),
              omega (arith, m, added outputs s.output_tokens o e),
            )
  where
    Joined : Text × ℕ × ℕ → Type 0
    Joined r =
        ((parts : List Text) × (length parts ≡ length (gaps_of (s ∷ ss)))
          × (r.0 ≡ text ++ interleave parts (gaps_of (s ∷ ss))))
        × (r.2 ≡ outputs + output_sum (s ∷ ss))

    added : (a b c : ℕ) → checked_add a b ≡ some c → c ≡ a + b
    added a b c =
        if_cases (λ o. o ≡ some c → c ≡ a + b) (leb (a + b) usize_max) (some (a + b)) none
          (λ _ h. sym (some_inj h)) (λ _ h. absurd cc)

module _ (encode : Text → Option (List ℤ)) (vocabulary_size : ℕ)
    (engine : List ℤ → List ℕ → List ℕ → Option BatchOutput) (decode : List ℤ → Option Text)
    (eos_id : ℤ) where
  -- A result for a goal: translated parts between the separators, within the budget.
  abbrev MeetsGoal : {Score : Type 0} → Goal → TranslationOutput Score → Type 0
  MeetsGoal goal output =
      IsJoined goal.gaps output.text × (output.output_tokens ≤ goal.budget) × (output.score ≡ none)

  -- A translation of the input, part by part.
  pub record IsTranslationOf {Score : Type 0} (input : TranslationInput)
      (output : TranslationOutput Score) : Type 0 where
    pub goal : Goal
    pub is_goal : IsGoalOf encode vocabulary_size eos_id input goal
    pub joined : IsJoined goal.gaps output.text
    pub within : output.output_tokens ≤ input.max_output_tokens
    pub no_score : output.score ≡ none

  abbrev pub AreTranslations :
      {Score : Type 0} → List TranslationInput → List (TranslationOutput Score) → Type 0
  AreTranslations [] [] = Unit
  AreTranslations [] (o ∷ os) = ⊥
  AreTranslations (i ∷ is) [] = ⊥
  AreTranslations (i ∷ is) (o ∷ os) = IsTranslationOf i o × AreTranslations is os

  join_slots_lem :
      (Score : Type 0) (k : ℕ) (inputs : List TranslationInput) (gs : List Goal) (ss : List Slot)
      → AreGoals encode vocabulary_size eos_id inputs gs
      → AreSlots k gs ss
      → Ensures (AreTranslations {Score = Score} inputs) (join_slots ss)
  unfolding join_slots
  join_slots_lem Score k [] [] [] g v = tt
  join_slots_lem Score k [] [] (s ∷ ss) g v = absurd v
  join_slots_lem Score k [] (g ∷ gs) ss goals v = absurd goals
  join_slots_lem Score k (i ∷ is) [] ss goals v = absurd goals
  join_slots_lem Score k (i ∷ is) (g ∷ gs) [] goals v = absurd v
  join_slots_lem Score k (i ∷ is) (g ∷ gs) (s ∷ ss) goals v =
      Ensures-bind _ (AreTranslations {Score = Score} (i ∷ is)) (join_segments s.segments [] 0 0) _
        (join_segments_lem s.segments [] 0 0)
        λ r (joined, n).
          Ensures-bind (AreTranslations {Score = Score} is)
            (AreTranslations {Score = Score} (i ∷ is)) (join_slots ss) _
            (join_slots_lem Score (suc k) is gs ss goals.1 v.1)
            λ outputs rest. (
              record {
                goal = g;
                is_goal = goals.0;
                joined = subst (λ z. IsJoined z r.0) v.0.gaps_kept joined;
                within = omega (arith, n, v.0.within, goals.0.budget_is);
                no_score = refl;
              },
              rest,
            )

  -- For a tokenizer that encodes the empty text as no piece, and whatever the engine and the decoder
  -- return: the translation of a batch does not panic and its loops end; a result has an output for each
  -- input, in order, whose text is one part for each segment of the input with the separators of the source
  -- between them, which has no score, and no more output tokens than the input allows.
  pub translate_with_engine-AreTranslations :
      (Score : Type 0) (source_lang target_lang : Text) (inputs : List TranslationInput)
      → encode [] ≡ some []
      → Ensures (AreTranslations {Score = Score} inputs) (
          translate_with_engine encode vocabulary_size engine decode source_lang target_lang eos_id
            inputs)
  unfolding translate_with_engine
  translate_with_engine-AreTranslations Score source_lang target_lang [] empty = tt
  translate_with_engine-AreTranslations Score source_lang target_lang (input ∷ inputs) empty =
      Ensures-fail_if Translated (any (wrong_direction source_lang target_lang) all_inputs)
        unsupported_direction _
        λ _.
          Ensures-bind _ Translated (plan_inputs encode vocabulary_size eos_id all_inputs 0 0) _
            (plan_inputs_lem encode vocabulary_size eos_id empty all_inputs 0 0)
            λ ss (gs, goals, v).
              Ensures-bind _ Translated (run_batches engine decode eos_id (suc (work_count ss)) ss)
                _
                (run_batches-AreSlots engine decode eos_id gs (suc (work_count ss)) ss v
                  (omega arith))
                λ done (v', _). join_slots_lem Score 0 all_inputs gs done goals v'
    where
      all_inputs : List TranslationInput
      all_inputs = input ∷ inputs

      Translated : List (TranslationOutput Score) → Type 0
      Translated = AreTranslations {Score = Score} all_inputs
