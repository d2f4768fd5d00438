-- ===== src/Cpu/Planner/Plan.antt =====
-- What the planning of the inputs leaves: a slot for each input, in which nothing is translated yet but
-- the empty segments.
use marian_edge.Common.{
  ℕ, ℤ, suc, ◌+◌, ◌-◌, ◌≤◌, ◌≡◌, refl, sym, ap, ◌∙◌, subst, false, not, List, drop, [], ◌∷◌, ◌++◌,
  Option, none, some, ltb, leb, ◌==◌, any, length, All, All-append, Outcome, ok, err, crash,
  Ensures, Ensures-bind, Ensures-if, Ensures-or_crash, Ensures-ok_or, Ensures-fail_if, Ensures-mono,
  arith, append_assoc, append-nil,
}
use mathlib.Core.List.{map-append}
use marian_edge.Text.{Text}
use marian_edge.Segmenter.{TextSegment, SegmentError}
use marian_edge.Segmenter.Counter.{counted}
use marian_edge.Segmenter.Split.{segment_text, content, separator}
use marian_edge.Segmenter.Lossless.{
  IsGoodSegment, segment_text-IsGoodSegment, segment_text-ne-crash,
}
use marian_edge.Translation.{TranslationInput, invalid_input, inference}
use marian_edge.Cpu.{maximum_source_tokens, maximum_translation_segments}
use marian_edge.Cpu.Planner.{
  PlannedOutput, SegmentWork, Slot, count_pieces, is_invalid, segment_tokens, plan_segment,
  plan_segments, plan_input, plan_inputs,
}
use marian_edge.Cpu.Planner.Slots.{IsSlot, IsWorkOf, pending, indices, gaps_of, output_sum}
use marian_edge.Cpu.Planner.Family.{Goal, AreSlots}

pending-append :
    (o : ℕ) (xs : List PlannedOutput) (y : PlannedOutput)
    → pending o (xs ++ y ∷ []) ≡ pending o xs ++ pending (o + length xs) (y ∷ [])
pending-append o [] y = ap (λ n. pending n (y ∷ [])) (right_zero o)
  where
    right_zero : (n : ℕ) → n ≡ n + 0
    right_zero n = omega arith
pending-append o (x ∷ xs) y = by_head x.translated (
    pending-append (suc o) xs y
    ∙ ap (λ n. pending (suc o) xs ++ pending n (y ∷ [])) (shift o (length xs)))
  where
    shift : (m n : ℕ) → suc m + n ≡ m + suc n
    shift m n = omega arith

    by_head :
        (t : Option Text)
        → pending (suc o) (xs ++ y ∷ [])
          ≡ pending (suc o) xs ++ pending (o + length (x ∷ xs)) (y ∷ [])
        → elim t [
          | none ↦ o ∷ pending (suc o) (xs ++ y ∷ [])
          | some u ↦ pending (suc o) (xs ++ y ∷ [])
        ]
          ≡ elim t [ none ↦ o ∷ pending (suc o) xs | some u ↦ pending (suc o) xs ]
            ++ pending (o + length (x ∷ xs)) (y ∷ [])
    by_head none e = ap (λ z. o ∷ z) e
    by_head (some u) e = e

-- The separators of the segments, sliced from the text.
abbrev pub AreGaps : Text → List TextSegment → List Text → Type 0
AreGaps text [] [] = Unit
AreGaps text [] (g ∷ gs) = ⊥
AreGaps text (s ∷ ss) [] = ⊥
AreGaps text (s ∷ ss) (g ∷ gs) = (separator s text ≡ some g) × AreGaps text ss gs

-- A slot before the first batch.
record IsPlanned (index : ℕ) (gaps : List Text) (budget : ℕ) (slot : Slot) : Type 0 where
  left : pending 0 slot.segments ≡ indices slot.work
  at_start : slot.position ≡ 0
  owned : All (IsWorkOf index) slot.work
  gaps_kept : gaps_of slot.segments ≡ gaps
  unspent : output_sum slot.segments + slot.remaining ≤ budget

output_sum-append :
    (xs : List PlannedOutput) (y : PlannedOutput)
    → output_sum (xs ++ y ∷ []) ≡ output_sum xs + y.output_tokens
output_sum-append [] y = omega arith
output_sum-append (x ∷ xs) y = omega (arith, output_sum-append xs y)

left_zero : (n : ℕ) → 0 + n ≡ n
left_zero n = omega arith

-- A segment behind the others, with its work if it has no text yet.
IsPlanned-append :
    (index : ℕ) (gaps : List Text) (budget : ℕ) (slot : Slot) (y : PlannedOutput)
    (more : List SegmentWork)
    → IsPlanned index gaps budget slot
    → y.output_tokens ≡ 0
    → pending (0 + length slot.segments) (y ∷ []) ≡ indices more
    → All (IsWorkOf index) more
    → IsPlanned index
        (gaps ++ y.separator_text ∷ [])
        budget
        (record slot { segments = slot.segments ++ y ∷ []; work = slot.work ++ more })
IsPlanned-append index gaps budget slot y more v none_out e owned = record {
  left =
      pending-append 0 slot.segments y
      ∙ ap (λ z. z ++ pending (0 + length slot.segments) (y ∷ [])) v.left
      ∙ ap (λ z. indices slot.work ++ z) e
      ∙ sym (map-append (λ (w : SegmentWork). w.segment_index) slot.work more);
  at_start = v.at_start;
  owned = All-append (IsWorkOf index) slot.work more v.owned owned;
  gaps_kept =
      map-append (λ (p : PlannedOutput). p.separator_text) slot.segments (y ∷ [])
      ∙ ap (λ z. z ++ y.separator_text ∷ []) v.gaps_kept;
  unspent = omega (arith, output_sum-append slot.segments y, none_out, v.unspent);
}

module _ (encode : Text → Option (List ℤ)) (vocabulary_size : ℕ) (eos_id : ℤ) where
  segment_tokens_lem :
      (n : ℕ) (body : Text)
      → Ensures
          (λ ts. length ts ≤ maximum_source_tokens)
          (segment_tokens encode vocabulary_size eos_id n body)
  unfolding segment_tokens
  segment_tokens_lem n body = Ensures-ok_or Small (encode body) invalid_input _ λ pieces _.
      Ensures-fail_if Small (not (length pieces == n)) inference _ λ _.
        Ensures-fail_if Small (any (is_invalid vocabulary_size) pieces) invalid_input _ λ _.
          Ensures-fail_if Small (ltb maximum_source_tokens (length (pieces ++ eos_id ∷ [])))
            inference _ λ h. not_ltb (length (pieces ++ eos_id ∷ [])) h
    where
      Small : List ℤ → Type 0
      Small ts = length ts ≤ maximum_source_tokens

      not_ltb : (m : ℕ) → ltb 256 m ≡ false → m ≤ 256
      not_ltb m h = ground (arith, h)

  plan_segment_lem :
      (input : TranslationInput) (index : ℕ) (segment : TextSegment) (slot : Slot) (total : ℕ)
      (gaps : List Text) (budget : ℕ) (body gap : Text)
      → content segment input.text ≡ some body
      → separator segment input.text ≡ some gap
      → IsPlanned index gaps budget slot
      → Ensures
          (λ r. IsPlanned index (gaps ++ gap ∷ []) budget r.0)
          (plan_segment encode vocabulary_size eos_id input index segment slot total)
  unfolding plan_segment
  plan_segment_lem input index segment slot total gaps budget body gap eb eg v =
      Ensures-or_crash Planned (content segment input.text) body _ eb (
        Ensures-or_crash Planned (separator segment input.text) gap _ eg (
          Ensures-if Planned (length body == 0) _ _
            (λ _.
              subst
                (λ ws.
                  IsPlanned index (gaps ++ gap ∷ []) budget
                    (record slot { segments = slot.segments ++ empty_part ∷ []; work = ws }))
                (append-nil slot.work)
                (IsPlanned-append index gaps budget slot empty_part [] v refl refl tt))
            λ _.
              Ensures-fail_if Planned (leb maximum_translation_segments total) invalid_input _ λ _.
                Ensures-bind (λ ts. length ts ≤ maximum_source_tokens) Planned
                  (segment_tokens encode vocabulary_size eos_id segment.source_pieces body) _
                  (segment_tokens_lem segment.source_pieces body)
                  λ tokens small.
                    IsPlanned-append index gaps budget slot _
                      (record {
                        input_index = index;
                        segment_index = length slot.segments;
                        tokens = tokens;
                      }
                        ∷ [])
                      v refl (ap (λ n. n ∷ []) (left_zero (length slot.segments)))
                      ((refl, small), tt)))
    where
      Planned : Slot × ℕ → Type 0
      Planned r = IsPlanned index (gaps ++ gap ∷ []) budget r.0

      empty_part : PlannedOutput
      empty_part = record {
        translated = some [];
        separator_text = gap;
        input_tokens = 0;
        output_tokens = 0;
      }

  plan_segments_lem :
      (input : TranslationInput) (index : ℕ) (segments : List TextSegment) (slot : Slot)
      (total n : ℕ) (before gaps : List Text) (budget : ℕ)
      → All (IsGoodSegment input.text (count_pieces encode vocabulary_size eos_id) n) segments
      → AreGaps input.text segments gaps
      → IsPlanned index before budget slot
      → Ensures
          (λ r. IsPlanned index (before ++ gaps) budget r.0)
          (plan_segments encode vocabulary_size eos_id input index segments slot total)
  unfolding plan_segments
  plan_segments_lem input index [] slot total n before [] budget good h v =
      subst (λ z. IsPlanned index z budget slot) (sym (append-nil before)) v
  plan_segments_lem input index [] slot total n before (g ∷ gs) budget good h v = absurd h
  plan_segments_lem input index (s ∷ ss) slot total n before [] budget good h v = absurd h
  plan_segments_lem input index (s ∷ ss) slot total n before (g ∷ gs) budget (first, good) h v =
      let (body, w, eb, counts, small, ew, blank) = first in
      Ensures-bind (λ r. IsPlanned index (before ++ g ∷ []) budget r.0)
        (λ r. IsPlanned index (before ++ g ∷ gs) budget r.0)
        (plan_segment encode vocabulary_size eos_id input index s slot total) _
        (plan_segment_lem input index s slot total before budget body g eb h.0 v)
        λ r v'.
          subst
            (λ z.
              Ensures (λ q. IsPlanned index z budget q.0)
                (plan_segments encode vocabulary_size eos_id input index ss r.0 r.1))
            (append_assoc before (g ∷ []) gs)
            (plan_segments_lem input index ss r.0 r.1 n (before ++ g ∷ []) gs budget good h.1 v')

  gaps_for :
      (text : Text) (n : ℕ) (segments : List TextSegment)
      → All (IsGoodSegment text (count_pieces encode vocabulary_size eos_id) n) segments
      → (gaps : List Text) × AreGaps text segments gaps
  gaps_for text n [] good = ([], tt)
  gaps_for text n (s ∷ ss) ((body, w, eb, counts, small, ew, blank), good) =
      let (gs, h) = gaps_for text n ss good in (w ∷ gs, (ew, h))

  -- The segments of an input, their separators, and its budget.
  pub record IsGoalOf (input : TranslationInput) (goal : Goal) : Type 0 where
    pub segments : List TextSegment
    pub found :
        segment_text input.text
          (count_pieces encode vocabulary_size eos_id)
          (maximum_source_tokens - 1)
        ≡ ok segments
    pub gaps_are : AreGaps input.text segments goal.gaps
    pub budget_is : goal.budget ≡ input.max_output_tokens

  abbrev pub AreGoals : List TranslationInput → List Goal → Type 0
  AreGoals [] [] = Unit
  AreGoals [] (g ∷ gs) = ⊥
  AreGoals (i ∷ is) [] = ⊥
  AreGoals (i ∷ is) (g ∷ gs) = IsGoalOf i g × AreGoals is gs

  planned-IsSlot :
      (index : ℕ) (gaps : List Text) (budget : ℕ) (slot : Slot)
      → IsPlanned index gaps budget slot
      → IsSlot index gaps budget slot
  planned-IsSlot index gaps budget slot v = record {
    left = v.left ∙ ap (λ n. indices (drop n slot.work)) (sym v.at_start);
    in_work = omega (arith, v.at_start);
    owned = v.owned;
    gaps_kept = v.gaps_kept;
    within = v.unspent;
  }

  module _ (encode_empty : encode [] ≡ some []) where
    count_empty : count_pieces encode vocabulary_size eos_id [] ≡ counted 0
    unfolding count_pieces
    count_empty = rw (encode_empty, count_pieces) refl

    plan_input_lem :
        (input : TranslationInput) (index total : ℕ)
        → Ensures
            (λ r. (goal : Goal) × IsGoalOf input goal × IsSlot index goal.gaps goal.budget r.0)
            (plan_input encode vocabulary_size eos_id input index total)
    unfolding plan_input
    plan_input_lem input index total =
        by_result
          (segment_text input.text (count_pieces encode vocabulary_size eos_id)
            (maximum_source_tokens - 1))
          refl
      where
        Q : Slot × ℕ → Type 0
        Q r = (goal : Goal) × IsGoalOf input goal × IsSlot index goal.gaps goal.budget r.0

        by_result :
            (m : Outcome SegmentError (List TextSegment))
            → segment_text input.text
                (count_pieces encode vocabulary_size eos_id)
                (maximum_source_tokens - 1)
              ≡ m
            → Ensures Q (elim m [
              | ok segments ↦
                  plan_segments encode vocabulary_size eos_id input index segments
                    (record {
                      segments = [];
                      work = [];
                      position = 0;
                      remaining = input.max_output_tokens;
                    })
                    total
              | err e ↦ err invalid_input
              | crash ↦ crash
            ])
        by_result (ok segments) e =
            let good =
              segment_text-IsGoodSegment input.text (count_pieces encode vocabulary_size eos_id)
                (maximum_source_tokens - 1) count_empty segments e in
            let (gaps, h) = gaps_for input.text (maximum_source_tokens - 1) segments good in
            Ensures-mono (λ r. IsPlanned index gaps input.max_output_tokens r.0) Q _
              (plan_segments_lem input index segments _ total (maximum_source_tokens - 1) [] gaps
                input.max_output_tokens good h
                (record {
                  left = refl;
                  at_start = refl;
                  owned = tt;
                  gaps_kept = refl;
                  unspent = omega arith;
                }))
              λ r v. (
                record { gaps = gaps; budget = input.max_output_tokens },
                record { segments = segments; found = e; gaps_are = h; budget_is = refl },
                planned-IsSlot index gaps input.max_output_tokens r.0 v,
              )
        by_result (err x) e = tt
        by_result crash e = absurd (
            segment_text-ne-crash input.text (count_pieces encode vocabulary_size eos_id)
              (maximum_source_tokens - 1) count_empty e)

    -- Planning does not crash; each input gets a slot with its segments.
    pub plan_inputs_lem :
        (inputs : List TranslationInput) (index total : ℕ)
        → Ensures
            (λ ss. (gs : List Goal) × AreGoals inputs gs × AreSlots index gs ss)
            (plan_inputs encode vocabulary_size eos_id inputs index total)
    unfolding plan_inputs
    plan_inputs_lem [] index total = ([], tt, tt)
    plan_inputs_lem (input ∷ inputs) index total =
        Ensures-bind One All' (plan_input encode vocabulary_size eos_id input index total) _
          (plan_input_lem input index total)
          λ r (g, goal, v).
            Ensures-bind (Rest (index + 1)) All'
              (plan_inputs encode vocabulary_size eos_id inputs (index + 1) r.1) _
              (plan_inputs_lem inputs (index + 1) r.1)
              λ ss (gs, goals, vs).
                (g ∷ gs, (goal, goals), (v, subst (λ k. AreSlots k gs ss) (one index) vs))
      where
        One : Slot × ℕ → Type 0
        One r = (goal : Goal) × IsGoalOf input goal × IsSlot index goal.gaps goal.budget r.0

        Rest : ℕ → List Slot → Type 0
        Rest k ss = (gs : List Goal) × AreGoals inputs gs × AreSlots k gs ss

        All' : List Slot → Type 0
        All' ss = (gs : List Goal) × AreGoals (input ∷ inputs) gs × AreSlots index gs ss

        one : (n : ℕ) → n + 1 ≡ suc n
        one n = omega arith
