-- ===== src/Cpu/Planner.antt =====
-- crates/marian-cpu/src/backend.rs, `translate_with_engine`: texts are cut into segments, the segments of
-- the inputs are translated in bounded batches, and put together again. The tokenizers and the engine are
-- parameters; a result without a value stands for their error. The source's vectors with an entry for each
-- input (`planned_inputs`, `work`, `positions`, `remaining_output_tokens`) are one list of slots.
pub mod Slots
pub mod Family
pub mod Rows
pub mod Bounds
pub mod Loop
pub mod Plan
pub mod Translate
pub mod Tests
use marian_edge.Common.{
  ℕ, ℤ, pos, negsuc, zero, suc, ◌+◌, ◌-◌, ◌*◌, ◌^◌, max, Bool, true, false, not, ◌&&◌, ◌||◌, List,
  [], ◌∷◌, ◌++◌, map, Option, none, some, ltb, leb, ◌==◌, int_eq, if◌then◌else◌, length, get_elem?,
  set, take, drop, retain, any, all, usize_max, checked_add, Outcome, ok, err, crash, ◌>>=◌, ◌>>◌,
  fail_if, ok_or, or_crash,
}
use marian_edge.Text.{Text, text_eq}
use marian_edge.Segmenter.{TextSegment}
use marian_edge.Segmenter.Counter.{Counted, counted, failed}
use marian_edge.Segmenter.Split.{segment_text, content, separator}
use marian_edge.Translation.{
  TranslationInput, TranslationOutput, BackendError, invalid_input, unsupported_direction,
  inference,
}
use marian_edge.Cpu.{
  BatchOutput, maximum_source_tokens, maximum_engine_batch, maximum_padded_attention_cells,
  maximum_translation_segments,
}

pub record PlannedOutput : Type 0 where
  pub translated : Option Text
  pub separator_text : Text
  pub input_tokens : ℕ
  pub output_tokens : ℕ

pub record SegmentWork : Type 0 where
  pub input_index : ℕ
  pub segment_index : ℕ
  pub tokens : List ℤ

-- What belongs to one input: its entries of the four vectors.
pub record Slot : Type 0 where
  pub segments : List PlannedOutput
  pub work : List SegmentWork
  pub position : ℕ
  pub remaining : ℕ

abbrev pub Checked : Type 0 → Type 0
Checked = Outcome BackendError

-- `token < 0 || token as usize >= vocabulary_size`.
unfoldable pub is_invalid : ℕ → ℤ → Bool
is_invalid vocabulary_size (negsuc n) = true
is_invalid vocabulary_size (pos n) = leb vocabulary_size n

-- `candidate_batch.checked_mul(length).and_then(|v| v.checked_mul(length)).unwrap_or(usize::MAX)`.
unfoldable pub attention_cells : ℕ → ℕ → ℕ
attention_cells rows len =
    if leb (rows * len) usize_max && leb (rows * len * len) usize_max
    then rows * len * len
    else usize_max

module _ (encode : Text → Option (List ℤ)) (vocabulary_size : ℕ) (eos_id : ℤ) where
  -- `|text| source.encode(text).map(|pieces| pieces.len())`.
  unfoldable pub count_pieces : Text → Counted
  count_pieces text = elim (encode text) [
    | some pieces ↦ counted (length pieces)
    | none ↦ failed "tokenizer"
  ]

  -- The tokens of a segment that is not empty, checked, with the end of the sentence.
  unfoldable pub segment_tokens : ℕ → Text → Checked (List ℤ)
  unfolding is_invalid
  segment_tokens source_pieces content = do
    pieces ← ok_or (encode content) invalid_input
    fail_if (not (length pieces == source_pieces)) inference
    fail_if (any (is_invalid vocabulary_size) pieces) invalid_input
    fail_if (ltb maximum_source_tokens (length (pieces ++ eos_id ∷ []))) inference
    ok (pieces ++ eos_id ∷ [])

  -- The parts of the loop's state that a segment changes: the slot of its input, and `total_work`.
  unfoldable pub plan_segment : TranslationInput → ℕ → TextSegment → Slot → ℕ → Checked (Slot × ℕ)
  unfolding segment_tokens
  plan_segment input input_index segment slot total_work = do
    body ← or_crash (content segment input.text)
    gap ← or_crash (separator segment input.text)
    if length body == 0
        then ok (
          record slot {
            segments =
                slot.segments
                ++ record {
                  translated = some [];
                  separator_text = gap;
                  input_tokens = 0;
                  output_tokens = 0;
                }
                  ∷ [];
          },
          total_work,
        )
        else (fail_if (leb maximum_translation_segments total_work) invalid_input
            >> (segment_tokens segment.source_pieces body >>= λ tokens. ok (
              record slot {
                segments =
                    slot.segments
                    ++ record {
                      translated = none;
                      separator_text = gap;
                      input_tokens = length tokens;
                      output_tokens = 0;
                    }
                      ∷ [];
                work =
                    slot.work
                    ++ record {
                      input_index = input_index;
                      segment_index = length slot.segments;
                      tokens = tokens;
                    }
                      ∷ [];
              },
              total_work + 1,
            )))

  unfoldable pub plan_segments :
      TranslationInput → ℕ → List TextSegment → Slot → ℕ → Checked (Slot × ℕ)
  unfolding plan_segment
  plan_segments input input_index [] slot total_work = ok (slot, total_work)
  plan_segments input input_index (segment ∷ segments) slot total_work =
      plan_segment input input_index segment slot total_work >>= λ r.
      plan_segments input input_index segments r.0 r.1

  -- An error of the segmenter is invalid input.
  unfoldable pub plan_input : TranslationInput → ℕ → ℕ → Checked (Slot × ℕ)
  unfolding plan_segments count_pieces
  plan_input input input_index total_work =
      elim (segment_text input.text count_pieces (maximum_source_tokens - 1)) [
        | ok segments ↦
            plan_segments input input_index segments
              (record {
                segments = [];
                work = [];
                position = 0;
                remaining = input.max_output_tokens;
              })
              total_work
        | err e ↦ err invalid_input
        | crash ↦ crash
      ]

  unfoldable pub plan_inputs : List TranslationInput → ℕ → ℕ → Checked (List Slot)
  unfolding plan_input
  plan_inputs [] input_index total_work = ok []
  plan_inputs (input ∷ inputs) input_index total_work =
      plan_input input input_index total_work >>= λ r.
      plan_inputs inputs (input_index + 1) r.1 >>= λ slots. ok (r.0 ∷ slots)

-- `destination.translated.replace(text).is_some()` is an error; else the slot with the text in
-- place, the number of its tokens, and the next position.
unfoldable pub put_text : Slot → ℕ → Text → (PlannedOutput → ℕ) → Checked Slot
put_text slot segment_index text output_tokens =
    or_crash (get_elem? slot.segments segment_index) >>= λ destination.
    elim destination.translated [
      | some old ↦ err inference
      | none ↦ ok (record slot {
        segments = set slot.segments segment_index (record destination {
          translated = some text;
          output_tokens = output_tokens destination;
        });
        position = slot.position + 1;
      })
    ]

-- `while positions[input_index] < work[input_index].len()`: each segment that is left gets an empty text.
unfoldable pub drain : ℕ → Slot → Checked Slot
unfolding put_text
drain zero slot = if ltb slot.position (length slot.work) then crash else ok slot
drain (suc fuel) slot = elim (get_elem? slot.work slot.position) [
  | none ↦ ok slot
  | some segment ↦ put_text slot segment.segment_index [] (λ d. d.output_tokens) >>= drain fuel
]

-- The inputs whose budget of output tokens is spent.
unfoldable pub drain_spent : List Slot → Checked (List Slot)
unfolding drain
drain_spent [] = ok []
drain_spent (slot ∷ slots) =
    (if slot.remaining == 0 then drain (length slot.work) slot else ok slot) >>= λ slot'.
    drain_spent slots >>= λ slots'. ok (slot' ∷ slots')

-- The batch: at most one segment of each input, as long as the padded attention is bounded.
unfoldable pub fill_batch : List Slot → ℕ → ℕ → List SegmentWork
unfolding attention_cells
fill_batch [] rows longest = []
fill_batch (slot ∷ slots) rows longest = elim (get_elem? slot.work slot.position) [
  | none ↦ fill_batch slots rows longest
  | some segment ↦
      let candidate = max longest (length segment.tokens) in
      elim (leb maximum_engine_batch rows) [
        | true ↦ []
        | false ↦ elim (ltb maximum_padded_attention_cells (attention_cells (rows + 1) candidate)) [
          | true ↦ fill_batch slots rows longest
          | false ↦ segment ∷ fill_batch slots (rows + 1) candidate
        ]
      ]
]

-- What the engine is given: the rows' tokens, their offsets as 32-bit numbers, and their budgets.
pub record Packed : Type 0 where
  pub tokens : List ℤ
  pub offsets : List ℕ
  pub output_limits : List ℕ

unfoldable pub pack : List Slot → List SegmentWork → Packed → Checked Packed
pack slots [] packed = ok packed
pack slots (segment ∷ batch) packed = do
  let tokens = packed.tokens ++ segment.tokens
  fail_if (leb (2 ^ 32) (length tokens)) invalid_input
  slot ← or_crash (get_elem? slots segment.input_index)
  pack slots batch (record {
    tokens = tokens;
    offsets = packed.offsets ++ length tokens ∷ [];
    output_limits = packed.output_limits ++ slot.remaining ∷ [];
  })

module _ (decode : List ℤ → Option Text) (eos_id : ℤ) (output : BatchOutput) where
  -- The result of one row, put in its place.
  unfoldable pub settle_row : ℕ → SegmentWork → List Slot → Checked (List Slot)
  unfolding put_text
  settle_row row segment slots = do
    start ← or_crash (get_elem? output.offsets row)
    end ← or_crash (get_elem? output.offsets (row + 1))
    fail_if (ltb end start || ltb (length output.tokens) end) inference
    slot ← or_crash (get_elem? slots segment.input_index)
    fail_if (ltb slot.remaining (end - start)) inference
    let ids = retain (λ id. not (int_eq id eos_id)) (take (end - start) (drop start output.tokens))
    text ← ok_or (decode ids) inference
    slot' ←
        put_text (record slot { remaining = slot.remaining - (end - start) }) segment.segment_index
          text (λ _. length ids)
    ok (set slots segment.input_index slot')

  unfoldable pub settle_rows : ℕ → List SegmentWork → List Slot → Checked (List Slot)
  unfolding settle_row
  settle_rows row [] slots = ok slots
  settle_rows row (segment ∷ batch) slots =
      settle_row row segment slots >>= settle_rows (row + 1) batch

-- One segment after the other: the text with its separators, and the token counts.
unfoldable pub join_segments : List PlannedOutput → Text → ℕ → ℕ → Checked (Text × ℕ × ℕ)
join_segments [] text input_tokens output_tokens = ok (text, input_tokens, output_tokens)
join_segments (segment ∷ segments) text input_tokens output_tokens = do
  translated ← ok_or segment.translated inference
  inputs ← ok_or (checked_add input_tokens segment.input_tokens) inference
  outputs ← ok_or (checked_add output_tokens segment.output_tokens) inference
  join_segments segments (text ++ (translated ++ segment.separator_text)) inputs outputs

unfoldable pub join_slots : {Score : Type 0} → List Slot → Checked (List (TranslationOutput Score))
unfolding join_segments
join_slots [] = ok []
join_slots (slot ∷ slots) = join_segments slot.segments [] 0 0 >>= λ r.
    join_slots slots >>= λ outputs.
    ok (record { text = r.0; score = none; input_tokens = r.1; output_tokens = r.2 } ∷ outputs)

module _ (engine : List ℤ → List ℕ → List ℕ → Option BatchOutput) (decode : List ℤ → Option Text)
    (eos_id : ℤ) where
  -- One batch: packed, translated, and its rows settled.
  unfoldable pub run_engine_batch : List SegmentWork → List Slot → Checked (List Slot)
  unfolding pack settle_rows
  run_engine_batch batch slots = do
    packed ← pack slots batch (record { tokens = []; offsets = 0 ∷ []; output_limits = [] })
    output ← ok_or (engine packed.tokens packed.offsets packed.output_limits) inference
    fail_if (not (length output.offsets == length batch + 1)) inference
    settle_rows decode eos_id output 0 batch slots

  -- The loop, with fuel for one round more than there are segments to translate.
  unfoldable pub run_batches : ℕ → List Slot → Checked (List Slot)
  unfolding drain_spent fill_batch run_engine_batch
  run_batches zero slots = crash
  run_batches (suc fuel) slots = drain_spent slots >>= λ slots'. elim (fill_batch slots' 0 0) [
    | [] ↦
        if all (λ slot. slot.position == length slot.work) slots' then ok slots' else err inference
    | segment ∷ batch ↦ run_engine_batch (segment ∷ batch) slots' >>= run_batches fuel
  ]

-- The segments that are left to translate: the fuel that the loop needs.
unfoldable pub work_count : List Slot → ℕ
work_count [] = 0
work_count (slot ∷ slots) = (length slot.work - slot.position) + work_count slots

unfoldable pub wrong_direction : Text → Text → TranslationInput → Bool
unfolding text_eq
wrong_direction source_lang target_lang input =
    not (text_eq input.source_lang source_lang) || not (text_eq input.target_lang target_lang)

module _ (encode : Text → Option (List ℤ)) (vocabulary_size : ℕ)
    (engine : List ℤ → List ℕ → List ℕ → Option BatchOutput) (decode : List ℤ → Option Text) where
  unfoldable pub translate_with_engine :
      {Score : Type 0}
      → Text
      → Text
      → ℤ
      → List TranslationInput
      → Checked (List (TranslationOutput Score))
  unfolding wrong_direction plan_inputs run_batches work_count join_slots
  translate_with_engine source_lang target_lang eos_id [] = ok []
  translate_with_engine source_lang target_lang eos_id (input ∷ inputs) = do
    fail_if (any (wrong_direction source_lang target_lang) (input ∷ inputs)) unsupported_direction
    slots ← plan_inputs encode vocabulary_size eos_id (input ∷ inputs) 0 0
    done ← run_batches engine decode eos_id (suc (work_count slots)) slots
    join_slots done
