-- ===== src/Scheduler/Pool.antt =====
-- scheduler.rs, the pool of workers: `next_worker`, and `translate_many`, which submits a group in the order
-- of the batch keys. What the calls of `translate` return is the parameter `reply`.
pub mod Least
pub mod Restore
pub mod Start
use marian_edge.Common.{
  ℕ, zero, suc, ◌+◌, ◌%◌, ◌≤◌, Bool, true, false, List, [], ◌∷◌, ◌++◌, map, Option, none, some, ltb,
  leb, ◌==◌, if◌then◌else◌, length, get_elem?, set, Outcome, ok, err, crash, ◌>>=◌, or_crash,
}
use marian_edge.Text.{Text}
use marian_edge.Translation.{TranslationInput, BatchKey, batch_key, TranslateError}
use marian_edge.Scheduler.{fetch_add}

-- `(0..len).map(|offset| (start + offset) % len)`, from an offset on.
unfoldable pub rotation : ℕ → ℕ → ℕ → ℕ → List ℕ
rotation start len offset zero = []
rotation start len offset (suc left) = (start + offset) % len ∷ rotation start len (suc offset) left

-- `min_by_key`: the first of the least, with the best one so far.
unfoldable pub least_from : List ℕ → ℕ → ℕ → List ℕ → Option ℕ
least_from pending best load [] = some best
least_from pending best load (worker ∷ workers) = elim (get_elem? pending worker) [
  | none ↦ none
  | some other ↦
      if ltb other load
      then least_from pending worker other workers
      else least_from pending best load workers
]

-- The index of the worker, where `pending` has the load of each, and the counter afterwards.
unfoldable pub next_worker : List ℕ → ℕ → Option ℕ × ℕ
unfolding rotation least_from
next_worker pending counter = (
  elim (rotation (counter % length pending) (length pending) 0 (length pending)) [
    | [] ↦ none
    | worker ∷ workers ↦ elim (get_elem? pending worker) [
      | none ↦ none
      | some load ↦ least_from pending worker load workers
    ]
  ],
  fetch_add counter 1,
)

-- `left.cmp(&right) != Greater` on texts, by their scalars as by their bytes.
pub data Order : Type 0 where
  less equal greater : Order

unfoldable pub compare_numbers : ℕ → ℕ → Order
compare_numbers a b = if ltb a b then less else if a == b then equal else greater

abbrev pub then_by : Order → Order → Order
then_by less o = less
then_by equal o = o
then_by greater o = greater

unfoldable pub compare_texts : Text → Text → Order
unfolding compare_numbers
compare_texts [] [] = equal
compare_texts [] (d ∷ t) = less
compare_texts (c ∷ s) [] = greater
compare_texts (c ∷ s) (d ∷ t) = then_by (compare_numbers c d) (compare_texts s t)

unfoldable pub compare_keys : BatchKey → BatchKey → Order
unfolding compare_texts compare_numbers
compare_keys a b = then_by (compare_texts a.source_lang b.source_lang) (
    then_by (compare_texts a.target_lang b.target_lang) (
      then_by (compare_numbers a.max_output_tokens b.max_output_tokens)
        (compare_numbers a.length_bucket b.length_bucket)))

abbrev pub Indexed : Type 0
Indexed = ℕ × TranslationInput

-- `into_iter().enumerate()`.
unfoldable pub enumerate : ℕ → List TranslationInput → List Indexed
enumerate index [] = []
enumerate index (input ∷ inputs) = (index, input) ∷ enumerate (suc index) inputs

-- The stable `sort_by` on the batch keys, by insertion.
unfoldable pub insert_by_key : Indexed → List Indexed → List Indexed
unfolding compare_keys batch_key
insert_by_key x [] = x ∷ []
insert_by_key x (y ∷ ys) = elim (compare_keys (batch_key x.1) (batch_key y.1)) [
  | less ↦ x ∷ y ∷ ys
  | equal ↦ x ∷ y ∷ ys
  | greater ↦ y ∷ insert_by_key x ys
]

unfoldable pub sort_by_key : List Indexed → List Indexed
unfolding insert_by_key
sort_by_key [] = []
sort_by_key (x ∷ xs) = insert_by_key x (sort_by_key xs)

abbrev pub nothing : {O : Type 0} → ℕ → List (Option O)
nothing zero = []
nothing (suc n) = none ∷ nothing n

-- What a call of `translate` returns.
pub data CallResult (O : Type 0) : Type 0 where
  done : O → CallResult O
  failed : TranslateError → CallResult O

module _ {O : Type 0} (reply : ℕ → TranslationInput → CallResult O) where
  -- `for result in results { let (index, output) = result?; ordered[index] = Some(output); }`.
  unfoldable pub restore : List Indexed → List (Option O) → Outcome TranslateError (List (Option O))
  restore [] ordered = ok ordered
  restore (x ∷ xs) ordered = elim (reply x.0 x.1) [
    | failed e ↦ err e
    | done output ↦
        or_crash (get_elem? ordered x.0) >>= λ old. restore xs (set ordered x.0 (some output))
  ]

-- `output.expect(…)` for each.
unfoldable pub expect_all : {O : Type 0} → List (Option O) → Outcome TranslateError (List O)
expect_all [] = ok []
expect_all (output ∷ outputs) = or_crash output >>= λ o. expect_all outputs >>= λ os. ok (o ∷ os)

unfoldable pub translate_many :
    {O : Type 0}
    → (ℕ → TranslationInput → CallResult O)
    → List TranslationInput
    → Outcome TranslateError (List O)
unfolding enumerate sort_by_key restore expect_all
translate_many reply inputs =
    let indexed = sort_by_key (enumerate 0 inputs) in
    restore reply indexed (nothing (length indexed)) >>= expect_all
