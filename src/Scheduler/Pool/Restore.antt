-- ===== src/Scheduler/Pool/Restore.antt =====
-- `translate_many` restores the order of the caller.
use marian_edge.Common.{
  length-set, ℕ, zero, suc, ◌+◌, ◌<◌, ◌≡◌, ◌≢◌, ◌⊎◌, inl, inr, refl, ap, ◌∙◌, subst, Bool-cases,
  false, List, [], ◌∷◌, Option, some, some_inj, ◌==◌, ==_iff, length, get_elem?, get_elem?-within,
  get_elem?-bound, get_elem?-set, get_elem?-set-other, set, All, All-map, err, ◌>>=◌, or_crash,
  Ensures, Ensures-bind, Ensures-or_crash, Ensures-mono, arith,
}
use marian_edge.Translation.{TranslationInput, batch_key}
use marian_edge.Scheduler.Pool.{
  Order, less, equal, greater, compare_keys, Indexed, enumerate, insert_by_key, sort_by_key,
  nothing, CallResult, done, failed, restore, expect_all, translate_many,
}

-- An index stands in the list.
abbrev Holds : ℕ → List Indexed → Type 0
Holds j [] = ⊥
Holds j (x ∷ xs) = (x.0 ≡ j) ⊎ Holds j xs

module _ (P : Indexed → Type 0) where
  All-insert_by_key :
      (x : Indexed) (xs : List Indexed) → P x → All P xs → All P (insert_by_key x xs)
  unfolding insert_by_key
  All-insert_by_key x [] h hs = (h, hs)
  All-insert_by_key x (y ∷ ys) h (hy, hs) =
      by_order (compare_keys (batch_key x.1) (batch_key y.1)) (All-insert_by_key x ys h hs)
    where
      by_order :
          (o : Order)
          → All P (insert_by_key x ys)
          → All P
              (elim o [ less ↦ x ∷ y ∷ ys | equal ↦ x ∷ y ∷ ys | greater ↦ y ∷ insert_by_key x ys ])
      by_order less rest = (h, (hy, hs))
      by_order equal rest = (h, (hy, hs))
      by_order greater rest = (hy, rest)

  All-sort_by_key : (xs : List Indexed) → All P xs → All P (sort_by_key xs)
  unfolding sort_by_key
  All-sort_by_key [] h = tt
  All-sort_by_key (x ∷ xs) (h, hs) = All-insert_by_key x (sort_by_key xs) h (All-sort_by_key xs hs)

Holds-insert_by_key :
    (j : ℕ) (x : Indexed) (xs : List Indexed)
    → (x.0 ≡ j) ⊎ Holds j xs
    → Holds j (insert_by_key x xs)
unfolding insert_by_key
Holds-insert_by_key j x [] h = h
Holds-insert_by_key j x (y ∷ ys) h =
    by_order (compare_keys (batch_key x.1) (batch_key y.1)) (λ k. Holds-insert_by_key j x ys k) h
  where
    by_order :
        (o : Order)
        → ((x.0 ≡ j) ⊎ Holds j ys → Holds j (insert_by_key x ys))
        → (x.0 ≡ j) ⊎ Holds j (y ∷ ys)
        → Holds j
            (elim o [ less ↦ x ∷ y ∷ ys | equal ↦ x ∷ y ∷ ys | greater ↦ y ∷ insert_by_key x ys ])
    by_order less further h = h
    by_order equal further h = h
    by_order greater further (inl e) = inr (further (inl e))
    by_order greater further (inr (inl e)) = inl e
    by_order greater further (inr (inr k)) = inr (further (inr k))

Holds-sort_by_key : (j : ℕ) (xs : List Indexed) → Holds j xs → Holds j (sort_by_key xs)
unfolding sort_by_key
Holds-sort_by_key j [] h = h
Holds-sort_by_key j (x ∷ xs) (inl e) = Holds-insert_by_key j x (sort_by_key xs) (inl e)
Holds-sort_by_key j (x ∷ xs) (inr h) =
    Holds-insert_by_key j x (sort_by_key xs) (inr (Holds-sort_by_key j xs h))

length-insert_by_key :
    (x : Indexed) (xs : List Indexed) → length (insert_by_key x xs) ≡ suc (length xs)
unfolding insert_by_key
length-insert_by_key x [] = refl
length-insert_by_key x (y ∷ ys) =
    by_order (compare_keys (batch_key x.1) (batch_key y.1)) (length-insert_by_key x ys)
  where
    by_order :
        (o : Order)
        → length (insert_by_key x ys) ≡ suc (length ys)
        → length
            (elim o [ less ↦ x ∷ y ∷ ys | equal ↦ x ∷ y ∷ ys | greater ↦ y ∷ insert_by_key x ys ])
          ≡ suc (suc (length ys))
    by_order less e = refl
    by_order equal e = refl
    by_order greater e = ap suc e

length-sort_by_key : (xs : List Indexed) → length (sort_by_key xs) ≡ length xs
unfolding sort_by_key
length-sort_by_key [] = refl
length-sort_by_key (x ∷ xs) =
    length-insert_by_key x (sort_by_key xs) ∙ ap suc (length-sort_by_key xs)

-- An input with its index, which counts from `k`.
abbrev IsEntry : ℕ → List TranslationInput → Indexed → Type 0
IsEntry k inputs x = (i : ℕ) × (k + i ≡ x.0) × (get_elem? inputs i ≡ some x.1)

enumerate-IsEntry :
    (k : ℕ) (inputs : List TranslationInput) → All (IsEntry k inputs) (enumerate k inputs)
unfolding enumerate
enumerate-IsEntry k [] = tt
enumerate-IsEntry k (input ∷ inputs) = (
  (zero, omega arith, refl),
  All-map (λ x (i, at, e). (suc i, omega (arith, at), e)) (enumerate (suc k) inputs)
      (enumerate-IsEntry (suc k) inputs),
)

enumerate-Holds :
    (k j : ℕ) (inputs : List TranslationInput)
    → j < length inputs
    → Holds (k + j) (enumerate k inputs)
unfolding enumerate
enumerate-Holds k j [] lt = absurd (omega (arith, lt))
enumerate-Holds k zero (input ∷ inputs) lt = inl (omega arith)
enumerate-Holds k (suc j) (input ∷ inputs) lt = inr (
    subst (λ n. Holds n (enumerate (suc k) inputs)) (shift k j)
      (enumerate-Holds (suc k) j inputs (omega (arith, lt))))
  where
    shift : (m n : ℕ) → suc m + n ≡ m + suc n
    shift m n = omega arith

length-enumerate :
    (k : ℕ) (inputs : List TranslationInput) → length (enumerate k inputs) ≡ length inputs
unfolding enumerate
length-enumerate k [] = refl
length-enumerate k (input ∷ inputs) = ap suc (length-enumerate (suc k) inputs)

length-nothing : (O : Type 0) (n : ℕ) → length (nothing {O = O} n) ≡ n
length-nothing O zero = refl
length-nothing O (suc n) = ap suc (length-nothing O n)

module _ {O : Type 0} (reply : ℕ → TranslationInput → CallResult O) where
  -- Each output is the reply to the input in the same place, whose index counts from `k`.
  abbrev pub AreReplies : ℕ → List TranslationInput → List O → Type 0
  AreReplies k [] [] = Unit
  AreReplies k [] (o ∷ os) = ⊥
  AreReplies k (i ∷ is) [] = ⊥
  AreReplies k (i ∷ is) (o ∷ os) = (reply k i ≡ done o) × AreReplies (suc k) is os

  -- A place that holds the reply to its input.
  abbrev Replied : ℕ → List TranslationInput → List (Option O) → ℕ → Type 0
  Replied k inputs ordered j =
      (o : O) × (input : TranslationInput) × (get_elem? ordered j ≡ some (some o))
      × (get_elem? inputs j ≡ some input)
      × (reply (k + j) input ≡ done o)

  expect_all_lem :
      (k : ℕ) (inputs : List TranslationInput) (ordered : List (Option O))
      → length ordered ≡ length inputs
      → ((j : ℕ) → j < length inputs → Replied k inputs ordered j)
      → Ensures (AreReplies k inputs) (expect_all ordered)
  unfolding expect_all
  expect_all_lem k [] [] n h = tt
  expect_all_lem k [] (o ∷ os) n h = absurd (omega (arith, n))
  expect_all_lem k (i ∷ is) [] n h = absurd (omega (arith, n))
  expect_all_lem k (i ∷ is) (o ∷ os) n h =
      let (out, input, placed, is_input, replied) = h 0 (omega arith) in
      Ensures-or_crash (AreReplies k (i ∷ is)) o out _ (some_inj placed) (
        Ensures-bind (AreReplies (suc k) is) (AreReplies k (i ∷ is)) (expect_all os) _
          (expect_all_lem (suc k) is os (omega (arith, n)) λ j lt.
            let (o', i', p', q', r') = h (suc j) (omega (arith, lt)) in
            (o', i', p', q', subst (λ m. reply m i' ≡ done o') (shift k j) r'))
          λ outs rest. (
            subst (λ m. reply m i ≡ done out) (right_zero k)
                (ap (reply (k + 0)) (some_inj is_input) ∙ replied),
            rest,
          ))
    where
      shift : (m n : ℕ) → m + suc n ≡ suc m + n
      shift m n = omega arith

      right_zero : (m : ℕ) → m + 0 ≡ m
      right_zero m = omega arith

  module _ (inputs : List TranslationInput) where
    abbrev IsFilled : List (Option O) → List Indexed → List (Option O) → Type 0
    IsFilled before xs after =
        (length after ≡ length inputs)
        × ((j : ℕ) → Replied 0 inputs before j ⊎ Holds j xs → Replied 0 inputs after j)

    restore_lem :
        (xs : List Indexed) (ordered : List (Option O))
        → All (IsEntry 0 inputs) xs
        → length ordered ≡ length inputs
        → Ensures (IsFilled ordered xs) (restore reply xs ordered)
    unfolding restore
    restore_lem [] ordered h n = (n, λ j. kept j)
      where
        kept : (j : ℕ) → Replied 0 inputs ordered j ⊎ Holds j [] → Replied 0 inputs ordered j
        kept j (inl v) = v
        kept j (inr v) = absurd v
    restore_lem (x ∷ xs) ordered ((i, at, input_at), h) n =
        by_reply
          (λ o. restore_lem xs (set ordered x.0 (some o)) h (length-set ordered x.0 (some o) ∙ n))
          (reply x.0 x.1) refl
      where
        index_is : i ≡ x.0
        index_is = omega (arith, at)

        inside : x.0 < length ordered
        inside = omega (arith, get_elem?-bound inputs i x.1 input_at, index_is, n)

        by_reply :
            ((o : O)
              → Ensures
                  (IsFilled (set ordered x.0 (some o)) xs)
                  (restore reply xs (set ordered x.0 (some o))))
            → (r : CallResult O) → reply x.0 x.1 ≡ r
            → Ensures (IsFilled ordered (x ∷ xs)) (elim r [
              | failed e ↦ err e
              | done output ↦ or_crash (get_elem? ordered x.0) >>= λ old.
                  restore reply xs (set ordered x.0 (some output))
            ])
        by_reply rest (failed e) eq = tt
        by_reply rest (done output) eq =
            let (old, found) = get_elem?-within ordered x.0 inside in
            Ensures-or_crash (IsFilled ordered (x ∷ xs)) (get_elem? ordered x.0) old _ found (
              Ensures-mono _ (IsFilled ordered (x ∷ xs))
                (restore reply xs (set ordered x.0 (some output))) (rest output)
                λ after (m, filled). (m, λ j. further j after filled))
          where
            no_offset : (m : ℕ) → 0 + m ≡ m
            no_offset m = omega arith

            here : Replied 0 inputs (set ordered x.0 (some output)) x.0
            here = (
              output,
              x.1,
              get_elem?-set ordered x.0 (some output) inside,
              subst (λ k. get_elem? inputs k ≡ some x.1) index_is input_at,
              ap (λ k. reply k x.1) (no_offset x.0) ∙ eq,
            )

            further :
                (j : ℕ) (after : List (Option O))
                → ((j : ℕ)
                    → Replied 0 inputs (set ordered x.0 (some output)) j ⊎ Holds j xs
                    → Replied 0 inputs after j)
                → Replied 0 inputs ordered j ⊎ Holds j (x ∷ xs)
                → Replied 0 inputs after j
            further j after filled (inr (inl e)) =
                filled j (inl (subst (Replied 0 inputs (set ordered x.0 (some output))) e here))
            further j after filled (inr (inr k)) = filled j (inr k)
            further j after filled (inl (o, input, p, q, r)) = elim (Bool-cases (x.0 == j)) [
              | inl e ↦ filled j (
                  inl (
                    subst (Replied 0 inputs (set ordered x.0 (some output))) ((==_iff x.0 j).0 e)
                      here))
              | inr other ↦ filled j (
                  inl (
                    o,
                    input,
                    get_elem?-set-other ordered x.0 j (some output) (differs other) ∙ p,
                    q,
                    r,
                  ))
            ]
              where
                differs : (x.0 == j) ≡ false → x.0 ≢ j
                differs f e = ground (arith, f, e)

  -- However the single calls of `translate` reply: a group does not panic, and when it succeeds it has an
  -- output for each input, in the order of the caller, which is the reply to that input.
  pub translate_many-AreReplies :
      (inputs : List TranslationInput) → Ensures (AreReplies 0 inputs) (translate_many reply inputs)
  unfolding translate_many
  translate_many-AreReplies inputs =
      Ensures-bind (IsFilled inputs (nothing (length indexed)) indexed) (AreReplies 0 inputs)
        (restore reply indexed (nothing (length indexed))) expect_all
        (restore_lem inputs indexed (nothing (length indexed))
          (All-sort_by_key (IsEntry 0 inputs) (enumerate 0 inputs) (enumerate-IsEntry 0 inputs))
          (length-nothing O (length indexed) ∙ size))
        λ ordered (n, filled). expect_all_lem 0 inputs ordered n λ j lt. filled j (
          inr (
            Holds-sort_by_key j (enumerate 0 inputs) (
              subst (λ k. Holds k (enumerate 0 inputs)) (left_zero j)
                (enumerate-Holds 0 j inputs lt))))
    where
      indexed : List Indexed
      indexed = sort_by_key (enumerate 0 inputs)

      size : length indexed ≡ length inputs
      size = length-sort_by_key (enumerate 0 inputs) ∙ length-enumerate 0 inputs

      left_zero : (n : ℕ) → 0 + n ≡ n
      left_zero n = omega arith
