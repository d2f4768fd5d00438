-- ===== src/Shortlist/Candidates.antt =====
-- What the candidate sets of shortlist.rs hold: usable ids only, in order, the end of the sentence first.
use marian_edge.Common.{
  get_elem?-bound, ℤ, subst, ap, ℕ, zero, suc, ◌+◌, ◌≤◌, ◌<◌, ◌≡◌, ◌≢◌, ◌⊎◌, ◌∙◌, Bool, true, false,
  List, [], ◌∷◌, ◌++◌, ◌%◌, ◌^◌, ◌==◌, ==_iff, Bool-cases, some, ltb, leb, min, length, get_elem?,
  head?, All, All-append, ok, or_crash, Ensures, Ensures-bind, Ensures-if, if_cases, if◌then◌else◌,
  arith, inl, inr,
}
use marian_edge.Shortlist.{
  ShortlistError, LexicalShortlist, fill, fill_from, select, mask, selected_from, pad_from, pad,
  skip_flags, insert, sort, checked, candidates,
}
use marian_edge.Shortlist.Parsing.{IsValid}
use marian_edge.Shortlist.Safe.{length-select, fill_lem, length-fill_from}

-- An id of the vocabulary that may be generated: not UNK, and no byte or control fallback.
abbrev pub IsUsable : ℕ → ℕ → Type 0
IsUsable target_vocab id = (id < target_vocab) × (id ≢ 1) × ((id < 7) ⊎ (39 ≤ id))

abbrev pub Sorted : List ℕ → Type 0
Sorted [] = Unit
Sorted (a ∷ []) = Unit
Sorted (a ∷ b ∷ rest) = (a ≤ b) × Sorted (b ∷ rest)

-- The entries that are selected have the property.
abbrev Selects : (ℕ → Type 0) → List Bool → Type 0
Selects P bs = (i : ℕ) → get_elem? bs i ≡ some true → P i

fill_from-clears :
    (a b : ℕ) (bs : List Bool)
    → Selects (λ i. (get_elem? bs i ≡ some true) × ((i < a) ⊎ (b ≤ i))) (fill_from a b false bs)
unfolding fill_from
fill_from-clears a b [] i h = absurd cc
fill_from-clears a zero (x ∷ bs) i h = (h, inr (omega arith))
fill_from-clears zero (suc b) (x ∷ bs) zero h = absurd cc
fill_from-clears zero (suc b) (x ∷ bs) (suc i) h =
    let (g, out) = fill_from-clears zero b bs i h in
    (g, elim out [ inl lt ↦ absurd (omega (arith, lt)) | inr le ↦ inr (omega (arith, le)) ])
fill_from-clears (suc a) (suc b) (x ∷ bs) zero h = (h, inl (omega arith))
fill_from-clears (suc a) (suc b) (x ∷ bs) (suc i) h =
    let (g, out) = fill_from-clears a b bs i h in
    (g, elim out [ inl lt ↦ inl (omega (arith, lt)) | inr le ↦ inr (omega (arith, le)) ])

shift : (i id : ℕ) → (suc i + id) % 2 ^ 32 ≡ (i + suc id) % 2 ^ 32
shift i id = omega arith

zero_left : (id : ℕ) → (0 + id) % 2 ^ 32 ≡ id % 2 ^ 32
zero_left id = omega arith

-- An index of a vocabulary of at most 2^32 entries is kept by the cast.
fits : (n i : ℕ) → n ≤ 2 ^ 32 → i < n → i ≡ i % 2 ^ 32
fits n i small lt = omega (arith, small, lt)

module _ (P : ℕ → Type 0) where
  All-selected_from :
      (id : ℕ) (bs : List Bool)
      → Selects (λ i. P ((i + id) % 2 ^ 32)) bs
      → All P (selected_from id bs)
  unfolding selected_from
  All-selected_from id [] h = tt
  All-selected_from id (b ∷ bs) h =
      let rest = All-selected_from (suc id) bs λ i e. subst P (shift i id) (h (suc i) e) in
      if_cases (All P) b (id % 2 ^ 32 ∷ selected_from (suc id) bs) (selected_from (suc id) bs)
        (λ on. (subst P (zero_left id) (h 0 (ap some on)), rest)) (λ _. rest)

  All-pad_from :
      (id : ℕ) (bs : List Bool) (cs : List ℕ)
      → ((i : ℕ) → i < length bs → P ((i + id) % 2 ^ 32))
      → All P cs
      → All P (pad_from id bs cs)
  unfolding pad_from
  All-pad_from id [] cs h k = k
  All-pad_from id (b ∷ bs) cs h k = elim (Bool-cases (length cs % 8 == 0)) [
    | inl full ↦ rw (full, pad_from) k
    | inr more ↦
        rw (more, pad_from)
          (All-pad_from (suc id) bs (if b then cs else cs ++ (id % 2 ^ 32) ∷ [])
            (λ i lt. subst P (shift i id) (h (suc i) (omega (arith, lt))))
            (if_cases (All P) b cs (cs ++ (id % 2 ^ 32) ∷ []) (λ _. k)
              λ _.
                All-append P cs ((id % 2 ^ 32) ∷ []) k
                  (subst P (zero_left id) (h 0 (omega arith)), tt)))
  ]

  All-insert : (x : ℕ) (ys : List ℕ) → P x → All P ys → All P (insert x ys)
  unfolding insert
  All-insert x [] p h = (p, tt)
  All-insert x (y ∷ ys) p h =
      if_cases (All P) (leb x y) _ _ (λ _. (p, h)) λ _. (h.0, All-insert x ys p h.1)

  All-sort : (xs : List ℕ) → All P xs → All P (sort xs)
  unfolding sort
  All-sort [] h = tt
  All-sort (x ∷ xs) h = All-insert x (sort xs) h.0 (All-sort xs h.1)

leb_le : (a b : ℕ) → leb a b ≡ true → a ≤ b
leb_le a b h = ground arith

leb_lt : (a b : ℕ) → leb a b ≡ false → b ≤ a
leb_lt a b h = ground arith

insert-Sorted : (x : ℕ) (ys : List ℕ) → Sorted ys → Sorted (insert x ys)
unfolding insert
insert-Sorted x [] h = tt
insert-Sorted x (y ∷ []) h =
    if_cases Sorted (leb x y) _ _ (λ le. (leb_le x y le, tt)) (λ more. (leb_lt x y more, tt))
insert-Sorted x (y ∷ z ∷ ys) h =
    if_cases Sorted (leb x y) _ _ (λ le. (leb_le x y le, h))
      λ more.
        if_cases (λ r. Sorted r → Sorted (y ∷ r)) (leb x z) (x ∷ z ∷ ys) (z ∷ insert x ys)
          (λ _ v. (leb_lt x y more, v)) (λ _ v. (h.0, v)) (insert-Sorted x (z ∷ ys) h.1)

sort-Sorted : (xs : List ℕ) → Sorted (sort xs)
unfolding sort
sort-Sorted [] = tt
sort-Sorted (x ∷ xs) = insert-Sorted x (sort xs) (sort-Sorted xs)

-- A mask of the whole vocabulary, which selects usable ids.
abbrev IsMasked : ℕ → List Bool → Type 0
IsMasked n bs = (length bs ≡ n) × Selects (IsUsable n) bs

mask_lem : (n : ℕ) (bs : List Bool) → length bs ≡ n → Ensures (IsMasked n) (mask n bs)
unfolding mask
mask_lem n bs e = Ensures-bind First (IsMasked n) _ _ first second
  where
    First : List Bool → Type 0
    First r = (length r ≡ n) × Selects (λ i. i ≢ 1) r

    first :
        Ensures {E = ShortlistError} First (if ltb 1 n then or_crash (fill 1 2 false bs) else ok bs)
    first =
        Ensures-if First (ltb 1 n) _ _
          (λ many. rw (fill_lem 1 2 false bs (omega arith) (two many)) (
            length-fill_from 1 2 false bs ∙ e,
            λ i h p. elim (fill_from-clears 1 2 bs i h).1 [
              | inl lt ↦ omega (arith, lt, p)
              | inr le ↦ omega (arith, le, p)
            ],
          ))
          λ few. (e, λ i h p. one few i (get_elem?-bound bs i true h) p)
      where
        two : ltb 1 n ≡ true → 2 ≤ length bs
        two h = ground (arith, e)

        one : ltb 1 n ≡ false → (i : ℕ) → i < length bs → i ≢ 1
        one h i lt p = ground (arith, e, lt, p)

    second :
        (r : List Bool)
        → First r
        → Ensures {E = ShortlistError}
            (IsMasked n)
            (if ltb 7 n then or_crash (fill 7 (min n 39) false r) else ok r)
    second r f =
        Ensures-if (IsMasked n) (ltb 7 n) _ _
          (λ many. rw (fill_lem 7 (min n 39) false r (ends many) (within many)) (
            length-fill_from 7 (min n 39) false r ∙ f.0,
            λ i h.
                let (g, out) = fill_from-clears 7 (min n 39) r i h in
                let lt = get_elem?-bound r i true g in
                (
                  omega (arith, lt, f.0),
                  f.1 i g,
                  elim out [ inl low ↦ inl low | inr high ↦ inr (omega (arith, lt, f.0, high)) ],
                ),
          ))
          λ few. (
            f.0,
            λ i h.
                let lt = get_elem?-bound r i true h in
                (omega (arith, lt, f.0), f.1 i h, inl (low few i (omega (arith, lt, f.0)))),
          )
      where
        ends : ltb 7 n ≡ true → 7 ≤ min n 39
        ends h = ground arith

        within : ltb 7 n ≡ true → min n 39 ≤ length r
        within h = omega (arith, f.0)

        low : ltb 7 n ≡ false → (i : ℕ) → i < n → i < 7
        low h i lt = ground (arith, lt)

skip_flags-fits :
    (k : ℕ) (bs : List Bool) (i : ℕ) → i < length (skip_flags k bs) → i + k < length bs
unfolding skip_flags
skip_flags-fits zero bs i lt = omega (arith, lt)
skip_flags-fits (suc k) [] i lt = absurd (omega (arith, lt))
skip_flags-fits (suc k) (b ∷ bs) i lt = omega (arith, skip_flags-fits k bs i lt)

pad-All :
    (n : ℕ) (bs : List Bool) (cs : List ℕ)
    → n ≤ 2 ^ 32
    → length bs ≡ n
    → All (IsUsable n) cs
    → All (IsUsable n) (pad bs cs)
unfolding pad
pad-All n bs cs small e h =
    All-pad_from (IsUsable n) 50 (skip_flags 50 bs) cs
      (λ i lt.
        let inside = skip_flags-fits 50 bs i lt in
        subst (IsUsable n) (fits n (i + 50) small (omega (arith, inside, e))) (usable i inside))
      h
  where
    usable : (i : ℕ) → i + 50 < length bs → IsUsable n (i + 50)
    usable i lt = (omega (arith, lt, e), (λ p. omega (arith, p)), inr (omega arith))

-- A sorted set of usable ids that starts with the end of the sentence.
pub record IsCandidateSet (target_vocab : ℕ) (ids : List ℕ) : Type 0 where
  pub usable : All (IsUsable target_vocab) ids
  pub sorted : Sorted ids
  pub has_eos : head? ids ≡ some 0

checked_lem :
    (n : ℕ) (ids : List ℕ)
    → All (IsUsable n) ids
    → Sorted ids
    → Ensures (IsCandidateSet n) (checked ids)
unfolding checked
checked_lem n [] h v = tt
checked_lem n (id ∷ ids) h v =
    Ensures-if (IsCandidateSet n) (id == 0) _ _
      (λ e. record { usable = h; sorted = v; has_eos = ap some ((==_iff id 0).0 e) }) (λ _. tt)

-- For every valid shortlist for at most 2^32 target tokens and every list of tokens: the candidate set is
-- built without a panic, and where it is returned, it is in ascending order, starts with the end-of-sentence token 0, and holds ids
-- of the target vocabulary only, without the unknown token 1 and the byte and control tokens 7 to 38.
pub candidates-IsCandidateSet :
    (list : LexicalShortlist) (tokens : List ℤ)
    → IsValid list
    → list.target_vocab ≤ 2 ^ 32
    → Ensures (IsCandidateSet list.target_vocab) (candidates list tokens)
unfolding candidates
candidates-IsCandidateSet list tokens valid small =
    Ensures-bind (λ bs. length bs ≡ n) (IsCandidateSet n) (select list tokens) _
      (length-select list valid tokens)
      λ selected e.
        Ensures-bind (IsMasked n) (IsCandidateSet n) (mask n selected) _ (mask_lem n selected e)
          λ present (m, usable).
            checked_lem n (sort (pad present (selected_from 0 present)))
              (All-sort (IsUsable n) _ (
                pad-All n present (selected_from 0 present) small m (
                  All-selected_from (IsUsable n) 0 present λ i h.
                    subst (IsUsable n) (fits n i small (usable i h).0 ∙ zero_right i)
                      (usable i h))))
              (sort-Sorted (pad present (selected_from 0 present)))
  where
    n : ℕ
    n = list.target_vocab

    zero_right : (i : ℕ) → i % 2 ^ 32 ≡ (i + 0) % 2 ^ 32
    zero_right i = omega arith
