-- ===== src/Shortlist/Safe.antt =====
-- The candidate sets of shortlist.rs on a valid table: no index is out of bounds.
use marian_edge.Common.{
  ℤ, pos, negsuc, ◌>>=◌, ap, ℕ, zero, suc, ◌+◌, ◌-◌, ◌≤◌, ◌<◌, ◌≡◌, refl, ◌∙◌, Bool, true, false,
  ◌&&◌, List, [], ◌∷◌, some, ltb, leb, length, length-set, get_elem?, set, All, ok, or_crash,
  Ensures, Ensures-bind, Ensures-fail_if, Ensures-or_crash, arith, inl, inr,
}
use marian_edge.Shortlist.{
  LexicalShortlist, mark, mark_token, mark_tokens, sub_list, first_of, skip, fill, fill_from,
  repeat, select, token_out_of_range,
}
use marian_edge.Shortlist.Parsing.{IsValid, Ascending}

-- Two neighbours in an ascending table.
Ascending-get_elem? :
    (count : ℕ) (offsets : List ℕ) (i : ℕ)
    → Ascending count offsets
    → suc i < length offsets
    → (a : ℕ) × (b : ℕ) × (get_elem? offsets i ≡ some a)
      × (get_elem? offsets (suc i) ≡ some b)
      × (a ≤ b)
      × (b ≤ count)
Ascending-get_elem? count [] i h lt = absurd (omega (arith, lt))
Ascending-get_elem? count (a ∷ []) i h lt = absurd (omega (arith, lt))
Ascending-get_elem? count (a ∷ b ∷ rest) zero h lt =
    (a, b, refl, refl, h.0, Ascending-head b rest h.1)
  where
    Ascending-head : (b : ℕ) (rest : List ℕ) → Ascending count (b ∷ rest) → b ≤ count
    Ascending-head b [] h = h
    Ascending-head b (c ∷ rest) h = omega (arith, h.0, Ascending-head c rest h.1)
Ascending-get_elem? count (a ∷ b ∷ rest) (suc i) h lt =
    Ascending-get_elem? count (b ∷ rest) i h.1 (omega (arith, lt))

All-first_of : (P : ℕ → Type 0) (n : ℕ) (xs : List ℕ) → All P xs → All P (first_of n xs)
unfolding first_of
All-first_of P zero xs h = tt
All-first_of P (suc n) [] h = tt
All-first_of P (suc n) (x ∷ xs) h = (h.0, All-first_of P n xs h.1)

All-skip : (P : ℕ → Type 0) (n : ℕ) (xs : List ℕ) → All P xs → All P (skip n xs)
unfolding skip
All-skip P zero xs h = h
All-skip P (suc n) [] h = tt
All-skip P (suc n) (x ∷ xs) h = All-skip P n xs h.1

length-mark :
    (ts : List ℕ) (present : List Bool) (n : ℕ)
    → length present ≡ n
    → All (λ t. t < n) ts
    → Ensures (λ r. length r ≡ n) (mark ts present)
unfolding mark
length-mark [] present n e h = e
length-mark (t ∷ ts) present n e h =
    rw (within) (length-mark ts (set present t true) n (length-set present t true ∙ e) h.1)
  where
    within : ltb t (length present) ≡ true
    within = ground (arith, e, h.0)

pub length-fill_from :
    (a b : ℕ) (v : Bool) (bs : List Bool) → length (fill_from a b v bs) ≡ length bs
unfolding fill_from
length-fill_from a b v [] = refl
length-fill_from a zero v (x ∷ bs) = refl
length-fill_from zero (suc b) v (x ∷ bs) = ap suc (length-fill_from zero b v bs)
length-fill_from (suc a) (suc b) v (x ∷ bs) = ap suc (length-fill_from a b v bs)

length-repeat : (n : ℕ) (v : Bool) → length (repeat n v) ≡ n
unfolding repeat
length-repeat zero v = refl
length-repeat (suc n) v = ap suc (length-repeat n v)

-- A slice within the bounds, of entries below `n`.
sub_list_lem :
    (P : ℕ → Type 0) (a b : ℕ) (xs : List ℕ)
    → a ≤ b
    → b ≤ length xs
    → All P xs
    → (ys : List ℕ) × (sub_list a b xs ≡ some ys) × All P ys
unfolding sub_list
sub_list_lem P a b xs le within h = (
  first_of (b - a) (skip a xs),
  rw bounds refl,
  All-first_of P (b - a) (skip a xs) (All-skip P a xs h),
)
  where
    bounds : (leb a b && leb b (length xs)) ≡ true
    bounds = ground (arith, le, within)

pub fill_lem :
    (a b : ℕ) (v : Bool) (bs : List Bool)
    → a ≤ b
    → b ≤ length bs
    → fill a b v bs ≡ some (fill_from a b v bs)
unfolding fill
fill_lem a b v bs le within = rw bounds refl
  where
    bounds : (leb a b && leb b (length bs)) ≡ true
    bounds = ground (arith, le, within)

module _ (list : LexicalShortlist) (valid : IsValid list) where
  abbrev HasAll : List Bool → Type 0
  HasAll present = length present ≡ list.target_vocab

  -- A token of a table marks in bounds, or is refused.
  mark_token_lem :
      (token : ℤ) (present : List Bool)
      → length list.offsets ≡ list.source_vocab + 1
      → Ascending (length list.targets) list.offsets
      → HasAll present
      → Ensures HasAll (mark_token list token present)
  unfolding mark_token
  mark_token_lem (negsuc n) present counted asc e = tt
  mark_token_lem (pos token) present counted asc e =
      Ensures-fail_if HasAll (leb list.source_vocab token) token_out_of_range _ λ known.
        let (a, b, ea, eb, le, within) =
          Ascending-get_elem? (length list.targets) list.offsets token asc (in_table known) in
        let (found, es, small) =
          sub_list_lem (λ t. t < list.target_vocab) a b list.targets le within
            valid.in_vocabulary in
        Ensures-or_crash HasAll _ a _ ea (
          Ensures-or_crash HasAll _ b _ (ap (get_elem? list.offsets) one ∙ eb) (
            Ensures-or_crash HasAll _ found _ es
              (length-mark found present list.target_vocab e small)))
    where
      in_table : leb list.source_vocab token ≡ false → suc token < length list.offsets
      in_table h = ground (arith, counted)

      one : token + 1 ≡ suc token
      one = omega arith

  mark_tokens_lem :
      (tokens : List ℤ) (present : List Bool)
      → length list.offsets ≡ list.source_vocab + 1
      → Ascending (length list.targets) list.offsets
      → HasAll present
      → Ensures HasAll (mark_tokens list tokens present)
  unfolding mark_tokens
  mark_tokens_lem [] present counted asc e = e
  mark_tokens_lem (token ∷ tokens) present counted asc e =
      Ensures-bind HasAll HasAll (mark_token list token present) (mark_tokens list tokens)
        (mark_token_lem token present counted asc e)
        λ present' e'. mark_tokens_lem tokens present' counted asc e'

  -- The selection has an entry for each target.
  pub length-select : (tokens : List ℤ) → Ensures HasAll (select list tokens)
  unfolding select
  length-select tokens = by_offsets list.offsets refl
    where
      by_offsets :
          (os : List ℕ)
          → list.offsets ≡ os
          → Ensures HasAll (elim os [
            | [] ↦ ok (repeat list.target_vocab true)
            | _ ∷ _ ↦
                or_crash (fill 0 list.first_num true (repeat list.target_vocab false))
                >>= mark_tokens list tokens
          ])
      by_offsets [] e = length-repeat list.target_vocab true
      by_offsets (o ∷ os) e = elim valid.table [
        | inl empty ↦ absurd (cc)
        | inr (counted, asc, small) ↦
            Ensures-or_crash HasAll _
              (fill_from 0 list.first_num true (repeat list.target_vocab false)) _
              (fill_lem 0 list.first_num true (repeat list.target_vocab false) (omega arith)
                (omega (arith, small, length-repeat list.target_vocab false)))
              (mark_tokens_lem tokens
                (fill_from 0 list.first_num true (repeat list.target_vocab false)) counted asc
                (length-fill_from 0 list.first_num true (repeat list.target_vocab false)
                  ∙ length-repeat list.target_vocab false))
      ]
