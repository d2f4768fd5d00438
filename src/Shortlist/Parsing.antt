-- ===== src/Shortlist/Parsing.antt =====
-- What the parser of shortlist.rs accepts: tables in which every range of targets lies in bounds.
use marian_edge.Shortlist.{
  max_target_entries, magic, last_is, LexicalShortlist, read_offsets, bad_pair, read_targets,
}
use marian_edge.Common.{
  subst, ok_or-ne-crash, Ensures-after, ap, Ensures-ok_or, ℕ, zero, suc, ◌+◌, ◌*◌, ◌≤◌, ◌<◌, ◌≡◌,
  refl, sym, ◌∙◌, ◌≢◌, ◌>>=◌, true, false, not, ◌||◌, ||_split, not-false, List, [], ◌∷◌, Option,
  none, some, leb, ltb, ◌==◌, ==_iff, length, All, Outcome, ok, crash, ok_or, Ensures, Ensures-bind,
  Ensures-fail_if, arith, inl, inr, ◌⊎◌, checked_add, usize_max, if_cases,
}
use marian_edge.Shortlist.{
  LexicalShortlist, truncated, too_large, target_out_of_range, invalid_offsets, unsupported,
  ShortlistError, read_u64, read_u32, read_offsets, read_targets, bad_pair, first_is, last_is,
  checked_mul, total_len, parse_body, from_bytes, to_usize,
}

-- Each offset is at most the next one, and at most `count`.
abbrev pub Ascending : ℕ → List ℕ → Type 0
Ascending count [] = Unit
Ascending count (a ∷ []) = a ≤ count
Ascending count (a ∷ b ∷ rest) = (a ≤ b) × Ascending count (b ∷ rest)

-- A table that is missing, or is in bounds.
pub record IsValid (list : LexicalShortlist) : Type 0 where
  pub table :
      (list.offsets ≡ [])
      ⊎ ((length list.offsets ≡ list.source_vocab + 1)
          × Ascending (length list.targets) list.offsets
          × (list.first_num ≤ list.target_vocab))
  pub in_vocabulary : All (λ t. t < list.target_vocab) list.targets

read_offsets_lem :
    (n : ℕ) (bytes : List ℕ) (cursor : ℕ)
    → Ensures (λ r. length r.0 ≡ n) (read_offsets n bytes cursor)
unfolding read_offsets read_u64
read_offsets_lem zero bytes cursor = refl
read_offsets_lem (suc n) bytes cursor =
    Ensures-after Q (read_u64 bytes cursor) _ (ok_or-ne-crash _ _) λ raw _.
      Ensures-after Q (to_usize raw) _ (ok_or-ne-crash _ _) λ offset _.
        Ensures-bind (λ r. length r.0 ≡ n) Q (read_offsets n bytes (cursor + 8)) _
          (read_offsets_lem n bytes (cursor + 8)) λ r h. ap suc h
  where
    Q : List ℕ × ℕ → Type 0
    Q r = length r.0 ≡ suc n

read_targets_lem :
    (n target_vocab : ℕ) (bytes : List ℕ) (cursor : ℕ)
    → Ensures
        (λ ts. (length ts ≡ n) × All (λ t. t < target_vocab) ts)
        (read_targets n target_vocab bytes cursor)
unfolding read_targets read_u32
read_targets_lem zero target_vocab bytes cursor = (refl, tt)
read_targets_lem (suc n) target_vocab bytes cursor =
    Ensures-after (Q (suc n)) (read_u32 bytes cursor) _ (ok_or-ne-crash _ _) λ target _.
      Ensures-fail_if (Q (suc n)) (leb target_vocab target) target_out_of_range _ λ small.
        Ensures-bind (Q n) (Q (suc n)) (read_targets n target_vocab bytes (cursor + 4)) _
          (read_targets_lem n target_vocab bytes (cursor + 4))
          λ ts h. (ap suc h.0, (not_leb target small, h.1))
  where
    Q : ℕ → List ℕ → Type 0
    Q m ts = (length ts ≡ m) × All (λ t. t < target_vocab) ts

    not_leb : (t : ℕ) → leb target_vocab t ≡ false → t < target_vocab
    not_leb t h = ground arith

Ascending-bad_pair :
    (count : ℕ) (offsets : List ℕ)
    → last_is offsets count ≡ true
    → bad_pair count offsets ≡ false
    → Ascending count offsets
unfolding bad_pair
Ascending-bad_pair count [] l h = tt
Ascending-bad_pair count (a ∷ []) l h = ground arith
Ascending-bad_pair count (a ∷ b ∷ rest) l h =
    let (pair, later) = ||_split (ltb b a || ltb count b) (bad_pair count (b ∷ rest)) h in
    (ordered (||_split (ltb b a) (ltb count b) pair).0, Ascending-bad_pair count (b ∷ rest) l later)
  where
    ordered : ltb b a ≡ false → a ≤ b
    ordered h = ground arith

parse_body_lem :
    (bytes : List ℕ) (source_vocab target_vocab first_num offset_count target_count : ℕ)
    → offset_count ≡ source_vocab + 1
    → first_num ≤ target_vocab
    → Ensures IsValid
        (parse_body bytes source_vocab target_vocab first_num offset_count target_count)
unfolding parse_body
parse_body_lem bytes source_vocab target_vocab first_num offset_count target_count counted small =
    Ensures-ok_or IsValid (checked_mul offset_count 8) too_large _ λ offset_bytes _.
      Ensures-ok_or IsValid (total_len offset_bytes (checked_mul target_count 4)) too_large _
        λ expected _. Ensures-fail_if IsValid (not (length bytes == expected)) truncated _ λ _.
          Ensures-bind (λ r. length r.0 ≡ offset_count) IsValid (read_offsets offset_count bytes 48)
            _ (read_offsets_lem offset_count bytes 48)
            λ (offsets, cursor) n.
              Ensures-fail_if IsValid
                (not (first_is offsets 0)
                  || not (last_is offsets target_count)
                  || bad_pair target_count offsets)
                invalid_offsets _
                λ good.
                  Ensures-bind (λ ts. (length ts ≡ target_count) × All (λ t. t < target_vocab) ts)
                    IsValid (read_targets target_count target_vocab bytes cursor) _
                    (read_targets_lem target_count target_vocab bytes cursor)
                    λ targets (m, within). record {
                      table = inr (
                        n ∙ counted,
                        subst (λ c. Ascending c offsets) (sym m) (ascending offsets good),
                        small,
                      );
                      in_vocabulary = within;
                    }
  where
    ascending :
        (offsets : List ℕ)
        → (not (first_is offsets 0)
            || not (last_is offsets target_count)
            || bad_pair target_count offsets)
          ≡ false
        → Ascending target_count offsets
    ascending offsets good =
        let (ends, pairs) =
          ||_split (not (first_is offsets 0) || not (last_is offsets target_count))
            (bad_pair target_count offsets) good in
        let (_, last) =
          ||_split (not (first_is offsets 0)) (not (last_is offsets target_count)) ends in
        Ascending-bad_pair target_count offsets (not-false _ last) pairs

-- For every payload and every size of the vocabularies, the parser does not panic; a shortlist that it
-- returns has no table, or one with an entry for each source token and one more, whose ranges of targets
-- ascend and end within the targets, and all its targets are in the target vocabulary.
pub from_bytes-IsValid :
    (bytes : Option (List ℕ)) (source_vocab target_vocab : ℕ)
    → Ensures IsValid (from_bytes bytes source_vocab target_vocab)
unfolding from_bytes read_u64
from_bytes-IsValid none source_vocab target_vocab = record { table = inl refl; in_vocabulary = tt }
from_bytes-IsValid (some bytes) source_vocab target_vocab =
    after (ok_or (checked_add source_vocab 1) too_large) _ (ok_or-ne-crash _ _) λ expected e.
      after (ok_or (checked_mul expected 8) too_large) _ (ok_or-ne-crash _ _) λ offset_bytes _.
        after (ok_or (total_len offset_bytes (some (max_target_entries * 4))) too_large) _
          (ok_or-ne-crash _ _)
          λ maximum _. Ensures-fail_if IsValid (ltb maximum (length bytes)) too_large _ λ _.
            Ensures-fail_if IsValid (ltb (length bytes) 48) truncated _ λ _.
              after (read_u64 bytes 0) _ (ok_or-ne-crash _ _) λ found _.
                read_usize 16 _ λ first_num. read_usize 32 _ λ offset_count.
                  read_usize 40 _ λ target_count.
                    Ensures-fail_if IsValid _ unsupported _
                      λ header. accept found first_num offset_count target_count expected e header
  where
    after :
        {B : Type 0} (m : Outcome ShortlistError B)
        (f : B → Outcome ShortlistError LexicalShortlist)
        → m ≢ crash
        → ((b : B) → m ≡ ok b → Ensures IsValid (f b))
        → Ensures IsValid (m >>= f)
    after m f h k = Ensures-after IsValid m f h k

    read_usize :
        (offset : ℕ) (f : ℕ → Outcome ShortlistError LexicalShortlist)
        → ((n : ℕ) → Ensures IsValid (f n))
        → Ensures IsValid (read_u64 bytes offset >>= λ raw. to_usize raw >>= f)
    read_usize offset f k =
        after (read_u64 bytes offset) _ (ok_or-ne-crash _ _)
          λ raw _. after (to_usize raw) _ (ok_or-ne-crash _ _) λ n _. k n

    successor :
        (n : ℕ)
        → ok_or {E = ShortlistError} (checked_add source_vocab 1) too_large ≡ ok n
        → n ≡ source_vocab + 1
    successor n =
        if_cases (λ o. ok_or {E = ShortlistError} o too_large ≡ ok n → n ≡ source_vocab + 1)
          (leb (source_vocab + 1) usize_max) _ _ (λ _ e. cc) (λ _ e. cc)

    not_ltb : (n : ℕ) → ltb target_vocab n ≡ false → n ≤ target_vocab
    not_ltb n h = ground arith

    accept :
        (found first_num offset_count target_count expected : ℕ)
        → ok_or {E = ShortlistError} (checked_add source_vocab 1) too_large ≡ ok expected
        → (not (found == magic)
            || not (offset_count == expected)
            || ltb target_vocab first_num
            || ltb max_target_entries target_count)
          ≡ false
        → Ensures IsValid
            (parse_body bytes source_vocab target_vocab first_num offset_count target_count)
    accept found first_num offset_count target_count expected e header =
        let (h₁, _) = ||_split _ (ltb max_target_entries target_count) header in
        let (h₂, small) = ||_split _ (ltb target_vocab first_num) h₁ in
        let (_, same) = ||_split (not (found == magic)) (not (offset_count == expected)) h₂ in
        parse_body_lem bytes source_vocab target_vocab first_num offset_count target_count
          ((==_iff offset_count expected).0 (not-false _ same) ∙ successor expected e)
          (not_ltb first_num small)
