-- ===== src/Shortlist.antt =====
-- crates/marian-model/src/shortlist.rs: the lexical shortlist, its parser and the candidate sets. The
-- payload is a list of bytes; the messages of the errors are left out.
pub mod Candidates
pub mod Parsing
pub mod Safe
pub mod Tests
use marian_edge.Common.{
  ℤ, pos, negsuc, ℕ, zero, suc, ◌+◌, ◌-◌, ◌*◌, ◌^◌, ◌%◌, min, Bool, true, false, not, ◌&&◌, ◌||◌,
  List, [], ◌∷◌, ◌++◌, any, Option, none, some, ltb, leb, ◌==◌, if◌then◌else◌, length, get_elem?,
  set, checked_add, usize_max, Outcome, ok, err, crash, ◌>>=◌, ◌>>◌, fail_if, ok_or, or_crash,
}

abbrev pub magic : ℕ
magic = 17373278592220534773

abbrev pub max_target_entries : ℕ
max_target_entries = 4000000

pub record LexicalShortlist : Type 0 where
  pub source_vocab : ℕ
  pub target_vocab : ℕ
  pub first_num : ℕ
  pub offsets : List ℕ
  pub targets : List ℕ

pub data ShortlistError : Type 0 where
  too_large truncated unsupported invalid_offsets target_out_of_range : ShortlistError
  negative_token token_out_of_range no_candidates no_eos : ShortlistError

-- `usize::checked_mul`.
abbrev pub checked_mul : ℕ → ℕ → Option ℕ
checked_mul a b = if leb (a * b) usize_max then some (a * b) else none

-- `bytes.get(offset..offset + n)`, read as a little-endian number.
unfoldable pub little_endian : ℕ → List ℕ → Option ℕ
little_endian zero bs = some 0
little_endian (suc n) [] = none
little_endian (suc n) (b ∷ bs) = elim (little_endian n bs) [
  | none ↦ none
  | some rest ↦ some (b + 256 * rest)
]

unfoldable pub skip : ℕ → List ℕ → List ℕ
skip zero bs = bs
skip (suc n) [] = []
skip (suc n) (b ∷ bs) = skip n bs

unfoldable pub read_u64 : List ℕ → ℕ → Outcome ShortlistError ℕ
unfolding little_endian skip
read_u64 bytes offset = ok_or (little_endian 8 (skip offset bytes)) truncated

unfoldable pub read_u32 : List ℕ → ℕ → Outcome ShortlistError ℕ
unfolding little_endian skip
read_u32 bytes offset = ok_or (little_endian 4 (skip offset bytes)) truncated

-- `usize::try_from`, on a machine with 64-bit words.
abbrev pub to_usize : ℕ → Outcome ShortlistError ℕ
to_usize value = ok_or (if leb value usize_max then some value else none) too_large

-- `for _ in 0..offset_count { … cursor += 8 }`.
unfoldable pub read_offsets : ℕ → List ℕ → ℕ → Outcome ShortlistError (List ℕ × ℕ)
unfolding read_u64
read_offsets zero bytes cursor = ok ([], cursor)
read_offsets (suc n) bytes cursor = do
  raw ← read_u64 bytes cursor
  offset ← to_usize raw
  (offsets, end) ← read_offsets n bytes (cursor + 8)
  ok (offset ∷ offsets, end)

-- `for _ in 0..target_count { … cursor += 4 }`.
unfoldable pub read_targets : ℕ → ℕ → List ℕ → ℕ → Outcome ShortlistError (List ℕ)
unfolding read_u32
read_targets zero target_vocab bytes cursor = ok []
read_targets (suc n) target_vocab bytes cursor = do
  target ← read_u32 bytes cursor
  fail_if (leb target_vocab target) target_out_of_range
  targets ← read_targets n target_vocab bytes (cursor + 4)
  ok (target ∷ targets)

-- `offsets.windows(2).any(|pair| pair[0] > pair[1] || pair[1] > target_count)`.
unfoldable pub bad_pair : ℕ → List ℕ → Bool
bad_pair count [] = false
bad_pair count (a ∷ []) = false
bad_pair count (a ∷ b ∷ rest) = (ltb b a || ltb count b) || bad_pair count (b ∷ rest)

abbrev pub first_is : List ℕ → ℕ → Bool
first_is [] n = false
first_is (a ∷ rest) n = a == n

abbrev pub last_is : List ℕ → ℕ → Bool
last_is [] n = false
last_is (a ∷ []) n = a == n
last_is (a ∷ b ∷ rest) n = last_is (b ∷ rest) n

-- `48.checked_add(offset_bytes).and_then(|v| v.checked_add(target_bytes))`.
abbrev pub total_len : ℕ → Option ℕ → Option ℕ
total_len offset_bytes none = none
total_len offset_bytes (some target_bytes) = elim (checked_add 48 offset_bytes) [
  | none ↦ none
  | some n ↦ checked_add n target_bytes
]

-- What follows the header.
unfoldable pub parse_body : List ℕ → ℕ → ℕ → ℕ → ℕ → ℕ → Outcome ShortlistError LexicalShortlist
unfolding read_offsets read_targets bad_pair
parse_body bytes source_vocab target_vocab first_num offset_count target_count = do
  offset_bytes ← ok_or (checked_mul offset_count 8) too_large
  expected_len ← ok_or (total_len offset_bytes (checked_mul target_count 4)) too_large
  fail_if (not (length bytes == expected_len)) truncated
  (offsets, cursor) ← read_offsets offset_count bytes 48
  fail_if
      (not (first_is offsets 0)
        || not (last_is offsets target_count)
        || bad_pair target_count offsets)
      invalid_offsets
  targets ← read_targets target_count target_vocab bytes cursor
  ok (record {
    source_vocab = source_vocab;
    target_vocab = target_vocab;
    first_num = first_num;
    offsets = offsets;
    targets = targets;
  })

unfoldable pub from_bytes : Option (List ℕ) → ℕ → ℕ → Outcome ShortlistError LexicalShortlist
unfolding read_u64 parse_body
from_bytes none source_vocab target_vocab = ok (record {
  source_vocab = source_vocab;
  target_vocab = target_vocab;
  first_num = 0;
  offsets = [];
  targets = [];
})
from_bytes (some bytes) source_vocab target_vocab = do
  offset_count_expected ← ok_or (checked_add source_vocab 1) too_large
  maximum_offset_bytes ← ok_or (checked_mul offset_count_expected 8) too_large
  maximum_bytes ← ok_or (total_len maximum_offset_bytes (some (max_target_entries * 4))) too_large
  fail_if (ltb maximum_bytes (length bytes)) too_large
  fail_if (ltb (length bytes) 48) truncated
  found_magic ← read_u64 bytes 0
  raw_first ← read_u64 bytes 16
  first_num ← to_usize raw_first
  raw_offsets ← read_u64 bytes 32
  offset_count ← to_usize raw_offsets
  raw_targets ← read_u64 bytes 40
  target_count ← to_usize raw_targets
  fail_if
      (not (found_magic == magic)
        || not (offset_count == offset_count_expected)
        || ltb target_vocab first_num
        || ltb max_target_entries target_count)
      unsupported
  parse_body bytes source_vocab target_vocab first_num offset_count target_count

-- `present[start..end].fill(value)`, which panics on a bad range.
unfoldable pub fill_from : ℕ → ℕ → Bool → List Bool → List Bool
fill_from start end value [] = []
fill_from start zero value (b ∷ bs) = b ∷ bs
fill_from zero (suc end) value (b ∷ bs) = value ∷ fill_from zero end value bs
fill_from (suc start) (suc end) value (b ∷ bs) = b ∷ fill_from start end value bs

unfoldable pub fill : ℕ → ℕ → Bool → List Bool → Option (List Bool)
unfolding fill_from
fill start end value bs =
    if leb start end && leb end (length bs) then some (fill_from start end value bs) else none

unfoldable pub first_of : ℕ → List ℕ → List ℕ
first_of zero xs = []
first_of (suc n) [] = []
first_of (suc n) (x ∷ xs) = x ∷ first_of n xs

-- `&xs[start..end]`, which panics on a bad range.
unfoldable pub sub_list : ℕ → ℕ → List ℕ → Option (List ℕ)
unfolding first_of skip
sub_list start end xs =
    if leb start end && leb end (length xs)
    then some (first_of (end - start) (skip start xs))
    else none

-- `for &target in … { present[target as usize] = true }`.
unfoldable pub mark : List ℕ → List Bool → Outcome ShortlistError (List Bool)
mark [] present = ok present
mark (t ∷ ts) present = if ltb t (length present) then mark ts (set present t true) else crash

-- The marks of one source token.
unfoldable pub mark_token : LexicalShortlist → ℤ → List Bool → Outcome ShortlistError (List Bool)
unfolding mark sub_list
mark_token list (negsuc n) present = err negative_token
mark_token list (pos token) present = do
  fail_if (leb list.source_vocab token) token_out_of_range
  start ← or_crash (get_elem? list.offsets token)
  end ← or_crash (get_elem? list.offsets (token + 1))
  found ← or_crash (sub_list start end list.targets)
  mark found present

unfoldable pub mark_tokens :
    LexicalShortlist → List ℤ → List Bool → Outcome ShortlistError (List Bool)
unfolding mark_token
mark_tokens list [] present = ok present
mark_tokens list (token ∷ tokens) present =
    mark_token list token present >>= mark_tokens list tokens

-- `vec![value; n]`.
unfoldable pub repeat : ℕ → Bool → List Bool
repeat zero value = []
repeat (suc n) value = value ∷ repeat n value

-- The vocabulary entries that the tokens select, before the mask.
unfoldable pub select : LexicalShortlist → List ℤ → Outcome ShortlistError (List Bool)
unfolding repeat fill mark_tokens
select list tokens = elim list.offsets [
  | [] ↦ ok (repeat list.target_vocab true)
  | _ ∷ _ ↦
      or_crash (fill 0 list.first_num true (repeat list.target_vocab false))
      >>= mark_tokens list tokens
]

-- `present[1] = false` and `present[7..target_vocab.min(39)].fill(false)`.
unfoldable pub mask : ℕ → List Bool → Outcome ShortlistError (List Bool)
unfolding fill
mask target_vocab present =
    (if ltb 1 target_vocab then or_crash (fill 1 2 false present) else ok present) >>= λ present₁.
    if ltb 7 target_vocab
    then or_crash (fill 7 (min target_vocab 39) false present₁)
    else ok present₁

-- The ids whose entry is selected, counted from `id`, each as a u32.
unfoldable pub selected_from : ℕ → List Bool → List ℕ
selected_from id [] = []
selected_from id (b ∷ bs) =
    if b then id % 2 ^ 32 ∷ selected_from (suc id) bs else selected_from (suc id) bs

-- `present.iter().enumerate().skip(50)`: the loop that fills up to a multiple of eight.
unfoldable pub pad_from : ℕ → List Bool → List ℕ → List ℕ
pad_from id [] candidates = candidates
pad_from id (b ∷ bs) candidates = elim (length candidates % 8 == 0) [
  | true ↦ candidates
  | false ↦ pad_from (suc id) bs (if b then candidates else candidates ++ (id % 2 ^ 32) ∷ [])
]

unfoldable pub skip_flags : ℕ → List Bool → List Bool
skip_flags zero bs = bs
skip_flags (suc n) [] = []
skip_flags (suc n) (b ∷ bs) = skip_flags n bs

unfoldable pub pad : List Bool → List ℕ → List ℕ
unfolding pad_from skip_flags
pad present candidates = pad_from 50 (skip_flags 50 present) candidates

-- `sort_unstable`.
unfoldable pub insert : ℕ → List ℕ → List ℕ
insert x [] = x ∷ []
insert x (y ∷ ys) = if leb x y then x ∷ y ∷ ys else y ∷ insert x ys

unfoldable pub sort : List ℕ → List ℕ
unfolding insert
sort [] = []
sort (x ∷ xs) = insert x (sort xs)

-- The tests on the sorted candidates.
unfoldable pub checked : List ℕ → Outcome ShortlistError (List ℕ)
checked [] = err no_candidates
checked (id ∷ ids) = if id == 0 then ok (id ∷ ids) else err no_eos

unfoldable pub candidates : LexicalShortlist → List ℤ → Outcome ShortlistError (List ℕ)
unfolding select mask selected_from pad sort checked
candidates list tokens = do
  selected ← select list tokens
  present ← mask list.target_vocab selected
  checked (sort (pad present (selected_from 0 present)))
