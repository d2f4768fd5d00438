-- ===== src/Segmenter/Counter.antt =====
-- segmenter.rs, `PieceCounter`: exact piece counts of ranges of the text, cached, with limits on the
-- work. The tokenizer is the parameter `count_pieces`, a function of the text that it is given.
use marian_edge.Common.{
  Option-cases, ℕ, ◌-◌, ◌≤◌, ◌≡◌, refl, true, ◌&&◌, List, [], ◌∷◌, Option, none, some, String,
  arith, Bool-cases, inl, inr, ltb, ◌==◌, if◌then◌else◌, checked_add, Outcome, ok, err, ◌>>=◌, ◌>>◌,
  fail_if, ok_or, or_crash, Ensures, Ensures-bind, subst, some_inj,
}
use marian_edge.Text.{Text, slice}
use marian_edge.Text.Boundary.{IsBoundary}
use marian_edge.Text.Slices.{slice_total}
use marian_edge.Segmenter.{
  Range, SegmentError, encoding, encoding_work_limit, max_encoding_calls, max_encoding_bytes,
  max_counted_pieces,
}

-- `Result<usize, String>`, what the tokenizer returns.
pub data Counted : Type 0 where
  counted : ℕ → Counted
  failed : String → Counted

pub record PieceCounter : Type 0 where
  pub cache : List (ℕ × ℕ × ℕ)
  pub calls : ℕ
  pub bytes : ℕ
  pub pieces : ℕ

unfoldable pub new : PieceCounter
new = record { cache = []; calls = 0; bytes = 0; pieces = 0 }

-- `self.cache.get(&(start, end))`.
cached : ℕ → ℕ → List (ℕ × ℕ × ℕ) → Option ℕ
cached a b [] = none
cached a b ((i, j, n) ∷ rest) = if i == a && j == b then some n else cached a b rest

-- `total.checked_add(more).ok_or(limit error)?`, then the test against the limit.
add_within : String → ℕ → ℕ → ℕ → Outcome SegmentError ℕ
add_within resource maximum total more = do
  sum ← ok_or (checked_add total more) (encoding_work_limit resource maximum)
  fail_if (ltb maximum sum) (encoding_work_limit resource maximum)
  ok sum

module _ (text : Text) (count_pieces : Text → Counted) where
  -- `(self.closure)(&self.text[range])`, its error converted.
  call_tokenizer : Range → Outcome SegmentError ℕ
  call_tokenizer range = do
    content ← or_crash (slice text range.start range.finish)
    elim (count_pieces content) [
      | counted n ↦ ok n
      | failed message ↦ err (encoding range.start range.finish message)
    ]

  -- What `count` does where the cache has no entry.
  count_anew : PieceCounter → Range → Outcome SegmentError (ℕ × PieceCounter)
  unfolding add_within call_tokenizer
  count_anew counter range = do
    calls ← add_within "tokenizer calls" max_encoding_calls counter.calls 1
    bytes ← add_within "encoded bytes" max_encoding_bytes counter.bytes (range.finish - range.start)
    n ← call_tokenizer range
    pieces ← add_within "counted pieces" max_counted_pieces counter.pieces n
    ok (
      n,
      record {
        cache = (range.start, range.finish, n) ∷ counter.cache;
        calls = calls;
        bytes = bytes;
        pieces = pieces;
      },
    )

  unfoldable pub count : PieceCounter → Range → Outcome SegmentError (ℕ × PieceCounter)
  unfolding cached count_anew
  count counter range = elim (cached range.start range.finish counter.cache) [
    | some n ↦ ok (n, counter)
    | none ↦ count_anew counter range
  ]

  -- The tokenizer finds `n` pieces between two offsets.
  abbrev pub IsCount : ℕ → ℕ → ℕ → Type 0
  IsCount a b n = (t : Text) × (slice text a b ≡ some t) × (count_pieces t ≡ counted n)

  abbrev CacheIsExact : List (ℕ × ℕ × ℕ) → Type 0
  CacheIsExact [] = Unit
  CacheIsExact ((i, j, n) ∷ rest) = IsCount i j n × CacheIsExact rest

  -- The cache holds true counts, and the work so far is within the limits.
  pub record IsSound (counter : PieceCounter) : Type 0 where
    pub exact : CacheIsExact counter.cache
    pub calls_bounded : counter.calls ≤ max_encoding_calls
    pub bytes_bounded : counter.bytes ≤ max_encoding_bytes
    pub pieces_bounded : counter.pieces ≤ max_counted_pieces

  pub new-IsSound : IsSound new
  unfolding new
  new-IsSound = record {
    exact = tt;
    calls_bounded = omega arith;
    bytes_bounded = omega arith;
    pieces_bounded = omega arith;
  }

  cached-IsCount :
      (a b n : ℕ) (entries : List (ℕ × ℕ × ℕ))
      → CacheIsExact entries
      → cached a b entries ≡ some n
      → IsCount a b n
  unfolding cached
  cached-IsCount a b n [] h e = absurd (cc)
  cached-IsCount a b n ((i, j, m) ∷ rest) h e = elim (Bool-cases (i == a && j == b)) [
    | inl hit ↦
        let (p, q) = same_key i j a b hit in
        let v : m ≡ n = some_inj (rw hit at e) in
        subst (λ x. IsCount a b x) v
          (subst (λ x. IsCount a x m) q (subst (λ x. IsCount x j m) p h.0))
    | inr miss ↦ cached-IsCount a b n rest h.1 (rw miss at e)
  ]
    where
      same_key : (i j a b : ℕ) → (i == a && j == b) ≡ true → (i ≡ a) × (j ≡ b)
      same_key i j a b h = ground arith

  -- A count that was made with the counter, and the state that it leaves.
  abbrev pub CountsTo : ℕ → ℕ → ℕ × PieceCounter → Type 0
  CountsTo a b r = IsCount a b r.0 × IsSound r.1

  -- An addition within a limit succeeds with a sum within it, or fails.
  add_within_lem :
      (resource : String) (maximum total more : ℕ)
      → Ensures (λ sum. sum ≤ maximum) (add_within resource maximum total more)
  unfolding add_within
  add_within_lem resource maximum total more = ground arith

  call_tokenizer_lem :
      (r : Range)
      → IsBoundary text r.start
      → IsBoundary text r.finish
      → r.start ≤ r.finish
      → Ensures (IsCount r.start r.finish) (call_tokenizer r)
  unfolding call_tokenizer
  call_tokenizer_lem r ba bb le =
      let (t, e) = slice_total text r.start r.finish ba bb le in
      rw (e, ◌>>=◌) (counted_slice t e (count_pieces t) refl)
    where
      counted_slice :
          (t : Text)
          → slice text r.start r.finish ≡ some t
          → (c : Counted) → count_pieces t ≡ c
          → Ensures (IsCount r.start r.finish) (elim c [
            | counted n ↦ ok n
            | failed message ↦ err (encoding r.start r.finish message)
          ])
      counted_slice t e (counted n) k = (t, e, k)
      counted_slice t e (failed message) k = tt

  count_anew_lem :
      (counter : PieceCounter) (r : Range)
      → IsSound counter
      → IsBoundary text r.start
      → IsBoundary text r.finish
      → r.start ≤ r.finish
      → Ensures (CountsTo r.start r.finish) (count_anew counter r)
  unfolding count_anew
  count_anew_lem counter r sound ba bb le =
      within "tokenizer calls" max_encoding_calls counter.calls 1 _ λ calls hc.
        within "encoded bytes" max_encoding_bytes counter.bytes (r.finish - r.start) _ λ bytes hb.
          Ensures-bind (IsCount r.start r.finish) Counts (call_tokenizer r) _
            (call_tokenizer_lem r ba bb le)
            λ n hn. within "counted pieces" max_counted_pieces counter.pieces n _ λ pieces hp. (
              hn,
              record {
                exact = (hn, sound.exact);
                calls_bounded = hc;
                bytes_bounded = hb;
                pieces_bounded = hp;
              },
            )
    where
      Counts : ℕ × PieceCounter → Type 0
      Counts = CountsTo r.start r.finish

      within :
          (resource : String) (maximum total more : ℕ)
          (f : ℕ → Outcome SegmentError (ℕ × PieceCounter))
          → ((sum : ℕ) → sum ≤ maximum → Ensures Counts (f sum))
          → Ensures Counts (add_within resource maximum total more >>= f)
      within resource maximum total more f =
          Ensures-bind (λ sum. sum ≤ maximum) Counts (add_within resource maximum total more) f
            (add_within_lem resource maximum total more)

  -- For a sound counter and a range between two boundaries of the text, in order: `count` does not
  -- panic, and a count that it returns is the number of pieces that the tokenizer counts there, with a
  -- counter that is sound again.
  pub count_lem :
      (counter : PieceCounter) (r : Range)
      → IsSound counter
      → IsBoundary text r.start
      → IsBoundary text r.finish
      → r.start ≤ r.finish
      → Ensures (CountsTo r.start r.finish) (count counter r)
  unfolding count
  count_lem counter r sound ba bb le = elim (Option-cases (cached r.start r.finish counter.cache)) [
    | inl e ↦ rw (e, count) (count_anew_lem counter r sound ba bb le)
    | inr (n, e) ↦
        rw (e, count) (cached-IsCount r.start r.finish n counter.cache sound.exact e, sound)
  ]
