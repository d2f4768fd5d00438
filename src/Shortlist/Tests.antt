-- ===== src/Shortlist/Tests.antt =====
-- The theorems about shortlist.rs at a payload with one source token and two targets.
use marian_edge.Common.{ℕ, ◌≡◌, refl, List, [], ◌∷◌, some, ok, Ensures, arith, inr}
use marian_edge.Shortlist.{LexicalShortlist, pos, from_bytes, read_u64, candidates, parse_body}
use marian_edge.Shortlist.Parsing.{IsValid, from_bytes-IsValid}
use marian_edge.Shortlist.Candidates.{IsCandidateSet, candidates-IsCandidateSet}

abbrev payload : List ℕ
payload =
    245 ∷ 23 ∷ 52 ∷ 1 ∷ 213 ∷ 72 ∷ 26 ∷ 241 ∷ 0 ∷ 0 ∷ 0 ∷ 0 ∷ 0 ∷ 0 ∷ 0 ∷ 0 ∷ 1 ∷ 0 ∷ 0 ∷ 0 ∷ 0 ∷ 0
    ∷ 0 ∷ 0 ∷ 0 ∷ 0 ∷ 0 ∷ 0 ∷ 0 ∷ 0 ∷ 0 ∷ 0 ∷ 2 ∷ 0 ∷ 0 ∷ 0 ∷ 0 ∷ 0 ∷ 0 ∷ 0 ∷ 2 ∷ 0 ∷ 0 ∷ 0 ∷ 0 ∷ 0
    ∷ 0 ∷ 0 ∷ 0 ∷ 0 ∷ 0 ∷ 0 ∷ 0 ∷ 0 ∷ 0 ∷ 0 ∷ 2 ∷ 0 ∷ 0 ∷ 0 ∷ 0 ∷ 0 ∷ 0 ∷ 0 ∷ 3 ∷ 0 ∷ 0 ∷ 0 ∷ 5 ∷ 0
    ∷ 0 ∷ 0 ∷ []

abbrev parsed : LexicalShortlist
parsed = record {
  source_vocab = 1;
  target_vocab = 10;
  first_num = 1;
  offsets = 0 ∷ 2 ∷ [];
  targets = 3 ∷ 5 ∷ [];
}

from_bytes-payload : from_bytes (some payload) 1 10 ≡ ok parsed
unfolding from_bytes read_u64 parse_body
from_bytes-payload = refl

from_bytes-IsValid_example : Ensures IsValid (from_bytes (some payload) 1 10)
from_bytes-IsValid_example = from_bytes-IsValid (some payload) 1 10

parsed-IsValid : IsValid parsed
parsed-IsValid = record {
  table = inr (refl, (omega arith, omega arith), omega arith);
  in_vocabulary = (omega arith, (omega arith, tt));
}

candidates-parsed : candidates parsed (pos 0 ∷ []) ≡ ok (0 ∷ 3 ∷ 5 ∷ [])
unfolding candidates
candidates-parsed = refl

candidates-IsCandidateSet_example : Ensures (IsCandidateSet 10) (candidates parsed (pos 0 ∷ []))
candidates-IsCandidateSet_example =
    candidates-IsCandidateSet parsed (pos 0 ∷ []) parsed-IsValid (omega arith)
