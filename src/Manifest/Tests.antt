-- ===== src/Manifest/Tests.antt =====
-- The theorems about manifest.rs, with a digest that tells the number of bytes.
use marian_edge.Common.{
  pos, ℕ, zero, suc, ◌+◌, ◌%◌, ◌≡◌, ◌↔◌, refl, List, [], ◌∷◌, ◌++◌, Option, some, none, ok, length,
  append-nil, append_assoc,
}
use marian_edge.Text.{
  Text, codes, text_eq, to_ascii_lowercase, is_ascii_digit, byte_length, len_utf8,
}
use marian_edge.Manifest.{
  ModelManifest, Hasher, Read, chunk, verify_runtime_bytes, verify_runtime_files, verify_sha256,
  verify_shortlist_file, hash_loop, is_sha256, is_ascii_hexdigit, eq_ignore_ascii_case, validate,
  validate_supported,
}
use marian_edge.Manifest.Checked.{Matches, MatchesIfAny, verify_runtime_bytes-Matches}
use marian_edge.Manifest.Files.{IsIncremental, ReadsAs, Holds, verify_runtime_files-bytes}

-- So many times the same digit.
abbrev digits : ℕ → ℕ → Text
digits zero c = []
digits (suc n) c = c ∷ digits n c

abbrev two_bytes : Text
two_bytes = codes "2222222222222222222222222222222222222222222222222222222222222222"

abbrev counting : Hasher
counting = record {
  State = List ℕ;
  initial = [];
  update = λ state bytes. state ++ bytes;
  finalize = λ state. digits 64 (48 + length state % 10);
  digest = λ bytes. digits 64 (48 + length bytes % 10);
}

counting-IsIncremental : IsIncremental counting
counting-IsIncremental = record {
  no_bytes = λ state. append-nil state;
  joined = λ state a b. append_assoc state a b;
  at_once = λ bytes. refl;
}

abbrev small_manifest : ModelManifest
small_manifest = record {
  format = codes "marian-edge.transformer-ssru.v1";
  model_id = codes "enzh";
  source_lang = codes "en";
  target_lang = codes "zh";
  weights = codes "w";
  source_vocab = codes "w";
  target_vocab = codes "w";
  shortlist = none;
  precision = codes "q8";
  architecture = record {
    model_dim = 384;
    attention_heads = 8;
    encoder_layers = 6;
    decoder_layers = 4;
    ffn_dim = 1536;
    source_vocab_size = 32000;
    target_vocab_size = 32000;
    eos_id = pos 0;
    unk_id = pos 1;
    max_length_factor = 3;
  };
  checksums = record {
    weights_sha256 = two_bytes;
    source_vocab_sha256 = two_bytes;
    target_vocab_sha256 = two_bytes;
    shortlist_sha256 = none;
  };
}

validate-small_manifest : validate small_manifest ≡ ok tt
unfolding validate validate_supported text_eq
validate-small_manifest = refl

abbrev one_file : Text → Option (List Read)
one_file name = some (chunk (1 ∷ []) ∷ chunk (2 ∷ []) ∷ chunk [] ∷ [])

one_file-Holds : (path : Text) → Holds one_file path (1 ∷ 2 ∷ [])
one_file-Holds path = (
  chunk (1 ∷ []) ∷ chunk (2 ∷ []) ∷ chunk [] ∷ [],
  refl,
  ReadsAs.piece 1 [] (ReadsAs.piece 2 [] ReadsAs.end_of_file),
)

verify_runtime_files-bytes_example :
    (verify_runtime_files counting one_file small_manifest ≡ ok tt) ↔ (
      verify_runtime_bytes counting small_manifest (1 ∷ 2 ∷ []) (1 ∷ 2 ∷ []) (1 ∷ 2 ∷ []) none
      ≡ ok tt)
verify_runtime_files-bytes_example =
    verify_runtime_files-bytes counting counting-IsIncremental one_file small_manifest (1 ∷ 2 ∷ [])
      (1 ∷ 2 ∷ []) (1 ∷ 2 ∷ []) none (one_file-Holds (codes "w")) (one_file-Holds (codes "w"))
      (one_file-Holds (codes "w")) tt

verify_runtime_bytes-Matches_example :
    (verify_runtime_bytes counting small_manifest (1 ∷ 2 ∷ []) (3 ∷ 4 ∷ []) (5 ∷ 6 ∷ []) none
      ≡ ok tt)
    ↔ (Matches counting (1 ∷ 2 ∷ []) two_bytes
        × Matches counting (3 ∷ 4 ∷ []) two_bytes
        × Matches counting (5 ∷ 6 ∷ []) two_bytes
        × MatchesIfAny counting none none)
verify_runtime_bytes-Matches_example =
    verify_runtime_bytes-Matches counting small_manifest (1 ∷ 2 ∷ []) (3 ∷ 4 ∷ []) (5 ∷ 6 ∷ []) none

-- The files are verified.
one_file-verified : verify_runtime_files counting one_file small_manifest ≡ ok tt
one_file-verified =
    unfold verify_runtime_files verify_sha256 verify_shortlist_file hash_loop is_sha256
      is_ascii_hexdigit eq_ignore_ascii_case text_eq to_ascii_lowercase is_ascii_digit byte_length
      len_utf8 in
    refl
