-- ===== src/Manifest.antt =====
-- crates/marian-model/src/manifest.rs: which models are accepted, and the checksums of their files. The
-- SHA-256 hasher and the file system are parameters; JSON parsing is left out.
pub mod Checked
pub mod Files
pub mod Tests
use marian_edge.Common.{
  int_eq, ℤ, pos, negsuc, ℕ, Bool, true, false, not, ◌&&◌, ◌||◌, List, [], ◌∷◌, map, all, Option,
  none, some, ltb, leb, ◌==◌, Outcome, ok, err, ◌>>=◌, ◌>>◌, fail_if, ok_or,
}
use marian_edge.Text.{Text, codes, byte_length, is_ascii_digit, to_ascii_lowercase, text_eq}
use marian_edge.Translation.{BackendError, model}

pub record TransformerSsruSpec : Type 0 where
  pub model_dim : ℕ
  pub attention_heads : ℕ
  pub encoder_layers : ℕ
  pub decoder_layers : ℕ
  pub ffn_dim : ℕ
  pub eos_id : ℤ
  pub unk_id : ℤ
  pub maximum_length_factor : ℕ

abbrev pub supported_transformer_ssru : TransformerSsruSpec
supported_transformer_ssru = record {
  model_dim = 384;
  attention_heads = 8;
  encoder_layers = 6;
  decoder_layers = 4;
  ffn_dim = 1536;
  eos_id = pos 0;
  unk_id = pos 1;
  maximum_length_factor = 8;
}

pub record Architecture : Type 0 where
  pub model_dim : ℕ
  pub attention_heads : ℕ
  pub encoder_layers : ℕ
  pub decoder_layers : ℕ
  pub ffn_dim : ℕ
  pub source_vocab_size : ℕ
  pub target_vocab_size : ℕ
  pub eos_id : ℤ
  pub unk_id : ℤ
  pub max_length_factor : ℕ

pub record Checksums : Type 0 where
  pub weights_sha256 : Text
  pub source_vocab_sha256 : Text
  pub target_vocab_sha256 : Text
  pub shortlist_sha256 : Option Text

pub record ModelManifest : Type 0 where
  pub format : Text
  pub model_id : Text
  pub source_lang : Text
  pub target_lang : Text
  pub weights : Text
  pub source_vocab : Text
  pub target_vocab : Text
  pub shortlist : Option Text
  pub precision : Text
  pub architecture : Architecture
  pub checksums : Checksums

-- Of a model or its format; the messages are left out.
abbrev pub Checks : Type 0
Checks = Outcome BackendError (Unit {0})

unfoldable pub validate_supported : Architecture → Checks
validate_supported a = do
  fail_if
      (not (
        a.model_dim == supported_transformer_ssru.model_dim
        && a.attention_heads == supported_transformer_ssru.attention_heads
        && a.encoder_layers == supported_transformer_ssru.encoder_layers
        && a.decoder_layers == supported_transformer_ssru.decoder_layers
        && a.ffn_dim == supported_transformer_ssru.ffn_dim
        && int_eq a.eos_id supported_transformer_ssru.eos_id
        && int_eq a.unk_id supported_transformer_ssru.unk_id))
      model
  fail_if (leb a.source_vocab_size 2 || leb a.target_vocab_size 2) model
  fail_if
      (not (
        leb 1 a.max_length_factor
        && leb a.max_length_factor supported_transformer_ssru.maximum_length_factor))
      model
  ok tt

unfoldable pub validate : ModelManifest → Checks
unfolding text_eq validate_supported
validate m = do
  fail_if
      (not (
        text_eq m.format (codes "marian-edge.transformer-ssru.v1")
        || text_eq m.format (codes "marian-mlx.transformer-ssru.v1")))
      model
  fail_if (not (text_eq m.precision (codes "fp32") || text_eq m.precision (codes "q8"))) model
  validate_supported m.architecture

unfoldable pub is_ascii_hexdigit : ℕ → Bool
unfolding is_ascii_digit
is_ascii_hexdigit c = is_ascii_digit c || (leb 97 c && leb c 102) || (leb 65 c && leb c 70)

unfoldable pub eq_ignore_ascii_case : Text → Text → Bool
unfolding text_eq to_ascii_lowercase
eq_ignore_ascii_case a b = text_eq (map to_ascii_lowercase a) (map to_ascii_lowercase b)

-- The test of `expected`, which has one byte for each hexadecimal digit.
unfoldable pub is_sha256 : Text → Bool
unfolding is_ascii_hexdigit byte_length
is_sha256 expected = byte_length expected == 64 && all is_ascii_hexdigit expected

-- The errors of the checksums, with what their messages name; the errors of the file system are left out.
pub data VerifyError : Type 0 where
  invalid_sha256 failed_to_open failed_to_hash : Text → VerifyError
  -- The file or its label, the digest expected and the one computed.
  checksum_mismatch : Text → Text → Text → VerifyError
  shortlist_without_sha256 sha256_without_shortlist sha256_without_bytes : VerifyError

abbrev pub Verified : Type 0
Verified = Outcome VerifyError (Unit {0})

-- The crate `sha2`: a digest is computed at once or piece by piece, and is written in hexadecimal.
pub record Hasher : Type 1 where
  pub State : Type 0
  pub initial : State
  pub update : State → List ℕ → State
  pub finalize : State → Text
  pub digest : List ℕ → Text

-- What one call of `read` puts in the buffer, the empty list at the end of the file.
pub data Read : Type 0 where
  chunk : List ℕ → Read
  read_error : Read

module _ (hasher : Hasher) where
  unfoldable pub verify_sha256_bytes : Text → List ℕ → Text → Verified
  unfolding is_sha256 eq_ignore_ascii_case
  verify_sha256_bytes label bytes expected = do
    fail_if (not (is_sha256 expected)) (invalid_sha256 label)
    let actual = hasher.digest bytes
    fail_if (not (eq_ignore_ascii_case actual expected)) (checksum_mismatch label expected actual)
    ok tt

  -- The loop that reads and hashes; a file that has no more to read is at its end.
  unfoldable pub hash_loop : Text → hasher.State → List Read → Outcome VerifyError hasher.State
  hash_loop path state [] = ok state
  hash_loop path state (read_error ∷ reads) = err (failed_to_hash path)
  hash_loop path state (chunk [] ∷ reads) = ok state
  hash_loop path state (chunk (b ∷ bytes) ∷ reads) =
      hash_loop path (hasher.update state (b ∷ bytes)) reads

  -- `open_file` opens a file of the model's directory: the results of its reads, if there is one.
  unfoldable pub verify_sha256 : (Text → Option (List Read)) → Text → Text → Verified
  unfolding is_sha256 eq_ignore_ascii_case hash_loop
  verify_sha256 open_file path expected = do
    fail_if (not (is_sha256 expected)) (invalid_sha256 path)
    reads ← ok_or (open_file path) (failed_to_open path)
    state ← hash_loop path hasher.initial reads
    let actual = hasher.finalize state
    fail_if (not (eq_ignore_ascii_case actual expected)) (checksum_mismatch path expected actual)
    ok tt

  -- `match (shortlist, &self.checksums.shortlist_sha256)`.
  unfoldable pub verify_shortlist_bytes : Option (List ℕ) → Option Text → Verified
  unfolding verify_sha256_bytes
  verify_shortlist_bytes (some bytes) (some expected) =
      verify_sha256_bytes (codes "shortlist") bytes expected
  verify_shortlist_bytes (some bytes) none = err shortlist_without_sha256
  verify_shortlist_bytes none (some expected) = err sha256_without_bytes
  verify_shortlist_bytes none none = ok tt

  unfoldable pub verify_runtime_bytes :
      ModelManifest → List ℕ → List ℕ → List ℕ → Option (List ℕ) → Verified
  unfolding verify_sha256_bytes verify_shortlist_bytes
  verify_runtime_bytes m weights source_vocab target_vocab shortlist = do
    verify_sha256_bytes (codes "weights") weights m.checksums.weights_sha256
    verify_sha256_bytes (codes "source vocabulary") source_vocab m.checksums.source_vocab_sha256
    verify_sha256_bytes (codes "target vocabulary") target_vocab m.checksums.target_vocab_sha256
    verify_shortlist_bytes shortlist m.checksums.shortlist_sha256

  -- `match (&self.shortlist, &self.checksums.shortlist_sha256)`.
  unfoldable pub verify_shortlist_file :
      (Text → Option (List Read)) → Option Text → Option Text → Verified
  unfolding verify_sha256
  verify_shortlist_file open_file (some path) (some expected) =
      verify_sha256 open_file path expected
  verify_shortlist_file open_file (some path) none = err shortlist_without_sha256
  verify_shortlist_file open_file none (some expected) = err sha256_without_shortlist
  verify_shortlist_file open_file none none = ok tt

  unfoldable pub verify_runtime_files : (Text → Option (List Read)) → ModelManifest → Verified
  unfolding verify_sha256 verify_shortlist_file
  verify_runtime_files open_file m = do
    verify_sha256 open_file m.weights m.checksums.weights_sha256
    verify_sha256 open_file m.source_vocab m.checksums.source_vocab_sha256
    verify_sha256 open_file m.target_vocab m.checksums.target_vocab_sha256
    verify_shortlist_file open_file m.shortlist m.checksums.shortlist_sha256
