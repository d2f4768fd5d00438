-- ===== src/Manifest/Files.antt =====
-- The two ways of manifest.rs to verify a model, from its directory and from bytes in memory, accept the same.
use marian_edge.Common.{
  ℕ, ◌≡◌, refl, sym, ap, ◌∙◌, ◌↔◌, List, [], ◌∷◌, ◌++◌, Option, none, some, ok,
}
use marian_edge.Text.{Text, codes}
use marian_edge.Manifest.{
  ModelManifest, Hasher, Read, chunk, is_sha256, eq_ignore_ascii_case, verify_sha256_bytes,
  hash_loop, verify_sha256, verify_shortlist_bytes, verify_shortlist_file, verify_runtime_bytes,
  verify_runtime_files,
}
use marian_edge.Manifest.Checked.{passed_iff, both_iff}

-- What `sha2` promises: the pieces of an input may be given one after another.
pub record IsIncremental (hasher : Hasher) : Type 0 where
  pub no_bytes : (state : hasher.State) → hasher.update state [] ≡ state
  pub joined :
      (state : hasher.State) (a b : List ℕ)
      → hasher.update (hasher.update state a) b ≡ hasher.update state (a ++ b)
  pub at_once :
      (bytes : List ℕ) → hasher.digest bytes ≡ hasher.finalize (hasher.update hasher.initial bytes)

-- The reads give the bytes in pieces of any size, up to the end of the file.
pub data ReadsAs : List Read → List ℕ → Type 0 where
  no_more : ReadsAs [] []
  end_of_file : {reads : List Read} → ReadsAs (chunk [] ∷ reads) []
  piece :
      (b : ℕ) (bytes : List ℕ) {reads : List Read} {others : List ℕ}
      → ReadsAs reads others
      → ReadsAs (chunk (b ∷ bytes) ∷ reads) ((b ∷ bytes) ++ others)

-- The file at a path can be opened, and holds the bytes.
abbrev pub Holds : (Text → Option (List Read)) → Text → List ℕ → Type 0
Holds open_file path bytes =
    (reads : List Read) × (open_file path ≡ some reads) × ReadsAs reads bytes

abbrev pub HoldsIfAny : (Text → Option (List Read)) → Option Text → Option (List ℕ) → Type 0
HoldsIfAny open_file none none = Unit
HoldsIfAny open_file none (some bytes) = ⊥
HoldsIfAny open_file (some path) none = ⊥
HoldsIfAny open_file (some path) (some bytes) = Holds open_file path bytes

module _ (hasher : Hasher) (incremental : IsIncremental hasher) where
  hash_loop-update :
      (path : Text) (reads : List Read) (bytes : List ℕ) (state : hasher.State)
      → ReadsAs reads bytes
      → hash_loop hasher path state reads ≡ ok (hasher.update state bytes)
  unfolding hash_loop
  hash_loop-update path reads bytes state ReadsAs.no_more = ap ok (sym (incremental.no_bytes state))
  hash_loop-update path reads bytes state ReadsAs.end_of_file =
      ap ok (sym (incremental.no_bytes state))
  hash_loop-update path reads bytes state (ReadsAs.piece b front {reads = rest} {others} r) =
      hash_loop-update path rest others (hasher.update state (b ∷ front)) r
      ∙ ap ok (incremental.joined state (b ∷ front) others)

  module _ (open_file : Text → Option (List Read)) where
    -- A file, verified, comes to the test of the digest of its bytes.
    verify_sha256_lem :
        (path expected : Text) (bytes : List ℕ)
        → Holds open_file path bytes
        → verify_sha256 hasher open_file path expected
          ≡ verify_sha256_bytes hasher path bytes expected
    unfolding verify_sha256 verify_sha256_bytes
    verify_sha256_lem path expected bytes (reads, opened, read) =
        rw
          (opened, hash_loop-update path reads bytes hasher.initial read, incremental.at_once bytes)
          refl

    -- The label is in the messages only.
    relabel :
        (label label' : Text) (bytes : List ℕ) (expected : Text)
        → verify_sha256_bytes hasher label bytes expected ≡ ok tt
        → verify_sha256_bytes hasher label' bytes expected ≡ ok tt
    unfolding verify_sha256_bytes
    relabel label label' bytes expected h =
        let (shape, rest) = (passed_iff (is_sha256 expected) _ _).0 h in
        let (same, _) =
          (passed_iff (eq_ignore_ascii_case (hasher.digest bytes) expected) _ (ok tt)).0 rest in
        (passed_iff (is_sha256 expected) _ _).1 (
          shape,
          (passed_iff (eq_ignore_ascii_case (hasher.digest bytes) expected) _ (ok tt)).1
              (same, refl),
        )

    file_iff :
        (path label expected : Text) (bytes : List ℕ)
        → Holds open_file path bytes
        → (verify_sha256 hasher open_file path expected ≡ ok tt)
          ↔ (verify_sha256_bytes hasher label bytes expected ≡ ok tt)
    file_iff path label expected bytes h =
        let e = verify_sha256_lem path expected bytes h in
        (
          λ v. relabel path label bytes expected (sym e ∙ v),
          λ v. e ∙ relabel label path bytes expected v,
        )

    shortlist_iff :
        (path : Option Text) (bytes : Option (List ℕ)) (expected : Option Text)
        → HoldsIfAny open_file path bytes
        → (verify_shortlist_file hasher open_file path expected ≡ ok tt)
          ↔ (verify_shortlist_bytes hasher bytes expected ≡ ok tt)
    unfolding verify_shortlist_file verify_shortlist_bytes
    shortlist_iff none none none h = (λ v. v, λ v. v)
    shortlist_iff none none (some expected) h = (λ v. absurd cc, λ v. absurd (cc))
    shortlist_iff none (some bytes) expected h = absurd h
    shortlist_iff (some path) none expected h = absurd h
    shortlist_iff (some path) (some bytes) none h = (λ v. absurd cc, λ v. absurd (cc))
    shortlist_iff (some path) (some bytes) (some expected) h =
        file_iff path (codes "shortlist") expected bytes h

    -- With a hasher that may be given its input piece by piece, and a directory whose files hold the given
    -- bytes, with a shortlist named exactly where its bytes are given: verifying the files, which are read and
    -- hashed in pieces of any size, succeeds exactly when verifying the bytes does.
    pub verify_runtime_files-bytes :
        (m : ModelManifest) (weights source_vocab target_vocab : List ℕ)
        (shortlist : Option (List ℕ))
        → Holds open_file m.weights weights
        → Holds open_file m.source_vocab source_vocab
        → Holds open_file m.target_vocab target_vocab
        → HoldsIfAny open_file m.shortlist shortlist
        → (verify_runtime_files hasher open_file m ≡ ok tt)
          ↔ (verify_runtime_bytes hasher m weights source_vocab target_vocab shortlist ≡ ok tt)
    unfolding verify_runtime_files verify_runtime_bytes
    verify_runtime_files-bytes m weights source_vocab target_vocab shortlist w s t l =
        let sums = m.checksums in
        let on_weights = file_iff m.weights (codes "weights") sums.weights_sha256 weights w in
        let on_source =
          file_iff m.source_vocab (codes "source vocabulary") sums.source_vocab_sha256 source_vocab
            s in
        let on_target =
          file_iff m.target_vocab (codes "target vocabulary") sums.target_vocab_sha256 target_vocab
            t in
        let on_shortlist = shortlist_iff m.shortlist shortlist sums.shortlist_sha256 l in
        (
          λ h.
              let (a, h₁) = (both_iff _ _).0 h in
              let (b, h₂) = (both_iff _ _).0 h₁ in
              let (c, d) = (both_iff _ _).0 h₂ in
              (both_iff _ _).1 (
                on_weights.0 a,
                (both_iff _ _).1
                    (on_source.0 b, (both_iff _ _).1 (on_target.0 c, on_shortlist.0 d)),
              ),
          λ h.
              let (a, h₁) = (both_iff _ _).0 h in
              let (b, h₂) = (both_iff _ _).0 h₁ in
              let (c, d) = (both_iff _ _).0 h₂ in
              (both_iff _ _).1 (
                on_weights.1 a,
                (both_iff _ _).1
                    (on_source.1 b, (both_iff _ _).1 (on_target.1 c, on_shortlist.1 d)),
              ),
        )
