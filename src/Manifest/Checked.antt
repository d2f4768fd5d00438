-- ===== src/Manifest/Checked.antt =====
-- What the checksums of manifest.rs accept: exactly the bytes with the digests of the manifest.
use marian_edge.Common.{
  ℕ, ◌≤◌, ◌≡◌, refl, sym, ◌∙◌, ◌↔◌, ◌⊎◌, Bool, true, false, not, ◌&&◌, List, [], ◌∷◌, map, all,
  Option, none, some, ok, err, crash, ◌>>◌, fail_if, length, All, ==_iff, &&_split, arith,
}
use marian_edge.Text.{
  Text, codes, byte_length, len_utf8, is_ascii_digit, to_ascii_lowercase, text_eq-eq, text_eq_refl,
}
use marian_edge.Manifest.{
  ModelManifest, VerifyError, Verified, Hasher, is_ascii_hexdigit, is_sha256, eq_ignore_ascii_case,
  verify_sha256_bytes, verify_shortlist_bytes, verify_runtime_bytes,
}

-- 0 to 9, a to f or A to F.
abbrev pub IsHexDigit : ℕ → Type 0
IsHexDigit c = ((48 ≤ c) × (c ≤ 57)) ⊎ (((97 ≤ c) × (c ≤ 102)) ⊎ ((65 ≤ c) × (c ≤ 70)))

abbrev pub IsSha256 : Text → Type 0
IsSha256 expected = (length expected ≡ 64) × All IsHexDigit expected

-- The digest of the bytes is the one that is expected, but for the case of its letters.
abbrev pub Matches : Hasher → List ℕ → Text → Type 0
Matches hasher bytes expected =
    IsSha256 expected
    × (map to_ascii_lowercase (hasher.digest bytes) ≡ map to_ascii_lowercase expected)

abbrev pub MatchesIfAny : Hasher → Option (List ℕ) → Option Text → Type 0
MatchesIfAny hasher none none = Unit
MatchesIfAny hasher none (some expected) = ⊥
MatchesIfAny hasher (some bytes) none = ⊥
MatchesIfAny hasher (some bytes) (some expected) = Matches hasher bytes expected

is_ascii_hexdigit_iff : (c : ℕ) → (is_ascii_hexdigit c ≡ true) ↔ IsHexDigit c
unfolding is_ascii_hexdigit is_ascii_digit
is_ascii_hexdigit_iff c = (λ h. ground (arith, h), λ h. ground (arith, h))

all_hexdigits_iff : (s : Text) → (all is_ascii_hexdigit s ≡ true) ↔ All IsHexDigit s
all_hexdigits_iff [] = (λ _. tt, λ _. refl)
all_hexdigits_iff (c ∷ s) = (
  λ h. let (a, b) = &&_split _ _ h in ((is_ascii_hexdigit_iff c).0 a, (all_hexdigits_iff s).0 b),
  λ h. both ((is_ascii_hexdigit_iff c).1 h.0) ((all_hexdigits_iff s).1 h.1),
)
  where
    both : {a b : Bool} → a ≡ true → b ≡ true → (a && b) ≡ true
    both p q = rw (p, q) refl

-- A hexadecimal digit is one byte long.
len_utf8-IsHexDigit : (c : ℕ) → IsHexDigit c → len_utf8 c ≡ 1
unfolding len_utf8
len_utf8-IsHexDigit c h = ground (arith, h)

byte_length-hexdigits : (s : Text) → All IsHexDigit s → byte_length s ≡ length s
unfolding byte_length
byte_length-hexdigits [] h = refl
byte_length-hexdigits (c ∷ s) h =
    omega (arith, len_utf8-IsHexDigit c h.0, byte_length-hexdigits s h.1)

is_sha256_iff : (expected : Text) → (is_sha256 expected ≡ true) ↔ IsSha256 expected
unfolding is_sha256
is_sha256_iff expected = (
  λ h.
      let (a, b) = &&_split _ _ h in
      let digits = (all_hexdigits_iff expected).0 b in
      (
        sym (byte_length-hexdigits expected digits) ∙ (==_iff (byte_length expected) 64).0 a,
        digits,
      ),
  λ h.
      rw
        (
          (==_iff (byte_length expected) 64).1 (byte_length-hexdigits expected h.1 ∙ h.0),
          (all_hexdigits_iff expected).1 h.1,
        )
        refl,
)

eq_ignore_ascii_case_iff :
    (a b : Text)
    → (eq_ignore_ascii_case a b ≡ true) ↔ (map to_ascii_lowercase a ≡ map to_ascii_lowercase b)
unfolding eq_ignore_ascii_case
eq_ignore_ascii_case_iff a b = (
  text_eq-eq (map to_ascii_lowercase a) (map to_ascii_lowercase b),
  λ e. rw (sym e) (text_eq_refl (map to_ascii_lowercase a)),
)

-- A guard passes and the rest succeeds.
pub passed_iff :
    (b : Bool) (e : VerifyError) (k : Verified)
    → ((fail_if (not b) e >> k) ≡ ok tt) ↔ ((b ≡ true) × (k ≡ ok tt))
passed_iff true e k = (λ h. (refl, h), λ h. h.1)
passed_iff false e k = (λ h. absurd cc, λ h. absurd (cc))

-- Both of two checks succeed.
pub both_iff : (m k : Verified) → ((m >> k) ≡ ok tt) ↔ ((m ≡ ok tt) × (k ≡ ok tt))
both_iff (ok a) k = (λ h. (refl, h), λ h. h.1)
both_iff (err x) k = (λ h. absurd cc, λ h. absurd (cc))
both_iff crash k = (λ h. absurd cc, λ h. absurd (cc))

module _ (hasher : Hasher) where
  verify_sha256_bytes-Matches :
      (label : Text) (bytes : List ℕ) (expected : Text)
      → (verify_sha256_bytes hasher label bytes expected ≡ ok tt) ↔ Matches hasher bytes expected
  unfolding verify_sha256_bytes
  verify_sha256_bytes-Matches label bytes expected = (
    λ h.
        let (shape, rest) = (passed_iff (is_sha256 expected) _ _).0 h in
        let (same, _) =
          (passed_iff (eq_ignore_ascii_case (hasher.digest bytes) expected) _ (ok tt)).0 rest in
        (
          (is_sha256_iff expected).0 shape,
          (eq_ignore_ascii_case_iff (hasher.digest bytes) expected).0 same,
        ),
    λ h. (passed_iff (is_sha256 expected) _ _).1 (
      (is_sha256_iff expected).1 h.0,
      (passed_iff (eq_ignore_ascii_case (hasher.digest bytes) expected) _ (ok tt)).1
          ((eq_ignore_ascii_case_iff (hasher.digest bytes) expected).1 h.1, refl),
    ),
  )

  verify_shortlist_bytes-MatchesIfAny :
      (bytes : Option (List ℕ)) (expected : Option Text)
      → (verify_shortlist_bytes hasher bytes expected ≡ ok tt) ↔ MatchesIfAny hasher bytes expected
  unfolding verify_shortlist_bytes
  verify_shortlist_bytes-MatchesIfAny none none = (λ _. tt, λ _. refl)
  verify_shortlist_bytes-MatchesIfAny none (some expected) = (λ h. absurd cc, λ h. absurd h)
  verify_shortlist_bytes-MatchesIfAny (some bytes) none = (λ h. absurd cc, λ h. absurd h)
  verify_shortlist_bytes-MatchesIfAny (some bytes) (some expected) =
      verify_sha256_bytes-Matches (codes "shortlist") bytes expected

  -- The bytes of a model are verified exactly when each expected digest is 64 hexadecimal digits and is, case
  -- aside, the digest of the bytes it is for, and a shortlist is given exactly where the manifest has a
  -- digest for it.
  pub verify_runtime_bytes-Matches :
      (m : ModelManifest) (weights source_vocab target_vocab : List ℕ) (shortlist : Option (List ℕ))
      → (verify_runtime_bytes hasher m weights source_vocab target_vocab shortlist ≡ ok tt) ↔ (
          Matches hasher weights m.checksums.weights_sha256
          × Matches hasher source_vocab m.checksums.source_vocab_sha256
          × Matches hasher target_vocab m.checksums.target_vocab_sha256
          × MatchesIfAny hasher shortlist m.checksums.shortlist_sha256)
  unfolding verify_runtime_bytes
  verify_runtime_bytes-Matches m weights source_vocab target_vocab shortlist =
      let on_weights =
        verify_sha256_bytes-Matches (codes "weights") weights m.checksums.weights_sha256 in
      let on_source =
        verify_sha256_bytes-Matches (codes "source vocabulary") source_vocab
          m.checksums.source_vocab_sha256 in
      let on_target =
        verify_sha256_bytes-Matches (codes "target vocabulary") target_vocab
          m.checksums.target_vocab_sha256 in
      let on_shortlist =
        verify_shortlist_bytes-MatchesIfAny shortlist m.checksums.shortlist_sha256 in
      (
        λ h.
            let (a, h₁) = (both_iff _ _).0 h in
            let (b, h₂) = (both_iff _ _).0 h₁ in
            let (c, d) = (both_iff _ _).0 h₂ in
            (on_weights.0 a, on_source.0 b, on_target.0 c, on_shortlist.0 d),
        λ h. (both_iff _ _).1 (
          on_weights.1 h.0,
          (both_iff _ _).1
              (on_source.1 h.1, (both_iff _ _).1 (on_target.1 h.2, on_shortlist.1 h.3)),
        ),
      )
