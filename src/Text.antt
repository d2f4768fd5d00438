-- ===== src/Text.antt =====
-- Rust's `str` as the list of its scalars, addressed by byte offsets; `none` is a panic. White space
-- and the ASCII classes are those of the standard library's `char`.
pub mod Boundary
pub mod Slices
use marian_edge.Common.{
  arith, ℕ, zero, suc, ◌+◌, ◌-◌, ◌≡◌, refl, arith, Bool, true, false, ◌||◌, ◌&&◌, List, [], ◌∷◌,
  Option, none, some, String, ltb, leb, ◌==◌, if◌then◌else◌,
}
use Prim.Native.Char.{code}

abbrev pub Text : Type 0
Text = List ℕ

-- The scalars of a literal.
abbrev pub codes : String → Text
codes String.[] = []
codes (String.◌∷◌ c s) = code c ∷ codes s

unfoldable pub len_utf8 : ℕ → ℕ
len_utf8 c = if ltb c 0x80 then 1 else if ltb c 0x800 then 2 else if ltb c 0x10000 then 3 else 4

-- `text.len()`.
unfoldable pub byte_length : Text → ℕ
byte_length [] = 0
byte_length (c ∷ s) = len_utf8 c + byte_length s

-- `&text[index..]`.
unfoldable pub slice_from : Text → ℕ → Option Text
unfolding len_utf8
slice_from s zero = some s
slice_from [] (suc i) = none
slice_from (c ∷ s) (suc i) =
    if leb (len_utf8 c) (suc i) then slice_from s (suc i - len_utf8 c) else none

abbrev prepend : ℕ → Option Text → Option Text
prepend c none = none
prepend c (some s) = some (c ∷ s)

-- `&text[..end]`.
unfoldable pub slice_to : Text → ℕ → Option Text
unfolding len_utf8
slice_to s zero = some []
slice_to [] (suc i) = none
slice_to (c ∷ s) (suc i) =
    if leb (len_utf8 c) (suc i) then prepend c (slice_to s (suc i - len_utf8 c)) else none

abbrev to_length : ℕ → Option Text → Option Text
to_length n none = none
to_length n (some s) = slice_to s n

-- `&text[start..end]`.
unfoldable pub slice : Text → ℕ → ℕ → Option Text
unfolding slice_from slice_to
slice s a b = if leb a b then to_length (b - a) (slice_from s a) else none

abbrev is_some {ℓ} : {A : Type ℓ} → Option A → Bool
is_some none = false
is_some (some a) = true

-- `text.is_char_boundary(index)`.
unfoldable pub is_char_boundary : Text → ℕ → Bool
unfolding slice_from
is_char_boundary s i = is_some (slice_from s i)

abbrev first : Option Text → Option ℕ
first none = none
first (some []) = none
first (some (c ∷ s)) = some c

abbrev last_of : ℕ → Text → ℕ
last_of c [] = c
last_of c (d ∷ s) = last_of d s

abbrev last : Option Text → Option ℕ
last none = none
last (some []) = none
last (some (c ∷ s)) = some (last_of c s)

-- `text[index..].chars().next()` and `text[..end].chars().next_back()`.
unfoldable pub scalar_at : Text → ℕ → Option ℕ
unfolding slice_from
scalar_at s i = first (slice_from s i)

unfoldable pub scalar_before : Text → ℕ → Option ℕ
unfolding slice_to
scalar_before s e = last (slice_to s e)

-- `char::is_whitespace`.
unfoldable pub is_whitespace : ℕ → Bool
is_whitespace c =
    (leb 0x9 c && leb c 0xd)
    || c == 0x20
    || c == 0x85
    || c == 0xa0
    || c == 0x1680
    || (leb 0x2000 c && leb c 0x200a)
    || c == 0x2028
    || c == 0x2029
    || c == 0x202f
    || c == 0x205f
    || c == 0x3000

unfoldable pub is_ascii_digit : ℕ → Bool
is_ascii_digit c = leb b'0' c && leb c b'9'

unfoldable pub is_ascii_lowercase : ℕ → Bool
is_ascii_lowercase c = leb b'a' c && leb c b'z'

unfoldable pub is_ascii_uppercase : ℕ → Bool
is_ascii_uppercase c = leb b'A' c && leb c b'Z'

unfoldable pub is_ascii_alphabetic : ℕ → Bool
unfolding is_ascii_lowercase is_ascii_uppercase
is_ascii_alphabetic c = is_ascii_lowercase c || is_ascii_uppercase c

unfoldable pub to_ascii_lowercase : ℕ → ℕ
unfolding is_ascii_uppercase
to_ascii_lowercase c = if is_ascii_uppercase c then c + 32 else c

-- `==` on strings.
unfoldable pub text_eq : Text → Text → Bool
text_eq [] [] = true
text_eq [] (d ∷ t) = false
text_eq (c ∷ s) [] = false
text_eq (c ∷ s) (d ∷ t) = c == d && text_eq s t

pub text_eq_refl : (s : Text) → text_eq s s ≡ true
unfolding text_eq
text_eq_refl [] = refl
text_eq_refl (c ∷ s) = ground (arith, text_eq_refl s)

pub text_eq-eq : (s t : Text) → text_eq s t ≡ true → s ≡ t
unfolding text_eq
text_eq-eq [] [] h = refl
text_eq-eq [] (d ∷ t) h = cc
text_eq-eq (c ∷ s) [] h = cc
text_eq-eq (c ∷ s) (d ∷ t) h = ground (arith, text_eq-eq s t)
