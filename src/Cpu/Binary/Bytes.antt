-- ===== src/Cpu/Binary/Bytes.antt =====
-- What the reader gives: as many bytes as were asked for, all of them of the file.
use marian_edge.Common.{
  le→leb, ℕ, ◌+◌, ◌-◌, ◌*◌, ◌/◌, ◌%◌, ◌≤◌, ◌<◌, ◌≡◌, refl, sym, ◌∙◌, ap, subst, false, List, [],
  ◌∷◌, none, some, some_inj, ltb, leb, if_cases, length, take, drop, length-take, length-drop,
  usize_max, checked_add, Ensures, Ensures-bind, Ensures-fail_if, Ensures-ok_or, Ensures-mono,
  arith,
}
use marian_edge.Cpu.Binary.{
  invalid_format, invalid_tensor, data_alignment, checked_mul, fold_elements, checked_elements,
  align_up, take_bytes, read_u64, read_usize_u64, read_i32,
}
use native.Mathlib.Nat.{mul_assoc}
use marian_edge.Cpu.Binary.Parse.{take_checked, drop_checked}
use marian_edge.Cpu.Binary.Model.{elements}

pub checked_mul_lem : (a b c : ℕ) → checked_mul a b ≡ some c → (c ≡ a * b) × (c ≤ usize_max)
checked_mul_lem a b c =
    if_cases (λ o. o ≡ some c → (c ≡ a * b) × (c ≤ usize_max)) (leb (a * b) usize_max)
      (some (a * b)) none
      (λ fits h. (sym (some_inj h), subst (λ z. z ≤ usize_max) (some_inj h) (ground (arith, fits))))
      (λ _ h. absurd cc)

pub checked_add_lem : (a b c : ℕ) → checked_add a b ≡ some c → (c ≡ a + b) × (c ≤ usize_max)
checked_add_lem a b c =
    if_cases (λ o. o ≡ some c → (c ≡ a + b) × (c ≤ usize_max)) (leb (a + b) usize_max)
      (some (a + b)) none
      (λ fits h. (sym (some_inj h), subst (λ z. z ≤ usize_max) (some_inj h) (ground (arith, fits))))
      (λ _ h. absurd cc)

-- The aligned length is the least multiple of the alignment that is not less.
pub align_up_lem :
    (n a : ℕ)
    → align_up n data_alignment ≡ some a
    → (n ≤ a) × (a < n + data_alignment) × (a % data_alignment ≡ 0)
unfolding align_up
align_up_lem n a =
    if_cases
      (λ o.
        elim o [ some n' ↦ some (n' / 256 * 256) | none ↦ none ] ≡ some a
        → (n ≤ a) × (a < n + 256) × (a % 256 ≡ 0))
      (leb (n + (256 - 1)) usize_max) (some (n + (256 - 1))) none
      (λ _ h. let e = some_inj h in (omega (arith, e), omega (arith, e), omega (arith, e)))
      (λ _ h. absurd cc)

pub fold_elements_lem :
    (acc : ℕ) (shape : List ℕ)
    → acc ≤ usize_max
    → Ensures (λ e. (e ≡ acc * elements shape) × (e ≤ usize_max)) (fold_elements acc shape)
unfolding fold_elements elements
fold_elements_lem acc [] h = (omega arith, h)
fold_elements_lem acc (d ∷ shape) h =
    Ensures-ok_or Folded (checked_mul acc d) invalid_tensor (λ e. fold_elements e shape)
      λ e found.
        let (same, small) = checked_mul_lem acc d e found in
        Ensures-mono _ Folded (fold_elements e shape) (fold_elements_lem e shape small)
          λ r (is, fits).
            (is ∙ ap (λ z. z * elements shape) same ∙ mul_assoc acc d (elements shape), fits)
  where
    Folded : ℕ → Type 0
    Folded e = (e ≡ acc * elements (d ∷ shape)) × (e ≤ usize_max)

pub checked_elements_lem :
    (shape : List ℕ)
    → Ensures (λ e. (e ≡ elements shape) × (e ≤ usize_max)) (checked_elements shape)
unfolding checked_elements
checked_elements_lem shape =
    Ensures-mono _ _ (fold_elements 1 shape) (fold_elements_lem 1 shape (omega arith))
      λ e (is, fits). (omega (arith, is), fits)

pub take_checked_lem : (n : ℕ) (xs : List ℕ) → n ≤ length xs → take_checked n xs ≡ some (take n xs)
take_checked_lem n xs h = rw (le→leb n (length xs) h) refl

pub drop_checked_lem : (n : ℕ) (xs : List ℕ) → n ≤ length xs → drop_checked n xs ≡ some (drop n xs)
drop_checked_lem n xs h = rw (le→leb n (length xs) h) refl

module _ (bytes : List ℕ) where
  pub take_bytes_lem :
      (p n : ℕ)
      → Ensures
          (λ r. (length r.0 ≡ n) × (r.1 ≡ p + n) × (r.1 ≤ length bytes))
          (take_bytes bytes p n)
  unfolding take_bytes
  take_bytes_lem p n = Ensures-ok_or Taken (checked_add p n) invalid_format _ λ finish found.
      let e = (checked_add_lem p n finish found).0 in
      Ensures-fail_if Taken (ltb (length bytes) finish) invalid_format _ λ inside.
        let h = within finish inside in
        (length-take n (drop p bytes) (omega (arith, length-drop p bytes, h, e)), e, h)
    where
      Taken : List ℕ × ℕ → Type 0
      Taken r = (length r.0 ≡ n) × (r.1 ≡ p + n) × (r.1 ≤ length bytes)

      within : (finish : ℕ) → ltb (length bytes) finish ≡ false → finish ≤ length bytes
      within finish h = ground (arith, h)

  pub read_u64_lem : (p : ℕ) → Ensures (λ _. Unit {0}) (read_u64 bytes p)
  unfolding read_u64
  read_u64_lem p =
      Ensures-bind _ (λ _. Unit {0}) (take_bytes bytes p 8) _ (take_bytes_lem p 8) λ r _. tt

  pub read_usize_u64_lem : (p : ℕ) → Ensures (λ _. Unit {0}) (read_usize_u64 bytes p)
  unfolding read_usize_u64
  read_usize_u64_lem p = read_u64_lem p

  pub read_i32_lem : (p : ℕ) → Ensures (λ _. Unit {0}) (read_i32 bytes p)
  unfolding read_i32
  read_i32_lem p =
      Ensures-bind _ (λ _. Unit {0}) (take_bytes bytes p 4) _ (take_bytes_lem p 4) λ r _. tt
