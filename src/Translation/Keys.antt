-- ===== src/Translation/Keys.antt =====
-- Equality of inputs and keys, and the length bucket of types.rs.
use marian_edge.Common.{
  ℕ, zero, suc, ◌*◌, ◌≤◌, ◌<◌, max, ◌≡◌, refl, sym, ◌⊎◌, inl, inr, true, false, Option, none, some,
  arith, leb, ==_iff, length, usize_max, &&_split, some_inj, Bool-cases, leb→le,
}
use marian_edge.Text.{text_eq-eq, text_eq_refl}
use marian_edge.Translation.{
  TranslationInput, input_eq, BatchKey, batch_key, key_eq, power_from, checked_next_power_of_two,
  unwrap_or,
}

pub input_eq-eq : (a b : TranslationInput) → input_eq a b ≡ true → a ≡ b
unfolding input_eq
input_eq-eq a b h =
    let (abc, d) = &&_split _ _ h in
    let (ab, c) = &&_split _ _ abc in
    let (p, q) = &&_split _ _ ab in
    let e₁ = text_eq-eq a.text b.text p in
    let e₂ = text_eq-eq a.source_lang b.source_lang q in
    let e₃ = text_eq-eq a.target_lang b.target_lang c in
    let e₄ = (==_iff a.max_output_tokens b.max_output_tokens).0 d in
    λ i. record { text = e₁ i; source_lang = e₂ i; target_lang = e₃ i; max_output_tokens = e₄ i }

pub input_eq_refl : (a : TranslationInput) → input_eq a a ≡ true
unfolding input_eq
input_eq_refl a =
    rw (text_eq_refl a.text, text_eq_refl a.source_lang, text_eq_refl a.target_lang)
      ((==_iff a.max_output_tokens a.max_output_tokens).1 refl)

pub key_eq-eq : (a b : BatchKey) → key_eq a b ≡ true → a ≡ b
unfolding key_eq
key_eq-eq a b h =
    let (abc, d) = &&_split _ _ h in
    let (ab, c) = &&_split _ _ abc in
    let (p, q) = &&_split _ _ ab in
    let e₁ = text_eq-eq a.source_lang b.source_lang p in
    let e₂ = text_eq-eq a.target_lang b.target_lang q in
    let e₃ = (==_iff a.max_output_tokens b.max_output_tokens).0 c in
    let e₄ = (==_iff a.length_bucket b.length_bucket).0 d in
    λ i. record {
      source_lang = e₁ i;
      target_lang = e₂ i;
      max_output_tokens = e₃ i;
      length_bucket = e₄ i;
    }

-- The power that is found covers `n`, and its half, if it was tried, did not.
power_from_bounds :
    (left p n q : ℕ)
    → 1 ≤ p
    → power_from left p n ≡ some q
    → (p ≤ q) × (n ≤ q) × ((q ≡ p) ⊎ (q < 2 * n))
unfolding power_from
power_from_bounds zero p n q hp h = absurd (cc)
power_from_bounds (suc left) p n q hp h = elim (Bool-cases (leb n p)) [
  | inl done ↦
      let e : p ≡ q = some_inj (rw (done, power_from) at h) in
      (omega arith, omega (arith, leb→le n p done), inl (sym e))
  | inr more ↦
      let (low, cover, tight) =
        power_from_bounds left (2 * p) n q (omega arith) (rw (more, power_from) at h) in
      (omega arith, cover, half n p q more tight)
]
  where
    half : (n p q : ℕ) → leb n p ≡ false → (q ≡ 2 * p) ⊎ (q < 2 * n) → (q ≡ p) ⊎ (q < 2 * n)
    half n p q more (inl e) = inr (ground arith)
    half n p q more (inr lt) = inr lt

-- A bucket of at most half a machine word holds all the characters of its input, and is less than twice as long.
pub length_bucket_lem :
    (input : TranslationInput)
    → 2 * (batch_key input).length_bucket ≤ usize_max
    → (length input.text ≤ (batch_key input).length_bucket)
      × ((batch_key input).length_bucket < 2 * max (length input.text) 1)
unfolding batch_key checked_next_power_of_two
length_bucket_lem input small = by_power (power_from 64 1 (max (length input.text) 1)) refl small
  where
    by_power :
        (o : Option ℕ)
        → power_from 64 1 (max (length input.text) 1) ≡ o
        → 2 * unwrap_or usize_max o ≤ usize_max
        → (length input.text ≤ unwrap_or usize_max o)
          × (unwrap_or usize_max o < 2 * max (length input.text) 1)
    by_power none e h = absurd (omega (arith, h))
    by_power (some q) e h =
        let (low, cover, tight) =
          power_from_bounds 64 1 (max (length input.text) 1) q (omega arith) e in
        (omega arith, omega arith)
