-- ===== src/Text/Slices.antt =====
-- Slices of a text at boundaries: they exist, and neighbouring slices join to one.
use marian_edge.Common.{
  subst, ℕ, zero, suc, ◌+◌, ◌-◌, ◌≤◌, ◌≡◌, refl, sym, ap, ◌∙◌, true, false, [], ◌∷◌, ◌++◌, Option,
  none, some, arith, Bool-cases, Option-cases, inl, inr, leb, le→leb, leb→le,
}
use marian_edge.Text.{
  Text, len_utf8, byte_length, scalar_at, first, slice_from, slice_to, slice, is_char_boundary,
  prepend, to_length,
}
use marian_edge.Text.Boundary.{IsBoundary, len_utf8_bounds, IsBoundary-tail}

pub slice_from_zero : (s : Text) → slice_from s 0 ≡ some s
unfolding slice_from
slice_from_zero s = refl

slice_to_zero : (s : Text) → slice_to s 0 ≡ some []
unfolding slice_to
slice_to_zero s = refl

prepend-some :
    (c : ℕ) (o : Option Text) (t : Text)
    → prepend c o ≡ some t
    → (t' : Text) × (o ≡ some t') × (t ≡ c ∷ t')
prepend-some c none t e = absurd (cc)
prepend-some c (some t') t e = (t', refl, cc)

-- The clauses of the two slices behind the first scalar.
slice_from_step :
    (c : ℕ) (s : Text) (n : ℕ)
    → len_utf8 c ≤ suc n
    → slice_from (c ∷ s) (suc n) ≡ slice_from s (suc n - len_utf8 c)
unfolding slice_from
slice_from_step c s n h = rw (le→leb _ _ h)

slice_to_step :
    (c : ℕ) (s : Text) (n : ℕ)
    → len_utf8 c ≤ suc n
    → slice_to (c ∷ s) (suc n) ≡ prepend c (slice_to s (suc n - len_utf8 c))
unfolding slice_to
slice_to_step c s n h = rw (le→leb _ _ h)

slice_from-some :
    (c : ℕ) (s : Text) (n : ℕ) {r : Text}
    → slice_from (c ∷ s) (suc n) ≡ some r
    → (len_utf8 c ≤ suc n) × (slice_from s (suc n - len_utf8 c) ≡ some r)
unfolding slice_from
slice_from-some c s n h = elim (Bool-cases (leb (len_utf8 c) (suc n))) [
  | inl e ↦ (leb→le _ _ e, rw e at h)
  | inr e ↦ let bad : none ≡ some _ = rw e at h in absurd (cc)
]

slice_from_add :
    (s : Text) (a n : ℕ) (r : Text)
    → slice_from s a ≡ some r
    → slice_from s (a + n) ≡ slice_from r n
slice_from_add s zero n r h =
    let z : 0 + n ≡ n = omega arith in let e : s ≡ r = cc (slice_from_zero s) in rw (z, e)
slice_from_add [] (suc a) n r h = unfold slice_from in cc
slice_from_add (c ∷ s) (suc a) n r h =
    let z : suc a + n ≡ suc (a + n) = omega arith in
    let (le, k) = slice_from-some c s a h in
    let y : suc (a + n) - len_utf8 c ≡ suc a - len_utf8 c + n = omega arith in
    rw (z, slice_from_step c s (a + n) (omega arith), y)
      (slice_from_add s (suc a - len_utf8 c) n r k)

slice_to_append :
    (s : Text) (n m : ℕ) (t u r : Text)
    → slice_to s n ≡ some t
    → slice_from s n ≡ some r
    → slice_to r m ≡ some u
    → slice_to s (n + m) ≡ some (t ++ u)
slice_to_append s zero m t u r h k l =
    let z : 0 + m ≡ m = omega arith in
    let e : s ≡ r = cc (slice_from_zero s) in
    let d : [] ≡ t = cc (slice_to_zero s) in rw (z, e, ← d) l
slice_to_append [] (suc n) m t u r h k l = unfold slice_to in cc
slice_to_append (c ∷ s) (suc n) m t u r h k l =
    let z : suc n + m ≡ suc (n + m) = omega arith in
    let (le, k') = slice_from-some c s n k in
    let y : suc (n + m) - len_utf8 c ≡ suc n - len_utf8 c + m = omega arith in
    let (t', p, q) = prepend-some c _ t (rw (slice_to_step c s n le) at h) in
    let ih : slice_to s (suc n - len_utf8 c + m) ≡ some (t' ++ u) =
      slice_to_append s (suc n - len_utf8 c) m t' u r p k' l in
    let step : slice_to (c ∷ s) (suc (n + m)) ≡ some (c ∷ (t' ++ u)) =
      rw (slice_to_step c s (n + m) (omega (arith, le)), y, ih) in
    rw (z, q) step

pub slice_to_total : (s : Text) (n : ℕ) → IsBoundary s n → (t : Text) × (slice_to s n ≡ some t)
slice_to_total s zero h = ([], unfold slice_to in refl)
slice_to_total [] (suc n) h = unfold is_char_boundary slice_from in absurd (cc)
slice_to_total (c ∷ s) (suc n) h =
    let (le, b) = IsBoundary-tail c s n h in
    let (t, e) = slice_to_total s (suc n - len_utf8 c) b in (c ∷ t, rw (slice_to_step c s n le, e))

pub slice_from_total : (s : Text) (n : ℕ) → IsBoundary s n → (r : Text) × (slice_from s n ≡ some r)
unfolding is_char_boundary
slice_from_total s n h = elim (Option-cases (slice_from s n)) [
  | inl e ↦ let bad : false ≡ true = rw e at h in absurd (cc)
  | inr (r, e) ↦ (r, e)
]

slice_parts :
    (s : Text) (a b : ℕ) (r : Text)
    → a ≤ b
    → slice_from s a ≡ some r
    → slice s a b ≡ slice_to r (b - a)
unfolding slice
slice_parts s a b r h e = rw (le→leb _ _ h, e)

rest-IsBoundary :
    (s : Text) (a b : ℕ) (r : Text)
    → a ≤ b
    → slice_from s a ≡ some r
    → IsBoundary s b
    → IsBoundary r (b - a)
unfolding is_char_boundary
rest-IsBoundary s a b r h e k =
    let z : a + (b - a) ≡ b = omega arith in rw (← slice_from_add s a (b - a) r e, z) k

-- Between two boundaries in order the slice exists.
pub slice_total :
    (s : Text) (a b : ℕ)
    → IsBoundary s a
    → IsBoundary s b
    → a ≤ b
    → (t : Text) × (slice s a b ≡ some t)
slice_total s a b ha hb h =
    let (r, e) = slice_from_total s a ha in
    let (t, k) = slice_to_total r (b - a) (rest-IsBoundary s a b r h e hb) in
    (t, slice_parts s a b r h e ∙ k)

slice_from_of :
    (s : Text) (a b : ℕ) {t : Text}
    → slice s a b ≡ some t
    → (r : Text) × (a ≤ b) × (slice_from s a ≡ some r) × (slice_to r (b - a) ≡ some t)
unfolding slice
slice_from_of s a b {t} h = elim (Bool-cases (leb a b)) [
  | inl e ↦ found (slice_from s a) refl (leb→le _ _ e) (rw e at h)
  | inr e ↦ let bad : none ≡ some t = rw e at h in absurd (cc)
]
  where
    found :
        (o : Option Text)
        → slice_from s a ≡ o
        → a ≤ b
        → to_length (b - a) (slice_from s a) ≡ some t
        → (r : Text) × (a ≤ b) × (slice_from s a ≡ some r) × (slice_to r (b - a) ≡ some t)
    found none e le k = absurd (cc)
    found (some r) e le k = (r, le, e, rw e at k)

-- Neighbouring slices join.
pub slice_append :
    (s : Text) (a b c : ℕ) {t u : Text}
    → slice s a b ≡ some t
    → slice s b c ≡ some u
    → slice s a c ≡ some (t ++ u)
slice_append s a b c {t} {u} h k =
    let (r, le, e, p) = slice_from_of s a b h in
    let (r', le', e', p') = slice_from_of s b c k in
    let z : a + (b - a) ≡ b = omega arith in
    let y : c - a ≡ b - a + (c - b) = omega arith in
    let f : slice_from r (b - a) ≡ some r' =
      sym (slice_from_add s a (b - a) r e) ∙ ap (slice_from s) z ∙ e' in
    rw (slice_parts s a c r (omega arith) e, y) (slice_to_append r (b - a) (c - b) t u r' p f p')

slice_to_whole : (s : Text) → slice_to s (byte_length s) ≡ some s
unfolding byte_length
slice_to_whole [] = slice_to_zero []
slice_to_whole (c ∷ s) =
    let (low, _) = len_utf8_bounds c in
    let n = len_utf8 c - 1 + byte_length s in
    let z : len_utf8 c + byte_length s ≡ suc n = omega arith in
    let y : suc n - len_utf8 c ≡ byte_length s = omega arith in
    rw (z, slice_to_step c s n (omega arith), y, slice_to_whole s)

pub slice_whole : (s : Text) → slice s 0 (byte_length s) ≡ some s
slice_whole s =
    let z : byte_length s - 0 ≡ byte_length s = omega arith in
    rw (slice_parts s 0 (byte_length s) s (omega arith) (slice_from_zero s), z) (slice_to_whole s)

pub slice_empty : (s : Text) (a : ℕ) → IsBoundary s a → slice s a a ≡ some []
slice_empty s a h =
    let (r, e) = slice_from_total s a h in
    let z : a - a ≡ 0 = omega arith in rw (slice_parts s a a r (omega arith) e, z) (slice_to_zero r)

scalar_at-some :
    (s : Text) (a c : ℕ) → scalar_at s a ≡ some c → (r : Text) × (slice_from s a ≡ some (c ∷ r))
unfolding scalar_at
scalar_at-some s a c h = found (slice_from s a) h
  where
    found : (o : Option Text) → first o ≡ some c → (r : Text) × (o ≡ some (c ∷ r))
    found none e = absurd (cc)
    found (some []) e = absurd (cc)
    found (some (d ∷ r)) e = (r, cc)

-- The scalar at an offset is the slice of its bytes.
pub slice_scalar :
    (s : Text) (a c : ℕ) → scalar_at s a ≡ some c → slice s a (a + len_utf8 c) ≡ some (c ∷ [])
slice_scalar s a c h =
    let (r, e) = scalar_at-some s a c h in
    let (low, _) = len_utf8_bounds c in
    let n = len_utf8 c - 1 in
    let z : a + len_utf8 c - a ≡ suc n = omega arith in
    let y : suc n - len_utf8 c ≡ 0 = omega arith in
    rw (
      slice_parts s a (a + len_utf8 c) (c ∷ r) (omega arith) e,
      z,
      slice_to_step c r n (omega arith),
      y,
      slice_to_zero r,
    )

slice_to-some :
    (d : ℕ) (q : Text) (n : ℕ) {t : Text}
    → slice_to (d ∷ q) (suc n) ≡ some t
    → (len_utf8 d ≤ suc n) × (prepend d (slice_to q (suc n - len_utf8 d)) ≡ some t)
unfolding slice_to
slice_to-some d q n h = elim (Bool-cases (leb (len_utf8 d) (suc n))) [
  | inl e ↦ (leb→le _ _ e, rw e at h)
  | inr e ↦ let bad : none ≡ some _ = rw e at h in absurd (cc)
]

-- A slice that starts with a scalar, taken apart.
pub slice_to_cons :
    (q : Text) (n c : ℕ) (p : Text)
    → slice_to q n ≡ some (c ∷ p)
    → (q' : Text) × (q ≡ c ∷ q') × (len_utf8 c ≤ n) × (slice_to q' (n - len_utf8 c) ≡ some p)
slice_to_cons q zero c p h = absurd (cc (slice_to_zero q))
slice_to_cons [] (suc n) c p h = unfold slice_to in absurd (cc)
slice_to_cons (d ∷ q) (suc n) c p h =
    let (le, k) = slice_to-some d q n h in
    let (t, e, same) = prepend-some d _ (c ∷ p) k in
    let head : d ≡ c = cc in
    let rest : t ≡ p = cc in
    (
      q,
      ap (λ x. x ∷ q) head,
      subst (λ x. len_utf8 x ≤ suc n) head le,
      subst (λ x. slice_to q (suc n - len_utf8 x) ≡ some p) head (e ∙ ap some rest),
    )

pub slice_from_next :
    (s : Text) (a c : ℕ) (q : Text)
    → slice_from s a ≡ some (c ∷ q)
    → slice_from s (a + len_utf8 c) ≡ some q
slice_from_next s a c q h =
    let (low, _) = len_utf8_bounds c in
    let n = len_utf8 c - 1 in
    let z : len_utf8 c ≡ suc n = omega arith in
    let y : suc n - len_utf8 c ≡ 0 = omega arith in
    slice_from_add s a (len_utf8 c) (c ∷ q) h
    ∙ ap (slice_from (c ∷ q)) z
    ∙ rw (slice_from_step c q n (omega arith), y, slice_from_zero q)

pub slice_from-IsBoundary : (s : Text) (a : ℕ) {r : Text} → slice_from s a ≡ some r → IsBoundary s a
unfolding is_char_boundary
slice_from-IsBoundary s a h = rw h
