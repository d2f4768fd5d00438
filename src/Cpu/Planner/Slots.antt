-- ===== src/Cpu/Planner/Slots.antt =====
-- The invariant of a slot: the segments that have no text yet are those of the work that is left.
use marian_edge.Common.{
  Ensures-mono, Ensures-option, Ensures-if, ltb, ℕ, zero, suc, ◌+◌, ◌-◌, ◌≤◌, ◌≡◌, refl, sym, ap,
  ◌∙◌, subst, true, List, [], ◌∷◌, map, Option, none, some, some_inj, Option-cases, inl, inr,
  length, get_elem?, set, drop, drop-get_elem?, get_elem?-bound, All, Ensures, Ensures-or_crash,
  Ensures-bind, arith,
}
use marian_edge.Text.{Text}
use marian_edge.Cpu.{maximum_source_tokens}
use marian_edge.Cpu.Planner.{PlannedOutput, SegmentWork, Slot, put_text, drain}

-- The indices, counted from `o`, of the segments without a text.
abbrev pub pending : ℕ → List PlannedOutput → List ℕ
pending o [] = []
pending o (x ∷ xs) = elim x.translated [
  | none ↦ o ∷ pending (suc o) xs
  | some t ↦ pending (suc o) xs
]

abbrev pub output_sum : List PlannedOutput → ℕ
output_sum [] = 0
output_sum (x ∷ xs) = x.output_tokens + output_sum xs

abbrev pub gaps_of : List PlannedOutput → List Text
gaps_of segments = map (λ s. s.separator_text) segments

abbrev pub indices : List SegmentWork → List ℕ
indices work = map (λ w. w.segment_index) work

-- A segment of input `index` that an engine's batch can hold by itself.
abbrev pub IsWorkOf : ℕ → SegmentWork → Type 0
IsWorkOf index w = (w.input_index ≡ index) × (length w.tokens ≤ maximum_source_tokens)

pub record IsSlot (index : ℕ) (gaps : List Text) (budget : ℕ) (slot : Slot) : Type 0 where
  pub left : pending 0 slot.segments ≡ indices (drop slot.position slot.work)
  pub in_work : slot.position ≤ length slot.work
  pub owned : All (IsWorkOf index) slot.work
  pub gaps_kept : gaps_of slot.segments ≡ gaps
  pub within : output_sum slot.segments + slot.remaining ≤ budget

-- The first segment without a text.
pending-head :
    (o k : ℕ) (xs : List PlannedOutput) (ks : List ℕ)
    → pending o xs ≡ k ∷ ks
    → (j : ℕ) × (x : PlannedOutput) × (o + j ≡ k)
      × (get_elem? xs j ≡ some x)
      × (x.translated ≡ none)
      × ((y : PlannedOutput) (t : Text) → y.translated ≡ some t → pending o (set xs j y) ≡ ks)
pending-head o k [] ks h = absurd cc
pending-head o k (x ∷ xs) ks h = elim (Option-cases x.translated) [
  | inl e ↦
      let h' = subst Starts e h in
      (zero, x, omega (arith, same_head h'), refl, e, λ y t ey. rw ey (same_tail h'))
  | inr (u, e) ↦
      let (j, x', at, found, open_x, put) = pending-head (suc o) k xs ks (subst Starts e h) in
      (suc j, x', omega (arith, at), found, open_x, λ y t ey. rw e (put y t ey))
]
  where
    Starts : Option Text → Type 0
    Starts t = elim t [ none ↦ o ∷ pending (suc o) xs | some u ↦ pending (suc o) xs ] ≡ k ∷ ks

    same_head : {a b : ℕ} {xs ys : List ℕ} → a ∷ xs ≡ b ∷ ys → a ≡ b
    same_head e = cc

    same_tail : {a b : ℕ} {xs ys : List ℕ} → a ∷ xs ≡ b ∷ ys → xs ≡ ys
    same_tail e = cc

gaps_of-set :
    (xs : List PlannedOutput) (j : ℕ) (x y : PlannedOutput)
    → get_elem? xs j ≡ some x
    → y.separator_text ≡ x.separator_text
    → gaps_of (set xs j y) ≡ gaps_of xs
gaps_of-set [] j x y h e = refl
gaps_of-set (z ∷ xs) zero x y h e =
    ap (λ t. t ∷ gaps_of xs) (e ∙ ap (λ p. p.separator_text) (sym (some_inj h)))
gaps_of-set (z ∷ xs) (suc j) x y h e = ap (λ ts. z.separator_text ∷ ts) (gaps_of-set xs j x y h e)

output_sum-set :
    (xs : List PlannedOutput) (j : ℕ) (x y : PlannedOutput)
    → get_elem? xs j ≡ some x
    → output_sum (set xs j y) + x.output_tokens ≡ output_sum xs + y.output_tokens
output_sum-set [] j x y h = absurd cc
output_sum-set (z ∷ xs) zero x y h =
    let e = ap (λ p. p.output_tokens) (some_inj h) in omega (arith, e)
output_sum-set (z ∷ xs) (suc j) x y h = omega (arith, output_sum-set xs j x y h)

-- A segment of the work that is left gets its text: the invariant holds again, one segment further on.
pub put_text-IsSlot :
    (index : ℕ) (gaps : List Text) (budget : ℕ) (slot : Slot) (w : SegmentWork) (remaining : ℕ)
    (text : Text) (out : PlannedOutput → ℕ)
    → IsSlot index gaps budget slot
    → get_elem? slot.work slot.position ≡ some w
    → ((d : PlannedOutput) → out d + remaining ≤ d.output_tokens + slot.remaining)
    → Ensures
        (λ s. IsSlot index gaps budget s × (s.position ≡ slot.position + 1) × (s.work ≡ slot.work))
        (put_text (record slot { remaining = remaining }) w.segment_index text out)
unfolding put_text
put_text-IsSlot index gaps budget slot w remaining text out v at spend =
    let (j, x, e, found, open_x, put) =
      pending-head 0 w.segment_index slot.segments _
        (v.left ∙ ap indices (drop-get_elem? slot.work slot.position w at)) in
    let found' = subst (λ k. get_elem? slot.segments k ≡ some x) (zero_left j ∙ e) found in
    let x' = record x { translated = some text; output_tokens = out x } in
    Ensures-or_crash Kept (get_elem? slot.segments w.segment_index) x _ found' (
      rw open_x (
        record {
          left =
              subst
                (λ k.
                  pending 0 (set slot.segments k x') ≡ indices (drop (suc slot.position) slot.work))
                (zero_left j ∙ e) (put x' text refl)
              ∙ next_work;
          in_work = omega (arith, get_elem?-bound slot.work slot.position w at);
          owned = v.owned;
          gaps_kept = gaps_of-set slot.segments w.segment_index x x' found' refl ∙ v.gaps_kept;
          within =
              omega (
                arith,
                output_sum-set slot.segments w.segment_index x x' found',
                spend x,
                v.within,
              );
        },
        refl,
        refl,
      ))
  where
    Kept : Slot → Type 0
    Kept s = IsSlot index gaps budget s × (s.position ≡ slot.position + 1) × (s.work ≡ slot.work)

    next_work :
        indices (drop (suc slot.position) slot.work) ≡ indices (drop (slot.position + 1) slot.work)
    next_work = ap (λ n. indices (drop n slot.work)) (one slot.position)
      where
        one : (n : ℕ) → suc n ≡ n + 1
        one n = omega arith

    zero_left : (j : ℕ) → j ≡ 0 + j
    zero_left j = omega arith

-- Draining a slot with enough fuel leaves nothing to translate.
pub drain-IsSlot :
    (fuel index : ℕ) (gaps : List Text) (budget : ℕ) (slot : Slot)
    → IsSlot index gaps budget slot
    → length slot.work ≤ slot.position + fuel
    → Ensures
        (λ s.
          IsSlot index gaps budget s
          × (length s.work - s.position ≤ length slot.work - slot.position))
        (drain fuel slot)
unfolding drain
drain-IsSlot zero index gaps budget slot v enough =
    Ensures-if (Drained slot) (ltb slot.position (length slot.work)) _ _
      (λ more. absurd (over more)) (λ _. (v, omega arith))
  where
    Drained : Slot → Slot → Type 0
    Drained slot s =
        IsSlot index gaps budget s × (length s.work - s.position ≤ length slot.work - slot.position)

    over : ltb slot.position (length slot.work) ≡ true → ⊥
    over h = ground (arith, enough)
drain-IsSlot (suc fuel) index gaps budget slot v enough =
    Ensures-option Drained (get_elem? slot.work slot.position) _ _
      (λ w at.
        Ensures-bind Kept Drained (put_text slot w.segment_index [] (λ d. d.output_tokens))
          (drain fuel)
          (put_text-IsSlot index gaps budget slot w slot.remaining [] (λ d. d.output_tokens) v at
            (λ d. omega arith))
          λ s (v', moved, same).
            Ensures-mono (Before s) Drained (drain fuel s)
              (drain-IsSlot fuel index gaps budget s v'
                (omega (arith, moved, ap length same, enough)))
              λ r (v'', less). (v'', omega (arith, less, moved, ap length same)))
      (λ _. (v, omega arith))
  where
    Before : Slot → Slot → Type 0
    Before slot s =
        IsSlot index gaps budget s × (length s.work - s.position ≤ length slot.work - slot.position)

    Drained : Slot → Type 0
    Drained = Before slot

    Kept : Slot → Type 0
    Kept s = IsSlot index gaps budget s × (s.position ≡ slot.position + 1) × (s.work ≡ slot.work)
