-- ===== src/Cpu/Planner/Family.antt =====
-- All slots at once: the invariant at every input, under a write to one slot.
use marian_edge.Common.{
  ℕ, zero, suc, ◌+◌, ◌-◌, ◌≤◌, ◌≡◌, sym, ap, subst, List, [], ◌∷◌, some, some_inj, ◌==◌,
  if◌then◌else◌, length, get_elem?, set, ok, Ensures, Ensures-bind, Ensures-if, arith,
}
use marian_edge.Text.{Text}
use marian_edge.Cpu.Planner.{Slot, drain, drain_spent, work_count}
use marian_edge.Cpu.Planner.Slots.{IsSlot, drain-IsSlot}

-- What is fixed of an input: the separators of its segments, and its budget.
pub record Goal : Type 0 where
  pub gaps : List Text
  pub budget : ℕ

abbrev pub AreSlots : ℕ → List Goal → List Slot → Type 0
AreSlots o [] [] = Unit
AreSlots o [] (s ∷ ss) = ⊥
AreSlots o (g ∷ gs) [] = ⊥
AreSlots o (g ∷ gs) (s ∷ ss) = IsSlot o g.gaps g.budget s × AreSlots (suc o) gs ss

-- The slot at an index, and a write there.
pub AreSlots-set :
    (o : ℕ) (gs : List Goal) (ss : List Slot) (i : ℕ) (s : Slot)
    → AreSlots o gs ss
    → get_elem? ss i ≡ some s
    → (g : Goal) × IsSlot (o + i) g.gaps g.budget s
      × ((s' : Slot)
          → IsSlot (o + i) g.gaps g.budget s'
          → AreSlots o gs (set ss i s')
            × (work_count (set ss i s') + (length s.work - s.position)
                ≡ work_count ss + (length s'.work - s'.position)))
unfolding work_count
AreSlots-set o [] [] i s v h = absurd cc
AreSlots-set o [] (t ∷ ss) i s v h = absurd v
AreSlots-set o (g ∷ gs) [] i s v h = absurd v
AreSlots-set o (g ∷ gs) (t ∷ ss) zero s v h =
    let v' = subst (IsSlot o g.gaps g.budget) (some_inj h) v.0 in
    let same = ap (λ x. length x.work - x.position) (some_inj h) in
    (
      g,
      subst (λ k. IsSlot k g.gaps g.budget s) (right_zero o) v',
      λ s' w. (
        (subst (λ k. IsSlot k g.gaps g.budget s') (sym (right_zero o)) w, v.1),
        omega (arith, same),
      ),
    )
  where
    right_zero : (n : ℕ) → n ≡ n + 0
    right_zero n = omega arith
AreSlots-set o (g ∷ gs) (t ∷ ss) (suc i) s v h =
    let (g', v', put) = AreSlots-set (suc o) gs ss i s v.1 h in
    (
      g',
      subst (λ k. IsSlot k g'.gaps g'.budget s) (shift o i) v',
      λ s' w.
          let (vs, n) = put s' (subst (λ k. IsSlot k g'.gaps g'.budget s') (sym (shift o i)) w) in
          ((v.0, vs), omega (arith, n)),
    )
  where
    shift : (m n : ℕ) → suc m + n ≡ m + suc n
    shift m n = omega arith

-- Draining the inputs whose budget is spent keeps the invariant, and adds no work.
pub drain_spent-AreSlots :
    (o : ℕ) (gs : List Goal) (ss : List Slot)
    → AreSlots o gs ss
    → Ensures (λ r. AreSlots o gs r × (work_count r ≤ work_count ss)) (drain_spent ss)
unfolding drain_spent work_count
drain_spent-AreSlots o [] [] v = (tt, omega arith)
drain_spent-AreSlots o [] (s ∷ ss) v = absurd v
drain_spent-AreSlots o (g ∷ gs) [] v = absurd v
drain_spent-AreSlots o (g ∷ gs) (s ∷ ss) v =
    Ensures-bind One All' (if s.remaining == 0 then drain (length s.work) s else ok s) _
      (Ensures-if One (s.remaining == 0) _ _
        (λ _. drain-IsSlot (length s.work) o g.gaps g.budget s v.0 (omega arith))
        (λ _. (v.0, omega arith)))
      λ s' (v', less).
        Ensures-bind Rest All' (drain_spent ss) _ (drain_spent-AreSlots (suc o) gs ss v.1)
          λ ss' (vs, fewer). ((v', vs), omega (arith, less, fewer))
  where
    One : Slot → Type 0
    One r = IsSlot o g.gaps g.budget r × (length r.work - r.position ≤ length s.work - s.position)

    Rest : List Slot → Type 0
    Rest r = AreSlots (suc o) gs r × (work_count r ≤ work_count ss)

    All' : List Slot → Type 0
    All' r = AreSlots o (g ∷ gs) r × (work_count r ≤ work_count (s ∷ ss))
