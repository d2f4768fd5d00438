-- ===== src/Metal/Tuning/Dispatch.antt =====
-- The choices made at run time stay within what the tuning allows.
use marian_edge.Common.{
  ℕ, ◌*◌, ◌/◌, max, ◌≤◌, ◌≡◌, ◌⊎◌, inl, inr, Bool, Bool-cases, ltb, true, false, arith,
}
use native.Mathlib.Nat.{mul-le-mul, div-add-mod}
use marian_edge.Metal.Tuning.{DecodeTuning, submission_steps}

within_budget : (budget d steps : ℕ) → steps ≤ budget / d → steps * d ≤ budget
within_budget budget d steps h =
    omega (arith, mul-le-mul h (same d), div-add-mod budget d, swap (budget / d) d)
  where
    same : (n : ℕ) → n ≤ n
    same n = omega arith

    swap : (m n : ℕ) → m * n ≡ n * m
    swap m n = omega arith

-- One step, where a completion was observed.
abbrev pub IsSingle : Bool → ℕ → Type 0
IsSingle true steps = steps ≡ 1
IsSingle false steps = Unit

-- Steps for the rows that are active.
pub record AreSteps (tuning : DecodeTuning) (active remaining : ℕ) (observed : Bool) (steps : ℕ)
    : Type 0 where
  pub progress : 1 ≤ steps
  pub left : steps ≤ max remaining 1
  pub capped : steps ≤ max tuning.maximum_steps 1
  pub single : IsSingle observed steps
  pub occupancy : (steps ≡ 1) ⊎ (steps * max active 1 ≤ tuning.row_budget)

-- The number of decode steps submitted at once is at least one, at most the steps that are left and the
-- tuning's maximum (where these are not 0), is one when a completion was observed, and several steps
-- together have no more rows than the row budget.
pub submission_steps-AreSteps :
    (tuning : DecodeTuning) (active remaining : ℕ) (observed : Bool)
    → AreSteps tuning active remaining observed (submission_steps tuning active remaining observed)
unfolding submission_steps
submission_steps-AreSteps tuning active remaining true = record {
  progress = omega arith;
  left = omega arith;
  capped = omega arith;
  single = omega arith;
  occupancy = inl (omega arith);
}
submission_steps-AreSteps tuning active remaining false = record {
  progress = omega arith;
  left = omega arith;
  capped = omega arith;
  single = tt;
  occupancy = elim (Bool-cases (ltb 1 (tuning.row_budget / max active 1))) [
    | inl more ↦ inr (within_budget tuning.row_budget (max active 1) _ (ground (arith, more)))
    | inr one ↦ inl (ground (arith, one))
  ];
}
