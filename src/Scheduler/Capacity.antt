-- ===== src/Scheduler/Capacity.antt =====
-- How `start_pool` of scheduler.rs divides the queue capacity among the workers.
use marian_edge.Common.{ℕ, zero, suc, ◌+◌, ◌*◌, ◌/◌, ◌%◌, ◌≤◌, ◌≡◌, min, arith, ap, ◌∙◌}
use native.Mathlib.Omega.{div_fact, mod_fact}
use marian_edge.Scheduler.{worker_capacity}

-- The capacities of the first `n` of the workers, added up.
abbrev pub capacity_sum : ℕ → ℕ → ℕ → ℕ
capacity_sum queue_capacity worker_count zero = 0
capacity_sum queue_capacity worker_count (suc n) =
    capacity_sum queue_capacity worker_count n + worker_capacity queue_capacity worker_count n

capacity_sum_lem : (c w n : ℕ) → capacity_sum c w n ≡ n * (c / w) + min n (c % w)
unfolding worker_capacity
capacity_sum_lem c w zero = ground arith
capacity_sum_lem c w (suc n) = ground (arith, capacity_sum_lem c w n)

-- For at least one worker: the queue capacities of the workers add up to the configured capacity.
pub capacity_sum-worker_capacity :
    (queue_capacity worker_count : ℕ)
    → 1 ≤ worker_count
    → capacity_sum queue_capacity worker_count worker_count ≡ queue_capacity
capacity_sum-worker_capacity c zero h = absurd (omega (arith, h))
capacity_sum-worker_capacity c (suc k) h =
    let below = mod_fact c k in
    let parts = div_fact c k in
    capacity_sum_lem c (suc k) (suc k)
    ∙ ap (λ r. suc k * (c / suc k) + r) (min_right (suc k) (c % suc k) (omega (arith, below)))
    ∙ parts
  where
    min_right : (a b : ℕ) → b ≤ a → min a b ≡ b
    min_right a b le = ground arith
