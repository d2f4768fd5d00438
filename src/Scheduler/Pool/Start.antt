-- ===== src/Scheduler/Pool/Start.antt =====
-- `start_pool` of scheduler.rs. A worker's thread is what it reports when it has started: the backend's
-- info, the error of the factory, or nothing where the thread is not spawned or ends before it reports.
use marian_edge.Common.{
  ℕ, zero, suc, ◌+◌, ◌*◌, ◌/◌, ◌%◌, ◌≤◌, ◌<◌, ◌≡◌, refl, ap, ◌∙◌, subst, Bool, true, false, not,
  ◌&&◌, ◌||◌, List, [], ◌∷◌, ◌++◌, Option, none, some, ltb, ◌==◌, head?, length, All, All-append,
  Outcome, ok, err, ◌>>=◌, fail_if, or_crash, Ensures, Ensures-bind, Ensures-fail_if, arith,
}
use native.Mathlib.Omega.{div_fact, mod_fact}
use marian_edge.Text.{Text, text_eq}
use marian_edge.Translation.{BackendError, invalid_input, model}
use marian_edge.Scheduler.{max_batch_limit, SchedulerConfig, validate_config, worker_capacity}
use marian_edge.Scheduler.Capacity.{capacity_sum, capacity_sum-worker_capacity}

pub record BackendInfo : Type 0 where
  pub name : Text
  pub device : Text
  pub model_name : Text
  pub precision : Text
  pub attention : Option Text
  pub supports_batching : Bool

abbrev attention_eq : Option Text → Option Text → Bool
attention_eq none none = true
attention_eq none (some b) = false
attention_eq (some a) none = false
attention_eq (some a) (some b) = text_eq a b

abbrev bool_eq : Bool → Bool → Bool
bool_eq true b = b
bool_eq false b = not b

-- The derived `PartialEq`.
unfoldable pub info_eq : BackendInfo → BackendInfo → Bool
unfolding text_eq
info_eq a b =
    (text_eq a.name b.name
      && (text_eq a.device b.device
          && (text_eq a.model_name b.model_name && text_eq a.precision b.precision)))
    && (attention_eq a.attention b.attention && bool_eq a.supports_batching b.supports_batching)

-- What the thread of a worker reports.
pub data StartReport : Type 0 where
  started : BackendInfo → StartReport
  not_started : BackendError → StartReport
  no_report : StartReport

-- The info that `start_worker` goes on with.
unfoldable pub reported : StartReport → Outcome BackendError BackendInfo
reported (started info) = ok info
reported (not_started error) = err error
reported no_report = err model

reported_lem : (r : StartReport) → Ensures (λ _. Unit {0}) (reported r)
unfolding reported
reported_lem (started info) = tt
reported_lem (not_started error) = tt
reported_lem no_report = tt

pub record StartedWorker : Type 0 where
  pub queue_capacity : ℕ
  pub info : BackendInfo

pub record Pool : Type 0 where
  pub workers : List StartedWorker
  pub info : BackendInfo

validate_config_lem : (config : SchedulerConfig) → Ensures (λ _. Unit {0}) (validate_config config)
unfolding validate_config
validate_config_lem config =
    Ensures-fail_if (λ _. Unit {0})
      (config.queue_capacity == 0
        || config.max_batch_size == 0
        || config.max_padded_source_chars == 0)
      invalid_input _
      λ _.
        Ensures-fail_if (λ _. Unit {0}) (ltb max_batch_limit config.max_batch_size) invalid_input _
          λ _. tt

module _ (config : SchedulerConfig) (worker_count : ℕ) (start : ℕ → StartReport) where
  -- The test against the first worker.
  unfoldable pub check_first : Option StartedWorker → BackendInfo → Outcome BackendError (Unit {0})
  unfolding info_eq
  check_first none info = ok tt
  check_first (some first) info = fail_if (not (info_eq info first.info)) model

  unfoldable pub start_workers :
      ℕ → ℕ → List StartedWorker → Outcome BackendError (List StartedWorker)
  unfolding check_first worker_capacity reported
  start_workers zero index workers = ok workers
  start_workers (suc left) index workers = reported (start index) >>= λ info.
      check_first (head? workers) info >>= λ _. start_workers left (suc index) (
        workers
        ++ record {
          queue_capacity = worker_capacity config.queue_capacity worker_count index;
          info = info;
        }
          ∷ [])

  unfoldable pub start_pool : Outcome BackendError Pool
  unfolding validate_config start_workers
  start_pool = validate_config config >>= λ _. fail_if (worker_count == 0) invalid_input >>= λ _.
      fail_if (ltb config.queue_capacity worker_count) invalid_input >>= λ _.
      start_workers worker_count 0 [] >>= λ workers.
      or_crash (head? workers) >>= λ first. ok (record { workers = workers; info = first.info })

  abbrev pub total : List StartedWorker → ℕ
  total [] = 0
  total (w ∷ ws) = w.queue_capacity + total ws

  total-append :
      (ws : List StartedWorker) (w : StartedWorker)
      → total (ws ++ w ∷ []) ≡ total ws + w.queue_capacity
  total-append [] w = omega arith
  total-append (x ∷ ws) w = omega (arith, total-append ws w)

  length-snoc :
      (ws : List StartedWorker) (w : StartedWorker) → length (ws ++ w ∷ []) ≡ suc (length ws)
  length-snoc [] w = refl
  length-snoc (x ∷ ws) w = ap suc (length-snoc ws w)

  -- The workers behind the first are like it.
  abbrev AreLike : List StartedWorker → Type 0
  AreLike [] = Unit
  AreLike (first ∷ ws) = All (λ w. info_eq w.info first.info ≡ true) ws

  record AreWorkers (count : ℕ) (ws : List StartedWorker) : Type 0 where
    counted : length ws ≡ count
    sum : total ws ≡ capacity_sum config.queue_capacity worker_count count
    open_queues : All (λ w. 1 ≤ w.queue_capacity) ws
    alike : AreLike ws

  -- A share of the capacity is not 0.
  share :
      1 ≤ worker_count
      → worker_count ≤ config.queue_capacity
      → (index : ℕ) → 1 ≤ worker_capacity config.queue_capacity worker_count index
  unfolding worker_capacity
  share h k index = omega (arith, by_count worker_count h k)
    where
      by_quotient : (w q r c : ℕ) → w * q + r ≡ c → r < w → w ≤ c → 1 ≤ q
      by_quotient w zero r c e lt le = absurd (omega (arith, e, lt, le))
      by_quotient w (suc q) r c e lt le = omega arith

      by_count : (w : ℕ) → 1 ≤ w → w ≤ config.queue_capacity → 1 ≤ config.queue_capacity / w
      by_count zero h k = absurd (omega (arith, h))
      by_count (suc w) h k =
          by_quotient (suc w) (config.queue_capacity / suc w) (config.queue_capacity % suc w)
            config.queue_capacity (div_fact config.queue_capacity w)
            (mod_fact config.queue_capacity w) k

  check_first_lem :
      (ws : List StartedWorker) (info : BackendInfo) (capacity : ℕ)
      → AreLike ws
      → Ensures
          (λ _. AreLike (ws ++ record { queue_capacity = capacity; info = info } ∷ []))
          (check_first (head? ws) info)
  unfolding check_first
  check_first_lem [] info capacity v = tt
  check_first_lem (first ∷ ws) info capacity v = by_test (info_eq info first.info) refl
    where
      new : StartedWorker
      new = record { queue_capacity = capacity; info = info }

      by_test :
          (b : Bool)
          → info_eq info first.info ≡ b
          → Ensures (λ _. AreLike ((first ∷ ws) ++ new ∷ [])) (fail_if (not b) model)
      by_test true e = All-append (λ w. info_eq w.info first.info ≡ true) ws (new ∷ []) v (e, tt)
      by_test false e = tt

  start_workers_lem :
      1 ≤ worker_count
      → worker_count ≤ config.queue_capacity
      → (left index : ℕ) (ws : List StartedWorker) → AreWorkers index ws
      → Ensures (AreWorkers (left + index)) (start_workers left index ws)
  unfolding start_workers
  start_workers_lem h k zero index ws v = subst (λ n. AreWorkers n ws) (left_zero index) v
    where
      left_zero : (n : ℕ) → n ≡ 0 + n
      left_zero n = omega arith
  start_workers_lem h k (suc left) index ws v =
      Ensures-bind (λ _. Unit {0}) (AreWorkers (suc left + index)) (reported (start index)) _
        (reported_lem (start index))
        λ info _.
          Ensures-bind _ (AreWorkers (suc left + index)) (check_first (head? ws) info) _
            (check_first_lem ws info (worker_capacity config.queue_capacity worker_count index)
              v.alike)
            λ _ alike.
              subst
                (λ n. Ensures (AreWorkers n) (start_workers left (suc index) (ws ++ new info ∷ [])))
                (shift left index)
                (start_workers_lem h k left (suc index) (ws ++ new info ∷ []) (record {
                  counted = length-snoc ws (new info) ∙ ap suc v.counted;
                  sum =
                      total-append ws (new info)
                      ∙ ap (λ n. n + worker_capacity config.queue_capacity worker_count index)
                          v.sum;
                  open_queues =
                      All-append (λ w. 1 ≤ w.queue_capacity) ws (new info ∷ []) v.open_queues
                        (share h k index, tt);
                  alike = alike;
                }))
    where
      new : BackendInfo → StartedWorker
      new info = record {
        queue_capacity = worker_capacity config.queue_capacity worker_count index;
        info = info;
      }

      shift : (m n : ℕ) → m + suc n ≡ suc m + n
      shift m n = omega arith

  -- A pool that has started.
  pub record IsPool (pool : Pool) : Type 0 where
    pub workers_are : length pool.workers ≡ worker_count
    pub some_worker : 1 ≤ worker_count
    pub capacity : total pool.workers ≡ config.queue_capacity
    pub open_queues : All (λ w. 1 ≤ w.queue_capacity) pool.workers
    pub first_info : (w : StartedWorker) × (head? pool.workers ≡ some w) × (w.info ≡ pool.info)
    pub alike : AreLike pool.workers

  -- Whatever the threads report, starting a pool does not panic; a pool that starts has the number of
  -- workers asked for, at least one, whose queues each hold at least one request and together the
  -- configured capacity, and the info of its first worker, which the others have as well.
  pub start_pool-IsPool : Ensures IsPool start_pool
  unfolding start_pool
  start_pool-IsPool =
      Ensures-bind (λ _. Unit {0}) IsPool (validate_config config) _ validated
        λ _ _. Ensures-fail_if IsPool (worker_count == 0) invalid_input _ λ not_none.
          Ensures-fail_if IsPool (ltb config.queue_capacity worker_count) invalid_input _ λ fits.
            Ensures-bind (AreWorkers (worker_count + 0)) IsPool (start_workers worker_count 0 []) _
              (start_workers_lem (positive worker_count not_none)
                (within worker_count config.queue_capacity fits) worker_count 0 []
                (record { counted = refl; sum = refl; open_queues = tt; alike = tt }))
              λ ws v.
                by_workers ws (positive worker_count not_none)
                  (subst (λ n. AreWorkers n ws) (right_zero worker_count) v)
    where
      validated : Ensures (λ _. Unit {0}) (validate_config config)
      validated = validate_config_lem config

      positive : (n : ℕ) → (n == 0) ≡ false → 1 ≤ n
      positive n h = ground (arith, h)

      within : (n c : ℕ) → ltb c n ≡ false → n ≤ c
      within n c h = ground (arith, h)

      right_zero : (n : ℕ) → n + 0 ≡ n
      right_zero n = omega arith

      by_workers :
          (ws : List StartedWorker)
          → 1 ≤ worker_count
          → AreWorkers worker_count ws
          → Ensures {E = BackendError} IsPool
              (or_crash (head? ws) >>= λ first. ok (record { workers = ws; info = first.info }))
      by_workers [] h v = absurd (omega (arith, h, v.counted))
      by_workers (first ∷ ws) h v = record {
        workers_are = v.counted;
        some_worker = h;
        capacity = v.sum ∙ capacity_sum-worker_capacity config.queue_capacity worker_count h;
        open_queues = v.open_queues;
        first_info = (first, refl, refl);
        alike = v.alike;
      }
