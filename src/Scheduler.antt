-- ===== src/Scheduler.antt =====
-- crates/marian-core/src/scheduler.rs: the worker that collects requests into batches. The channel is
-- a list of the outcomes of its receives; the backend is a parameter. What a reply channel answers is
-- fixed in each job: whether the receiver is closed when the job heads a batch, whether it is closed when the
-- job is received for a batch of others, whether it is closed when the result is there, and whether the send
-- succeeds.
pub mod Collect
pub mod Padding
pub mod Coalesce
pub mod Round
pub mod Admission
pub mod Pool
pub mod Capacity
pub mod Tests
use marian_edge.Common.{
  ℕ, zero, suc, ◌+◌, ◌-◌, ◌*◌, ◌/◌, ◌%◌, ◌^◌, min, max, Bool, true, false, not, ◌&&◌, ◌||◌, List,
  [], ◌∷◌, ◌++◌, map, Option, none, some, leb, ltb, ◌==◌, if◌then◌else◌, length, set, get_elem?,
  Outcome, ok, err, fail_if, ◌>>=◌, ◌>>◌,
}
use marian_edge.Translation.{
  TranslationInput, BackendError, invalid_input, BatchKey, batch_key, key_eq, input_eq,
}

abbrev pub max_batch_limit : ℕ
max_batch_limit = 256

pub record SchedulerConfig : Type 0 where
  pub queue_capacity : ℕ
  pub max_batch_size : ℕ
  pub max_padded_source_chars : ℕ

-- The counters and gauges; each is a machine word.
pub record SchedulerStats : Type 0 where
  pub accepted : ℕ
  pub completed : ℕ
  pub failed : ℕ
  pub timed_out : ℕ
  pub rejected : ℕ
  pub batches : ℕ
  pub batch_items : ℕ
  pub queue_depth : ℕ
  pub in_flight : ℕ
  pub largest_batch : ℕ

-- `fetch_add` and `fetch_sub` wrap around.
abbrev pub fetch_add : ℕ → ℕ → ℕ
fetch_add a n = (a + n) % 2 ^ 64

abbrev pub fetch_sub : ℕ → ℕ → ℕ
fetch_sub a n = (a + 2 ^ 64 - n) % 2 ^ 64

-- `id` names the reply channel.
pub record Job : Type 0 where
  pub id : ℕ
  pub input : TranslationInput
  pub closed_at_head : Bool
  pub closed_when_taken : Bool
  pub closed_when_done : Bool
  pub send_succeeds : Bool

pub data Command : Type 0 where
  translate : Job → Command
  shutdown : ℕ → Command

-- `rx.recv_timeout(…)`, or the test of the deadline in front of it.
pub data Receive : Type 0 where
  received : Command → Receive
  timed_out disconnected : Receive

unfoldable pub validate_config : SchedulerConfig → Outcome BackendError (Unit {0})
validate_config config = do
  fail_if
      (config.queue_capacity == 0
        || config.max_batch_size == 0
        || config.max_padded_source_chars == 0)
      invalid_input
  fail_if (ltb max_batch_limit config.max_batch_size) invalid_input
  ok tt

-- The queue capacity of worker `index` in `start_pool`.
unfoldable pub worker_capacity : ℕ → ℕ → ℕ → ℕ
worker_capacity queue_capacity worker_count index =
    queue_capacity / worker_count + (if ltb index (queue_capacity % worker_count) then 1 else 0)

unfoldable pub batch_limit : SchedulerConfig → ℕ → ℕ
batch_limit config bucket =
    min config.max_batch_size (max (config.max_padded_source_chars / bucket) 1)

-- The variables of the loop that fills a batch, and the receives that are left.
pub record Collecting : Type 0 where
  pub jobs : List Job
  pub deferred : List Command
  pub queue_depth : ℕ
  pub receives : List Receive

pub data Flow : Type 0 where
  continue : Collecting → Flow
  stop : Collecting → Flow

collect_job : BatchKey → Collecting → Job → Flow
unfolding key_eq batch_key
collect_job key s job =
    if job.closed_when_taken
    then continue (record s { queue_depth = fetch_sub s.queue_depth 1 })
    else if key_eq (batch_key job.input) key
    then continue (record s { jobs = s.jobs ++ job ∷ []; queue_depth = fetch_sub s.queue_depth 1 })
    else stop (record s { deferred = s.deferred ++ translate job ∷ [] })

collect_receive : BatchKey → Collecting → Receive → Flow
unfolding collect_job
collect_receive key s (received (translate job)) = collect_job key s job
collect_receive key s (received (shutdown done)) =
    stop (record s { deferred = shutdown done ∷ s.deferred })
collect_receive key s timed_out = stop s
collect_receive key s disconnected = stop s

-- `while jobs.len() < batch_limit { … }`; where the receives end, so does the wait.
unfoldable pub collect : BatchKey → ℕ → List Job → List Command → ℕ → List Receive → Collecting
unfolding collect_receive
collect key limit jobs deferred depth [] = record {
  jobs = jobs;
  deferred = deferred;
  queue_depth = depth;
  receives = [];
}
collect key limit jobs deferred depth (event ∷ rest) =
    let s : Collecting = record {
      jobs = jobs;
      deferred = deferred;
      queue_depth = depth;
      receives = rest;
    } in
    elim (ltb (length jobs) limit) [
      | false ↦ record {
        jobs = jobs;
        deferred = deferred;
        queue_depth = depth;
        receives = event ∷ rest;
      }
      | true ↦ elim (collect_receive key s event) [
        | continue s' ↦ collect key limit s'.jobs s'.deferred s'.queue_depth rest
        | stop s' ↦ s'
      ]
    ]

-- The maps that merge equal inputs of a batch.
pub record Coalesced : Type 0 where
  pub unique_inputs : List TranslationInput
  pub repetitions : List ℕ
  pub output_indices : List ℕ

-- `unique_by_input.get(&input)`: the map holds each unique input with its position.
find_input : TranslationInput → ℕ → List TranslationInput → Option ℕ
unfolding input_eq
find_input input at [] = none
find_input input at (u ∷ us) = if input_eq u input then some at else find_input input (at + 1) us

bump : List ℕ → ℕ → List ℕ
bump [] i = []
bump (n ∷ ns) zero = (n + 1) ∷ ns
bump (n ∷ ns) (suc i) = n ∷ bump ns i

coalesce_job : Coalesced → Job → Coalesced
unfolding find_input bump
coalesce_job c job = elim (find_input job.input 0 c.unique_inputs) [
  | some index ↦ record {
    unique_inputs = c.unique_inputs;
    repetitions = bump c.repetitions index;
    output_indices = c.output_indices ++ index ∷ [];
  }
  | none ↦ record {
    unique_inputs = c.unique_inputs ++ job.input ∷ [];
    repetitions = c.repetitions ++ 1 ∷ [];
    output_indices = c.output_indices ++ length c.unique_inputs ∷ [];
  }
]

coalesce_from : Coalesced → List Job → Coalesced
unfolding coalesce_job
coalesce_from c [] = c
coalesce_from c (job ∷ jobs) = coalesce_from (coalesce_job c job) jobs

unfoldable pub coalesce : List Job → Coalesced
unfolding coalesce_from
coalesce = coalesce_from (record { unique_inputs = []; repetitions = []; output_indices = [] })
