-- ===== src/Scheduler/Tests.antt =====
-- The theorems about the scheduler at small batches.
use marian_edge.Common.{
  none, Ensures, ℕ, ◌+◌, ◌%◌, ◌^◌, ◌≤◌, ◌≡◌, refl, true, false, List, [], ◌∷◌, ◌++◌, some, arith,
  length, map,
}
use marian_edge.Text.{codes}
use marian_edge.Translation.{TranslationInput, batch_key}
use marian_edge.Scheduler.{
  SchedulerConfig, Job, translate, Receive, received, timed_out, SchedulerStats, collect, coalesce,
  batch_limit,
}
use marian_edge.Scheduler.Collect.{waiting, IsBatch, collect-IsBatch}
use marian_edge.Scheduler.Padding.{IsPadded, collect-IsPadded}
use marian_edge.Scheduler.Coalesce.{IsCoalesced, coalesce-IsCoalesced}
use marian_edge.Scheduler.Round.{Worker, deliver, fail_pending, try_iter}
use marian_edge.Scheduler.Round.Deliver.{answer_each, deliver-coalesce}
use marian_edge.Scheduler.Round.Pending.{refusals, fail_pending_lem}
use marian_edge.Scheduler.Admission.{
  apply, System, Send, closing, abandoned, Reach, start, later, Step, Move, init,
}
use marian_edge.Scheduler.Admission.Gauge.{IsAccounted, Reach-IsAccounted}
use marian_edge.Scheduler.Pool.{next_worker, CallResult, done, translate_many}
use marian_edge.Scheduler.Pool.Least.{IsChoice, next_worker-IsChoice}
use marian_edge.Scheduler.Pool.Start.{BackendInfo, started, start_pool, IsPool, start_pool-IsPool}
use marian_edge.Scheduler.Pool.Restore.{AreReplies, translate_many-AreReplies}
use marian_edge.Scheduler.Capacity.{capacity_sum, capacity_sum-worker_capacity}

abbrev hello : TranslationInput
hello = record {
  text = codes "Hello";
  source_lang = codes "en";
  target_lang = codes "zh";
  max_output_tokens = 512;
}

abbrev bye : TranslationInput
bye = record {
  text = codes "Bye";
  source_lang = codes "en";
  target_lang = codes "zh";
  max_output_tokens = 512;
}

abbrev open_job : ℕ → TranslationInput → Job
open_job id input = record {
  id = id;
  input = input;
  closed_at_head = false;
  closed_when_taken = false;
  closed_when_done = false;
  send_succeeds = true;
}

abbrev three_jobs : List Job
three_jobs = open_job 1 hello ∷ open_job 2 bye ∷ open_job 3 hello ∷ []

abbrev incoming : List Receive
incoming =
    received (translate (open_job 3 hello)) ∷ received (translate (open_job 2 bye)) ∷ timed_out ∷ []

abbrev some_stats : SchedulerStats
some_stats = record {
  accepted = 3;
  completed = 0;
  failed = 0;
  timed_out = 0;
  rejected = 0;
  batches = 0;
  batch_items = 0;
  queue_depth = 3;
  in_flight = 0;
  largest_batch = 0;
}

abbrev some_worker : Worker ℕ
some_worker = record {
  receives = incoming;
  deferred = translate (open_job 1 hello) ∷ [];
  stats = some_stats;
  worker_stopped = false;
  replies = [];
  acknowledged = [];
}

collect-IsBatch_example :
    IsBatch
      (batch_key hello)
      8
      1
      (collect (batch_key hello) 8 (open_job 1 hello ∷ []) [] 3 incoming)
    × (length (collect (batch_key hello) 8 (open_job 1 hello ∷ []) [] 3 incoming).deferred ≤ 0 + 1)
collect-IsBatch_example =
    collect-IsBatch (batch_key hello) 8 1 (open_job 1 hello ∷ []) [] 3 incoming (refl, tt)
      (omega arith) refl (omega arith)

coalesce-IsCoalesced_example : IsCoalesced three_jobs (coalesce three_jobs)
coalesce-IsCoalesced_example = coalesce-IsCoalesced three_jobs

abbrev measure : TranslationInput → ℕ
measure input = length input.text

deliver-coalesce_example :
    deliver
      (map measure (coalesce three_jobs).unique_inputs)
      three_jobs
      (coalesce three_jobs).output_indices
      some_worker
    ≡ some (answer_each measure three_jobs some_worker)
deliver-coalesce_example = deliver-coalesce measure three_jobs some_worker

fail_pending_lem_example :
    ((fail_pending some_worker).deferred ≡ [])
    × ((fail_pending some_worker).replies
        ≡ [] ++ refusals (translate (open_job 1 hello) ∷ try_iter incoming))
    × (((fail_pending some_worker).stats.queue_depth
            + waiting (translate (open_job 1 hello) ∷ try_iter incoming))
          % 2 ^ 64
        ≡ 3)
fail_pending_lem_example = fail_pending_lem some_worker

capacity_sum-worker_capacity_example : capacity_sum 10 3 3 ≡ 10
capacity_sum-worker_capacity_example = capacity_sum-worker_capacity 10 3 (omega arith)

-- A call that was cancelled while it waited for room behind the command of a shutdown.
abbrev one_abandoned : System
one_abandoned = record init { queue = closing ∷ []; queue_depth = 1; tasks = abandoned ∷ [] }

one_abandoned-reached : Reach 1 one_abandoned
unfolding apply
one_abandoned-reached =
    later
      (later
        (later
          (later
            (later
              (later (later (later start (Step.send_closing refl (omega arith))) Step.arrive)
                (Step.go 0 refl (Move.see_open refl)))
              (Step.go 0 refl (Move.see_running refl)))
            (Step.go 0 refl Move.show))
          (Step.go 0 refl (Move.probe (Send.no_room refl (omega arith)))))
        (Step.go 0 refl (Move.probe (Send.still_running refl))))
      (Step.go 0 refl Move.cancel_sending)

Reach-IsAccounted_example : IsAccounted 1 one_abandoned
Reach-IsAccounted_example = Reach-IsAccounted one_abandoned-reached

next_worker-IsChoice_example : IsChoice (3 ∷ 1 ∷ 2 ∷ []) 2 (next_worker (3 ∷ 1 ∷ 2 ∷ []) 2)
next_worker-IsChoice_example = next_worker-IsChoice (3 ∷ 1 ∷ 2 ∷ []) 2 (omega arith)

-- A reply that tells the index of its request.
abbrev index_reply : ℕ → TranslationInput → CallResult ℕ
index_reply index input = done index

translate_many-AreReplies_example :
    Ensures
      (AreReplies index_reply 0 (hello ∷ bye ∷ hello ∷ []))
      (translate_many index_reply (hello ∷ bye ∷ hello ∷ []))
translate_many-AreReplies_example = translate_many-AreReplies index_reply (hello ∷ bye ∷ hello ∷ [])

abbrev echo_info : BackendInfo
echo_info = record {
  name = codes "echo";
  device = codes "cpu";
  model_name = codes "none";
  precision = codes "fp32";
  attention = none;
  supports_batching = true;
}

abbrev pool_config : SchedulerConfig
pool_config = record { queue_capacity = 7; max_batch_size = 8; max_padded_source_chars = 100 }

-- Seven places for three workers.
start_pool-IsPool_example :
    Ensures
      (IsPool pool_config 3 (λ index. started echo_info))
      (start_pool pool_config 3 (λ index. started echo_info))
start_pool-IsPool_example = start_pool-IsPool pool_config 3 (λ index. started echo_info)

collect-IsPadded_example :
    IsPadded 100
      (batch_key hello).length_bucket
      (collect
        (batch_key hello)
        (batch_limit pool_config (batch_key hello).length_bucket)
        (open_job 1 hello ∷ [])
        []
        3
        incoming).jobs
collect-IsPadded_example =
    collect-IsPadded pool_config (open_job 1 hello) [] 3 incoming (omega arith) (omega arith)
