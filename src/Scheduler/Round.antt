-- ===== src/Scheduler/Round.antt =====
-- scheduler.rs, the body of `worker_loop` and the replies. `replies` is the log of what was sent, newest
-- last; the backend is the parameter of the section.
pub mod Deliver
pub mod Pending
use marian_edge.Common.{
  ℕ, zero, suc, ◌+◌, max, Bool, true, false, not, List, [], ◌∷◌, ◌++◌, Option, none, some, ◌==◌,
  if◌then◌else◌, length, get_elem?,
}
use marian_edge.Common.Partial.{◌>>=◌}
use marian_edge.Translation.{
  TranslationInput, TranslationOutput, BackendError, inference, batch_key, BatchKey,
}
use marian_edge.Scheduler.{
  SchedulerConfig, SchedulerStats, Job, Command, translate, shutdown, Receive, received, timed_out,
  disconnected, Collecting, collect, batch_limit, Coalesced, coalesce, fetch_add, fetch_sub,
}

-- What is sent over a reply channel.
pub data Reply (O : Type 0) : Type 0 where
  answered : O → Reply O
  refused : BackendError → Reply O

-- What a call of the backend returns.
pub data Inferred (O : Type 0) : Type 0 where
  outputs : List O → Inferred O
  failure : BackendError → Inferred O

pub record Worker (O : Type 0) : Type 0 where
  pub receives : List Receive
  pub deferred : List Command
  pub stats : SchedulerStats
  pub worker_stopped : Bool
  pub replies : List (ℕ × Reply O)
  pub acknowledged : List ℕ

module _ {O : Type 0} where
  -- `if !job.reply.is_closed() { completed += 1; if send(Ok(output)).is_err() { completed -= 1 } }`.
  answer : Worker O → Job → O → Worker O
  answer w job output =
      if job.closed_when_done
      then w
      else if job.send_succeeds
      then record w {
        stats = record (w.stats) { completed = fetch_add w.stats.completed 1 };
        replies = w.replies ++ (job.id, answered output) ∷ [];
      }
      else record w {
        stats = record (w.stats) { completed = fetch_sub (fetch_add w.stats.completed 1) 1 };
      }

  -- `for (job, output_index) in jobs.into_iter().zip(output_indices)`; an index out of range panics.
  pub deliver : List O → List Job → List ℕ → Worker O → Option (Worker O)
  unfolding answer
  deliver results [] is w = some w
  deliver results (job ∷ jobs) [] w = some w
  deliver results (job ∷ jobs) (i ∷ is) w =
      get_elem? results i >>= λ output. deliver results jobs is (answer w job output)

  refuse : Worker O → Job → BackendError → Worker O
  refuse w job error =
      if job.send_succeeds
      then record w {
        stats = record (w.stats) { failed = fetch_add w.stats.failed 1 };
        replies = w.replies ++ (job.id, refused error) ∷ [];
      }
      else w

  pub fail_jobs : List Job → BackendError → Worker O → Worker O
  unfolding refuse
  fail_jobs [] error w = w
  fail_jobs (job ∷ jobs) error w = fail_jobs jobs error (refuse w job error)

  fail_command : Worker O → Command → Worker O
  unfolding refuse
  fail_command w (translate job) =
      refuse
        (record w { stats = record (w.stats) { queue_depth = fetch_sub w.stats.queue_depth 1 } })
        job inference
  fail_command w (shutdown done) = w

  fail_commands : List Command → Worker O → Worker O
  unfolding fail_command
  fail_commands [] w = w
  fail_commands (c ∷ cs) w = fail_commands cs (fail_command w c)

-- `rx.try_iter()`: what is in the channel now, and what comes later.
unfoldable pub try_iter : List Receive → List Command
try_iter [] = []
try_iter (received c ∷ rs) = c ∷ try_iter rs
try_iter (timed_out ∷ rs) = []
try_iter (disconnected ∷ rs) = []

after_iter : List Receive → List Receive
after_iter [] = []
after_iter (received c ∷ rs) = after_iter rs
after_iter (timed_out ∷ rs) = timed_out ∷ rs
after_iter (disconnected ∷ rs) = disconnected ∷ rs

pub fail_pending : {O : Type 0} → Worker O → Worker O
unfolding try_iter after_iter fail_commands
fail_pending w =
    fail_commands (w.deferred ++ try_iter w.receives)
      (record w { deferred = []; receives = after_iter w.receives })

-- The next command from the channel, while the backend is ready or not; `none` ends the worker.
next_receive : Bool → List Receive → Option Command × List Receive
next_receive ready [] = (none, [])
next_receive ready (received c ∷ rs) = (some c, rs)
next_receive ready (disconnected ∷ rs) = (none, disconnected ∷ rs)
next_receive true (timed_out ∷ rs) = next_receive true rs
next_receive false (timed_out ∷ rs) = (none, rs)

-- `deferred.pop_front().or_else(…)`, with the worker that is left.
next_command : {O : Type 0} → Bool → Worker O → List Command → Option Command × Worker O
unfolding next_receive
next_command ready w (c ∷ cs) = (some c, record w { deferred = cs })
next_command ready w [] =
    let r = next_receive ready w.receives in (r.0, record w { receives = r.1 })

pub data Next {ℓ} (A : Type ℓ) : Type ℓ where
  continues : A → Next A
  breaks : A → Next A

module _ {O B : Type 0} (is_ready : B → Bool)
    (infer : B → List TranslationInput → List ℕ → Inferred O × B) where
  -- `match result { … }`.
  settle : Inferred O → Coalesced → List Job → Worker O → Option (Worker O)
  unfolding deliver fail_jobs
  settle (outputs results) c jobs w =
      if length results == length c.unique_inputs
      then deliver results jobs c.output_indices w
      else some (fail_jobs jobs inference w)
  settle (failure error) c jobs w = some (fail_jobs jobs error w)

  abbrev count_batch : SchedulerStats → ℕ → SchedulerStats
  count_batch stats n = record stats {
    batches = fetch_add stats.batches 1;
    batch_items = fetch_add stats.batch_items n;
    in_flight = fetch_add stats.in_flight n;
    largest_batch = max stats.largest_batch n;
  }

  -- From the filled batch on: the backend's call, the replies, and what follows them.
  run_batch : Worker O → B → List Job → Option (Next (Worker O × B))
  unfolding settle fail_pending coalesce
  run_batch w b jobs =
      let c = coalesce jobs in
      let (result, b') = infer b c.unique_inputs c.repetitions in
      let w₁ = record w {
        stats = count_batch w.stats (length jobs);
        worker_stopped = if is_ready b' then w.worker_stopped else true;
      } in
      settle result c jobs w₁ >>= λ w₂.
      let w₃ = record w₂ {
        stats = record (w₂.stats) { in_flight = fetch_sub w₂.stats.in_flight (length jobs) };
      } in
      some (if is_ready b' then continues (w₃, b') else breaks (fail_pending w₃, b'))

  -- A request that heads a batch.
  head_batch : SchedulerConfig → Worker O → B → Job → Option (Next (Worker O × B))
  unfolding run_batch collect batch_limit batch_key
  head_batch config w b first =
      let stats = record (w.stats) { queue_depth = fetch_sub w.stats.queue_depth 1 } in
      if first.closed_at_head
      then some (continues (record w { stats = stats }, b))
      else (let key = batch_key first.input in
          let s =
            collect key (batch_limit config key.length_bucket) (first ∷ []) w.deferred
              stats.queue_depth w.receives in
          run_batch
            (record w {
              receives = s.receives;
              deferred = s.deferred;
              stats = record stats { queue_depth = s.queue_depth };
            })
            b s.jobs)

  on_command : SchedulerConfig → Worker O → B → Option Command → Option (Next (Worker O × B))
  unfolding head_batch
  on_command config w b none =
      some
        (breaks ((if is_ready b then w else fail_pending (record w { worker_stopped = true })), b))
  on_command config w b (some (shutdown done)) =
      let w' = fail_pending w in
      some (breaks (record w' { acknowledged = w'.acknowledged ++ done ∷ [] }, b))
  on_command config w b (some (translate first)) = head_batch config w b first

  -- One round of `worker_loop`.
  pub worker_round : SchedulerConfig → Worker O → B → Option (Next (Worker O × B))
  unfolding on_command next_command
  worker_round config w b =
      let (command, w') = next_command (is_ready b) w w.deferred in on_command config w' b command
