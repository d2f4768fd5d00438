-- ===== src/Scheduler/Collect.antt =====
-- How a batch of scheduler.rs fills: what its jobs share, how many there are, and the depth gauge.
use marian_edge.Common.{
  if_cases, ℕ, suc, ◌+◌, ◌^◌, ◌≤◌, ◌<◌, ◌≡◌, refl, ap, List, [], ◌∷◌, ◌++◌, arith, Bool-cases, inl,
  inr, ltb, ltb→lt, length, length-append, All, All-append, subst,
}
use marian_edge.Translation.{BatchKey, batch_key, key_eq}
use marian_edge.Translation.Keys.{key_eq-eq}
use marian_edge.Scheduler.{
  Job, Command, translate, shutdown, Receive, received, timed_out, disconnected, Collecting, Flow,
  continue, stop, collect_job, collect_receive, collect, fetch_sub,
}

-- Translations among the deferred commands, and among the receives to come.
abbrev pub waiting : List Command → ℕ
waiting [] = 0
waiting (translate job ∷ cs) = suc (waiting cs)
waiting (shutdown done ∷ cs) = waiting cs

abbrev pub arriving : List Receive → ℕ
arriving [] = 0
arriving (received (translate job) ∷ rs) = suc (arriving rs)
arriving (received (shutdown done) ∷ rs) = arriving rs
arriving (timed_out ∷ rs) = arriving rs
arriving (disconnected ∷ rs) = arriving rs

abbrev pub HasKey : BatchKey → Job → Type 0
HasKey key job = batch_key job.input ≡ key

-- A batch in the making: its jobs share the key, and it is not too long; the depth gauge counts the
-- translations that are deferred, still to be received, or `later`.
pub record IsBatch (key : BatchKey) (limit later : ℕ) (s : Collecting) : Type 0 where
  pub same_key : All (HasKey key) s.jobs
  pub small : length s.jobs ≤ limit
  pub gauge : s.queue_depth ≡ waiting s.deferred + arriving s.receives + later

waiting-append :
    (cs : List Command) (job : Job) → waiting (cs ++ translate job ∷ []) ≡ suc (waiting cs)
waiting-append [] job = refl
waiting-append (translate j ∷ cs) job = ap suc (waiting-append cs job)
waiting-append (shutdown d ∷ cs) job = waiting-append cs job

-- What one receive leaves, with the deferred commands grown by one at most.
abbrev FlowKeeps : BatchKey → ℕ → ℕ → ℕ → List Receive → Flow → Type 0
FlowKeeps key limit later n rest (continue s) =
    IsBatch key limit later s
    × (length s.deferred ≡ n)
    × (s.receives ≡ rest)
    × (s.queue_depth < 2 ^ 64)
FlowKeeps key limit later n rest (stop s) = IsBatch key limit later s × (length s.deferred ≤ n + 1)

collect_job-Keeps :
    (key : BatchKey) (limit later : ℕ) (s : Collecting) (job : Job)
    → All (HasKey key) s.jobs
    → length s.jobs < limit
    → s.queue_depth ≡ suc (waiting s.deferred + arriving s.receives + later)
    → s.queue_depth < 2 ^ 64
    → FlowKeeps key limit later (length s.deferred) s.receives (collect_job key s job)
unfolding collect_job
collect_job-Keeps key limit later s job same room gauge fits =
    if_cases Keeps job.closed_when_taken _ _
      (λ _.
        (record { same_key = same; small = omega arith; gauge = taken }, refl, refl, omega arith))
      λ _.
        if_cases Keeps (key_eq (batch_key job.input) key) _ _
          (λ match. (
            record {
              same_key = All-append (HasKey key) s.jobs (job ∷ []) same (key_eq-eq _ _ match, tt);
              small = omega (arith, length-append s.jobs (job ∷ []));
              gauge = taken;
            },
            refl,
            refl,
            omega arith,
          ))
          (λ _. (
            record {
              same_key = same;
              small = omega arith;
              gauge = omega (arith, waiting-append s.deferred job);
            },
            omega (arith, length-append s.deferred (translate job ∷ [])),
          ))
  where
    Keeps : Flow → Type 0
    Keeps = FlowKeeps key limit later (length s.deferred) s.receives

    taken : fetch_sub s.queue_depth 1 ≡ waiting s.deferred + arriving s.receives + later
    taken = omega arith

collect_receive-Keeps :
    (key : BatchKey) (limit later : ℕ) (s : Collecting) (event : Receive)
    → All (HasKey key) s.jobs
    → length s.jobs < limit
    → s.queue_depth ≡ waiting s.deferred + arriving (event ∷ s.receives) + later
    → s.queue_depth < 2 ^ 64
    → FlowKeeps key limit later (length s.deferred) s.receives (collect_receive key s event)
unfolding collect_receive
collect_receive-Keeps key limit later s (received (translate job)) same room gauge fits =
    collect_job-Keeps key limit later s job same room (omega arith) fits
collect_receive-Keeps key limit later s (received (shutdown done)) same room gauge fits =
    (record { same_key = same; small = omega arith; gauge = gauge }, omega arith)
collect_receive-Keeps key limit later s timed_out same room gauge fits =
    (record { same_key = same; small = omega arith; gauge = gauge }, omega arith)
collect_receive-Keeps key limit later s disconnected same room gauge fits =
    (record { same_key = same; small = omega arith; gauge = gauge }, omega arith)

-- The whole loop, in the state behind one receive.
abbrev CollectsFrom : BatchKey → ℕ → ℕ → List Receive → Collecting → Type 0
CollectsFrom key limit later rest s =
    let r = collect key limit s.jobs s.deferred s.queue_depth rest in
    IsBatch key limit later r × (length r.deferred ≤ length s.deferred + 1)

collect_flow :
    (key : BatchKey) (limit later n : ℕ) (rest : List Receive) (flow : Flow)
    → FlowKeeps key limit later n rest flow
    → ((s : Collecting)
        → All (HasKey key) s.jobs
        → length s.jobs ≤ limit
        → s.queue_depth ≡ waiting s.deferred + arriving rest + later
        → s.queue_depth < 2 ^ 64
        → CollectsFrom key limit later rest s)
    → let r : Collecting = elim flow [
      | continue s' ↦ collect key limit s'.jobs s'.deferred s'.queue_depth rest
      | stop s' ↦ s'
    ] in
      IsBatch key limit later r × (length r.deferred ≤ n + 1)
collect_flow key limit later n rest (continue s) h loop =
    let r =
      loop s h.0.same_key h.0.small
        (subst (λ x. s.queue_depth ≡ waiting s.deferred + arriving x + later) h.2 h.0.gauge) h.3 in
    (r.0, omega (arith, r.1, h.1))
collect_flow key limit later n rest (stop s) h loop = h

-- A batch starts from jobs with one key, no more than fit, and a depth gauge that is exact and fits a
-- machine word. However the receives go, all its jobs then have that key, they are at most `limit`, the
-- gauge is exact again, and at most one command is added to the deferred ones.
pub collect-IsBatch :
    (key : BatchKey) (limit later : ℕ) (jobs : List Job) (deferred : List Command) (depth : ℕ)
    (receives : List Receive)
    → All (HasKey key) jobs
    → length jobs ≤ limit
    → depth ≡ waiting deferred + arriving receives + later
    → depth < 2 ^ 64
    → IsBatch key limit later (collect key limit jobs deferred depth receives)
      × (length (collect key limit jobs deferred depth receives).deferred ≤ length deferred + 1)
unfolding collect
collect-IsBatch key limit later jobs deferred depth [] same small gauge fits =
    (record { same_key = same; small = small; gauge = gauge }, omega arith)
collect-IsBatch key limit later jobs deferred depth (event ∷ rest) same small gauge fits =
    elim (Bool-cases (ltb (length jobs) limit)) [
      | inr full ↦
          rw (full, collect) (record { same_key = same; small = small; gauge = gauge }, omega arith)
      | inl room ↦
          rw (room, collect)
            (collect_flow key limit later (length deferred) rest (collect_receive key start event)
              (collect_receive-Keeps key limit later start event same (ltb→lt _ _ room) gauge fits)
              λ s. collect-IsBatch key limit later s.jobs s.deferred s.queue_depth rest)
    ]
  where
    start : Collecting
    start = record { jobs = jobs; deferred = deferred; queue_depth = depth; receives = rest }
