-- ===== src/Scheduler/Padding.antt =====
-- How large the padded batches of scheduler.rs are: the rows of a batch times the length that they are padded to.
use marian_edge.Common.{
  ℕ, zero, suc, ◌*◌, ◌/◌, ◌≤◌, ◌<◌, ◌≡◌, refl, sym, ap, subst, ◌⊎◌, inl, inr, max, List, [], ◌∷◌,
  arith, if_cases, Bool-cases, ltb, ltb→lt, length, length-append, usize_max, All, All-append,
  All-map,
}
use native.Mathlib.Omega.{div_fact}
use marian_edge.Translation.{BatchKey, batch_key, key_eq}
use marian_edge.Translation.Keys.{key_eq-eq, length_bucket_lem}
use marian_edge.Scheduler.{
  SchedulerConfig, Job, Command, translate, shutdown, Receive, received, timed_out, disconnected,
  Collecting, Flow, continue, stop, collect_job, collect_receive, collect, batch_limit,
}
use marian_edge.Scheduler.Collect.{HasKey}

-- Jobs with one key, no more than the limit.
record IsUniform (key : BatchKey) (limit : ℕ) (jobs : List Job) : Type 0 where
  same_key : All (HasKey key) jobs
  small : length jobs ≤ limit

abbrev jobs_of : Flow → List Job
jobs_of (continue s) = s.jobs
jobs_of (stop s) = s.jobs

module _ (key : BatchKey) (limit : ℕ) where
  collect_job-IsUniform :
      (s : Collecting) (job : Job)
      → IsUniform key limit s.jobs
      → length s.jobs < limit
      → IsUniform key limit (jobs_of (collect_job key s job))
  unfolding collect_job
  collect_job-IsUniform s job v room =
      if_cases Keeps job.closed_when_taken _ _ (λ _. v)
        λ _.
          if_cases Keeps (key_eq (batch_key job.input) key) _ _
            (λ match. record {
              same_key =
                  All-append (HasKey key) s.jobs (job ∷ []) v.same_key (key_eq-eq _ _ match, tt);
              small = omega (arith, length-append s.jobs (job ∷ []));
            })
            (λ _. v)
    where
      Keeps : Flow → Type 0
      Keeps flow = IsUniform key limit (jobs_of flow)

  collect_receive-IsUniform :
      (s : Collecting) (event : Receive)
      → IsUniform key limit s.jobs
      → length s.jobs < limit
      → IsUniform key limit (jobs_of (collect_receive key s event))
  unfolding collect_receive
  collect_receive-IsUniform s (received (translate job)) v room = collect_job-IsUniform s job v room
  collect_receive-IsUniform s (received (shutdown done)) v room = v
  collect_receive-IsUniform s timed_out v room = v
  collect_receive-IsUniform s disconnected v room = v

  collect_flow_lem :
      (rest : List Receive) (flow : Flow)
      → IsUniform key limit (jobs_of flow)
      → ((s : Collecting)
          → IsUniform key limit s.jobs
          → IsUniform key limit (collect key limit s.jobs s.deferred s.queue_depth rest).jobs)
      → let r : Collecting = elim flow [
        | continue s' ↦ collect key limit s'.jobs s'.deferred s'.queue_depth rest
        | stop s' ↦ s'
      ] in
        IsUniform key limit r.jobs
  collect_flow_lem rest (continue s) v loop = loop s v
  collect_flow_lem rest (stop s) v loop = v

  collect-IsUniform :
      (jobs : List Job) (deferred : List Command) (depth : ℕ) (receives : List Receive)
      → IsUniform key limit jobs
      → IsUniform key limit (collect key limit jobs deferred depth receives).jobs
  unfolding collect
  collect-IsUniform jobs deferred depth [] v = v
  collect-IsUniform jobs deferred depth (event ∷ rest) v =
      elim (Bool-cases (ltb (length jobs) limit)) [
        | inr full ↦ rw (full, collect) v
        | inl room ↦
            rw (room, collect)
              (collect_flow_lem rest (collect_receive key start event)
                (collect_receive-IsUniform start event v (ltb→lt _ _ room))
                λ s. collect-IsUniform s.jobs s.deferred s.queue_depth rest)
      ]
    where
      start : Collecting
      start = record { jobs = jobs; deferred = deferred; queue_depth = depth; receives = rest }

-- The text of a job fits in the bucket, and is longer than half of it.
abbrev pub FillsBucket : ℕ → Job → Type 0
FillsBucket bucket job =
    (length job.input.text ≤ bucket) × (bucket < 2 * max (length job.input.text) 1)

-- A batch of at most one job, or one whose rows, all padded to the bucket, are within the budget.
abbrev pub IsPadded : ℕ → ℕ → List Job → Type 0
IsPadded budget bucket jobs =
    (length jobs ≤ 1) ⊎ ((length jobs * bucket ≤ budget) × All (FillsBucket bucket) jobs)

quotient_fits :
    (count bucket budget : ℕ) → count ≤ budget / bucket → 2 ≤ count → count * bucket ≤ budget
quotient_fits count zero budget h many = omega arith
quotient_fits count (suc b) budget h many =
    omega (arith, div_fact budget b, scaled (suc b) count (budget / suc b) h)
  where
    scaled : (w : ℕ) (m n : ℕ) → m ≤ n → m * w ≤ w * n
    scaled zero m n le = omega arith
    scaled (suc w) m n le = omega (arith, scaled w m n le)

twice : (count bucket budget : ℕ) → 2 ≤ count → count * bucket ≤ budget → 2 * bucket ≤ budget
twice count zero budget many h = omega arith
twice (suc (suc n)) (suc b) budget many h = omega (arith, h)
twice (suc zero) (suc b) budget many h = absurd (omega (arith, many))
twice zero (suc b) budget many h = absurd (omega (arith, many))

one :
    (config : SchedulerConfig) (bucket : ℕ)
    → 1 ≤ config.max_batch_size
    → 1 ≤ batch_limit config bucket
unfolding batch_limit
one config bucket h = omega (arith, h)

limited :
    (config : SchedulerConfig) (count bucket : ℕ)
    → count ≤ batch_limit config bucket
    → 2 ≤ count
    → count ≤ config.max_padded_source_chars / bucket
unfolding batch_limit
limited config count bucket le many = omega (arith, le, many)

-- With at least one row allowed and a limit of padded characters that is a machine word, however the receives
-- go: a batch that is collected for a first job has no other job, or its number of jobs times their length
-- bucket is within the limit of padded characters, and each of its texts fits in the bucket and is longer
-- than half of it, an empty text counting as one character.
pub collect-IsPadded :
    (config : SchedulerConfig) (first : Job) (deferred : List Command) (depth : ℕ)
    (receives : List Receive)
    → config.max_padded_source_chars ≤ usize_max
    → 1 ≤ config.max_batch_size
    → let key = batch_key first.input in
      IsPadded config.max_padded_source_chars key.length_bucket
        (collect key
          (batch_limit config key.length_bucket)
          (first ∷ [])
          deferred
          depth
          receives).jobs
collect-IsPadded config first deferred depth receives word some_row =
    let key = batch_key first.input in
    let bucket = key.length_bucket in
    let r = collect key (batch_limit config bucket) (first ∷ []) deferred depth receives in
    by_count r.jobs (
      collect-IsUniform key (batch_limit config bucket) (first ∷ []) deferred depth receives
        (record { same_key = (refl, tt); small = one config bucket some_row }))
  where
    fills :
        (bucket : ℕ)
        → 2 * bucket ≤ usize_max
        → (job : Job) → (batch_key job.input).length_bucket ≡ bucket
        → FillsBucket bucket job
    fills bucket small job e =
        subst (λ b. FillsBucket b job) e
          (length_bucket_lem job.input (subst (λ b. 2 * b ≤ usize_max) (sym e) small))

    by_count :
        (jobs : List Job)
        → IsUniform
            (batch_key first.input)
            (batch_limit config (batch_key first.input).length_bucket)
            jobs
        → IsPadded config.max_padded_source_chars (batch_key first.input).length_bucket jobs
    by_count [] v = inl (omega arith)
    by_count (job ∷ []) v = inl (omega arith)
    by_count (job ∷ next ∷ jobs) v =
        let count = length (job ∷ next ∷ jobs) in
        let bucket = (batch_key first.input).length_bucket in
        let many : 2 ≤ count = omega arith in
        let within : count * bucket ≤ config.max_padded_source_chars =
          quotient_fits count bucket _ (limited config count bucket v.small many) many in
        let small = twice count bucket _ many within in
        inr (
          within,
          All-map {P = HasKey (batch_key first.input)} {Q = FillsBucket bucket}
              (λ j e. fills bucket (omega (arith, small, word)) j (ap (λ k. k.length_bucket) e))
              (job ∷ next ∷ jobs) v.same_key,
        )
