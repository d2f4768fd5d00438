-- ===== src/Scheduler/Round/Deliver.antt =====
-- Merging equal inputs is invisible: each job is answered as if its own input had been translated.
use marian_edge.Common.{ℕ, zero, suc, ◌≡◌, refl, ap, List, [], ◌∷◌, map, some, get_elem?, some_inj}
use marian_edge.Translation.{TranslationInput}
use marian_edge.Scheduler.{Job, coalesce}
use marian_edge.Scheduler.Coalesce.{Matches, coalesce-IsCoalesced}
use marian_edge.Scheduler.Round.{Worker, answer, deliver}

module _ {O : Type 0} (f : TranslationInput → O) where
  -- Each job in turn answered with the translation of its own input.
  pub answer_each : List Job → Worker O → Worker O
  answer_each [] w = w
  answer_each (job ∷ jobs) w = answer_each jobs (answer w job (f job.input))

  get_elem?-map :
      (us : List TranslationInput) (i : ℕ) {u : TranslationInput}
      → get_elem? us i ≡ some u
      → get_elem? (map f us) i ≡ some (f u)
  get_elem?-map [] i h = cc
  get_elem?-map (v ∷ us) zero h = ap some (ap f (some_inj h))
  get_elem?-map (v ∷ us) (suc i) h = get_elem?-map us i h

  deliver-Matches :
      (us : List TranslationInput) (jobs : List Job) (is : List ℕ) (w : Worker O)
      → Matches us jobs is
      → deliver (map f us) jobs is w ≡ some (answer_each jobs w)
  unfolding deliver answer_each
  deliver-Matches us [] [] w h = refl
  deliver-Matches us [] (i ∷ is) w h = absurd h
  deliver-Matches us (job ∷ jobs) [] w h = absurd h
  deliver-Matches us (job ∷ jobs) (i ∷ is) w h =
      rw (get_elem?-map us i h.0) (deliver-Matches us jobs is (answer w job (f job.input)) h.1)

  -- For every batch and every backend that translates its inputs one by one: the replies to the jobs,
  -- looked up by the merged indices, do not panic, and leave the worker as if every job had been answered
  -- in order with the translation of its own input.
  pub deliver-coalesce :
      (jobs : List Job) (w : Worker O)
      → deliver (map f (coalesce jobs).unique_inputs) jobs (coalesce jobs).output_indices w
        ≡ some (answer_each jobs w)
  deliver-coalesce jobs w =
      deliver-Matches (coalesce jobs).unique_inputs jobs (coalesce jobs).output_indices w
        (coalesce-IsCoalesced jobs).matches
