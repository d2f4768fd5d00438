-- ===== src/Scheduler/Coalesce.antt =====
-- Merging the equal inputs of a batch in scheduler.rs: which inputs go to the backend, how often each is
-- meant, and which output belongs to which job.
use mathlib.Core.List.{append-nil}
use marian_edge.Common.{
  ℕ, zero, suc, ◌+◌, ◌<◌, ◌≡◌, ◌≢◌, refl, sym, ap, ◌∙◌, true, false, List, [], ◌∷◌, ◌++◌, none,
  some, arith, Bool-cases, Option-cases, inl, inr, length, length-append, get_elem?, All,
  All-append, subst, append_assoc,
}
use marian_edge.Translation.{TranslationInput, input_eq}
use marian_edge.Translation.Keys.{input_eq-eq, input_eq_refl}
use marian_edge.Scheduler.{Job, Coalesced, find_input, bump, coalesce_job, coalesce_from, coalesce}

abbrev pub sum : List ℕ → ℕ
sum [] = 0
sum (n ∷ ns) = n + sum ns

-- Each index names its job's input among the unique ones.
abbrev pub Matches : List TranslationInput → List Job → List ℕ → Type 0
Matches us [] [] = Unit {0}
Matches us [] (i ∷ is) = ⊥
Matches us (job ∷ jobs) [] = ⊥
Matches us (job ∷ jobs) (i ∷ is) = (get_elem? us i ≡ some job.input) × Matches us jobs is

-- No input stands twice.
abbrev pub Distinct : List TranslationInput → Type 0
Distinct [] = Unit {0}
Distinct (u ∷ us) = All (λ v. u ≢ v) us × Distinct us

pub record IsCoalesced (jobs : List Job) (c : Coalesced) : Type 0 where
  pub matches : Matches c.unique_inputs jobs c.output_indices
  pub distinct : Distinct c.unique_inputs
  pub counted : length c.repetitions ≡ length c.unique_inputs
  pub total : sum c.repetitions ≡ length jobs

get_elem?-append :
    (us vs : List TranslationInput) (i : ℕ) {u : TranslationInput}
    → get_elem? us i ≡ some u
    → get_elem? (us ++ vs) i ≡ some u
get_elem?-append [] vs i h = cc
get_elem?-append (w ∷ us) vs zero h = h
get_elem?-append (w ∷ us) vs (suc i) h = get_elem?-append us vs i h

get_elem?_last :
    (us : List TranslationInput) (u : TranslationInput)
    → get_elem? (us ++ u ∷ []) (length us) ≡ some u
get_elem?_last [] u = refl
get_elem?_last (w ∷ us) u = get_elem?_last us u

get_elem?-lt :
    (us : List TranslationInput) (i : ℕ) {u : TranslationInput}
    → get_elem? us i ≡ some u
    → i < length us
get_elem?-lt [] i h = absurd (cc)
get_elem?-lt (w ∷ us) zero h = omega arith
get_elem?-lt (w ∷ us) (suc i) h = omega (arith, get_elem?-lt us i h)

Matches-grow :
    (us vs : List TranslationInput) (jobs : List Job) (is : List ℕ)
    → Matches us jobs is
    → Matches (us ++ vs) jobs is
Matches-grow us vs [] [] h = tt
Matches-grow us vs [] (i ∷ is) h = h
Matches-grow us vs (job ∷ jobs) [] h = h
Matches-grow us vs (job ∷ jobs) (i ∷ is) h =
    (get_elem?-append us vs i h.0, Matches-grow us vs jobs is h.1)

Matches-append :
    (us : List TranslationInput) (jobs : List Job) (is : List ℕ) (job : Job) (i : ℕ)
    → Matches us jobs is
    → get_elem? us i ≡ some job.input
    → Matches us (jobs ++ job ∷ []) (is ++ i ∷ [])
Matches-append us [] [] job i h e = (e, tt)
Matches-append us [] (j ∷ is) job i h e = absurd h
Matches-append us (k ∷ jobs) [] job i h e = absurd h
Matches-append us (k ∷ jobs) (j ∷ is) job i h e = (h.0, Matches-append us jobs is job i h.1 e)

Distinct-append :
    (us : List TranslationInput) (v : TranslationInput)
    → Distinct us
    → All (λ u. u ≢ v) us
    → Distinct (us ++ v ∷ [])
Distinct-append [] v d h = (tt, tt)
Distinct-append (u ∷ us) v d h =
    (All-append (λ w. u ≢ w) us (v ∷ []) d.0 (h.0, tt), Distinct-append us v d.1 h.1)

find_input-some :
    (x : TranslationInput) (at : ℕ) (us : List TranslationInput) (k : ℕ)
    → find_input x at us ≡ some k
    → (m : ℕ) × (k ≡ at + m) × (get_elem? us m ≡ some x)
unfolding find_input
find_input-some x at [] k h = absurd (cc)
find_input-some x at (u ∷ us) k h = elim (Bool-cases (input_eq u x)) [
  | inl hit ↦
      let e : some at ≡ some k = rw (hit, find_input) at h in
      (zero, ground arith, ap some (input_eq-eq u x hit))
  | inr miss ↦
      let (m, e, g) = find_input-some x (at + 1) us k (rw (miss, find_input) at h) in
      (suc m, omega arith, g)
]

find_input-none :
    (x : TranslationInput) (at : ℕ) (us : List TranslationInput)
    → find_input x at us ≡ none
    → All (λ u. u ≢ x) us
unfolding find_input
find_input-none x at [] h = tt
find_input-none x at (u ∷ us) h = elim (Bool-cases (input_eq u x)) [
  | inl hit ↦ let bad : some at ≡ none = rw (hit, find_input) at h in absurd (cc)
  | inr miss ↦ (
    λ e. let bad : true ≡ false = sym (input_eq_refl u) ∙ ap (input_eq u) e ∙ miss in cc,
    find_input-none x (at + 1) us (rw (miss, find_input) at h),
  )
]

length-bump : (ns : List ℕ) (i : ℕ) → length (bump ns i) ≡ length ns
unfolding bump
length-bump [] i = refl
length-bump (n ∷ ns) zero = refl
length-bump (n ∷ ns) (suc i) = ap suc (length-bump ns i)

sum-bump : (ns : List ℕ) (i : ℕ) → i < length ns → sum (bump ns i) ≡ sum ns + 1
unfolding bump
sum-bump [] i h = absurd (omega arith)
sum-bump (n ∷ ns) zero h = omega arith
sum-bump (n ∷ ns) (suc i) h = omega (arith, sum-bump ns i (omega arith))

sum-append : (ns ms : List ℕ) → sum (ns ++ ms) ≡ sum ns + sum ms
sum-append [] ms = omega arith
sum-append (n ∷ ns) ms = omega (arith, sum-append ns ms)

coalesce_job-IsCoalesced :
    (done : List Job) (c : Coalesced) (job : Job)
    → IsCoalesced done c
    → IsCoalesced (done ++ job ∷ []) (coalesce_job c job)
unfolding coalesce_job
coalesce_job-IsCoalesced done c job v =
    elim (Option-cases (find_input job.input 0 c.unique_inputs)) [
      | inl e ↦
          rw (e, coalesce_job)
            (record {
              matches =
                  Matches-append (c.unique_inputs ++ job.input ∷ []) done c.output_indices job
                    (length c.unique_inputs)
                    (Matches-grow c.unique_inputs _ done c.output_indices v.matches)
                    (get_elem?_last c.unique_inputs job.input);
              distinct =
                  Distinct-append c.unique_inputs job.input v.distinct
                    (find_input-none job.input 0 c.unique_inputs e);
              counted = omega (
                arith,
                v.counted,
                length-append c.repetitions (1 ∷ []),
                length-append c.unique_inputs (job.input ∷ []),
              );
              total = omega (
                arith,
                v.total,
                sum-append c.repetitions (1 ∷ []),
                length-append done (job ∷ []),
              );
            })
      | inr (k, e) ↦
          let (m, at, found) = find_input-some job.input 0 c.unique_inputs k e in
          let here : get_elem? c.unique_inputs k ≡ some job.input =
            let z : k ≡ m = omega arith in rw z found in
          rw (e, coalesce_job)
            (record {
              matches = Matches-append c.unique_inputs done c.output_indices job k v.matches here;
              distinct = v.distinct;
              counted = length-bump c.repetitions k ∙ v.counted;
              total = omega (
                arith,
                v.total,
                v.counted,
                sum-bump c.repetitions k
                    (omega (arith, v.counted, get_elem?-lt c.unique_inputs k here)),
                length-append done (job ∷ []),
              );
            })
    ]

coalesce_from-IsCoalesced :
    (jobs done : List Job) (c : Coalesced)
    → IsCoalesced done c
    → IsCoalesced (done ++ jobs) (coalesce_from c jobs)
unfolding coalesce_from
coalesce_from-IsCoalesced [] done c v = subst (λ x. IsCoalesced x c) (sym (append-nil done)) v
coalesce_from-IsCoalesced (job ∷ jobs) done c v =
    subst (λ x. IsCoalesced x (coalesce_from (coalesce_job c job) jobs))
      (append_assoc done (job ∷ []) jobs)
      (coalesce_from-IsCoalesced jobs (done ++ job ∷ []) (coalesce_job c job)
        (coalesce_job-IsCoalesced done c job v))

-- For every batch: the index of each job names its own input among the unique inputs, which are
-- distinct; there is a repetition count for each of them, and the counts add up to the number of jobs.
pub coalesce-IsCoalesced : (jobs : List Job) → IsCoalesced jobs (coalesce jobs)
unfolding coalesce
coalesce-IsCoalesced jobs =
    coalesce_from-IsCoalesced jobs []
      (record { unique_inputs = []; repetitions = []; output_indices = [] })
      (record { matches = tt; distinct = tt; counted = refl; total = refl })
