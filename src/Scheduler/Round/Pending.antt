-- ===== src/Scheduler/Round/Pending.antt =====
-- What `fail_pending` of scheduler.rs leaves: nothing deferred, every request refused and off the gauge.
use marian_edge.Common.{
  suc, ℕ, ◌+◌, ◌^◌, ◌%◌, ◌≡◌, refl, sym, ap, ◌∙◌, Bool, true, false, List, [], ◌∷◌, ◌++◌, arith,
  append_assoc, append-nil, if◌then◌else◌,
}
use marian_edge.Translation.{inference}
use marian_edge.Scheduler.{Job, Command, translate, shutdown, fetch_sub, fetch_add}
use marian_edge.Scheduler.Collect.{waiting}
use marian_edge.Scheduler.Round.{
  Worker, Reply, refused, refuse, fail_command, fail_commands, try_iter, after_iter, fail_pending,
}

-- The refusals that reach their receivers.
abbrev pub refusals : {O : Type 0} → List Command → List (ℕ × Reply O)
refusals [] = []
refusals (translate job ∷ cs) =
    if job.send_succeeds then (job.id, refused inference) ∷ refusals cs else refusals cs
refusals (shutdown done ∷ cs) = refusals cs

-- One down, and one more to wait for.
one_off :
    (a n d : ℕ) → (a + n) % 2 ^ 64 ≡ fetch_sub d 1 % 2 ^ 64 → (a + suc n) % 2 ^ 64 ≡ d % 2 ^ 64
one_off a n d h = omega (arith, h)

module _ {O : Type 0} where
  -- What a refusal changes: the failures and the log.
  refuse_lem :
      (w : Worker O) (job : Job)
      → ((refuse w job inference).replies ≡ w.replies ++ refusals (translate job ∷ []))
        × ((refuse w job inference).stats.queue_depth ≡ w.stats.queue_depth)
        × ((refuse w job inference).deferred ≡ w.deferred)
  unfolding refuse
  refuse_lem w job = by_send job.send_succeeds
    where
      by_send :
          (b : Bool)
          → let r =
              if b
              then record w {
                stats = record (w.stats) { failed = fetch_add w.stats.failed 1 };
                replies = w.replies ++ (job.id, refused inference) ∷ [];
              }
              else w in
            (r.replies ≡ w.replies ++ (if b then (job.id, refused inference) ∷ [] else []))
            × (r.stats.queue_depth ≡ w.stats.queue_depth)
            × (r.deferred ≡ w.deferred)
      by_send true = (refl, refl, refl)
      by_send false = (sym (append-nil w.replies), refl, refl)

  refusals-cons :
      (c : Command) (cs : List Command)
      → refusals {O = O} (c ∷ cs) ≡ refusals (c ∷ []) ++ refusals cs
  refusals-cons (translate job) cs = by_send job.send_succeeds
    where
      by_send :
          (b : Bool)
          → (if b then (job.id, refused inference) ∷ refusals cs else refusals cs)
            ≡ (if b then (job.id, refused inference) ∷ [] else []) ++ refusals {O = O} cs
      by_send true = refl
      by_send false = refl
  refusals-cons (shutdown done) cs = refl

  -- What is left after a list of commands was failed.
  record AllFailed (cs : List Command) (before after : Worker O) : Type 0 where
    replies : after.replies ≡ before.replies ++ refusals cs
    gauge : (after.stats.queue_depth + waiting cs) % 2 ^ 64 ≡ before.stats.queue_depth % 2 ^ 64
    deferred : after.deferred ≡ before.deferred

  fail_commands-AllFailed : (cs : List Command) (w : Worker O) → AllFailed cs w (fail_commands cs w)
  unfolding fail_commands fail_command
  fail_commands-AllFailed [] w = record {
    replies = sym (append-nil w.replies);
    gauge = omega arith;
    deferred = refl;
  }
  fail_commands-AllFailed (shutdown done ∷ cs) w =
      let ih = fail_commands-AllFailed cs w in
      record { replies = ih.replies; gauge = ih.gauge; deferred = ih.deferred }
  fail_commands-AllFailed (translate job ∷ cs) w =
      let w₁ = record w {
        stats = record (w.stats) { queue_depth = fetch_sub w.stats.queue_depth 1 };
      } in
      let (r, q, d) = refuse_lem w₁ job in
      let ih = fail_commands-AllFailed cs (refuse w₁ job inference) in
      record {
        replies =
            ih.replies
            ∙ ap (λ x. x ++ refusals cs) r
            ∙ append_assoc w.replies (refusals (translate job ∷ [])) (refusals cs)
            ∙ ap (λ x. w.replies ++ x) (sym (refusals-cons (translate job) cs));
        gauge =
            one_off (fail_commands cs (refuse w₁ job inference)).stats.queue_depth (waiting cs)
              w.stats.queue_depth (ih.gauge ∙ ap (λ n. n % 2 ^ 64) q);
        deferred = ih.deferred ∙ d;
      }

  -- `fail_pending` leaves nothing deferred, refuses every request that was deferred or in the channel with
  -- an inference error, in order, where the receiver still listens, and takes each of them off the depth
  -- gauge once, modulo 2^64.
  pub fail_pending_lem :
      (w : Worker O)
      → ((fail_pending w).deferred ≡ [])
        × ((fail_pending w).replies ≡ w.replies ++ refusals (w.deferred ++ try_iter w.receives))
        × (((fail_pending w).stats.queue_depth + waiting (w.deferred ++ try_iter w.receives))
              % 2 ^ 64
            ≡ w.stats.queue_depth % 2 ^ 64)
  unfolding fail_pending
  fail_pending_lem w =
      let v =
        fail_commands-AllFailed (w.deferred ++ try_iter w.receives)
          (record w { deferred = []; receives = after_iter w.receives }) in
      (v.deferred, v.replies, v.gauge)
