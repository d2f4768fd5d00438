-- ===== src/Scheduler/Admission/Gauge.antt =====
-- The gauge of waiting requests and the count of pending calls, over all interleavings.
use marian_edge.Common.{
  ℕ, zero, suc, ◌+◌, ◌%◌, ◌^◌, ◌≤◌, ◌≡◌, refl, sym, ap, ◌∙◌, List, [], ◌∷◌, ◌++◌, some, some_inj,
  length, get_elem?, set, arith,
}
use marian_edge.Scheduler.{fetch_add, fetch_sub}
use marian_edge.Scheduler.Admission.{
  Phase, starting, checking, admitted, sending, probing, parked, abandoned, refused, rejecting,
  sent, awaiting, late, ending, left, Queued, request, closing, System, Effect, apply, Move, Send,
  requests, after_move, Step, Reach, start, later,
}

-- The calls that have put their request on the gauge, and neither in the channel nor off the gauge.
abbrev pub on_gauge : Phase → ℕ
on_gauge starting = 0
on_gauge checking = 0
on_gauge admitted = 0
on_gauge sending = 1
on_gauge probing = 1
on_gauge parked = 1
on_gauge abandoned = 1
on_gauge (refused e) = 1
on_gauge rejecting = 0
on_gauge sent = 0
on_gauge awaiting = 0
on_gauge late = 0
on_gauge (ending e) = 0
on_gauge (left e) = 0

-- The calls that have neither returned nor been cancelled.
abbrev pub is_live : Phase → ℕ
is_live starting = 1
is_live checking = 1
is_live admitted = 1
is_live sending = 1
is_live probing = 1
is_live parked = 1
is_live abandoned = 0
is_live (refused e) = 1
is_live rejecting = 1
is_live sent = 1
is_live awaiting = 1
is_live late = 1
is_live (ending e) = 1
is_live (left e) = 0

abbrev pub sum_of : (Phase → ℕ) → List Phase → ℕ
sum_of f [] = 0
sum_of f (p ∷ ps) = f p + sum_of f ps

-- One call apart from the others.
apart :
    (f : Phase → ℕ) (ps : List Phase) (i : ℕ) (p : Phase)
    → get_elem? ps i ≡ some p
    → (others : ℕ) × (sum_of f ps ≡ others + f p)
      × ((q : Phase) → sum_of f (set ps i q) ≡ others + f q)
apart f [] i p h = absurd cc
apart f (x ∷ ps) zero p h =
    let e = ap f (some_inj h) in (sum_of f ps, omega (arith, e), λ q. omega arith)
apart f (x ∷ ps) (suc i) p h =
    let (others, e, put) = apart f ps i p h in
    (f x + others, omega (arith, e), λ q. let e' = put q in omega (arith, e'))

sum_of-append :
    (f : Phase → ℕ) (ps : List Phase) (q : Phase) → sum_of f (ps ++ q ∷ []) ≡ sum_of f ps + f q
sum_of-append f [] q = omega arith
sum_of-append f (p ∷ ps) q = omega (arith, sum_of-append f ps q)

requests-append :
    (queue : List Queued) (x : Queued)
    → requests (queue ++ x ∷ []) ≡ requests queue + requests (x ∷ [])
unfolding requests
requests-append [] x = omega arith
requests-append (request ∷ queue) x = omega (arith, requests-append queue x)
requests-append (closing ∷ queue) x = requests-append queue x

length-snoc : (queue : List Queued) (x : Queued) → length (queue ++ x ∷ []) ≡ suc (length queue)
length-snoc [] x = refl
length-snoc (y ∷ queue) x = ap suc (length-snoc queue x)

-- The gauge and the pending count, for numbers of calls; a word wraps around.
record Balanced (capacity : ℕ) (s : System) (on live : ℕ) : Type 0 where
  gauge : s.queue_depth ≡ (on + requests s.queue + s.taken + s.lost) % 2 ^ 64
  calls : s.pending ≡ live % 2 ^ 64
  room : length s.queue ≤ capacity

pub record IsAccounted (capacity : ℕ) (s : System) : Type 0 where
  pub gauge :
      s.queue_depth ≡ (sum_of on_gauge s.tasks + requests s.queue + s.taken + s.lost) % 2 ^ 64
  pub calls : s.pending ≡ sum_of is_live s.tasks % 2 ^ 64
  pub room : length s.queue ≤ capacity

-- Words that go up and down by one.
up : (a b n : ℕ) → a ≡ n % 2 ^ 64 → b ≡ suc n → fetch_add a 1 ≡ b % 2 ^ 64
up a b n h e = omega (arith, h, e)

down : (a b n : ℕ) → a ≡ suc n % 2 ^ 64 → b ≡ n → fetch_sub a 1 ≡ b % 2 ^ 64
down a b n h e = omega (arith, h, e)

one_fewer : (a n : ℕ) → a ≡ (n + 1) % 2 ^ 64 → fetch_sub a 1 ≡ (n + 0) % 2 ^ 64
one_fewer a n h = omega (arith, h)

taken_out : (a b c d : ℕ) → a + 1 + b + c + d ≡ suc (a + 0 + b + c + d)
taken_out a b c d = omega arith

module _ (capacity : ℕ) (s : System) (on live : ℕ) where
  move_lem :
      (p q : Phase) (e : Effect)
      → Move capacity s p e q
      → Balanced capacity s (on + on_gauge p) (live + is_live p)
      → Balanced capacity (apply e s) (on + on_gauge q) (live + is_live q)
  unfolding apply requests
  move_lem p q e (Move.see_closed h) v = v
  move_lem p q e (Move.see_open h) v = v
  move_lem p q e (Move.see_stopped h) v = v
  move_lem p q e (Move.see_running h) v = v
  move_lem p q e Move.show v = record {
    gauge = up s.queue_depth _ _ v.gauge (omega arith);
    calls = v.calls;
    room = v.room;
  }
  move_lem p q e (Move.probe (Send.accept_send c h)) v = record {
    gauge = v.gauge ∙ ap (λ n. n % 2 ^ 64) (omega (arith, requests-append s.queue request));
    calls = v.calls;
    room = omega (arith, length-snoc s.queue request, h);
  }
  move_lem p q e (Move.probe (Send.no_receiver h)) v = v
  move_lem p q e (Move.probe (Send.no_room c h)) v = v
  move_lem p q e (Move.probe (Send.stopped_meanwhile h)) v = v
  move_lem p q e (Move.probe (Send.still_running h)) v = v
  move_lem p q e (Move.probe Send.notified) v = v
  move_lem p q e (Move.probe Send.out_of_time) v = v
  move_lem p q e Move.undo_disconnected v = record {
    gauge = down s.queue_depth _ _ (v.gauge ∙ ap (λ n. n % 2 ^ 64) (taken_out on _ _ _)) refl;
    calls = v.calls;
    room = v.room;
  }
  move_lem p q e Move.undo_full v = record {
    gauge = down s.queue_depth _ _ (v.gauge ∙ ap (λ n. n % 2 ^ 64) (taken_out on _ _ _)) refl;
    calls = v.calls;
    room = v.room;
  }
  move_lem p q e Move.reject v = record { gauge = v.gauge; calls = v.calls; room = v.room }
  move_lem p q e Move.accept v = record { gauge = v.gauge; calls = v.calls; room = v.room }
  move_lem p q e Move.response v = v
  move_lem p q e Move.reply_dropped v = v
  move_lem p q e Move.no_response v = v
  move_lem p q e Move.give_up v = record { gauge = v.gauge; calls = v.calls; room = v.room }
  move_lem p q e Move.cancel_sending v = record {
    gauge = v.gauge;
    calls = one_fewer s.pending live v.calls;
    room = v.room;
  }
  move_lem p q e Move.cancel_waiting v = record {
    gauge = v.gauge;
    calls = one_fewer s.pending live v.calls;
    room = v.room;
  }
  move_lem p q e (Move.leave x) v = record {
    gauge = v.gauge;
    calls = one_fewer s.pending live v.calls;
    room = v.room;
  }

module _ (capacity : ℕ) (s : System) where
  go_lem :
      (i : ℕ) (p q : Phase) (e : Effect)
      → get_elem? s.tasks i ≡ some p
      → Move capacity s p e q
      → IsAccounted capacity s
      → IsAccounted capacity (after_move s i e q)
  go_lem i p q e at m v =
      let (on, on_before, on_after) = apart on_gauge s.tasks i p at in
      let (live, live_before, live_after) = apart is_live s.tasks i p at in
      let w = move_lem capacity s on live p q e m (record {
        gauge = v.gauge ∙ ap (λ n. (n + requests s.queue + s.taken + s.lost) % 2 ^ 64) on_before;
        calls = v.calls ∙ ap (λ n. n % 2 ^ 64) live_before;
        room = v.room;
      }) in
      record {
        gauge =
            w.gauge
            ∙ ap
                (λ n.
                  (n + requests (apply e s).queue + (apply e s).taken + (apply e s).lost) % 2 ^ 64)
                (sym (on_after q));
        calls = w.calls ∙ ap (λ n. n % 2 ^ 64) (sym (live_after q));
        room = w.room;
      }

  step_lem : {t : System} → Step capacity s t → IsAccounted capacity s → IsAccounted capacity t
  unfolding requests
  step_lem Step.arrive v = record {
    gauge =
        v.gauge
        ∙ ap (λ n. (n + requests s.queue + s.taken + s.lost) % 2 ^ 64)
            (no_more (sum_of on_gauge s.tasks) ∙ sym (sum_of-append on_gauge s.tasks starting));
    calls =
        up s.pending _ _ v.calls
          (one_more (sum_of is_live s.tasks) (sum_of-append is_live s.tasks starting));
    room = v.room;
  }
    where
      no_more : (n : ℕ) → n ≡ n + 0
      no_more n = omega arith

      one_more : (n : ℕ) {m : ℕ} → m ≡ n + 1 → m ≡ suc n
      one_more n h = omega (arith, h)
  step_lem (Step.go i at m) v = go_lem i _ _ _ at m v
  step_lem Step.close v = record { gauge = v.gauge; calls = v.calls; room = v.room }
  step_lem (Step.send_closing c h) v = record {
    gauge = v.gauge ∙ ap (λ n. n % 2 ^ 64) (omega (arith, requests-append s.queue closing));
    calls = v.calls;
    room = omega (arith, length-snoc s.queue closing, h);
  }
  step_lem (Step.take_request h) v = record {
    gauge = v.gauge ∙ ap (λ n. n % 2 ^ 64) (omega (arith, ap requests h));
    calls = v.calls;
    room = omega (arith, ap length h, v.room);
  }
  step_lem (Step.take_closing h) v = record {
    gauge = v.gauge ∙ ap (λ n. n % 2 ^ 64) (omega (arith, ap requests h));
    calls = v.calls;
    room = omega (arith, ap length h, v.room);
  }
  step_lem (Step.take_off {n} h) v = record {
    gauge =
        down s.queue_depth _ _
          (v.gauge
            ∙ ap (λ m. m % 2 ^ 64) (off (sum_of on_gauge s.tasks) (requests s.queue) s.lost h))
          refl;
    calls = v.calls;
    room = v.room;
  }
    where
      off : (a b d : ℕ) → s.taken ≡ suc n → a + b + s.taken + d ≡ suc (a + b + n + d)
      off a b d e = omega (arith, e)
  step_lem Step.stop v = record { gauge = v.gauge; calls = v.calls; room = v.room }
  step_lem (Step.drop_receiver h) v = record {
    gauge = v.gauge ∙ ap (λ n. n % 2 ^ 64) (omega arith);
    calls = v.calls;
    room = omega arith;
  }

-- However the calls, cancellations of calls, the worker and a shutdown interleave: the gauge of the queue counts,
-- modulo 2^64, the calls that are sending, the calls that were cancelled while they waited for room, the
-- requests in the channel, those that the worker has received and not yet taken off, and those that were
-- dropped with the receiver; the pending count is, modulo 2^64, the number of the calls that have neither
-- returned nor been cancelled; and the channel is within its capacity.
pub Reach-IsAccounted : {capacity : ℕ} {s : System} → Reach capacity s → IsAccounted capacity s
unfolding requests
Reach-IsAccounted start = record { gauge = refl; calls = refl; room = omega arith }
Reach-IsAccounted (later r st) = step_lem _ _ st (Reach-IsAccounted r)
