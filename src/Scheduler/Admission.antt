-- ===== src/Scheduler/Admission.antt =====
-- scheduler.rs, `translate`, `send_command` and the pending guard: callers that submit requests to a worker at
-- the same time, an atomic access or a probe of the channel at a time. What the worker does to the channel and
-- to the gauge is kept: it takes commands, takes each request off the gauge later, and in the end drops
-- the receiver with what is in the channel. Deadlines may pass at any time. A caller may drop its future where the
-- call awaits, for room in the channel or for the response: the guard of the pending count then runs, and
-- nothing else.
pub mod Gauge
use marian_edge.Common.{
  ℕ, zero, suc, ◌+◌, ◌≤◌, ◌<◌, ◌≡◌, Bool, true, false, List, [], ◌∷◌, ◌++◌, Option, some, length,
  get_elem?, set,
}
use marian_edge.Scheduler.{fetch_add, fetch_sub}

pub data EnqueueError : Type 0 where
  full disconnected : EnqueueError

-- How a call of `translate` ends: `worker_stopped` is also the end where the reply is dropped,
-- `cancelled` the one where the caller drops its future.
pub data Ending : Type 0 where
  shutting_down worker_stopped queue_full answered timeout cancelled : Ending

-- Where a call of `translate` stands. `probing` has found the channel full, `parked` awaits a notification,
-- and `abandoned` was dropped while it was parked.
pub data Phase : Type 0 where
  starting checking admitted sending probing parked abandoned : Phase
  refused : EnqueueError → Phase
  rejecting sent awaiting late : Phase
  ending left : Ending → Phase

pub data Queued : Type 0 where
  request closing : Queued

-- The fields of `Inner` and of the counters that the callers use. `taken` counts the requests that the worker
-- has received and not yet taken off the gauge, `lost` those that were dropped with the receiver.
pub record System : Type 0 where
  pub closed : Bool
  pub stopped : Bool
  pub connected : Bool
  pub queue : List Queued
  pub taken : ℕ
  pub lost : ℕ
  pub queue_depth : ℕ
  pub pending : ℕ
  pub accepted : ℕ
  pub rejected : ℕ
  pub timed_out : ℕ
  pub tasks : List Phase

-- What a caller does to the shared state.
pub data Effect : Type 0 where
  look publish push unpublish count_accepted count_rejected count_late release : Effect

unfoldable pub apply : Effect → System → System
apply look s = s
apply publish s = record s { queue_depth = fetch_add s.queue_depth 1 }
apply push s = record s { queue = s.queue ++ request ∷ [] }
apply unpublish s = record s { queue_depth = fetch_sub s.queue_depth 1 }
apply count_accepted s = record s { accepted = fetch_add s.accepted 1 }
apply count_rejected s = record s { rejected = fetch_add s.rejected 1 }
apply count_late s = record s { timed_out = fetch_add s.timed_out 1 }
apply release s = record s { pending = fetch_sub s.pending 1 }

-- `send_command`: a probe of the channel, the test of `worker_stopped` after one that found it full, and the
-- wait up to the deadline after that.
pub data Send (capacity : ℕ) (s : System) : Phase → Effect → Phase → Type 0 where
  accept_send : s.connected ≡ true → length s.queue < capacity → Send capacity s sending push sent
  no_receiver : s.connected ≡ false → Send capacity s sending look (refused disconnected)
  no_room : s.connected ≡ true → capacity ≤ length s.queue → Send capacity s sending look probing
  stopped_meanwhile : s.stopped ≡ true → Send capacity s probing look (refused disconnected)
  still_running : s.stopped ≡ false → Send capacity s probing look parked
  notified : Send capacity s parked look sending
  out_of_time : Send capacity s parked look (refused full)

-- One access of a caller, for a channel of the given capacity.
pub data Move (capacity : ℕ) (s : System) : Phase → Effect → Phase → Type 0 where
  see_closed : s.closed ≡ true → Move capacity s starting look (ending shutting_down)
  see_open : s.closed ≡ false → Move capacity s starting look checking
  see_stopped : s.stopped ≡ true → Move capacity s checking look (ending worker_stopped)
  see_running : s.stopped ≡ false → Move capacity s checking look admitted
  show : Move capacity s admitted publish sending
  probe : {p q : Phase} {e : Effect} → Send capacity s p e q → Move capacity s p e q
  undo_disconnected : Move capacity s (refused disconnected) unpublish (ending worker_stopped)
  undo_full : Move capacity s (refused full) unpublish rejecting
  reject : Move capacity s rejecting count_rejected (ending queue_full)
  accept : Move capacity s sent count_accepted awaiting
  response : Move capacity s awaiting look (ending answered)
  reply_dropped : Move capacity s awaiting look (ending worker_stopped)
  no_response : Move capacity s awaiting look late
  give_up : Move capacity s late count_late (ending timeout)
  -- The future is dropped at one of the two awaits.
  cancel_sending : Move capacity s parked release abandoned
  cancel_waiting : Move capacity s awaiting release (left cancelled)
  leave : (e : Ending) → Move capacity s (ending e) release (left e)

unfoldable pub requests : List Queued → ℕ
requests [] = 0
requests (request ∷ queue) = suc (requests queue)
requests (closing ∷ queue) = requests queue

-- A step of a caller.
abbrev pub after_move : System → ℕ → Effect → Phase → System
after_move s i e q = record (apply e s) { tasks = set s.tasks i q }

pub data Step (capacity : ℕ) (s : System) : System → Type 0 where
  -- A call begins: `pending.fetch_add(1)`.
  arrive :
      Step capacity s
        (record s { pending = fetch_add s.pending 1; tasks = s.tasks ++ starting ∷ [] })
  go :
      (i : ℕ) {p q : Phase} {e : Effect}
      → get_elem? s.tasks i ≡ some p
      → Move capacity s p e q
      → Step capacity s (after_move s i e q)
  -- `shutdown`.
  close : Step capacity s (record s { closed = true })
  send_closing :
      s.connected ≡ true
      → length s.queue < capacity
      → Step capacity s (record s { queue = s.queue ++ closing ∷ [] })
  -- The worker.
  take_request :
      {rest : List Queued}
      → s.queue ≡ request ∷ rest
      → Step capacity s (record s { queue = rest; taken = suc s.taken })
  take_closing :
      {rest : List Queued} → s.queue ≡ closing ∷ rest → Step capacity s (record s { queue = rest })
  take_off :
      {n : ℕ}
      → s.taken ≡ suc n
      → Step capacity s (record s { taken = n; queue_depth = fetch_sub s.queue_depth 1 })
  stop : Step capacity s (record s { stopped = true })
  drop_receiver :
      s.connected ≡ true
      → Step capacity s
          (record s { connected = false; queue = []; lost = s.lost + requests s.queue })

abbrev pub init : System
init = record {
  closed = false;
  stopped = false;
  connected = true;
  queue = [];
  taken = 0;
  lost = 0;
  queue_depth = 0;
  pending = 0;
  accepted = 0;
  rejected = 0;
  timed_out = 0;
  tasks = [];
}

pub data Reach (capacity : ℕ) : System → Type 0 where
  start : Reach capacity init
  later : {s t : System} → Reach capacity s → Step capacity s t → Reach capacity t
