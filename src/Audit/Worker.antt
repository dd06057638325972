-- ===== src/Audit/Worker.antt =====
-- `_AuditAppendWorker` of agent_ros/runtime/audit.py: the thread that calls the audit writer, and its
-- bounded queue. Each definition ends where the code releases the lock, or where a call of the queue
-- ends. Receipts are known by their numbers in the order of their making.
pub mod Actions
use ros2_agent_workflow.Common.{
  ℕ, suc, Bool, true, false, ◌&&◌, ◌||◌, not, List, [], ◌∷◌, ◌++◌, Option, none, some, leb, ◌==◌,
  if◌then◌else◌, length, is_empty, is_some, Result, ok, err,
}

pub data Thread : Type 0 where
  absent alive ended : Thread

-- How `thread.start()` goes: it raises, the thread is not alive after it, or it is.
pub data Spawn : Type 0 where
  raises stillborn runs : Spawn

-- The errors of a receipt: `audit write failed`, `audit write timed out`, and one that the writer
-- raised.
pub data Failure : Type 0 where
  write_failed timed_out writer_raised : Failure

-- What a receipt that is done has: an error, or none.
abbrev pub Answer : Type 0
Answer = Option Failure

abbrev pub Answers : Type 0
Answers = ℕ → Option Answer

-- Where `_run` stands: before `get`, with what it got, or in the writer's `append`.
pub data Phase : Type 0 where
  waiting stopping : Phase
  got appending : ℕ → Phase

-- `none` in the queue is the terminal marker.
pub record AppendWorker : Type 0 where
  pub queue : List (Option ℕ)
  pub thread : Thread
  pub in_flight : Option ℕ
  pub accepting : Bool
  pub failed : Bool
  pub stop : Bool
  pub sentinel_queued : Bool
  pub answers : Answers
  pub next_number : ℕ
  pub phase : Phase

abbrev pub audit_queue_capacity : ℕ
audit_queue_capacity = 256

unfoldable pub init : AppendWorker
init = record {
  queue = [];
  thread = absent;
  in_flight = none;
  accepting = false;
  failed = false;
  stop = false;
  sentinel_queued = false;
  answers = λ n. none;
  next_number = 0;
  phase = waiting;
}

abbrev is_alive : Thread → Bool
is_alive alive = true
is_alive _ = false

-- `_healthy_locked`.
abbrev pub healthy : AppendWorker → Bool
healthy w = w.accepting && not w.failed && is_alive w.thread

-- `receipt.error = ...; receipt.done.set()`, unless it is done.
pub answer : Answers → ℕ → Answer → Answers
answer answers k a n = if n == k && not (is_some (answers n)) then some a else answers n

-- The loop of `_fail_locked` over the queue.
pub reject_all : List (Option ℕ) → Answers → Answers
unfolding answer
reject_all [] answers = answers
reject_all (none ∷ queue) answers = reject_all queue answers
reject_all (some k ∷ queue) answers = reject_all queue (answer answers k (some write_failed))

pub has_sentinel : List (Option ℕ) → Bool
has_sentinel [] = false
has_sentinel (none ∷ queue) = true
has_sentinel (some k ∷ queue) = has_sentinel queue

-- `_request_stop_locked`.
pub request_stop : AppendWorker → AppendWorker
request_stop w =
    if w.sentinel_queued
    then record w { stop = true }
    else record w { stop = true; queue = w.queue ++ none ∷ []; sentinel_queued = true }

-- `_fail_locked`.
pub fail : AppendWorker → AppendWorker
unfolding reject_all has_sentinel request_stop
fail w = request_stop (record w {
  failed = true;
  accepting = false;
  answers = reject_all w.queue w.answers;
  queue = [];
  sentinel_queued = w.sentinel_queued && not (has_sentinel w.queue);
})

spawned : AppendWorker → Spawn → AppendWorker × Bool
spawned w runs = (record w { accepting = true; thread = alive }, true)
spawned w _ = (record w { accepting = false; failed = true }, false)

abbrev is_absent : Thread → Bool
is_absent absent = true
is_absent _ = false

pub start : AppendWorker → Spawn → AppendWorker × Bool
unfolding spawned
start w spawn =
    if not (is_absent w.thread)
    then (w, healthy w)
    else if w.failed
    then (w, false)
    else spawned w spawn

-- `append` up to its wait: the number of the receipt.
pub append : AppendWorker → AppendWorker × Result Failure ℕ
unfolding fail
append w =
    if not (healthy w)
    then (w, err write_failed)
    else if leb audit_queue_capacity (length w.queue)
    then (fail w, err write_failed)
    else (
      record w { queue = w.queue ++ some w.next_number ∷ []; next_number = suc w.next_number },
      ok w.next_number,
    )

-- The part of `append` after a wait that has timed out.
pub expire : AppendWorker → ℕ → AppendWorker
unfolding fail answer
expire w k =
    if is_some (w.answers k)
    then w
    else fail (record w { answers = answer w.answers k (some timed_out) })

abbrev quiet : AppendWorker → Bool
quiet w = not (is_alive w.thread) && is_empty w.queue && not (is_some w.in_flight)

-- The first locked part of `close`.
pub begin_close : AppendWorker → AppendWorker
unfolding request_stop
begin_close w =
    let w' = record w { accepting = false } in
    if not (is_absent w.thread) && quiet w then w' else request_stop w'

-- The last locked part of `close`: its result.
pub close_result : AppendWorker → Bool
close_result w = is_absent w.thread || quiet w

-- `_run`: a `get` that returns,
receive : AppendWorker → List (Option ℕ) → AppendWorker
receive w [] = w
receive w (none ∷ queue) = record w { queue = queue; phase = stopping }
receive w (some k ∷ queue) = record w { queue = queue; phase = got k }

pub get : AppendWorker → AppendWorker
unfolding receive
get w = elim w.phase [ waiting ↦ receive w w.queue | _ ↦ w ]

-- the part before the writer is called,
pub begin_append : AppendWorker → AppendWorker
begin_append w = elim w.phase [
  | got k ↦ record w { in_flight = some k; phase = appending k }
  | _ ↦ w
]

-- the `finally` block, given whether the writer raised,
pub finish_append : AppendWorker → Bool → AppendWorker
unfolding answer fail
finish_append w raised = elim w.phase [
  | appending k ↦
      let a = if raised then some writer_raised else none in
      let w' = record w { answers = answer w.answers k a; phase = waiting } in
      record (if raised then fail w' else w') { in_flight = none }
  | _ ↦ w
]

-- and its end at the terminal marker.
pub leave : AppendWorker → AppendWorker
leave w = elim w.phase [
  | stopping ↦ record w { sentinel_queued = false; phase = waiting; thread = ended }
  | _ ↦ w
]
