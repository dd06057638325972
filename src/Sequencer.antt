-- ===== src/Sequencer.antt =====
-- agent_ros/safety/sequencer.py: the bounded queue of activation commands, its one worker thread, and
-- the emergency latch. Each definition is a stretch of code under the sequencer's condition; the
-- methods that wait, and the worker's loop, are split where the lock is free. A command is known by
-- the number of its receipt. Deadlines reach the model as the action of a wait that ran out.
pub mod Actions
use ros2_agent_workflow.Common.{
  ℕ, suc, ◌+◌, Bool, true, false, ◌&&◌, ◌||◌, not, List, [], ◌∷◌, ◌++◌, Option, none, some, leb,
  ◌==◌, if◌then◌else◌, is_some, length, is_empty, Result, ok, err,
}
use ros2_agent_workflow.Safety.{
  EmergencyStopResult, estop_latched, safety_command_rejected, transport_unquiesced,
}

abbrev pub queue_capacity : ℕ
queue_capacity = 16

-- The codes of `_ActivationRejected`.
pub data Code : Type 0 where
  unsafe_state profile_invalid latched_estop timeout : Code

-- What a receipt is completed with; `command_error` is whatever the command raised.
pub data Completion : Type 0 where
  value command_error : Completion
  rejected : Code → Completion

pub record Receipt : Type 0 where
  pub number : ℕ
  pub generation : ℕ

pub data Thread : Type 0 where
  not_started alive dead : Thread

-- Where the worker's loop stands: at the lock with nothing in hand; in `receipt.command()`; between
-- the completion of the receipt and the `finally` block.
pub data Phase : Type 0 where
  waiting : Phase
  executing settled : Receipt → Phase

-- `identity` and `nonce` stand for the objects that permits are compared with. `queue` has the
-- oldest receipt first, and `completion` holds what each receipt was completed with.
pub record Sequencer : Type 0 where
  pub identity : ℕ
  pub nonce : ℕ
  pub queue : List Receipt
  pub thread : Thread
  pub accepting : Bool
  pub closed : Bool
  pub failed : Bool
  pub generation : ℕ
  pub latched : Bool
  pub in_flight : Option Receipt
  pub phase : Phase
  pub completion : ℕ → Option Completion
  pub next_number : ℕ

pub init : ℕ → ℕ → Sequencer
init identity nonce = record {
  identity = identity;
  nonce = nonce;
  queue = [];
  thread = not_started;
  accepting = false;
  closed = false;
  failed = false;
  generation = 0;
  latched = false;
  in_flight = none;
  phase = waiting;
  completion = λ n. none;
  next_number = 0;
}

-- What a caller hands in as its permit.
pub data PermitArgument : Type 0 where
  foreign : PermitArgument
  permit : (sequencer nonce generation : ℕ) → PermitArgument

abbrev pub Completions : Type 0
Completions = ℕ → Option Completion

-- `_complete_receipt_locked`: the first completion stays.
pub complete : Completions → ℕ → Completion → Completions
complete done number c n =
    if n == number then (if is_some (done number) then done number else some c) else done n

-- The loop of `_reject_queued_locked`.
pub reject_queued : List Receipt → Code → Completions → Completions
reject_queued [] code done = done
reject_queued (r ∷ queue) code done =
    reject_queued queue code (complete done r.number (rejected code))

-- `_latch_locked`.
pub latch : Sequencer → Code → Sequencer
latch s queued_code = record s {
  generation = suc s.generation;
  latched = true;
  queue = [];
  completion = reject_queued s.queue queued_code s.completion;
}

abbrev pub is_alive : Thread → Bool
is_alive alive = true
is_alive _ = false

abbrev pub is_started : Thread → Bool
is_started not_started = false
is_started _ = true

-- The test of `_worker_ready_locked`.
pub ready : Sequencer → Bool
ready s = s.accepting && not s.closed && not s.failed && is_alive s.thread

-- `_worker_ready_locked`: a worker that died is noticed here, and latches.
pub worker_ready : Sequencer → Sequencer × Bool
unfolding ready
worker_ready s =
    if ready s
    then (s, true)
    else if is_started s.thread && not (is_alive s.thread) && not s.closed
    then (latch (record s { failed = true; accepting = false }) unsafe_state, false)
    else (s, false)

-- What the thread factory gives: `start()` raises, the thread is not alive, or it is.
pub data Spawn : Type 0 where
  raises stillborn lives : Spawn

spawned : Sequencer → Spawn → Sequencer × Bool
spawned s lives = (record s { thread = alive; accepting = true }, true)
spawned s _ = (record s { failed = true }, false)

pub start : Sequencer → Spawn → Sequencer × Bool
unfolding spawned
start s spawn =
    if is_started s.thread
    then worker_ready s
    else if s.closed || s.failed
    then (s, false)
    else spawned s spawn

pub issue : Sequencer → Sequencer × Result Code PermitArgument
issue s =
    if s.closed || s.failed
    then (s, err unsafe_state)
    else (let (s', usable) = if is_started s.thread then worker_ready s else (s, true) in
        if not usable
        then (s', err unsafe_state)
        else if s'.latched
        then (s', err latched_estop)
        else (s', ok (permit s'.identity s'.nonce s'.generation)))

-- `_require_owned_locked`.
pub owned : Sequencer → PermitArgument → Bool
owned s foreign = false
owned s (permit sequencer nonce generation) = sequencer == s.identity && nonce == s.nonce

abbrev current : Sequencer → PermitArgument → Bool
current s foreign = false
current s (permit sequencer nonce generation) = generation == s.generation

-- The guards that `submit`, `submit_owned` and `require_current` share.
pub require_current : Sequencer → PermitArgument → Sequencer × Result Code (Unit {0})
unfolding owned
require_current s p =
    if not (owned s p)
    then (s, err profile_invalid)
    else (let (s', usable) = worker_ready s in
        if not usable
        then (s', err unsafe_state)
        else if s'.latched || not (current s' p)
        then (s', err latched_estop)
        else (s', ok tt))

pub is_current : Sequencer → PermitArgument → Sequencer × Bool
unfolding owned
is_current s p =
    if not (owned s p)
    then (s, false)
    else (let (s', usable) = worker_ready s in (s', usable && not s'.latched && current s' p))

-- The end of the first locked part of `submit`.
enqueue : Sequencer → Sequencer × Result Code Receipt
enqueue s =
    if leb queue_capacity (length s.queue)
    then (latch s latched_estop, err unsafe_state)
    else let r : Receipt = record { number = s.next_number; generation = s.generation } in
      (record s { queue = s.queue ++ r ∷ []; next_number = suc s.next_number }, ok r)

-- `submit` up to its wait; `valid` is whether the timeout is finite and the command callable.
pub submit : Sequencer → Bool → PermitArgument → Sequencer × Result Code Receipt
unfolding enqueue
submit s valid p =
    if not valid
    then (s, err profile_invalid)
    else (let (s', guarded) = require_current s p in
        elim guarded [ err e ↦ (s', err e) | ok _ ↦ enqueue s' ])

-- `submit` when its wait ran out: the locked part that may time the receipt out.
pub expire : Sequencer → ℕ → Sequencer
expire s number =
    if is_some (s.completion number)
    then s
    else let s' = record s { completion = complete s.completion number (rejected timeout) } in
      latch s' latched_estop

-- `latch_and_quiesce` up to its wait. The safety command is submitted under the lock as well, and
-- changes nothing here.
pub begin_quiesce : Sequencer → Sequencer
begin_quiesce s = latch s latched_estop

-- What `latch_and_quiesce` returns, from the state in which its wait ended.
pub quiesce_result : Sequencer → Bool → EmergencyStopResult
quiesce_result s accepted =
    let quiesced = not (is_some s.in_flight) in
    record {
      latched = true;
      activation_quiesced = quiesced;
      safety_command_accepted = accepted;
      code =
          if not quiesced
          then transport_unquiesced
          else if accepted
          then estop_latched
          else safety_command_rejected;
    }

pub begin_close : Sequencer → Sequencer
begin_close s = if s.closed then s else record s {
  closed = true;
  accepting = false;
  generation = suc s.generation;
  latched = true;
  queue = [];
  completion = reject_queued s.queue unsafe_state s.completion;
}

-- What `close` returns, from the state in which its join ended.
pub close_result : Sequencer → Bool
close_result s =
    not (is_started s.thread)
    || (not (is_alive s.thread) && is_empty s.queue && not (is_some s.in_flight) && not s.failed)

take_receipt : Sequencer → Receipt → List Receipt → Sequencer
take_receipt s r rest =
    if s.latched || not (r.generation == s.generation)
    then record s {
      queue = rest;
      completion = complete s.completion r.number (rejected latched_estop);
    }
    else record s { queue = rest; in_flight = some r; phase = executing r }

-- The first locked part of `_run`: return, wait on, reject a stale receipt, or take one in flight.
pub take : Sequencer → Sequencer
unfolding take_receipt
take s = elim s.phase [
  | waiting ↦ elim s.queue [
    | [] ↦ if s.accepting then s else record s { thread = dead }
    | r ∷ rest ↦ take_receipt s r rest
  ]
  | _ ↦ s
]

settle_receipt : Sequencer → Receipt → Bool → Sequencer
settle_receipt s r raised =
    if raised
    then record s {
      completion =
          reject_queued s.queue unsafe_state (complete s.completion r.number command_error);
      failed = true;
      accepting = false;
      generation = suc s.generation;
      latched = true;
      queue = [];
      phase = settled r;
    }
    else record s { completion = complete s.completion r.number value; phase = settled r }

-- The command has returned or raised, and its receipt is completed.
pub settle : Sequencer → Bool → Sequencer
unfolding settle_receipt
settle s raised = elim s.phase [ executing r ↦ settle_receipt s r raised | _ ↦ s ]

abbrev same_receipt : Option Receipt → Receipt → Bool
same_receipt none r = false
same_receipt (some q) r = q.number == r.number

-- The `finally` block.
pub release : Sequencer → Sequencer
release s = elim s.phase [
  | settled r ↦ record s {
    in_flight = if same_receipt s.in_flight r then none else s.in_flight;
    phase = waiting;
  }
  | _ ↦ s
]
