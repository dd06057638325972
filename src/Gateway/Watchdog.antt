-- ===== src/Gateway/Watchdog.antt =====
-- agent_ros/safety/supervisor.py: the watchdog thread, one atomic part at a time.
use ros2_agent_workflow.Common.{ℕ, Bool, true, false, Option, none, some, ltb, if◌then◌else◌}

-- Where the thread stands: never started; waiting on the stop event; in `evaluate` with the deadline
-- read; in `on_expired` before its own test; in the stop that follows; returned.
pub data Worker : Type 0 where
  idle polling expiring faulting exited : Worker
  comparing : Option ℕ → Worker

pub record Supervisor : Type 0 where
  pub stop_event : Bool
  pub worker : Worker

abbrev pub is_alive : Worker → Bool
is_alive idle = false
is_alive exited = false
is_alive _ = true

unfoldable pub start : Supervisor → Supervisor
start s = if is_alive s.worker then s else record { stop_event = false; worker = polling }

unfoldable pub stop : Supervisor → Supervisor
stop s = record s { stop_event = true }

-- `while not self._stop_event.wait(...)`, and the first line of `evaluate`.
unfoldable pub wake : Option ℕ → Supervisor → Supervisor
wake active_deadline s = elim s.worker [
  | polling ↦ record s { worker = if s.stop_event then exited else comparing active_deadline }
  | _ ↦ s
]

-- `deadline is None or self._clock() <= deadline`.
unfoldable pub compare_deadline : ℕ → Supervisor → Supervisor
compare_deadline now s = elim s.worker [
  | comparing none ↦ record s { worker = polling }
  | comparing (some deadline) ↦ record s { worker = if ltb deadline now then expiring else polling }
  | _ ↦ s
]

-- `on_expired` tests again, now under the gateway's lock; without a fault `evaluate` returns True
-- all the same, and the thread ends.
unfoldable pub recheck : Bool → Supervisor → Supervisor
recheck expired s = elim s.worker [
  | expiring ↦ record s { worker = if expired then faulting else exited }
  | _ ↦ s
]

-- The fault has been handled, and `evaluate` returns True.
unfoldable pub finish : Supervisor → Supervisor
finish s = elim s.worker [ faulting ↦ record s { worker = exited } | _ ↦ s ]
