-- ===== src/Audit/Worker/Actions.antt =====
-- Callers and the worker thread, in any order (agent_ros/runtime/audit.py).
pub mod Room
pub mod Answered
pub mod Closed
mod Examples
use ros2_agent_workflow.Common.{ℕ, Bool, List, [], ◌∷◌}
use ros2_agent_workflow.Audit.Worker.{
  AppendWorker, Thread, Spawn, start, append, expire, begin_close, get, begin_append, finish_append,
  leave,
}

pub data Action : Type 0 where
  starts : Spawn → Action
  appends : Action
  expires : ℕ → Action
  closes : Action
  gets begins leaves : Action
  finishes : Bool → Action

-- The worker acts only while its thread lives.
by_thread : AppendWorker → AppendWorker → AppendWorker
by_thread w w' = elim w.thread [ Thread.alive ↦ w' | _ ↦ w ]

pub step : AppendWorker → Action → AppendWorker
unfolding by_thread
step w (starts spawn) = (start w spawn).0
step w appends = (append w).0
step w (expires k) = expire w k
step w closes = begin_close w
step w gets = by_thread w (get w)
step w begins = by_thread w (begin_append w)
step w (finishes raised) = by_thread w (finish_append w raised)
step w leaves = by_thread w (leave w)

pub run : AppendWorker → List Action → AppendWorker
run w [] = w
run w (a ∷ actions) = run (step w a) actions
