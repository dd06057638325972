-- ===== src/Sequencer/Actions.antt =====
-- Callers and the worker thread on one sequencer, in any order (agent_ros/safety/sequencer.py).
pub mod Invariant
pub mod Latch
pub mod Receipts
mod Examples
use ros2_agent_workflow.Common.{ℕ, Bool, List, [], ◌∷◌}
use ros2_agent_workflow.Sequencer.{
  Sequencer, Thread, dead, Spawn, PermitArgument, start, issue, submit, require_current, is_current,
  expire, begin_quiesce, begin_close, take, settle, release, worker_ready,
}

pub data Action : Type 0 where
  starts : Spawn → Action
  issues : Action
  submits : Bool → PermitArgument → Action
  asks : PermitArgument → Action
  expires : ℕ → Action
  quiesces closes : Action
  -- the worker thread, which may also die
  takes : Action
  settles : Bool → Action
  releases dies : Action

-- The worker acts only while its thread lives.
by_worker : Sequencer → Sequencer → Sequencer
by_worker s s' = elim s.thread [ Thread.alive ↦ s' | _ ↦ s ]

pub step : Sequencer → Action → Sequencer
unfolding by_worker
step s (starts spawn) = (start s spawn).0
step s issues = (issue s).0
step s (submits valid p) = (submit s valid p).0
step s (asks p) = (is_current s p).0
step s (expires number) = expire s number
step s quiesces = begin_quiesce s
step s closes = begin_close s
step s takes = by_worker s (take s)
step s (settles raised) = by_worker s (settle s raised)
step s releases = by_worker s (release s)
step s dies = by_worker s (record s { thread = dead })

pub run : Sequencer → List Action → Sequencer
run s [] = s
run s (a ∷ actions) = run (step s a) actions
