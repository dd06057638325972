-- ===== src/Gateway/Actions.antt =====
-- What threads do to one gateway: the atomic parts of agent_ros/safety/gateway.py and of its
-- watchdog, in any order. A method that takes the lock more than once is several actions, and
-- nothing is assumed of what stands between them, nor of the stop results that threads bring.
pub mod History
pub mod Latch
pub mod Running
pub mod Arming
pub mod WatchdogLoss
pub mod Examples
use ros2_agent_workflow.Common.{
  ℕ, Bool, true, false, ◌&&◌, List, [], ◌∷◌, Option, none, some, if◌then◌else◌, ltb,
}
use ros2_agent_workflow.Profile.{DiscoveryReport}
use ros2_agent_workflow.Safety.{running, same_state, EmergencyStopResult}
use ros2_agent_workflow.Challenge.{Consumption}
use ros2_agent_workflow.Gateway.Watchdog.{
  Worker, faulting, stop, wake, compare_deadline, recheck, finish,
}
use ros2_agent_workflow.Gateway.{Gateway, Motion, discover, validate, start_task, heartbeat_locked}
use ros2_agent_workflow.Gateway.Methods.{
  arm_answered, record_stop, cancel_commit, fault_commit, estop_commit, operator_reset,
}

pub data Action : Type 0 where
  discovers : DiscoveryReport → Action
  validates : Action
  arms : Consumption → Action
  starts : Motion → ℕ → Action
  beats : ℕ → Action
  records_stop commits_cancel commits_fault commits_estop : EmergencyStopResult → Action
  resets : Action
  stops_watchdog : Action
  -- the watchdog's own steps
  wakes : Action
  compares rechecks : ℕ → Action
  watchdog_commits : EmergencyStopResult → Action

-- `_active_deadline`.
pub active_deadline : Gateway → Option ℕ
active_deadline g = if same_state g.state running then g.deadline else none

abbrev deadline_past : ℕ → Option ℕ → Bool
deadline_past now none = false
deadline_past now (some d) = ltb d now

-- The locked test of `_fault_heartbeat_expiry`.
pub expired : Gateway → ℕ → Bool
expired g now = same_state g.state running && deadline_past now g.deadline

abbrev is_faulting : Worker → Bool
is_faulting faulting = true
is_faulting _ = false

watchdog_commit : Gateway → EmergencyStopResult → Gateway
watchdog_commit g r =
    if is_faulting g.supervisor.worker
    then (let g' = (fault_commit g r).0 in record g' { supervisor = finish g'.supervisor })
    else g

unfoldable pub step : Gateway → Action → Gateway
unfolding active_deadline expired watchdog_commit
step g (discovers report) = (discover g report).0
step g validates = (validate g).0
step g (arms c) = (arm_answered g c).0
step g (starts m now) = (start_task g m now).0
step g (beats now) = (heartbeat_locked g now).0
step g (records_stop r) = record_stop g r
step g (commits_cancel r) = (cancel_commit g r).0
step g (commits_fault r) = (fault_commit g r).0
step g (commits_estop r) = (estop_commit g r).0
step g resets = (operator_reset g).0
step g stops_watchdog = record g { supervisor = stop g.supervisor }
step g wakes = record g { supervisor = wake (active_deadline g) g.supervisor }
step g (compares now) = record g { supervisor = compare_deadline now g.supervisor }
step g (rechecks now) = record g { supervisor = recheck (expired g now) g.supervisor }
step g (watchdog_commits r) = watchdog_commit g r

pub run : Gateway → List Action → Gateway
run g [] = g
run g (a ∷ actions) = run (step g a) actions
