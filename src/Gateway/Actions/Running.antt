-- ===== src/Gateway/Actions/Running.antt =====
-- Deadlines, heartbeats and motion limits (agent_ros/safety/gateway.py).
use ros2_agent_workflow.Common.{
  ℕ, ◌+◌, ◌≤◌, ◌<◌, ◌≡◌, ◌≢◌, refl, ◌⊎◌, Bool, true, List, [], ◌∷◌, Option, none, some, arith,
  is_some, Result, ok, err, Value, ℤ, abs,
}
use ros2_agent_workflow.Common.Value.{absent, number}
use ros2_agent_workflow.Profile.{RobotProfile, DiscoveryReport}
use ros2_agent_workflow.Safety.{EmergencyStopResult, running, discovered, armed, faulted}
use ros2_agent_workflow.Challenge.{Consumption}
use ros2_agent_workflow.Gateway.Watchdog.{start, is_alive}
use ros2_agent_workflow.Gateway.Burst.{Reply, stop_repeatedly}
use ros2_agent_workflow.Gateway.{
  Gateway, SafetyTransition, SafetyError, Motion, refused, assertion, heartbeat_expired,
  heartbeat_unconfigured, init, transition, transition_from, deadline_after, discover, validate,
  require, start_task, heartbeat_locked, check_limit, within_limits,
}
use ros2_agent_workflow.Gateway.Methods.{
  arm_answered, record_stop, cancel_commit, fault_commit, estop_commit, operator_reset, heartbeat,
}
use ros2_agent_workflow.Gateway.Actions.{Action, step, run}
use ros2_agent_workflow.Gateway.Actions.Action.{discovers, starts}

-- The deadline that the last heartbeat set.
abbrev pub deadline_of : Gateway → Option ℕ
deadline_of g = elim g.last_heartbeat [
  | none ↦ none
  | some h ↦ deadline_after g.profile.safety.heartbeat_timeout h
]

pub record Timed (g : Gateway) : Type 0 where
  pub idle_free : (g.state ≡ running) ⊎ (g.deadline ≡ none)
  pub beaten : (g.state ≢ running) ⊎ (is_some g.last_heartbeat ≡ true)
  pub timed : (g.state ≢ running) ⊎ (g.deadline ≡ deadline_of g)
  pub reported : (g.state ≢ discovered) ⊎ (is_some g.report ≡ true)

step-Timed : (g : Gateway) (a : Action) → Timed g → Timed (step g a)
unfolding step discover validate arm_answered start_task heartbeat_locked record_stop cancel_commit
    fault_commit estop_commit operator_reset transition
step-Timed g (discovers report) v = ground arith
step-Timed g a v = ground arith

run-Timed : (g : Gateway) (actions : List Action) → Timed g → Timed (run g actions)
unfolding run
run-Timed g [] v = v
run-Timed g (a ∷ actions) v = run-Timed (step g a) actions (step-Timed g a v)

-- After any interleaving of the threads' actions: only a RUNNING gateway has a deadline, and it is the
-- last heartbeat plus the profile's timeout, if the profile has one; a RUNNING gateway has a last
-- heartbeat, and a DISCOVERED one has a report.
pub run-init-Timed :
    (profile : RobotProfile) (runtime_dir : Bool) (actions : List Action)
    → Timed (run (init profile runtime_dir) actions)
unfolding init
run-init-Timed profile runtime_dir actions =
    run-Timed (init profile runtime_dir) actions (ground arith)

-- On a gateway that is `Timed`, the `assert` statements of `validate` and `heartbeat` do not fail.
pub assertions_hold :
    (g : Gateway) (now : ℕ)
    → Timed g
    → ((validate g).1 ≢ err assertion) × ((heartbeat_locked g now).1 ≢ refused assertion)
unfolding validate heartbeat_locked
assertions_hold g now v = (λ e. ground arith, λ e. ground arith)

-- A heartbeat at or before the deadline of a RUNNING gateway moves the deadline to one timeout
-- after it, and keeps the gateway RUNNING.
pub heartbeat_in_time :
    (g : Gateway) (now timeout d : ℕ) (replies : ℕ → Reply)
    → Timed g
    → g.state ≡ running
    → g.profile.safety.heartbeat_timeout ≡ some timeout
    → g.deadline ≡ some d
    → now ≤ d
    → let (g', result) = heartbeat g now replies in
      (result ≡ ok (transition_from g running none))
      × (g'.state ≡ running)
      × (g'.deadline ≡ some (now + timeout))
      × (g'.last_heartbeat ≡ some now)
unfolding heartbeat transition
heartbeat_in_time g now timeout d replies v r t e h = ground arith

-- A heartbeat after the deadline raises HEARTBEAT_EXPIRED, and one of a profile without a timeout
-- HEARTBEAT_UNCONFIGURED; either leaves the gateway FAULTED, with no deadline, its watchdog told to
-- stop, and the combined result of the three stop calls recorded.
pub heartbeat_lost :
    (g : Gateway) (now d : ℕ) (replies : ℕ → Reply)
    → Timed g
    → g.state ≡ running
    → (g.profile.safety.heartbeat_timeout ≡ none) ⊎ ((g.deadline ≡ some d) × (d < now))
    → let (g', result) = heartbeat g now replies in
      ((result ≡ err heartbeat_expired) ⊎ (result ≡ err heartbeat_unconfigured))
      × (g'.state ≡ faulted)
      × (g'.deadline ≡ none)
      × (g'.supervisor.stop_event ≡ true)
      × (g'.last_stop_result ≡ stop_repeatedly replies)
      × (g'.latest_transition ≡ some (transition_from g faulted (some (stop_repeatedly replies))))
unfolding heartbeat transition
heartbeat_lost g now d replies v r h = ground arith

-- A value that passes `_check_limit` is a finite number whose magnitude is within the limit.
abbrev pub Within : ℕ → Value → Type 0
Within limit v = (z : ℤ) × (v ≡ number z) × (abs z ≤ limit)

check_limit_sound : (v : Value) (limit : ℕ) → check_limit v limit ≡ true → Within limit v
unfolding check_limit
check_limit_sound (number z) limit h = (z, refl, ground arith)
check_limit_sound absent limit h = cc
check_limit_sound _ limit h = cc

-- `start_task` succeeds only on an ARMED gateway and within all four motion limits of the profile;
-- it then leaves it RUNNING, with the deadline counted from the start and a live watchdog.
pub start_task_guarded :
    (g : Gateway) (m : Motion) (now : ℕ) (t : SafetyTransition)
    → (start_task g m now).1 ≡ ok t
    → let limits = g.profile.limits in
      let g' = (start_task g m now).0 in
      (g.state ≡ armed)
      × Within limits.max_linear_velocity m.linear_velocity
      × Within limits.max_angular_velocity m.angular_velocity
      × Within limits.max_linear_acceleration m.linear_acceleration
      × Within limits.max_angular_acceleration m.angular_acceleration
      × (g'.state ≡ running)
      × (g'.deadline ≡ deadline_after g.profile.safety.heartbeat_timeout now)
      × (is_alive g'.supervisor.worker ≡ true)
unfolding start_task transition start within_limits
start_task_guarded g m now t h = (
  ground arith,
  check_limit_sound m.linear_velocity _ (ground arith),
  check_limit_sound m.angular_velocity _ (ground arith),
  check_limit_sound m.linear_acceleration _ (ground arith),
  check_limit_sound m.angular_acceleration _ (ground arith),
  ground arith,
  ground arith,
  ground arith,
)

-- One call of a method, given what it is handed from outside the gateway.
pub data Call : Type 0 where
  call_discover : DiscoveryReport → Call
  call_validate : Call
  call_arm : Consumption → Call
  call_start : Motion → ℕ → Call
  call_cancel : EmergencyStopResult → Call
  call_reset : Call

abbrev error_of : {A : Type 0} → Result SafetyError A → Option SafetyError
error_of (ok a) = none
error_of (err e) = some e

-- The gateway after the call, and the error that it raised.
abbrev pub attempt : Gateway → Call → Gateway × Option SafetyError
attempt g (call_discover report) = ((discover g report).0, error_of (discover g report).1)
attempt g call_validate = ((validate g).0, error_of (validate g).1)
attempt g (call_arm c) = ((arm_answered g c).0, error_of (arm_answered g c).1)
attempt g (call_start m now) = ((start_task g m now).0, error_of (start_task g m now).1)
attempt g (call_cancel r) = ((cancel_commit g r).0, error_of (cancel_commit g r).1)
attempt g call_reset = ((operator_reset g).0, error_of (operator_reset g).1)

-- `discover`, `validate`, `arm`, `start_task`, the commit of `cancel` and `operator_reset` leave the
-- gateway exactly as it was whenever they raise.
pub error_unchanged :
    (g : Gateway) (c : Call) (e : SafetyError) → (attempt g c).1 ≡ some e → (attempt g c).0 ≡ g
unfolding discover validate arm_answered start_task cancel_commit operator_reset
error_unchanged g call_validate e h = ground arith
error_unchanged g c e h = ground arith

-- Only `start_task` enters the running state.
pub step_halted :
    (g : Gateway) (a : Action)
    → g.state ≢ running
    → ((m : Motion) (now : ℕ) → a ≢ starts m now)
    → (step g a).state ≢ running
unfolding step discover validate arm_answered start_task heartbeat_locked record_stop cancel_commit
    fault_commit estop_commit operator_reset transition
step_halted g (discovers report) h s = ground arith
step_halted g (starts m now) h s = absurd (s m now refl)
step_halted g a h s = ground arith

pub cancel_commit_halts :
    (g : Gateway) (r : EmergencyStopResult) → (cancel_commit g r).0.state ≢ running
unfolding cancel_commit transition
cancel_commit_halts g r = ground arith

pub fault_commit_halts :
    (g : Gateway) (r : EmergencyStopResult) → (fault_commit g r).0.state ≢ running
unfolding fault_commit transition
fault_commit_halts g r = ground arith

pub refused_halted :
    (g : Gateway) (e : SafetyError) → require g running ≡ some e → g.state ≢ running
unfolding require
refused_halted g e h = ground arith

-- A heartbeat that a gateway refuses while it runs meets a failing `assert`.
pub heartbeat_locked_refused :
    (g : Gateway) (now : ℕ) (e : SafetyError)
    → (heartbeat_locked g now).1 ≡ refused e
    → ((heartbeat_locked g now).0.state ≢ running) ⊎ (e ≡ assertion)
unfolding heartbeat_locked require
heartbeat_locked_refused g now e h = ground (arith, h)

pub start_task_refused :
    (g : Gateway) (m : Motion) (now : ℕ) (e : SafetyError)
    → (start_task g m now).1 ≡ err e
    → (start_task g m now).0 ≡ g
unfolding start_task
start_task_refused g m now e h = ground (arith, h)
