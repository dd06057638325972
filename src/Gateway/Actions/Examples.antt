-- ===== src/Gateway/Actions/Examples.antt =====
-- A simulated and a hardware robot: their starts, heartbeats, stops and resets.
use mathlib.Core.List.{Memᴰ}
use ros2_agent_workflow.Common.{
  ℕ, ◌≡◌, refl, ◌⊎◌, inl, zero, suc, true, false, List, [], ◌∷◌, ◌++◌, none, some, arith, ok, pos,
  is_some, contains,
}
use ros2_agent_workflow.Common.Value.{number}
use ros2_agent_workflow.Profile.{
  RobotProfile, Mode, simulation, hardware, twist, DiscoveryReport, types_at,
}
use ros2_agent_workflow.Safety.{running, estopped, armed}
use ros2_agent_workflow.Challenge.{works, answered}
use ros2_agent_workflow.Challenge.Examples.{plain, boot, one_challenge, accepted_once}
use ros2_agent_workflow.Gateway.Burst.{Reply, returned, raised, stop_repeatedly}
use ros2_agent_workflow.Gateway.{
  transition, supports, interfaces_match, required_capability, within_limits, check_limit, Gateway,
  Motion, init, start_task, discover, validate, transition_from, successful_stop, deadline_after,
  operator_required,
}
use ros2_agent_workflow.Gateway.Watchdog.{polling, is_alive, start}
use ros2_agent_workflow.Gateway.Methods.{
  arm, arm_answered, estop_commit, estop_attempt, operator_reset,
}
use ros2_agent_workflow.Gateway.Actions.{Action, step, run}
use ros2_agent_workflow.Gateway.Actions.Action.{
  discovers, validates, arms, starts, beats, commits_estop, resets, wakes, compares, rechecks,
}
use ros2_agent_workflow.Gateway.Actions.History.{Recorded, run-init-Recorded}
use ros2_agent_workflow.Gateway.Actions.Latch.{latch_holds, estop_attempt_latches}
use ros2_agent_workflow.Gateway.Actions.Running.{
  Timed, run-init-Timed, Within, start_task_guarded, call_reset, attempt,
}
use ros2_agent_workflow.Gateway.Actions.Arming.{is_live, hardware_needs_challenge}
use ros2_agent_workflow.Gateway.Actions.WatchdogLoss.{
  Unwatched, restart-Unwatched, heartbeat_race-Unwatched,
}

abbrev pub robot : Mode → RobotProfile
robot mode = record {
  name = "amr";
  mode = mode;
  kind = twist;
  interfaces = record {
    command = some (record { interface_type = "Twist"; topic = some "/cmd_vel"; action = none });
    odometry = some (record { interface_type = "Odometry"; topic = some "/odom"; action = none });
    navigation = none;
    trajectory = none;
  };
  limits = record {
    max_linear_velocity = 500;
    max_angular_velocity = 800;
    max_linear_acceleration = 300;
    max_angular_acceleration = 600;
  };
  safety = record { heartbeat_timeout = some 100; estop_topic = none };
  observation_sources = [];
}

abbrev pub graph : DiscoveryReport
graph = record {
  capability_names = "mobile_base.twist" ∷ [];
  blocking_warnings = [];
  topic_types = ("/cmd_vel", "Twist" ∷ []) ∷ ("/odom", "Odometry" ∷ []) ∷ [];
  action_types = [];
}

abbrev pub drive : Motion
drive = record {
  linear_velocity = number (pos 400);
  angular_velocity = number (pos 0);
  linear_acceleration = number (pos 300);
  angular_acceleration = number (pos 600);
}

-- From NEW to RUNNING at time 0, with a challenge on hardware.
abbrev pub launch : Mode → List Action
launch simulation = discovers graph ∷ validates ∷ starts drive 0 ∷ []
launch hardware = discovers graph ∷ validates ∷ arms (answered true) ∷ starts drive 0 ∷ []

abbrev pub moving : Mode → Gateway
moving mode = run (init (robot mode) true) (launch mode)

abbrev quiet : ℕ → Reply
quiet call = returned successful_stop

launched : ((moving simulation).state ≡ running) × ((moving hardware).state ≡ running)
unfolding run step init discover validate arm_answered start_task start transition transition_from
    supports interfaces_match required_capability contains types_at within_limits check_limit
launched = (refl, refl)

run-init-Recorded_example : Recorded (moving hardware)
run-init-Recorded_example = run-init-Recorded (robot hardware) true (launch hardware)

run-init-Timed_example : Timed (moving hardware)
run-init-Timed_example = run-init-Timed (robot hardware) true (launch hardware)

abbrev stopped_hard : Gateway
stopped_hard = run (moving hardware) (commits_estop successful_stop ∷ [])

stopped_hard_state : stopped_hard.state ≡ estopped
unfolding run step init discover validate arm_answered start_task start transition transition_from
    supports interfaces_match required_capability contains types_at within_limits check_limit
    estop_commit
stopped_hard_state = refl

stopped_hard_mode : stopped_hard.profile.mode ≡ hardware
unfolding run step init discover validate arm_answered start_task start transition transition_from
    supports interfaces_match required_capability contains types_at within_limits check_limit
    estop_commit
stopped_hard_mode = refl

latch_holds_example :
    ((run stopped_hard (resets ∷ discovers graph ∷ starts drive 9 ∷ [])).state ≡ estopped)
    × ((run stopped_hard (resets ∷ discovers graph ∷ starts drive 9 ∷ [])).transition_history
        ≡ stopped_hard.transition_history)
latch_holds_example =
    latch_holds stopped_hard (resets ∷ discovers graph ∷ starts drive 9 ∷ []) stopped_hard_state
      (inl stopped_hard_mode)

estop_attempt_latches_example :
    let (g', attempt) = estop_attempt (moving hardware) quiet in
    (g'.state ≡ estopped)
    × (attempt.result ≡ stop_repeatedly quiet)
    × (g'.last_stop_result ≡ stop_repeatedly quiet)
    × ((((moving hardware).state ≡ estopped)
          × (attempt.attempted ≡ none)
          × (g'.transition_history ≡ (moving hardware).transition_history))
        ⊎ ((attempt.attempted
              ≡ some (transition_from (moving hardware) estopped (some (stop_repeatedly quiet))))
            × (g'.latest_transition ≡ attempt.attempted)
            × (g'.deadline ≡ none)
            × (g'.supervisor.stop_event ≡ true)))
estop_attempt_latches_example = estop_attempt_latches (moving hardware) quiet

moving_deadline : (moving simulation).deadline ≡ some 100
unfolding run step init discover validate arm_answered start_task start transition transition_from
    supports interfaces_match required_capability contains types_at within_limits check_limit
moving_deadline = refl

moving_timeout : (moving simulation).profile.safety.heartbeat_timeout ≡ some 100
unfolding run step init discover validate arm_answered start_task start transition transition_from
    supports interfaces_match required_capability contains types_at within_limits check_limit
moving_timeout = refl

abbrev ready : Gateway
ready = run (init (robot simulation) false) (discovers graph ∷ validates ∷ [])

ready_starts : (start_task ready drive 5).1 ≡ ok (transition_from ready running none)
unfolding run step init discover validate arm_answered start_task start transition transition_from
    supports interfaces_match required_capability contains types_at within_limits check_limit
ready_starts = refl

start_task_guarded_example :
    let limits = ready.profile.limits in
    let g' = (start_task ready drive 5).0 in
    (ready.state ≡ armed)
    × Within limits.max_linear_velocity drive.linear_velocity
    × Within limits.max_angular_velocity drive.angular_velocity
    × Within limits.max_linear_acceleration drive.linear_acceleration
    × Within limits.max_angular_acceleration drive.angular_acceleration
    × (g'.state ≡ running)
    × (g'.deadline ≡ deadline_after ready.profile.safety.heartbeat_timeout 5)
    × (is_alive g'.supervisor.worker ≡ true)
start_task_guarded_example =
    start_task_guarded ready drive 5 (transition_from ready running none) ready_starts

reset_refused : (attempt stopped_hard call_reset).1 ≡ some operator_required
unfolding run step init discover validate arm_answered start_task start transition transition_from
    supports interfaces_match required_capability contains types_at within_limits check_limit
    estop_commit operator_reset
reset_refused = refl

moving_live : is_live (moving hardware).state ≡ true
unfolding run step init discover validate arm_answered start_task start transition transition_from
    supports interfaces_match required_capability contains types_at within_limits check_limit
moving_live = refl

hardware_needs_challenge_example : Memᴰ (arms (answered true)) (launch hardware)
hardware_needs_challenge_example =
    hardware_needs_challenge (robot hardware) true (launch hardware) refl moving_live

moving_worker : (moving simulation).supervisor.worker ≡ polling
unfolding run step init discover validate arm_answered start_task start transition transition_from
    supports interfaces_match required_capability contains types_at within_limits check_limit
moving_worker = refl

moving_unstopped : (moving simulation).supervisor.stop_event ≡ false
unfolding run step init discover validate arm_answered start_task start transition transition_from
    supports interfaces_match required_capability contains types_at within_limits check_limit
moving_unstopped = refl

-- A second task, while the watchdog of the first has not yet woken from its stop.
abbrev second_task : List Action
second_task =
    launch simulation ++ commits_estop successful_stop ∷ resets ∷ discovers graph ∷ validates ∷ []

abbrev restarting : Gateway
restarting = run (init (robot simulation) true) second_task

restarting_worker : restarting.supervisor.worker ≡ polling
unfolding run step init discover validate arm_answered start_task start transition transition_from
    supports interfaces_match required_capability contains types_at within_limits check_limit
    estop_commit operator_reset
restarting_worker = refl

restarting_stopped : restarting.supervisor.stop_event ≡ true
unfolding run step init discover validate arm_answered start_task start transition transition_from
    supports interfaces_match required_capability contains types_at within_limits check_limit
    estop_commit operator_reset
restarting_stopped = refl

restarting_starts : (start_task restarting drive 9).1 ≡ ok (transition_from restarting running none)
unfolding run step init discover validate arm_answered start_task start transition transition_from
    supports interfaces_match required_capability contains types_at within_limits check_limit
    estop_commit operator_reset
restarting_starts = refl

restart-Unwatched_example : Unwatched (run restarting (starts drive 9 ∷ wakes ∷ []))
restart-Unwatched_example =
    restart-Unwatched restarting drive 9 (transition_from restarting running none) restarting_worker
      restarting_stopped restarting_starts

moving_beaten : is_some (moving simulation).last_heartbeat ≡ true
unfolding run step init discover validate arm_answered start_task start transition transition_from
    supports interfaces_match required_capability contains types_at within_limits check_limit
moving_beaten = refl

heartbeat_race-Unwatched_example :
    Unwatched (run (moving simulation) (wakes ∷ beats 99 ∷ compares 101 ∷ rechecks 102 ∷ []))
heartbeat_race-Unwatched_example =
    heartbeat_race-Unwatched (moving simulation) 100 100 99 101 102 launched.0 moving_timeout
      moving_beaten moving_deadline moving_worker moving_unstopped (omega arith) (omega arith)
      (omega arith)

-- The second call raises.
abbrev flaky : ℕ → Reply
flaky (suc zero) = raised
flaky call = returned successful_stop

abbrev waiting_hard : Gateway
waiting_hard = run (init (robot hardware) true) (discovers graph ∷ validates ∷ [])

waiting_hard_mode : waiting_hard.profile.mode ≡ hardware
unfolding run step validate discover init transition supports contains types_at
waiting_hard_mode = refl

arm_accepted :
    (arm plain waiting_hard one_challenge "secret" 40 boot works).2
    ≡ ok (some (transition_from waiting_hard armed none))
unfolding run step validate discover init transition supports contains types_at arm
arm_accepted = ground (arith, accepted_once)
