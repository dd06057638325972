-- ===== src/Gateway.antt =====
-- agent_ros/safety/gateway.py and agent_ros/safety/supervisor.py: the state machine that gates
-- every task start, with its heartbeat deadline and its watchdog thread. Each definition ends where
-- the code releases the gateway's lock, so that other threads may act between two of them; the
-- methods that take the lock more than once are composed from such parts. Clock readings and times
-- are nanoseconds. What the stop callback answers is an argument.
pub mod Burst
pub mod Watchdog
pub mod Methods
pub mod Actions
use ros2_agent_workflow.Common.{
  ℕ, suc, ◌+◌, ◌≡◌, refl, String, Bool, true, false, ◌&&◌, ◌||◌, not, List, [], ◌∷◌, ◌++◌, Option,
  none, some, arith, Value, ℤ, abs, ltb, leb, if◌then◌else◌, take, contains, Result, ok, err,
  is_empty,
}
use ros2_agent_workflow.Common.Value.{number}
use ros2_agent_workflow.Profile.{
  RobotProfile, RobotInterfaces, InterfaceReference, DiscoveryReport, AdapterKind, twist, nav2,
  follow_joint_trajectory, hospital_delivery, Mode, simulation, hardware, types_at,
}
use ros2_agent_workflow.Safety.{
  SafetyState, new, discovered, validated, armed, running, stopped, faulted, estopped, same_state,
  EmergencyStopResult, estop_latched,
}
use ros2_agent_workflow.Challenge.{
  Store, Disk, Consumption, answered, type_error, consume_operator_challenge,
}
use Watchdog.{Supervisor, idle, start, stop}

pub data SafetyError : Type 0 where
  latched_estop unsafe_state discovery_unsafe profile_unsupported hardware_challenge motion_limit :
      SafetyError
  heartbeat_unconfigured heartbeat_expired operator_required : SafetyError
  -- an `assert` that fails, and the TypeError of a malformed challenge record
  assertion challenge_type_error : SafetyError

pub record SafetyTransition : Type 0 where
  pub sequence : ℕ
  pub state_before : SafetyState
  pub state_after : SafetyState
  pub stop_result : Option EmergencyStopResult

-- `maxlen` of the history.
abbrev pub history_size : ℕ
history_size = 256

-- `transition_history` has the newest entry first.
pub record Gateway : Type 0 where
  pub profile : RobotProfile
  pub runtime_dir : Bool
  pub state : SafetyState
  pub transition_sequence : ℕ
  pub latest_transition : Option SafetyTransition
  pub last_stop_result : EmergencyStopResult
  pub transition_history : List SafetyTransition
  pub report : Option DiscoveryReport
  pub last_heartbeat : Option ℕ
  pub deadline : Option ℕ
  pub supervisor : Supervisor

abbrev pub successful_stop : EmergencyStopResult
successful_stop = record {
  latched = true;
  activation_quiesced = true;
  safety_command_accepted = true;
  code = estop_latched;
}

-- `SafetyGateway(profile, runtime_dir=...)`.
unfoldable pub init : RobotProfile → Bool → Gateway
init profile runtime_dir = record {
  profile = profile;
  runtime_dir = runtime_dir;
  state = new;
  transition_sequence = 0;
  latest_transition = none;
  last_stop_result = successful_stop;
  transition_history = [];
  report = none;
  last_heartbeat = none;
  deadline = none;
  supervisor = record { stop_event = false; worker = idle };
}

abbrev pub Outcome : Type 0
Outcome = Gateway × Result SafetyError SafetyTransition

abbrev fail : Gateway → SafetyError → Outcome
fail g e = (g, err e)

unfoldable pub transition_from :
    Gateway → SafetyState → Option EmergencyStopResult → SafetyTransition
transition_from g state_after stop_result = record {
  sequence = g.transition_sequence;
  state_before = g.state;
  state_after = state_after;
  stop_result = stop_result;
}

-- `_transition`; its result is `transition_from`.
unfoldable pub transition : Gateway → SafetyState → Option EmergencyStopResult → Gateway
unfolding transition_from
transition g state_after stop_result =
    let t = transition_from g state_after stop_result in
    record g {
      transition_sequence = suc g.transition_sequence;
      state = state_after;
      latest_transition = some t;
      transition_history = take history_size (t ∷ g.transition_history);
    }

abbrev moved : Gateway → SafetyState → Option EmergencyStopResult → Outcome
moved g state_after stop_result =
    (transition g state_after stop_result, ok (transition_from g state_after stop_result))

-- `_require`: the error that it raises, if it raises one.
pub require : Gateway → SafetyState → Option SafetyError
require g expected =
    if same_state g.state estopped
    then some latched_estop
    else if not (same_state g.state expected)
    then some unsafe_state
    else none

-- `transitions_from`, in the order of the tuple that it returns.
unfoldable pub transitions_from : ℕ → List SafetyTransition → List SafetyTransition
transitions_from sequence [] = []
transitions_from sequence (t ∷ older) =
    let before = transitions_from sequence older in
    if leb sequence t.sequence then before ++ t ∷ [] else before

pub discover : Gateway → DiscoveryReport → Outcome
unfolding require
discover g report = elim (require g new) [
  | some e ↦ fail g e
  | none ↦
      if not (is_empty report.blocking_warnings)
      then fail g discovery_unsafe
      else moved (record g { report = some report }) discovered none
]

-- `_REQUIRED_CAPABILITY`.
pub required_capability : AdapterKind → String
required_capability twist = "mobile_base.twist"
required_capability hospital_delivery = "mobile_base.twist"
required_capability nav2 = "navigation.nav2"
required_capability follow_joint_trajectory = "manipulation.follow_joint_trajectory"

topic_matches : DiscoveryReport → Option String → String → Bool
topic_matches report none interface_type = false
topic_matches report (some endpoint) interface_type =
    contains interface_type (types_at endpoint report.topic_types)

action_matches : DiscoveryReport → Option String → String → Bool
action_matches report none interface_type = false
action_matches report (some endpoint) interface_type =
    contains interface_type (types_at endpoint report.action_types)

topic_interface_matches : DiscoveryReport → Option InterfaceReference → Bool
unfolding topic_matches
topic_interface_matches report none = false
topic_interface_matches report (some i) = topic_matches report i.topic i.interface_type

action_interface_matches : DiscoveryReport → Option InterfaceReference → Bool
unfolding action_matches
action_interface_matches report none = false
action_interface_matches report (some i) = action_matches report i.action i.interface_type

pub interfaces_match : AdapterKind → RobotInterfaces → DiscoveryReport → Bool
unfolding topic_interface_matches action_interface_matches
interfaces_match twist i report =
    topic_interface_matches report i.command && topic_interface_matches report i.odometry
interfaces_match hospital_delivery i report =
    topic_interface_matches report i.command && topic_interface_matches report i.odometry
interfaces_match nav2 i report = action_interface_matches report i.navigation
interfaces_match follow_joint_trajectory i report = action_interface_matches report i.trajectory

abbrev pub is_simulation : Mode → Bool
is_simulation simulation = true
is_simulation hardware = false

-- Whether the report shows what the profile's adapter needs.
pub supports : RobotProfile → DiscoveryReport → Bool
unfolding required_capability interfaces_match
supports p report =
    contains (required_capability p.kind) report.capability_names
    && interfaces_match p.kind p.interfaces report

pub validate : Gateway → Outcome
unfolding require
validate g = elim (require g discovered) [
  | some e ↦ fail g e
  | none ↦ elim g.report [
    | none ↦ fail g assertion
    | some report ↦
        if not (supports g.profile report)
        then fail g profile_unsupported
        else moved g (if is_simulation g.profile.mode then armed else validated) none
  ]
]

-- `_check_limit`: whether the value passes.
pub check_limit : Value → ℕ → Bool
check_limit (number z) maximum = leb (abs z) maximum
check_limit _ maximum = false

-- The four keyword arguments of `start_task`.
pub record Motion : Type 0 where
  pub linear_velocity : Value
  pub angular_velocity : Value
  pub linear_acceleration : Value
  pub angular_acceleration : Value

pub within_limits : RobotProfile → Motion → Bool
unfolding check_limit
within_limits p m =
    check_limit m.linear_velocity p.limits.max_linear_velocity
    && check_limit m.angular_velocity p.limits.max_angular_velocity
    && check_limit m.linear_acceleration p.limits.max_linear_acceleration
    && check_limit m.angular_acceleration p.limits.max_angular_acceleration

abbrev pub deadline_after : Option ℕ → ℕ → Option ℕ
deadline_after none now = none
deadline_after (some timeout) now = some (now + timeout)

pub start_task : Gateway → Motion → ℕ → Outcome
unfolding require
start_task g m now = elim (require g armed) [
  | some e ↦ fail g e
  | none ↦
      if not (within_limits g.profile m)
      then fail g motion_limit
      else let g' = record g {
        last_heartbeat = some now;
        deadline = deadline_after g.profile.safety.heartbeat_timeout now;
      } in
        let g'' = transition g' running none in
        (record g'' { supervisor = start g''.supervisor }, ok (transition_from g' running none))
]

-- What the locked part of `heartbeat` gives: its result, or the fault code that it leaves with.
pub data Beat : Type 0 where
  beat : SafetyTransition → Beat
  refused : SafetyError → Beat
  lost : SafetyError → Beat

abbrev past : ℕ → Option ℕ → Bool
past now none = false
past now (some d) = ltb d now

pub heartbeat_locked : Gateway → ℕ → Gateway × Beat
unfolding require
heartbeat_locked g now = elim (require g running) [
  | some e ↦ (g, refused e)
  | none ↦ elim g.profile.safety.heartbeat_timeout [
    | none ↦ (g, lost heartbeat_unconfigured)
    | some timeout ↦ elim g.last_heartbeat [
      | none ↦ (g, refused assertion)
      | some last ↦
          if past now g.deadline
          then (g, lost heartbeat_expired)
          else let g' = record g { last_heartbeat = some now; deadline = some (now + timeout) } in
            (transition g' running none, beat (transition_from g' running none))
    ]
  ]
]
