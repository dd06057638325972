-- ===== src/Runtime/Flows/Examples.antt =====
-- Requests to a runtime, and an adapter fault.
use ros2_agent_workflow.Common.{◌≢◌, ◌≡◌, refl, ◌⊎◌, true, false, List, [], ◌∷◌, none, some, err}
use ros2_agent_workflow.Common.Value.{absent}
use ros2_agent_workflow.Profile.{simulation, hardware}
use ros2_agent_workflow.Safety.{running, estopped, armed, discovered, successful}
use ros2_agent_workflow.Challenge.{answered}
use ros2_agent_workflow.Gateway.{Gateway, init, successful_stop}
use ros2_agent_workflow.Gateway.Burst.{returned, stop_repeatedly}
use ros2_agent_workflow.Gateway.Actions.Action.{commits_estop}
use ros2_agent_workflow.Gateway.Actions.Examples.{robot, graph, moving}
use ros2_agent_workflow.Runtime.Errors.{Raised, audit_integrity_compromised, CallResult}
use ros2_agent_workflow.Runtime.Ledger.{Ledger, empty}
use ros2_agent_workflow.Runtime.Ledger.Actions.{Action, gateway_acts}
use ros2_agent_workflow.Runtime.Flows.{
  World, Turn, Runtime, AdapterStatus, TaskProfile, other_adapter,
}
use ros2_agent_workflow.Runtime.Flows.Append.{latch_adapter_fault}
use ros2_agent_workflow.Runtime.Flows.Keeps.{Passive}
use ros2_agent_workflow.Runtime.Flows.Latches.{latch_adapter_fault_latches}
use ros2_agent_workflow.Runtime.Flows.Requests.{Answers, unavailable, validate_profile, arm_robot}
use ros2_agent_workflow.Runtime.Flows.Requests.Bound.{NotValidated, validate_profile_needs_stop}
use ros2_agent_workflow.Runtime.Flows.Tasks.{run_task, cancel_task}
use ros2_agent_workflow.Runtime.Flows.Stops.{emergency_stop, task_status, observe}
use ros2_agent_workflow.Runtime.Flows.Stops.Latches.{emergency_stop_latches}
use ros2_agent_workflow.Runtime.Flows.Close.{CloseAnswers, stop_runtime}
use ros2_agent_workflow.Runtime.Flows.Close.Halts.{stop_runtime_halts}
use ros2_agent_workflow.Runtime.Flows.Unavailable.{Refused, after_failure, audit_failure_refuses}

abbrev pub turn_with : List Action → Turn
turn_with others = record {
  others = others;
  replies = λ _. returned successful_stop;
  clock = 40;
  drain = [];
  gives_up = false;
}

-- Another thread stops the robot before each access.
abbrev pub stopping : World
stopping = record {
  encoded_size = λ _. 100;
  session = "5f1c";
  turns = λ _. turn_with (gateway_acts (commits_estop successful_stop) ∷ []);
}

abbrev pub stopping-Passive : Passive stopping
stopping-Passive n = (refl, refl)

abbrev pub quiet : World
quiet = record { encoded_size = λ _. 100; session = "5f1c"; turns = λ _. turn_with [] }

abbrev pub quiet-Passive : Passive quiet
quiet-Passive n = (refl, refl)

abbrev pub fetch : TaskProfile
fetch = record {
  name = "fetch";
  robot_profile = "amr";
  required_sensors = [];
  evidence_sources = [];
  stages = 30 ∷ [];
}

abbrev pub runtime_of : Gateway → Ledger → Runtime
runtime_of g l = record {
  system = record { gateway = g; ledger = l; log = []; has_torn = false };
  turn = 0;
  adapter = other_adapter;
  task = some fetch;
  stage_index = 0;
  stage_deadline = some 90;
  observed_gateway_state = running;
  last_status = none;
  terminal_evidence = [];
  terminal_evidence_frozen = false;
  physical_estop_bound = false;
  hardware_safety_verified = false;
  cancel_requested = false;
  task_cleanup_started = false;
  cleanup_start_failed = false;
  monitor_stop = false;
  quarantine_file = false;
}

abbrev pub ready : Runtime
ready =
    runtime_of (record (init (robot simulation) true) { state = armed; report = some graph }) empty

abbrev pub moving_runtime : Runtime
moving_runtime = runtime_of (moving simulation) empty

-- A robot that moves, with its state written out.
abbrev pub moving_on : Runtime
moving_on =
    runtime_of
      (record (init (robot simulation) true) {
        state = running;
        report = some graph;
        last_heartbeat = some 20;
      })
      empty

abbrev pub idle_status : AdapterStatus
idle_status = record {
  state = "running";
  code = none;
  elapsed = absent;
  stage_index = absent;
  stage_results = none;
}

-- The issuer gives no permit.
abbrev pub refusing : Answers
refusing = record {
  validated_by = CallResult.returned tt;
  runtime_safety = CallResult.returned tt;
  permit = some "UNSAFE_STATE";
  started = CallResult.returned idle_status;
  permit_is_current = true;
  permit_stays_current = true;
  cleanup_starts = true;
  monitor_starts = true;
  cancelled = CallResult.returned idle_status;
}

latch_adapter_fault_latches_example :
    (latch_adapter_fault quiet moving_runtime).0.system.gateway.state ≡ estopped
latch_adapter_fault_latches_example = latch_adapter_fault_latches quiet moving_runtime quiet-Passive

emergency_stop_latches_example :
    let o = emergency_stop stopping moving_runtime in
    (o.0.system.gateway.state ≡ estopped)
    × (((e : Raised) × (o.1 ≡ err e))
        ⊎ (successful (stop_repeatedly (λ _. returned successful_stop)) ≡ true))
unfolding unavailable empty
emergency_stop_latches_example =
    emergency_stop_latches stopping moving_runtime stopping-Passive refl

audit_failure_refuses_example :
    let rt =
      after_failure stopping moving_runtime (gateway_acts (commits_estop successful_stop) ∷ []) in
    let code = audit_integrity_compromised in
    Refused rt code (validate_profile stopping refusing "amr" rt)
    × Refused rt code (arm_robot stopping refusing "amr" (answered true) false rt)
    × Refused rt code (run_task stopping refusing (some fetch) false rt)
    × Refused rt code (cancel_task stopping refusing rt)
    × Refused rt code (emergency_stop stopping rt)
    × Refused rt code (task_status stopping rt)
    × Refused rt code (observe stopping "odom" CallResult.raised rt)
audit_failure_refuses_example =
    audit_failure_refuses stopping moving_runtime
      (gateway_acts (commits_estop successful_stop) ∷ []) refusing "amr" (answered true) false
      (some fetch) "odom" CallResult.raised

abbrev hardware_runtime : Runtime
hardware_runtime =
    runtime_of (record (init (robot hardware) true) { state = discovered; report = some graph })
      empty

validate_profile_needs_stop_example :
    NotValidated 0 (validate_profile stopping refusing "amr" hardware_runtime)
unfolding init
validate_profile_needs_stop_example =
    validate_profile_needs_stop stopping refusing "amr" hardware_runtime (λ n. (refl, refl)) refl
      refl (λ e. cc) tt

-- The adapter and the threads fail to close.
abbrev stuck : CloseAnswers
stuck = record {
  cleanup_starts = false;
  watchdog_joins = true;
  threads_join = false;
  worker_closes = true;
  adapter_closes = CallResult.raised;
  owner_closes = none;
}

stop_runtime_halts_example : (stop_runtime quiet stuck moving_on).0.system.gateway.state ≢ running
stop_runtime_halts_example = stop_runtime_halts quiet stuck moving_on quiet-Passive
