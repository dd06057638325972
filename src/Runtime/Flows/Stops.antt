-- ===== src/Runtime/Flows/Stops.antt =====
-- `emergency_stop`, `_physical_estop`, `task_status` and `observe` of
-- agent_ros/runtime/controller.py.
pub mod Latches
use ros2_agent_workflow.Common.{
  ℕ, suc, ◌+◌, String, Bool, true, false, ◌&&◌, ◌||◌, not, List, [], ◌∷◌, Option, none, some,
  Result, ok, err, if◌then◌else◌, same_text, contains, Value, pos,
}
use ros2_agent_workflow.Common.Value.{number, text}
use ros2_agent_workflow.Profile.{RobotProfile, Mode, hardware, simulation}
use ros2_agent_workflow.Safety.{
  SafetyState, validated, armed, running, same_state, successful, EmergencyStopResult,
}
use ros2_agent_workflow.Challenge.{Consumption}
use ros2_agent_workflow.Gateway.{Gateway, SafetyTransition, Motion, is_simulation}
use ros2_agent_workflow.Gateway.Methods.{SafetyStopAttempt}
use ros2_agent_workflow.Audit.{Mapping, subset}
use ros2_agent_workflow.Audit.Schema.{AuditOperation, AuditOutcome}
use ros2_agent_workflow.Runtime.Budget.{time_of}
use ros2_agent_workflow.Runtime.Errors.{
  RuntimeError, Raised, adapter_raised, safety_raised, runtime_raised, other_raised, CallResult,
  unsafe_state, profile_invalid, estop_latched, cleanup_failed, audit_integrity_compromised,
  runtime_error, safety_error,
}
use ros2_agent_workflow.Runtime.Flows.{
  World, Runtime, AdapterClass, hospital_case, hospital_delivery, other_adapter, AdapterStatus,
  TaskProfile, Observation, Flow, ◌>>=◌, ◌>>◌, bound, return, raise, raise_code, change, set_ledger,
  interfere, state, gateway_estop, gateway_validate, gateway_arm, gateway_start_task,
  gateway_heartbeat, gateway_cancel,
}
use ros2_agent_workflow.Runtime.Flows.Append.{
  append_transition, append_option, append_latest_gateway_fault, latch_adapter_fault, register,
  stop_monitor, observe_and_stop,
}
use ros2_agent_workflow.Runtime.Flows.Monitor.{is_hospital_case, stage_at}
use ros2_agent_workflow.Runtime.Flows.Terminal.{called, start_task_cleanup}
use ros2_agent_workflow.Runtime.Flows.Requests.{
  Answers, unavailable, refused_by, require_code, reject, profile_of, is_hardware, caught,
  latch_then,
}
use ros2_agent_workflow.Runtime.Flows.Requests.{HardwareSafety, hardware_safety_status}
use ros2_agent_workflow.Runtime.Ledger.{Ledger}

-- The result of `task_status`.
pub record TaskStatus : Type 0 where
  pub state : SafetyState
  pub task : Option String
  pub hardware_safety_channel : HardwareSafety
  pub adapter_state : Option String
  pub code : Option String
  pub elapsed : Option ℕ
  pub stage_index : Option ℕ

task_name : Option TaskProfile → Option String
task_name none = none
task_name (some task) = some task.name

-- The items that come from the adapter's last status.
described : TaskStatus → Option AdapterStatus → TaskStatus
described told none = told
described told (some status) = record told {
  adapter_state = some status.state;
  code = status.code;
  elapsed = time_of status.elapsed;
  stage_index = time_of status.stage_index;
}

find_frozen : String → List (String × Observation) → Option Observation
find_frozen source [] = none
find_frozen source ((k, o) ∷ frozen) =
    let rest = find_frozen source frozen in if same_text k source then some o else rest

module _ (w : World) where
  stop_checked : EmergencyStopResult → Flow SafetyState
  stop_checked r = require_code (successful r) unsafe_state >> (observe_and_stop w >> state w)

  stop_attempted : SafetyStopAttempt → Flow SafetyState
  unfolding stop_checked
  stop_attempted attempt =
      append_option w AuditOperation.estop attempt.attempted >> stop_checked attempt.result

  unfoldable pub emergency_stop : Flow SafetyState
  unfolding stop_attempted unavailable
  emergency_stop rt = refused_by (unavailable rt) (gateway_estop w >>= stop_attempted) rt

  -- `self._quarantined = True` where the stop did not succeed.
  quarantine_unless : Bool → Runtime → Runtime
  quarantine_unless succeeded rt =
      set_ledger
        (record rt.system.ledger { quarantined = not succeeded || rt.system.ledger.quarantined }) rt

  register_option : Option SafetyTransition → Flow (Unit {0})
  register_option none = return tt
  register_option (some t) = register w AuditOperation.estop t none AuditOutcome.ok

  physical_attempted : SafetyStopAttempt → Flow (Unit {0})
  unfolding register_option quarantine_unless
  physical_attempted attempt = do
    register_option attempt.attempted
    change (quarantine_unless (successful attempt.result))
    s ← state w
    change (λ rt. record rt { observed_gateway_state = s })

  -- `_physical_estop`; a registration that raises ends it, and it returns.
  pub physical_estop : Bool → Runtime → Runtime
  unfolding physical_attempted
  physical_estop asserted rt =
      if not asserted then rt else ((gateway_estop w >>= physical_attempted) rt).0

  told_in : SafetyState → Flow TaskStatus
  unfolding task_name described
  told_in s rt = (
    rt,
    ok (
        described
          (record {
            state = s;
            task = task_name rt.task;
            hardware_safety_channel = hardware_safety_status rt;
            adapter_state = none;
            code = none;
            elapsed = none;
            stage_index = none;
          })
          rt.last_status),
  )

  unfoldable pub task_status : Flow TaskStatus
  unfolding told_in unavailable
  task_status rt = refused_by (unavailable rt) (state w >>= told_in) rt

  -- What `except` makes of a call of the adapter in `observe`.
  observed : CallResult Observation → Flow Observation
  observed (CallResult.returned o) = return o
  observed (CallResult.adapter_error code) = raise_code (runtime_error code)
  observed CallResult.raised = raise_code unsafe_state

  live_observation : String → CallResult Observation → Flow Observation
  unfolding observed
  live_observation source live rt =
      (require_code (contains source (profile_of rt).observation_sources) profile_invalid
          >> observed live)
        rt

  frozen_or_live : Option Observation → String → CallResult Observation → Flow Observation
  unfolding live_observation
  frozen_or_live none source live = live_observation source live
  frozen_or_live (some o) source live = return o

  frozen_of : Runtime → String → Option Observation
  unfolding find_frozen
  frozen_of rt source =
      if rt.terminal_evidence_frozen then find_frozen source rt.terminal_evidence else none

  -- `observe`, given what the adapter answers where it is asked.
  unfoldable pub observe : String → CallResult Observation → Flow Observation
  unfolding frozen_or_live frozen_of unavailable
  observe source live rt =
      refused_by (unavailable rt) (frozen_or_live (frozen_of rt source) source live) rt
