-- ===== src/Runtime/Flows/Requests.antt =====
-- `_ensure_available`, `validate_profile` and `arm_robot` of agent_ros/runtime/controller.py. What
-- the adapter and the activation issuer answer to a request are arguments.
pub mod Bound
use ros2_agent_workflow.Common.{
  ℕ, suc, ◌+◌, String, Bool, true, false, ◌&&◌, ◌||◌, not, List, [], ◌∷◌, Option, none, some,
  Result, ok, err, if◌then◌else◌, same_text, contains, Value, pos,
}
use ros2_agent_workflow.Common.Value.{number, text}
use ros2_agent_workflow.Profile.{RobotProfile, Mode, hardware, simulation}
use ros2_agent_workflow.Safety.{
  SafetyState, validated, armed, running, same_state, successful, EmergencyStopResult,
}
use ros2_agent_workflow.Challenge.{Consumption}
use ros2_agent_workflow.Gateway.{Gateway, SafetyTransition, Motion, is_simulation}
use ros2_agent_workflow.Gateway.Methods.{SafetyStopAttempt}
use ros2_agent_workflow.Audit.{Mapping, subset}
use ros2_agent_workflow.Audit.Schema.{AuditOperation, AuditOutcome}
use ros2_agent_workflow.Runtime.Budget.{time_of}
use ros2_agent_workflow.Runtime.Errors.{
  RuntimeError, Raised, adapter_raised, safety_raised, runtime_raised, other_raised, CallResult,
  unsafe_state, profile_invalid, estop_latched, cleanup_failed, audit_integrity_compromised,
  runtime_error, safety_error,
}
use ros2_agent_workflow.Runtime.Flows.{
  World, Runtime, AdapterClass, hospital_case, hospital_delivery, other_adapter, AdapterStatus,
  TaskProfile, Observation, Flow, ◌>>=◌, ◌>>◌, bound, return, raise, raise_code, change, set_ledger,
  interfere, state, gateway_estop, gateway_validate, gateway_arm, gateway_start_task,
  gateway_heartbeat, gateway_cancel,
}
use ros2_agent_workflow.Runtime.Flows.Append.{
  append_transition, append_option, append_latest_gateway_fault, latch_adapter_fault, register,
  stop_monitor, observe_and_stop,
}
use ros2_agent_workflow.Runtime.Flows.Monitor.{is_hospital_case, stage_at}
use ros2_agent_workflow.Runtime.Flows.Terminal.{called, start_task_cleanup}

-- `_ensure_available`.
unfoldable pub unavailable : Runtime → Option RuntimeError
unavailable rt =
    if rt.cleanup_start_failed
    then some cleanup_failed
    else if rt.system.ledger.quarantined || rt.quarantine_file
    then some audit_integrity_compromised
    else none

abbrev pub refused_by : {A : Type 0} → Option RuntimeError → Flow A → Flow A
refused_by none flow rt = flow rt
refused_by (some code) flow rt = (rt, err (runtime_raised code))

-- `if not test: raise RuntimeControllerError(code)`.
abbrev pub require_code : Bool → RuntimeError → Flow (Unit {0})
require_code true code rt = (rt, ok tt)
require_code false code rt = (rt, err (runtime_raised code))

-- `if test: raise AdapterError("PROFILE_INVALID")`.
abbrev pub reject : Bool → Flow (Unit {0})
reject true rt = (rt, err (adapter_raised "PROFILE_INVALID"))
reject false rt = (rt, ok tt)

abbrev pub profile_of : Runtime → RobotProfile
profile_of rt = rt.system.gateway.profile

abbrev pub is_hardware : Runtime → Bool
is_hardware rt = not (is_simulation (profile_of rt).mode)

-- `_hardware_safety_status`.
pub data HardwareSafety : Type 0 where
  simulation_only verified unverified : HardwareSafety

pub hardware_safety_status : Runtime → HardwareSafety
hardware_safety_status rt =
    if not (is_hardware rt)
    then simulation_only
    else if rt.hardware_safety_verified
    then verified
    else unverified

abbrev is_hospital_delivery : AdapterClass → Bool
is_hospital_delivery hospital_delivery = true
is_hospital_delivery _ = false

-- An `except` clause.
abbrev pub caught :
    {A : Type 0} → Runtime × Result Raised A → (Raised → Flow A) → Runtime × Result Raised A
caught (rt, ok x) handler = (rt, ok x)
caught (rt, err e) handler = handler e rt

-- What the adapter and the issuer answer to a request.
pub record Answers : Type 0 where
  pub validated_by : CallResult (Unit {0})
  pub runtime_safety : CallResult (Unit {0})
  pub permit : Option String
  pub started : CallResult AdapterStatus
  pub permit_is_current : Bool
  pub permit_stays_current : Bool
  pub cleanup_starts : Bool
  pub monitor_starts : Bool
  pub cancelled : CallResult AdapterStatus

module _ (w : World) (a : Answers) where
  unfoldable pub latch_then : {A : Type 0} → RuntimeError → Flow A
  latch_then code = latch_adapter_fault w >> raise_code code

  -- `validate_profile` up to `gateway.validate()`.
  validate_body : Flow SafetyTransition
  validate_body rt =
      (called a.validated_by
          >> (called a.runtime_safety
              >> (reject (
                    is_hardware rt
                    && (not rt.physical_estop_bound || is_hospital_delivery rt.adapter))
                  >> (change (λ s. record s {
                    hardware_safety_verified = is_hardware rt || s.hardware_safety_verified;
                  })
                      >> gateway_validate w))))
        rt

  validate_handler : Raised → Flow SafetyTransition
  unfolding latch_then
  validate_handler (adapter_raised code) = latch_then (runtime_error code)
  validate_handler (safety_raised e) = raise_code (safety_error e)
  validate_handler _ = latch_then unsafe_state

  named_profile : String → Flow (Unit {0})
  named_profile profile_name rt =
      require_code (same_text (profile_of rt).name profile_name) profile_invalid rt

  validated_with : SafetyTransition → Flow SafetyState
  validated_with t = append_transition w AuditOperation.validate t none AuditOutcome.ok >> state w

  validate_active : String → Flow SafetyState
  unfolding validate_body validate_handler named_profile validated_with
  validate_active profile_name = named_profile profile_name >> λ rt.
      bound (caught (validate_body rt) validate_handler) validated_with

  unfoldable pub validate_profile : String → Flow SafetyState
  unfolding validate_active unavailable
  validate_profile profile_name rt = refused_by (unavailable rt) (validate_active profile_name) rt

  arm_body : Consumption → Flow (Option SafetyTransition)
  arm_body c rt =
      (called a.runtime_safety
          >> (reject (is_hardware rt && not rt.physical_estop_bound) >> gateway_arm w c))
        rt

  arm_handler : Raised → Flow (Option SafetyTransition)
  unfolding latch_then
  arm_handler (adapter_raised code) = latch_then (runtime_error code)
  arm_handler (safety_raised e) = raise_code (safety_error e)
  arm_handler e = raise e

  arm_now : Consumption → Flow SafetyState
  unfolding arm_body arm_handler
  arm_now c = do
    t ← (λ rt. caught (arm_body c rt) arm_handler)
    append_option w AuditOperation.arm t
    state w

  -- A dry run answers with the state that the gateway has.
  arm_in : Consumption → Bool → SafetyState → Flow SafetyState
  unfolding arm_now
  arm_in c dry_run s rt =
      (require_code (same_state s validated || same_state s armed) unsafe_state
          >> (if dry_run then state w else arm_now c))
        rt

  -- `arm_robot`, given what the challenge answers where it is consumed.
  unfoldable pub arm_robot : String → Consumption → Bool → Flow SafetyState
  unfolding arm_in named_profile unavailable
  arm_robot profile_name c dry_run rt =
      refused_by (unavailable rt) (named_profile profile_name >> (state w >>= arm_in c dry_run)) rt
