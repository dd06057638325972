-- ===== src/Runtime/Flows/Tasks.antt =====
-- `run_task`, `_load_compatible_task` and `cancel_task` of agent_ros/runtime/controller.py.
pub mod Halts
pub mod Cancelled
mod Examples
use ros2_agent_workflow.Common.{
  ℕ, suc, ◌+◌, String, Bool, true, false, ◌&&◌, ◌||◌, not, List, [], ◌∷◌, Option, none, some,
  Result, ok, err, if◌then◌else◌, same_text, contains, Value, pos,
}
use ros2_agent_workflow.Common.Value.{number, text}
use ros2_agent_workflow.Profile.{RobotProfile, Mode, hardware, simulation}
use ros2_agent_workflow.Safety.{
  SafetyState, validated, armed, running, same_state, successful, EmergencyStopResult,
}
use ros2_agent_workflow.Challenge.{Consumption}
use ros2_agent_workflow.Gateway.{Gateway, SafetyTransition, Motion, is_simulation}
use ros2_agent_workflow.Gateway.Methods.{SafetyStopAttempt}
use ros2_agent_workflow.Audit.{Mapping, subset}
use ros2_agent_workflow.Audit.Schema.{AuditOperation, AuditOutcome}
use ros2_agent_workflow.Runtime.Budget.{time_of}
use ros2_agent_workflow.Runtime.Errors.{
  RuntimeError, Raised, adapter_raised, safety_raised, runtime_raised, other_raised, CallResult,
  unsafe_state, profile_invalid, estop_latched, cleanup_failed, audit_integrity_compromised,
  runtime_error, safety_error,
}
use ros2_agent_workflow.Runtime.Flows.{
  World, Runtime, AdapterClass, hospital_case, hospital_delivery, other_adapter, AdapterStatus,
  TaskProfile, Observation, Flow, ◌>>=◌, ◌>>◌, bound, return, raise, raise_code, change, set_ledger,
  interfere, state, gateway_estop, gateway_validate, gateway_arm, gateway_start_task,
  gateway_heartbeat, gateway_cancel,
}
use ros2_agent_workflow.Runtime.Flows.Append.{
  append_transition, append_option, append_latest_gateway_fault, latch_adapter_fault, register,
  stop_monitor, observe_and_stop,
}
use ros2_agent_workflow.Runtime.Flows.Monitor.{is_hospital_case, stage_at}
use ros2_agent_workflow.Runtime.Flows.Terminal.{permitted, current_in, called, start_task_cleanup}
use ros2_agent_workflow.Runtime.Flows.Requests.{
  Answers, unavailable, refused_by, require_code, reject, profile_of, is_hardware, caught,
  latch_then,
}

-- `_load_compatible_task`, given the task file's profile, or `none` where it is invalid.
unfoldable pub load_compatible_task :
    Option TaskProfile → RobotProfile → Result RuntimeError TaskProfile
load_compatible_task none p = err profile_invalid
load_compatible_task (some task) p =
    if same_text task.robot_profile p.name
      && subset task.required_sensors p.observation_sources
      && subset task.evidence_sources p.observation_sources
    then ok task
    else err profile_invalid

abbrev lifted : {A : Type 0} → Result RuntimeError A → Flow A
lifted (ok x) rt = (rt, ok x)
lifted (err code) rt = (rt, err (runtime_raised code))

-- What a cancellation leaves.
pub data Cancelling : Type 0 where
  done : SafetyTransition → Cancelling
  waiting : Cancelling

module _ (w : World) (a : Answers) where
  abbrev at_rest : Motion
  at_rest = record {
    linear_velocity = number (pos 0);
    angular_velocity = number (pos 0);
    linear_acceleration = number (pos 0);
    angular_acceleration = number (pos 0);
  }

  append_start : TaskProfile → SafetyTransition → Flow (Unit {0})
  append_start task t =
      append_transition w AuditOperation.start_task t (some (("task", text task.name) ∷ []))
        AuditOutcome.ok

  begin_body : TaskProfile → Flow (Unit {0})
  unfolding append_start
  begin_body task = gateway_start_task w at_rest >>= append_start task

  begin_handler : Raised → Flow (Unit {0})
  begin_handler (safety_raised e) = raise_code (safety_error e)
  begin_handler e = raise e

  beat_started : AdapterStatus → Flow AdapterStatus
  beat_started status = gateway_heartbeat w >>= λ t.
      append_transition w AuditOperation.heartbeat t none AuditOutcome.ok >> return status

  started_with : AdapterStatus → Flow AdapterStatus
  unfolding current_in beat_started
  started_with status =
      state w >>= λ s. current_in a.permit_is_current a.cleanup_starts s >> beat_started status

  start_body : Flow AdapterStatus
  unfolding started_with
  start_body = called a.started >>= started_with

  pub start_handler : Raised → Flow AdapterStatus
  start_handler (runtime_raised code) = latch_then w a code
  start_handler (adapter_raised code) = latch_then w a (runtime_error code)
  start_handler (safety_raised e) = append_latest_gateway_fault w >> latch_then w a (safety_error e)
  start_handler other_raised = latch_then w a unsafe_state

  -- `_HOSPITAL_WALL_LIVENESS_TIMEOUT`, in nanoseconds.
  abbrev hospital_wall_liveness_timeout : ℕ
  hospital_wall_liveness_timeout = 600000000000

  abbrev or_zero : Option ℕ → ℕ
  or_zero none = 0
  or_zero (some t) = t

  first_timeout : AdapterClass → TaskProfile → ℕ
  first_timeout adapter task =
      if is_hospital_case adapter
      then hospital_wall_liveness_timeout
      else or_zero (stage_at 0 task.stages)

  -- The fields of the task that runs.
  set_task : TaskProfile → AdapterStatus → SafetyState → Runtime → Runtime
  unfolding first_timeout
  set_task task status s rt = record rt {
    task = some task;
    last_status = some status;
    cancel_requested = false;
    stage_index = 0;
    stage_deadline = some ((w.turns rt.turn).clock + first_timeout rt.adapter task);
    observed_gateway_state = s;
    task_cleanup_started = false;
    terminal_evidence = [];
    terminal_evidence_frozen = false;
  }

  -- `_start_monitor`, with its `except` clauses.
  start_monitor : Bool → Flow (Unit {0})
  start_monitor true = change (λ rt. record rt { monitor_stop = false })
  start_monitor false =
      change (λ rt. record rt { monitor_stop = false }) >> latch_then w a unsafe_state

  keep_task : TaskProfile → AdapterStatus → Flow SafetyState
  unfolding set_task start_monitor
  keep_task task status = state w >>= λ s.
      change (set_task task status s) >> (start_monitor a.monitor_starts >> state w)

  run_started : TaskProfile → AdapterStatus → Flow SafetyState
  unfolding current_in keep_task
  run_started task status =
      state w >>= λ s. current_in a.permit_stays_current a.cleanup_starts s >> keep_task task status

  start_caught : Flow AdapterStatus
  unfolding start_body start_handler
  start_caught rt = caught (start_body rt) start_handler

  start_and_run : TaskProfile → Flow SafetyState
  unfolding start_caught run_started
  start_and_run task = start_caught >>= run_started task

  begin_caught : TaskProfile → Flow (Unit {0})
  unfolding begin_body begin_handler
  begin_caught task rt = caught (begin_body task rt) begin_handler

  -- `run_task` from `gateway.start_task()` on.
  pub run_compatible : TaskProfile → Flow SafetyState
  unfolding begin_caught start_and_run
  run_compatible task = begin_caught task >> start_and_run task

  issue_permit : Flow (Unit {0})
  unfolding permitted
  issue_permit = permitted a.permit

  run_loaded : Bool → TaskProfile → Flow (Option SafetyState)
  unfolding issue_permit run_compatible
  run_loaded true task = return none
  run_loaded false task = issue_permit >> (run_compatible task >>= λ s. return (some s))

  run_in : Option TaskProfile → Bool → SafetyState → Flow (Option SafetyState)
  unfolding load_compatible_task run_loaded
  run_in file dry_run s rt =
      (require_code (same_state s armed) unsafe_state
          >> (lifted (load_compatible_task file (profile_of rt)) >>= run_loaded dry_run))
        rt

  -- `run_task`, given the profile of the task's file; the answer to a dry run has no state.
  unfoldable pub run_task : Option TaskProfile → Bool → Flow (Option SafetyState)
  unfolding run_in unavailable
  run_task file dry_run rt = refused_by (unavailable rt) (state w >>= run_in file dry_run) rt

  require_running : SafetyState → RuntimeError → Flow (Unit {0})
  require_running s code = require_code (same_state s running) code

  cancel_answered : String → Flow Cancelling
  cancel_answered answer =
      if same_text answer "faulted"
      then latch_then w a unsafe_state
      else if same_text answer "cancelled"
      then (gateway_cancel w >>= λ t. return (done t))
      else return waiting

  -- The answer of the adapter, once the gateway's state is known.
  cancel_known : AdapterStatus → SafetyState → Flow (String × Cancelling)
  unfolding require_running cancel_answered
  cancel_known status s =
      require_running s estop_latched
      >> (cancel_answered status.state >>= λ c. return (status.state, c))

  cancel_body : Flow (String × Cancelling)
  unfolding cancel_known
  cancel_body = called a.cancelled >>= λ status. state w >>= cancel_known status

  pub cancel_handler : Raised → Flow (String × Cancelling)
  cancel_handler (adapter_raised code) = latch_then w a (runtime_error code)
  cancel_handler (safety_raised e) = latch_then w a (safety_error e)
  cancel_handler (runtime_raised code) = raise_code code
  cancel_handler other_raised = latch_then w a unsafe_state

  append_cancelled : Cancelling → Flow (Unit {0})
  append_cancelled waiting = return tt
  append_cancelled (done t) =
      change (λ rt. record rt { monitor_stop = true })
      >> append_transition w AuditOperation.cancel t none AuditOutcome.ok

  cancel_caught : Flow (String × Cancelling)
  unfolding cancel_body cancel_handler
  cancel_caught rt = caught (cancel_body rt) cancel_handler

  set_cancel : String → SafetyState → Runtime → Runtime
  set_cancel answer s rt = record rt {
    cancel_requested = same_text answer "cancelling";
    observed_gateway_state = s;
  }

  cancel_end : String × Cancelling → Flow (SafetyState × String)
  unfolding append_cancelled set_cancel
  cancel_end (answer, c) = state w >>= λ s.
      change (set_cancel answer s)
      >> (append_cancelled c >> (state w >>= λ s'. return (s', answer)))

  cancel_in : SafetyState → Flow (SafetyState × String)
  unfolding require_running cancel_caught cancel_end
  cancel_in s = require_running s unsafe_state >> (cancel_caught >>= cancel_end)

  unfoldable pub cancel_task : Flow (SafetyState × String)
  unfolding cancel_in unavailable
  cancel_task rt = refused_by (unavailable rt) (state w >>= cancel_in) rt
