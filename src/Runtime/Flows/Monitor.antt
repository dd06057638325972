-- ===== src/Runtime/Flows/Monitor.antt =====
-- The monitor of a running task: `_poll_running` and `_finish_succeeded_task`
-- (agent_ros/runtime/controller.py). What the adapter
-- and the activation issuer answer are arguments.
pub mod Accounted
pub mod Halts
mod Examples
use ros2_agent_workflow.Common.{
  ℕ, zero, suc, ◌+◌, String, Bool, true, false, ◌&&◌, ◌||◌, not, ltb, List, [], ◌∷◌, Option, none,
  some, Result, ok, err, if◌then◌else◌, same_text, contains, is_empty, length, Value, is_some,
}
use ros2_agent_workflow.Gateway.{SafetyTransition}
use ros2_agent_workflow.Safety.{SafetyState, running, same_state}
use ros2_agent_workflow.Audit.{Mapping}
use ros2_agent_workflow.Audit.Schema.{AuditOperation, AuditOutcome}
use ros2_agent_workflow.Runtime.Budget.{BudgetError, hospital_budget_error}
use ros2_agent_workflow.Runtime.Errors.{
  RuntimeError, Raised, runtime_raised, adapter_raised, safety_raised, other_raised, timeout,
  unsafe_state, evidence_invalid, estop_latched, runtime_error, safety_error, CallResult, returned,
  adapter_error, raised,
}
use ros2_agent_workflow.Runtime.Flows.{
  World, Runtime, AdapterStatus, AdapterClass, hospital_case, hospital_delivery, other_adapter,
  TaskProfile, Observation, Flow, bound, ◌>>=◌, ◌>>◌, return, raise, raise_code, get, change, state,
  gateway_cancel, gateway_heartbeat,
}
use ros2_agent_workflow.Runtime.Flows.Append.{
  latch_adapter_fault, append_transition, append_latest_gateway_fault, observe_and_stop,
}
use ros2_agent_workflow.Runtime.Flows.Terminal.{
  Frozen, freeze_terminal_evidence, start_task_cleanup, called, permitted, current_in,
}

-- What one poll is told: the adapter's status, what it freezes, whether the issuer gives a permit,
-- how the next stage starts, whether its permit is current, and whether a cleanup thread starts.
pub record PollAnswers : Type 0 where
  pub status : CallResult AdapterStatus
  pub frozen : CallResult Frozen
  pub permit : Option String
  pub started : CallResult AdapterStatus
  pub permit_is_current : Bool
  pub cleanup_starts : Bool

abbrev pub is_hospital_case : AdapterClass → Bool
is_hospital_case hospital_case = true
is_hospital_case _ = false

-- `status.state in {"failed", "faulted", "rejected", "cancelled"}`.
abbrev failures : List String
failures = "failed" ∷ "faulted" ∷ "rejected" ∷ "cancelled" ∷ []

budget_code : BudgetError → RuntimeError
budget_code BudgetError.unsafe_state = unsafe_state
budget_code BudgetError.timeout = timeout

abbrev stage_timeouts : Option TaskProfile → Option (List ℕ)
stage_timeouts none = none
stage_timeouts (some task) = some task.stages

-- The error of the mission's budget.
pub budget_error : Option TaskProfile → AdapterStatus → Option BudgetError
budget_error task s =
    hospital_budget_error (same_text s.state "starting" || same_text s.state "idle")
      (stage_timeouts task) s.elapsed s.stage_results

abbrev past_deadline : Option ℕ → ℕ → Bool
past_deadline none now = false
past_deadline (some d) now = ltb d now

-- The timeout of a stage, if there is such a stage.
pub stage_at : ℕ → List ℕ → Option ℕ
stage_at n [] = none
stage_at zero (t ∷ stages) = some t
stage_at (suc n) (t ∷ stages) = stage_at n stages

module _ (w : World) (a : PollAnswers) where
  -- `_latch_adapter_fault`, then the error.
  pub latch_and_raise : {A : Type 0} → Raised → Flow A
  latch_and_raise e = do latch_adapter_fault w; raise e

  freeze_or_latch : Runtime × Result Raised (Unit {0}) → Runtime × Result Raised (Unit {0})
  unfolding latch_and_raise
  freeze_or_latch (rt, ok u) = (rt, ok u)
  freeze_or_latch (rt, err (runtime_raised code)) =
      (do latch_adapter_fault w; start_task_cleanup a.cleanup_starts; raise_code code) rt
  freeze_or_latch (rt, err e) = (rt, err e)

  -- `gateway.cancel()`, audited.
  append_cancel : SafetyTransition → Flow (Unit {0})
  append_cancel t =
      append_transition w AuditOperation.cancel t none AuditOutcome.ok >> observe_and_stop w

  pub cancel_and_append : Flow (Unit {0})
  unfolding append_cancel
  cancel_and_append = gateway_cancel w >>= append_cancel

  -- `_finish_succeeded_task`.
  clean_and_cancel : Flow (Unit {0})
  unfolding cancel_and_append
  clean_and_cancel = start_task_cleanup a.cleanup_starts >> cancel_and_append

  pub finish_succeeded_task : Flow (Unit {0})
  unfolding freeze_or_latch clean_and_cancel
  finish_succeeded_task rt =
      bound (freeze_or_latch (freeze_terminal_evidence a.frozen rt)) (λ _. clean_and_cancel)

  append_heartbeat : SafetyTransition → Flow (Unit {0})
  append_heartbeat t = append_transition w AuditOperation.heartbeat t none AuditOutcome.ok

  pub heartbeat_and_append : Flow (Unit {0})
  unfolding append_heartbeat
  heartbeat_and_append = gateway_heartbeat w >>= append_heartbeat

  heartbeat_in : SafetyState → Flow (Unit {0})
  unfolding heartbeat_and_append
  heartbeat_in s = if same_state s running then heartbeat_and_append else return tt

  pub heartbeat_if_running : Flow (Unit {0})
  unfolding heartbeat_in
  heartbeat_if_running = state w >>= heartbeat_in

  -- The permit of the stage.
  pub issue_stage : Flow (Unit {0})
  unfolding permitted
  issue_stage = permitted a.permit

  -- Goes on where the permit is current and the gateway RUNNING.
  pub require_permit : Flow (Unit {0})
  unfolding current_in
  require_permit = state w >>= current_in a.permit_is_current a.cleanup_starts

  -- The stage has started.
  stage_goes_on : ℕ → Flow (Unit {0})
  unfolding heartbeat_if_running
  stage_goes_on stage_timeout =
      change (λ rt. record rt { stage_deadline = some ((w.turns rt.turn).clock + stage_timeout) })
      >> heartbeat_if_running

  start_stage : ℕ → Flow (Unit {0})
  unfolding require_permit stage_goes_on
  start_stage stage_timeout =
      called a.started >>= λ _. require_permit >> stage_goes_on stage_timeout

  pub next_stage : ℕ → Flow (Unit {0})
  unfolding issue_stage start_stage
  next_stage stage_timeout =
      change (λ rt. record rt { stage_index = suc rt.stage_index })
      >> (issue_stage >> start_stage stage_timeout)

  next_or_finish : Option ℕ → Flow (Unit {0})
  unfolding next_stage finish_succeeded_task
  next_or_finish (some stage_timeout) = next_stage stage_timeout
  next_or_finish none = finish_succeeded_task

  pub succeed : Option TaskProfile → Flow (Unit {0})
  unfolding next_or_finish finish_succeeded_task heartbeat_if_running
  succeed none rt = heartbeat_if_running rt
  succeed (some task) rt =
      (if is_hospital_case rt.adapter
          then finish_succeeded_task
          else next_or_finish (stage_at (suc rt.stage_index) task.stages))
        rt

  -- The poll from the test of the gateway's state on.
  follow_in : AdapterStatus → SafetyState → Runtime → Flow (Unit {0})
  unfolding succeed cancel_and_append heartbeat_if_running latch_and_raise
  follow_in s g rt =
      if not (same_state g running)
      then return tt
      else if same_text s.state "cancelled" && rt.cancel_requested
      then cancel_and_append
      else if contains s.state failures
      then latch_and_raise (runtime_raised unsafe_state)
      else if same_text s.state "succeeded"
      then succeed rt.task
      else heartbeat_if_running

  pub follow_status : AdapterStatus → Flow (Unit {0})
  unfolding follow_in
  follow_status s = state w >>= λ g rt. follow_in s g rt rt

  exceeded : Option BudgetError → Flow (Unit {0})
  unfolding latch_and_raise budget_code
  exceeded none = return tt
  exceeded (some e) = latch_and_raise (runtime_raised (budget_code e))

  pub check_budget : AdapterStatus → Flow (Unit {0})
  unfolding exceeded budget_error
  check_budget s rt =
      (if is_hospital_case rt.adapter then exceeded (budget_error rt.task s) else return tt) rt

  read_status : AdapterStatus → Flow AdapterStatus
  unfolding check_budget follow_status
  read_status s =
      change (λ rt. record rt { last_status = some s })
      >> (check_budget s >> (follow_status s >> return s))

  -- The `try` block.
  pub poll_body : Flow AdapterStatus
  unfolding read_status
  poll_body = called a.status >>= read_status

  -- The `except` clauses.
  pub poll_handler : {A : Type 0} → Raised → Flow A
  unfolding latch_and_raise
  poll_handler (adapter_raised code) = latch_and_raise (runtime_raised (runtime_error code))
  poll_handler (safety_raised e) = do
    append_latest_gateway_fault w
    latch_and_raise (runtime_raised (safety_error e))
  poll_handler (runtime_raised code) = raise_code code
  poll_handler other_raised = latch_and_raise (runtime_raised unsafe_state)

  pub handled : {A : Type 0} → Runtime × Result Raised A → Runtime × Result Raised A
  unfolding poll_handler
  handled (rt, ok x) = (rt, ok x)
  handled (rt, err e) = poll_handler e rt

  -- `_poll_running`.
  pub poll_running : Flow AdapterStatus
  unfolding poll_body handled latch_and_raise
  poll_running rt =
      if past_deadline rt.stage_deadline (w.turns rt.turn).clock
      then latch_and_raise (runtime_raised timeout) rt
      else handled (poll_body rt)
