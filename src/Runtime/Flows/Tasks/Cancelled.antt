-- ===== src/Runtime/Flows/Tasks/Cancelled.antt =====
-- A cancellation that raises, and one that the adapter accepts (agent_ros/runtime/controller.py).
use ros2_agent_workflow.Common.{
  ◌≡◌, ◌≢◌, refl, inl, inr, String, none, Result, ok, err, Bool-cases, same_text,
}
use ros2_agent_workflow.Safety.{running, same_state}
use ros2_agent_workflow.Gateway.{SafetyTransition}
use ros2_agent_workflow.Audit.Schema.{AuditOperation, AuditOutcome}
use ros2_agent_workflow.Runtime.Errors.{
  RuntimeError, Raised, runtime_raised, adapter_raised, safety_raised, other_raised, CallResult,
  returned, adapter_error, raised, unsafe_state,
}
use ros2_agent_workflow.Runtime.Flows.{
  World, Runtime, AdapterStatus, bound, raise_code, interfere, state, gateway_cancel,
}
use ros2_agent_workflow.Runtime.Flows.Append.{append_transition, latch_adapter_fault}
use ros2_agent_workflow.Runtime.Flows.Keeps.{
  passive_act, passive_act-Own, Passive, bound-kept, append-Keeps, interfere-kept,
}
use ros2_agent_workflow.Runtime.Flows.Latches.{Halted, Halted-Stable}
use ros2_agent_workflow.Runtime.Flows.Ends.{
  Ends, Ends-err, Ends-Halted, latch-Halted, gateway_cancel-Halted,
}
use ros2_agent_workflow.Runtime.Flows.Requests.{Answers, unavailable, caught, latch_then}
use ros2_agent_workflow.Runtime.Flows.Terminal.{called}
use ros2_agent_workflow.Runtime.Flows.Tasks.{
  Cancelling, done, waiting, require_running, cancel_answered, cancel_known, cancel_body,
  cancel_handler, cancel_caught, append_cancelled, set_cancel, cancel_end, cancel_in, cancel_task,
}
use ros2_agent_workflow.Runtime.Flows.Tasks.Halts.{not_running}

abbrev On : Runtime → Type 0
On rt = Halted rt.system.gateway

-- Where the flow raises, or has cancelled, the gateway does not run.
abbrev Cancelled : Runtime × Result Raised (String × Cancelling) → Type 0
Cancelled (rt, err e) = On rt
Cancelled (rt, ok (answer, done t)) = On rt
Cancelled (rt, ok (answer, waiting)) = Unit {0}

-- The same before the answer is added.
abbrev Answered : Runtime × Result Raised Cancelling → Type 0
Answered (rt, err e) = On rt
Answered (rt, ok (done t)) = On rt
Answered (rt, ok waiting) = Unit {0}

module _ (w : World) (a : Answers) (q : Passive w) where
  latch_then-Halted :
      (A : Type 0) (code : RuntimeError) (rt : Runtime) → On (latch_then w a {A = A} code rt).0
  unfolding latch_then
  latch_then-Halted A code rt =
      bound-kept passive_act passive_act-Own Halted Halted-Stable (latch_adapter_fault w rt)
        (λ _. raise_code {A = A} code) (latch-Halted w rt q) (λ _ rt' h. h)

  Answered-halted : (o : Runtime × Result Raised Cancelling) → On o.0 → Answered o
  Answered-halted (rt, err e) h = h
  Answered-halted (rt, ok (done t)) h = h
  Answered-halted (rt, ok waiting) h = tt

  Cancelled-halted : (o : Runtime × Result Raised (String × Cancelling)) → On o.0 → Cancelled o
  Cancelled-halted (rt, err e) h = h
  Cancelled-halted (rt, ok (answer, done t)) h = h
  Cancelled-halted (rt, ok (answer, waiting)) h = tt

  done_kept :
      (o : Runtime × Result Raised SafetyTransition)
      → On o.0
      → On (bound o (λ t rt. (rt, ok (done t)))).0
  done_kept (rt, err e) h = h
  done_kept (rt, ok t) h = h

  cancel_answered-Answered :
      (answer : String) (rt : Runtime) → Answered (cancel_answered w a answer rt)
  unfolding cancel_answered
  cancel_answered-Answered answer rt = elim (Bool-cases (same_text answer "faulted")) [
    | inl e ↦ rw (e) (
        Answered-halted (latch_then w a unsafe_state rt)
          (latch_then-Halted Cancelling unsafe_state rt))
    | inr e ↦ elim (Bool-cases (same_text answer "cancelled")) [
      | inl f ↦
          rw (e, f)
            (Answered-halted (bound (gateway_cancel w rt) (λ t rt'. (rt', ok (done t))))
              (done_kept (gateway_cancel w rt) (gateway_cancel-Halted w rt q)))
      | inr f ↦ rw (e, f) tt
    ]
  ]

  add_answer :
      (answer : String) (o : Runtime × Result Raised Cancelling)
      → Answered o
      → Cancelled (bound o (λ c rt. (rt, ok (answer, c))))
  add_answer answer (rt, err e) h = h
  add_answer answer (rt, ok (done t)) h = h
  add_answer answer (rt, ok waiting) h = tt

  cancel_known-Cancelled :
      (status : AdapterStatus) (rt : Runtime)
      → Cancelled (cancel_known w a status rt.system.gateway.state rt)
  unfolding cancel_known require_running
  cancel_known-Cancelled status rt =
      elim (Bool-cases (same_state rt.system.gateway.state running)) [
        | inl e ↦ rw (e) (
            add_answer status.state (cancel_answered w a status.state rt)
              (cancel_answered-Answered status.state rt))
        | inr e ↦ rw (e) (not_running rt.system.gateway e)
      ]

  handler-Halted :
      (e : Raised) (rt : Runtime)
      → ((code : RuntimeError) → e ≡ runtime_raised code → On rt)
      → On (cancel_handler w a e rt).0
  unfolding cancel_handler
  handler-Halted (adapter_raised code) rt h = latch_then-Halted (String × Cancelling) _ rt
  handler-Halted (safety_raised e) rt h = latch_then-Halted (String × Cancelling) _ rt
  handler-Halted (runtime_raised code) rt h = h code refl
  handler-Halted other_raised rt h = latch_then-Halted (String × Cancelling) _ rt

  caught-Cancelled :
      (o : Runtime × Result Raised (String × Cancelling))
      → Cancelled o
      → Cancelled (caught o (cancel_handler w a))
  caught-Cancelled (rt, ok (answer, done t)) h = h
  caught-Cancelled (rt, ok (answer, waiting)) h = tt
  caught-Cancelled (rt, err e) h =
      Cancelled-halted (cancel_handler w a e rt) (handler-Halted e rt (λ code k. h))

  status_known :
      (c : CallResult AdapterStatus) (rt : Runtime)
      → Cancelled (
          caught
            (bound (called c rt) (λ status rt'.
              cancel_known w a status (interfere w rt').system.gateway.state (interfere w rt')))
            (cancel_handler w a))
  status_known (returned status) rt =
      caught-Cancelled (cancel_known w a status _ (interfere w rt))
        (cancel_known-Cancelled status (interfere w rt))
  status_known (adapter_error code) rt =
      Cancelled-halted (cancel_handler w a (adapter_raised code) rt)
        (handler-Halted (adapter_raised code) rt (λ code' k. cc))
  status_known raised rt =
      Cancelled-halted (cancel_handler w a other_raised rt)
        (handler-Halted other_raised rt (λ code' k. cc))

  cancel_caught-Cancelled : (rt : Runtime) → Cancelled (cancel_caught w a rt)
  unfolding cancel_caught cancel_body state
  cancel_caught-Cancelled rt = status_known a.cancelled rt

  -- A finished cancellation: an answer that is still waiting raises nothing.
  cancel_end-Cancelled :
      (o : Runtime × Result Raised (String × Cancelling))
      → Cancelled o
      → Ends (λ _ rt. On rt) (bound o (cancel_end w a))
  unfolding cancel_end append_cancelled set_cancel state
  cancel_end-Cancelled (rt, err e) h = h
  cancel_end-Cancelled (rt, ok (answer, waiting)) h = tt
  cancel_end-Cancelled (rt, ok (answer, done t)) h =
      Ends-Halted (λ _ rt'. On rt') (cancel_end w a (answer, done t) rt) (λ e rt' k. k)
        (bound-kept passive_act passive_act-Own Halted Halted-Stable
          (append_transition w AuditOperation.cancel t none AuditOutcome.ok _) _
          (append-Keeps passive_act passive_act-Own Halted Halted-Stable w AuditOperation.cancel t
            none AuditOutcome.ok q _
            (interfere-kept passive_act passive_act-Own Halted Halted-Stable w rt q h))
          (λ _ rt' k. interfere-kept passive_act passive_act-Own Halted Halted-Stable w rt' q k))

  cancel_in-Halted :
      (rt : Runtime) → Ends (λ _ rt'. On rt') (cancel_in w a rt.system.gateway.state rt)
  unfolding cancel_in require_running
  cancel_in-Halted rt = elim (Bool-cases (same_state rt.system.gateway.state running)) [
    | inl e ↦ rw (e) (cancel_end-Cancelled (cancel_caught w a rt) (cancel_caught-Cancelled rt))
    | inr e ↦ rw (e) (not_running rt.system.gateway e)
  ]

-- A cancellation that raises on a runtime that is available leaves the gateway outside RUNNING,
-- whatever the adapter answers and the audit does, as long as no other thread resets the gateway or
-- starts a task.
pub cancel_task_halts :
    (w : World) (a : Answers) (rt : Runtime)
    → Passive w
    → unavailable rt ≡ none
    → (e : Raised) → (cancel_task w a rt).1 ≡ err e
    → (cancel_task w a rt).0.system.gateway.state ≢ running
unfolding cancel_task state
cancel_task_halts w a rt q h e k =
    Ends-err (λ _ rt'. On rt') (cancel_task w a rt) e k
      (rw (h) (cancel_in-Halted w a q (interfere w rt)))
