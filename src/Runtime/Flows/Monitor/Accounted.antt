-- ===== src/Runtime/Flows/Monitor/Accounted.antt =====
-- How the `try` block of a poll raises (agent_ros/runtime/controller.py).
use ros2_agent_workflow.Common.{
  ℕ, suc, ◌≡◌, ◌⊎◌, inl, inr, ◌&&◌, true, false, Option, none, some, Result, ok, err, Bool-cases,
  same_text, contains,
}
use ros2_agent_workflow.Safety.{SafetyState, running, same_state}
use ros2_agent_workflow.Audit.Schema.{AuditOperation, AuditOutcome}
use ros2_agent_workflow.Gateway.{Gateway, SafetyTransition}
use ros2_agent_workflow.Runtime.Budget.{BudgetError}
use ros2_agent_workflow.Runtime.Errors.{
  Raised, runtime_raised, adapter_raised, safety_raised, other_raised, audit_integrity_compromised,
  CallResult, returned, adapter_error, raised,
}
use ros2_agent_workflow.Runtime.Flows.{
  World, Runtime, AdapterStatus, TaskProfile, interfere, state, raise, gateway_cancel,
  gateway_heartbeat,
}
use ros2_agent_workflow.Runtime.Flows.Append.{
  append_transition, observe_and_stop, latch_adapter_fault,
}
use ros2_agent_workflow.Runtime.Flows.Keeps.{
  passive_act, passive_act-Own, Passive, Keeps, bound-kept, >>=-Keeps, append-Keeps, observe-Keeps,
}
use ros2_agent_workflow.Runtime.Flows.Latches.{Halted, Halted-Stable}
use ros2_agent_workflow.Runtime.Flows.Ends.{
  Ends, bound-Ends, Ends-weaken, Ends-Halted, Audit, append-Audit, latch-Halted,
  gateway_cancel-Halted, BeatEnd, gateway_heartbeat-Ends,
}
use ros2_agent_workflow.Runtime.Flows.Monitor.{
  PollAnswers, latch_and_raise, freeze_or_latch, append_cancel, cancel_and_append, clean_and_cancel,
  finish_succeeded_task, append_heartbeat, heartbeat_and_append, heartbeat_in, heartbeat_if_running,
  issue_stage, stage_goes_on, start_stage, read_status, require_permit, next_stage, next_or_finish,
  succeed, follow_in, follow_status, exceeded, check_budget, poll_body, is_hospital_case, stage_at,
  failures, budget_error,
}
use ros2_agent_workflow.Runtime.Flows.Terminal.{
  called, start_task_cleanup, freeze_terminal_evidence, permitted, current_in,
}

-- An error that the `except` clauses handle, or that of the audit.
abbrev pub Handled : Raised → Type 0
Handled (runtime_raised code) = code ≡ audit_integrity_compromised
Handled _ = Unit {0}

abbrev pub Accounted : Raised → Runtime → Type 0
Accounted e rt = Halted rt.system.gateway ⊎ Handled e

Audit-Accounted : (e : Raised) (rt : Runtime) → Audit e rt → Accounted e rt
Audit-Accounted (runtime_raised code) rt h = inr cc
Audit-Accounted (adapter_raised code) rt h = inr tt
Audit-Accounted (safety_raised e) rt h = inr tt
Audit-Accounted other_raised rt h = inr tt

beat-Accounted : (e : Raised) (rt : Runtime) → BeatEnd e rt → Accounted e rt
beat-Accounted e rt (inl h) = inl h
beat-Accounted e rt (inr h) = rw (h) (inr tt)

called-Accounted : {A : Type 0} (c : CallResult A) (rt : Runtime) → Ends Accounted (called c rt)
called-Accounted (returned x) rt = tt
called-Accounted (adapter_error code) rt = inr tt
called-Accounted raised rt = inr tt

not_running : (g : Gateway) → same_state g.state running ≡ false → Halted g
not_running g h e = let r : same_state running running ≡ false = rw (e) at h in cc

module _ (w : World) (a : PollAnswers) (q : Passive w) where
  halted-Accounted :
      {A : Type 0} (o : Runtime × Result Raised A) → Halted o.0.system.gateway → Ends Accounted o
  halted-Accounted o h = Ends-Halted Accounted o (λ e rt k. inl k) h

  pub latch_and_raise-Halted :
      (A : Type 0) (e : Raised) (rt : Runtime)
      → Halted (latch_and_raise w a {A = A} e rt).0.system.gateway
  unfolding latch_and_raise
  latch_and_raise-Halted A e rt =
      bound-kept passive_act passive_act-Own Halted Halted-Stable (latch_adapter_fault w rt)
        (λ _. raise {A = A} e) (latch-Halted w rt q) (λ _ rt' h. h)

  append_cancel-Keeps :
      (t : SafetyTransition)
      → Keeps passive_act passive_act-Own Halted Halted-Stable (append_cancel w a t)
  unfolding append_cancel
  append_cancel-Keeps t =
      >>=-Keeps passive_act passive_act-Own Halted Halted-Stable
        (append_transition w AuditOperation.cancel t none AuditOutcome.ok) (λ _. observe_and_stop w)
        (append-Keeps passive_act passive_act-Own Halted Halted-Stable w AuditOperation.cancel t
          none AuditOutcome.ok q)
        (λ _. observe-Keeps passive_act passive_act-Own Halted Halted-Stable w q)

  cancel_and_append-Halted : (rt : Runtime) → Halted (cancel_and_append w a rt).0.system.gateway
  unfolding cancel_and_append
  cancel_and_append-Halted rt =
      bound-kept passive_act passive_act-Own Halted Halted-Stable (gateway_cancel w rt)
        (append_cancel w a) (gateway_cancel-Halted w rt q) append_cancel-Keeps

  heartbeat_and_append-Accounted : (rt : Runtime) → Ends Accounted (heartbeat_and_append w a rt)
  unfolding heartbeat_and_append append_heartbeat
  heartbeat_and_append-Accounted rt =
      bound-Ends Accounted (gateway_heartbeat w rt) (append_heartbeat w a)
        (Ends-weaken BeatEnd Accounted (gateway_heartbeat w rt) beat-Accounted
          (gateway_heartbeat-Ends w rt))
        (λ t rt'.
          Ends-weaken Audit Accounted (append_heartbeat w a t rt') Audit-Accounted
            (append-Audit w AuditOperation.heartbeat t none AuditOutcome.ok rt'))

  heartbeat_in-Accounted : (s : SafetyState) (rt : Runtime) → Ends Accounted (heartbeat_in w a s rt)
  unfolding heartbeat_in
  heartbeat_in-Accounted s rt = elim (Bool-cases (same_state s running)) [
    | inl e ↦ rw (e) (heartbeat_and_append-Accounted rt)
    | inr e ↦ rw (e) tt
  ]

  heartbeat_if_running-Accounted : (rt : Runtime) → Ends Accounted (heartbeat_if_running w a rt)
  unfolding heartbeat_if_running state
  heartbeat_if_running-Accounted rt = heartbeat_in-Accounted _ (interfere w rt)

  freeze_or_latch-Accounted :
      (o : Runtime × Result Raised (Unit {0})) → Ends Accounted (freeze_or_latch w a o)
  unfolding freeze_or_latch start_task_cleanup
  freeze_or_latch-Accounted (rt, ok u) = tt
  freeze_or_latch-Accounted (rt, err (adapter_raised code)) = inr tt
  freeze_or_latch-Accounted (rt, err (safety_raised e)) = inr tt
  freeze_or_latch-Accounted (rt, err other_raised) = inr tt
  freeze_or_latch-Accounted (rt, err (runtime_raised code)) =
      halted-Accounted (freeze_or_latch w a (rt, err (runtime_raised code))) (
        bound-kept passive_act passive_act-Own Halted Halted-Stable (latch_adapter_fault w rt) _
          (latch-Halted w rt q) (λ _ rt' h. h))

  finish-Accounted : (rt : Runtime) → Ends Accounted (finish_succeeded_task w a rt)
  unfolding finish_succeeded_task clean_and_cancel start_task_cleanup
  finish-Accounted rt =
      bound-Ends Accounted (freeze_or_latch w a (freeze_terminal_evidence a.frozen rt))
        (λ _. clean_and_cancel w a)
        (freeze_or_latch-Accounted (freeze_terminal_evidence a.frozen rt))
        (λ _ rt'. halted-Accounted (clean_and_cancel w a rt') (cancel_and_append-Halted _))

  module _ (p : a.permit ≡ none) (c : a.permit_is_current ≡ true) where
    issue_stage-Accounted : (rt : Runtime) → Ends Accounted (issue_stage w a rt)
    unfolding issue_stage permitted
    issue_stage-Accounted rt = rw (p) tt

    require_permit-Accounted : (rt : Runtime) → Ends Accounted (require_permit w a rt)
    unfolding require_permit current_in state start_task_cleanup
    require_permit-Accounted rt =
        let g = (interfere w rt).system.gateway in
        elim (Bool-cases (same_state g.state running)) [
          | inl e ↦ rw (c, e) tt
          | inr e ↦ rw (c, e) (inl (not_running g e))
        ]

    start_stage-Accounted :
        (stage_timeout : ℕ) (rt : Runtime) → Ends Accounted (start_stage w a stage_timeout rt)
    unfolding start_stage stage_goes_on
    start_stage-Accounted stage_timeout rt =
        bound-Ends Accounted (called a.started rt) _ (called-Accounted a.started rt) (λ _ rt'.
          bound-Ends Accounted (require_permit w a rt') (λ _. stage_goes_on w a stage_timeout)
            (require_permit-Accounted rt') (λ _ rt''. heartbeat_if_running-Accounted _))

    next_stage-Accounted :
        (stage_timeout : ℕ) (rt : Runtime) → Ends Accounted (next_stage w a stage_timeout rt)
    unfolding next_stage
    next_stage-Accounted stage_timeout rt =
        bound-Ends Accounted (issue_stage w a _) (λ _. start_stage w a stage_timeout)
          (issue_stage-Accounted _) (λ _. start_stage-Accounted stage_timeout)

    next_or_finish-Accounted :
        (o : Option ℕ) (rt : Runtime) → Ends Accounted (next_or_finish w a o rt)
    unfolding next_or_finish
    next_or_finish-Accounted none rt = finish-Accounted rt
    next_or_finish-Accounted (some stage_timeout) rt = next_stage-Accounted stage_timeout rt

    succeed-Accounted :
        (task : Option TaskProfile) (rt : Runtime) → Ends Accounted (succeed w a task rt)
    unfolding succeed
    succeed-Accounted none rt = heartbeat_if_running-Accounted rt
    succeed-Accounted (some task) rt = elim (Bool-cases (is_hospital_case rt.adapter)) [
      | inl e ↦ rw (e) (finish-Accounted rt)
      | inr e ↦ rw (e) (next_or_finish-Accounted (stage_at (suc rt.stage_index) task.stages) rt)
    ]

    follow_in-Accounted :
        (s : AdapterStatus) (g : SafetyState) (rt : Runtime)
        → Ends Accounted (follow_in w a s g rt rt)
    unfolding follow_in
    follow_in-Accounted s g rt = elim (Bool-cases (same_state g running)) [
      | inr e ↦ rw (e) tt
      | inl e ↦ elim (Bool-cases (same_text s.state "cancelled" && rt.cancel_requested)) [
        | inl f ↦
            rw (e, f) (halted-Accounted (cancel_and_append w a rt) (cancel_and_append-Halted rt))
        | inr f ↦ elim (Bool-cases (contains s.state failures)) [
          | inl k ↦
              rw (e, f, k)
                (halted-Accounted (latch_and_raise w a _ rt) (latch_and_raise-Halted _ _ rt))
          | inr k ↦ elim (Bool-cases (same_text s.state "succeeded")) [
            | inl l ↦ rw (e, f, k, l) (succeed-Accounted rt.task rt)
            | inr l ↦ rw (e, f, k, l) (heartbeat_if_running-Accounted rt)
          ]
        ]
      ]
    ]

    exceeded-Accounted :
        (o : Option BudgetError) (rt : Runtime) → Ends Accounted (exceeded w a o rt)
    unfolding exceeded
    exceeded-Accounted none rt = tt
    exceeded-Accounted (some e) rt =
        halted-Accounted (exceeded w a (some e) rt) (latch_and_raise-Halted _ _ rt)

    check_budget-Accounted :
        (s : AdapterStatus) (rt : Runtime) → Ends Accounted (check_budget w a s rt)
    unfolding check_budget
    check_budget-Accounted s rt = elim (Bool-cases (is_hospital_case rt.adapter)) [
      | inl e ↦ rw (e) (exceeded-Accounted (budget_error rt.task s) rt)
      | inr e ↦ rw (e) tt
    ]

    read_status-Accounted :
        (s : AdapterStatus) (rt : Runtime) → Ends Accounted (read_status w a s rt)
    unfolding read_status follow_status state
    read_status-Accounted s rt =
        bound-Ends Accounted (check_budget w a s _) _ (check_budget-Accounted s _) (λ _ rt'.
          bound-Ends Accounted (follow_status w a s rt') _
            (follow_in-Accounted s _ (interfere w rt')) (λ _ rt''. tt))

    pub poll_body-Accounted : (rt : Runtime) → Ends Accounted (poll_body w a rt)
    unfolding poll_body
    poll_body-Accounted rt =
        bound-Ends Accounted (called a.status rt) (read_status w a) (called-Accounted a.status rt)
          read_status-Accounted
