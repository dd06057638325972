-- ===== src/Runtime/Flows/Monitor/Halts.antt =====
-- A poll that raises (agent_ros/runtime/controller.py).
use ros2_agent_workflow.Common.{
  ◌≡◌, ◌≢◌, refl, ◌⊎◌, inl, inr, true, none, Result, ok, err, Bool-cases,
}
use ros2_agent_workflow.Safety.{running}
use ros2_agent_workflow.Runtime.Errors.{
  Raised, runtime_raised, adapter_raised, safety_raised, other_raised, audit_integrity_compromised,
  safety_error, timeout,
}
use ros2_agent_workflow.Runtime.Flows.{World, Runtime, AdapterStatus}
use ros2_agent_workflow.Runtime.Flows.Append.{append_latest_gateway_fault}
use ros2_agent_workflow.Runtime.Flows.Keeps.{Passive}
use ros2_agent_workflow.Runtime.Flows.Latches.{Halted}
use ros2_agent_workflow.Runtime.Flows.Ends.{
  Ends, Ends-err, bound-Ends, Ends-weaken, Ends-Halted, Audit, latest_fault-Audit,
}
use ros2_agent_workflow.Runtime.Flows.Monitor.{
  PollAnswers, latch_and_raise, poll_body, poll_handler, handled, poll_running, past_deadline,
}
use ros2_agent_workflow.Runtime.Flows.Monitor.Accounted.{
  Accounted, latch_and_raise-Halted, poll_body-Accounted,
}

abbrev Final : Raised → Runtime → Type 0
Final e rt = Halted rt.system.gateway ⊎ (e ≡ runtime_raised audit_integrity_compromised)

module _ (w : World) (a : PollAnswers) (q : Passive w) where
  latch_and_raise-Final :
      (A : Type 0) (e : Raised) (rt : Runtime) → Ends Final (latch_and_raise w a {A = A} e rt)
  latch_and_raise-Final A e rt =
      Ends-Halted Final (latch_and_raise w a {A = A} e rt) (λ e' rt' k. inl k)
        (latch_and_raise-Halted w a q A e rt)

  handler-Final :
      (A : Type 0) (e : Raised) (rt : Runtime)
      → Accounted e rt
      → Ends Final (poll_handler w a {A = A} e rt)
  unfolding poll_handler
  handler-Final A (adapter_raised code) rt h = latch_and_raise-Final A _ rt
  handler-Final A (safety_raised e) rt h =
      bound-Ends Final (append_latest_gateway_fault w rt)
        (λ _. latch_and_raise w a {A = A} (runtime_raised (safety_error e)))
        (Ends-weaken Audit Final (append_latest_gateway_fault w rt) (λ e' rt' k. inr k)
          (latest_fault-Audit w rt))
        (λ _ rt'. latch_and_raise-Final A (runtime_raised (safety_error e)) rt')
  handler-Final A (runtime_raised code) rt (inl h) = inl h
  handler-Final A (runtime_raised code) rt (inr h) = rw (h) (inr refl)
  handler-Final A other_raised rt h = latch_and_raise-Final A _ rt

  handled-Final :
      {A : Type 0} (o : Runtime × Result Raised A) → Ends Accounted o → Ends Final (handled w a o)
  unfolding handled
  handled-Final (rt, ok x) h = tt
  handled-Final (rt, err e) h = handler-Final _ e rt h

-- A poll of the monitor that raises leaves the gateway outside RUNNING, unless it raises the error of
-- the audit: whatever the adapter answers, as long as no other thread resets the gateway or starts a
-- task, and, for a next stage, the issuer gives a permit and it is current.
pub poll_running_halts :
    (w : World) (a : PollAnswers) (rt : Runtime)
    → Passive w
    → a.permit ≡ none
    → a.permit_is_current ≡ true
    → (e : Raised) → (poll_running w a rt).1 ≡ err e
    → ((poll_running w a rt).0.system.gateway.state ≢ running)
      ⊎ (e ≡ runtime_raised audit_integrity_compromised)
unfolding poll_running
poll_running_halts w a rt q p c e h =
    Ends-err Final (poll_running w a rt) e h
      (elim (Bool-cases (past_deadline rt.stage_deadline (w.turns rt.turn).clock)) [
        | inl d ↦ rw (d) (latch_and_raise-Final w a q AdapterStatus (runtime_raised timeout) rt)
        | inr d ↦ rw (d) (handled-Final w a q (poll_body w a rt) (poll_body-Accounted w a q p c rt))
      ])
