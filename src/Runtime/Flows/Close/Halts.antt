-- ===== src/Runtime/Flows/Close/Halts.antt =====
-- A runtime that is stopped (agent_ros/runtime/controller.py).
use ros2_agent_workflow.Common.{
  ◌≢◌, inl, inr, Bool, true, false, ◌||◌, Option, none, some, Result, ok, err, Bool-cases, is_empty,
}
use ros2_agent_workflow.Safety.{SafetyState, running, estopped, same_state}
use ros2_agent_workflow.Gateway.{SafetyTransition}
use ros2_agent_workflow.Gateway.Actions.Running.{fault_commit_halts}
use ros2_agent_workflow.Gateway.Methods.{SafetyStopAttempt}
use ros2_agent_workflow.Audit.Schema.{AuditOperation, AuditOutcome}
use ros2_agent_workflow.Runtime.Errors.{Raised}
use ros2_agent_workflow.Runtime.Ledger.{Ledger}
use ros2_agent_workflow.Runtime.Flows.{
  World, Runtime, state, interfere, locked, stop_robot, gateway_estop,
}
use ros2_agent_workflow.Runtime.Flows.Append.{drained}
use ros2_agent_workflow.Runtime.Flows.Keeps.{
  passive_act, passive_act-Own, Passive, Keeps, bound-kept, >>=-Keeps, interfere-kept, state-Keeps,
  register-Keeps, compromised-Keeps, run-kept,
}
use ros2_agent_workflow.Runtime.Flows.Latches.{Halted, Halted-Stable, gateway_estop-Latched}
use ros2_agent_workflow.Runtime.Flows.Ends.{Ends, Latched-Halted, bound-Halted}
use ros2_agent_workflow.Runtime.Flows.Tasks.Halts.{not_running}
use ros2_agent_workflow.Runtime.Flows.Terminal.{start_task_cleanup}
use ros2_agent_workflow.Runtime.Flows.Close.{
  CloseAnswers, as_failure, idle_end, drain_all, register_stop, stop_registered, stop_running,
  stop_in, fault_if, close_gateway, finish_close, close_rest, drain_twice, close_after,
  stop_runtime,
}

module _ (w : World) (a : CloseAnswers) (q : Passive w) where
  as_failure-kept :
      (o : Runtime × Result Raised (Unit {0}))
      → Halted o.0.system.gateway
      → Halted (as_failure o).0.system.gateway
  unfolding as_failure
  as_failure-kept (rt, ok u) h = h
  as_failure-kept (rt, err e) h = h

  idle_end-Keeps :
      (gives_up : Bool) (l : Ledger)
      → Keeps passive_act passive_act-Own Halted Halted-Stable (idle_end w a gives_up l)
  unfolding idle_end
  idle_end-Keeps true l rt h =
      compromised-Keeps passive_act passive_act-Own Halted Halted-Stable w q rt h
  idle_end-Keeps false l rt h = elim (Bool-cases l.audit_failure) [
    | inl e ↦ rw (e) h
    | inr e ↦ elim (Bool-cases (is_empty l.pending_audit)) [
      | inl f ↦ rw (e, f) h
      | inr f ↦
          rw (e, f) (compromised-Keeps passive_act passive_act-Own Halted Halted-Stable w q rt h)
    ]
  ]

  drain_all-Keeps : Keeps passive_act passive_act-Own Halted Halted-Stable (drain_all w a)
  unfolding drain_all drained
  drain_all-Keeps rt h =
      as_failure-kept
        (idle_end w a (w.turns rt.turn).gives_up (drained w rt).system.ledger (drained w rt))
        (idle_end-Keeps (w.turns rt.turn).gives_up (drained w rt).system.ledger (drained w rt) (
          run-kept passive_act passive_act-Own Halted Halted-Stable w rt.system
            (w.turns rt.turn).drain (q rt.turn).1 h))

  finish_close-Keeps :
      (s : SafetyState) (failed : Bool)
      → Keeps passive_act passive_act-Own Halted Halted-Stable (finish_close w a s failed)
  unfolding finish_close
  finish_close-Keeps s true rt h = h
  finish_close-Keeps s false rt h = h

  close_rest-Keeps :
      (s : SafetyState) (failed : Bool)
      → Keeps passive_act passive_act-Own Halted Halted-Stable (close_rest w a s failed)
  unfolding close_rest
  close_rest-Keeps s failed rt h = finish_close-Keeps s _ rt h

  drain_twice-Keeps :
      (failed : Bool) (s : SafetyState)
      → Keeps passive_act passive_act-Own Halted Halted-Stable (drain_twice w a failed s)
  unfolding drain_twice
  drain_twice-Keeps failed s =
      >>=-Keeps passive_act passive_act-Own Halted Halted-Stable (drain_all w a) _ drain_all-Keeps
        (λ first.
          >>=-Keeps passive_act passive_act-Own Halted Halted-Stable (drain_all w a) _
            drain_all-Keeps (λ second. close_rest-Keeps s _))

  fault_if-Halted :
      (rt : Runtime) → Halted (fault_if w a rt.system.gateway.state rt).0.system.gateway
  unfolding fault_if stop_robot locked
  fault_if-Halted rt = elim (Bool-cases (same_state rt.system.gateway.state running)) [
    | inl e ↦ rw (e) (fault_commit_halts _ _)
    | inr e ↦ rw (e) (not_running rt.system.gateway e)
  ]

  -- Whatever the state before.
  close_gateway-Halted : (rt : Runtime) → Halted (close_gateway w a rt).0.system.gateway
  unfolding close_gateway state locked
  close_gateway-Halted rt =
      bound-kept passive_act passive_act-Own Halted Halted-Stable (fault_if w a _ (interfere w rt))
        _ (fault_if-Halted (interfere w rt))
        (λ _ rt' h. interfere-kept passive_act passive_act-Own Halted Halted-Stable w rt' q h)

  close_after-Halted :
      (failed : Bool) (rt : Runtime) → Halted (close_after w a failed rt).0.system.gateway
  unfolding close_after
  close_after-Halted failed rt =
      bound-kept passive_act passive_act-Own Halted Halted-Stable (close_gateway w a rt) _
        (close_gateway-Halted rt)
        (λ _.
          >>=-Keeps passive_act passive_act-Own Halted Halted-Stable (state w)
            (drain_twice w a failed)
            (state-Keeps passive_act passive_act-Own Halted Halted-Stable w q)
            (drain_twice-Keeps failed))

  register_stop-Keeps :
      (t : Option SafetyTransition)
      → Keeps passive_act passive_act-Own Halted Halted-Stable (register_stop w a t)
  unfolding register_stop
  register_stop-Keeps none rt h = h
  register_stop-Keeps (some t) rt h =
      register-Keeps passive_act passive_act-Own Halted Halted-Stable w AuditOperation.estop t none
        AuditOutcome.ok q rt h

  stop_registered-Keeps :
      (required : Bool) (attempt : SafetyStopAttempt)
      → Keeps passive_act passive_act-Own Halted Halted-Stable
          (stop_registered w a required attempt)
  unfolding stop_registered start_task_cleanup
  stop_registered-Keeps required attempt =
      >>=-Keeps passive_act passive_act-Own Halted Halted-Stable
        (register_stop w a attempt.attempted) _ (register_stop-Keeps attempt.attempted)
        (λ _ rt h. h)

  stop_running-Halted :
      (s : SafetyState) (rt : Runtime) → Halted (stop_running w a s rt).0.system.gateway
  unfolding stop_running
  stop_running-Halted s rt =
      bound-kept passive_act passive_act-Own Halted Halted-Stable (gateway_estop w rt)
        (stop_registered w a (same_state s running))
        (Latched-Halted (gateway_estop w rt).0.system.gateway (gateway_estop-Latched w rt))
        (stop_registered-Keeps (same_state s running))

  halted-Ends :
      {A : Type 0} (o : Runtime × Result Raised A)
      → Halted o.0.system.gateway
      → Ends (λ _ rt. Halted rt.system.gateway) o
  halted-Ends (rt, ok x) h = tt
  halted-Ends (rt, err e) h = h

  stop_in-Ends :
      (s : SafetyState) (rt : Runtime)
      → Ends (λ _ rt'. Halted rt'.system.gateway) (stop_in w a s rt)
  unfolding stop_in state
  stop_in-Ends s rt = elim (Bool-cases (same_state s running || same_state s estopped)) [
    | inl e ↦
        rw (e) (
          halted-Ends (stop_running w a _ (interfere w rt))
            (stop_running-Halted _ (interfere w rt)))
    | inr e ↦ rw (e) tt
  ]

-- However it ends, `stop_runtime` leaves the gateway outside RUNNING: from any state, whatever the
-- adapter, the threads and the audit do, as long as no other thread resets the gateway or starts a
-- task.
pub stop_runtime_halts :
    (w : World) (a : CloseAnswers) (rt : Runtime)
    → Passive w
    → (stop_runtime w a rt).0.system.gateway.state ≢ running
unfolding stop_runtime state
stop_runtime_halts w a rt q =
    let rt' = interfere w (record rt { monitor_stop = true }) in
    bound-Halted (stop_in w a rt'.system.gateway.state rt') (close_after w a)
      (stop_in-Ends w a q rt'.system.gateway.state rt') (close_after-Halted w a q)
