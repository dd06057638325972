-- ===== src/Runtime/Flows/Close.antt =====
-- `stop_runtime` of agent_ros/runtime/controller.py, of a runtime that has discovered its robot. What
-- the threads, the audit worker, the adapter and its owner answer are arguments.
pub mod Halts
use ros2_agent_workflow.Common.{
  Bool, true, false, ◌&&◌, ◌||◌, not, List, Option, none, some, Result, ok, err, if◌then◌else◌,
  is_empty,
}
use ros2_agent_workflow.Safety.{SafetyState, running, estopped, same_state, successful}
use ros2_agent_workflow.Gateway.{SafetyTransition}
use ros2_agent_workflow.Gateway.Watchdog.{stop}
use ros2_agent_workflow.Gateway.Methods.{SafetyStopAttempt, fault_commit}
use ros2_agent_workflow.Audit.Schema.{AuditOperation, AuditOutcome}
use ros2_agent_workflow.Runtime.Errors.{
  Raised, RuntimeError, CallResult, returned, adapter_error, raised, cleanup_failed,
  audit_integrity_compromised,
}
use ros2_agent_workflow.Runtime.Ledger.{Ledger}
use ros2_agent_workflow.Runtime.Flows.{
  World, Runtime, Flow, bound, ◌>>=◌, ◌>>◌, return, raise_code, change, locked, state, stop_robot,
  gateway_estop,
}
use ros2_agent_workflow.Runtime.Flows.Append.{register, compromised, drained}
use ros2_agent_workflow.Runtime.Flows.Terminal.{start_task_cleanup}

-- What the joins and closes answer; `owner_closes` is `none` where the factory has no close of its
-- own, or owns the adapter.
pub record CloseAnswers : Type 0 where
  pub cleanup_starts : Bool
  pub watchdog_joins : Bool
  pub threads_join : Bool
  pub worker_closes : Bool
  pub adapter_closes : CallResult Bool
  pub owner_closes : Option (CallResult Bool)

-- Whether a close failed; any exception counts as a failure.
close_failed : CallResult Bool → Bool
close_failed (returned closed) = not closed
close_failed _ = true

owner_failed : Option (CallResult Bool) → Bool
unfolding close_failed
owner_failed none = false
owner_failed (some answer) = close_failed answer

-- An exception of a drain is a failure of the cleanup.
as_failure : Runtime × Result Raised (Unit {0}) → Runtime × Result Raised Bool
as_failure (rt, ok u) = (rt, ok false)
as_failure (rt, err e) = (rt, ok true)

module _ (w : World) (a : CloseAnswers) where
  -- The end of a drain that waits for no number.
  idle_end : Bool → Ledger → Flow (Unit {0})
  idle_end gives_up l =
      if gives_up
      then compromised w
      else if l.audit_failure
      then raise_code audit_integrity_compromised
      else if is_empty l.pending_audit
      then return tt
      else compromised w

  -- `_drain_pending_transitions(timeout=...)`, with its `except` clause.
  drain_all : Flow Bool
  unfolding idle_end as_failure
  drain_all rt =
      let rt' = drained w rt in
      as_failure (idle_end (w.turns rt.turn).gives_up rt'.system.ledger rt')

  register_stop : Option SafetyTransition → Flow (Unit {0})
  register_stop none = return tt
  register_stop (some t) = register w AuditOperation.estop t none AuditOutcome.ok

  -- What is left of the emergency stop: whether a stop that had to succeed did not.
  stop_registered : Bool → SafetyStopAttempt → Flow Bool
  unfolding register_stop
  stop_registered require_successful_stop attempt =
      register_stop attempt.attempted
      >> (start_task_cleanup a.cleanup_starts
          >> return (require_successful_stop && not (successful attempt.result)))

  stop_running : SafetyState → Flow Bool
  unfolding stop_registered
  stop_running s = gateway_estop w >>= stop_registered (same_state s running)

  stop_in : SafetyState → Flow Bool
  unfolding stop_running
  stop_in s =
      if same_state s running || same_state s estopped
      then state w >>= stop_running
      else return false

  fault_if : SafetyState → Flow (Unit {0})
  fault_if s =
      if same_state s running
      then (stop_robot w >>= λ r. locked w (λ g. ((fault_commit g r).0, ok tt)))
      else return tt

  -- `gateway.close`.
  close_gateway : Flow (Unit {0})
  unfolding fault_if
  close_gateway =
      (state w >>= fault_if) >> locked w (λ g. (record g { supervisor = stop g.supervisor }, ok tt))

  finish_close : SafetyState → Bool → Flow SafetyState
  finish_close s true = raise_code cleanup_failed
  finish_close s false = return s

  -- The joins and closes, given whether an earlier part failed.
  close_rest : SafetyState → Bool → Flow SafetyState
  unfolding close_failed owner_failed finish_close
  close_rest s failed rt =
      finish_close s
        (failed
          || not a.threads_join
          || rt.cleanup_start_failed
          || not a.worker_closes
          || close_failed a.adapter_closes
          || owner_failed a.owner_closes)
        rt

  drain_twice : Bool → SafetyState → Flow SafetyState
  unfolding drain_all close_rest
  drain_twice failed s = drain_all >>= λ first.
      drain_all >>= λ second. close_rest s (failed || not a.watchdog_joins || first || second)

  close_after : Bool → Flow SafetyState
  unfolding close_gateway drain_twice
  close_after failed = close_gateway >> (state w >>= drain_twice failed)

  unfoldable pub stop_runtime : Flow SafetyState
  unfolding stop_in close_after
  stop_runtime =
      change (λ rt. record rt { monitor_stop = true }) >> ((state w >>= stop_in) >>= close_after)
