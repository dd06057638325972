-- ===== src/Runtime/Flows/Append.antt =====
-- `_append_transition`, `_append_latest_gateway_fault` and `_latch_adapter_fault` of
-- agent_ros/runtime/controller.py.
use ros2_agent_workflow.Common.{
  ℕ, Bool, true, ◌&&◌, ltb, List, [], ◌∷◌, Option, none, some, Result, ok, err, if◌then◌else◌,
}
use ros2_agent_workflow.Safety.{SafetyState, running, faulted, same_state}
use ros2_agent_workflow.Gateway.{SafetyTransition, transitions_from}
use ros2_agent_workflow.Gateway.Methods.{SafetyStopAttempt}
use ros2_agent_workflow.Audit.{Mapping}
use ros2_agent_workflow.Audit.Schema.{AuditOperation, AuditOutcome}
use ros2_agent_workflow.Runtime.Errors.{
  RuntimeError, Raised, runtime_raised, audit_integrity_compromised,
}
use ros2_agent_workflow.Runtime.Ledger.{Ledger, own, register_transition, record_audit_failure}
use ros2_agent_workflow.Runtime.Ledger.Actions.{run}
use ros2_agent_workflow.Runtime.Flows.{
  World, Runtime, Flow, ◌>>=◌, ◌>>◌, return, raise_code, change, set_ledger, interfere, state,
  gateway_estop,
}

-- The outcome of a registration.
unfoldable pub registered :
    Runtime → Ledger × Result RuntimeError (Unit {0}) → Runtime × Result Raised (Unit {0})
registered rt (l, err code) = (set_ledger l rt, err (runtime_raised code))
registered rt (l, ok u) = (set_ledger l rt, ok u)

module _ (w : World) where
  -- `_register_transition`.
  unfoldable pub register :
      AuditOperation → SafetyTransition → Option Mapping → AuditOutcome → Flow (Unit {0})
  unfolding interfere registered
  register operation t d outcome rt =
      let rt' = interfere w rt in
      registered rt' (
        register_transition rt'.system.gateway rt'.system.ledger operation (own t.sequence) d
          outcome)

  -- `_record_audit_failure`, and the error that the code raises next.
  unfoldable pub compromised : Flow (Unit {0})
  compromised =
      change (λ rt. set_ledger (record_audit_failure rt.system.ledger) rt)
      >> (gateway_estop w >>= λ _. raise_code audit_integrity_compromised)

  -- The rounds of a drain, by this thread and by others.
  unfoldable pub drained : Runtime → Runtime
  drained rt = record rt { system = run w.encoded_size w.session rt.system (w.turns rt.turn).drain }

  -- How the drain ends.
  unfoldable pub drain_end : Bool → ℕ → Ledger → Flow (Unit {0})
  unfolding compromised
  drain_end gives_up sequence l =
      if gives_up
      then compromised
      else if l.audit_failure
      then raise_code audit_integrity_compromised
      else if ltb sequence l.next_audit_sequence
      then return tt
      else compromised

  -- `_drain_pending_transitions(wait_for=sequence)`.
  unfoldable pub drain_pending_transitions : ℕ → Flow (Unit {0})
  unfolding drained drain_end
  drain_pending_transitions sequence rt =
      let rt' = drained rt in drain_end (w.turns rt.turn).gives_up sequence rt'.system.ledger rt'

  unfoldable pub append_transition :
      AuditOperation → SafetyTransition → Option Mapping → AuditOutcome → Flow (Unit {0})
  unfolding register drain_pending_transitions
  append_transition operation t d outcome =
      register operation t d outcome >> drain_pending_transitions t.sequence

  -- Where a method of the gateway gives no transition, nothing is appended.
  unfoldable pub append_option : AuditOperation → Option SafetyTransition → Flow (Unit {0})
  unfolding append_transition
  append_option operation none = return tt
  append_option operation (some t) = append_transition operation t none AuditOutcome.ok

  unfoldable pub stop_monitor : SafetyState → Flow (Unit {0})
  stop_monitor s = change (λ rt. record rt { observed_gateway_state = s; monitor_stop = true })

  -- `_observed_gateway_state = gateway.state`, with the stop of the monitor.
  unfoldable pub observe_and_stop : Flow (Unit {0})
  unfolding stop_monitor
  observe_and_stop = state w >>= stop_monitor

  unfoldable pub append_attempt : SafetyStopAttempt → Flow (Unit {0})
  unfolding append_option observe_and_stop
  append_attempt attempt = append_option AuditOperation.estop attempt.attempted >> observe_and_stop

  unfoldable pub latch_adapter_fault : Flow (Unit {0})
  unfolding append_attempt
  latch_adapter_fault = gateway_estop w >>= append_attempt

  -- The first fault of a running task that the history has from a number on.
  unfoldable pub latest_fault : List SafetyTransition → Option SafetyTransition
  latest_fault [] = none
  latest_fault (t ∷ ts) =
      let rest = latest_fault ts in
      if same_state t.state_before running && same_state t.state_after faulted then some t else rest

  unfoldable pub append_fault : Option SafetyTransition → Flow (Unit {0})
  unfolding append_transition
  append_fault none = return tt
  append_fault (some t) = append_transition AuditOperation.heartbeat t none AuditOutcome.faulted

  unfoldable pub append_latest_gateway_fault : Flow (Unit {0})
  unfolding interfere append_fault latest_fault
  append_latest_gateway_fault rt =
      let rt' = interfere w rt in
      append_fault
        (latest_fault (
          transitions_from rt'.system.ledger.next_audit_sequence
            rt'.system.gateway.transition_history))
        rt'
