-- ===== src/Runtime/Flows/Unavailable.antt =====
-- A runtime whose audit log has failed (`_record_audit_failure` and `_ensure_available` of
-- agent_ros/runtime/controller.py).
use ros2_agent_workflow.Common.{
  ◌≡◌, refl, String, Bool, List, Option, some, Result, ok, err, if◌then◌else◌, arith,
}
use ros2_agent_workflow.Safety.{EmergencyStopResult}
use ros2_agent_workflow.Challenge.{Consumption}
use ros2_agent_workflow.Gateway.{Gateway, SafetyError}
use ros2_agent_workflow.Runtime.Errors.{
  RuntimeError, Raised, runtime_raised, CallResult, cleanup_failed, audit_integrity_compromised,
}
use ros2_agent_workflow.Runtime.Ledger.{record_audit_failure}
use ros2_agent_workflow.Runtime.Ledger.Actions.{Action, run}
use ros2_agent_workflow.Runtime.Ledger.Actions.Quarantined.{Quarantined, run-Quarantined}
use ros2_agent_workflow.Runtime.Flows.{
  World, Runtime, Flow, TaskProfile, Observation, bound, settled, attempted_by, interfere, locked,
  stop_robot, commit_estop, gateway_estop, raise_code,
}
use ros2_agent_workflow.Runtime.Flows.Append.{compromised}
use ros2_agent_workflow.Runtime.Flows.Requests.{Answers, unavailable, validate_profile, arm_robot}
use ros2_agent_workflow.Runtime.Flows.Tasks.{run_task, cancel_task}
use ros2_agent_workflow.Runtime.Flows.Stops.{emergency_stop, task_status, observe}

-- The request changes nothing and raises the code.
abbrev pub Refused : {A : Type 0} → Runtime → RuntimeError → Runtime × Result Raised A → Type 0
Refused rt code o = o ≡ (rt, err (runtime_raised code))

-- Quarantined, with the note on the cleanup thread that was there.
abbrev Shut : Bool → Runtime → Type 0
Shut failed rt = Quarantined rt.system.ledger × (rt.cleanup_start_failed ≡ failed)

abbrev pub code_of : Bool → RuntimeError
code_of failed = if failed then cleanup_failed else audit_integrity_compromised

unavailable_lem :
    (failed : Bool) (rt : Runtime) → Shut failed rt → unavailable rt ≡ some (code_of failed)
unfolding unavailable
unavailable_lem failed rt h = ground (arith, h.0, h.1)

module _ (failed : Bool) where
  bound-Shut :
      {A B : Type 0} (o : Runtime × Result Raised A) (f : A → Flow B)
      → Shut failed o.0
      → ((a : A) (rt : Runtime) → Shut failed rt → Shut failed (f a rt).0)
      → Shut failed (bound o f).0
  bound-Shut (rt, err e) f h k = h
  bound-Shut (rt, ok a) f h k = k a rt h

  settled-Shut :
      {A : Type 0} (rt : Runtime) (o : Gateway × Result SafetyError A)
      → Shut failed rt
      → Shut failed (settled rt o).0
  settled-Shut rt (g, err e) h = h
  settled-Shut rt (g, ok a) h = h

  interfere-Shut : (w : World) (rt : Runtime) → Shut failed rt → Shut failed (interfere w rt)
  unfolding interfere
  interfere-Shut w rt h =
      (run-Quarantined w.encoded_size w.session rt.system (w.turns rt.turn).others h.0, h.1)

  stop_robot-Shut : (w : World) (rt : Runtime) → Shut failed rt → Shut failed (stop_robot w rt).0
  unfolding stop_robot
  stop_robot-Shut w rt h = interfere-Shut w rt h

  commit_estop-Shut :
      (w : World) (r : EmergencyStopResult) (rt : Runtime)
      → Shut failed rt
      → Shut failed (commit_estop w r rt).0
  unfolding commit_estop locked
  commit_estop-Shut w r rt h =
      settled-Shut (interfere w rt) (attempted_by w r (interfere w rt).system.gateway)
        (interfere-Shut w rt h)

  gateway_estop-Shut :
      (w : World) (rt : Runtime) → Shut failed rt → Shut failed (gateway_estop w rt).0
  unfolding gateway_estop
  gateway_estop-Shut w rt h =
      bound-Shut (stop_robot w rt) (commit_estop w) (stop_robot-Shut w rt h)
        (λ r rt' h'. commit_estop-Shut w r rt' h')

compromised-Shut : (w : World) (rt : Runtime) → Shut rt.cleanup_start_failed (compromised w rt).0
unfolding compromised record_audit_failure
compromised-Shut w rt =
    bound-Shut rt.cleanup_start_failed (gateway_estop w _)
      (λ _. raise_code {A = Unit {0}} audit_integrity_compromised)
      (gateway_estop-Shut rt.cleanup_start_failed w _ (refl, refl)) (λ _ rt' h'. h')

-- The runtime after the audit failure, and after what other threads did then.
abbrev pub after_failure : World → Runtime → List Action → Runtime
after_failure w rt actions =
    let rt' = (compromised w rt).0 in
    record rt' { system = run w.encoded_size w.session rt'.system actions }

-- Once an audit failure has been recorded, and whatever other threads do to the gateway and to the
-- ledger during its emergency stop and afterwards, each call of `validate_profile`, `arm_robot`,
-- `run_task`, `cancel_task`, `emergency_stop`, `task_status` and `observe` changes nothing and raises:
-- CLEANUP_FAILED where a cleanup thread had failed to start before, AUDIT_INTEGRITY_COMPROMISED
-- otherwise. So `emergency_stop` does not reach the gateway any more.
pub audit_failure_refuses :
    (w : World) (rt : Runtime) (actions : List Action) (a : Answers) (name : String)
    (c : Consumption) (dry_run : Bool) (file : Option TaskProfile) (source : String)
    (live : CallResult Observation)
    → let rt' = after_failure w rt actions in
      let code = code_of rt.cleanup_start_failed in
      Refused rt' code (validate_profile w a name rt')
      × Refused rt' code (arm_robot w a name c dry_run rt')
      × Refused rt' code (run_task w a file dry_run rt')
      × Refused rt' code (cancel_task w a rt')
      × Refused rt' code (emergency_stop w rt')
      × Refused rt' code (task_status w rt')
      × Refused rt' code (observe w source live rt')
unfolding validate_profile arm_robot run_task cancel_task emergency_stop task_status observe
audit_failure_refuses w rt actions a name c dry_run file source live =
    let (q, f) = compromised-Shut w rt in
    let h =
      unavailable_lem rt.cleanup_start_failed (after_failure w rt actions)
        (run-Quarantined w.encoded_size w.session (compromised w rt).0.system actions q, f) in
    (rw (h) refl, rw (h) refl, rw (h) refl, rw (h) refl, rw (h) refl, rw (h) refl, rw (h) refl)
