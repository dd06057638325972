-- ===== src/Runtime/Ledger/Actions/Examples.antt =====
-- A robot that is discovered, with its transition registered and recorded.
use ros2_agent_workflow.Common.{
  ◌≡◌, refl, true, ◌||◌, not, List, [], ◌∷◌, ◌++◌, none, some, arith, pos, guard, contains,
}
use ros2_agent_workflow.Common.Value.{number}
use ros2_agent_workflow.Profile.{simulation}
use ros2_agent_workflow.Gateway.{init}
use ros2_agent_workflow.Gateway.Actions.Action.{discovers}
use ros2_agent_workflow.Gateway.Actions.Examples.{robot, graph}
use ros2_agent_workflow.Audit.Schema.{AuditOperation, AuditOutcome}
use ros2_agent_workflow.Audit.Event.Examples.{session}
use ros2_agent_workflow.Audit.{audit_error}
use ros2_agent_workflow.Audit.History.{scan, no_progress, ends_well, validate_audit_history}
use ros2_agent_workflow.Runtime.Ledger.{Reference, stored}
use ros2_agent_workflow.Runtime.Ledger.Actions.{
  Action, System, gateway_acts, registers, takes, writes, pops, releases, run, start,
}
use ros2_agent_workflow.Runtime.Ledger.Actions.Torn.{run_whole}
use ros2_agent_workflow.Runtime.Ledger.Actions.Accepted.{lines_of, last_state, written_log-validate}

abbrev found : List Action
found =
    gateway_acts (discovers graph)
    ∷ registers AuditOperation.discover (Reference.own 0) none AuditOutcome.ok
    ∷ takes
    ∷ writes (number (pos 5)) (number (pos 7)) stored
    ∷ pops
    ∷ releases
    ∷ []

abbrev system : System
system = run (λ r. 300) session (start (init (robot simulation) true)) found

-- The one record that it leaves ends in DISCOVERED, so that the next start of the runtime, which asks
-- for a terminal state, refuses the log.
written_log-validate_example :
    validate_audit_history true true ([] ++ lines_of (λ r. 300) (λ r. some r) system.log)
    ≡ guard (not true || ends_well (last_state none system.log)) audit_error
unfolding scan contains start
written_log-validate_example =
    written_log-validate (λ r. 300) (λ r. some r) (robot simulation) true found session []
      no_progress true (λ r. omega arith) (λ r v h. refl) refl refl refl refl
      (run_whole (λ r. 300) session (start (init (robot simulation) true)) found refl)
