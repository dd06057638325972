-- ===== src/Runtime/Flows/Tasks/Examples.antt =====
-- A task that the activation issuer refuses, and a cancellation that comes too late.
use ros2_agent_workflow.Common.{◌≡◌, ◌≢◌, refl, ◌⊎◌, false, some}
use ros2_agent_workflow.Safety.{running}
use ros2_agent_workflow.Gateway.{init, transition}
use ros2_agent_workflow.Gateway.Methods.{estop_commit, halt}
use ros2_agent_workflow.Gateway.Actions
use ros2_agent_workflow.Runtime.Flows.Tasks.{cancel_task, cancel_in, require_running}
use ros2_agent_workflow.Runtime.Flows.Tasks.Cancelled.{cancel_task_halts}
use ros2_agent_workflow.Runtime.Flows.Examples.{stopping, stopping-Passive, moving_on}
use ros2_agent_workflow.Runtime.Errors.{
  runtime_raised, runtime_error, unsafe_state, audit_integrity_compromised,
}
use ros2_agent_workflow.Runtime.Ledger.{empty}
use ros2_agent_workflow.Runtime.Ledger.Actions.{run, step}
use ros2_agent_workflow.Runtime.Flows.{state, interfere}
use ros2_agent_workflow.Runtime.Flows.Requests.{unavailable}
use ros2_agent_workflow.Runtime.Flows.Terminal.{permitted}
use ros2_agent_workflow.Runtime.Flows.Examples.{quiet, quiet-Passive, ready, fetch, refusing}
use ros2_agent_workflow.Runtime.Flows.Tasks.{
  run_task, run_in, run_loaded, issue_permit, load_compatible_task,
}
use ros2_agent_workflow.Runtime.Flows.Tasks.Halts.{run_task_halts}
use ros2_agent_workflow.Audit.{subset}

run_task_halts_example :
    ((run_task quiet refusing (some fetch) false ready).0.system.gateway.state ≢ running)
    ⊎ (runtime_raised (runtime_error "UNSAFE_STATE") ≡ runtime_raised audit_integrity_compromised)
unfolding run_task run_in run_loaded issue_permit load_compatible_task permitted state interfere run
    init unavailable empty subset
run_task_halts_example =
    run_task_halts quiet refusing (some fetch) false ready quiet-Passive (λ h. cc) refl
      (runtime_raised (runtime_error "UNSAFE_STATE")) refl

cancel_task_halts_example :
    (cancel_task stopping refusing moving_on).0.system.gateway.state ≢ running
unfolding cancel_task cancel_in require_running state interfere run step Actions.step estop_commit
    halt transition init unavailable empty
cancel_task_halts_example =
    cancel_task_halts stopping refusing moving_on stopping-Passive refl
      (runtime_raised unsafe_state) refl
