-- ===== src/Runtime/Flows/Monitor/Examples.antt =====
-- A poll of an adapter that fails, while another thread stops the robot.
use ros2_agent_workflow.Common.{◌≡◌, ◌≢◌, refl, ◌⊎◌, true, none}
use ros2_agent_workflow.Safety.{running}
use ros2_agent_workflow.Gateway.{init, transition}
use ros2_agent_workflow.Gateway.Methods.{record_stop, estop_commit, halt}
use ros2_agent_workflow.Gateway.Actions
use ros2_agent_workflow.Runtime.Errors.{
  CallResult, runtime_raised, unsafe_state, audit_integrity_compromised,
}
use ros2_agent_workflow.Runtime.Ledger.{empty}
use ros2_agent_workflow.Runtime.Ledger.Actions.{run, step}
use ros2_agent_workflow.Runtime.Flows.{
  state, interfere, gateway_estop, stop_robot, commit_estop, locked, attempted_by,
}
use ros2_agent_workflow.Runtime.Flows.Append.{
  latch_adapter_fault, append_attempt, append_option, observe_and_stop, stop_monitor,
}
use ros2_agent_workflow.Runtime.Flows.Examples.{stopping, stopping-Passive, moving_on, idle_status}
use ros2_agent_workflow.Runtime.Flows.Monitor.{
  PollAnswers, poll_running, poll_body, handled, poll_handler, latch_and_raise,
}
use ros2_agent_workflow.Runtime.Flows.Monitor.Halts.{poll_running_halts}

abbrev failing : PollAnswers
failing = record {
  status = CallResult.raised;
  frozen = CallResult.raised;
  permit = none;
  started = CallResult.returned idle_status;
  permit_is_current = true;
  cleanup_starts = true;
}

poll_running_halts_example :
    ((poll_running stopping failing moving_on).0.system.gateway.state ≢ running)
    ⊎ (runtime_raised unsafe_state ≡ runtime_raised audit_integrity_compromised)
unfolding poll_running poll_body handled poll_handler latch_and_raise latch_adapter_fault
    append_attempt append_option observe_and_stop stop_monitor state interfere gateway_estop
    stop_robot commit_estop locked attempted_by run step Actions.step record_stop estop_commit halt
    transition init empty
poll_running_halts_example =
    poll_running_halts stopping failing moving_on stopping-Passive refl refl
      (runtime_raised unsafe_state) refl
