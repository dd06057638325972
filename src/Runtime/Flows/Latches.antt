-- ===== src/Runtime/Flows/Latches.antt =====
-- `_latch_adapter_fault` of agent_ros/runtime/controller.py.
use ros2_agent_workflow.Common.{◌≡◌, ◌≢◌, inr, true}
use ros2_agent_workflow.Safety.{running, estopped}
use ros2_agent_workflow.Gateway.{Gateway}
use ros2_agent_workflow.Gateway.Actions
use ros2_agent_workflow.Gateway.Actions.Latch.{step_latched, estop_commit_latches}
use ros2_agent_workflow.Gateway.Actions.Running.{step_halted}
use ros2_agent_workflow.Runtime.Flows.{
  World, Runtime, attempted_by, interfere, locked, stop_robot, commit_estop, gateway_estop,
}
use ros2_agent_workflow.Runtime.Flows.Append.{append_attempt, latch_adapter_fault}
use ros2_agent_workflow.Runtime.Flows.Keeps.{
  passive_act-Own, Passive, Stable, passive_act, bound-kept, append_attempt-Keeps,
}

abbrev pub Latched : Gateway → Type 0
Latched g = g.state ≡ estopped

abbrev pub Halted : Gateway → Type 0
Halted g = g.state ≢ running

pub Latched-Stable : Stable passive_act Latched
Latched-Stable g a p h =
    (step_latched g a h
      (inr (λ e. let q : passive_act Actions.Action.resets ≡ true = rw (e) at p in cc))).0

pub Halted-Stable : Stable passive_act Halted
Halted-Stable g a p h =
    step_halted g a h
      (λ m now e. let q : passive_act (Actions.Action.starts m now) ≡ true = rw (e) at p in cc)

pub gateway_estop-Latched :
    (w : World) (rt : Runtime) → Latched (gateway_estop w rt).0.system.gateway
unfolding gateway_estop stop_robot commit_estop locked attempted_by
gateway_estop-Latched w rt = estop_commit_latches (interfere w (stop_robot w rt).0).system.gateway _

-- However its calls end, and whatever the ledger and the other threads do, as long as none of them
-- resets the gateway or starts a task, an adapter fault leaves the gateway ESTOPPED.
pub latch_adapter_fault_latches :
    (w : World) (rt : Runtime)
    → Passive w
    → (latch_adapter_fault w rt).0.system.gateway.state ≡ estopped
unfolding latch_adapter_fault
latch_adapter_fault_latches w rt q =
    bound-kept passive_act passive_act-Own Latched Latched-Stable (gateway_estop w rt)
      (append_attempt w) (gateway_estop-Latched w rt)
      (λ a. append_attempt-Keeps passive_act passive_act-Own Latched Latched-Stable w a q)
