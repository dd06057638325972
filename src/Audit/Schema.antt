-- ===== src/Audit/Schema.antt =====
-- The operations, outcomes and transition tables of agent_ros/runtime/audit.py.
use ros2_agent_workflow.Common.{
  String, Bool, true, false, not, Option, none, some, same_text, if◌then◌else◌, Value, List, [],
  ◌∷◌,
}
use ros2_agent_workflow.Common.Value.{text}
use ros2_agent_workflow.Safety.{
  SafetyState, new, discovered, validated, armed, running, stopped, estopped, same_state,
}

pub data AuditOperation : Type 0 where
  discover validate arm start_task heartbeat cancel estop operator_reset : AuditOperation

pub data AuditOutcome : Type 0 where
  ok rejected faulted : AuditOutcome

-- `_SUCCESS_TRANSITIONS`.
unfoldable pub success_transition : AuditOperation → SafetyState → SafetyState → Bool
success_transition discover new discovered = true
success_transition validate discovered validated = true
success_transition validate discovered armed = true
success_transition arm validated armed = true
success_transition start_task armed running = true
success_transition heartbeat running running = true
success_transition cancel running stopped = true
success_transition estop before estopped = not (same_state before estopped)
success_transition operator_reset estopped new = true
success_transition _ _ _ = false

-- `_FAULTED_TRANSITIONS`.
unfoldable pub faulted_transition : AuditOperation → SafetyState → SafetyState → Bool
faulted_transition heartbeat running SafetyState.faulted = true
faulted_transition _ _ _ = false

-- `_validate_transition`.
unfoldable pub valid_transition : AuditOperation → SafetyState → SafetyState → AuditOutcome → Bool
unfolding success_transition faulted_transition
valid_transition operation before after AuditOutcome.rejected = same_state before after
valid_transition operation before after AuditOutcome.faulted =
    faulted_transition operation before after
valid_transition operation before after AuditOutcome.ok = success_transition operation before after

-- `Enum(value)`: the member of that value, if there is one.
unfoldable pub choose : {A : Type 0} → List (String × A) → Value → Option A
choose [] v = none
choose ((name, a) ∷ members) (text s) =
    let rest = choose members (text s) in if same_text name s then some a else rest
choose (m ∷ members) v = none

unfoldable pub parse_operation : Value → Option AuditOperation
unfolding choose
parse_operation = choose (
    ("discover", discover)
    ∷ ("validate", validate)
    ∷ ("arm", arm)
    ∷ ("start_task", start_task)
    ∷ ("heartbeat", heartbeat)
    ∷ ("cancel", cancel)
    ∷ ("estop", estop)
    ∷ ("operator_reset", operator_reset)
    ∷ [])

unfoldable pub parse_outcome : Value → Option AuditOutcome
unfolding choose
parse_outcome =
    choose
      (("ok", AuditOutcome.ok) ∷ ("rejected", rejected) ∷ ("faulted", AuditOutcome.faulted) ∷ [])

unfoldable pub parse_state : Value → Option SafetyState
unfolding choose
parse_state = choose (
    ("NEW", new)
    ∷ ("DISCOVERED", discovered)
    ∷ ("VALIDATED", validated)
    ∷ ("ARMED", armed)
    ∷ ("RUNNING", running)
    ∷ ("STOPPED", stopped)
    ∷ ("FAULTED", SafetyState.faulted)
    ∷ ("ESTOPPED", estopped)
    ∷ [])
