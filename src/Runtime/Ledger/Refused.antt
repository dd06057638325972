-- ===== src/Runtime/Ledger/Refused.antt =====
-- `_register_transition` raises one error (agent_ros/runtime/controller.py).
use ros2_agent_workflow.Common.{◌≡◌, Option, none, some, err, arith}
use ros2_agent_workflow.Gateway.{Gateway, SafetyTransition}
use ros2_agent_workflow.Audit.{Mapping}
use ros2_agent_workflow.Audit.Schema.{AuditOperation, AuditOutcome}
use ros2_agent_workflow.Runtime.Errors.{RuntimeError, audit_integrity_compromised}
use ros2_agent_workflow.Runtime.Ledger.{
  Ledger, Item, Reference, item_of, owned_transition, register_item, register_made, register_owned,
  register_transition,
}

register_item-err :
    (l : Ledger) (i : Item) (code : RuntimeError)
    → (register_item l i).1 ≡ err code
    → code ≡ audit_integrity_compromised
unfolding register_item
register_item-err l i code h = ground (arith, h)

register_made-err :
    (l : Ledger) (o : Option Item) (code : RuntimeError)
    → (register_made l o).1 ≡ err code
    → code ≡ audit_integrity_compromised
unfolding register_made
register_made-err l none code h = cc
register_made-err l (some i) code h = register_item-err l i code h

register_owned-err :
    (l : Ledger) (operation : AuditOperation) (d : Option Mapping) (outcome : AuditOutcome)
    (o : Option SafetyTransition) (code : RuntimeError)
    → (register_owned l operation d outcome o).1 ≡ err code
    → code ≡ audit_integrity_compromised
unfolding register_owned
register_owned-err l operation d outcome none code h = cc
register_owned-err l operation d outcome (some t) code h =
    register_made-err l (item_of operation t d outcome) code h

-- The one error of a registration.
pub register_transition-err :
    (g : Gateway) (l : Ledger) (operation : AuditOperation) (reference : Reference)
    (d : Option Mapping) (outcome : AuditOutcome) (code : RuntimeError)
    → (register_transition g l operation reference d outcome).1 ≡ err code
    → code ≡ audit_integrity_compromised
unfolding register_transition
register_transition-err g l operation reference d outcome code h =
    register_owned-err l operation d outcome (owned_transition g reference) code h
