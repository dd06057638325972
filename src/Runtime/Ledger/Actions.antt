-- ===== src/Runtime/Ledger/Actions.antt =====
-- Threads on one gateway and its ledger, in any order (agent_ros/runtime/controller.py).
pub mod Invariant
pub mod Drained
pub mod Reached
pub mod Accepted
pub mod Torn
pub mod Quarantined
mod Examples
use ros2_agent_workflow.Common.{
  true, false, ℕ, String, Bool, List, [], ◌∷◌, Option, none, some, Value, ◌==◌, if◌then◌else◌,
}
use ros2_agent_workflow.Gateway.{Gateway, SafetyTransition}
use ros2_agent_workflow.Gateway.Actions
use ros2_agent_workflow.Audit.Schema.{AuditOperation, AuditOutcome}
use ros2_agent_workflow.Audit.{Mapping, RawRecord}
use ros2_agent_workflow.Runtime.Ledger.{
  Item, Ledger, Reference, Storage, register_transition, take_item, write_item, pop_item,
  release_drain, record_audit_failure, empty, Added, added, torn_record,
}

pub data Action : Type 0 where
  gateway_acts : Actions.Action → Action
  registers : AuditOperation → Reference → Option Mapping → AuditOutcome → Action
  takes : Action
  writes : Value → Value → Storage → Action
  pops releases gives_up : Action

-- `log` has the newest record first; `has_torn` tells that a part of a record follows it in the file.
pub record System : Type 0 where
  pub gateway : Gateway
  pub ledger : Ledger
  pub log : List (Item × RawRecord)
  pub has_torn : Bool

abbrev pub logged : Added → List (Item × RawRecord) → List (Item × RawRecord)
logged (added i r) log = (i, r) ∷ log
logged _ log = log

abbrev pub torn_after : Added → Bool → Bool
torn_after torn_record has_torn = true
torn_after _ has_torn = has_torn

-- What comes of a write.
abbrev pub written_to : System → Ledger × Added → System
written_to s (l, a) = record s {
  ledger = l;
  log = logged a s.log;
  has_torn = torn_after a s.has_torn;
}

module _ (encoded_size : RawRecord → ℕ) (session : String) where
  unfoldable pub step : System → Action → System
  step s (gateway_acts a) = record s { gateway = Actions.step s.gateway a }
  step s (registers operation reference d outcome) = record s {
    ledger = (register_transition s.gateway s.ledger operation reference d outcome).0;
  }
  step s takes = record s { ledger = take_item s.gateway s.ledger }
  step s (writes wall_time monotonic_time storage) =
      written_to s (write_item encoded_size s.ledger wall_time monotonic_time session storage)
  step s pops = record s { ledger = pop_item s.ledger }
  step s releases = record s { ledger = release_drain s.ledger }
  step s gives_up = record s { ledger = record_audit_failure s.ledger }

  unfoldable pub run : System → List Action → System
  run s [] = s
  run s (a ∷ actions) = run (step s a) actions

pub start : Gateway → System
start g = record { gateway = g; ledger = empty; log = []; has_torn = false }
