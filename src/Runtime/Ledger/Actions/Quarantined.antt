-- ===== src/Runtime/Ledger/Actions/Quarantined.antt =====
-- A quarantine of the runtime lasts (agent_ros/runtime/controller.py).
use ros2_agent_workflow.Common.{
  ℕ, ◌≡◌, refl, String, true, ◌||◌, not, List, [], ◌∷◌, Option, none, some, arith, Value, Result,
  ok, err, inl, inr, Bool-cases,
}
use ros2_agent_workflow.Gateway.{Gateway, SafetyTransition}
use ros2_agent_workflow.Audit.{RawRecord, AuditFailure, Mapping}
use ros2_agent_workflow.Audit.Schema.{AuditOperation, AuditOutcome}
use ros2_agent_workflow.Audit.Event.{encode}
use ros2_agent_workflow.Runtime.Ledger.{
  Item, Ledger, Drain, holding, recorded, Storage, stored, lost, late, torn, append_audit,
  store_record, write_item, event_of, register_item, register_made, register_owned, item_of,
  owned_transition, register_transition, take_item, hold_item, next_item, may_take, pop_item,
  pop_written, release_drain, record_audit_failure,
}
use ros2_agent_workflow.Runtime.Ledger.Actions.{Action, System, step, run}

abbrev pub Quarantined : Ledger → Type 0
Quarantined l = l.quarantined ≡ true

register_made-Quarantined :
    (l : Ledger) (i : Option Item) → Quarantined l → Quarantined (register_made l i).0
unfolding register_made register_item
register_made-Quarantined l i h = ground (arith, h)

register_owned-Quarantined :
    (l : Ledger) (operation : AuditOperation) (d : Option Mapping) (outcome : AuditOutcome)
    (t : Option SafetyTransition)
    → Quarantined l
    → Quarantined (register_owned l operation d outcome t).0
unfolding register_owned
register_owned-Quarantined l operation d outcome none h = h
register_owned-Quarantined l operation d outcome (some t) h =
    register_made-Quarantined l (item_of operation t d outcome) h

hold-Quarantined : (l : Ledger) (i : Option Item) → Quarantined l → Quarantined (hold_item l i)
unfolding hold_item
hold-Quarantined l none h = h
hold-Quarantined l (some i) h = h

take_item-Quarantined : (g : Gateway) (l : Ledger) → Quarantined l → Quarantined (take_item g l)
unfolding take_item
take_item-Quarantined g l h = elim (Bool-cases (l.audit_failure || not (may_take l.drain))) [
  | inl e ↦ rw (e) h
  | inr e ↦ rw (e) (hold-Quarantined l (next_item g l) h)
]

store_record-Quarantined :
    (l : Ledger) (i : Item) (storage : Storage) (made : Result AuditFailure RawRecord)
    → Quarantined l
    → Quarantined (store_record l i storage made).0
unfolding store_record record_audit_failure
store_record-Quarantined l i storage (err e) h = refl
store_record-Quarantined l i stored (ok r) h = h
store_record-Quarantined l i lost (ok r) h = refl
store_record-Quarantined l i late (ok r) h = refl
store_record-Quarantined l i torn (ok r) h = refl

pop_written-Quarantined : (l : Ledger) (d : Drain) → Quarantined l → Quarantined (pop_written l d)
unfolding pop_written
pop_written-Quarantined l (recorded i) h = h
pop_written-Quarantined l d h = h

module _ (encoded_size : RawRecord → ℕ) (session : String) where
  append_audit-Quarantined :
      (l : Ledger) (wall_time monotonic_time : Value) (storage : Storage) (d : Drain)
      → Quarantined l
      → Quarantined (append_audit encoded_size l wall_time monotonic_time session storage d).0
  unfolding append_audit
  append_audit-Quarantined l wall_time monotonic_time storage (holding i) h =
      store_record-Quarantined l i storage
        (encode encoded_size (event_of i) wall_time monotonic_time session) h
  append_audit-Quarantined l wall_time monotonic_time storage d h = h

  step-Quarantined :
      (s : System) (a : Action)
      → Quarantined s.ledger
      → Quarantined (step encoded_size session s a).ledger
  unfolding step write_item register_transition pop_item release_drain record_audit_failure
  step-Quarantined s (Action.gateway_acts a) h = h
  step-Quarantined s (Action.registers operation reference d outcome) h =
      register_owned-Quarantined s.ledger operation d outcome (owned_transition s.gateway reference)
        h
  step-Quarantined s Action.takes h = take_item-Quarantined s.gateway s.ledger h
  step-Quarantined s (Action.writes wall_time monotonic_time storage) h =
      append_audit-Quarantined s.ledger wall_time monotonic_time storage s.ledger.drain h
  step-Quarantined s Action.pops h = pop_written-Quarantined s.ledger s.ledger.drain h
  step-Quarantined s Action.releases h = h
  step-Quarantined s Action.gives_up h = refl

  -- No thread takes a quarantine back.
  pub run-Quarantined :
      (s : System) (actions : List Action)
      → Quarantined s.ledger
      → Quarantined (run encoded_size session s actions).ledger
  unfolding run
  run-Quarantined s [] h = h
  run-Quarantined s (a ∷ actions) h =
      run-Quarantined (step encoded_size session s a) actions (step-Quarantined s a h)
