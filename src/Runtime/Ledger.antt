-- ===== src/Runtime/Ledger.antt =====
-- How agent_ros/runtime/controller.py brings the gateway's transitions into the audit log:
-- `_register_transition` by any thread, `_drain_pending_transitions` by one thread at a time, and
-- `_append_audit`. Each definition is a stretch of code under the transition condition, or a write
-- between two of them. A transition that a thread holds is known by its number.
pub mod Actions
pub mod Trace
pub mod Filing
pub mod Refused
use ros2_agent_workflow.Common.{
  ℕ, suc, String, Bool, true, false, ◌&&◌, ◌||◌, not, List, [], ◌∷◌, Option, none, some, ltb, ◌==◌,
  if◌then◌else◌, is_some, same_text, all, Value, ℤ, pos, negsuc, Result, ok, err,
}
use ros2_agent_workflow.Common.Value.{
  absent, nan, infinity, neg_infinity, other, boolean, number, text,
}
use ros2_agent_workflow.Safety.{
  running, faulted, same_state, EmergencyStopResult, StopCode, estop_latched,
  safety_command_rejected, transport_unquiesced,
}
use ros2_agent_workflow.Gateway.{Gateway, SafetyTransition, transitions_from}
use ros2_agent_workflow.Audit.Schema.{AuditOperation, AuditOutcome}
use ros2_agent_workflow.Audit.{AuditFailure, Mapping, keys, get, subset, RawRecord}
use ros2_agent_workflow.Runtime.Errors.{RuntimeError, audit_integrity_compromised}
use ros2_agent_workflow.Audit.Event.{AuditEvent, operation_value, outcome_value, encode}

-- A value of `_pending_audit`.
pub record Item : Type 0 where
  pub operation : AuditOperation
  pub transition : SafetyTransition
  pub operation_data : Option Mapping
  pub outcome : AuditOutcome

-- Where the thread stands that has set `_audit_draining`, if there is one: between two rounds, with
-- an item in hand, or with its item written.
pub data Drain : Type 0 where
  resting between : Drain
  holding recorded : Item → Drain

pub record Ledger : Type 0 where
  pub next_audit_sequence : ℕ
  pub pending_audit : List (ℕ × Item)
  pub audit_failure : Bool
  pub drain : Drain
  pub quarantined : Bool

unfoldable pub empty : Ledger
empty = record {
  next_audit_sequence = 0;
  pending_audit = [];
  audit_failure = false;
  drain = resting;
  quarantined = false;
}

abbrev pub Pending : Type 0
Pending = List (ℕ × Item)

pub get_pending : ℕ → Pending → Option Item
get_pending n [] = none
get_pending n ((k, i) ∷ pending) =
    let rest = get_pending n pending in if k == n then some i else rest

pub pop_pending : ℕ → Pending → Pending
pop_pending n [] = []
pop_pending n ((k, i) ∷ pending) =
    let rest = pop_pending n pending in if k == n then rest else (k, i) ∷ rest

abbrev stop_code_value : StopCode → String
stop_code_value estop_latched = "ESTOP_LATCHED"
stop_code_value safety_command_rejected = "SAFETY_COMMAND_REJECTED"
stop_code_value transport_unquiesced = "TRANSPORT_UNQUIESCED"

-- `_stop_result_data`.
pub stop_result_data : EmergencyStopResult → Mapping
stop_result_data r =
    ("latched", boolean r.latched)
    ∷ ("activation_quiesced", boolean r.activation_quiesced)
    ∷ ("safety_command_accepted", boolean r.safety_command_accepted)
    ∷ ("code", text (stop_code_value r.code))
    ∷ []

-- `existing != item` compares the fields.
abbrev same_bool : Bool → Bool → Bool
same_bool true b = b
same_bool false b = not b

abbrev same_integer : ℤ → ℤ → Bool
same_integer (pos a) (pos b) = a == b
same_integer (negsuc a) (negsuc b) = a == b
same_integer _ _ = false

abbrev same_value : Value → Value → Bool
same_value absent absent = true
same_value infinity infinity = true
same_value neg_infinity neg_infinity = true
same_value (boolean a) (boolean b) = same_bool a b
same_value (number a) (number b) = same_integer a b
same_value (text a) (text b) = same_text a b
same_value _ _ = false

same_mapping : Mapping → Mapping → Bool
same_mapping a b =
    subset (keys a) (keys b)
    && subset (keys b) (keys a)
    && all (λ k. same_value (get k a) (get k b)) (keys a)

same_data : Option Mapping → Option Mapping → Bool
unfolding same_mapping
same_data none none = true
same_data (some a) (some b) = same_mapping a b
same_data _ _ = false

same_stop_result : Option EmergencyStopResult → Option EmergencyStopResult → Bool
same_stop_result none none = true
same_stop_result (some a) (some b) =
    same_bool a.latched b.latched
    && same_bool a.activation_quiesced b.activation_quiesced
    && same_bool a.safety_command_accepted b.safety_command_accepted
    && same_text (stop_code_value a.code) (stop_code_value b.code)
same_stop_result _ _ = false

pub same_item : Item → Item → Bool
unfolding same_data same_stop_result
same_item a b =
    same_text (operation_value a.operation) (operation_value b.operation)
    && a.transition.sequence == b.transition.sequence
    && same_state a.transition.state_before b.transition.state_before
    && same_state a.transition.state_after b.transition.state_after
    && same_stop_result a.transition.stop_result b.transition.stop_result
    && same_data a.operation_data b.operation_data
    && same_text (outcome_value a.outcome) (outcome_value b.outcome)

-- A transition that a caller hands in: one that no gateway made, or the gateway's own of that number.
pub data Reference : Type 0 where
  foreign : Reference
  own : ℕ → Reference

pub find_transition : ℕ → List SafetyTransition → Option SafetyTransition
find_transition n [] = none
find_transition n (t ∷ older) =
    let rest = find_transition n older in if t.sequence == n then some t else rest

-- `owns_transition`, and the transition.
pub owned_transition : Gateway → Reference → Option SafetyTransition
unfolding find_transition
owned_transition g foreign = none
owned_transition g (own n) = find_transition n g.transition_history

-- The data of the item that is registered; `none` where a stop result meets other data.
data_of : Option EmergencyStopResult → Option Mapping → Option (Option Mapping)
unfolding stop_result_data
data_of none d = some d
data_of (some r) none = some (some (stop_result_data r))
data_of (some r) (some _) = none

pub item_of : AuditOperation → SafetyTransition → Option Mapping → AuditOutcome → Option Item
unfolding data_of
item_of operation t d outcome = elim (data_of t.stop_result d) [
  | none ↦ none
  | some d' ↦
      some
        (record { operation = operation; transition = t; operation_data = d'; outcome = outcome })
]

abbrev or_empty : Option Mapping → Mapping
or_empty none = []
or_empty (some d) = d

conflicts : Option Item → Item → Bool
conflicts none i = false
conflicts (some existing) i = not (same_item existing i)

-- The part of `_register_transition` under the condition.
register_item : Ledger → Item → Ledger × Result RuntimeError (Unit {0})
unfolding conflicts
register_item l i =
    let n = i.transition.sequence in
    if l.audit_failure
    then (l, err audit_integrity_compromised)
    else if ltb n l.next_audit_sequence
    then (l, ok tt)
    else if conflicts (get_pending n l.pending_audit) i
    then (l, err audit_integrity_compromised)
    else (record l { pending_audit = (n, i) ∷ pop_pending n l.pending_audit }, ok tt)

register_made : Ledger → Option Item → Ledger × Result RuntimeError (Unit {0})
unfolding register_item
register_made l none = (l, err audit_integrity_compromised)
register_made l (some i) = register_item l i

register_owned :
    Ledger
    → AuditOperation
    → Option Mapping
    → AuditOutcome
    → Option SafetyTransition
    → Ledger × Result RuntimeError (Unit {0})
unfolding register_made item_of
register_owned l operation d outcome none = (l, err audit_integrity_compromised)
register_owned l operation d outcome (some t) = register_made l (item_of operation t d outcome)

unfoldable pub register_transition :
    Gateway
    → Ledger
    → AuditOperation
    → Reference
    → Option Mapping
    → AuditOutcome
    → Ledger × Result RuntimeError (Unit {0})
unfolding register_owned
register_transition g l operation reference d outcome =
    register_owned l operation d outcome (owned_transition g reference)

-- `_infer_gateway_fault`.
fault_item : SafetyTransition → Option Item
fault_item t =
    if same_state t.state_before running && same_state t.state_after faulted
    then some (record {
      operation = AuditOperation.heartbeat;
      transition = t;
      operation_data = elim t.stop_result [ none ↦ none | some r ↦ some (stop_result_data r) ];
      outcome = AuditOutcome.faulted;
    })
    else none

first_fault : ℕ → List SafetyTransition → Option Item
unfolding fault_item
first_fault sequence [] = none
first_fault sequence (t ∷ _) = if t.sequence == sequence then fault_item t else none

pub infer_gateway_fault : Gateway → ℕ → Option Item
unfolding first_fault
infer_gateway_fault g sequence =
    first_fault sequence (transitions_from sequence g.transition_history)

abbrev or_else : Option Item → Option Item → Option Item
or_else none inferred = inferred
or_else (some i) inferred = some i

-- The item that the drain takes next, if there is one.
pub next_item : Gateway → Ledger → Option Item
unfolding infer_gateway_fault
next_item g l =
    or_else (get_pending l.next_audit_sequence l.pending_audit)
      (infer_gateway_fault g l.next_audit_sequence)

abbrev may_take : Drain → Bool
may_take resting = true
may_take between = true
may_take _ = false

hold_item : Ledger → Option Item → Ledger
hold_item l none = l
hold_item l (some i) = record l { drain = holding i }

-- A round of the drain up to its write: by a thread that finds no other draining, or by the one that
-- is, between two items.
unfoldable pub take_item : Gateway → Ledger → Ledger
unfolding hold_item
take_item g l = if l.audit_failure || not (may_take l.drain) then l else hold_item l (next_item g l)

-- `_record_audit_failure`, without the emergency stop of the gateway that follows.
unfoldable pub record_audit_failure : Ledger → Ledger
record_audit_failure l = record l { audit_failure = true; quarantined = true }

-- The event of an item, as `_append_audit` makes it.
pub event_of : Item → AuditEvent
event_of i = record {
  operation = i.operation;
  state_before = i.transition.state_before;
  state_after = i.transition.state_after;
  outcome = i.outcome;
  operation_data = some (or_empty i.operation_data);
  endpoint_gids = some [];
  error = false;
  error_code = absent;
  session_id = absent;
}

-- What becomes of an encoded record: it is stored; it is lost; the append is reported as failed, as
-- after a timeout, and the record is stored all the same; or it fails after a part of the record was
-- written and `_rollback` cannot take that part away.
pub data Storage : Type 0 where
  stored lost late torn : Storage

-- What an append leaves in the log: nothing, the record, or a part of it.
pub data Added : Type 0 where
  nothing_added : Added
  added : Item → RawRecord → Added
  torn_record : Added

-- How an append of the record ends.
store_record : Ledger → Item → Storage → Result AuditFailure RawRecord → Ledger × Added
unfolding record_audit_failure
store_record l i storage (err e) =
    (record_audit_failure (record l { drain = resting }), nothing_added)
store_record l i stored (ok r) = (record l { drain = recorded i }, added i r)
store_record l i lost (ok r) = (record_audit_failure (record l { drain = resting }), nothing_added)
store_record l i late (ok r) = (record_audit_failure (record l { drain = resting }), added i r)
store_record l i torn (ok r) = (record_audit_failure (record l { drain = resting }), torn_record)

module _ (encoded_size : RawRecord → ℕ) where
  pub append_audit : Ledger → Value → Value → String → Storage → Drain → Ledger × Added
  unfolding store_record
  append_audit l wall_time monotonic_time session storage (holding i) =
      store_record l i storage (encode encoded_size (event_of i) wall_time monotonic_time session)
  append_audit l wall_time monotonic_time session storage _ = (l, nothing_added)

  -- `_append_audit` of the item in hand, given the lengths of the records' texts, the two clocks and
  -- the session of the writer: the ledger, and what has come into the log.
  unfoldable pub write_item : Ledger → Value → Value → String → Storage → Ledger × Added
  unfolding append_audit
  write_item l wall_time monotonic_time session storage =
      append_audit l wall_time monotonic_time session storage l.drain

pub pop_written : Ledger → Drain → Ledger
pop_written l (recorded i) = record l {
  pending_audit = pop_pending l.next_audit_sequence l.pending_audit;
  next_audit_sequence = suc l.next_audit_sequence;
  drain = between;
}
pop_written l _ = l

-- The round's last locked part.
unfoldable pub pop_item : Ledger → Ledger
unfolding pop_written
pop_item l = pop_written l l.drain

pub rested : Drain → Drain
rested between = resting
rested d = d

-- The `finally` block.
unfoldable pub release_drain : Ledger → Ledger
unfolding rested
release_drain l = record l { drain = rested l.drain }
