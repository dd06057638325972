-- ===== src/Audit/Event.antt =====
-- `AuditEvent` and `AuditWriter._record` of agent_ros/runtime/audit.py: the record that is written
-- for an event. The readings of the two clocks are arguments.
pub mod Valid
pub mod Examples
use ros2_agent_workflow.Common.{
  String, Bool, true, false, List, [], ◌∷◌, ◌++◌, Option, none, some, contains, if◌then◌else◌,
  Value, Result, ok, err, ◌>>=◌, ◌>>◌, guard, ℕ, leb,
}
use ros2_agent_workflow.Common.Value.{absent, other, text}
use ros2_agent_workflow.Safety.{
  SafetyState, new, discovered, validated, armed, running, stopped, faulted, estopped,
}
use ros2_agent_workflow.Audit.Schema.{AuditOperation, AuditOutcome, valid_transition}
use ros2_agent_workflow.Audit.Writer.{max_record_bytes}
use ros2_agent_workflow.Audit.{
  AuditFailure, audit_error, type_error, Mapping, get, RawRecord, required_names, error_codes,
  finite_clock, stop_result_required, validate_operation_data, validate_endpoint_gids,
  validate_session_id, or_error,
}

-- `operation_data` is `none` where it is no mapping, and `endpoint_gids` where it is no tuple;
-- `error` is whether there is one.
pub record AuditEvent : Type 0 where
  pub operation : AuditOperation
  pub state_before : SafetyState
  pub state_after : SafetyState
  pub outcome : AuditOutcome
  pub operation_data : Option Mapping
  pub endpoint_gids : Option (List Value)
  pub error : Bool
  pub error_code : Value
  pub session_id : Value

-- The values of the enumerations.
abbrev pub operation_value : AuditOperation → String
operation_value AuditOperation.discover = "discover"
operation_value AuditOperation.validate = "validate"
operation_value AuditOperation.arm = "arm"
operation_value AuditOperation.start_task = "start_task"
operation_value AuditOperation.heartbeat = "heartbeat"
operation_value AuditOperation.cancel = "cancel"
operation_value AuditOperation.estop = "estop"
operation_value AuditOperation.operator_reset = "operator_reset"

abbrev pub outcome_value : AuditOutcome → String
outcome_value AuditOutcome.ok = "ok"
outcome_value AuditOutcome.rejected = "rejected"
outcome_value AuditOutcome.faulted = "faulted"

abbrev pub state_value : SafetyState → String
state_value new = "NEW"
state_value discovered = "DISCOVERED"
state_value validated = "VALIDATED"
state_value armed = "ARMED"
state_value running = "RUNNING"
state_value stopped = "STOPPED"
state_value faulted = "FAULTED"
state_value estopped = "ESTOPPED"

-- What `_validate_operation_data` returns for data that it accepts.
recorded_data : AuditOperation → AuditOutcome → Mapping → Mapping
unfolding get
recorded_data operation outcome d =
    if stop_result_required operation outcome
    then ("latched", get "latched" d)
      ∷ ("activation_quiesced", get "activation_quiesced" d)
      ∷ ("safety_command_accepted", get "safety_command_accepted" d)
      ∷ ("code", get "code" d)
      ∷ []
    else d

-- `_validate_error`: the error code of the record, if it has one.
recorded_error : Bool → Value → Result AuditFailure (Option String)
unfolding error_codes
recorded_error error absent = ok (if error then some "INTERNAL_ERROR" else none)
recorded_error error other = err type_error
recorded_error error (text code) =
    if contains code error_codes then ok (some code) else err audit_error
recorded_error error _ = err audit_error

abbrev is_absent : Value → Bool
is_absent absent = true
is_absent _ = false

abbrev names_of : Option String → List String
names_of none = required_names
names_of (some code) = "error_code" ∷ required_names

abbrev error_items : Option String → Mapping
error_items none = []
error_items (some code) = ("error_code", text code) ∷ []

-- The record, once everything in it has been checked.
pub encoded : AuditEvent → Mapping → List Value → Option String → Value → Value → String → RawRecord
unfolding required_names
encoded e d gids code wall_time monotonic_time session = record {
  names = names_of code;
  scalars =
      ("wall_time", wall_time)
      ∷ ("monotonic_time", monotonic_time)
      ∷ ("operation", text (operation_value e.operation))
      ∷ ("outcome", text (outcome_value e.outcome))
      ∷ ("session_id", text session)
      ∷ error_items code;
  state =
      some (
        ("from", text (state_value e.state_before))
        ∷ ("to", text (state_value e.state_after))
        ∷ []);
  operation_data = some d;
  endpoint_gids = some gids;
}

-- `_record`.
pub record_event : AuditEvent → Value → Value → String → Result AuditFailure RawRecord
unfolding recorded_error recorded_data encoded
record_event e wall_time monotonic_time writer_session = do
  guard (is_absent e.session_id) audit_error
  guard (valid_transition e.operation e.state_before e.state_after e.outcome) audit_error
  d ← or_error e.operation_data
  guard (validate_operation_data e.operation e.outcome d) audit_error
  gids ← or_error e.endpoint_gids
  guard (validate_endpoint_gids gids) audit_error
  code ← recorded_error e.error e.error_code
  guard (finite_clock wall_time) audit_error
  guard (finite_clock monotonic_time) audit_error
  session ← validate_session_id (text writer_session)
  ok (encoded e (recorded_data e.operation e.outcome d) gids code wall_time monotonic_time session)

-- `_encode`, given the length of the JSON text of a record with its line break.
pub encode : (RawRecord → ℕ) → AuditEvent → Value → Value → String → Result AuditFailure RawRecord
encode encoded_size e wall_time monotonic_time session = do
  r ← record_event e wall_time monotonic_time session
  guard (leb (encoded_size r) max_record_bytes) audit_error
  ok r
