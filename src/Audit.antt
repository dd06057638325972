-- ===== src/Audit.antt =====
-- agent_ros/runtime/audit.py: the schema of an audit record, and its validation.
pub mod Schema
pub mod Writer
pub mod History
pub mod Event
pub mod Worker
use ros2_agent_workflow.Common.{
  ℕ, String, Bool, true, false, ◌&&◌, ◌||◌, not, List, [], ◌∷◌, Option, none, some, leb, ◌==◌,
  if◌then◌else◌, same_text, contains, codes, all, length, is_lower, is_upper, is_digit, is_some,
  is_empty, Value, Result, ◌>>=◌, ◌>>◌, guard,
}
use ros2_agent_workflow.Common.Result.{ok, err}
use ros2_agent_workflow.Common.Value.{absent, other, boolean, number, text}
use ros2_agent_workflow.Safety.{
  SafetyState, new, discovered, validated, armed, running, stopped, faulted, estopped, same_state,
}
use Schema.{
  AuditOperation, AuditOutcome, valid_transition, parse_operation, parse_outcome, parse_state,
}

-- AuditError, or the TypeError of looking an unhashable value up in a set.
pub data AuditFailure : Type 0 where
  audit_error type_error : AuditFailure

-- A JSON object of scalar values, as its items in order.
abbrev pub Mapping : Type 0
Mapping = List (String × Value)

abbrev pub keys : Mapping → List String
keys [] = []
keys ((k, v) ∷ items) = k ∷ keys items

unfoldable pub get : String → Mapping → Value
get k [] = absent
get k ((j, v) ∷ items) = if same_text j k then v else get k items

-- A JSON object that a line of the log holds: its scalar items, and its three compound ones where
-- they have the shape of an object or a list.
pub record RawRecord : Type 0 where
  pub names : List String
  pub scalars : Mapping
  pub state : Option Mapping
  pub operation_data : Option Mapping
  pub endpoint_gids : Option (List Value)

pub required_names : List String
required_names =
    "wall_time" ∷ "monotonic_time" ∷ "operation" ∷ "state" ∷ "outcome" ∷ "operation_data"
    ∷ "endpoint_gids" ∷ "session_id" ∷ []

-- `set(a) <= set(b)`.
unfoldable pub subset : List String → List String → Bool
subset a b = all (λ k. contains k b) a

abbrev same_set : List String → List String → Bool
same_set a b = subset a b && subset b a

abbrev gid_character : ℕ → Bool
gid_character c = is_upper c || is_lower c || is_digit c || c == b':' || c == b'_' || c == b'-'

matches_gid : List ℕ → Bool
matches_gid cs = leb 1 (length cs) && leb (length cs) 128 && all gid_character cs

abbrev task_head : ℕ → Bool
task_head c = is_lower c || is_digit c

abbrev task_rest : ℕ → Bool
task_rest c = task_head c || c == b'-'

matches_task_name : List ℕ → Bool
matches_task_name [] = false
matches_task_name (c ∷ cs) = task_head c && leb (length cs) 63 && all task_rest cs

abbrev session_character : ℕ → Bool
session_character c = is_digit c || leb b'a' c && leb c b'f'

matches_session : List ℕ → Bool
matches_session cs = length cs == 32 && all session_character cs

abbrev is_gid : Value → Bool
is_gid (text gid) = matches_gid (codes gid)
is_gid _ = false

validate_endpoint_gids : List Value → Bool
unfolding matches_gid codes
validate_endpoint_gids gids = all is_gid gids

pub validate_session_id : Value → Result AuditFailure String
unfolding matches_session codes
validate_session_id (text value) =
    if matches_session (codes value) then ok value else err audit_error
validate_session_id _ = err audit_error

-- An int or a float that is finite, and no bool.
abbrev pub finite_clock : Value → Bool
finite_clock (number z) = true
finite_clock _ = false

error_codes : List String
error_codes =
    "DISCOVERY_UNSAFE" ∷ "ESTOP_LATCHED" ∷ "HEARTBEAT_EXPIRED" ∷ "HEARTBEAT_UNCONFIGURED"
    ∷ "HARDWARE_CHALLENGE" ∷ "INTERNAL_ERROR" ∷ "MOTION_LIMIT" ∷ "OPERATOR_REQUIRED"
    ∷ "PROFILE_UNSUPPORTED" ∷ "UNSAFE_STATE" ∷ []

-- `_validate_error(None, error_code)`.
validate_error : Value → Result AuditFailure (Unit {0})
unfolding error_codes
validate_error absent = ok tt
validate_error other = err type_error
validate_error (text code) = guard (contains code error_codes) audit_error
validate_error _ = err audit_error

unfoldable pub stop_result_keys : List String
stop_result_keys = "latched" ∷ "activation_quiesced" ∷ "safety_command_accepted" ∷ "code" ∷ []

unfoldable pub stop_result_codes : List String
stop_result_codes = "ESTOP_LATCHED" ∷ "SAFETY_COMMAND_REJECTED" ∷ "TRANSPORT_UNQUIESCED" ∷ []

abbrev is_boolean : Value → Bool
is_boolean (boolean b) = true
is_boolean _ = false

abbrev text_in : Value → List String → Bool
text_in (text s) texts = contains s texts
text_in _ texts = false

unfoldable pub validate_stop_data : Mapping → Bool
unfolding stop_result_keys stop_result_codes get
validate_stop_data d =
    same_set (keys d) stop_result_keys
    && is_boolean (get "latched" d)
    && is_boolean (get "activation_quiesced" d)
    && is_boolean (get "safety_command_accepted" d)
    && text_in (get "code" d) stop_result_codes

unfoldable pub motion_keys : List String
motion_keys =
    "task" ∷ "linear_velocity" ∷ "angular_velocity" ∷ "linear_acceleration" ∷ "angular_acceleration"
    ∷ []

abbrev is_task_name : Value → Bool
is_task_name (text s) = matches_task_name (codes s)
is_task_name _ = false

validate_motion_item : String × Value → Bool
unfolding matches_task_name codes
validate_motion_item (key, item) =
    if same_text key "task" then is_task_name item else finite_clock item

-- `operation in {CANCEL, ESTOP} or (operation is HEARTBEAT and outcome is FAULTED)`.
unfoldable pub stop_result_required : AuditOperation → AuditOutcome → Bool
stop_result_required AuditOperation.cancel outcome = true
stop_result_required AuditOperation.estop outcome = true
stop_result_required AuditOperation.heartbeat AuditOutcome.faulted = true
stop_result_required _ outcome = false

abbrev is_start_task : AuditOperation → Bool
is_start_task AuditOperation.start_task = true
is_start_task _ = false

unfoldable pub validate_operation_data : AuditOperation → AuditOutcome → Mapping → Bool
unfolding validate_stop_data validate_motion_item motion_keys
validate_operation_data operation outcome d =
    if stop_result_required operation outcome
    then validate_stop_data d
    else if not (is_start_task operation)
    then is_empty d
    else subset (keys d) motion_keys && all validate_motion_item d

-- What the later checks of a record need of it.
pub record Validated : Type 0 where
  pub session_id : String
  pub before : SafetyState
  pub after : SafetyState

pub or_error : {A : Type 0} → Option A → Result AuditFailure A
or_error none = err audit_error
or_error (some a) = ok a

-- `AuditWriter.validate_record`; its result is what `validate_audit_history` reads afterwards.
pub validate_record : RawRecord → Result AuditFailure Validated
unfolding validate_error validate_endpoint_gids or_error required_names
validate_record r = do
  guard (subset r.names ("error_code" ∷ required_names) && subset required_names r.names)
      audit_error
  state ← or_error r.state
  guard (same_set (keys state) ("from" ∷ "to" ∷ [])) audit_error
  gids ← or_error r.endpoint_gids
  operation ← or_error (parse_operation (get "operation" r.scalars))
  before ← or_error (parse_state (get "from" state))
  after ← or_error (parse_state (get "to" state))
  outcome ← or_error (parse_outcome (get "outcome" r.scalars))
  guard (finite_clock (get "wall_time" r.scalars)) audit_error
  guard (finite_clock (get "monotonic_time" r.scalars)) audit_error
  guard (valid_transition operation before after outcome) audit_error
  d ← or_error r.operation_data
  guard (validate_operation_data operation outcome d) audit_error
  guard (validate_endpoint_gids gids) audit_error
  validate_error (get "error_code" r.scalars)
  session ← validate_session_id (get "session_id" r.scalars)
  ok (record { session_id = session; before = before; after = after })
