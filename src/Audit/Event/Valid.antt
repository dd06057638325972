-- ===== src/Audit/Event/Valid.antt =====
-- The records that are written are valid (agent_ros/runtime/audit.py).
use ros2_agent_workflow.Common.{
  ◌≡◌, refl, ◌∙◌, ap, ℕ, leb, subst, String, Bool, true, false, ◌&&◌, List, [], ◌∷◌, Option, none,
  some, arith, contains, Value, ok, inl, inr, guard, >>=-eq-ok, ok-injective, guard-true,
  Bool-cases,
}
use ros2_agent_workflow.Common.Value.{absent, text}
use ros2_agent_workflow.Safety.{SafetyState}
use ros2_agent_workflow.Audit.Schema.{
  AuditOperation, AuditOutcome, valid_transition, parse_operation, parse_outcome, parse_state,
}
use ros2_agent_workflow.Audit.Writer.{max_record_bytes}
use ros2_agent_workflow.Audit.{
  audit_error, Mapping, keys, get, subset, same_set, RawRecord, Validated, required_names,
  error_codes, finite_clock, stop_result_required, validate_operation_data, validate_stop_data,
  validate_endpoint_gids, validate_error, validate_session_id, or_error, validate_record,
  stop_result_keys, stop_result_codes, is_boolean, text_in,
}
use ros2_agent_workflow.Audit.Event.{
  AuditEvent, operation_value, outcome_value, state_value, recorded_data, recorded_error, encoded,
  record_event, encode, names_of, error_items, is_absent,
}

parse_operation_lem : (o : AuditOperation) → parse_operation (text (operation_value o)) ≡ some o
unfolding parse_operation
parse_operation_lem AuditOperation.discover = refl
parse_operation_lem AuditOperation.validate = refl
parse_operation_lem AuditOperation.arm = refl
parse_operation_lem AuditOperation.start_task = refl
parse_operation_lem AuditOperation.heartbeat = refl
parse_operation_lem AuditOperation.cancel = refl
parse_operation_lem AuditOperation.estop = refl
parse_operation_lem AuditOperation.operator_reset = refl

parse_outcome_lem : (o : AuditOutcome) → parse_outcome (text (outcome_value o)) ≡ some o
unfolding parse_outcome
parse_outcome_lem AuditOutcome.ok = refl
parse_outcome_lem AuditOutcome.rejected = refl
parse_outcome_lem AuditOutcome.faulted = refl

parse_state_lem : (s : SafetyState) → parse_state (text (state_value s)) ≡ some s
unfolding parse_state
parse_state_lem SafetyState.new = refl
parse_state_lem SafetyState.discovered = refl
parse_state_lem SafetyState.validated = refl
parse_state_lem SafetyState.armed = refl
parse_state_lem SafetyState.running = refl
parse_state_lem SafetyState.stopped = refl
parse_state_lem SafetyState.faulted = refl
parse_state_lem SafetyState.estopped = refl

rest_kept : (a b c d e : Bool) → (a && b && c && d && e) ≡ true → (true && b && c && d && e) ≡ true
rest_kept a b c d e h = ground arith

stop_data-validate :
    (d : Mapping)
    → validate_stop_data d ≡ true
    → validate_stop_data (
        ("latched", get "latched" d)
        ∷ ("activation_quiesced", get "activation_quiesced" d)
        ∷ ("safety_command_accepted", get "safety_command_accepted" d)
        ∷ ("code", get "code" d)
        ∷ [])
      ≡ true
unfolding validate_stop_data get subset contains keys stop_result_keys
stop_data-validate d h =
    rest_kept (same_set (keys d) stop_result_keys) (is_boolean (get "latched" d))
      (is_boolean (get "activation_quiesced" d)) (is_boolean (get "safety_command_accepted" d))
      (text_in (get "code" d) stop_result_codes) h

recorded_data_same :
    (operation : AuditOperation) (outcome : AuditOutcome) (d : Mapping)
    → stop_result_required operation outcome ≡ false
    → recorded_data operation outcome d ≡ d
unfolding recorded_data
recorded_data_same operation outcome d e = rw e

recorded_data-validate :
    (operation : AuditOperation) (outcome : AuditOutcome) (d : Mapping)
    → validate_operation_data operation outcome d ≡ true
    → validate_operation_data operation outcome (recorded_data operation outcome d) ≡ true
unfolding validate_operation_data recorded_data
recorded_data-validate operation outcome d h =
    elim (Bool-cases (stop_result_required operation outcome)) [
      | inl e ↦
          rw (recorded_data, validate_operation_data, e)
            (stop_data-validate d (rw (validate_operation_data, e) at h))
      | inr e ↦ rw (recorded_data_same operation outcome d e) h
    ]

names_of-required :
    (code : Option String)
    → (subset (names_of code) ("error_code" ∷ required_names)
        && subset required_names (names_of code))
      ≡ true
unfolding subset required_names contains
names_of-required none = refl
names_of-required (some code) = refl

internal-contains : contains "INTERNAL_ERROR" error_codes ≡ true
unfolding contains error_codes
internal-contains = refl

recorded_error-validate :
    (error : Bool) (v : Value) (code : Option String)
    → recorded_error error v ≡ ok code
    → validate_error (get "error_code" (error_items code)) ≡ ok tt
unfolding recorded_error validate_error get
recorded_error-validate error v none h = refl
recorded_error-validate error (text s) (some code) h = ground arith
recorded_error-validate true absent (some code) h = ground (arith, internal-contains)
recorded_error-validate error v (some code) h = cc

-- What `validate_record` asks of the parts of a record.
record Sound (r : RawRecord) (v : Validated) : Type 0 where
  operation : AuditOperation
  outcome : AuditOutcome
  states : Mapping
  given : Mapping
  gids : List Value
  session : String
  all_names :
      (subset r.names ("error_code" ∷ required_names) && subset required_names r.names) ≡ true
  state_given : r.state ≡ some states
  state_keys : same_set (keys states) ("from" ∷ "to" ∷ []) ≡ true
  gids_given : r.endpoint_gids ≡ some gids
  parsed_operation : parse_operation (get "operation" r.scalars) ≡ some operation
  parsed_before : parse_state (get "from" states) ≡ some v.before
  parsed_after : parse_state (get "to" states) ≡ some v.after
  parsed_outcome : parse_outcome (get "outcome" r.scalars) ≡ some outcome
  wall_time : finite_clock (get "wall_time" r.scalars) ≡ true
  monotonic_time : finite_clock (get "monotonic_time" r.scalars) ≡ true
  allowed : valid_transition operation v.before v.after outcome ≡ true
  data_given : r.operation_data ≡ some given
  data_valid : validate_operation_data operation outcome given ≡ true
  gids_valid : validate_endpoint_gids gids ≡ true
  error_valid : validate_error (get "error_code" r.scalars) ≡ ok tt
  session_valid : validate_session_id (get "session_id" r.scalars) ≡ ok v.session_id

Sound-validate : (r : RawRecord) (v : Validated) → Sound r v → validate_record r ≡ ok v
unfolding validate_record or_error
Sound-validate r v s = rw (
  validate_record, s.all_names, s.state_given, s.state_keys, s.gids_given, s.parsed_operation,
  s.parsed_before, s.parsed_after, s.parsed_outcome, s.wall_time, s.monotonic_time, s.allowed,
  s.data_given, s.data_valid, s.gids_valid, s.error_valid, s.session_valid,
)

session-given :
    (s t : String) → validate_session_id (text s) ≡ ok t → validate_session_id (text t) ≡ ok s
unfolding validate_session_id
session-given s t h = ground arith

encoded-Sound :
    (e : AuditEvent) (d : Mapping) (gids : List Value) (code : Option String)
    (wall_time monotonic_time : Value) (session s : String)
    → finite_clock wall_time ≡ true
    → finite_clock monotonic_time ≡ true
    → valid_transition e.operation e.state_before e.state_after e.outcome ≡ true
    → validate_operation_data e.operation e.outcome d ≡ true
    → validate_endpoint_gids gids ≡ true
    → validate_error (get "error_code" (error_items code)) ≡ ok tt
    → validate_session_id (text session) ≡ ok s
    → Sound
        (encoded e d gids code wall_time monotonic_time s)
        (record { session_id = session; before = e.state_before; after = e.state_after })
unfolding encoded get keys contains subset
encoded-Sound e d gids code wall_time monotonic_time session s w m t v g c given = record {
  operation = e.operation;
  outcome = e.outcome;
  states =
      ("from", text (state_value e.state_before)) ∷ ("to", text (state_value e.state_after)) ∷ [];
  given = d;
  gids = gids;
  session = session;
  all_names = names_of-required code;
  state_given = refl;
  state_keys = refl;
  gids_given = refl;
  parsed_operation = parse_operation_lem e.operation;
  parsed_before = parse_state_lem e.state_before;
  parsed_after = parse_state_lem e.state_after;
  parsed_outcome = parse_outcome_lem e.outcome;
  wall_time = w;
  monotonic_time = m;
  allowed = t;
  data_given = refl;
  data_valid = v;
  gids_valid = g;
  error_valid = c;
  session_valid = session-given session s given;
}

-- Every record that is made for an event passes `validate_record`, which reads from it the writer's
-- session and the states of the event.
pub record_event-validate :
    (e : AuditEvent) (wall_time monotonic_time : Value) (session : String) (r : RawRecord)
    → record_event e wall_time monotonic_time session ≡ ok r
    → validate_record r
      ≡ ok (record { session_id = session; before = e.state_before; after = e.state_after })
unfolding record_event
record_event-validate e wall_time monotonic_time session r h =
    let (_, _, h1) = >>=-eq-ok (guard (is_absent e.session_id) audit_error) _ h in
    let (_, t, h2) =
      >>=-eq-ok
        (guard (valid_transition e.operation e.state_before e.state_after e.outcome) audit_error) _
        h1 in
    let (d, _, h3) = >>=-eq-ok (or_error e.operation_data) _ h2 in
    let (_, v, h4) =
      >>=-eq-ok (guard (validate_operation_data e.operation e.outcome d) audit_error) _ h3 in
    let (gids, _, h5) = >>=-eq-ok (or_error e.endpoint_gids) _ h4 in
    let (_, g, h6) = >>=-eq-ok (guard (validate_endpoint_gids gids) audit_error) _ h5 in
    let (code, c, h7) = >>=-eq-ok (recorded_error e.error e.error_code) _ h6 in
    let (_, w, h8) = >>=-eq-ok (guard (finite_clock wall_time) audit_error) _ h7 in
    let (_, m, h9) = >>=-eq-ok (guard (finite_clock monotonic_time) audit_error) _ h8 in
    let (s, given, h10) = >>=-eq-ok (validate_session_id (text session)) _ h9 in
    subst
      (λ r'.
        validate_record r'
        ≡ ok (record { session_id = session; before = e.state_before; after = e.state_after }))
      (ok-injective h10)
      (Sound-validate _ _ (
        encoded-Sound e (recorded_data e.operation e.outcome d) gids code wall_time monotonic_time
          session s (guard-true audit_error w) (guard-true audit_error m) (guard-true audit_error t)
          (recorded_data-validate e.operation e.outcome d (guard-true audit_error v))
          (guard-true audit_error g) (recorded_error-validate e.error e.error_code code c) given))

-- A record that is encoded is the one made for the event, and its text is no longer than the schema
-- allows.
pub encode-made :
    (encoded_size : RawRecord → ℕ) (e : AuditEvent) (wall_time monotonic_time : Value)
    (session : String) (r : RawRecord)
    → encode encoded_size e wall_time monotonic_time session ≡ ok r
    → (record_event e wall_time monotonic_time session ≡ ok r)
      × (leb (encoded_size r) max_record_bytes ≡ true)
unfolding encode
encode-made encoded_size e wall_time monotonic_time session r h =
    let (a, m, h1) = >>=-eq-ok (record_event e wall_time monotonic_time session) _ h in
    let (_, g, h2) = >>=-eq-ok (guard (leb (encoded_size a) max_record_bytes) audit_error) _ h1 in
    let same = ok-injective h2 in
    (
      m ∙ ap (λ x. ok x) same,
      subst (λ x. leb (encoded_size x) max_record_bytes ≡ true) same (guard-true audit_error g),
    )

-- Whatever event a caller hands to the writer, each record that `_encode` accepts for it, with any
-- clock readings and any session, passes `validate_record`, which reads from it exactly that session
-- and the two states of the event.
pub encode-validate :
    (encoded_size : RawRecord → ℕ) (e : AuditEvent) (wall_time monotonic_time : Value)
    (session : String) (r : RawRecord)
    → encode encoded_size e wall_time monotonic_time session ≡ ok r
    → validate_record r
      ≡ ok (record { session_id = session; before = e.state_before; after = e.state_after })
encode-validate encoded_size e wall_time monotonic_time session r h =
    record_event-validate e wall_time monotonic_time session r
      (encode-made encoded_size e wall_time monotonic_time session r h).0
