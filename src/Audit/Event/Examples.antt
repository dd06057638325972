-- ===== src/Audit/Event/Examples.antt =====
-- The start of a task, and its record.
use ros2_agent_workflow.Common.{◌≡◌, refl, String, false, [], ◌∷◌, none, some, pos, codes, contains}
use ros2_agent_workflow.Common.Value.{absent, number, text}
use ros2_agent_workflow.Common.Result.{ok}
use ros2_agent_workflow.Safety.{armed, running}
use ros2_agent_workflow.Audit.Schema.{
  AuditOperation, AuditOutcome, valid_transition, success_transition, faulted_transition,
}
use ros2_agent_workflow.Audit.{
  RawRecord, validate_record, validate_operation_data, validate_session_id, matches_session,
  matches_task_name, validate_motion_item, motion_keys, subset, stop_result_required, or_error,
  validate_endpoint_gids,
}
use ros2_agent_workflow.Audit.Event.{
  AuditEvent, recorded_data, recorded_error, encoded, record_event, encode,
}
use ros2_agent_workflow.Audit.Event.Valid.{encode-validate}

abbrev pub session : String
session = "0123456789abcdef0123456789abcdef"

abbrev event : AuditEvent
event = record {
  operation = AuditOperation.start_task;
  state_before = armed;
  state_after = running;
  outcome = AuditOutcome.ok;
  operation_data = some (("task", text "deliver-meds") ∷ []);
  endpoint_gids = some [];
  error = false;
  error_code = absent;
  session_id = absent;
}

abbrev start_record : RawRecord
start_record =
    encoded event (("task", text "deliver-meds") ∷ []) [] none (number (pos 5)) (number (pos 7))
      session

event_encoded : encode (λ r. 300) event (number (pos 5)) (number (pos 7)) session ≡ ok start_record
unfolding encode record_event recorded_data recorded_error valid_transition success_transition
    faulted_transition validate_operation_data validate_motion_item matches_task_name codes subset
    motion_keys contains stop_result_required or_error validate_endpoint_gids validate_session_id
    matches_session
event_encoded = refl

encode-validate_example :
    validate_record start_record
    ≡ ok (record { session_id = session; before = armed; after = running })
encode-validate_example =
    encode-validate (λ r. 300) event (number (pos 5)) (number (pos 7)) session start_record
      event_encoded
