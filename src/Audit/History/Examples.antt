-- ===== src/Audit/History/Examples.antt =====
-- A log of two records.
use ros2_agent_workflow.Common.{
  ◌≡◌, refl, true, false, List, [], ◌∷◌, some, pos, contains, codes, ok,
}
use ros2_agent_workflow.Common.Value.{number, text}
use ros2_agent_workflow.Audit.Schema.{
  parse_operation, parse_outcome, parse_state, valid_transition, success_transition,
  faulted_transition, choose,
}
use ros2_agent_workflow.Audit.{
  Validated, RawRecord, Mapping, get, required_names, subset, validate_record,
  validate_endpoint_gids, matches_gid, validate_session_id, matches_session, validate_error,
  error_codes, validate_operation_data, validate_stop_data, validate_motion_item, motion_keys,
  or_error, stop_result_required,
}
use ros2_agent_workflow.Audit.History.{
  Line, validate_audit_history, validated_lines, Plausible, accepted_history-Plausible, scan,
  read_line, follow, enter_session, change_session,
}

abbrev raw : Mapping → Mapping → RawRecord
raw operation state = record {
  names =
      "wall_time" ∷ "monotonic_time" ∷ "operation" ∷ "state" ∷ "outcome" ∷ "operation_data"
      ∷ "endpoint_gids" ∷ "session_id" ∷ [];
  scalars =
      ("wall_time", number (pos 1))
      ∷ ("monotonic_time", number (pos 1))
      ∷ ("outcome", text "ok")
      ∷ ("session_id", text "0123456789abcdef0123456789abcdef")
      ∷ operation;
  state = some state;
  operation_data = some [];
  endpoint_gids = some [];
}

abbrev line : Mapping → Mapping → Line
line operation state = record { size = 300; parsed = some (raw operation state) }

abbrev lines : List Line
lines =
    line (("operation", text "discover") ∷ [])
      (("from", text "NEW") ∷ ("to", text "DISCOVERED") ∷ [])
    ∷ line (("operation", text "validate") ∷ [])
        (("from", text "DISCOVERED") ∷ ("to", text "ARMED") ∷ [])
    ∷ []

lines_accepted : validate_audit_history true false lines ≡ ok tt
unfolding validate_audit_history scan read_line follow enter_session change_session get
    required_names subset validate_record validate_endpoint_gids matches_gid validate_session_id
    matches_session validate_error error_codes validate_operation_data validate_stop_data
    validate_motion_item motion_keys or_error stop_result_required parse_operation parse_outcome
    parse_state valid_transition success_transition faulted_transition choose contains codes
lines_accepted = refl

accepted_history-Plausible_example :
    (vs : List Validated) × (validated_lines lines ≡ some vs) × Plausible vs
accepted_history-Plausible_example = accepted_history-Plausible true false lines lines_accepted
