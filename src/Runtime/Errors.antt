-- ===== src/Runtime/Errors.antt =====
-- agent_ros/runtime/errors.py, and what calls of agent_ros/runtime/controller.py raise.
use ros2_agent_workflow.Common.{String, same_text, if◌then◌else◌}
use ros2_agent_workflow.Gateway.{
  SafetyError, latched_estop, profile_unsupported, assertion, challenge_type_error,
}

-- `_PUBLIC_CODES`.
pub data RuntimeError : Type 0 where
  unsafe_state profile_invalid controller_conflict stale_feedback timeout evidence_invalid :
      RuntimeError
  audit_integrity_compromised estop_latched operator_required cleanup_failed : RuntimeError

-- `RuntimeControllerError.__init__`.
pub runtime_error : String → RuntimeError
runtime_error code =
    if same_text code "PROFILE_INVALID"
    then profile_invalid
    else if same_text code "CONTROLLER_CONFLICT"
    then controller_conflict
    else if same_text code "STALE_FEEDBACK"
    then stale_feedback
    else if same_text code "TIMEOUT"
    then timeout
    else if same_text code "EVIDENCE_INVALID"
    then evidence_invalid
    else if same_text code "AUDIT_INTEGRITY_COMPROMISED"
    then audit_integrity_compromised
    else if same_text code "ESTOP_LATCHED"
    then estop_latched
    else if same_text code "OPERATOR_REQUIRED"
    then operator_required
    else if same_text code "CLEANUP_FAILED"
    then cleanup_failed
    else unsafe_state

-- `_safety_error`.
pub safety_error : SafetyError → RuntimeError
safety_error profile_unsupported = profile_invalid
safety_error latched_estop = estop_latched
safety_error SafetyError.operator_required = operator_required
safety_error _ = unsafe_state

-- What the `except` clauses tell apart: an `AdapterError` with its code, a `SafetyError`, a
-- `RuntimeControllerError`, and any other exception.
pub data Raised : Type 0 where
  adapter_raised : String → Raised
  safety_raised : SafetyError → Raised
  runtime_raised : RuntimeError → Raised
  other_raised : Raised

-- A call of the gateway: a failing `assert` and a TypeError are no `SafetyError`.
unfoldable pub raised_by_gateway : SafetyError → Raised
raised_by_gateway assertion = other_raised
raised_by_gateway challenge_type_error = other_raised
raised_by_gateway e = safety_raised e

-- What a call of other code does: it returns, or raises.
pub data CallResult (A : Type 0) : Type 0 where
  returned : A → CallResult A
  adapter_error : String → CallResult A
  raised : CallResult A
