-- ===== src/Runtime/Flows/Requests/Bound.antt =====
-- A hardware robot needs a bound physical stop (agent_ros/runtime/controller.py).
use ros2_agent_workflow.Common.{
  ℕ, ◌<◌, ◌≡◌, ◌≢◌, refl, inl, inr, Option-cases, String, All, Bool, true, false, Result, ok, err,
  same_text,
}
use ros2_agent_workflow.Safety.{validated}
use ros2_agent_workflow.Gateway.{SafetyTransition}
use ros2_agent_workflow.Runtime.Errors.{
  RuntimeError, Raised, adapter_raised, safety_raised, runtime_raised, other_raised, CallResult,
  profile_invalid, safety_error, returned, adapter_error, raised,
}
use ros2_agent_workflow.Runtime.Flows.{World, Runtime, Flow, bound, raise_code}
use ros2_agent_workflow.Runtime.Flows.Append.{latch_adapter_fault}
use ros2_agent_workflow.Runtime.Flows.Keeps.{Confined, latch-Keeps}
use ros2_agent_workflow.Runtime.Flows.Unvalidated.{
  no_validate, no_validate-Own, Unvalidated, Unvalidated-Stable, old_entries,
}
use ros2_agent_workflow.Runtime.Flows.Terminal.{called}
use ros2_agent_workflow.Runtime.Flows.Requests.{
  caught, is_hardware, require_code, profile_of, Answers, unavailable, latch_then, validate_body,
  validate_handler, named_profile, validated_with, validate_active, validate_profile,
}

-- The request raises, and leaves the gateway unvalidated since number `n`.
abbrev pub NotValidated : {A : Type 0} → ℕ → Runtime × Result Raised A → Type 0
NotValidated n o = ((e : Raised) × (o.1 ≡ err e)) × Unvalidated n o.0.system.gateway

module _ (n : ℕ) where
  bound-NotValidated :
      {A B : Type 0} (o : Runtime × Result Raised A) (f : A → Flow B)
      → NotValidated n o
      → NotValidated n (bound o f)
  bound-NotValidated (rt, err e) f h = ((e, refl), h.1)
  bound-NotValidated (rt, ok a) f ((e, h), v) = cc

  then_raised :
      (B : Type 0) {A : Type 0} (o : Runtime × Result Raised A) (code : RuntimeError)
      → Unvalidated n o.0.system.gateway
      → NotValidated n (bound o (λ _. raise_code {A = B} code))
  then_raised B (rt, err e) code v = ((e, refl), v)
  then_raised B (rt, ok a) code v = ((runtime_raised code, refl), v)

  called-NotValidated :
      {A B : Type 0} (c : CallResult A) (f : A → Flow B) (rt : Runtime)
      → Unvalidated n rt.system.gateway
      → ((a : A) → NotValidated n (f a rt))
      → NotValidated n (bound (called c rt) f)
  called-NotValidated (returned a) f rt v h = h a
  called-NotValidated (adapter_error code) f rt v h = ((adapter_raised code, refl), v)
  called-NotValidated raised f rt v h = ((other_raised, refl), v)

  module _ (w : World) (a : Answers) (q : Confined no_validate w) where
    latch_then-NotValidated :
        (code : RuntimeError) (rt : Runtime)
        → Unvalidated n rt.system.gateway
        → NotValidated n (latch_then w a {A = SafetyTransition} code rt)
    unfolding latch_then
    latch_then-NotValidated code rt v =
        then_raised SafetyTransition (latch_adapter_fault w rt) code
          (latch-Keeps no_validate no_validate-Own (Unvalidated n) (Unvalidated-Stable n) w q rt v)

    validate_handler-NotValidated :
        (e : Raised) (rt : Runtime)
        → Unvalidated n rt.system.gateway
        → NotValidated n (validate_handler w a e rt)
    unfolding validate_handler
    validate_handler-NotValidated (adapter_raised code) rt v = latch_then-NotValidated _ rt v
    validate_handler-NotValidated (safety_raised e) rt v =
        ((runtime_raised (safety_error e), refl), v)
    validate_handler-NotValidated (runtime_raised code) rt v = latch_then-NotValidated _ rt v
    validate_handler-NotValidated other_raised rt v = latch_then-NotValidated _ rt v

    caught-NotValidated :
        (o : Runtime × Result Raised SafetyTransition)
        → NotValidated n o
        → NotValidated n (caught o (validate_handler w a))
    caught-NotValidated (rt, err e) h = validate_handler-NotValidated e rt h.1
    caught-NotValidated (rt, ok t) ((e, h), v) = cc

    validate_body-NotValidated :
        (rt : Runtime)
        → is_hardware rt ≡ true
        → rt.physical_estop_bound ≡ false
        → Unvalidated n rt.system.gateway
        → NotValidated n (validate_body w a rt)
    unfolding validate_body
    validate_body-NotValidated rt h b v = called-NotValidated a.validated_by _ rt v (λ _.
        called-NotValidated a.runtime_safety _ rt v
          (λ _. rw (h, b) ((adapter_raised "PROFILE_INVALID", refl), v)))

    named-NotValidated :
        (same : Bool) (rt : Runtime)
        → is_hardware rt ≡ true
        → rt.physical_estop_bound ≡ false
        → Unvalidated n rt.system.gateway
        → NotValidated n (
            bound (require_code same profile_invalid rt) (λ _ rt'.
              bound (caught (validate_body w a rt') (validate_handler w a)) (validated_with w a)))
    named-NotValidated false rt h b v = ((runtime_raised profile_invalid, refl), v)
    named-NotValidated true rt h b v =
        bound-NotValidated (caught (validate_body w a rt) (validate_handler w a))
          (validated_with w a)
          (caught-NotValidated (validate_body w a rt) (validate_body-NotValidated rt h b v))

-- On a hardware robot whose physical emergency stop is not bound, `validate_profile` raises, whatever
-- the adapter answers, and the gateway is not validated by it: given that it was not VALIDATED, that
-- its history is numbered below its counter, and that no other thread calls `validate` meanwhile, it
-- is not VALIDATED afterwards, and no transition in its history that has a number from that counter
-- on leads to VALIDATED. The other threads may do everything else.
pub validate_profile_needs_stop :
    (w : World) (a : Answers) (profile_name : String) (rt : Runtime)
    → Confined no_validate w
    → is_hardware rt ≡ true
    → rt.physical_estop_bound ≡ false
    → rt.system.gateway.state ≢ validated
    → All
        (λ (t : SafetyTransition). t.sequence < rt.system.gateway.transition_sequence)
        rt.system.gateway.transition_history
    → NotValidated rt.system.gateway.transition_sequence (validate_profile w a profile_name rt)
unfolding validate_profile validate_active named_profile
validate_profile_needs_stop w a profile_name rt q h b s l =
    let g = rt.system.gateway in
    let n = g.transition_sequence in
    let v : Unvalidated n g = record {
      elsewhere = s;
      history = old_entries n g.transition_history l;
    } in
    elim (Option-cases (unavailable rt)) [
      | inl e ↦
          rw (e) (named-NotValidated n w a q (same_text (profile_of rt).name profile_name) rt h b v)
      | inr (code, e) ↦ rw (e) ((runtime_raised code, refl), v)
    ]
