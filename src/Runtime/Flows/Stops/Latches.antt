-- ===== src/Runtime/Flows/Stops/Latches.antt =====
-- `emergency_stop` and `_physical_estop` latch (agent_ros/runtime/controller.py).
use ros2_agent_workflow.Common.{Bool, true, false, none, Result, ok, err}
use ros2_agent_workflow.Safety.{SafetyState, successful, EmergencyStopResult}
use ros2_agent_workflow.Gateway.Methods.{SafetyStopAttempt}
use ros2_agent_workflow.Audit.Schema.{AuditOperation}
use ros2_agent_workflow.Runtime.Errors.{Raised, runtime_raised, unsafe_state}
use ros2_agent_workflow.Runtime.Flows.{World, Runtime, ◌>>◌, bound, state, gateway_estop}
use ros2_agent_workflow.Runtime.Flows.Append.{append_option, observe_and_stop}
use ros2_agent_workflow.Runtime.Flows.Requests.{unavailable, require_code}
use ros2_agent_workflow.Common.{◌⊎◌, ◌≡◌, inl, inr, Bool-cases}
use ros2_agent_workflow.Safety.{estopped}
use ros2_agent_workflow.Gateway.Burst.{stop_repeatedly}
use ros2_agent_workflow.Runtime.Flows.{stop_robot, commit_estop, locked, attempted_by}
use ros2_agent_workflow.Runtime.Flows.Keeps.{
  passive_act, passive_act-Own, Result-cases, Passive, Keeps, bound-kept, >>=-Keeps,
  append_option-Keeps, observe-Keeps, state-Keeps,
}
use ros2_agent_workflow.Runtime.Flows.Latches.{Latched, Latched-Stable, gateway_estop-Latched}
use ros2_agent_workflow.Runtime.Flows.Stops.{stop_checked, stop_attempted, emergency_stop}

module _ (w : World) (q : Passive w) where
  told :
      (ok_result : Bool)
      → Keeps passive_act passive_act-Own Latched Latched-Stable (λ rt.
        bound (require_code ok_result unsafe_state rt) (λ _. observe_and_stop w >> state w))
  told true rt h =
      >>=-Keeps passive_act passive_act-Own Latched Latched-Stable (observe_and_stop w)
        (λ _. state w) (observe-Keeps passive_act passive_act-Own Latched Latched-Stable w q)
        (λ _. state-Keeps passive_act passive_act-Own Latched Latched-Stable w q) rt h
  told false rt h = h

  stop_attempted-Keeps :
      (attempt : SafetyStopAttempt)
      → Keeps passive_act passive_act-Own Latched Latched-Stable (stop_attempted w attempt)
  unfolding stop_attempted stop_checked
  stop_attempted-Keeps attempt =
      >>=-Keeps passive_act passive_act-Own Latched Latched-Stable
        (append_option w AuditOperation.estop attempt.attempted)
        (λ _. stop_checked w attempt.result)
        (append_option-Keeps passive_act passive_act-Own Latched Latched-Stable w
          AuditOperation.estop attempt.attempted q)
        (λ _. told (successful attempt.result))

  stopped_Latched :
      (rt : Runtime) → Latched (bound (gateway_estop w rt) (stop_attempted w)).0.system.gateway
  stopped_Latched rt =
      bound-kept passive_act passive_act-Own Latched Latched-Stable (gateway_estop w rt)
        (stop_attempted w) (gateway_estop-Latched w rt) stop_attempted-Keeps

checked_successful :
    (w : World) (r : EmergencyStopResult) (rt : Runtime) (s : SafetyState)
    → (stop_checked w r rt).1 ≡ ok s
    → successful r ≡ true
unfolding stop_checked
checked_successful w r rt s h = elim (Bool-cases (successful r)) [
  | inl e ↦ e
  | inr e ↦ let absurd_ok : err (runtime_raised unsafe_state) ≡ ok s = rw (e) at h in cc
]

attempted_successful :
    (w : World) (r : EmergencyStopResult) (o : Runtime × Result Raised (Unit {0})) (s : SafetyState)
    → (bound o (λ _. stop_checked w r)).1 ≡ ok s
    → successful r ≡ true
attempted_successful w r (rt, ok u) s h = checked_successful w r rt s h
attempted_successful w r (rt, err e) s h = cc

stop_successful :
    (w : World) (rt : Runtime) (s : SafetyState)
    → (bound (gateway_estop w rt) (stop_attempted w)).1 ≡ ok s
    → successful (stop_repeatedly (w.turns rt.turn).replies) ≡ true
unfolding gateway_estop stop_robot commit_estop locked attempted_by stop_attempted
stop_successful w rt s h = attempted_successful w _ _ s h

-- An emergency stop of a runtime that is available leaves the gateway ESTOPPED, whether it returns or
-- raises, as long as no other thread resets the gateway or starts a task; and it returns only if the
-- three stop calls together succeeded.
pub emergency_stop_latches :
    (w : World) (rt : Runtime)
    → Passive w
    → unavailable rt ≡ none
    → ((emergency_stop w rt).0.system.gateway.state ≡ estopped)
      × (((e : Raised) × ((emergency_stop w rt).1 ≡ err e))
          ⊎ (successful (stop_repeatedly (w.turns rt.turn).replies) ≡ true))
unfolding emergency_stop
emergency_stop_latches w rt q h = (
  rw (h) (stopped_Latched w q rt),
  elim (Result-cases (bound (gateway_estop w rt) (stop_attempted w)).1) [
    | inl (e, k) ↦ rw (h) (inl (e, k))
    | inr (s, k) ↦ inr (stop_successful w rt s k)
  ],
)
