-- ===== src/Gateway/Actions/Latch.antt =====
-- The emergency latch (agent_ros/safety/gateway.py).
use ros2_agent_workflow.Common.{
  ℕ, ◌≡◌, ◌≢◌, refl, ◌∙◌, ◌⊎◌, inl, inr, true, List, [], ◌∷◌, none, some, arith, All,
}
use ros2_agent_workflow.Profile.{hardware}
use ros2_agent_workflow.Safety.{estopped, EmergencyStopResult}
use ros2_agent_workflow.Gateway.Burst.{Reply, stop_repeatedly}
use ros2_agent_workflow.Gateway.{
  Gateway, transition, transition_from, discover, validate, start_task, heartbeat_locked,
}
use ros2_agent_workflow.Gateway.Methods.{
  arm_answered, record_stop, cancel_commit, fault_commit, estop_commit, operator_reset,
  estop_attempt,
}
use ros2_agent_workflow.Gateway.Actions.{Action, step, run}
use ros2_agent_workflow.Gateway.Actions.Action.{discovers, resets}

-- No action of the list is `operator_reset`.
abbrev pub NoReset : List Action → Type 0
NoReset = All (λ a. a ≢ resets)

pub step_latched :
    (g : Gateway) (a : Action)
    → g.state ≡ estopped
    → (g.profile.mode ≡ hardware) ⊎ (a ≢ resets)
    → ((step g a).state ≡ estopped)
      × ((step g a).profile ≡ g.profile)
      × ((step g a).transition_history ≡ g.transition_history)
unfolding step discover validate arm_answered start_task heartbeat_locked record_stop cancel_commit
    fault_commit estop_commit operator_reset
step_latched g (discovers report) e h = ground arith
step_latched g resets e (inl h) = ground arith
step_latched g resets e (inr h) = absurd (h refl)
step_latched g a e h = ground arith

-- Once ESTOPPED, a gateway stays so and records nothing more, whatever threads do, as long as no
-- operator resets it; on hardware not even a reset clears the latch.
pub latch_holds :
    (g : Gateway) (actions : List Action)
    → g.state ≡ estopped
    → (g.profile.mode ≡ hardware) ⊎ NoReset actions
    → ((run g actions).state ≡ estopped)
      × ((run g actions).transition_history ≡ g.transition_history)
unfolding run
latch_holds g [] e h = (e, refl)
latch_holds g (a ∷ actions) e (inl h) =
    let (e', p, s) = step_latched g a e (inl h) in
    let (last, s') = latch_holds (step g a) actions e' (inl (rw p h)) in (last, s' ∙ s)
latch_holds g (a ∷ actions) e (inr h) =
    let (e', p, s) = step_latched g a e (inr h.0) in
    let (last, s') = latch_holds (step g a) actions e' (inr h.1) in (last, s' ∙ s)

-- An emergency stop latches from every state: it returns the combined result of its three stop
-- calls, and, unless the gateway was latched already, clears the deadline, tells the watchdog to
-- stop and records the transition with that result.
pub estop_attempt_latches :
    (g : Gateway) (replies : ℕ → Reply)
    → let (g', attempt) = estop_attempt g replies in
      (g'.state ≡ estopped)
      × (attempt.result ≡ stop_repeatedly replies)
      × (g'.last_stop_result ≡ stop_repeatedly replies)
      × (((g.state ≡ estopped)
            × (attempt.attempted ≡ none)
            × (g'.transition_history ≡ g.transition_history))
          ⊎ ((attempt.attempted
                ≡ some (transition_from g estopped (some (stop_repeatedly replies))))
              × (g'.latest_transition ≡ attempt.attempted)
              × (g'.deadline ≡ none)
              × (g'.supervisor.stop_event ≡ true)))
unfolding estop_attempt transition
estop_attempt_latches g replies = ground arith

pub estop_commit_latches :
    (g : Gateway) (r : EmergencyStopResult) → (estop_commit g r).0.state ≡ estopped
unfolding estop_commit transition
estop_commit_latches g r = ground arith
