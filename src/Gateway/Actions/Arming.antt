-- ===== src/Gateway/Actions/Arming.antt =====
-- How a hardware robot comes to be armed (agent_ros/safety/gateway.py with challenge.py).
use mathlib.Core.List.{Memᴰ}
use ros2_agent_workflow.Common.{
  ℕ, ◌≡◌, ◌≢◌, refl, sym, ◌⊎◌, inl, inr, String, Bool, true, false, List, [], ◌∷◌, Option, arith,
  ok, Value,
}
use ros2_agent_workflow.Profile.{RobotProfile, hardware}
use ros2_agent_workflow.Safety.{SafetyState, validated, armed, running}
use ros2_agent_workflow.Challenge.{Store, Disk, answered, consume_operator_challenge}
use ros2_agent_workflow.Gateway.{
  Gateway, SafetyTransition, init, transition, discover, validate, start_task, heartbeat_locked,
}
use ros2_agent_workflow.Gateway.Methods.{
  arm, arm_answered, record_stop, cancel_commit, fault_commit, estop_commit, operator_reset,
}
use ros2_agent_workflow.Gateway.Actions.{Action, step, run}
use ros2_agent_workflow.Gateway.Actions.Action.{discovers, validates, arms}

-- Whether motion is allowed, or is one `start_task` away.
abbrev pub is_live : SafetyState → Bool
is_live armed = true
is_live running = true
is_live _ = false

step_live :
    (g : Gateway) (a : Action)
    → g.profile.mode ≡ hardware
    → is_live g.state ≡ false
    → ((step g a).profile ≡ g.profile)
      × ((a ≡ arms (answered true)) ⊎ (is_live (step g a).state ≡ false))
unfolding step discover validate arm_answered start_task heartbeat_locked record_stop cancel_commit
    fault_commit estop_commit operator_reset transition
step_live g (discovers report) h l = ground arith
step_live g a h l = ground arith

live_needs_challenge :
    (g : Gateway) (actions : List Action)
    → g.profile.mode ≡ hardware
    → is_live g.state ≡ false
    → is_live (run g actions).state ≡ true
    → Memᴰ (arms (answered true)) actions
unfolding run
live_needs_challenge g [] h l e = cc
live_needs_challenge g (a ∷ actions) h l e =
    let (p, s) = step_live g a h l in
    elim s [
      | inl accepted ↦ Memᴰ.head (sym accepted)
      | inr still ↦ Memᴰ.tail (live_needs_challenge (step g a) actions (rw p h) still e)
    ]

-- A hardware gateway is ARMED or RUNNING only if an operator challenge was accepted: among the
-- actions since it was made is an `arm` whose challenge was answered True.
pub hardware_needs_challenge :
    (profile : RobotProfile) (runtime_dir : Bool) (actions : List Action)
    → profile.mode ≡ hardware
    → is_live (run (init profile runtime_dir) actions).state ≡ true
    → Memᴰ (arms (answered true)) actions
unfolding init
hardware_needs_challenge profile runtime_dir actions h e =
    live_needs_challenge (init profile runtime_dir) actions h refl e

-- `arm` of a hardware gateway succeeds only if the challenge was accepted for the profile's name,
-- and it leaves the store as that acceptance left it, and the gateway ARMED.
pub arm_consumes :
    (token_hash : String → String) (g : Gateway) (store : Store) (challenge : String) (now : ℕ)
    (boot : Value) (disk : Disk) (t : Option SafetyTransition)
    → g.profile.mode ≡ hardware
    → (arm token_hash g store challenge now boot disk).2 ≡ ok t
    → let consumed =
        consume_operator_challenge token_hash store g.profile.name challenge now boot disk in
      let armed_state = arm token_hash g store challenge now boot disk in
      (g.state ≡ validated)
      × (consumed.1 ≡ answered true)
      × (armed_state.0 ≡ consumed.0)
      × (armed_state.1.state ≡ armed)
unfolding arm transition
arm_consumes token_hash g store challenge now boot disk t h e = ground arith

-- Only `validate` enters VALIDATED.
pub step_unvalidated :
    (g : Gateway) (a : Action) → g.state ≢ validated → a ≢ validates → (step g a).state ≢ validated
unfolding step discover validate arm_answered start_task heartbeat_locked record_stop cancel_commit
    fault_commit estop_commit operator_reset transition
step_unvalidated g (discovers report) h s = ground arith
step_unvalidated g validates h s = absurd (s refl)
step_unvalidated g a h s = ground arith
