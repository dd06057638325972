-- ===== src/Gateway/Methods.antt =====
-- The rest of agent_ros/safety/gateway.py: the methods that take the lock more than once, each
-- locked part on its own, and the sequential methods that are composed from them.
use ros2_agent_workflow.Common.{
  ℕ, String, Bool, false, ◌&&◌, ◌||◌, not, Option, none, some, Value, if◌then◌else◌, Result, ok,
  err,
}
use ros2_agent_workflow.Safety.{
  SafetyState, new, validated, armed, running, stopped, faulted, estopped, same_state,
  EmergencyStopResult,
}
use ros2_agent_workflow.Challenge.{
  Store, Disk, Consumption, answered, type_error, consume_operator_challenge,
}
use ros2_agent_workflow.Gateway.Watchdog.{stop}
use ros2_agent_workflow.Gateway.Burst.{Reply, stop_repeatedly}
use ros2_agent_workflow.Gateway.{
  Gateway, SafetyTransition, SafetyError, Outcome, beat, refused, lost, unsafe_state,
  hardware_challenge, challenge_type_error, operator_required, require, transition, transition_from,
  is_simulation, heartbeat_locked,
}

-- What an `arm` returns.
abbrev pub ArmOutcome : Type 0
ArmOutcome = Gateway × Result SafetyError (Option SafetyTransition)

-- Whether `arm` gets as far as the challenge.
unfoldable pub asks_challenge : Gateway → Bool
asks_challenge g =
    same_state g.state validated && not (is_simulation g.profile.mode) && g.runtime_dir

-- `arm`, given what `consume_operator_challenge` answers where it is asked.
unfoldable pub arm_answered : Gateway → Consumption → ArmOutcome
unfolding require
arm_answered g c =
    if is_simulation g.profile.mode && same_state g.state armed
    then (g, ok none)
    else elim (require g validated) [
      | some e ↦ (g, err e)
      | none ↦
          if is_simulation g.profile.mode || not g.runtime_dir
          then (g, err hardware_challenge)
          else elim c [
            | type_error ↦ (g, err challenge_type_error)
            | answered accepted ↦
                if accepted
                then (transition g armed none, ok (some (transition_from g armed none)))
                else (g, err hardware_challenge)
          ]
    ]

unfoldable pub arm :
    (String → String)
    → Gateway
    → Store
    → String
    → ℕ
    → Value
    → Disk
    → Store × Gateway × Result SafetyError (Option SafetyTransition)
unfolding asks_challenge arm_answered
arm token_hash g store challenge now boot disk =
    if asks_challenge g
    then (let (store', c) =
          consume_operator_challenge token_hash store g.profile.name challenge now boot disk in
        let (g', result) = arm_answered g c in (store', g', result))
    else (let (g', result) = arm_answered g (answered false) in (store, g', result))

-- The end of `_stop_repeatedly`.
unfoldable pub record_stop : Gateway → EmergencyStopResult → Gateway
record_stop g combined = record g { last_stop_result = combined }

-- The transition that leaves the running state, or latches: deadline cleared, watchdog told to stop.
unfoldable pub halt : Gateway → SafetyState → EmergencyStopResult → Gateway
unfolding stop transition
halt g state_after stop_result =
    let g' = transition g state_after (some stop_result) in
    record g' { deadline = none; supervisor = stop g'.supervisor }

-- The second locked part of `cancel`.
unfoldable pub cancel_commit : Gateway → EmergencyStopResult → Outcome
unfolding require halt
cancel_commit g stop_result = elim (require g running) [
  | some e ↦ (g, err e)
  | none ↦ (halt g stopped stop_result, ok (transition_from g stopped (some stop_result)))
]

unfoldable pub cancel : Gateway → (ℕ → Reply) → Outcome
unfolding cancel_commit record_stop
cancel g replies = elim (require g running) [
  | some e ↦ (g, err e)
  | none ↦ let combined = stop_repeatedly replies in cancel_commit (record_stop g combined) combined
]

-- The locked part of `_fault`.
unfoldable pub fault_commit : Gateway → EmergencyStopResult → Gateway × Option SafetyTransition
unfolding halt
fault_commit g stop_result =
    if not (same_state g.state running)
    then (g, none)
    else (halt g faulted stop_result, some (transition_from g faulted (some stop_result)))

unfoldable pub fault : Gateway → (ℕ → Reply) → Gateway × Option SafetyTransition
unfolding fault_commit record_stop
fault g replies =
    let combined = stop_repeatedly replies in fault_commit (record_stop g combined) combined

-- The locked part of `_latch_estop_attempt`.
unfoldable pub estop_commit : Gateway → EmergencyStopResult → Gateway × Option SafetyTransition
unfolding halt
estop_commit g stop_result =
    if same_state g.state estopped
    then (g, none)
    else (halt g estopped stop_result, some (transition_from g estopped (some stop_result)))

-- `SafetyStopAttempt`.
pub record SafetyStopAttempt : Type 0 where
  pub attempted : Option SafetyTransition
  pub result : EmergencyStopResult

unfoldable pub estop_attempt : Gateway → (ℕ → Reply) → Gateway × SafetyStopAttempt
unfolding estop_commit record_stop
estop_attempt g replies =
    let combined = stop_repeatedly replies in
    let (g', t) = estop_commit (record_stop g combined) combined in
    (g', record { attempted = t; result = combined })

-- `observe_physical_estop`: a circuit that is not asserted changes nothing.
unfoldable pub observe_physical_estop :
    Gateway → Bool → (ℕ → Reply) → Gateway × Option SafetyTransition
unfolding estop_attempt
observe_physical_estop g asserted replies =
    if not asserted
    then (g, none)
    else let (g', attempt) = estop_attempt g replies in (g', attempt.attempted)

unfoldable pub heartbeat : Gateway → ℕ → (ℕ → Reply) → Outcome
unfolding heartbeat_locked fault
heartbeat g now replies =
    let (g', result) = heartbeat_locked g now in
    elim result [
      | beat t ↦ (g', ok t)
      | refused e ↦ (g', err e)
      | lost e ↦ ((fault g' replies).0, err e)
    ]

unfoldable pub operator_reset : Gateway → Outcome
operator_reset g =
    if not (same_state g.state estopped)
    then (g, err unsafe_state)
    else if not (is_simulation g.profile.mode)
    then (g, err operator_required)
    else (
      record (transition g new none) { report = none; last_heartbeat = none; deadline = none },
      ok (transition_from g new none),
    )

-- `close` up to its join of the watchdog.
unfoldable pub close : Gateway → (ℕ → Reply) → Gateway
unfolding fault stop
close g replies =
    let g' = if same_state g.state running then (fault g replies).0 else g in
    record g' { supervisor = stop g'.supervisor }
