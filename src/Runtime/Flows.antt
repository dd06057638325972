-- ===== src/Runtime/Flows.antt =====
-- The state of a `RuntimeController` that has discovered its robot, and its calls of the gateway
-- (agent_ros/runtime/controller.py, agent_ros/safety/gateway.py). Before each access to the gateway
-- other threads take turns, with any actions on the gateway and on the ledger; the fields beside
-- these two belong to the operation that runs. `_profile` is the gateway's profile.
pub mod Append
pub mod Keeps
pub mod Unvalidated
pub mod Latches
pub mod Ends
pub mod Terminal
pub mod Monitor
pub mod Requests
pub mod Tasks
pub mod Stops
pub mod Unavailable
pub mod Close
pub mod Examples
use ros2_agent_workflow.Common.{
  ℕ, suc, String, Bool, List, Option, none, some, Result, ok, err, Value,
}
use ros2_agent_workflow.Safety.{SafetyState, running, EmergencyStopResult}
use ros2_agent_workflow.Audit.{RawRecord, Mapping}
use ros2_agent_workflow.Challenge.{Consumption}
use ros2_agent_workflow.Gateway.Burst.{Reply, stop_repeatedly}
use ros2_agent_workflow.Gateway.{
  Gateway, SafetyTransition, SafetyError, Motion, Beat, beat, refused, lost, require, validate,
  start_task, heartbeat_locked,
}
use ros2_agent_workflow.Gateway.Methods.{
  SafetyStopAttempt, arm_answered, record_stop, cancel_commit, fault_commit, estop_commit,
}
use ros2_agent_workflow.Runtime.Errors.{Raised, RuntimeError, raised_by_gateway, runtime_raised}
use ros2_agent_workflow.Runtime.Ledger.{Ledger}
use ros2_agent_workflow.Runtime.Ledger.Actions.{System, Action, run}

-- What happens around one access to the gateway: the actions of other threads before it, what the
-- stop callback answers, the clock, and how a drain of the ledger goes, by any threads, with whether
-- the caller's own append fails or its time runs out.
pub record Turn : Type 0 where
  pub others : List Action
  pub replies : ℕ → Reply
  pub clock : ℕ
  pub drain : List Action
  pub gives_up : Bool

pub record World : Type 0 where
  pub encoded_size : RawRecord → ℕ
  pub session : String
  pub turns : ℕ → Turn

pub data AdapterClass : Type 0 where
  hospital_case hospital_delivery other_adapter : AdapterClass

-- The items of `values` that the runtime reads; `stage_results` is `none` where it is no sequence.
pub record AdapterStatus : Type 0 where
  pub state : String
  pub code : Option String
  pub elapsed : Value
  pub stage_index : Value
  pub stage_results : Option (List (Option Value))

-- `TaskProfile`, with the timeouts of its stages.
pub record TaskProfile : Type 0 where
  pub name : String
  pub robot_profile : String
  pub required_sensors : List String
  pub evidence_sources : List String
  pub stages : List ℕ

-- `values` is `none` where it is no mapping.
pub record Observation : Type 0 where
  pub source : String
  pub timestamp : Value
  pub values : Option Mapping

pub record Runtime : Type 0 where
  pub system : System
  pub turn : ℕ
  pub adapter : AdapterClass
  pub task : Option TaskProfile
  pub stage_index : ℕ
  pub stage_deadline : Option ℕ
  pub observed_gateway_state : SafetyState
  pub last_status : Option AdapterStatus
  pub terminal_evidence : List (String × Observation)
  pub terminal_evidence_frozen : Bool
  pub physical_estop_bound : Bool
  pub hardware_safety_verified : Bool
  pub cancel_requested : Bool
  pub task_cleanup_started : Bool
  pub cleanup_start_failed : Bool
  pub monitor_stop : Bool
  pub quarantine_file : Bool

-- Code that changes the runtime, and returns or raises.
abbrev pub Flow : Type 0 → Type 0
Flow A = Runtime → Runtime × Result Raised A

-- Goes on with what was returned.
abbrev pub bound :
    {A B : Type 0} → Runtime × Result Raised A → (A → Flow B) → Runtime × Result Raised B
bound (rt, err e) f = (rt, err e)
bound (rt, ok a) f = f a rt

infixl 5 ◌>>=◌ ◌>>◌
abbrev pub ◌>>=◌ : {A B : Type 0} → Flow A → (A → Flow B) → Flow B
◌>>=◌ m f rt = bound (m rt) f

abbrev pub ◌>>◌ : {B : Type 0} → Flow (Unit {0}) → Flow B → Flow B
m >> k = m >>= λ _. k

abbrev pub return : {A : Type 0} → A → Flow A
return a rt = (rt, ok a)

abbrev pub raise : {A : Type 0} → Raised → Flow A
raise e rt = (rt, err e)

-- `raise RuntimeControllerError(code)`.
abbrev pub raise_code : {A : Type 0} → RuntimeError → Flow A
raise_code code rt = (rt, err (runtime_raised code))

abbrev pub get : Flow Runtime
get rt = (rt, ok rt)

abbrev pub change : (Runtime → Runtime) → Flow (Unit {0})
change f rt = (f rt, ok tt)

abbrev pub set_gateway : Gateway → Runtime → Runtime
set_gateway g rt = record rt { system = record rt.system { gateway = g } }

abbrev pub set_ledger : Ledger → Runtime → Runtime
set_ledger l rt = record rt { system = record rt.system { ledger = l } }

-- The outcome of a locked part of the gateway.
abbrev pub settled :
    {A : Type 0} → Runtime → Gateway × Result SafetyError A → Runtime × Result Raised A
settled rt (g, err e) = (set_gateway g rt, err (raised_by_gateway e))
settled rt (g, ok a) = (set_gateway g rt, ok a)

-- Where a requirement raises, the call ends.
unfoldable pub checked : Gateway → Option SafetyError → Gateway × Result SafetyError (Unit {0})
checked g none = (g, ok tt)
checked g (some e) = (g, err e)

module _ (w : World) where
  unfoldable pub interfere : Runtime → Runtime
  interfere rt = record rt {
    system = run w.encoded_size w.session rt.system (w.turns rt.turn).others;
    turn = suc rt.turn;
  }

  -- A locked part of the gateway, with what other threads do before it.
  unfoldable pub locked : {A : Type 0} → (Gateway → Gateway × Result SafetyError A) → Flow A
  unfolding interfere
  locked part rt = let rt' = interfere rt in settled rt' (part rt'.system.gateway)

  -- `gateway.state`.
  unfoldable pub state : Flow SafetyState
  unfolding interfere
  state rt = let rt' = interfere rt in (rt', ok rt'.system.gateway.state)

  -- `_stop_repeatedly`.
  unfoldable pub stop_robot : Flow EmergencyStopResult
  unfolding interfere
  stop_robot rt =
      let combined = stop_repeatedly (w.turns rt.turn).replies in
      let rt' = interfere rt in
      (set_gateway (record_stop rt'.system.gateway combined) rt', ok combined)

  unfoldable pub attempted_by :
      EmergencyStopResult → Gateway → Gateway × Result SafetyError SafetyStopAttempt
  attempted_by combined g =
      let (g', t) = estop_commit g combined in
      (g', ok (record { attempted = t; result = combined }))

  -- The second locked part of `_latch_estop_attempt`.
  unfoldable pub commit_estop : EmergencyStopResult → Flow SafetyStopAttempt
  unfolding locked attempted_by
  commit_estop combined = locked (attempted_by combined)

  unfoldable pub gateway_estop : Flow SafetyStopAttempt
  unfolding stop_robot commit_estop
  gateway_estop = stop_robot >>= commit_estop

  -- The first locked part of `cancel`.
  unfoldable pub required : Gateway → Gateway × Result SafetyError (Unit {0})
  unfolding checked
  required g = checked g (require g running)

  unfoldable pub commit_cancel : EmergencyStopResult → Flow SafetyTransition
  unfolding locked
  commit_cancel combined = locked (λ g. cancel_commit g combined)

  -- `cancel`.
  unfoldable pub gateway_cancel : Flow SafetyTransition
  unfolding stop_robot locked commit_cancel required
  gateway_cancel = locked required >> (stop_robot >>= commit_cancel)

  unfoldable pub commit_fault : SafetyError → EmergencyStopResult → Flow SafetyTransition
  unfolding locked
  commit_fault e combined = locked (λ g. ((fault_commit g combined).0, err e))

  -- `_fault`, then the error.
  unfoldable pub gateway_fault : SafetyError → Flow SafetyTransition
  unfolding stop_robot commit_fault
  gateway_fault e = stop_robot >>= commit_fault e

  -- How `heartbeat` ends.
  unfoldable pub after_beat : Beat → Flow SafetyTransition
  unfolding gateway_fault
  after_beat (beat t) rt = (rt, ok t)
  after_beat (refused e) rt = (rt, err (raised_by_gateway e))
  after_beat (lost e) rt = gateway_fault e rt

  unfoldable pub beat_at : ℕ → Gateway → Gateway × Result SafetyError Beat
  beat_at now g = let (g', b) = heartbeat_locked g now in (g', ok b)

  -- `heartbeat`.
  unfoldable pub gateway_heartbeat : Flow SafetyTransition
  unfolding locked after_beat beat_at
  gateway_heartbeat rt = (locked (beat_at (w.turns rt.turn).clock) >>= after_beat) rt

  -- `start_task`.
  pub gateway_start_task : Motion → Flow SafetyTransition
  unfolding locked
  gateway_start_task motion rt = locked (λ g. start_task g motion (w.turns rt.turn).clock) rt

  -- `validate`.
  pub gateway_validate : Flow SafetyTransition
  unfolding locked
  gateway_validate = locked validate

  -- `arm`, given what the challenge answers.
  pub gateway_arm : Consumption → Flow (Option SafetyTransition)
  unfolding locked
  gateway_arm c = locked (λ g. arm_answered g c)
