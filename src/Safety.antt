-- ===== src/Safety.antt =====
-- agent_ros/safety/state.py and agent_ros/safety/outcome.py, shared by the gateway, the sequencer
-- and the audit log.
use ros2_agent_workflow.Common.{ℕ, Bool, true, ◌&&◌, ◌==◌, ◌≡◌, arith}

pub data SafetyState : Type 0 where
  new discovered validated armed running stopped faulted estopped : SafetyState

-- The position of a state in the enumeration, by which states are compared.
abbrev pub index : SafetyState → ℕ
index new = 0
index discovered = 1
index validated = 2
index armed = 3
index running = 4
index stopped = 5
index faulted = 6
index estopped = 7

-- `a is b`.
abbrev pub same_state : SafetyState → SafetyState → Bool
same_state a b = index a == index b

pub data StopCode : Type 0 where
  estop_latched safety_command_rejected transport_unquiesced : StopCode

pub record EmergencyStopResult : Type 0 where
  pub latched : Bool
  pub activation_quiesced : Bool
  pub safety_command_accepted : Bool
  pub code : StopCode

unfoldable pub successful : EmergencyStopResult → Bool
successful r = r.latched && r.activation_quiesced && r.safety_command_accepted

pub same_state_eq : (a b : SafetyState) → same_state a b ≡ true → a ≡ b
same_state_eq a b h = ground arith

pub same_state_refl : (a : SafetyState) → same_state a a ≡ true
same_state_refl a = ground arith
