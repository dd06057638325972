-- ===== src/Profile/Mapping.antt =====
-- `RobotProfile.from_mapping` of agent_ros/profiles/models.py, and the checks that it calls. The keys
-- of a mapping are text.
pub mod Reviewed
use ros2_agent_workflow.Common.{
  ℕ, ◌≤◌, ◌<◌, ◌≡◌, ◌≢◌, refl, ◌⊎◌, inl, inr, String, Bool, true, false, ◌&&◌, ◌||◌, not, List, [],
  ◌∷◌, Option, none, some, arith, Value, pos, ltb, leb, ◌==◌, if◌then◌else◌, same_text, contains,
  codes, all, is_empty, is_some, Result, ok, err, ◌>>=◌, ◌>>◌, guard, >>=-eq-ok, Bool-cases,
}
use ros2_agent_workflow.Common.Value.{absent, other, number, text}
use ros2_agent_workflow.Profile.{
  Mode, simulation, hardware, AdapterKind, twist, nav2, follow_joint_trajectory, hospital_delivery,
  InterfaceReference, RobotInterfaces, MotionLimits, SafetyConfig, RobotProfile,
}

-- ProfileValidationError, or the TypeError of looking an unhashable value up in a set.
pub data ProfileError : Type 0 where
  validation_error type_error : ProfileError

abbrev pub Items : Type 0
Items = List (String × Value)

-- An interface as it stands in the mapping: null or missing, no object, or an object.
pub data RawInterface : Type 0 where
  null scalar : RawInterface
  object : Items → RawInterface

-- The compound items are `none` where they have not the shape of an object or a list.
pub record RawProfile : Type 0 where
  pub names : List String
  pub items : Items
  pub frames : Option Items
  pub adapter : Option Items
  pub interfaces : Option (List (String × RawInterface))
  pub limits : Option Items
  pub safety : Option Items
  pub observation_sources : Option (List Value)

item : String → Items → Value
item k [] = absent
item k ((j, v) ∷ items) = if same_text j k then v else item k items

interface_item : String → List (String × RawInterface) → RawInterface
interface_item k [] = null
interface_item k ((j, v) ∷ items) = if same_text j k then v else interface_item k items

only_keys : {A : Type 0} → List (String × A) → List String → Bool
only_keys items allowed = all (λ i. contains i.0 allowed) items

mapping : {A : Type 0} → Option A → Result ProfileError A
mapping none = err validation_error
mapping (some a) = ok a

-- The code points that `str.strip` removes.
abbrev pub is_space : ℕ → Bool
is_space c =
    (leb 9 c && leb c 13)
    || (leb 28 c && leb c 32)
    || c == 133
    || c == 160
    || c == 5760
    || (leb 8192 c && leb c 8202)
    || c == 8232
    || c == 8233
    || c == 8239
    || c == 8287
    || c == 12288

text_of : Value → Result ProfileError String
unfolding codes
text_of (text s) = if all is_space (codes s) then err validation_error else ok s
text_of _ = err validation_error

finite_positive : Value → Result ProfileError ℕ
finite_positive (number (pos n)) = if ltb 0 n then ok n else err validation_error
finite_positive _ = err validation_error

parse_mode : Value → Result ProfileError Mode
parse_mode (text s) =
    if same_text s "simulation"
    then ok simulation
    else if same_text s "hardware"
    then ok hardware
    else err validation_error
parse_mode other = err type_error
parse_mode _ = err validation_error

parse_kind : Value → Result ProfileError AdapterKind
parse_kind (text s) =
    if same_text s "twist"
    then ok twist
    else if same_text s "nav2"
    then ok nav2
    else if same_text s "follow_joint_trajectory"
    then ok follow_joint_trajectory
    else if same_text s "hospital_delivery"
    then ok hospital_delivery
    else err validation_error
parse_kind other = err type_error
parse_kind _ = err validation_error

-- `interface(key, "topic")` and `interface(key, "action")`.
topic_interface : RawInterface → Result ProfileError (Option InterfaceReference)
unfolding text_of item only_keys
topic_interface null = ok none
topic_interface scalar = err validation_error
topic_interface (object items) = do
  guard (only_keys items ("type" ∷ "topic" ∷ [])) validation_error
  t ← text_of (item "type" items)
  a ← text_of (item "topic" items)
  ok (some (record { interface_type = t; topic = some a; action = none }))

action_interface : RawInterface → Result ProfileError (Option InterfaceReference)
unfolding text_of item only_keys
action_interface null = ok none
action_interface scalar = err validation_error
action_interface (object items) = do
  guard (only_keys items ("type" ∷ "action" ∷ [])) validation_error
  t ← text_of (item "type" items)
  a ← text_of (item "action" items)
  ok (some (record { interface_type = t; topic = none; action = some a }))

has_type : Option InterfaceReference → String → Bool
has_type none t = false
has_type (some i) t = same_text i.interface_type t

-- Whether `_validate_adapter_interfaces` accepts.
pub validate_adapter_interfaces : AdapterKind → RobotInterfaces → Bool
unfolding has_type
validate_adapter_interfaces nav2 i = has_type i.navigation "nav2_msgs/action/NavigateToPose"
validate_adapter_interfaces follow_joint_trajectory i =
    has_type i.trajectory "control_msgs/action/FollowJointTrajectory"
validate_adapter_interfaces _ i =
    has_type i.command "geometry_msgs/msg/Twist" && has_type i.odometry "nav_msgs/msg/Odometry"

topic_is : Option InterfaceReference → String → Bool
topic_is none t = false
topic_is (some i) t = elim i.topic [ none ↦ false | some s ↦ same_text s t ]

abbrev is_simulated : Mode → Bool
is_simulated simulation = true
is_simulated hardware = false

-- Whether the hospital adapter stays in its reviewed case.
pub confined : AdapterKind → String → Mode → String → RobotInterfaces → Bool
unfolding topic_is
confined hospital_delivery name mode namespace i =
    same_text name "hospital-amr"
    && is_simulated mode
    && same_text namespace "/hospital_amr"
    && topic_is i.command "/cmd_vel"
    && has_type i.command "geometry_msgs/msg/Twist"
    && topic_is i.odometry "/odom"
    && has_type i.odometry "nav_msgs/msg/Odometry"
confined _ name mode namespace i = true

parse_interfaces : List (String × RawInterface) → Result ProfileError RobotInterfaces
unfolding topic_interface action_interface interface_item only_keys
parse_interfaces items = do
  guard (only_keys items ("command" ∷ "odometry" ∷ "navigation" ∷ "trajectory" ∷ []))
      validation_error
  command ← topic_interface (interface_item "command" items)
  odometry ← topic_interface (interface_item "odometry" items)
  navigation ← action_interface (interface_item "navigation" items)
  trajectory ← action_interface (interface_item "trajectory" items)
  ok (record {
    command = command;
    odometry = odometry;
    navigation = navigation;
    trajectory = trajectory;
  })

limit_names : List String
limit_names =
    "max_linear_velocity" ∷ "max_angular_velocity" ∷ "max_linear_acceleration"
    ∷ "max_angular_acceleration" ∷ []

pub parse_limits : Items → Result ProfileError MotionLimits
unfolding finite_positive item only_keys limit_names
parse_limits items = do
  guard (only_keys items limit_names) validation_error
  linear_velocity ← finite_positive (item "max_linear_velocity" items)
  angular_velocity ← finite_positive (item "max_angular_velocity" items)
  linear_acceleration ← finite_positive (item "max_linear_acceleration" items)
  angular_acceleration ← finite_positive (item "max_angular_acceleration" items)
  ok (record {
    max_linear_velocity = linear_velocity;
    max_angular_velocity = angular_velocity;
    max_linear_acceleration = linear_acceleration;
    max_angular_acceleration = angular_acceleration;
  })

optional : {A : Type 0} → (Value → Result ProfileError A) → Value → Result ProfileError (Option A)
optional parse absent = ok none
optional parse v = parse v >>= (λ a. ok (some a))

safety_names : List String
safety_names = "heartbeat_timeout" ∷ "estop_topic" ∷ []

pub parse_safety : Mode → Items → Result ProfileError SafetyConfig
unfolding finite_positive text_of item only_keys optional safety_names
parse_safety mode items = do
  guard (only_keys items safety_names) validation_error
  heartbeat ← optional finite_positive (item "heartbeat_timeout" items)
  topic ← optional text_of (item "estop_topic" items)
  guard (is_simulated mode || (is_some heartbeat && is_some topic)) validation_error
  ok (record { heartbeat_timeout = heartbeat; estop_topic = topic })

abbrev is_source : Value → Bool
is_source (text s) = not (same_text s "")
is_source _ = false

source_names : List Value → List String
source_names [] = []
source_names (text s ∷ sources) = s ∷ source_names sources
source_names (v ∷ sources) = source_names sources

abbrev is_frame : String × Value → Bool
is_frame (k, text s) = not (all is_space (codes s))
is_frame (k, v) = false

profile_names : List String
profile_names =
    "name" ∷ "mode" ∷ "namespace" ∷ "frames" ∷ "adapter" ∷ "interfaces" ∷ "limits" ∷ "safety"
    ∷ "observation_sources" ∷ []

-- The end of `from_mapping`, from the limits on.
finish_profile :
    RawProfile → String → Mode → AdapterKind → RobotInterfaces → Result ProfileError RobotProfile
unfolding mapping parse_limits parse_safety source_names
finish_profile raw name mode kind interfaces = do
  limit_items ← mapping raw.limits
  limits ← parse_limits limit_items
  safety_items ← mapping raw.safety
  safety ← parse_safety mode safety_items
  sources ← mapping raw.observation_sources
  guard (all is_source sources) validation_error
  ok (record {
    name = name;
    mode = mode;
    kind = kind;
    interfaces = interfaces;
    limits = limits;
    safety = safety;
    observation_sources = source_names sources;
  })

-- Its middle, from the interfaces on.
with_interfaces :
    RawProfile → String → Mode → String → AdapterKind → Result ProfileError RobotProfile
unfolding mapping parse_interfaces finish_profile
with_interfaces raw name mode namespace kind = do
  interface_items ← mapping raw.interfaces
  interfaces ← parse_interfaces interface_items
  guard (validate_adapter_interfaces kind interfaces) validation_error
  guard (confined kind name mode namespace interfaces) validation_error
  finish_profile raw name mode kind interfaces

pub from_mapping : RawProfile → Result ProfileError RobotProfile
unfolding mapping text_of item only_keys parse_mode parse_kind with_interfaces profile_names
from_mapping raw = do
  guard (all (λ n. contains n profile_names) raw.names) validation_error
  guard (all (λ n. contains n raw.names) profile_names) validation_error
  name ← text_of (item "name" raw.items)
  mode ← parse_mode (item "mode" raw.items)
  namespace ← text_of (item "namespace" raw.items)
  frames ← mapping raw.frames
  guard (all is_frame frames && not (is_empty frames)) validation_error
  adapter ← mapping raw.adapter
  guard (only_keys adapter ("kind" ∷ [])) validation_error
  kind ← parse_kind (item "kind" adapter)
  with_interfaces raw name mode namespace kind
