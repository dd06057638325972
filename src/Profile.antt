-- ===== src/Profile.antt =====
-- agent_ros/profiles/models.py and agent_ros/discovery/models.py: the reviewed robot profile and the
-- report of one inspection of the ROS graph. A profile's limits and times are finite and positive
-- once it is loaded, so they are fixed-point naturals.
pub mod Mapping
use ros2_agent_workflow.Common.{ℕ, String, List, [], ◌∷◌, Option, same_text, if◌then◌else◌}

pub data Mode : Type 0 where
  simulation hardware : Mode

pub data AdapterKind : Type 0 where
  twist nav2 follow_joint_trajectory hospital_delivery : AdapterKind

-- `type` and the address, a topic or an action.
pub record InterfaceReference : Type 0 where
  pub interface_type : String
  pub topic : Option String
  pub action : Option String

pub record RobotInterfaces : Type 0 where
  pub command : Option InterfaceReference
  pub odometry : Option InterfaceReference
  pub navigation : Option InterfaceReference
  pub trajectory : Option InterfaceReference

pub record MotionLimits : Type 0 where
  pub max_linear_velocity : ℕ
  pub max_angular_velocity : ℕ
  pub max_linear_acceleration : ℕ
  pub max_angular_acceleration : ℕ

pub record SafetyConfig : Type 0 where
  pub heartbeat_timeout : Option ℕ
  pub estop_topic : Option String

pub record RobotProfile : Type 0 where
  pub name : String
  pub mode : Mode
  pub kind : AdapterKind
  pub interfaces : RobotInterfaces
  pub limits : MotionLimits
  pub safety : SafetyConfig
  pub observation_sources : List String

pub record DiscoveryReport : Type 0 where
  pub capability_names : List String
  pub blocking_warnings : List String
  pub topic_types : List (String × List String)
  pub action_types : List (String × List String)

-- `mapping.get(key, ())`.
unfoldable pub types_at : String → List (String × List String) → List String
types_at key [] = []
types_at key ((k, types) ∷ entries) = if same_text key k then types else types_at key entries
