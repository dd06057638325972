-- ===== src/Profile/Mapping/Reviewed/Examples.antt =====
-- A profile of the hospital robot.
use ros2_agent_workflow.Common.{
  ◌≡◌, refl, String, [], ◌∷◌, Option, none, some, pos, contains, codes, ok,
}
use ros2_agent_workflow.Common.Value.{number, text}
use ros2_agent_workflow.Profile.{RobotProfile, InterfaceReference, simulation, hospital_delivery}
use ros2_agent_workflow.Profile.Mapping.{
  RawProfile, RawInterface, object, from_mapping, with_interfaces, finish_profile, mapping, text_of,
  item, interface_item, only_keys, parse_mode, parse_kind, parse_interfaces, topic_interface,
  action_interface, parse_limits, parse_safety, finite_positive, optional, source_names,
  profile_names, limit_names, safety_names, validate_adapter_interfaces, confined, has_type,
  topic_is,
}
use ros2_agent_workflow.Profile.Mapping.Reviewed.{Reviewed, from_mapping-Reviewed}

abbrev topic : String → String → RawInterface
topic t a = object (("type", text t) ∷ ("topic", text a) ∷ [])

abbrev raw : RawProfile
raw = record {
  names =
      "name" ∷ "mode" ∷ "namespace" ∷ "frames" ∷ "adapter" ∷ "interfaces" ∷ "limits" ∷ "safety"
      ∷ "observation_sources" ∷ [];
  items =
      ("name", text "hospital-amr")
      ∷ ("mode", text "simulation")
      ∷ ("namespace", text "/hospital_amr")
      ∷ [];
  frames = some (("base", text "base_link") ∷ []);
  adapter = some (("kind", text "hospital_delivery") ∷ []);
  interfaces = some (
      ("command", topic "geometry_msgs/msg/Twist" "/cmd_vel")
      ∷ ("odometry", topic "nav_msgs/msg/Odometry" "/odom")
      ∷ []);
  limits = some (
      ("max_linear_velocity", number (pos 22))
      ∷ ("max_angular_velocity", number (pos 100))
      ∷ ("max_linear_acceleration", number (pos 50))
      ∷ ("max_angular_acceleration", number (pos 100))
      ∷ []);
  safety = some (("heartbeat_timeout", number (pos 2)) ∷ []);
  observation_sources = some (text "camera" ∷ []);
}

abbrev endpoint : String → String → Option InterfaceReference
endpoint t a = some (record { interface_type = t; topic = some a; action = none })

abbrev hospital_amr : RobotProfile
hospital_amr = record {
  name = "hospital-amr";
  mode = simulation;
  kind = hospital_delivery;
  interfaces = record {
    command = endpoint "geometry_msgs/msg/Twist" "/cmd_vel";
    odometry = endpoint "nav_msgs/msg/Odometry" "/odom";
    navigation = none;
    trajectory = none;
  };
  limits = record {
    max_linear_velocity = 22;
    max_angular_velocity = 100;
    max_linear_acceleration = 50;
    max_angular_acceleration = 100;
  };
  safety = record { heartbeat_timeout = some 2; estop_topic = none };
  observation_sources = "camera" ∷ [];
}

raw_accepted : from_mapping raw ≡ ok hospital_amr
unfolding from_mapping with_interfaces finish_profile mapping text_of item interface_item only_keys
    parse_mode parse_kind parse_interfaces topic_interface action_interface parse_limits
    parse_safety finite_positive optional source_names profile_names limit_names safety_names
    validate_adapter_interfaces confined has_type topic_is contains codes
raw_accepted = refl

from_mapping-Reviewed_example : Reviewed hospital_amr
from_mapping-Reviewed_example = from_mapping-Reviewed raw hospital_amr raw_accepted
