-- ===== src/Mission/Steps.antt =====
-- The calls that the mission node makes on one controller, in any order
-- (examples/hospital_delivery/src/smartcar_bringup/smartcar_bringup/controller_core.py).
pub mod Latch
pub mod Stands
pub mod Examples
use ros2_agent_workflow.Common.{List, [], ◌∷◌, Option}
use ros2_agent_workflow.Mission.Geometry.{Floats, Pose2D}
use ros2_agent_workflow.Mission.Steering.{update}
use ros2_agent_workflow.Mission.{MissionController, start, cancel, estop, reset}

pub data Action (Float : Type 0) : Type 0 where
  starts : Float → Option Float → Action Float
  cancels estops resets : Action Float
  -- the pose, the time, the range in front, and the times of the odometry and of the watchdog
  updates : Option (Pose2D Float) → Float → Float → Option Float → Option Float → Action Float

module _ {Float : Type 0} (o : Floats Float) where
  pub step : MissionController Float → Action Float → MissionController Float
  step m (starts now watchdog_now) = (start m now watchdog_now).0
  step m cancels = (cancel m).0
  step m estops = (estop m).0
  step m resets = (reset m).0
  step m (updates pose now front_range odom_received_at watchdog_now) =
      (update o m pose now front_range odom_received_at watchdog_now).0

  pub run : MissionController Float → List (Action Float) → MissionController Float
  run m [] = m
  run m (a ∷ actions) = run (step m a) actions
