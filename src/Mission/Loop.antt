-- ===== src/Mission/Loop.antt =====
-- The waypoint loop of `update` in
-- examples/hospital_delivery/src/smartcar_bringup/smartcar_bringup/controller_core.py.
pub mod Ends
pub mod Placed
use ros2_agent_workflow.Common.{
  ℕ, zero, suc, ◌+◌, Bool, true, false, ◌&&◌, ◌||◌, not, List, [], ◌∷◌, ◌++◌, Option, none, some,
  ltb, ◌==◌, if◌then◌else◌, length, get_elem?, drop, map,
}
use ros2_agent_workflow.Mission.Geometry.{
  Floats, Pose2D, Waypoint, min_float, max_float, world_pose_to_odom, normalize_angle,
  interpolate_lookahead_carrot, pure_pursuit_curvature,
}
use ros2_agent_workflow.Mission.{
  MissionState, running, succeeded, FailureCode, mission_timeout, odom_stale, obstacle_blocked,
  waypoint_no_progress, VelocityCommand, MissionStage, MissionRoute, ControllerConfig, StageResult,
  Progress, MissionController, same_state, fail, UpdateEnd, commanded, index_error, route_error,
  out_of_fuel,
}

-- How the loop ends: short of a waypoint, at the end of the mission, with an IndexError, or not
-- within its fuel.
pub data LoopEnd : Type 0 where
  under_way arrived bad_index unfinished : LoopEnd

-- What one round of the loop does.
pub data Round (Float : Type 0) : Type 0 where
  far no_waypoint : Round Float
  next_waypoint last_waypoint : MissionStage Float → Round Float

-- How many waypoints stages have.
pub total : {Float : Type 0} → List (MissionStage Float) → ℕ
total [] = 0
total (stage ∷ stages) = length stage.waypoints + total stages

module _ {Float : Type 0} (o : Floats Float) where
  unfoldable pub zero_command : VelocityCommand Float
  zero_command = record { linear = o.f0; angular = o.f0 }

  pub waypoint_in_odom : MissionRoute Float → Waypoint Float → Waypoint Float
  waypoint_in_odom route w =
      let pose : Pose2D Float = record { pose_x = w.x; pose_y = w.y; yaw = route.start.yaw } in
      let transformed = world_pose_to_odom o route.start pose in
      record { x = transformed.pose_x; y = transformed.pose_y }

  distance_to : Pose2D Float → Waypoint Float → Float
  distance_to pose w = o.hypot (o.sub w.x pose.pose_x) (o.sub w.y pose.pose_y)

  -- The end of a stage, whose last waypoint has been reached.
  unfoldable pub finish_stage :
      MissionController Float → MissionStage Float → Pose2D Float → Float → MissionController Float
  unfolding distance_to
  finish_stage m stage pose now =
      let result : StageResult Float = record {
        id = stage.id;
        name = stage.name;
        endpoint_error = distance_to pose (waypoint_in_odom m.route stage.endpoint);
        elapsed = elim m.started_at [ none ↦ o.f0 | some at ↦ o.sub now at ];
      } in
      record m {
        stage_results = m.stage_results ++ result ∷ [];
        stage_index = suc m.stage_index;
        waypoint_index = 0;
        progress = none;
        state = if suc m.stage_index == length m.route.stages then succeeded else m.state;
      }

  pub round : MissionController Float → Pose2D Float → Round Float
  unfolding distance_to
  round m pose = elim (get_elem? m.route.stages m.stage_index) [
    | none ↦ no_waypoint
    | some stage ↦ elim (get_elem? stage.waypoints m.waypoint_index) [
      | none ↦ no_waypoint
      | some w ↦
          if o.less m.config.waypoint_tolerance (distance_to pose (waypoint_in_odom m.route w))
          then far
          else if ltb (suc m.waypoint_index) (length stage.waypoints)
          then next_waypoint stage
          else last_waypoint stage
    ]
  ]

  pass_waypoint : MissionController Float → MissionController Float
  pass_waypoint m = record m { waypoint_index = suc m.waypoint_index; progress = none }

  -- The waypoint loop, in at most that many rounds.
  pub advance :
      ℕ → MissionController Float → Pose2D Float → Float → MissionController Float × LoopEnd
  unfolding pass_waypoint finish_stage
  advance zero m pose now = (m, unfinished)
  advance (suc fuel) m pose now = elim (round m pose) [
    | far ↦ (m, under_way)
    | no_waypoint ↦ (m, bad_index)
    | next_waypoint stage ↦ advance fuel (pass_waypoint m) pose now
    | last_waypoint stage ↦
        let m' = finish_stage m stage pose now in
        let later = advance fuel m' pose now in
        if same_state m'.state running then later else (m', arrived)
  ]
