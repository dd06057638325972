-- ===== src/Mission/Steering.antt =====
-- Progress, obstacles and the velocity command: the rest of `update` in
-- examples/hospital_delivery/src/smartcar_bringup/smartcar_bringup/controller_core.py.
pub mod Bounds
pub mod Kept
pub mod Returns
use ros2_agent_workflow.Common.{
  ℕ, zero, suc, ◌+◌, Bool, true, false, ◌&&◌, ◌||◌, not, List, [], ◌∷◌, ◌++◌, Option, none, some,
  ltb, ◌==◌, if◌then◌else◌, length, get_elem?, drop, map,
}
use ros2_agent_workflow.Mission.Geometry.{
  Floats, Pose2D, Waypoint, min_float, max_float, world_pose_to_odom, normalize_angle,
  interpolate_lookahead_carrot, pure_pursuit_curvature,
}
use ros2_agent_workflow.Mission.{
  MissionState, running, succeeded, FailureCode, mission_timeout, odom_stale, obstacle_blocked,
  waypoint_no_progress, VelocityCommand, MissionStage, MissionRoute, ControllerConfig, StageResult,
  Progress, MissionController, same_state, fail, UpdateEnd, commanded, index_error, route_error,
  out_of_fuel,
}
use ros2_agent_workflow.Mission.Loop.{
  LoopEnd, zero_command, waypoint_in_odom, advance, total, under_way, arrived, bad_index,
  unfinished,
}

module _ {Float : Type 0} (o : Floats Float) where
  abbrev pub set_progress :
      MissionController Float → Float → Float → Float → MissionController Float
  set_progress m distance heading now = record m {
    progress = some (record {
      target_stage = m.stage_index;
      target_waypoint = m.waypoint_index;
      best_distance = distance;
      best_heading_error = heading;
      progress_at = now;
    });
  }

  -- The progress watch of `update`: the controller afterwards, and whether it goes on.
  pub watch_progress :
      MissionController Float → Float → Float → Float → MissionController Float × Bool
  watch_progress m distance heading now = elim m.progress [
    | none ↦ (set_progress m distance heading now, true)
    | some p ↦
        if not (p.target_stage == m.stage_index && p.target_waypoint == m.waypoint_index)
        then (set_progress m distance heading now, true)
        else if o.less_equal distance (o.sub p.best_distance m.config.progress_epsilon)
        then (set_progress m distance heading now, true)
        else if o.less_equal heading (o.sub p.best_heading_error m.config.progress_heading_epsilon)
        then (set_progress m p.best_distance heading now, true)
        else if o.less m.config.progress_timeout (o.sub now p.progress_at)
        then (fail m waypoint_no_progress, false)
        else (m, true)
  ]

  unfoldable pub limit_angular : ControllerConfig Float → Float → Float
  unfolding max_float min_float
  limit_angular config angular =
      max_float o (o.neg config.max_angular) (min_float o config.max_angular angular)

  -- The regulated speed along the carrot's curvature; `last` is whether the target is the mission's
  -- last waypoint.
  unfoldable pub regulated : ControllerConfig Float → Float → Float → Bool → VelocityCommand Float
  unfolding min_float
  regulated config curvature distance last =
      let free =
        if o.less o.tiny (o.magnitude curvature)
        then min_float o config.max_linear (o.div config.max_angular (o.magnitude curvature))
        else config.max_linear in
      let speed =
        if last
        then o.mul free (min_float o o.f1 (o.div distance config.final_slow_distance))
        else free in
      record { linear = speed; angular = limit_angular config (o.mul speed curvature) }

  -- The command for a carrot in the frame of the base.
  unfoldable pub head_for_base :
      ControllerConfig Float → Float → Float → Float → Bool → VelocityCommand Float
  unfolding regulated
  head_for_base config base_x base_y distance last =
      let carrot_angle = o.atan2 base_y base_x in
      if o.less config.rotate_to_heading_min_angle (o.magnitude carrot_angle)
      then record {
        linear = o.f0;
        angular = limit_angular config (o.mul config.angular_kp carrot_angle);
      }
      else regulated config (pure_pursuit_curvature o base_x base_y) distance last

  -- The command that heads for a carrot.
  unfoldable pub head_for :
      ControllerConfig Float → Pose2D Float → Waypoint Float → Float → Bool → VelocityCommand Float
  unfolding head_for_base
  head_for config pose carrot distance last =
      let carrot_dx = o.sub carrot.x pose.pose_x in
      let carrot_dy = o.sub carrot.y pose.pose_y in
      let cosine = o.cos pose.yaw in
      let sine = o.sin pose.yaw in
      let base_x = o.add (o.mul cosine carrot_dx) (o.mul sine carrot_dy) in
      let base_y = o.add (o.mul (o.neg sine) carrot_dx) (o.mul cosine carrot_dy) in
      head_for_base config base_x base_y distance last

  -- The command towards a waypoint of the stage, at that distance; `none` is the RouteValidationError.
  unfoldable pub plan :
      MissionController Float
      → MissionStage Float
      → Pose2D Float
      → Float
      → Option (VelocityCommand Float)
  plan m stage pose distance =
      let path = map (λ w. waypoint_in_odom o m.route w) (drop m.waypoint_index stage.waypoints) in
      let last =
        (suc m.stage_index == length m.route.stages)
        && (suc m.waypoint_index == length stage.waypoints) in
      elim (interpolate_lookahead_carrot o pose path m.config.lookahead_distance) [
        | none ↦ none
        | some carrot ↦ some (head_for m.config pose carrot distance last)
      ]

  -- The command that was planned, unless the progress watch has failed.
  unfoldable pub commit :
      MissionController Float × Bool
      → Option (VelocityCommand Float)
      → MissionController Float × UpdateEnd Float
  commit (m, false) planned = (m, commanded (zero_command o))
  commit (m, true) none = (m, route_error)
  commit (m, true) (some c) = (m, commanded c)

  -- `update` after its waypoint loop has stopped short of a waypoint.
  unfoldable pub steer :
      MissionController Float
      → MissionStage Float
      → Waypoint Float
      → Pose2D Float
      → Float
      → MissionController Float × UpdateEnd Float
  unfolding watch_progress plan commit
  steer m stage waypoint pose now =
      let target = waypoint_in_odom o m.route waypoint in
      let dx = o.sub target.x pose.pose_x in
      let dy = o.sub target.y pose.pose_y in
      let distance = o.hypot dx dy in
      let heading = o.magnitude (normalize_angle o (o.sub (o.atan2 dy dx) pose.yaw)) in
      commit (watch_progress m distance heading now) (plan m stage pose distance)

  -- What follows the loop.
  unfoldable pub after_loop :
      MissionController Float
      → LoopEnd
      → Pose2D Float
      → Float
      → MissionController Float × UpdateEnd Float
  unfolding steer
  after_loop m arrived pose now = (m, commanded (zero_command o))
  after_loop m unfinished pose now = (m, out_of_fuel)
  after_loop m bad_index pose now = (m, index_error)
  after_loop m under_way pose now = elim (get_elem? m.route.stages m.stage_index) [
    | none ↦ (m, index_error)
    | some stage ↦ elim (get_elem? stage.waypoints m.waypoint_index) [
      | none ↦ (m, index_error)
      | some waypoint ↦ steer m stage waypoint pose now
    ]
  ]

  unfoldable pub navigate :
      MissionController Float → Pose2D Float → Float → MissionController Float × UpdateEnd Float
  unfolding after_loop
  navigate m pose now =
      let (m', end) = advance o (suc (total m.route.stages)) m pose now in
      after_loop m' end pose now

  -- `update` of a running mission with a pose, from its obstacle check on.
  unfoldable pub drive :
      MissionController Float
      → Pose2D Float
      → Float
      → Float
      → MissionController Float × UpdateEnd Float
  unfolding navigate
  drive m pose now front_range =
      if o.isfinite front_range && o.less front_range m.config.obstacle_stop_distance
      then elim m.obstacle_since [
        | none ↦ (record m { obstacle_since = some now }, commanded (zero_command o))
        | some since ↦
            if o.less m.config.obstacle_fail_after (o.sub now since)
            then (fail m obstacle_blocked, commanded (zero_command o))
            else (m, commanded (zero_command o))
      ]
      else navigate (record m { obstacle_since = none }) pose now

  abbrev pub first_of : Option Float → Option Float → Option Float
  first_of (some a) b = some a
  first_of none b = b

  abbrev pub or_default : Option Float → Float → Float
  or_default none b = b
  or_default (some a) b = a

  -- Whether a time that is known lies more than `limit` back.
  abbrev pub overdue : Option Float → Float → Float → Bool
  overdue none at limit = false
  overdue (some since) at limit = o.less limit (o.sub at since)

  -- `update` of a running mission that has not timed out.
  unfoldable pub follow_pose :
      MissionController Float
      → Option (Pose2D Float)
      → Float
      → Float
      → Option Float
      → Float
      → MissionController Float × UpdateEnd Float
  unfolding drive
  follow_pose m none now front_range odom_received_at watchdog =
      if overdue (first_of m.last_odom_at m.started_watchdog_at) watchdog m.config.odom_timeout
      then (fail m odom_stale, commanded (zero_command o))
      else (m, commanded (zero_command o))
  follow_pose m (some pose) now front_range odom_received_at watchdog =
      let m' = record m { last_odom_at = some (or_default odom_received_at watchdog) } in
      if overdue m'.last_odom_at watchdog m'.config.odom_timeout
      then (fail m' odom_stale, commanded (zero_command o))
      else drive m' pose now front_range

  unfoldable pub update :
      MissionController Float
      → Option (Pose2D Float)
      → Float
      → Float
      → Option Float
      → Option Float
      → MissionController Float × UpdateEnd Float
  unfolding follow_pose
  update m pose now front_range odom_received_at watchdog_now =
      let m' = record m { last_update_at = some now } in
      if not (same_state m'.state running)
      then (m', commanded (zero_command o))
      else if overdue m'.started_at now m'.config.mission_timeout
      then (fail m' mission_timeout, commanded (zero_command o))
      else follow_pose m' pose now front_range odom_received_at (or_default watchdog_now now)
