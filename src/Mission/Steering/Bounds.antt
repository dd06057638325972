-- ===== src/Mission/Steering/Bounds.antt =====
-- What an update commands
-- (examples/hospital_delivery/src/smartcar_bringup/smartcar_bringup/controller_core.py).
use ros2_agent_workflow.Common.{
  suc, ◌≡◌, ◌⊎◌, inl, inr, Bool, true, false, ◌&&◌, not, Option, none, some, arith, Bool-cases,
  Option-cases, subst, sym, map, drop, get_elem?,
}
use ros2_agent_workflow.Mission.Geometry.{Floats, Pose2D, Waypoint, interpolate_lookahead_carrot}
use ros2_agent_workflow.Mission.Loop.{
  zero_command, advance, LoopEnd, arrived, unfinished, bad_index, under_way, waypoint_in_odom,
  total,
}
use ros2_agent_workflow.Mission.Loop.Ends.{advance-config}
use ros2_agent_workflow.Mission.Steering.{
  limit_angular, head_for, head_for_base, overdue, first_of, or_default, commit, plan, after_loop,
  steer, navigate, drive, follow_pose, update,
}
use ros2_agent_workflow.Mission.{
  ControllerConfig, MissionStage, MissionController, running, same_state, VelocityCommand,
  UpdateEnd, commanded,
}

module _ {Float : Type 0} (o : Floats Float) where
  -- Neither above the limit nor below its negative.
  abbrev pub Limited : ControllerConfig Float → Float → Type 0
  Limited config angular =
      (o.less config.max_angular angular ≡ false)
      × (o.less angular (o.neg config.max_angular) ≡ false)

  limit_angular_lem :
      (config : ControllerConfig Float) (angular : Float)
      → ((a b : Float) → (o.less a b ≡ false) ⊎ (o.less b a ≡ false))
      → o.less config.max_angular (o.neg config.max_angular) ≡ false
      → Limited config (limit_angular o config angular)
  unfolding limit_angular
  limit_angular_lem config angular asym h = ground (
    arith,
    asym config.max_angular config.max_angular,
    asym config.max_angular angular,
    asym (o.neg config.max_angular) (o.neg config.max_angular),
    asym (o.neg config.max_angular) angular,
    asym (o.neg config.max_angular) config.max_angular,
  )

  head_for_base-Limited :
      (config : ControllerConfig Float) (base_x base_y distance : Float) (last : Bool)
      → ((a b : Float) → (o.less a b ≡ false) ⊎ (o.less b a ≡ false))
      → o.less config.max_angular (o.neg config.max_angular) ≡ false
      → Limited config (head_for_base o config base_x base_y distance last).angular
  unfolding head_for_base
  head_for_base-Limited config base_x base_y distance last asym h =
      elim (Bool-cases
        (o.less config.rotate_to_heading_min_angle (o.magnitude (o.atan2 base_y base_x)))) [
          | inl e ↦ simp e (limit_angular_lem config _ asym h)
          | inr e ↦ simp e (limit_angular_lem config _ asym h)
        ]

  head_for-Limited :
      (config : ControllerConfig Float) (pose : Pose2D Float) (carrot : Waypoint Float)
      (distance : Float) (last : Bool)
      → ((a b : Float) → (o.less a b ≡ false) ⊎ (o.less b a ≡ false))
      → o.less config.max_angular (o.neg config.max_angular) ≡ false
      → Limited config (head_for o config pose carrot distance last).angular
  unfolding head_for
  head_for-Limited config pose carrot distance last asym h =
      head_for_base-Limited config _ _ distance last asym h

  -- The command, if there is one, is limited.
  abbrev pub EndLimited : ControllerConfig Float → UpdateEnd Float → Type 0
  EndLimited config (commanded c) = Limited config c.angular
  EndLimited config _ = Unit

  -- Limits that zero lies within.
  pub record ZeroWithin (config : ControllerConfig Float) : Type 0 where
    pub apart : o.less config.max_angular (o.neg config.max_angular) ≡ false
    pub above : o.less config.max_angular o.f0 ≡ false
    pub below : o.less o.f0 (o.neg config.max_angular) ≡ false

  zero-Limited :
      (config : ControllerConfig Float)
      → ZeroWithin config
      → EndLimited config (commanded (zero_command o))
  zero-Limited config z = unfold zero_command in (z.above, z.below)

  abbrev PlanLimited : ControllerConfig Float → Option (VelocityCommand Float) → Type 0
  PlanLimited config none = Unit
  PlanLimited config (some c) = Limited config c.angular

  module _ (asym : (a b : Float) → (o.less a b ≡ false) ⊎ (o.less b a ≡ false)) where
    commit-Limited :
        (config : ControllerConfig Float) (r : MissionController Float × Bool)
        (planned : Option (VelocityCommand Float))
        → ZeroWithin config
        → PlanLimited config planned
        → EndLimited config (commit o r planned).1
    unfolding commit
    commit-Limited config (m, false) planned z h = zero-Limited config z
    commit-Limited config (m, true) none z h = tt
    commit-Limited config (m, true) (some c) z h = h

    plan-Limited :
        (m : MissionController Float) (stage : MissionStage Float) (pose : Pose2D Float)
        (distance : Float)
        → ZeroWithin m.config
        → PlanLimited m.config (plan o m stage pose distance)
    unfolding plan
    plan-Limited m stage pose distance z =
        elim (Option-cases (
          interpolate_lookahead_carrot o pose
            (map (λ w. waypoint_in_odom o m.route w) (drop m.waypoint_index stage.waypoints))
            m.config.lookahead_distance)) [
              | inl e ↦ rw (plan, e) tt
              | inr (carrot, e) ↦
                  rw (plan, e) (head_for-Limited m.config pose carrot distance _ asym z.apart)
            ]

    steer-Limited :
        (m : MissionController Float) (stage : MissionStage Float) (w : Waypoint Float)
        (pose : Pose2D Float) (now : Float)
        → ZeroWithin m.config
        → EndLimited m.config (steer o m stage w pose now).1
    unfolding steer
    steer-Limited m stage w pose now z =
        commit-Limited m.config _ _ z (plan-Limited m stage pose _ z)

    after_loop-Limited :
        (m : MissionController Float) (end : LoopEnd) (pose : Pose2D Float) (now : Float)
        → ZeroWithin m.config
        → EndLimited m.config (after_loop o m end pose now).1
    unfolding after_loop
    after_loop-Limited m arrived pose now z = zero-Limited m.config z
    after_loop-Limited m unfinished pose now z = tt
    after_loop-Limited m bad_index pose now z = tt
    after_loop-Limited m under_way pose now z =
        elim (Option-cases (get_elem? m.route.stages m.stage_index)) [
          | inl e ↦ rw (after_loop, e) tt
          | inr (stage, e) ↦ elim (Option-cases (get_elem? stage.waypoints m.waypoint_index)) [
            | inl f ↦ rw (after_loop, e, f) tt
            | inr (w, f) ↦ rw (after_loop, e, f) (steer-Limited m stage w pose now z)
          ]
        ]

    navigate-Limited :
        (m : MissionController Float) (pose : Pose2D Float) (now : Float)
        → ZeroWithin m.config
        → EndLimited m.config (navigate o m pose now).1
    unfolding navigate
    navigate-Limited m pose now z =
        let fuel = suc (total m.route.stages) in
        let same = advance-config o fuel m pose now in
        subst (λ c. EndLimited c (navigate o m pose now).1) same
          (after_loop-Limited (advance o fuel m pose now).0 (advance o fuel m pose now).1 pose now
            (subst ZeroWithin (sym same) z))

    drive-Limited :
        (m : MissionController Float) (pose : Pose2D Float) (now front_range : Float)
        → ZeroWithin m.config
        → EndLimited m.config (drive o m pose now front_range).1
    unfolding drive
    drive-Limited m pose now front_range z =
        elim (Bool-cases
          (o.isfinite front_range && o.less front_range m.config.obstacle_stop_distance)) [
            | inl e ↦ elim (Option-cases m.obstacle_since) [
              | inl f ↦ simp (drive, e, f) (zero-Limited m.config z)
              | inr (since, f) ↦
                  elim (Bool-cases (o.less m.config.obstacle_fail_after (o.sub now since))) [
                    | inl h ↦ simp (drive, e, f, h) (zero-Limited m.config z)
                    | inr h ↦ simp (drive, e, f, h) (zero-Limited m.config z)
                  ]
            ]
            | inr e ↦
                rw (drive, e) (navigate-Limited (record m { obstacle_since = none }) pose now z)
          ]

    follow_pose-Limited :
        (m : MissionController Float) (pose : Option (Pose2D Float)) (now front_range : Float)
        (odom_received_at : Option Float) (watchdog : Float)
        → ZeroWithin m.config
        → EndLimited m.config (follow_pose o m pose now front_range odom_received_at watchdog).1
    unfolding follow_pose
    follow_pose-Limited m none now front_range odom_received_at watchdog z =
        elim (Bool-cases (
          overdue o (first_of o m.last_odom_at m.started_watchdog_at) watchdog
            m.config.odom_timeout)) [
              | inl e ↦ rw (follow_pose, e) (zero-Limited m.config z)
              | inr e ↦ rw (follow_pose, e) (zero-Limited m.config z)
            ]
    follow_pose-Limited m (some pose) now front_range odom_received_at watchdog z =
        elim (Bool-cases (
          overdue o (some (or_default o odom_received_at watchdog)) watchdog
            m.config.odom_timeout)) [
              | inl e ↦ rw (follow_pose, e) (zero-Limited m.config z)
              | inr e ↦
                  rw (follow_pose, e)
                    (drive-Limited
                      (record m { last_odom_at = some (or_default o odom_received_at watchdog) })
                      pose now front_range z)
            ]

    -- Whatever an update is given, the angular velocity that it commands is neither above the
    -- configured limit nor below its negative, if the order of floats is asymmetric and zero lies
    -- within the limits.
    pub update-EndLimited :
        (m : MissionController Float) (pose : Option (Pose2D Float)) (now front_range : Float)
        (odom_received_at watchdog_now : Option Float)
        → ZeroWithin m.config
        → EndLimited m.config (update o m pose now front_range odom_received_at watchdog_now).1
    unfolding update
    update-EndLimited m pose now front_range odom_received_at watchdog_now z =
        let m' : MissionController Float = record m { last_update_at = some now } in
        elim (Bool-cases (not (same_state m.state running))) [
          | inl e ↦ rw (update, e) (zero-Limited m.config z)
          | inr e ↦ elim (Bool-cases (overdue o m.started_at now m.config.mission_timeout)) [
            | inl f ↦ rw (update, e, f) (zero-Limited m.config z)
            | inr f ↦
                rw (update, e, f)
                  (follow_pose-Limited m' pose now front_range odom_received_at
                    (or_default o watchdog_now now) z)
          ]
        ]
