-- ===== src/Mission/Steering/Returns.antt =====
-- Updates of a mission return a command
-- (examples/hospital_delivery/src/smartcar_bringup/smartcar_bringup/controller_core.py).
use ros2_agent_workflow.Common.{
  suc, ◌≡◌, ◌≢◌, refl, subst, ◌⊎◌, inl, inr, ◌∙◌, true, false, ◌&&◌, not, Option, none, some, arith,
  get_elem?, Bool-cases, Option-cases, is_some,
}
use ros2_agent_workflow.Mission.Geometry.{Floats, Pose2D, Waypoint}
use ros2_agent_workflow.Mission.Loop.{
  LoopEnd, under_way, arrived, bad_index, unfinished, total, advance, zero_command,
}
use ros2_agent_workflow.Mission.Loop.Placed.{
  Placed, Advanced, sound, waypoint_at, advance-Advanced, Placed-waypoint_at,
}
use ros2_agent_workflow.Mission.Loop.Ends.{advance_enough}
use ros2_agent_workflow.Mission.Steering.{
  plan, steer, after_loop, navigate, drive, follow_pose, update, overdue, first_of, or_default,
}
use ros2_agent_workflow.Mission.{
  mission_timeout, odom_stale, obstacle_blocked, running, MissionStage, MissionController,
  same_state, UpdateEnd, commanded,
}
use ros2_agent_workflow.Mission.Steering.Kept.{
  Kept, Kept-Placed, steer-Kept, fail-Kept, looks_ahead, Commands, commit-Commands, plan_found,
}

module _ {Float : Type 0} (o : Floats Float) where
  -- What an update of a running mission gives: the mission stands on its route, and a command comes
  -- back unless the configured lookahead is refused.
  pub record Returned (m : MissionController Float) (r : MissionController Float × UpdateEnd Float)
      : Type 0 where
    pub placed : Placed r.0
    pub same_route : r.0.route ≡ m.route
    pub same_config : r.0.config ≡ m.config
    pub command : (looks_ahead o m ≡ false) ⊎ Commands o r.1

  Kept-Returned :
      (m : MissionController Float) (r : MissionController Float × UpdateEnd Float)
      → Placed m
      → Kept o m r.0
      → (looks_ahead o m ≡ false) ⊎ Commands o r.1
      → Returned m r
  Kept-Returned m r p k c = record {
    placed = Kept-Placed o m r.0 k p;
    same_route = k.same_route;
    same_config = k.same_config;
    command = c;
  }

  steer-Commands :
      (m : MissionController Float) (stage : MissionStage Float) (w : Waypoint Float)
      (pose : Pose2D Float) (now : Float)
      → is_some (get_elem? stage.waypoints m.waypoint_index) ≡ true
      → (looks_ahead o m ≡ false) ⊎ Commands o (steer o m stage w pose now).1
  unfolding steer
  steer-Commands m stage w pose now h = elim (Bool-cases (looks_ahead o m)) [
    | inl e ↦ inr (commit-Commands o _ (plan o m stage pose _) (plan_found o m stage pose _ h e))
    | inr e ↦ inl e
  ]

  stand : (m : MissionController Float) → Kept o m m
  stand m = ground arith

  under_way-Returned :
      (m : MissionController Float) (pose : Pose2D Float) (now : Float)
      → m.state ≡ running
      → Placed m
      → Returned m (after_loop o m under_way pose now)
  unfolding after_loop
  under_way-Returned m pose now r p = elim (Option-cases (get_elem? m.route.stages m.stage_index)) [
    | inl e ↦ cc (rw (waypoint_at, e) at (Placed-waypoint_at o m r p))
    | inr (stage, e) ↦ elim (Option-cases (get_elem? stage.waypoints m.waypoint_index)) [
      | inl f ↦ cc (rw (waypoint_at, e, f) at (Placed-waypoint_at o m r p))
      | inr (w, f) ↦
          rw (after_loop, e, f)
            (Kept-Returned m (steer o m stage w pose now) p (steer-Kept o m stage w pose now)
              (steer-Commands m stage w pose now (rw f refl)))
    ]
  ]

  after_loop-Returned :
      (m m' : MissionController Float) (end : LoopEnd) (pose : Pose2D Float) (now : Float)
      → Advanced o m m' end
      → end ≢ unfinished
      → Returned m' (after_loop o m' end pose now)
  unfolding after_loop
  after_loop-Returned m m' arrived pose now a n =
      Kept-Returned m' _ a.placed (stand m') (inr (zero_command o, refl))
  after_loop-Returned m m' unfinished pose now a n = absurd (n refl)
  after_loop-Returned m m' bad_index pose now a n = absurd (a.found_waypoints refl)
  after_loop-Returned m m' under_way pose now a n = elim a.still_running [
    | inl e ↦ absurd (e refl)
    | inr r ↦ under_way-Returned m' pose now r a.placed
  ]

  onward :
      (m m' : MissionController Float) (r : MissionController Float × UpdateEnd Float)
      → m'.route ≡ m.route
      → m'.config ≡ m.config
      → Returned m' r
      → Returned m r
  onward m m' r e f q = record {
    placed = q.placed;
    same_route = q.same_route ∙ e;
    same_config = q.same_config ∙ f;
    command =
        subst
          (λ c.
            ((o.isfinite c.lookahead_distance && not (o.less_equal c.lookahead_distance o.f0))
              ≡ false)
            ⊎ Commands o r.1)
          f q.command;
  }

  navigate-Returned :
      (m : MissionController Float) (pose : Pose2D Float) (now : Float)
      → sound m.route ≡ true
      → m.state ≡ running
      → Placed m
      → Returned m (navigate o m pose now)
  unfolding navigate
  navigate-Returned m pose now s r p =
      let fuel = suc (total m.route.stages) in
      let a = advance-Advanced o fuel m pose now s r p in
      onward m (advance o fuel m pose now).0 _ a.same_route a.same_config (
        after_loop-Returned m (advance o fuel m pose now).0 (advance o fuel m pose now).1 pose now a
          (advance_enough o m pose now))

  halted :
      (m m' : MissionController Float)
      → Placed m
      → Kept o m m'
      → Returned m (m', commanded (zero_command o))
  halted m m' p k = Kept-Returned m _ p k (inr (zero_command o, refl))

  drive-Returned :
      (m : MissionController Float) (pose : Pose2D Float) (now front_range : Float)
      → sound m.route ≡ true
      → m.state ≡ running
      → Placed m
      → Returned m (drive o m pose now front_range)
  unfolding drive
  drive-Returned m pose now front_range s r p =
      let close = o.isfinite front_range && o.less front_range m.config.obstacle_stop_distance in
      elim (Bool-cases close) [
        | inl e ↦ elim (Option-cases m.obstacle_since) [
          | inl f ↦ simp (drive, e, f) (halted m _ p (ground arith))
          | inr (since, f) ↦
              elim (Bool-cases (o.less m.config.obstacle_fail_after (o.sub now since))) [
                | inl h ↦ simp (drive, e, f, h) (halted m _ p (fail-Kept o m obstacle_blocked))
                | inr h ↦ simp (drive, e, f, h) (halted m m p (stand m))
              ]
        ]
        | inr e ↦
            let m' : MissionController Float = record m { obstacle_since = none } in
            rw (drive, e)
              (onward m m' _ refl refl
                (navigate-Returned m' pose now s r (Kept-Placed o m m' (ground arith) p)))
      ]

  follow_pose-Returned :
      (m : MissionController Float) (pose : Option (Pose2D Float)) (now front_range : Float)
      (odom_received_at : Option Float) (watchdog : Float)
      → sound m.route ≡ true
      → m.state ≡ running
      → Placed m
      → Returned m (follow_pose o m pose now front_range odom_received_at watchdog)
  unfolding follow_pose
  follow_pose-Returned m none now front_range odom_received_at watchdog s r p =
      elim (Bool-cases (
        overdue o (first_of o m.last_odom_at m.started_watchdog_at) watchdog
          m.config.odom_timeout)) [
            | inl e ↦ rw (follow_pose, e) (halted m _ p (fail-Kept o m odom_stale))
            | inr e ↦ rw (follow_pose, e) (halted m m p (stand m))
          ]
  follow_pose-Returned m (some pose) now front_range odom_received_at watchdog s r p =
      let m' : MissionController Float = record m {
        last_odom_at = some (or_default o odom_received_at watchdog);
      } in
      let p' = Kept-Placed o m m' (ground arith) p in
      elim (Bool-cases (overdue o m'.last_odom_at watchdog m'.config.odom_timeout)) [
        | inl e ↦
            rw (follow_pose, e)
              (onward m m' _ refl refl (halted m' _ p' (fail-Kept o m' odom_stale)))
        | inr e ↦
            rw (follow_pose, e)
              (onward m m' _ refl refl (drive-Returned m' pose now front_range s r p'))
      ]

  pub update-Returned :
      (m : MissionController Float) (pose : Option (Pose2D Float)) (now front_range : Float)
      (odom_received_at watchdog_now : Option Float)
      → sound m.route ≡ true
      → Placed m
      → Returned m (update o m pose now front_range odom_received_at watchdog_now)
  unfolding update
  update-Returned m pose now front_range odom_received_at watchdog_now s p =
      let m' : MissionController Float = record m { last_update_at = some now } in
      let p' = Kept-Placed o m m' (ground arith) p in
      elim (Bool-cases (not (same_state m.state running))) [
        | inl e ↦ rw (update, e) (halted m m' p (ground arith))
        | inr e ↦ elim (Bool-cases (overdue o m.started_at now m.config.mission_timeout)) [
          | inl f ↦
              rw (update, e, f)
                (onward m m' _ refl refl (halted m' _ p' (fail-Kept o m' mission_timeout)))
          | inr f ↦
              rw (update, e, f)
                (onward m m' _ refl refl (
                  follow_pose-Returned m' pose now front_range odom_received_at
                    (or_default o watchdog_now now) s (ground arith) p'))
        ]
      ]

  -- On a route with waypoints in every stage, an update of a controller that stands on it returns a
  -- command, with no IndexError and no endless loop, if the configured lookahead is finite and
  -- positive; and the controller then stands on the same route.
  pub update_returns :
      (m : MissionController Float) (pose : Option (Pose2D Float)) (now front_range : Float)
      (odom_received_at watchdog_now : Option Float)
      → sound m.route ≡ true
      → looks_ahead o m ≡ true
      → Placed m
      → Placed (update o m pose now front_range odom_received_at watchdog_now).0
        × ((update o m pose now front_range odom_received_at watchdog_now).0.route ≡ m.route)
        × Commands o (update o m pose now front_range odom_received_at watchdog_now).1
  update_returns m pose now front_range odom_received_at watchdog_now s l p =
      let r = update-Returned m pose now front_range odom_received_at watchdog_now s p in
      (r.placed, r.same_route, elim r.command [ inl e ↦ cc (e, l) | inr c ↦ c ])
