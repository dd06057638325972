-- ===== src/Mission/Steps/Stands.antt =====
-- Where a mission stands after any calls
-- (examples/hospital_delivery/src/smartcar_bringup/smartcar_bringup/controller_core.py).
use ros2_agent_workflow.Common.{◌≡◌, ◌∙◌, refl, inl, true, List, [], ◌∷◌, arith}
use ros2_agent_workflow.Mission.Geometry.{Floats}
use ros2_agent_workflow.Mission.Loop.Placed.{Placed, sound, waypoint_at-first}
use ros2_agent_workflow.Mission.Steering.Returns.{update-Returned}
use ros2_agent_workflow.Mission.{
  MissionController, MissionRoute, ControllerConfig, start, cancel, estop, reset, init,
}
use ros2_agent_workflow.Mission.Steps.{Action, starts, cancels, estops, resets, updates, step, run}

module _ {Float : Type 0} (o : Floats Float) where
  init-Placed :
      (route : MissionRoute Float) (config : ControllerConfig Float) → Placed (init route config)
  unfolding init
  init-Placed route config = record {
    in_range = inl (λ e. cc);
    counted = refl;
    finished = inl (λ e. cc);
  }

  step-Placed :
      (m : MissionController Float) (a : Action Float)
      → sound m.route ≡ true
      → Placed m
      → Placed (step o m a) × ((step o m a).route ≡ m.route)
  unfolding step start cancel estop reset
  step-Placed m (updates pose now front_range odom_received_at watchdog_now) s p =
      let r = update-Returned o m pose now front_range odom_received_at watchdog_now s p in
      (r.placed, r.same_route)
  step-Placed m (starts now watchdog_now) s p =
      ground (arith, waypoint_at-first m.route.stages 0, p.in_range, p.counted, p.finished)
  step-Placed m cancels s p = ground (arith, p.in_range, p.counted, p.finished)
  step-Placed m estops s p = ground (arith, p.in_range, p.counted, p.finished)
  step-Placed m resets s p =
      ground (arith, init-Placed m.route m.config, p.in_range, p.counted, p.finished)

  run-Placed :
      (m : MissionController Float) (actions : List (Action Float))
      → sound m.route ≡ true
      → Placed m
      → Placed (run o m actions)
  unfolding run
  run-Placed m [] s p = p
  run-Placed m (a ∷ actions) s p =
      let (p', same) = step-Placed m a s p in run-Placed (step o m a) actions (rw same s) p'

  run-route :
      (m : MissionController Float) (actions : List (Action Float))
      → sound m.route ≡ true
      → Placed m
      → (run o m actions).route ≡ m.route
  unfolding run
  run-route m [] s p = refl
  run-route m (a ∷ actions) s p =
      let (p', same) = step-Placed m a s p in run-route (step o m a) actions (rw same s) p' ∙ same

  pub run-init-route :
      (route : MissionRoute Float) (config : ControllerConfig Float) (actions : List (Action Float))
      → sound route ≡ true
      → (run o (init route config) actions).route ≡ route
  unfolding init
  run-init-route route config actions s =
      run-route (init route config) actions s (init-Placed route config)

  -- After any calls on a route with waypoints in every stage: a RUNNING mission has a stage and a
  -- waypoint to go to, there is one result for each stage that lies behind, and a SUCCEEDED mission
  -- has all stages behind it.
  pub run-init-Placed :
      (route : MissionRoute Float) (config : ControllerConfig Float) (actions : List (Action Float))
      → sound route ≡ true
      → Placed (run o (init route config) actions)
  unfolding init
  run-init-Placed route config actions s =
      run-Placed (init route config) actions s (init-Placed route config)
