-- ===== src/Mission/Steps/Latch.antt =====
-- What a controller does when it is not running
-- (examples/hospital_delivery/src/smartcar_bringup/smartcar_bringup/controller_core.py).
use ros2_agent_workflow.Common.{◌≡◌, ◌≢◌, refl, ◌∙◌, false, List, [], ◌∷◌, Option, some, arith, All}
use ros2_agent_workflow.Mission.Geometry.{Floats, Pose2D}
use ros2_agent_workflow.Mission.Loop.{zero_command}
use ros2_agent_workflow.Mission.Steering.{update}
use ros2_agent_workflow.Mission.{
  running, estopped, MissionController, commanded, start, cancel, estop, same_state,
}
use ros2_agent_workflow.Mission.Steps.{Action, resets, updates, step, run}

module _ {Float : Type 0} (o : Floats Float) where
  -- An update of a controller that is not RUNNING commands zero and changes only the time of the
  -- latest update.
  pub update_idle :
      (m : MissionController Float) (pose : Option (Pose2D Float)) (now front_range : Float)
      (odom_received_at watchdog_now : Option Float)
      → same_state m.state running ≡ false
      → update o m pose now front_range odom_received_at watchdog_now
        ≡ (record m { last_update_at = some now }, commanded (zero_command o))
  unfolding update
  update_idle m pose now front_range odom_received_at watchdog_now h = simp (update, h)

  -- No action of the list is a reset.
  abbrev pub Unreset : List (Action Float) → Type 0
  Unreset = All (λ a. a ≢ resets)

  step_estopped :
      (m : MissionController Float) (a : Action Float)
      → a ≢ resets
      → m.state ≡ estopped
      → ((step o m a).state ≡ estopped) × ((step o m a).stage_results ≡ m.stage_results)
  unfolding step start cancel estop
  step_estopped m (updates pose now front_range odom_received_at watchdog_now) r e =
      rw (step, update_idle m pose now front_range odom_received_at watchdog_now (simp e)) (e, refl)
  step_estopped m resets r e = absurd (r refl)
  step_estopped m a r e = ground arith

  -- An emergency stop of the mission holds through every start, cancel, stop and update until a
  -- reset, and the results of the stages stay as they were.
  pub estop_holds :
      (m : MissionController Float) (actions : List (Action Float))
      → Unreset actions
      → m.state ≡ estopped
      → ((run o m actions).state ≡ estopped) × ((run o m actions).stage_results ≡ m.stage_results)
  unfolding run
  estop_holds m [] u e = (e, refl)
  estop_holds m (a ∷ actions) u e =
      let (e', same) = step_estopped m a u.0 e in
      let (last, same') = estop_holds (step o m a) actions u.1 e' in (last, same' ∙ same)
