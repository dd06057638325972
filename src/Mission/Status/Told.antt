-- ===== src/Mission/Status/Told.antt =====
-- What the status of a mission says, on a route that `load_route` returned
-- (examples/hospital_delivery/src/smartcar_bringup/smartcar_bringup/controller_core.py).
use ros2_agent_workflow.Common.{
  ℕ, ◌≡◌, ◌≢◌, ◌⊎◌, inl, inr, ◌∙◌, ap, true, List, Option, some, arith, is_some, length, get_elem?,
  Option-cases,
}
use ros2_agent_workflow.Mission.Geometry.{Floats}
use ros2_agent_workflow.Mission.Loop.Placed.{waypoint_at}
use ros2_agent_workflow.Mission.Route.{RawRoute, load_route}
use ros2_agent_workflow.Mission.Route.Loaded.{load_route-sound}
use ros2_agent_workflow.Mission.Steps.{Action, run}
use ros2_agent_workflow.Mission.Steps.Stands.{run-init-Placed, run-init-route}
use ros2_agent_workflow.Mission.Status.{id_of, status}
use ros2_agent_workflow.Mission.{
  MissionStage, MissionRoute, ControllerConfig, running, succeeded, init,
}

module _ {Float : Type 0} (o : Floats Float) where
  id_of-waypoint_at :
      (stages : List (MissionStage Float)) (i j : ℕ)
      → waypoint_at stages i j ≡ true
      → is_some (id_of (get_elem? stages i)) ≡ true
  id_of-waypoint_at stages i j h = elim (Option-cases (get_elem? stages i)) [
    | inl e ↦ ground (arith, h, e)
    | inr (stage, e) ↦ ground (arith, h, e)
  ]

  -- On a route that `load_route` returned, after any calls: the status of a RUNNING mission names a
  -- stage, there are as many stage results as the index of the stage says, and a mission that
  -- SUCCEEDED has the results of three stages.
  pub status_told :
      (tolerance : Float) (raw : Option (RawRoute Float)) (route : MissionRoute Float)
      (config : ControllerConfig Float) (actions : List (Action Float))
      → load_route o tolerance raw ≡ some route
      → (let s = status o (run o (init route config) actions) in
          ((s.state ≢ running) ⊎ (is_some s.stage_id ≡ true))
          × (length s.stage_results ≡ s.stage_index)
          × ((s.state ≢ succeeded) ⊎ (length s.stage_results ≡ 3)))
  unfolding status
  status_told tolerance raw route config actions h =
      let (sound, three, _) = load_route-sound o tolerance raw route h in
      let m = run o (init route config) actions in
      let p = run-init-Placed o route config actions sound in
      let same = run-init-route o route config actions sound in
      (
        elim p.in_range [
          | inl e ↦ inl e
          | inr w ↦ inr (id_of-waypoint_at m.route.stages m.stage_index m.waypoint_index w)
        ],
        p.counted,
        elim p.finished [
          | inl e ↦ inl e
          | inr f ↦
              inr (p.counted ∙ f ∙ ap (λ (r : MissionRoute Float). length r.stages) same ∙ three)
        ],
      )
