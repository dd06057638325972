-- ===== src/Mission/Status/Examples.antt =====
-- The status of a mission that has been started.
use ros2_agent_workflow.Common.{ℕ, ◌≡◌, ◌≢◌, ◌⊎◌, true, [], ◌∷◌, none, some, is_some, length}
use ros2_agent_workflow.Mission.Steps.Examples.{grid, config}
use ros2_agent_workflow.Mission.Route.Examples.{raw_route, route, route_loaded}
use ros2_agent_workflow.Mission.Steps.{starts, run}
use ros2_agent_workflow.Mission.Status.{MissionStatus, status}
use ros2_agent_workflow.Mission.Status.Told.{status_told}
use ros2_agent_workflow.Mission.{running, succeeded, init}

abbrev begun : MissionStatus ℕ
begun = status grid (run grid (init route config) (starts 0 none ∷ []))

status_told_example :
    ((begun.state ≢ running) ⊎ (is_some begun.stage_id ≡ true))
    × (length begun.stage_results ≡ begun.stage_index)
    × ((begun.state ≢ succeeded) ⊎ (length begun.stage_results ≡ 3))
status_told_example =
    status_told grid 0 (some raw_route) route config (starts 0 none ∷ []) route_loaded
