-- ===== src/Mission/Route/Examples.antt =====
-- A route file of three stages.
use ros2_agent_workflow.Common.{ℕ, String, ◌≡◌, refl, [], ◌∷◌, some, codes, contains}
use ros2_agent_workflow.Mission.Steps.Examples.{grid}
use ros2_agent_workflow.Mission.Route.{
  RawStage, RawRoute, is_blank, filled, finite_number, point, points, ends_at, placed_stage,
  named_stage, stage_of, stages_of, start_of, route_of, load_route,
}
use ros2_agent_workflow.Mission.{MissionStage, MissionRoute}

abbrev raw_stage : String → String → ℕ → RawStage ℕ
raw_stage id name x = record {
  id = some id;
  name = some name;
  waypoints = some (some (some 4 ∷ some 0 ∷ []) ∷ some (some x ∷ some 2 ∷ []) ∷ []);
  endpoint = some (some x ∷ some 2 ∷ []);
}

abbrev pub raw_route : RawRoute ℕ
raw_route = record {
  start = some (some 0 ∷ some 0 ∷ some 1 ∷ []);
  stages = some (
      some (raw_stage "pharmacy" "Pharmacy" 9)
      ∷ some (raw_stage "ward" "Ward" 12)
      ∷ some (raw_stage "dock" "Dock" 5)
      ∷ []);
}

abbrev stage : String → String → ℕ → MissionStage ℕ
stage id name x = record {
  id = id;
  name = name;
  endpoint = record { x = x; y = 2 };
  waypoints = record { x = 4; y = 0 } ∷ record { x = x; y = 2 } ∷ [];
}

abbrev pub route : MissionRoute ℕ
route = record {
  start = record { pose_x = 0; pose_y = 0; yaw = 1 };
  stages = stage "pharmacy" "Pharmacy" 9 ∷ stage "ward" "Ward" 12 ∷ stage "dock" "Dock" 5 ∷ [];
}

pub route_loaded : load_route grid 0 (some raw_route) ≡ some route
unfolding load_route start_of route_of stages_of stage_of named_stage placed_stage ends_at points
    point finite_number filled is_blank codes contains
route_loaded = refl
