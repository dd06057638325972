-- ===== src/Mission/Steps/Examples.antt =====
-- A mission of one stage on a grid, with a coarse arithmetic in the place of floats.
use ros2_agent_workflow.Common.{
  ℕ, suc, ◌+◌, ◌-◌, ◌*◌, ◌≡◌, ◌≢◌, refl, ◌⊎◌, true, false, List, [], ◌∷◌, none, some, arith, ltb,
  leb, ◌==◌,
}
use ros2_agent_workflow.Mission.Geometry.{Floats, Pose2D, Waypoint}
use ros2_agent_workflow.Mission.Loop.{advance, total, unfinished}
use ros2_agent_workflow.Mission.Loop.Ends.{advance_enough}
use ros2_agent_workflow.Mission.Loop.Placed.{Placed}
use ros2_agent_workflow.Mission.Steering.{update}
use ros2_agent_workflow.Mission.Steering.Kept.{Commands}
use ros2_agent_workflow.Mission.Steering.Returns.{update_returns}
use ros2_agent_workflow.Mission.Steering.Bounds.{ZeroWithin, EndLimited, update-EndLimited}
use ros2_agent_workflow.Mission.{
  MissionRoute, ControllerConfig, MissionController, estopped, init, start, estop,
}
use ros2_agent_workflow.Mission.Steps.{Action, starts, estops, updates, step, run}
use ros2_agent_workflow.Mission.Steps.Latch.{estop_holds}
use ros2_agent_workflow.Mission.Steps.Stands.{run-init-Placed}

abbrev pub grid : Floats ℕ
grid = record {
  f0 = 0;
  f1 = 1;
  f2 = 2;
  tiny = 0;
  pi = 3;
  add = λ a b. a + b;
  sub = λ a b. a - b;
  mul = λ a b. a * b;
  div = λ a b. a;
  modulo = λ a b. a;
  neg = λ a. 0;
  magnitude = λ a. a;
  less = ltb;
  less_equal = leb;
  isclose = λ a b. a == b;
  isfinite = λ a. true;
  hypot = λ a b. a + b;
  atan2 = λ a b. 0;
  cos = λ a. 1;
  sin = λ a. 0;
}

abbrev point : ℕ → ℕ → Waypoint ℕ
point x y = record { x = x; y = y }

abbrev route : MissionRoute ℕ
route = record {
  start = record { pose_x = 0; pose_y = 0; yaw = 0 };
  stages =
      record {
        id = "pharmacy";
        name = "Pharmacy";
        endpoint = point 9 2;
        waypoints = point 4 0 ∷ point 9 2 ∷ [];
      }
      ∷ [];
}

abbrev pub config : ControllerConfig ℕ
config = record {
  waypoint_tolerance = 1;
  max_linear = 3;
  max_angular = 2;
  angular_kp = 1;
  lookahead_distance = 2;
  rotate_to_heading_min_angle = 1;
  final_slow_distance = 2;
  mission_timeout = 180;
  odom_timeout = 5;
  obstacle_stop_distance = 1;
  obstacle_fail_after = 5;
  progress_timeout = 12;
  progress_epsilon = 1;
  progress_heading_epsilon = 1;
}

abbrev at_first : Pose2D ℕ
at_first = record { pose_x = 4; pose_y = 0; yaw = 0 }

abbrev started_mission : MissionController ℕ
started_mission = run grid (init route config) (starts 0 none ∷ [])

run-init-Placed_example : Placed started_mission
run-init-Placed_example = run-init-Placed grid route config (starts 0 none ∷ []) refl

update_returns_example :
    Placed (update grid started_mission (some at_first) 3 8 (some 3) none).0
    × ((update grid started_mission (some at_first) 3 8 (some 3) none).0.route
        ≡ started_mission.route)
    × Commands grid (update grid started_mission (some at_first) 3 8 (some 3) none).1
update_returns_example =
    update_returns grid started_mission (some at_first) 3 8 (some 3) none
      (unfold run step start init in refl) (unfold run step start init in refl)
      run-init-Placed_example

advance_enough_example :
    (advance grid (suc (total started_mission.route.stages)) started_mission at_first 3).1
    ≢ unfinished
advance_enough_example = advance_enough grid started_mission at_first 3

less_asym : (a b : ℕ) → (ltb a b ≡ false) ⊎ (ltb b a ≡ false)
less_asym a b = ground arith

started-ZeroWithin : ZeroWithin grid started_mission.config
unfolding run step start init
started-ZeroWithin = record { apart = refl; above = refl; below = refl }

update-EndLimited_example :
    EndLimited grid started_mission.config
      (update grid started_mission (some at_first) 3 8 (some 3) none).1
update-EndLimited_example =
    update-EndLimited grid less_asym started_mission (some at_first) 3 8 (some 3) none
      started-ZeroWithin

abbrev stopped_mission : MissionController ℕ
stopped_mission = run grid (init route config) (starts 0 none ∷ estops ∷ [])

stopped_mission_state : stopped_mission.state ≡ estopped
unfolding run step start init estop
stopped_mission_state = refl

abbrev later_calls : List (Action ℕ)
later_calls = starts 4 none ∷ updates (some at_first) 5 8 none none ∷ []

estop_holds_example :
    ((run grid stopped_mission later_calls).state ≡ estopped)
    × ((run grid stopped_mission later_calls).stage_results ≡ stopped_mission.stage_results)
estop_holds_example =
    estop_holds grid stopped_mission later_calls (λ e. cc, (λ e. cc, tt)) stopped_mission_state
