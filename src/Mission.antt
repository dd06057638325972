-- ===== src/Mission.antt =====
-- `MissionControllerCore` of
-- examples/hospital_delivery/src/smartcar_bringup/smartcar_bringup/controller_core.py: the hospital
-- mission as a state machine. Floats are an argument; the route and the configuration are fields.
pub mod Geometry
pub mod Loop
pub mod Steering
pub mod Steps
pub mod Route
pub mod Status
use ros2_agent_workflow.Common.{
  ℕ, String, Bool, true, false, not, List, [], Option, none, some, ◌==◌, if◌then◌else◌, get_elem?,
}
use Geometry.{Pose2D, Waypoint}

pub data MissionState : Type 0 where
  idle running succeeded failed cancelled estopped : MissionState

pub data FailureCode : Type 0 where
  mission_timeout odom_stale obstacle_blocked waypoint_no_progress : FailureCode

pub record VelocityCommand (Float : Type 0) : Type 0 where
  pub linear : Float
  pub angular : Float

pub record MissionStage (Float : Type 0) : Type 0 where
  pub id : String
  pub name : String
  pub endpoint : Waypoint Float
  pub waypoints : List (Waypoint Float)

pub record MissionRoute (Float : Type 0) : Type 0 where
  pub start : Pose2D Float
  pub stages : List (MissionStage Float)

pub record ControllerConfig (Float : Type 0) : Type 0 where
  pub waypoint_tolerance : Float
  pub max_linear : Float
  pub max_angular : Float
  pub angular_kp : Float
  pub lookahead_distance : Float
  pub rotate_to_heading_min_angle : Float
  pub final_slow_distance : Float
  pub mission_timeout : Float
  pub odom_timeout : Float
  pub obstacle_stop_distance : Float
  pub obstacle_fail_after : Float
  pub progress_timeout : Float
  pub progress_epsilon : Float
  pub progress_heading_epsilon : Float

pub record StageResult (Float : Type 0) : Type 0 where
  pub id : String
  pub name : String
  pub endpoint_error : Float
  pub elapsed : Float

-- `_progress_target`, `_best_distance`, `_best_heading_error` and `_progress_at`, which are set
-- together and reset together.
pub record Progress (Float : Type 0) : Type 0 where
  pub target_stage : ℕ
  pub target_waypoint : ℕ
  pub best_distance : Float
  pub best_heading_error : Float
  pub progress_at : Float

pub record MissionController (Float : Type 0) : Type 0 where
  pub route : MissionRoute Float
  pub config : ControllerConfig Float
  pub state : MissionState
  pub failure_code : Option FailureCode
  pub started_at : Option Float
  pub started_watchdog_at : Option Float
  pub stage_index : ℕ
  pub waypoint_index : ℕ
  pub stage_results : List (StageResult Float)
  pub last_odom_at : Option Float
  pub last_update_at : Option Float
  pub obstacle_since : Option Float
  pub progress : Option (Progress Float)
  pub failed_stage_id : Option String
  pub failed_waypoint_index : Option ℕ

abbrev pub index : MissionState → ℕ
index idle = 0
index running = 1
index succeeded = 2
index failed = 3
index cancelled = 4
index estopped = 5

abbrev pub same_state : MissionState → MissionState → Bool
same_state a b = index a == index b

-- Which message an operation answers with.
pub data Message : Type 0 where
  already_running estop_is_latched started : Message
  not_running cancelled_now : Message
  already_latched latched_now : Message
  cancel_first reset_now : Message

pub record OperationResult : Type 0 where
  pub accepted : Bool
  pub message : Message

abbrev accept : Message → OperationResult
accept message = record { accepted = true; message = message }

abbrev refuse : Message → OperationResult
refuse message = record { accepted = false; message = message }

-- What ends an update: a command, an IndexError, a RouteValidationError of the lookahead, or a loop
-- that has not ended within its fuel.
pub data UpdateEnd (Float : Type 0) : Type 0 where
  commanded : VelocityCommand Float → UpdateEnd Float
  index_error route_error out_of_fuel : UpdateEnd Float

module _ {Float : Type 0} where
  pub init : MissionRoute Float → ControllerConfig Float → MissionController Float
  init route config = record {
    route = route;
    config = config;
    state = idle;
    failure_code = none;
    started_at = none;
    started_watchdog_at = none;
    stage_index = 0;
    waypoint_index = 0;
    stage_results = [];
    last_odom_at = none;
    last_update_at = none;
    obstacle_since = none;
    progress = none;
    failed_stage_id = none;
    failed_waypoint_index = none;
  }

  pub start :
      MissionController Float → Float → Option Float → MissionController Float × OperationResult
  start m now watchdog_now =
      if same_state m.state running
      then (m, refuse already_running)
      else if same_state m.state estopped
      then (m, refuse estop_is_latched)
      else (
        record m {
          state = running;
          failure_code = none;
          started_at = some now;
          started_watchdog_at = elim watchdog_now [ none ↦ some now | some w ↦ some w ];
          stage_index = 0;
          waypoint_index = 0;
          stage_results = [];
          last_odom_at = none;
          last_update_at = some now;
          obstacle_since = none;
          progress = none;
          failed_stage_id = none;
          failed_waypoint_index = none;
        },
        accept started,
      )

  pub cancel : MissionController Float → MissionController Float × OperationResult
  cancel m =
      if not (same_state m.state running)
      then (m, refuse not_running)
      else (record m { state = cancelled }, accept cancelled_now)

  pub estop : MissionController Float → MissionController Float × OperationResult
  estop m =
      if same_state m.state estopped
      then (m, accept already_latched)
      else (record m { state = estopped }, accept latched_now)

  pub reset : MissionController Float → MissionController Float × OperationResult
  unfolding init
  reset m =
      if same_state m.state running
      then (m, refuse cancel_first)
      else (init m.route m.config, accept reset_now)

  -- `_fail`, without its command.
  pub fail : MissionController Float → FailureCode → MissionController Float
  fail m code =
      let m' = record m { state = failed; failure_code = some code } in
      elim (get_elem? m.route.stages m.stage_index) [
        | none ↦ m'
        | some stage ↦ record m' {
          failed_stage_id = some stage.id;
          failed_waypoint_index = some m.waypoint_index;
        }
      ]
