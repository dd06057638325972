-- ===== src/Mission/Status.antt =====
-- `status` of
-- examples/hospital_delivery/src/smartcar_bringup/smartcar_bringup/controller_core.py.
pub mod Told
mod Examples
use ros2_agent_workflow.Common.{ℕ, String, List, Option, none, some, get_elem?}
use ros2_agent_workflow.Mission.Geometry.{Floats, max_float}
use ros2_agent_workflow.Mission.{
  MissionState, FailureCode, MissionStage, StageResult, MissionController,
}

-- The mapping that it returns.
pub record MissionStatus (Float : Type 0) : Type 0 where
  pub state : MissionState
  pub failure_code : Option FailureCode
  pub stage_index : ℕ
  pub stage_id : Option String
  pub stage_name : Option String
  pub waypoint_index : ℕ
  pub stage_results : List (StageResult Float)
  pub elapsed : Float
  pub failed_stage_id : Option String
  pub failed_waypoint_index : Option ℕ

module _ {Float : Type 0} where
  abbrev pub id_of : Option (MissionStage Float) → Option String
  id_of none = none
  id_of (some stage) = some stage.id

  abbrev name_of : Option (MissionStage Float) → Option String
  name_of none = none
  name_of (some stage) = some stage.name

module _ {Float : Type 0} (o : Floats Float) where
  elapsed_at : Option Float → Option Float → Float
  unfolding max_float
  elapsed_at (some started_at) (some last_update_at) =
      max_float o o.f0 (o.sub last_update_at started_at)
  elapsed_at _ _ = o.f0

  pub status : MissionController Float → MissionStatus Float
  unfolding elapsed_at
  status m =
      let stage = get_elem? m.route.stages m.stage_index in
      record {
        state = m.state;
        failure_code = m.failure_code;
        stage_index = m.stage_index;
        stage_id = id_of stage;
        stage_name = name_of stage;
        waypoint_index = m.waypoint_index;
        stage_results = m.stage_results;
        elapsed = elapsed_at m.started_at m.last_update_at;
        failed_stage_id = m.failed_stage_id;
        failed_waypoint_index = m.failed_waypoint_index;
      }
