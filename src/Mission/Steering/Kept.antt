-- ===== src/Mission/Steering/Kept.antt =====
-- What an update leaves as it was, and when it has a command
-- (examples/hospital_delivery/src/smartcar_bringup/smartcar_bringup/controller_core.py).
use ros2_agent_workflow.Common.{
  ℕ, zero, suc, ◌≡◌, refl, sym, subst, ◌⊎◌, Bool, true, false, ◌&&◌, not, List, [], ◌∷◌, Option,
  none, some, arith, get_elem?, drop, is_some, is_empty, map,
}
use ros2_agent_workflow.Mission.Geometry.{
  Floats, Pose2D, Waypoint, interpolate_lookahead_carrot, interpolate_lookahead_carrot_lem,
}
use ros2_agent_workflow.Mission.Loop.{zero_command, waypoint_in_odom}
use ros2_agent_workflow.Mission.Loop.Placed.{Placed}
use ros2_agent_workflow.Mission.Steering.{watch_progress, plan, commit, steer}
use ros2_agent_workflow.Mission.{
  FailureCode, failed, MissionStage, MissionController, fail, UpdateEnd, commanded, VelocityCommand,
}

module _ {Float : Type 0} (o : Floats Float) where
  -- An update that does not move on along the route: it goes on, or it fails.
  pub record Kept (m m' : MissionController Float) : Type 0 where
    pub same_route : m'.route ≡ m.route
    pub same_config : m'.config ≡ m.config
    pub same_stage : m'.stage_index ≡ m.stage_index
    pub same_waypoint : m'.waypoint_index ≡ m.waypoint_index
    pub same_results : m'.stage_results ≡ m.stage_results
    pub kept_or_failed : (m'.state ≡ m.state) ⊎ (m'.state ≡ failed)

  pub Kept-Placed : (m m' : MissionController Float) → Kept m m' → Placed m → Placed m'
  Kept-Placed m m' k p = record {
    in_range =
        rw (k.same_route, k.same_stage, k.same_waypoint)
          (ground (arith, k.kept_or_failed, p.in_range));
    counted = rw (k.same_results, k.same_stage) p.counted;
    finished = rw (k.same_route, k.same_stage) (ground (arith, k.kept_or_failed, p.finished));
  }

  pub watch_progress-Kept :
      (m : MissionController Float) (distance heading now : Float)
      → Kept m (watch_progress o m distance heading now).0
  unfolding watch_progress fail
  watch_progress-Kept m distance heading now = ground arith

  commit-state :
      (r : MissionController Float × Bool) (planned : Option (VelocityCommand Float))
      → (commit o r planned).0 ≡ r.0
  unfolding commit
  commit-state (m, false) planned = refl
  commit-state (m, true) none = refl
  commit-state (m, true) (some c) = refl

  pub steer-Kept :
      (m : MissionController Float) (stage : MissionStage Float) (w : Waypoint Float)
      (pose : Pose2D Float) (now : Float)
      → Kept m (steer o m stage w pose now).0
  unfolding steer
  steer-Kept m stage w pose now =
      subst (Kept m) (sym (commit-state _ (plan o m stage pose _))) (watch_progress-Kept m _ _ now)

  pub fail-Kept : (m : MissionController Float) (code : FailureCode) → Kept m (fail m code)
  unfolding fail
  fail-Kept m code = ground arith

  -- The lookahead that `interpolate_lookahead_carrot` accepts.
  abbrev pub looks_ahead : MissionController Float → Bool
  looks_ahead m =
      o.isfinite m.config.lookahead_distance && not (o.less_equal m.config.lookahead_distance o.f0)

  abbrev pub Commands : UpdateEnd Float → Type 0
  Commands e = (c : VelocityCommand Float) × (e ≡ commanded c)

  pub commit-Commands :
      (r : MissionController Float × Bool) (planned : Option (VelocityCommand Float))
      → is_some planned ≡ true
      → Commands (commit o r planned).1
  unfolding commit
  commit-Commands (m, false) planned h = (zero_command o, refl)
  commit-Commands (m, true) none h = cc
  commit-Commands (m, true) (some c) h = (c, refl)

  path_left :
      (f : Waypoint Float → Waypoint Float) (ws : List (Waypoint Float)) (i : ℕ)
      → is_some (get_elem? ws i) ≡ true
      → is_empty (map f (drop i ws)) ≡ false
  path_left f [] i h = cc
  path_left f (w ∷ ws) zero h = refl
  path_left f (w ∷ ws) (suc i) h = path_left f ws i h

  carrot_found :
      (pose : Pose2D Float) (path : List (Waypoint Float)) (lookahead : Float)
      → is_empty path ≡ false
      → (o.isfinite lookahead && not (o.less_equal lookahead o.f0)) ≡ true
      → is_some (interpolate_lookahead_carrot o pose path lookahead) ≡ true
  carrot_found pose path lookahead e h = interpolate_lookahead_carrot_lem o pose path lookahead e h

  pub plan_found :
      (m : MissionController Float) (stage : MissionStage Float) (pose : Pose2D Float)
      (distance : Float)
      → is_some (get_elem? stage.waypoints m.waypoint_index) ≡ true
      → looks_ahead m ≡ true
      → is_some (plan o m stage pose distance) ≡ true
  unfolding plan
  plan_found m stage pose distance h l = ground (
    arith,
    carrot_found pose
        (map (λ w. waypoint_in_odom o m.route w) (drop m.waypoint_index stage.waypoints))
        m.config.lookahead_distance
        (path_left (λ w. waypoint_in_odom o m.route w) stage.waypoints m.waypoint_index h) l,
  )
