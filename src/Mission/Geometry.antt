-- ===== src/Mission/Geometry.antt =====
-- The geometry of examples/hospital_delivery/src/smartcar_bringup/smartcar_bringup/controller_core.py,
-- over the operations of Python's floats.
use ros2_agent_workflow.Common.{
  Bool, true, false, ◌&&◌, ◌||◌, not, List, [], ◌∷◌, Option, none, some, if◌then◌else◌, is_empty,
  is_some, ◌≡◌, arith,
}

-- Python's float arithmetic and its `math` module, on the operands for which they raise nothing.
pub record Floats (Float : Type 0) : Type 0 where
  pub f0 : Float
  pub f1 : Float
  pub f2 : Float
  pub tiny : Float
  pub pi : Float
  pub add : Float → Float → Float
  pub sub : Float → Float → Float
  pub mul : Float → Float → Float
  pub div : Float → Float → Float
  pub modulo : Float → Float → Float
  pub neg : Float → Float
  pub magnitude : Float → Float
  pub less : Float → Float → Bool
  pub less_equal : Float → Float → Bool
  pub isclose : Float → Float → Bool
  pub isfinite : Float → Bool
  pub hypot : Float → Float → Float
  pub atan2 : Float → Float → Float
  pub cos : Float → Float
  pub sin : Float → Float

pub record Pose2D (Float : Type 0) : Type 0 where
  pub pose_x : Float
  pub pose_y : Float
  pub yaw : Float

pub record Waypoint (Float : Type 0) : Type 0 where
  pub x : Float
  pub y : Float

module _ {Float : Type 0} (o : Floats Float) where
  -- `min(a, b)` and `max(a, b)` keep their first argument unless the second is strictly beyond it.
  unfoldable pub min_float : Float → Float → Float
  min_float a b = if o.less b a then b else a

  unfoldable pub max_float : Float → Float → Float
  max_float a b = if o.less a b then b else a

  pub normalize_angle : Float → Float
  normalize_angle angle =
      let result = o.sub (o.modulo (o.add angle o.pi) (o.mul o.f2 o.pi)) o.pi in
      if o.isclose result (o.neg o.pi) && o.less o.f0 angle then o.pi else result

  pub world_pose_to_odom : Pose2D Float → Pose2D Float → Pose2D Float
  unfolding normalize_angle
  world_pose_to_odom start world_pose =
      let dx = o.sub world_pose.pose_x start.pose_x in
      let dy = o.sub world_pose.pose_y start.pose_y in
      let cosine = o.cos start.yaw in
      let sine = o.sin start.yaw in
      record {
        pose_x = o.add (o.mul cosine dx) (o.mul sine dy);
        pose_y = o.add (o.mul (o.neg sine) dx) (o.mul cosine dy);
        yaw = normalize_angle (o.sub world_pose.yaw start.yaw);
      }

  -- The loop of `interpolate_lookahead_carrot`.
  carrot_from : Float → Float → Float → List (Waypoint Float) → Waypoint Float
  carrot_from from_x from_y remaining [] = record { x = from_x; y = from_y }
  carrot_from from_x from_y remaining (target ∷ path) =
      let segment = o.hypot (o.sub target.x from_x) (o.sub target.y from_y) in
      let later = carrot_from target.x target.y (o.sub remaining segment) path in
      let ratio = o.div remaining segment in
      if o.less_equal remaining segment && o.less o.f0 segment
      then record {
        x = o.add from_x (o.mul ratio (o.sub target.x from_x));
        y = o.add from_y (o.mul ratio (o.sub target.y from_y));
      }
      else later

  -- `none` is the RouteValidationError.
  pub interpolate_lookahead_carrot :
      Pose2D Float → List (Waypoint Float) → Float → Option (Waypoint Float)
  unfolding carrot_from
  interpolate_lookahead_carrot pose remaining_path lookahead =
      if is_empty remaining_path || not (o.isfinite lookahead) || o.less_equal lookahead o.f0
      then none
      else some (carrot_from pose.pose_x pose.pose_y lookahead remaining_path)

  pub interpolate_lookahead_carrot_lem :
      (pose : Pose2D Float) (path : List (Waypoint Float)) (lookahead : Float)
      → is_empty path ≡ false
      → (o.isfinite lookahead && not (o.less_equal lookahead o.f0)) ≡ true
      → is_some (interpolate_lookahead_carrot pose path lookahead) ≡ true
  unfolding interpolate_lookahead_carrot
  interpolate_lookahead_carrot_lem pose path lookahead e h = ground arith

  pub pure_pursuit_curvature : Float → Float → Float
  pure_pursuit_curvature carrot_x carrot_y =
      let distance_squared = o.add (o.mul carrot_x carrot_x) (o.mul carrot_y carrot_y) in
      if o.less_equal distance_squared o.tiny
      then o.f0
      else o.div (o.mul o.f2 carrot_y) distance_squared
