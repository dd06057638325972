-- ===== src/Mission/Route.antt =====
-- `load_route` of
-- examples/hospital_delivery/src/smartcar_bringup/smartcar_bringup/controller_core.py: the route of a
-- mission from the JSON text of its file.
pub mod Loaded
pub mod Examples
use ros2_agent_workflow.Common.{
  String, Bool, true, false, ◌||◌, not, List, [], ◌∷◌, Option, none, some, all, codes, contains,
  if◌then◌else◌, ◌==◌, length,
}
use ros2_agent_workflow.Profile.Mapping.{is_space}
use ros2_agent_workflow.Mission.Geometry.{Floats, Pose2D, Waypoint}
use ros2_agent_workflow.Mission.{MissionStage, MissionRoute}

-- What the loader reads of a stage: `none` where the value is of another type or missing. A number is
-- `none` where it is no number, or a bool.
pub record RawStage (Float : Type 0) : Type 0 where
  pub id : Option String
  pub name : Option String
  pub waypoints : Option (List (Option (List (Option Float))))
  pub endpoint : Option (List (Option Float))

-- A stage is `none` where it is no object.
pub record RawRoute (Float : Type 0) : Type 0 where
  pub start : Option (List (Option Float))
  pub stages : Option (List (Option (RawStage Float)))

-- `not text.strip()`.
pub is_blank : String → Bool
unfolding codes
is_blank s = all is_space (codes s)

-- A text that is not blank.
pub filled : Option String → Option String
unfolding is_blank
filled none = none
filled (some s) = if is_blank s then none else some s

module _ {Float : Type 0} (o : Floats Float) where
  -- `_finite_number`.
  finite_number : Option Float → Option Float
  finite_number none = none
  finite_number (some f) = if o.isfinite f then some f else none

  -- `_point`.
  point : Option (List (Option Float)) → Option (Waypoint Float)
  unfolding finite_number
  point (some (a ∷ b ∷ [])) = elim (finite_number a) [
    | none ↦ none
    | some x ↦ elim (finite_number b) [ none ↦ none | some y ↦ some (record { x = x; y = y }) ]
  ]
  point _ = none

  points : List (Option (List (Option Float))) → Option (List (Waypoint Float))
  unfolding point
  points [] = some []
  points (raw ∷ raws) = elim (point raw) [
    | none ↦ none
    | some w ↦ elim (points raws) [ none ↦ none | some ws ↦ some (w ∷ ws) ]
  ]

  abbrev last_of : Waypoint Float → List (Waypoint Float) → Waypoint Float
  last_of w [] = w
  last_of w (v ∷ ws) = last_of v ws

  -- The last waypoint is the endpoint, up to `tolerance`.
  ends_at : Float → List (Waypoint Float) → Waypoint Float → Bool
  ends_at tolerance [] endpoint = false
  ends_at tolerance (w ∷ ws) endpoint =
      let last = last_of w ws in
      not (o.less tolerance (o.hypot (o.sub last.x endpoint.x) (o.sub last.y endpoint.y)))

  -- The waypoints and the endpoint of a stage.
  placed_stage :
      Float → String → String → List (Waypoint Float) → Waypoint Float → Option (MissionStage Float)
  unfolding ends_at
  placed_stage tolerance id name waypoints endpoint =
      if ends_at tolerance waypoints endpoint
      then some (record { id = id; name = name; endpoint = endpoint; waypoints = waypoints })
      else none

  named_stage : Float → String → String → RawStage Float → Option (MissionStage Float)
  unfolding points point placed_stage
  named_stage tolerance id name raw = elim raw.waypoints [
    | none ↦ none
    | some raws ↦ elim (points raws) [
      | none ↦ none
      | some waypoints ↦ elim (point raw.endpoint) [
        | none ↦ none
        | some endpoint ↦ placed_stage tolerance id name waypoints endpoint
      ]
    ]
  ]

  -- One round of the loop, given the identifiers that have been seen.
  stage_of : Float → List String → Option (RawStage Float) → Option (MissionStage Float)
  unfolding named_stage filled
  stage_of tolerance seen none = none
  stage_of tolerance seen (some raw) = elim (filled raw.id) [
    | none ↦ none
    | some id ↦ elim (filled raw.name) [
      | none ↦ none
      | some name ↦ if contains id seen then none else named_stage tolerance id name raw
    ]
  ]

  stages_of :
      Float → List String → List (Option (RawStage Float)) → Option (List (MissionStage Float))
  unfolding stage_of
  stages_of tolerance seen [] = some []
  stages_of tolerance seen (raw ∷ raws) = elim (stage_of tolerance seen raw) [
    | none ↦ none
    | some stage ↦ elim (stages_of tolerance (stage.id ∷ seen) raws) [
      | none ↦ none
      | some stages ↦ some (stage ∷ stages)
    ]
  ]

  start_of : Option (List (Option Float)) → Option (Pose2D Float)
  unfolding finite_number
  start_of (some (a ∷ b ∷ c ∷ [])) = elim (finite_number a) [
    | none ↦ none
    | some x ↦ elim (finite_number b) [
      | none ↦ none
      | some y ↦ elim (finite_number c) [
        | none ↦ none
        | some yaw ↦ some (record { pose_x = x; pose_y = y; yaw = yaw })
      ]
    ]
  ]
  start_of _ = none

  -- Three stages or none.
  route_of : Float → Pose2D Float → List (Option (RawStage Float)) → Option (MissionRoute Float)
  unfolding stages_of
  route_of tolerance start raws =
      let stages = stages_of tolerance [] raws in
      if not (length raws == 3)
      then none
      else elim stages [ none ↦ none | some ss ↦ some (record { start = start; stages = ss }) ]

  -- `load_route` of the object that the file has, which is `none` where the file cannot be read or has
  -- no object; the result is `none` where RouteValidationError is raised. `tolerance` is 1e-6.
  pub load_route : Float → Option (RawRoute Float) → Option (MissionRoute Float)
  unfolding start_of route_of
  load_route tolerance none = none
  load_route tolerance (some raw) = elim (start_of raw.start) [
    | none ↦ none
    | some start ↦ elim raw.stages [ none ↦ none | some raws ↦ route_of tolerance start raws ]
  ]
