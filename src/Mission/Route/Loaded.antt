-- ===== src/Mission/Route/Loaded.antt =====
-- What a loaded route has
-- (examples/hospital_delivery/src/smartcar_bringup/smartcar_bringup/controller_core.py).
use ros2_agent_workflow.Common.{
  some-injective, suc, ◌≡◌, refl, ap, ◌∙◌, subst, String, Bool, true, false, ◌&&◌, not, List, [],
  ◌∷◌, Option, none, some, arith, all, contains, length, Option-cases, Bool-cases, inl, inr,
}
use ros2_agent_workflow.Mission.Geometry.{Floats, Pose2D, Waypoint}
use ros2_agent_workflow.Mission.Loop.Placed.{sound, has_waypoints}
use ros2_agent_workflow.Mission.Route.{
  RawStage, RawRoute, filled, ends_at, placed_stage, named_stage, stage_of, stages_of, start_of,
  route_of, load_route, points, point,
}
use ros2_agent_workflow.Mission.{MissionStage, MissionRoute}

module _ {Float : Type 0} where
  -- No stage has the identifier of an earlier one, or one of those seen before.
  abbrev pub distinct_ids : List String → List (MissionStage Float) → Bool
  distinct_ids seen [] = true
  distinct_ids seen (s ∷ stages) = not (contains s.id seen) && distinct_ids (s.id ∷ seen) stages

  placed_stage-inv :
      (o : Floats Float) (tolerance : Float) (id name : String) (waypoints : List (Waypoint Float))
      (endpoint : Waypoint Float) (s : MissionStage Float)
      → placed_stage o tolerance id name waypoints endpoint ≡ some s
      → (s.id ≡ id) × (has_waypoints s ≡ true)
  unfolding placed_stage ends_at
  placed_stage-inv o tolerance id name [] endpoint s h = cc
  placed_stage-inv o tolerance id name (w ∷ ws) endpoint s h = ground (arith, h)

  named_stage-inv :
      (o : Floats Float) (tolerance : Float) (id name : String) (raw : RawStage Float)
      (s : MissionStage Float)
      → named_stage o tolerance id name raw ≡ some s
      → (s.id ≡ id) × (has_waypoints s ≡ true)
  unfolding named_stage
  named_stage-inv o tolerance id name raw s h = elim (Option-cases raw.waypoints) [
    | inl e ↦ ground (arith, h, e)
    | inr (raws, e) ↦ elim (Option-cases (points o raws)) [
      | inl e' ↦ ground (arith, h, e, e')
      | inr (waypoints, e') ↦ elim (Option-cases (point o raw.endpoint)) [
        | inl e'' ↦ ground (arith, h, e, e', e'')
        | inr (endpoint, e'') ↦
            placed_stage-inv o tolerance id name waypoints endpoint s
              (ground (arith, h, e, e', e''))
      ]
    ]
  ]

  stage_of-inv :
      (o : Floats Float) (tolerance : Float) (seen : List String) (raw : Option (RawStage Float))
      (s : MissionStage Float)
      → stage_of o tolerance seen raw ≡ some s
      → (contains s.id seen ≡ false) × (has_waypoints s ≡ true)
  unfolding stage_of
  stage_of-inv o tolerance seen none s h = cc
  stage_of-inv o tolerance seen (some raw) s h = elim (Option-cases (filled raw.id)) [
    | inl e ↦ ground (arith, h, e)
    | inr (id, e) ↦ elim (Option-cases (filled raw.name)) [
      | inl e' ↦ ground (arith, h, e, e')
      | inr (name, e') ↦ elim (Bool-cases (contains id seen)) [
        | inl e'' ↦ ground (arith, h, e, e', e'')
        | inr e'' ↦
            let (same, has) =
              named_stage-inv o tolerance id name raw s (ground (arith, h, e, e', e'')) in
            (ap (λ i. contains i seen) same ∙ e'', has)
      ]
    ]
  ]

  stages_of-inv :
      (o : Floats Float) (tolerance : Float) (seen : List String)
      (raws : List (Option (RawStage Float))) (stages : List (MissionStage Float))
      → stages_of o tolerance seen raws ≡ some stages
      → (distinct_ids seen stages ≡ true)
        × (all has_waypoints stages ≡ true)
        × (length stages ≡ length raws)
  unfolding stages_of
  stages_of-inv o tolerance seen [] [] h = (refl, refl, refl)
  stages_of-inv o tolerance seen [] (s ∷ stages) h = cc
  stages_of-inv o tolerance seen (raw ∷ raws) stages h =
      elim (Option-cases (stage_of o tolerance seen raw)) [
        | inl e ↦ ground (arith, h, e)
        | inr (s, e) ↦ elim (Option-cases (stages_of o tolerance (s.id ∷ seen) raws)) [
          | inl e' ↦ ground (arith, h, e, e')
          | inr (rest, e') ↦
              let (c, w) = stage_of-inv o tolerance seen raw s e in
              let (d, v, l) = stages_of-inv o tolerance (s.id ∷ seen) raws rest e' in
              let same : some (s ∷ rest) ≡ some stages = ground (arith, h, e, e') in
              subst
                (λ (ss : List (MissionStage Float)).
                  (distinct_ids seen ss ≡ true)
                  × (all has_waypoints ss ≡ true)
                  × (length ss ≡ suc (length raws)))
                (some-injective same) (ground (arith, c, d), ground (arith, w, v), ap suc l)
        ]
      ]

  route_of-inv :
      (o : Floats Float) (tolerance : Float) (start : Pose2D Float)
      (raws : List (Option (RawStage Float))) (route : MissionRoute Float)
      → route_of o tolerance start raws ≡ some route
      → (stages_of o tolerance [] raws ≡ some route.stages) × (length raws ≡ 3)
  unfolding route_of
  route_of-inv o tolerance start raws route h =
      elim (Option-cases (stages_of o tolerance [] raws)) [
        | inl e ↦ ground (arith, h, e)
        | inr (stages, e) ↦ ground (arith, h, e)
      ]

  -- A route that `load_route` returns has three stages with three identifiers, and every stage has a
  -- waypoint: it is one that the mission can run.
  pub load_route-sound :
      (o : Floats Float) (tolerance : Float) (raw : Option (RawRoute Float))
      (route : MissionRoute Float)
      → load_route o tolerance raw ≡ some route
      → (sound route ≡ true) × (length route.stages ≡ 3) × (distinct_ids [] route.stages ≡ true)
  unfolding load_route
  load_route-sound o tolerance none route h = cc
  load_route-sound o tolerance (some raw) route h = elim (Option-cases (start_of o raw.start)) [
    | inl e ↦ ground (arith, h, e)
    | inr (start, e) ↦ elim (Option-cases raw.stages) [
      | inl e' ↦ ground (arith, h, e, e')
      | inr (raws, e') ↦
          let (made, three) =
            route_of-inv o tolerance start raws route (ground (arith, h, e, e')) in
          let (d, w, l) = stages_of-inv o tolerance [] raws route.stages made in
          (ground (arith, w, l, three), l ∙ three, d)
    ]
  ]
