-- ===== src/Mission/Loop/Ends.antt =====
-- The waypoint loop comes to its end
-- (examples/hospital_delivery/src/smartcar_bringup/smartcar_bringup/controller_core.py).
use ros2_agent_workflow.Common.{
  ℕ, zero, suc, ◌+◌, ◌-◌, ◌≤◌, ◌<◌, ◌≡◌, ◌≢◌, refl, ◌⊎◌, inl, inr, ◌∙◌, true, List, [], ◌∷◌, some,
  arith, length, get_elem?, drop, Bool-cases, is_some,
}
use ros2_agent_workflow.Mission.Geometry.{Floats, Pose2D}
use ros2_agent_workflow.Mission.{running, MissionStage, MissionController, same_state}
use ros2_agent_workflow.Mission.Loop.{
  unfinished, Round, far, no_waypoint, next_waypoint, last_waypoint, total, round, advance,
  finish_stage, pass_waypoint,
}

pub get_elem?-lt :
    {A : Type 0} (xs : List A) (i : ℕ) → is_some (get_elem? xs i) ≡ true → i < length xs
get_elem?-lt [] i h = cc
get_elem?-lt (x ∷ xs) zero h = omega arith
get_elem?-lt (x ∷ xs) (suc i) h = omega (arith, get_elem?-lt xs i h)

pub total-drop :
    {Float : Type 0} (stages : List (MissionStage Float)) (i : ℕ) {stage : MissionStage Float}
    → get_elem? stages i ≡ some stage
    → total (drop i stages) ≡ length stage.waypoints + total (drop (suc i) stages)
unfolding total
total-drop [] i h = cc
total-drop (s ∷ stages) zero h = ground (arith, h)
total-drop (s ∷ stages) (suc i) h = total-drop stages i h

total-drop-≤ :
    {Float : Type 0} (stages : List (MissionStage Float)) (i : ℕ)
    → total (drop i stages) ≤ total stages
unfolding total
total-drop-≤ stages zero = omega arith
total-drop-≤ [] (suc i) = omega arith
total-drop-≤ (s ∷ stages) (suc i) = omega (arith, total-drop-≤ stages i)

module _ {Float : Type 0} (o : Floats Float) where
  -- Where a round goes on, its indices are in range.
  pub round_next :
      (m : MissionController Float) (pose : Pose2D Float) (stage : MissionStage Float)
      → round o m pose ≡ next_waypoint stage
      → (get_elem? m.route.stages m.stage_index ≡ some stage)
        × (suc m.waypoint_index < length stage.waypoints)
  unfolding round
  round_next m pose stage h = ground arith

  pub round_last :
      (m : MissionController Float) (pose : Pose2D Float) (stage : MissionStage Float)
      → round o m pose ≡ last_waypoint stage
      → (get_elem? m.route.stages m.stage_index ≡ some stage)
        × (is_some (get_elem? stage.waypoints m.waypoint_index) ≡ true)
        × (length stage.waypoints ≤ suc m.waypoint_index)
  unfolding round
  round_last m pose stage h = ground arith

  pub Round-cases :
      (r : Round Float)
      → (r ≡ far)
        ⊎ (r ≡ no_waypoint)
        ⊎ ((stage : MissionStage Float) × (r ≡ next_waypoint stage))
        ⊎ ((stage : MissionStage Float) × (r ≡ last_waypoint stage))
  Round-cases far = inl refl
  Round-cases no_waypoint = inr (inl refl)
  Round-cases (next_waypoint stage) = inr (inr (inl (stage, refl)))
  Round-cases (last_waypoint stage) = inr (inr (inr (stage, refl)))

  -- The waypoints not yet passed.
  abbrev left : MissionController Float → ℕ
  left m = total (drop m.stage_index m.route.stages) - m.waypoint_index

  advance-ends :
      (fuel : ℕ) (m : MissionController Float) (pose : Pose2D Float) (now : Float)
      → left m < fuel
      → (advance o fuel m pose now).1 ≢ unfinished
  unfolding advance finish_stage pass_waypoint
  advance-ends zero m pose now n h = absurd (omega (arith, n))
  advance-ends (suc fuel) m pose now n h = elim (Round-cases (round o m pose)) [
    | inl e ↦ cc (rw (advance, e) at h)
    | inr (inl e) ↦ cc (rw (advance, e) at h)
    | inr (inr (inl (stage, e))) ↦
        let (found, short) = round_next m pose stage e in
        advance-ends fuel (pass_waypoint o m) pose now
          (omega (arith, n, short, total-drop m.route.stages m.stage_index found))
          (rw (advance, e) at h)
    | inr (inr (inr (stage, e))) ↦
        let (found, there, last) = round_last m pose stage e in
        elim (Bool-cases (same_state (finish_stage o m stage pose now).state running)) [
          | inl going ↦
              advance-ends fuel (finish_stage o m stage pose now) pose now
                (omega (
                  arith,
                  n,
                  last,
                  get_elem?-lt stage.waypoints m.waypoint_index there,
                  total-drop m.route.stages m.stage_index found,
                ))
                (rw (advance, e, going) at h)
          | inr over ↦ cc (rw (advance, e, over) at h)
        ]
  ]

  -- The waypoint loop ends within as many rounds as the route has waypoints, and one more.
  pub advance_enough :
      (m : MissionController Float) (pose : Pose2D Float) (now : Float)
      → (advance o (suc (total m.route.stages)) m pose now).1 ≢ unfinished
  advance_enough m pose now =
      advance-ends (suc (total m.route.stages)) m pose now
        (omega (arith, total-drop-≤ m.route.stages m.stage_index))

  finish_stage-config :
      (m : MissionController Float) (stage : MissionStage Float) (pose : Pose2D Float) (now : Float)
      → (finish_stage o m stage pose now).config ≡ m.config
  unfolding finish_stage
  finish_stage-config m stage pose now = refl

  -- The loop leaves the configuration alone.
  pub advance-config :
      (fuel : ℕ) (m : MissionController Float) (pose : Pose2D Float) (now : Float)
      → (advance o fuel m pose now).0.config ≡ m.config
  unfolding advance pass_waypoint
  advance-config zero m pose now = refl
  advance-config (suc fuel) m pose now = elim (Round-cases (round o m pose)) [
    | inl e ↦ rw (advance, e) refl
    | inr (inl e) ↦ rw (advance, e) refl
    | inr (inr (inl (stage, e))) ↦
        rw (advance, e) (advance-config fuel (pass_waypoint o m) pose now)
    | inr (inr (inr (stage, e))) ↦
        let m' = finish_stage o m stage pose now in
        elim (Bool-cases (same_state m'.state running)) [
          | inl going ↦
              rw (advance, e, going)
                (advance-config fuel m' pose now ∙ finish_stage-config m stage pose now)
          | inr over ↦ rw (advance, e, over) (finish_stage-config m stage pose now)
        ]
  ]
