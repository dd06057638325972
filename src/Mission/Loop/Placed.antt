-- ===== src/Mission/Loop/Placed.antt =====
-- Where a mission stands, before and after the waypoint loop
-- (examples/hospital_delivery/src/smartcar_bringup/smartcar_bringup/controller_core.py).
use ros2_agent_workflow.Common.{
  ℕ, zero, suc, ◌<◌, ◌≡◌, ◌≢◌, refl, ◌⊎◌, inl, inr, ◌∙◌, Bool, true, false, ◌&&◌, not, List, [],
  ◌∷◌, none, some, arith, length, get_elem?, Bool-cases, is_some, is_empty, all, length-append,
  ◌==◌,
}
use ros2_agent_workflow.Mission.Geometry.{Floats, Pose2D, Waypoint}
use ros2_agent_workflow.Mission.Loop.{
  LoopEnd, under_way, arrived, bad_index, unfinished, no_waypoint, round, advance, finish_stage,
  pass_waypoint,
}
use ros2_agent_workflow.Mission.Loop.Ends.{round_next, round_last, Round-cases}
use ros2_agent_workflow.Mission.{
  MissionState, running, succeeded, MissionStage, MissionRoute, MissionController, same_state,
}

module _ {Float : Type 0} where
  abbrev pub has_waypoints : MissionStage Float → Bool
  has_waypoints stage = not (is_empty stage.waypoints)

  -- What `load_route` sees to: there is a stage, and every stage has a waypoint.
  abbrev pub sound : MissionRoute Float → Bool
  sound route = not (is_empty route.stages) && all has_waypoints route.stages

  abbrev pub waypoint_at : List (MissionStage Float) → ℕ → ℕ → Bool
  waypoint_at stages i j = elim (get_elem? stages i) [
    | none ↦ false
    | some stage ↦ is_some (get_elem? stage.waypoints j)
  ]

  pub record Placed (m : MissionController Float) : Type 0 where
    pub in_range :
        (m.state ≢ running) ⊎ (waypoint_at m.route.stages m.stage_index m.waypoint_index ≡ true)
    pub counted : length m.stage_results ≡ m.stage_index
    pub finished : (m.state ≢ succeeded) ⊎ (m.stage_index ≡ length m.route.stages)

  pub waypoint_at-first :
      (stages : List (MissionStage Float)) (i : ℕ)
      → all has_waypoints stages ≡ true
      → i < length stages
      → waypoint_at stages i 0 ≡ true
  waypoint_at-first [] i h n = absurd (omega (arith, n))
  waypoint_at-first (stage ∷ stages) zero h n = first stage.waypoints (ground arith)
    where
      first :
          (ws : List (Waypoint Float)) → not (is_empty ws) ≡ true → is_some (get_elem? ws 0) ≡ true
      first [] e = e
      first (w ∷ ws) e = refl
  waypoint_at-first (stage ∷ stages) (suc i) h n =
      waypoint_at-first stages i (ground arith) (omega (arith, n))

  get_elem?-is_some :
      (xs : List (Waypoint Float)) (i : ℕ) → i < length xs → is_some (get_elem? xs i) ≡ true
  get_elem?-is_some [] i n = absurd (omega (arith, n))
  get_elem?-is_some (x ∷ xs) zero n = refl
  get_elem?-is_some (x ∷ xs) (suc i) n = get_elem?-is_some xs i (omega (arith, n))

  get_elem?-stage :
      (stages : List (MissionStage Float)) (i : ℕ) {stage : MissionStage Float}
      → get_elem? stages i ≡ some stage
      → i < length stages
  get_elem?-stage [] i h = cc
  get_elem?-stage (s ∷ stages) zero h = omega arith
  get_elem?-stage (s ∷ stages) (suc i) h = omega (arith, get_elem?-stage stages i h)

module _ {Float : Type 0} (o : Floats Float) where
  pass_waypoint-Placed :
      (m : MissionController Float) (stage : MissionStage Float)
      → get_elem? m.route.stages m.stage_index ≡ some stage
      → suc m.waypoint_index < length stage.waypoints
      → Placed m
      → Placed (pass_waypoint o m)
  unfolding pass_waypoint
  pass_waypoint-Placed m stage found n p = record {
    in_range =
        inr (rw (waypoint_at, found) (get_elem?-is_some stage.waypoints (suc m.waypoint_index) n));
    counted = p.counted;
    finished = p.finished;
  }

  finish_stage-Placed :
      (m : MissionController Float) (stage : MissionStage Float) (pose : Pose2D Float) (now : Float)
      → sound m.route ≡ true
      → get_elem? m.route.stages m.stage_index ≡ some stage
      → m.state ≡ running
      → Placed m
      → Placed (finish_stage o m stage pose now)
  unfolding finish_stage
  finish_stage-Placed m stage pose now s found r p = record {
    in_range = elim (Bool-cases (suc m.stage_index == length m.route.stages)) [
      | inl e ↦ inl (rw e (λ e'. cc))
      | inr e ↦ inr (
          waypoint_at-first m.route.stages (suc m.stage_index) (ground arith)
            (ground (arith, get_elem?-stage m.route.stages m.stage_index found)))
    ];
    counted = rw (length-append m.stage_results) (omega (arith, p.counted));
    finished = ground arith;
  }

  round_placed :
      (m : MissionController Float) (pose : Pose2D Float)
      → waypoint_at m.route.stages m.stage_index m.waypoint_index ≡ true
      → round o m pose ≢ no_waypoint
  unfolding round
  round_placed m pose h e = ground arith

  -- What the loop of a running mission leaves behind.
  pub record Advanced (m m' : MissionController Float) (end : LoopEnd) : Type 0 where
    pub placed : Placed m'
    pub same_route : m'.route ≡ m.route
    pub same_config : m'.config ≡ m.config
    pub found_waypoints : end ≢ bad_index
    pub still_running : (end ≢ under_way) ⊎ (m'.state ≡ running)

  advance_rest :
      (m m' m'' : MissionController Float) (end : LoopEnd)
      → m'.route ≡ m.route
      → m'.config ≡ m.config
      → Advanced m' m'' end
      → Advanced m m'' end
  advance_rest m m' m'' end r c a = record {
    placed = a.placed;
    same_route = a.same_route ∙ r;
    same_config = a.same_config ∙ c;
    found_waypoints = a.found_waypoints;
    still_running = a.still_running;
  }

  advance_stops :
      (m : MissionController Float) (end : LoopEnd)
      → end ≢ bad_index
      → (end ≢ under_way) ⊎ (m.state ≡ running)
      → Placed m
      → Advanced m m end
  advance_stops m end b r p = record {
    placed = p;
    same_route = refl;
    same_config = refl;
    found_waypoints = b;
    still_running = r;
  }

  pub Placed-waypoint_at :
      (m : MissionController Float)
      → m.state ≡ running
      → Placed m
      → waypoint_at m.route.stages m.stage_index m.waypoint_index ≡ true
  Placed-waypoint_at m r p = elim p.in_range [ inl e ↦ absurd (e r) | inr e ↦ e ]

  finish_stage-route :
      (m : MissionController Float) (stage : MissionStage Float) (pose : Pose2D Float) (now : Float)
      → ((finish_stage o m stage pose now).route ≡ m.route)
        × ((finish_stage o m stage pose now).config ≡ m.config)
  unfolding finish_stage
  finish_stage-route m stage pose now = (refl, refl)

  same_state-running : (s : MissionState) → same_state s running ≡ true → s ≡ running
  same_state-running s h = ground arith

  pub advance-Advanced :
      (fuel : ℕ) (m : MissionController Float) (pose : Pose2D Float) (now : Float)
      → sound m.route ≡ true
      → m.state ≡ running
      → Placed m
      → Advanced m (advance o fuel m pose now).0 (advance o fuel m pose now).1
  unfolding advance
  advance-Advanced zero m pose now s r p = advance_stops m unfinished (λ e. cc) (inr r) p
  advance-Advanced (suc fuel) m pose now s r p = elim (Round-cases o (round o m pose)) [
    | inl e ↦ rw (advance, e) (advance_stops m under_way (λ e'. cc) (inr r) p)
    | inr (inl e) ↦ absurd (round_placed m pose (Placed-waypoint_at m r p) e)
    | inr (inr (inl (stage, e))) ↦
        let (found, short) = round_next o m pose stage e in
        rw (advance, e)
          (advance_rest m (pass_waypoint o m) _ _ (unfold pass_waypoint in refl)
            (unfold pass_waypoint in refl)
            (advance-Advanced fuel (pass_waypoint o m) pose now (unfold pass_waypoint in s)
              (unfold pass_waypoint in r) (pass_waypoint-Placed m stage found short p)))
    | inr (inr (inr (stage, e))) ↦
        let found = (round_last o m pose stage e).0 in
        let m' = finish_stage o m stage pose now in
        let p' = finish_stage-Placed m stage pose now s found r p in
        let (route, config) = finish_stage-route m stage pose now in
        elim (Bool-cases (same_state m'.state running)) [
          | inl going ↦
              rw (advance, e, going)
                (advance_rest m m' _ _ route config (
                  advance-Advanced fuel m' pose now (rw route s) (same_state-running m'.state going)
                    p'))
          | inr over ↦
              rw (advance, e, over)
                (advance_rest m m' m' arrived route config
                  (advance_stops m' arrived (λ e'. cc) (inl (λ e'. cc)) p'))
        ]
  ]
