-- ===== src/Runtime/Budget/Kept.antt =====
-- What it takes to keep the budget of a hospital task (agent_ros/runtime/controller.py).
mod Examples
use ros2_agent_workflow.Common.{
  ℕ, ◌+◌, ◌-◌, ◌≤◌, ◌<◌, ◌≡◌, ◌↔◌, refl, ◌⊎◌, inl, inr, Bool, true, false, ◌||◌, not, List, [], ◌∷◌,
  Option, none, some, arith, leb, ltb, length, if◌then◌else◌, Value, pos, Option-cases,
}
use ros2_agent_workflow.Common.Value.{number}
use ros2_agent_workflow.Runtime.Budget.{
  time_of, total, completed_at, rest_error, stage_errors, running_error, hospital_budget_error,
}

-- The results are those of the first stages: each was completed after the one before it and within
-- the timeout of its own stage, none after the present, and the stage that runs is within its own.
abbrev pub Kept : ℕ → ℕ → List ℕ → List (Option Value) → Type 0
Kept elapsed previous [] [] = Unit
Kept elapsed previous (t ∷ timeouts) [] = elapsed ≤ previous + t
Kept elapsed previous [] (r ∷ results) = ⊥
Kept elapsed previous (t ∷ timeouts) (r ∷ results) =
    (c : ℕ) × (completed_at r ≡ some c)
    × (previous < c)
    × (c ≤ elapsed)
    × (c ≤ previous + t)
    × Kept elapsed c timeouts results

stage_errors-Kept :
    (elapsed whole previous : ℕ) (timeouts : List ℕ) (results : List (Option Value))
    → stage_errors elapsed whole previous timeouts results ≡ none
    → (elapsed ≤ whole) × Kept elapsed previous timeouts results
unfolding stage_errors rest_error
stage_errors-Kept elapsed whole previous [] [] h = ground (arith, h)
stage_errors-Kept elapsed whole previous (t ∷ timeouts) [] h = ground (arith, h)
stage_errors-Kept elapsed whole previous [] (r ∷ results) h = cc
stage_errors-Kept elapsed whole previous (t ∷ timeouts) (r ∷ results) h =
    elim (Option-cases (completed_at r)) [
      | inl e ↦ ground (arith, h, e)
      | inr (c, e) ↦
          let rest = stage_errors-Kept elapsed whole c timeouts results (ground (arith, h, e)) in
          (rest.0, (c, e, ground (arith, h, e), ground (arith, h, e), ground (arith, h, e), rest.1))
    ]

Kept-stage_errors :
    (elapsed whole previous : ℕ) (timeouts : List ℕ) (results : List (Option Value))
    → elapsed ≤ whole
    → Kept elapsed previous timeouts results
    → stage_errors elapsed whole previous timeouts results ≡ none
unfolding stage_errors rest_error
Kept-stage_errors elapsed whole previous [] [] w k = ground (arith, w)
Kept-stage_errors elapsed whole previous (t ∷ timeouts) [] w k = ground (arith, w, k)
Kept-stage_errors elapsed whole previous [] (r ∷ results) w k = elim k [ ]
Kept-stage_errors elapsed whole previous (t ∷ timeouts) (r ∷ results) w (c, e, a, b, d, k) =
    ground (arith, e, a, b, d, Kept-stage_errors elapsed whole c timeouts results w k)

Kept-length :
    (elapsed previous : ℕ) (timeouts : List ℕ) (results : List (Option Value))
    → Kept elapsed previous timeouts results
    → length results ≤ length timeouts
Kept-length elapsed previous [] [] k = omega arith
Kept-length elapsed previous (t ∷ timeouts) [] k = omega arith
Kept-length elapsed previous [] (r ∷ results) k = elim k [ ]
Kept-length elapsed previous (t ∷ timeouts) (r ∷ results) (c, e, a, b, d, k) =
    omega (arith, Kept-length elapsed c timeouts results k)

-- A running mission raises no budget error exactly if the time that it has taken is within the sum of
-- the timeouts of its stages, and its results keep to the order and to the timeouts of the stages.
pub hospital_budget-Kept :
    (timeouts : List ℕ) (elapsed : ℕ) (results : List (Option Value))
    → (hospital_budget_error false (some timeouts) (number (pos elapsed)) (some results) ≡ none)
      ↔ ((elapsed ≤ total timeouts) × Kept elapsed 0 timeouts results)
unfolding hospital_budget_error running_error time_of
hospital_budget-Kept timeouts elapsed results = (
  (λ h. stage_errors-Kept elapsed (total timeouts) 0 timeouts results (ground (arith, h))),
  (λ h. ground (
    arith,
    Kept-length elapsed 0 timeouts results h.1,
    Kept-stage_errors elapsed (total timeouts) 0 timeouts results h.0 h.1,
  )),
)
