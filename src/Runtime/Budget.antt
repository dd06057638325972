-- ===== src/Runtime/Budget.antt =====
-- `_hospital_budget_error` of agent_ros/runtime/controller.py. Times are natural numbers of a fixed
-- unit.
pub mod Kept
use ros2_agent_workflow.Common.{
  ℕ, ◌+◌, ◌-◌, Bool, true, false, ◌||◌, not, List, [], ◌∷◌, Option, none, some, leb, ltb, length,
  if◌then◌else◌, Value, pos, Result, ok, err,
}
use ros2_agent_workflow.Common.Value.{number}

-- The codes UNSAFE_STATE and TIMEOUT.
pub data BudgetError : Type 0 where
  unsafe_state timeout : BudgetError

-- A number that is finite and not negative.
pub time_of : Value → Option ℕ
time_of (number (pos n)) = some n
time_of _ = none

-- `sum(stage.timeout for stage in task.stages)`.
pub total : List ℕ → ℕ
total [] = 0
total (t ∷ timeouts) = t + total timeouts

-- What a result says of when its stage was completed; `none` where the result is no mapping.
pub completed_at : Option Value → Option ℕ
unfolding time_of
completed_at none = none
completed_at (some v) = time_of v

-- The end of the function, after the loop: the time of the last result, and the stages without one.
pub rest_error : ℕ → ℕ → ℕ → List ℕ → Option BudgetError
rest_error elapsed whole previous timeouts =
    if ltb whole elapsed then some timeout else elim timeouts [
      | [] ↦ none
      | t ∷ _ ↦ if ltb t (elapsed - previous) then some timeout else none
    ]

-- The loop over the results, of which there are at most as many as stages.
pub stage_errors : ℕ → ℕ → ℕ → List ℕ → List (Option Value) → Option BudgetError
unfolding rest_error completed_at
stage_errors elapsed whole previous timeouts [] = rest_error elapsed whole previous timeouts
stage_errors elapsed whole previous [] (r ∷ results) = some unsafe_state
stage_errors elapsed whole previous (t ∷ timeouts) (r ∷ results) = elim (completed_at r) [
  | none ↦ some unsafe_state
  | some c ↦
      let rest = stage_errors elapsed whole c timeouts results in
      if leb c previous || ltb elapsed c
      then some unsafe_state
      else if ltb t (c - previous)
      then some timeout
      else rest
]

pub running_error : List ℕ → Value → Option (List (Option Value)) → Option BudgetError
unfolding stage_errors total time_of
running_error timeouts elapsed none = some unsafe_state
running_error timeouts elapsed (some results) = elim (time_of elapsed) [
  | none ↦ some unsafe_state
  | some e ↦
      if ltb (length timeouts) (length results)
      then some unsafe_state
      else stage_errors e (total timeouts) 0 timeouts results
]

-- `waits` is whether the mission is starting or idle; `task` has the timeouts of the stages.
pub hospital_budget_error :
    Bool → Option (List ℕ) → Value → Option (List (Option Value)) → Option BudgetError
unfolding running_error
hospital_budget_error true task elapsed results = none
hospital_budget_error false none elapsed results = some unsafe_state
hospital_budget_error false (some timeouts) elapsed results = running_error timeouts elapsed results
