-- ===== src/Runtime/Budget/Kept/Examples.antt =====
-- A mission in its second stage.
use ros2_agent_workflow.Common.{◌≡◌, ◌≤◌, ◌↔◌, false, [], ◌∷◌, none, some, pos}
use ros2_agent_workflow.Common.Value.{number}
use ros2_agent_workflow.Runtime.Budget.{total, hospital_budget_error}
use ros2_agent_workflow.Runtime.Budget.Kept.{Kept, hospital_budget-Kept}

hospital_budget-Kept_example :
    (hospital_budget_error false
        (some (30 ∷ 40 ∷ []))
        (number (pos 50))
        (some (some (number (pos 25)) ∷ []))
      ≡ none)
    ↔ ((50 ≤ total (30 ∷ 40 ∷ [])) × Kept 50 0 (30 ∷ 40 ∷ []) (some (number (pos 25)) ∷ []))
hospital_budget-Kept_example = hospital_budget-Kept (30 ∷ 40 ∷ []) 50 (some (number (pos 25)) ∷ [])
