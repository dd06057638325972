-- ===== src/Runtime/Flows/Unvalidated.antt =====
-- What keeps a gateway from being validated (agent_ros/runtime/controller.py).
use ros2_agent_workflow.Common.{
  ℕ, ◌<◌, ◌≡◌, ◌≢◌, refl, sym, subst, Bool, true, false, List, ◌∷◌, ◌⊎◌, inl, inr, All, All-take,
  [],
}
use ros2_agent_workflow.Safety.{validated}
use ros2_agent_workflow.Gateway.{Gateway, SafetyTransition, history_size}
use ros2_agent_workflow.Gateway.Actions
use ros2_agent_workflow.Gateway.Actions.Action.{validates, discovers}
use ros2_agent_workflow.Gateway.Actions.Arming.{step_unvalidated}
use ros2_agent_workflow.Gateway.Actions.History.{step-moves, entry}
use ros2_agent_workflow.Runtime.Flows.Keeps.{Own, Stable}

-- Everything but `validate`.
abbrev pub no_validate : Actions.Action → Bool
no_validate validates = false
no_validate _ = true

pub no_validate-Own : Own no_validate
no_validate-Own = record {
  of_stop = λ _. refl;
  of_cancel = λ _. refl;
  of_fault = λ _. refl;
  of_estop = λ _. refl;
  of_beat = λ _. refl;
}

-- An entry from before `n`, or one that does not lead to VALIDATED.
abbrev pub OldOrOther : ℕ → SafetyTransition → Type 0
OldOrOther n t = (t.sequence < n) ⊎ (t.state_after ≢ validated)

-- The gateway is not VALIDATED, and none of its transitions from number `n` on has led there.
pub record Unvalidated (n : ℕ) (g : Gateway) : Type 0 where
  pub elsewhere : g.state ≢ validated
  pub history : All (OldOrOther n) g.transition_history

pub Unvalidated-Stable : (n : ℕ) → Stable no_validate (Unvalidated n)
Unvalidated-Stable n g a p v =
    let e =
      step_unvalidated g a v.elsewhere
        (λ c. let q : no_validate validates ≡ true = rw (c) at p in cc) in
    elim (step-moves g a) [
      | inl s ↦ record {
        elsewhere = e;
        history = subst (All (OldOrOther n)) (sym s.same_history) v.history;
      }
      | inr m ↦ record {
        elsewhere = e;
        history = subst (All (OldOrOther n)) (sym m.longer) (
            All-take (OldOrOther n) history_size (entry g (Actions.step g a) ∷ g.transition_history)
              (inr e, v.history));
      }
    ]

pub old_entries :
    (n : ℕ) (h : List SafetyTransition)
    → All (λ (t : SafetyTransition). t.sequence < n) h
    → All (OldOrOther n) h
old_entries n [] l = tt
old_entries n (t ∷ h) (e, l) = (inl e, old_entries n h l)
