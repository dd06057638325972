-- ===== src/Gateway/Actions/History.antt =====
-- The transition history of a gateway over any interleaving (agent_ros/safety/gateway.py).
use ros2_agent_workflow.Common.{
  ℕ, suc, zero, Bool, sym, ◌<◌, min, ◌≡◌, refl, List, [], ◌∷◌, Option, none, some, arith, inl, inr,
  ◌⊎◌, take, length, length-take,
}
use mathlib.Core.Path.{subst₂, subst₃}
use ros2_agent_workflow.Profile.{RobotProfile}
use ros2_agent_workflow.Safety.{SafetyState, EmergencyStopResult, new}
use ros2_agent_workflow.Gateway.{
  Gateway, SafetyTransition, init, transition, history_size, discover, validate, start_task,
  heartbeat_locked,
}
use ros2_agent_workflow.Gateway.Methods.{
  arm_answered, record_stop, cancel_commit, fault_commit, estop_commit, operator_reset,
}
use ros2_agent_workflow.Gateway.Actions.{Action, step, run}
use ros2_agent_workflow.Gateway.Actions.Action.{discovers}

-- Newest first: the sequence numbers fall by one from `sequence`, each entry ends in the state where
-- the one after it begins, and the very first one begins in NEW.
abbrev pub Chained : ℕ → SafetyState → List SafetyTransition → Type 0
Chained sequence state [] = (0 < sequence) ⊎ (state ≡ new)
Chained sequence state (t ∷ older) =
    (suc t.sequence ≡ sequence) × (t.state_after ≡ state) × Chained t.sequence t.state_before older

pub record Recorded (g : Gateway) : Type 0 where
  pub chained : Chained g.transition_sequence g.state g.transition_history
  pub kept : length g.transition_history ≡ min g.transition_sequence history_size

abbrev pub stop_of : Option SafetyTransition → Option EmergencyStopResult
stop_of none = none
stop_of (some t) = t.stop_result

-- An action leaves state, counter and history alone, or adds the one entry that says what it did.
pub record Stayed (g g' : Gateway) : Type 0 where
  pub same_sequence : g'.transition_sequence ≡ g.transition_sequence
  pub same_state : g'.state ≡ g.state
  pub same_history : g'.transition_history ≡ g.transition_history

abbrev pub entry : Gateway → Gateway → SafetyTransition
entry g g' = record {
  sequence = g.transition_sequence;
  state_before = g.state;
  state_after = g'.state;
  stop_result = stop_of g'.latest_transition;
}

pub record Moved (g g' : Gateway) : Type 0 where
  pub next_sequence : g'.transition_sequence ≡ suc g.transition_sequence
  pub longer : g'.transition_history ≡ take history_size (entry g g' ∷ g.transition_history)

pub step-moves : (g : Gateway) (a : Action) → Stayed g (step g a) ⊎ Moved g (step g a)
unfolding step discover validate arm_answered start_task heartbeat_locked record_stop cancel_commit
    fault_commit estop_commit operator_reset transition
step-moves g (discovers report) = ground arith
step-moves g a = ground arith

Chained-take :
    (n sequence : ℕ) (state : SafetyState) (h : List SafetyTransition)
    → Chained sequence state h
    → Chained sequence state (take n h)
Chained-take zero sequence state [] c = c
Chained-take zero sequence state (t ∷ h) c = inl (omega (arith, c.0))
Chained-take (suc n) sequence state [] c = c
Chained-take (suc n) sequence state (t ∷ h) c =
    (c.0, c.1, Chained-take n t.sequence t.state_before h c.2)

Stayed-Recorded : (g g' : Gateway) → Stayed g g' → Recorded g → Recorded g'
Stayed-Recorded g g' s v = record {
  chained = subst₃ Chained (sym s.same_sequence) (sym s.same_state) (sym s.same_history) v.chained;
  kept = rw (s.same_sequence, s.same_history) v.kept;
}

Moved-Recorded : (g g' : Gateway) → Moved g g' → Recorded g → Recorded g'
Moved-Recorded g g' m v = record {
  chained =
      subst₂ (λ n h. Chained n g'.state h) (sym m.next_sequence) (sym m.longer)
        (Chained-take history_size (suc g.transition_sequence) g'.state
          (entry g g' ∷ g.transition_history) (refl, refl, v.chained));
  kept =
      rw (m.next_sequence, m.longer)
        (omega (arith, length-take history_size (entry g g' ∷ g.transition_history), v.kept));
}

step-Recorded : (g : Gateway) (a : Action) → Recorded g → Recorded (step g a)
step-Recorded g a v = elim (step-moves g a) [
  | inl s ↦ Stayed-Recorded g (step g a) s v
  | inr m ↦ Moved-Recorded g (step g a) m v
]

run-Recorded : (g : Gateway) (actions : List Action) → Recorded g → Recorded (run g actions)
unfolding run
run-Recorded g [] v = v
run-Recorded g (a ∷ actions) v = run-Recorded (step g a) actions (step-Recorded g a v)

-- After any interleaving of the threads' actions the history is the latest 256 transitions, numbered
-- without a gap up to the counter, each beginning in the state where the one before it ended and the
-- newest one ending in the gateway's state.
pub run-init-Recorded :
    (profile : RobotProfile) (runtime_dir : Bool) (actions : List Action)
    → Recorded (run (init profile runtime_dir) actions)
unfolding init
run-init-Recorded profile runtime_dir actions =
    run-Recorded (init profile runtime_dir) actions
      (record { chained = inr refl; kept = omega arith })
