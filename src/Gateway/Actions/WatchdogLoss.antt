-- ===== src/Gateway/Actions/WatchdogLoss.antt =====
-- The watchdog thread against the gateway that it watches (agent_ros/safety/supervisor.py and
-- gateway.py).
use ros2_agent_workflow.Common.{
  ℕ, ◌+◌, ◌≤◌, ◌<◌, ◌≡◌, ◌≢◌, ◌⊎◌, Bool, refl, ap, ◌∙◌, true, false, List, [], ◌∷◌, none, some,
  arith, ok, map, is_some,
}
use ros2_agent_workflow.Safety.{EmergencyStopResult, running, faulted}
use ros2_agent_workflow.Gateway.Watchdog.{
  polling, exited, start, wake, compare_deadline, recheck, finish,
}
use ros2_agent_workflow.Gateway.{
  Gateway, SafetyTransition, Motion, transition, transition_from, start_task, heartbeat_locked,
}
use ros2_agent_workflow.Gateway.Actions.{Action, step, run}
use ros2_agent_workflow.Gateway.Actions.Action.{
  starts, beats, wakes, compares, rechecks, watchdog_commits,
}

-- An action that is no step of the watchdog.
abbrev pub by_others : Action → Bool
by_others wakes = false
by_others (compares now) = false
by_others (rechecks now) = false
by_others (watchdog_commits r) = false
by_others _ = true

-- The watchdog's readings of the deadline and of the clock.
abbrev pub readings : ℕ → ℕ → List Action
readings now later = wakes ∷ compares now ∷ rechecks later ∷ []

-- How the thread ends: with the fault of a gateway that still runs, or with a gateway that another
-- thread has taken out of RUNNING, which it leaves alone.
abbrev pub Ended : Gateway → Gateway → EmergencyStopResult → Type 0
Ended b g r =
    (g.supervisor.worker ≡ exited)
    × (((b.state ≢ running) × (g.state ≡ b.state))
        ⊎ ((g.state ≡ faulted)
            × (g.deadline ≡ none)
            × (g.latest_transition ≡ some (transition_from b faulted (some r)))))

-- What the watchdog thread alone can do.
pub data WatchdogStep : Type 0 where
  waking : WatchdogStep
  comparing_at rechecking_at : ℕ → WatchdogStep
  committing : EmergencyStopResult → WatchdogStep

abbrev pub as_action : WatchdogStep → Action
as_action waking = wakes
as_action (comparing_at now) = compares now
as_action (rechecking_at now) = rechecks now
as_action (committing r) = watchdog_commits r

step_exited :
    (g : Gateway) (w : WatchdogStep) → g.supervisor.worker ≡ exited → step g (as_action w) ≡ g
unfolding step wake compare_deadline recheck finish
step_exited g waking e = ground arith
step_exited g w e = ground arith

run_exited :
    (g : Gateway) (steps : List WatchdogStep)
    → g.supervisor.worker ≡ exited
    → run g (map as_action steps) ≡ g
unfolding run
run_exited g [] e = refl
run_exited g (w ∷ steps) e =
    ap (λ h. run h (map as_action steps)) (step_exited g w e) ∙ run_exited g steps e

-- A gateway that runs with no thread left to fault it: no step of the watchdog changes it again.
pub record Unwatched (g : Gateway) : Type 0 where
  pub still_running : g.state ≡ running
  pub thread_gone : g.supervisor.worker ≡ exited
  pub never_faults : (steps : List WatchdogStep) → run g (map as_action steps) ≡ g

Unwatched-of : (g : Gateway) → g.state ≡ running → g.supervisor.worker ≡ exited → Unwatched g
Unwatched-of g s e = record {
  still_running = s;
  thread_gone = e;
  never_faults = λ steps. run_exited g steps e;
}

-- If a task starts while the watchdog of an earlier task, told to stop, has not yet woken, `start`
-- keeps that thread; it then wakes, sees its stop event and ends, and the gateway runs with no
-- watchdog, however late its heartbeat becomes.
pub restart-Unwatched :
    (g : Gateway) (m : Motion) (now : ℕ) (t : SafetyTransition)
    → g.supervisor.worker ≡ polling
    → g.supervisor.stop_event ≡ true
    → (start_task g m now).1 ≡ ok t
    → Unwatched (run g (starts m now ∷ wakes ∷ []))
unfolding run step start_task transition start wake
restart-Unwatched g m now t w q h = Unwatched-of _ (ground arith) (ground arith)

-- If a heartbeat in time comes between the watchdog's reading of the deadline and its reading of the
-- clock, and that clock reading is past the old deadline but not past the new one when the watchdog
-- tests again, the thread ends with no fault, and the gateway runs with no watchdog.
pub heartbeat_race-Unwatched :
    (g : Gateway) (d timeout beat_at now later : ℕ)
    → g.state ≡ running
    → g.profile.safety.heartbeat_timeout ≡ some timeout
    → is_some g.last_heartbeat ≡ true
    → g.deadline ≡ some d
    → g.supervisor.worker ≡ polling
    → g.supervisor.stop_event ≡ false
    → beat_at ≤ d
    → d < now
    → later ≤ beat_at + timeout
    → Unwatched (run g (wakes ∷ beats beat_at ∷ compares now ∷ rechecks later ∷ []))
unfolding run step heartbeat_locked transition wake compare_deadline recheck
heartbeat_race-Unwatched g d timeout beat_at now later s t l e w q h k n =
    Unwatched-of _ (ground arith) (ground arith)
