-- ===== src/Runtime/Flows/Terminal.antt =====
-- What the flows of a task share: `_freeze_terminal_evidence` and `_start_task_cleanup` of
-- agent_ros/runtime/controller.py, with agent_ros/runtime/terminal_evidence.py, and the checks of an
-- activation permit.
use ros2_agent_workflow.Common.{
  String, Bool, true, ◌&&◌, ◌||◌, not, List, [], ◌∷◌, Option, none, some, Result, ok, err,
  if◌then◌else◌, same_text, is_empty, is_some,
}
use ros2_agent_workflow.Safety.{SafetyState, running, same_state}
use ros2_agent_workflow.Runtime.Errors.{
  RuntimeError, adapter_raised, other_raised, evidence_invalid, estop_latched, runtime_error,
  CallResult, returned, adapter_error, raised,
}
use ros2_agent_workflow.Runtime.Flows.{
  TaskProfile, Observation, Flow, ◌>>◌, return, raise, raise_code, change,
}

-- What the adapter freezes: for each source an observation, or something else (`none`). The whole
-- is `none` where it is no mapping.
abbrev pub Frozen : Type 0
Frozen = Option (List (String × Option Observation))

frozen_get : String → List (String × Option Observation) → Option Observation
frozen_get source [] = none
frozen_get source ((k, o) ∷ frozen) =
    let rest = frozen_get source frozen in if same_text k source then o else rest

-- The observation that a snapshot takes for a source.
checked_observation : String → Option Observation → Result RuntimeError Observation
checked_observation source none = err evidence_invalid
checked_observation source (some o) =
    if same_text o.source source && is_some o.values then ok o else err evidence_invalid

add_observation :
    String
    → Result RuntimeError Observation
    → Result RuntimeError (List (String × Observation))
    → Result RuntimeError (List (String × Observation))
add_observation source (err e) snapshot = err e
add_observation source (ok o) (err e) = err e
add_observation source (ok o) (ok snapshot) = ok ((source, o) ∷ snapshot)

capture_sources :
    List String
    → List (String × Option Observation)
    → Result RuntimeError (List (String × Observation))
unfolding frozen_get checked_observation add_observation
capture_sources [] frozen = ok []
capture_sources (source ∷ sources) frozen =
    add_observation source (checked_observation source (frozen_get source frozen))
      (capture_sources sources frozen)

pub capture_terminal_evidence :
    List String → CallResult Frozen → Result RuntimeError (List (String × Observation))
unfolding capture_sources
capture_terminal_evidence sources (adapter_error code) = err (runtime_error code)
capture_terminal_evidence sources raised = err evidence_invalid
capture_terminal_evidence sources (returned none) = err evidence_invalid
capture_terminal_evidence sources (returned (some frozen)) = capture_sources sources frozen

keep_snapshot : Result RuntimeError (List (String × Observation)) → Flow (Unit {0})
keep_snapshot (err code) = raise_code code
keep_snapshot (ok snapshot) =
    change (λ rt. record rt { terminal_evidence = snapshot; terminal_evidence_frozen = true })

freeze_for : Option TaskProfile → CallResult Frozen → Flow (Unit {0})
unfolding keep_snapshot
freeze_for none frozen = return tt
freeze_for (some task) frozen =
    if is_empty task.evidence_sources
    then return tt
    else keep_snapshot (capture_terminal_evidence task.evidence_sources frozen)

-- `_freeze_terminal_evidence`.
unfoldable pub freeze_terminal_evidence : CallResult Frozen → Flow (Unit {0})
unfolding freeze_for
freeze_terminal_evidence frozen rt = freeze_for rt.task frozen rt

-- `_start_task_cleanup`.
unfoldable pub start_task_cleanup : Bool → Flow (Unit {0})
start_task_cleanup cleanup_starts = change (λ rt. record rt {
  task_cleanup_started = true;
  cleanup_start_failed =
      rt.cleanup_start_failed || (not rt.task_cleanup_started && not cleanup_starts);
})

-- A call of the adapter.
abbrev pub called : {A : Type 0} → CallResult A → Flow A
called (returned a) = return a
called (adapter_error code) = raise (adapter_raised code)
called raised = raise other_raised

-- Goes on with the permit that the issuer gave, or raises its error.
unfoldable pub permitted : Option String → Flow (Unit {0})
permitted none = return tt
permitted (some code) = raise_code (runtime_error code)

-- Where the permit is not current or the gateway not RUNNING, the task is cleaned up.
unfoldable pub current_in : Bool → Bool → SafetyState → Flow (Unit {0})
unfolding start_task_cleanup
current_in current cleanup_starts s =
    if not current || not (same_state s running)
    then start_task_cleanup cleanup_starts >> raise_code estop_latched
    else return tt
