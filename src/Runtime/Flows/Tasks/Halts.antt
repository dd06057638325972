-- ===== src/Runtime/Flows/Tasks/Halts.antt =====
-- A request that raises (agent_ros/runtime/controller.py).
use ros2_agent_workflow.Common.{String, Bool, true, false, Option, none, some, Result, ok, err}
use ros2_agent_workflow.Safety.{SafetyState, armed, running, same_state}
use ros2_agent_workflow.Gateway.{Gateway, SafetyTransition}
use ros2_agent_workflow.Audit.Schema.{AuditOperation, AuditOutcome}
use ros2_agent_workflow.Runtime.Errors.{
  RuntimeError, Raised, adapter_raised, safety_raised, runtime_raised, other_raised, unsafe_state,
  audit_integrity_compromised, safety_error,
}
use ros2_agent_workflow.Runtime.Flows.{
  World, Runtime, AdapterStatus, TaskProfile, Flow, bound, raise_code, interfere, state,
  gateway_start_task,
}
use ros2_agent_workflow.Runtime.Flows.Append.{append_latest_gateway_fault, latch_adapter_fault}
use ros2_agent_workflow.Runtime.Flows.Terminal.{permitted, current_in, start_task_cleanup}
use ros2_agent_workflow.Runtime.Flows.Requests.{
  Answers, unavailable, refused_by, profile_of, caught, latch_then,
}
use ros2_agent_workflow.Common.{◌≢◌, ◌⊎◌, inl, inr, Bool-cases, ◌≡◌, refl}
use ros2_agent_workflow.Gateway.{SafetyError, start_task}
use ros2_agent_workflow.Gateway.Actions.Running.{start_task_refused}
use ros2_agent_workflow.Runtime.Flows.{settled, locked}
use ros2_agent_workflow.Runtime.Flows.Keeps.{
  passive_act, passive_act-Own, Passive, bound-kept, interfere-kept,
}
use ros2_agent_workflow.Runtime.Flows.Latches.{Halted, Halted-Stable}
use ros2_agent_workflow.Runtime.Flows.Ends.{
  Ends, Ends-err, bound-Ends, Ends-weaken, Ends-Halted, Audit, append-Audit, latest_fault-Audit,
  latch-Halted,
}
use ros2_agent_workflow.Runtime.Flows.Tasks.{
  append_start, begin_body, begin_handler, start_body, start_handler, begin_caught, start_caught,
  start_monitor, keep_task, run_started, start_and_run, run_compatible, issue_permit, run_loaded,
  run_in, run_task, load_compatible_task, lifted, at_rest,
}

-- Outside RUNNING, or with the error of the audit.
abbrev Final : Raised → Runtime → Type 0
Final e rt = Halted rt.system.gateway ⊎ (e ≡ runtime_raised audit_integrity_compromised)

start_settled-Final :
    (rt : Runtime) (o : Gateway × Result SafetyError SafetyTransition)
    → ((e : SafetyError) → o.1 ≡ err e → Halted o.0)
    → Ends (λ _ rt'. Halted rt'.system.gateway) (settled rt o)
start_settled-Final rt (g, ok t) h = tt
start_settled-Final rt (g, err e) h = h e refl

pub not_running : (g : Gateway) → same_state g.state running ≡ false → Halted g
not_running g h e = let r : same_state running running ≡ false = rw (e) at h in cc

module _ (w : World) (a : Answers) (q : Passive w) where
  On-halted :
      {A : Type 0} (o : Runtime × Result Raised A) → Halted o.0.system.gateway → Ends Final o
  On-halted o h = Ends-Halted Final o (λ e rt k. inl k) h

  latch_then-Final :
      (A : Type 0) (code : RuntimeError) (rt : Runtime)
      → Ends Final (latch_then w a {A = A} code rt)
  unfolding latch_then
  latch_then-Final A code rt = On-halted (latch_then w a {A = A} code rt) (
      bound-kept passive_act passive_act-Own Halted Halted-Stable (latch_adapter_fault w rt)
        (λ _. raise_code {A = A} code) (latch-Halted w rt q) (λ _ rt' h. h))

  begin_body-Final :
      (task : TaskProfile) (rt : Runtime)
      → Halted rt.system.gateway
      → Ends Final (begin_body w a task rt)
  unfolding begin_body append_start gateway_start_task locked
  begin_body-Final task rt h =
      let rt' = interfere w rt in
      let now = (w.turns rt.turn).clock in
      let k = interfere-kept passive_act passive_act-Own Halted Halted-Stable w rt q h in
      bound-Ends Final (gateway_start_task w (at_rest w a) rt) (append_start w a task)
        (Ends-weaken _ Final (settled rt' (start_task rt'.system.gateway (at_rest w a) now))
          (λ e rt'' l. inl l)
          (start_settled-Final rt' (start_task rt'.system.gateway (at_rest w a) now)
            (λ e l. rw (start_task_refused rt'.system.gateway (at_rest w a) now e l) k)))
        (λ t rt''.
          Ends-weaken Audit Final (append_start w a task t rt'') (λ e rt3 l. inr l)
            (append-Audit w AuditOperation.start_task t _ AuditOutcome.ok rt''))

  begin_handled :
      (o : Runtime × Result Raised (Unit {0}))
      → Ends Final o
      → Ends Final (caught o (begin_handler w a))
  unfolding begin_handler
  begin_handled (rt, ok u) h = tt
  begin_handled (rt, err (safety_raised e)) (inl h) = inl h
  begin_handled (rt, err (safety_raised e)) (inr h) = cc
  begin_handled (rt, err (adapter_raised code)) h = h
  begin_handled (rt, err (runtime_raised code)) h = h
  begin_handled (rt, err other_raised) h = h

  start_handler-Final : (e : Raised) (rt : Runtime) → Ends Final (start_handler w a e rt)
  unfolding start_handler
  start_handler-Final (runtime_raised code) rt = latch_then-Final AdapterStatus code rt
  start_handler-Final (adapter_raised code) rt = latch_then-Final AdapterStatus _ rt
  start_handler-Final other_raised rt = latch_then-Final AdapterStatus _ rt
  start_handler-Final (safety_raised e) rt =
      bound-Ends Final (append_latest_gateway_fault w rt)
        (λ _. latch_then w a {A = AdapterStatus} (safety_error e))
        (Ends-weaken Audit Final (append_latest_gateway_fault w rt) (λ e' rt' k. inr k)
          (latest_fault-Audit w rt))
        (λ _ rt'. latch_then-Final AdapterStatus (safety_error e) rt')

  start_handled :
      (o : Runtime × Result Raised AdapterStatus) → Ends Final (caught o (start_handler w a))
  start_handled (rt, ok s) = tt
  start_handled (rt, err e) = start_handler-Final e rt

  current_in-Final :
      (current : Bool) (rt : Runtime)
      → current ≡ true
      → Ends Final (current_in current a.cleanup_starts rt.system.gateway.state rt)
  unfolding current_in start_task_cleanup
  current_in-Final current rt c = elim (Bool-cases (same_state rt.system.gateway.state running)) [
    | inl e ↦ rw (c, e) tt
    | inr e ↦ rw (c, e) (inl (not_running rt.system.gateway e))
  ]

  start_monitor-Final : (starts : Bool) (rt : Runtime) → Ends Final (start_monitor w a starts rt)
  unfolding start_monitor
  start_monitor-Final true rt = tt
  start_monitor-Final false rt = latch_then-Final (Unit {0}) unsafe_state _

  keep_task-Final :
      (task : TaskProfile) (status : AdapterStatus) (rt : Runtime)
      → Ends Final (keep_task w a task status rt)
  unfolding keep_task state
  keep_task-Final task status rt =
      bound-Ends Final (start_monitor w a a.monitor_starts _) (λ _. state w)
        (start_monitor-Final a.monitor_starts _) (λ _ rt'. tt)

  run_started-Final :
      (task : TaskProfile) (status : AdapterStatus) (rt : Runtime)
      → a.permit_stays_current ≡ true
      → Ends Final (run_started w a task status rt)
  unfolding run_started state
  run_started-Final task status rt c =
      bound-Ends Final (current_in a.permit_stays_current a.cleanup_starts _ (interfere w rt))
        (λ _. keep_task w a task status)
        (current_in-Final a.permit_stays_current (interfere w rt) c)
        (λ _ rt'. keep_task-Final task status rt')

  run_compatible-Final :
      (task : TaskProfile) (rt : Runtime)
      → Halted rt.system.gateway
      → a.permit_stays_current ≡ true
      → Ends Final (run_compatible w a task rt)
  unfolding run_compatible begin_caught start_and_run start_caught
  run_compatible-Final task rt h c =
      bound-Ends Final (begin_caught w a task rt) (λ _. start_and_run w a task)
        (begin_handled (begin_body w a task rt) (begin_body-Final task rt h))
        (λ _ rt'.
          bound-Ends Final (start_caught w a rt') (run_started w a task)
            (start_handled (start_body w a rt'))
            (λ status rt''. run_started-Final task status rt'' c))

  issued :
      (o : Option String) (task : TaskProfile) (rt : Runtime)
      → Halted rt.system.gateway
      → a.permit_stays_current ≡ true
      → Ends Final (
          bound
            (permitted o rt)
            (λ _ rt'. bound (run_compatible w a task rt') (λ s rt''. (rt'', ok (some s)))))
  unfolding permitted
  issued (some code) task rt h c = inl h
  issued none task rt h c =
      bound-Ends Final (run_compatible w a task rt) _ (run_compatible-Final task rt h c)
        (λ s rt'. tt)

  run_loaded-Final :
      (dry_run : Bool) (task : TaskProfile) (rt : Runtime)
      → Halted rt.system.gateway
      → a.permit_stays_current ≡ true
      → Ends Final (run_loaded w a dry_run task rt)
  unfolding run_loaded issue_permit
  run_loaded-Final true task rt h c = tt
  run_loaded-Final false task rt h c = issued a.permit task rt h c

  lifted-Final :
      (r : Result RuntimeError TaskProfile) (dry_run : Bool) (rt : Runtime)
      → Halted rt.system.gateway
      → a.permit_stays_current ≡ true
      → Ends Final (bound (lifted r rt) (run_loaded w a dry_run))
  lifted-Final (err code) dry_run rt h c = inl h
  lifted-Final (ok task) dry_run rt h c = run_loaded-Final dry_run task rt h c

  run_in-Final :
      (file : Option TaskProfile) (dry_run : Bool) (s : SafetyState) (rt : Runtime)
      → Halted rt.system.gateway
      → a.permit_stays_current ≡ true
      → Ends Final (run_in w a file dry_run s rt)
  unfolding run_in
  run_in-Final file dry_run s rt h c = elim (Bool-cases (same_state s armed)) [
    | inl e ↦ rw (e) (lifted-Final (load_compatible_task file (profile_of rt)) dry_run rt h c)
    | inr e ↦ rw (e) (inl h)
  ]

  refused_by-Final :
      {A : Type 0} (o : Option RuntimeError) (flow : Flow A) (rt : Runtime)
      → Halted rt.system.gateway
      → Ends Final (flow rt)
      → Ends Final (refused_by o flow rt)
  refused_by-Final none flow rt h k = k
  refused_by-Final (some code) flow rt h k = inl h

-- A task start that raises leaves the gateway outside RUNNING, unless it raises the error of the
-- audit: from any gateway that does not run, whatever the adapter answers, as long as no other thread
-- resets the gateway or starts a task and the permit is still current after the first heartbeat.
pub run_task_halts :
    (w : World) (a : Answers) (file : Option TaskProfile) (dry_run : Bool) (rt : Runtime)
    → Passive w
    → rt.system.gateway.state ≢ running
    → a.permit_stays_current ≡ true
    → (e : Raised) → (run_task w a file dry_run rt).1 ≡ err e
    → ((run_task w a file dry_run rt).0.system.gateway.state ≢ running)
      ⊎ (e ≡ runtime_raised audit_integrity_compromised)
unfolding run_task state
run_task_halts w a file dry_run rt q h c e k = Ends-err Final (run_task w a file dry_run rt) e k (
    refused_by-Final w a q (unavailable rt) _ rt h (
      run_in-Final w a q file dry_run _ (interfere w rt)
        (interfere-kept passive_act passive_act-Own Halted Halted-Stable w rt q h) c))
