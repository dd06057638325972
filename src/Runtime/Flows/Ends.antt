-- ===== src/Runtime/Flows/Ends.antt =====
-- How the flows of agent_ros/runtime/controller.py end when they raise.
use ros2_agent_workflow.Common.{
  ℕ, subst, ◌≡◌, refl, ◌⊎◌, inl, inr, Bool, true, false, Option, none, some, Result, ok, err, arith,
  ltb, Bool-cases,
}
use ros2_agent_workflow.Safety.{running, EmergencyStopResult}
use ros2_agent_workflow.Audit.{Mapping}
use ros2_agent_workflow.Audit.Schema.{AuditOperation, AuditOutcome}
use ros2_agent_workflow.Gateway.{
  Gateway, SafetyTransition, SafetyError, require, heartbeat_locked, Beat, beat, refused, lost,
  assertion,
}
use ros2_agent_workflow.Gateway.Actions.Running.{
  cancel_commit_halts, fault_commit_halts, heartbeat_locked_refused, refused_halted,
}
use ros2_agent_workflow.Runtime.Errors.{
  Raised, RuntimeError, runtime_raised, other_raised, raised_by_gateway,
  audit_integrity_compromised,
}
use ros2_agent_workflow.Runtime.Ledger.{Ledger, own}
use ros2_agent_workflow.Runtime.Ledger.Refused.{register_transition-err}
use ros2_agent_workflow.Runtime.Flows.{
  World, Runtime, Flow, gateway_estop, attempted_by, commit_estop, bound, ◌>>=◌, interfere, locked,
  settled, stop_robot, commit_cancel, commit_fault, gateway_cancel, required, checked, after_beat,
  beat_at, gateway_fault, gateway_heartbeat, set_gateway,
}
use ros2_agent_workflow.Runtime.Flows.Append.{
  registered, register, compromised, drained, drain_end, drain_pending_transitions,
  append_transition, append_fault, append_latest_gateway_fault, latch_adapter_fault,
}
use ros2_agent_workflow.Runtime.Flows.Keeps.{Passive}
use ros2_agent_workflow.Runtime.Flows.Latches.{Latched, Halted, latch_adapter_fault_latches}

err-injective : {A : Type 0} {a b : Raised} → ◌≡◌ {A = Result Raised A} (err a) (err b) → a ≡ b
err-injective h = cc

-- What holds where a flow raises.
abbrev pub Ends : {A : Type 0} → (Raised → Runtime → Type 0) → Runtime × Result Raised A → Type 0
Ends Q (rt, ok a) = Unit {0}
Ends Q (rt, err e) = Q e rt

pub Ends-err :
    {A : Type 0} (Q : Raised → Runtime → Type 0) (o : Runtime × Result Raised A) (e : Raised)
    → o.1 ≡ err e
    → Ends Q o
    → Q e o.0
Ends-err Q (rt, err e') e h k = subst (λ (x : Raised). Q x rt) (err-injective h) k
Ends-err Q (rt, ok a) e h k = cc

pub bound-Ends :
    {A B : Type 0} (Q : Raised → Runtime → Type 0) (o : Runtime × Result Raised A) (f : A → Flow B)
    → Ends Q o
    → ((a : A) (rt : Runtime) → Ends Q (f a rt))
    → Ends Q (bound o f)
bound-Ends Q (rt, err e) f h l = h
bound-Ends Q (rt, ok a) f h l = l a rt

pub Ends-weaken :
    {A : Type 0} (P Q : Raised → Runtime → Type 0) (o : Runtime × Result Raised A)
    → ((e : Raised) (rt : Runtime) → P e rt → Q e rt)
    → Ends P o
    → Ends Q o
Ends-weaken P Q (rt, err e) l h = l e rt h
Ends-weaken P Q (rt, ok a) l h = tt

-- A flow that ends outside RUNNING.
pub Ends-Halted :
    {A : Type 0} (Q : Raised → Runtime → Type 0) (o : Runtime × Result Raised A)
    → ((e : Raised) (rt : Runtime) → Halted rt.system.gateway → Q e rt)
    → Halted o.0.system.gateway
    → Ends Q o
Ends-Halted Q (rt, err e) l h = l e rt h
Ends-Halted Q (rt, ok a) l h = tt

-- The audit error.
abbrev pub Audit : Raised → Runtime → Type 0
Audit e rt = e ≡ runtime_raised audit_integrity_compromised

registered-Audit :
    (rt : Runtime) (o : Ledger × Result RuntimeError (Unit {0}))
    → ((code : RuntimeError) → o.1 ≡ err code → code ≡ audit_integrity_compromised)
    → Ends Audit (registered rt o)
unfolding registered
registered-Audit rt (l, err code) h = rw (h code refl) refl
registered-Audit rt (l, ok u) h = tt

compromised-Audit : (w : World) (rt : Runtime) → Ends Audit (compromised w rt)
unfolding compromised gateway_estop stop_robot commit_estop locked attempted_by
compromised-Audit w rt = refl

drain_end-Audit :
    (w : World) (gives_up : Bool) (sequence : ℕ) (l : Ledger) (rt : Runtime)
    → Ends Audit (drain_end w gives_up sequence l rt)
unfolding drain_end
drain_end-Audit w true sequence l rt = compromised-Audit w rt
drain_end-Audit w false sequence l rt = elim (Bool-cases l.audit_failure) [
  | inl e ↦ rw (e) refl
  | inr e ↦ elim (Bool-cases (ltb sequence l.next_audit_sequence)) [
    | inl f ↦ rw (e, f) tt
    | inr f ↦ rw (e, f) (compromised-Audit w rt)
  ]
]

-- An append raises nothing but the audit error.
pub append-Audit :
    (w : World) (operation : AuditOperation) (t : SafetyTransition) (d : Option Mapping)
    (outcome : AuditOutcome) (rt : Runtime)
    → Ends Audit (append_transition w operation t d outcome rt)
unfolding append_transition register drain_pending_transitions
append-Audit w operation t d outcome rt =
    bound-Ends Audit (register w operation t d outcome rt)
      (λ _. drain_pending_transitions w t.sequence)
      (registered-Audit (interfere w rt) _
        (register_transition-err _ _ operation (own t.sequence) d outcome))
      (λ _ rt'.
        drain_end-Audit w (w.turns rt'.turn).gives_up t.sequence (drained w rt').system.ledger
          (drained w rt'))

append_fault-Audit :
    (w : World) (t : Option SafetyTransition) (rt : Runtime) → Ends Audit (append_fault w t rt)
unfolding append_fault
append_fault-Audit w none rt = tt
append_fault-Audit w (some t) rt =
    append-Audit w AuditOperation.heartbeat t none AuditOutcome.faulted rt

pub latest_fault-Audit : (w : World) (rt : Runtime) → Ends Audit (append_latest_gateway_fault w rt)
unfolding append_latest_gateway_fault
latest_fault-Audit w rt = append_fault-Audit w _ (interfere w rt)

pub Latched-Halted : (g : Gateway) → Latched g → Halted g
Latched-Halted g h = ground (arith, h)

pub latch-Halted :
    (w : World) (rt : Runtime) → Passive w → Halted (latch_adapter_fault w rt).0.system.gateway
latch-Halted w rt q =
    Latched-Halted (latch_adapter_fault w rt).0.system.gateway (latch_adapter_fault_latches w rt q)

pub settled-Halted :
    {A : Type 0} (rt : Runtime) (o : Gateway × Result SafetyError A)
    → Halted o.0
    → Halted (settled rt o).0.system.gateway
settled-Halted rt (g, err e) h = h
settled-Halted rt (g, ok a) h = h

commit_cancel-Halted :
    (w : World) (r : EmergencyStopResult) (rt : Runtime)
    → Halted (commit_cancel w r rt).0.system.gateway
unfolding commit_cancel locked
commit_cancel-Halted w r rt =
    settled-Halted (interfere w rt) _ (cancel_commit_halts (interfere w rt).system.gateway r)

required-Halted :
    (g : Gateway) (o : Option SafetyError)
    → ((e : SafetyError) → o ≡ some e → Halted g)
    → (rt : Runtime) → Ends (λ _ rt'. Halted rt'.system.gateway) (settled rt (checked g o))
unfolding checked
required-Halted g none h rt = tt
required-Halted g (some e) h rt = h e refl

pub bound-Halted :
    {A B : Type 0} (o : Runtime × Result Raised A) (f : A → Flow B)
    → Ends (λ _ rt. Halted rt.system.gateway) o
    → ((a : A) (rt : Runtime) → Halted (f a rt).0.system.gateway)
    → Halted (bound o f).0.system.gateway
bound-Halted (rt, err e) f h l = h
bound-Halted (rt, ok a) f h l = l a rt

-- Whether it returns or raises, `cancel` ends outside RUNNING.
pub gateway_cancel-Halted :
    (w : World) (rt : Runtime) → Passive w → Halted (gateway_cancel w rt).0.system.gateway
unfolding gateway_cancel locked required stop_robot
gateway_cancel-Halted w rt q =
    let rt' = interfere w rt in
    bound-Halted (locked w (required w) rt) (λ _. stop_robot w >>= commit_cancel w)
      (required-Halted rt'.system.gateway (require rt'.system.gateway running)
        (λ e h. refused_halted rt'.system.gateway e h) rt')
      (λ _ rt''. commit_cancel-Halted w _ (stop_robot w rt'').0)

-- How a heartbeat raises: outside RUNNING, or by an `assert`.
abbrev pub BeatEnd : Raised → Runtime → Type 0
BeatEnd e rt = Halted rt.system.gateway ⊎ (e ≡ other_raised)

after_beat-Ends :
    (w : World) (b : Beat) (rt : Runtime)
    → ((e : SafetyError) → b ≡ refused e → Halted rt.system.gateway ⊎ (e ≡ assertion))
    → Ends BeatEnd (after_beat w b rt)
unfolding after_beat gateway_fault stop_robot commit_fault locked raised_by_gateway
after_beat-Ends w (beat t) rt h = tt
after_beat-Ends w (refused e) rt h = elim (h e refl) [ inl k ↦ inl k | inr k ↦ rw (k) (inr refl) ]
after_beat-Ends w (lost e) rt h = inl (fault_commit_halts _ _)

pub gateway_heartbeat-Ends : (w : World) (rt : Runtime) → Ends BeatEnd (gateway_heartbeat w rt)
unfolding gateway_heartbeat locked beat_at
gateway_heartbeat-Ends w rt =
    let rt' = interfere w rt in
    let now = (w.turns rt.turn).clock in
    let (g, b) = heartbeat_locked rt'.system.gateway now in
    after_beat-Ends w b (set_gateway g rt')
      (λ e h. heartbeat_locked_refused rt'.system.gateway now e h)
