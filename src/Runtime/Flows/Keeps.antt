-- ===== src/Runtime/Flows/Keeps.antt =====
-- What the flows of agent_ros/runtime/controller.py keep: a property of the gateway that no thread
-- takes away keeps through any of them.
use ros2_agent_workflow.Common.{
  and_parts, ℕ, ◌≡◌, refl, Bool, true, false, List, [], ◌∷◌, Option, none, some, Result, ok, err,
  all, ltb, Bool-cases, ◌⊎◌, inl, inr,
}
use ros2_agent_workflow.Safety.{EmergencyStopResult, running}
use ros2_agent_workflow.Audit.{Mapping}
use ros2_agent_workflow.Audit.Schema.{AuditOperation, AuditOutcome}
use ros2_agent_workflow.Gateway.{
  Gateway, SafetyTransition, SafetyError, Beat, beat, refused, lost, require,
}
use ros2_agent_workflow.Gateway.Methods.{
  SafetyStopAttempt, record_stop, cancel_commit, fault_commit,
}
use ros2_agent_workflow.Gateway.Actions
use ros2_agent_workflow.Gateway.Actions.Action.{
  starts, resets, records_stop, commits_cancel, commits_fault, commits_estop, beats,
}
use ros2_agent_workflow.Runtime.Errors.{Raised, RuntimeError, audit_integrity_compromised}
use ros2_agent_workflow.Runtime.Ledger.{Ledger}
use ros2_agent_workflow.Runtime.Ledger.Actions.{System, Action, gateway_acts, step, run}
use ros2_agent_workflow.Runtime.Flows.Append.{
  registered, register, compromised, drained, drain_end, drain_pending_transitions,
  append_transition, append_option, stop_monitor, observe_and_stop, append_attempt,
  latch_adapter_fault, append_fault, append_latest_gateway_fault,
}
use ros2_agent_workflow.Runtime.Flows.{
  World, Runtime, Flow, ◌>>=◌, bound, settled, attempted_by, commit_estop, checked, required,
  commit_cancel, commit_fault, after_beat, beat_at, raise_code, interfere, locked, state,
  stop_robot, gateway_estop, gateway_cancel, gateway_heartbeat, gateway_fault,
}

-- Neither a task start nor an operator's reset.
abbrev pub passive_act : Actions.Action → Bool
passive_act (starts m now) = false
passive_act resets = false
passive_act _ = true

abbrev pub allowed_by : (Actions.Action → Bool) → Action → Bool
allowed_by allowed (gateway_acts a) = allowed a
allowed_by allowed _ = true

-- The other threads do to the gateway only what is allowed.
abbrev pub Confined : (Actions.Action → Bool) → World → Type 0
Confined allowed w =
    (n : ℕ)
    → (all (allowed_by allowed) (w.turns n).others ≡ true)
      × (all (allowed_by allowed) (w.turns n).drain ≡ true)

-- No other thread starts a task or resets the gateway.
abbrev pub Passive : World → Type 0
Passive w = Confined passive_act w

-- What a flow itself does to the gateway is allowed.
pub record Own (allowed : Actions.Action → Bool) : Type 0 where
  pub of_stop : (r : EmergencyStopResult) → allowed (records_stop r) ≡ true
  pub of_cancel : (r : EmergencyStopResult) → allowed (commits_cancel r) ≡ true
  pub of_fault : (r : EmergencyStopResult) → allowed (commits_fault r) ≡ true
  pub of_estop : (r : EmergencyStopResult) → allowed (commits_estop r) ≡ true
  pub of_beat : (now : ℕ) → allowed (beats now) ≡ true

pub passive_act-Own : Own passive_act
passive_act-Own = record {
  of_stop = λ _. refl;
  of_cancel = λ _. refl;
  of_fault = λ _. refl;
  of_estop = λ _. refl;
  of_beat = λ _. refl;
}

-- What no allowed action takes away.
abbrev pub Stable : (Actions.Action → Bool) → (Gateway → Type 0) → Type 0
Stable allowed P =
    (g : Gateway) (a : Actions.Action) → allowed a ≡ true → P g → P (Actions.step g a)

pub Result-cases :
    {A : Type 0} (r : Result Raised A) → ((e : Raised) × (r ≡ err e)) ⊎ ((a : A) × (r ≡ ok a))
Result-cases (err e) = inl (e, refl)
Result-cases (ok a) = inr (a, refl)

module _ (allowed : Actions.Action → Bool) (own : Own allowed) (P : Gateway → Type 0)
    (stable : Stable allowed P) where
  abbrev pub On : Runtime → Type 0
  On rt = P rt.system.gateway

  abbrev pub Keeps : {A : Type 0} → Flow A → Type 0
  Keeps m = (rt : Runtime) → On rt → On (m rt).0

  pub step-kept :
      (w : World) (s : System) (a : Action)
      → allowed_by allowed a ≡ true
      → P s.gateway
      → P (step w.encoded_size w.session s a).gateway
  unfolding step
  step-kept w s (gateway_acts a) q h = stable s.gateway a q h
  step-kept w s (Action.registers operation reference d outcome) q h = h
  step-kept w s Action.takes q h = h
  step-kept w s (Action.writes wall_time monotonic_time storage) q h = h
  step-kept w s Action.pops q h = h
  step-kept w s Action.releases q h = h
  step-kept w s Action.gives_up q h = h

  pub run-kept :
      (w : World) (s : System) (actions : List Action)
      → all (allowed_by allowed) actions ≡ true
      → P s.gateway
      → P (run w.encoded_size w.session s actions).gateway
  unfolding run
  run-kept w s [] q h = h
  run-kept w s (a ∷ actions) q h =
      let (q0, q1) = and_parts (allowed_by allowed a) _ q in
      run-kept w (step w.encoded_size w.session s a) actions q1 (step-kept w s a q0 h)

  pub bound-kept :
      {A B : Type 0} (o : Runtime × Result Raised A) (f : A → Flow B)
      → On o.0
      → ((a : A) → Keeps (f a))
      → On (bound o f).0
  bound-kept (rt, err e) f h l = h
  bound-kept (rt, ok a) f h l = l a rt h

  pub >>=-Keeps :
      {A B : Type 0} (m : Flow A) (f : A → Flow B)
      → Keeps m
      → ((a : A) → Keeps (f a))
      → Keeps (m >>= f)
  >>=-Keeps m f k l rt h = bound-kept (m rt) f (k rt h) l

  pub interfere-kept : (w : World) (rt : Runtime) → Confined allowed w → On rt → On (interfere w rt)
  unfolding interfere
  interfere-kept w rt q h = run-kept w rt.system (w.turns rt.turn).others (q rt.turn).0 h

  pub settled-kept :
      {A : Type 0} (rt : Runtime) (o : Gateway × Result SafetyError A) → P o.0 → On (settled rt o).0
  settled-kept rt (g, err e) h = h
  settled-kept rt (g, ok a) h = h

  pub locked-Keeps :
      {A : Type 0} (w : World) (part : Gateway → Gateway × Result SafetyError A)
      → Confined allowed w
      → ((g : Gateway) → P g → P (part g).0)
      → Keeps (locked w part)
  unfolding locked
  locked-Keeps w part q k rt h =
      let rt' = interfere w rt in
      settled-kept rt' (part rt'.system.gateway) (k rt'.system.gateway (interfere-kept w rt q h))

  pub stop_robot-Keeps : (w : World) → Confined allowed w → Keeps (stop_robot w)
  unfolding stop_robot Actions.step record_stop
  stop_robot-Keeps w q rt h =
      stable (interfere w rt).system.gateway (records_stop _) (own.of_stop _)
        (interfere-kept w rt q h)

  pub commit_estop-Keeps :
      (w : World) (r : EmergencyStopResult) → Confined allowed w → Keeps (commit_estop w r)
  unfolding commit_estop attempted_by Actions.step
  commit_estop-Keeps w r q =
      locked-Keeps w (attempted_by w r) q (λ g h. stable g (commits_estop r) (own.of_estop r) h)

  pub gateway_estop-Keeps : (w : World) → Confined allowed w → Keeps (gateway_estop w)
  unfolding gateway_estop
  gateway_estop-Keeps w q =
      >>=-Keeps (stop_robot w) (commit_estop w) (stop_robot-Keeps w q)
        (λ r. commit_estop-Keeps w r q)

  pub checked-kept : (g : Gateway) (o : Option SafetyError) → P g → P (checked g o).0
  unfolding checked
  checked-kept g none h = h
  checked-kept g (some e) h = h

  pub state-Keeps : (w : World) → Confined allowed w → Keeps (state w)
  unfolding state
  state-Keeps w q rt h = interfere-kept w rt q h

  pub required-Keeps : (w : World) → Confined allowed w → Keeps (locked w (required w))
  unfolding required
  required-Keeps w q = locked-Keeps w (required w) q (λ g h. checked-kept g (require g running) h)

  pub commit_cancel-Keeps :
      (w : World) (r : EmergencyStopResult) → Confined allowed w → Keeps (commit_cancel w r)
  unfolding commit_cancel Actions.step
  commit_cancel-Keeps w r q =
      locked-Keeps w (λ g. cancel_commit g r) q
        (λ g h. stable g (commits_cancel r) (own.of_cancel r) h)

  pub gateway_cancel-Keeps : (w : World) → Confined allowed w → Keeps (gateway_cancel w)
  unfolding gateway_cancel
  gateway_cancel-Keeps w q =
      >>=-Keeps (locked w (required w)) (λ _. stop_robot w >>= commit_cancel w) (required-Keeps w q)
        (λ _.
          >>=-Keeps (stop_robot w) (commit_cancel w) (stop_robot-Keeps w q)
            (λ r. commit_cancel-Keeps w r q))

  pub commit_fault-Keeps :
      (w : World) (e : SafetyError) (r : EmergencyStopResult)
      → Confined allowed w
      → Keeps (commit_fault w e r)
  unfolding commit_fault Actions.step
  commit_fault-Keeps w e r q =
      locked-Keeps {A = SafetyTransition} w (λ g. ((fault_commit g r).0, err e)) q
        (λ g h. stable g (commits_fault r) (own.of_fault r) h)

  pub after_beat-Keeps : (w : World) (b : Beat) → Confined allowed w → Keeps (after_beat w b)
  unfolding after_beat gateway_fault
  after_beat-Keeps w (beat t) q rt h = h
  after_beat-Keeps w (refused e) q rt h = h
  after_beat-Keeps w (lost e) q rt h =
      >>=-Keeps (stop_robot w) (commit_fault w e) (stop_robot-Keeps w q)
        (λ r. commit_fault-Keeps w e r q) rt h

  pub beat_at-Keeps : (w : World) (now : ℕ) → Confined allowed w → Keeps (locked w (beat_at w now))
  unfolding beat_at Actions.step
  beat_at-Keeps w now q =
      locked-Keeps w (beat_at w now) q (λ g h. stable g (beats now) (own.of_beat now) h)

  pub gateway_heartbeat-Keeps : (w : World) → Confined allowed w → Keeps (gateway_heartbeat w)
  unfolding gateway_heartbeat
  gateway_heartbeat-Keeps w q rt h =
      >>=-Keeps (locked w (beat_at w (w.turns rt.turn).clock)) (after_beat w)
        (beat_at-Keeps w (w.turns rt.turn).clock q) (λ b. after_beat-Keeps w b q) rt h

  pub registered-kept :
      (rt : Runtime) (o : Ledger × Result RuntimeError (Unit {0})) → On rt → On (registered rt o).0
  unfolding registered
  registered-kept rt (l, err e) h = h
  registered-kept rt (l, ok u) h = h

  pub register-Keeps :
      (w : World) (operation : AuditOperation) (t : SafetyTransition) (d : Option Mapping)
      (outcome : AuditOutcome)
      → Confined allowed w
      → Keeps (register w operation t d outcome)
  unfolding register
  register-Keeps w operation t d outcome q rt h =
      registered-kept (interfere w rt) _ (interfere-kept w rt q h)

  pub compromised-Keeps : (w : World) → Confined allowed w → Keeps (compromised w)
  unfolding compromised
  compromised-Keeps w q rt h =
      bound-kept (gateway_estop w _) (λ _. raise_code {A = Unit {0}} audit_integrity_compromised)
        (gateway_estop-Keeps w q _ h) (λ _ rt' h'. h')

  pub drain_end-Keeps :
      (w : World) (gives_up : Bool) (sequence : ℕ) (l : Ledger)
      → Confined allowed w
      → Keeps (drain_end w gives_up sequence l)
  unfolding drain_end
  drain_end-Keeps w true sequence l q rt h = compromised-Keeps w q rt h
  drain_end-Keeps w false sequence l q rt h = elim (Bool-cases l.audit_failure) [
    | inl e ↦ rw (e) h
    | inr e ↦ elim (Bool-cases (ltb sequence l.next_audit_sequence)) [
      | inl f ↦ rw (e, f) h
      | inr f ↦ rw (e, f) (compromised-Keeps w q rt h)
    ]
  ]

  pub drain-Keeps :
      (w : World) (sequence : ℕ) → Confined allowed w → Keeps (drain_pending_transitions w sequence)
  unfolding drain_pending_transitions drained
  drain-Keeps w sequence q rt h =
      drain_end-Keeps w (w.turns rt.turn).gives_up sequence (drained w rt).system.ledger q
        (drained w rt) (run-kept w rt.system (w.turns rt.turn).drain (q rt.turn).1 h)

  pub append-Keeps :
      (w : World) (operation : AuditOperation) (t : SafetyTransition) (d : Option Mapping)
      (outcome : AuditOutcome)
      → Confined allowed w
      → Keeps (append_transition w operation t d outcome)
  unfolding append_transition
  append-Keeps w operation t d outcome q =
      >>=-Keeps (register w operation t d outcome) (λ _. drain_pending_transitions w t.sequence)
        (register-Keeps w operation t d outcome q) (λ _. drain-Keeps w t.sequence q)

  pub append_option-Keeps :
      (w : World) (operation : AuditOperation) (t : Option SafetyTransition)
      → Confined allowed w
      → Keeps (append_option w operation t)
  unfolding append_option
  append_option-Keeps w operation none q rt h = h
  append_option-Keeps w operation (some t) q rt h =
      append-Keeps w operation t none AuditOutcome.ok q rt h

  pub observe-Keeps : (w : World) → Confined allowed w → Keeps (observe_and_stop w)
  unfolding observe_and_stop stop_monitor
  observe-Keeps w q = >>=-Keeps (state w) (stop_monitor w) (state-Keeps w q) (λ s rt h. h)

  pub append_attempt-Keeps :
      (w : World) (a : SafetyStopAttempt) → Confined allowed w → Keeps (append_attempt w a)
  unfolding append_attempt
  append_attempt-Keeps w a q =
      >>=-Keeps (append_option w AuditOperation.estop a.attempted) (λ _. observe_and_stop w)
        (append_option-Keeps w AuditOperation.estop a.attempted q) (λ _. observe-Keeps w q)

  pub latch-Keeps : (w : World) → Confined allowed w → Keeps (latch_adapter_fault w)
  unfolding latch_adapter_fault
  latch-Keeps w q =
      >>=-Keeps (gateway_estop w) (append_attempt w) (gateway_estop-Keeps w q)
        (λ a. append_attempt-Keeps w a q)

  pub append_fault-Keeps :
      (w : World) (t : Option SafetyTransition) → Confined allowed w → Keeps (append_fault w t)
  unfolding append_fault
  append_fault-Keeps w none q rt h = h
  append_fault-Keeps w (some t) q rt h =
      append-Keeps w AuditOperation.heartbeat t none AuditOutcome.faulted q rt h

  pub latest_fault-Keeps : (w : World) → Confined allowed w → Keeps (append_latest_gateway_fault w)
  unfolding append_latest_gateway_fault
  latest_fault-Keeps w q rt h = append_fault-Keeps w _ q (interfere w rt) (interfere-kept w rt q h)
