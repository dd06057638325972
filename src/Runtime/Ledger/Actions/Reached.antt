-- ===== src/Runtime/Ledger/Actions/Reached.antt =====
-- What holds of gateway, ledger and log holds after any interleaving
-- (agent_ros/runtime/controller.py).
use ros2_agent_workflow.Common.{ℕ, refl, String, Bool, List, [], ◌∷◌, inl, inr}
use ros2_agent_workflow.Profile.{RobotProfile}
use ros2_agent_workflow.Gateway.{init, SafetyTransition}
use ros2_agent_workflow.Gateway.Actions
use ros2_agent_workflow.Gateway.Actions.History.{entry, step-moves}
use ros2_agent_workflow.Audit.{RawRecord}
use ros2_agent_workflow.Runtime.Ledger.{
  register_transition, write_item, pop_item, release_drain, record_audit_failure, empty, rested,
}
use ros2_agent_workflow.Runtime.Ledger.Actions.{System, Action, step, run, start}
use ros2_agent_workflow.Runtime.Ledger.Filing.{register-Registered}
use ros2_agent_workflow.Runtime.Ledger.Actions.Invariant.{
  Tracked, Moved-Tracked, Stayed-Tracked, Tracked-history, registers-Tracked,
}
use ros2_agent_workflow.Runtime.Ledger.Actions.Drained.{
  drain-Tracked, takes-Tracked, writes-Tracked, pops-Tracked, rested-Standing, failed-Standing,
}

module _ (encoded_size : RawRecord → ℕ) (session : String) where
  -- There are a trace and a length for which it holds.
  abbrev pub Sound : System → Type 0
  Sound s = (trace : List SafetyTransition) × (k : ℕ) × Tracked encoded_size session s trace k

  acts-Sound :
      (s : System) (a : Actions.Action)
      → Sound s
      → Sound (record s { gateway = Actions.step s.gateway a })
  acts-Sound s a (trace, k, v) =
      let g = Actions.step s.gateway a in
      elim (step-moves s.gateway a) [
        | inl m ↦ (trace, k, Stayed-Tracked encoded_size session s g trace k m v)
        | inr m ↦ (entry s.gateway g ∷ trace, k, Moved-Tracked encoded_size session s g trace k m v)
      ]

  gives_up-Tracked :
      (s : System) (trace : List SafetyTransition) (k : ℕ)
      → Tracked encoded_size session s trace k
      → Tracked encoded_size session (record s { ledger = record_audit_failure s.ledger }) trace k
  unfolding record_audit_failure
  gives_up-Tracked s trace k v =
      let l = s.ledger in
      record {
        whole = v.whole;
        history = v.history;
        known = v.known;
        filed = v.filed;
        standing = failed-Standing trace l.audit_failure l.next_audit_sequence k l.drain v.standing;
        logged_up_to = v.logged_up_to;
      }

  step-Sound : (s : System) (a : Action) → Sound s → Sound (step encoded_size session s a)
  unfolding step write_item pop_item release_drain
  step-Sound s (Action.gateway_acts a) v = acts-Sound s a v
  step-Sound s (Action.registers operation reference d outcome) (trace, k, v) =
      let l = register_transition s.gateway s.ledger operation reference d outcome in
      let registered =
        register-Registered s.gateway s.ledger trace operation reference d outcome
          (Tracked-history encoded_size session s trace k v) v.filed in
      (trace, k, registers-Tracked encoded_size session s trace k l.0 registered v)
  step-Sound s Action.takes (trace, k, v) =
      (trace, k, takes-Tracked encoded_size session s trace k v)
  step-Sound s (Action.writes wall_time monotonic_time storage) (trace, k, v) =
      let w =
        writes-Tracked encoded_size session s trace k wall_time monotonic_time storage
          s.ledger.drain v.standing v in
      (trace, w.0, w.1)
  step-Sound s Action.pops (trace, k, v) =
      (trace, k, pops-Tracked encoded_size session s trace k s.ledger.drain v.standing v)
  step-Sound s Action.releases (trace, k, v) =
      let l = s.ledger in
      let st = rested-Standing trace l.audit_failure l.next_audit_sequence k l.drain v.standing in
      (trace, k, drain-Tracked encoded_size session s trace k (rested l.drain) st v)
  step-Sound s Action.gives_up (trace, k, v) = (trace, k, gives_up-Tracked s trace k v)

  run-Sound :
      (s : System) (actions : List Action) → Sound s → Sound (run encoded_size session s actions)
  unfolding run
  run-Sound s [] v = v
  run-Sound s (a ∷ actions) v = run-Sound (step encoded_size session s a) actions (step-Sound s a v)

  start-Sound :
      (profile : RobotProfile) (runtime_dir : Bool) → Sound (start (init profile runtime_dir))
  unfolding start init empty
  start-Sound profile runtime_dir = (
    [],
    0,
    record {
      whole = (refl, refl);
      history = refl;
      known = tt;
      filed = tt;
      standing = inr refl;
      logged_up_to = refl;
    },
  )

  pub run-start-Sound :
      (profile : RobotProfile) (runtime_dir : Bool) (actions : List Action)
      → Sound (run encoded_size session (start (init profile runtime_dir)) actions)
  run-start-Sound profile runtime_dir actions =
      run-Sound (start (init profile runtime_dir)) actions (start-Sound profile runtime_dir)
