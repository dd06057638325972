-- ===== src/Runtime/Ledger/Actions/Invariant.antt =====
-- What holds of gateway, ledger and log (agent_ros/runtime/controller.py).
use ros2_agent_workflow.Common.{
  ℕ, suc, ◌≡◌, ◌⊎◌, refl, sym, subst, ap, ◌∙◌, String, Bool, true, List, [], ◌∷◌, leb, All,
  All-take, take, take-take, ok,
}
use ros2_agent_workflow.Safety.{SafetyState}
use ros2_agent_workflow.Gateway.{Gateway, SafetyTransition, history_size}
use ros2_agent_workflow.Gateway.Actions.History.{Stayed, Moved, entry}
use ros2_agent_workflow.Audit.Writer.{max_record_bytes}
use ros2_agent_workflow.Audit.{RawRecord, validate_record}
use ros2_agent_workflow.Runtime.Ledger.{Item, Drain, holding, recorded, Ledger}
use ros2_agent_workflow.Runtime.Ledger.Actions.{System}
use ros2_agent_workflow.Runtime.Ledger.Filing.{Filed, Filed-grows, Registered}
use ros2_agent_workflow.Runtime.Ledger.Trace.{
  Whole, Known, Known-grows, Known-newest, All-Known-grows,
}

-- How far the log has come, `k` records, compared with the number that the drain expects next.
abbrev pub Standing : List SafetyTransition → Bool → ℕ → ℕ → Drain → Type 0
Standing trace failure next k (holding i) =
    (k ≡ next) × (i.transition.sequence ≡ next) × Known trace i.transition
Standing trace failure next k (recorded i) = k ≡ suc next
Standing trace failure next k d = (failure ≡ true) ⊎ (k ≡ next)

Standing-grows :
    (u : SafetyTransition) (state : SafetyState) (trace : List SafetyTransition) (failure : Bool)
    (next k : ℕ) (d : Drain)
    → Whole u.sequence state trace
    → Standing trace failure next k d
    → Standing (u ∷ trace) failure next k d
Standing-grows u state trace failure next k (holding i) w s =
    (s.0, s.1, Known-grows u i.transition state trace w s.2)
Standing-grows u state trace failure next k (recorded i) w s = s
Standing-grows u state trace failure next k d w s = s

module _ (encoded_size : RawRecord → ℕ) (session : String) where
  -- The record of an item.
  abbrev pub RecordOf : Item → RawRecord → Type 0
  RecordOf i r =
      (validate_record r
        ≡ ok (record {
          session_id = session;
          before = i.transition.state_before;
          after = i.transition.state_after;
        }))
      × (leb (encoded_size r) max_record_bytes ≡ true)

  -- The log has the transitions of the numbers below `k`, newest first.
  abbrev pub LoggedUpTo : List SafetyTransition → ℕ → List (Item × RawRecord) → Type 0
  LoggedUpTo trace k [] = k ≡ 0
  LoggedUpTo trace k ((i, r) ∷ log) =
      (suc i.transition.sequence ≡ k)
      × Known trace i.transition
      × RecordOf i r
      × LoggedUpTo trace i.transition.sequence log

  pub record Tracked (s : System) (trace : List SafetyTransition) (k : ℕ) : Type 0 where
    pub whole : Whole s.gateway.transition_sequence s.gateway.state trace
    pub history : s.gateway.transition_history ≡ take history_size trace
    pub known : All (Known trace) trace
    pub filed : All (Filed trace) s.ledger.pending_audit
    pub standing :
        Standing trace s.ledger.audit_failure s.ledger.next_audit_sequence k s.ledger.drain
    pub logged_up_to : LoggedUpTo trace k s.log

module _ (encoded_size : RawRecord → ℕ) (session : String) where
  LoggedUpTo-grows :
      (u : SafetyTransition) (state : SafetyState) (trace : List SafetyTransition) (k : ℕ)
      (log : List (Item × RawRecord))
      → Whole u.sequence state trace
      → LoggedUpTo encoded_size session trace k log
      → LoggedUpTo encoded_size session (u ∷ trace) k log
  LoggedUpTo-grows u state trace k [] w l = l
  LoggedUpTo-grows u state trace k ((i, r) ∷ log) w l = (
    l.0,
    Known-grows u i.transition state trace w l.1,
    l.2,
    LoggedUpTo-grows u state trace i.transition.sequence log w l.3,
  )

  -- The gateway's own steps.
  pub Moved-Tracked :
      (s : System) (g : Gateway) (trace : List SafetyTransition) (k : ℕ)
      → Moved s.gateway g
      → Tracked encoded_size session s trace k
      → Tracked encoded_size session (record s { gateway = g }) (entry s.gateway g ∷ trace) k
  Moved-Tracked s g trace k m v =
      let u = entry s.gateway g in
      record {
        whole = (sym m.next_sequence, refl, v.whole);
        history = m.longer ∙ ap (λ h. u ∷ h) (ap (take 255) v.history ∙ take-take 255 trace);
        known =
            (Known-newest u trace, All-Known-grows u s.gateway.state trace trace v.whole v.known);
        filed = Filed-grows u s.gateway.state trace s.ledger.pending_audit v.whole v.filed;
        standing =
            Standing-grows u s.gateway.state trace s.ledger.audit_failure
              s.ledger.next_audit_sequence k s.ledger.drain v.whole v.standing;
        logged_up_to = LoggedUpTo-grows u s.gateway.state trace k s.log v.whole v.logged_up_to;
      }

  pub Stayed-Tracked :
      (s : System) (g : Gateway) (trace : List SafetyTransition) (k : ℕ)
      → Stayed s.gateway g
      → Tracked encoded_size session s trace k
      → Tracked encoded_size session (record s { gateway = g }) trace k
  Stayed-Tracked s g trace k m v = record {
    whole = rw (m.same_sequence, m.same_state) v.whole;
    history = m.same_history ∙ v.history;
    known = v.known;
    filed = v.filed;
    standing = v.standing;
    logged_up_to = v.logged_up_to;
  }

  pub Tracked-history :
      (s : System) (trace : List SafetyTransition) (k : ℕ)
      → Tracked encoded_size session s trace k
      → All (Known trace) s.gateway.transition_history
  Tracked-history s trace k v =
      subst (All (Known trace)) (sym v.history) (All-take (Known trace) history_size trace v.known)

  pub registers-Tracked :
      (s : System) (trace : List SafetyTransition) (k : ℕ) (l : Ledger)
      → Registered trace s.ledger l
      → Tracked encoded_size session s trace k
      → Tracked encoded_size session (record s { ledger = l }) trace k
  registers-Tracked s trace k l (p, e, f) v =
      subst (λ (x : Ledger). Tracked encoded_size session (record s { ledger = x }) trace k) (sym e)
        (record {
          whole = v.whole;
          history = v.history;
          known = v.known;
          filed = f;
          standing = v.standing;
          logged_up_to = v.logged_up_to;
        })
