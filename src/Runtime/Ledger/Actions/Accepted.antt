-- ===== src/Runtime/Ledger/Actions/Accepted.antt =====
-- The log that the drain writes, read by `validate_audit_history` (agent_ros/runtime/controller.py
-- with agent_ros/runtime/audit.py).
use ros2_agent_workflow.Common.{
  ℕ, ◌-◌, ◌≤◌, ◌≡◌, refl, sym, ap, ◌∙◌, String, Bool, true, false, ◌||◌, not, List, [], ◌∷◌, ◌++◌,
  Option, some, contains, Result, ok, guard,
}
use ros2_agent_workflow.Safety.{SafetyState}
use ros2_agent_workflow.Profile.{RobotProfile}
use ros2_agent_workflow.Gateway.{SafetyTransition, init}
use ros2_agent_workflow.Audit.{AuditFailure, audit_error, RawRecord, Validated, validate_record}
use ros2_agent_workflow.Audit.History.{
  Line, Progress, same_session, follow, scan, no_progress, ends_well, validate_audit_history,
}
use ros2_agent_workflow.Audit.History.Appended.{
  Fresh, scan-append, follow-goes_on, follow-opens, read_line_lem, scan-Fresh, validate-scan,
}
use ros2_agent_workflow.Runtime.Ledger.{Item}
use ros2_agent_workflow.Runtime.Ledger.Trace.{Whole, begins, adjoins}
use ros2_agent_workflow.Runtime.Ledger.Actions.{Action, run, start}
use ros2_agent_workflow.Runtime.Ledger.Actions.Invariant.{LoggedUpTo, RecordOf}
use ros2_agent_workflow.Runtime.Ledger.Actions.Reached.{run-start-Sound}

-- The state in which the newest record ended, or `before` where there is none.
abbrev pub last_state : Option SafetyState → List (Item × RawRecord) → Option SafetyState
last_state before [] = before
last_state before ((i, r) ∷ log) = some i.transition.state_after

-- `json.dumps` and `json.loads`: the length of the text of a record with its line break, and the
-- object that the text is read as.
module _ (encoded_size : RawRecord → ℕ) (parse : RawRecord → Option RawRecord) where
  -- The lines of the log, the oldest one first.
  pub lines_of : List (Item × RawRecord) → List Line
  lines_of [] = []
  lines_of ((i, r) ∷ log) =
      lines_of log ++ record { size = encoded_size r - 1; parsed = parse r } ∷ []

  -- What the session has added to what was there.
  abbrev Reached : String → Progress → Progress → List (Item × RawRecord) → Type 0
  Reached session p q [] = q ≡ p
  Reached session p q ((i, r) ∷ log) =
      (q.current_session ≡ some session) × (q.previous_after ≡ some i.transition.state_after)

  abbrev states_of : String → Item → Validated
  states_of session i = record {
    session_id = session;
    before = i.transition.state_before;
    after = i.transition.state_after;
  }

  abbrev line_of : RawRecord → Line
  line_of r = record { size = encoded_size r - 1; parsed = parse r }

  -- The item's record has been followed.
  abbrev Gone : String → Result AuditFailure Progress → Item → Type 0
  Gone session result i =
      (q : Progress) × (result ≡ ok q)
      × (q.current_session ≡ some session)
      × (q.previous_after ≡ some i.transition.state_after)

  module _ (session : String) (n : ℕ) (state : SafetyState) (trace : List SafetyTransition)
      (p : Progress) (texts : (r : RawRecord) → 2 ≤ encoded_size r)
      (reads : (r : RawRecord) (v : Validated) → validate_record r ≡ ok v → parse r ≡ some r)
      (w : Whole n state trace) (fresh : Fresh p session) where
    entry-scan :
        (q : Progress) (lines : List Line) (i : Item) (r : RawRecord)
        → scan p lines ≡ ok q
        → RecordOf encoded_size session i r
        → Gone session (follow q (states_of session i)) i
        → (q' : Progress) × (scan p (lines ++ line_of r ∷ []) ≡ ok q')
          × ((q'.current_session ≡ some session)
              × (q'.previous_after ≡ some i.transition.state_after))
    unfolding scan
    entry-scan q lines i r h m (q', f, c, e) = (
      q',
      scan-append p lines (line_of r ∷ [])
          ∙ simp (
            scan,
            h,
            read_line_lem (encoded_size r) (parse r) r (states_of session i) (texts r) m.1
                (reads r (states_of session i) m.0) m.0,
            f,
          ),
      (c, e),
    )

    log-scan :
        (k : ℕ) (log : List (Item × RawRecord))
        → LoggedUpTo encoded_size session trace k log
        → (q : Progress) × (scan p (lines_of log) ≡ ok q) × Reached session p q log
    unfolding lines_of scan
    log-scan k [] l = (p, refl, refl)
    log-scan k ((i, r) ∷ []) l =
        entry-scan p [] i r refl l.2
          (follow-opens p (states_of session i) fresh (begins n state i.transition trace w l.3 l.1))
    log-scan k ((i, r) ∷ (j, t) ∷ log) l =
        let (q, h, (c, e)) = log-scan i.transition.sequence ((j, t) ∷ log) l.3 in
        let adjoined = adjoins n state i.transition j.transition trace w (sym l.3.0) l.1 l.3.1 in
        entry-scan q (lines_of ((j, t) ∷ log)) i r h l.2
          (follow-goes_on q (states_of session i) c (e ∙ ap (λ x. some x) (sym adjoined)))

  Reached-last :
      (session : String) (p q : Progress) (log : List (Item × RawRecord))
      → Reached session p q log
      → q.previous_after ≡ last_state p.previous_after log
  Reached-last session p q [] e = ap (λ (x : Progress). x.previous_after) e
  Reached-last session p q ((i, r) ∷ log) e = e.1

  -- Over any interleaving of threads that use the gateway, register its transitions, drain them and
  -- fail, the log that is written after an old log that ends well, in a session that the old log does
  -- not have, is accepted in full by `validate_audit_history`, unless an append of the session left a
  -- part of a record that could not be rolled back; where a terminal state is asked for, it is
  -- accepted exactly if the state that the newest record ended in is terminal. It is assumed
  -- that the text of a record has a character before its line break, and that the text of a
  -- valid record reads back as the record.
  pub written_log-validate :
      (profile : RobotProfile) (runtime_dir : Bool) (actions : List Action) (session : String)
      (old : List Line) (p : Progress) (require_terminal : Bool)
      → ((r : RawRecord) → 2 ≤ encoded_size r)
      → ((r : RawRecord) (v : Validated) → validate_record r ≡ ok v → parse r ≡ some r)
      → scan no_progress old ≡ ok p
      → ends_well p.previous_after ≡ true
      → same_session p.current_session session ≡ false
      → contains session p.completed_sessions ≡ false
      → (run encoded_size session (start (init profile runtime_dir)) actions).has_torn ≡ false
      → (let s = run encoded_size session (start (init profile runtime_dir)) actions in
          validate_audit_history true require_terminal (old ++ lines_of s.log)
          ≡ guard
              (not require_terminal || ends_well (last_state p.previous_after s.log))
              audit_error)
  written_log-validate profile runtime_dir actions session old p require_terminal texts reads h w c
        d whole =
      let s = run encoded_size session (start (init profile runtime_dir)) actions in
      let (trace, k, v) = run-start-Sound encoded_size session profile runtime_dir actions in
      let (q, l, e) =
        log-scan session s.gateway.transition_sequence s.gateway.state trace p texts reads v.whole
          (scan-Fresh p old session h w c d) k s.log v.logged_up_to in
      validate-scan q require_terminal (old ++ lines_of s.log)
        (scan-append no_progress old (lines_of s.log) ∙ simp (h, l))
      ∙ ap (λ x. guard (not require_terminal || ends_well x) audit_error)
          (Reached-last session p q s.log e)
