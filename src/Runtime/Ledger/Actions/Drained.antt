-- ===== src/Runtime/Ledger/Actions/Drained.antt =====
-- The steps of the drain keep what holds of gateway, ledger and log
-- (agent_ros/runtime/controller.py).
use ros2_agent_workflow.Common.{
  ℕ, suc, ◌≡◌, refl, sym, subst, ap, ◌∙◌, String, Bool, true, false, ◌||◌, not, List, Option, none,
  some, arith, inl, inr, Bool-cases, All, Value, Result, ok, err,
}
use ros2_agent_workflow.Gateway.{SafetyTransition}
use ros2_agent_workflow.Audit.Event.{encode}
use ros2_agent_workflow.Audit.Event.Valid.{encode-validate, encode-made}
use ros2_agent_workflow.Audit.{RawRecord, AuditFailure}
use ros2_agent_workflow.Runtime.Ledger.{
  Item, Drain, resting, holding, recorded, Ledger, Storage, may_take, hold_item, next_item,
  take_item, record_audit_failure, event_of, append_audit, pop_written, rested, store_record,
  stored, lost, late, torn, added,
}
use ros2_agent_workflow.Runtime.Ledger.Actions.{System, written_to}
use ros2_agent_workflow.Runtime.Ledger.Filing.{Filed, Filed-pop, next_item-Known}
use ros2_agent_workflow.Runtime.Ledger.Actions.Invariant.{
  Standing, LoggedUpTo, RecordOf, Tracked, Tracked-history,
}

pub rested-Standing :
    (trace : List SafetyTransition) (failure : Bool) (next k : ℕ) (d : Drain)
    → Standing trace failure next k d
    → Standing trace failure next k (rested d)
unfolding rested
rested-Standing trace failure next k Drain.between st = st
rested-Standing trace failure next k d st = st

pub failed-Standing :
    (trace : List SafetyTransition) (failure : Bool) (next k : ℕ) (d : Drain)
    → Standing trace failure next k d
    → Standing trace true next k d
failed-Standing trace failure next k (holding i) st = st
failed-Standing trace failure next k (recorded i) st = st
failed-Standing trace failure next k d st = inl refl

module _ (encoded_size : RawRecord → ℕ) (session : String) where
  -- The steps of the drain.
  pub drain-Tracked :
      (s : System) (trace : List SafetyTransition) (k : ℕ) (d : Drain)
      → Standing trace s.ledger.audit_failure s.ledger.next_audit_sequence k d
      → Tracked encoded_size session s trace k
      → Tracked encoded_size session (record s { ledger = record s.ledger { drain = d } }) trace k
  drain-Tracked s trace k d st v = record {
    whole = v.whole;
    history = v.history;
    known = v.known;
    filed = v.filed;
    standing = st;
    logged_up_to = v.logged_up_to;
  }

  caught_up :
      (trace : List SafetyTransition) (failure : Bool) (next k : ℕ) (d : Drain)
      → Standing trace failure next k d
      → (failure || not (may_take d)) ≡ false
      → k ≡ next
  caught_up trace failure next k (holding i) st e = ground arith
  caught_up trace failure next k (recorded i) st e = ground arith
  caught_up trace failure next k d st e = ground (arith, st)

  hold-Tracked :
      (s : System) (trace : List SafetyTransition) (k : ℕ) (o : Option Item)
      → ((i : Item)
          → o ≡ some i
          → Standing trace s.ledger.audit_failure s.ledger.next_audit_sequence k (holding i))
      → Tracked encoded_size session s trace k
      → Tracked encoded_size session (record s { ledger = hold_item s.ledger o }) trace k
  unfolding hold_item
  hold-Tracked s trace k none st v = v
  hold-Tracked s trace k (some i) st v = drain-Tracked s trace k (holding i) (st i refl) v

  pub takes-Tracked :
      (s : System) (trace : List SafetyTransition) (k : ℕ)
      → Tracked encoded_size session s trace k
      → Tracked encoded_size session (record s { ledger = take_item s.gateway s.ledger }) trace k
  unfolding take_item
  takes-Tracked s trace k v =
      let held = hold-Tracked s trace k (next_item s.gateway s.ledger) in
      elim (Bool-cases (s.ledger.audit_failure || not (may_take s.ledger.drain))) [
        | inl e ↦ simp (take_item, e) v
        | inr e ↦
            simp (take_item, e)
              (held
                (λ i h.
                  let n =
                    next_item-Known s.gateway s.ledger trace i
                      (Tracked-history encoded_size session s trace k v) v.filed h in
                  let l = s.ledger in
                  (
                    caught_up trace l.audit_failure l.next_audit_sequence k l.drain v.standing e,
                    n.0,
                    n.1,
                  ))
                v)
      ]

  written-Tracked :
      (s : System) (trace : List SafetyTransition) (k : ℕ) (i : Item) (r : RawRecord) (l : Ledger)
      → Standing trace s.ledger.audit_failure s.ledger.next_audit_sequence k (holding i)
      → RecordOf encoded_size session i r
      → l.pending_audit ≡ s.ledger.pending_audit
      → Standing trace l.audit_failure l.next_audit_sequence (suc k) l.drain
      → Tracked encoded_size session s trace k
      → Tracked encoded_size session (written_to s (l, added i r)) trace (suc k)
  written-Tracked s trace k i r l st m same st' v = record {
    whole = v.whole;
    history = v.history;
    known = v.known;
    filed = subst (All (Filed trace)) (sym same) v.filed;
    standing = st';
    logged_up_to = (
      ap suc (st.1 ∙ sym st.0),
      st.2,
      m,
      subst (λ n. LoggedUpTo encoded_size session trace n s.log) (st.0 ∙ sym st.1) v.logged_up_to,
    );
  }

  -- A failure stops the drain where it is.
  failure-Tracked :
      (s : System) (trace : List SafetyTransition) (k : ℕ)
      → Tracked encoded_size session s trace k
      → Tracked encoded_size session
          (record s { ledger = record_audit_failure (record s.ledger { drain = resting }) })
          trace
          k
  unfolding record_audit_failure
  failure-Tracked s trace k v = record {
    whole = v.whole;
    history = v.history;
    known = v.known;
    filed = v.filed;
    standing = inl refl;
    logged_up_to = v.logged_up_to;
  }

  -- So does one that leaves a torn record, which is no record of the log.
  torn-Tracked :
      (s : System) (trace : List SafetyTransition) (k : ℕ)
      → Tracked encoded_size session s trace k
      → Tracked encoded_size session
          (record s {
            ledger = record_audit_failure (record s.ledger { drain = resting });
            has_torn = true;
          })
          trace
          k
  unfolding record_audit_failure
  torn-Tracked s trace k v = record {
    whole = v.whole;
    history = v.history;
    known = v.known;
    filed = v.filed;
    standing = inl refl;
    logged_up_to = v.logged_up_to;
  }

  store-Tracked :
      (s : System) (trace : List SafetyTransition) (k : ℕ) (i : Item) (storage : Storage)
      (made : Result AuditFailure RawRecord)
      → Standing trace s.ledger.audit_failure s.ledger.next_audit_sequence k (holding i)
      → ((r : RawRecord) → made ≡ ok r → RecordOf encoded_size session i r)
      → Tracked encoded_size session s trace k
      → (k' : ℕ) × Tracked encoded_size session
          (written_to s (store_record s.ledger i storage made))
          trace
          k'
  unfolding store_record record_audit_failure
  store-Tracked s trace k i storage (err e) st m v = (k, failure-Tracked s trace k v)
  store-Tracked s trace k i stored (ok r) st m v = (
    suc k,
    written-Tracked s trace k i r (record s.ledger { drain = recorded i }) st (m r refl) refl
        (ap suc st.0) v,
  )
  store-Tracked s trace k i lost (ok r) st m v = (k, failure-Tracked s trace k v)
  store-Tracked s trace k i torn (ok r) st m v = (k, torn-Tracked s trace k v)
  store-Tracked s trace k i late (ok r) st m v = (
    suc k,
    written-Tracked s trace k i r (record_audit_failure (record s.ledger { drain = resting })) st
        (m r refl) refl (inl refl) v,
  )

  pub writes-Tracked :
      (s : System) (trace : List SafetyTransition) (k : ℕ) (wall_time monotonic_time : Value)
      (storage : Storage) (d : Drain)
      → Standing trace s.ledger.audit_failure s.ledger.next_audit_sequence k d
      → Tracked encoded_size session s trace k
      → (k' : ℕ) × Tracked encoded_size session
          (written_to s
            (append_audit encoded_size s.ledger wall_time monotonic_time session storage d))
          trace
          k'
  unfolding append_audit event_of
  writes-Tracked s trace k wall_time monotonic_time storage (holding i) st v =
      store-Tracked s trace k i storage
        (encode encoded_size (event_of i) wall_time monotonic_time session) st
        (λ r e. (
          encode-validate encoded_size (event_of i) wall_time monotonic_time session r e,
          (encode-made encoded_size (event_of i) wall_time monotonic_time session r e).1,
        ))
        v
  writes-Tracked s trace k wall_time monotonic_time storage d st v = (k, v)

  pub pops-Tracked :
      (s : System) (trace : List SafetyTransition) (k : ℕ) (d : Drain)
      → Standing trace s.ledger.audit_failure s.ledger.next_audit_sequence k d
      → Tracked encoded_size session s trace k
      → Tracked encoded_size session (record s { ledger = pop_written s.ledger d }) trace k
  unfolding pop_written
  pops-Tracked s trace k (recorded i) st v = record {
    whole = v.whole;
    history = v.history;
    known = v.known;
    filed = Filed-pop trace s.ledger.next_audit_sequence s.ledger.pending_audit v.filed;
    standing = inr st;
    logged_up_to = v.logged_up_to;
  }
  pops-Tracked s trace k d st v = v
