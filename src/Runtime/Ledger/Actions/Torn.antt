-- ===== src/Runtime/Ledger/Actions/Torn.antt =====
-- Appends whose rollback does not fail leave no torn record (agent_ros/runtime/controller.py).
use ros2_agent_workflow.Common.{
  and_parts, ℕ, ◌≡◌, refl, String, Bool, true, false, ◌∙◌, List, [], ◌∷◌, all, arith, Value, Result,
  ok, err,
}
use ros2_agent_workflow.Audit.{RawRecord, AuditFailure}
use ros2_agent_workflow.Audit.Event.{encode}
use ros2_agent_workflow.Runtime.Ledger.{
  Item, Ledger, Drain, holding, Storage, stored, lost, late, torn, append_audit, store_record,
  write_item, event_of,
}
use ros2_agent_workflow.Runtime.Ledger.Actions.{Action, System, writes, torn_after, step, run}

abbrev pub rolls_back : Action → Bool
rolls_back (writes wall_time monotonic_time torn) = false
rolls_back _ = true

store_record-torn_after :
    (l : Ledger) (i : Item) (storage : Storage) (made : Result AuditFailure RawRecord)
    (wall_time monotonic_time : Value) (before : Bool)
    → rolls_back (writes wall_time monotonic_time storage) ≡ true
    → torn_after (store_record l i storage made).1 before ≡ before
unfolding store_record
store_record-torn_after l i storage (err e) wall_time monotonic_time before h = refl
store_record-torn_after l i stored (ok r) wall_time monotonic_time before h = refl
store_record-torn_after l i lost (ok r) wall_time monotonic_time before h = refl
store_record-torn_after l i late (ok r) wall_time monotonic_time before h = refl
store_record-torn_after l i torn (ok r) wall_time monotonic_time before h = ground (arith, h)

module _ (encoded_size : RawRecord → ℕ) (session : String) where
  append_audit-torn_after :
      (l : Ledger) (wall_time monotonic_time : Value) (storage : Storage) (d : Drain)
      (before : Bool)
      → rolls_back (writes wall_time monotonic_time storage) ≡ true
      → torn_after (append_audit encoded_size l wall_time monotonic_time session storage d).1 before
        ≡ before
  unfolding append_audit
  append_audit-torn_after l wall_time monotonic_time storage (holding i) before h =
      store_record-torn_after l i storage
        (encode encoded_size (event_of i) wall_time monotonic_time session) wall_time monotonic_time
        before h
  append_audit-torn_after l wall_time monotonic_time storage d before h = refl

  step_whole :
      (s : System) (a : Action)
      → rolls_back a ≡ true
      → (step encoded_size session s a).has_torn ≡ s.has_torn
  unfolding step write_item
  step_whole s (writes wall_time monotonic_time storage) h =
      append_audit-torn_after s.ledger wall_time monotonic_time storage s.ledger.drain s.has_torn h
  step_whole s (Action.gateway_acts a) h = refl
  step_whole s (Action.registers operation reference d outcome) h = refl
  step_whole s Action.takes h = refl
  step_whole s Action.pops h = refl
  step_whole s Action.releases h = refl
  step_whole s Action.gives_up h = refl

  pub run_whole :
      (s : System) (actions : List Action)
      → all rolls_back actions ≡ true
      → (run encoded_size session s actions).has_torn ≡ s.has_torn
  unfolding run
  run_whole s [] h = refl
  run_whole s (a ∷ actions) h =
      let (h0, h1) = and_parts (rolls_back a) _ h in
      run_whole (step encoded_size session s a) actions h1 ∙ step_whole s a h0
