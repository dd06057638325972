-- ===== src/Sequencer/Actions/Latch.antt =====
-- After the latch nothing starts, and permits live exactly until then (agent_ros/safety/sequencer.py).
use ros2_agent_workflow.Common.{
  ℕ, ◌≡◌, refl, ◌∙◌, ◌⊎◌, inl, inr, Bool, true, false, List, [], ◌∷◌, none, arith, Result, ok, err,
}
use ros2_agent_workflow.Sequencer.{
  Sequencer, PermitArgument, permit, latch, worker_ready, ready, start, issue, submit, enqueue,
  owned, require_current, is_current, expire, begin_quiesce, begin_close, take, settle, release,
}
use ros2_agent_workflow.Sequencer.Actions.{Action, step, run}
use ros2_agent_workflow.Sequencer.Actions.Invariant.{Inv, step-Inv}
use ros2_agent_workflow.Sequencer.Actions.Action.{starts}

-- The command in flight afterwards is the one before, or none.
abbrev pub NothingStarted : Sequencer → Sequencer → Type 0
NothingStarted s s' = (s'.in_flight ≡ s.in_flight) ⊎ (s'.in_flight ≡ none)

step_latched :
    (s : Sequencer) (a : Action)
    → Inv s
    → s.latched ≡ true
    → ((step s a).latched ≡ true) × NothingStarted s (step s a)
unfolding step start issue submit enqueue require_current is_current worker_ready expire
    begin_quiesce begin_close take settle release latch
step_latched s (starts spawn) v l = ground arith
step_latched s a v l = ground arith

-- Once latched, a sequencer stays latched and has no receipt waiting, and no command starts: whatever
-- is in flight later was in flight at the latch.
pub latched_starts_nothing :
    (s : Sequencer) (actions : List Action)
    → Inv s
    → s.latched ≡ true
    → ((run s actions).latched ≡ true)
      × ((run s actions).queue ≡ [])
      × NothingStarted s (run s actions)
unfolding run
latched_starts_nothing s [] v l = (l, ground arith, inl refl)
latched_starts_nothing s (a ∷ actions) v l =
    let (l', n) = step_latched s a v l in
    let (last, empty, n') = latched_starts_nothing (step s a) actions (step-Inv s a v) l' in
    (last, empty, chain n n')
  where
    chain :
        NothingStarted s (step s a)
        → NothingStarted (step s a) (run (step s a) actions)
        → NothingStarted s (run (step s a) actions)
    chain n (inr none_left) = inr none_left
    chain (inl same) (inl same') = inl (same' ∙ same)
    chain (inr none_left) (inl same') = inr (same' ∙ none_left)

-- A latch that never came leaves what permits are compared with alone.
step_unlatched :
    (s : Sequencer) (a : Action)
    → (step s a).latched ≡ false
    → (s.latched ≡ false)
      × ((step s a).generation ≡ s.generation)
      × ((step s a).identity ≡ s.identity)
      × ((step s a).nonce ≡ s.nonce)
unfolding step start issue submit enqueue require_current is_current worker_ready expire
    begin_quiesce begin_close take settle release latch
step_unlatched s (starts spawn) l = ground arith
step_unlatched s a l = ground arith

run_unlatched :
    (s : Sequencer) (actions : List Action)
    → (run s actions).latched ≡ false
    → (s.latched ≡ false)
      × ((run s actions).generation ≡ s.generation)
      × ((run s actions).identity ≡ s.identity)
      × ((run s actions).nonce ≡ s.nonce)
unfolding run
run_unlatched s [] l = (l, refl, refl, refl)
run_unlatched s (a ∷ actions) l =
    let (l', g', i', n') = run_unlatched (step s a) actions l in
    let (before, g, i, n) = step_unlatched s a l' in (before, g' ∙ g, i' ∙ i, n' ∙ n)

issued :
    (s : Sequencer) (p : PermitArgument)
    → (issue s).1 ≡ ok p
    → p ≡ permit (issue s).0.identity (issue s).0.nonce (issue s).0.generation
unfolding issue
issued s p h = ground arith

current_permit :
    (s : Sequencer) (identity nonce generation : ℕ)
    → s.latched ≡ false
    → s.identity ≡ identity
    → s.nonce ≡ nonce
    → s.generation ≡ generation
    → (is_current s (permit identity nonce generation)).1 ≡ ready s
unfolding is_current owned worker_ready latch
current_permit s identity nonce generation l i n g = ground arith

-- A permit is current from its issue until the latch: after any actions that leave the sequencer
-- unlatched, `is_current` answers whether the worker is ready, and nothing else.
pub permit_lives :
    (s : Sequencer) (p : PermitArgument) (actions : List Action)
    → (issue s).1 ≡ ok p
    → (run (issue s).0 actions).latched ≡ false
    → (is_current (run (issue s).0 actions) p).1 ≡ ready (run (issue s).0 actions)
permit_lives s p actions h l =
    let (_, g, i, n) = run_unlatched (issue s).0 actions l in
    rw (issued s p h) (current_permit (run (issue s).0 actions) _ _ _ l i n g)

abbrev pub is_error : {E A : Type 0} → Result E A → Bool
is_error (ok a) = false
is_error (err e) = true

-- A latched sequencer issues no permit, and refuses every command and every permit, old or new.
pub latched_refuses :
    (s : Sequencer) (valid : Bool) (p : PermitArgument)
    → s.latched ≡ true
    → (is_error (issue s).1 ≡ true)
      × (is_error (submit s valid p).1 ≡ true)
      × (is_error (require_current s p).1 ≡ true)
      × ((is_current s p).1 ≡ false)
unfolding issue submit require_current is_current worker_ready latch
latched_refuses s valid p l = (ground arith, ground arith, ground arith, ground arith)
