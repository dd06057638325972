-- ===== src/Sequencer/Actions/Invariant.antt =====
-- What holds of a sequencer after any interleaving (agent_ros/safety/sequencer.py).
use ros2_agent_workflow.Common.{
  ℕ, ◌≤◌, ◌≡◌, ◌⊎◌, Bool, true, false, List, [], ◌∷◌, ◌++◌, Option, none, some, arith, length, ◌==◌,
  ◌&&◌, length-append, ok,
}
use ros2_agent_workflow.Sequencer.{
  Sequencer, Receipt, Phase, waiting, executing, settled, is_started, queue_capacity, init, latch,
  worker_ready, start, issue, PermitArgument, submit, enqueue, require_current, is_current, expire,
  begin_quiesce, begin_close, take, settle, release,
}
use ros2_agent_workflow.Sequencer.Actions.{Action, step, run}
use ros2_agent_workflow.Sequencer.Actions.Action.{
  starts, issues, submits, asks, expires, quiesces, closes, takes, settles, releases, dies,
}

abbrev pub in_hand : Phase → Option Receipt
in_hand waiting = none
in_hand (executing r) = some r
in_hand (settled r) = some r

-- Every receipt of the queue is of the generation.
pub of_generation : ℕ → List Receipt → Bool
of_generation n [] = true
of_generation n (r ∷ queue) = r.generation == n && of_generation n queue

pub record Inv (s : Sequencer) : Type 0 where
  pub bounded : length s.queue ≤ queue_capacity
  pub emptied : (s.latched ≡ false) ⊎ (s.queue ≡ [])
  pub fresh : of_generation s.generation s.queue ≡ true
  pub shut : (s.closed ≡ false) ⊎ (s.latched ≡ true)
  pub open_ : (s.accepting ≡ false) ⊎ ((s.closed ≡ false) × (s.failed ≡ false))
  pub manned : (s.accepting ≡ false) ⊎ (is_started s.thread ≡ true)
  pub flying : s.in_flight ≡ in_hand s.phase

of_generation-snoc :
    (n : ℕ) (r : Receipt) (queue : List Receipt)
    → r.generation ≡ n
    → of_generation n queue ≡ true
    → of_generation n (queue ++ r ∷ []) ≡ true
unfolding of_generation
of_generation-snoc n r [] e h = ground arith
of_generation-snoc n r (q ∷ queue) e h = ground (arith, of_generation-snoc n r queue e)

worker_ready-Inv : (s : Sequencer) → Inv s → Inv (worker_ready s).0
unfolding of_generation worker_ready latch
worker_ready-Inv s v = ground arith

enqueue-Inv : (s : Sequencer) → s.latched ≡ false → Inv s → Inv (enqueue s).0
unfolding of_generation enqueue latch
enqueue-Inv s l v = ground (
  arith,
  length-append s.queue (record { number = s.next_number; generation = s.generation } ∷ []),
  of_generation-snoc s.generation (record { number = s.next_number; generation = s.generation })
      s.queue,
)

require_current-Inv : (s : Sequencer) (p : PermitArgument) → Inv s → Inv (require_current s p).0
unfolding require_current
require_current-Inv s p v = ground (arith, worker_ready-Inv s)

is_current-Inv : (s : Sequencer) (p : PermitArgument) → Inv s → Inv (is_current s p).0
unfolding is_current
is_current-Inv s p v = ground (arith, worker_ready-Inv s)

require_current-latched :
    (s : Sequencer) (p : PermitArgument)
    → (require_current s p).1 ≡ ok tt
    → (require_current s p).0.latched ≡ false
unfolding require_current
require_current-latched s p h = ground arith

submit-Inv : (s : Sequencer) (valid : Bool) (p : PermitArgument) → Inv s → Inv (submit s valid p).0
unfolding submit
submit-Inv s valid p v = ground (
  arith,
  require_current-Inv s p,
  require_current-latched s p,
  enqueue-Inv (require_current s p).0,
)

pub step-Inv : (s : Sequencer) (a : Action) → Inv s → Inv (step s a)
unfolding of_generation step start issue expire begin_quiesce begin_close take settle release latch
step-Inv s (starts spawn) v = ground (arith, worker_ready-Inv s)
step-Inv s issues v = ground (arith, worker_ready-Inv s)
step-Inv s (submits valid p) v = submit-Inv s valid p v
step-Inv s (asks p) v = is_current-Inv s p v
step-Inv s (expires number) v = ground arith
step-Inv s quiesces v = ground arith
step-Inv s closes v = ground arith
step-Inv s takes v = ground arith
step-Inv s (settles raised) v = ground arith
step-Inv s releases v = ground arith
step-Inv s dies v = ground arith

pub run-Inv : (s : Sequencer) (actions : List Action) → Inv s → Inv (run s actions)
unfolding run
run-Inv s [] v = v
run-Inv s (a ∷ actions) v = run-Inv (step s a) actions (step-Inv s a v)

-- After any interleaving of callers and worker: at most sixteen receipts wait; a latched sequencer
-- has none waiting, and a closed one is latched; every waiting receipt is of the current generation;
-- one that accepts commands is neither
-- closed nor failed and has a thread; what is in flight is exactly what the worker has in hand.
pub run-init-Inv :
    (identity nonce : ℕ) (actions : List Action) → Inv (run (init identity nonce) actions)
unfolding init of_generation
run-init-Inv identity nonce actions = run-Inv (init identity nonce) actions (ground arith)
