-- ===== src/Sequencer/Actions/Receipts.antt =====
-- Every accepted command is answered, once (agent_ros/safety/sequencer.py).
use ros2_agent_workflow.Common.{
  ℕ, ◌≤◌, ◌<◌, ◌≡◌, subst, Bool-cases, ==_iff, refl, ◌⊎◌, inl, inr, Bool, true, false, ◌||◌, ◌==◌,
  List, [], ◌∷◌, ◌++◌, none, some, arith, is_some,
}
use ros2_agent_workflow.Sequencer.{
  quiesce_result, PermitArgument, Sequencer, Receipt, Phase, waiting, executing, settled, Code,
  Completion, Completions, rejected, init, latch, complete, reject_queued, worker_ready, start,
  issue, submit, enqueue, require_current, is_current, expire, begin_quiesce, begin_close, take,
  settle, release,
}
use ros2_agent_workflow.Sequencer.Actions.{Action, step, run}
use ros2_agent_workflow.Sequencer.Actions.Invariant.{run-init-Inv}
use ros2_agent_workflow.Sequencer.Actions.Latch.{latched_starts_nothing}
use ros2_agent_workflow.Sequencer.Actions.Action.{
  starts, issues, submits, asks, expires, quiesces, closes, takes, settles, releases, dies,
}

pub queued : ℕ → List Receipt → Bool
queued n [] = false
queued n (r ∷ queue) = n == r.number || queued n queue

abbrev in_command : ℕ → Phase → Bool
in_command n (executing r) = n == r.number
in_command n _ = false

-- The receipt is answered, waits in the queue, or is with the command that the worker runs.
abbrev pub accounted : Sequencer → ℕ → Bool
accounted s n = is_some (s.completion n) || queued n s.queue || in_command n s.phase

is_some-complete :
    (done : Completions) (k n : ℕ) (c : Completion)
    → is_some (complete done k c n) ≡ (is_some (done n) || n == k)
unfolding complete
is_some-complete done k n c = ground arith

is_some-reject_queued :
    (queue : List Receipt) (code : Code) (done : Completions) (n : ℕ)
    → is_some (reject_queued queue code done n) ≡ (is_some (done n) || queued n queue)
unfolding reject_queued queued
is_some-reject_queued [] code done n = ground arith
is_some-reject_queued (r ∷ queue) code done n = ground (
  arith,
  is_some-reject_queued queue code (complete done r.number (rejected code)) n,
  is_some-complete done r.number n (rejected code),
)

queued-snoc :
    (n : ℕ) (r : Receipt) (queue : List Receipt)
    → queued n (queue ++ r ∷ []) ≡ (queued n queue || n == r.number)
unfolding queued
queued-snoc n r [] = ground arith
queued-snoc n r (q ∷ queue) = ground (arith, queued-snoc n r queue)

abbrev Settled : Sequencer → ℕ → Type 0
Settled s n = (accounted s n ≡ true) ⊎ (s.next_number ≤ n)

latch-Settled : (s : Sequencer) (code : Code) (n : ℕ) → Settled s n → Settled (latch s code) n
unfolding latch queued
latch-Settled s code n h = ground (arith, is_some-reject_queued s.queue code s.completion n)

worker_ready-Settled : (s : Sequencer) (n : ℕ) → Settled s n → Settled (worker_ready s).0 n
unfolding worker_ready latch queued
worker_ready-Settled s n h =
    ground (arith, is_some-reject_queued s.queue Code.unsafe_state s.completion n)

require_current-Settled :
    (s : Sequencer) (p : PermitArgument) (n : ℕ) → Settled s n → Settled (require_current s p).0 n
unfolding require_current
require_current-Settled s p n h = ground (arith, worker_ready-Settled s n)

enqueue-Settled : (s : Sequencer) (n : ℕ) → Settled s n → Settled (enqueue s).0 n
unfolding enqueue
enqueue-Settled s n h = ground (
  arith,
  latch-Settled s Code.latched_estop n,
  queued-snoc n (record { number = s.next_number; generation = s.generation }) s.queue,
)

submit-Settled :
    (s : Sequencer) (valid : Bool) (p : PermitArgument) (n : ℕ)
    → Settled s n
    → Settled (submit s valid p).0 n
unfolding submit
submit-Settled s valid p n h =
    ground (arith, require_current-Settled s p n, enqueue-Settled (require_current s p).0 n)

expire-Settled : (s : Sequencer) (k n : ℕ) → Settled s n → Settled (expire s k) n
unfolding expire latch queued
expire-Settled s k n h = ground (
  arith,
  is_some-reject_queued s.queue Code.latched_estop (complete s.completion k (rejected Code.timeout))
      n,
  is_some-complete s.completion k n (rejected Code.timeout),
)

begin_close-Settled : (s : Sequencer) (n : ℕ) → Settled s n → Settled (begin_close s) n
unfolding begin_close queued
begin_close-Settled s n h =
    ground (arith, is_some-reject_queued s.queue Code.unsafe_state s.completion n)

take-Settled : (s : Sequencer) (n : ℕ) → Settled s n → Settled (take s) n
unfolding take queued complete
take-Settled s n h = ground arith

Phase-cases :
    (p : Phase)
    → ((r : Receipt) × (p ≡ executing r)) ⊎ (p ≡ waiting) ⊎ ((r : Receipt) × (p ≡ settled r))
Phase-cases (executing r) = inl (r, refl)
Phase-cases waiting = inr (inl refl)
Phase-cases (settled r) = inr (inr (r, refl))

settle-Settled : (s : Sequencer) (raised : Bool) (n : ℕ) → Settled s n → Settled (settle s raised) n
unfolding settle queued
settle-Settled s raised n h = elim (Phase-cases s.phase) [
  | inl (r, e) ↦ ground (
    arith,
    is_some-complete s.completion r.number n Completion.command_error,
    is_some-complete s.completion r.number n Completion.value,
    is_some-reject_queued s.queue Code.unsafe_state
        (complete s.completion r.number Completion.command_error) n,
  )
  | inr (inl e) ↦ ground arith
  | inr (inr (r, e)) ↦ ground arith
]

step-Settled : (s : Sequencer) (a : Action) (n : ℕ) → Settled s n → Settled (step s a) n
unfolding step start issue is_current begin_quiesce release queued
step-Settled s (starts spawn) n h = ground (arith, worker_ready-Settled s n)
step-Settled s issues n h = ground (arith, worker_ready-Settled s n)
step-Settled s (submits valid p) n h = submit-Settled s valid p n h
step-Settled s (asks p) n h = ground (arith, worker_ready-Settled s n)
step-Settled s (expires number) n h = expire-Settled s number n h
step-Settled s quiesces n h = latch-Settled s Code.latched_estop n h
step-Settled s closes n h = begin_close-Settled s n h
step-Settled s takes n h = ground (arith, take-Settled s n)
step-Settled s (settles raised) n h = ground (arith, settle-Settled s raised n)
step-Settled s releases n h = ground arith
step-Settled s dies n h = ground arith

run-Settled :
    (s : Sequencer) (actions : List Action) (n : ℕ) → Settled s n → Settled (run s actions) n
unfolding run
run-Settled s [] n h = h
run-Settled s (a ∷ actions) n h = run-Settled (step s a) actions n (step-Settled s a n h)

-- No accepted command is lost: after any interleaving, every receipt that `submit` gave out is
-- answered, waits in the queue, or is the one whose command the worker runs.
pub no_receipt_lost :
    (identity nonce : ℕ) (actions : List Action) (n : ℕ)
    → n < (run (init identity nonce) actions).next_number
    → accounted (run (init identity nonce) actions) n ≡ true
no_receipt_lost identity nonce actions n h =
    ground (arith, run-Settled (init identity nonce) actions n (start_settled))
  where
    start_settled : Settled (init identity nonce) n
    start_settled = unfold init in inr (omega arith)

complete_keeps :
    (done : Completions) (k n : ℕ) (c d : Completion)
    → done n ≡ some d
    → complete done k c n ≡ some d
unfolding complete
complete_keeps done k n c d h = elim (Bool-cases (n == k)) [
  | inl e ↦ rw (e) (let same = subst (λ m. done m ≡ some d) ((==_iff n k).0 e) h in rw same)
  | inr e ↦ rw (e) h
]

reject_queued_keeps :
    (queue : List Receipt) (code : Code) (done : Completions) (n : ℕ) (d : Completion)
    → done n ≡ some d
    → reject_queued queue code done n ≡ some d
unfolding reject_queued
reject_queued_keeps [] code done n d h = h
reject_queued_keeps (r ∷ queue) code done n d h =
    reject_queued_keeps queue code (complete done r.number (rejected code)) n d
      (complete_keeps done r.number n (rejected code) d h)

worker_ready_keeps :
    (s : Sequencer) (n : ℕ) (d : Completion)
    → s.completion n ≡ some d
    → (worker_ready s).0.completion n ≡ some d
unfolding worker_ready latch
worker_ready_keeps s n d h =
    ground (arith, reject_queued_keeps s.queue Code.unsafe_state s.completion n d)

submit_keeps :
    (s : Sequencer) (valid : Bool) (p : PermitArgument) (n : ℕ) (d : Completion)
    → s.completion n ≡ some d
    → (submit s valid p).0.completion n ≡ some d
unfolding submit require_current enqueue latch
submit_keeps s valid p n d h = ground (
  arith,
  worker_ready_keeps s n d,
  reject_queued_keeps (worker_ready s).0.queue Code.latched_estop (worker_ready s).0.completion n d,
)

settle_keeps :
    (s : Sequencer) (raised : Bool) (n : ℕ) (d : Completion)
    → s.completion n ≡ some d
    → (settle s raised).completion n ≡ some d
unfolding settle
settle_keeps s raised n d h = elim (Phase-cases s.phase) [
  | inl (r, e) ↦ ground (
    arith,
    complete_keeps s.completion r.number n Completion.command_error d h,
    complete_keeps s.completion r.number n Completion.value d h,
    reject_queued_keeps s.queue Code.unsafe_state
        (complete s.completion r.number Completion.command_error) n d,
  )
  | inr (inl e) ↦ ground arith
  | inr (inr (r, e)) ↦ ground arith
]

List-cases :
    (queue : List Receipt)
    → (queue ≡ []) ⊎ ((r : Receipt) × (rest : List Receipt) × (queue ≡ r ∷ rest))
List-cases [] = inl refl
List-cases (r ∷ rest) = inr (r, rest, refl)

take_keeps :
    (s : Sequencer) (n : ℕ) (d : Completion)
    → s.completion n ≡ some d
    → (take s).completion n ≡ some d
unfolding take
take_keeps s n d h = elim (List-cases s.queue) [
  | inl e ↦ ground arith
  | inr (r, rest, e) ↦
      ground (arith, complete_keeps s.completion r.number n (rejected Code.latched_estop) d h)
]

step_keeps :
    (s : Sequencer) (a : Action) (n : ℕ) (d : Completion)
    → s.completion n ≡ some d
    → (step s a).completion n ≡ some d
unfolding step start issue is_current begin_quiesce begin_close release expire latch
step_keeps s (starts spawn) n d h = ground (arith, worker_ready_keeps s n d)
step_keeps s issues n d h = ground (arith, worker_ready_keeps s n d)
step_keeps s (submits valid p) n d h = submit_keeps s valid p n d h
step_keeps s (asks p) n d h = ground (arith, worker_ready_keeps s n d)
step_keeps s (expires number) n d h = ground (
  arith,
  complete_keeps s.completion number n (rejected Code.timeout) d h,
  reject_queued_keeps s.queue Code.latched_estop
      (complete s.completion number (rejected Code.timeout)) n d,
)
step_keeps s quiesces n d h = reject_queued_keeps s.queue Code.latched_estop s.completion n d h
step_keeps s closes n d h =
    ground (arith, reject_queued_keeps s.queue Code.unsafe_state s.completion n d h)
step_keeps s takes n d h = ground (arith, take_keeps s n d)
step_keeps s (settles raised) n d h = ground (arith, settle_keeps s raised n d)
step_keeps s releases n d h = ground arith
step_keeps s dies n d h = ground arith

-- An answer is final: whatever a receipt was first completed with, no later action changes it.
pub answer_final :
    (s : Sequencer) (actions : List Action) (n : ℕ) (d : Completion)
    → s.completion n ≡ some d
    → (run s actions).completion n ≡ some d
unfolding run
answer_final s [] n d h = h
answer_final s (a ∷ actions) n d h = answer_final (step s a) actions n d (step_keeps s a n d h)

-- When an emergency stop reports quiescence, every command ever accepted has its answer, and no
-- command is in flight then or later.
pub quiesced_is_quiet :
    (identity nonce : ℕ) (before after : List Action) (accepted : Bool) (n : ℕ)
    → (run (init identity nonce) before).latched ≡ true
    → (quiesce_result (run (init identity nonce) before) accepted).activation_quiesced ≡ true
    → n < (run (init identity nonce) before).next_number
    → (is_some ((run (init identity nonce) before).completion n) ≡ true)
      × ((run (run (init identity nonce) before) after).in_flight ≡ none)
unfolding quiesce_result queued
quiesced_is_quiet identity nonce before after accepted n latched quiet given =
    let s = run (init identity nonce) before in
    let v = run-init-Inv identity nonce before in
    let (_, _, nothing) = latched_starts_nothing s after v latched in
    (ground (arith, no_receipt_lost identity nonce before n, v.emptied, v.flying), ground arith)
