-- ===== src/Audit/Worker/Actions/Answered.antt =====
-- No append is lost (agent_ros/runtime/audit.py).
use ros2_agent_workflow.Common.{
  ℕ, ◌≤◌, ◌<◌, ◌≡◌, ◌⊎◌, inl, inr, Bool, true, false, ◌||◌, ◌==◌, List, [], ◌∷◌, ◌++◌, Option, none,
  some, arith, is_some,
}
use ros2_agent_workflow.Audit.Worker.{
  AppendWorker, Answer, Answers, Phase, waiting, got, appending, write_failed, timed_out,
  writer_raised, init, answer, reject_all, request_stop, fail, spawned, start, append, expire,
  begin_close, receive, get, begin_append, finish_append, leave,
}
use ros2_agent_workflow.Audit.Worker.Actions.{Action, by_thread, step, run}
use ros2_agent_workflow.Audit.Worker.Actions.Room.{Phase-cases}
use ros2_agent_workflow.Audit.Worker.Actions.Action.{
  starts, appends, expires, closes, gets, begins, finishes, leaves,
}

pub queued : ℕ → List (Option ℕ) → Bool
queued n [] = false
queued n (none ∷ queue) = queued n queue
queued n (some k ∷ queue) = n == k || queued n queue

abbrev pub in_hand : ℕ → Phase → Bool
in_hand n (got k) = n == k
in_hand n (appending k) = n == k
in_hand n _ = false

-- The receipt is done, waits in the queue, or is with the worker.
abbrev pub accounted : AppendWorker → ℕ → Bool
accounted w n = is_some (w.answers n) || queued n w.queue || in_hand n w.phase

is_some-answer :
    (answers : Answers) (k n : ℕ) (a : Answer)
    → is_some (answer answers k a n) ≡ (is_some (answers n) || n == k)
unfolding answer
is_some-answer answers k n a = ground arith

is_some-reject_all :
    (queue : List (Option ℕ)) (answers : Answers) (n : ℕ)
    → is_some (reject_all queue answers n) ≡ (is_some (answers n) || queued n queue)
unfolding reject_all queued
is_some-reject_all [] answers n = ground arith
is_some-reject_all (none ∷ queue) answers n = is_some-reject_all queue answers n
is_some-reject_all (some k ∷ queue) answers n = ground (
  arith,
  is_some-reject_all queue (answer answers k (some write_failed)) n,
  is_some-answer answers k n (some write_failed),
)

queued-snoc :
    (n : ℕ) (queue : List (Option ℕ)) (e : Option ℕ)
    → queued n (queue ++ e ∷ []) ≡ (queued n queue || queued n (e ∷ []))
unfolding queued
queued-snoc n [] e = ground arith
queued-snoc n (none ∷ queue) e = queued-snoc n queue e
queued-snoc n (some k ∷ queue) e = ground (arith, queued-snoc n queue e)

abbrev Settled : AppendWorker → ℕ → Type 0
Settled w n = (accounted w n ≡ true) ⊎ (w.next_number ≤ n)

request_stop-Settled : (w : AppendWorker) (n : ℕ) → Settled w n → Settled (request_stop w) n
unfolding request_stop queued
request_stop-Settled w n h = ground (arith, queued-snoc n w.queue none)

fail-Settled : (w : AppendWorker) (n : ℕ) → Settled w n → Settled (fail w) n
unfolding fail request_stop queued
fail-Settled w n h = ground (arith, is_some-reject_all w.queue w.answers n)

append-Settled : (w : AppendWorker) (n : ℕ) → Settled w n → Settled (append w).0 n
unfolding append queued
append-Settled w n h =
    ground (arith, fail-Settled w n h, queued-snoc n w.queue (some w.next_number))

expire-Settled : (w : AppendWorker) (k n : ℕ) → Settled w n → Settled (expire w k) n
unfolding expire fail request_stop queued
expire-Settled w k n h = ground (
  arith,
  is_some-answer w.answers k n (some timed_out),
  is_some-reject_all w.queue (answer w.answers k (some timed_out)) n,
)

receive-Settled :
    (w : AppendWorker) (queue : List (Option ℕ)) (n : ℕ)
    → Settled (record w { queue = queue; phase = waiting }) n
    → w.phase ≡ waiting
    → Settled (receive w queue) n
unfolding receive queued
receive-Settled w [] n h e = ground (arith, h, e)
receive-Settled w (none ∷ queue) n h e = ground (arith, h)
receive-Settled w (some k ∷ queue) n h e = ground (arith, h)

get-Settled : (w : AppendWorker) (n : ℕ) → Settled w n → Settled (get w) n
unfolding get
get-Settled w n h = elim (Phase-cases w.phase) [
  | inl e ↦ ground (arith, e, h, receive-Settled w w.queue n)
  | inr (inl e) ↦ ground (arith, e, h)
  | inr (inr (inl (k, e))) ↦ ground (arith, e, h)
  | inr (inr (inr (k, e))) ↦ ground (arith, e, h)
]

finish_append-Settled :
    (w : AppendWorker) (raised : Bool) (n : ℕ) → Settled w n → Settled (finish_append w raised) n
unfolding finish_append fail request_stop queued
finish_append-Settled w raised n h = elim (Phase-cases w.phase) [
  | inr (inr (inr (k, e))) ↦ ground (
    arith,
    e,
    is_some-answer w.answers k n (some writer_raised),
    is_some-answer w.answers k n none,
    is_some-reject_all w.queue (answer w.answers k (some writer_raised)) n,
  )
  | inl e ↦ ground (arith, e, h)
  | inr (inl e) ↦ ground (arith, e, h)
  | inr (inr (inl (k, e))) ↦ ground (arith, e, h)
]

step-Settled : (w : AppendWorker) (a : Action) (n : ℕ) → Settled w n → Settled (step w a) n
unfolding step by_thread start spawned begin_close begin_append leave
step-Settled w (starts spawn) n h = ground arith
step-Settled w appends n h = append-Settled w n h
step-Settled w (expires k) n h = expire-Settled w k n h
step-Settled w closes n h = ground (arith, request_stop-Settled (record w { accepting = false }) n)
step-Settled w gets n h = ground (arith, get-Settled w n)
step-Settled w begins n h = ground arith
step-Settled w (finishes raised) n h = ground (arith, finish_append-Settled w raised n)
step-Settled w leaves n h = ground arith

run-Settled :
    (w : AppendWorker) (actions : List Action) (n : ℕ) → Settled w n → Settled (run w actions) n
unfolding run
run-Settled w [] n h = h
run-Settled w (a ∷ actions) n h = run-Settled (step w a) actions n (step-Settled w a n h)

-- No append is lost: after any interleaving, every receipt that `append` has made is done, waits in
-- the queue, or is with the worker.
pub no_append_lost :
    (actions : List Action) (n : ℕ)
    → n < (run init actions).next_number
    → accounted (run init actions) n ≡ true
unfolding init
no_append_lost actions n h = ground (arith, run-Settled init actions n (inr (omega arith)))
