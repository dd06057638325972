-- ===== src/Audit/Worker/Actions/Closed.antt =====
-- A failure closes the worker for good, and only a write answers an append well (agent_ros/runtime/audit.py).
use ros2_agent_workflow.Common.{
  ℕ, ◌≡◌, ◌⊎◌, refl, ◌∙◌, inl, inr, true, false, List, [], ◌∷◌, Option, none, some, arith, err,
}
use ros2_agent_workflow.Audit.Worker.{
  AppendWorker, Spawn, Answer, Answers, waiting, appending, write_failed, timed_out, writer_raised,
  answer, reject_all, request_stop, fail, spawned, start, append, expire, begin_close, receive, get,
  begin_append, finish_append, leave,
}
use ros2_agent_workflow.Audit.Worker.Actions.{Action, by_thread, step, run}
use ros2_agent_workflow.Audit.Worker.Actions.Room.{Phase-cases}
use ros2_agent_workflow.Audit.Worker.Actions.Action.{starts, appends, expires, gets, finishes}

receive-rest :
    (w : AppendWorker) (queue : List (Option ℕ))
    → ((receive w queue).failed ≡ w.failed)
      × ((receive w queue).next_number ≡ w.next_number)
      × ((receive w queue).answers ≡ w.answers)
unfolding receive
receive-rest w [] = (refl, refl, refl)
receive-rest w (none ∷ queue) = (refl, refl, refl)
receive-rest w (some k ∷ queue) = (refl, refl, refl)

step_failed :
    (w : AppendWorker) (a : Action)
    → w.failed ≡ true
    → ((step w a).failed ≡ true) × ((step w a).next_number ≡ w.next_number)
unfolding step by_thread start spawned append expire begin_close get begin_append finish_append
    leave fail request_stop
step_failed w (starts spawn) f = ground arith
step_failed w gets f = let (e, k, _) = receive-rest w w.queue in ground (arith, e, k, f)
step_failed w a f = ground arith

-- A failure closes the worker for good: whatever follows it, no receipt is made any more, and `start`
-- and `append` answer that the worker does not run.
pub failed_closes :
    (w : AppendWorker) (actions : List Action) (spawn : Spawn)
    → w.failed ≡ true
    → ((run w actions).next_number ≡ w.next_number)
      × ((start (run w actions) spawn).1 ≡ false)
      × ((append (run w actions)).1 ≡ err write_failed)
unfolding run start append
failed_closes w [] spawn f = ground arith
failed_closes w (a ∷ actions) spawn f =
    let (f', same) = step_failed w a f in
    let (k, g, h) = failed_closes (step w a) actions spawn f' in (k ∙ same, g, h)

reject_all-none :
    (queue : List (Option ℕ)) (answers : Answers) (n : ℕ)
    → reject_all queue answers n ≡ some none
    → answers n ≡ some none
unfolding reject_all answer
reject_all-none [] answers n h = h
reject_all-none (none ∷ queue) answers n h = reject_all-none queue answers n h
reject_all-none (some k ∷ queue) answers n h =
    ground (arith, reject_all-none queue (answer answers k (some write_failed)) n h)

fail-none : (w : AppendWorker) (n : ℕ) → (fail w).answers n ≡ some none → w.answers n ≡ some none
unfolding fail request_stop
fail-none w n h = ground (arith, reject_all-none w.queue w.answers n, h)

answer-none :
    (answers : Answers) (k n : ℕ) (a : Answer)
    → answer answers k a n ≡ some none
    → (answers n ≡ some none) ⊎ ((n ≡ k) × (a ≡ none))
unfolding answer
answer-none answers k n a h = ground (arith, h)

-- An `append` ends without an error only because of a call of the writer with its event that returned
-- without one: no other step answers it so.
pub success_written :
    (w : AppendWorker) (a : Action) (n : ℕ)
    → (step w a).answers n ≡ some none
    → (w.answers n ≡ some none) ⊎ ((a ≡ finishes false) × (w.phase ≡ appending n))
unfolding step by_thread start spawned append expire begin_close get begin_append finish_append
    leave request_stop
success_written w (starts spawn) n h = ground arith
success_written w appends n h = ground (arith, fail-none w n)
success_written w (expires k) n h = ground (
  arith,
  fail-none (record w { answers = answer w.answers k (some timed_out) }) n,
  answer-none w.answers k n (some timed_out),
)
success_written w gets n h = let (_, _, e) = receive-rest w w.queue in ground (arith, e, h)
success_written w (finishes true) n h = elim (Phase-cases w.phase) [
  | inr (inr (inr (k, e))) ↦ ground (
    arith,
    e,
    h,
    answer-none w.answers k n (some writer_raised),
    fail-none (record w { answers = answer w.answers k (some writer_raised); phase = waiting }) n,
  )
  | inl e ↦ ground (arith, e, h)
  | inr (inl e) ↦ ground (arith, e, h)
  | inr (inr (inl (k, e))) ↦ ground (arith, e, h)
]
success_written w (finishes false) n h = elim (Phase-cases w.phase) [
  | inr (inr (inr (k, e))) ↦ ground (arith, e, h, answer-none w.answers k n none)
  | inl e ↦ ground (arith, e, h)
  | inr (inl e) ↦ ground (arith, e, h)
  | inr (inr (inl (k, e))) ↦ ground (arith, e, h)
]
success_written w a n h = ground arith
