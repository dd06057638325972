-- ===== src/Audit/Worker/Actions/Room.antt =====
-- The bounds of the queue of the append worker
-- (agent_ros/runtime/audit.py).
use ros2_agent_workflow.Common.{
  ℕ, suc, ◌+◌, ◌≤◌, ◌≡◌, ◌⊎◌, refl, inl, inr, Bool, true, false, List, [], ◌∷◌, ◌++◌, Option, none,
  some, arith, length, length-append, if◌then◌else◌,
}
use ros2_agent_workflow.Audit.Worker.{
  AppendWorker, Phase, waiting, stopping, got, appending, timed_out, writer_raised,
  audit_queue_capacity, init, answer, has_sentinel, request_stop, fail, spawned, start, append,
  expire, begin_close, receive, get, begin_append, finish_append, leave,
}
use ros2_agent_workflow.Audit.Worker.Actions.{Action, by_thread, step, run}
use ros2_agent_workflow.Audit.Worker.Actions.Action.{
  starts, appends, expires, closes, gets, begins, finishes, leaves,
}

sentinels : List (Option ℕ) → ℕ
sentinels [] = 0
sentinels (none ∷ queue) = suc (sentinels queue)
sentinels (some k ∷ queue) = sentinels queue

abbrev taken : Phase → ℕ
taken stopping = 1
taken _ = 0

abbrev flag : Bool → ℕ
flag true = 1
flag false = 0

record Inv (w : AppendWorker) : Type 0 where
  marked : sentinels w.queue + taken w.phase ≡ flag w.sentinel_queued
  bounded : length w.queue ≤ audit_queue_capacity + sentinels w.queue

sentinels-snoc :
    (queue : List (Option ℕ)) (e : Option ℕ)
    → sentinels (queue ++ e ∷ []) ≡ sentinels queue + sentinels (e ∷ [])
unfolding sentinels
sentinels-snoc [] e = omega arith
sentinels-snoc (none ∷ queue) e = omega (arith, sentinels-snoc queue e)
sentinels-snoc (some k ∷ queue) e = omega (arith, sentinels-snoc queue e)

has_sentinel-sentinels :
    (queue : List (Option ℕ)) → (has_sentinel queue ≡ false) ⊎ (1 ≤ sentinels queue)
unfolding sentinels has_sentinel
has_sentinel-sentinels [] = inl refl
has_sentinel-sentinels (none ∷ queue) = inr (omega arith)
has_sentinel-sentinels (some k ∷ queue) = has_sentinel-sentinels queue

sentinels-has_sentinel :
    (queue : List (Option ℕ)) → (has_sentinel queue ≡ true) ⊎ (sentinels queue ≡ 0)
unfolding sentinels has_sentinel
sentinels-has_sentinel [] = inr refl
sentinels-has_sentinel (none ∷ queue) = inl refl
sentinels-has_sentinel (some k ∷ queue) = sentinels-has_sentinel queue

request_stop-Inv : (w : AppendWorker) → Inv w → Inv (request_stop w)
unfolding request_stop sentinels
request_stop-Inv w v =
    ground
      (arith, sentinels-snoc w.queue none, length-append w.queue (none ∷ []), v.marked, v.bounded)

fail-Inv : (w : AppendWorker) → Inv w → Inv (fail w)
unfolding fail request_stop sentinels
fail-Inv w v =
    ground (arith, has_sentinel-sentinels w.queue, sentinels-has_sentinel w.queue, v.marked)

append-Inv : (w : AppendWorker) → Inv w → Inv (append w).0
unfolding append sentinels
append-Inv w v = ground (
  arith,
  fail-Inv w v,
  sentinels-snoc w.queue (some w.next_number),
  length-append w.queue (some w.next_number ∷ []),
  v.marked,
  v.bounded,
)

pub Phase-cases :
    (p : Phase)
    → (p ≡ waiting) ⊎ (p ≡ stopping) ⊎ ((k : ℕ) × (p ≡ got k)) ⊎ ((k : ℕ) × (p ≡ appending k))
Phase-cases waiting = inl refl
Phase-cases stopping = inr (inl refl)
Phase-cases (got k) = inr (inr (inl (k, refl)))
Phase-cases (appending k) = inr (inr (inr (k, refl)))

receive-Inv :
    (w : AppendWorker) (queue : List (Option ℕ))
    → sentinels queue ≡ flag w.sentinel_queued
    → length queue ≤ audit_queue_capacity + sentinels queue
    → Inv w
    → Inv (receive w queue)
unfolding receive sentinels
receive-Inv w [] m b v = v
receive-Inv w (none ∷ queue) m b v = record {
  marked = omega (arith, m);
  bounded = omega (arith, b);
}
receive-Inv w (some k ∷ queue) m b v = record {
  marked = omega (arith, m);
  bounded = omega (arith, b);
}

get-Inv : (w : AppendWorker) → Inv w → Inv (get w)
unfolding get
get-Inv w v = elim (Phase-cases w.phase) [
  | inl e ↦
      simp (get, e)
        (receive-Inv w w.queue
          (let m : sentinels w.queue + 0 ≡ flag w.sentinel_queued = rw (e) at v.marked in
            omega (arith, m))
          v.bounded v)
  | inr (inl e) ↦ simp (get, e) v
  | inr (inr (inl (k, e))) ↦ simp (get, e) v
  | inr (inr (inr (k, e))) ↦ simp (get, e) v
]

finish_append-Inv : (w : AppendWorker) (raised : Bool) → Inv w → Inv (finish_append w raised)
unfolding finish_append
finish_append-Inv w raised v = elim (Phase-cases w.phase) [
  | inr (inr (inr (k, e))) ↦
      let a = if raised then some writer_raised else none in
      let v' : Inv (record w { answers = answer w.answers k a; phase = waiting }) = record {
        marked = ground (arith, e, v.marked);
        bounded = v.bounded;
      } in
      let f = fail-Inv (record w { answers = answer w.answers k a; phase = waiting }) v' in
      ground (arith, f.marked, f.bounded, v'.marked, v'.bounded, e)
  | inl e ↦ simp (finish_append, e) v
  | inr (inl e) ↦ simp (finish_append, e) v
  | inr (inr (inl (k, e))) ↦ simp (finish_append, e) v
]

step-Inv : (w : AppendWorker) (a : Action) → Inv w → Inv (step w a)
unfolding step by_thread start spawned expire begin_close begin_append leave
step-Inv w (starts spawn) v = ground (arith, v.marked, v.bounded)
step-Inv w appends v = append-Inv w v
step-Inv w (expires k) v = ground (
  arith,
  v,
  fail-Inv (record w { answers = answer w.answers k (some timed_out) })
      (record { marked = v.marked; bounded = v.bounded }),
)
step-Inv w closes v = ground (
  arith,
  v.marked,
  v.bounded,
  request_stop-Inv (record w { accepting = false })
      (record { marked = v.marked; bounded = v.bounded }),
)
step-Inv w gets v = ground (arith, v, get-Inv w v)
step-Inv w begins v = ground (arith, v.marked, v.bounded)
step-Inv w (finishes raised) v = ground (arith, v, finish_append-Inv w raised v)
step-Inv w leaves v = ground (arith, v.marked, v.bounded)

run-Inv : (w : AppendWorker) (actions : List Action) → Inv w → Inv (run w actions)
unfolding run
run-Inv w [] v = v
run-Inv w (a ∷ actions) v = run-Inv (step w a) actions (step-Inv w a v)

-- After any interleaving of callers and worker the queue of the appends holds 257 entries at most, and
-- 256 at most unless its terminal marker is noted as queued.
pub queue_bounded :
    (actions : List Action)
    → (length (run init actions).queue ≤ 257)
      × (((run init actions).sentinel_queued ≡ true) ⊎ (length (run init actions).queue ≤ 256))
unfolding init sentinels
queue_bounded actions =
    let v = run-Inv init actions (record { marked = omega arith; bounded = omega arith }) in
    ground (arith, v.marked, v.bounded)
