-- ===== src/Sequencer/Actions/Examples.antt =====
-- Callers, a worker and an emergency stop on one sequencer.
use ros2_agent_workflow.Common.{
  ◌≡◌, refl, true, false, List, [], ◌∷◌, ◌++◌, none, some, arith, is_some, ok,
}
use ros2_agent_workflow.Sequencer.{
  init, permit, Spawn, issue, ready, start, spawned, submit, enqueue, require_current, owned,
  worker_ready, take, take_receipt, settle, settle_receipt, release, begin_quiesce, latch,
  reject_queued, complete, quiesce_result, rejected, latched_estop,
}
use ros2_agent_workflow.Sequencer.Actions.{Action, step, run, by_worker}
use ros2_agent_workflow.Sequencer.Actions.Action.{
  starts, submits, quiesces, takes, settles, releases,
}
use ros2_agent_workflow.Sequencer.Actions.Invariant.{Inv, run-init-Inv}
use ros2_agent_workflow.Sequencer.Actions.Receipts.{accounted, no_receipt_lost, quiesced_is_quiet}

-- Three commands, of which the first runs to its end, the second is in flight and the third waits.
abbrev working : List Action
working =
    starts Spawn.lives
    ∷ submits true (permit 7 9 0)
    ∷ submits true (permit 7 9 0)
    ∷ takes
    ∷ settles false
    ∷ releases
    ∷ submits true (permit 7 9 0)
    ∷ takes
    ∷ []

-- Then an emergency stop, and the second command ends.
abbrev stopping : List Action
stopping = working ++ quiesces ∷ settles false ∷ releases ∷ []

run-init-Inv_example : Inv (run (init 7 9) stopping)
run-init-Inv_example = run-init-Inv 7 9 stopping

three_given : (run (init 7 9) stopping).next_number ≡ 3
unfolding run step by_worker init issue ready start spawned submit enqueue require_current owned
    worker_ready take take_receipt settle settle_receipt release begin_quiesce latch reject_queued
    complete
three_given = refl

no_receipt_lost_example : accounted (run (init 7 9) stopping) 2 ≡ true
no_receipt_lost_example = no_receipt_lost 7 9 stopping 2 (omega (arith, three_given))

stopping_latched : (run (init 7 9) stopping).latched ≡ true
unfolding run step by_worker init issue ready start spawned submit enqueue require_current owned
    worker_ready take take_receipt settle settle_receipt release begin_quiesce latch reject_queued
    complete
stopping_latched = refl

stopping_quiet : (quiesce_result (run (init 7 9) stopping) true).activation_quiesced ≡ true
unfolding run step by_worker init issue ready start spawned submit enqueue require_current owned
    worker_ready take take_receipt settle settle_receipt release begin_quiesce latch reject_queued
    complete quiesce_result
stopping_quiet = refl

quiesced_is_quiet_example :
    (is_some ((run (init 7 9) stopping).completion 2) ≡ true)
    × ((run (run (init 7 9) stopping) (starts Spawn.lives ∷ takes ∷ [])).in_flight ≡ none)
quiesced_is_quiet_example =
    quiesced_is_quiet 7 9 stopping (starts Spawn.lives ∷ takes ∷ []) true 2 stopping_latched
      stopping_quiet (omega (arith, three_given))

third_rejected : (run (init 7 9) stopping).completion 2 ≡ some (rejected latched_estop)
unfolding run step by_worker init issue ready start spawned submit enqueue require_current owned
    worker_ready take take_receipt settle settle_receipt release begin_quiesce latch reject_queued
    complete
third_rejected = refl

issued_early : (issue (init 7 9)).1 ≡ ok (permit 7 9 0)
unfolding run step by_worker init issue ready start spawned submit enqueue require_current owned
    worker_ready take take_receipt settle settle_receipt release begin_quiesce latch reject_queued
    complete
issued_early = refl

working_unlatched : (run (issue (init 7 9)).0 working).latched ≡ false
unfolding run step by_worker init issue ready start spawned submit enqueue require_current owned
    worker_ready take take_receipt settle settle_receipt release begin_quiesce latch reject_queued
    complete
working_unlatched = refl
