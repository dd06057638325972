-- ===== src/Audit/Worker/Actions/Examples.antt =====
-- A worker that writes one record.
use ros2_agent_workflow.Common.{
  ◌≡◌, ◌≤◌, length, ◌⊎◌, refl, true, false, List, [], ◌∷◌, none, some, arith,
}
use ros2_agent_workflow.Audit.Worker.{
  AppendWorker, runs, appending, init, start, spawned, append, get, receive, begin_append,
  finish_append, answer,
}
use ros2_agent_workflow.Audit.Worker.Actions.{Action, step, run, by_thread}
use ros2_agent_workflow.Audit.Worker.Actions.Answered.{accounted, no_append_lost}
use ros2_agent_workflow.Audit.Worker.Actions.Room.{queue_bounded}
use ros2_agent_workflow.Audit.Worker.Actions.Closed.{success_written}
use ros2_agent_workflow.Audit.Worker.Actions.Action.{starts, appends, gets, begins, finishes}

abbrev accept : List Action
accept = starts runs ∷ appends ∷ []

no_append_lost_example : accounted (run init accept) 0 ≡ true
unfolding run step start spawned append init
no_append_lost_example = no_append_lost accept 0 (omega arith)

abbrev busy : AppendWorker
busy = run init (starts runs ∷ appends ∷ gets ∷ begins ∷ [])

success_written_example :
    (busy.answers 0 ≡ some none) ⊎ ((finishes false ≡ finishes false) × (busy.phase ≡ appending 0))
unfolding run step by_thread start spawned append get receive begin_append finish_append answer init
success_written_example = success_written busy (finishes false) 0 refl

queue_bounded_example :
    (length busy.queue ≤ 257) × ((busy.sentinel_queued ≡ true) ⊎ (length busy.queue ≤ 256))
queue_bounded_example = queue_bounded (starts runs ∷ appends ∷ gets ∷ begins ∷ [])
