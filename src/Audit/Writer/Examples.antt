-- ===== src/Audit/Writer/Examples.antt =====
-- Short and interrupted writes, and a failed write that is rolled back.
use ros2_agent_workflow.Common.{ℕ, ◌≡◌, refl, true, false, List, [], ◌∷◌, some, arith}
use ros2_agent_workflow.Audit.Writer.{
  Writer, Calls, WriteAnswer, interrupted, wrote, os_error, write_all, complete, append, AddedOrNot,
  append_atomic,
}

abbrev answers : List WriteAnswer
answers = wrote 2 ∷ interrupted ∷ wrote 1 ∷ []

answers-complete : write_all answers (1 ∷ 2 ∷ 3 ∷ []) ≡ complete (1 ∷ 2 ∷ 3 ∷ [])
unfolding write_all
answers-complete = refl

abbrev sent : List ℕ
sent = 1 ∷ 2 ∷ 3 ∷ []

-- The second write fails, and the rollback works.
abbrev disk_full : Calls
disk_full = record {
  opens = true;
  chmods = true;
  writes = wrote 1 ∷ os_error ∷ os_error ∷ [];
  fsyncs = true;
  truncates = true;
  rollback_fsyncs = true;
  closes = true;
}

abbrev log : Writer
log = record { file = 8 ∷ 9 ∷ []; integrity_compromised = false }

append_atomic_example :
    AddedOrNot log (1 ∷ 2 ∷ 3 ∷ []) (append log disk_full (some (1 ∷ 2 ∷ 3 ∷ [])))
append_atomic_example = append_atomic log disk_full (1 ∷ 2 ∷ 3 ∷ []) refl (omega arith)
