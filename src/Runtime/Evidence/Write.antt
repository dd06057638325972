-- ===== src/Runtime/Evidence/Write.antt =====
-- `EvidenceStore.write_json` of agent_ros/runtime/evidence.py, up to the reference that it then gets.
pub mod Atomic
use ros2_agent_workflow.Common.{
  ℕ, zero, suc, Bool, true, false, ◌&&◌, ◌||◌, not, List, [], ◌∷◌, ◌++◌, take, Option, none, some,
  if◌then◌else◌, drop,
}
use ros2_agent_workflow.Runtime.Evidence.{Name, valid_id}

-- What the system answers: whether root and temporary file open, how many bytes each `write` takes
-- (`none` where it raises OSError), and whether the other calls end without an error.
pub record WriteCalls : Type 0 where
  pub opens : Bool
  pub writes : List (Option ℕ)
  pub fsyncs : Bool
  pub closes : Bool
  pub replaces : Bool
  pub root_fsyncs : Bool
  pub root_closes : Bool

pub data Written : Type 0 where
  wrote_all failed_write unfinished_write : Written

-- The loop, with the bytes that are left, and those that the temporary file has: how it ends, and
-- what the file has then.
pub write_loop : List (Option ℕ) → List ℕ → List ℕ → Written × List ℕ
write_loop answers [] file = (wrote_all, file)
write_loop [] (b ∷ left) file = (unfinished_write, file)
write_loop (none ∷ answers) (b ∷ left) file = (failed_write, file)
write_loop (some zero ∷ answers) (b ∷ left) file = (failed_write, file)
write_loop (some (suc n) ∷ answers) (b ∷ left) file =
    write_loop answers (drop n left) (file ++ b ∷ take n left)

pub data Verdict : Type 0 where
  stored evidence_error unfinished : Verdict

-- The call of `os.replace` and what follows it: what the destination has, and the verdict.
replaced : WriteCalls → Option (List ℕ) → List ℕ → Option (List ℕ) × Verdict
replaced c old file =
    if not c.replaces
    then (old, evidence_error)
    else (some file, if c.root_fsyncs && c.root_closes then stored else evidence_error)

-- What follows the loop, by its end.
written_file : WriteCalls → Option (List ℕ) → Written × List ℕ → Option (List ℕ) × Verdict
unfolding replaced
written_file c old (wrote_all, file) =
    if not (c.fsyncs && c.closes) then (old, evidence_error) else replaced c old file
written_file c old (failed_write, file) = (old, evidence_error)
written_file c old (unfinished_write, file) = (old, unfinished)

pub write_bytes : WriteCalls → Option (List ℕ) → List ℕ → Option (List ℕ) × Verdict
unfolding write_loop written_file
write_bytes c old encoded = written_file c old (write_loop c.writes encoded [])

-- `old` is what the destination has before; `encoded` is `none` where the value is no object or list,
-- or has no JSON text.
pub write_json : WriteCalls → Name → Option (List ℕ) → Option (List ℕ) → Option (List ℕ) × Verdict
unfolding write_bytes valid_id
write_json c report_id old none = (old, evidence_error)
write_json c report_id old (some encoded) =
    if not (valid_id report_id) || not c.opens
    then (old, evidence_error)
    else write_bytes c old encoded
