-- ===== src/Runtime/Evidence/Read/Examples.antt =====
-- A directory with two reports, one of which is read and written again.
use ros2_agent_workflow.Common.{
  ℕ, ◌≡◌, ◌≢◌, ◌⊎◌, refl, true, [], ◌∷◌, none, some, arith, if◌then◌else◌,
}
use ros2_agent_workflow.Runtime.Evidence.{
  Name, same_name, less_name, valid_id, last_point, has_slash, component, stem_suffix, json,
  json_suffix, png_suffix, media_type_of, FileInfo, EvidenceReference, Directory, named_well,
  stat_name, candidates, later, newest, reference_of, newest_reference, get_newest,
}
use ros2_agent_workflow.Runtime.Evidence.Found.{Newest, get_newest-Newest}
use ros2_agent_workflow.Runtime.Evidence.Read.{
  Calls, read_bytes, matches, same_snapshot, finish_read, read_all, read_file, named_as, read,
}
use ros2_agent_workflow.Runtime.Evidence.Read.Confined.{Sealed, read-Sealed}
use ros2_agent_workflow.Runtime.Evidence.Write.{WriteCalls, evidence_error, unfinished, write_json}
use ros2_agent_workflow.Runtime.Evidence.Write.Atomic.{write_atomic}

-- The reports `a` and `b`.
abbrev a_json : Name
a_json = b'a' ∷ b'.' ∷ b'j' ∷ b's' ∷ b'o' ∷ b'n' ∷ []

abbrev b_json : Name
b_json = b'b' ∷ b'.' ∷ b'j' ∷ b's' ∷ b'o' ∷ b'n' ∷ []

abbrev file : ℕ → FileInfo
file time = record { regular = true; device = 1; inode = time; size = 3; mtime_ns = time }

abbrev reports : Directory
reports = record {
  listing = some (a_json ∷ b_json ∷ []);
  stat = λ name. if same_name name a_json then some (file 20) else some (file 10);
}

abbrev newest_report : EvidenceReference
newest_report = record {
  report_id = b'a' ∷ [];
  relative_path = a_json;
  media_type = json;
  size = 3;
  device = 1;
  inode = 20;
  mtime_ns = 20;
}

report_found : get_newest reports ≡ some newest_report
unfolding get_newest newest_reference reference_of newest later less_name candidates stat_name
    named_well valid_id stem_suffix last_point media_type_of json_suffix png_suffix same_name
report_found = refl

get_newest-Newest_example : Newest reports newest_report
get_newest-Newest_example = get_newest-Newest reports newest_report report_found

abbrev calls : Calls
calls = record {
  opens = true;
  before = some (file 20);
  reads = some (7 ∷ 8 ∷ []) ∷ some (9 ∷ []) ∷ some [] ∷ some [] ∷ [];
  after = some (file 20);
  closes = true;
}

report_read : read newest_report 100 calls ≡ read_bytes (7 ∷ 8 ∷ 9 ∷ [])
unfolding read read_file read_all finish_read matches same_snapshot named_as valid_id component
    has_slash stem_suffix last_point media_type_of json_suffix png_suffix same_name
report_read = refl

read-Sealed_example : Sealed newest_report 100 calls (7 ∷ 8 ∷ 9 ∷ [])
read-Sealed_example = read-Sealed newest_report 100 calls (7 ∷ 8 ∷ 9 ∷ []) report_read

abbrev write_calls : WriteCalls
write_calls = record {
  opens = true;
  writes = some 2 ∷ some 1 ∷ [];
  fsyncs = true;
  closes = true;
  replaces = true;
  root_fsyncs = true;
  root_closes = true;
}

write_atomic_example :
    let r = write_json write_calls (b'a' ∷ []) none (some (1 ∷ 2 ∷ [])) in
    ((r.0 ≡ none) × (r.1 ≡ evidence_error))
    ⊎ ((r.0 ≡ some (1 ∷ 2 ∷ [])) × (r.1 ≢ unfinished) × (valid_id (b'a' ∷ []) ≡ true))
write_atomic_example = write_atomic write_calls (b'a' ∷ []) none (1 ∷ 2 ∷ []) (omega arith)
