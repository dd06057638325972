-- ===== src/Runtime/Evidence/Read/Ends.antt =====
-- The loop of `read` (agent_ros/runtime/evidence.py).
use ros2_agent_workflow.Common.{
  ℕ, zero, suc, ◌-◌, ◌≤◌, ◌≡◌, ◌≢◌, refl, inl, inr, min, Bool, true, false, List, [], ◌∷◌, Option,
  none, some, arith, length, is_empty, take, Option-cases, Bool-cases,
}
use ros2_agent_workflow.Runtime.Evidence.{FileInfo, EvidenceReference}
use ros2_agent_workflow.Runtime.Evidence.Read.{
  Calls, ReadEnd, read_bytes, evidence_error, unfinished_read, finish_read, read_all, read_file,
  closed, more, read,
}

is_empty-length : (xs : List ℕ) → is_empty xs ≡ false → 1 ≤ length xs
is_empty-length [] e = cc
is_empty-length (x ∷ xs) e = omega arith

more-unfinished :
    (chunk : List ℕ) (e : ReadEnd) → more chunk e ≡ unfinished_read → e ≡ unfinished_read
more-unfinished chunk (read_bytes bytes) h = cc
more-unfinished chunk evidence_error h = cc
more-unfinished chunk unfinished_read h = refl

finish_read_ends :
    (r : EvidenceReference) (before : FileInfo) (after : Option FileInfo)
    (reads : List (Option (List ℕ)))
    → 1 ≤ length reads
    → finish_read r before after reads ≢ unfinished_read
unfolding finish_read
finish_read_ends r before after [] l h = omega (arith, l)
finish_read_ends r before after (none ∷ reads) l h = cc
finish_read_ends r before none (some given ∷ reads) l h = ground (arith, h)
finish_read_ends r before (some info) (some given ∷ reads) l h = ground (arith, h)

read_all_ends :
    (r : EvidenceReference) (before : FileInfo) (after : Option FileInfo) (remaining : ℕ)
    (reads : List (Option (List ℕ)))
    → suc remaining ≤ length reads
    → read_all r before after remaining reads ≢ unfinished_read
unfolding read_all
read_all_ends r before after zero reads l h = finish_read_ends r before after reads l h
read_all_ends r before after (suc remaining) [] l h = omega (arith, l)
read_all_ends r before after (suc remaining) (none ∷ reads) l h = cc
read_all_ends r before after (suc remaining) (some given ∷ reads) l h =
    let chunk = take (min 65536 (suc remaining)) given in
    let left = suc remaining - length chunk in
    elim (Bool-cases (is_empty chunk)) [
      | inl e ↦ ground (arith, h, e)
      | inr e ↦
          read_all_ends r before after left reads
            (let n : 1 ≤ length chunk = is_empty-length chunk e in omega (arith, l, n))
            (more-unfinished chunk (read_all r before after left reads) (ground (arith, h, e)))
    ]

unfinished-inv :
    (r : EvidenceReference) (max_bytes : ℕ) (c : Calls)
    → read r max_bytes c ≡ unfinished_read
    → closed c.closes (read_file r c) ≡ unfinished_read
unfolding read
unfinished-inv r max_bytes c h = ground (arith, h)

read_file_ends :
    (r : EvidenceReference) (c : Calls)
    → suc r.size ≤ length c.reads
    → read_file r c ≢ unfinished_read
unfolding read_file
read_file_ends r c l h = elim (Option-cases c.before) [
  | inl e ↦ ground (arith, h, e)
  | inr (before, e) ↦ ground (arith, h, e, read_all_ends r before c.after r.size c.reads l)
]

closed-unfinished :
    (closes : Bool) (e : ReadEnd) → closed closes e ≡ unfinished_read → e ≡ unfinished_read
closed-unfinished true (read_bytes bytes) h = cc
closed-unfinished false (read_bytes bytes) h = cc
closed-unfinished closes evidence_error h = cc
closed-unfinished closes unfinished_read h = refl

-- `read` ends: one byte at each call of the system is enough, so that with one answer more than the
-- report has bytes it returns or raises.
pub read_ends :
    (r : EvidenceReference) (max_bytes : ℕ) (c : Calls)
    → suc r.size ≤ length c.reads
    → read r max_bytes c ≢ unfinished_read
read_ends r max_bytes c l h =
    read_file_ends r c l
      (closed-unfinished c.closes (read_file r c) (unfinished-inv r max_bytes c h))
