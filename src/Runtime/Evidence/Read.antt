-- ===== src/Runtime/Evidence/Read.antt =====
-- `EvidenceStore.read` of agent_ros/runtime/evidence.py.
pub mod Confined
pub mod Ends
mod Examples
use ros2_agent_workflow.Common.{
  ℕ, zero, suc, ◌-◌, min, Bool, true, false, ◌&&◌, ◌||◌, not, List, [], ◌∷◌, ◌++◌, Option, none,
  some, leb, ltb, ◌==◌, if◌then◌else◌, length, is_empty, take,
}
use ros2_agent_workflow.Runtime.Evidence.{
  Name, same_name, valid_id, component, stem_suffix, MediaType, json, png, media_type_of, FileInfo,
  EvidenceReference,
}

-- What the system answers: whether the root and the file open, the two `fstat`, the bytes that
-- follow at each `read` (`none` where it raises OSError), and whether the descriptors close.
pub record Calls : Type 0 where
  pub opens : Bool
  pub before : Option FileInfo
  pub reads : List (Option (List ℕ))
  pub after : Option FileInfo
  pub closes : Bool

pub data ReadEnd : Type 0 where
  read_bytes : List ℕ → ReadEnd
  evidence_error unfinished_read : ReadEnd

-- `_matches`.
pub matches : EvidenceReference → FileInfo → Bool
matches r i =
    r.device == i.device && r.inode == i.inode && r.size == i.size && r.mtime_ns == i.mtime_ns

-- `_same_snapshot`.
pub same_snapshot : FileInfo → FileInfo → Bool
same_snapshot a b =
    a.device == b.device && a.inode == b.inode && a.size == b.size && a.mtime_ns == b.mtime_ns

-- The part after the loop: no byte more, and the file is still the same.
pub finish_read : EvidenceReference → FileInfo → Option FileInfo → List (Option (List ℕ)) → ReadEnd
unfolding matches same_snapshot
finish_read r before after [] = unfinished_read
finish_read r before after (none ∷ reads) = evidence_error
finish_read r before after (some bytes ∷ reads) =
    if not (is_empty (take 1 bytes)) then evidence_error else elim after [
      | none ↦ evidence_error
      | some info ↦
          if not (matches r info) || not (same_snapshot before info)
          then evidence_error
          else read_bytes []
    ]

abbrev more : List ℕ → ReadEnd → ReadEnd
more chunk (read_bytes bytes) = read_bytes (chunk ++ bytes)
more chunk e = e

-- The loop, with `remaining` bytes to go. A `read` returns as many of the bytes that follow as it is
-- asked for at most.
pub read_all : EvidenceReference → FileInfo → Option FileInfo → ℕ → List (Option (List ℕ)) → ReadEnd
unfolding finish_read
read_all r before after zero reads = finish_read r before after reads
read_all r before after (suc remaining) [] = unfinished_read
read_all r before after (suc remaining) (none ∷ reads) = evidence_error
read_all r before after (suc remaining) (some bytes ∷ reads) =
    let chunk = take (min 65536 (suc remaining)) bytes in
    let rest = more chunk (read_all r before after (suc remaining - length chunk) reads) in
    if is_empty chunk then evidence_error else rest

-- A failing `close` replaces what was read.
abbrev closed : Bool → ReadEnd → ReadEnd
closed closes (read_bytes bytes) = if closes then read_bytes bytes else evidence_error
closed closes e = e

pub read_file : EvidenceReference → Calls → ReadEnd
unfolding read_all
read_file r c = elim c.before [
  | none ↦ evidence_error
  | some before ↦
      if not before.regular || not (matches r before)
      then evidence_error
      else read_all r before c.after r.size c.reads
]

abbrev same_media : Option MediaType → MediaType → Bool
same_media (some json) json = true
same_media (some png) png = true
same_media _ _ = false

-- The checks of the reference against its own name.
pub named_as : EvidenceReference → Bool
unfolding valid_id component stem_suffix media_type_of same_name
named_as r =
    let suffix = (stem_suffix (component r.relative_path)).1 in
    valid_id r.report_id
    && same_name (r.report_id ++ suffix) r.relative_path
    && same_media (media_type_of suffix) r.media_type

pub read : EvidenceReference → ℕ → Calls → ReadEnd
unfolding read_file named_as
read r max_bytes c =
    if ltb max_bytes 1 || ltb max_bytes r.size
    then evidence_error
    else if not (named_as r)
    then evidence_error
    else if not c.opens
    then evidence_error
    else closed c.closes (read_file r c)
