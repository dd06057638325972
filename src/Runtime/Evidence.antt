-- ===== src/Runtime/Evidence.antt =====
-- The evidence store, agent_ros/runtime/evidence.py: names of reports, and `EvidenceStore.get`. File
-- names are lists of code points; what the file system answers is an argument.
pub mod Found
pub mod Read
pub mod Write
use ros2_agent_workflow.Common.{
  ℕ, String, Bool, true, false, ◌&&◌, ◌||◌, not, List, [], ◌∷◌, ◌++◌, Option, none, some, leb, ltb,
  ◌==◌, if◌then◌else◌, length, is_empty, all, is_digit, is_lower,
}

abbrev pub Name : Type 0
Name = List ℕ

pub same_name : Name → Name → Bool
same_name [] [] = true
same_name (a ∷ xs) (b ∷ ys) = a == b && same_name xs ys
same_name _ _ = false

-- The order of Python's strings.
pub less_name : Name → Name → Bool
less_name [] [] = false
less_name [] (b ∷ ys) = true
less_name (a ∷ xs) [] = false
less_name (a ∷ xs) (b ∷ ys) = ltb a b || a == b && less_name xs ys

abbrev pub id_head : ℕ → Bool
id_head c = is_lower c || is_digit c

abbrev pub id_rest : ℕ → Bool
id_rest c = id_head c || c == b'_' || c == b'-'

-- `_REPORT_ID`, and `_validate_id`.
pub valid_id : Name → Bool
valid_id [] = false
valid_id (c ∷ cs) = id_head c && all id_rest cs && leb (length cs) 63

-- The parts before and after the last point.
pub last_point : Name → Option (Name × Name)
last_point [] = none
last_point (c ∷ cs) = elim (last_point cs) [
  | some (a, b) ↦ some (c ∷ a, b)
  | none ↦ if c == b'.' then some ([], cs) else none
]

pub has_slash : Name → Bool
has_slash [] = false
has_slash (c ∷ cs) = c == b'/' || has_slash cs

-- The last component of a path.
pub component : Name → Name
unfolding has_slash
component [] = []
component (c ∷ cs) =
    let rest = component cs in if has_slash cs then rest else if c == b'/' then cs else c ∷ cs

-- `Path(name).stem` and `Path(name).suffix`, for a name without slashes.
pub stem_suffix : Name → Name × Name
unfolding last_point
stem_suffix name = elim (last_point name) [
  | none ↦ (name, [])
  | some (a, b) ↦ if is_empty a || is_empty b then (name, []) else (a, b'.' ∷ b)
]

pub data MediaType : Type 0 where
  json png : MediaType

pub json_suffix : Name
json_suffix = b'.' ∷ b'j' ∷ b's' ∷ b'o' ∷ b'n' ∷ []

pub png_suffix : Name
png_suffix = b'.' ∷ b'p' ∷ b'n' ∷ b'g' ∷ []

-- `_MEDIA_TYPES`.
pub media_type_of : Name → Option MediaType
unfolding same_name json_suffix png_suffix
media_type_of suffix =
    if same_name suffix json_suffix
    then some json
    else if same_name suffix png_suffix
    then some png
    else none

-- What is read of the answer of `os.stat` and `os.fstat`.
pub record FileInfo : Type 0 where
  pub regular : Bool
  pub device : ℕ
  pub inode : ℕ
  pub size : ℕ
  pub mtime_ns : ℕ

pub record EvidenceReference : Type 0 where
  pub report_id : Name
  pub relative_path : Name
  pub media_type : MediaType
  pub size : ℕ
  pub device : ℕ
  pub inode : ℕ
  pub mtime_ns : ℕ

-- The directory: what its listing has, if it can be read, and what `os.stat` says of a name without
-- following a link, `none` where one of the two raises OSError.
pub record Directory : Type 0 where
  pub listing : Option (List Name)
  pub stat : Name → Option FileInfo

abbrev pub Candidate : Type 0
Candidate = Name × FileInfo

abbrev is_media : Option MediaType → Bool
is_media none = false
is_media (some t) = true

-- `path.suffix in _MEDIA_TYPES` and the pattern of the stem.
pub named_well : Name → Bool
unfolding valid_id stem_suffix media_type_of
named_well name =
    let (stem, suffix) = stem_suffix name in is_media (media_type_of suffix) && valid_id stem

-- `_stat_name`.
pub stat_name : Directory → Name → Option FileInfo
stat_name d name = elim (d.stat name) [
  | none ↦ none
  | some info ↦ if info.regular then some info else none
]

-- `_safe_candidates`, without the failure of the listing.
pub candidates : Directory → List Name → List Candidate
unfolding named_well stat_name
candidates d [] = []
candidates d (name ∷ names) =
    let rest = candidates d names in
    if named_well name
    then elim (stat_name d name) [ none ↦ rest | some info ↦ (name, info) ∷ rest ]
    else rest

-- The key of the maximum: the time of the change, then the name.
pub later : Candidate → Candidate → Bool
unfolding less_name
later (a, i) (b, j) = ltb i.mtime_ns j.mtime_ns || i.mtime_ns == j.mtime_ns && less_name a b

-- `max`, which keeps the first of equals.
pub newest : Candidate → List Candidate → Candidate
unfolding later
newest best [] = best
newest best (c ∷ cs) =
    let kept = newest best cs in let taken = newest c cs in if later best c then taken else kept

-- The reference that `get` returns for a candidate; `none` is the KeyError of a suffix that is no
-- media type.
pub reference_of : Name → Candidate → Option EvidenceReference
unfolding stem_suffix media_type_of
reference_of report_id (name, info) = elim (media_type_of (stem_suffix name).1) [
  | none ↦ none
  | some media_type ↦ some (record {
    report_id = report_id;
    relative_path = name;
    media_type = media_type;
    size = info.size;
    device = info.device;
    inode = info.inode;
    mtime_ns = info.mtime_ns;
  })
]

newest_reference : List Candidate → Option EvidenceReference
unfolding newest reference_of
newest_reference [] = none
newest_reference (c ∷ cs) =
    let (name, info) = newest c cs in reference_of (stem_suffix name).0 (name, info)

-- `get(None)`; `none` is EvidenceError, here and below.
pub get_newest : Directory → Option EvidenceReference
unfolding candidates newest_reference
get_newest d = elim d.listing [ none ↦ none | some names ↦ newest_reference (candidates d names) ]

-- The names of a report, in the order of `_MEDIA_TYPES`.
pub named : Name → Directory → List Name → List Candidate
unfolding stat_name
named report_id d [] = []
named report_id d (suffix ∷ suffixes) =
    let rest = named report_id d suffixes in
    elim (stat_name d (report_id ++ suffix)) [
      | none ↦ rest
      | some info ↦ (report_id ++ suffix, info) ∷ rest
    ]

only_reference : Name → List Candidate → Option EvidenceReference
unfolding reference_of
only_reference report_id (c ∷ []) = reference_of report_id c
only_reference report_id _ = none

-- `get(report_id)`.
pub get_report : Directory → Name → Option EvidenceReference
unfolding valid_id named only_reference
get_report d report_id =
    if valid_id report_id
    then only_reference report_id (named report_id d (json_suffix ∷ png_suffix ∷ []))
    else none
