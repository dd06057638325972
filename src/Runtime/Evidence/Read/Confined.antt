-- ===== src/Runtime/Evidence/Read/Confined.antt =====
-- What `read` has read (agent_ros/runtime/evidence.py).
use ros2_agent_workflow.Common.{
  ℕ, zero, suc, ◌-◌, ◌≤◌, ◌≡◌, refl, sym, ◌∙◌, ap, inl, inr, min, Bool, true, false, ◌||◌, List, [],
  ◌∷◌, ◌++◌, Option, none, some, arith, length, is_empty, take, length-append, length-take,
  Option-cases, Bool-cases, all,
}
use ros2_agent_workflow.Runtime.Evidence.{
  Name, id_rest, same_name, valid_id, has_slash, component, stem_suffix, MediaType, json, png,
  media_type_of, json_suffix, png_suffix, FileInfo, EvidenceReference,
}
use ros2_agent_workflow.Runtime.Evidence.Read.{
  Calls, ReadEnd, read_bytes, evidence_error, unfinished_read, matches, finish_read, read_all,
  read_file, named_as, same_media, closed, more, read,
}

same_name-eq : (a b : Name) → same_name a b ≡ true → a ≡ b
unfolding same_name
same_name-eq [] [] h = refl
same_name-eq [] (b ∷ ys) h = cc
same_name-eq (a ∷ xs) [] h = cc
same_name-eq (a ∷ xs) (b ∷ ys) h = ground (arith, h, same_name-eq xs ys)

has_slash-append : (a b : Name) → has_slash (a ++ b) ≡ (has_slash a || has_slash b)
unfolding has_slash
has_slash-append [] b = refl
has_slash-append (c ∷ a) b = ground (arith, has_slash-append a b)

all-has_slash : (cs : Name) → all id_rest cs ≡ true → has_slash cs ≡ false
unfolding has_slash
all-has_slash [] h = refl
all-has_slash (c ∷ cs) h = ground (arith, h, all-has_slash cs)

valid_id-has_slash : (id : Name) → valid_id id ≡ true → has_slash id ≡ false
unfolding valid_id has_slash
valid_id-has_slash [] h = cc
valid_id-has_slash (c ∷ cs) h = ground (arith, h, all-has_slash cs)

media_type_of-has_slash :
    (suffix : Name) (m : MediaType)
    → same_media (media_type_of suffix) m ≡ true
    → has_slash suffix ≡ false
unfolding media_type_of
media_type_of-has_slash suffix m h = elim (Bool-cases (same_name suffix json_suffix)) [
  | inl e ↦ ap has_slash (same_name-eq suffix json_suffix e) ∙ unfold has_slash json_suffix in refl
  | inr e ↦ elim (Bool-cases (same_name suffix png_suffix)) [
    | inl e' ↦
        ap has_slash (same_name-eq suffix png_suffix e') ∙ unfold has_slash png_suffix in refl
    | inr e' ↦ ground (arith, h, e, e')
  ]
]

-- The suffix of a media type.
abbrev suffix_of : MediaType → Name
suffix_of json = json_suffix
suffix_of png = png_suffix

json_only :
    {suffix : Name} (m : MediaType)
    → same_media (some json) m ≡ true
    → suffix ≡ json_suffix
    → suffix ≡ suffix_of m
json_only json h e = e
json_only png h e = cc

png_only :
    {suffix : Name} (m : MediaType)
    → same_media (some png) m ≡ true
    → suffix ≡ png_suffix
    → suffix ≡ suffix_of m
png_only json h e = cc
png_only png h e = e

media_type_of-suffix :
    (suffix : Name) (m : MediaType)
    → same_media (media_type_of suffix) m ≡ true
    → suffix ≡ suffix_of m
unfolding media_type_of
media_type_of-suffix suffix m h = elim (Bool-cases (same_name suffix json_suffix)) [
  | inl e ↦ json_only m (rw (media_type_of, e) at h) (same_name-eq suffix json_suffix e)
  | inr e ↦ elim (Bool-cases (same_name suffix png_suffix)) [
    | inl e' ↦ png_only m (rw (media_type_of, e, e') at h) (same_name-eq suffix png_suffix e')
    | inr e' ↦ let n : false ≡ true = rw (media_type_of, e, e') at h in cc
  ]
]

-- The name of the file is a single component: the identifier and the suffix of its type.
named_as-confined :
    (r : EvidenceReference)
    → named_as r ≡ true
    → (valid_id r.report_id ≡ true)
      × (r.relative_path ≡ r.report_id ++ suffix_of r.media_type)
      × (has_slash r.relative_path ≡ false)
unfolding named_as
named_as-confined r h =
    let suffix = (stem_suffix (component r.relative_path)).1 in
    let i : valid_id r.report_id ≡ true = ground (arith, h) in
    let n : same_name (r.report_id ++ suffix) r.relative_path ≡ true = ground (arith, h) in
    let m : same_media (media_type_of suffix) r.media_type ≡ true = ground (arith, h) in
    (
      i,
      sym (same_name-eq (r.report_id ++ suffix) r.relative_path n)
          ∙ ap (λ (x : Name). r.report_id ++ x) (media_type_of-suffix suffix r.media_type m),
      ap has_slash (sym (same_name-eq (r.report_id ++ suffix) r.relative_path n))
          ∙ ground (
            arith,
            has_slash-append r.report_id suffix,
            valid_id-has_slash r.report_id i,
            media_type_of-has_slash suffix r.media_type m,
          ),
    )

finish_read_sound :
    (r : EvidenceReference) (before : FileInfo) (after : Option FileInfo)
    (reads : List (Option (List ℕ))) (bytes : List ℕ)
    → finish_read r before after reads ≡ read_bytes bytes
    → (bytes ≡ []) × ((info : FileInfo) × (after ≡ some info) × (matches r info ≡ true))
unfolding finish_read
finish_read_sound r before after [] bytes h = cc
finish_read_sound r before after (none ∷ reads) bytes h = cc
finish_read_sound r before none (some chunk ∷ reads) bytes h = ground (arith, h)
finish_read_sound r before (some info) (some chunk ∷ reads) bytes h =
    (ground (arith, h), (info, refl, ground (arith, h)))

more-read_bytes :
    (chunk bytes : List ℕ) (e : ReadEnd)
    → more chunk e ≡ read_bytes bytes
    → (rest : List ℕ) × (e ≡ read_bytes rest) × (bytes ≡ chunk ++ rest)
more-read_bytes chunk bytes (read_bytes rest) h = (rest, refl, ground (arith, h))
more-read_bytes chunk bytes evidence_error h = cc
more-read_bytes chunk bytes unfinished_read h = cc

-- The file was still the same after all of its bytes had been read.
abbrev Same : EvidenceReference → Option FileInfo → Type 0
Same r o = (info : FileInfo) × (o ≡ some info) × (matches r info ≡ true)

read_all_sound :
    (r : EvidenceReference) (before : FileInfo) (after : Option FileInfo) (remaining : ℕ)
    (reads : List (Option (List ℕ))) (bytes : List ℕ)
    → read_all r before after remaining reads ≡ read_bytes bytes
    → (length bytes ≡ remaining) × Same r after
unfolding read_all
read_all_sound r before after zero reads bytes h =
    let (e, s) = finish_read_sound r before after reads bytes h in (ap length e, s)
read_all_sound r before after (suc remaining) [] bytes h = cc
read_all_sound r before after (suc remaining) (none ∷ reads) bytes h = cc
read_all_sound r before after (suc remaining) (some given ∷ reads) bytes h =
    let n = min 65536 (suc remaining) in
    let chunk = take n given in
    let left = suc remaining - length chunk in
    elim (Bool-cases (is_empty chunk)) [
      | inl e ↦ ground (arith, h, e)
      | inr e ↦
          let (rest, e', joined) =
            more-read_bytes chunk bytes (read_all r before after left reads)
              (ground (arith, h, e)) in
          let (l, s) = read_all_sound r before after left reads rest e' in
          (ap length joined ∙ omega (arith, length-append chunk rest, l, length-take n given), s)
    ]

-- What is known of bytes that were read for a reference.
pub record Sealed (r : EvidenceReference) (max_bytes : ℕ) (c : Calls) (bytes : List ℕ)
    : Type 0 where
  pub whole : length bytes ≡ r.size
  pub small : r.size ≤ max_bytes
  pub identified : valid_id r.report_id ≡ true
  pub named : r.relative_path ≡ r.report_id ++ suffix_of r.media_type
  pub single : has_slash r.relative_path ≡ false
  pub same_before : Same r c.before
  pub same_after : Same r c.after

read_file_sound :
    (r : EvidenceReference) (c : Calls) (bytes : List ℕ)
    → read_file r c ≡ read_bytes bytes
    → (length bytes ≡ r.size) × Same r c.before × Same r c.after
unfolding read_file
read_file_sound r c bytes h = elim (Option-cases c.before) [
  | inl e ↦ ground (arith, h, e)
  | inr (info, e) ↦
      let (l, s) = read_all_sound r info c.after r.size c.reads bytes (ground (arith, h, e)) in
      (l, (info, e, ground (arith, h, e)), s)
]

closed-inv :
    (closes : Bool) (e : ReadEnd) (bytes : List ℕ)
    → closed closes e ≡ read_bytes bytes
    → e ≡ read_bytes bytes
closed-inv true (read_bytes b) bytes h = h
closed-inv false (read_bytes b) bytes h = cc
closed-inv closes evidence_error bytes h = cc
closed-inv closes unfinished_read bytes h = cc

read-inv :
    (r : EvidenceReference) (max_bytes : ℕ) (c : Calls) (bytes : List ℕ)
    → read r max_bytes c ≡ read_bytes bytes
    → (r.size ≤ max_bytes) × (named_as r ≡ true) × (read_file r c ≡ read_bytes bytes)
unfolding read
read-inv r max_bytes c bytes h = (
  ground (arith, h),
  ground (arith, h),
  closed-inv c.closes (read_file r c) bytes (ground (arith, h)),
)

-- Bytes that `read` returns are as many as the reference says and no more than the caller allows;
-- they are of a file whose name is the identifier and the suffix of its media type, without a path; and the file was that
-- of the reference both before and after it was read.
pub read-Sealed :
    (r : EvidenceReference) (max_bytes : ℕ) (c : Calls) (bytes : List ℕ)
    → read r max_bytes c ≡ read_bytes bytes
    → Sealed r max_bytes c bytes
read-Sealed r max_bytes c bytes h =
    let (small, n, f) = read-inv r max_bytes c bytes h in
    let (l, b, a) = read_file_sound r c bytes f in
    let (i, p, s) = named_as-confined r n in
    record {
      whole = l;
      small = small;
      identified = i;
      named = p;
      single = s;
      same_before = b;
      same_after = a;
    }
