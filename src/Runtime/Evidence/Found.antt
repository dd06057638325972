-- ===== src/Runtime/Evidence/Found.antt =====
-- What the references of the evidence store point at (agent_ros/runtime/evidence.py).
use ros2_agent_workflow.Common.{
  ℕ, ◌≤◌, ◌≡◌, refl, sym, subst, ◌⊎◌, inl, inr, none, true, false, List, [], ◌∷◌, some, arith, All,
  Option-cases, Bool-cases,
}
use mathlib.Core.List.{Memᴰ}
use ros2_agent_workflow.Runtime.Evidence.{
  Name, stem_suffix, media_type_of, FileInfo, EvidenceReference, Directory, Candidate, named_well,
  stat_name, candidates, later, newest, reference_of, newest_reference, get_newest,
}

-- A candidate of a listing: the name is on it and is that of a report, and the file is regular.
pub record Offered (d : Directory) (names : List Name) (c : Candidate) : Type 0 where
  pub listed : Memᴰ c.0 names
  pub well_named : named_well c.0 ≡ true
  pub stated : d.stat c.0 ≡ some c.1
  pub regular : c.1.regular ≡ true

Offered-tail :
    (d : Directory) (name : Name) (names : List Name) (c : Candidate)
    → Offered d names c
    → Offered d (name ∷ names) c
Offered-tail d name names c v = record {
  listed = Memᴰ.tail v.listed;
  well_named = v.well_named;
  stated = v.stated;
  regular = v.regular;
}

All-tail :
    (d : Directory) (name : Name) (names : List Name) (cs : List Candidate)
    → All (Offered d names) cs
    → All (Offered d (name ∷ names)) cs
All-tail d name names [] a = tt
All-tail d name names (c ∷ cs) a = (Offered-tail d name names c a.0, All-tail d name names cs a.1)

stat_name-regular :
    (d : Directory) (name : Name) (info : FileInfo)
    → stat_name d name ≡ some info
    → (d.stat name ≡ some info) × (info.regular ≡ true)
unfolding stat_name
stat_name-regular d name info h = elim (Option-cases (d.stat name)) [
  | inl e ↦ ground (arith, h, e)
  | inr (i, e) ↦ ground (arith, h, e)
]

candidates-Offered :
    (d : Directory) (names : List Name) → All (Offered d names) (candidates d names)
unfolding candidates
candidates-Offered d [] = tt
candidates-Offered d (name ∷ names) =
    let rest = All-tail d name names (candidates d names) (candidates-Offered d names) in
    elim (Bool-cases (named_well name)) [
      | inr e ↦ rw (candidates, e) rest
      | inl e ↦ elim (Option-cases (stat_name d name)) [
        | inl e' ↦ rw (candidates, e, e') rest
        | inr (info, e') ↦
            let (s, r) = stat_name-regular d name info e' in
            rw (candidates, e, e')
              (record { listed = Memᴰ.head refl; well_named = e; stated = s; regular = r }, rest)
      ]
    ]

newest-All :
    (P : Candidate → Type 0) (best : Candidate) (cs : List Candidate)
    → P best
    → All P cs
    → P (newest best cs)
unfolding newest
newest-All P best [] p a = p
newest-All P best (c ∷ cs) p a = elim (Bool-cases (later best c)) [
  | inl e ↦ rw (newest, e) (newest-All P c cs a.0 a.1)
  | inr e ↦ rw (newest, e) (newest-All P best cs p a.1)
]

abbrev NotAfter : ℕ → Candidate → Type 0
NotAfter n c = c.1.mtime_ns ≤ n

newest-best :
    (best : Candidate) (cs : List Candidate) → best.1.mtime_ns ≤ (newest best cs).1.mtime_ns
unfolding newest later
newest-best best [] = omega arith
newest-best best (c ∷ cs) = ground (arith, newest-best c cs, newest-best best cs)

newest-NotAfter :
    (best : Candidate) (cs : List Candidate) → All (NotAfter (newest best cs).1.mtime_ns) cs
unfolding newest later
newest-NotAfter best [] = tt
newest-NotAfter best (c ∷ cs) = elim (Bool-cases (later best c)) [
  | inl e ↦
      let same : newest best (c ∷ cs) ≡ newest c cs = rw (newest, e) refl in
      subst (λ (b : Candidate). All (NotAfter b.1.mtime_ns) (c ∷ cs)) (sym same)
        (newest-best c cs, newest-NotAfter c cs)
  | inr e ↦
      let same : newest best (c ∷ cs) ≡ newest best cs = rw (newest, e) refl in
      subst (λ (b : Candidate). All (NotAfter b.1.mtime_ns) (c ∷ cs)) (sym same)
        (ground (arith, e, newest-best best cs), newest-NotAfter best cs)
]

-- The reference says of the file what `os.stat` said.
pub record Describes (r : EvidenceReference) (c : Candidate) : Type 0 where
  pub same_path : r.relative_path ≡ c.0
  pub same_media : media_type_of (stem_suffix c.0).1 ≡ some r.media_type
  pub same_size : r.size ≡ c.1.size
  pub same_device : r.device ≡ c.1.device
  pub same_inode : r.inode ≡ c.1.inode
  pub same_mtime : r.mtime_ns ≡ c.1.mtime_ns

reference_of-Describes :
    (report_id : Name) (c : Candidate) (r : EvidenceReference)
    → reference_of report_id c ≡ some r
    → Describes r c
unfolding reference_of
reference_of-Describes report_id c r h = elim (Option-cases (media_type_of (stem_suffix c.0).1)) [
  | inl e ↦ ground (arith, h, e)
  | inr (m, e) ↦ ground (arith, h, e)
]

newest_reference-inv :
    (c : Candidate) (cs : List Candidate) (r : EvidenceReference)
    → newest_reference (c ∷ cs) ≡ some r
    → Describes r (newest c cs)
unfolding newest_reference
newest_reference-inv c cs r h =
    reference_of-Describes (stem_suffix (newest c cs).0).0 (newest c cs) r h

-- A name of the listing does not beat a time: it is not that of a report, or its file cannot be
-- looked at, is not regular, or was not changed after that time.
abbrev NotBeating : Directory → ℕ → Name → Type 0
NotBeating d n name =
    (named_well name ≡ false)
    ⊎ ((d.stat name ≡ none)
        ⊎ ((info : FileInfo) × (d.stat name ≡ some info)
            × ((info.regular ≡ false) ⊎ (info.mtime_ns ≤ n))))

stat_name-none :
    (d : Directory) (n : ℕ) (name : Name) → stat_name d name ≡ none → NotBeating d n name
unfolding stat_name
stat_name-none d n name h = elim (Option-cases (d.stat name)) [
  | inl e ↦ inr (inl e)
  | inr (info, e) ↦ inr (inr (info, e, inl (ground (arith, h, e))))
]

-- Every name that could beat the time gives a candidate.
candidates-NotBeating :
    (d : Directory) (n : ℕ) (names : List Name)
    → All (NotAfter n) (candidates d names)
    → All (NotBeating d n) names
unfolding candidates
candidates-NotBeating d n [] a = tt
candidates-NotBeating d n (name ∷ names) a = elim (Bool-cases (named_well name)) [
  | inr e ↦ (inl e, candidates-NotBeating d n names (rw (candidates, e) at a))
  | inl e ↦ elim (Option-cases (stat_name d name)) [
    | inl e' ↦
        (stat_name-none d n name e', candidates-NotBeating d n names (rw (candidates, e, e') at a))
    | inr (info, e') ↦
        let b : All (NotAfter n) ((name, info) ∷ candidates d names) =
          rw (candidates, e, e') at a in
        let (s, r) = stat_name-regular d name info e' in
        (inr (inr (info, s, inr b.0)), candidates-NotBeating d n names b.1)
  ]
]

-- What `get(None)` found: a candidate of the listing, that no name of the listing beats.
pub record Newest (d : Directory) (r : EvidenceReference) : Type 0 where
  pub names : List Name
  pub found : Candidate
  pub listed : d.listing ≡ some names
  pub offered : Offered d names found
  pub described : Describes r found
  pub best : All (NotBeating d r.mtime_ns) names

found-Newest :
    (d : Directory) (names : List Name) (cs : List Candidate) (r : EvidenceReference)
    → d.listing ≡ some names
    → candidates d names ≡ cs
    → newest_reference cs ≡ some r
    → Newest d r
unfolding newest_reference
found-Newest d names [] r l e h = cc
found-Newest d names (c ∷ cs) r l e h =
    let a = subst (All (Offered d names)) e (candidates-Offered d names) in
    let b = newest_reference-inv c cs r h in
    let best =
      subst (λ n. All (NotAfter n) (c ∷ cs)) (sym b.same_mtime)
        (newest-best c cs, newest-NotAfter c cs) in
    record {
      names = names;
      found = newest c cs;
      listed = l;
      offered = newest-All (Offered d names) c cs a.0 a.1;
      described = b;
      best =
          candidates-NotBeating d r.mtime_ns names (subst (All (NotAfter r.mtime_ns)) (sym e) best);
    }

-- Without an identifier `get` answers with a regular file of the directory that has the name of a
-- report, as `os.stat` describes it; and of every name that the directory lists, it is not that of a
-- report, or its file is missing, not regular, or not changed later than the file of the answer.
pub get_newest-Newest : (d : Directory) (r : EvidenceReference) → get_newest d ≡ some r → Newest d r
unfolding get_newest
get_newest-Newest d r h = elim (Option-cases d.listing) [
  | inl e ↦ ground (arith, h, e)
  | inr (names, e) ↦ found-Newest d names (candidates d names) r e refl (ground (arith, h, e))
]
