-- ===== src/Audit/Writer.antt =====
-- `AuditWriter.append` of agent_ros/runtime/audit.py: one record is written whole or rolled back.
-- The answers of the system calls are arguments, in the order in which they are asked.
mod Examples
use ros2_agent_workflow.Common.{
  ℕ, zero, suc, ◌+◌, ◌-◌, ◌≤◌, ◌≡◌, ◌≢◌, refl, sym, ◌∙◌, ap, ◌⊎◌, inl, inr, Bool, true, false, ◌&&◌,
  ◌||◌, not, List, [], ◌∷◌, ◌++◌, Option, none, some, arith, leb, ◌==◌, if◌then◌else◌, length, take,
  drop, is_empty, length-append, Bool-cases,
}

abbrev pub max_record_bytes : ℕ
max_record_bytes = 4096

-- What one call of `write` does: a signal interrupts it, it raises OSError, it returns what is no
-- int, or it reports that so many bytes were appended.
pub data WriteAnswer : Type 0 where
  interrupted os_error no_int : WriteAnswer
  wrote : ℕ → WriteAnswer

-- How the loop of `_write_all` ends, with the bytes that it has appended: by its test, by an error,
-- or not within these answers.
pub data WriteEnd : Type 0 where
  complete failed unfinished : List ℕ → WriteEnd

abbrev more : List ℕ → WriteEnd → WriteEnd
more chunk (complete bytes) = complete (chunk ++ bytes)
more chunk (failed bytes) = failed (chunk ++ bytes)
more chunk (unfinished bytes) = unfinished (chunk ++ bytes)

-- `_write_all` of the bytes that are left.
pub write_all : List WriteAnswer → List ℕ → WriteEnd
write_all answers [] = complete []
write_all [] (b ∷ left) = unfinished []
write_all (interrupted ∷ answers) (b ∷ left) = write_all answers (b ∷ left)
write_all (os_error ∷ answers) (b ∷ left) = failed []
write_all (no_int ∷ answers) (b ∷ left) = failed []
write_all (wrote n ∷ answers) (b ∷ left) =
    let rest = more (take n (b ∷ left)) (write_all answers (drop n (b ∷ left))) in
    if n == 0 || not (leb n (length (b ∷ left))) then failed [] else rest

-- The file and the flag that condemns the writer.
pub record Writer : Type 0 where
  pub file : List ℕ
  pub integrity_compromised : Bool

-- The answers of the other system calls: opening and locking, the chmod of the log, its fsync, the
-- two calls of a rollback, and the closing of the log. The directory of the log is taken to exist.
pub record Calls : Type 0 where
  pub opens : Bool
  pub chmods : Bool
  pub writes : List WriteAnswer
  pub fsyncs : Bool
  pub truncates : Bool
  pub rollback_fsyncs : Bool
  pub closes : Bool

pub data Verdict : Type 0 where
  appended audit_error integrity_error unfinished_write : Verdict

rollback : Writer → List ℕ → Calls → Writer × Verdict
rollback w bytes c =
    if not c.truncates
    then (record w { file = w.file ++ bytes; integrity_compromised = true }, integrity_error)
    else if not c.rollback_fsyncs
    then (
      record w { file = take (length w.file) (w.file ++ bytes); integrity_compromised = true },
      integrity_error,
    )
    else (record w { file = take (length w.file) (w.file ++ bytes) }, audit_error)

-- The `try` around the write, given how the loop ended.
written : Writer → Calls → WriteEnd → Writer × Verdict
written w c (complete bytes) =
    if c.fsyncs then (record w { file = w.file ++ bytes }, appended) else rollback w bytes c
written w c (failed bytes) = rollback w bytes c
written w c (unfinished bytes) = (record w { file = w.file ++ bytes }, unfinished_write)

-- A failing `close` replaces whatever error is on its way.
closed : Calls → Writer × Verdict → Writer × Verdict
closed c (w, unfinished_write) = (w, unfinished_write)
closed c (w, verdict) = (w, if c.closes then verdict else audit_error)

-- `append`, given the encoded record; `none` is an event that `_encode` refuses.
pub append : Writer → Calls → Option (List ℕ) → Writer × Verdict
append w c encoded = if w.integrity_compromised then (w, integrity_error) else elim encoded [
  | none ↦ (w, audit_error)
  | some bytes ↦
      if not (leb (length bytes) max_record_bytes) || not c.opens
      then (w, audit_error)
      else closed c (if c.chmods then written w c (write_all c.writes bytes) else rollback w [] c)
]

take-self-append : (xs ys : List ℕ) → take (length xs) (xs ++ ys) ≡ xs
take-self-append [] ys = refl
take-self-append (x ∷ xs) ys = rw (take-self-append xs ys)

take-append-drop : (n : ℕ) (xs : List ℕ) → take n xs ++ drop n xs ≡ xs
take-append-drop zero xs = refl
take-append-drop (suc n) [] = refl
take-append-drop (suc n) (x ∷ xs) = rw (take-append-drop n xs)

abbrev appended_bytes : WriteEnd → List ℕ
appended_bytes (complete bytes) = bytes
appended_bytes (failed bytes) = bytes
appended_bytes (unfinished bytes) = bytes

more-complete :
    (chunk bytes : List ℕ) (e : WriteEnd)
    → more chunk e ≡ complete bytes
    → (rest : List ℕ) × (e ≡ complete rest) × (bytes ≡ chunk ++ rest)
more-complete chunk bytes (complete rest) h = (rest, refl, ground (arith, h))
more-complete chunk bytes (failed rest) h = cc
more-complete chunk bytes (unfinished rest) h = cc

-- The loop ends by its test only when every byte has been appended, in order and once, however the
-- system splits the write and however often it is interrupted.
pub write_all-complete :
    (answers : List WriteAnswer) (left bytes : List ℕ)
    → write_all answers left ≡ complete bytes
    → bytes ≡ left
unfolding write_all
write_all-complete answers [] bytes h = ground arith
write_all-complete [] (b ∷ left) bytes h = cc
write_all-complete (interrupted ∷ answers) (b ∷ left) bytes h =
    write_all-complete answers (b ∷ left) bytes h
write_all-complete (os_error ∷ answers) (b ∷ left) bytes h = cc
write_all-complete (no_int ∷ answers) (b ∷ left) bytes h = cc
write_all-complete (wrote n ∷ answers) (b ∷ left) bytes h =
    elim (Bool-cases (n == 0 || not (leb n (length (b ∷ left))))) [
      | inl bad ↦ cc (rw bad at h)
      | inr good ↦
          let (rest, e, split) =
            more-complete (take n (b ∷ left)) bytes (write_all answers (drop n (b ∷ left)))
              (rw good at h) in
          split
          ∙ ap (λ r. take n (b ∷ left) ++ r) (write_all-complete answers (drop n (b ∷ left)) rest e)
          ∙ take-append-drop n (b ∷ left)
    ]

-- How many of the answers are no interruption.
abbrev pub effective : List WriteAnswer → ℕ
effective [] = 0
effective (interrupted ∷ answers) = effective answers
effective (a ∷ answers) = suc (effective answers)

abbrev pub is_unfinished : WriteEnd → Bool
is_unfinished (unfinished bytes) = true
is_unfinished _ = false

is_unfinished-more :
    (chunk : List ℕ) (e : WriteEnd) → is_unfinished (more chunk e) ≡ is_unfinished e
is_unfinished-more chunk (complete bytes) = refl
is_unfinished-more chunk (failed bytes) = refl
is_unfinished-more chunk (unfinished bytes) = refl

length-drop : (n : ℕ) (xs : List ℕ) → length (drop n xs) ≡ length xs - n
length-drop zero xs = omega arith
length-drop (suc n) [] = omega arith
length-drop (suc n) (x ∷ xs) = omega (arith, length-drop n xs)

-- The loop ends within any answers of which at least as many as there are bytes left are no
-- interruption.
pub write_all_ends :
    (answers : List WriteAnswer) (left : List ℕ)
    → length left ≤ effective answers
    → is_unfinished (write_all answers left) ≡ false
unfolding write_all
write_all_ends [] [] h = refl
write_all_ends (a ∷ answers) [] h = refl
write_all_ends [] (b ∷ left) h = absurd (omega arith)
write_all_ends (interrupted ∷ answers) (b ∷ left) h = write_all_ends answers (b ∷ left) h
write_all_ends (os_error ∷ answers) (b ∷ left) h = refl
write_all_ends (no_int ∷ answers) (b ∷ left) h = refl
write_all_ends (wrote n ∷ answers) (b ∷ left) h =
    elim (Bool-cases (n == 0 || not (leb n (length (b ∷ left))))) [
      | inl bad ↦ rw bad
      | inr good ↦ rw (good) (
          is_unfinished-more (take n (b ∷ left)) (write_all answers (drop n (b ∷ left)))
          ∙ write_all_ends answers (drop n (b ∷ left)) (ground (arith, length-drop n (b ∷ left))))
    ]

-- The whole record was added; or nothing was; or the writer is condemned.
abbrev pub AddedOrNot : Writer → List ℕ → Writer × Verdict → Type 0
AddedOrNot w bytes r =
    ((r.1 ≡ appended) × (r.0.file ≡ w.file ++ bytes) × (length bytes ≤ max_record_bytes))
    ⊎ ((r.1 ≡ audit_error) × (r.0.file ≡ w.file))
    ⊎ ((r.1 ≡ integrity_error) × (r.0.integrity_compromised ≡ true))

rollback-AddedOrNot :
    (w : Writer) (part bytes : List ℕ) (c : Calls) → AddedOrNot w bytes (rollback w part c)
unfolding rollback
rollback-AddedOrNot w part bytes c = ground (arith, take-self-append w.file part)

written-AddedOrNot :
    (w : Writer) (c : Calls) (bytes : List ℕ) (e : WriteEnd)
    → length bytes ≤ max_record_bytes
    → ((part : List ℕ) → e ≡ complete part → part ≡ bytes)
    → is_unfinished e ≡ false
    → AddedOrNot w bytes (written w c e)
unfolding written rollback
written-AddedOrNot w c bytes (complete part) short whole u = elim (Bool-cases c.fsyncs) [
  | inl e ↦ rw (e, whole part refl) (inl (refl, refl, short))
  | inr e ↦ rw e (rollback-AddedOrNot w part bytes c)
]
written-AddedOrNot w c bytes (failed part) short whole u = rollback-AddedOrNot w part bytes c
written-AddedOrNot w c bytes (unfinished part) short whole u = cc

closed_lem : (c : Calls) (r : Writer × Verdict) → c.closes ≡ true → closed c r ≡ r
unfolding closed
closed_lem c (w, unfinished_write) h = refl
closed_lem c (w, appended) h = ground arith
closed_lem c (w, v) h = ground arith

-- An append whose write loop ends and whose log can be closed adds the whole record, which is then
-- within 4096 bytes, or reports an error and leaves the file as it was, or condemns the writer.
pub append_atomic :
    (w : Writer) (c : Calls) (bytes : List ℕ)
    → c.closes ≡ true
    → length bytes ≤ effective c.writes
    → AddedOrNot w bytes (append w c (some bytes))
unfolding append
append_atomic w c bytes h n = elim (Bool-cases w.integrity_compromised) [
  | inl e ↦ simp e (inr (inr (refl, refl)))
  | inr e ↦ elim (Bool-cases (not (leb (length bytes) max_record_bytes) || not c.opens)) [
    | inl f ↦ simp (e, f) (inr (inl (refl, refl)))
    | inr f ↦ elim (Bool-cases c.chmods) [
      | inl g ↦
          simp (e, f, g, closed_lem c (written w c (write_all c.writes bytes)) h)
            (written-AddedOrNot w c bytes (write_all c.writes bytes) (ground arith)
              (write_all-complete c.writes bytes) (write_all_ends c.writes bytes n))
      | inr g ↦ simp (e, f, g, closed_lem c (rollback w [] c) h) (rollback-AddedOrNot w [] bytes c)
    ]
  ]
]

-- A condemned writer never writes again.
pub condemned_writes_nothing :
    (w : Writer) (c : Calls) (encoded : Option (List ℕ))
    → w.integrity_compromised ≡ true
    → append w c encoded ≡ (w, integrity_error)
unfolding append
condemned_writes_nothing w c encoded h = ground arith
