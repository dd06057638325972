-- ===== src/Runtime/Evidence/Write/Atomic.antt =====
-- A report is replaced whole or not at all (agent_ros/runtime/evidence.py).
use ros2_agent_workflow.Common.{
  ℕ, zero, suc, ◌≤◌, ◌≡◌, ◌≢◌, ◌⊎◌, inl, inr, refl, sym, ap, ◌∙◌, subst, true, List, [], ◌∷◌, ◌++◌,
  Option, none, some, arith, drop, take, length,
}
use ros2_agent_workflow.Runtime.Evidence.{Name, valid_id}
use ros2_agent_workflow.Runtime.Evidence.Write.{
  WriteCalls, Written, wrote_all, failed_write, unfinished_write, write_loop, Verdict,
  evidence_error, unfinished, replaced, written_file, write_bytes, write_json,
}

length-drop_le : (n : ℕ) (xs : List ℕ) → length (drop n xs) ≤ length xs
length-drop_le zero xs = omega arith
length-drop_le (suc n) [] = omega arith
length-drop_le (suc n) (x ∷ xs) = omega (arith, length-drop_le n xs)

take-drop : (n : ℕ) (xs : List ℕ) → (take n xs ++ drop n xs) ≡ xs
take-drop zero xs = refl
take-drop (suc n) [] = refl
take-drop (suc n) (x ∷ xs) = ap (λ ys. x ∷ ys) (take-drop n xs)

append_nil : (xs : List ℕ) → (xs ++ []) ≡ xs
append_nil [] = refl
append_nil (x ∷ xs) = ap (λ ys. x ∷ ys) (append_nil xs)

append_assoc : (xs ys zs : List ℕ) → ((xs ++ ys) ++ zs) ≡ (xs ++ (ys ++ zs))
append_assoc [] ys zs = refl
append_assoc (x ∷ xs) ys zs = ap (λ us. x ∷ us) (append_assoc xs ys zs)

-- The end of a loop over a whole text: it fails, or the file has the text.
abbrev LoopEnd : List ℕ → Written × List ℕ → Type 0
LoopEnd whole r = (r.0 ≡ failed_write) ⊎ ((r.0 ≡ wrote_all) × (r.1 ≡ whole))

write_loop-LoopEnd :
    (answers : List (Option ℕ)) (left file : List ℕ)
    → length left ≤ length answers
    → LoopEnd (file ++ left) (write_loop answers left file)
unfolding write_loop
write_loop-LoopEnd answers [] file l = inr (refl, sym (append_nil file))
write_loop-LoopEnd [] (b ∷ left) file l = absurd (omega (arith, l))
write_loop-LoopEnd (none ∷ answers) (b ∷ left) file l = inl refl
write_loop-LoopEnd (some zero ∷ answers) (b ∷ left) file l = inl refl
write_loop-LoopEnd (some (suc n) ∷ answers) (b ∷ left) file l =
    subst (λ whole. LoopEnd whole (write_loop answers (drop n left) (file ++ b ∷ take n left)))
      (append_assoc file (b ∷ take n left) (drop n left)
        ∙ ap (λ (ys : List ℕ). file ++ (b ∷ ys)) (take-drop n left))
      (write_loop-LoopEnd answers (drop n left) (file ++ b ∷ take n left)
        (omega (arith, l, length-drop_le n left)))

-- The destination is as it was and the call raises, or it has the whole text.
abbrev WholeOrOld : Option (List ℕ) → List ℕ → Option (List ℕ) × Verdict → Type 0
WholeOrOld old encoded r =
    ((r.0 ≡ old) × (r.1 ≡ evidence_error)) ⊎ ((r.0 ≡ some encoded) × (r.1 ≢ unfinished))

written_file-WholeOrOld :
    (c : WriteCalls) (old : Option (List ℕ)) (encoded : List ℕ) (r : Written × List ℕ)
    → LoopEnd encoded r
    → WholeOrOld old encoded (written_file c old r)
unfolding written_file replaced
written_file-WholeOrOld c old encoded (wrote_all, file) h = ground (arith, h)
written_file-WholeOrOld c old encoded (failed_write, file) h = inl (refl, refl)
written_file-WholeOrOld c old encoded (unfinished_write, file) h = ground (arith, h)

-- With an answer of the system for each byte `write_json` ends. The destination then has what it had
-- before, and the call raises; or it has the whole new text, which the writes to the temporary file
-- put together, however short each of them was, and the identifier is that of a report.
pub write_atomic :
    (c : WriteCalls) (report_id : Name) (old : Option (List ℕ)) (encoded : List ℕ)
    → length encoded ≤ length c.writes
    → let r = write_json c report_id old (some encoded) in
      ((r.0 ≡ old) × (r.1 ≡ evidence_error))
      ⊎ ((r.0 ≡ some encoded) × (r.1 ≢ unfinished) × (valid_id report_id ≡ true))
unfolding write_json write_bytes
write_atomic c report_id old encoded l = ground (
  arith,
  written_file-WholeOrOld c old encoded (write_loop c.writes encoded [])
      (write_loop-LoopEnd c.writes encoded [] l),
)
