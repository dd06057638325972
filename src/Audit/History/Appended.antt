-- ===== src/Audit/History/Appended.antt =====
-- Lines that a session adds to a log (agent_ros/runtime/audit.py).
use ros2_agent_workflow.Common.{
  ℕ, suc, ◌-◌, ◌≤◌, ◌≡◌, refl, sym, subst, ◌∙◌, String, Bool, true, false, ◌&&◌, ◌||◌, not, List,
  [], ◌∷◌, ◌++◌, Option, none, some, arith, leb, same_text_refl, contains, is_some, Result, ok,
  ◌>>=◌, guard, >>=-eq-ok, >>=_assoc, >>=-cong, ok-injective,
}
use ros2_agent_workflow.Safety.{new, same_state_refl}
use ros2_agent_workflow.Audit.Writer.{max_record_bytes}
use ros2_agent_workflow.Audit.{
  AuditFailure, audit_error, RawRecord, Validated, validate_record, or_error,
}
use ros2_agent_workflow.Audit.History.{
  Line, Progress, is_terminal, same_session, enter_session, change_session, follow, read_line, scan,
  no_progress, ends_well, validate_audit_history,
}

pub scan-append :
    (p : Progress) (xs ys : List Line) → scan p (xs ++ ys) ≡ (scan p xs >>= (λ q. scan q ys))
unfolding scan
scan-append p [] ys = refl
scan-append p (l ∷ xs) ys =
    let tail : (v : Validated) → Result AuditFailure Progress =
      λ v. follow p v >>= (λ q. scan q xs) in
    >>=-cong (read_line l) _ _ (λ v.
      >>=-cong (follow p v) _ _ (λ q. scan-append q xs ys)
      ∙ sym (>>=_assoc (follow p v) (λ q. scan q xs) (λ q. scan q ys)))
    ∙ sym (>>=_assoc (read_line l) tail (λ q. scan q ys))

-- A record of the session that the log is in.
pub follow-goes_on :
    (p : Progress) (v : Validated)
    → p.current_session ≡ some v.session_id
    → p.previous_after ≡ some v.before
    → (q : Progress) × (follow p v ≡ ok q)
      × (q.current_session ≡ some v.session_id)
      × (q.previous_after ≡ some v.after)
unfolding follow enter_session
follow-goes_on p v c e = (
  record p { previous_after = some v.after },
  simp (follow, enter_session, c, e, same_text_refl v.session_id, same_state_refl v.before),
  c,
  refl,
)

-- A session may begin after what the log has.
pub record Fresh (p : Progress) (session : String) : Type 0 where
  pub not_current : same_session p.current_session session ≡ false
  pub not_completed : contains session p.completed_sessions ≡ false
  pub ended : (not (is_some p.current_session) || is_terminal p.previous_after) ≡ true

pub follow-opens :
    (p : Progress) (v : Validated)
    → Fresh p v.session_id
    → v.before ≡ new
    → (q : Progress) × (follow p v ≡ ok q)
      × (q.current_session ≡ some v.session_id)
      × (q.previous_after ≡ some v.after)
unfolding follow enter_session change_session
follow-opens p v f e = (
  record {
    previous_after = some v.after;
    current_session = some v.session_id;
    completed_sessions = elim p.current_session [
      | none ↦ p.completed_sessions
      | some current ↦ current ∷ p.completed_sessions
    ];
  },
  simp (follow, enter_session, change_session, f.not_current, f.not_completed, f.ended, e),
  refl,
  refl,
)

fits :
    (n : ℕ)
    → 2 ≤ n
    → leb n max_record_bytes ≡ true
    → (leb 1 (n - 1) && leb (suc (n - 1)) max_record_bytes) ≡ true
fits n low high = ground (arith, low, high)

pub read_line_lem :
    (n : ℕ) (parsed : Option RawRecord) (r : RawRecord) (v : Validated)
    → 2 ≤ n
    → leb n max_record_bytes ≡ true
    → parsed ≡ some r
    → validate_record r ≡ ok v
    → read_line (record { size = n - 1; parsed = parsed }) ≡ ok v
unfolding read_line or_error
read_line_lem n parsed r v low high e valid = simp (read_line, fits n low high, e, valid)

-- After the first line there is a session, and a state that it has reached.
follow-entered :
    (p q : Progress) (v : Validated)
    → follow p v ≡ ok q
    → is_some p.current_session ≡ is_some p.previous_after
    → is_some q.current_session ≡ is_some q.previous_after
unfolding follow enter_session change_session
follow-entered p q v h e = ground (arith, e)

scan-entered :
    (p q : Progress) (lines : List Line)
    → scan p lines ≡ ok q
    → is_some p.current_session ≡ is_some p.previous_after
    → is_some q.current_session ≡ is_some q.previous_after
unfolding scan
scan-entered p q [] h e =
    subst (λ (x : Progress). is_some x.current_session ≡ is_some x.previous_after) (ok-injective h)
      e
scan-entered p q (l ∷ lines) h e =
    let (v, _, h1) = >>=-eq-ok (read_line l) _ h in
    let (p', f, h2) = >>=-eq-ok (follow p v) _ h1 in
    scan-entered p' q lines h2 (follow-entered p p' v f e)

-- After a log that ends well a session may begin that the log does not have.
pub scan-Fresh :
    (p : Progress) (old : List Line) (session : String)
    → scan no_progress old ≡ ok p
    → ends_well p.previous_after ≡ true
    → same_session p.current_session session ≡ false
    → contains session p.completed_sessions ≡ false
    → Fresh p session
scan-Fresh p old session h w c d = record {
  not_current = c;
  not_completed = d;
  ended = ground (arith, w, scan-entered no_progress p old h refl);
}

pub validate-scan :
    (p : Progress) (require_terminal : Bool) (lines : List Line)
    → scan no_progress lines ≡ ok p
    → validate_audit_history true require_terminal lines
      ≡ guard (not require_terminal || ends_well p.previous_after) audit_error
unfolding validate_audit_history
validate-scan p require_terminal lines h = simp (validate_audit_history, h)
