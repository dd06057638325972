-- ===== src/Audit/History.antt =====
-- `validate_audit_history` of agent_ros/runtime/audit.py: one pass over the lines of the log.
pub mod Appended
mod Examples
use ros2_agent_workflow.Common.{
  ℕ, suc, ◌+◌, ◌≤◌, ◌≡◌, ◌≢◌, refl, ◌⊎◌, inl, inr, String, Bool, true, false, ◌&&◌, ◌||◌, not, List,
  [], ◌∷◌, ◌++◌, Option, none, some, arith, leb, if◌then◌else◌, same_text, same_text_iff, contains,
  Bool-cases, is_some, Result, ◌>>=◌, ◌>>◌, guard, >>=-eq-ok,
}
use ros2_agent_workflow.Common.Result.{ok, err}
use ros2_agent_workflow.Safety.{SafetyState, new, stopped, estopped, same_state, same_state_eq}
use ros2_agent_workflow.Audit.Writer.{max_record_bytes}
use ros2_agent_workflow.Audit.{
  AuditFailure, audit_error, RawRecord, Validated, validate_record, or_error,
}

-- A line without its line break: its length, and the object that it parses to, if it does.
pub record Line : Type 0 where
  pub size : ℕ
  pub parsed : Option RawRecord

pub record Progress : Type 0 where
  pub previous_after : Option SafetyState
  pub current_session : Option String
  pub completed_sessions : List String

abbrev pub is_terminal : Option SafetyState → Bool
is_terminal none = false
is_terminal (some s) = same_state s stopped || same_state s estopped

abbrev pub same_session : Option String → String → Bool
same_session none session = false
same_session (some s) session = same_text s session

-- The part under `if current_session != session_id`.
change_session : Progress → String → Result AuditFailure Progress
change_session p session = do
  guard (not (contains session p.completed_sessions)) audit_error
  guard (not (is_some p.current_session) || is_terminal p.previous_after) audit_error
  ok (record {
    previous_after = none;
    current_session = some session;
    completed_sessions = elim p.current_session [
      | none ↦ p.completed_sessions
      | some current ↦ current ∷ p.completed_sessions
    ];
  })

enter_session : Progress → String → Result AuditFailure Progress
unfolding change_session
enter_session p session =
    if same_session p.current_session session then ok p else change_session p session

abbrev continues : Option SafetyState → SafetyState → Bool
continues none before = same_state before new
continues (some previous) before = same_state before previous

pub follow : Progress → Validated → Result AuditFailure Progress
unfolding enter_session
follow p v = do
  q ← enter_session p v.session_id
  guard (continues q.previous_after v.before) audit_error
  ok (record q { previous_after = some v.after })

-- One round of the loop, up to the checks across records.
pub read_line : Line → Result AuditFailure Validated
read_line l = do
  guard (leb 1 l.size && leb (suc l.size) max_record_bytes) audit_error
  r ← or_error l.parsed
  validate_record r

unfoldable pub scan : Progress → List Line → Result AuditFailure Progress
scan p [] = ok p
scan p (l ∷ lines) = do v ← read_line l; q ← follow p v; scan q lines

abbrev pub no_progress : Progress
no_progress = record { previous_after = none; current_session = none; completed_sessions = [] }

abbrev pub ends_well : Option SafetyState → Bool
ends_well none = true
ends_well (some s) = is_terminal (some s)

-- `terminated` is whether the text is empty or ends with a line break.
pub validate_audit_history : Bool → Bool → List Line → Result AuditFailure (Unit {0})
validate_audit_history terminated require_terminal lines = do
  guard terminated audit_error
  p ← scan no_progress lines
  guard (not require_terminal || ends_well p.previous_after) audit_error

-- What the lines say, where each of them is a valid record.
pub validated_lines : List Line → Option (List Validated)
validated_lines [] = some []
validated_lines (l ∷ lines) = elim (read_line l) [
  | err e ↦ none
  | ok v ↦ elim (validated_lines lines) [ none ↦ none | some vs ↦ some (v ∷ vs) ]
]

-- The next record goes on in the state where the last one of its session ended, or it opens a new
-- session in NEW after a session that was STOPPED or ESTOPPED.
abbrev pub Follows : Validated → Validated → Type 0
Follows p v =
    ((v.session_id ≡ p.session_id) × (v.before ≡ p.after))
    ⊎ ((v.session_id ≢ p.session_id) × (v.before ≡ new) × (is_terminal (some p.after) ≡ true))

abbrev pub Continuous : Validated → List Validated → Type 0
Continuous p [] = Unit
Continuous p (v ∷ vs) = Follows p v × Continuous v vs

-- A log that hangs together from its first record on.
abbrev pub Plausible : List Validated → Type 0
Plausible [] = Unit
Plausible (v ∷ vs) = (v.before ≡ new) × Continuous v vs

follow-Follows :
    (p q : Progress) (last v : Validated)
    → p.previous_after ≡ some last.after
    → p.current_session ≡ some last.session_id
    → follow p v ≡ ok q
    → Follows last v × (q.previous_after ≡ some v.after) × (q.current_session ≡ some v.session_id)
unfolding follow
follow-Follows p q last v a s h = ground (
  arith,
  same_text_iff last.session_id v.session_id,
  same_state_eq v.before last.after,
  same_state_eq v.before new,
  contains v.session_id p.completed_sessions,
)

validated_lines-cons :
    (l : Line) (v : Validated) (lines : List Line) (vs : List Validated)
    → read_line l ≡ ok v
    → validated_lines lines ≡ some vs
    → validated_lines (l ∷ lines) ≡ some (v ∷ vs)
unfolding validated_lines
validated_lines-cons l v lines vs read e = ground arith

scan-Continuous :
    (p q : Progress) (last : Validated) (lines : List Line)
    → p.previous_after ≡ some last.after
    → p.current_session ≡ some last.session_id
    → scan p lines ≡ ok q
    → (vs : List Validated) × (validated_lines lines ≡ some vs) × Continuous last vs
unfolding scan validated_lines
scan-Continuous p q last [] a s h = ([], refl, tt)
scan-Continuous p q last (l ∷ lines) a s h =
    let (v, read, rest) = >>=-eq-ok (read_line l) _ h in
    let (p', followed, rest') = >>=-eq-ok (follow p v) _ rest in
    let (f, a', s') = follow-Follows p p' last v a s followed in
    let (vs, e, c) = scan-Continuous p' q v lines a' s' rest' in
    (v ∷ vs, validated_lines-cons l v lines vs read e, (f, c))

follow-first :
    (q : Progress) (v : Validated)
    → follow no_progress v ≡ ok q
    → (v.before ≡ new) × (q.previous_after ≡ some v.after) × (q.current_session ≡ some v.session_id)
unfolding follow
follow-first q v h = ground (arith, same_state_eq v.before new, contains v.session_id [])

scan-Plausible :
    (q : Progress) (lines : List Line)
    → scan no_progress lines ≡ ok q
    → (vs : List Validated) × (validated_lines lines ≡ some vs) × Plausible vs
unfolding scan validated_lines
scan-Plausible q [] h = ([], refl, tt)
scan-Plausible q (l ∷ lines) h =
    let (v, read, rest) = >>=-eq-ok (read_line l) _ h in
    let (p', followed, rest') = >>=-eq-ok (follow no_progress v) _ rest in
    let (f, a', s') = follow-first p' v followed in
    let (vs, e, c) = scan-Continuous p' q v lines a' s' rest' in
    (v ∷ vs, validated_lines-cons l v lines vs read e, (f, c))

-- A log that is accepted consists of valid records only; the first begins in NEW, each later one
-- goes on in the state where the one before it ended or opens a new session in NEW after one that
-- was STOPPED or ESTOPPED.
pub accepted_history-Plausible :
    (terminated require_terminal : Bool) (lines : List Line)
    → validate_audit_history terminated require_terminal lines ≡ ok tt
    → (vs : List Validated) × (validated_lines lines ≡ some vs) × Plausible vs
unfolding validate_audit_history
accepted_history-Plausible terminated require_terminal lines h =
    let (_, _, rest) = >>=-eq-ok (guard terminated audit_error) _ h in
    let (q, scanned, last) = >>=-eq-ok (scan no_progress lines) _ rest in
    scan-Plausible q lines scanned
