-- ===== src/Challenge.antt =====
-- agent_ros/safety/challenge.py: the single-use tokens by which a local operator arms a hardware
-- robot. A store is the runtime directory seen by profile name. SHA-256, the random token, the
-- clock, the boot identifier and what the file system does in a call are arguments. Clock readings
-- and lifetimes are nanoseconds.
pub mod SingleUse
pub mod Acceptance
pub mod Examples
use ros2_agent_workflow.Common.{
  ℕ, ◌+◌, ◌*◌, ◌≡◌, refl, String, Bool, true, false, ◌&&◌, ◌||◌, not, List, [], ◌∷◌, Option, none,
  some, arith, Value, ℤ, abs, pos, ltb, leb, ltb_ℤ, ◌==◌, if◌then◌else◌, same_text, codes, all,
  length, is_lower, is_upper, is_digit, is_ascii, Result, ok, err,
}
use ros2_agent_workflow.Common.Value.{
  absent, nan, infinity, neg_infinity, other, boolean, number, text,
}

abbrev pub second : ℕ
second = 1000000000

abbrev pub max_ttl_seconds : ℕ
max_ttl_seconds = 300 * second

pub data ChallengeError : Type 0 where
  invalid_profile_name invalid_lifetime boot_identity_unavailable os_error : ChallengeError

-- The fields that the code reads from a record's JSON object.
pub record ChallengeRecord : Type 0 where
  pub hash : Value
  pub profile : Value
  pub expires_monotonic : Value
  pub boot_id : Value
  pub used : Value

-- What a challenge file holds: unreadable text, JSON that is no object, or an object.
pub data Contents : Type 0 where
  unreadable not_an_object : Contents
  object : ChallengeRecord → Contents

abbrev pub Store : Type 0
Store = List (String × Contents)

-- What the file system does in one call: all works; the directory or the lock cannot be opened;
-- the write fails and leaves the old file; or the file is replaced and the last chmod fails.
pub data Disk : Type 0 where
  works unavailable before_replace after_replace : Disk

pub find : String → Store → Option Contents
find name [] = none
find name ((key, contents) ∷ store) = if same_text key name then some contents else find name store

pub replace : String → Contents → Store → Store
replace name new [] = (name, new) ∷ []
replace name new ((key, contents) ∷ store) =
    if same_text key name then (key, new) ∷ store else (key, contents) ∷ replace name new store

abbrev name_head : ℕ → Bool
name_head c = is_lower c || is_digit c

abbrev name_rest : ℕ → Bool
name_rest c = name_head c || c == b'-'

matches_name : List ℕ → Bool
matches_name [] = false
matches_name (c ∷ cs) = name_head c && all name_rest cs

pub validate_profile_name : String → Bool
unfolding matches_name codes
validate_profile_name name = matches_name (codes name)

abbrev boot_character : ℕ → Bool
boot_character c = is_upper c || is_lower c || is_digit c || c == b'-'

matches_boot_id : List ℕ → Bool
matches_boot_id cs = leb 8 (length cs) && leb (length cs) 128 && all boot_character cs

-- The provider's answer; `none` where it raises or its answer is malformed.
pub validated_boot_id : Value → Option String
unfolding matches_boot_id codes
validated_boot_id (text value) = if matches_boot_id (codes value) then some value else none
validated_boot_id _ = none

-- `0 < ttl_seconds <= 300`, for an int or float that is no bool.
pub valid_lifetime : Value → Option ℕ
valid_lifetime (number (pos n)) = if ltb 0 n && leb n max_ttl_seconds then some n else none
valid_lifetime _ = none

write_record : Store → String → ChallengeRecord → Disk → Store × Bool
write_record store name r works = (replace name (object r) store, true)
write_record store name r after_replace = (replace name (object r) store, false)
write_record store name r _ = (store, false)

abbrev equals_text : Value → String → Bool
equals_text (text s) t = same_text s t
equals_text _ t = false

abbrev is_false : Value → Bool
is_false (boolean false) = true
is_false _ = false

abbrev not_expired : ℕ → Value → Bool
not_expired now (number z) = ltb_ℤ now z
not_expired now infinity = true
not_expired now _ = false

-- `hmac.compare_digest` refuses text that is not ASCII with a TypeError, here `none`.
compare_digest : Value → String → Option Bool
unfolding codes
compare_digest (text expected) digest =
    if all is_ascii (codes expected) && all is_ascii (codes digest)
    then some (same_text expected digest)
    else none
compare_digest _ digest = some false

directory_failed : Disk → Bool
directory_failed unavailable = true
directory_failed _ = false

-- What a call of `consume_operator_challenge` gives: its answer, or the TypeError.
pub data Consumption : Type 0 where
  answered : Bool → Consumption
  type_error : Consumption

module _ (token_hash : String → String) where
  pub fresh_record : String → String → ℕ → String → ChallengeRecord
  fresh_record profile_name token expires boot = record {
    hash = text (token_hash token);
    profile = text profile_name;
    expires_monotonic = number (pos expires);
    boot_id = text boot;
    used = boolean false;
  }

  store_challenge :
      Store → String → String → ℕ → Option String → Disk → Store × Result ChallengeError String
  unfolding write_record fresh_record
  store_challenge store profile_name token expires none disk =
      (store, err boot_identity_unavailable)
  store_challenge store profile_name token expires (some boot) disk =
      let (store', written) =
        write_record store profile_name (fresh_record profile_name token expires boot) disk in
      (store', if written then ok token else err os_error)

  -- `token` is what `secrets.token_urlsafe(32)` gives.
  pub create_operator_challenge :
      Store → String → Value → ℕ → Value → String → Disk → Store × Result ChallengeError String
  unfolding store_challenge directory_failed
  create_operator_challenge store profile_name ttl now boot token disk =
      if not (validate_profile_name profile_name)
      then (store, err invalid_profile_name)
      else elim (valid_lifetime ttl) [
        | none ↦ (store, err invalid_lifetime)
        | some lifetime ↦
            if directory_failed disk
            then (store, err os_error)
            else store_challenge store profile_name token (now + lifetime) (validated_boot_id boot)
                disk
      ]

  pub valid_record : ChallengeRecord → String → String → ℕ → String → Option Bool
  unfolding compare_digest
  valid_record r profile_name token now boot =
      if equals_text r.profile profile_name
        && equals_text r.boot_id boot
        && is_false r.used
        && not_expired now r.expires_monotonic
      then compare_digest r.hash (token_hash token)
      else some false

  -- The part of `consume_operator_challenge` that marks a valid record as used.
  spend : Store → String → ChallengeRecord → Disk → Option Bool → Store × Consumption
  unfolding write_record
  spend store profile_name r disk none = (store, type_error)
  spend store profile_name r disk (some false) = (store, answered false)
  spend store profile_name r disk (some true) =
      let (store', written) =
        write_record store profile_name (record r { used = boolean true }) disk in
      (store', answered written)

  check_contents :
      Store → String → String → ℕ → Option String → Disk → Option Contents → Store × Consumption
  unfolding spend valid_record
  check_contents store profile_name token now (some boot) disk (some (object r)) =
      spend store profile_name r disk (valid_record r profile_name token now boot)
  check_contents store profile_name token now _ disk _ = (store, answered false)

  pub consume_operator_challenge : Store → String → String → ℕ → Value → Disk → Store × Consumption
  unfolding check_contents directory_failed
  consume_operator_challenge store profile_name token now boot disk =
      if same_text token "" || not (validate_profile_name profile_name) || directory_failed disk
      then (store, answered false)
      else check_contents store profile_name token now (validated_boot_id boot) disk
          (find profile_name store)
