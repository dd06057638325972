-- ===== src/Challenge/SingleUse.antt =====
-- A challenge is spent by its first acceptance (agent_ros/safety/challenge.py).
use ros2_agent_workflow.Common.{
  ℕ, ◌≡◌, refl, not, ◌||◌, String, Bool, true, false, [], ◌∷◌, Option, none, some, arith, Value,
  if◌then◌else◌, same_text, same_text_iff, same_text_refl, inl, inr, Bool-cases,
}
use ros2_agent_workflow.Common.Value.{boolean}
use ros2_agent_workflow.Challenge.{
  Store, Contents, object, unreadable, not_an_object, ChallengeRecord, Disk, works, unavailable,
  before_replace, after_replace, find, replace, answered, valid_record, spend, check_contents,
  consume_operator_challenge, validated_boot_id, validate_profile_name, directory_failed,
}

pub find-replace :
    (j k : String) (c : Contents) (store : Store)
    → find j (replace k c store) ≡ (if same_text k j then some c else find j store)
unfolding find replace
find-replace j k c [] = refl
find-replace j k c ((i, d) ∷ store) =
    ground
      (arith, same_text_iff i j, same_text_iff i k, same_text_iff k j, find-replace j k c store)

-- What is stored under the name counts as used.
abbrev IsSpent : Option Contents → Type 0
IsSpent (some (object r)) = r.used ≡ boolean true
IsSpent _ = ⊥

module _ (token_hash : String → String) where
  spend-IsSpent :
      (store : Store) (name : String) (r : ChallengeRecord) (disk : Disk) (v : Option Bool)
      → (spend token_hash store name r disk v).1 ≡ answered true
      → IsSpent (find name (spend token_hash store name r disk v).0)
  unfolding spend
  spend-IsSpent store name r disk none h = cc
  spend-IsSpent store name r disk (some false) h = cc
  spend-IsSpent store name r works (some true) h =
      rw
        (
          find-replace name name (object (record r { used = boolean true })) store,
          same_text_refl name,
        )
        refl
  spend-IsSpent store name r unavailable (some true) h = cc
  spend-IsSpent store name r before_replace (some true) h = cc
  spend-IsSpent store name r after_replace (some true) h = cc

  check_contents-IsSpent :
      (store : Store) (name token : String) (now : ℕ) (boot : Option String) (disk : Disk)
      (c : Option Contents)
      → (check_contents token_hash store name token now boot disk c).1 ≡ answered true
      → IsSpent (find name (check_contents token_hash store name token now boot disk c).0)
  unfolding check_contents
  check_contents-IsSpent store name token now (some b) disk (some (object r)) h =
      spend-IsSpent store name r disk (valid_record token_hash r name token now b) h
  check_contents-IsSpent store name token now none disk c h = cc
  check_contents-IsSpent store name token now (some b) disk none h = cc
  check_contents-IsSpent store name token now (some b) disk (some unreadable) h = cc
  check_contents-IsSpent store name token now (some b) disk (some not_an_object) h = cc

  valid_record_spent :
      (r : ChallengeRecord) (name token : String) (now : ℕ) (boot : String)
      → r.used ≡ boolean true
      → valid_record token_hash r name token now boot ≡ some false
  unfolding valid_record
  valid_record_spent r name token now boot h = ground arith

  check_contents_spent :
      (store : Store) (name token : String) (now : ℕ) (boot : Option String) (disk : Disk)
      (c : Option Contents)
      → IsSpent c
      → check_contents token_hash store name token now boot disk c ≡ (store, answered false)
  unfolding check_contents
  check_contents_spent store name token now none disk (some (object r)) h = refl
  check_contents_spent store name token now (some b) disk (some (object r)) h =
      rw (valid_record_spent r name token now b h, spend) refl
  check_contents_spent store name token now boot disk none h = absurd h
  check_contents_spent store name token now boot disk (some unreadable) h = absurd h
  check_contents_spent store name token now boot disk (some not_an_object) h = absurd h

  consume-IsSpent :
      (store : Store) (name token : String) (now : ℕ) (boot : Value) (disk : Disk)
      → (consume_operator_challenge token_hash store name token now boot disk).1 ≡ answered true
      → IsSpent (find name (consume_operator_challenge token_hash store name token now boot disk).0)
  unfolding consume_operator_challenge
  consume-IsSpent store name token now boot disk h =
      elim (Bool-cases
        (same_text token "" || not (validate_profile_name name) || directory_failed disk)) [
          | inl refused ↦ cc (h, refused)
          | inr passed ↦ rw (passed) (
              check_contents-IsSpent store name token now (validated_boot_id boot) disk
                (find name store) (rw passed at h))
        ]

  consume_spent :
      (store : Store) (name token : String) (now : ℕ) (boot : Value) (disk : Disk)
      → IsSpent (find name store)
      → consume_operator_challenge token_hash store name token now boot disk
        ≡ (store, answered false)
  unfolding consume_operator_challenge
  consume_spent store name token now boot disk h =
      elim (Bool-cases
        (same_text token "" || not (validate_profile_name name) || directory_failed disk)) [
          | inl refused ↦ rw refused
          | inr passed ↦ rw (passed) (
              check_contents_spent store name token now (validated_boot_id boot) disk
                (find name store) h)
        ]

  -- Once a call has accepted a challenge, every call for that profile on the store that the
  -- acceptance left, whatever its token, time, boot identifier and disk, is answered False and leaves
  -- that store as it is. A challenge that is created for the profile afterwards changes the store; it
  -- is not covered.
  pub consume_once :
      (store : Store) (name token : String) (now : ℕ) (boot : Value) (disk : Disk)
      → (consume_operator_challenge token_hash store name token now boot disk).1 ≡ answered true
      → (token' : String) (now' : ℕ) (boot' : Value) (disk' : Disk)
      → let store' = (consume_operator_challenge token_hash store name token now boot disk).0 in
        consume_operator_challenge token_hash store' name token' now' boot' disk'
        ≡ (store', answered false)
  consume_once store name token now boot disk h token' now' boot' disk' =
      consume_spent _ name token' now' boot' disk'
        (consume-IsSpent store name token now boot disk h)
