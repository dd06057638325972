-- ===== src/Challenge/Acceptance.antt =====
-- Which tokens are accepted, and what a refusal leaves behind (agent_ros/safety/challenge.py).
use ros2_agent_workflow.Common.{
  ℕ, ◌+◌, ◌<◌, ◌≡◌, ◌≢◌, refl, ap, not, ◌||◌, String, Bool, true, false, Option, none, some, arith,
  Value, pos, same_text, same_text_iff, same_text_refl, inl, inr, Bool-cases, all, is_ascii, codes,
  ok, lt→ltb,
}
use ros2_agent_workflow.Common.Value.{absent, boolean, text, number}
use ros2_agent_workflow.Challenge.{
  Store, Contents, object, unreadable, not_an_object, ChallengeRecord, Disk, works, unavailable,
  before_replace, after_replace, find, replace, answered, valid_record, spend, check_contents,
  consume_operator_challenge, create_operator_challenge, fresh_record, validated_boot_id,
  validate_profile_name, directory_failed, compare_digest, equals_text, is_false, not_expired,
  valid_lifetime,
}
use ros2_agent_workflow.Challenge.SingleUse.{find-replace}

equals_text_lem : (v : Value) (t : String) → equals_text v t ≡ true → v ≡ text t
equals_text_lem (text s) t h = ap text ((same_text_iff s t).0 h)
equals_text_lem absent t h = cc
equals_text_lem _ t h = cc

is_false_lem : (v : Value) → is_false v ≡ true → v ≡ boolean false
is_false_lem (boolean false) h = refl
is_false_lem _ h = cc

compare_digest-true :
    (v : Value) (digest : String) → compare_digest v digest ≡ some true → v ≡ text digest
unfolding compare_digest
compare_digest-true (text s) digest h = ap text ((same_text_iff s digest).0 (ground arith))
compare_digest-true absent digest h = cc
compare_digest-true _ digest h = cc

module _ (token_hash : String → String) where
  -- The stored record fits the request.
  pub record Fits (r : ChallengeRecord) (name token : String) (now : ℕ) (boot : String)
      : Type 0 where
    pub same_profile : r.profile ≡ text name
    pub same_boot : r.boot_id ≡ text boot
    pub unused : r.used ≡ boolean false
    pub unexpired : not_expired now r.expires_monotonic ≡ true
    pub same_hash : r.hash ≡ text (token_hash token)

  valid_record-Fits :
      (r : ChallengeRecord) (name token : String) (now : ℕ) (boot : String)
      → valid_record token_hash r name token now boot ≡ some true
      → Fits r name token now boot
  unfolding valid_record
  valid_record-Fits r name token now boot h = record {
    same_profile = equals_text_lem r.profile name (ground arith);
    same_boot = equals_text_lem r.boot_id boot (ground arith);
    unused = is_false_lem r.used (ground arith);
    unexpired = ground arith;
    same_hash = compare_digest-true r.hash (token_hash token) (ground arith);
  }

  valid_record_of_Fits :
      (r : ChallengeRecord) (name token : String) (now : ℕ) (boot : String)
      → all is_ascii (codes (token_hash token)) ≡ true
      → Fits r name token now boot
      → valid_record token_hash r name token now boot ≡ some true
  unfolding valid_record compare_digest
  valid_record_of_Fits r name token now boot ascii f = rw (
    f.same_profile,
    f.same_boot,
    f.unused,
    f.unexpired,
    f.same_hash,
    same_text_refl name,
    same_text_refl boot,
    ascii,
    same_text_refl (token_hash token),
  )

  -- What an accepting call has found, and what it leaves behind.
  pub record Accepted (store store' : Store) (name token : String) (now : ℕ) (boot : Option String)
      : Type 0 where
    pub challenge : ChallengeRecord
    pub current_boot : String
    pub stored : find name store ≡ some (object challenge)
    pub boot_known : boot ≡ some current_boot
    pub fits : Fits challenge name token now current_boot
    pub spent : store' ≡ replace name (object (record challenge { used = boolean true })) store

  spend-Accepted :
      (store : Store) (name : String) (r : ChallengeRecord) (disk : Disk) (v : Option Bool)
      → (spend token_hash store name r disk v).1 ≡ answered true
      → (v ≡ some true)
        × ((spend token_hash store name r disk v).0
            ≡ replace name (object (record r { used = boolean true })) store)
  unfolding spend
  spend-Accepted store name r works (some true) h = (refl, refl)
  spend-Accepted store name r unavailable (some true) h = cc
  spend-Accepted store name r before_replace (some true) h = cc
  spend-Accepted store name r after_replace (some true) h = cc
  spend-Accepted store name r disk none h = cc
  spend-Accepted store name r disk (some false) h = cc

  check_contents-Accepted :
      (store : Store) (name token : String) (now : ℕ) (boot : Option String) (disk : Disk)
      (c : Option Contents)
      → find name store ≡ c
      → (check_contents token_hash store name token now boot disk c).1 ≡ answered true
      → Accepted store
          (check_contents token_hash store name token now boot disk c).0
          name
          token
          now
          boot
  unfolding check_contents
  check_contents-Accepted store name token now (some b) disk (some (object r)) e h =
      let (valid, left) =
        spend-Accepted store name r disk (valid_record token_hash r name token now b) h in
      record {
        challenge = r;
        current_boot = b;
        stored = e;
        boot_known = refl;
        fits = valid_record-Fits r name token now b valid;
        spent = left;
      }
  check_contents-Accepted store name token now none disk c e h = cc
  check_contents-Accepted store name token now (some b) disk none e h = cc
  check_contents-Accepted store name token now (some b) disk (some unreadable) e h = cc
  check_contents-Accepted store name token now (some b) disk (some not_an_object) e h = cc

  -- A call that accepts has found an unused, unexpired record for that profile and boot whose hash
  -- is that of the token, and replaces it by the same record marked as used.
  pub consume_sound :
      (store : Store) (name token : String) (now : ℕ) (boot : Value) (disk : Disk)
      → (consume_operator_challenge token_hash store name token now boot disk).1 ≡ answered true
      → Accepted store
          (consume_operator_challenge token_hash store name token now boot disk).0
          name
          token
          now
          (validated_boot_id boot)
  unfolding consume_operator_challenge
  consume_sound store name token now boot disk h =
      elim (Bool-cases
        (same_text token "" || not (validate_profile_name name) || directory_failed disk)) [
          | inl refused ↦ cc (h, refused)
          | inr passed ↦ rw (passed) (
              check_contents-Accepted store name token now (validated_boot_id boot) disk
                (find name store) refl (rw passed at h))
        ]

  fresh-Fits :
      (name token boot : String) (now expires : ℕ)
      → now < expires
      → Fits (fresh_record token_hash name token expires boot) name token now boot
  unfolding fresh_record
  fresh-Fits name token boot now expires h = record {
    same_profile = refl;
    same_boot = refl;
    unused = refl;
    unexpired = lt→ltb now expires h;
    same_hash = refl;
  }

  consume_stored :
      (store : Store) (r : ChallengeRecord) (name token boot : String) (now : ℕ)
      (boot_value : Value)
      → all is_ascii (codes (token_hash token)) ≡ true
      → validate_profile_name name ≡ true
      → validated_boot_id boot_value ≡ some boot
      → same_text token "" ≡ false
      → find name store ≡ some (object r)
      → Fits r name token now boot
      → (consume_operator_challenge token_hash store name token now boot_value works).1
        ≡ answered true
  unfolding consume_operator_challenge check_contents directory_failed
  consume_stored store r name token boot now boot_value ascii named booted given stored fits = rw (
    given,
    named,
    booted,
    stored,
    check_contents,
    valid_record_of_Fits r name token now boot ascii fits,
    spend,
  )

  -- A challenge that was created is accepted with its token, for that profile, on that boot, before
  -- its lifetime has passed, if the disk works and the digest is ASCII text.
  pub create-consume :
      (store : Store) (name token boot : String) (lifetime now later : ℕ) (boot_value : Value)
      → all is_ascii (codes (token_hash token)) ≡ true
      → validate_profile_name name ≡ true
      → valid_lifetime (number (pos lifetime)) ≡ some lifetime
      → validated_boot_id boot_value ≡ some boot
      → same_text token "" ≡ false
      → later < now + lifetime
      → let created =
          create_operator_challenge token_hash store name
            (number (pos lifetime))
            now
            boot_value
            token
            works in
        (created.1 ≡ ok token)
        × ((consume_operator_challenge token_hash created.0 name token later boot_value works).1
            ≡ answered true)
  unfolding create_operator_challenge
  create-consume store name token boot lifetime now later boot_value ascii named lives booted given
        early =
      rw (named, lives, booted)
        (
          refl,
          consume_stored _ (fresh_record token_hash name token (now + lifetime) boot) name token
              boot later boot_value ascii named booted given
              (rw (
                find-replace name name
                    (object (fresh_record token_hash name token (now + lifetime) boot)) store,
                same_text_refl name,
              ))
              (fresh-Fits name token boot later (now + lifetime) early),
        )

  spend_refused :
      (store : Store) (name : String) (r : ChallengeRecord) (disk : Disk) (v : Option Bool)
      → (spend token_hash store name r disk v).1 ≢ answered true
      → disk ≢ after_replace
      → (spend token_hash store name r disk v).0 ≡ store
  unfolding spend
  spend_refused store name r works (some true) h d = absurd (h refl)
  spend_refused store name r unavailable (some true) h d = refl
  spend_refused store name r before_replace (some true) h d = refl
  spend_refused store name r after_replace (some true) h d = absurd (d refl)
  spend_refused store name r disk none h d = refl
  spend_refused store name r disk (some false) h d = refl

  check_contents_refused :
      (store : Store) (name token : String) (now : ℕ) (boot : Option String) (disk : Disk)
      (c : Option Contents)
      → (check_contents token_hash store name token now boot disk c).1 ≢ answered true
      → disk ≢ after_replace
      → (check_contents token_hash store name token now boot disk c).0 ≡ store
  unfolding check_contents
  check_contents_refused store name token now (some b) disk (some (object r)) h d =
      spend_refused store name r disk (valid_record token_hash r name token now b) h d
  check_contents_refused store name token now none disk c h d = refl
  check_contents_refused store name token now (some b) disk none h d = refl
  check_contents_refused store name token now (some b) disk (some unreadable) h d = refl
  check_contents_refused store name token now (some b) disk (some not_an_object) h d = refl

  -- A call that does not accept leaves the store as it was, unless the disk failed after the record
  -- was replaced.
  pub consume_refused :
      (store : Store) (name token : String) (now : ℕ) (boot : Value) (disk : Disk)
      → (consume_operator_challenge token_hash store name token now boot disk).1 ≢ answered true
      → disk ≢ after_replace
      → (consume_operator_challenge token_hash store name token now boot disk).0 ≡ store
  unfolding consume_operator_challenge
  consume_refused store name token now boot disk h d =
      elim (Bool-cases
        (same_text token "" || not (validate_profile_name name) || directory_failed disk)) [
          | inl refused ↦ rw refused
          | inr passed ↦ rw (passed) (
              check_contents_refused store name token now (validated_boot_id boot) disk
                (find name store) (rw passed at h) d)
        ]
