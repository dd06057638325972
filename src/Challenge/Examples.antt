-- ===== src/Challenge/Examples.antt =====
-- One challenge, made and spent. The hash is the token itself.
use ros2_agent_workflow.Common.{
  ◌≡◌, ◌≢◌, refl, String, true, false, [], some, arith, Value, pos, ok, codes,
}
use ros2_agent_workflow.Common.Value.{text, number}
use ros2_agent_workflow.Challenge.{
  Store, works, answered, consume_operator_challenge, create_operator_challenge, validated_boot_id,
  matches_boot_id, validate_profile_name, matches_name, valid_lifetime, store_challenge,
  fresh_record, write_record, find, replace, valid_record, check_contents, spend, compare_digest,
  directory_failed,
}
use ros2_agent_workflow.Challenge.SingleUse.{consume_once}
use ros2_agent_workflow.Challenge.Acceptance.{create-consume}

abbrev pub plain : String → String
plain token = token

abbrev pub boot : Value
boot = text "01234567-89ab"

-- A challenge for a minute, made at time 5.
abbrev pub one_challenge : Store
one_challenge = (create_operator_challenge plain [] "amr" (number (pos 60)) 5 boot "secret" works).0

pub accepted_once :
    (consume_operator_challenge plain one_challenge "amr" "secret" 40 boot works).1 ≡ answered true
unfolding consume_operator_challenge create_operator_challenge validated_boot_id matches_boot_id
    validate_profile_name matches_name valid_lifetime store_challenge fresh_record write_record find
    replace valid_record check_contents spend compare_digest directory_failed codes
accepted_once = refl

consume_once_example :
    let store' = (consume_operator_challenge plain one_challenge "amr" "secret" 40 boot works).0 in
    consume_operator_challenge plain store' "amr" "secret" 41 boot works ≡ (store', answered false)
consume_once_example =
    consume_once plain one_challenge "amr" "secret" 40 boot works accepted_once "secret" 41 boot
      works

boot_known : validated_boot_id boot ≡ some "01234567-89ab"
unfolding consume_operator_challenge create_operator_challenge validated_boot_id matches_boot_id
    validate_profile_name matches_name valid_lifetime store_challenge fresh_record write_record find
    replace valid_record check_contents spend compare_digest directory_failed codes
boot_known = refl

name_valid : validate_profile_name "amr" ≡ true
unfolding consume_operator_challenge create_operator_challenge validated_boot_id matches_boot_id
    validate_profile_name matches_name valid_lifetime store_challenge fresh_record write_record find
    replace valid_record check_contents spend compare_digest directory_failed codes
name_valid = refl

create-consume_example :
    let created =
      create_operator_challenge plain [] "amr" (number (pos 60)) 5 boot "secret" works in
    (created.1 ≡ ok "secret")
    × ((consume_operator_challenge plain created.0 "amr" "secret" 40 boot works).1 ≡ answered true)
create-consume_example =
    create-consume plain [] "amr" "secret" "01234567-89ab" 60 5 40 boot (unfold codes in refl)
      name_valid (unfold valid_lifetime in refl) boot_known refl (omega arith)

late_refused :
    (consume_operator_challenge plain one_challenge "amr" "secret" 65 boot works).1 ≢ answered true
unfolding consume_operator_challenge create_operator_challenge validated_boot_id matches_boot_id
    validate_profile_name matches_name valid_lifetime store_challenge fresh_record write_record find
    replace valid_record check_contents spend compare_digest directory_failed codes
late_refused e = cc
