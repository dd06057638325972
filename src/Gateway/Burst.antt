-- ===== src/Gateway/Burst.antt =====
-- `_stop_repeatedly` of agent_ros/safety/gateway.py: three calls of the stop callback, and the one
-- result that they combine to.
use ros2_agent_workflow.Common.{
  ℕ, zero, suc, ◌≡◌, ◌↔◌, Bool, true, false, ◌&&◌, ◌||◌, not, List, [], ◌∷◌, arith, all,
  if◌then◌else◌,
}
use ros2_agent_workflow.Safety.{
  EmergencyStopResult, StopCode, estop_latched, safety_command_rejected, transport_unquiesced,
  successful,
}

abbrev pub stop_burst_count : ℕ
stop_burst_count = 3

-- What one call of the callback does.
pub data Reply : Type 0 where
  returned : EmergencyStopResult → Reply
  raised wrong_type : Reply

rejected_stop : EmergencyStopResult
rejected_stop = record {
  latched = true;
  activation_quiesced = false;
  safety_command_accepted = false;
  code = safety_command_rejected;
}

reply_result : Reply → EmergencyStopResult
unfolding rejected_stop
reply_result (returned r) = r
reply_result raised = rejected_stop
reply_result wrong_type = rejected_stop

-- The loop: the replies of the calls number `call`, `call + 1`, ...
collect : ℕ → ℕ → (ℕ → Reply) → List EmergencyStopResult
unfolding reply_result
collect zero call replies = []
collect (suc rounds) call replies = reply_result (replies call) ∷ collect rounds (suc call) replies

stop_code : Bool → Bool → Bool → StopCode
stop_code latched quiesced accepted =
    if not quiesced
    then transport_unquiesced
    else if not accepted || not latched
    then safety_command_rejected
    else estop_latched

pub combine : List EmergencyStopResult → EmergencyStopResult
unfolding stop_code
combine results =
    let latched = all (λ r. r.latched) results in
    let quiesced = all (λ r. r.activation_quiesced) results in
    let accepted = all (λ r. r.safety_command_accepted) results in
    record {
      latched = latched;
      activation_quiesced = quiesced;
      safety_command_accepted = accepted;
      code = stop_code latched quiesced accepted;
    }

unfoldable pub stop_repeatedly : (ℕ → Reply) → EmergencyStopResult
unfolding collect combine
stop_repeatedly replies = combine (collect stop_burst_count 0 replies)

-- Whether a call of the callback came back with a successful result.
abbrev pub good_reply : Reply → Bool
good_reply (returned r) = successful r
good_reply _ = false

stop_code-latched : (l q a : Bool) → (stop_code l q a ≡ estop_latched) ↔ ((l && q && a) ≡ true)
unfolding stop_code
stop_code-latched l q a = ground arith

stop_code-unquiesced : (l q a : Bool) → (stop_code l q a ≡ transport_unquiesced) ↔ (q ≡ false)
unfolding stop_code
stop_code-unquiesced l q a = ground arith

regroup :
    (a b c d e f g h i : Bool)
    → ((a && (b && (c && true))) && (d && (e && (f && true))) && (g && (h && (i && true))))
      ≡ ((a && d && g) && (b && e && h) && (c && f && i))
regroup a b c d e f g h i = ground arith

good_reply_lem : (r : Reply) → good_reply r ≡ successful (reply_result r)
unfolding successful reply_result
good_reply_lem r = ground arith

-- The combined result is successful exactly when each of the three calls returned a successful one;
-- its code is ESTOP_LATCHED exactly then, and TRANSPORT_UNQUIESCED exactly when it is not quiesced.
pub stop_repeatedly_lem :
    (replies : ℕ → Reply)
    → let combined = stop_repeatedly replies in
      (successful combined
        ≡ (good_reply (replies 0) && good_reply (replies 1) && good_reply (replies 2)))
      × ((combined.code ≡ estop_latched) ↔ (successful combined ≡ true))
      × ((combined.code ≡ transport_unquiesced) ↔ (combined.activation_quiesced ≡ false))
unfolding stop_repeatedly successful
stop_repeatedly_lem replies =
    let first = reply_result (replies 0) in
    let second = reply_result (replies 1) in
    let third = reply_result (replies 2) in
    (
      rw (good_reply_lem (replies 0), good_reply_lem (replies 1), good_reply_lem (replies 2))
          (regroup first.latched second.latched third.latched first.activation_quiesced
            second.activation_quiesced third.activation_quiesced first.safety_command_accepted
            second.safety_command_accepted third.safety_command_accepted),
      stop_code-latched _ _ _,
      stop_code-unquiesced _ _ _,
    )
