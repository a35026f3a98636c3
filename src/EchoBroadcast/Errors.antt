-- ===== src/EchoBroadcast/Errors.antt =====
-- round-based/src/echo_broadcast/error.rs.
use round_based.Prelude.{ℕ, Bool, true, false}
use round_based.Delivery.{MessageDestination, PartyIndex}
use round_based.Round.SimpleStore.{RoundInputError}

-- `EchoError(Reason)`
pub data EchoError : Type 0 where
  store_received_two_msgs_from_same_party : EchoError
  received_main_msg_when_round_over : EchoError
  unknown_sender : PartyIndex → ℕ → EchoError
  own_index_out_of_bounds : PartyIndex → ℕ → EchoError
  main_round_finished_but_store_doesnt_output : EchoError
  handle_echo : RoundInputError → EchoError
  mismatched_hash : EchoError
  state_gone : EchoError
  unexpected_main_round_state : EchoError
  round_msg_clone : EchoError
  send_twice : EchoError
  sent_msg_from_proto : EchoError
  sent_non_reliable_msg_in_reliable_round : MessageDestination → ℕ → EchoError
  sent_reliable_msg_in_non_reliable_round : ℕ → EchoError

abbrev reliability_check_failed : EchoError → Bool
reliability_check_failed mismatched_hash = true
reliability_check_failed _ = false

pub data Error (E : Type 0) : Type 0 where
  main : E → Error E
  echo : EchoError → Error E
