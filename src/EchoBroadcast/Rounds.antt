-- ===== src/EchoBroadcast/Rounds.antt =====
-- The round stores of round-based/src/echo_broadcast/store.rs as instances of the trait. The new types
-- around messages, `sub_msg::Main` and `sub_msg::EchoMsg`, are what they wrap. None of these stores
-- answers for a property: each leaves `read_any_prop` as the trait has it.
use round_based.Prelude.{Option, none, map_err}
use round_based.Round.SimpleStore.{RoundInput, RoundMsgs}
use round_based.Round.SimpleStore
use round_based.Round.Store.{RoundStore, IsProper, PropType, PropValue}
use round_based.Round.Input.{round_input-IsProper}
use round_based.EchoBroadcast.Errors.{EchoError, Error, main, echo, handle_echo}
use round_based.EchoBroadcast.Store
use round_based.EchoBroadcast.Store.{Reliable, MainRound, NeedsOwnMsg}

-- `RoundStore::read_any_prop`, where it is not overridden.
abbrev no_props : {A : Type 0} → A → (p : PropType) → Option (PropValue p)
no_props s p = none

abbrev pub main_round : Reliable → RoundStore
main_round E = record {
  Msg = E.S.Msg;
  Output = NeedsOwnMsg E;
  Error = Error E.S.Error;
  Store = MainRound E;
  add_message = Store.add_message E;
  wants_more = Store.wants_more E;
  output = Store.finish E;
  read_any_prop = no_props;
}

-- `EchoRound`
abbrev pub echo_round : Type 0 → RoundStore
echo_round Hash = record {
  Msg = Hash;
  Output = RoundMsgs Hash;
  Error = EchoError;
  Store = RoundInput Hash;
  add_message =
      λ s m. let (s', r) = SimpleStore.add_message s m in (s', map_err (λ e. handle_echo e) r);
  wants_more = SimpleStore.wants_more;
  output = SimpleStore.output;
  read_any_prop = no_props;
}

abbrev with_main_msg : RoundStore → RoundStore
with_main_msg S = record {
  Msg = S.Msg;
  Output = S.Output;
  Error = S.Error;
  Store = S.Store;
  add_message = S.add_message;
  wants_more = S.wants_more;
  output = S.output;
  read_any_prop = no_props;
}

abbrev with_error : RoundStore → RoundStore
with_error S = record {
  Msg = S.Msg;
  Output = S.Output;
  Error = Error S.Error;
  Store = S.Store;
  add_message = λ s m. let (s', r) = S.add_message s m in (s', map_err (λ e. main e) r);
  wants_more = S.wants_more;
  output = S.output;
  read_any_prop = no_props;
}

-- `WithEchoError<EchoRound<..>, E>`, the one use of the wrapper.
abbrev with_echo_error : Type 0 → Type 0 → RoundStore
with_echo_error Hash Err = record {
  Msg = Hash;
  Output = RoundMsgs Hash;
  Error = Error Err;
  Store = RoundInput Hash;
  add_message =
      λ s m. let (s', r) = (echo_round Hash).add_message s m in (s', map_err (λ e. echo e) r);
  wants_more = SimpleStore.wants_more;
  output = SimpleStore.output;
  read_any_prop = no_props;
}

-- The stores that the router is given for a plain round and for an echo round keep the trait's
-- contract where the main protocol's store does.
wrapped-IsProper :
    (S : RoundStore) (Hash : Type 0)
    → IsProper S
    → IsProper (with_error (with_main_msg S)) × IsProper (with_echo_error Hash S.Error)
wrapped-IsProper S Hash h =
    (record { outputs = h.outputs }, record { outputs = (round_input-IsProper Hash).outputs })
