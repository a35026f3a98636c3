-- ===== src/Round/Input.antt =====
-- `RoundInput` as a `RoundStore`, round-based/src/round/simple_store.rs.
use round_based.Prelude.{Option, some, none, ◌≡◌, false, ok, arith}
use round_based.Round.Store.{
  RoundStore, IsProper, PropType, PropValue, requires_reliable_broadcast, user_defined,
}
use round_based.Round.SimpleStore
use round_based.Round.SimpleStore.{RoundInput, RoundMsgs, RoundInputError}

unfoldable pub read_any_prop : {M : Type 0} → RoundInput M → (p : PropType) → Option (PropValue p)
unfolding SimpleStore.requires_reliable_broadcast
read_any_prop s requires_reliable_broadcast = some (SimpleStore.requires_reliable_broadcast s)
read_any_prop s (user_defined _) = none

abbrev pub round_input : Type 0 → RoundStore
round_input M = record {
  Msg = M;
  Output = RoundMsgs M;
  Error = RoundInputError;
  Store = RoundInput M;
  add_message = SimpleStore.add_message;
  wants_more = SimpleStore.wants_more;
  output = SimpleStore.output;
  read_any_prop = read_any_prop;
}

-- `RoundInput` keeps the contract of the trait: once it wants no more messages it has an output.
pub round_input-IsProper : (M : Type 0) → IsProper (round_input M)
round_input-IsProper M = record { outputs = outputs }
  where
    outputs :
        (s : RoundInput M)
        → SimpleStore.wants_more s ≡ false
        → (r : RoundMsgs M) × (SimpleStore.output s ≡ ok r)
    outputs s h =
        unfold SimpleStore.wants_more SimpleStore.output in
        (
          record { i = s.i; ids = s.messages_ids; messages = SimpleStore.flatten_slots s.messages },
          ground arith,
        )
