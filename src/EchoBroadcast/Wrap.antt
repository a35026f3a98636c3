-- ===== src/EchoBroadcast/Wrap.antt =====
-- `WithEchoBroadcast` of round-based/src/echo_broadcast/mod.rs for one round of the main protocol. The
-- engine that is wrapped is given by what it does for the rounds registered with it; its rounds are
-- registered outside of this model.
pub mod Checked
pub mod Own
pub mod Many
mod Tests
use mathlib.Core.Option
use round_based.Prelude.{
  ℕ, Bool, true, false, Option, none, some, List, [], ◌∷◌, Result, ok, err, map_err, ◌==◌,
  if◌then◌else◌,
}
use round_based.Delivery.{Outgoing, PartyIndex, map_outgoing, outgoing_all_parties}
use round_based.Round.Store.{read_prop, requires_reliable_broadcast}
use round_based.Round.SimpleStore.{RoundInput, RoundMsgs}
use round_based.Mpc.Router.{lookup}
use round_based.EchoBroadcast.Errors.{EchoError, Error, sent_msg_from_proto}
use round_based.EchoBroadcast.Message.{Msg}
use round_based.EchoBroadcast.Message
use round_based.EchoBroadcast.Errors
use round_based.EchoBroadcast.Send.{SentMsgs, expect_msg, on_send}
use round_based.EchoBroadcast.Store
use round_based.EchoBroadcast.Store.{
  Reliable, MainRound, NeedsOwnMsg, ReliabilityCheck, with_my_msg, with_echo_output,
}

pub data CompleteRoundError (CompleteErr SendErr : Type 0) : Type 0 where
  complete_round : CompleteErr → CompleteRoundError CompleteErr SendErr
  send : SendErr → CompleteRoundError CompleteErr SendErr
  echo : EchoError → CompleteRoundError CompleteErr SendErr

-- `BTreeMap::remove`
unfoldable pub remove : {V : Type 0} → ℕ → List (ℕ × V) → List (ℕ × V)
remove k [] = []
remove k ((j, v) ∷ m) = if j == k then m else (j, v) ∷ remove k m

-- The witnesses of a registered round, `Inner`.
pub data Inner : Type 0 where
  unmodified with_reliability_check : Inner

-- What `add_round` registers with the engine: the round's own store, or those of the main round and
-- of the echo round.
pub data Registered (E : Reliable) : Type 0 where
  plain : E.S.Store → Registered E
  checked : MainRound E → RoundInput E.Hash → Registered E

-- `reliable_broadcast_required == Some(true)`
abbrev is_required : Option Bool → Bool
is_required none = false
is_required (some required) = required

-- The wrapped engine: how it completes the plain round, the main round and the echo round that were
-- registered with it, and how it sends.
pub record Engine (E : Reliable) : Type 1 where
  pub State : Type 0
  pub CompleteErr : Type 0
  pub SendErr : Type 0
  pub complete_plain : State → State × Result E.S.Output CompleteErr
  pub complete_main : State → State × Result (NeedsOwnMsg E) CompleteErr
  pub complete_echo : State → State × Result (RoundMsgs E.Hash) CompleteErr
  pub send : State → Outgoing (Msg E.Hash E.ProtoMsg) → State × Result (Unit {0}) SendErr

module _ (E : Reliable) (G : Engine E) where
  abbrev pub Sent : Type 0
  Sent = SentMsgs E.ProtoMsg

  abbrev pub Completed : Type 0
  Completed = Result E.S.Output (CompleteRoundError G.CompleteErr G.SendErr)

  -- `add_round`; `none` is the panic of the echo round's store.
  unfoldable pub add_round : PartyIndex → ℕ → Sent → E.S.Store → Option (Sent × Registered E)
  unfolding expect_msg
  add_round i n sent store =
      if is_required (read_prop E.S store requires_reliable_broadcast)
      then elim (Store.new E i n store) [
        | none ↦ none
        | some (main_round, echo_round) ↦
            some (expect_msg sent E.round_number, checked main_round echo_round)
      ]
      else some (sent, plain store)

  -- What `on_send` lets through goes to the engine as a message of the main protocol.
  unfoldable pass_on :
      G.State
      → Result (Outgoing E.ProtoMsg) EchoError
      → G.State × Result (Unit {0}) (Error G.SendErr)
  pass_on s (err e) = (s, err (Error.echo e))
  pass_on s (ok out) =
      let (s', result) = G.send s (map_outgoing (λ m. Msg.main m) out) in
      (s', map_err (λ e. Error.main e) result)

  -- `send`; `round` is the round of a message of the main protocol.
  unfoldable pub send_msg :
      (E.ProtoMsg → ℕ)
      → G.State
      → Sent
      → Outgoing E.ProtoMsg
      → G.State × Sent × Result (Unit {0}) (Error G.SendErr)
  unfolding pass_on
  send_msg round s sent out =
      let (sent', checked_msg) = on_send round sent out in
      let (s', result) = pass_on s checked_msg in (s', sent', result)

  abbrev pub send_to_all : G.State → Msg E.Hash E.ProtoMsg → G.State × Result (Unit {0}) G.SendErr
  send_to_all s m = G.send s (outgoing_all_parties m)

  -- The message that the party itself sent in the round, converted back.
  unfoldable pub own_msg : Option (Option E.ProtoMsg) → Result (Option E.S.Msg) EchoError
  own_msg (some (some msg)) = elim (E.from_protocol_msg msg) [
    | ok m ↦ ok (some m)
    | err _ ↦ err sent_msg_from_proto
  ]
  own_msg (some none) = ok none
  own_msg none = ok none

  -- The check of the echoes, after `complete(echo_round)`.
  unfoldable pub after_echo :
      ReliabilityCheck E → G.State × Result (RoundMsgs E.Hash) G.CompleteErr → G.State × Completed
  after_echo c (s, err e) = (s, err (complete_round e))
  after_echo c (s, ok echoes) = (s, map_err (λ e. echo e) (with_echo_output E c echoes))

  -- What follows `send_to_all`.
  unfoldable pub after_send :
      ReliabilityCheck E → G.State × Result (Unit {0}) G.SendErr → G.State × Completed
  unfolding after_echo
  after_send c (s, err e) = (s, err (send e))
  after_send c (s, ok _) = after_echo c (G.complete_echo s)

  -- What follows `with_my_msg`.
  unfoldable pub after_hash :
      G.State → Result (ReliabilityCheck E × E.Hash) EchoError → G.State × Completed
  unfolding after_send
  after_hash s (err e) = (s, err (echo e))
  after_hash s (ok (c, hash)) = after_send c (send_to_all s (Msg.echo E.round_number hash))

  unfoldable pub after_own_msg :
      G.State → NeedsOwnMsg E → Result (Option E.S.Msg) EchoError → G.State × Completed
  unfolding after_hash
  after_own_msg s need (err e) = (s, err (echo e))
  after_own_msg s need (ok msg) = after_hash s (with_my_msg E need msg)

  -- What follows `complete(main_round)`.
  unfoldable pub after_main :
      Sent → G.State × Result (NeedsOwnMsg E) G.CompleteErr → G.State × Sent × Completed
  unfolding after_own_msg own_msg
  after_main sent (s, err e) = (s, sent, err (complete_round e))
  after_main sent (s, ok need) =
      let (s', result) = after_own_msg s need (own_msg (lookup E.round_number sent)) in
      (s', remove E.round_number sent, result)

  unfoldable pub complete : G.State → Sent → Inner → G.State × Sent × Completed
  unfolding after_main
  complete s sent unmodified =
      let (s', result) = G.complete_plain s in (s', sent, map_err (λ e. complete_round e) result)
  complete s sent with_reliability_check = after_main sent (G.complete_main s)
