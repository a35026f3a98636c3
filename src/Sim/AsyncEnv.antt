-- ===== src/Sim/AsyncEnv.antt =====
-- round-based/src/sim/async_env.rs: the simulated asynchronous network. The broadcast channel of
-- `tokio` is a parameter, given by its operations; the counter of ids and the channel are shared by
-- all parties, so they stand in the network. A call of the stream or of the sink runs without an
-- await, and is one step.
pub mod Contract
pub mod Receive
pub mod Send
pub mod Queued
pub mod Drain
mod Tests
use round_based.Prelude.{
  ℕ, zero, suc, ◌+◌, ◌%◌, Bool, true, false, ◌&&◌, not, Option, none, some, List, [], ◌∷◌, Result,
  ok, err, map_err, ◌==◌, if◌then◌else◌, u16_mod, u64_mod,
}
use round_based.Delivery.{
  Incoming, Outgoing, MessageType, MessageDestination, all_parties, one_party, broadcast, p2p,
  PartyIndex, MsgId, map_outgoing, is_p2p,
}
use round_based.StateMachine.SharedState.{Poll, ready, pending}

-- `tokio::sync::broadcast` and `BroadcastStream`, for messages of one type.
pub record Channel (T : Type 0) : Type 1 where
  pub State : Type 0
  pub Receiver : Type 0
  pub RecvError : Type 0
  pub channel : ℕ → State
  pub subscribe : State → State × Receiver
  pub send : State → T → State × Result (Unit {0}) (Unit {0})
  pub poll_next : State → Receiver → Receiver × Poll (Option (Result T RecvError))

pub data MockedDeliveryError (RecvError : Type 0) : Type 0 where
  recv : RecvError → MockedDeliveryError RecvError
  send : MockedDeliveryError RecvError

-- `NextMessageId::next`: `fetch_add` gives the value before the addition, and wraps.
unfoldable pub next : MsgId → MsgId × MsgId
next id = (id, (id + 1) % u64_mod)

unfoldable pub is_destination : MessageDestination → PartyIndex → Bool
is_destination (all_parties _) i = false
is_destination (one_party j) i = j == i

pub record MockedOutgoing : Type 0 where
  pub local_party_idx : PartyIndex

abbrev pub msg_type : MessageDestination → MessageType
msg_type (all_parties reliable) = broadcast reliable
msg_type (one_party _) = p2p

module _ {M : Type 0} where
  -- A message to another party.
  unfoldable pub is_skipped : PartyIndex → Outgoing (Incoming M) → Bool
  unfolding is_destination
  is_skipped local msg = is_p2p msg.recipient && not (is_destination msg.recipient local)

  -- What `start_send` puts into the channel.
  unfoldable pub stamped : PartyIndex → MsgId → Outgoing M → Outgoing (Incoming M)
  stamped sender id msg =
      map_outgoing
        (λ m. record { id = id; sender = sender; msg_type = msg_type msg.recipient; msg = m }) msg

module _ {M : Type 0} (C : Channel (Outgoing (Incoming M))) where
  pub record Network : Type 0 where
    pub channel : C.State
    pub next_party_idx : PartyIndex
    pub next_msg_id : MsgId

  pub record MockedIncoming : Type 0 where
    pub local_party_idx : PartyIndex
    pub receiver : C.Receiver

  pub record MockedDelivery : Type 0 where
    pub incomings : MockedIncoming
    pub outgoings : MockedOutgoing

  abbrev DeliveryError : Type 0
  DeliveryError = MockedDeliveryError C.RecvError

  unfoldable pub with_capacity : ℕ → Network
  with_capacity capacity = record {
    channel = C.channel capacity;
    next_party_idx = 0;
    next_msg_id = 0;
  }

  unfoldable pub new : Network
  new = with_capacity 500

  -- The index is a `u16`.
  unfoldable pub connect_new_party : Network → Network × MockedDelivery
  connect_new_party network =
      let (channel, receiver) = C.subscribe network.channel in
      (
        record network {
          channel = channel;
          next_party_idx = (network.next_party_idx + 1) % u16_mod;
        },
        record {
          incomings = record { local_party_idx = network.next_party_idx; receiver = receiver };
          outgoings = record { local_party_idx = network.next_party_idx };
        },
      )

  -- The loop of `poll_next`; `none` is a loop that ran out of fuel.
  unfoldable pub poll_next :
      ℕ
      → C.State
      → MockedIncoming
      → Option (MockedIncoming × Poll (Option (Result (Incoming M) DeliveryError)))
  unfolding is_skipped
  poll_next zero channel incoming = none
  poll_next (suc fuel) channel incoming =
      let (receiver, polled) = C.poll_next channel incoming.receiver in
      let incoming' : MockedIncoming = record {
        local_party_idx = incoming.local_party_idx;
        receiver = receiver;
      } in
      let next_item = poll_next fuel channel incoming' in
      elim polled [
        | pending ↦ some (incoming', pending)
        | ready none ↦ some (incoming', ready none)
        | ready (some (err e)) ↦ some (incoming', ready (some (err (recv e))))
        | ready (some (ok msg)) ↦
            if is_skipped incoming.local_party_idx msg
            then next_item
            else some (incoming', ready (some (ok msg.msg)))
      ]

  unfoldable pub start_send :
      Network → MockedOutgoing → Outgoing M → Network × Result (Unit {0}) DeliveryError
  unfolding next stamped
  start_send network outgoing msg =
      let (id, next_msg_id) = next network.next_msg_id in
      let (channel, sent) = C.send network.channel (stamped outgoing.local_party_idx id msg) in
      (
        record network { channel = channel; next_msg_id = next_msg_id },
        map_err (λ _. MockedDeliveryError.send) sent,
      )

  unfoldable pub poll_ready : MockedOutgoing → Poll (Result (Unit {0}) DeliveryError)
  poll_ready _ = ready (ok tt)

  unfoldable pub poll_flush : MockedOutgoing → Poll (Result (Unit {0}) DeliveryError)
  poll_flush _ = ready (ok tt)

  unfoldable pub poll_close : MockedOutgoing → Poll (Result (Unit {0}) DeliveryError)
  poll_close _ = ready (ok tt)

  -- The parties of `run_with_capacity_and_setup`: `k` calls of `connect_new_party`.
  unfoldable pub connect_all : ℕ → Network → Network × List MockedDelivery
  unfolding connect_new_party
  connect_all zero network = (network, [])
  connect_all (suc k) network =
      let (network', delivery) = connect_new_party network in
      let (network'', deliveries) = connect_all k network' in (network'', delivery ∷ deliveries)
