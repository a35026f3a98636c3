-- ===== src/Mpc/Party.antt =====
-- `MpcParty` of round-based/src/mpc/party/mod.rs over the two halves of a delivery. The incoming
-- half is the list of the items that the stream yields before it ends; the outgoing half is a sink
-- that the party does not implement, given by its operations. A future that waits forever is a
-- stream that ends: nothing after that point is stated.
pub mod Complete
pub mod Sending
pub mod Many
pub mod Held
pub mod Origin
mod Tests
use round_based.Prelude.{ℕ, Option, none, some, List, [], ◌∷◌, Result, ok, err, map_err}
use round_based.Delivery.{
  Incoming, Outgoing, PartyIndex, outgoing_p2p, outgoing_all_parties, outgoing_reliable_broadcast,
}
use round_based.Mpc.Errors.{CompleteRoundError, io, unexpected_eof, from_unregistered, map_io_err}
use round_based.Mpc.Protocol.{Protocol}
use round_based.Mpc.Router.{RoundsRouter, received_msg, complete_round}
use round_based.Mpc.Router

-- A sink of `futures`: `feed` puts a message into it and `flush` sends what it holds.
pub record Sink (M E : Type 0) : Type 1 where
  pub State : Type 0
  pub feed : State → Outgoing M → State × Result (Unit {0}) E
  pub flush : State → State × Result (Unit {0}) E

module _ (P : Protocol) (E : Type 0) (K : Sink P.Msg E) where
  -- `Halves<In, Out>`
  pub record Halves : Type 0 where
    pub incomings : List (Result (Incoming P.Msg) E)
    pub outgoings : K.State

  pub record MpcParty : Type 0 where
    pub router : RoundsRouter P
    pub halves : Halves
    pub open halves use *

  unfoldable pub connected_halves : List (Result (Incoming P.Msg) E) → K.State → MpcParty
  connected_halves incomings outgoings = record {
    router = Router.empty P;
    halves = record { incomings = incomings; outgoings = outgoings };
  }

  unfoldable pub add_round : MpcParty → (r : P.R) → (P.store r).Store → Option MpcParty
  add_round party r store = elim (Router.add_round P party.router r store) [
    | none ↦ none
    | some router ↦ some (record { router = router; halves = party.halves })
  ]

  abbrev pub Completed : P.R → Type 0
  Completed r = Result (P.store r).Output (CompleteRoundError (P.store r).Error E)

  -- The loop of `complete`: read an item, route it, and see whether the round is over. What is
  -- returned is the router, the rest of the stream and the result.
  unfoldable pub complete_loop :
      (r : P.R)
      → RoundsRouter P
      → List (Result (Incoming P.Msg) E)
      → RoundsRouter P × List (Result (Incoming P.Msg) E) × Completed r
  complete_loop r router [] = (router, [], err unexpected_eof)
  complete_loop r router (err e ∷ items) = (router, items, err (io e))
  complete_loop r router (ok incoming ∷ items) =
      let (received, routed) = received_msg P router incoming in
      elim routed [
        | err u ↦ (received, items, err (from_unregistered u))
        | ok _ ↦
            let (tried, completed) = complete_round P received r in
            elim completed [
              | ok result ↦ (tried, items, map_err (map_io_err (λ e. absurd e)) result)
              | err _ ↦ complete_loop r tried items
            ]
      ]

  unfoldable pub complete : MpcParty → (r : P.R) → MpcParty × Completed r
  unfolding complete_loop
  complete party r =
      let (tried, completed) = complete_round P party.router r in
      elim completed [
        | ok result ↦ (
          record { router = tried; halves = party.halves },
          map_err (map_io_err (λ e. absurd e)) result,
        )
        | err _ ↦
            let (router, items, result) = complete_loop r tried party.incomings in
            (
              record {
                router = router;
                halves = record { incomings = items; outgoings = party.outgoings };
              },
              result,
            )
      ]

  -- `SinkExt::send`: feed the message and flush.
  unfoldable pub send : MpcParty → Outgoing P.Msg → MpcParty × Result (Unit {0}) E
  send party msg =
      let (fed, result) = K.feed party.outgoings msg in
      let (flushed, result') = K.flush fed in
      elim result [
        | err e ↦ (
          record {
            router = party.router;
            halves = record { incomings = party.incomings; outgoings = fed };
          },
          err e,
        )
        | ok _ ↦ (
          record {
            router = party.router;
            halves = record { incomings = party.incomings; outgoings = flushed };
          },
          result',
        )
      ]

  abbrev send_p2p : MpcParty → PartyIndex → P.Msg → MpcParty × Result (Unit {0}) E
  send_p2p party recipient msg = send party (outgoing_p2p recipient msg)

  abbrev pub send_to_all : MpcParty → P.Msg → MpcParty × Result (Unit {0}) E
  send_to_all party msg = send party (outgoing_all_parties msg)

  abbrev pub reliably_broadcast : MpcParty → P.Msg → MpcParty × Result (Unit {0}) E
  reliably_broadcast party msg = send party (outgoing_reliable_broadcast msg)
