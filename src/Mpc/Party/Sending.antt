-- ===== src/Mpc/Party/Sending.antt =====
-- Sending through `MpcParty`, round-based/src/mpc/party/mod.rs.
use round_based.Prelude.{◌≡◌, inl, inr, List, [], ◌∷◌, ◌++◌, Result-cases}
use round_based.Delivery.{Outgoing}
use round_based.Mpc.Protocol.{Protocol}
use round_based.Mpc.Router.{complete_round}
use round_based.Mpc.Party.{Sink, MpcParty, send, complete}

module _ (P : Protocol) (E : Type 0) (K : Sink P.Msg E) where
  -- A send, whether it succeeds or not, touches neither the rounds nor the incoming stream.
  pub send-kept :
      (party : MpcParty P E K) (msg : Outgoing P.Msg)
      → ((send P E K party msg).0.router ≡ party.router)
        × ((send P E K party msg).0.incomings ≡ party.incomings)
  unfolding send
  send-kept party msg = elim (Result-cases (K.feed party.outgoings msg).1) [
    | inl (_, e) ↦ (rw (e, send), rw (e, send))
    | inr (x, e) ↦ (rw (e, send), rw (e, send))
  ]

  -- Receiving leaves the sink alone.
  pub complete-kept :
      (party : MpcParty P E K) (r : P.R) → (complete P E K party r).0.outgoings ≡ party.outgoings
  unfolding complete
  complete-kept party r = elim (Result-cases (complete_round P party.router r).1) [
    | inl (_, e) ↦ rw (e, complete)
    | inr (_, e) ↦ rw (e, complete)
  ]

  -- The sink with a record of what was fed to it, in order.
  abbrev pub logged : Sink P.Msg E
  logged = record {
    State = K.State × List (Outgoing P.Msg);
    feed = λ s m. let (sink, result) = K.feed s.0 m in ((sink, s.1 ++ m ∷ []), result);
    flush = λ s. let (sink, result) = K.flush s.0 in ((sink, s.1), result);
  }

module _ (P : Protocol) (E : Type 0) (K : Sink P.Msg E) where
  -- A send feeds its message and nothing else, whether it succeeds or not.
  pub send-logged :
      (party : MpcParty P E (logged P E K)) (msg : Outgoing P.Msg)
      → (send P E (logged P E K) party msg).0.outgoings.1 ≡ party.outgoings.1 ++ msg ∷ []
  unfolding send
  send-logged party msg = elim (Result-cases (K.feed party.outgoings.0 msg).1) [
    | inl (_, e) ↦ rw (e, send)
    | inr (x, e) ↦ rw (e, send)
  ]
