-- ===== src/Mpc/Party/Many.antt =====
-- `SendMany` of round-based/src/mpc/party/mod.rs, with the default methods of the trait in
-- round-based/src/mpc/mod.rs, and the runtime of round-based/src/mpc/party/runtime.rs.
use mathlib.Core.List.{append_assoc, append-nil}
use round_based.Prelude.{
  ◌≡◌, refl, sym, ap, ◌∙◌, inl, inr, Bool, true, List, [], ◌∷◌, ◌++◌, Result, ok, err, Result-cases,
  arith, if◌then◌else◌,
}
use round_based.Delivery.{
  Outgoing, PartyIndex, outgoing_p2p, outgoing_all_parties, outgoing_reliable_broadcast,
}
use round_based.StateMachine.SharedState.{Poll, ready, pending}
use round_based.Mpc.Protocol.{Protocol}
use round_based.Mpc.Party.Sending.{logged, send-logged}
use round_based.Mpc.Party.{Sink, MpcParty}
use round_based.Mpc.Party

-- `YieldNow` of the unknown runtime: pending once, and then ready.
unfoldable poll_yield_now : Bool → Bool × Poll (Unit {0})
poll_yield_now yielded = if yielded then (yielded, ready tt) else (true, pending)

module _ (P : Protocol) (E : Type 0) (K : Sink P.Msg E) where
  pub record SendMany : Type 0 where
    pub party : MpcParty P E K

  abbrev pub send_many : MpcParty P E K → SendMany
  send_many party = record { party = party }

  abbrev with_outgoings : MpcParty P E K → K.State → MpcParty P E K
  with_outgoings party outgoings = record {
    router = party.router;
    halves = record { incomings = party.incomings; outgoings = outgoings };
  }

  -- A message is fed to the sink, which is not flushed.
  unfoldable pub send : SendMany → Outgoing P.Msg → SendMany × Result (Unit {0}) E
  send many msg =
      let (outgoings, result) = K.feed many.party.outgoings msg in
      (record { party = with_outgoings many.party outgoings }, result)

  abbrev send_p2p : SendMany → PartyIndex → P.Msg → SendMany × Result (Unit {0}) E
  send_p2p many recipient msg = send many (outgoing_p2p recipient msg)

  abbrev send_to_all : SendMany → P.Msg → SendMany × Result (Unit {0}) E
  send_to_all many msg = send many (outgoing_all_parties msg)

  abbrev reliably_broadcast : SendMany → P.Msg → SendMany × Result (Unit {0}) E
  reliably_broadcast many msg = send many (outgoing_reliable_broadcast msg)

  -- The party is handed back only where the sink was flushed.
  unfoldable pub flush : SendMany → Result (MpcParty P E K) E
  flush many =
      let (outgoings, result) = K.flush many.party.outgoings in
      elim result [ ok _ ↦ ok (with_outgoings many.party outgoings) | err e ↦ err e ]

  -- A batch of messages, and the same messages one by one.
  unfoldable pub send_batch : SendMany → List (Outgoing P.Msg) → SendMany
  send_batch many [] = many
  send_batch many (msg ∷ msgs) = send_batch (send many msg).0 msgs

  unfoldable pub send_each : MpcParty P E K → List (Outgoing P.Msg) → MpcParty P E K
  send_each party [] = party
  send_each party (msg ∷ msgs) = send_each (Party.send P E K party msg).0 msgs

module _ (P : Protocol) (E : Type 0) (K : Sink P.Msg E) where
  abbrev Log : Sink P.Msg E
  Log = logged P E K

  send_each-logged :
      (party : MpcParty P E Log) (msgs : List (Outgoing P.Msg))
      → (send_each P E Log party msgs).outgoings.1 ≡ party.outgoings.1 ++ msgs
  unfolding send_each
  send_each-logged party [] = sym (append-nil party.outgoings.1)
  send_each-logged party (msg ∷ msgs) =
      send_each-logged (Party.send P E Log party msg).0 msgs
      ∙ ap (λ l. l ++ msgs) (send-logged P E K party msg)
      ∙ append_assoc party.outgoings.1 (msg ∷ []) msgs

  send_batch-logged :
      (many : SendMany P E Log) (msgs : List (Outgoing P.Msg))
      → ((send_batch P E Log many msgs).party.outgoings.1 ≡ many.party.outgoings.1 ++ msgs)
        × ((send_batch P E Log many msgs).party.router ≡ many.party.router)
        × ((send_batch P E Log many msgs).party.incomings ≡ many.party.incomings)
  unfolding send_batch send
  send_batch-logged many [] = (sym (append-nil many.party.outgoings.1), refl, refl)
  send_batch-logged many (msg ∷ msgs) =
      let (sent, rounds, items) = send_batch-logged (send P E Log many msg).0 msgs in
      (sent ∙ append_assoc many.party.outgoings.1 (msg ∷ []) msgs, rounds, items)

  ok-injective : {A : Type 0} {a b : A} → ◌≡◌ {A = Result A E} (ok a) (ok b) → a ≡ b
  ok-injective h = ground arith

  flush-logged :
      (many : SendMany P E Log) (party : MpcParty P E Log)
      → flush P E Log many ≡ ok party
      → (party.outgoings.1 ≡ many.party.outgoings.1)
        × (party.router ≡ many.party.router)
        × (party.incomings ≡ many.party.incomings)
  unfolding flush
  flush-logged many party e = elim (Result-cases (K.flush many.party.outgoings.0).1) [
    | inl (u, flushed) ↦
        let kept : with_outgoings P E Log many.party
              ((K.flush many.party.outgoings.0).0, many.party.outgoings.1)
            ≡ party =
          ok-injective (rw (flushed, flush) at e) in
        (
          ap (λ p. p.outgoings.1) (sym kept),
          ap (λ p. p.router) (sym kept),
          ap (λ p. p.incomings) (sym kept),
        )
    | inr (x, failed) ↦ ground (arith, rw (failed, flush) at e)
  ]

  -- When a batch that was sent through `send_many` is flushed, the party that is handed back has fed
  -- to its sink, behind what it had fed before, exactly the messages of the batch, in their order,
  -- as it does when it sends them one by one; its rounds and its stream are untouched.
  pub flush-send_batch :
      (party party' : MpcParty P E Log) (msgs : List (Outgoing P.Msg))
      → flush P E Log (send_batch P E Log (send_many P E Log party) msgs) ≡ ok party'
      → (party'.outgoings.1 ≡ party.outgoings.1 ++ msgs)
        × (party'.outgoings.1 ≡ (send_each P E Log party msgs).outgoings.1)
        × (party'.router ≡ party.router)
        × (party'.incomings ≡ party.incomings)
  flush-send_batch party party' msgs e =
      let (fed, rounds, items) = send_batch-logged (send_many P E Log party) msgs in
      let (fed', rounds', items') =
        flush-logged (send_batch P E Log (send_many P E Log party) msgs) party' e in
      (fed' ∙ fed, fed' ∙ fed ∙ sym (send_each-logged party msgs), rounds' ∙ rounds, items' ∙ items)
