-- ===== src/Mpc/Party/Origin.antt =====
-- Where the output of `MpcParty::complete`, round-based/src/mpc/party/mod.rs, comes from: an
-- invariant of a round's store that the messages of the stream keep holds of the store that put it
-- out.
use round_based.Prelude.{
  suc, ◌≡◌, ◌≢◌, ◌⊎◌, refl, sym, ap, subst, ◌∙◌, inl, inr, List, [], ◌∷◌, Result, ok, err, map_err,
  map_err-ok, arith, Result-cases,
}
use round_based.Delivery.{Incoming}
use round_based.Mpc.Errors.{UnregisteredRound, from_unregistered, map_io_err}
use round_based.Mpc.Protocol.{Protocol, IsLawful}
use round_based.Mpc.Process.{ProcessRoundMessageImpl, RoundResult, in_progress, completed, gone}
use round_based.Mpc.Router.{RoundsRouter, received_msg, complete_round}
use round_based.Mpc.Router.Retrieval.{taken, handed_out, complete_round-handed_out}
use round_based.Mpc.Party.{Sink, MpcParty, complete_loop, complete}
use round_based.Mpc.Party.Held.{
  AllSent, IsKept, FromStore, Holds, HoldsAt, received_msg-HoldsAt, complete_other-HoldsAt,
}
use round_based.Mpc.Party.Complete.{loop_done, loop_next}

module _ (P : Protocol) (A : Incoming P.Msg → Type 0) where
  module _ (E : Type 0) (K : Sink P.Msg E) where
    loop_refused :
        (r : P.R) (router : RoundsRouter P) (m : Incoming P.Msg) (u : UnregisteredRound)
        (rest : List (Result (Incoming P.Msg) E))
        → (received_msg P router m).1 ≡ err u
        → complete_loop P E K r router (ok m ∷ rest)
          ≡ ((received_msg P router m).0, rest, err (from_unregistered u))
    unfolding complete_loop
    loop_refused r router m u rest e = rw (e, complete_loop)

    complete_ready :
        (party : MpcParty P E K) (r : P.R) (result : RoundResult (P.store r))
        → (complete_round P party.router r).1 ≡ ok result
        → complete P E K party r ≡ (
          record { router = (complete_round P party.router r).0; halves = party.halves },
          map_err (map_io_err (λ e. absurd e)) result,
        )
    unfolding complete
    complete_ready party r result e = rw (e, complete)

    complete_waits :
        (party : MpcParty P E K) (r : P.R) (router' : RoundsRouter P)
        → complete_round P party.router r ≡ (router', err tt)
        → complete P E K party r ≡ (
          record {
            router = (complete_loop P E K r router' party.incomings).0;
            halves = record {
              incomings = (complete_loop P E K r router' party.incomings).1;
              outgoings = party.outgoings;
            };
          },
          (complete_loop P E K r router' party.incomings).2,
        )
    unfolding complete
    complete_waits party r router' e = rw (ap (λ x. x.1) e, complete) (rw (ap (λ x. x.0) e))

    module _ (lawful : IsLawful P) (r : P.R) where
      module _ (Inv : (P.store r).Store → Type 0) (kept : IsKept P A r Inv) where
        abbrev Completing : RoundsRouter P → Type 0
        Completing router =
            ((router' : RoundsRouter P) × (complete_round P router r ≡ (router', err tt))
              × HoldsAt P A r Inv router')
            ⊎ ((router' : RoundsRouter P) × (result : RoundResult (P.store r)) × (complete_round P
                    router r
                  ≡ (router', ok result))
                × ((o : (P.store r).Output) → result ≡ ok o → FromStore P A r Inv o))

        over-FromStore :
            (router : RoundsRouter P) (p : ProcessRoundMessageImpl (P.store r))
            → complete_round P router r ≡ handed_out P lawful r router p
            → Holds P A r Inv p
            → HoldsAt P A r Inv router
            → Completing router
        unfolding handed_out
        over-FromStore router (in_progress s) e h at = inl (router, e, at)
        over-FromStore router (completed (ok o')) e h at = inr (
          taken P lawful r router,
          ok o',
          e,
          λ o same. subst (FromStore P A r Inv) (ground arith) h,
        )
        over-FromStore router (completed (err x)) e h at =
            inr (taken P lawful r router, err x, e, λ o same. ground arith)
        over-FromStore router gone e h at =
            inr (taken P lawful r router, _, e, λ o same. ground arith)

        completing : (router : RoundsRouter P) → HoldsAt P A r Inv router → Completing router
        completing router (p, at, h) =
            over-FromStore router p (complete_round-handed_out P lawful r router p at) h (p, at, h)

        -- The output comes from a store that the messages of the stream have fed.
        pub loop-FromStore :
            (items : List (Result (Incoming P.Msg) E)) (router : RoundsRouter P)
            (o : (P.store r).Output)
            → AllSent P A items
            → HoldsAt P A r Inv router
            → (complete_loop P E K r router items).2 ≡ ok o
            → FromStore P A r Inv o
        unfolding complete_loop
        loop-FromStore [] router o sent h e = ground arith
        loop-FromStore (err x ∷ items) router o sent h e = ground arith
        loop-FromStore (ok m ∷ items) router o sent h e =
            elim (Result-cases (received_msg P router m).1) [
              | inr (u, refused) ↦
                  ground (arith, sym (ap (λ x. x.2) (loop_refused r router m u items refused)) ∙ e)
              | inl (_, routed) ↦
                  elim (completing (received_msg P router m).0
                    (received_msg-HoldsAt P A r Inv kept router m (sent 0 m refl) h)) [
                      | inl (router', more, h') ↦
                          loop-FromStore items router' o (λ k m'. sent (suc k) m') h'
                            (sym (
                                ap (λ x. x.2)
                                  (loop_next P lawful E K r router router' m items routed more))
                              ∙ e)
                      | inr (router', result, over, from) ↦ from o (
                          map_err-ok _ result o (
                            sym (
                              ap (λ x. x.2)
                                (loop_done P lawful E K r router router' m result items routed
                                  over))
                            ∙ e))
                    ]
            ]

        -- When `complete` returns an output it is that of a store of the round, and an invariant of
        -- the round's store that the messages of the stream keep holds of that store.
        pub complete-FromStore :
            (party : MpcParty P E K) (o : (P.store r).Output)
            → AllSent P A party.incomings
            → HoldsAt P A r Inv party.router
            → (complete P E K party r).1 ≡ ok o
            → FromStore P A r Inv o
        complete-FromStore party o sent h e = elim (completing party.router h) [
          | inl (router', more, h') ↦
              loop-FromStore party.incomings router' o sent h'
                (sym (ap (λ x. x.1) (complete_waits party r router' more)) ∙ e)
          | inr (router', result, over, from) ↦ from o (
              map_err-ok _ result o
                (sym (ap (λ x. x.1) (complete_ready party r result (ap (λ x. x.1) over))) ∙ e))
        ]

      -- Completing one round leaves the others as the messages read meanwhile make them.
      module _ (r2 : P.R) (Inv : (P.store r2).Store → Type 0) (kept : IsKept P A r2 Inv)
          (apart : P.round_number r ≢ P.round_number r2) where
        loop_other :
            (items : List (Result (Incoming P.Msg) E)) (router : RoundsRouter P)
            → AllSent P A items
            → HoldsAt P A r2 Inv router
            → HoldsAt P A r2 Inv (complete_loop P E K r router items).0
              × AllSent P A (complete_loop P E K r router items).1
        unfolding complete_loop
        loop_other [] router sent h = (h, sent)
        loop_other (err x ∷ items) router sent h = (h, λ k m. sent (suc k) m)
        loop_other (ok m ∷ items) router sent h =
            let received = (received_msg P router m).0 in
            let h' = received_msg-HoldsAt P A r2 Inv kept router m (sent 0 m refl) h in
            let tried = (complete_round P received r).0 in
            let h'' = complete_other-HoldsAt P A r2 Inv received r apart h' in
            elim (Result-cases (received_msg P router m).1) [
              | inr (u, refused) ↦
                  rw (loop_refused r router m u items refused) (h', λ k m'. sent (suc k) m')
              | inl (_, routed) ↦ elim (Result-cases (complete_round P received r).1) [
                | inl (result, over) ↦
                    rw
                      (loop_done P lawful E K r router tried m result items routed
                        (λ i. (tried, over i)))
                      (h'', λ k m'. sent (suc k) m')
                | inr (_, more) ↦
                    rw (loop_next P lawful E K r router tried m items routed (λ i. (tried, more i)))
                      (loop_other items tried (λ k m'. sent (suc k) m') h'')
              ]
            ]

        pub complete_other :
            (party : MpcParty P E K)
            → AllSent P A party.incomings
            → HoldsAt P A r2 Inv party.router
            → HoldsAt P A r2 Inv (complete P E K party r).0.router
              × AllSent P A (complete P E K party r).0.incomings
        complete_other party sent h =
            let tried = (complete_round P party.router r).0 in
            let h' = complete_other-HoldsAt P A r2 Inv party.router r apart h in
            elim (Result-cases (complete_round P party.router r).1) [
              | inl (result, over) ↦ rw (complete_ready party r result over) (h', sent)
              | inr (_, more) ↦
                  rw (complete_waits party r tried (λ i. (tried, more i)))
                    (loop_other party.incomings tried sent h')
            ]
