-- ===== src/Mpc/Party/Complete.antt =====
-- The loop of `MpcParty::complete`, round-based/src/mpc/party/mod.rs.
use mathlib.Core.Option
use round_based.Prelude.{
  ℕ, ◌≡◌, refl, ap, ◌∙◌, inl, inr, Bool, true, Option, none, some, List, [], ◌∷◌, ◌++◌, map, Result,
  ok, err, map_err, ◌==◌, arith, Bool-cases, Option-cases, is_some,
}
use round_based.Delivery.{Incoming}
use round_based.Mpc.Errors.{map_io_err}
use round_based.Mpc.Protocol.{Protocol, IsLawful}
use round_based.Mpc.Process.{
  ProcessRoundMessageImpl, RoundResult, in_progress, completed, process_message,
}
use round_based.Mpc.Process.Steps.{process_all, process_all-in_progress}
use round_based.Mpc.Router.{Boxed, RoundsRouter, lookup, received_msg, complete_round}
use round_based.Mpc.Router.Routing.{receive_all, messages_of, absorb, lookup-receive_all}
use round_based.Mpc.Router.Retrieval.{own_box, taken, handed_out, complete_round-handed_out}
use round_based.Mpc.Party.{Sink, complete_loop}

module _ (P : Protocol) where
  abbrev is_registered : RoundsRouter P → ℕ → Bool
  is_registered router k = is_some (lookup k router.rounds)

  -- Each message belongs to a registered round.
  abbrev AllRegistered : RoundsRouter P → List (Incoming P.Msg) → Type 0
  AllRegistered router [] = Unit {0}
  AllRegistered router (m ∷ ms) =
      (is_registered router (P.round m.msg) ≡ true) × AllRegistered router ms

  is_some-map :
      (f : Boxed P → Boxed P) (o : Option (Option (Boxed P)))
      → is_some (Option.map (Option.map f) o) ≡ is_some o
  is_some-map f none = refl
  is_some-map f (some b) = refl

  received-is_registered :
      (router : RoundsRouter P) (m : Incoming P.Msg) (k : ℕ)
      → is_registered (received_msg P router m).0 k ≡ is_registered router k
  unfolding receive_all
  received-is_registered router m k =
      ap is_some (lookup-receive_all P router (m ∷ []) k)
      ∙ is_some-map (absorb P (messages_of P k (m ∷ []))) (lookup k router.rounds)

  received-AllRegistered :
      (router : RoundsRouter P) (m : Incoming P.Msg) (ms : List (Incoming P.Msg))
      → AllRegistered router ms
      → AllRegistered (received_msg P router m).0 ms
  received-AllRegistered router m [] h = tt
  received-AllRegistered router m (x ∷ ms) h = (
    received-is_registered router m (P.round x.msg) ∙ h.0,
    received-AllRegistered router m ms h.1,
  )

  received_ok :
      (router : RoundsRouter P) (m : Incoming P.Msg)
      → is_registered router (P.round m.msg) ≡ true
      → (received_msg P router m).1 ≡ ok tt
  unfolding received_msg
  received_ok router m h = elim (Option-cases (lookup (P.round m.msg) router.rounds)) [
    | inl e ↦ ground arith
    | inr (none, e) ↦ rw (e, received_msg)
    | inr (some b, e) ↦ rw (e, received_msg)
  ]

  module _ (r : P.R) where
    messages_of_step :
        (p : ProcessRoundMessageImpl (P.store r)) (m : Incoming P.Msg) (ms : List (Incoming P.Msg))
        → process_all P r
            (process_all P r p (messages_of P (P.round_number r) (m ∷ [])))
            (messages_of P (P.round_number r) ms)
          ≡ process_all P r p (messages_of P (P.round_number r) (m ∷ ms))
    messages_of_step p m ms = elim (Bool-cases (P.round m.msg == P.round_number r)) [
      | inl own ↦ rw own
      | inr other ↦ rw other
    ]

    lookup-received :
        (router : RoundsRouter P) (m : Incoming P.Msg) (p : ProcessRoundMessageImpl (P.store r))
        → lookup (P.round_number r) router.rounds ≡ some (some (record { kind = r; round = p }))
        → lookup (P.round_number r) (received_msg P router m).0.rounds
          ≡ some (
              some (record {
                kind = r;
                round = process_all P r p (messages_of P (P.round_number r) (m ∷ []));
              }))
    unfolding receive_all
    lookup-received router m p e =
        lookup-receive_all P router (m ∷ []) (P.round_number r)
        ∙ ap (Option.map (Option.map (absorb P (messages_of P (P.round_number r) (m ∷ []))))) e

  module _ (lawful : IsLawful P) (E : Type 0) (K : Sink P.Msg E) (r : P.R) where
    abbrev items : List (Incoming P.Msg) → List (Result (Incoming P.Msg) E)
    items = map (λ m. ok m)

    pub loop_done :
        (router router' : RoundsRouter P) (m : Incoming P.Msg) (result : RoundResult (P.store r))
        (rest : List (Result (Incoming P.Msg) E))
        → (received_msg P router m).1 ≡ ok tt
        → complete_round P (received_msg P router m).0 r ≡ (router', ok result)
        → complete_loop P E K r router (ok m ∷ rest)
          ≡ (router', rest, map_err (map_io_err (λ e. absurd e)) result)
    unfolding complete_loop
    loop_done router router' m result rest routed over =
        rw (routed, complete_loop)
          (rw (ap (λ x. x.1) over, complete_loop) (rw (ap (λ x. x.0) over)))

    pub loop_next :
        (router router' : RoundsRouter P) (m : Incoming P.Msg)
        (rest : List (Result (Incoming P.Msg) E))
        → (received_msg P router m).1 ≡ ok tt
        → complete_round P (received_msg P router m).0 r ≡ (router', err tt)
        → complete_loop P E K r router (ok m ∷ rest) ≡ complete_loop P E K r router' rest
    unfolding complete_loop
    loop_next router router' m rest routed more =
        rw (routed, complete_loop)
          (rw (ap (λ x. x.1) more, complete_loop) (rw (ap (λ x. x.0) more)))

    -- In a lawful protocol, let a registered round be in progress once the messages before the
    -- last have been processed, and let the last message complete it; each message is of a
    -- registered round. Then the loop of `complete` reads the stream just as far as that last
    -- message, whatever rounds the messages before it belong to. It returns the round's output or
    -- error, leaves the rest of the stream unread, and every other round has received its
    -- messages.
    pub complete_loop-completes :
        (init : List (Incoming P.Msg)) (router : RoundsRouter P)
        (p : ProcessRoundMessageImpl (P.store r)) (s : (P.store r).Store) (last : Incoming P.Msg)
        (result : RoundResult (P.store r)) (rest : List (Result (Incoming P.Msg) E))
        → AllRegistered router (init ++ last ∷ [])
        → lookup (P.round_number r) router.rounds ≡ some (some (own_box P lawful r p))
        → process_all P r p (messages_of P (P.round_number r) init) ≡ in_progress s
        → P.round last.msg ≡ P.round_number r
        → process_message P r (in_progress s) last ≡ completed result
        → complete_loop P E K r router (items init ++ ok last ∷ rest) ≡ (
          taken P lawful r (receive_all P router (init ++ last ∷ [])),
          rest,
          map_err (map_io_err (λ e. absurd e)) result,
        )
    unfolding receive_all handed_out
    complete_loop-completes [] router p s last result rest reg at prog own done =
        let self : (P.round last.msg == P.round_number r) ≡ true = ground arith in
        let q : process_all P r p (messages_of P (P.round_number r) (last ∷ []))
            ≡ completed result =
          rw (self, prog) done in
        let received = (received_msg P router last).0 in
        let at' =
          lookup-received r router last p at ∙ ap (λ x. some (some (own_box P lawful r x))) q in
        loop_done router (taken P lawful r received) last result rest
          (received_ok router last reg.0)
          (complete_round-handed_out P lawful r received (completed result) at')
    complete_loop-completes (m ∷ init) router p s last result rest reg at prog own done =
        let k = P.round_number r in
        let p' = process_all P r p (messages_of P k (m ∷ [])) in
        let prog' : process_all P r p' (messages_of P k init) ≡ in_progress s =
          messages_of_step r p m init ∙ prog in
        let (s', still) = process_all-in_progress P r p' (messages_of P k init) s prog' in
        let received = (received_msg P router m).0 in
        let at' = lookup-received r router m p at in
        let at'' = at' ∙ ap (λ x. some (some (own_box P lawful r x))) still in
        loop_next router received m _ (received_ok router m reg.0)
          (complete_round-handed_out P lawful r received (in_progress s') at'')
        ∙ complete_loop-completes init received p' s last result rest
            (received-AllRegistered router m (init ++ last ∷ []) reg.1) at' prog' own done
