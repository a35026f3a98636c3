-- ===== src/Mpc/Router/Routing.antt =====
-- How `received_msg` of round-based/src/mpc/party/router.rs distributes messages over rounds.
use mathlib.Core.Option
use round_based.Prelude.{
  ℕ, ◌≡◌, ◌↔◌, refl, sym, ap, ◌∙◌, inl, inr, false, Option, none, some, List, [], ◌∷◌, err, ◌==◌,
  arith, Bool-cases, Option-cases, if◌then◌else◌, subst,
}
use round_based.Delivery.{Incoming}
use round_based.Mpc.Errors.{UnregisteredRound}
use round_based.Mpc.Protocol.{Protocol}
use round_based.Mpc.Process.{needs_more_messages}
use round_based.Mpc.Process.Steps.{process_all, process_message-over}
use round_based.Mpc.Router.{Boxed, RoundsRouter, lookup, deliver, received_msg}
use round_based.Mpc.Router.Rounds.{lookup-insert}

module _ (P : Protocol) where
  -- What `received_msg` makes of the router, message after message.
  unfoldable pub receive_all : RoundsRouter P → List (Incoming P.Msg) → RoundsRouter P
  receive_all router [] = router
  receive_all router (m ∷ ms) = receive_all (received_msg P router m).0 ms

  -- The messages of round `k`, in the order of their arrival.
  abbrev pub messages_of : ℕ → List (Incoming P.Msg) → List (Incoming P.Msg)
  messages_of k [] = []
  messages_of k (m ∷ ms) = if P.round m.msg == k then m ∷ messages_of k ms else messages_of k ms

  abbrev pub absorb : List (Incoming P.Msg) → Boxed P → Boxed P
  absorb ms b = record { kind = b.kind; round = process_all P b.kind b.round ms }

  deliver_lem : (b : Boxed P) (m : Incoming P.Msg) → deliver P b m ≡ absorb (m ∷ []) b
  unfolding deliver
  deliver_lem b m = elim (Bool-cases (needs_more_messages (P.store b.kind) b.round)) [
    | inl more ↦ rw more
    | inr over ↦ rw over (λ i. record {
      kind = b.kind;
      round = sym (process_message-over P b.kind b.round m over) i;
    })
  ]

  received_at :
      (router : RoundsRouter P) (m : Incoming P.Msg) (k : ℕ) (o : Option (Option (Boxed P)))
      → lookup (P.round m.msg) router.rounds ≡ o
      → lookup k (received_msg P router m).0.rounds ≡ (
          if P.round m.msg == k
          then Option.map (Option.map (absorb (m ∷ []))) (lookup k router.rounds)
          else lookup k router.rounds)
  unfolding received_msg
  received_at router m k none e = elim (Bool-cases (P.round m.msg == k)) [
    | inl here ↦
        let q : P.round m.msg ≡ k = ground arith in
        rw (e, received_msg)
          (rw here (
            let z : lookup k router.rounds ≡ none =
              subst (λ i. lookup i router.rounds ≡ none) q e in
            rw z))
    | inr there ↦ rw (e, received_msg) (rw there)
  ]
  received_at router m k (some none) e = elim (Bool-cases (P.round m.msg == k)) [
    | inl here ↦
        let q : P.round m.msg ≡ k = ground arith in
        rw (e, received_msg)
          (rw here (
            let z : lookup k router.rounds ≡ some none =
              subst (λ i. lookup i router.rounds ≡ some none) q e in
            rw z))
    | inr there ↦ rw (e, received_msg) (rw there)
  ]
  received_at router m k (some (some b)) e = elim (Bool-cases (P.round m.msg == k)) [
    | inl here ↦
        let q : P.round m.msg ≡ k = ground arith in
        let z : lookup k router.rounds ≡ some (some b) =
          subst (λ i. lookup i router.rounds ≡ some (some b)) q e in
        rw (e, received_msg)
          (rw (lookup-insert k (P.round m.msg) _ router.rounds, here, z, deliver_lem b m))
    | inr there ↦ rw (e, received_msg) (rw (lookup-insert k (P.round m.msg) _ router.rounds, there))
  ]

  absorb-absorb :
      (m : Incoming P.Msg) (ms : List (Incoming P.Msg)) (o : Option (Option (Boxed P)))
      → Option.map (Option.map (absorb ms)) (Option.map (Option.map (absorb (m ∷ []))) o)
        ≡ Option.map (Option.map (absorb (m ∷ ms))) o
  absorb-absorb m ms none = refl
  absorb-absorb m ms (some none) = refl
  absorb-absorb m ms (some (some b)) = refl

  absorb-nil : (o : Option (Option (Boxed P))) → o ≡ Option.map (Option.map (absorb [])) o
  absorb-nil none = refl
  absorb-nil (some none) = refl
  absorb-nil (some (some b)) = refl

  -- However the messages of several rounds are interleaved, each registered round has processed
  -- exactly its own, in the order of their arrival, and no round is registered or removed.
  pub lookup-receive_all :
      (router : RoundsRouter P) (ms : List (Incoming P.Msg)) (k : ℕ)
      → lookup k (receive_all router ms).rounds
        ≡ Option.map (Option.map (absorb (messages_of k ms))) (lookup k router.rounds)
  unfolding receive_all
  lookup-receive_all router [] k = absorb-nil (lookup k router.rounds)
  lookup-receive_all router (m ∷ ms) k =
      lookup-receive_all (received_msg P router m).0 ms k
      ∙ ap (Option.map (Option.map (absorb (messages_of k ms)))) (received_at router m k _ refl)
      ∙ elim (Bool-cases (P.round m.msg == k)) [
        | inl here ↦ rw here (absorb-absorb m (messages_of k ms) (lookup k router.rounds))
        | inr there ↦ rw there
      ]

  refused_cases :
      (router : RoundsRouter P) (m : Incoming P.Msg)
      → ((x : UnregisteredRound) × ((received_msg P router m).1 ≡ err x))
        ↔ (lookup (P.round m.msg) router.rounds ≡ none)
  unfolding received_msg
  refused_cases router m = elim (Option-cases (lookup (P.round m.msg) router.rounds)) [
    | inl e ↦ (
      λ _. e,
      λ _. (record { n = P.round m.msg; witness_provided = false }, rw (e, received_msg) refl),
    )
    | inr (none, e) ↦
        (λ (x, h). ground (arith, rw (e, received_msg) at h), λ e'. ground (arith, sym e ∙ e'))
    | inr (some b, e) ↦
        (λ (x, h). ground (arith, rw (e, received_msg) at h), λ e'. ground (arith, sym e ∙ e'))
  ]

  map-none : {A B : Type 0} (f : A → B) (o : Option A) → (Option.map f o ≡ none) ↔ (o ≡ none)
  map-none f none = (λ _. refl, λ _. refl)
  map-none f (some a) = (λ e. ground arith, λ e. ground arith)

  -- Whatever messages came before, early, late, doubled or of other rounds, a message is refused,
  -- with any error, exactly when its round was never registered: a round that is registered refuses
  -- none, not even when it is complete.
  pub received_msg-unregistered_iff :
      (router : RoundsRouter P) (ms : List (Incoming P.Msg)) (m : Incoming P.Msg)
      → ((x : UnregisteredRound) × ((received_msg P (receive_all router ms) m).1 ≡ err x))
        ↔ (lookup (P.round m.msg) router.rounds ≡ none)
  received_msg-unregistered_iff router ms m =
      let k = P.round m.msg in
      let (there, back) = refused_cases (receive_all router ms) m in
      let (there', back') =
        map-none (Option.map (absorb (messages_of k ms))) (lookup k router.rounds) in
      let known = lookup-receive_all router ms k in
      (λ h. there' (sym known ∙ there h), λ e. back (known ∙ back' e))
