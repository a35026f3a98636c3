-- ===== src/EchoBroadcast/Wrap/Checked.antt =====
-- What must have happened before `complete` of round-based/src/echo_broadcast/mod.rs hands out the output
-- of a round with a reliability check.
use mathlib.Core.Option
use round_based.Prelude.{
  ℕ, ◌≡◌, refl, sym, ap, subst, ◌∙◌, inl, inr, true, Option, none, some, Result, ok, err,
  Result-cases, map_err-ok, get_elem?, set, arith,
}
use round_based.Round.SimpleStore.{RoundMsgs}
use round_based.Mpc.Router.{lookup}
use round_based.EchoBroadcast.Errors.{EchoError}
use round_based.EchoBroadcast.Message.{Msg}
use round_based.EchoBroadcast.Store.{
  Reliable, NeedsOwnMsg, ReliabilityCheck, with_my_msg, with_echo_output,
}
use round_based.EchoBroadcast.Store.Agreement.{
  with_my_msg-ok, with_echo_output-ok, none_differs-eq_hash,
}
use round_based.EchoBroadcast.Wrap.{
  Engine, Sent, send_to_all, own_msg, after_echo, after_send, after_hash, after_own_msg, after_main,
  complete, with_reliability_check,
}

module _ (E : Reliable) (G : Engine E) where
  echo-ok :
      (c : ReliabilityCheck E) (x : G.State × Result (RoundMsgs E.Hash) G.CompleteErr)
      (o : E.S.Output)
      → (after_echo E G c x).1 ≡ ok o
      → (echoes : RoundMsgs E.Hash) × (x.1 ≡ ok echoes) × (with_echo_output E c echoes ≡ ok o)
  unfolding after_echo
  echo-ok c (s, err e) o h = ground arith
  echo-ok c (s, ok echoes) o h = (echoes, refl, map_err-ok _ (with_echo_output E c echoes) o h)

  send-ok :
      (c : ReliabilityCheck E) (x : G.State × Result (Unit {0}) G.SendErr) (o : E.S.Output)
      → (after_send E G c x).1 ≡ ok o
      → (x.1 ≡ ok tt) × ((after_echo E G c (G.complete_echo x.0)).1 ≡ ok o)
  unfolding after_send
  send-ok c (s, err e) o h = ground arith
  send-ok c (s, ok u) o h = (refl, h)

  hash-ok :
      (s : G.State) (x : Result (ReliabilityCheck E × E.Hash) EchoError) (o : E.S.Output)
      → (after_hash E G s x).1 ≡ ok o
      → (c : ReliabilityCheck E) × (hash : E.Hash) × (x ≡ ok (c, hash))
        × ((after_send E G c (send_to_all E G s (Msg.echo E.round_number hash))).1 ≡ ok o)
  unfolding after_hash
  hash-ok s (err e) o h = ground arith
  hash-ok s (ok (c, hash)) o h = (c, hash, refl, h)

  own_msg-ok :
      (s : G.State) (need : NeedsOwnMsg E) (x : Result (Option E.S.Msg) EchoError) (o : E.S.Output)
      → (after_own_msg E G s need x).1 ≡ ok o
      → (msg : Option E.S.Msg) × (x ≡ ok msg)
        × ((after_hash E G s (with_my_msg E need msg)).1 ≡ ok o)
  unfolding after_own_msg
  own_msg-ok s need (err e) o h = ground arith
  own_msg-ok s need (ok msg) o h = (msg, refl, h)

  main-ok :
      (sent : Sent E G) (x : G.State × Result (NeedsOwnMsg E) G.CompleteErr) (o : E.S.Output)
      → (after_main E G sent x).2 ≡ ok o
      → (need : NeedsOwnMsg E) × (x.1 ≡ ok need)
        × ((after_own_msg E G x.0 need (own_msg E G (lookup E.round_number sent))).1 ≡ ok o)
  unfolding after_main
  main-ok sent (s, err e) o h = ground arith
  main-ok sent (s, ok need) o h = (need, refl, h)

  -- The message that a party sent in the round, converted back, if it sent one.
  abbrev pub IsOwn : Option (Option E.ProtoMsg) → Option E.S.Msg → Type 0
  IsOwn (some (some sent_msg)) (some m) = E.from_protocol_msg sent_msg ≡ ok m
  IsOwn (some (some sent_msg)) none = ⊥
  IsOwn (some none) (some m) = ⊥
  IsOwn (some none) none = Unit {0}
  IsOwn none (some m) = ⊥
  IsOwn none none = Unit {0}

  own_msg-IsOwn :
      (slot : Option (Option E.ProtoMsg)) (msg : Option E.S.Msg)
      → own_msg E G slot ≡ ok msg
      → IsOwn slot msg
  unfolding own_msg
  own_msg-IsOwn (some (some p)) msg e = elim (Result-cases (E.from_protocol_msg p)) [
    | inl (m, conv) ↦
        let same : some m ≡ msg = ground (arith, rw (conv, own_msg) at e) in
        subst (IsOwn (some (some p))) same conv
    | inr (p', refused) ↦ ground (arith, rw (refused, own_msg) at e)
  ]
  own_msg-IsOwn (some none) msg e =
      let same : ◌≡◌ {A = Option E.S.Msg} none msg = ground arith in
      subst (IsOwn (some none)) same tt
  own_msg-IsOwn none msg e =
      let same : ◌≡◌ {A = Option E.S.Msg} none msg = ground arith in subst (IsOwn none) same tt

  -- `complete` of a round with a reliability check returns an output only after the main round was
  -- complete, the hash of its messages, with the party's own in its place, was sent to all, and the
  -- echo round was complete; every echo compared equal to that hash, and the output is that of the
  -- main round.
  pub complete-checked :
      (s : G.State) (sent : Sent E G) (o : E.S.Output)
      → (complete E G s sent with_reliability_check).2 ≡ ok o
      → (need : NeedsOwnMsg E) × (msg : Option E.S.Msg) × (hash : E.Hash) × (echoes : RoundMsgs
          E.Hash)
        × ((G.complete_main s).1 ≡ ok need)
        × IsOwn (lookup E.round_number sent) msg
        × (hash
            ≡ E.hash
                (set need.received_msgs need.i (Option.map E.to_protocol_msg msg))
                E.round_number
                need.n)
        × ((send_to_all E G (G.complete_main s).0 (Msg.echo E.round_number hash)).1 ≡ ok tt)
        × ((G.complete_echo
              (send_to_all E G (G.complete_main s).0 (Msg.echo E.round_number hash)).0).1
            ≡ ok echoes)
        × ((k : ℕ) (g : E.Hash) → get_elem? echoes.messages k ≡ some g → E.eq_hash g hash ≡ true)
        × (o ≡ need.main_round_output)
  unfolding complete
  complete-checked s sent o h =
      let (need, main, h1) = main-ok sent (G.complete_main s) o h in
      let (msg, own, h2) = own_msg-ok (G.complete_main s).0 need _ o h1 in
      let (c, hash, mine, h3) = hash-ok (G.complete_main s).0 _ o h2 in
      let (went, h4) =
        send-ok c (send_to_all E G (G.complete_main s).0 (Msg.echo E.round_number hash)) o h3 in
      let (echoes, came, passed) = echo-ok c _ o h4 in
      let (hash_is, expected, kept) = with_my_msg-ok E need msg c hash mine in
      let (none_differs, out) = with_echo_output-ok E c echoes o passed in
      (
        need,
        msg,
        hash,
        echoes,
        main,
        own_msg-IsOwn (lookup E.round_number sent) msg own,
        hash_is,
        went,
        came,
        λ k g at.
            ap (E.eq_hash g) (sym expected)
            ∙ none_differs-eq_hash E c.expected_hash echoes.messages k g none_differs at,
        out ∙ kept,
      )
