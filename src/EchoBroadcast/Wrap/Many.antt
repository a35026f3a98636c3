-- ===== src/EchoBroadcast/Wrap/Many.antt =====
-- `SendMany` of `WithEchoBroadcast`, round-based/src/echo_broadcast/mod.rs. The batch of the engine
-- that is wrapped is given by what it does.
use round_based.Prelude.{
  ℕ, ◌≡◌, ◌≢◌, refl, sym, ap, subst, ◌∙◌, true, inl, inr, Bool-cases, none, some, List, [], ◌∷◌,
  ◌++◌, Result, ok, err, map_err, ==_ne, ◌==◌, arith,
}
use round_based.Delivery.{Outgoing, map_outgoing, is_reliable_broadcast}
use round_based.Mpc.Router.{lookup}
use round_based.EchoBroadcast.Errors.{EchoError, Error}
use round_based.EchoBroadcast.Message.{Msg}
use round_based.EchoBroadcast.Send.{
  on_send, Sending, plain, not_registered, not_reliable, twice, recorded, on_send-Sending,
}
use round_based.EchoBroadcast.Store.{Reliable}
use round_based.EchoBroadcast.Wrap.{Engine, Sent, own_msg}
use round_based.EchoBroadcast.Wrap.Own.{from_slot, own_msg_at}

-- A batch of the wrapped engine, that is handed back as the engine when it is flushed.
pub record Batch (E : Reliable) (G : Engine E) : Type 1 where
  pub State : Type 0
  pub send_many : G.State → State
  pub send : State → Outgoing (Msg E.Hash E.ProtoMsg) → State × Result (Unit {0}) G.SendErr
  pub flush : State → Result G.State G.SendErr

module _ (E : Reliable) (G : Engine E) (B : Batch E G) where
  abbrev send_many : G.State → Sent E G → B.State × Sent E G
  send_many s sent = (B.send_many s, sent)

  unfoldable pass_on :
      B.State
      → Result (Outgoing E.ProtoMsg) EchoError
      → B.State × Result (Unit {0}) (Error G.SendErr)
  pass_on s (err e) = (s, err (Error.echo e))
  pass_on s (ok out) =
      let (s', result) = B.send s (map_outgoing (λ m. Msg.main m) out) in
      (s', map_err (λ e. Error.main e) result)

  unfoldable pub send :
      (E.ProtoMsg → ℕ)
      → B.State × Sent E G
      → Outgoing E.ProtoMsg
      → (B.State × Sent E G) × Result (Unit {0}) (Error G.SendErr)
  unfolding pass_on
  send round (s, sent) out =
      let (sent', checked_msg) = on_send round sent out in
      let (s', result) = pass_on s checked_msg in ((s', sent'), result)

  unfoldable pub flush : B.State × Sent E G → Result (G.State × Sent E G) (Error G.SendErr)
  flush (s, sent) = elim (B.flush s) [ ok s' ↦ ok (s', sent) | err e ↦ err (Error.main e) ]

  -- The messages of a batch, whatever becomes of each.
  unfoldable pub send_batch :
      (E.ProtoMsg → ℕ) → B.State × Sent E G → List (Outgoing E.ProtoMsg) → B.State × Sent E G
  send_batch round many [] = many
  send_batch round many (out ∷ outs) = send_batch round (send round many out).0 outs

module _ (E : Reliable) (G : Engine E) (round : E.ProtoMsg → ℕ) where
  abbrev OnSend : Type 0
  OnSend = Sent E G × Result (Outgoing E.ProtoMsg) EchoError

  other_round :
      (sent : Sent E G) (out : Outgoing E.ProtoMsg) (x : OnSend) (k : ℕ)
      → Sending round sent out x
      → round out.msg ≢ k
      → lookup k x.0 ≡ lookup k sent
  other_round sent out x k (plain _ _ e) ne = ap (λ y. lookup k y.0) e
  other_round sent out x k (not_registered _ _ e) ne = ap (λ y. lookup k y.0) e
  other_round sent out x k (not_reliable slot _ _ e) ne = ap (λ y. lookup k y.0) e
  other_round sent out x k (twice m _ _ e) ne = ap (λ y. lookup k y.0) e
  other_round sent out x k (recorded _ _ _ now) ne = now k ∙ rw (==_ne (round out.msg) k ne) refl

  sent_once :
      (sent : Sent E G) (out : Outgoing E.ProtoMsg) (x : OnSend) (k : ℕ) (m : E.ProtoMsg)
      → Sending round sent out x
      → lookup k sent ≡ some (some m)
      → lookup k x.0 ≡ some (some m)
  sent_once sent out x k m (plain _ _ e) at = ap (λ y. lookup k y.0) e ∙ at
  sent_once sent out x k m (not_registered _ _ e) at = ap (λ y. lookup k y.0) e ∙ at
  sent_once sent out x k m (not_reliable slot _ _ e) at = ap (λ y. lookup k y.0) e ∙ at
  sent_once sent out x k m (twice m' _ _ e) at = ap (λ y. lookup k y.0) e ∙ at
  sent_once sent out x k m (recorded free _ _ now) at = elim (Bool-cases (round out.msg == k)) [
    | inl here ↦
        let same : round out.msg ≡ k = ground arith in
        let at' : lookup (round out.msg) sent ≡ some (some m) = ap (λ j. lookup j sent) same ∙ at in
        ground arith
    | inr there ↦ now k ∙ rw there at
  ]

module _ (E : Reliable) (G : Engine E) (B : Batch E G) (round : E.ProtoMsg → ℕ) where
  -- None of the messages is of the round.
  abbrev pub IsBefore : ℕ → List (Outgoing E.ProtoMsg) → Type 0
  IsBefore k [] = Unit {0}
  IsBefore k (out ∷ outs) = (round out.msg ≢ k) × IsBefore k outs

  batch_after :
      (many : B.State × Sent E G) (outs : List (Outgoing E.ProtoMsg)) (k : ℕ) (m : E.ProtoMsg)
      → lookup k many.1 ≡ some (some m)
      → lookup k (send_batch E G B round many outs).1 ≡ some (some m)
  unfolding send_batch send
  batch_after many [] k m at = at
  batch_after many (out ∷ outs) k m at = batch_after (send E G B round many out).0 outs k m (
      sent_once E G round many.1 out (on_send round many.1 out) k m
        (on_send-Sending round many.1 out) at)

  batch_before :
      (many : B.State × Sent E G) (before after : List (Outgoing E.ProtoMsg))
      (out : Outgoing E.ProtoMsg)
      → IsBefore (round out.msg) before
      → lookup (round out.msg) many.1 ≡ some none
      → is_reliable_broadcast out.recipient ≡ true
      → lookup (round out.msg) (send_batch E G B round many (before ++ out ∷ after)).1
        ≡ some (some out.msg)
  unfolding send_batch send
  batch_before many [] after out others free reliable =
      batch_after (send E G B round many out).0 after (round out.msg) out.msg (
        from_slot E G round many.1 out (on_send round many.1 out) (on_send-Sending round many.1 out)
          free reliable)
  batch_before many (x ∷ before) after out (other, others) free reliable =
      batch_before (send E G B round many x).0 before after out others
        (other_round E G round many.1 x (on_send round many.1 x) (round out.msg)
            (on_send-Sending round many.1 x) other
          ∙ free)
        reliable

  flush_kept :
      (many : B.State × Sent E G) (s' : G.State) (sent' : Sent E G)
      → flush E G B many ≡ ok (s', sent')
      → many.1 ≡ sent'
  unfolding flush
  flush_kept many s' sent' e = ground arith

  -- Let a batch be sent through `send_many` and flushed, and let the first of its messages of a round
  -- with a reliability check, in which nothing was sent before, be a reliable broadcast. Then that
  -- message is the one that `complete` puts into the hash as the party's own, whatever stands behind
  -- it in the batch and whatever the engine makes of each message.
  pub own_msg-flush :
      (s s' : G.State) (sent sent' : Sent E G) (before after : List (Outgoing E.ProtoMsg))
      (out : Outgoing E.ProtoMsg) (m : E.S.Msg)
      → round out.msg ≡ E.round_number
      → IsBefore E.round_number before
      → lookup E.round_number sent ≡ some none
      → is_reliable_broadcast out.recipient ≡ true
      → E.from_protocol_msg out.msg ≡ ok m
      → flush E G B (send_batch E G B round (send_many E G B s sent) (before ++ out ∷ after))
        ≡ ok (s', sent')
      → own_msg E G (lookup E.round_number sent') ≡ ok (some m)
  own_msg-flush s s' sent sent' before after out m at others free reliable conv e =
      let many = send_batch E G B round (send_many E G B s sent) (before ++ out ∷ after) in
      own_msg_at E G round (lookup E.round_number sent') out.msg m
        (ap (λ k. lookup k sent') (sym at)
          ∙ ap (λ x. lookup (round out.msg) x) (sym (flush_kept many s' sent' e))
          ∙ batch_before (send_many E G B s sent) before after out
              (subst (λ k. IsBefore k before) (sym at) others) (ap (λ k. lookup k sent) at ∙ free)
              reliable)
        conv
