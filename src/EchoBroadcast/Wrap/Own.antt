-- ===== src/EchoBroadcast/Wrap/Own.antt =====
-- How the message that a party sends gets into the hash, round-based/src/echo_broadcast/mod.rs.
use round_based.Prelude.{ℕ, ◌≡◌, sym, ap, ◌∙◌, true, Option, none, some, Result, ok, ==_refl, arith}
use round_based.Delivery.{Outgoing, is_reliable_broadcast}
use round_based.Mpc.Router.{lookup}
use round_based.EchoBroadcast.Send.{
  on_send, Sending, plain, not_registered, not_reliable, twice, recorded, on_send-Sending,
}
use round_based.EchoBroadcast.Store.{Reliable}
use round_based.EchoBroadcast.Wrap.{Engine, Sent, own_msg, send_msg}

module _ (E : Reliable) (G : Engine E) (round : E.ProtoMsg → ℕ) where
  pub from_slot :
      (sent : Sent E G) (out : Outgoing E.ProtoMsg) (x : Sent E G × Result (Outgoing E.ProtoMsg) _)
      → Sending round sent out x
      → lookup (round out.msg) sent ≡ some none
      → is_reliable_broadcast out.recipient ≡ true
      → lookup (round out.msg) x.0 ≡ some (some out.msg)
  from_slot sent out x (plain e _ _) free reliable = ground arith
  from_slot sent out x (not_registered e _ _) free reliable = ground arith
  from_slot sent out x (not_reliable slot _ e _) free reliable = ground arith
  from_slot sent out x (twice m e _ _) free reliable = ground arith
  from_slot sent out x (recorded _ _ _ now) free reliable =
      now (round out.msg) ∙ rw (==_refl (round out.msg))

  pub own_msg_at :
      (slot : Option (Option E.ProtoMsg)) (msg : E.ProtoMsg) (m : E.S.Msg)
      → slot ≡ some (some msg)
      → E.from_protocol_msg msg ≡ ok m
      → own_msg E G slot ≡ ok (some m)
  unfolding own_msg
  own_msg_at slot msg m at conv = rw (at, own_msg) (rw (conv, own_msg))

  -- The message that a party reliably broadcasts in a round with a reliability check, where it has
  -- sent none before, is the one that `complete` puts into the hash as the party's own, whatever
  -- the engine makes of sending it.
  pub own_msg-send_msg :
      (s : G.State) (sent : Sent E G) (out : Outgoing E.ProtoMsg) (m : E.S.Msg)
      → round out.msg ≡ E.round_number
      → lookup E.round_number sent ≡ some none
      → is_reliable_broadcast out.recipient ≡ true
      → E.from_protocol_msg out.msg ≡ ok m
      → own_msg E G (lookup E.round_number (send_msg E G round s sent out).1) ≡ ok (some m)
  unfolding send_msg
  own_msg-send_msg s sent out m at free reliable conv =
      own_msg_at _ out.msg m
        (ap (λ k. lookup k (on_send round sent out).0) (sym at)
          ∙ from_slot sent out (on_send round sent out) (on_send-Sending round sent out)
              (ap (λ k. lookup k sent) at ∙ free) reliable)
        conv
