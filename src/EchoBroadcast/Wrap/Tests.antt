-- ===== src/EchoBroadcast/Wrap/Tests.antt =====
-- `WithEchoBroadcast` of round-based/src/echo_broadcast/mod.rs at concrete inputs.
use mathlib.Core.Option
use round_based.Prelude.{
  ℕ, zero, suc, ◌+◌, ◌≡◌, refl, false, Option, none, some, List, [], ◌∷◌, ok, err, true, set,
  get_elem?, arith,
}
use round_based.Delivery.{Outgoing, all_parties}
use round_based.Round.SimpleStore.{RoundMsgs}
use round_based.EchoBroadcast.Message.{echo}
use round_based.EchoBroadcast.Store.{NeedsOwnMsg, with_my_msg, with_echo_output, any_other}
use round_based.EchoBroadcast.Wrap.{
  Engine, with_reliability_check, complete, own_msg, send_to_all, after_main, after_own_msg,
  after_hash, after_send, after_echo,
}
use round_based.EchoBroadcast.Wrap.Checked.{IsOwn, complete-checked}
use round_based.EchoBroadcast.Wrap.Many.{Batch, send_batch, flush, own_msg-flush}
use round_based.EchoBroadcast.Wrap.Many
use round_based.EchoBroadcast.Send.{on_send}
use round_based.Mpc.Router.{insert}
use round_based.Mpc.Router.{lookup}
use round_based.EchoBroadcast.Tests.{reliable_5, slots, round_e, msgs_1, needs_1, echoes_1}

-- An engine that has the messages of party 1, and counts what it sends.
abbrev engine_1 : Engine round_e
engine_1 = record {
  State = ℕ;
  CompleteErr = ℕ;
  SendErr = ℕ;
  complete_plain = λ s. (s, err 0);
  complete_main = λ s. (s, ok needs_1);
  complete_echo = λ s. (s, ok echoes_1);
  send = λ s m. (s + 1, ok tt);
}

abbrev sent_11 : List (ℕ × Option ℕ)
sent_11 = (1, some 11) ∷ []

completes_1 : (complete round_e engine_1 0 sent_11 with_reliability_check).2 ≡ ok msgs_1
unfolding complete after_main after_own_msg after_hash after_send after_echo own_msg lookup
    with_my_msg with_echo_output any_other
completes_1 = refl

complete-checked_example :
    (need : NeedsOwnMsg round_e) × (msg : Option ℕ) × (h : List (Option ℕ)) × (echoes : RoundMsgs
      (List (Option ℕ)))
    × ((engine_1.complete_main 0).1 ≡ ok need)
    × IsOwn round_e engine_1 (lookup 1 sent_11) msg
    × (h
        ≡ round_e.hash
            (set need.received_msgs need.i (Option.map round_e.to_protocol_msg msg))
            1
            need.n)
    × ((send_to_all round_e engine_1 0 (echo 1 h)).1 ≡ ok tt)
    × ((engine_1.complete_echo (send_to_all round_e engine_1 0 (echo 1 h)).0).1 ≡ ok echoes)
    × ((k : ℕ) (g : List (Option ℕ))
        → get_elem? echoes.messages k ≡ some g
        → round_e.eq_hash g h ≡ true)
    × (msgs_1 ≡ need.main_round_output)
complete-checked_example = complete-checked round_e engine_1 0 sent_11 msgs_1 completes_1

nothing_sent : lookup 1 slots ≡ some none
unfolding lookup
nothing_sent = refl

abbrev batch_1 : Batch round_e engine_1
batch_1 = record { State = ℕ; send_many = λ s. s; send = λ s m. (s + 1, ok tt); flush = λ s. ok s }

-- The number 0 is a message of round 2, which has no reliability check.
abbrev round_of : ℕ → ℕ
round_of zero = 2
round_of (suc _) = 1

abbrev plain_0 : Outgoing ℕ
plain_0 = record { recipient = all_parties false; msg = 0 }

abbrev sent_5 : List (ℕ × Option ℕ)
sent_5 = (1, some 5) ∷ []

-- The second broadcast of the round is refused, and does not reach the engine.
flushes :
    flush round_e engine_1 batch_1 (
      send_batch round_e engine_1 batch_1 round_of
        (0, slots)
        (plain_0 ∷ reliable_5 ∷ reliable_5 ∷ []))
    ≡ ok (2, sent_5)
unfolding flush send_batch Many.send on_send lookup insert
flushes = refl

own_msg-flush_example : own_msg round_e engine_1 (lookup 1 sent_5) ≡ ok (some 5)
own_msg-flush_example =
    own_msg-flush round_e engine_1 batch_1 round_of 0 2 slots sent_5 (plain_0 ∷ [])
      (reliable_5 ∷ []) reliable_5 5 refl (ground arith, tt) nothing_sent refl refl flushes
