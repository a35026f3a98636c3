-- ===== src/EchoBroadcast/Send.antt =====
-- What `WithEchoBroadcast` of round-based/src/echo_broadcast/mod.rs keeps of the messages that the
-- local party sends in rounds with a reliability check.
use round_based.Prelude.{
  ℕ, ◌≡◌, refl, true, false, Option, none, some, List, Result, ok, err, ◌==◌, if◌then◌else◌, inl,
  inr, Bool-cases, Option-cases,
}
use round_based.Delivery.{Outgoing, all_parties, is_reliable_broadcast}
use round_based.Mpc.Router.{lookup, insert}
use round_based.Mpc.Router.Rounds.{lookup-insert}
use round_based.EchoBroadcast.Errors.{
  EchoError, sent_non_reliable_msg_in_reliable_round, sent_reliable_msg_in_non_reliable_round,
  send_twice,
}

-- `sent_reliable_msgs`: the rounds with a reliability check, and what was sent in each.
abbrev pub SentMsgs : Type 0 → Type 0
SentMsgs M = List (ℕ × Option M)

-- `add_round`, where the round asks for a reliable broadcast.
unfoldable pub expect_msg : {M : Type 0} → SentMsgs M → ℕ → SentMsgs M
expect_msg sent r = insert r none sent

-- `M::round` is a parameter: the message type is the protocol's.
module _ {M : Type 0} (round : M → ℕ) where
  -- The case of a round that is registered with a reliability check; the slot is what was sent.
  unfoldable send_in_reliable :
      SentMsgs M → Outgoing M → Option M → SentMsgs M × Result (Outgoing M) EchoError
  send_in_reliable sent out slot =
      if is_reliable_broadcast out.recipient
      then elim slot [
        | some _ ↦ (sent, err send_twice)
        | none ↦ (
          insert (round out.msg) (some out.msg) sent,
          ok (record { recipient = all_parties false; msg = out.msg }),
        )
      ]
      else (sent, err (sent_non_reliable_msg_in_reliable_round out.recipient (round out.msg)))

  -- `on_send`: the message that is then given to the engine, or the refusal.
  unfoldable pub on_send : SentMsgs M → Outgoing M → SentMsgs M × Result (Outgoing M) EchoError
  unfolding send_in_reliable
  on_send sent out = elim (lookup (round out.msg) sent) [
    | some slot ↦ send_in_reliable sent out slot
    | none ↦
        if is_reliable_broadcast out.recipient
        then (sent, err (sent_reliable_msg_in_non_reliable_round (round out.msg)))
        else (sent, ok out)
  ]

  -- The five ways `on_send` can end.
  pub data Sending (sent : SentMsgs M) (out : Outgoing M)
      (r : SentMsgs M × Result (Outgoing M) EchoError) : Type 0 where
    plain :
        lookup (round out.msg) sent ≡ none
        → is_reliable_broadcast out.recipient ≡ false
        → r ≡ (sent, ok out)
        → Sending sent out r
    not_registered :
        lookup (round out.msg) sent ≡ none
        → is_reliable_broadcast out.recipient ≡ true
        → r ≡ (sent, err (sent_reliable_msg_in_non_reliable_round (round out.msg)))
        → Sending sent out r
    not_reliable :
        (slot : Option M)
        → lookup (round out.msg) sent ≡ some slot
        → is_reliable_broadcast out.recipient ≡ false
        → r ≡ (sent, err (sent_non_reliable_msg_in_reliable_round out.recipient (round out.msg)))
        → Sending sent out r
    twice :
        (m : M)
        → lookup (round out.msg) sent ≡ some (some m)
        → is_reliable_broadcast out.recipient ≡ true
        → r ≡ (sent, err send_twice)
        → Sending sent out r
    recorded :
        lookup (round out.msg) sent ≡ some none
        → is_reliable_broadcast out.recipient ≡ true
        → r.1 ≡ ok (record { recipient = all_parties false; msg = out.msg })
        → ((k : ℕ)
            → lookup k r.0 ≡ (if round out.msg == k then some (some out.msg) else lookup k sent))
        → Sending sent out r

  -- `on_send` lets a message through unchanged if its round has no reliability check and it asks for
  -- none; if both do, it sends it as a plain broadcast, and records it as the round's, once. Any
  -- other message is refused, with the error that says why, and nothing is recorded.
  pub on_send-Sending : (sent : SentMsgs M) (out : Outgoing M) → Sending sent out (on_send sent out)
  unfolding on_send send_in_reliable
  on_send-Sending sent out = elim (Bool-cases (is_reliable_broadcast out.recipient)) [
    | inl reliable ↦ elim (Option-cases (lookup (round out.msg) sent)) [
      | inl e ↦ not_registered e reliable (rw (e, on_send, reliable) refl)
      | inr (none, e) ↦
          recorded e reliable (rw (e, on_send, reliable) refl)
            (λ k. rw (e, on_send, reliable) (lookup-insert k (round out.msg) (some out.msg) sent))
      | inr (some m, e) ↦ twice m e reliable (rw (e, on_send, reliable) refl)
    ]
    | inr unreliable ↦ elim (Option-cases (lookup (round out.msg) sent)) [
      | inl e ↦ plain e unreliable (rw (e, on_send, unreliable) refl)
      | inr (slot, e) ↦ not_reliable slot e unreliable (rw (e, on_send, unreliable) refl)
    ]
  ]
