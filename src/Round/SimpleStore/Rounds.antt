-- ===== src/Round/SimpleStore/Rounds.antt =====
-- The constructors of a round's store by the kind of its messages, and the readers that leave the
-- local party out, round-based/src/round/simple_store.rs.
use round_based.Prelude.{ℕ, true, false, Option, List}
use round_based.Delivery.{PartyIndex, MsgId}
use round_based.Delivery
use round_based.Round.SimpleStore.{RoundInput, RoundMsgs, new, into_iter_indexed}

module _ {M : Type 0} where
  abbrev pub broadcast : PartyIndex → ℕ → Option (RoundInput M)
  broadcast i n = new i n (Delivery.broadcast false)

  abbrev pub reliable_broadcast : PartyIndex → ℕ → Option (RoundInput M)
  reliable_broadcast i n = new i n (Delivery.broadcast true)

  abbrev p2p : PartyIndex → ℕ → Option (RoundInput M)
  p2p i n = new i n Delivery.p2p

  abbrev into_vec_without_me : RoundMsgs M → List M
  into_vec_without_me r = r.messages

  abbrev iter : RoundMsgs M → List M
  iter r = r.messages

  abbrev iter_indexed : RoundMsgs M → List (PartyIndex × MsgId × M)
  iter_indexed r = into_iter_indexed r
