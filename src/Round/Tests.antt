-- ===== src/Round/Tests.antt =====
-- The store of round-based/src/round/simple_store.rs and the properties of round-based/src/round/mod.rs
-- at concrete inputs: a broadcast round of three parties, seen by party 1.
use mathlib.Core.Option
use round_based.Prelude.{
  ℕ, ◌<◌, ◌≡◌, ◌≢◌, ◌↔◌, refl, true, false, none, some, List, [], ◌∷◌, ok, length, get_elem?, arith,
  ◌==◌, if◌then◌else◌,
}
use round_based.Delivery.{Incoming, broadcast, p2p}
use round_based.Round.SimpleStore.{
  RoundInput, RoundMsgs, add_message, wants_more, output, into_vec_including_me, iter_including_me,
  into_iter_including_me, collect, flatten_slots,
}
use round_based.Round.SimpleStore.Invariant.{IsValid, received}
use round_based.Round.SimpleStore.Receive.{Outcome, add_message-Outcome}
use round_based.Round.SimpleStore.Output.{into_vec_including_me-received, including_me-agree}
use round_based.Round.SimpleStore.Sequence.{add_all, Heard, add_all-completes}
use round_based.Round.SimpleStore.Refines.{
  Contents, Added, add_each, add_each_to_map, add_each-refines,
}
use round_based.Round.SimpleStore.Traffic.{from, SameTraffic, add_all-SameTraffic}
use round_based.Prelude.{zero, suc, false, ◌⊎◌, inl, inr}
use round_based.Round.SimpleStore.{is_expected_type}
use round_based.Round.Store.{RoundStore}
use round_based.Round.Input.{round_input}

abbrev empty_store : RoundInput ℕ
empty_store = record {
  i = 1;
  n = 3;
  messages_ids = 0 ∷ 0 ∷ [];
  messages = none ∷ none ∷ [];
  left_messages = 2;
  expected_msg_type = broadcast false;
}

abbrev full_store : RoundInput ℕ
full_store = record {
  i = 1;
  n = 3;
  messages_ids = 4 ∷ 5 ∷ [];
  messages = some 70 ∷ some 72 ∷ [];
  left_messages = 0;
  expected_msg_type = broadcast false;
}

abbrev full_msgs : RoundMsgs ℕ
full_msgs = record { i = 1; ids = 4 ∷ 5 ∷ []; messages = 70 ∷ 72 ∷ [] }

abbrev from_0 : Incoming ℕ
from_0 = record { id = 4; sender = 0; msg_type = broadcast false; msg = 70 }

abbrev from_2 : Incoming ℕ
from_2 = record { id = 5; sender = 2; msg_type = broadcast true; msg = 72 }

empty_store-IsValid : IsValid empty_store
empty_store-IsValid = record {
  two_parties = omega arith;
  own_index = omega arith;
  fits = omega arith;
  slots = refl;
  ids = refl;
  counted = refl;
}

full_store-IsValid : IsValid full_store
full_store-IsValid = record {
  two_parties = omega arith;
  own_index = omega arith;
  fits = omega arith;
  slots = refl;
  ids = refl;
  counted = refl;
}

output_full : output full_store ≡ ok full_msgs
unfolding output flatten_slots
output_full = refl

-- Both messages, in turn, fill the store.
fills : (add_message (add_message empty_store from_0).0 from_2).0 ≡ full_store
unfolding add_message
fills = refl

refuses_p2p :
    (add_message empty_store (record { id = 1; sender = 0; msg_type = p2p; msg = 3 })).0
    ≡ empty_store
unfolding add_message
refuses_p2p = refl

add_message-Outcome_example : Outcome empty_store from_2 (add_message empty_store from_2)
add_message-Outcome_example = add_message-Outcome empty_store from_2 empty_store-IsValid

sent_alike : SameTraffic (from_0 ∷ from_2 ∷ []) (from_2 ∷ from_0 ∷ [])
unfolding from
sent_alike zero = refl
sent_alike (suc zero) = refl
sent_alike (suc (suc zero)) = refl
sent_alike (suc (suc (suc j))) = ground arith

add_all-SameTraffic_example :
    add_all empty_store (from_0 ∷ from_2 ∷ []) ≡ add_all empty_store (from_2 ∷ from_0 ∷ [])
add_all-SameTraffic_example =
    add_all-SameTraffic empty_store (from_0 ∷ from_2 ∷ []) (from_2 ∷ from_0 ∷ []) sent_alike

abbrev by_p2p : Incoming ℕ
by_p2p = record { id = 1; sender = 0; msg_type = p2p; msg = 3 }

abbrev arrivals : List (Incoming ℕ)
arrivals = by_p2p ∷ from_2 ∷ from_2 ∷ from_0 ∷ []

all_arrive :
    (j : ℕ) → j ≢ 1 → j < 3 → (received empty_store j ≢ none) ⊎ Heard (broadcast false) j arrivals
unfolding is_expected_type
all_arrive zero other near = inr (inr (inr (inr (inl (refl, refl)))))
all_arrive (suc zero) other near = absurd (other refl)
all_arrive (suc (suc zero)) other near = inr (inr (inl (refl, refl)))
all_arrive (suc (suc (suc j))) other near = absurd (omega arith)

add_all-completes_example :
    (wants_more (add_all empty_store arrivals) ≡ false)
    × (r : RoundMsgs ℕ) × (output (add_all empty_store arrivals) ≡ ok r)
add_all-completes_example = add_all-completes empty_store arrivals empty_store-IsValid all_arrive

into_vec_including_me-received_example :
    (all : List ℕ) × (into_vec_including_me full_msgs 71 ≡ some all)
    × ((j : ℕ)
        → get_elem? all j
          ≡ (if j == 1 then some 71 else Option.map (λ e. e.1) (received full_store j)))
into_vec_including_me-received_example =
    into_vec_including_me-received full_store full_msgs 71 full_store-IsValid output_full

including_me-agree_example :
    (into_vec_including_me full_msgs 71 ≡ some (iter_including_me full_msgs 71))
    × (collect 4 (into_iter_including_me full_msgs 71) ≡ iter_including_me full_msgs 71)
    × (length (iter_including_me full_msgs 71) ≡ 3)
including_me-agree_example =
    including_me-agree full_store full_msgs 71 4 full_store-IsValid output_full (omega arith)

abbrev answered : RoundInput ℕ × List Added
answered = add_each empty_store arrivals

abbrev promised : Contents ℕ × List Added
promised = add_each_to_map 1 3 (broadcast false) (received empty_store) arrivals

add_each-refines_example :
    (answered.1 ≡ promised.1)
    × (received answered.0 ≡ promised.0)
    × ((wants_more answered.0 ≡ true) ↔ ((j : ℕ) × (j < 3) × (j ≢ 1) × (promised.0 j ≡ none)))
add_each-refines_example = add_each-refines empty_store arrivals empty_store-IsValid

abbrev inputs : RoundStore
inputs = round_input ℕ
