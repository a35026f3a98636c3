-- ===== src/EchoBroadcast/Tests.antt =====
-- The reliability check of round-based/src/echo_broadcast at concrete inputs: two parties, and a hash
-- that is the list of the messages itself.
use mathlib.Core.Option
use round_based.Prelude.{
  ℕ, zero, suc, ◌+◌, ◌<◌, ◌≡◌, ◌≢◌, ◌↔◌, ◌⊎◌, refl, ap, Bool, true, false, ◌&&◌, Option, none, some,
  List, [], ◌∷◌, Result, ok, err, ◌==◌, get_elem?, arith,
}
use round_based.Delivery.{Incoming, Outgoing, broadcast, all_parties}
use round_based.Round.SimpleStore.{RoundInput, RoundMsgs, flatten_slots, sender_index}
use round_based.Round.SimpleStore
use round_based.Round.SimpleStore.Invariant.{IsValid, received}
use round_based.Mpc.Tests
use round_based.Mpc.Tests.{commit, decommit, commit_msg, decommit_msg, protocol, protocol-IsLawful}
use round_based.EchoBroadcast.Message.{
  Msg, IsExact, echo, echo_number, main_number, round, echo_to_protocol_msg, echo_from_protocol_msg,
  main_to_protocol_msg, main_from_protocol_msg, round-echo_iff, conversions-round_trip,
  echo_from_protocol_msg-refuses,
}
use round_based.EchoBroadcast.Store.{
  Reliable, MainRound, NeedsOwnMsg, ReliabilityCheck, output, add_message, finish, wants_more,
  with_my_msg, with_echo_output, any_other,
}
use round_based.EchoBroadcast.Store.Agreement.{IsCollisionFree}
use round_based.EchoBroadcast.Store.Mirror.{checked, Tracks, over, add_message-Tracks}
use round_based.EchoBroadcast.Store.Reliability.{
  held, Finished, finish_complete, main_round-agreement,
}

abbrev wrapped : ℕ
wrapped = 32769

abbrev commit_round : ℕ
commit_round = 1

round-echo_iff_example :
    ((round protocol ℕ (echo wrapped 7) ≡ echo_number 1)
      ↔ ((wrapped ≡ commit_round) ⊎ (wrapped ≡ commit_round + 32768)))
    × (round protocol ℕ (echo wrapped 7) ≢ main_number 1)
round-echo_iff_example = round-echo_iff protocol ℕ wrapped 7 commit (omega arith) (omega arith)

protocol-IsExact : IsExact protocol ℕ
protocol-IsExact commit (commit_msg x) m e = ground arith
protocol-IsExact commit (decommit_msg x) m e = ground arith
protocol-IsExact decommit (commit_msg x) m e = ground arith
protocol-IsExact decommit (decommit_msg x) m e = ground arith

conversions-round_trip_example :
    ((hash : ℕ) (x : Msg ℕ Tests.Msg)
      → (echo_from_protocol_msg protocol ℕ commit x ≡ ok hash)
        ↔ (echo_to_protocol_msg protocol ℕ commit hash ≡ x))
    × ((m : ℕ) (x : Msg ℕ Tests.Msg)
        → (main_from_protocol_msg protocol ℕ commit x ≡ ok m)
          ↔ (main_to_protocol_msg protocol ℕ commit m ≡ x))
    × ((hash : ℕ) → round protocol ℕ (echo_to_protocol_msg protocol ℕ commit hash) ≡ echo_number 1)
    × ((m : ℕ) → round protocol ℕ (main_to_protocol_msg protocol ℕ commit m) ≡ main_number 1)
conversions-round_trip_example =
    conversions-round_trip protocol ℕ protocol-IsLawful protocol-IsExact commit

echo_from_protocol_msg-refuses_example :
    (round protocol ℕ (echo wrapped 7) ≡ echo_number 1)
    × (echo_from_protocol_msg protocol ℕ commit (echo wrapped 7) ≡ err (echo wrapped 7))
echo_from_protocol_msg-refuses_example =
    echo_from_protocol_msg-refuses protocol ℕ commit 7 (omega arith)

abbrev pub reliable_5 : Outgoing ℕ
reliable_5 = record { recipient = all_parties true; msg = 5 }

abbrev pub slots : List (ℕ × Option ℕ)
slots = (1, none) ∷ []

abbrev round_1 : ℕ → ℕ
round_1 _ = 1

-- The hash of the messages is the messages.
abbrev hash : List (Option ℕ) → ℕ → ℕ → List (Option ℕ)
hash msgs _ _ = msgs

abbrev eq_msgs : List (Option ℕ) → List (Option ℕ) → Bool
eq_msgs [] [] = true
eq_msgs (none ∷ xs) (none ∷ ys) = eq_msgs xs ys
eq_msgs (some x ∷ xs) (some y ∷ ys) = (x == y) && eq_msgs xs ys
eq_msgs _ _ = false

eq_msgs_sound : (xs ys : List (Option ℕ)) → eq_msgs xs ys ≡ true → xs ≡ ys
eq_msgs_sound [] [] h = refl
eq_msgs_sound [] (y ∷ ys) h = ground arith
eq_msgs_sound (x ∷ xs) [] h = ground arith
eq_msgs_sound (none ∷ xs) (none ∷ ys) h = ap (λ zs. none ∷ zs) (eq_msgs_sound xs ys h)
eq_msgs_sound (none ∷ xs) (some y ∷ ys) h = ground arith
eq_msgs_sound (some x ∷ xs) (none ∷ ys) h = ground arith
eq_msgs_sound (some x ∷ xs) (some y ∷ ys) h = let ih = eq_msgs_sound xs ys in ground (arith, ih)

abbrev same_msg : ℕ → ℕ
same_msg x = x

abbrev accept : ℕ → Result ℕ ℕ
accept x = ok x

abbrev pub round_e : Reliable
round_e = checked same_msg accept 1 hash eq_msgs

collision_free : IsCollisionFree round_e
collision_free = record { eq_sound = eq_msgs_sound; injective = λ xs ys r m n e. e }

-- Party 0 and party 1, each with the message of the other; they send 10 and 11.
abbrev store_0 : RoundInput ℕ
store_0 = record {
  i = 0;
  n = 2;
  messages_ids = 5 ∷ [];
  messages = some 11 ∷ [];
  left_messages = 0;
  expected_msg_type = broadcast true;
}

abbrev store_1 : RoundInput ℕ
store_1 = record {
  i = 1;
  n = 2;
  messages_ids = 6 ∷ [];
  messages = some 10 ∷ [];
  left_messages = 0;
  expected_msg_type = broadcast true;
}

abbrev msgs_0 : RoundMsgs ℕ
msgs_0 = record { i = 0; ids = 5 ∷ []; messages = 11 ∷ [] }

abbrev pub msgs_1 : RoundMsgs ℕ
msgs_1 = record { i = 1; ids = 6 ∷ []; messages = 10 ∷ [] }

store_0-IsValid : IsValid store_0
store_0-IsValid = record {
  two_parties = omega arith;
  own_index = omega arith;
  fits = omega arith;
  slots = refl;
  ids = refl;
  counted = refl;
}

store_1-IsValid : IsValid store_1
store_1-IsValid = record {
  two_parties = omega arith;
  own_index = omega arith;
  fits = omega arith;
  slots = refl;
  ids = refl;
  counted = refl;
}

output_0 : SimpleStore.output store_0 ≡ ok msgs_0
unfolding SimpleStore.output flatten_slots
output_0 = refl

output_1 : SimpleStore.output store_1 ≡ ok msgs_1
unfolding SimpleStore.output flatten_slots
output_1 = refl

abbrev main_0 : MainRound round_e
main_0 = record { i = 0; n = 2; state = output msgs_0; received_msgs = none ∷ some 11 ∷ [] }

abbrev main_1 : MainRound round_e
main_1 = record { i = 1; n = 2; state = output msgs_1; received_msgs = some 10 ∷ none ∷ [] }

mirrors_0 :
    (j : ℕ)
    → j ≢ 0
    → j < 2
    → get_elem? (none ∷ some 11 ∷ []) j ≡ some (Option.map (λ e. same_msg e.1) (received store_0 j))
unfolding received sender_index
mirrors_0 zero ne near = absurd (ne refl)
mirrors_0 (suc zero) ne near = refl
mirrors_0 (suc (suc j)) ne near = absurd (omega arith)

mirrors_1 :
    (j : ℕ)
    → j ≢ 1
    → j < 2
    → get_elem? (some 10 ∷ none ∷ []) j ≡ some (Option.map (λ e. same_msg e.1) (received store_1 j))
unfolding received sender_index
mirrors_1 zero ne near = refl
mirrors_1 (suc zero) ne near = absurd (ne refl)
mirrors_1 (suc (suc j)) ne near = absurd (omega arith)

main_0-Tracks : Tracks same_msg accept 1 hash eq_msgs main_0
main_0-Tracks =
    over store_0 msgs_0 refl output_0
      (record { valid = store_0-IsValid; index = refl; parties = refl; same = mirrors_0 })

main_1-Tracks : Tracks same_msg accept 1 hash eq_msgs main_1
main_1-Tracks =
    over store_1 msgs_1 refl output_1
      (record { valid = store_1-IsValid; index = refl; parties = refl; same = mirrors_1 })

abbrev needs_0 : NeedsOwnMsg round_e
needs_0 = record { i = 0; n = 2; main_round_output = msgs_0; received_msgs = none ∷ some 11 ∷ [] }

abbrev pub needs_1 : NeedsOwnMsg round_e
needs_1 = record { i = 1; n = 2; main_round_output = msgs_1; received_msgs = some 10 ∷ none ∷ [] }

abbrev both : List (Option ℕ)
both = some 10 ∷ some 11 ∷ []

abbrev check_0 : ReliabilityCheck round_e
check_0 = record { expected_hash = both; main_round_output = msgs_0 }

abbrev check_1 : ReliabilityCheck round_e
check_1 = record { expected_hash = both; main_round_output = msgs_1 }

abbrev pub echoes_1 : RoundMsgs (List (Option ℕ))
echoes_1 = record { i = 1; ids = 7 ∷ []; messages = both ∷ [] }

ends_0 : finish round_e main_0 ≡ ok needs_0
unfolding finish
ends_0 = refl

ends_1 : finish round_e main_1 ≡ ok needs_1
unfolding finish
ends_1 = refl

sends_0 : with_my_msg round_e needs_0 (some 10) ≡ ok (check_0, both)
unfolding with_my_msg
sends_0 = refl

sends_1 : with_my_msg round_e needs_1 (some 11) ≡ ok (check_1, both)
unfolding with_my_msg
sends_1 = refl

passes_1 : with_echo_output round_e check_1 echoes_1 ≡ ok msgs_1
unfolding with_echo_output any_other
passes_1 = refl

main_round-agreement_example :
    (sa sb : RoundInput ℕ) × ((j : ℕ)
      → j ≢ 0
      → j ≢ 1
      → j < sa.n
      → held same_msg accept 1 hash eq_msgs sa j ≡ held same_msg accept 1 hash eq_msgs sb j)
    × (held same_msg accept 1 hash eq_msgs sb 0 ≡ some 10)
    × ((SimpleStore.output sa ≡ ok msgs_0) × IsValid sa × (sa.i ≡ 0))
    × ((SimpleStore.output sb ≡ ok msgs_1) × IsValid sb × (sb.i ≡ 1))
main_round-agreement_example =
    main_round-agreement same_msg accept 1 hash eq_msgs collision_free main_0 main_1 needs_0 needs_1
      (some 10) (some 11) check_0 check_1 both both echoes_1 0 msgs_1 main_0-Tracks main_1-Tracks
      ends_0 ends_1 (λ e. ground arith) sends_0 sends_1 refl passes_1

abbrev late : Incoming ℕ
late = record { id = 9; sender = 1; msg_type = broadcast false; msg = 12 }

add_message-Tracks_example :
    Tracks same_msg accept 1 hash eq_msgs (add_message round_e main_0 late).0
add_message-Tracks_example =
    add_message-Tracks same_msg accept 1 hash eq_msgs (λ x. refl) main_0 late main_0-Tracks

main_0_over : wants_more round_e main_0 ≡ false
unfolding wants_more
main_0_over = refl

finish_complete_example :
    (need : NeedsOwnMsg round_e) × (s : RoundInput ℕ) × (finish round_e main_0 ≡ ok need)
    × Finished same_msg accept 1 hash eq_msgs need s
finish_complete_example =
    finish_complete same_msg accept 1 hash eq_msgs main_0 main_0-Tracks main_0_over
