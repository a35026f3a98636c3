-- ===== src/RandomGeneration/Tests.antt =====
-- The protocol of examples/random-generation-protocol/src/lib.rs at concrete inputs: two parties,
-- and the identity for the digest.
use mathlib.Core.List.{zip, zip_with}
use round_based.Prelude.{
  ℕ, zero, suc, ◌<◌, ◌≡◌, ◌≢◌, refl, false, some, List, [], ◌∷◌, Result, ok, err, arith, get_elem?,
  replicate,
}
use round_based.Delivery.{Incoming}
use round_based.Round.SimpleStore.{
  new, add_message, wants_more, output, is_expected_type, sender_index, fill_slot, flatten_slots,
  into_iter_indexed, party_index, indexed_from,
}
use round_based.Mpc.Process
use round_based.Mpc.Process.{
  gone, needs_more_messages, take_output, process_message, process_in_store, after_message,
}
use round_based.Mpc.Router
use round_based.Mpc.Router.{
  RoundsRouter, lookup, insert, empty, received_msg, deliver, complete_round, retrieve_round_output,
  retrieved,
}
use round_based.Mpc.Party.{Sink, connected_halves, add_round, complete, complete_loop, send}
use round_based.RandomGeneration.Run.{start}
use round_based.RandomGeneration.Received.{commit_from, decommit_from, HasOpenedTo, HasCheated}
use round_based.RandomGeneration.Guarantee.{run-output, run-blames}
use round_based.RandomGeneration.Combined.{combined}
use round_based.RandomGeneration.Agreement.{IsConsistent, run-agreement}
use round_based.RandomGeneration.Reveal.{own_commit, own_decommit, IsOrdered, run-IsOrdered}
use round_based.Mpc.Party.Sending.{logged}
use round_based.RandomGeneration.{
  Bytes, Msg, Blame, protocol, round1, round2, Party, bytes_eq, xor_into, verify, verify_loop,
  outcome, define_rounds, execute, after_commit, after_round1, after_decommit, after_round2,
  protocol_of_random_generation, parties_opened_randomness_doesnt_match_commitment,
}

abbrev digest : Bytes → Bytes
digest x = x

-- A sink that takes every message.
abbrev takes : Sink Msg ℕ
takes = record { State = Unit {0}; feed = λ s m. (s, ok tt); flush = λ s. (s, ok tt) }

abbrev bytes : ℕ → Bytes
bytes b = replicate 32 b

abbrev from_1 : List (Result (Incoming Msg) ℕ)
from_1 = ok (decommit_from 1 6 false (bytes 2)) ∷ ok (commit_from 1 5 (bytes 2)) ∷ []

abbrev after_run : Party ℕ takes
after_run = record {
  router = record {
    rounds =
        (0, some (record { kind = round1; round = gone }))
        ∷ (1, some (record { kind = round2; round = gone }))
        ∷ [];
  };
  halves = record { incomings = []; outgoings = tt };
}

abbrev from_0 : List (Result (Incoming Msg) ℕ)
from_0 = ok (commit_from 0 7 (bytes 1)) ∷ ok (decommit_from 0 8 false (bytes 1)) ∷ []

-- What a party that opens something else sends.
abbrev cheating : List (Result (Incoming Msg) ℕ)
cheating = ok (commit_from 1 5 (bytes 2)) ∷ ok (decommit_from 1 6 false (bytes 4)) ∷ []

abbrev blame_1 : Blame
blame_1 = record { guilty_party = 1; commitment_msg = 5; decommitment_msg = 6 }

abbrev Log : Sink Msg ℕ
Log = logged protocol ℕ takes

abbrev log_after_run : Party ℕ Log
log_after_run = record {
  router = after_run.router;
  halves = record {
    incomings = [];
    outgoings = (
      tt,
      own_commit ℕ takes digest from_1 0 2 (bytes 1)
          ∷ own_decommit ℕ takes digest from_1 0 2 (bytes 1)
          ∷ [],
    );
  };
}

-- The two honest parties, the run with a cheating party, and the first again with a log.
runs :
    (protocol_of_random_generation ℕ takes digest (start ℕ takes from_1 tt) 0 2 (bytes 1)
      ≡ some (after_run, ok (bytes 3)))
    × (protocol_of_random_generation ℕ takes digest (start ℕ takes from_0 tt) 1 2 (bytes 2)
        ≡ some (after_run, ok (bytes 3)))
    × (protocol_of_random_generation ℕ takes digest (start ℕ takes cheating tt) 0 2 (bytes 1)
        ≡ some (after_run, err (parties_opened_randomness_doesnt_match_commitment (blame_1 ∷ []))))
    × (protocol_of_random_generation ℕ Log digest (start ℕ Log from_1 (tt, [])) 0 2 (bytes 1)
        ≡ some (log_after_run, ok (bytes 3)))
unfolding protocol_of_random_generation define_rounds execute after_commit after_round1
    after_decommit after_round2 verify verify_loop outcome bytes_eq xor_into connected_halves
    add_round complete complete_loop send Router.add_round lookup insert empty received_msg deliver
    complete_round retrieve_round_output retrieved Process.new needs_more_messages take_output
    process_message process_in_store after_message new add_message wants_more output
    is_expected_type sender_index fill_slot flatten_slots into_iter_indexed party_index indexed_from
    zip zip_with
runs = (refl, refl, refl, refl)

run-output_example :
    (opened : ℕ → Bytes) × (opened 0 ≡ bytes 1)
    × (bytes 3 ≡ combined opened 2)
    × ((j : ℕ) → j < 2 → j ≢ 0 → HasOpenedTo from_1 digest j (opened j))
run-output_example =
    run-output digest ℕ takes from_1 tt 0 2 (bytes 1) after_run (bytes 3) (omega arith) refl runs.0

run-blames_example : HasCheated cheating digest blame_1
run-blames_example =
    run-blames digest ℕ takes cheating tt 0 2 (bytes 1) after_run (blame_1 ∷ []) blame_1
      (omega arith) runs.2 (0, refl)

run-IsOrdered_example : IsOrdered ℕ takes digest from_1 0 2 (bytes 1) log_after_run.outgoings.1
run-IsOrdered_example =
    run-IsOrdered ℕ takes digest from_1 0 2 (bytes 1) tt log_after_run (ok (bytes 3)) (omega arith)
      runs.3

from_1_commit :
    (j id : ℕ) (c : Bytes) (k : ℕ)
    → get_elem? from_1 k ≡ some (ok (commit_from j id c))
    → (j ≡ 1) × (c ≡ bytes 2)
from_1_commit j id c zero e = ground arith
from_1_commit j id c (suc zero) e = (ground arith, ground arith)
from_1_commit j id c (suc (suc k)) e = ground arith

from_0_commit :
    (j id : ℕ) (c : Bytes) (k : ℕ)
    → get_elem? from_0 k ≡ some (ok (commit_from j id c))
    → (j ≡ 0) × (c ≡ bytes 1)
from_0_commit j id c zero e = (ground arith, ground arith)
from_0_commit j id c (suc zero) e = ground arith
from_0_commit j id c (suc (suc k)) e = ground arith

consistent : IsConsistent from_1 from_0
consistent j id id' c c' (k, e) (k', e') =
    absurd (omega (arith, (from_1_commit j id c k e).0, (from_0_commit j id' c' k' e').0))

run-agreement_example : bytes 3 ≡ bytes 3
run-agreement_example =
    run-agreement digest (λ x y e. e) ℕ takes from_1 from_0 tt tt 0 1 2 (bytes 1) (bytes 2)
      after_run after_run (bytes 3) (bytes 3) (omega arith) (λ e. omega (arith, e)) refl refl
      consistent (λ id c (k, e). (from_1_commit 1 id c k e).1)
      (λ id c (k, e). (from_0_commit 0 id c k e).1) runs.0 runs.1
