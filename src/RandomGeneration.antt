-- ===== src/RandomGeneration.antt =====
-- The protocol of examples/random-generation-protocol/src/lib.rs, run over `MpcParty`: its messages,
-- its two rounds, the check of the openings and the errors. What the random number generator filled
-- in and the digest of `sha2` are arguments. A panic of the source is `none`.
pub mod Xor
pub mod Items
pub mod Blames
pub mod Combined
pub mod Lawful
pub mod Run
pub mod Received
pub mod Guarantee
pub mod Agreement
pub mod Reveal
mod Tests
use Prim.Native.Nat.{bit_xor}
use mathlib.Core.List.{zip, zip_with}
use round_based.Prelude.{
  ℕ, zero, suc, Bool, true, false, ◌&&◌, Option, none, some, List, [], ◌∷◌, ◌++◌, Result, ok, err,
  ◌==◌, if◌then◌else◌,
}
use round_based.Delivery.{PartyIndex, MsgId}
use round_based.Round.Store.{RoundStore}
use round_based.Round.Input.{round_input}
use round_based.Round.SimpleStore.{RoundInput, RoundMsgs, RoundInputError, into_iter_indexed}
use round_based.Round.SimpleStore.Rounds.{reliable_broadcast, broadcast}
use round_based.Mpc.Errors.{CompleteRoundError}
use round_based.Mpc.Protocol.{Protocol}
use round_based.Mpc.Party.{Sink, MpcParty, add_round, complete, send_to_all, reliably_broadcast}

-- `[u8; 32]`, and the output of the digest.
abbrev pub Bytes : Type 0
Bytes = List ℕ

pub record CommitMsg : Type 0 where
  pub commitment : Bytes

pub record DecommitMsg : Type 0 where
  pub randomness : Bytes

pub data Msg : Type 0 where
  commit_msg : CommitMsg → Msg
  decommit_msg : DecommitMsg → Msg

-- The types of the two rounds.
pub data Round : Type 0 where
  round1 round2 : Round

-- What `derive(ProtocolMsg)` writes for `Msg`.
abbrev pub msg_round : Msg → ℕ
msg_round (commit_msg _) = 0
msg_round (decommit_msg _) = 1

abbrev pub round_number : Round → ℕ
round_number round1 = 0
round_number round2 = 1

abbrev pub RoundMsg : Round → Type 0
RoundMsg round1 = CommitMsg
RoundMsg round2 = DecommitMsg

abbrev pub to_protocol_msg : (r : Round) → RoundMsg r → Msg
to_protocol_msg round1 m = commit_msg m
to_protocol_msg round2 m = decommit_msg m

abbrev pub from_protocol_msg : (r : Round) → Msg → Result (RoundMsg r) Msg
from_protocol_msg round1 (commit_msg m) = ok m
from_protocol_msg round1 (decommit_msg m) = err (decommit_msg m)
from_protocol_msg round2 (commit_msg m) = err (commit_msg m)
from_protocol_msg round2 (decommit_msg m) = ok m

abbrev pub downcast : (F : Round → Type 0) → (a b : Round) → F a → Option (F b)
downcast F round1 round1 x = some x
downcast F round2 round2 x = some x
downcast F round1 round2 x = none
downcast F round2 round1 x = none

abbrev pub protocol : Protocol
protocol = record {
  Msg = Msg;
  R = Round;
  store = λ r. round_input (RoundMsg r);
  round = msg_round;
  round_number = round_number;
  to_protocol_msg = to_protocol_msg;
  from_protocol_msg = from_protocol_msg;
  downcast_output = downcast (λ r. RoundMsgs (RoundMsg r));
  downcast_error = λ _ _ e. some e;
}

pub record Blame : Type 0 where
  pub guilty_party : PartyIndex
  pub commitment_msg : MsgId
  pub decommitment_msg : MsgId

pub data Error (RecvErr SendErr : Type 0) : Type 0 where
  round1_send : SendErr → Error RecvErr SendErr
  round1_receive : RecvErr → Error RecvErr SendErr
  round2_send : SendErr → Error RecvErr SendErr
  round2_receive : RecvErr → Error RecvErr SendErr
  parties_opened_randomness_doesnt_match_commitment : List Blame → Error RecvErr SendErr

unfoldable pub bytes_eq : Bytes → Bytes → Bool
bytes_eq [] [] = true
bytes_eq [] (y ∷ ys) = false
bytes_eq (x ∷ xs) [] = false
bytes_eq (x ∷ xs) (y ∷ ys) = x == y && bytes_eq xs ys

-- `output.iter_mut().zip(randomness).for_each(|(x, r)| *x ^= r)`
unfoldable pub xor_into : Bytes → Bytes → Bytes
xor_into [] rs = []
xor_into (x ∷ xs) [] = x ∷ xs
xor_into (x ∷ xs) (r ∷ rs) = bit_xor x r ∷ xor_into xs rs

abbrev pub Opened : Type 0
Opened = (PartyIndex × MsgId × CommitMsg) × (PartyIndex × MsgId × DecommitMsg)

unfoldable pub outcome :
    {RecvErr SendErr : Type 0} → List Blame × Bytes → Result Bytes (Error RecvErr SendErr)
outcome ([], output) = ok output
outcome (b ∷ bs, output) = err (parties_opened_randomness_doesnt_match_commitment (b ∷ bs))

module _ (digest : Bytes → Bytes) where
  abbrev pub is_opened : CommitMsg → DecommitMsg → Bool
  is_opened commit decommit = bytes_eq commit.commitment (digest decommit.randomness)

  -- The loop over the commitments and their openings.
  unfoldable pub verify_loop : List Opened → List Blame → Bytes → List Blame × Bytes
  unfolding xor_into bytes_eq
  verify_loop [] guilty_parties output = (guilty_parties, output)
  verify_loop (((party_i, com_msg_id, commit), (_, decom_msg_id, decommit)) ∷ rest) guilty_parties
        output =
      let opened = is_opened commit decommit in
      let blame : Blame = record {
        guilty_party = party_i;
        commitment_msg = com_msg_id;
        decommitment_msg = decom_msg_id;
      } in
      verify_loop rest (if opened then guilty_parties else (guilty_parties ++ blame ∷ []))
        (if opened then xor_into output decommit.randomness else output)

  -- What follows the two rounds.
  unfoldable pub verify :
      {RecvErr SendErr : Type 0}
      → RoundMsgs CommitMsg
      → RoundMsgs DecommitMsg
      → Bytes
      → Result Bytes (Error RecvErr SendErr)
  unfolding verify_loop outcome zip zip_with
  verify commitments randomness local_randomness = outcome (
      verify_loop (zip (into_iter_indexed commitments) (into_iter_indexed randomness)) []
        local_randomness)

module _ (E : Type 0) (K : Sink Msg E) where
  abbrev pub Party : Type 0
  Party = MpcParty protocol E K

  abbrev pub ErrorM : Type 0
  ErrorM = Error (CompleteRoundError RoundInputError E) E

  abbrev pub Received : Type 0 → Type 0
  Received M = Party × Result (RoundMsgs M) (CompleteRoundError RoundInputError E)

  abbrev with_round :
      {M : Type 0} → Option (RoundInput M) → (RoundInput M → Option Party) → Option Party
  with_round none register = none
  with_round (some store) register = register store

  -- `mpc.add_round(round)` for the two rounds, `reliable_broadcast(i, n)` and `broadcast(i, n)`.
  unfoldable pub define_rounds : Party → PartyIndex → ℕ → Option Party
  define_rounds mpc i n = with_round (reliable_broadcast i n) (λ (store : RoundInput CommitMsg).
      elim (add_round protocol E K mpc round1 store) [
        | none ↦ none
        | some mpc' ↦
            with_round (broadcast i n)
              (λ (store' : RoundInput DecommitMsg). add_round protocol E K mpc' round2 store')
      ])

  module _ (digest : Bytes → Bytes) where
    -- 5, what follows `complete(round2)`.
    unfoldable pub after_round2 :
        Bytes → RoundMsgs CommitMsg → Received DecommitMsg → Party × Result Bytes ErrorM
    after_round2 local commitments (mpc, err e) = (mpc, err (round2_receive e))
    after_round2 local commitments (mpc, ok randomness) =
        (mpc, verify digest commitments randomness local)

    -- What follows the sending of the opening.
    unfoldable pub after_decommit :
        Bytes → RoundMsgs CommitMsg → Party × Result (Unit {0}) E → Party × Result Bytes ErrorM
    unfolding after_round2
    after_decommit local commitments (mpc, err e) = (mpc, err (round2_send e))
    after_decommit local commitments (mpc, ok _) =
        after_round2 local commitments (complete protocol E K mpc round2)

    -- 4, what follows `complete(round1)`.
    unfoldable pub after_round1 : Bytes → Received CommitMsg → Party × Result Bytes ErrorM
    unfolding after_decommit
    after_round1 local (mpc, err e) = (mpc, err (round1_receive e))
    after_round1 local (mpc, ok commitments) =
        after_decommit local commitments
          (send_to_all protocol E K mpc (decommit_msg (record { randomness = local })))

    -- 3, what follows the reliable broadcast of the commitment.
    unfoldable pub after_commit : Bytes → Party × Result (Unit {0}) E → Party × Result Bytes ErrorM
    unfolding after_round1
    after_commit local (mpc, err e) = (mpc, err (round1_send e))
    after_commit local (mpc, ok _) = after_round1 local (complete protocol E K mpc round1)

    -- From 1 on, with the rounds registered.
    unfoldable pub execute : Party → Bytes → Party × Result Bytes ErrorM
    unfolding after_commit
    execute mpc local =
        after_commit local
          (reliably_broadcast protocol E K mpc (commit_msg (record { commitment = digest local })))

    unfoldable pub protocol_of_random_generation :
        Party → PartyIndex → ℕ → Bytes → Option (Party × Result Bytes ErrorM)
    unfolding define_rounds execute
    protocol_of_random_generation mpc i n local = elim (define_rounds mpc i n) [
      | none ↦ none
      | some mpc' ↦ some (execute mpc' local)
    ]
