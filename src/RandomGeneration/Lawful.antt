-- ===== src/RandomGeneration/Lawful.antt =====
-- The message type of examples/random-generation-protocol/src/lib.rs as a protocol of the engine.
use round_based.Prelude.{ℕ, ◌≡◌, refl, some, Result, ok, err, arith}
use round_based.Delivery.{Incoming, MessageType, try_map_incoming}
use round_based.Round.SimpleStore.{RoundInput, RoundMsgs}
use round_based.Round.SimpleStore.Fed.{IsFed, add_message-IsFed}
use round_based.Mpc.Protocol.{IsLawful}
use round_based.Mpc.Process.{process_in_store}
use round_based.Mpc.Party.Held.{IsKept}
use round_based.RandomGeneration.{
  Msg, Round, round1, round2, commit_msg, decommit_msg, RoundMsg, msg_round, round_number,
  to_protocol_msg, from_protocol_msg, downcast, protocol,
}

to_round : (r : Round) (m : RoundMsg r) → msg_round (to_protocol_msg r m) ≡ round_number r
to_round round1 m = refl
to_round round2 m = refl

from_to : (r : Round) (m : RoundMsg r) → from_protocol_msg r (to_protocol_msg r m) ≡ ok m
from_to round1 m = refl
from_to round2 m = refl

from_round :
    (r : Round) (m : Msg)
    → msg_round m ≡ round_number r
    → (x : RoundMsg r) × (from_protocol_msg r m ≡ ok x)
from_round round1 (commit_msg x) h = (x, refl)
from_round round1 (decommit_msg x) h = absurd (omega (arith, h))
from_round round2 (commit_msg x) h = absurd (omega (arith, h))
from_round round2 (decommit_msg x) h = (x, refl)

downcast_self : (F : Round → Type 0) (r : Round) (x : F r) → downcast F r r x ≡ some x
downcast_self F round1 x = refl
downcast_self F round2 x = refl

pub protocol-IsLawful : IsLawful protocol
protocol-IsLawful = record {
  to_round = to_round;
  from_to = from_to;
  from_round = from_round;
  output_self = λ r o. downcast_self (λ x. RoundMsgs (RoundMsg x)) r o;
  error_self = λ _ _. refl;
}

module _ (A : Incoming Msg → Type 0) (r : Round) where
  -- The messages of the round among those that satisfy `A`.
  abbrev pub OfRound : Incoming (RoundMsg r) → Type 0
  OfRound m = (raw : Incoming Msg) × A raw × (try_map_incoming (from_protocol_msg r) raw ≡ ok m)

  module _ (i n : ℕ) (t : MessageType) where
    abbrev pub IsRoundStore : RoundInput (RoundMsg r) → Type 0
    IsRoundStore s = IsFed i n t OfRound s

    kept_by :
        (s : RoundInput (RoundMsg r)) (raw : Incoming Msg) (x : Result (Incoming (RoundMsg r)) Msg)
        → try_map_incoming (from_protocol_msg r) raw ≡ x
        → A raw
        → IsRoundStore s
        → IsRoundStore (process_in_store protocol r s raw).0
    unfolding process_in_store
    kept_by s raw (ok m) e a fed =
        rw (e, process_in_store) (add_message-IsFed i n t OfRound s m (raw, a, e) fed)
    kept_by s raw (err x) e a fed = rw (e, process_in_store) fed

    pub round-IsKept : IsKept protocol A r IsRoundStore
    round-IsKept = record { fed = λ s raw a fed. kept_by s raw _ refl a fed }
