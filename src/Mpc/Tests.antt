-- ===== src/Mpc/Tests.antt =====
-- The router of round-based/src/mpc/party at concrete inputs: party 0 of three in a protocol of two
-- broadcast rounds.
use mathlib.Core.Option
use round_based.Prelude.{
  ℕ, ◌≡◌, ◌↔◌, refl, true, false, none, some, [], ◌∷◌, Result, ok, err, arith,
}
use round_based.Delivery.{Incoming, broadcast}
use round_based.Round.SimpleStore.{RoundInput, RoundMsgs, wants_more}
use round_based.Round.Store.{RoundStore, IsProper}
use round_based.Round.Input.{round_input, round_input-IsProper}
use round_based.Mpc.Errors.{UnregisteredRound}
use round_based.Mpc.Protocol.{Protocol, IsLawful}
use round_based.Mpc.Process.{
  ProcessRoundMessageImpl, RoundResult, in_progress, completed, process_message,
  needs_more_messages, process_in_store, after_message,
}
use round_based.Mpc.Router.{
  RoundsRouter, empty, lookup, insert, add_round, received_msg, complete_round,
}
use round_based.Mpc.Process
use round_based.Mpc.Router.Invariant.{IsWellFormed, empty-IsWellFormed, add_round-IsWellFormed}
use round_based.Mpc.Router.Routing.{
  receive_all, messages_of, absorb, lookup-receive_all, received_msg-unregistered_iff,
}
use round_based.Mpc.Router.Retrieval.{own_box, handed_out, complete_round-handed_out}

pub data Msg : Type 0 where
  commit_msg decommit_msg : ℕ → Msg

pub data Kind : Type 0 where
  commit decommit : Kind

abbrev msg_round : Msg → ℕ
msg_round (commit_msg _) = 1
msg_round (decommit_msg _) = 2

abbrev kind_round : Kind → ℕ
kind_round commit = 1
kind_round decommit = 2

abbrev kind_store : Kind → RoundStore
kind_store _ = round_input ℕ

abbrev to_msg : (r : Kind) → ℕ → Msg
to_msg commit x = commit_msg x
to_msg decommit x = decommit_msg x

abbrev from_msg : (r : Kind) → Msg → Result ℕ Msg
from_msg commit (commit_msg x) = ok x
from_msg commit (decommit_msg x) = err (decommit_msg x)
from_msg decommit (commit_msg x) = err (commit_msg x)
from_msg decommit (decommit_msg x) = ok x

abbrev pub protocol : Protocol
protocol = record {
  Msg = Msg;
  R = Kind;
  store = kind_store;
  round = msg_round;
  round_number = kind_round;
  to_protocol_msg = to_msg;
  from_protocol_msg = from_msg;
  downcast_output = λ _ _ o. some o;
  downcast_error = λ _ _ e. some e;
}

to_round : (r : Kind) (x : ℕ) → msg_round (to_msg r x) ≡ kind_round r
to_round commit x = refl
to_round decommit x = refl

from_to : (r : Kind) (x : ℕ) → from_msg r (to_msg r x) ≡ ok x
from_to commit x = refl
from_to decommit x = refl

from_round : (r : Kind) (m : Msg) → msg_round m ≡ kind_round r → (x : ℕ) × (from_msg r m ≡ ok x)
from_round commit (commit_msg x) h = (x, refl)
from_round commit (decommit_msg x) h = absurd (omega (arith, h))
from_round decommit (commit_msg x) h = absurd (omega (arith, h))
from_round decommit (decommit_msg x) h = (x, refl)

pub protocol-IsLawful : IsLawful protocol
protocol-IsLawful = record {
  to_round = to_round;
  from_to = from_to;
  from_round = from_round;
  output_self = λ _ _. refl;
  error_self = λ _ _. refl;
}

protocol-IsProper : (r : Kind) → IsProper (kind_store r)
protocol-IsProper _ = round_input-IsProper ℕ

abbrev pub waiting : RoundInput ℕ
waiting = record {
  i = 0;
  n = 3;
  messages_ids = 0 ∷ 0 ∷ [];
  messages = none ∷ none ∷ [];
  left_messages = 2;
  expected_msg_type = broadcast false;
}

abbrev pub half : RoundInput ℕ
half = record {
  i = 0;
  n = 3;
  messages_ids = 0 ∷ 8 ∷ [];
  messages = none ∷ some 62 ∷ [];
  left_messages = 1;
  expected_msg_type = broadcast false;
}

abbrev pub both : RoundMsgs ℕ
both = record { i = 0; ids = 9 ∷ 8 ∷ []; messages = 61 ∷ 62 ∷ [] }

abbrev pub router : RoundsRouter protocol
router = record {
  rounds =
      (1, some (record { kind = commit; round = in_progress waiting }))
      ∷ (2, some (record { kind = decommit; round = in_progress waiting }))
      ∷ [];
}

abbrev pub from_2 : Incoming Msg
from_2 = record { id = 8; sender = 2; msg_type = broadcast false; msg = commit_msg 62 }

abbrev pub early : Incoming Msg
early = record { id = 7; sender = 2; msg_type = broadcast false; msg = decommit_msg 52 }

abbrev pub from_1 : Incoming Msg
from_1 = record { id = 9; sender = 1; msg_type = broadcast false; msg = commit_msg 61 }

waiting_more : wants_more waiting ≡ true
unfolding wants_more
waiting_more = refl

abbrev one_round : RoundsRouter protocol
one_round = record {
  rounds = (1, some (record { kind = commit; round = in_progress waiting })) ∷ [];
}

no_rounds_yet : add_round protocol (empty protocol) commit waiting ≡ some one_round
unfolding add_round empty lookup insert Process.new wants_more
no_rounds_yet = refl

one_round_yet : add_round protocol one_round decommit waiting ≡ some router
unfolding add_round lookup insert Process.new wants_more
one_round_yet = refl

one_round-IsWellFormed : IsWellFormed protocol one_round
one_round-IsWellFormed =
    add_round-IsWellFormed protocol protocol-IsLawful protocol-IsProper (empty protocol) one_round
      commit waiting (empty-IsWellFormed protocol protocol-IsLawful protocol-IsProper) no_rounds_yet

router-IsWellFormed : IsWellFormed protocol router
router-IsWellFormed =
    add_round-IsWellFormed protocol protocol-IsLawful protocol-IsProper one_round router decommit
      waiting one_round-IsWellFormed one_round_yet

lookup-receive_all_example :
    lookup 1 (receive_all protocol router (early ∷ from_2 ∷ [])).rounds
    ≡ Option.map
        (Option.map (absorb protocol (messages_of protocol 1 (early ∷ from_2 ∷ []))))
        (lookup 1 router.rounds)
lookup-receive_all_example = lookup-receive_all protocol router (early ∷ from_2 ∷ []) 1

received_msg-unregistered_iff_example :
    ((x : UnregisteredRound) × ((received_msg protocol
          (receive_all protocol one_round (from_2 ∷ early ∷ []))
          early).1
        ≡ err x))
    ↔ (lookup 2 one_round.rounds ≡ none)
received_msg-unregistered_iff_example =
    received_msg-unregistered_iff protocol one_round (from_2 ∷ early ∷ []) early

abbrev done_router : RoundsRouter protocol
done_router = record {
  rounds = (1, some (record { kind = commit; round = completed (ok both) })) ∷ [];
}

done_registered :
    lookup 1 done_router.rounds
    ≡ some (some (own_box protocol protocol-IsLawful commit (completed (ok both))))
unfolding lookup
done_registered = refl

over : needs_more_messages (round_input ℕ) (completed (ok both)) ≡ false
unfolding needs_more_messages
over = refl

complete_round-handed_out_example :
    complete_round protocol done_router commit
    ≡ handed_out protocol protocol-IsLawful commit done_router (completed (ok both))
complete_round-handed_out_example =
    complete_round-handed_out protocol protocol-IsLawful commit done_router (completed (ok both))
      done_registered
