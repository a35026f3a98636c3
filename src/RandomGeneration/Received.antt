-- ===== src/RandomGeneration/Received.antt =====
-- What is held of a party after a round, against what the stream yielded: the messages of
-- examples/random-generation-protocol/src/lib.rs as they come in.
use round_based.Prelude.{
  ℕ, ◌≡◌, ◌≢◌, refl, sym, ap, ◌∙◌, subst, Bool, true, false, some, List, arith, Result, ok,
}
use round_based.Delivery.{
  Incoming, MessageType, PartyIndex, MsgId, broadcast, p2p, try_map_incoming,
}
use round_based.Round.SimpleStore.{RoundInput, is_expected_type}
use round_based.Round.SimpleStore.Invariant.{received}
use round_based.RandomGeneration.Run.{IsSent, Store1, Store2}
use round_based.RandomGeneration.{
  Bytes, Msg, CommitMsg, DecommitMsg, commit_msg, decommit_msg, Blame, round1, round2,
  from_protocol_msg,
}

raw_commit :
    (raw : Incoming Msg) (m : Incoming CommitMsg)
    → try_map_incoming (from_protocol_msg round1) raw ≡ ok m
    → raw ≡ record { id = m.id; sender = m.sender; msg_type = m.msg_type; msg = commit_msg m.msg }
raw_commit raw m e = raw_commit_msg raw.id raw.sender raw.msg_type raw.msg m e
  where
    raw_commit_msg :
        (id sender : ℕ) (t : MessageType) (msg : Msg) (m : Incoming CommitMsg)
        → try_map_incoming
            (from_protocol_msg round1)
            (record { id = id; sender = sender; msg_type = t; msg = msg })
          ≡ ok m
        → ◌≡◌ {A = Incoming Msg}
            (record { id = id; sender = sender; msg_type = t; msg = msg })
            (record { id = m.id; sender = m.sender; msg_type = m.msg_type; msg = commit_msg m.msg })
    raw_commit_msg id sender t (commit_msg c) m e = ground arith
    raw_commit_msg id sender t (decommit_msg d) m e = ground arith

raw_decommit :
    (raw : Incoming Msg) (m : Incoming DecommitMsg)
    → try_map_incoming (from_protocol_msg round2) raw ≡ ok m
    → raw ≡ record { id = m.id; sender = m.sender; msg_type = m.msg_type; msg = decommit_msg m.msg }
raw_decommit raw m e = raw_decommit_msg raw.id raw.sender raw.msg_type raw.msg m e
  where
    raw_decommit_msg :
        (id sender : ℕ) (t : MessageType) (msg : Msg) (m : Incoming DecommitMsg)
        → try_map_incoming
            (from_protocol_msg round2)
            (record { id = id; sender = sender; msg_type = t; msg = msg })
          ≡ ok m
        → ◌≡◌ {A = Incoming Msg}
            (record { id = id; sender = sender; msg_type = t; msg = msg })
            (record {
              id = m.id;
              sender = m.sender;
              msg_type = m.msg_type;
              msg = decommit_msg m.msg;
            })
    raw_decommit_msg id sender t (commit_msg c) m e = ground arith
    raw_decommit_msg id sender t (decommit_msg d) m e = ground arith

reliable_expected :
    (t : MessageType) → is_expected_type (broadcast true) t ≡ true → broadcast true ≡ t
unfolding is_expected_type
reliable_expected (broadcast true) e = refl
reliable_expected (broadcast false) e = ground arith
reliable_expected p2p e = ground arith

broadcast_expected :
    (t : MessageType)
    → is_expected_type (broadcast false) t ≡ true
    → (reliable : Bool) × (t ≡ broadcast reliable)
unfolding is_expected_type
broadcast_expected (broadcast reliable) e = (reliable, refl)
broadcast_expected p2p e = ground arith

-- The two messages of a party.
abbrev pub commit_from : PartyIndex → MsgId → Bytes → Incoming Msg
commit_from j id commitment = record {
  id = id;
  sender = j;
  msg_type = broadcast true;
  msg = commit_msg (record { commitment = commitment });
}

abbrev pub decommit_from : PartyIndex → MsgId → Bool → Bytes → Incoming Msg
decommit_from j id reliable randomness = record {
  id = id;
  sender = j;
  msg_type = broadcast reliable;
  msg = decommit_msg (record { randomness = randomness });
}

module _ {E : Type 0} (incomings : List (Result (Incoming Msg) E)) where
  -- Both messages of a party, where the second opens the first to `randomness`.
  abbrev pub HasOpenedTo : (Bytes → Bytes) → PartyIndex → Bytes → Type 0
  HasOpenedTo digest j randomness =
      (com_msg_id : MsgId) × (decom_msg_id : MsgId) × (reliable : Bool) × IsSent incomings
        (commit_from j com_msg_id (digest randomness))
      × IsSent incomings (decommit_from j decom_msg_id reliable randomness)

  abbrev pub HasCheated : (Bytes → Bytes) → Blame → Type 0
  HasCheated digest b =
      (commitment : Bytes) × (randomness : Bytes) × (reliable : Bool) × IsSent incomings
        (commit_from b.guilty_party b.commitment_msg commitment)
      × IsSent incomings (decommit_from b.guilty_party b.decommitment_msg reliable randomness)
      × (commitment ≢ digest randomness)

module _ {E : Type 0} (incomings : List (Result (Incoming Msg) E)) (i : PartyIndex) (n : ℕ) where
  pub commit-IsSent :
      (s1 : RoundInput CommitMsg) (j id : ℕ) (c : CommitMsg)
      → Store1 incomings i n s1
      → received s1 j ≡ some (id, c)
      → IsSent incomings (commit_from j id c.commitment)
  commit-IsSent s1 j id c fed h =
      let (t, expected, (raw, sent, e)) = fed.heard j id c h in
      let reliable = reliable_expected t expected in
      subst (IsSent incomings)
        (raw_commit raw (record { id = id; sender = j; msg_type = t; msg = c }) e
          ∙ ap (λ t'. record { id = id; sender = j; msg_type = t'; msg = commit_msg c })
              (sym reliable))
        sent

  pub decommit-IsSent :
      (s2 : RoundInput DecommitMsg) (j id : ℕ) (d : DecommitMsg)
      → Store2 incomings i n s2
      → received s2 j ≡ some (id, d)
      → (reliable : Bool) × IsSent incomings (decommit_from j id reliable d.randomness)
  decommit-IsSent s2 j id d fed h =
      let (t, expected, (raw, sent, e)) = fed.heard j id d h in
      let (reliable, same) = broadcast_expected t expected in
      (
        reliable,
        subst (IsSent incomings)
            (raw_decommit raw (record { id = id; sender = j; msg_type = t; msg = d }) e
              ∙ ap (λ t'. record { id = id; sender = j; msg_type = t'; msg = decommit_msg d }) same)
            sent,
      )
