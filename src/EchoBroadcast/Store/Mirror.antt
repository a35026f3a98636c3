-- ===== src/EchoBroadcast/Store/Mirror.antt =====
-- The messages that `MainRound` of round-based/src/echo_broadcast/store.rs hashes against those that
-- the store of the main round has received, where that store is `RoundInput`.
use mathlib.Core.Option
use round_based.Prelude.{
  ℕ, ◌<◌, ◌≡◌, ◌≢◌, refl, sym, ap, ◌∙◌, subst, inl, inr, Bool, true, false, Option, none, some,
  List, Result, ok, err, length, get_elem?, set, length-set, get_elem?-set_self, get_elem?-set_ne,
  ◌==◌, arith, Bool-cases, if◌then◌else◌,
}
use round_based.Delivery.{Incoming, broadcast}
use round_based.Round.SimpleStore.{RoundInput, RoundMsgs, RoundInputError}
use round_based.Round.SimpleStore
use round_based.Round.SimpleStore.Invariant.{IsValid, received, add_message-IsValid}
use round_based.Round.SimpleStore.Receive.{
  Outcome, mismatched, own, unknown, twice, stored, add_message-Outcome,
}
use round_based.Round.Input.{round_input, round_input-IsProper}
use round_based.EchoBroadcast.Store.{
  Reliable, MainRound, MainRoundState, ongoing, output, close, fill_slot, after_store, add_message,
  add_ongoing, add_in_state, clone_incoming_round_msg,
}

module _ {M ProtoMsg Hash : Type 0} (to_protocol_msg : M → ProtoMsg)
    (from_protocol_msg : ProtoMsg → Result M ProtoMsg) (r : ℕ)
    (hash : List (Option ProtoMsg) → ℕ → ℕ → Hash) (eq_hash : Hash → Hash → Bool) where
  -- A round with a reliability check over `RoundInput`.
  abbrev pub checked : Reliable
  checked = record {
    S = round_input M;
    ProtoMsg = ProtoMsg;
    to_protocol_msg = to_protocol_msg;
    from_protocol_msg = from_protocol_msg;
    round_number = r;
    Hash = Hash;
    hash = hash;
    eq_hash = eq_hash;
  }

  -- Of every other party the main round keeps the message that the store has.
  pub record Mirrors (w : MainRound checked) (s : RoundInput M) : Type 0 where
    pub valid : IsValid s
    pub index : s.i ≡ w.i
    pub parties : length w.received_msgs ≡ s.n
    pub same :
        (j : ℕ)
        → j ≢ w.i
        → j < s.n
        → get_elem? w.received_msgs j ≡ some (Option.map (λ e. to_protocol_msg e.1) (received s j))

  -- A main round goes on with a store that it mirrors, or has the output of such a store.
  pub data Tracks (w : MainRound checked) : Type 0 where
    going_on : (s : RoundInput M) → w.state ≡ ongoing s → Mirrors w s → Tracks w
    over :
        (s : RoundInput M) (o : RoundMsgs M)
        → w.state ≡ output o
        → SimpleStore.output s ≡ ok o
        → Mirrors w s
        → Tracks w

  Mirrors-state :
      (w : MainRound checked) (s : RoundInput M) (state : MainRoundState checked)
      → Mirrors w s
      → Mirrors (record w { state = state }) s
  Mirrors-state w s state h = record {
    valid = h.valid;
    index = h.index;
    parties = h.parties;
    same = h.same;
  }

  close-Tracks :
      (w : MainRound checked) (s : RoundInput M) (b : Bool)
      → SimpleStore.wants_more s ≡ b
      → Mirrors w s
      → Tracks (close checked w s b).0
  unfolding close
  close-Tracks w s true e h = going_on s refl (Mirrors-state w s _ h)
  close-Tracks w s false e h =
      let (o, out) = (round_input-IsProper M).outputs s e in
      rw (out, close) (over s o refl out (Mirrors-state w s _ h))

  -- A message of the local party itself is not the store's; its slot is free to change.
  Mirrors-own :
      (w : MainRound checked) (s : RoundInput M) (m : M)
      → Mirrors w s
      → Mirrors (record w { received_msgs = set w.received_msgs w.i (some (to_protocol_msg m)) }) s
  Mirrors-own w s m h = record {
    valid = h.valid;
    index = h.index;
    parties = length-set w.received_msgs w.i _ ∙ h.parties;
    same =
        λ j ne near. get_elem?-set_ne w.received_msgs w.i j _ (λ e. ne (sym e)) ∙ h.same j ne near;
  }

  Mirrors-stored :
      (w : MainRound checked) (s s' : RoundInput M) (msg : Incoming M)
      → Mirrors w s
      → IsValid s'
      → (s'.i ≡ s.i) × (s'.n ≡ s.n)
      → msg.sender < s.n
      → ((j : ℕ)
          → received s' j ≡ (if j == msg.sender then some (msg.id, msg.msg) else received s j))
      → Mirrors
          (record w {
            received_msgs = set w.received_msgs msg.sender (some (to_protocol_msg msg.msg));
          })
          s'
  Mirrors-stored w s s' msg h v e near now = record {
    valid = v;
    index = e.0 ∙ h.index;
    parties = length-set w.received_msgs msg.sender _ ∙ h.parties ∙ sym e.1;
    same = λ j ne within. elim (Bool-cases (j == msg.sender)) [
      | inl here ↦
          let p : j ≡ msg.sender = ground arith in
          rw (now j, here, p)
            (get_elem?-set_self w.received_msgs msg.sender _ (omega (arith, near, h.parties)))
      | inr there ↦
          let ne' : msg.sender ≢ j = ground arith in
          rw (now j, there)
            (get_elem?-set_ne w.received_msgs msg.sender j _ ne'
              ∙ h.same j ne (omega (arith, within, e.1)))
    ];
  }

  own-Tracks :
      (w : MainRound checked) (s : RoundInput M) (msg : Incoming M) (o : Option (Option ProtoMsg))
      → msg.sender ≡ w.i
      → Mirrors w s
      → Tracks (fill_slot checked w s msg o).0
  unfolding fill_slot
  own-Tracks w s msg none e h = going_on s refl (Mirrors-state w s _ h)
  own-Tracks w s msg (some (some m)) e h = going_on s refl (Mirrors-state w s _ h)
  own-Tracks w s msg (some none) e h = close-Tracks _ s _ refl (
      subst
        (λ k.
          Mirrors
            (record w { received_msgs = set w.received_msgs k (some (to_protocol_msg msg.msg)) }) s)
        (sym e) (Mirrors-own w s msg.msg h))

  refused-Tracks :
      (w : MainRound checked) (s : RoundInput M) (msg : Incoming M)
      (x : RoundInput M × Result (Unit {0}) RoundInputError) (e : RoundInputError)
      → x ≡ (s, err e)
      → Mirrors w s
      → Tracks (after_store checked w msg x).0
  unfolding after_store
  refused-Tracks w s msg x e eq h = rw eq (going_on s refl (Mirrors-state w s _ h))

  accepted :
      (w : MainRound checked) (msg : Incoming M)
      (x : RoundInput M × Result (Unit {0}) RoundInputError)
      → x.1 ≡ ok tt
      → after_store checked w msg x
        ≡ fill_slot checked w x.0 msg (get_elem? w.received_msgs msg.sender)
  unfolding after_store
  accepted w msg (s, ok u) e = refl
  accepted w msg (s, err x) e = ground arith

  stored-Tracks :
      (w : MainRound checked) (s s' : RoundInput M) (msg : Incoming M)
      → msg.sender ≢ s.i
      → msg.sender < s.n
      → received s msg.sender ≡ none
      → Mirrors w s
      → Mirrors
          (record w {
            received_msgs = set w.received_msgs msg.sender (some (to_protocol_msg msg.msg));
          })
          s'
      → Tracks (fill_slot checked w s' msg (get_elem? w.received_msgs msg.sender)).0
  unfolding fill_slot
  stored-Tracks w s s' msg ne near free h h' =
      let slot : get_elem? w.received_msgs msg.sender ≡ some none =
        h.same msg.sender (λ e. ne (e ∙ sym h.index)) near
        ∙ ap (λ x. some (Option.map (λ e. to_protocol_msg e.1) x)) free in
      rw slot (close-Tracks _ s' _ refl h')

  after_store-Tracks :
      (w : MainRound checked) (s : RoundInput M) (msg : Incoming M)
      → Mirrors w s
      → Outcome s msg (SimpleStore.add_message s msg)
      → Tracks (after_store checked w msg (SimpleStore.add_message s msg)).0
  after_store-Tracks w s msg h (mismatched _ eq) = refused-Tracks w s msg _ _ eq h
  after_store-Tracks w s msg h (unknown _ _ eq) = refused-Tracks w s msg _ _ eq h
  after_store-Tracks w s msg h (twice _ _ _ _ _ eq) = refused-Tracks w s msg _ _ eq h
  after_store-Tracks w s msg h (own _ mine eq) =
      rw (accepted w msg (SimpleStore.add_message s msg) (ap (λ x. x.1) eq), ap (λ x. x.0) eq)
        (own-Tracks w s msg _ (mine ∙ h.index) h)
  after_store-Tracks w s msg h (stored _ ne near free answer _ now kept) =
      rw (accepted w msg (SimpleStore.add_message s msg) answer) (
        stored-Tracks w s _ msg ne near free h (
          Mirrors-stored w s _ msg h (add_message-IsValid s msg h.valid) (kept.0, kept.1) near now))

  in_state :
      (w : MainRound checked) (msg : Incoming M) (state : MainRoundState checked)
      → w.state ≡ state
      → add_message checked w msg ≡ add_in_state checked w msg state
  unfolding add_message
  in_state w msg state e = ap (add_in_state checked w msg) e

  module _ (from_to : (m : M) → from_protocol_msg (to_protocol_msg m) ≡ ok m) where
    -- Where the conversions of messages are inverse, a main round tracks its store whatever
    -- message is added: it goes on, or it has the output of a complete store, and what it will
    -- hash of every other party is what that store received. It never ends without an output.
    pub add_message-Tracks :
        (w : MainRound checked) (msg : Incoming M) → Tracks w → Tracks (add_message checked w msg).0
    unfolding add_in_state add_ongoing clone_incoming_round_msg
    add_message-Tracks w msg (over s o state out h) =
        rw (in_state w msg (output o) state) (over s o state out h)
    add_message-Tracks w msg (going_on s state h) =
        let reliable : Incoming M = record {
          id = msg.id;
          sender = msg.sender;
          msg_type = broadcast true;
          msg = msg.msg;
        } in
        rw (in_state w msg (ongoing s) state) (
          rw (from_to msg.msg, add_in_state)
            (after_store-Tracks w s reliable h (add_message-Outcome s reliable h.valid)))
