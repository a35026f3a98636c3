-- ===== src/Round/SimpleStore/Fed.antt =====
-- What `RoundInput` of round-based/src/round/simple_store.rs holds is what it was given: each message
-- that it holds from a party was added, from that party, with that id and of the expected type.
use round_based.Prelude.{
  ℕ, ◌≤◌, ◌<◌, ◌≡◌, ◌≢◌, sym, ap, subst, ◌∙◌, inl, inr, true, Option, some, arith, Bool-cases,
  Option-cases, Result, ok, ◌==◌, if◌then◌else◌, u16_mod,
}
use round_based.Delivery.{Incoming, MessageType, MsgId, PartyIndex}
use round_based.Round.SimpleStore.{
  RoundInput, RoundInputError, RoundMsgs, new, add_message, wants_more, output, is_expected_type,
}
use round_based.Round.SimpleStore.Invariant.{IsValid, received, add_message-IsValid}
use round_based.Round.SimpleStore.Receive.{
  Outcome, mismatched, own, unknown, twice, stored, add_message-Outcome, is_expected_type-meets,
}
use round_based.Round.SimpleStore.Output.{new-IsValid, wants_more_iff}

module _ {M : Type 0} (i : PartyIndex) (n : ℕ) (t : MessageType) (A : Incoming M → Type 0) where
  abbrev pub WasGiven : PartyIndex → MsgId → M → Type 0
  WasGiven j id m =
      (msg_type : MessageType) × (is_expected_type t msg_type ≡ true)
      × A (record { id = id; sender = j; msg_type = msg_type; msg = m })

  pub record IsFed (s : RoundInput M) : Type 0 where
    pub valid : IsValid s
    pub own_index : s.i ≡ i
    pub parties : s.n ≡ n
    pub expected : s.expected_msg_type ≡ t
    pub heard : (j id : ℕ) (m : M) → received s j ≡ some (id, m) → WasGiven j id m

  pub new-IsFed : (s : RoundInput M) → n < u16_mod → new i n t ≡ some s → IsFed s
  new-IsFed s fits e =
      let two : 2 ≤ n = unfold new in (ground arith) in
      let near : i < n = unfold new in (ground arith) in
      let (s', e', v, none_yet, same_i, same_n, same_t) = new-IsValid i n t two near fits in
      let same : s' ≡ s = ground (arith, sym e' ∙ e) in
      subst IsFed same (record {
        valid = v;
        own_index = same_i;
        parties = same_n;
        expected = same_t;
        heard = λ j id m h. ground (arith, sym (none_yet j) ∙ h);
      })

  heard_after :
      (s : RoundInput M) (msg : Incoming M)
      → A msg
      → ((j id : ℕ) (m : M) → received s j ≡ some (id, m) → WasGiven j id m)
      → is_expected_type s.expected_msg_type msg.msg_type ≡ true
      → s.expected_msg_type ≡ t
      → (j id : ℕ) (m : M)
      → (if j == msg.sender then some (msg.id, msg.msg) else received s j) ≡ some (id, m)
      → WasGiven j id m
  heard_after s msg a before good same j id m h = elim (Bool-cases (j == msg.sender)) [
    | inr other ↦ before j id m (rw other at h)
    | inl here ↦
        let e : ◌≡◌ {A = Option (MsgId × M)} (some (msg.id, msg.msg)) (some (id, m)) =
          rw here at h in
        let who : msg.sender ≡ j = ground arith in
        let which : msg.id ≡ id = ground (arith, e) in
        let what : msg.msg ≡ m = ground (arith, e) in
        (
          msg.msg_type,
          subst (λ x. is_expected_type x msg.msg_type ≡ true) same good,
          subst A
              (λ k. record { id = which k; sender = who k; msg_type = msg.msg_type; msg = what k })
              a,
        )
  ]

  outcome-IsFed :
      (s : RoundInput M) (msg : Incoming M) (r : RoundInput M × Result (Unit {0}) RoundInputError)
      → A msg
      → IsFed s
      → IsValid r.0
      → Outcome s msg r
      → IsFed r.0
  outcome-IsFed s msg r a fed v (mismatched bad e) = subst IsFed (sym (ap (λ x. x.0) e)) fed
  outcome-IsFed s msg r a fed v (own good mine e) = subst IsFed (sym (ap (λ x. x.0) e)) fed
  outcome-IsFed s msg r a fed v (unknown good far e) = subst IsFed (sym (ap (λ x. x.0) e)) fed
  outcome-IsFed s msg r a fed v (twice id m good other held e) =
      subst IsFed (sym (ap (λ x. x.0) e)) fed
  outcome-IsFed s msg r a fed v
        (stored good other near free done less holds (same_i, same_n, same_t)) =
      record {
        valid = v;
        own_index = same_i ∙ fed.own_index;
        parties = same_n ∙ fed.parties;
        expected = same_t ∙ fed.expected;
        heard = λ j id m h.
            heard_after s msg a fed.heard
              (is_expected_type-meets s.expected_msg_type msg.msg_type ∙ good) fed.expected j id m
              (sym (holds j) ∙ h);
      }

  pub add_message-IsFed :
      (s : RoundInput M) (msg : Incoming M) → A msg → IsFed s → IsFed (add_message s msg).0
  add_message-IsFed s msg a fed =
      outcome-IsFed s msg (add_message s msg) a fed (add_message-IsValid s msg fed.valid)
        (add_message-Outcome s msg fed.valid)

-- A complete store has heard every other party.
pub output-heard :
    {M : Type 0} (s : RoundInput M) (r : RoundMsgs M) (j : ℕ)
    → IsValid s
    → output s ≡ ok r
    → j < s.n
    → j ≢ s.i
    → (e : MsgId × M) × (received s j ≡ some e)
output-heard s r j v e near other = elim (Option-cases (received s j)) [
  | inr held ↦ held
  | inl free ↦
      let more = (wants_more_iff s v).1 (j, near, other, free) in
      absurd (unfold wants_more output in (ground arith))
]
