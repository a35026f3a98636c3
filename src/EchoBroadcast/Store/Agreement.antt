-- ===== src/EchoBroadcast/Store/Agreement.antt =====
-- What the echoes of round-based/src/echo_broadcast/store.rs guarantee.
use mathlib.Core.Option
use round_based.Prelude.{
  ℕ, zero, suc, ◌≡◌, sym, ap, ◌∙◌, inl, inr, true, false, Option, some, List, [], ◌∷◌, ok,
  get_elem?, set, arith, Bool-cases, Option-cases,
}
use round_based.Round.SimpleStore.{RoundMsgs}
use round_based.EchoBroadcast.Store.{
  Reliable, NeedsOwnMsg, ReliabilityCheck, with_my_msg, with_echo_output, any_other, echo_hash,
}

-- What the check relies on: hashes that compare equal are equal, and the hash of the messages of a
-- round does not collide.
pub record IsCollisionFree (E : Reliable) : Type 0 where
  pub eq_sound : (g h : E.Hash) → E.eq_hash g h ≡ true → g ≡ h
  pub injective :
      (xs ys : List (Option E.ProtoMsg)) (r m n : ℕ) → E.hash xs r m ≡ E.hash ys r n → xs ≡ ys

module _ (E : Reliable) where
  -- The messages of a round, with one's own in its place.
  abbrev pub all_msgs : NeedsOwnMsg E → Option E.S.Msg → List (Option E.ProtoMsg)
  all_msgs w msg = set w.received_msgs w.i (Option.map E.to_protocol_msg msg)

  pub with_my_msg-ok :
      (w : NeedsOwnMsg E) (msg : Option E.S.Msg) (c : ReliabilityCheck E) (h : E.Hash)
      → with_my_msg E w msg ≡ ok (c, h)
      → (h ≡ echo_hash E w (all_msgs w msg))
        × (c.expected_hash ≡ h)
        × (c.main_round_output ≡ w.main_round_output)
  unfolding with_my_msg
  with_my_msg-ok w msg c h e = elim (Option-cases (get_elem? w.received_msgs w.i)) [
    | inl out ↦ ground arith
    | inr (o, within) ↦ ground arith
  ]

  -- A check that finds no other hash has compared every one.
  pub none_differs-eq_hash :
      (expected : E.Hash) (hs : List E.Hash) (k : ℕ) (h : E.Hash)
      → any_other E expected hs ≡ false
      → get_elem? hs k ≡ some h
      → E.eq_hash h expected ≡ true
  unfolding any_other
  none_differs-eq_hash expected [] k h none_differs at = ground arith
  none_differs-eq_hash expected (g ∷ hs) zero h none_differs at =
      elim (Bool-cases (E.eq_hash g expected)) [
        | inl same ↦
            let first : g ≡ h = ground arith in ap (λ x. E.eq_hash x expected) (sym first) ∙ same
        | inr differs ↦ ground arith
      ]
  none_differs-eq_hash expected (g ∷ hs) (suc k) h none_differs at =
      elim (Bool-cases (E.eq_hash g expected)) [
        | inl same ↦ none_differs-eq_hash expected hs k h (ground arith) at
        | inr differs ↦ ground arith
      ]

  pub with_echo_output-ok :
      (c : ReliabilityCheck E) (echoes : RoundMsgs E.Hash) (o : E.S.Output)
      → with_echo_output E c echoes ≡ ok o
      → (any_other E c.expected_hash echoes.messages ≡ false) × (o ≡ c.main_round_output)
  unfolding with_echo_output
  with_echo_output-ok c echoes o e =
      elim (Bool-cases (any_other E c.expected_hash echoes.messages)) [
        | inl differs ↦ ground arith
        | inr same ↦ ground arith
      ]

  module _ (safe : IsCollisionFree E) where
    no_other :
        (expected : E.Hash) (hs : List E.Hash) (k : ℕ) (h : E.Hash)
        → any_other E expected hs ≡ false
        → get_elem? hs k ≡ some h
        → h ≡ expected
    no_other expected hs k h none_differs at =
        safe.eq_sound h expected (none_differs-eq_hash expected hs k h none_differs at)

    -- Let the hash be free of collisions. If party `b` gets an output from its check, and one of
    -- its echoes is the hash that party `a` sent, then `a` and `b` hold the same message from
    -- every party, their own among them; the output is that of the main round of `b`.
    pub reliability_check-agreement :
        (a b : NeedsOwnMsg E) (msg_a msg_b : Option E.S.Msg) (check_a check_b : ReliabilityCheck E)
        (hash_a hash_b : E.Hash) (echoes : RoundMsgs E.Hash) (k : ℕ) (o : E.S.Output)
        → with_my_msg E a msg_a ≡ ok (check_a, hash_a)
        → with_my_msg E b msg_b ≡ ok (check_b, hash_b)
        → get_elem? echoes.messages k ≡ some hash_a
        → with_echo_output E check_b echoes ≡ ok o
        → (all_msgs a msg_a ≡ all_msgs b msg_b) × (o ≡ b.main_round_output)
    reliability_check-agreement a b msg_a msg_b check_a check_b hash_a hash_b echoes k o sent_a
          sent_b heard passed =
        let of_a = with_my_msg-ok a msg_a check_a hash_a sent_a in
        let of_b = with_my_msg-ok b msg_b check_b hash_b sent_b in
        let (same, out) = with_echo_output-ok check_b echoes o passed in
        let equal = no_other check_b.expected_hash echoes.messages k hash_a same heard in
        (
          safe.injective _ _ E.round_number a.n b.n (sym of_a.0 ∙ equal ∙ of_b.1 ∙ of_b.0),
          out ∙ of_b.2,
        )
