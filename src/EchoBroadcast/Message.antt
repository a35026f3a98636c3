-- ===== src/EchoBroadcast/Message.antt =====
-- `Msg` of round-based/src/echo_broadcast/mod.rs: the messages of the main protocol and the echoes,
-- with the numbers of their rounds. `Hash` stands for the output of the digest.
use round_based.Prelude.{
  ℕ, ◌+◌, ◌*◌, ◌%◌, ◌<◌, ◌≡◌, ◌≢◌, ◌↔◌, refl, sym, ap, ◌∙◌, ◌⊎◌, inl, inr, false, Bool-cases,
  Result, ok, err, map_err, map_err-ok, ◌==◌, u16_mod, arith, if◌then◌else◌,
}
use round_based.Mpc.Protocol.{Protocol, IsLawful}

pub data Msg (Hash M : Type 0) : Type 0 where
  echo : ℕ → Hash → Msg Hash M
  main : M → Msg Hash M

-- `ROUND` of an echo round and of a main round.
abbrev pub echo_number : ℕ → ℕ
echo_number round = (2 * round + 1) % u16_mod

abbrev pub main_number : ℕ → ℕ
main_number round = 2 * round % u16_mod

module _ (P : Protocol) (Hash : Type 0) where
  unfoldable pub round : Msg Hash P.Msg → ℕ
  round (echo k hash) = echo_number k
  round (main m) = main_number (P.round m)

  -- The conversions of an echo message for the round `r`.
  unfoldable pub echo_to_protocol_msg : P.R → Hash → Msg Hash P.Msg
  echo_to_protocol_msg r hash = echo (P.round_number r) hash

  unfoldable pub echo_from_protocol_msg : P.R → Msg Hash P.Msg → Result Hash (Msg Hash P.Msg)
  echo_from_protocol_msg r (echo k hash) =
      if k == P.round_number r then ok hash else err (echo k hash)
  echo_from_protocol_msg r (main m) = err (main m)

  -- The conversions of a message of the main round `r`.
  unfoldable pub main_to_protocol_msg : (r : P.R) → (P.store r).Msg → Msg Hash P.Msg
  main_to_protocol_msg r m = main (P.to_protocol_msg r m)

  unfoldable pub main_from_protocol_msg :
      (r : P.R) → Msg Hash P.Msg → Result (P.store r).Msg (Msg Hash P.Msg)
  main_from_protocol_msg r (echo k hash) = err (echo k hash)
  main_from_protocol_msg r (main m) = map_err (λ m'. main m') (P.from_protocol_msg r m)

  -- Where the numbers of the main protocol's rounds fit 15 bits, an echo never stands for a main
  -- round, nor a main message for an echo round, and a main message keeps its round.
  round-main_iff :
      (m : P.Msg) (r : P.R)
      → P.round m < 32768
      → P.round_number r < 32768
      → ((round (main m) ≡ main_number (P.round_number r)) ↔ (P.round m ≡ P.round_number r))
        × (round (main m) ≢ echo_number (P.round_number r))
  unfolding round
  round-main_iff m r h k = ((λ e. omega arith, λ e. omega arith), λ e. omega arith)

  -- Where the number of the round `r` fits 15 bits, an echo for any 16-bit number that a peer may
  -- write into it is taken for an echo of `r` exactly if the number is that of `r` or 32768 more,
  -- since doubling it wraps; it is never taken for a message of a main round.
  pub round-echo_iff :
      (k : ℕ) (hash : Hash) (r : P.R)
      → k < u16_mod
      → P.round_number r < 32768
      → ((round (echo k hash) ≡ echo_number (P.round_number r))
          ↔ ((k ≡ P.round_number r) ⊎ (k ≡ P.round_number r + 32768)))
        × (round (echo k hash) ≢ main_number (P.round_number r))
  unfolding round
  round-echo_iff k hash r h l = (
    (λ e. ground arith, λ s. elim s [ inl e ↦ omega arith | inr e ↦ omega arith ]),
    λ e. omega arith,
  )

  -- What a conversion of the main protocol accepts is the message that its result is converted into.
  abbrev pub IsExact : Type 0
  IsExact =
      (r : P.R) (p : P.Msg) (m : (P.store r).Msg)
      → P.from_protocol_msg r p ≡ ok m
      → P.to_protocol_msg r m ≡ p

  echo_back :
      (r : P.R) (hash : Hash) → echo_from_protocol_msg r (echo_to_protocol_msg r hash) ≡ ok hash
  unfolding echo_from_protocol_msg echo_to_protocol_msg
  echo_back r hash = ground arith

  main_back :
      IsLawful P
      → (r : P.R) (m : (P.store r).Msg) → main_from_protocol_msg r (main_to_protocol_msg r m) ≡ ok m
  unfolding main_from_protocol_msg main_to_protocol_msg
  main_back lawful r m = rw (lawful.from_to r m)

  echo_from-eq_ok :
      (r : P.R) (x : Msg Hash P.Msg) (hash : Hash)
      → echo_from_protocol_msg r x ≡ ok hash
      → echo_to_protocol_msg r hash ≡ x
  unfolding echo_from_protocol_msg echo_to_protocol_msg
  echo_from-eq_ok r (echo k h) hash e = elim (Bool-cases (k == P.round_number r)) [
    | inl here ↦
        let same : k ≡ P.round_number r = ground arith in
        let hash_is : h ≡ hash = ground (arith, rw here at e) in
        ap (λ j. echo j hash) (sym same) ∙ ap (echo k) (sym hash_is)
    | inr away ↦ ground (arith, rw away at e)
  ]
  echo_from-eq_ok r (main m) hash e = ground arith

  main_from-eq_ok :
      IsExact
      → (r : P.R) (x : Msg Hash P.Msg) (m : (P.store r).Msg) → main_from_protocol_msg r x ≡ ok m
      → main_to_protocol_msg r m ≡ x
  unfolding main_from_protocol_msg main_to_protocol_msg
  main_from-eq_ok exact r (echo k h) m e = ground arith
  main_from-eq_ok exact r (main p) m e =
      ap main (exact r p m (map_err-ok _ (P.from_protocol_msg r p) m e))

  -- The conversions are inverse to each other where the main protocol's are: what is converted into
  -- the enum is converted back to itself, what a conversion accepts is the message that its result
  -- is converted into, and the two kinds of messages of a round have its two numbers.
  pub conversions-round_trip :
      IsLawful P
      → IsExact
      → (r : P.R)
      → ((hash : Hash) (x : Msg Hash P.Msg)
          → (echo_from_protocol_msg r x ≡ ok hash) ↔ (echo_to_protocol_msg r hash ≡ x))
        × ((m : (P.store r).Msg) (x : Msg Hash P.Msg)
            → (main_from_protocol_msg r x ≡ ok m) ↔ (main_to_protocol_msg r m ≡ x))
        × ((hash : Hash) → round (echo_to_protocol_msg r hash) ≡ echo_number (P.round_number r))
        × ((m : (P.store r).Msg)
            → round (main_to_protocol_msg r m) ≡ main_number (P.round_number r))
  unfolding round echo_to_protocol_msg main_to_protocol_msg
  conversions-round_trip lawful exact r = (
    λ hash x.
        (echo_from-eq_ok r x hash, λ e. ap (echo_from_protocol_msg r) (sym e) ∙ echo_back r hash),
    λ m x. (
      main_from-eq_ok exact r x m,
      λ e. ap (main_from_protocol_msg r) (sym e) ∙ main_back lawful r m,
    ),
    λ hash. refl,
    λ m. ap main_number (lawful.to_round r m),
  )

  -- Where the number of the round `r` fits 15 bits, an echo for a number that is 32768 more has
  -- the number of the echo round of `r`, but the conversion refuses it.
  pub echo_from_protocol_msg-refuses :
      (r : P.R) (hash : Hash)
      → P.round_number r < 32768
      → (round (echo (P.round_number r + 32768) hash) ≡ echo_number (P.round_number r))
        × (echo_from_protocol_msg r (echo (P.round_number r + 32768) hash)
            ≡ err (echo (P.round_number r + 32768) hash))
  unfolding round echo_from_protocol_msg
  echo_from_protocol_msg-refuses r hash h =
      let other : (P.round_number r + 32768 == P.round_number r) ≡ false = ground arith in
      (omega arith, rw other)
