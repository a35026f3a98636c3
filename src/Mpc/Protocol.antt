-- ===== src/Mpc/Protocol.antt =====
-- The traits `ProtocolMsg` and `RoundMsg` of round-based/src/mpc/mod.rs, for the message type of one
-- protocol and the store types of its rounds, and the `Any` of the standard library by which the
-- router hands outputs back.
use round_based.Prelude.{ℕ, ◌≡◌, Option, some, Result, ok}
use round_based.Round.Store.{RoundStore}
use round_based.Mpc.Errors.{CompleteRoundError}

-- `R` names the store types. `round_number r` is `<M as RoundMsg<R::Msg>>::ROUND`; the `downcast`s
-- are `Box<dyn Any>::downcast` from what a store of type `a` put out to the types of `b`.
pub record Protocol : Type 1 where
  pub Msg : Type 0
  pub R : Type 0
  pub store : R → RoundStore
  pub round : Msg → ℕ
  pub round_number : R → ℕ
  pub to_protocol_msg : (r : R) → (store r).Msg → Msg
  pub from_protocol_msg : (r : R) → Msg → Result ((store r).Msg) Msg
  pub downcast_output : (a b : R) → (store a).Output → Option ((store b).Output)
  pub downcast_error :
      (a b : R)
      → CompleteRoundError (store a).Error ⊥
      → Option (CompleteRoundError (store b).Error ⊥)

-- What the traits' documentation asks of an implementation, and what `Any` promises.
pub record IsLawful (P : Protocol) : Type 0 where
  pub to_round :
      (r : P.R) (m : (P.store r).Msg) → P.round (P.to_protocol_msg r m) ≡ P.round_number r
  pub from_to :
      (r : P.R) (m : (P.store r).Msg) → P.from_protocol_msg r (P.to_protocol_msg r m) ≡ ok m
  pub from_round :
      (r : P.R) (m : P.Msg)
      → P.round m ≡ P.round_number r
      → (x : (P.store r).Msg) × (P.from_protocol_msg r m ≡ ok x)
  pub output_self : (r : P.R) (o : (P.store r).Output) → P.downcast_output r r o ≡ some o
  pub error_self :
      (r : P.R) (e : CompleteRoundError (P.store r).Error ⊥) → P.downcast_error r r e ≡ some e
