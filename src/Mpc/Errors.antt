-- ===== src/Mpc/Errors.antt =====
-- The errors of round-based/src/mpc/party/router.rs and `CompleteRoundError` of
-- round-based/src/mpc/party/mod.rs. The texts that an error carries are left out.
use round_based.Prelude.{ℕ, Bool}

pub data TakeOutputError : Type 0 where
  already_taken not_ready : TakeOutputError

pub record UnregisteredRound : Type 0 where
  pub n : ℕ
  pub witness_provided : Bool

pub data ApiMisuse : Type 0 where
  unregistered_round : UnregisteredRound → ApiMisuse

pub data ImproperRoundStore : Type 0 where
  store_didnt_output : ImproperRoundStore

pub data Bug : Type 0 where
  round_gone_but_witness_exists : ℕ → Bug
  message_from_another_round : ℕ → ℕ → Bug
  incoherent_state : Bug
  take_round_result : TakeOutputError → Bug
  mismatched_output_type mismatched_error_type : Bug

-- `RouterError(Reason)`
pub data RouterError : Type 0 where
  api_misuse : ApiMisuse → RouterError
  improper_round_store : ImproperRoundStore → RouterError
  bug : Bug → RouterError

pub data CompleteRoundError (ProcessErr IoErr : Type 0) : Type 0 where
  process_msg : ProcessErr → CompleteRoundError ProcessErr IoErr
  router : RouterError → CompleteRoundError ProcessErr IoErr
  io : IoErr → CompleteRoundError ProcessErr IoErr
  unexpected_eof : CompleteRoundError ProcessErr IoErr

-- The conversions of `impl_round_complete_from!`.
module _ {E I : Type 0} where
  abbrev pub from_bug : Bug → CompleteRoundError E I
  from_bug b = router (bug b)

  abbrev pub from_improper : ImproperRoundStore → CompleteRoundError E I
  from_improper e = router (improper_round_store e)

  abbrev pub from_unregistered : UnregisteredRound → CompleteRoundError E I
  from_unregistered u = router (api_misuse (unregistered_round u))

  abbrev pub map_io_err : {F : Type 0} → (I → F) → CompleteRoundError E I → CompleteRoundError E F
  map_io_err f (process_msg e) = process_msg e
  map_io_err f (router e) = router e
  map_io_err f (io e) = io (f e)
  map_io_err f unexpected_eof = unexpected_eof

  abbrev map_process_err : {F : Type 0} → (E → F) → CompleteRoundError E I → CompleteRoundError F I
  map_process_err f (process_msg e) = process_msg (f e)
  map_process_err f (router e) = router e
  map_process_err f (io e) = io e
  map_process_err f unexpected_eof = unexpected_eof
