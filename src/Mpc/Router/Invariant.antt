-- ===== src/Mpc/Router/Invariant.antt =====
-- The invariant of `RoundsRouter`, round-based/src/mpc/party/router.rs.
use round_based.Prelude.{
  ℕ, ◌≡◌, refl, sym, ◌∙◌, inl, inr, Option, none, some, ◌==◌, arith, Bool-cases, Option-cases,
  subst,
}
use round_based.Delivery.{Incoming}
use round_based.Round.Store.{IsProper}
use round_based.Mpc.Protocol.{Protocol, IsLawful}
use round_based.Mpc.Process.{needs_more_messages, new}
use round_based.Mpc.Process.Steps.{
  IsSound, new-IsSound, take_output-IsSound, process_message-IsSound,
}
use round_based.Mpc.Router.{
  Boxed, RoundsRouter, empty, lookup, insert, add_round, deliver, received_msg,
  retrieve_round_output, complete_round,
}
use round_based.Mpc.Router.Rounds.{lookup-insert}

module _ (P : Protocol) where
  -- A registered round is never taken out of the map, stands under its own number, and is sound.
  abbrev RoundAt : ℕ → Option (Option (Boxed P)) → Type 0
  RoundAt k none = Unit {0}
  RoundAt k (some none) = ⊥
  RoundAt k (some (some b)) = (P.round_number b.kind ≡ k) × IsSound (P.store b.kind) b.round

  abbrev pub IsWellFormed : RoundsRouter P → Type 0
  IsWellFormed router = (k : ℕ) → RoundAt k (lookup k router.rounds)

  insert-IsWellFormed :
      (router : RoundsRouter P) (k : ℕ) (b : Boxed P)
      → IsWellFormed router
      → RoundAt k (some (some b))
      → IsWellFormed (record { rounds = insert k (some b) router.rounds })
  insert-IsWellFormed router k b w h j = rw lookup-insert (elim (Bool-cases (k == j)) [
    | inl here ↦ rw here (subst (λ i. RoundAt i (some (some b))) (ground arith) h)
    | inr there ↦ rw there (w j)
  ])

  module _ (lawful : IsLawful P) (proper : (r : P.R) → IsProper (P.store r)) where
    pub empty-IsWellFormed : IsWellFormed (empty P)
    unfolding empty lookup
    empty-IsWellFormed k = tt

    -- In a lawful protocol with proper stores, registering a round keeps the router well formed.
    pub add_round-IsWellFormed :
        (router router' : RoundsRouter P) (r : P.R) (store : (P.store r).Store)
        → IsWellFormed router
        → add_round P router r store ≡ some router'
        → IsWellFormed router'
    unfolding add_round
    add_round-IsWellFormed router router' r store w e =
        elim (Option-cases (lookup (P.round_number r) router.rounds)) [
          | inr (o, taken) ↦ absurd (ground arith)
          | inl free ↦ subst IsWellFormed (ground arith) (
              insert-IsWellFormed router (P.round_number r)
                (record { kind = r; round = new (P.store r) store }) w
                (refl, new-IsSound (P.store r) (proper r) store))
        ]

    deliver-RoundAt :
        (k : ℕ) (b : Boxed P) (m : Incoming P.Msg)
        → P.round m.msg ≡ k
        → RoundAt k (some (some b))
        → RoundAt k (some (some (deliver P b m)))
    unfolding deliver
    deliver-RoundAt k b m e (n, h) =
        elim (Bool-cases (needs_more_messages (P.store b.kind) b.round)) [
          | inl more ↦
              rw more
                (n, process_message-IsSound P lawful b.kind (proper b.kind) b.round m (e ∙ sym n) h)
          | inr over ↦ rw over (n, h)
        ]

    received_at :
        (router : RoundsRouter P) (m : Incoming P.Msg) (o : Option (Option (Boxed P)))
        → lookup (P.round m.msg) router.rounds ≡ o
        → RoundAt (P.round m.msg) o
        → IsWellFormed router
        → IsWellFormed (received_msg P router m).0
    unfolding received_msg
    received_at router m none e h w = rw (e, received_msg) w
    received_at router m (some none) e h w = elim h [ ]
    received_at router m (some (some b)) e h w =
        rw (e, received_msg)
          (insert-IsWellFormed router (P.round m.msg) (deliver P b m) w
            (deliver-RoundAt (P.round m.msg) b m refl h))

    -- In a lawful protocol with proper stores, routing a message, from whoever it comes, keeps the
    -- router well formed: each round stands under its number and is sound.
    pub received_msg-IsWellFormed :
        (router : RoundsRouter P) (m : Incoming P.Msg)
        → IsWellFormed router
        → IsWellFormed (received_msg P router m).0
    received_msg-IsWellFormed router m w =
        received_at router m (lookup (P.round m.msg) router.rounds) refl (w (P.round m.msg)) w

    completed_at :
        (router : RoundsRouter P) (r : P.R) (o : Option (Option (Boxed P)))
        → lookup (P.round_number r) router.rounds ≡ o
        → RoundAt (P.round_number r) o
        → IsWellFormed router
        → IsWellFormed (complete_round P router r).0
    unfolding complete_round
    completed_at router r none e h w = rw (e, complete_round) w
    completed_at router r (some none) e h w = elim h [ ]
    completed_at router r (some (some b)) e h w =
        elim (Bool-cases (needs_more_messages (P.store b.kind) b.round)) [
          | inl more ↦ rw (e, complete_round) (rw more w)
          | inr over ↦
              rw (e, complete_round)
                (rw over (
                  insert-IsWellFormed router (P.round_number r) (retrieve_round_output P b r).0 w (
                    unfold retrieve_round_output in
                    (h.0, take_output-IsSound (P.store b.kind) (proper b.kind) b.round h.1))))
        ]

    -- In a lawful protocol with proper stores, an attempt to complete a round keeps the router
    -- well formed.
    pub complete_round-IsWellFormed :
        (router : RoundsRouter P) (r : P.R)
        → IsWellFormed router
        → IsWellFormed (complete_round P router r).0
    complete_round-IsWellFormed router r w =
        completed_at router r (lookup (P.round_number r) router.rounds) refl (w (P.round_number r))
          w
