-- ===== src/Mpc/Router/Rounds.antt =====
-- The map of registered rounds, round-based/src/mpc/party/router.rs.
use round_based.Prelude.{ℕ, ◌≡◌, refl, some, List, [], ◌∷◌, ◌==◌, arith, if◌then◌else◌}
use round_based.Mpc.Router.{lookup, insert}

module _ {ℓ} {V : Type ℓ} where
  pub lookup-insert :
      (j k : ℕ) (v : V) (m : List (ℕ × V))
      → lookup j (insert k v m) ≡ (if k == j then some v else lookup j m)
  unfolding lookup insert
  lookup-insert j k v [] = refl
  lookup-insert j k v ((i, w) ∷ m) = ground (arith, lookup-insert j k v m)
