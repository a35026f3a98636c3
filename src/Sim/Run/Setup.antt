-- ===== src/Sim/Run/Setup.antt =====
-- The constructors of `Simulation` for protocols that are async functions, and `run_with_setup`,
-- round-based/src/sim/mod.rs. A party's function is given by the state in which its future starts.
use mathlib.Core.List.{append_assoc, append-nil}
use mathlib.Core.Option
use round_based.Prelude.{
  ℕ, zero, suc, ◌+◌, ◌%◌, ◌≤◌, ◌≡◌, refl, ap, sym, ◌∙◌, false, some, List, [], ◌∷◌, ◌++◌, arith,
  get_elem?, length, u16_mod, replicate, length-replicate,
}
use round_based.StateMachine.Machine.{Future, machine, wrap_protocol}
use round_based.Sim.Run.{Party, active, Outcome, add_party, from_fn}
use round_based.Sim.Run

module _ {O M : Type 0} (F : Future O M) where
  unfoldable add_async_party : List (Party (machine F)) → F.State → List (Party (machine F))
  add_async_party parties f = parties ++ active (wrap_protocol F f) false ∷ []

  abbrev parties_amount : List (Party (machine F)) → ℕ
  parties_amount parties = length parties

  -- The loop of `from_async_fn`: party `i` starts as `init i`.
  unfoldable pub from_async_fn :
      ℕ → ℕ → (ℕ → F.State) → List (Party (machine F)) → List (Party (machine F))
  unfolding add_async_party
  from_async_fn zero i init sim = sim
  from_async_fn (suc n) i init sim = from_async_fn n (i + 1) init (add_async_party sim (init i))

  module _ {S : Type 0} where
    -- The loop of `run_with_setup`, with the next index of `0u16..`.
    unfoldable pub add_with_setup :
        List S → ℕ → (ℕ → S → F.State) → List (Party (machine F)) → List (Party (machine F))
    unfolding add_party
    add_with_setup [] i start sim = sim
    add_with_setup (setup ∷ setups) i start sim =
        add_with_setup setups ((i + 1) % u16_mod) start
          (add_party (machine F) sim (wrap_protocol F (start i setup)))

    unfoldable run_with_setup : ℕ → ℕ → List S → (ℕ → S → F.State) → Outcome (machine F)
    unfolding add_with_setup
    run_with_setup rounds steps setups start =
        Run.run (machine F) rounds steps (add_with_setup setups 0 start [])

  -- The function `run`: `repeat_n` gives no party a setup.
  unfoldable run : ℕ → ℕ → ℕ → (ℕ → F.State) → Outcome (machine F)
  unfolding run_with_setup
  run rounds steps n start = run_with_setup rounds steps (replicate n tt) (λ i _. start i)

  -- An async function makes the same parties as the state machines that it is wrapped into.
  pub from_async_fn-from_fn :
      (n i : ℕ) (init : ℕ → F.State) (sim : List (Party (machine F)))
      → from_async_fn n i init sim ≡ sim ++ from_fn (machine F) n i (λ j. wrap_protocol F (init j))
  unfolding from_async_fn from_fn
  from_async_fn-from_fn zero i init sim = sym (append-nil sim)
  from_async_fn-from_fn (suc n) i init sim =
      let first : Party (machine F) = active (wrap_protocol F (init i)) false in
      from_async_fn-from_fn n (i + 1) init (sim ++ first ∷ [])
      ∙ append_assoc sim (first ∷ [])
          (from_fn (machine F) n (i + 1) (λ j. wrap_protocol F (init j)))

  module _ {S : Type 0} where
    -- The parties of `run_with_setup`, in their order.
    unfoldable set_up : List S → ℕ → (ℕ → S → F.State) → List (Party (machine F))
    set_up [] i start = []
    set_up (setup ∷ setups) i start =
        active (wrap_protocol F (start i setup)) false ∷ set_up setups (i + 1) start

    add_with_setup_lem :
        (setups : List S) (i : ℕ) (start : ℕ → S → F.State) (sim : List (Party (machine F)))
        → i + length setups ≤ u16_mod
        → add_with_setup setups i start sim ≡ sim ++ set_up setups i start
    unfolding add_with_setup set_up
    add_with_setup_lem [] i start sim fits = sym (append-nil sim)
    add_with_setup_lem (setup ∷ []) i start sim fits = refl
    add_with_setup_lem (setup ∷ setup' ∷ setups) i start sim fits =
        let next : (i + 1) % u16_mod ≡ i + 1 = omega arith in
        let first : Party (machine F) = active (wrap_protocol F (start i setup)) false in
        ap (λ j. add_with_setup (setup' ∷ setups) j start (sim ++ first ∷ [])) next
        ∙ add_with_setup_lem (setup' ∷ setups) (i + 1) start (sim ++ first ∷ []) (omega arith)
        ∙ append_assoc sim (first ∷ []) (set_up (setup' ∷ setups) (i + 1) start)

    get_elem?-set_up :
        (setups : List S) (i : ℕ) (start : ℕ → S → F.State) (k : ℕ)
        → get_elem? (set_up setups i start) k
          ≡ Option.map
              (λ setup. active (wrap_protocol F (start (i + k) setup)) false)
              (get_elem? setups k)
    unfolding set_up
    get_elem?-set_up [] i start k = refl
    get_elem?-set_up (setup ∷ setups) i start zero =
        ap (λ j. some (active (wrap_protocol F (start j setup)) false)) (omega arith)
    get_elem?-set_up (setup ∷ setups) i start (suc k) =
        get_elem?-set_up setups (i + 1) start k
        ∙ ap
            (λ j.
              Option.map {B = Party (machine F)}
                (λ setup'. active (wrap_protocol F (start j setup')) false) (get_elem? setups k))
            (omega arith)

    -- With at most 2^16 setups, `run_with_setup` runs one party for each, where the `k`-th party is
    -- the function started with the index `k` and the `k`-th setup.
    pub get_elem?-add_with_setup :
        (setups : List S) (start : ℕ → S → F.State) (k : ℕ)
        → length setups ≤ u16_mod
        → get_elem? (add_with_setup setups 0 start []) k
          ≡ Option.map
              (λ setup. active (wrap_protocol F (start k setup)) false)
              (get_elem? setups k)
    get_elem?-add_with_setup setups start k fits =
        ap (λ l. get_elem? l k) (add_with_setup_lem setups 0 start [] (omega arith))
        ∙ get_elem?-set_up setups 0 start k
        ∙ ap
            (λ j.
              Option.map {B = Party (machine F)}
                (λ setup. active (wrap_protocol F (start j setup)) false) (get_elem? setups k))
            (omega arith)

  set_up-from_fn :
      (n i : ℕ) (start : ℕ → F.State)
      → set_up {S = Unit {0}} (replicate n tt) i (λ j _. start j)
        ≡ from_fn (machine F) n i (λ j. wrap_protocol F (start j))
  unfolding set_up from_fn
  set_up-from_fn zero i start = refl
  set_up-from_fn (suc n) i start =
      ap (◌∷◌ (active (wrap_protocol F (start i)) false)) (set_up-from_fn n (i + 1) start)

  -- For at most 2^16 parties, `run` is `Simulation::run` on what `from_async_fn` constructs.
  run-from_async_fn :
      (rounds steps n : ℕ) (start : ℕ → F.State)
      → n ≤ u16_mod
      → run rounds steps n start ≡ Run.run (machine F) rounds steps (from_async_fn n 0 start [])
  unfolding run run_with_setup
  run-from_async_fn rounds steps n start fits = ap (Run.run (machine F) rounds steps) (
      add_with_setup_lem (replicate n tt) 0 (λ i _. start i) []
        (omega (arith, length-replicate {0} n tt, fits))
      ∙ set_up-from_fn n 0 start
      ∙ sym (from_async_fn-from_fn n 0 start []))
