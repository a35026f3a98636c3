-- ===== src/Sim/Results/Agreement.antt =====
-- What `expect_ok` and `expect_eq` of `SimResult` (round-based/src/sim/mod.rs) accept and report.
use round_based.Prelude.{
  ℕ, ◌+◌, ◌≡◌, ◌≢◌, refl, sym, ap, subst, ◌∙◌, inl, inr, Bool, true, false, ◌&&◌, List, [], ◌∷◌,
  map, Result, ok, err, arith, Bool-cases,
}
use round_based.Sim.Results.{split_results, report, expect_ok, all_equal, last, expect_eq}

module _ {T E : Type 0} where
  -- The failures among the results, each with its place.
  abbrev pub failures : ℕ → List (Result T E) → List (ℕ × E)
  failures i [] = []
  failures i (ok _ ∷ rs) = failures (i + 1) rs
  failures i (err e ∷ rs) = (i, e) ∷ failures (i + 1) rs

  abbrev successes : List (Result T E) → List T
  successes [] = []
  successes (ok t ∷ rs) = t ∷ successes rs
  successes (err _ ∷ rs) = successes rs

  split_results_lem :
      (i : ℕ) (rs : List (Result T E)) → split_results i rs ≡ (successes rs, failures i rs)
  unfolding split_results
  split_results_lem i [] = refl
  split_results_lem i (ok t ∷ rs) = rw (split_results_lem (i + 1) rs)
  split_results_lem i (err e ∷ rs) = rw (split_results_lem (i + 1) rs)

  no_failures : (i : ℕ) (rs : List (Result T E)) → failures i rs ≡ [] → rs ≡ map ok (successes rs)
  no_failures i [] h = refl
  no_failures i (ok t ∷ rs) h = ap (λ r. ok t ∷ r) (no_failures (i + 1) rs h)
  no_failures i (err e ∷ rs) h = ground arith

  all_succeed : (i : ℕ) (ts : List T) → failures i (map ok ts) ≡ []
  all_succeed i [] = refl
  all_succeed i (t ∷ ts) = all_succeed (i + 1) ts

  expect_ok_lem : (rs : List (Result T E)) → expect_ok rs ≡ report (successes rs) (failures 0 rs)
  unfolding expect_ok
  expect_ok_lem rs = rw (split_results_lem 0 rs)

  report-ok :
      (oks : List T) (errs : List (ℕ × E)) (ts : List T)
      → report oks errs ≡ ok ts
      → (errs ≡ []) × (oks ≡ ts)
  report-ok oks [] ts h = (refl, ground arith)
  report-ok oks (e ∷ es) ts h = ground arith

  report-err : (oks : List T) (errs es : List (ℕ × E)) → report oks errs ≡ err es → es ≡ errs
  report-err oks [] es h = ground arith
  report-err oks (e ∷ errs) es h = ground arith

  -- `expect_ok` returns the outputs `ts` only if the results are these outputs, each a success and in
  -- the same order.
  expect_ok-all_succeeded :
      (rs : List (Result T E)) (ts : List T) → expect_ok rs ≡ ok ts → rs ≡ map ok ts
  expect_ok-all_succeeded rs ts h =
      let (none_failed, same) =
        report-ok (successes rs) (failures 0 rs) ts (sym (expect_ok_lem rs) ∙ h) in
      no_failures 0 rs none_failed ∙ ap (map ok) same

  -- The panic of `expect_ok` lists the failures, all of them and in order, each with its party.
  expect_ok-failures :
      (rs : List (Result T E)) (es : List (ℕ × E)) → expect_ok rs ≡ err es → es ≡ failures 0 rs
  expect_ok-failures rs es h =
      report-err (successes rs) (failures 0 rs) es (sym (expect_ok_lem rs) ∙ h)

left_holds : (a b : Bool) → (a && b) ≡ true → a ≡ true
left_holds true b h = refl
left_holds false b h = h

right_holds : (a b : Bool) → (a && b) ≡ true → b ≡ true
right_holds true b h = h
right_holds false b h = ground arith

-- Every value of the list is the given one.
abbrev pub AllAre : {T : Type 0} → T → List T → Type 0
AllAre t [] = Unit {0}
AllAre t (x ∷ xs) = (x ≡ t) × AllAre t xs

module _ {T : Type 0} (eq : T → T → Bool) where
  module _ (eq_sound : (x y : T) → eq x y ≡ true → x ≡ y) where
    all_equal-AllAre : (t : T) (xs : List T) → all_equal eq t xs ≡ true → AllAre t xs
    unfolding all_equal
    all_equal-AllAre t [] h = tt
    all_equal-AllAre t (x ∷ xs) h =
        (eq_sound x t (left_holds (eq x t) _ h), all_equal-AllAre t xs (right_holds (eq x t) _ h))

    last-AllAre : (t : T) (y : T) (xs : List T) → y ≡ t → AllAre t xs → last eq y xs ≡ t
    unfolding last
    last-AllAre t y [] e h = e
    last-AllAre t y (x ∷ xs) e h = last-AllAre t x xs h.0 h.1

    returned :
        (x : T) (xs : List T) (t : T)
        → all_equal eq x xs ≡ true
        → expect_eq eq (x ∷ xs) ≡ ok t
        → last eq x xs ≡ t
    unfolding expect_eq
    returned x xs t e h = ground arith

    -- `expect_eq` returns a value only if there is a party and every party has put out that value,
    -- where `==` tells different values apart.
    pub expect_eq-AllAre :
        (outs : List T) (t : T) → expect_eq eq outs ≡ ok t → (outs ≢ []) × AllAre t outs
    unfolding expect_eq
    expect_eq-AllAre [] t h = ground arith
    expect_eq-AllAre (x ∷ xs) t h = elim (Bool-cases (all_equal eq x xs)) [
      | inl e ↦
          let same = last-AllAre x x xs refl (all_equal-AllAre x xs e) in
          let is_t = sym same ∙ returned x xs t e h in
          (λ n. ground arith, subst (λ v. AllAre v (x ∷ xs)) is_t (refl, all_equal-AllAre x xs e))
      | inr e ↦ absurd (ground arith)
    ]
