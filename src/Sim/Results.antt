-- ===== src/Sim/Results.antt =====
-- `SimResult` of round-based/src/sim/mod.rs. A panic is given by what its message lists.
pub mod Agreement
use round_based.Prelude.{
  ℕ, zero, suc, ◌+◌, Bool, true, false, ◌&&◌, Option, none, some, List, [], ◌∷◌, ◌++◌, Result, ok,
  err, if◌then◌else◌,
}

-- `expect_ok`: the outputs, or the failures with the parties' numbers.
module _ {T E : Type 0} where
  unfoldable pub split_results : ℕ → List (Result T E) → List T × List (ℕ × E)
  split_results i [] = ([], [])
  split_results i (ok res ∷ rs) = let (oks, errs) = split_results (i + 1) rs in (res ∷ oks, errs)
  split_results i (err res ∷ rs) =
      let (oks, errs) = split_results (i + 1) rs in (oks, (i, res) ∷ errs)

  -- `if !errs.is_empty()`
  abbrev pub report : List T → List (ℕ × E) → Result (List T) (List (ℕ × E))
  report oks [] = ok oks
  report oks (e ∷ errs) = err (e ∷ errs)

  unfoldable pub expect_ok : List (Result T E) → Result (List T) (List (ℕ × E))
  unfolding split_results
  expect_ok rs = let (oks, errs) = split_results 0 rs in report oks errs

-- How `expect_eq` panics: with no party, or with the parties grouped by what they put out.
pub data Disagreement (T : Type 0) : Type 0 where
  no_parties : Disagreement T
  different : List (T × List ℕ) → Disagreement T

module _ {T : Type 0} (eq : T → T → Bool) where
  unfoldable pub all_equal : T → List T → Bool
  all_equal first [] = true
  all_equal first (x ∷ xs) = eq x first && all_equal first xs

  -- `clusters.iter_mut().find(..)`, and the push that follows.
  unfoldable add_to_cluster : ℕ → T → List (T × List ℕ) → List (T × List ℕ)
  add_to_cluster i value [] = (value, i ∷ []) ∷ []
  add_to_cluster i value ((v, indexes) ∷ cs) =
      if eq v value then (v, indexes ++ i ∷ []) ∷ cs else (v, indexes) ∷ add_to_cluster i value cs

  unfoldable clusters : ℕ → List T → List (T × List ℕ) → List (T × List ℕ)
  unfolding add_to_cluster
  clusters i [] cs = cs
  clusters i (x ∷ xs) cs = clusters (i + 1) xs (add_to_cluster i x cs)

  unfoldable pub last : T → List T → T
  last x [] = x
  last x (y ∷ ys) = last y ys

  unfoldable pub expect_eq : List T → Result T (Disagreement T)
  unfolding all_equal clusters last
  expect_eq [] = err no_parties
  expect_eq (first ∷ rest) =
      if all_equal first rest
      then ok (last first rest)
      else err (different (clusters 0 (first ∷ rest) []))
