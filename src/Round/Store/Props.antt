-- ===== src/Round/Store/Props.antt =====
-- Properties of a store, through `WithProp` of round-based/src/round/mod.rs.
use mathlib.Core.HLevel.{hedberg}
use native.Mathlib.Decide.{ℕ_discrete}
use round_based.Prelude.{◌≡◌, ◌≢◌, refl, ap, ◌∙◌, Option, some, subst}
use mathlib.Core.Path.{subst_refl}
use round_based.Round.Store.{
  PropType, PropValue, RoundStore, IsProper, read_prop, set_prop, read_with_prop, with_prop,
}

PropType-discrete : Discrete PropType
PropType-discrete = hlevel ℕ_discrete

module _ (p : PropType) (S : RoundStore) where
  abbrev T : RoundStore
  T = with_prop p S PropType-discrete

  -- A property that was set is what is read.
  read_prop-set_prop_self :
      (s : S.Store) (value : PropValue p)
      → read_prop T (set_prop p S PropType-discrete s value) p ≡ some value
  unfolding set_prop read_with_prop
  read_prop-set_prop_self s value =
      elim (PropType-discrete p p)
        as (λ d.
          elim d as (λ _. Option (PropValue p)) [
            | yes e ↦ some (subst PropValue e value)
            | no _ ↦ S.read_any_prop s p
          ]
          ≡ some value) [
            | yes e ↦
                ap (λ q. some (subst PropValue q value)) (hedberg PropType-discrete p p e refl)
                ∙ ap some (subst_refl PropValue value)
            | no ne ↦ absurd (ne refl)
          ]

  -- Every other property is the wrapped store's.
  read_prop-set_prop_ne :
      (s : S.Store) (value : PropValue p) (q : PropType)
      → p ≢ q
      → read_prop T (set_prop p S PropType-discrete s value) q ≡ read_prop S s q
  unfolding set_prop read_with_prop
  read_prop-set_prop_ne s value q ne =
      elim (PropType-discrete p q)
        as (λ d.
          elim d as (λ _. Option (PropValue q)) [
            | yes e ↦ some (subst PropValue e value)
            | no _ ↦ S.read_any_prop s q
          ]
          ≡ S.read_any_prop s q) [ yes e ↦ absurd (ne e) | no _ ↦ refl ]

  -- A store with a property added keeps the contract of the store that it wraps.
  with_prop-IsProper : IsProper S → IsProper T
  with_prop-IsProper h = record {
    outputs = λ w more. let (o, e) = h.outputs w.store more in (o, rw e);
  }
