-- ===== src/Round/SimpleStore/Traffic.antt =====
-- The store of round-based/src/round/simple_store.rs does not see how the network interleaves the
-- messages of different senders.
use round_based.Prelude.{
  ◌≡◌, ◌≢◌, refl, sym, ap, subst, ◌∙◌, inl, inr, false, Bool-cases, List, [], ◌∷◌, ◌==◌, arith,
  if◌then◌else◌,
}
use round_based.Delivery.{Incoming, PartyIndex}
use round_based.Round.SimpleStore.{RoundInput}
use round_based.Round.SimpleStore.Sequence.{
  add_all, Reordered, same, swapped, behind, further, add_all-Reordered,
}

module _ {M : Type 0} where
  -- What one party sent, in its order.
  unfoldable pub from : PartyIndex → List (Incoming M) → List (Incoming M)
  from j [] = []
  from j (m ∷ ms) = if m.sender == j then m ∷ from j ms else from j ms

  -- Every party sent the same in both.
  abbrev pub SameTraffic : List (Incoming M) → List (Incoming M) → Type 0
  SameTraffic ms ns = (j : PartyIndex) → from j ms ≡ from j ns

  from_cons :
      (j : PartyIndex) (x : Incoming M) (ms ns : List (Incoming M))
      → from j ms ≡ from j ns
      → from j (x ∷ ms) ≡ from j (x ∷ ns)
  unfolding from
  from_cons j x ms ns e = ap (λ l. if x.sender == j then x ∷ l else l) e

  from_swap :
      (j : PartyIndex) (a b : Incoming M) (ms : List (Incoming M))
      → a.sender ≢ b.sender
      → from j (a ∷ b ∷ ms) ≡ from j (b ∷ a ∷ ms)
  unfolding from
  from_swap j a b ms apart = elim (Bool-cases (a.sender == j)) [
    | inl here ↦ let there : (b.sender == j) ≡ false = ground arith in rw (here, there) refl
    | inr away ↦ rw away refl
  ]

  from_uncons :
      (j : PartyIndex) (x : Incoming M) (ms ns : List (Incoming M))
      → from j (x ∷ ms) ≡ from j (x ∷ ns)
      → from j ms ≡ from j ns
  unfolding from
  from_uncons j x ms ns e = elim (Bool-cases (x.sender == j)) [
    | inl here ↦ ground (arith, rw here at e)
    | inr away ↦ rw away at e
  ]

  Reordered-SameTraffic : (ms ns : List (Incoming M)) → Reordered ms ns → SameTraffic ms ns
  Reordered-SameTraffic _ _ (same ms) j = refl
  Reordered-SameTraffic _ _ (swapped a b ms apart) j = from_swap j a b ms apart
  Reordered-SameTraffic _ _ (behind m ms ns r) j =
      from_cons j m ms ns (Reordered-SameTraffic ms ns r j)
  Reordered-SameTraffic _ _ (further ls ms ns r q) j =
      Reordered-SameTraffic ls ms r j ∙ Reordered-SameTraffic ms ns q j

  backwards : (ms ns : List (Incoming M)) → Reordered ms ns → Reordered ns ms
  backwards _ _ (same ms) = same ms
  backwards _ _ (swapped a b ms apart) = swapped b a ms (λ e. apart (sym e))
  backwards _ _ (behind m ms ns r) = behind m ns ms (backwards ms ns r)
  backwards _ _ (further ls ms ns r q) = further ns ms ls (backwards ms ns q) (backwards ls ms r)

  -- The first message of its sender can be moved to the front.
  to_front :
      (a : Incoming M) (ns rest : List (Incoming M))
      → from a.sender ns ≡ a ∷ rest
      → (ms : List (Incoming M)) × Reordered ns (a ∷ ms)
  unfolding from
  to_front a [] rest e = ground arith
  to_front a (x ∷ ns) rest e = elim (Bool-cases (x.sender == a.sender)) [
    | inl here ↦
        let it : x ≡ a = ground (arith, rw here at e) in
        (ns, subst (λ y. Reordered (x ∷ ns) (y ∷ ns)) it (same (x ∷ ns)))
    | inr away ↦
        let (ms, r) = to_front a ns rest (rw away at e) in
        (
          x ∷ ms,
          further (x ∷ ns) (x ∷ a ∷ ms) (a ∷ x ∷ ms) (behind x ns (a ∷ ms) r)
              (swapped x a ms (ground arith)),
        )
  ]

  from_own :
      (a : Incoming M) (ms : List (Incoming M)) → from a.sender (a ∷ ms) ≡ a ∷ from a.sender ms
  unfolding from
  from_own a ms = ground arith

  from_own-ne : (a : Incoming M) (ms : List (Incoming M)) → [] ≢ from a.sender (a ∷ ms)
  from_own-ne a ms e = ground (arith, e ∙ from_own a ms)

  SameTraffic-Reordered : (ms ns : List (Incoming M)) → SameTraffic ms ns → Reordered ms ns
  unfolding from
  SameTraffic-Reordered [] [] h = same []
  SameTraffic-Reordered [] (n ∷ ns) h = absurd (from_own-ne n ns (h n.sender))
  SameTraffic-Reordered (a ∷ ms) ns h =
      let (ns', r) = to_front a ns (from a.sender ms) (sym (h a.sender) ∙ from_own a ms) in
      let rest =
        SameTraffic-Reordered ms ns'
          (λ j. from_uncons j a ms ns' (h j ∙ Reordered-SameTraffic ns (a ∷ ns') r j)) in
      further (a ∷ ms) (a ∷ ns') ns (behind a ms ns' rest) (backwards ns (a ∷ ns') r)

  -- If every party's messages arrive in the same order in two sequences, then the store ends in the
  -- same state, however the two interleave the messages of different parties.
  pub add_all-SameTraffic :
      (s : RoundInput M) (ms ns : List (Incoming M))
      → SameTraffic ms ns
      → add_all s ms ≡ add_all s ns
  add_all-SameTraffic s ms ns h = add_all-Reordered s ms ns (SameTraffic-Reordered ms ns h)
