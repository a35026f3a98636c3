-- ===== src/RandomGeneration/Blames.antt =====
-- Whom the loop of examples/random-generation-protocol/src/lib.rs blames.
use round_based.Prelude.{
  ℕ, zero, suc, ◌≡◌, subst, ◌≢◌, ◌↔◌, ◌⊎◌, refl, sym, ◌∙◌, inl, inr, Bool, true, false, some, List,
  [], ◌∷◌, ◌++◌, arith, get_elem?, Bool-cases, Result, ok, err, if◌then◌else◌,
}
use mathlib.Core.List.{append_assoc, append-nil}
use round_based.Round.SimpleStore.{RoundInput, RoundMsgs, output, sender_index}
use round_based.Round.SimpleStore.Invariant.{IsValid, received}
use round_based.RandomGeneration.Items.{items, item_received, received_item}
use round_based.RandomGeneration.{
  Bytes, CommitMsg, DecommitMsg, Blame, Opened, Error, bytes_eq, is_opened, verify_loop, xor_into,
  parties_opened_randomness_doesnt_match_commitment, verify, outcome,
}

pub bytes_eq_iff : (xs ys : Bytes) → (bytes_eq xs ys ≡ true) ↔ (xs ≡ ys)
unfolding bytes_eq
bytes_eq_iff [] [] = ground arith
bytes_eq_iff [] (y ∷ ys) = ground arith
bytes_eq_iff (x ∷ xs) [] = ground arith
bytes_eq_iff (x ∷ xs) (y ∷ ys) = ground (arith, bytes_eq_iff xs ys)

abbrev blame_of : Opened → Blame
blame_of ((party_i, com_msg_id, _), (_, decom_msg_id, _)) = record {
  guilty_party = party_i;
  commitment_msg = com_msg_id;
  decommitment_msg = decom_msg_id;
}

abbrev pub IsListed : List Blame → Blame → Type 0
IsListed guilty b = (k : ℕ) × (get_elem? guilty k ≡ some b)

module _ (digest : Bytes → Bytes) where
  abbrev pub is_opened_item : Opened → Bool
  is_opened_item ((_, _, commit), (_, _, decommit)) = is_opened digest commit decommit

  unfoldable blamed : List Opened → List Blame
  blamed [] = []
  blamed (x ∷ xs) = if is_opened_item x then blamed xs else blame_of x ∷ blamed xs

  unfoldable pub mixed : Bytes → List Opened → Bytes
  mixed out [] = out
  mixed out (x ∷ xs) = mixed (if is_opened_item x then xor_into out x.1.2.randomness else out) xs

  verify_loop_lem :
      (xs : List Opened) (guilty : List Blame) (out : Bytes)
      → verify_loop digest xs guilty out ≡ (guilty ++ blamed xs, mixed out xs)
  unfolding verify_loop blamed mixed
  verify_loop_lem [] guilty out = λ i. (sym (append-nil guilty) i, out)
  verify_loop_lem (((j, id, c), (j', id', d)) ∷ xs) guilty out =
      elim (Bool-cases (is_opened digest c d)) [
        | inl good ↦ rw good (verify_loop_lem xs guilty (xor_into out d.randomness))
        | inr bad ↦ rw bad (
            verify_loop_lem xs (guilty ++ blame_of ((j, id, c), (j', id', d)) ∷ []) out ∙ λ i. (
              append_assoc guilty (blame_of ((j, id, c), (j', id', d)) ∷ []) (blamed xs) i,
              mixed out xs,
            ))
      ]

  blamed_head :
      (x : Opened) (xs : List Opened) (k : ℕ) (b : Blame)
      → is_opened_item x ≡ false
      → ((j : ℕ)
          → get_elem? (blamed xs) j ≡ some b
          → (m : ℕ) × (y : Opened) × (get_elem? xs m ≡ some y)
            × (is_opened_item y ≡ false)
            × (blame_of y ≡ b))
      → get_elem? (blame_of x ∷ blamed xs) k ≡ some b
      → (m : ℕ) × (y : Opened) × (get_elem? (x ∷ xs) m ≡ some y)
        × (is_opened_item y ≡ false)
        × (blame_of y ≡ b)
  blamed_head x xs zero b bad later h = (zero, x, refl, bad, ground arith)
  blamed_head x xs (suc k) b bad later h =
      let (m, y, at, bad', same) = later k h in (suc m, y, at, bad', same)

  blamed-item :
      (xs : List Opened) (k : ℕ) (b : Blame)
      → get_elem? (blamed xs) k ≡ some b
      → (m : ℕ) × (x : Opened) × (get_elem? xs m ≡ some x)
        × (is_opened_item x ≡ false)
        × (blame_of x ≡ b)
  unfolding blamed
  blamed-item [] k b h = ground arith
  blamed-item (x ∷ xs) k b h = elim (Bool-cases (is_opened_item x)) [
    | inl good ↦
        let (m, y, at, bad, same) = blamed-item xs k b (rw good at h) in (suc m, y, at, bad, same)
    | inr bad ↦ blamed_head x xs k b bad (λ j. blamed-item xs j b) (rw bad at h)
  ]

  item_blamed :
      (xs : List Opened) (m : ℕ) (x : Opened)
      → get_elem? xs m ≡ some x
      → is_opened_item x ≡ false
      → (k : ℕ) × (get_elem? (blamed xs) k ≡ some (blame_of x))
  unfolding blamed
  item_blamed [] m x h bad = ground arith
  item_blamed (y ∷ xs) zero x h bad = (zero, ground arith)
  item_blamed (y ∷ xs) (suc m) x h bad = elim (Bool-cases (is_opened_item y)) [
    | inl good ↦ rw good (item_blamed xs m x h bad)
    | inr bad' ↦ let (k, at) = item_blamed xs m x h bad in rw bad' (suc k, at)
  ]

  -- A party that opened something else than what it committed to, with its two messages.
  unfoldable pub Cheated : RoundInput CommitMsg → RoundInput DecommitMsg → Blame → Type 0
  Cheated s1 s2 b =
      (c : CommitMsg) × (d : DecommitMsg) × (received s1 b.guilty_party
        ≡ some (b.commitment_msg, c))
      × (received s2 b.guilty_party ≡ some (b.decommitment_msg, d))
      × (c.commitment ≢ digest d.randomness)

  module _ (s1 : RoundInput CommitMsg) (s2 : RoundInput DecommitMsg) (r1 : RoundMsgs CommitMsg)
      (r2 : RoundMsgs DecommitMsg) (v1 : IsValid s1) (v2 : IsValid s2) (e1 : output s1 ≡ ok r1)
      (e2 : output s2 ≡ ok r2) (same_i : s1.i ≡ s2.i) (same_n : s1.n ≡ s2.n) where
    item-Cheated :
        (m : ℕ) (x : Opened)
        → get_elem? (items r1 r2) m ≡ some x
        → is_opened_item x ≡ false
        → Cheated s1 s2 (blame_of x)
    unfolding Cheated
    item-Cheated m x at bad =
        let (_, held, held') = item_received s1 s2 r1 r2 v1 v2 e1 e2 same_i same_n m x at in
        (
          x.0.2,
          x.1.2,
          held,
          held',
          λ e. ground (arith, (bytes_eq_iff x.0.2.commitment (digest x.1.2.randomness)).1 e),
        )

    blamed-Cheated : (b : Blame) → IsListed (blamed (items r1 r2)) b → Cheated s1 s2 b
    blamed-Cheated b (k, h) =
        let (m, x, at, bad, same) = blamed-item (items r1 r2) k b h in
        subst (λ b'. Cheated s1 s2 b') same (item-Cheated m x at bad)

    -- Where nobody cheated each item passes the check.
    pub honest_item :
        ((b : Blame) → ¬ Cheated s1 s2 b)
        → (m : ℕ) (x : Opened) → get_elem? (items r1 r2) m ≡ some x
        → is_opened_item x ≡ true
    honest_item honest m x at = elim (Bool-cases (is_opened_item x)) [
      | inl good ↦ good
      | inr bad ↦ absurd (honest (blame_of x) (item-Cheated m x at bad))
    ]

    Cheated-blamed : (b : Blame) → Cheated s1 s2 b → IsListed (blamed (items r1 r2)) b
    unfolding Cheated
    Cheated-blamed b (c, d, held, held', ne) =
        let at =
          received_item s1 s2 r1 r2 v1 v2 e1 e2 same_i same_n b.guilty_party b.commitment_msg
            b.decommitment_msg c d held held' in
        item_blamed (items r1 r2) (sender_index s1.i b.guilty_party) _ at
          (ground (arith, bytes_eq_iff c.commitment (digest d.randomness)))

    IsListed-head : (guilty : List Blame) → guilty ≢ [] → (b : Blame) × IsListed guilty b
    IsListed-head [] some_guilty = absurd (some_guilty refl)
    IsListed-head (b ∷ bs) some_guilty = (b, (zero, refl))

    abbrev Verdict :
        {RecvErr SendErr : Type 0} → Bytes → Result Bytes (Error RecvErr SendErr) → Type 0
    Verdict out result =
        ((result ≡ ok out) × ((b : Blame) → ¬ Cheated s1 s2 b))
        ⊎ ((guilty : List Blame) × (result
              ≡ err (parties_opened_randomness_doesnt_match_commitment guilty))
            × (guilty ≢ [])
            × ((b : Blame) → IsListed guilty b ↔ Cheated s1 s2 b))

    outcome-Verdict :
        (RecvErr SendErr : Type 0) (out : Bytes) (guilty : List Blame)
        → ((b : Blame) → IsListed guilty b ↔ Cheated s1 s2 b)
        → Verdict out (outcome {RecvErr = RecvErr} {SendErr = SendErr} (guilty, out))
    unfolding outcome
    outcome-Verdict RecvErr SendErr out [] listed =
        inl (refl, λ b cheated. let (k, h) = (listed b).1 cheated in ground arith)
    outcome-Verdict RecvErr SendErr out (g ∷ gs) listed =
        inr (g ∷ gs, refl, (λ e. ground arith), listed)

    -- Let the stores of the two rounds be well formed and complete, of one party among the same
    -- number of parties. Then what follows the rounds is one of two things. Either nobody cheated,
    -- and the local randomness with all openings mixed in is returned. Or somebody cheated, and the
    -- error lists a party with the ids of its two messages exactly when the digest of what it opened
    -- is not what it committed to.
    pub verify-blames :
        (RecvErr SendErr : Type 0) (local : Bytes)
        → ((verify digest {RecvErr = RecvErr} {SendErr = SendErr} r1 r2 local
              ≡ ok (mixed local (items r1 r2)))
            × ((b : Blame) → ¬ Cheated s1 s2 b))
          ⊎ ((guilty : List Blame) × (verify digest {RecvErr = RecvErr} {SendErr = SendErr} r1 r2
                  local
                ≡ err (parties_opened_randomness_doesnt_match_commitment guilty))
              × (guilty ≢ [])
              × ((b : Blame) → IsListed guilty b ↔ Cheated s1 s2 b))
    unfolding verify
    verify-blames RecvErr SendErr local = rw (verify_loop_lem (items r1 r2) [] local) (
        outcome-Verdict RecvErr SendErr (mixed local (items r1 r2)) (blamed (items r1 r2))
          (λ b. (blamed-Cheated b, Cheated-blamed b)))

    pub verify-honest :
        (RecvErr SendErr : Type 0) (local : Bytes)
        → ((b : Blame) → ¬ Cheated s1 s2 b)
        → verify digest {RecvErr = RecvErr} {SendErr = SendErr} r1 r2 local
          ≡ ok (mixed local (items r1 r2))
    verify-honest RecvErr SendErr local honest = elim (verify-blames RecvErr SendErr local) [
      | inl (e, _) ↦ e
      | inr (guilty, _, some_guilty, listed) ↦
          let (b, at) = IsListed-head guilty some_guilty in absurd (honest b ((listed b).0 at))
    ]
