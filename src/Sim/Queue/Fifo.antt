-- ===== src/Sim/Queue/Fifo.antt =====
-- Who gets what: `MessagesQueue::send_message` of round-based/src/sim/mod.rs, party by party.
use mathlib.Core.Option
use native.Mathlib.Nat.{add-zero, zero-add}
use round_based.Prelude.{
  ℕ, zero, suc, ◌+◌, ◌-◌, ◌<◌, ◌≡◌, refl, ◌∙◌, inl, inr, Bool, true, Option, none, some, List, [],
  ◌∷◌, ◌++◌, ok, err, get_elem?, length, arith, ltb, ◌==◌, if◌then◌else◌, Bool-cases, u64_mod,
  get_elem?-set_self, get_elem?-set_ne, get_elem?-lt, get_elem?-some,
}
use round_based.Delivery.{Incoming, all_parties, one_party, broadcast, p2p}
use round_based.Sim.Queue.{
  MessagesQueue, unknown_recipient, next64, push_all, send_to_one, send_message,
}

-- How many of the `k` parties from the `i`-th on are not the sender.
abbrev pub others : ℕ → ℕ → ℕ → ℕ
others sender i k = if ltb sender i then k else (if ltb sender (i + k) then k - 1 else k)

module _ {M : Type 0} where
  abbrev pub broadcast_copy : ℕ → ℕ → Bool → M → Incoming M
  broadcast_copy id sender reliable msg = record {
    id = id;
    sender = sender;
    msg_type = broadcast reliable;
    msg = msg;
  }

  pub push_all-next_id :
      (sender : ℕ) (reliable : Bool) (msg : M) (i id : ℕ) (qs : List (List (Incoming M)))
      → id + length qs < u64_mod
      → (push_all sender reliable msg i id qs).1 ≡ id + others sender i (length qs)
  unfolding push_all
  push_all-next_id sender reliable msg i id [] h = ground arith
  push_all-next_id sender reliable msg i id (q ∷ qs) h = elim (Bool-cases (i == sender)) [
    | inl own ↦ rw own (ground (arith, push_all-next_id sender reliable msg (i + 1) id qs))
    | inr other ↦
        rw other (ground (arith, push_all-next_id sender reliable msg (i + 1) (next64 id) qs))
  ]

  get_elem?-push_all :
      (sender : ℕ) (reliable : Bool) (msg : M) (i id : ℕ) (qs : List (List (Incoming M))) (k : ℕ)
      → id + length qs < u64_mod
      → get_elem? (push_all sender reliable msg i id qs).0 k ≡ (
          if i + k == sender
          then get_elem? qs k
          else Option.map
              (λ w. w ++ broadcast_copy (id + others sender i k) sender reliable msg ∷ [])
              (get_elem? qs k))
  unfolding push_all
  get_elem?-push_all sender reliable msg i id [] k h = ground arith
  get_elem?-push_all sender reliable msg i id (q ∷ qs) zero h = elim (Bool-cases (i == sender)) [
    | inl own ↦ rw (add-zero, own)
    | inr other ↦
        let none_before : id + others sender i 0 ≡ id = ground arith in
        rw (none_before, add-zero, other)
  ]
  get_elem?-push_all sender reliable msg i id (q ∷ qs) (suc k) h =
      let shift : i + 1 + k ≡ i + suc k = omega arith in
      elim (Bool-cases (i == sender)) [
        | inl own ↦
            let ids : id + others sender (i + 1) k ≡ id + others sender i (suc k) = ground arith in
            rw own (
              get_elem?-push_all sender reliable msg (i + 1) id qs k (omega arith)
              ∙ rw (ids, shift))
        | inr other ↦
            let ids : next64 id + others sender (i + 1) k ≡ id + others sender i (suc k) =
              ground arith in
            rw other (
              get_elem?-push_all sender reliable msg (i + 1) (next64 id) qs k (omega arith)
              ∙ rw (ids, shift))
      ]

  -- As long as the ids do not run out, a broadcast reaches every party but the sender: each gets
  -- one copy, behind what it has not yet read, with an id of its own, numbered from `next_id` in
  -- the order of the parties; the sender's own queue is left alone.
  pub send_message-broadcast :
      (q : MessagesQueue M) (sender : ℕ) (reliable : Bool) (msg : M)
      → q.next_id + length q.queue < u64_mod
      → let (q', sent) =
          send_message q sender (record { recipient = all_parties reliable; msg = msg }) in
        (sent ≡ ok tt)
        × (q'.next_id ≡ q.next_id + others sender 0 (length q.queue))
        × ((j : ℕ)
            → get_elem? q'.queue j ≡ (
                if j == sender
                then get_elem? q.queue j
                else Option.map
                    (λ w.
                      w ++ broadcast_copy (q.next_id + others sender 0 j) sender reliable msg ∷ [])
                    (get_elem? q.queue j)))
  unfolding send_message
  send_message-broadcast q sender reliable msg h = (
    refl,
    push_all-next_id sender reliable msg 0 q.next_id q.queue h,
    λ j. get_elem?-push_all sender reliable msg 0 q.next_id q.queue j h ∙ rw zero-add,
  )

  to_one :
      (q : MessagesQueue M) (sender destination : ℕ) (msg : M) (o : Option (List (Incoming M)))
      → get_elem? q.queue destination ≡ o
      → let (q', sent) = send_to_one q sender msg destination o in
        (q'.next_id ≡ next64 q.next_id)
        × (sent ≡ (
            if ltb destination (length q.queue)
            then ok tt
            else err (unknown_recipient sender destination)))
        × ((j : ℕ)
            → get_elem? q'.queue j ≡ (
                if j == destination
                then Option.map
                    (λ w.
                      w
                      ++ record { id = q.next_id; sender = sender; msg_type = p2p; msg = msg } ∷ [])
                    (get_elem? q.queue j)
                else get_elem? q.queue j))
  unfolding send_to_one
  to_one q sender destination msg none e = (
    refl,
    elim (Bool-cases (ltb destination (length q.queue))) [
      | inl near ↦
          let (w, p) = get_elem?-some q.queue destination (ground arith) in
          absurd (ground (arith, p))
      | inr far ↦ rw far
    ],
    λ j. elim (Bool-cases (j == destination)) [
      | inl here ↦ let p : j ≡ destination = ground arith in rw (here, p, e)
      | inr there ↦ rw there
    ],
  )
  to_one q sender destination msg (some waiting) e =
      let near = get_elem?-lt q.queue destination waiting e in
      let test : ltb destination (length q.queue) ≡ true = ground arith in
      (
        refl,
        rw test,
        λ j. elim (Bool-cases (j == destination)) [
          | inl here ↦
              let p : j ≡ destination = ground arith in
              rw (here, p) (get_elem?-set_self q.queue destination _ near ∙ rw e)
          | inr there ↦ rw there (get_elem?-set_ne q.queue destination j _ (ground arith))
        ],
      )

  -- A message to one party goes to the end of that party's queue and to no other; to a party that
  -- does not exist it is refused, and no queue changes. Either way the id is used up.
  pub send_message-p2p :
      (q : MessagesQueue M) (sender destination : ℕ) (msg : M)
      → let (q', sent) =
          send_message q sender (record { recipient = one_party destination; msg = msg }) in
        (q'.next_id ≡ next64 q.next_id)
        × (sent ≡ (
            if ltb destination (length q.queue)
            then ok tt
            else err (unknown_recipient sender destination)))
        × ((j : ℕ)
            → get_elem? q'.queue j ≡ (
                if j == destination
                then Option.map
                    (λ w.
                      w
                      ++ record { id = q.next_id; sender = sender; msg_type = p2p; msg = msg } ∷ [])
                    (get_elem? q.queue j)
                else get_elem? q.queue j))
  unfolding send_message
  send_message-p2p q sender destination msg = to_one q sender destination msg _ refl
