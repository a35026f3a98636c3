-- ===== src/Sim/AsyncEnv/Queued.antt =====
-- The asynchronous network of round-based/src/sim/async_env.rs against the queues of
-- round-based/src/sim/mod.rs: both deliver the same messages in the same order.
use mathlib.Core.Option
use mathlib.Core.List.{append_assoc, append-nil, map-append}
use native.Mathlib.Nat.{add-zero, zero-add}
use round_based.Prelude.{
  ℕ, zero, suc, ◌+◌, ◌<◌, ◌≡◌, refl, sym, ap, ◌∙◌, inl, inr, Bool, true, false, Option, none, some,
  List, [], ◌∷◌, ◌++◌, map, arith, get_elem?, if◌then◌else◌, ◌==◌, Bool-cases, get_elem?-set_self,
  get_elem?-set_ne, get_elem?-lt, get_elem?-replicate,
}
use round_based.Delivery.{
  Incoming, Outgoing, MessageDestination, all_parties, one_party, broadcast, p2p, PartyIndex, MsgId,
}
use round_based.Sim.Queue.{
  MessagesQueue, next64, push_all, send_to_one, dispatch, send_message, new,
}
use round_based.Sim.AsyncEnv.{next, stamped}
use round_based.Sim.AsyncEnv.Receive.{addressed, is_for}
use round_based.Sim.AsyncEnv.Send.{stamp_all}

module _ {M : Type 0} where
  -- A message without its id.
  abbrev pub erase : Incoming M → Incoming M
  erase m = record { id = 0; sender = m.sender; msg_type = m.msg_type; msg = m.msg }

  abbrev pub is_own_broadcast : PartyIndex → Incoming M → Bool
  is_own_broadcast j m = elim m.msg_type [ broadcast _ ↦ m.sender == j | p2p ↦ false ]

  abbrev pub without_own : PartyIndex → List (Incoming M) → List (Incoming M)
  without_own j [] = []
  without_own j (m ∷ ms) = if is_own_broadcast j m then without_own j ms else m ∷ without_own j ms

  -- What `MessagesQueue` holds of a party after messages were sent.
  unfoldable pub queue_all : MessagesQueue M → List (PartyIndex × Outgoing M) → MessagesQueue M
  queue_all q [] = q
  queue_all q ((sender, msg) ∷ rest) = queue_all (send_message q sender msg).0 rest

  -- What one send adds to the queue of party `j`.
  unfoldable copies : PartyIndex → PartyIndex → MessageDestination → M → List (Incoming M)
  copies j sender (all_parties reliable) msg =
      if j == sender
      then []
      else record { id = 0; sender = sender; msg_type = broadcast reliable; msg = msg } ∷ []
  copies j sender (one_party d) msg =
      if j == d then record { id = 0; sender = sender; msg_type = p2p; msg = msg } ∷ [] else []

  abbrev pub view : ℕ → List (List (Incoming M)) → Option (List (Incoming M))
  view j qs = Option.map (map erase) (get_elem? qs j)

  view-push_all :
      (sender : PartyIndex) (reliable : Bool) (msg : M) (i id : ℕ) (qs : List (List (Incoming M)))
      (k : ℕ)
      → view k (push_all sender reliable msg i id qs).0
        ≡ Option.map (λ w. w ++ copies (i + k) sender (all_parties reliable) msg) (view k qs)
  unfolding push_all copies
  view-push_all sender reliable msg i id [] k = refl
  view-push_all sender reliable msg i id (q ∷ qs) zero = elim (Bool-cases (i == sender)) [
    | inl own ↦ rw (add-zero, own) (ap some (sym (append-nil (map erase q))))
    | inr other ↦ rw (add-zero, other) (ap some (map-append erase q _))
  ]
  view-push_all sender reliable msg i id (q ∷ qs) (suc k) =
      let shift : i + 1 + k ≡ i + suc k = omega arith in
      view-push_all sender reliable msg (i + 1) (if i == sender then id else next64 id) qs k
      ∙ ap (λ x. Option.map (λ w. w ++ copies x sender (all_parties reliable) msg) (view k qs))
          shift

  add_nothing : (v : Option (List (Incoming M))) → v ≡ Option.map (λ w. w ++ []) v
  add_nothing none = refl
  add_nothing (some w) = ap some (sym (append-nil w))

  view-send_to_one :
      (q : MessagesQueue M) (sender d j : PartyIndex) (msg : M) (o : Option (List (Incoming M)))
      → get_elem? q.queue d ≡ o
      → view j (send_to_one q sender msg d o).0.queue
        ≡ Option.map (λ w. w ++ copies j sender (one_party d) msg) (view j q.queue)
  unfolding send_to_one copies
  view-send_to_one q sender d j msg none e = elim (Bool-cases (j == d)) [
    | inl here ↦ let same : j ≡ d = ground arith in rw (here, same, e) refl
    | inr there ↦ rw there (add_nothing (view j q.queue))
  ]
  view-send_to_one q sender d j msg (some waiting) e = elim (Bool-cases (j == d)) [
    | inl here ↦
        let same : j ≡ d = ground arith in
        rw (here, same)
          (rw
            (get_elem?-set_self q.queue d (waiting ++ _ ∷ []) (get_elem?-lt q.queue d waiting e), e)
            (ap some (map-append erase waiting _)))
    | inr there ↦
        rw (there, get_elem?-set_ne q.queue d j (waiting ++ _ ∷ []) (ground arith))
          (add_nothing (view j q.queue))
  ]

  view-send_message :
      (q : MessagesQueue M) (sender j : PartyIndex) (out : Outgoing M)
      → view j (send_message q sender out).0.queue
        ≡ Option.map (λ w. w ++ copies j sender out.recipient out.msg) (view j q.queue)
  unfolding send_message dispatch
  view-send_message q sender j out = view_dispatch out.recipient
    where
      view_dispatch :
          (r : MessageDestination)
          → view j (dispatch q sender out.msg r).0.queue
            ≡ Option.map (λ w. w ++ copies j sender r out.msg) (view j q.queue)
      view_dispatch (all_parties reliable) =
          view-push_all sender reliable out.msg 0 q.next_id q.queue j ∙ rw zero-add refl
      view_dispatch (one_party d) = view-send_to_one q sender d j out.msg _ refl

  unfoldable copies_all : PartyIndex → List (PartyIndex × Outgoing M) → List (Incoming M)
  copies_all j [] = []
  copies_all j ((sender, out) ∷ rest) = copies j sender out.recipient out.msg ++ copies_all j rest

  add_both :
      (a b : List (Incoming M)) (v : Option (List (Incoming M)))
      → Option.map (λ w. w ++ b) (Option.map (λ w. w ++ a) v) ≡ Option.map (λ w. w ++ (a ++ b)) v
  add_both a b none = refl
  add_both a b (some w) = ap some (append_assoc w a b)

  view-queue_all :
      (q : MessagesQueue M) (sends : List (PartyIndex × Outgoing M)) (j : PartyIndex)
      → view j (queue_all q sends).queue
        ≡ Option.map (λ w. w ++ copies_all j sends) (view j q.queue)
  unfolding queue_all copies_all
  view-queue_all q [] j = add_nothing (view j q.queue)
  view-queue_all q ((sender, out) ∷ rest) j =
      view-queue_all (send_message q sender out).0 rest j
      ∙ ap (Option.map (λ w. w ++ copies_all j rest)) (view-send_message q sender j out)
      ∙ add_both (copies j sender out.recipient out.msg) (copies_all j rest) (view j q.queue)

  head_copies :
      (id : MsgId) (j sender : PartyIndex) (r : MessageDestination) (msg : M)
      (rest : List (Incoming M)) (rest' : List (Incoming M))
      → map erase (without_own j rest) ≡ rest'
      → map erase (
          without_own j (
            if is_for j r
            then (stamped sender id (record { recipient = r; msg = msg })).msg ∷ rest
            else rest))
        ≡ copies j sender r msg ++ rest'
  unfolding copies stamped
  head_copies id j sender (all_parties reliable) msg rest rest' e =
      elim (Bool-cases (sender == j)) [
        | inl own ↦ let own' : (j == sender) ≡ true = ground arith in rw (own, own') e
        | inr other ↦
            let other' : (j == sender) ≡ false = ground arith in
            rw (other, other')
              (ap
                (◌∷◌ (record { id = 0; sender = sender; msg_type = broadcast reliable; msg = msg }))
                e)
      ]
  head_copies id j sender (one_party d) msg rest rest' e = elim (Bool-cases (d == j)) [
    | inl here ↦
        let here' : (j == d) ≡ true = ground arith in
        rw (here, here')
          (ap (◌∷◌ (record { id = 0; sender = sender; msg_type = p2p; msg = msg })) e)
    | inr there ↦ let there' : (j == d) ≡ false = ground arith in rw (there, there') e
  ]

  addressed_copies :
      (id : MsgId) (sends : List (PartyIndex × Outgoing M)) (j : PartyIndex)
      → map erase (without_own j (addressed j (stamp_all id sends))) ≡ copies_all j sends
  unfolding addressed stamp_all copies_all stamped
  addressed_copies id [] j = refl
  addressed_copies id ((sender, out) ∷ rest) j =
      head_copies id j sender out.recipient out.msg (addressed j (stamp_all (next id).1 rest))
        (copies_all j rest) (addressed_copies (next id).1 rest j)

  view-new : (n j : ℕ) → j < n → view j (new M n).queue ≡ some []
  unfolding new
  view-new n j h = ap (Option.map (map erase)) (get_elem?-replicate n j [] h)

  -- Let the same messages be sent, in the same order, through the queues of a simulation of `n`
  -- parties and through the asynchronous network. Then the queue of each party holds what the
  -- network has for it to read, in the same order and with the same senders and types, but for the
  -- ids, and but for the party's own broadcasts, which only the network delivers back to it.
  pub addressed-queue_all :
      (n : ℕ) (sends : List (PartyIndex × Outgoing M)) (j : PartyIndex)
      → j < n
      → view j (queue_all (new M n) sends).queue
        ≡ some (map erase (without_own j (addressed j (stamp_all 0 sends))))
  addressed-queue_all n sends j h =
      view-queue_all (new M n) sends j
      ∙ ap (Option.map (λ w. w ++ copies_all j sends)) (view-new n j h)
      ∙ ap some (sym (addressed_copies 0 sends j))
