-- ===== src/Sim/Queue/Ids.antt =====
-- The ids that `MessagesQueue` of round-based/src/sim/mod.rs gives to messages.
use round_based.Prelude.{
  ℕ, zero, suc, ◌+◌, ◌≤◌, ◌<◌, ◌≡◌, refl, inl, inr, Bool, Option, none, some, List, [], ◌∷◌, ◌++◌,
  get_elem?, get_or, set, length, arith, ◌==◌, Bool-cases, u64_mod, subst,
}
use round_based.Delivery.{Incoming, Outgoing, MessageDestination, all_parties, one_party}
use round_based.Sim.Queue.{
  MessagesQueue, next64, push_all, send_to_one, dispatch, send_message, recv_next_msg,
}
use round_based.Sim.Queue.Fifo.{others, broadcast_copy, push_all-next_id}

module _ {M : Type 0} where
  -- The ids rise along the list, from `lo` and below `hi`.
  abbrev Rises : ℕ → ℕ → List (Incoming M) → Type 0
  Rises lo hi [] = Unit {0}
  Rises lo hi (m ∷ ms) = (lo ≤ m.id) × (m.id < hi) × Rises (m.id + 1) hi ms

  abbrev AllRise : ℕ → List (List (Incoming M)) → Type 0
  AllRise hi [] = Unit {0}
  AllRise hi (w ∷ ws) = Rises 0 hi w × AllRise hi ws

  -- No queue holds an id twice or out of order, or one that is still to be given.
  abbrev pub IsOrdered : MessagesQueue M → Type 0
  IsOrdered q = AllRise q.next_id q.queue

  Rises-mono :
      (lo lo' hi hi' : ℕ) (w : List (Incoming M))
      → lo' ≤ lo
      → hi ≤ hi'
      → Rises lo hi w
      → Rises lo' hi' w
  Rises-mono lo lo' hi hi' [] l h r = tt
  Rises-mono lo lo' hi hi' (m ∷ ms) l h r = (
    omega (arith, r.0),
    omega (arith, r.1),
    Rises-mono (m.id + 1) (m.id + 1) hi hi' ms (omega arith) h r.2,
  )

  Rises-append :
      (lo hi hi' : ℕ) (w : List (Incoming M)) (m : Incoming M)
      → lo ≤ hi
      → hi ≤ m.id
      → m.id < hi'
      → Rises lo hi w
      → Rises lo hi' (w ++ m ∷ [])
  Rises-append lo hi hi' [] m l h k r = (omega arith, omega arith, tt)
  Rises-append lo hi hi' (x ∷ w) m l h k r =
      (r.0, omega (arith, r.1), Rises-append (x.id + 1) hi hi' w m (omega (arith, r.1)) h k r.2)

  AllRise-mono :
      (hi hi' : ℕ) (ws : List (List (Incoming M))) → hi ≤ hi' → AllRise hi ws → AllRise hi' ws
  AllRise-mono hi hi' [] h a = tt
  AllRise-mono hi hi' (w ∷ ws) h a =
      (Rises-mono 0 0 hi hi' w (omega arith) h a.0, AllRise-mono hi hi' ws h a.1)

  AllRise-set :
      (hi : ℕ) (ws : List (List (Incoming M))) (k : ℕ) (w : List (Incoming M))
      → Rises 0 hi w
      → AllRise hi ws
      → AllRise hi (set ws k w)
  AllRise-set hi [] k w r a = tt
  AllRise-set hi (x ∷ ws) zero w r a = (r, a.1)
  AllRise-set hi (x ∷ ws) (suc k) w r a = (a.0, AllRise-set hi ws k w r a.1)

  AllRise-get :
      (hi : ℕ) (ws : List (List (Incoming M))) (k : ℕ) → AllRise hi ws → Rises 0 hi (get_or ws k [])
  AllRise-get hi [] k a = tt
  AllRise-get hi (w ∷ ws) zero a = a.0
  AllRise-get hi (w ∷ ws) (suc k) a = AllRise-get hi ws k a.1

  AllRise-get_elem? :
      (hi : ℕ) (ws : List (List (Incoming M))) (k : ℕ) (w : List (Incoming M))
      → get_elem? ws k ≡ some w
      → AllRise hi ws
      → Rises 0 hi w
  AllRise-get_elem? hi [] k w e a = ground arith
  AllRise-get_elem? hi (x ∷ ws) zero w e a = subst (Rises 0 hi) (ground arith) a.0
  AllRise-get_elem? hi (x ∷ ws) (suc k) w e a = AllRise-get_elem? hi ws k w e a.1

  push_all-AllRise :
      (sender : ℕ) (reliable : Bool) (msg : M) (i hi id top : ℕ) (qs : List (List (Incoming M)))
      → hi ≤ id
      → id + length qs < u64_mod
      → id + others sender i (length qs) ≤ top
      → AllRise hi qs
      → AllRise top (push_all sender reliable msg i id qs).0
  unfolding push_all
  push_all-AllRise sender reliable msg i hi id top [] l h t a = tt
  push_all-AllRise sender reliable msg i hi id top (q ∷ qs) l h t a =
      elim (Bool-cases (i == sender)) [
        | inl own ↦ rw own (
          Rises-mono 0 0 hi top q (omega arith) (ground arith) a.0,
          push_all-AllRise sender reliable msg (i + 1) hi id top qs l (omega arith) (ground arith)
              a.1,
        )
        | inr other ↦ rw other (
          Rises-append 0 hi top q (broadcast_copy id sender reliable msg) (omega arith) l
              (ground arith) a.0,
          push_all-AllRise sender reliable msg (i + 1) hi (next64 id) top qs (omega arith)
              (omega arith) (ground arith) a.1,
        )
      ]

  send_to_one-IsOrdered :
      (q : MessagesQueue M) (sender destination : ℕ) (msg : M) (o : Option (List (Incoming M)))
      → get_elem? q.queue destination ≡ o
      → q.next_id + 1 < u64_mod
      → IsOrdered q
      → IsOrdered (send_to_one q sender msg destination o).0
  unfolding send_to_one
  send_to_one-IsOrdered q sender destination msg none e h a =
      AllRise-mono _ _ q.queue (omega arith) a
  send_to_one-IsOrdered q sender destination msg (some w) e h a =
      AllRise-set _ q.queue destination _
        (Rises-append 0 q.next_id _ w _ (omega arith) (omega arith) (omega arith)
          (AllRise-get_elem? q.next_id q.queue destination w e a))
        (AllRise-mono _ _ q.queue (omega arith) a)

  dispatch-IsOrdered :
      (q : MessagesQueue M) (sender : ℕ) (msg : M) (to : MessageDestination)
      → q.next_id + length q.queue + 1 < u64_mod
      → IsOrdered q
      → IsOrdered (dispatch q sender msg to).0
  unfolding dispatch
  dispatch-IsOrdered q sender msg (all_parties reliable) h a =
      rw (push_all-next_id sender reliable msg 0 q.next_id q.queue (omega arith)) (
        push_all-AllRise sender reliable msg 0 q.next_id q.next_id _ q.queue (omega arith)
          (omega arith) (omega arith) a)
  dispatch-IsOrdered q sender msg (one_party destination) h a =
      send_to_one-IsOrdered q sender destination msg _ refl (omega arith) a

  -- As long as the ids do not run out, sending keeps the ids of every queue rising and below the
  -- next one to be given.
  pub send_message-IsOrdered :
      (q : MessagesQueue M) (sender : ℕ) (out : Outgoing M)
      → q.next_id + length q.queue + 1 < u64_mod
      → IsOrdered q
      → IsOrdered (send_message q sender out).0
  unfolding send_message
  send_message-IsOrdered q sender out h a = dispatch-IsOrdered q sender out.msg out.recipient h a

  read_at :
      (q : MessagesQueue M) (i : ℕ) (w : List (Incoming M))
      → get_or q.queue i [] ≡ w
      → Rises 0 q.next_id w
      → IsOrdered q
      → IsOrdered (recv_next_msg q i).0
  unfolding recv_next_msg
  read_at q i [] e r a = rw (e, recv_next_msg) a
  read_at q i (m ∷ w) e r a =
      rw (e, recv_next_msg)
        (AllRise-set q.next_id q.queue i w
          (Rises-mono (m.id + 1) 0 q.next_id q.next_id w (omega arith) (omega arith) r.2) a)

  -- Reading keeps the order, too.
  recv_next_msg-IsOrdered :
      (q : MessagesQueue M) (i : ℕ) → IsOrdered q → IsOrdered (recv_next_msg q i).0
  recv_next_msg-IsOrdered q i a =
      read_at q i (get_or q.queue i []) refl (AllRise-get q.next_id q.queue i a) a
