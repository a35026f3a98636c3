-- ===== src/Sim/Queue.antt =====
-- `MessagesQueue` of round-based/src/sim/mod.rs: for each party the messages that it has not read,
-- oldest first. Parties are numbered by `u16`, so a simulation has at most 65536 of them.
pub mod Fifo
pub mod Ids
use round_based.Prelude.{
  ℕ, zero, suc, ◌+◌, ◌%◌, Bool, Option, none, some, List, [], ◌∷◌, ◌++◌, Result, ok, err, get_elem?,
  get_or, set, replicate, ◌==◌, if◌then◌else◌, u64_mod,
}
use round_based.Delivery.{
  Incoming, Outgoing, MessageDestination, all_parties, one_party, MsgId, PartyIndex, broadcast, p2p,
}
use round_based.StateMachine.Machine.{ExecutionError}

-- `SimError(Reason)`
pub data SimError : Type 0 where
  save_incoming_msg : SimError
  execution_error : ExecutionError → SimError
  unknown_recipient : PartyIndex → PartyIndex → SimError

-- The next item of a range of `u64`, which wraps in a release build.
abbrev pub next64 : MsgId → MsgId
next64 id = (id + 1) % u64_mod

pub record MessagesQueue (M : Type 0) : Type 0 where
  pub queue : List (List (Incoming M))
  pub next_id : MsgId

unfoldable pub new : (M : Type 0) → ℕ → MessagesQueue M
new M n = record { queue = replicate n []; next_id = 0 }

module _ {M : Type 0} where
  -- The loop over the destinations of a broadcast, from the one with index `i`; `id` is the next item
  -- of `msg_ids`. The second component is what `msg_ids` yields after the loop.
  unfoldable pub push_all :
      PartyIndex
      → Bool
      → M
      → ℕ
      → MsgId
      → List (List (Incoming M))
      → List (List (Incoming M)) × MsgId
  push_all sender reliable msg i id [] = ([], id)
  push_all sender reliable msg i id (q ∷ qs) =
      let skip = i == sender in
      let (qs', id') = push_all sender reliable msg (i + 1) (if skip then id else next64 id) qs in
      let sent =
        q ++ record { id = id; sender = sender; msg_type = broadcast reliable; msg = msg } ∷ [] in
      ((if skip then q else sent) ∷ qs', id')

  -- The id is used up also where the recipient does not exist.
  unfoldable pub send_to_one :
      MessagesQueue M
      → PartyIndex
      → M
      → PartyIndex
      → Option (List (Incoming M))
      → MessagesQueue M × Result (Unit {0}) SimError
  send_to_one q sender msg destination none =
      (record q { next_id = next64 q.next_id }, err (unknown_recipient sender destination))
  send_to_one q sender msg destination (some waiting) = (
    record {
      queue =
          set q.queue destination
            (waiting ++ record { id = q.next_id; sender = sender; msg_type = p2p; msg = msg } ∷ []);
      next_id = next64 q.next_id;
    },
    ok tt,
  )

  unfoldable pub dispatch :
      MessagesQueue M
      → PartyIndex
      → M
      → MessageDestination
      → MessagesQueue M × Result (Unit {0}) SimError
  unfolding push_all send_to_one
  dispatch q sender msg (all_parties reliable) =
      let (queue, next_id) = push_all sender reliable msg 0 q.next_id q.queue in
      (record { queue = queue; next_id = next_id }, ok tt)
  dispatch q sender msg (one_party destination) =
      send_to_one q sender msg destination (get_elem? q.queue destination)

  unfoldable pub send_message :
      MessagesQueue M → PartyIndex → Outgoing M → MessagesQueue M × Result (Unit {0}) SimError
  unfolding dispatch
  send_message q sender out = dispatch q sender out.msg out.recipient

  -- `pop_front` of the party's queue. The recipient is a party, so the index is in range.
  unfoldable pub recv_next_msg :
      MessagesQueue M → PartyIndex → MessagesQueue M × Option (Incoming M)
  recv_next_msg q recipient = elim (get_or q.queue recipient []) [
    | [] ↦ (q, none)
    | m ∷ rest ↦ (record q { queue = set q.queue recipient rest }, some m)
  ]
