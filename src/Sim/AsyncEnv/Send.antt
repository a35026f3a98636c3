-- ===== src/Sim/AsyncEnv/Send.antt =====
-- What a sequence of sends through the network of round-based/src/sim/async_env.rs leaves for each
-- party.
use mathlib.Core.List.{append_assoc, append-nil}
use round_based.Prelude.{
  ℕ, zero, suc, ◌+◌, ◌%◌, ◌≤◌, ◌<◌, ◌≡◌, refl, sym, ap, subst, ◌∙◌, some, List, [], ◌∷◌, ◌++◌, ok,
  arith, get_elem?, get_elem?-some, length, u16_mod, u64_mod,
}
use round_based.Delivery.{Incoming, Outgoing, PartyIndex, MsgId}
use round_based.Sim.AsyncEnv.{
  Channel, Network, MockedDelivery, next, stamped, start_send, connect_new_party, connect_all,
  with_capacity,
}
use round_based.Sim.AsyncEnv.Contract.{IsBroadcast}
use round_based.Sim.AsyncEnv.Receive.{addressed, unread, IsInStep}

module _ {M : Type 0} where
  -- The messages of a sequence of sends, each with its sender, as they stand in the channel.
  unfoldable pub stamp_all : MsgId → List (PartyIndex × Outgoing M) → List (Outgoing (Incoming M))
  stamp_all id [] = []
  stamp_all id ((sender, msg) ∷ rest) = stamped sender id msg ∷ stamp_all (next id).1 rest

  -- The ids count up from the first, as long as they do not run out.
  stamp_all-ids :
      (id : MsgId) (sends : List (PartyIndex × Outgoing M)) (k : ℕ) (m : Outgoing (Incoming M))
      → id + length sends < u64_mod
      → get_elem? (stamp_all id sends) k ≡ some m
      → m.msg.id ≡ id + k
  unfolding stamp_all stamped next
  stamp_all-ids id [] k m fits e = ground arith
  stamp_all-ids id ((sender, msg) ∷ rest) zero m fits e = ground arith
  stamp_all-ids id ((sender, msg) ∷ rest) (suc k) m fits e =
      omega (arith, stamp_all-ids ((id + 1) % u64_mod) rest k m (omega arith) e)

  pub length-stamp_all :
      (id : MsgId) (sends : List (PartyIndex × Outgoing M))
      → length (stamp_all id sends) ≡ length sends
  unfolding stamp_all
  length-stamp_all id [] = refl
  length-stamp_all id ((sender, msg) ∷ rest) = ap suc (length-stamp_all (next id).1 rest)

  module _ (C : Channel (Outgoing (Incoming M))) where
    -- `start_send` of one party after another.
    unfoldable pub send_all : Network C → List (PartyIndex × Outgoing M) → Network C
    send_all network [] = network
    send_all network ((sender, msg) ∷ rest) =
        send_all (start_send C network (record { local_party_idx = sender }) msg).0 rest

  module _ (C : Channel (Outgoing (Incoming M))) (law : IsBroadcast C) where
    -- While the channel has a receiver, a send succeeds; it takes one id, and puts the message with
    -- that id, its sender and its type behind what was sent before.
    pub start_send-sent :
        (network : Network C) (sender : PartyIndex) (msg : Outgoing M)
        → law.HasReceiver network.channel
        → let (network', result) = start_send C network (record { local_party_idx = sender }) msg in
          (result ≡ ok tt)
          × (law.sent network'.channel
              ≡ law.sent network.channel ++ stamped sender network.next_msg_id msg ∷ [])
          × (network'.next_msg_id ≡ (network.next_msg_id + 1) % u64_mod)
          × (network'.next_party_idx ≡ network.next_party_idx)
          × (law.capacity network'.channel ≡ law.capacity network.channel)
          × law.HasReceiver network'.channel
    unfolding start_send next
    start_send-sent network sender msg h =
        let x = stamped sender network.next_msg_id msg in
        (
          rw (law.send_ok network.channel x h),
          law.send_sent network.channel x h,
          refl,
          refl,
          law.send_capacity network.channel x,
          law.send_received network.channel x h,
        )

    send_all-sent :
        (network : Network C) (sends : List (PartyIndex × Outgoing M))
        → law.HasReceiver network.channel
        → (law.sent (send_all C network sends).channel
            ≡ law.sent network.channel ++ stamp_all network.next_msg_id sends)
          × (law.capacity (send_all C network sends).channel ≡ law.capacity network.channel)
    unfolding send_all stamp_all next
    send_all-sent network [] h = (sym (append-nil (law.sent network.channel)), refl)
    send_all-sent network ((sender, msg) ∷ rest) h =
        let (_, sent, ids, _, room, h') = start_send-sent network sender msg h in
        let network' = (start_send C network (record { local_party_idx = sender }) msg).0 in
        let (ih, ih') = send_all-sent network' rest h' in
        (
          ih
              ∙ ap (λ l. l ++ stamp_all network'.next_msg_id rest) sent
              ∙ append_assoc (law.sent network.channel) _ _
              ∙ ap
                  (λ id.
                    law.sent network.channel
                    ++ stamped sender network.next_msg_id msg ∷ stamp_all id rest)
                  ids,
          ih' ∙ room,
        )

    connect_all-kept :
        (k : ℕ) (network : Network C)
        → let network' = (connect_all C k network).0 in
          (law.sent network'.channel ≡ law.sent network.channel)
          × (law.capacity network'.channel ≡ law.capacity network.channel)
          × (network'.next_msg_id ≡ network.next_msg_id)
    unfolding connect_all connect_new_party
    connect_all-kept zero network = (refl, refl, refl)
    connect_all-kept (suc k) network =
        let (sent, room, ids) = connect_all-kept k (connect_new_party C network).0 in
        (
          sent ∙ law.subscribe_sent network.channel,
          room ∙ law.subscribe_capacity network.channel,
          ids,
        )

    connect_all-HasReceiver :
        (k : ℕ) (network : Network C) → law.HasReceiver (connect_all C (suc k) network).0.channel
    unfolding connect_all connect_new_party
    connect_all-HasReceiver zero network = law.subscribe_received network.channel
    connect_all-HasReceiver (suc k) network =
        connect_all-HasReceiver k (connect_new_party C network).0

    abbrev IsPlacedAt : PartyIndex → ℕ → List (Outgoing (Incoming M)) → MockedDelivery C → Type 0
    IsPlacedAt first j sent delivery =
        (delivery.incomings.local_party_idx ≡ first + j)
        × (delivery.outgoings.local_party_idx ≡ first + j)
        × (law.position delivery.incomings.receiver ≡ length sent)

    -- Parties are numbered in the order in which they connect, and start to read behind what was
    -- sent before.
    connected_at :
        (k : ℕ) (network : Network C) (j : ℕ) (delivery : MockedDelivery C)
        → network.next_party_idx + k ≤ u16_mod
        → get_elem? (connect_all C k network).1 j ≡ some delivery
        → IsPlacedAt network.next_party_idx j (law.sent network.channel) delivery
    unfolding connect_all connect_new_party
    connected_at zero network j delivery fits e = ground arith
    connected_at (suc k) network zero delivery fits e =
        let first : (connect_new_party C network).1 ≡ delivery = ground (arith, e) in
        subst (IsPlacedAt network.next_party_idx 0 (law.sent network.channel)) first
          (omega arith, omega arith, law.subscribe_position network.channel)
    connected_at (suc zero) network (suc j) delivery fits e = ground arith
    connected_at (suc (suc k)) network (suc j) delivery fits e =
        let (i, o, p) =
          connected_at (suc k) (connect_new_party C network).0 j delivery (omega arith) e in
        (
          omega (arith, i, fits),
          omega (arith, o, fits),
          p ∙ ap length (law.subscribe_sent network.channel),
        )

    pub run-sent :
        (capacity n : ℕ) (sends : List (PartyIndex × Outgoing M))
        → 0 < n
        → law.sent (send_all C (connect_all C n (with_capacity C capacity)).0 sends).channel
          ≡ stamp_all 0 sends
    unfolding with_capacity
    run-sent capacity zero sends some_party = absurd (omega arith)
    run-sent capacity (suc k) sends some_party =
        let network = (connect_all C (suc k) (with_capacity C capacity)).0 in
        let (kept, _, kept_id) = connect_all-kept (suc k) (with_capacity C capacity) in
        let (sent, _) =
          send_all-sent network sends (connect_all-HasReceiver k (with_capacity C capacity)) in
        sent
        ∙ ap (λ l. l ++ stamp_all network.next_msg_id sends) (kept ∙ law.channel_sent capacity)
        ∙ ap (λ id. stamp_all id sends) kept_id

    -- Let fewer than 2^64 messages be sent through a fresh network to which some party is connected.
    -- Then the channel has a message for each of them, and the one sent after `j` others has the
    -- id `j`.
    pub run-ids :
        (capacity n : ℕ) (sends : List (PartyIndex × Outgoing M)) (j : ℕ)
        → 0 < n
        → length sends < u64_mod
        → j < length sends
        → let s = (send_all C (connect_all C n (with_capacity C capacity)).0 sends).channel in
          (length (law.sent s) ≡ length sends)
          × (m : Outgoing (Incoming M)) × (get_elem? (law.sent s) j ≡ some m)
          × (m.msg.id ≡ j)
    run-ids capacity zero sends j some_party few near = absurd (omega arith)
    run-ids capacity (suc k) sends j some_party few near =
        let log = run-sent capacity (suc k) sends some_party in
        let count = length-stamp_all 0 sends in
        let (m, at) = get_elem?-some (stamp_all 0 sends) j (omega (arith, count, near)) in
        (
          ap length log ∙ count,
          m,
          ap (λ l. get_elem? l j) log ∙ at,
          omega (arith, stamp_all-ids 0 sends j m (omega arith) at),
        )

    -- Let `n` parties, at least one and at most 2^16, be connected to a fresh network, and then
    -- messages be sent, in any order and by any parties, no more than the capacity. Then the
    -- delivery that was the `j`-th to be handed out is that of party `j`: it sends under that index,
    -- its receiver is in step with the channel, and what it has to read is exactly those of the
    -- messages that are addressed to party `j`, in the order in which they were sent, and with ids
    -- that count the sends from 0.
    pub run-unread :
        (capacity n : ℕ) (sends : List (PartyIndex × Outgoing M)) (j : ℕ)
        (delivery : MockedDelivery C)
        → 0 < n
        → n ≤ u16_mod
        → length sends ≤ capacity
        → get_elem? (connect_all C n (with_capacity C capacity)).1 j ≡ some delivery
        → let s = (send_all C (connect_all C n (with_capacity C capacity)).0 sends).channel in
          (delivery.outgoings.local_party_idx ≡ j)
          × IsInStep C law s delivery.incomings
          × (unread C law s delivery.incomings ≡ addressed j (stamp_all 0 sends))
    unfolding with_capacity
    run-unread capacity zero sends j delivery some_party fits room e = absurd (omega arith)
    run-unread capacity (suc k) sends j delivery some_party fits room e =
        let fresh = with_capacity C capacity in
        let network = (connect_all C (suc k) fresh).0 in
        let (i, o, p) = connected_at (suc k) fresh j delivery (omega arith) e in
        let (_, kept_room, _) = connect_all-kept (suc k) fresh in
        let (_, sent_room) = send_all-sent network sends (connect_all-HasReceiver k fresh) in
        let log = run-sent capacity (suc k) sends some_party in
        let start : law.position delivery.incomings.receiver ≡ 0 =
          p ∙ ap length (law.channel_sent capacity) in
        let room' : law.capacity (send_all C network sends).channel ≡ capacity =
          sent_room ∙ kept_room ∙ law.channel_capacity capacity in
        (
          omega (arith, o),
          (
            omega (arith, start),
            omega (arith, start, room', ap length log, length-stamp_all 0 sends, room),
          ),
          rw (log, start) (ap (λ x. addressed x (stamp_all 0 sends)) (i ∙ omega arith)),
        )
