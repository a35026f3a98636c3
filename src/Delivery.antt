-- ===== src/Delivery.antt =====
-- round-based/src/delivery.rs: the messages that parties exchange. A `PartyIndex` and a `MsgId`
-- are numbers; their widths are 16 and 64 bits.
use round_based.Prelude.{ℕ, Bool, true, false, Result, ok, ◌>>=◌}

abbrev pub PartyIndex : Type 0
PartyIndex = ℕ

abbrev pub MsgId : Type 0
MsgId = ℕ

pub data MessageType : Type 0 where
  broadcast : Bool → MessageType
  p2p : MessageType

pub data MessageDestination : Type 0 where
  all_parties : Bool → MessageDestination
  one_party : PartyIndex → MessageDestination

pub record Incoming {ℓ} (M : Type ℓ) : Type ℓ where
  pub id : MsgId
  pub sender : PartyIndex
  pub msg_type : MessageType
  pub msg : M

pub record Outgoing {ℓ} (M : Type ℓ) : Type ℓ where
  pub recipient : MessageDestination
  pub msg : M

-- The methods of `Incoming`. `as_ref` is the identity here, where nothing is moved.
module _ {ℓ} {M : Type ℓ} where
  abbrev pub map_incoming : {T : Type ℓ} → (M → T) → Incoming M → Incoming T
  map_incoming f m = record { id = m.id; sender = m.sender; msg_type = m.msg_type; msg = f m.msg }

  abbrev pub try_map_incoming :
      {T E : Type ℓ} → (M → Result T E) → Incoming M → Result (Incoming T) E
  try_map_incoming f m = do
    t ← f m.msg
    ok (record { id = m.id; sender = m.sender; msg_type = m.msg_type; msg = t })

  abbrev pub map_outgoing : {T : Type ℓ} → (M → T) → Outgoing M → Outgoing T
  map_outgoing f m = record { recipient = m.recipient; msg = f m.msg }

  abbrev pub outgoing_all_parties : M → Outgoing M
  outgoing_all_parties m = record { recipient = all_parties false; msg = m }

  abbrev pub outgoing_reliable_broadcast : M → Outgoing M
  outgoing_reliable_broadcast m = record { recipient = all_parties true; msg = m }

  abbrev pub outgoing_p2p : PartyIndex → M → Outgoing M
  outgoing_p2p j m = record { recipient = one_party j; msg = m }

abbrev pub is_p2p : MessageDestination → Bool
is_p2p (all_parties _) = false
is_p2p (one_party _) = true

abbrev is_broadcast : MessageDestination → Bool
is_broadcast (all_parties _) = true
is_broadcast (one_party _) = false

abbrev pub is_reliable_broadcast : MessageDestination → Bool
is_reliable_broadcast (all_parties reliable) = reliable
is_reliable_broadcast (one_party _) = false

abbrev is_broadcast_type : MessageType → Bool
is_broadcast_type (broadcast _) = true
is_broadcast_type p2p = false

abbrev is_reliably_broadcasted_type : MessageType → Bool
is_reliably_broadcasted_type (broadcast reliable) = reliable
is_reliably_broadcasted_type p2p = false

abbrev is_p2p_type : MessageType → Bool
is_p2p_type (broadcast _) = false
is_p2p_type p2p = true
