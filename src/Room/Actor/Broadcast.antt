-- ===== src/Room/Actor/Broadcast.antt =====
-- room/actor.rs: the signed membership broadcasts, which wait for the next activation.
use veilroom.Prelude.{
  Bytes, List, [], if◌then◌else◌, map, not, retain, succ64, ℕ, ◌++◌, ◌==◌, ◌∷◌, nat_eq, list_eq,
  pair_eq,
}
use veilroom.Event.{ConnectionId, MemberId}
use veilroom.Command.Color.{as_index}
use veilroom.Room.Action.{RoomAction, send_to, Message, Signed, SnapshotMember}
use veilroom.Room.Environment.{Environment}
use veilroom.Room.Member.{Member}
use veilroom.Room.Actor.{RoomActor}

abbrev pub msg_member_joined : ℕ
msg_member_joined = 0x20

abbrev pub msg_member_left : ℕ
msg_member_left = 0x21

abbrev pub msg_member_kicked : ℕ
msg_member_kicked = 0x22

abbrev pub msg_member_snapshot : ℕ
msg_member_snapshot = 0x24

snapshot_member : Member → SnapshotMember
snapshot_member m = record {
  member_id = m.member_id;
  nickname = m.nickname;
  color = as_index m.color;
  is_host = m.is_host;
  ed25519_pubkey = m.ed25519_pubkey;
}

-- One message to every member in the list.
unfoldable pub send_each : Message → List Member → List RoomAction
send_each message members = map (λ m. send_to m.connection message) members

module _ {L : Type 0} (env : Environment L) where
  -- The signature of the host on an event with the room's present sequence and epoch.
  unfoldable pub signed : RoomActor L → ℕ → Bytes → Signed
  signed r event_type body = record {
    sequence = r.room_sequence;
    epoch = r.epoch;
    signature =
        env.sign r.host_identity
          (env.room_event_transcript 1 r.session_id r.room_sequence r.epoch event_type body);
  }

  unfoldable pub queue_member_snapshot : RoomActor L → ConnectionId → RoomActor L
  unfolding snapshot_member signed
  queue_member_snapshot room connection =
      let r = record room { room_sequence = succ64 room.room_sequence } in
      let members = map snapshot_member r.members.members in
      let message =
        Message.member_snapshot (signed r msg_member_snapshot (env.member_snapshot_body members))
          members in
      record r { pending_membership = r.pending_membership ++ send_to connection message ∷ [] }

  unfoldable pub queue_member_joined : RoomActor L → Member → RoomActor L
  unfolding queue_member_snapshot signed send_each
  queue_member_joined room m =
      let r = record room { room_sequence = succ64 room.room_sequence } in
      let body = env.member_joined_body m.member_id m.nickname m.ed25519_pubkey in
      let message =
        Message.member_joined (signed r msg_member_joined body) m.member_id m.nickname
          m.ed25519_pubkey in
      let others = retain (λ other. not (other.member_id == m.member_id)) r.members.members in
      queue_member_snapshot
        (record r { pending_membership = r.pending_membership ++ send_each message others })
        m.connection

  gone_message : Signed → ℕ → MemberId → Message
  gone_message s event_type member_id =
      if event_type == msg_member_kicked
      then Message.member_kicked s member_id
      else Message.member_left s member_id

  unfoldable pub queue_member_gone : RoomActor L → MemberId → ℕ → RoomActor L
  unfolding gone_message signed send_each
  queue_member_gone room member_id event_type =
      let r = record room { room_sequence = succ64 room.room_sequence } in
      let message =
        gone_message (signed r event_type (env.member_gone_body member_id)) event_type member_id in
      record r { pending_membership = r.pending_membership ++ send_each message r.members.members }
