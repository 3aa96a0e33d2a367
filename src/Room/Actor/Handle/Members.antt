-- ===== src/Room/Actor/Handle/Members.antt =====
-- Every event keeps what the member table's own operations keep.
use veilroom.Prelude.{List, if-both, subst, sym, ℕ, ◌==◌, nat_eq, list_eq, pair_eq}
use veilroom.Event.{RoomEvent, HostCommand}
use veilroom.Admission.{JoinPolicy}
use veilroom.Limits.{TimeoutKind}
use veilroom.Protocol.State.{RoomState}
use veilroom.Room.Action.{RoomAction}
use veilroom.Room.Environment.{Environment, Entropy}
use veilroom.Room.Member.{MemberTable}
use veilroom.Room.Actor.{RoomActor, Effect}
use veilroom.Room.Actor.Table.{Keeps}
use veilroom.Room.Actor.Transition.Members.{close_room-members, on_epoch_ack-members}
use veilroom.Room.Actor.Timeout.Members.{on_epoch_timeout-Keeps}
use veilroom.Room.Actor.Admit.Members.{
  on_join_requested-members, on_new_id-members, set_policy-members,
}
use veilroom.Room.Actor.Decide.Members.{on_accept-Keeps, on_reject-members}
use veilroom.Room.Actor.Leave.Members.{
  on_kick-Keeps, on_member_left-Keeps, on_member_command-Keeps, on_connection_lost-Keeps,
}
use veilroom.Room.Actor.Relay.{reject_during_transition}
use veilroom.Room.Actor.Receive.Members.{on_chat_received-Keeps}
use veilroom.Room.Actor.Handle.{
  on_host_command, in_transition, in_session, by_state, handle_event_at,
}

module _ {L : Type 0} (env : Environment L) (P : MemberTable → Type 0) where
  abbrev Q : Effect L (List RoomAction) → Type 0
  Q out = P out.0.members

  on_host_command-Keeps :
      (r : RoomActor L) (command : HostCommand) (entropy : Entropy)
      → Keeps P r.members
      → Q (on_host_command env r command entropy)
  unfolding on_host_command
  on_host_command-Keeps r (HostCommand.kick t) entropy k =
      on_kick-Keeps env P r.members k r t entropy k.now
  on_host_command-Keeps r HostCommand.new_id entropy k =
      subst P (sym (on_new_id-members env r entropy)) k.now
  on_host_command-Keeps r HostCommand.req_on entropy k =
      subst P (sym (set_policy-members env r JoinPolicy.open_joins)) k.now
  on_host_command-Keeps r HostCommand.req_off entropy k =
      subst P (sym (set_policy-members env r JoinPolicy.locked)) k.now
  on_host_command-Keeps r HostCommand.requests entropy k = k.now
  on_host_command-Keeps r (HostCommand.accept id) entropy k = on_accept-Keeps env P r id entropy k
  on_host_command-Keeps r (HostCommand.reject id) entropy k =
      subst P (sym (on_reject-members r id)) k.now

  in_session-Keeps :
      (r : RoomActor L) (event : RoomEvent) (entropy : Entropy)
      → Keeps P r.members
      → Q (in_session env r event entropy)
  unfolding in_session
  in_session-Keeps r (RoomEvent.client_connected c) entropy k = k.now
  in_session-Keeps r (RoomEvent.password_verified c) entropy k = k.now
  in_session-Keeps r (RoomEvent.epoch_ack c e) entropy k =
      subst P (sym (on_epoch_ack-members r c e)) k.now
  in_session-Keeps r (RoomEvent.join_requested c n i ed x s) entropy k =
      subst P (sym (on_join_requested-members r c _)) k.now
  in_session-Keeps r (RoomEvent.host_command command) entropy k =
      on_host_command-Keeps r command entropy k
  in_session-Keeps r (RoomEvent.member_command c command) entropy k =
      on_member_command-Keeps env P r.members k r c command entropy k.now
  in_session-Keeps r (RoomEvent.host_accepted id) entropy k = on_accept-Keeps env P r id entropy k
  in_session-Keeps r (RoomEvent.host_rejected id) entropy k =
      subst P (sym (on_reject-members r id)) k.now
  in_session-Keeps r (RoomEvent.connection_lost c) entropy k =
      on_connection_lost-Keeps env P r.members k r c entropy k.now
  in_session-Keeps r (RoomEvent.timeout_expired c kind) entropy k =
      on_connection_lost-Keeps env P r.members k r c entropy k.now
  in_session-Keeps r RoomEvent.epoch_maintenance entropy k = k.now
  in_session-Keeps r (RoomEvent.member_left m) entropy k =
      on_member_left-Keeps env P r.members k r m entropy k.now
  in_session-Keeps r (RoomEvent.chat_received c mt e) entropy k =
      on_chat_received-Keeps env P r.members k r c mt e entropy k.now
  in_session-Keeps r RoomEvent.tor_stopped entropy k = subst P (sym (close_room-members r)) k.now
  in_session-Keeps r RoomEvent.close_requested entropy k =
      subst P (sym (close_room-members r)) k.now

  in_transition-Keeps :
      (r : RoomActor L) (event : RoomEvent) (entropy : Entropy)
      → Keeps P r.members
      → Q (in_transition env r event entropy)
  unfolding in_transition reject_during_transition
  in_transition-Keeps r (RoomEvent.epoch_ack c e) entropy k =
      subst P (sym (on_epoch_ack-members r c e)) k.now
  in_transition-Keeps r (RoomEvent.connection_lost c) entropy k =
      on_connection_lost-Keeps env P r.members k r c entropy k.now
  in_transition-Keeps r (RoomEvent.timeout_expired c TimeoutKind.epoch_acknowledgement) entropy k =
      on_epoch_timeout-Keeps env P r.members k r entropy k.now
  in_transition-Keeps r (RoomEvent.timeout_expired c _) entropy k =
      on_connection_lost-Keeps env P r.members k r c entropy k.now
  in_transition-Keeps r RoomEvent.epoch_maintenance entropy k =
      on_epoch_timeout-Keeps env P r.members k r entropy k.now
  in_transition-Keeps r RoomEvent.close_requested entropy k =
      subst P (sym (close_room-members r)) k.now
  in_transition-Keeps r RoomEvent.tor_stopped entropy k = subst P (sym (close_room-members r)) k.now
  in_transition-Keeps r (RoomEvent.host_command HostCommand.requests) entropy k = k.now
  in_transition-Keeps r (RoomEvent.chat_received c mt e) entropy k =
      if-both Q _ (on_chat_received-Keeps env P r.members k r c mt e entropy k.now)
        (if-both Q (c == r.host_connection) k.now k.now)
  in_transition-Keeps r _ entropy k = k.now

  by_state-Keeps :
      (r : RoomActor L) (state : RoomState) (event : RoomEvent) (entropy : Entropy)
      → Keeps P r.members
      → Q (by_state env r state event entropy)
  unfolding by_state
  by_state-Keeps r RoomState.closing event entropy k = k.now
  by_state-Keeps r RoomState.destroyed event entropy k = k.now
  by_state-Keeps r RoomState.epoch_transition event entropy k =
      in_transition-Keeps r event entropy k
  by_state-Keeps r _ event entropy k = in_session-Keeps r event entropy k

  pub handle_event_at-Keeps :
      (r : RoomActor L) (event : RoomEvent) (now : ℕ) (entropy : Entropy)
      → Keeps P r.members
      → P (handle_event_at env r event now entropy).0.members
  unfolding handle_event_at
  handle_event_at-Keeps r event now entropy k =
      by_state-Keeps (record r { now = now }) r.state event entropy k
