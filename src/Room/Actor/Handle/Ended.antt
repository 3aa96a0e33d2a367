-- ===== src/Room/Actor/Handle/Ended.antt =====
-- After the room is closed.
use veilroom.Prelude.{ap, ℕ, ◌≡◌}
use veilroom.Event.{RoomEvent}
use veilroom.Room.Environment.{Environment, Entropy}
use veilroom.Room.Actor.{RoomActor, RoomError, err}
use veilroom.Room.Actor.Transition.{close_room}
use veilroom.Room.Actor.Transition.Ended.{close_room-state}
use veilroom.Room.Actor.Handle.{by_state, handle_event_at}

module _ {L : Type 0} (env : Environment L) where
  -- A room that was closed refuses every event, at any time and with any randomness, as closed, and
  -- only its clock moves.
  pub handle_event_at-close_room :
      (r : RoomActor L) (event : RoomEvent) (now : ℕ) (entropy : Entropy)
      → let r' = (close_room r).0 in
        handle_event_at env r' event now entropy
        ≡ (record r' { now = now }, err RoomError.room_closed)
  unfolding handle_event_at by_state
  handle_event_at-close_room r event now entropy =
      let r' = (close_room r).0 in
      ap (λ s. by_state env (record r' { now = now }) s event entropy) (close_room-state r)
