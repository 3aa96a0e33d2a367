-- ===== src/Room/Actor/Transition/Ended.antt =====
-- The end of the room.
use veilroom.Prelude.{arith, refl, true, ◌≡◌}
use veilroom.Protocol.State.{RoomState}
use veilroom.Room.Actor.{RoomActor}
use veilroom.Room.Actor.Transition.{close_room, is_destroyed}

is_destroyed-destroyed : (s : RoomState) → is_destroyed s ≡ true → s ≡ RoomState.destroyed
unfolding is_destroyed
is_destroyed-destroyed RoomState.destroyed h = refl
is_destroyed-destroyed _ h = absurd cc

pub close_room-state : {L : Type 0} (r : RoomActor L) → (close_room r).0.state ≡ RoomState.destroyed
unfolding close_room
close_room-state r = ground (arith, is_destroyed-destroyed r.state)
