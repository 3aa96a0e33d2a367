-- ===== src/Room/Actor/Handle/Reachable.antt =====
-- What holds of the member table in every room that can be reached.
use veilroom.Prelude.{
  Bytes, List, Option, Text, [], arith, length, none, refl, some, subst, sym, u64_mod, ℕ, ◌+◌, ◌<◌,
  ◌∷◌, ◌≡◌, ◌≤◌, nat_eq, list_eq, pair_eq,
}
use veilroom.Event.{ConnectionId, RoomEvent}
use veilroom.Limits.{Limits, Timeouts}
use veilroom.Room.Environment.{Environment, Entropy}
use veilroom.Room.Member.{MemberTable, remove, set_color, new, add_host, by_id}
use veilroom.Room.Member.Unique.{IsValid, add-IsValid, removed-IsValid, recolored-IsValid}
use veilroom.Room.Member.Host.{HasHost, host-add, next_id-add, host-remove_table, host-set_color}
use veilroom.Room.Actor.{RoomActor, ok}
use veilroom.Room.Actor.Table.{Keeps}
use veilroom.Room.Actor.Handle.{create, create_with, created, handle_event_at, start, start_from}
use veilroom.Validation
use veilroom.Protocol.State.{RoomState}
use veilroom.Room.Actor.Transition.Members.{begin_epoch_transition-members}
use veilroom.Room.Actor.Handle.Members.{handle_event_at-Keeps}

-- The members are pairwise different in id, nickname, connection and keys, within the limit, and the
-- host is among them as member 0.
pub record IsSound (t : MemberTable) : Type 0 where
  pub valid : IsValid t
  pub host : HasHost t

-- Sound, with the next id at most `k`.
record IsBelow (k : ℕ) (t : MemberTable) : Type 0 where
  sound : IsSound t
  below : t.next_id ≤ k

sound-Keeps : (k : ℕ) (t : MemberTable) → k + 1 < u64_mod → IsBelow k t → Keeps (IsBelow (k + 1)) t
unfolding remove set_color
sound-Keeps k t w b = record {
  now = record { sound = b.sound; below = omega (arith, b.below) };
  added = λ c n ed x epoch. record {
    sound = record {
      valid = add-IsValid t c n ed x epoch (omega (arith, b.below)) b.sound.valid;
      host = host-add t c n ed x epoch b.sound.host;
    };
    below = omega (arith, b.below, next_id-add t c n ed x epoch (omega (arith, b.below)));
  };
  removed = λ u id n p. record {
    sound = record {
      valid = removed-IsValid u id p.sound.valid;
      host = host-remove_table u id n p.sound.host;
    };
    below = p.below;
  };
  recolored = λ u id c p. record {
    sound = record {
      valid = recolored-IsValid u id c p.sound.valid;
      host = host-set_color u id c p.sound.host;
    };
    below = p.below;
  };
}

-- The events that a room handles, each with its time and what the random generator gives.
pub run : {L : Type 0} → Environment L → RoomActor L → List (RoomEvent × ℕ × Entropy) → RoomActor L
run env r [] = r
run env r ((event, now, entropy) ∷ events) =
    run env (handle_event_at env r event now entropy).0 events

run-IsBelow :
    {L : Type 0} (env : Environment L) (r : RoomActor L) (events : List (RoomEvent × ℕ × Entropy))
    (k : ℕ)
    → k + length events + 1 < u64_mod
    → IsBelow k r.members
    → IsSound (run env r events).members
unfolding run
run-IsBelow env r [] k w b = b.sound
run-IsBelow env r ((event, now, entropy) ∷ events) k w b =
    let keeps = sound-Keeps k r.members (omega arith) b in
    run-IsBelow env (handle_event_at env r event now entropy).0 events (k + 1) (omega arith)
      (handle_event_at-Keeps env (IsBelow (k + 1)) r event now entropy keeps)

created-IsBelow :
    {L : Type 0} (env : Environment L) (l : Limits) (c : ConnectionId)
    (nickname identity ed x : Bytes) (t : Timeouts) (session token : Bytes)
    → 1 ≤ l.max_active_members
    → IsBelow 1 (created env l c nickname identity ed x t session token).members
unfolding created new add_host by_id
created-IsBelow env l c nickname identity ed x t session token h = record {
  sound = record {
    valid = record {
      unique = (tt, tt);
      issued = (record { below = omega arith; host = refl }, tt);
      bounded = omega arith;
      started = omega arith;
    };
    host = refl;
  };
  below = omega arith;
}

start_from-members :
    {L : Type 0} (env : Environment L) (r : RoomActor L) (entropy : Entropy) (state : RoomState)
    → (start_from env r entropy state).0.members ≡ r.members
unfolding start_from
start_from-members env r entropy RoomState.creating = begin_epoch_transition-members env _ _ entropy
start_from-members env r entropy _ = refl

create_with-IsBelow :
    {L : Type 0} (env : Environment L) (l : Limits) (c : ConnectionId) (identity ed x : Bytes)
    (t : Timeouts) (v : Validation.Result Text) (session token : Option Bytes) (r : RoomActor L)
    → 1 ≤ l.max_active_members
    → create_with env l c identity ed x t v session token ≡ ok r
    → IsBelow 1 r.members
unfolding create_with
create_with-IsBelow env l c i ed x t (Validation.Result.err e) session token r h q = absurd cc
create_with-IsBelow env l c i ed x t (Validation.Result.ok n) none token r h q = absurd cc
create_with-IsBelow env l c i ed x t (Validation.Result.ok n) (some s) none r h q = absurd cc
create_with-IsBelow env l c i ed x t (Validation.Result.ok n) (some s) (some k) r h q =
    let same : created env l c n i ed x t s k ≡ r = cc in
    subst (λ room. IsBelow 1 room.members) same (created-IsBelow env l c n i ed x t s k h)

-- In a room created with a limit of at least one member, and started, every sequence of fewer than
-- 2^64 - 2 events, at any times and with whatever the random generator gives, leaves a member table
-- in which ids, nicknames, connections and public keys are pairwise distinct, the size is within the
-- limit, and the host is present as member 0, the one member with the host flag.
pub run-IsSound :
    {L : Type 0} (env : Environment L) (l : Limits) (c : ConnectionId)
    (nickname identity ed x : Bytes) (t : Timeouts) (session token : Option Bytes) (r : RoomActor L)
    (entropy : Entropy) (events : List (RoomEvent × ℕ × Entropy))
    → 1 ≤ l.max_active_members
    → length events + 2 < u64_mod
    → create env l c nickname identity ed x t session token ≡ ok r
    → IsSound (run env (start env r entropy).0 events).members
unfolding create start
run-IsSound env l c nickname identity ed x t session token r entropy events h w e =
    let below = create_with-IsBelow env l c identity ed x t _ session token r h e in
    run-IsBelow env (start env r entropy).0 events 1 (omega arith)
      (subst (IsBelow 1) (sym (start_from-members env r entropy r.state)) below)
