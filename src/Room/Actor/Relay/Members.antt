-- ===== src/Room/Actor/Relay/Members.antt =====
-- The relay of a plaintext and the member table: only a colour can change.
use veilroom.Prelude.{Option, Text, ap, arith, none, refl, some, ℕ, ◌≡◌}
use veilroom.Event.{ConnectionId, MemberId, EncryptedEnvelope}
use veilroom.Command.Color.{ColorChoice}
use veilroom.Limits
use veilroom.Room.Member.{MemberTable}
use veilroom.Room.Actor.{RoomActor, Result, ok, err}
use veilroom.Room.Actor.Table.{Keeps}
use veilroom.Validation
use veilroom.Validation.{validate_chat_text}
use veilroom.Room.Actor.Relay.{
  relay_color, request_timeout, timeout_requested, timeout_changed, validated, chat_text,
}

module _ {L : Type 0} where
  request_timeout-members :
      (r : RoomActor L) (c : ConnectionId) (id : MemberId) (seconds : ℕ)
      → (request_timeout r c id seconds).0.members ≡ r.members
  unfolding request_timeout
  request_timeout-members r c id seconds = ground arith

  pub timeout_requested-members :
      (r : RoomActor L) (c : ConnectionId) (id : MemberId) (seconds : Option ℕ)
      → (timeout_requested r c id seconds).0.members ≡ r.members
  unfolding timeout_requested
  timeout_requested-members r c id none = ground arith
  timeout_requested-members r c id (some s) = ground (arith, request_timeout-members r c id s)

  pub timeout_changed-members :
      (r : RoomActor L) (c : ConnectionId) (e : EncryptedEnvelope) (setting : Result (Option ℕ))
      → (timeout_changed r c e setting).0.members ≡ r.members
  unfolding timeout_changed
  timeout_changed-members r c e (ok s) = ground arith
  timeout_changed-members r c e (err x) = ground arith

  validated-room :
      (r : RoomActor L) (c : ConnectionId) (e : EncryptedEnvelope)
      (v : Validation.Result (Unit {0}))
      → (validated r c e v).0 ≡ r
  unfolding validated
  validated-room r c e (Validation.Result.ok u) = refl
  validated-room r c e (Validation.Result.err x) = refl

  pub chat_text-room :
      (r : RoomActor L) (c : ConnectionId) (e : EncryptedEnvelope) (t : Option Text)
      → (chat_text r c e t).0 ≡ r
  unfolding chat_text
  chat_text-room r c e none = refl
  chat_text-room r c e (some t) = validated-room r c e (validate_chat_text t Limits.default)

  pub chat_text-members :
      (r : RoomActor L) (c : ConnectionId) (e : EncryptedEnvelope) (t : Option Text)
      → (chat_text r c e t).0.members ≡ r.members
  chat_text-members r c e t = ap (λ x. x.members) (chat_text-room r c e t)

module _ {L : Type 0} (P : MemberTable → Type 0) (t : MemberTable) (keeps : Keeps P t) where
  pub relay_color-Keeps :
      (r : RoomActor L) (c : ConnectionId) (e : EncryptedEnvelope) (color : Result ColorChoice)
      → P r.members
      → P (relay_color r c e color).0.members
  unfolding relay_color
  relay_color-Keeps r c e (ok x) p = keeps.recolored r.members e.sender_id x p
  relay_color-Keeps r c e (err x) p = p
