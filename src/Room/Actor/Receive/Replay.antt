-- ===== src/Room/Actor/Receive/Replay.antt =====
-- No envelope is relayed twice.
use veilroom.Prelude.{
  Bytes, List, Option, Text, ap, arith, beq_self, false, if-both, if◌then◌else◌, le→leb, nat_eq,
  none, refl, some, sym, ℕ, ◌&&◌, ◌==◌, ◌∙◌, ◌≡◌, ◌≤◌, list_eq, pair_eq,
}
use veilroom.Event.{ConnectionId, EncryptedEnvelope, MemberId}
use veilroom.Chat.Replay.{ReplayTracker, accept, last_accepted, is_new}
use veilroom.Chat.Replay.History.{accept-refines}
use veilroom.Room.Action.{RoomAction}
use veilroom.Command.Color.{ColorChoice}
use veilroom.Room.Environment.{Environment}
use veilroom.Room.Actor.{RoomActor, RoomError, Result, ok, err, Effect}
use veilroom.Room.Actor.Relay.{relay_color, timeout_requested, timeout_changed, chat_text}
use veilroom.Room.Actor.Relay.Members.{chat_text-room}
use veilroom.Room.Actor.Receive.{by_type, open_and_relay, check_and_relay, replayed, chat_plaintext}

last-accept :
    (t : ReplayTracker) (s e q : ℕ)
    → replayed (last_accepted t s e) q ≡ false
    → last_accepted (accept t s e q).0 s e ≡ some q
unfolding replayed
last-accept t s e q h = fresh (last_accepted t s e) h (accept-refines t s e q s e)
  where
    fresh :
        (o : Option ℕ)
        → replayed o q ≡ false
        → ((accept t s e q).1 ≡ is_new o q)
          × (last_accepted (accept t s e q).0 s e
              ≡ (if (accept t s e q).1 && (s == s && e == e) then some q else o))
        → last_accepted (accept t s e q).0 s e ≡ some q
    fresh none h a = ground (arith, beq_self s, beq_self e)
    fresh (some l) h a = ground (arith, beq_self s, beq_self e)

-- What a handler leaves of the replay history and the epoch.
abbrev Unmoved : {L : Type 0} → RoomActor L → Effect L (List RoomAction) → Type 0
Unmoved r out = (out.0.chat_replay ≡ r.chat_replay) × (out.0.epoch ≡ r.epoch)

module _ {L : Type 0} where
  relay_color-Unmoved :
      (r : RoomActor L) (c : ConnectionId) (e : EncryptedEnvelope) (color : Result ColorChoice)
      → Unmoved r (relay_color r c e color)
  unfolding relay_color
  relay_color-Unmoved r c e (ok x) = (refl, refl)
  relay_color-Unmoved r c e (err x) = (refl, refl)

  timeout_requested-Unmoved :
      (r : RoomActor L) (c : ConnectionId) (id : MemberId) (seconds : Option ℕ)
      → Unmoved r (timeout_requested r c id seconds)
  unfolding timeout_requested
  timeout_requested-Unmoved r c id none = ground arith
  timeout_requested-Unmoved r c id (some s) = ground arith

  timeout_changed-Unmoved :
      (r : RoomActor L) (c : ConnectionId) (e : EncryptedEnvelope) (s : Result (Option ℕ))
      → Unmoved r (timeout_changed r c e s)
  unfolding timeout_changed
  timeout_changed-Unmoved r c e (ok s) = ground arith
  timeout_changed-Unmoved r c e (err x) = ground arith

  chat_text-Unmoved :
      (r : RoomActor L) (c : ConnectionId) (e : EncryptedEnvelope) (t : Option Text)
      → Unmoved r (chat_text r c e t)
  chat_text-Unmoved r c e t =
      (ap (λ x. x.chat_replay) (chat_text-room r c e t), ap (λ x. x.epoch) (chat_text-room r c e t))

module _ {L : Type 0} (env : Environment L) where
  by_type-Unmoved :
      (r : RoomActor L) (c : ConnectionId) (mt : ℕ) (e : EncryptedEnvelope) (p : Bytes)
      → Unmoved r (by_type env r c mt e p)
  unfolding by_type
  by_type-Unmoved r c mt e p = if-both (Unmoved r) (mt == 0x41) (relay_color-Unmoved r c e _) (
      if-both (Unmoved r) (mt == 0x42) (timeout_requested-Unmoved r c e.sender_id _) (
        if-both (Unmoved r) (mt == 0x43) (timeout_changed-Unmoved r c e _)
          (chat_text-Unmoved r c e _)))

  -- The room after an envelope that was not refused knows its sequence as the sender's last one.
  open_and_relay-last :
      (r r' : RoomActor L) (c : ConnectionId) (mt : ℕ) (e : EncryptedEnvelope) (o : Result Bytes)
      (actions : List RoomAction)
      → replayed (last_accepted r.chat_replay e.sender_id r.epoch) e.sender_sequence ≡ false
      → open_and_relay env r c mt e o ≡ (r', ok actions)
      → (r'.epoch ≡ r.epoch)
        × (last_accepted r'.chat_replay e.sender_id r'.epoch ≡ some e.sender_sequence)
  unfolding open_and_relay
  open_and_relay-last r r' c mt e (err x) actions n h = absurd cc
  open_and_relay-last r r' c mt e (ok p) actions n h =
      let t = (accept r.chat_replay e.sender_id r.epoch e.sender_sequence).0 in
      let (same_t, same_e) = by_type-Unmoved (record r { chat_replay = t }) c mt e p in
      let room = ap (λ out. out.0) h in
      let epoch = ap (λ x. x.epoch) (sym room) ∙ same_e in
      let tracker = ap (λ x. x.chat_replay) (sym room) ∙ same_t in
      (
        epoch,
        ap (λ x. last_accepted x e.sender_id r'.epoch) tracker
            ∙ ap (last_accepted t e.sender_id) epoch
            ∙ last-accept r.chat_replay e.sender_id r.epoch e.sender_sequence n,
      )

  check_and_relay-opened :
      (r r' : RoomActor L) (c : ConnectionId) (mt : ℕ) (e : EncryptedEnvelope)
      (actions : List RoomAction)
      → check_and_relay env r c mt e ≡ (r', ok actions)
      → (e.epoch ≡ r.epoch)
        × (replayed (last_accepted r.chat_replay e.sender_id r.epoch) e.sender_sequence ≡ false)
        × (open_and_relay env r c mt e (chat_plaintext env r e.sender_id mt e) ≡ (r', ok actions))
  unfolding check_and_relay
  check_and_relay-opened r r' c mt e actions h = ground arith

  check_and_relay-replay :
      (r : RoomActor L) (c : ConnectionId) (mt last : ℕ) (e : EncryptedEnvelope)
      → e.epoch ≡ r.epoch
      → last_accepted r.chat_replay e.sender_id r.epoch ≡ some last
      → e.sender_sequence ≤ last
      → check_and_relay env r c mt e
        ≡ (r, err (RoomError.replay_rejected e.sender_id e.sender_sequence))
  unfolding check_and_relay replayed
  check_and_relay-replay r c mt last e ep l q =
      let same = (nat_eq.eq_iff e.epoch r.epoch).1 ep in
      let old = le→leb e.sender_sequence last q in rw (same, l, old) refl

  -- Once an envelope has passed the epoch and replay tests and its handling succeeded, every envelope
  -- of the same sender and epoch whose sequence is not larger is refused as a replay by the room that
  -- this leaves, whatever its type and its connection.
  pub check_and_relay_once :
      (r r' : RoomActor L) (c c' : ConnectionId) (mt mt' : ℕ) (e e' : EncryptedEnvelope)
      (actions : List RoomAction)
      → check_and_relay env r c mt e ≡ (r', ok actions)
      → e'.sender_id ≡ e.sender_id
      → e'.epoch ≡ e.epoch
      → e'.sender_sequence ≤ e.sender_sequence
      → check_and_relay env r' c' mt' e'
        ≡ (r', err (RoomError.replay_rejected e'.sender_id e'.sender_sequence))
  check_and_relay_once r r' c c' mt mt' e e' actions h s ep q =
      let (now, new, opened) = check_and_relay-opened r r' c mt e actions h in
      let (epoch, last) =
        open_and_relay-last r r' c mt e (chat_plaintext env r e.sender_id mt e) actions new
          opened in
      check_and_relay-replay r' c' mt' e.sender_sequence e' (ep ∙ now ∙ sym epoch)
        (ap (λ sender. last_accepted r'.chat_replay sender r'.epoch) s ∙ last) q
