-- ===== src/Room/Actor/Transition/Begin.antt =====
-- What a new epoch transition does.
use veilroom.Prelude.{
  Bytes, List, Option, [], ap, arith, map, none, refl, some, subst, succ64, sym, ℕ, ◌++◌, ◌∙◌, ◌∷◌,
  ◌≡◌,
}
use veilroom.Event.{MemberId}
use veilroom.Protocol.State.{RoomState}
use veilroom.Room.Action.{RoomAction, send_to, Message}
use veilroom.Room.Environment.{Environment, Entropy}
use veilroom.Room.Member.{Member}
use veilroom.Room.Actor.{RoomActor, Result, ok, err, Effect}
use veilroom.Room.Actor.Transition.{
  sent_to, add_wrap, wrap_send, wrap_with, wrap_member, wrap_all, next_epoch, begin_wrapped,
  begin_with, begin_epoch_transition, epoch_wrap_new,
}

module _ {L : Type 0} (env : Environment L) where
  -- The action sends the member the key, wrapped for it and for the epoch: under the wrapping key of the
  -- host and this member, with the nonce drawn for it.
  abbrev pub IsWrap : RoomActor L → Bytes → Entropy → Member → RoomAction → Type 0
  IsWrap r key entropy m action =
      (wrap_key nonce ciphertext : Bytes) × (env.try_wrap_key_for r.host_identity m.x25519_pubkey
          r.session_id m.member_id
        ≡ some wrap_key)
      × (env.wrap_epoch_key wrap_key key r.epoch r.session_id (entropy.nonce m.member_id)
          ≡ some (nonce, ciphertext))
      × (action ≡ send_to m.connection (Message.epoch_wrap r.epoch nonce ciphertext))

  -- One wrapped key for each member, in order.
  abbrev pub AreWraps : RoomActor L → Bytes → Entropy → List Member → List RoomAction → Type 0
  AreWraps r key entropy [] [] = Unit
  AreWraps r key entropy (m ∷ ms) (a ∷ rest) =
      IsWrap r key entropy m a × AreWraps r key entropy ms rest
  AreWraps r key entropy _ _ = ⊥

abbrev pub member_ids : List Member → List MemberId
member_ids ms = map (λ m. m.member_id) ms

epoch_wrap_new-message :
    (epoch : ℕ) (n c : Bytes) (x : Message)
    → epoch_wrap_new epoch n c ≡ ok x
    → x ≡ Message.epoch_wrap epoch n c
unfolding epoch_wrap_new
epoch_wrap_new-message epoch n c x h = ground arith

module _ {L : Type 0} (env : Environment L) where
  sent_to-message :
      (m : Member) (epoch : ℕ) (n c : Bytes) (x : Result Message) (a : RoomAction)
      → epoch_wrap_new epoch n c ≡ x
      → sent_to env m.connection x ≡ ok a
      → a ≡ send_to m.connection (Message.epoch_wrap epoch n c)
  unfolding sent_to
  sent_to-message m epoch n c (err e) a w h = absurd cc
  sent_to-message m epoch n c (ok x) a w h = let same = epoch_wrap_new-message epoch n c x w in cc

  module _ (r : RoomActor L) (key : Bytes) (entropy : Entropy) where
    wrap_send-IsWrap :
        (m : Member) (k : Bytes) (w : Option (Bytes × Bytes)) (a : RoomAction)
        → env.try_wrap_key_for r.host_identity m.x25519_pubkey r.session_id m.member_id ≡ some k
        → env.wrap_epoch_key k key r.epoch r.session_id (entropy.nonce m.member_id) ≡ w
        → wrap_send env r m w ≡ ok a
        → IsWrap env r key entropy m a
    unfolding wrap_send
    wrap_send-IsWrap m k none a derived sealed h = absurd cc
    wrap_send-IsWrap m k (some (n, c)) a derived sealed h = (
      k,
      n,
      c,
      derived,
      sealed,
      sent_to-message m r.epoch n c (epoch_wrap_new r.epoch n c) a refl h,
    )

    wrap_with-IsWrap :
        (m : Member) (k : Option Bytes) (a : RoomAction)
        → env.try_wrap_key_for r.host_identity m.x25519_pubkey r.session_id m.member_id ≡ k
        → wrap_with env r key entropy m k ≡ ok a
        → IsWrap env r key entropy m a
    unfolding wrap_with
    wrap_with-IsWrap m none a derived h = absurd cc
    wrap_with-IsWrap m (some k) a derived h =
        wrap_send-IsWrap m k
          (env.wrap_epoch_key k key r.epoch r.session_id (entropy.nonce m.member_id)) a derived refl
          h

    add_wrap-AreWraps :
        (m : Member) (ms : List Member) (x : Result RoomAction)
        (y : Result (List RoomAction × List MemberId)) (actions : List RoomAction)
        (awaiting : List MemberId)
        → ((a : RoomAction) → x ≡ ok a → IsWrap env r key entropy m a)
        → ((as' : List RoomAction) (ids : List MemberId)
            → y ≡ ok (as', ids)
            → AreWraps env r key entropy ms as' × (ids ≡ member_ids ms))
        → add_wrap env m.member_id x y ≡ ok (actions, awaiting)
        → AreWraps env r key entropy (m ∷ ms) actions × (awaiting ≡ member_ids (m ∷ ms))
    unfolding add_wrap
    add_wrap-AreWraps m ms (err e) y actions awaiting f g h = absurd cc
    add_wrap-AreWraps m ms (ok a) (err e) actions awaiting f g h = absurd cc
    add_wrap-AreWraps m ms (ok a) (ok (rest, ids)) actions awaiting f g h =
        let (wraps, same) = g rest ids refl in
        let first : a ∷ rest ≡ actions = cc in
        let second : m.member_id ∷ ids ≡ awaiting = cc in
        (
          subst (AreWraps env r key entropy (m ∷ ms)) first (f a refl, wraps),
          sym second ∙ ap (◌∷◌ m.member_id) same,
        )

    wrap_all-AreWraps :
        (ms : List Member) (actions : List RoomAction) (awaiting : List MemberId)
        → wrap_all env r key entropy ms ≡ ok (actions, awaiting)
        → AreWraps env r key entropy ms actions × (awaiting ≡ member_ids ms)
    unfolding wrap_all wrap_member
    wrap_all-AreWraps [] actions awaiting h =
        let first : [] ≡ actions = cc in
        let second : [] ≡ awaiting = cc in
        (subst (AreWraps env r key entropy []) first tt, sym second)
    wrap_all-AreWraps (m ∷ ms) actions awaiting h =
        add_wrap-AreWraps m ms (wrap_member env r key entropy m) (wrap_all env r key entropy ms)
          actions awaiting
          (λ a made.
            wrap_with-IsWrap m
              (env.try_wrap_key_for r.host_identity m.x25519_pubkey r.session_id m.member_id) a refl
              made)
          (wrap_all-AreWraps ms) h

-- What a transition leaves: with a key and a wrap for every member, the room waits for all of them under
-- the new key; without, the room is in the next epoch with its old state, key and pending epoch.
abbrev pub Began :
    {L : Type 0}
    → Environment L
    → RoomActor L
    → List RoomAction
    → Entropy
    → Effect L (List RoomAction)
    → Type 0
Began env r actions entropy (r', ok out) =
    (key : Bytes) × (wraps : List RoomAction) × (entropy.epoch_key ≡ some key)
    × (out ≡ actions ++ wraps)
    × AreWraps env (record r { epoch = succ64 r.epoch }) key entropy r.members.members wraps
    × (r'.state ≡ RoomState.epoch_transition)
    × (r'.epoch ≡ succ64 r.epoch)
    × (r'.epoch_key ≡ r.epoch_key)
    × (r'.pending_epoch
        ≡ some (record {
          epoch = succ64 r.epoch;
          key = key;
          awaiting = member_ids r.members.members;
          started_at = r.now;
        }))
Began env r actions entropy (r', err e) =
    (r'.state ≡ r.state)
    × (r'.epoch ≡ succ64 r.epoch)
    × (r'.epoch_key ≡ r.epoch_key)
    × (r'.pending_epoch ≡ r.pending_epoch)

module _ {L : Type 0} (env : Environment L) where
  begin_wrapped-Began :
      (r : RoomActor L) (key : Bytes) (actions : List RoomAction) (entropy : Entropy)
      (w : Result (List RoomAction × List MemberId))
      → entropy.epoch_key ≡ some key
      → wrap_all env (next_epoch env r) key entropy r.members.members ≡ w
      → Began env r actions entropy (begin_wrapped env (next_epoch env r) key actions w)
  unfolding begin_wrapped next_epoch
  begin_wrapped-Began r key actions entropy (err e) k h = (refl, refl, refl, refl)
  begin_wrapped-Began r key actions entropy (ok (wraps, awaiting)) k h =
      let (sent, ids) =
        wrap_all-AreWraps env (next_epoch env r) key entropy r.members.members wraps awaiting h in
      (
        key,
        wraps,
        k,
        refl,
        sent,
        refl,
        refl,
        refl,
        ap
            (λ a.
              some (record { epoch = succ64 r.epoch; key = key; awaiting = a; started_at = r.now }))
            ids,
      )

  begin_with-Began :
      (r : RoomActor L) (actions : List RoomAction) (entropy : Entropy) (key : Option Bytes)
      → entropy.epoch_key ≡ key
      → Began env r actions entropy (begin_with env (next_epoch env r) actions entropy key)
  unfolding begin_with next_epoch
  begin_with-Began r actions entropy none k = (refl, refl, refl, refl)
  begin_with-Began r actions entropy (some key) k =
      begin_wrapped-Began r key actions entropy
        (wrap_all env (next_epoch env r) key entropy r.members.members) k refl

  -- A transition either draws a key, makes it the pending key, and sends every member, in the order of
  -- the table and behind the earlier actions, this key as `wrap_epoch_key` wraps it: under the wrapping
  -- key that the host derives for the member's public key and id, for the new epoch and the session,
  -- with the nonce drawn for the member; it then waits for exactly the members of the table. Or it
  -- fails and changes neither the state nor the active key nor the pending epoch. In both cases the
  -- epoch has advanced by one, up to the wrap of a 64-bit counter.
  pub begin_epoch_transition-Began :
      (r : RoomActor L) (actions : List RoomAction) (entropy : Entropy)
      → Began env r actions entropy (begin_epoch_transition env r actions entropy)
  unfolding begin_epoch_transition
  begin_epoch_transition-Began r actions entropy =
      begin_with-Began r actions entropy entropy.epoch_key refl
