-- ===== src/Chat/Replay/History.antt =====
-- What a receiver accepts over a whole history of messages.
use veilroom.Prelude.{
  List, Option, [], arith, if◌then◌else◌, nat_eq, none, some, true, ℕ, ◌&&◌, ◌==◌, ◌∷◌, ◌≡◌,
  list_eq, pair_eq,
}
use veilroom.Prelude.HashMap.{get-insert, get-retain_keys}
use veilroom.Chat.Replay.{ReplayTracker, accept, last_accepted, retain_epoch, is_new}

-- A message is accepted exactly when it is newer than the last accepted one of its sender and epoch.
-- An accepted message becomes the last one of its sender and epoch, and every other pair keeps its own;
-- a rejected message changes no pair.
pub accept-refines :
    (t : ReplayTracker) (s e q s' e' : ℕ)
    → let r = accept t s e q in
      (r.1 ≡ is_new (last_accepted t s e) q)
      × (last_accepted r.0 s' e'
          ≡ (if r.1 && (s == s' && e == e') then some q else last_accepted t s' e'))
unfolding accept last_accepted
accept-refines t s e q s' e' = ground (arith, get-insert (s, e) (s', e') q t.last)

-- Pruning for an epoch keeps what was accepted in that epoch and forgets every other epoch.
pub last_accepted-retain_epoch :
    (t : ReplayTracker) (c s e : ℕ)
    → last_accepted (retain_epoch t c) s e ≡ (if e == c then last_accepted t s e else none)
unfolding last_accepted retain_epoch
last_accepted-retain_epoch t c s e = get-retain_keys (λ k. k.1 == c) (s, e) t.last

pub record Arrival : Type 0 where
  pub sender : ℕ
  pub epoch : ℕ
  pub sequence : ℕ

-- The sequence numbers of one sender and epoch that a history has accepted, oldest first.
pub accepted : ReplayTracker → ℕ → ℕ → List Arrival → List ℕ
accepted t s e [] = []
accepted t s e (m ∷ ms) =
    let r = accept t m.sender m.epoch m.sequence in
    let rest = accepted r.0 s e ms in
    if r.1 && (m.sender == s && m.epoch == e) then m.sequence ∷ rest else rest

-- Strictly increasing, and above an optional bound.
abbrev pub Above : Option ℕ → List ℕ → Type 0
Above b [] = Unit
Above b (q ∷ qs) = (is_new b q ≡ true) × Above (some q) qs

-- In any history of messages, in any order and with any duplicates, the sequence numbers accepted from
-- one sender in one epoch are strictly increasing and above the last one accepted before the history.
pub accepted-Above :
    (t : ReplayTracker) (s e : ℕ) (ms : List Arrival)
    → Above (last_accepted t s e) (accepted t s e ms)
unfolding accepted
accepted-Above t s e [] = tt
accepted-Above t s e (m ∷ ms) =
    let rest = accepted-Above (accept t m.sender m.epoch m.sequence).0 s e ms in
    ground (
      arith,
      rest,
      accept-refines t m.sender m.epoch m.sequence s e,
      (nat_eq.eq_iff m.sender s),
      (nat_eq.eq_iff m.epoch e),
    )
