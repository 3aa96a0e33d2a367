-- ===== src/Chat/Replay.antt =====
-- chat/replay.rs: the last accepted sequence number of each sender and epoch.
pub mod History
use veilroom.Prelude.{
  Bool, Option, [], false, if◌then◌else◌, leb, none, some, true, ℕ, ◌==◌, nat_eq, list_eq, pair_eq,
}
use veilroom.Prelude.HashMap
use veilroom.Prelude.HashMap.{HashMap, get-insert, get-retain_keys}

pub record ReplayTracker : Type 0 where
  pub last : HashMap (ℕ × ℕ) ℕ

unfoldable pub new : ReplayTracker
new = record { last = [] }

accept_key : ReplayTracker → ℕ × ℕ → ℕ → Option ℕ → ReplayTracker × Bool
accept_key t key sequence none = (record { last = HashMap.insert key sequence t.last }, true)
accept_key t key sequence (some last) =
    if leb sequence last
    then (t, false)
    else (record { last = HashMap.insert key sequence t.last }, true)

unfoldable pub accept : ReplayTracker → ℕ → ℕ → ℕ → ReplayTracker × Bool
unfolding accept_key
accept t sender epoch sequence =
    accept_key t (sender, epoch) sequence (HashMap.get (sender, epoch) t.last)

unfoldable pub last_accepted : ReplayTracker → ℕ → ℕ → Option ℕ
last_accepted t sender epoch = HashMap.get (sender, epoch) t.last

unfoldable pub retain_epoch : ReplayTracker → ℕ → ReplayTracker
retain_epoch t current_epoch = record {
  last = HashMap.retain_keys (λ k. k.1 == current_epoch) t.last;
}

-- Whether a sequence is new after an optional last one.
abbrev pub is_new : Option ℕ → ℕ → Bool
is_new none sequence = true
is_new (some last) sequence = if leb sequence last then false else true
