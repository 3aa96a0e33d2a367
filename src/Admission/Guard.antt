-- ===== src/Admission/Guard.antt =====
-- admission/guard.rs: the lockout after failed password proofs. Times are in nanoseconds; an `Instant`
-- has a largest value, which is a parameter.
pub mod Windows
pub mod Lockout
use veilroom.Prelude.{
  Bool, Option, false, get_or, if◌then◌else◌, leb, ltb, min, none, or_else, some, succ32, u32_mod,
  u64_mod, ℕ, ◌%◌, ◌*◌, ◌+◌, ◌-◌, ◌==◌, ◌^◌, nat_eq, list_eq, pair_eq,
}

abbrev pub seconds : ℕ → ℕ
seconds s = s * 1000000000

abbrev pub password_failure_threshold : ℕ
password_failure_threshold = 5

abbrev pub password_lockout_base : ℕ
password_lockout_base = seconds 30

abbrev pub password_lockout_max : ℕ
password_lockout_max = seconds (15 * 60)

-- `Duration::MAX`: `u64::MAX` seconds and 999,999,999 nanoseconds.
abbrev pub duration_max : ℕ
duration_max = u64_mod * 1000000000 - 1

-- `Duration::checked_mul` and `Instant::checked_add`.
abbrev checked_mul : ℕ → ℕ → Option ℕ
checked_mul d k = if leb (d * k) duration_max then some (d * k) else none

abbrev checked_add : ℕ → ℕ → ℕ → Option ℕ
checked_add instant_max now d = if leb (now + d) instant_max then some (now + d) else none

-- `1u32.checked_shl(shift)`
abbrev checked_shl_one : ℕ → Option ℕ
checked_shl_one shift = if ltb shift 32 then some (2 ^ shift % u32_mod) else none

pub record PasswordGuard : Type 0 where
  pub failures : ℕ
  pub lockouts : ℕ
  pub locked_until : Option ℕ

unfoldable pub new : PasswordGuard
new = record { failures = 0; lockouts = 0; locked_until = none }

unfoldable pub next_window : PasswordGuard → ℕ
next_window g =
    let shift = min g.lockouts 31 in
    min
      (get_or (checked_mul password_lockout_base (get_or (checked_shl_one shift) (u32_mod - 1)))
        password_lockout_max)
      password_lockout_max

-- The guard after the failure, and the window that it starts, if any.
unfoldable pub record_failure : ℕ → PasswordGuard → ℕ → PasswordGuard × Option ℕ
record_failure instant_max g now =
    let failed = record g { failures = succ32 g.failures } in
    if failed.failures % password_failure_threshold == 0
    then (let window = next_window failed in
        (
          record failed {
            lockouts = succ32 g.lockouts;
            locked_until = or_else (checked_add instant_max now window) g.locked_until;
          },
          some window,
        ))
    else (failed, none)

unfoldable pub is_locked : PasswordGuard → ℕ → Bool
is_locked g now = elim g.locked_until [ none ↦ false | some until ↦ ltb now until ]

unfoldable pub remaining : PasswordGuard → ℕ → Option ℕ
remaining g now = elim g.locked_until [
  | none ↦ none
  | some until ↦ if ltb now until then some (until - now) else none
]
