-- ===== src/Admission/Guard/Lockout.antt =====
-- When the guard locks, and for how long.
use veilroom.Prelude.{
  ap, arith, false, if◌then◌else◌, ltb, none, some, suc, succ32, succ32_lem, true, u32_mod, zero, ℕ,
  ◌%◌, ◌+◌, ◌-◌, ◌/◌, ◌<◌, ◌==◌, ◌≡◌, ◌≤◌, nat_eq, list_eq, pair_eq,
}
use veilroom.Admission.Guard.{
  PasswordGuard, new, next_window, record_failure, is_locked, remaining, password_lockout_max,
  password_failure_threshold,
}
use veilroom.Admission.Guard.Windows.{window, next_window-window, window_bounds}

-- A failed proof starts a window exactly when it is a fifth one. The window then locks the guard up to its end,
-- which `remaining` counts down to, and every other failure leaves the locked times as they were.
pub record_failure_locks :
    (instant_max : ℕ) (g : PasswordGuard) (now t : ℕ)
    → g.failures + 1 < u32_mod
    → now + password_lockout_max ≤ instant_max
    → let r = record_failure instant_max g now in
      let fifth = (g.failures + 1) % password_failure_threshold == 0 in
      let until = now + next_window g in
      (r.1 ≡ (if fifth then some (next_window g) else none))
      × (is_locked r.0 t ≡ (if fifth then ltb t until else is_locked g t))
      × (remaining r.0 t
          ≡ (if fifth then (if ltb t until then some (until - t) else none) else remaining g t))
unfolding record_failure is_locked remaining
record_failure_locks instant_max g now t w h = ground (
  arith,
  succ32_lem g.failures w,
  next_window-window g,
  next_window-window (record g { failures = succ32 g.failures }),
  window_bounds g.lockouts,
)

-- While neither counter wraps, the number of windows is a fifth of the number of failures.
pub record_failure-lockouts :
    (instant_max : ℕ) (g : PasswordGuard) (now : ℕ)
    → g.failures + 1 < u32_mod
    → g.lockouts ≡ g.failures / password_failure_threshold
    → (record_failure instant_max g now).0.lockouts
      ≡ (record_failure instant_max g now).0.failures / password_failure_threshold
unfolding record_failure
record_failure-lockouts instant_max g now w h =
    ground (arith, succ32_lem g.failures w, succ32_lem g.lockouts)

-- The sum of the first `n` windows.
unfoldable pub total : ℕ → ℕ
total zero = 0
total (suc n) = total n + window n

-- The guards that failed proofs can lead to, from `start` on, where each attempt is made while the
-- guard is not locked.
pub data Attempts (instant_max start : ℕ) : PasswordGuard → Type 0 where
  fresh : (g : PasswordGuard) → g ≡ new → Attempts instant_max start g
  failed :
      (g h : PasswordGuard) (now : ℕ)
      → Attempts instant_max start g
      → start ≤ now
      → is_locked g now ≡ false
      → now + password_lockout_max ≤ instant_max
      → g.failures + 1 < u32_mod
      → h ≡ (record_failure instant_max g now).0
      → Attempts instant_max start h

abbrev deadline : PasswordGuard → ℕ → ℕ
deadline g start = elim g.locked_until [ none ↦ start | some until ↦ until ]

record Paced (start : ℕ) (g : PasswordGuard) : Type 0 where
  counted : g.lockouts ≡ g.failures / password_failure_threshold
  paced : start + total g.lockouts ≤ deadline g start

failed-Paced :
    (instant_max start : ℕ) (g : PasswordGuard) (now : ℕ)
    → start ≤ now
    → is_locked g now ≡ false
    → now + password_lockout_max ≤ instant_max
    → g.failures + 1 < u32_mod
    → Paced start g
    → Paced start (record_failure instant_max g now).0
unfolding record_failure is_locked total
failed-Paced instant_max start g now s l h w p =
    let e : succ32 g.lockouts ≡ suc g.lockouts =
      omega (arith, succ32_lem g.lockouts (omega (arith, p.counted))) in
    record {
      counted = record_failure-lockouts instant_max g now w p.counted;
      paced = ground (
        arith,
        ap total e,
        p.paced,
        succ32_lem g.failures w,
        next_window-window (record g { failures = succ32 g.failures }),
        window_bounds g.lockouts,
      );
    }

Attempts-Paced :
    (instant_max start : ℕ) (g : PasswordGuard) → Attempts instant_max start g → Paced start g
unfolding new total
Attempts-Paced instant_max start g (fresh _ e) = record {
  counted = ground arith;
  paced = ground arith;
}
Attempts-Paced instant_max start h (failed g _ now a s l f w e) =
    rw e (failed-Paced instant_max start g now s l f w (Attempts-Paced instant_max start g a))

-- If no attempt is made while the guard is locked, then however the attempts are timed the guard is
-- locked at every moment from `start` until the total length of the windows started so far has passed.
pub Attempts-is_locked :
    (instant_max start t : ℕ) (g : PasswordGuard)
    → Attempts instant_max start g
    → start ≤ t
    → t < start + total g.lockouts
    → is_locked g t ≡ true
unfolding is_locked
Attempts-is_locked instant_max start t g a k h =
    ground (arith, (Attempts-Paced instant_max start g a).paced)
