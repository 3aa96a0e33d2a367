-- ===== src/Admission/Guard/Windows.antt =====
-- The length of the lockout windows.
use veilroom.Prelude.{
  Bool, Bool-cases, all, ap, arith, false, if◌then◌else◌, inl, inr, ltb, ltb→lt, min, nat_eq, none,
  refl, suc, true, zero, ℕ, ◌*◌, ◌+◌, ◌<◌, ◌==◌, ◌≡◌, ◌≤◌, list_eq, pair_eq,
}
use native.Mathlib.Numerals.{add-one}
use veilroom.Admission.Guard.{
  PasswordGuard, next_window, password_lockout_base, password_lockout_max,
}

-- The guard as it stands after `n` windows.
abbrev pub after : PasswordGuard → ℕ → PasswordGuard
after g n = record g { lockouts = n }

-- A test passes at each of the first `n` numbers.
passes : (ℕ → Bool) → ℕ → Bool
passes test zero = true
passes test (suc n) = if passes test n then test n else false

passes-at : (test : ℕ → Bool) (i n : ℕ) → i < n → passes test n ≡ true → test i ≡ true
unfolding passes
passes-at test i zero below all = absurd (omega arith)
passes-at test i (suc n) below all = ground (arith, passes-at test i n)

-- The window after `n` others, with no guard in sight.
abbrev pub window : ℕ → ℕ
window n = next_window (record { failures = 0; lockouts = n; locked_until = none })

window_table : passes (λ n. window (n + 1) == min (2 * window n) password_lockout_max) 31 ≡ true
unfolding passes next_window
window_table = refl

window_late : (n : ℕ) → 31 ≤ n → window n ≡ password_lockout_max
unfolding next_window
window_late n h = let e : min n 31 ≡ 31 = omega arith in rw e refl

window_step : (n : ℕ) → window (n + 1) ≡ min (2 * window n) password_lockout_max
window_step n = elim (Bool-cases (ltb n 31)) [
  | inl early ↦ (nat_eq.eq_iff (window (n + 1)) (min (2 * window n) password_lockout_max)).0 (
      passes-at (λ n. window (n + 1) == min (2 * window n) password_lockout_max) n 31
        (ltb→lt n 31 early) window_table)
  | inr late ↦
      let l : 31 ≤ n = ground arith in
      omega (arith, window_late n l, window_late (n + 1) (omega arith))
]

pub next_window-window : (g : PasswordGuard) → next_window g ≡ window g.lockouts
unfolding next_window
next_window-window g = refl

-- The first window is the base; each later one is twice the one before it, up to the cap.
pub next_window_doubles :
    (g : PasswordGuard) (n : ℕ)
    → (next_window (after g 0) ≡ password_lockout_base)
      × (next_window (after g (n + 1)) ≡ min (2 * next_window (after g n)) password_lockout_max)
next_window_doubles g n = (
  unfold next_window in refl,
  omega
      (arith, next_window-window (after g n), next_window-window (after g (n + 1)), window_step n),
)

pub window_bounds : (n : ℕ) → (password_lockout_base ≤ window n) × (window n ≤ password_lockout_max)
window_bounds zero = unfold next_window in omega arith
window_bounds (suc n) = omega (arith, ap window (add-one n), window_step n, window_bounds n)
