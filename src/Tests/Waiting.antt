-- ===== src/Tests/Waiting.antt =====
-- The queue of applications and the password guard at concrete inputs.
use veilroom.Prelude.{
  [], arith, if◌then◌else◌, ltb, none, refl, some, text, true, ℕ, ◌%◌, ◌+◌, ◌-◌, ◌<◌, ◌==◌, ◌^◌,
  ◌∷◌, ◌≡◌, nat_eq, list_eq, pair_eq,
}
use veilroom.Event.{RequestId}
use veilroom.Prelude.Words.{succ32}
use veilroom.Admission.Queue.{JoinApplication, JoinRequestQueue, push, take, ok}
use veilroom.Admission.Queue.Bounds.{IsValid, step, pushes, queue_step-IsValid}
use veilroom.Admission.Queue.Lookup.{take-push}
use veilroom.Admission.Guard.{
  PasswordGuard, new, record_failure, next_window, is_locked, remaining, password_failure_threshold,
}
use veilroom.Admission.Guard.Lockout.{
  record_failure_locks, Attempts, fresh, failed, total, Attempts-is_locked,
}

abbrev pub applicant : JoinApplication
applicant = record {
  nickname = text "deniz";
  introduction = none;
  ed25519_pubkey = 1 ∷ [];
  x25519_pubkey = 2 ∷ [];
  signature = [];
}

abbrev empty_queue : JoinRequestQueue
empty_queue = record { limit = 2; next_id = 0; requests = [] }

abbrev one_queued : JoinRequestQueue
one_queued = record {
  limit = 2;
  next_id = 1;
  requests = record { id = 0; connection = 3; application = applicant } ∷ [];
}

empty_queue-IsValid : IsValid empty_queue
empty_queue-IsValid = record { bounded = omega arith; rising = omega arith }

one_queued-IsValid : IsValid one_queued
one_queued-IsValid = record {
  bounded = omega arith;
  rising = (omega arith, omega arith, omega arith);
}

queue_step-IsValid_example : IsValid (step empty_queue (pushes 3 applicant))
queue_step-IsValid_example =
    queue_step-IsValid empty_queue (pushes 3 applicant) (omega arith) empty_queue-IsValid

take-push_example :
    ((push empty_queue 3 applicant).1 ≡ ok 0)
    × ((take (push empty_queue 3 applicant).0 0).1
        ≡ ok (record { id = 0; connection = 3; application = applicant }))
    × ((take (push empty_queue 3 applicant).0 0).0.requests ≡ [])
take-push_example = take-push empty_queue 3 applicant empty_queue-IsValid (omega arith)

abbrev first_id : RequestId
first_id = 0

abbrev four_failures : PasswordGuard
four_failures = record { failures = 4; lockouts = 0; locked_until = none }

abbrev locked_once : PasswordGuard
locked_once = record { failures = 5; lockouts = 1; locked_until = some 30000000007 }

record_failure_locks_example :
    let r = record_failure (2 ^ 80) four_failures 7 in
    let fifth = (4 + 1) % password_failure_threshold == 0 in
    let until = 7 + next_window four_failures in
    (r.1 ≡ (if fifth then some (next_window four_failures) else none))
    × (is_locked r.0 8 ≡ (if fifth then ltb 8 until else is_locked four_failures 8))
    × (remaining r.0 8 ≡ (
        if fifth
        then (if ltb 8 until then some (until - 8) else none)
        else remaining four_failures 8))
record_failure_locks_example =
    record_failure_locks (2 ^ 80) four_failures 7 8 (omega arith) (omega arith)

-- The guard after `n` failures at the moment 7, before the fifth.
abbrev failing : ℕ → PasswordGuard
failing n = record { failures = n; lockouts = 0; locked_until = none }

one_more :
    (n : ℕ) (h : PasswordGuard)
    → n < 5
    → h ≡ (record_failure (2 ^ 80) (failing n) 7).0
    → Attempts (2 ^ 80) 7 (failing n)
    → Attempts (2 ^ 80) 7 h
unfolding is_locked
one_more n h k e a = failed (failing n) h 7 a (omega arith) refl (omega arith) (omega arith) e

five-Attempts : Attempts (2 ^ 80) 7 locked_once
unfolding new record_failure next_window succ32
five-Attempts = one_more 4 locked_once (omega arith) refl (
    one_more 3 (failing 4) (omega arith) refl (
      one_more 2 (failing 3) (omega arith) refl (
        one_more 1 (failing 2) (omega arith) refl
          (one_more 0 (failing 1) (omega arith) refl (fresh (failing 0) refl)))))

within_window : 8 < 7 + total 1
unfolding next_window total
within_window = omega arith

Attempts-is_locked_example : is_locked locked_once 8 ≡ true
Attempts-is_locked_example =
    Attempts-is_locked (2 ^ 80) 7 8 locked_once five-Attempts (omega arith) within_window
