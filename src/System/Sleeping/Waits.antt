-- ===== src/System/Sleeping/Waits.antt =====
-- functions.c: how long `function_sleep` sleeps.
use planck.Timers.{times, Timespec, Nanosleep}
use planck.Timers.Sleep.{IsValid, IsPosix, sleep_loop-called}
use planck.System.Sleeping.{
  not_at_all, all_the_time, slept_or_not, is_zero, sleep_time, function_sleep,
}
use planck.Prelude.{
  ℕ, ◌+◌, ◌*◌, ◌≤◌, ◌≡◌, refl, ◌==◌, if◌then◌else◌, Bool, true, false, ◌&&◌, arith,
}
use planck.Prelude.Int.{◌/ℤ◌, ◌%ℤ◌, ◌+ℤ◌, pos, pos_part}

sleep_time-IsValid : (m n : ℕ) → n ≤ 999999 → IsValid (sleep_time (pos m) (pos n))
unfolding sleep_time times ◌/ℤ◌ ◌%ℤ◌ ◌+ℤ◌
sleep_time-IsValid m n h = ground arith

-- The time in nanoseconds.
abbrev pub nanoseconds : Timespec → ℕ
nanoseconds t = pos_part t.tv_sec * 1000000000 + pos_part t.tv_nsec

sleep_time_lem : (m n : ℕ) → n ≤ 999999 → nanoseconds (sleep_time (pos m) (pos n)) ≡ m * 1000000 + n
unfolding sleep_time times ◌/ℤ◌ ◌%ℤ◌ ◌+ℤ◌
sleep_time_lem m n h = ground arith

-- The two tests for 0 are one for their sum.
zero_iff :
    (m n : ℕ)
    → (is_zero (sleep_time (pos m) (pos n)).tv_sec && is_zero (sleep_time (pos m) (pos n)).tv_nsec)
      ≡ (m * 1000000 + n == 0)
unfolding sleep_time times ◌/ℤ◌ ◌%ℤ◌ ◌+ℤ◌
zero_iff m n = ground arith

-- For milliseconds and less than a million nanoseconds the time asked for is their sum, and the
-- process sleeps that long however often the sleep is interrupted, or not at all if both are 0.
pub function_sleep_lem :
    (m n : ℕ) (calls : Nanosleep)
    → n ≤ 999999
    → IsPosix (sleep_time (pos m) (pos n)) calls
    → (nanoseconds (sleep_time (pos m) (pos n)) ≡ m * 1000000 + n)
      × (function_sleep (pos m) (pos n) calls
          ≡ (if m * 1000000 + n == 0 then not_at_all else all_the_time))
unfolding function_sleep
function_sleep_lem m n calls h p =
    let all = sleep_loop-called (sleep_time (pos m) (pos n)) calls p (sleep_time-IsValid m n h) in
    (sleep_time_lem m n h, rw (zero_iff m n) (rw all (by_zero (m * 1000000 + n == 0))))
  where
    by_zero :
        (b : Bool)
        → (if b then not_at_all else slept_or_not true) ≡ (if b then not_at_all else all_the_time)
    by_zero true = refl
    by_zero false = refl
