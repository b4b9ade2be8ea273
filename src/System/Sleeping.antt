-- ===== src/System/Sleeping.antt =====
-- functions.c: `function_sleep`.
pub mod Waits
use planck.Timers.{times, Timespec, Nanosleep, sleep_loop}
use planck.Prelude.{ℕ, ◌+◌, ◌*◌, ◌==◌, Bool, true, false, ◌&&◌, if◌then◌else◌}
use planck.Prelude.Int.{◌/ℤ◌, ◌%ℤ◌, ◌+ℤ◌, ℤ, pos, negsuc}

-- What comes of it: no call of `nanosleep`, a sleep, or a message for an error.
pub data Slept : Type 0 where
  not_at_all all_the_time engine_perror : Slept

abbrev pub is_zero : ℤ → Bool
is_zero (pos n) = n == 0
is_zero (negsuc n) = false

unfoldable pub sleep_time : ℤ → ℤ → Timespec
unfolding times ◌/ℤ◌ ◌%ℤ◌ ◌+ℤ◌
sleep_time millis nanos = record {
  tv_sec = millis /ℤ 1000;
  tv_nsec = times (1000 * 1000) (millis %ℤ 1000) +ℤ nanos;
}

abbrev pub slept_or_not : Bool → Slept
slept_or_not true = all_the_time
slept_or_not false = engine_perror

unfoldable pub function_sleep : ℤ → ℤ → Nanosleep → Slept
unfolding sleep_time sleep_loop
function_sleep millis nanos calls =
    let t = sleep_time millis nanos in
    if is_zero t.tv_sec && is_zero t.tv_nsec then not_at_all else slept_or_not (sleep_loop t calls)
