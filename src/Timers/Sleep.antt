-- ===== src/Timers/Sleep.antt =====
-- timers.c: how long a timer sleeps, and when it calls back.
use planck.Timers.{
  times, Timespec, timespec_of, Nanosleep, slept, refused, interrupted, sleep_loop, timer_thread,
}
use planck.Prelude.{ℕ, ◌+◌, ◌*◌, ◌≡◌, ◌↔◌, ◌==◌, if◌then◌else◌, refl, true, arith}
use planck.Prelude.Int.{◌/ℤ◌, ◌%ℤ◌, ℤ, pos, pos_part, negsuc, ◌≤ℤ◌}

-- What POSIX asks of the time that `nanosleep` is given.
abbrev pub IsValid : Timespec → Type 0
IsValid t = (pos 0 ≤ℤ t.tv_sec) × (pos 0 ≤ℤ t.tv_nsec) × (t.tv_nsec ≤ℤ pos 999999999)

-- `nanosleep` fails with an error other than EINTR exactly for a time that is not valid, and the
-- time that remains after an interruption is valid.
abbrev pub IsPosix : Timespec → Nanosleep → Type 0
IsPosix t slept = IsValid t
IsPosix t refused = ¬ (IsValid t)
IsPosix t (interrupted remaining later) = IsValid t × IsValid remaining × IsPosix remaining later

timespec_of-IsValid : (millis : ℤ) → pos 0 ≤ℤ millis → IsValid (timespec_of millis)
unfolding timespec_of ◌/ℤ◌ ◌%ℤ◌ times
timespec_of-IsValid (pos m) h = ground arith
timespec_of-IsValid (negsuc m) h = absurd (omega arith)

negative : (millis : ℤ) → IsValid (timespec_of millis) → pos 0 ≤ℤ millis
unfolding timespec_of ◌/ℤ◌ ◌%ℤ◌ times
negative (pos m) v = omega arith
negative (negsuc m) v = ground arith

pub sleep_loop-called :
    (t : Timespec) (calls : Nanosleep) → IsPosix t calls → IsValid t → sleep_loop t calls ≡ true
unfolding sleep_loop
sleep_loop-called t slept p v = refl
sleep_loop-called t refused p v = absurd (p v)
sleep_loop-called t (interrupted remaining later) p v = sleep_loop-called remaining later p.2 p.1

posix-IsValid :
    (t : Timespec) (calls : Nanosleep) → IsPosix t calls → sleep_loop t calls ≡ true → IsValid t
unfolding sleep_loop
posix-IsValid t slept p h = p
posix-IsValid t refused p h = cc
posix-IsValid t (interrupted remaining later) p h = p.0

-- A timer calls back exactly if its delay is not negative, however often its sleep is interrupted.
pub timer_thread_iff :
    (millis : ℤ) (calls : Nanosleep)
    → IsPosix (timespec_of millis) calls
    → (timer_thread millis calls ≡ true) ↔ (pos 0 ≤ℤ millis)
unfolding timer_thread
timer_thread_iff millis calls p = (
  λ h. negative millis (posix-IsValid _ calls p h),
  λ h. sleep_loop-called _ calls p (timespec_of-IsValid millis h),
)

-- A timer asks `nanosleep` for its delay, one nanosecond where the delay is 0.
pub timespec_of_lem :
    (m : ℕ)
    → (pos_part (timespec_of (pos m)).tv_sec * 1000000000 + pos_part (timespec_of (pos m)).tv_nsec
        ≡ m * 1000000 + (if m == 0 then 1 else 0))
unfolding timespec_of ◌/ℤ◌ ◌%ℤ◌ times
timespec_of_lem m = ground arith
