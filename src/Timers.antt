-- ===== src/Timers.antt =====
-- planck-c/timers.c, and the two functions of planck-c/functions.c that start timers.
pub mod Sleep
pub mod Ids
pub mod Callbacks
mod Tests
use planck.Prelude.{
  ℕ, ◌+◌, ◌*◌, ◌/◌, ◌%◌, ◌≡◌, ◌==◌, Bool, true, false, ◌&&◌, Option, none, some, List, [], ◌∷◌,
  ◌++◌, if◌then◌else◌,
}
use planck.Prelude.Int.{◌/ℤ◌, ◌%ℤ◌, ℤ, pos, negsuc, sub_ℕ}

-- A multiple by a natural number.
unfoldable pub times : ℕ → ℤ → ℤ
times k (pos a) = pos (k * a)
times k (negsuc a) = sub_ℕ 0 (k * (a + 1))

pub record Timespec : Type 0 where
  pub tv_sec : ℤ
  pub tv_nsec : ℤ

abbrev is_zero : ℤ → Bool
is_zero (pos n) = n == 0
is_zero (negsuc n) = false

unfoldable pub timespec_of : ℤ → Timespec
timespec_of millis =
    let t : Timespec = record {
      tv_sec = millis /ℤ 1000;
      tv_nsec = times (1000 * 1000) (millis %ℤ 1000);
    } in
    if is_zero t.tv_sec && is_zero t.tv_nsec then record t { tv_nsec = pos 1 } else t

-- What the calls of `nanosleep` do: it sleeps all the time, is interrupted with a time that
-- remains, or fails otherwise.
pub data Nanosleep : Type 0 where
  slept refused : Nanosleep
  interrupted : Timespec → Nanosleep → Nanosleep

unfoldable pub sleep_loop : Timespec → Nanosleep → Bool
sleep_loop t slept = true
sleep_loop t refused = false
sleep_loop t (interrupted remaining later) = sleep_loop remaining later

-- Whether the callback is called.
unfoldable pub timer_thread : ℤ → Nanosleep → Bool
timer_thread millis calls = sleep_loop (timespec_of millis) calls

-- The callbacks `do_run_timeout` and `do_run_interval`.
pub data Callback : Type 0 where
  do_run_timeout do_run_interval : ℕ → Callback

-- The two static variables, the number of tasks signalled as started, and the timers started.
pub record Timers : Type 0 where
  pub timeout_id : ℕ
  pub interval_id : ℕ
  pub tasks_started : ℕ
  pub started : List (ℤ × Callback)

-- The `Bool`s tell whether `start_timer` has its memory and its thread; its result is not read.
abbrev start_timer : Bool → ℤ → Callback → Timers → Timers
start_timer true millis callback s = record s { started = s.started ++ (millis, callback) ∷ [] }
start_timer false millis callback s = s

unfoldable pub next_id : ℕ → ℕ
next_id id = if id == 9007199254740991 then 0 else id + 1

-- What follows the test of the arguments.
unfoldable pub start_timeout : Bool → ℤ → Timers → ℕ × Timers
unfolding next_id
start_timeout starts millis s =
    let id = next_id s.timeout_id in
    (
      id,
      start_timer starts millis (do_run_timeout id)
          (record s { timeout_id = id; tasks_started = s.tasks_started + 1 }),
    )

abbrev some_id : ℕ × Timers → Option ℕ × Timers
some_id (id, s) = (some id, s)

-- The delay is `none` where it is no number; the result is `none` for null.
unfoldable pub function_set_timeout : Bool → Option ℤ → Timers → Option ℕ × Timers
unfolding start_timeout
function_set_timeout starts none s = (none, s)
function_set_timeout starts (some millis) s = some_id (start_timeout starts millis s)

unfoldable pub start_interval : Bool → ℤ → Option ℕ → Timers → ℕ × Timers
unfolding next_id
start_interval starts millis none s =
    let id = next_id s.interval_id in
    (
      id,
      start_timer starts millis (do_run_interval id)
          (record s { interval_id = id; tasks_started = s.tasks_started + 1 }),
    )
start_interval starts millis (some id) s = (id, start_timer starts millis (do_run_interval id) s)

-- The second argument is `none` for null, and else the number of an interval that goes on.
unfoldable pub function_set_interval : Bool → Option ℤ → Option ℕ → Timers → Option ℕ × Timers
unfolding start_interval
function_set_interval starts none id s = (none, s)
function_set_interval starts (some millis) id s = some_id (start_interval starts millis id s)
