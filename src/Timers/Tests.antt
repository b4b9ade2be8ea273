-- ===== src/Timers/Tests.antt =====
-- Runs of timers.c and of the functions that start timers.
use planck.Timers.{
  times, Timespec, timespec_of, slept, interrupted, timer_thread, Timers, next_id,
  function_set_timeout, function_set_interval, start_timeout, start_interval,
}
use planck.Timers.Callbacks.{
  Call, set_timeout, set_interval, clear_timeout, clear_interval, Js, call, body, run_timeout,
  Event, script, fires, happen_all, find, remove,
}
use planck.Timers.Callbacks.Calls.{Balanced}
use planck.Timers.Callbacks.Balance.{happen_all-Balanced, run_timeout_clears_itself}
use planck.Timers.Sleep.{timer_thread_iff}
use planck.Timers.Ids.{calls_of}
use planck.Prelude.{
  ℕ, ◌==◌, if◌then◌else◌, ◌+◌, ◌≡◌, ◌↔◌, refl, Bool, true, false, none, some, List, [], ◌∷◌, arith,
  length,
}
use planck.Prelude.Int.{◌/ℤ◌, ◌%ℤ◌, ℤ, pos, negsuc, ◌≤ℤ◌}

abbrev half_a_second : Timespec
half_a_second = record { tv_sec = pos 0; tv_nsec = pos 500000000 }

two_and_a_half : timespec_of (pos 2500) ≡ record half_a_second { tv_sec = pos 2 }
unfolding timespec_of ◌/ℤ◌ ◌%ℤ◌ times
two_and_a_half = refl

-- A delay of -5 is a time that `nanosleep` refuses.
below_zero : timespec_of (negsuc 4) ≡ record { tv_sec = pos 0; tv_nsec = negsuc 4999999 }
unfolding timespec_of ◌/ℤ◌ ◌%ℤ◌ times
below_zero = refl

timer_thread_iff_example :
    (timer_thread (pos 2500) (interrupted half_a_second slept) ≡ true) ↔ (pos 0 ≤ℤ pos 2500)
unfolding timespec_of ◌/ℤ◌ ◌%ℤ◌ times
timer_thread_iff_example = timer_thread_iff (pos 2500) (interrupted half_a_second slept) (
  (omega arith, omega arith, omega arith),
  (omega arith, omega arith, omega arith),
  (omega arith, omega arith, omega arith),
)

abbrev near_the_end : Timers
near_the_end = record {
  timeout_id = 9007199254740990;
  interval_id = 0;
  tasks_started = 7;
  started = [];
}

abbrev three_calls : List (Bool × ℤ)
three_calls = (true, pos 10) ∷ (false, pos 0) ∷ (true, negsuc 4) ∷ []

wraps_round : (calls_of three_calls near_the_end).timeout_id ≡ 1
unfolding calls_of start_timeout next_id
wraps_round = refl

goes_on : (function_set_interval true (some (pos 10)) (some 3) near_the_end).1.tasks_started ≡ 7
unfolding function_set_interval
goes_on = refl

-- Callback 1 sets another timeout, callback 2 clears interval 1, and callback 3 clears timeout 3.
abbrev program : ℕ → List Call
program n =
    if n == 1
    then set_timeout true (some 2) (some (pos 5)) ∷ []
    else if n == 2
    then clear_interval (some 1) ∷ []
    else clear_timeout (some 3) ∷ []

abbrev no_timers : Js
no_timers = record {
  timeouts = [];
  intervals = [];
  null_timeout = none;
  null_interval = none;
  timers = record { timeout_id = 0; interval_id = 0; tasks_started = 0; started = [] };
  completed = 0;
}

no_timers-Balanced : Balanced no_timers
no_timers-Balanced = record { outstanding = refl; timeouts_below = tt; intervals_below = tt }

abbrev some_events : List Event
some_events =
    script
      (set_timeout true (some 1) (some (pos 10)) ∷ set_interval true (some 9) (some (pos 3)) ∷ [])
    ∷ fires 1
    ∷ fires 2
    ∷ fires 2
    ∷ []

happen_all-Balanced_example : Balanced (happen_all program some_events no_timers)
unfolding happen_all body call function_set_timeout function_set_interval start_timeout
    start_interval
happen_all-Balanced_example =
    happen_all-Balanced program some_events no_timers no_timers-Balanced (omega arith)

abbrev self_clearing : Js
self_clearing = record no_timers {
  timeouts = (3, 3) ∷ [];
  timers = record { timeout_id = 3; interval_id = 0; tasks_started = 3; started = [] };
  completed = 2;
}

run_timeout_clears_itself_example :
    (run_timeout program 3 self_clearing).timers.tasks_started + 1
    ≡ (run_timeout program 3 self_clearing).completed
      + length (run_timeout program 3 self_clearing).timeouts
      + length (run_timeout program 3 self_clearing).intervals
unfolding find remove
run_timeout_clears_itself_example =
    run_timeout_clears_itself program 3 3 self_clearing
      (record { outstanding = refl; timeouts_below = (omega arith, tt); intervals_below = tt }) refl
      refl refl

-- Without a delay no task is started, but a callback is stored, and clearing null completes a task.
no_delay :
    let js = (body (set_timeout true (some 1) none ∷ clear_timeout none ∷ []) no_timers).0 in
    (js.timers.tasks_started ≡ 0) × (js.completed ≡ 1)
unfolding body
no_delay = (refl, refl)
