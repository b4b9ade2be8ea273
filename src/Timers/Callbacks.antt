-- ===== src/Timers/Callbacks.antt =====
-- engine.c: the JavaScript that `do_engine_init` defines for timeouts and intervals, with the
-- stores of their callbacks, on top of the native functions of functions.c.
pub mod Stores
pub mod Calls
pub mod Balance
use planck.Timers.{Timers, function_set_timeout, function_set_interval}
use planck.Prelude.{
  ℕ, ◌+◌, ◌==◌, Bool, true, false, Option, none, some, List, [], ◌∷◌, if◌then◌else◌,
}
use planck.Prelude.Int.{ℤ}

-- The calls that a script or a callback makes. The `Bool` tells whether the new timer has its
-- thread; a callback is given by its number, `none` is a value that is no function. A delay that is
-- no number is `none`; what is cleared is a number or null, `none`.
pub data Call : Type 0 where
  set_timeout set_interval : Bool → Option ℕ → Option ℤ → Call
  clear_timeout clear_interval : Option ℕ → Call

-- A store maps the numbers of timers to callbacks; with an interval goes its delay. What is stored
-- under null, which no timer fires, is apart.
pub record Js : Type 0 where
  pub timeouts : List (ℕ × ℕ)
  pub intervals : List (ℕ × (ℕ × ℤ))
  pub null_timeout : Option ℕ
  pub null_interval : Option ℕ
  pub timers : Timers
  pub completed : ℕ

module _ {ℓ} {A : Type ℓ} where
  unfoldable pub find : ℕ → List (ℕ × A) → Option A
  find id [] = none
  find id ((k, a) ∷ store) = if k == id then some a else find id store

  -- `delete`; a number stands at most once in a store.
  unfoldable pub remove : ℕ → List (ℕ × A) → List (ℕ × A)
  remove id [] = []
  remove id ((k, a) ∷ store) = if k == id then store else (k, a) ∷ remove id store

  unfoldable pub store_at : ℕ → A → List (ℕ × A) → List (ℕ × A)
  unfolding remove
  store_at id a store = (id, a) ∷ remove id store

abbrev signal_task_complete : Js → Js
signal_task_complete js = record js { completed = js.completed + 1 }

abbrev clear_found : {A : Type 0} → Option A → Js → Js → Js
clear_found none js cleared = js
clear_found (some a) js cleared = signal_task_complete cleared

-- A callback under the number, or the null, that the native function gives.
abbrev stored_timeout : ℕ → Option ℕ × Timers → Js → Js
stored_timeout fn (none, timers) js = record js { timers = timers; null_timeout = some fn }
stored_timeout fn (some id, timers) js = record js {
  timers = timers;
  timeouts = store_at id fn js.timeouts;
}

abbrev stored_interval : Bool → ℕ → Option ℤ → Js → Js
stored_interval starts fn none js = record js {
  timers = (function_set_interval starts none none js.timers).1;
  null_interval = some fn;
}
stored_interval starts fn (some ms) js =
    by_id (function_set_interval starts (some ms) none js.timers)
  where
    by_id : Option ℕ × Timers → Js
    by_id (none, timers) = record js { timers = timers; null_interval = some fn }
    by_id (some id, timers) = record js {
      timers = timers;
      intervals = store_at id (fn, ms) js.intervals;
    }

-- A call, and whether it throws.
unfoldable pub call : Call → Js → Js × Bool
unfolding find remove store_at function_set_timeout function_set_interval
call (set_timeout starts none ms) js = (js, true)
call (set_timeout starts (some fn) ms) js =
    (stored_timeout fn (function_set_timeout starts ms js.timers) js, false)
call (set_interval starts none ms) js = (js, true)
call (set_interval starts (some fn) ms) js = (stored_interval starts fn ms js, false)
call (clear_timeout (some id)) js =
    (clear_found (find id js.timeouts) js (record js { timeouts = remove id js.timeouts }), false)
call (clear_timeout none) js =
    (clear_found js.null_timeout js (record js { null_timeout = none }), false)
call (clear_interval (some id)) js = (
  clear_found (find id js.intervals) js (record js { intervals = remove id js.intervals }),
  false,
)
call (clear_interval none) js =
    (clear_found js.null_interval js (record js { null_interval = none }), false)

-- The calls of a body up to one that throws.
abbrev unless_thrown : Js × Bool → (Js → Js × Bool) → Js × Bool
unless_thrown (js, true) next = (js, true)
unless_thrown (js, false) next = next js

unfoldable pub body : List Call → Js → Js × Bool
unfolding call
body [] js = (js, false)
body (c ∷ cs) js = unless_thrown (call c js) (body cs)

-- `PLANCK_RUN_INTERVAL`: behind the callback the timer is started again, unless it throws.
abbrev pub start_again : ℕ → Bool → ℤ → Js × Bool → Js
start_again id starts ms (js, true) = js
start_again id starts ms (js, false) = record js {
  timers = (function_set_interval starts (some ms) (some id) js.timers).1;
}

module _ (program : ℕ → List Call) where
  -- `PLANCK_RUN_TIMEOUT`: what follows `finally` comes also behind a throw.
  abbrev pub run_found : ℕ → Option ℕ → Js → Js
  run_found id none js = js
  run_found id (some fn) js =
      let js' = (body (program fn) js).0 in
      signal_task_complete (record js' { timeouts = remove id js'.timeouts })

  unfoldable pub run_timeout : ℕ → Js → Js
  unfolding body
  run_timeout id js = run_found id (find id js.timeouts) js

  abbrev run_found_interval : ℕ → Bool → Option (ℕ × ℤ) → Js → Js
  run_found_interval id starts none js = js
  run_found_interval id starts (some (fn, ms)) js = start_again id starts ms (body (program fn) js)

  unfoldable pub run_interval : ℕ → Bool → Js → Js
  unfolding body
  run_interval id starts js = run_found_interval id starts (find id js.intervals) js

-- What happens, one at a time under the evaluation lock: a script's calls, or a timer that fires.
pub data Event : Type 0 where
  script : List Call → Event
  fires : ℕ → Event
  fires_interval : ℕ → Bool → Event

unfoldable pub happen : (ℕ → List Call) → Event → Js → Js
unfolding run_timeout run_interval
happen program (script cs) js = (body cs js).0
happen program (fires id) js = run_timeout program id js
happen program (fires_interval id starts) js = run_interval program id starts js

unfoldable pub happen_all : (ℕ → List Call) → List Event → Js → Js
unfolding happen
happen_all program [] js = js
happen_all program (e ∷ es) js = happen_all program es (happen program e js)
