-- ===== src/System/Tests.antt =====
-- Runs of the functions for the environment, the clock and sockets.
use planck.Timers.{slept, interrupted}
use planck.Sockets.{received, no_more}
use planck.Sockets.Handler.{arrivals}
use planck.System.Environment.{function_getenv_one}
use planck.System.Sleeping.{sleep_time, function_sleep, not_at_all, all_the_time}
use planck.System.Sleeping.Waits.{nanoseconds, function_sleep_lem}
use planck.System.Connections.{connection}
use planck.System.Connections.Delivered.{told, connection_lem}
use planck.System.Terminal.{function_raw_read_stdin}
use planck.System.Terminal.Stdin.{read_until_null, read_until_null_lem}
use planck.Prelude.{
  ℕ, ◌≡◌, refl, true, false, Option, none, some, List, [], ◌∷◌, ◌++◌, Bytes, codes, map, arith,
  ◌==◌, ◌+◌, ◌*◌, if◌then◌else◌,
}
use planck.Prelude.Int.{pos}

home : function_getenv_one (codes "A=" ∷ codes "HOME=/r" ∷ []) (codes "HOME") ≡ some (codes "/r")
unfolding function_getenv_one
home = refl

-- An empty value is in the object, but a null on its own.
empty_value : function_getenv_one (codes "A=" ∷ []) (codes "A") ≡ none
unfolding function_getenv_one
empty_value = refl

sleep_run :
    (nanoseconds (sleep_time (pos 1500) (pos 7)) ≡ 1500 * 1000000 + 7)
    × (function_sleep
          (pos 1500)
          (pos 7)
          (interrupted (record { tv_sec = pos 0; tv_nsec = pos 3 }) slept)
        ≡ (if 1500 * 1000000 + 7 == 0 then not_at_all else all_the_time))
unfolding sleep_time
sleep_run =
    function_sleep_lem 1500 7 (interrupted (record { tv_sec = pos 0; tv_nsec = pos 3 }) slept)
      (omega arith)
      (
        (omega arith, omega arith, omega arith),
        (omega arith, omega arith, omega arith),
        (omega arith, omega arith, omega arith),
      )

abbrev as_it_is : Bytes → Bytes
as_it_is text = text

-- The callback keeps what it is told.
abbrev keeps : ℕ → Option Bytes → List (Option Bytes) → List (Option Bytes)
keeps sock text s = text ∷ s

connection_lem_example :
    let rs = received (codes "ab") ∷ received (codes "c") ∷ no_more ∷ [] in
    ((connection as_it_is keeps (λ s. s) 5 [] rs).calls ≡ map some (arrivals rs) ++ none ∷ [])
    × ((connection as_it_is keeps (λ s. s) 5 [] rs).state
        ≡ keeps 5 none (told as_it_is keeps 5 (arrivals rs) []))
    × ((connection as_it_is keeps (λ s. s) 5 [] rs).closed ≡ false)
connection_lem_example =
    connection_lem as_it_is keeps 5 (λ s. s) []
      (received (codes "ab") ∷ received (codes "c") ∷ no_more ∷ [])

-- On a terminal a text of two bytes takes three calls.
by_bytes : read_until_null 3 true (codes "ab") ≡ some (codes "ab")
by_bytes =
    read_until_null_lem 2 true (codes "ab") (λ e. omega arith, (λ e. omega arith, tt)) (omega arith)

-- A character of two bytes comes in two texts.
cut_character : function_raw_read_stdin true (195 ∷ 169 ∷ []) ≡ some (some (195 ∷ []), 169 ∷ [])
unfolding function_raw_read_stdin
cut_character = refl
