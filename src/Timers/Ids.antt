-- ===== src/Timers/Ids.antt =====
-- functions.c: the numbers of timeouts.
use planck.Timers.{Timers, next_id, start_timeout}
use planck.Prelude.{
  ℕ, ◌+◌, ◌-◌, ◌≤◌, ◌<◌, ◌≡◌, ◌≢◌, refl, ap, ◌∙◌, Bool, true, false, List, [], ◌∷◌, leb, arith,
  if◌then◌else◌, length,
}
use planck.Prelude.Int.{ℤ}

abbrev pub last_id : ℕ
last_id = 9007199254740991

-- The calls, each with its delay and whether its timer starts.
unfoldable pub calls_of : List (Bool × ℤ) → Timers → Timers
calls_of [] s = s
calls_of ((starts, millis) ∷ rest) s = calls_of rest (start_timeout starts millis s).1

-- How many calls ago `old` was the last number, if `new` is the last one now.
abbrev distance : ℕ → ℕ → ℕ
distance old new = if leb old new then new - old else new + (last_id + 1) - old

id-next :
    (starts : Bool) (millis : ℤ) (s : Timers)
    → (start_timeout starts millis s).1.timeout_id ≡ next_id s.timeout_id
unfolding start_timeout
id-next false millis s = refl
id-next true millis s = refl

distance-next :
    (old new : ℕ)
    → old ≤ last_id
    → new ≤ last_id
    → distance old new < last_id
    → (distance old (next_id new) ≡ distance old new + 1) × (next_id new ≤ last_id)
unfolding next_id
distance-next old new bound bound' h = ground arith

calls-distance :
    (old : ℕ) (calls : List (Bool × ℤ)) (s : Timers)
    → old ≤ last_id
    → s.timeout_id ≤ last_id
    → distance old s.timeout_id + length calls ≤ last_id
    → distance old (calls_of calls s).timeout_id ≡ distance old s.timeout_id + length calls
unfolding calls_of
calls-distance old [] s b b' h = omega arith
calls-distance old ((starts, millis) ∷ rest) s b b' h =
    let e = id-next starts millis s in
    let (further, bound) = distance-next old s.timeout_id b b' (omega arith) in
    let d = ap (distance old) e ∙ further in
    calls-distance old rest (start_timeout starts millis s).1 b (rw e bound) (omega arith)
    ∙ omega arith

tasks-next :
    (starts : Bool) (millis : ℤ) (s : Timers)
    → (start_timeout starts millis s).1.tasks_started ≡ s.tasks_started + 1
unfolding start_timeout
tasks-next false millis s = refl
tasks-next true millis s = refl

calls-tasks :
    (calls : List (Bool × ℤ)) (s : Timers)
    → (calls_of calls s).tasks_started ≡ s.tasks_started + length calls
unfolding calls_of
calls-tasks [] s = omega arith
calls-tasks ((starts, millis) ∷ rest) s =
    calls-tasks rest (start_timeout starts millis s).1 ∙ omega (arith, tasks-next starts millis s)

-- The number of a timeout is not given again by fewer than 2^53 further calls, and every call
-- has one task outstanding, whether or not its timer starts.
start_timeout_lem :
    (calls : List (Bool × ℤ)) (s : Timers)
    → s.timeout_id ≤ last_id
    → 0 < length calls
    → length calls ≤ last_id
    → ((calls_of calls s).timeout_id ≢ s.timeout_id)
      × ((calls_of calls s).tasks_started ≡ s.tasks_started + length calls)
start_timeout_lem calls s bound some_call few =
    let here : distance s.timeout_id s.timeout_id ≡ 0 = ground arith in
    let d = calls-distance s.timeout_id calls s bound bound (omega arith) in
    (λ e. omega (arith, here, d, ap (distance s.timeout_id) e, some_call), calls-tasks calls s)
