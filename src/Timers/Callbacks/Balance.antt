-- ===== src/Timers/Callbacks/Balance.antt =====
-- engine.c: a task is outstanding for each timeout and interval whose callback is stored.
use planck.Timers.Callbacks.Stores.{Below-remove, length-remove_found}
use planck.Timers.Callbacks.Calls.{Balanced, AllAllowed, body-Balanced, again_fields}
use planck.Timers.Callbacks.{
  Call, clear_timeout, Js, find, remove, call, body, run_timeout, run_interval, Event, script,
  fires, fires_interval, happen, happen_all, run_found, start_again,
}
use planck.Prelude.{
  ℕ, ◌+◌, ◌≡◌, refl, ap, ◌∙◌, Bool, true, false, Option, none, some, List, [], ◌∷◌, ◌==◌, arith,
  length, Option-cases, Bool-cases, inl, inr,
}
use planck.Prelude.Int.{ℤ}

abbrev WhereFound : {A : Type 0} → Option A → (A → Type 0) → Type 0
WhereFound none P = Unit
WhereFound (some a) P = P a

-- What a script and the callbacks may do: delays are numbers, timers are cleared by numbers, these do
-- not begin again, and no callback of a timeout clears that timeout.
abbrev pub MayHappen : (ℕ → List Call) → Event → Js → Type 0
MayHappen program (script cs) js = AllAllowed none cs js
MayHappen program (fires id) js =
    WhereFound (find id js.timeouts) (λ fn. AllAllowed (some id) (program fn) js)
MayHappen program (fires_interval id starts) js =
    WhereFound (find id js.intervals) (λ p. AllAllowed none (program p.0) js)

abbrev pub AllMayHappen : (ℕ → List Call) → List Event → Js → Type 0
AllMayHappen program [] js = Unit
AllMayHappen program (e ∷ es) js =
    MayHappen program e js × AllMayHappen program es (happen program e js)

start_again-Balanced :
    (id : ℕ) (starts : Bool) (ms : ℤ) (r : Js × Bool)
    → Balanced r.0
    → Balanced (start_again id starts ms r)
start_again-Balanced id starts ms (js, true) b = b
start_again-Balanced id starts ms (js, false) b =
    let (i, t, n) = again_fields starts ms id js.timers in
    record {
      outstanding = n ∙ b.outstanding;
      timeouts_below = rw t b.timeouts_below;
      intervals_below = rw i b.intervals_below;
    }

module _ (program : ℕ → List Call) where
  run_found-Balanced :
      (id fn : ℕ) (js : Js)
      → Balanced js
      → find id js.timeouts ≡ some fn
      → AllAllowed (some id) (program fn) js
      → Balanced (run_found program id (some fn) js)
  run_found-Balanced id fn js b there ok =
      let (b', (fn', there')) = body-Balanced (some id) (program fn) js b (fn, there) ok in
      let js' = (body (program fn) js).0 in
      let l = length-remove_found id js'.timeouts there' in
      record {
        outstanding = omega (arith, b'.outstanding, l);
        timeouts_below = Below-remove js'.timers.timeout_id id js'.timeouts b'.timeouts_below;
        intervals_below = b'.intervals_below;
      }

  happen-Balanced :
      (e : Event) (js : Js) → Balanced js → MayHappen program e js → Balanced (happen program e js)
  unfolding happen run_timeout run_interval
  happen-Balanced (script cs) js b ok = (body-Balanced none cs js b tt ok).0
  happen-Balanced (fires id) js b ok = elim (Option-cases (find id js.timeouts)) [
    | inl missing ↦ rw missing b
    | inr (fn, there) ↦ rw there (run_found-Balanced id fn js b there (rw there at ok))
  ]
  happen-Balanced (fires_interval id starts) js b ok = elim (Option-cases (find id js.intervals)) [
    | inl missing ↦ rw missing b
    | inr ((fn, ms), there) ↦ rw there (
        start_again-Balanced id starts ms (body (program fn) js)
          (body-Balanced none (program fn) js b tt (rw there at ok)).0)
  ]

  -- Scripts and timers keep as many tasks outstanding as there are timeouts and intervals that still
  -- have a callback, if it is so at first, every delay is a number, every timer that is cleared is
  -- given by a number, the numbers do not begin again, and no callback of a timeout clears that
  -- timeout.
  pub happen_all-Balanced :
      (es : List Event) (js : Js)
      → Balanced js
      → AllMayHappen program es js
      → Balanced (happen_all program es js)
  unfolding happen_all
  happen_all-Balanced [] js b ok = b
  happen_all-Balanced (e ∷ es) js b ok =
      happen_all-Balanced es (happen program e js) (happen-Balanced e js b ok.0) ok.1

remove-missing {ℓ} :
    {A : Type ℓ} (id : ℕ) (store : List (ℕ × A)) → find id store ≡ none → remove id store ≡ store
unfolding find remove
remove-missing id [] e = refl
remove-missing id ((k, a) ∷ store) e = elim (Bool-cases (k == id)) [
  | inl same ↦ let e' = rw same at e in cc
  | inr differs ↦ rw differs (ap (◌∷◌ (k, a)) (remove-missing id store (rw differs at e)))
]

-- A callback that does nothing but clear its own timeout completes two tasks for one that was
-- started: one fewer is outstanding than there are callbacks left, where as many were before and the
-- number stands in the store once.
pub run_timeout_clears_itself :
    (program : ℕ → List Call) (id fn : ℕ) (js : Js)
    → Balanced js
    → find id js.timeouts ≡ some fn
    → find id (remove id js.timeouts) ≡ none
    → program fn ≡ clear_timeout (some id) ∷ []
    → let js' = run_timeout program id js in
      js'.timers.tasks_started + 1 ≡ js'.completed + length js'.timeouts + length js'.intervals
unfolding run_timeout body call
run_timeout_clears_itself program id fn js b there once clears =
    let l = length-remove_found id js.timeouts there in
    let gone = remove-missing id (remove id js.timeouts) once in
    rw (there, clears, there, gone) (omega (arith, b.outstanding, l))
