-- ===== src/Timers/Callbacks/Calls.antt =====
-- engine.c: each call keeps a task outstanding for each stored callback.
use planck.Timers.Callbacks.Stores.{
  Below, Below-remove, length-remove_found, find-remove_ne, store_new, find-store_new,
}
use planck.Timers.{Timers, next_id, start_timeout, start_interval, function_set_interval}
use planck.Timers.Ids.{last_id}
use planck.Timers.Callbacks.{
  Call, set_timeout, set_interval, clear_timeout, clear_interval, Js, find, remove, call, body,
}
use planck.Prelude.{
  ℕ, ◌+◌, ◌<◌, ◌≡◌, ◌≢◌, refl, ap, ◌∙◌, Bool, true, false, Option, none, some, List, [], ◌∷◌, arith,
  length, Option-cases, Bool-cases, inl, inr,
}
use planck.Prelude.Int.{ℤ}

-- As many tasks are outstanding as there are callbacks in the stores.
pub record Balanced (js : Js) : Type 0 where
  pub outstanding :
      js.timers.tasks_started ≡ js.completed + length js.timeouts + length js.intervals
  pub timeouts_below : Below js.timers.timeout_id js.timeouts
  pub intervals_below : Below js.timers.interval_id js.intervals

-- Each delay is a number, the numbers do not begin again, and what is cleared is a number, which is
-- not that of the callback's own timeout, `own`.
abbrev pub Allowed : Option ℕ → Call → Js → Type 0
Allowed own (set_timeout starts fn (some ms)) js = js.timers.timeout_id < last_id
Allowed own (set_timeout starts fn none) js = ⊥
Allowed own (set_interval starts fn (some ms)) js = js.timers.interval_id < last_id
Allowed own (set_interval starts fn none) js = ⊥
Allowed own (clear_timeout (some id)) js = own ≢ some id
Allowed own (clear_timeout none) js = ⊥
Allowed own (clear_interval (some id)) js = Unit
Allowed own (clear_interval none) js = ⊥

abbrev pub AllAllowed : Option ℕ → List Call → Js → Type 0
AllAllowed own [] js = Unit
AllAllowed own (c ∷ cs) js = Allowed own c js × AllAllowed own cs (call c js).0

-- Where `own` is the number of a timeout its callback is stored.
abbrev pub Stored : Option ℕ → Js → Type 0
Stored none js = Unit
Stored (some id) js = (fn : ℕ) × (find id js.timeouts ≡ some fn)

-- What the native functions do to the counters.
timeout_fields :
    (starts : Bool) (ms : ℤ) (s : Timers)
    → s.timeout_id < last_id
    → let r = start_timeout starts ms s in
      (r.0 ≡ s.timeout_id + 1)
      × (r.1.timeout_id ≡ s.timeout_id + 1)
      × (r.1.interval_id ≡ s.interval_id)
      × (r.1.tasks_started ≡ s.tasks_started + 1)
unfolding start_timeout next_id
timeout_fields true ms s room = ground arith
timeout_fields false ms s room = ground arith

interval_fields :
    (starts : Bool) (ms : ℤ) (s : Timers)
    → s.interval_id < last_id
    → let r = start_interval starts ms none s in
      (r.0 ≡ s.interval_id + 1)
      × (r.1.interval_id ≡ s.interval_id + 1)
      × (r.1.timeout_id ≡ s.timeout_id)
      × (r.1.tasks_started ≡ s.tasks_started + 1)
unfolding start_interval next_id
interval_fields true ms s room = ground arith
interval_fields false ms s room = ground arith

pub again_fields :
    (starts : Bool) (ms : ℤ) (id : ℕ) (s : Timers)
    → let r = function_set_interval starts (some ms) (some id) s in
      (r.1.interval_id ≡ s.interval_id)
      × (r.1.timeout_id ≡ s.timeout_id)
      × (r.1.tasks_started ≡ s.tasks_started)
unfolding function_set_interval start_interval
again_fields true ms id s = (refl, refl, refl)
again_fields false ms id s = (refl, refl, refl)

set_timeout-Balanced :
    (own : Option ℕ) (starts : Bool) (fn : ℕ) (ms : ℤ) (js : Js)
    → Balanced js
    → Stored own js
    → js.timers.timeout_id < last_id
    → Balanced (call (set_timeout starts (some fn) (some ms)) js).0
      × Stored own (call (set_timeout starts (some fn) (some ms)) js).0
unfolding call
set_timeout-Balanced own starts fn ms js b stored room =
    let (id, t, i, n) = timeout_fields starts ms js.timers room in
    let (l, below) = store_new js.timers.timeout_id _ _ fn js.timeouts b.timeouts_below id t in
    (
      record {
        outstanding = omega (arith, b.outstanding, n, l);
        timeouts_below = below;
        intervals_below = rw i b.intervals_below;
      },
      still own stored,
    )
  where
    still :
        (o : Option ℕ) → Stored o js → Stored o (call (set_timeout starts (some fn) (some ms)) js).0
    still none s = tt
    still (some own') (fn', e) =
        let (id, t, i, n) = timeout_fields starts ms js.timers room in
        (fn', find-store_new js.timers.timeout_id _ own' fn js.timeouts b.timeouts_below id e)

set_interval-Balanced :
    (starts : Bool) (fn : ℕ) (ms : ℤ) (js : Js)
    → Balanced js
    → js.timers.interval_id < last_id
    → Balanced (call (set_interval starts (some fn) (some ms)) js).0
unfolding call
set_interval-Balanced starts fn ms js b room =
    let (id, i, t, n) = interval_fields starts ms js.timers room in
    let (l, below) =
      store_new js.timers.interval_id _ _ (fn, ms) js.intervals b.intervals_below id i in
    record {
      outstanding = omega (arith, b.outstanding, n, l);
      timeouts_below = rw t b.timeouts_below;
      intervals_below = below;
    }

clear_timeout-Balanced :
    (own : Option ℕ) (id : ℕ) (js : Js)
    → Balanced js
    → Stored own js
    → own ≢ some id
    → Balanced (call (clear_timeout (some id)) js).0
      × Stored own (call (clear_timeout (some id)) js).0
unfolding call
clear_timeout-Balanced own id js b stored other = elim (Option-cases (find id js.timeouts)) [
  | inl missing ↦ (rw missing b, rw missing stored)
  | inr (fn, there) ↦
      let l = length-remove_found id js.timeouts there in
      (
        rw there (record {
          outstanding = omega (arith, b.outstanding, l);
          timeouts_below = Below-remove js.timers.timeout_id id js.timeouts b.timeouts_below;
          intervals_below = b.intervals_below;
        }),
        rw there (still own stored other),
      )
]
  where
    still :
        (o : Option ℕ)
        → Stored o js
        → o ≢ some id
        → Stored o (record js { completed = js.completed + 1; timeouts = remove id js.timeouts })
    still none s ne = tt
    still (some own') (fn, e) ne =
        (fn, find-remove_ne id own' js.timeouts (λ p. ne (ap some p)) ∙ e)

clear_interval-Balanced :
    (id : ℕ) (js : Js) → Balanced js → Balanced (call (clear_interval (some id)) js).0
unfolding call
clear_interval-Balanced id js b = elim (Option-cases (find id js.intervals)) [
  | inl missing ↦ rw missing b
  | inr (fn, there) ↦
      let l = length-remove_found id js.intervals there in
      rw there (record {
        outstanding = omega (arith, b.outstanding, l);
        timeouts_below = b.timeouts_below;
        intervals_below = Below-remove js.timers.interval_id id js.intervals b.intervals_below;
      })
]

call-Balanced :
    (own : Option ℕ) (c : Call) (js : Js)
    → Balanced js
    → Stored own js
    → Allowed own c js
    → Balanced (call c js).0 × Stored own (call c js).0
unfolding call
call-Balanced own (set_timeout starts none ms) js b stored ok = (b, stored)
call-Balanced own (set_timeout starts (some fn) none) js b stored ok = absurd ok
call-Balanced own (set_timeout starts (some fn) (some ms)) js b stored ok =
    set_timeout-Balanced own starts fn ms js b stored ok
call-Balanced own (set_interval starts none ms) js b stored ok = (b, stored)
call-Balanced own (set_interval starts (some fn) none) js b stored ok = absurd ok
call-Balanced own (set_interval starts (some fn) (some ms)) js b stored ok =
    (set_interval-Balanced starts fn ms js b ok, same own stored)
  where
    same :
        (o : Option ℕ)
        → Stored o js
        → Stored o (call (set_interval starts (some fn) (some ms)) js).0
    same none s = tt
    same (some id) s = s
call-Balanced own (clear_timeout none) js b stored ok = absurd ok
call-Balanced own (clear_timeout (some id)) js b stored ok =
    clear_timeout-Balanced own id js b stored ok
call-Balanced own (clear_interval none) js b stored ok = absurd ok
call-Balanced own (clear_interval (some id)) js b stored ok =
    (clear_interval-Balanced id js b, same own stored)
  where
    same : (o : Option ℕ) → Stored o js → Stored o (call (clear_interval (some id)) js).0
    same none s = tt
    same (some id') s = elim (Option-cases (find id js.intervals)) [
      | inl missing ↦ rw missing s
      | inr (fn, there) ↦ rw there s
    ]

pub body-Balanced :
    (own : Option ℕ) (cs : List Call) (js : Js)
    → Balanced js
    → Stored own js
    → AllAllowed own cs js
    → Balanced (body cs js).0 × Stored own (body cs js).0
unfolding body
body-Balanced own [] js b stored ok = (b, stored)
body-Balanced own (c ∷ cs) js b stored ok =
    let (b', stored') = call-Balanced own c js b stored ok.0 in
    elim (Bool-cases (call c js).1) [
      | inl thrown ↦ (rw (pair_with thrown) b', rw (pair_with thrown) stored')
      | inr fine ↦
          let (b'', stored'') = body-Balanced own cs (call c js).0 b' stored' ok.1 in
          (rw (pair_with fine) b'', rw (pair_with fine) stored'')
    ]
  where
    pair_with : {t : Bool} → (call c js).1 ≡ t → call c js ≡ ((call c js).0, t)
    pair_with e = ap (λ u. ((call c js).0, u)) e
