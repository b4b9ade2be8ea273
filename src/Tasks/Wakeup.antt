-- ===== src/Tasks/Wakeup.antt =====
-- tasks.c: `block_until_tasks_complete` returns at zero, and misses no wakeup.
use planck.Tasks.{
  Holder, nobody, main_thread, about_to_signal, Blocking, before, testing, waiting, woken, returned,
  State, Move, lock, count, signal, unlock, main_lock, main_test, main_relock, spurious_wakeup,
  is_zero, move, run, Reach, start, later,
}
use planck.Prelude.{
  subst, Option-cases, ◌≡◌, ◌≢◌, inl, inr, refl, false, Option, none, some, List, [], ◌∷◌, arith,
}
use planck.Prelude.Int.{ℤ, ◌+ℤ◌, sub_ℕ}

-- The lock is `main`'s exactly while it tests.
abbrev Fits : Holder → Blocking → Type 0
Fits main_thread testing = Unit
Fits main_thread _ = ⊥
Fits _ testing = ⊥
Fits _ _ = Unit

-- Where `main` waits there is a task outstanding, or a signal still to come.
abbrev Called : Blocking → Holder → ℤ → Type 0
Called waiting (about_to_signal c) n = Unit
Called waiting _ n = is_zero n ≡ false
Called _ _ n = Unit

record Inv (s : State) : Type 0 where
  outstanding : s.tasks_outstanding ≡ sub_ℕ s.started s.completed
  fits : Fits s.holder s.blocking
  called : Called s.blocking s.holder s.tasks_outstanding

abbrev InvAfter : Option State → Type 0
InvAfter none = Unit
InvAfter (some t) = Inv t

move-InvAfter : (m : Move) (s : State) → Inv s → InvAfter (move m s)
unfolding move ◌+ℤ◌
move-InvAfter (lock c) s inv = ground arith
move-InvAfter count s inv = ground arith
move-InvAfter signal s inv = ground arith
move-InvAfter unlock s inv = ground arith
move-InvAfter main_lock s inv = ground arith
move-InvAfter main_test s inv = ground arith
move-InvAfter main_relock s inv = ground arith
move-InvAfter spurious_wakeup s inv = ground arith

after-Inv : (o : Option State) (t : State) → InvAfter o → o ≡ some t → Inv t
after-Inv none t inv h = cc
after-Inv (some s) t inv h = ground arith

Reach-Inv : {s : State} → Reach s → Inv s
Reach-Inv start = record { outstanding = refl; fits = tt; called = tt }
Reach-Inv (later {s} {t} m r h) = after-Inv (move m s) t (move-InvAfter m s (Reach-Inv r)) h

-- In whatever order tasks start and complete, `block_until_tasks_complete` returns only at a time
-- when as many have completed as were started.
pub move-returned :
    {s t : State} (m : Move)
    → Reach s
    → move m s ≡ some t
    → s.blocking ≢ returned
    → t.blocking ≡ returned
    → s.started ≡ s.completed
unfolding move
move-returned {s} {t} m r h now then = by_move m s (Reach-Inv r) h now
  where
    by_move :
        (m : Move) (s : State)
        → Inv s
        → move m s ≡ some t
        → s.blocking ≢ returned
        → s.started ≡ s.completed
    by_move (lock c) s inv h now = ground arith
    by_move count s inv h now = ground arith
    by_move signal s inv h now = ground arith
    by_move unlock s inv h now = ground arith
    by_move main_lock s inv h now = ground arith
    by_move main_test s inv h now = ground arith
    by_move main_relock s inv h now = ground arith
    by_move spurious_wakeup s inv h now = ground arith

-- The steps of `main` that lead out of `block_until_tasks_complete`.
abbrev pub way_out : Blocking → List Move
way_out before = main_lock ∷ main_test ∷ []
way_out testing = main_test ∷ []
way_out waiting = []
way_out woken = main_relock ∷ main_test ∷ []
way_out returned = []

-- No wakeup is lost: whenever as many tasks have completed as were started and the lock is free,
-- `main` is not asleep in `block_until_tasks_complete`, and returns from it by its own steps.
pub run-way_out :
    {s : State}
    → Reach s
    → s.started ≡ s.completed
    → s.holder ≡ nobody
    → s.blocking ≢ returned
    → run (way_out s.blocking) s ≡ some (record s { blocking = returned })
unfolding run move
run-way_out {s} r h free now = by_place s (Reach-Inv r) h free now
  where
    by_place :
        (s : State)
        → Inv s
        → s.started ≡ s.completed
        → s.holder ≡ nobody
        → s.blocking ≢ returned
        → (run (way_out s.blocking) s ≡ some (record s { blocking = returned }))
    by_place s inv h free now = ground arith

pub Reach-run : (ms : List Move) {s t : State} → Reach s → run ms s ≡ some t → Reach t
unfolding run
Reach-run [] {s} {t} r h = let e : s ≡ t = cc in subst Reach e r
Reach-run (m ∷ ms) {s} {t} r h = elim (Option-cases (move m s)) [
  | inl stuck ↦ let e = rw stuck at h in cc
  | inr (s', moved) ↦ Reach-run ms (later m r moved) (rw moved at h)
]
