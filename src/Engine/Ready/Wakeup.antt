-- ===== src/Engine/Ready/Wakeup.antt =====
-- engine.c: whom the one signal of the engine's thread wakes.
use planck.Engine.Ready.{
  Holder, nobody, about_to_set, about_to_signal, State, Move, block_lock, block_test, block_relock,
  signal_lock, set_ready, signal, unlock, spurious_wakeup, move, run, Reach, start, later,
}
use planck.Prelude.{
  ℕ, zero, suc, ◌+◌, ◌≤◌, subst, Option-cases, ◌≡◌, ◌∙◌, ap, Bool, inl, inr, refl, true, Option,
  none, some, List, [], ◌∷◌, arith,
}

-- What the thread of the engine has done when it holds the lock.
abbrev Done : Holder → State → Type 0
Done about_to_set s = s.called ≡ true
Done about_to_signal s = (s.called ≡ true) × (s.engine_ready ≡ true)
Done _ s = Unit

abbrev DoneAfter : Option State → Type 0
DoneAfter none = Unit
DoneAfter (some t) = Done t.holder t

move-DoneAfter : (m : Move) (s : State) → Done s.holder s → DoneAfter (move m s)
unfolding move
move-DoneAfter block_lock s inv = ground arith
move-DoneAfter block_test s inv = ground arith
move-DoneAfter block_relock s inv = ground arith
move-DoneAfter signal_lock s inv = ground arith
move-DoneAfter set_ready s inv = ground arith
move-DoneAfter signal s inv = ground arith
move-DoneAfter unlock s inv = ground arith
move-DoneAfter spurious_wakeup s inv = ground arith

after-Done : (o : Option State) (t : State) → DoneAfter o → o ≡ some t → Done t.holder t
after-Done none t inv h = cc
after-Done (some s) t inv h = ground arith

Reach-Done : {s : State} → Reach s → Done s.holder s
Reach-Done start = tt
Reach-Done (later {s} {t} m r h) = after-Done (move m s) t (move-DoneAfter m s (Reach-Done r)) h

-- The thread of the engine has nothing to do but to unlock.
abbrev Behind : Holder → Type 0
Behind about_to_set = ⊥
Behind about_to_signal = ⊥
Behind _ = Unit

record Signalled (n : ℕ) (s : State) : Type 0 where
  ready : s.engine_ready ≡ true
  called : s.called ≡ true
  behind : Behind s.holder
  asleep : s.waiting ≤ n

abbrev SignalledAfter : ℕ → Option State → Type 0
SignalledAfter n none = Unit
SignalledAfter n (some t) = Signalled n t

move-SignalledAfter : (m : Move) (n : ℕ) (s : State) → Signalled n s → SignalledAfter n (move m s)
unfolding move
move-SignalledAfter block_lock n s inv = ground arith
move-SignalledAfter block_test n s inv = ground arith
move-SignalledAfter block_relock n s inv = ground arith
move-SignalledAfter signal_lock n s inv = ground arith
move-SignalledAfter set_ready n s inv = ground arith
move-SignalledAfter signal n s inv = ground arith
move-SignalledAfter unlock n s inv = ground arith
move-SignalledAfter spurious_wakeup n s inv = ground arith

after-Signalled :
    (n : ℕ) (o : Option State) (t : State) → SignalledAfter n o → o ≡ some t → Signalled n t
after-Signalled n none t inv h = cc
after-Signalled n (some s) t inv h = ground arith

signal-Signalled :
    (n : ℕ) (s t : State)
    → Done s.holder s
    → move signal s ≡ some t
    → s.waiting ≤ suc n
    → Signalled n t
unfolding move
signal-Signalled n s t d h few = ground arith

run-Signalled :
    (ms : List Move) (n : ℕ) {s t : State} → Signalled n s → run ms s ≡ some t → Signalled n t
unfolding run
run-Signalled [] n {s} {t} inv h = let e : s ≡ t = cc in subst (Signalled n) e inv
run-Signalled (m ∷ ms) n {s} {t} inv h = elim (Option-cases (move m s)) [
  | inl stuck ↦ let e = rw stuck at h in cc
  | inr (s', moved) ↦
      run-Signalled ms n (after-Signalled n (move m s) s' (move-SignalledAfter m n s inv) moved)
        (rw moved at h)
]

-- The steps of the woken threads that lead out of `block_until_engine_ready`.
abbrev pub ways_out : ℕ → List Move
ways_out zero = []
ways_out (suc n) = block_relock ∷ block_test ∷ ways_out n

abbrev ready_with : Bool → ℕ → ℕ → ℕ → State
ready_with called waiting woken returned = record {
  engine_ready = true;
  holder = nobody;
  waiting = waiting;
  woken = woken;
  returned = returned;
  called = called;
}

run-ready_with :
    (n : ℕ) (c : Bool) (w r : ℕ)
    → run (ways_out n) (ready_with c w n r) ≡ some (ready_with c w 0 (r + n))
unfolding run move
run-ready_with zero c w r = ap (λ k. some (ready_with c w 0 k)) (omega arith)
run-ready_with (suc n) c w r =
    run-ready_with n c w (r + 1) ∙ ap (λ k. some (ready_with c w 0 k)) (omega arith)

run-ways_out :
    (n : ℕ) (s : State)
    → s.engine_ready ≡ true
    → s.holder ≡ nobody
    → s.woken ≡ n
    → run (ways_out n) s ≡ some (record s { woken = 0; returned = s.returned + n })
run-ways_out n s ready free w =
    let e : s ≡ ready_with s.called s.waiting n s.returned = grind arith in
    ap (run (ways_out n)) e ∙ run-ready_with n s.called s.waiting s.returned ∙ grind arith

-- If at most n + 1 threads wait when the thread of the engine signals, at most n are ever asleep
-- afterwards, so that a thread that waits alone is woken; and whenever the lock is free then, all
-- that are woken return from `block_until_engine_ready` by their own steps.
pub run-signalled :
    (ms : List Move) (n : ℕ) {s t u : State}
    → Reach s
    → s.waiting ≤ suc n
    → move signal s ≡ some t
    → run ms t ≡ some u
    → u.holder ≡ nobody
    → (u.waiting ≤ n)
      × (run (ways_out u.woken) u ≡ some (record u { woken = 0; returned = u.returned + u.woken }))
run-signalled ms n {s} {t} {u} r few signals h free =
    let inv = run-Signalled ms n (signal-Signalled n s t (Reach-Done r) signals few) h in
    (inv.asleep, run-ways_out u.woken u inv.ready free refl)

pub Reach-run : (ms : List Move) {s t : State} → Reach s → run ms s ≡ some t → Reach t
unfolding run
Reach-run [] {s} {t} r h = let e : s ≡ t = cc in subst Reach e r
Reach-run (m ∷ ms) {s} {t} r h = elim (Option-cases (move m s)) [
  | inl stuck ↦ let e = rw stuck at h in cc
  | inr (s', moved) ↦ Reach-run ms (later m r moved) (rw moved at h)
]
