-- ===== src/Engine/Ready.antt =====
-- engine.c: `block_until_engine_ready` and `signal_engine_ready`. The thread that starts the engine
-- signals once; any number of threads block, the main thread and those of socket sessions. What
-- they do under the mutex is cut into steps that interleave. The calls of libpthread do not fail.
pub mod Wakeup
use planck.Prelude.{
  ◌≡◌, ℕ, zero, suc, ◌+◌, Bool, true, false, Option, none, some, List, [], ◌∷◌, if◌then◌else◌,
}

-- Who holds `engine_init_lock`: nobody, a thread at the test of `block_until_engine_ready`, or the
-- thread of the engine, about to set `engine_ready`, to signal the condition or to unlock.
pub data Holder : Type 0 where
  nobody testing : Holder
  about_to_set about_to_signal about_to_unlock : Holder

-- How many threads are in `pthread_cond_wait`, woken there but without the lock, or back from
-- `block_until_engine_ready`; and whether the thread of the engine has called `signal_engine_ready`.
pub record State : Type 0 where
  pub engine_ready : Bool
  pub holder : Holder
  pub waiting : ℕ
  pub woken : ℕ
  pub returned : ℕ
  pub called : Bool

abbrev pub initial : State
initial = record {
  engine_ready = false;
  holder = nobody;
  waiting = 0;
  woken = 0;
  returned = 0;
  called = false;
}

-- One step of a thread that blocks, of the engine's, or of the library.
pub data Move : Type 0 where
  block_lock block_test block_relock : Move
  signal_lock set_ready signal unlock : Move
  spurious_wakeup : Move

abbrev lock_for : Holder → Holder → State → Option State
lock_for nobody holder s = some (record s { holder = holder })
lock_for _ holder s = none

-- The test of the loop: the unlock and the return, or the wait, which gives the lock back.
abbrev tested : Bool → State → State
tested true s = record s { holder = nobody; returned = s.returned + 1 }
tested false s = record s { holder = nobody; waiting = s.waiting + 1 }

abbrev move_test : Holder → State → Option State
move_test testing s = some (tested s.engine_ready s)
move_test _ s = none

abbrev move_relock : ℕ → State → Option State
move_relock zero s = none
move_relock (suc n) s = lock_for s.holder testing (record s { woken = n })

-- Its thread calls `signal_engine_ready` once.
abbrev move_signal_lock : Bool → State → Option State
move_signal_lock true s = none
move_signal_lock false s = lock_for s.holder about_to_set (record s { called = true })

abbrev move_set : Holder → State → Option State
move_set about_to_set s = some (record s { engine_ready = true; holder = about_to_signal })
move_set _ s = none

-- `pthread_cond_signal` wakes one of the threads that wait.
abbrev wake_one : ℕ → State → State
wake_one zero s = s
wake_one (suc n) s = record s { waiting = n; woken = s.woken + 1 }

abbrev move_signal : Holder → State → Option State
move_signal about_to_signal s = some (wake_one s.waiting (record s { holder = about_to_unlock }))
move_signal _ s = none

abbrev move_unlock : Holder → State → Option State
move_unlock about_to_unlock s = some (record s { holder = nobody })
move_unlock _ s = none

abbrev move_spurious : ℕ → State → Option State
move_spurious zero s = none
move_spurious (suc n) s = some (record s { waiting = n; woken = s.woken + 1 })

-- `none` where the step is not possible.
unfoldable pub move : Move → State → Option State
move block_lock s = lock_for s.holder testing s
move block_test s = move_test s.holder s
move block_relock s = move_relock s.woken s
move signal_lock s = move_signal_lock s.called s
move set_ready s = move_set s.holder s
move signal s = move_signal s.holder s
move unlock s = move_unlock s.holder s
move spurious_wakeup s = move_spurious s.waiting s

abbrev after : Option State → (State → Option State) → Option State
after none f = none
after (some s) f = f s

unfoldable pub run : List Move → State → Option State
run [] s = some s
run (m ∷ ms) s = after (move m s) (λ s'. run ms s')

pub data Reach : State → Type 0 where
  start : Reach initial
  later : {s t : State} (m : Move) → Reach s → move m s ≡ some t → Reach t
