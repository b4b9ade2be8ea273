-- ===== src/Tasks.antt =====
-- planck-c/tasks.c: the count of outstanding tasks, which `main` waits for. Any number of threads
-- call `signal_task_started` and `signal_task_complete` in any order; what they and `main` do under
-- the mutex is cut into steps that interleave. The calls of libpthread do not fail.
pub mod Wakeup
mod Tests
use planck.Prelude.{
  ℕ, ◌+◌, ◌≡◌, ◌==◌, Bool, true, false, Option, none, some, List, [], ◌∷◌, if◌then◌else◌,
}
use planck.Prelude.Int.{ℤ, pos, negsuc, ◌+ℤ◌}

-- `signal_task_started` or `signal_task_complete`.
pub data Signal : Type 0 where
  task_started task_complete : Signal

-- Who holds `tasks_complete_lock`: nobody, `block_until_tasks_complete`, or a thread that is about
-- to count, to signal the condition or to unlock.
pub data Holder : Type 0 where
  nobody main_thread : Holder
  about_to_count about_to_signal about_to_unlock : Signal → Holder

-- Where `block_until_tasks_complete` is: before it locks, at the test of the loop, in
-- `pthread_cond_wait`, woken there but without the lock, or back in `main`.
pub data Blocking : Type 0 where
  before testing waiting woken returned : Blocking

-- `started` and `completed` count the calls; the program has no such variables.
pub record State : Type 0 where
  pub tasks_outstanding : ℤ
  pub holder : Holder
  pub blocking : Blocking
  pub started : ℕ
  pub completed : ℕ

abbrev pub initial : State
initial = record {
  tasks_outstanding = pos 0;
  holder = nobody;
  blocking = before;
  started = 0;
  completed = 0;
}

-- One step of a thread, or one of `main`.
pub data Move : Type 0 where
  lock : Signal → Move
  count signal unlock : Move
  main_lock main_test main_relock spurious_wakeup : Move

abbrev counted : Signal → State → State
counted task_started s = record s {
  tasks_outstanding = s.tasks_outstanding +ℤ pos 1;
  holder = about_to_signal task_started;
  started = s.started + 1;
}
counted task_complete s = record s {
  tasks_outstanding = s.tasks_outstanding +ℤ negsuc 0;
  holder = about_to_signal task_complete;
  completed = s.completed + 1;
}

abbrev wake : Blocking → Blocking
wake waiting = woken
wake b = b

abbrev pub is_zero : ℤ → Bool
is_zero (pos n) = n == 0
is_zero (negsuc n) = false

abbrev move_lock : Holder → Holder → Blocking → State → Option State
move_lock nobody holder blocking s = some (record s { holder = holder; blocking = blocking })
move_lock _ holder blocking s = none

abbrev move_count : Holder → State → Option State
move_count (about_to_count c) s = some (counted c s)
move_count _ s = none

abbrev move_signal : Holder → State → Option State
move_signal (about_to_signal c) s =
    some (record s { holder = about_to_unlock c; blocking = wake s.blocking })
move_signal _ s = none

abbrev move_unlock : Holder → State → Option State
move_unlock (about_to_unlock c) s = some (record s { holder = nobody })
move_unlock _ s = none

abbrev move_main_lock : Blocking → State → Option State
move_main_lock before s = move_lock s.holder main_thread testing s
move_main_lock _ s = none

-- The test of the loop, with the wait that gives the lock back, or the unlock and the return.
abbrev move_main_test : Blocking → State → Option State
move_main_test testing s = some (record s {
  holder = nobody;
  blocking = if is_zero s.tasks_outstanding then returned else waiting;
})
move_main_test _ s = none

abbrev move_main_relock : Blocking → State → Option State
move_main_relock woken s = move_lock s.holder main_thread testing s
move_main_relock _ s = none

abbrev move_spurious : Blocking → State → Option State
move_spurious waiting s = some (record s { blocking = woken })
move_spurious _ s = none

-- `none` where the step is not possible.
unfoldable pub move : Move → State → Option State
move (lock c) s = move_lock s.holder (about_to_count c) s.blocking s
move count s = move_count s.holder s
move signal s = move_signal s.holder s
move unlock s = move_unlock s.holder s
move main_lock s = move_main_lock s.blocking s
move main_test s = move_main_test s.blocking s
move main_relock s = move_main_relock s.blocking s
move spurious_wakeup s = move_spurious s.blocking s

abbrev after : Option State → (State → Option State) → Option State
after none f = none
after (some s) f = f s

unfoldable pub run : List Move → State → Option State
run [] s = some s
run (m ∷ ms) s = after (move m s) (λ s'. run ms s')

pub data Reach : State → Type 0 where
  start : Reach initial
  later : {s t : State} (m : Move) → Reach s → move m s ≡ some t → Reach t
