-- ===== src/Tasks/Tests.antt =====
-- Runs of tasks.c.
use planck.Tasks.{
  task_started, task_complete, main_thread, woken, testing, returned, State, initial, Move, lock,
  count, signal, unlock, main_lock, main_test, main_relock, spurious_wakeup, move, run, start,
}
use planck.Tasks.Wakeup.{move-returned, run-way_out, Reach-run}
use planck.Prelude.{ℕ, ◌≡◌, refl, some, List, [], ◌∷◌, ◌++◌}
use planck.Prelude.Int.{◌+ℤ◌}

abbrev a_signal : List Move
a_signal = count ∷ signal ∷ unlock ∷ []

-- One task starts, and completes while `main` waits.
abbrev one_task : List Move
one_task =
    lock task_started
    ∷ (a_signal
        ++ main_lock
          ∷ main_test
          ∷ spurious_wakeup
          ∷ main_relock
          ∷ main_test
          ∷ lock task_complete
          ∷ a_signal)

abbrev one_done : State
one_done = record initial { blocking = woken; started = 1; completed = 1 }

one_done_runs : run one_task initial ≡ some one_done
unfolding run move ◌+ℤ◌
one_done_runs = refl

abbrev at_the_test : State
at_the_test = record one_done { holder = main_thread; blocking = testing }

at_the_test_runs : run (one_task ++ main_relock ∷ []) initial ≡ some at_the_test
unfolding run move ◌+ℤ◌
at_the_test_runs = refl

run-way_out_example :
    run (main_relock ∷ main_test ∷ []) one_done ≡ some (record one_done { blocking = returned })
run-way_out_example = run-way_out (Reach-run one_task start one_done_runs) refl refl (λ e. cc)

abbrev out_of_it : State
out_of_it = record one_done { blocking = returned }

move-returned_example : ◌≡◌ {A = ℕ} 1 1
unfolding move
move-returned_example =
    move-returned {s = at_the_test} {t = out_of_it} main_test
      (Reach-run (one_task ++ main_relock ∷ []) start at_the_test_runs) refl (λ e. cc) refl
