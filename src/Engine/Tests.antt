-- ===== src/Engine/Tests.antt =====
-- Runs of engine.c.
use planck.Munge.{munge}
use planck.Engine.Value.{Objects, get_value}
use planck.Engine.Value.Walk.{here, along, get_value_lem}
use planck.Engine.Startup.{bootstrap, exits, evaluates, set_import_script}
use planck.Engine.Printing.{
  no_sender, discarding_sender, session, Printer, print_fn, print_err_fn, set_print_sender,
}
use planck.Engine.Printing.Routed.{
  Change, sets, installs, interrupts, change_all, printed_both, routed, routed_err, apply_lem,
}
use planck.Engine.Ready.{
  nobody, about_to_signal, State, block_lock, block_test, block_relock, signal_lock, set_ready,
  unlock, move, run, Reach, start,
}
use planck.Engine.Ready.Wakeup.{run-signalled, Reach-run}
use planck.Prelude.{
  ◌≡◌, refl, Bool, true, false, ◌||◌, not, none, some, List, [], ◌∷◌, ◌++◌, ◌≤◌, Bytes, codes,
  str_eq, arith, if◌then◌else◌,
}

-- Objects are the paths to them; there are `planck`, `planck.repl`, and what is in that.
abbrev is_object : Bytes → Bool
is_object path = str_eq path (codes ".planck") || str_eq path (codes ".planck.repl")

abbrev few_objects : Objects Bytes Bytes
few_objects = record {
  global = [];
  is_undefined = λ v. not (is_object v);
  to_object = λ v. if is_object v then some v else none;
  property = λ o name. o ++ b'.' ∷ name;
}

get_value_lem_example :
    get_value few_objects (codes "planck.repl") (codes "run-main")
    ≡ some (codes ".planck.repl.run_main")
unfolding munge str_eq
get_value_lem_example =
    get_value_lem few_objects (codes "planck") (codes "repl" ∷ []) (codes "run-main") (omega arith)
      (omega arith, tt) (along refl refl (along refl refl here))

-- A namespace that is not there ends at a null pointer.
missing : get_value few_objects (codes "planck.core") (codes "x") ≡ none
unfolding get_value str_eq
missing = refl

no_base :
    bootstrap (λ name. none) (λ name. none) none
    ≡ evaluates set_import_script
      ∷ exits (codes "The goog base JavaScript text could not be loaded\n")
      ∷ []
unfolding bootstrap
no_base = refl

abbrev printer : Printer
printer = record {
  cljs_sender = no_sender;
  print = print_fn;
  print_err = print_err_fn;
  keep_running = true;
  handles_sigint = false;
}

abbrev some_changes : List Change
some_changes = installs ∷ sets (session 3) ∷ interrupts ∷ sets no_sender ∷ []

apply_lem_example :
    printed_both (change_all some_changes (set_print_sender discarding_sender printer)) (codes "a")
    ≡ some (routed no_sender false (codes "a"), routed_err no_sender false (codes "a"))
apply_lem_example = apply_lem discarding_sender some_changes printer (codes "a")

-- One thread waits when the engine's is about to signal, and another comes afterwards.
abbrev before_signal : State
before_signal = record {
  engine_ready = true;
  holder = about_to_signal;
  waiting = 1;
  woken = 0;
  returned = 0;
  called = true;
}

abbrev at_end : State
at_end = record {
  engine_ready = true;
  holder = nobody;
  waiting = 0;
  woken = 1;
  returned = 1;
  called = true;
}

before_signal-Reach : Reach before_signal
unfolding run move
before_signal-Reach = Reach-run (block_lock ∷ block_test ∷ signal_lock ∷ set_ready ∷ []) start refl

run-signalled_example :
    (at_end.waiting ≤ 0)
    × (run (block_relock ∷ block_test ∷ []) at_end
        ≡ some (record at_end { woken = 0; returned = 2 }))
unfolding run move
run-signalled_example =
    run-signalled (unlock ∷ block_lock ∷ block_test ∷ []) 0 before_signal-Reach (omega arith) refl
      refl refl
