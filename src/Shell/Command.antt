-- ===== src/Shell/Command.antt =====
-- shell.c: `wait_for_child`, `system_call` and `function_shellexec`: the three pipes and their
-- descriptors, the child, and the task of a command that runs in a thread of its own.
pub mod Closing
use planck.Prelude.{
  ℕ, ◌+◌, Bool, true, false, not, Option, none, some, List, [], ◌∷◌, ◌++◌, Bytes, ◌==◌,
  if◌then◌else◌,
}
use planck.Prelude.Int.{ℤ, pos, negsuc}
use planck.Shell.{Value, cmd, env, Wait, child_status, Errno, exit_code}
use planck.Shell.Pipes.{Poll, Streams, Piped, piped, waiting, crashed, process_child_pipes, text_of}

-- The ends of the pipes `in`, `out` and `err`. The parent reads from `in` and `err` and writes to
-- `out`.
pub data End : Type 0 where
  in_read in_write out_read out_write err_read err_write : End

-- `struct SystemResult`.
pub record SystemResult : Type 0 where
  pub status : ℤ
  pub stdout : Bytes
  pub stderr : Bytes

-- What `wait_for_child` leaves, with the ends it has closed, in order. A loop that still waits, or
-- a write outside a buffer, leaves nothing.
pub record Waited : Type 0 where
  pub result : SystemResult
  pub closed : List End

-- The input is closed in the loop once all of it is written.
abbrev closed_in_loop : Option Bytes → Streams → List End
closed_in_loop none s = []
closed_in_loop (some in_str) s = elim (s.to_write) [ none ↦ out_write ∷ [] | some rest ↦ [] ]

abbrev after_pipes : Option Bytes → Wait → Piped → Option Waited
after_pipes in_str wait (piped status s) = some (record {
  result = record {
    status = child_status status wait;
    stdout = text_of s.out;
    stderr = text_of s.err;
  };
  closed = closed_in_loop in_str s ++ err_read ∷ in_read ∷ out_write ∷ [];
})
after_pipes in_str wait (waiting s) = none
after_pipes in_str wait crashed = none

-- The part of `wait_for_child` that is common to both kinds of calls.
unfoldable pub wait_for_child : Option Bytes → List Poll → Wait → Option Waited
wait_for_child in_str polls wait = after_pipes in_str wait (process_child_pipes in_str polls)

-- What the environment does: which calls of `pipe` succeed; `fork` fails, or goes on in the parent
-- or in the child, where `chdir` may fail, the command may run, or may not.
pub data Fork : Type 0 where
  fork_failed in_parent : Fork
  in_child : Bool → Option Errno → Fork

-- How a call ends: with a result, as null with a thread that waits for the child, or in the child,
-- with an exit code or as the command.
pub data Ended : Type 0 where
  returned : SystemResult → Ended
  null_with_thread : Ended
  still_waiting : Ended
  exited : ℕ → Ended
  replaced : Ended

pub record Called : Type 0 where
  pub ended : Ended
  pub opened : List End
  pub closed : List End
  pub tasks_started : ℕ

-- EX_OSERR.
abbrev pub os_error : SystemResult
os_error = record { status = pos 71; stdout = []; stderr = [] }

abbrev stopped : Ended → List End → List End → Called
stopped e opened closed = record { ended = e; opened = opened; closed = closed; tasks_started = 0 }

abbrev pub all_ends : List End
all_ends = in_read ∷ in_write ∷ out_read ∷ out_write ∷ err_read ∷ err_write ∷ []

-- `preopen` closes the ends it has duplicated.
abbrev child_closed : List End
child_closed = out_read ∷ err_write ∷ in_write ∷ out_write ∷ err_read ∷ in_read ∷ []

abbrev run_child : Option Errno → Ended
run_child none = replaced
run_child (some e) = exited (exit_code e)

abbrev pub parent_closed : List End
parent_closed = out_read ∷ err_write ∷ in_write ∷ []

abbrev after_wait : Option Waited → Called
after_wait none = stopped still_waiting all_ends parent_closed
after_wait (some w) = stopped (returned w.result) all_ends (parent_closed ++ w.closed)

abbrev in_process : Fork → Bool → Option Waited → Called
in_process fork_failed async waited = stopped (returned os_error) all_ends []
in_process (in_child false e) async waited = stopped (exited 1) all_ends []
in_process (in_child true e) async waited = stopped (run_child e) all_ends child_closed
in_process in_parent false waited = after_wait waited
in_process in_parent true waited = record (stopped null_with_thread all_ends parent_closed) {
  tasks_started = 1;
}

-- `in_child` tells whether `chdir` succeeds, which it does where there is no directory to go to.
unfoldable pub system_call :
    Bool → Bool → Bool → Fork → Bool → Option Bytes → List Poll → Wait → Called
system_call in_pipe out_pipe err_pipe fork async in_str polls wait =
    if not in_pipe
    then stopped (returned os_error) [] []
    else if not out_pipe
    then stopped (returned os_error) (in_read ∷ in_write ∷ []) []
    else if not err_pipe
    then stopped (returned os_error) (in_read ∷ in_write ∷ out_read ∷ out_write ∷ []) []
    else in_process fork async (wait_for_child in_str polls wait)

abbrev with_task : Option Waited → Option (Waited × ℕ)
with_task none = none
with_task (some w) = some (w, 1)

-- The thread of an asynchronous call: what it closes, and how many tasks it signals as complete.
unfoldable pub thread_proc : Option Bytes → List Poll → Wait → Option (Waited × ℕ)
thread_proc in_str polls wait = with_task (wait_for_child in_str polls wait)
