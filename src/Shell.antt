-- ===== src/Shell.antt =====
-- planck-c/shell.c: commands run in a child process. The pipes, `poll`, `waitpid` and `execve` are
-- arguments: what they deliver, round by round.
pub mod Pipes
pub mod Capture
pub mod Streams
pub mod Command
pub mod Search
mod Tests
use planck.Prelude.{
  ℕ, ◌+◌, Bool, true, false, not, Option, none, some, List, [], ◌∷◌, ◌++◌, Bytes, codes, ◌==◌,
  if◌then◌else◌, map,
}
use planck.Prelude.Int.{ℤ, pos, negsuc}

-- A JavaScript value, as `cmd` tells it: a string, or of another type.
pub data Value : Type 0 where
  string : Bytes → Value
  other : Value

abbrev pub onto_command : Value → Option (List Bytes) → Option (List Bytes)
onto_command other rest = none
onto_command (string s) none = none
onto_command (string s) (some rest) = some (s ∷ rest)

-- The loop of `cmd`; what was copied is freed at the first value that is no string.
unfoldable pub strings : List Value → Option (List Bytes)
strings [] = some []
strings (v ∷ vs) = onto_command v (strings vs)

-- The argument vector, without its null pointer.
unfoldable pub cmd : List Value → Option (List Bytes)
cmd [] = none
cmd (v ∷ vs) = strings (v ∷ vs)

-- The environment: each entry has room for key, value, `=` and the zero.
unfoldable pub env : List (Bytes × Bytes) → Option (List Bytes)
env [] = none
env (kv ∷ kvs) = some (map (λ (p : Bytes × Bytes). p.0 ++ b'=' ∷ p.1) (kv ∷ kvs))

-- `waitpid` with the status as the macros of <sys/wait.h> tell it; `failed` is another pid.
pub data Wait : Type 0 where
  exited signaled : ℕ → Wait
  stopped failed : Wait

-- The status of `wait_for_child`, from the one that `process_child_pipes` leaves.
unfoldable pub child_status : ℤ → Wait → ℤ
child_status (negsuc n) wait = negsuc 0
child_status (pos n) (exited code) = pos code
child_status (pos n) (signaled signal) = pos (128 + signal)
child_status (pos n) stopped = negsuc 0
child_status (pos n) failed = negsuc 0

-- What `errno` says after a call that replaces the process failed.
pub data Errno : Type 0 where
  e_acces e_perm e_noent e_notdir e_nametoolong e_other : Errno

-- The child's exit code, where the command cannot be run.
unfoldable pub exit_code : Errno → ℕ
exit_code e_acces = 126
exit_code e_perm = 126
exit_code e_noent = 127
exit_code _ = 1
