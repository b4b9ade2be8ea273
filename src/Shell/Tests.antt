-- ===== src/Shell/Tests.antt =====
-- Runs of shell.c.
use planck.Text.{runs}
use planck.Shell.{e_acces, e_noent, e_other}
use planck.Shell.Search.{Exec, runs_program, returns, planck_execvpe, split_path}
use planck.Shell.Search.Path.{AllDirs, split_path-AllDirs}
use planck.Shell.Search.Found.{pass, deny, none_left, no_file, denied, planck_execvpe_lem}
use planck.Prelude.{
  ◌≡◌, refl, true, false, some, none, codes, Bytes, str_eq, if◌then◌else◌, List, [], ◌∷◌, ◌++◌,
  replicate, arith,
}
use planck.Prelude.Int.{pos}
use planck.Memory.{c_string, memcpy, realloc}
use planck.Shell.{exited}
use planck.Shell.Pipes.{
  Streams, piped, pipes_loop, serve, read_child_pipe, start_streams, Poll, ready, interrupted,
  timeout, bytes, at_end, process_child_pipes,
}
use planck.Shell.Command.{system_call, in_parent, out_write}
use planck.Shell.Command.Closing.{Reports, count, system_call-Reports, system_call-closings}
use planck.Shell.Streams.{Result, feeds, out_of, err_of, process_child_pipes-Result}

-- A child that reads "in" in two pieces, prints "ab" in two pieces and an error.
abbrev some_polls : List Poll
some_polls =
    ready (some (bytes (codes "a"))) none (some (some 1))
    ∷ interrupted
    ∷ ready (some (bytes (codes "b"))) (some (bytes (codes "e"))) (some (some 1))
    ∷ timeout
    ∷ ready (some at_end) (some at_end) none
    ∷ []

process_child_pipes-Result_example :
    Result
      (codes "in")
      (feeds out_of some_polls ([], false))
      (feeds err_of some_polls ([], false))
      (process_child_pipes (some (codes "in")) some_polls)
unfolding c_string
process_child_pipes-Result_example =
    process_child_pipes-Result (some (codes "in")) some_polls (omega arith) (omega arith)

abbrev the_end : Streams
the_end = record {
  out = record { buf = some (codes "ab" ++ 0 ∷ replicate 4093 1); total = 2 };
  err = record { buf = some (codes "e" ++ 0 ∷ replicate 4094 1); total = 1 };
  out_eof = true;
  err_eof = true;
  to_write = none;
  written = codes "in";
}

pipes_run : process_child_pipes (some (codes "in")) some_polls ≡ piped (pos 0) the_end
unfolding process_child_pipes pipes_loop serve read_child_pipe start_streams c_string memcpy realloc
pipes_run = refl

system_call-Reports_example :
    Reports some_polls
      (exited 3)
      (feeds out_of some_polls ([], false))
      (feeds err_of some_polls ([], false))
      (system_call true true true in_parent false (some (codes "in")) some_polls (exited 3)).ended
system_call-Reports_example =
    system_call-Reports (some (codes "in")) some_polls (exited 3) (omega arith) (omega arith)

-- The child has taken its input, whose descriptor is closed twice.
system_call-closings_example :
    count out_write
      (system_call true true true in_parent false (some (codes "in")) some_polls (exited 3)).closed
    ≡ 2
system_call-closings_example =
    system_call-closings (some (codes "in")) some_polls (exited 3) (pos 0) the_end out_write
      pipes_run

-- Nothing in ./ and /bin, and a program in /usr/bin, which execution is denied of in /sbin.
abbrev some_programs : Bytes → Exec
some_programs p =
    if str_eq p (codes "/usr/bin/ls")
    then runs_program p
    else if str_eq p (codes "/sbin/ls")
    then returns e_acces
    else returns e_noent

planck_execvpe_lem_example :
    planck_execvpe some_programs (codes "ls") (some (codes ":/sbin/:/usr/bin")) e_other
    ≡ runs_program (codes "/usr/bin/ls")
unfolding runs str_eq
planck_execvpe_lem_example =
    planck_execvpe_lem some_programs (codes "ls") (some (codes ":/sbin/:/usr/bin")) e_other
      (codes "/usr/bin/") [] refl refl
      (pass (no_file refl) (deny (denied (omega arith) refl) none_left)) (omega arith) refl

split_path-AllDirs_example :
    AllDirs
      ([] ∷ codes "/sbin/" ∷ codes "/usr/bin" ∷ [])
      (codes "./" ∷ codes "/sbin/" ∷ codes "/usr/bin/" ∷ [])
unfolding runs split_path
split_path-AllDirs_example = split_path-AllDirs (codes ":/sbin/:/usr/bin")
