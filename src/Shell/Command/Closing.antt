-- ===== src/Shell/Command/Closing.antt =====
-- shell.c: what a call returns, and which descriptors it has closed by then.
use planck.Memory.{c_string}
use planck.Shell.{Wait, exited, signaled, stopped, failed, child_status}
use planck.Shell.Pipes.{
  Poll, interrupted, poll_error, timeout, ready, serve, pipes_loop, start_streams, Streams, Piped,
  piped, waiting, crashed, process_child_pipes,
}
use planck.Shell.Streams.{AllFit, out_of, err_of, feeds, Result, process_child_pipes-Result}
use planck.Shell.Command.{
  End, in_read, in_write, out_read, out_write, err_read, err_write, after_pipes, wait_for_child,
  after_wait, in_parent, Ended, returned, still_waiting, system_call,
}
use planck.Prelude.{
  ℕ, ◌+◌, ◌≡◌, ◌⊎◌, inl, inr, refl, Bool, true, false, ◌&&◌, Option, none, some, List, [], ◌∷◌,
  Bytes, Bool-cases, Option-cases, ◌==◌, if◌then◌else◌, arith,
}
use planck.Prelude.Int.{ℤ, pos, negsuc}

-- The status that tells how the child ended: its exit code, 128 and the signal that ended it, or -1
-- where it was only stopped or could not be waited for.
abbrev pub status_of : Wait → ℤ
status_of (exited code) = pos code
status_of (signaled signal) = pos (128 + signal)
status_of stopped = negsuc 0
status_of failed = negsuc 0

-- Whether a call of `poll` fails.
abbrev pub poll_fails : List Poll → Bool
poll_fails [] = false
poll_fails (poll_error ∷ ps) = true
poll_fails (_ ∷ ps) = poll_fails ps

-- A result tells how the child ended and all that it wrote, each text up to its first zero; or its
-- status is -1 and a call of `poll` failed. A call that still waits does so for a stream that has
-- not ended.
abbrev pub Reports : List Poll → Wait → Bytes × Bool → Bytes × Bool → Ended → Type 0
Reports polls wait out err (returned r) =
    ((poll_fails polls ≡ true) × (r.status ≡ negsuc 0))
    ⊎ ((r.status ≡ status_of wait)
        × (r.stdout ≡ c_string out.0)
        × (r.stderr ≡ c_string err.0)
        × (out.1 ≡ true)
        × (err.1 ≡ true))
Reports polls wait out err still_waiting = out.1 && err.1 ≡ false
Reports polls wait out err _ = ⊥

-- The status -1 of the loop comes from `poll`.
abbrev Explained : List Poll → Piped → Type 0
Explained polls (piped (negsuc n) s) = poll_fails polls ≡ true
Explained polls _ = Unit

pipes_loop-Explained : (ps : List Poll) (s : Streams) → Explained ps (pipes_loop ps s)
unfolding pipes_loop
pipes_loop-Explained [] s = elim (Bool-cases (s.out_eof && s.err_eof)) [
  | inl ended ↦ rw ended tt
  | inr open_ ↦ rw open_ tt
]
pipes_loop-Explained (poll_error ∷ ps) s = elim (Bool-cases (s.out_eof && s.err_eof)) [
  | inl ended ↦ rw ended tt
  | inr open_ ↦ rw open_ refl
]
pipes_loop-Explained (interrupted ∷ ps) s = elim (Bool-cases (s.out_eof && s.err_eof)) [
  | inl ended ↦ rw ended tt
  | inr open_ ↦ rw open_ (pipes_loop-Explained ps s)
]
pipes_loop-Explained (timeout ∷ ps) s = elim (Bool-cases (s.out_eof && s.err_eof)) [
  | inl ended ↦ rw ended tt
  | inr open_ ↦ rw open_ (pipes_loop-Explained ps s)
]
pipes_loop-Explained (ready out err w ∷ ps) s = elim (Bool-cases (s.out_eof && s.err_eof)) [
  | inl ended ↦ rw ended tt
  | inr open_ ↦ elim (Option-cases (serve out err w s)) [
    | inl overrun ↦ rw (open_, overrun) tt
    | inr (s', served) ↦ rw (open_, served) (pipes_loop-Explained ps s')
  ]
]

piped-Reports :
    (in_str : Option Bytes) (input : Bytes) (polls : List Poll) (wait : Wait)
    (out err : Bytes × Bool) (p : Piped)
    → Result input out err p
    → Explained polls p
    → Reports polls wait out err (after_wait (after_pipes in_str wait p)).ended
unfolding child_status
piped-Reports in_str input polls wait out err (piped (pos n) s) (o, e, o', e', sent) why =
    inr (by_wait wait, o, e, o', e')
  where
    by_wait : (w : Wait) → child_status (pos n) w ≡ status_of w
    by_wait (exited code) = refl
    by_wait (signaled signal) = refl
    by_wait stopped = refl
    by_wait failed = refl
piped-Reports in_str input polls wait out err (piped (negsuc n) s) h why = inl (why, refl)
piped-Reports in_str input polls wait out err (waiting s) h why = h.0
piped-Reports in_str input polls wait out err crashed h why = absurd h

-- A synchronous call whose pipes and child could be made returns how the child ended, its exit code
-- or 128 and its signal, and all that it wrote on each stream, up to the first zero; the status is
-- -1 with other texts only where a call of `poll` failed. While it waits a stream has not ended. A
-- read gives no more than it was asked for.
pub system_call-Reports :
    (in_str : Option Bytes) (polls : List Poll) (wait : Wait)
    → AllFit out_of polls ([], false)
    → AllFit err_of polls ([], false)
    → Reports polls wait
        (feeds out_of polls ([], false))
        (feeds err_of polls ([], false))
        (system_call true true true in_parent false in_str polls wait).ended
unfolding system_call wait_for_child process_child_pipes
system_call-Reports in_str polls wait fits fits' =
    piped-Reports in_str _ polls wait _ _ (process_child_pipes in_str polls)
      (process_child_pipes-Result in_str polls fits fits')
      (pipes_loop-Explained polls (start_streams in_str))

abbrev number : End → ℕ
number in_read = 0
number in_write = 1
number out_read = 2
number out_write = 3
number err_read = 4
number err_write = 5

abbrev pub count : End → List End → ℕ
count e [] = 0
count e (x ∷ xs) = (if number e == number x then 1 else 0) + count e xs

-- Whether the loop has closed the child's input: there is an input string, and all is written.
abbrev pub input_done : Option Bytes → Streams → Bool
input_done none s = false
input_done (some in_str) s = elim (s.to_write) [ none ↦ true | some rest ↦ false ]

abbrev pub closings : Bool → End → ℕ
closings done out_write = if done then 2 else 1
closings done e = 1

closed_by_wait :
    (in_str : Option Bytes) (wait : Wait) (status : ℤ) (s : Streams) (e : End)
    → count e (after_wait (after_pipes in_str wait (piped status s))).closed
      ≡ closings (input_done in_str s) e
closed_by_wait none wait status s e = ground arith
closed_by_wait (some in_str) wait status s e = by_rest s.to_write
  where
    by_rest :
        (rest : Option Bytes)
        → count e
            (after_wait
              (after_pipes (some in_str) wait (piped status (record s { to_write = rest })))).closed
          ≡ closings (input_done (some in_str) (record s { to_write = rest })) e
    by_rest none = ground arith
    by_rest (some rest) = ground arith

-- When a synchronous call returns, each end of its three pipes has been closed once, but for the
-- child's input, which has been closed twice if the child has taken all of an input string.
pub system_call-closings :
    (in_str : Option Bytes) (polls : List Poll) (wait : Wait) (status : ℤ) (s : Streams) (e : End)
    → process_child_pipes in_str polls ≡ piped status s
    → count e (system_call true true true in_parent false in_str polls wait).closed
      ≡ closings (input_done in_str s) e
unfolding system_call wait_for_child
system_call-closings in_str polls wait status s e h = rw h (closed_by_wait in_str wait status s e)
