-- ===== src/Shell/Pipes.antt =====
-- planck-c/shell.c: `read_child_pipe` and `process_child_pipes`.
use planck.Memory.{memcpy, realloc, c_string}
use planck.Prelude.{
  ℕ, ◌+◌, ◌-◌, ◌%◌, Bool, true, false, not, ◌&&◌, Option, none, some, List, [], ◌∷◌, ◌++◌, Bytes,
  ◌==◌, if◌then◌else◌, length, take, drop, replicate,
}
use planck.Prelude.Int.{ℤ, pos, negsuc}

abbrev pub block_size : ℕ
block_size = 4096

-- `*buf_p` and `*total_p`; `none` is a null pointer.
pub record Capture : Type 0 where
  pub buf : Option Bytes
  pub total : ℕ

abbrev pub no_capture : Capture
no_capture = record { buf = none; total = 0 }

-- What `read` delivers: some bytes, the end, or an error.
pub data Delivery : Type 0 where
  bytes : Bytes → Delivery
  at_end read_error : Delivery

-- The capture, and whether the result is 0. `overrun` is a write outside the buffer.
pub data Received : Type 0 where
  received : Capture → Bool → Received
  overrun : Received

-- A new buffer has no known bytes; 1 stands for them.
abbrev pub buffer : Capture → Bytes
buffer c = elim (c.buf) [ none ↦ replicate block_size 1 | some b ↦ b ]

abbrev pub start_total : Capture → ℕ
start_total c = elim (c.buf) [ none ↦ 0 | some b ↦ c.total ]

abbrev pub num_to_read : ℕ → ℕ
num_to_read total = block_size - total % block_size

abbrev pub stored : ℕ → ℕ → Option Bytes → Received
stored total num_read none = overrun
stored total num_read (some b) =
    let buf =
      if num_read == num_to_read total then realloc b (total + num_read + block_size) else b in
    received (record { buf = some buf; total = total + num_read }) false

abbrev pub ended : ℕ → Option Bytes → Received
ended total none = overrun
ended total (some b) = received (record { buf = some b; total = total }) true

unfoldable pub read_child_pipe : Delivery → Capture → Received
read_child_pipe (bytes read) c =
    let total = start_total c in stored total (length read) (memcpy (buffer c) total read)
read_child_pipe at_end c =
    let total = start_total c in ended total (memcpy (buffer c) total (0 ∷ []))
read_child_pipe read_error c =
    received (record { buf = some (buffer c); total = start_total c }) false

-- One return of `poll`: -1 with EINTR or another error, 0, or the events of the three
-- descriptors: what can be read of the child's output and errors, and the result of `write`, where
-- `none` inside is -1. A descriptor that is -1 has no events. (`write` is given 4096 bytes at most.)
pub data Poll : Type 0 where
  interrupted poll_error timeout : Poll
  ready : Option Delivery → Option Delivery → Option (Option ℕ) → Poll

-- The variables of `process_child_pipes`. `to_write` holds the bytes that remain, and `written`
-- those that the child got.
pub record Streams : Type 0 where
  pub out : Capture
  pub err : Capture
  pub out_eof : Bool
  pub err_eof : Bool
  pub to_write : Option Bytes
  pub written : Bytes

unfoldable pub start_streams : Option Bytes → Streams
start_streams in_str = record {
  out = no_capture;
  err = no_capture;
  out_eof = false;
  err_eof = false;
  to_write = elim in_str [ none ↦ none | some s ↦ some (c_string s) ];
  written = [];
}

-- An event counts only while its descriptor is watched.
abbrev pub read_if : Bool → Option Delivery → Capture → Received
read_if eof none c = received c eof
read_if true (some d) c = received c true
read_if false (some d) c = read_child_pipe d c

abbrev pub write_in : Option (Option ℕ) → Streams → Option Bytes → Streams
write_in none s to_write = s
write_in (some r) s none = s
write_in (some none) s (some t) = s
write_in (some (some n)) s (some t) =
    let s' : Streams = record s { written = s.written ++ take n t } in
    if not (n == length t)
    then record s' { to_write = some (drop n t) }
    else record s' { to_write = none }

abbrev pub captured : Streams → Capture → Bool → Received → Option Streams
captured s out eof overrun = none
captured s out eof (received err err_eof) =
    some (record s { out = out; out_eof = eof; err = err; err_eof = err_eof })

abbrev pub read_err : Option Delivery → Streams → Received → Option Streams
read_err d s overrun = none
read_err d s (received out eof) = captured s out eof (read_if s.err_eof d s.err)

abbrev pub and_write : Option (Option ℕ) → Option Streams → Option Streams
and_write w none = none
and_write w (some s) = some (write_in w s s.to_write)

-- One round with events; `none` is a write outside a buffer.
unfoldable pub serve :
    Option Delivery → Option Delivery → Option (Option ℕ) → Streams → Option Streams
serve out err w s = and_write w (read_err err s (read_if s.out_eof out s.out))

-- The end of the loop, with the status that it leaves.
pub data Piped : Type 0 where
  piped : ℤ → Streams → Piped
  waiting : Streams → Piped
  crashed : Piped

abbrev pub go_on : Option Streams → (Streams → Piped) → Piped
go_on none loop = crashed
go_on (some s) loop = loop s

-- The loop on the successive returns of `poll`; `waiting` is a loop that is left with no more.
unfoldable pub pipes_loop : List Poll → Streams → Piped
pipes_loop [] s = if s.out_eof && s.err_eof then piped (pos 0) s else waiting s
pipes_loop (p ∷ ps) s =
    let next : Piped = elim p [
      | interrupted ↦ pipes_loop ps s
      | timeout ↦ pipes_loop ps s
      | poll_error ↦ piped (negsuc 0) s
      | ready out err w ↦ go_on (serve out err w s) (pipes_loop ps)
    ] in
    if s.out_eof && s.err_eof then piped (pos 0) s else next

unfoldable pub process_child_pipes : Option Bytes → List Poll → Piped
process_child_pipes in_str polls = pipes_loop polls (start_streams in_str)

-- The result's text of a stream.
unfoldable pub text_of : Capture → Bytes
text_of c = elim (c.buf) [ none ↦ [] | some b ↦ c_string b ]
