-- ===== src/Files/Tests.antt =====
-- Runs of file.c and of the stream functions of functions.c.
use planck.Memory.{c_string}
use planck.Javascript.{Value, Element, finite, string, array, num, str, of_byte}
use planck.Files.{
  appending, Stream, with_file, Store, Stdio, descriptor_int_to_str, descriptor_str_to_int, kept,
}
use planck.Files.Descriptor.{descriptor_str_to_int-int_to_str}
use planck.Files.Streams.{returned_null, complaints, function_file_output_stream_write}
use planck.Files.Streams.Writing.{Holds}
use planck.Files.Streams.Elements.{Filled, function_file_output_stream_write_lem}
use planck.Files.Streams.Written.{Gives, write_session}
use planck.Files.Streams.Written
use planck.Files.Streams.Delivered.{AllShort, read_session}
use planck.Files.Streams.RoundTrip.{read_session-write}
use planck.Files.Readers.{Units, Ustdio}
use planck.Files.Readers.Follow.{IsUstdio, Event, grows, reads, growth, follow, follow_lem}
use planck.Prelude.{
  ℕ, ◌-◌, ◌≡◌, refl, Bool, true, false, Option, none, some, List, [], ◌∷◌, ◌++◌, Bytes, codes, ltb,
  ◌==◌, arith, length, length-replicate, map, replicate, take, drop, if◌then◌else◌, str_eq,
}
use planck.Prelude.Int.{pos}

prints : descriptor_int_to_str 4096 ≡ some (codes "4096")
unfolding descriptor_int_to_str
prints = refl

reads_back : descriptor_str_to_int (codes " +17x") ≡ some 17
unfolding descriptor_str_to_int
reads_back = refl

descriptor_str_to_int-int_to_str_example :
    (s : Bytes) × (descriptor_int_to_str 4096 ≡ some s)
    × (descriptor_str_to_int (c_string s) ≡ some 4096)
descriptor_str_to_int-int_to_str_example = descriptor_str_to_int-int_to_str 4096 (omega arith)

-- Three bytes at most wait in a stream.
abbrev small_buffer : Stdio
small_buffer = record {
  address = λ s. 4096;
  may_open = λ path mode. true;
  passes_on = λ stream. length stream.pending - 3;
}

abbrev zeroed : ℕ → Option Bytes
zeroed n = some (replicate n 0)

zeroed-Gives : Gives zeroed
zeroed-Gives n = (replicate n 0, refl, length-replicate {A = ℕ} n 0)

abbrev before : Store
before = record {
  files = λ p. if str_eq p (codes "log") then some (codes "ab") else none;
  streams = λ d. none;
}

abbrev arrays : List Bytes
arrays = codes "cdefg" ∷ [] ∷ codes "hi" ∷ []

read_session-write_example :
    (v : Value) × (written : Store) × (read_from : Store) × (ess : List (List Element))
    × (write_session small_buffer zeroed (codes "log") true arrays before ≡ some (v, written))
    × (read_session small_buffer 2 (codes "log") written ≡ some (ess, read_from))
    × (Written.joined ess
        ≡ map of_byte (kept true (before.files (c_string (codes "log"))) ++ Written.joined arrays))
    × AllShort ess
    × ((p : Bytes)
        → read_from.files p
          ≡ with_file
              (c_string (codes "log"))
              (kept true (before.files (c_string (codes "log"))) ++ Written.joined arrays)
              before.files
              p)
unfolding c_string str_eq
read_session-write_example =
    read_session-write small_buffer zeroed (codes "log") true arrays 1 before zeroed-Gives
      (omega arith) refl refl (λ t. omega arith) (omega arith)

abbrev open_log : Stream
open_log = record {
  path = codes "log";
  mode = appending;
  offset = 0;
  pending = codes "c";
  at_eof = false;
}

abbrev with_log : Store
with_log = record before { streams = λ d. if d == 7 then some open_log else none }

log-Holds : Holds 7 (codes "log") (codes "abc") before.files with_log
unfolding str_eq
log-Holds = record {
  stream = open_log;
  in_file = codes "ab";
  is_open = refl;
  at_path = refl;
  at_end = tt;
  reached = refl;
  together = refl;
  others = λ p e. refl;
}

-- 300 is no byte.
abbrev elements : List Element
elements = of_byte 1 ∷ of_byte 300 ∷ str (codes "x") ∷ num (finite (pos 254) true) ∷ []

function_file_output_stream_write_lem_example :
    (buf : Bytes) × (s' : Store) × (function_file_output_stream_write small_buffer zeroed
        (string (codes "7") ∷ array elements ∷ [])
        with_log
      ≡ some (returned_null (complaints elements), s'))
    × Holds 7 (codes "log") (codes "abc" ++ buf) before.files s'
    × Filled elements (replicate 4 0) buf
unfolding descriptor_str_to_int c_string
function_file_output_stream_write_lem_example =
    function_file_output_stream_write_lem small_buffer zeroed (codes "7") elements log-Holds refl
      refl refl

-- A single stream, by the text ahead of it and its mark.
abbrev one_stream : Ustdio (Units × Bool)
one_stream = record {
  u_fopen = λ path mode encoding s. (7, s);
  u_file_read = λ d n s. (take n s.0, (drop n s.0, ltb (length s.0) n));
  u_feof = λ d s. s.1;
  clearerr = λ d s. (s.0, false);
  u_file_write = λ d units s. s;
  u_fflush = λ d s. s;
  u_fclose = λ d s. s;
}

abbrev one_grows : Units → Units × Bool → Units × Bool
one_grows t s = (s.0 ++ t, s.1)

one_stream-IsUstdio : IsUstdio one_stream 7 (λ s. s.0) one_grows
one_stream-IsUstdio = record {
  read-ahead = λ n s e. refl;
  ahead-read = λ n s e. refl;
  ahead-clearerr = λ s. refl;
  feof-clearerr = λ s. refl;
  ahead-grow = λ t s. refl;
  feof-grow = λ t s. refl;
}

abbrev events : List Event
events = reads ∷ reads ∷ grows (codes "de") ∷ reads ∷ grows (codes "f") ∷ []

follow_lem_example :
    (s' : Units × Bool) × (follow one_stream one_grows
        (codes "7")
        (events ++ replicate 1 reads)
        (codes "abc", false)
      ≡ some (codes "abc" ++ growth events, s'))
unfolding descriptor_str_to_int c_string
follow_lem_example =
    follow_lem one_stream one_grows 7 (λ s. s.0) one_stream-IsUstdio (codes "7") refl events 1
      (codes "abc", false) refl (omega arith)
