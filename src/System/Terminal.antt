-- ===== src/System/Terminal.antt =====
-- functions.c: the standard streams as ClojureScript reads and writes them, and the terminal's size.
pub mod Stdin
use planck.Memory.{memcpy, c_string}
use planck.Javascript.{Value, string}
use planck.Io.{get_contents}
use planck.Prelude.{
  ℕ, ◌+◌, Bool, Option, none, some, List, [], ◌∷◌, ◌++◌, Bytes, take, drop, length, replicate, ltb,
  if◌then◌else◌,
}

-- How many bytes are asked for; the buffer has one more.
abbrev pub asked_for : Bool → ℕ
asked_for is_tty = if is_tty then 1 else 1024

-- The buffer as a text.
abbrev as_text : Bytes → Option Bytes → Option (Option Bytes × Bytes)
as_text rest none = none
as_text rest (some buf) = some (some (c_string buf), rest)

-- What is returned, null as `some none`, and the rest of what stdin will deliver; `none` is a
-- write outside the buffer. (A read that fails delivers nothing here.)
abbrev pub read_from : Bytes → Bytes → Option (Option Bytes × Bytes)
read_from [] rest = some (none, rest)
read_from (c ∷ cs) rest = as_text rest (memcpy (replicate (1024 + 1) 0) 0 ((c ∷ cs) ++ 0 ∷ []))

unfoldable pub function_raw_read_stdin : Bool → Bytes → Option (Option Bytes × Bytes)
unfolding memcpy c_string
function_raw_read_stdin is_tty stdin =
    read_from (take (asked_for is_tty) stdin) (drop (asked_for is_tty) stdin)

-- `function_raw_write_stdout` and `function_raw_write_stderr`: what is printed.
unfoldable pub raw_written : List Value → Bytes
unfolding c_string
raw_written (string s ∷ []) = c_string s
raw_written _ = []

-- Rows and columns; the argument is `none` where `ioctl` fails, and null is `none`.
abbrev rows_and_columns : Option (ℕ × ℕ) → ℕ × ℕ
rows_and_columns none = (25, 80)
rows_and_columns (some size) = size

unfoldable pub function_get_term_size : Bool → Option (ℕ × ℕ) → Option (ℕ × ℕ)
function_get_term_size return_termsize ioctl =
    if return_termsize then some (rows_and_columns ioctl) else none

-- `function_read_file` for a path that fits into PATH_MAX: the text and the time of the file at the
-- path, whose bytes, size and `st_mtime` the first argument gives; null is `none`.
unfoldable pub function_read_file :
    (Bytes → Option ((ℕ × Bytes) × ℕ)) → List Value → Option (Bytes × ℕ)
unfolding c_string get_contents
function_read_file file (string path ∷ []) = text_and_time (file (c_string path))
  where
    text_of : Option Bytes → ℕ → Option (Bytes × ℕ)
    text_of none last_modified = none
    text_of (some contents) last_modified = some (c_string contents, last_modified)

    text_and_time : Option ((ℕ × Bytes) × ℕ) → Option (Bytes × ℕ)
    text_and_time none = none
    text_and_time (some (f, st_mtime)) = text_of (get_contents (some f)) st_mtime
function_read_file file _ = none
