-- ===== src/Http.antt =====
-- planck-c/http.c: the callbacks that libcurl calls with the response, `write_string_callback` for
-- its body and `header_to_object_callback` for its headers.
pub mod Body
pub mod Header
pub mod Request
mod Tests
use planck.Memory.{memcpy, realloc}
use planck.Prelude.{
  ℕ, zero, suc, ◌+◌, ◌-◌, ◌*◌, Bool, true, false, not, ◌&&◌, ◌||◌, Option, none, some, List, [],
  ◌∷◌, ◌++◌, Bytes, codes, ◌==◌, ltb, leb, if◌then◌else◌, length, take, drop, replicate, get_elem?,
}

-- `offset` and `length` are `int`s, which are below 2 ^ 31.
abbrev pub int_limit : ℕ
int_limit = 2147483648

-- `memory` is the block that `data` points to, `length` bytes long.
pub record WriteState : Type 0 where
  pub offset : ℕ
  pub length : ℕ
  pub memory : Bytes

abbrev pub curl_max_write_size : ℕ
curl_max_write_size = 16384

unfoldable pub grown_length : ℕ → ℕ
grown_length length = length * 2 + curl_max_write_size + (if length == 0 then 1 else 0)

unfoldable pub grow : WriteState → ℕ → WriteState
grow s n =
    if ltb (s.length - s.offset) n
    then record s {
      memory = realloc s.memory (grown_length s.length);
      length = grown_length s.length;
    }
    else s

abbrev terminate : WriteState → Option Bytes → Option WriteState
terminate s none = none
terminate s (some memory) = some (record s { memory = memory })

abbrev append : WriteState → Bytes → Option Bytes → Option WriteState
append s buffer none = none
append s buffer (some memory) =
    let s' : WriteState = record s { memory = memory; offset = s.offset + length buffer } in
    terminate s' (memcpy s'.memory s'.offset (0 ∷ []))

-- `buffer` is the block of `size * nmemb` bytes. `none` is a write outside the allocated block, or
-- an `int` that overflows.
unfoldable pub write_string_callback : WriteState → Bytes → Option WriteState
write_string_callback s buffer =
    let s' = grow s (length buffer) in
    if leb int_limit s'.length then none else append s' buffer (memcpy s'.memory s'.offset buffer)

abbrev pub initial_state : WriteState
initial_state = record { offset = 0; length = 0; memory = [] }

-- Headers. `key_end` is `none` for -1. At the last byte the source reads one byte further; a byte
-- that is not a newline stands for it.
abbrev at_newline : Bytes → Bool
at_newline [] = false
at_newline (c ∷ cs) = c == b'\n'

abbrev or_else : Option ℕ → Option ℕ → Option ℕ
or_else none o = o
or_else (some k) o = some k

-- The first loop: the position of the first colon, and of the last line end.
unfoldable pub scan : ℕ → Option ℕ → ℕ → Bytes → Option ℕ × ℕ
scan i key_end val_end [] = (key_end, val_end)
scan i key_end val_end (c ∷ cs) =
    scan (i + 1) (or_else key_end (if c == b':' then some i else none))
      (if c == b'\r' && at_newline cs then i else val_end) cs

abbrev pub is_blank : Option ℕ → Bool
is_blank none = false
is_blank (some c) = c == b' ' || c == 0x09

unfoldable pub is_blank_at : Bytes → ℕ → Bool
is_blank_at buffer i = is_blank (get_elem? buffer i)

-- The second loop, with `rounds` of `i < val_end` left and `val_start` equal to `i`.
unfoldable pub skip_blanks : ℕ → Bytes → ℕ → ℕ
skip_blanks zero buffer i = i
skip_blanks (suc rounds) buffer i =
    let rest = skip_blanks rounds buffer (i + 1) in if is_blank_at buffer i then rest else i

-- The third loop, with `rounds` of `i > val_start` left, where `i` is `val_start + rounds` and
-- `val_end` is `i + 1`.
unfoldable pub drop_blanks : ℕ → Bytes → ℕ → ℕ
drop_blanks zero buffer val_start = val_start + 1
drop_blanks (suc rounds) buffer val_start =
    let rest = drop_blanks rounds buffer val_start in
    if is_blank_at buffer (val_start + suc rounds) then rest else val_start + suc rounds + 1

-- `JSObjectSetProperty` with a key and a value, or the early return without one. `fault` is the
-- loop from `val_end - 1` where `val_end` is 0, which wraps around.
pub data HeaderCall : Type 0 where
  ignored fault : HeaderCall
  set_property : Bytes → Bytes → HeaderCall

abbrev slice : Bytes → ℕ → ℕ → Bytes
slice buffer from to = take (to - from) (drop from buffer)

-- From the trimmed start on: if nothing is left the third loop makes no round.
unfoldable pub header_value : Bytes → ℕ → ℕ → Bytes
unfolding drop_blanks
header_value buffer val_start val_end =
    if ltb val_start val_end
    then slice buffer val_start (drop_blanks (val_end - val_start - 1) buffer val_start)
    else []

unfoldable pub header_of : Bytes → Option ℕ → ℕ → HeaderCall
unfolding header_value skip_blanks
header_of buffer none val_end = ignored
header_of buffer (some key_end) val_end =
    let first = key_end + 1 in
    if val_end == 0
    then fault
    else let val_start = skip_blanks (val_end - first) buffer first in
      set_property (take key_end buffer) (header_value buffer val_start val_end)

unfoldable pub header_to_object_callback : Bytes → HeaderCall
unfolding header_of scan
header_to_object_callback buffer =
    let (key_end, val_end) = scan 0 none (length buffer) buffer in header_of buffer key_end val_end
