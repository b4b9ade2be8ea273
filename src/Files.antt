-- ===== src/Files.antt =====
-- planck-c/file.c: the streams of stdio behind descriptors, which are the addresses of their FILE
-- structures; and the descriptors as text, in planck-c/functions.c. The readers and writers of
-- ICU are in Files.Readers.
pub mod Descriptor
pub mod Streams
pub mod Readers
pub mod Listing
pub mod Temporary
pub mod Cache
pub mod Info
mod Tests
mod MoreTests
use mathlib.Core.Option
use planck.Memory.{memcpy, c_string}
use planck.Text.Decimal.{digit, digits_from, decimal}
use planck.Prelude.{
  ℕ, ◌+◌, ◌-◌, ◌*◌, ◌%◌, ◌^◌, ◌<◌, ◌≡◌, ap, Bool, true, false, not, ◌&&◌, ◌||◌, Option, none, some,
  List, [], ◌∷◌, ◌++◌, Bytes, ltb, leb, ◌==◌, str_eq, if◌then◌else◌, length, take, drop, replicate,
}

-- The mode of `fopen`: "r", "w" or "a".
pub data Mode : Type 0 where
  reading writing appending : Mode

-- An open FILE: what was written to it and has not reached the file yet, and the end-of-file mark,
-- with which reads deliver nothing.
pub record Stream : Type 0 where
  pub path : Bytes
  pub mode : Mode
  pub offset : ℕ
  pub pending : Bytes
  pub at_eof : Bool

-- The files, and the open streams by their addresses.
pub record Store : Type 0 where
  pub files : Bytes → Option Bytes
  pub streams : ℕ → Option Stream

abbrev pub with_file : Bytes → Bytes → (Bytes → Option Bytes) → Bytes → Option Bytes
with_file path contents files p = if str_eq path p then some contents else files p

abbrev pub with_stream : ℕ → Option Stream → (ℕ → Option Stream) → ℕ → Option Stream
with_stream d stream streams e = if d == e then stream else streams e

abbrev pub or_empty : Option Bytes → Bytes
or_empty none = []
or_empty (some contents) = contents

-- A computation on the store; `none` is a use of a descriptor that no open stream has, which the
-- program does not survive or whose effect is not defined.
abbrev pub M : Type 0 → Type 0
M A = Store → Option (A × Store)

abbrev pub and_then : {A B : Type 0} → Option (A × Store) → (A → M B) → Option (B × Store)
and_then none f = none
and_then (some (a, s)) f = f a s

infixl 5 ◌>>=◌
abbrev pub ◌>>=◌ : {A B : Type 0} → M A → (A → M B) → M B
◌>>=◌ m f s = and_then (m s) f

pub and_then_lem :
    {A B : Type 0} {o : Option (A × Store)} {a : A} {s : Store} (f : A → M B)
    → o ≡ some (a, s)
    → and_then o f ≡ f a s
and_then_lem f e = ap (λ o'. and_then o' f) e

abbrev pub return : {A : Type 0} → A → M A
return a s = some (a, s)

-- What is written behind the end of a file leaves a gap of zeros.
unfoldable pub write_at : ℕ → Bytes → Bytes → Bytes
write_at offset bytes contents =
    take offset contents
    ++ (replicate (offset - length contents) 0 ++ (bytes ++ drop (offset + length bytes) contents))

abbrev pub reach : Mode → ℕ → Bytes → Bytes → Bytes
reach appending offset bytes contents = contents ++ bytes
reach _ offset bytes contents = write_at offset bytes contents

-- Without bytes there is no call of `write`.
abbrev pub put : Stream → Bytes → (Bytes → Option Bytes) → Bytes → Option Bytes
put stream [] files = files
put stream (c ∷ cs) files =
    with_file stream.path (reach stream.mode stream.offset (c ∷ cs) (or_empty (files stream.path)))
      files

-- `n` bytes of those that wait go to the file.
unfoldable pub drain : ℕ → Stream → (Bytes → Option Bytes) → Stream × (Bytes → Option Bytes)
unfolding write_at
drain n stream files =
    let bytes = take n stream.pending in
    (
      record stream { offset = stream.offset + length bytes; pending = drop n stream.pending },
      put stream bytes files,
    )

-- The C library: at what address the next FILE is, whether a file may be opened, and how much of
-- what waits `fwrite` passes on by itself. (Reads and writes that fail are left out.)
pub record Stdio : Type 0 where
  pub address : Store → ℕ
  pub may_open : Bytes → Mode → Bool
  pub passes_on : Stream → ℕ

abbrev pub opened : Bytes → Mode → Stream
opened path mode = record { path = path; mode = mode; offset = 0; pending = []; at_eof = false }

abbrev pub write_of : Bool → Mode
write_of true = appending
write_of false = writing

-- What a file keeps when it is opened for writing.
abbrev pub kept : Bool → Option Bytes → Bytes
kept true contents = or_empty contents
kept false contents = []

abbrev pub contents_opened : Mode → Option Bytes → Option Bytes
contents_opened reading contents = contents
contents_opened writing contents = some []
contents_opened appending contents = some (or_empty contents)

abbrev pub fopen_at : ℕ → Bytes → Mode → Option Bytes → M ℕ
fopen_at d path mode none s = some (0, s)
fopen_at d path mode (some contents) s = some (
  d,
  record {
    files = with_file path contents s.files;
    streams = with_stream d (some (opened path mode)) s.streams;
  },
)

abbrev pub on_open : {A : Type 0} → Option Stream → (Stream → M A) → M A
on_open none f s = none
on_open (some stream) f s = f stream s

abbrev pub on_stream : {A : Type 0} → ℕ → (Stream → M A) → M A
on_stream d f s = on_open (s.streams d) f s

abbrev keep : ℕ → Stream → Store → Store
keep d stream s = record s { streams = with_stream d (some stream) s.streams }

abbrev delivered : ℕ → ℕ → Stream → M Bytes
delivered d n stream s =
    let bytes = take n (drop stream.offset (or_empty (s.files stream.path))) in
    some (
      bytes,
      keep d
          (record stream { offset = stream.offset + length bytes; at_eof = ltb (length bytes) n })
          s,
    )

abbrev fread_from : Mode → ℕ → ℕ → Stream → M Bytes
fread_from reading d n stream s = if stream.at_eof then some ([], s) else delivered d n stream s
fread_from _ d n stream s = some ([], s)

abbrev drained : ℕ → ℕ → Stream → Store → Store
drained d n stream s =
    let (stream', files) = drain n stream s.files in
    record { files = files; streams = with_stream d (some stream') s.streams }

-- A stream that is open for reading takes nothing.
abbrev take_in : Mode → Bytes → Stream → Stream
take_in reading buf stream = stream
take_in _ buf stream = record stream { pending = stream.pending ++ buf }

module _ (c : Stdio) where
  -- The result 0 is the null pointer.
  unfoldable pub file_open : Bytes → Mode → M ℕ
  file_open path mode s =
      if c.may_open path mode
      then fopen_at (c.address s) path mode (contents_opened mode (s.files path)) s
      else some (0, s)

  unfoldable pub file_open_read : Bytes → M ℕ
  unfolding file_open
  file_open_read path = file_open path reading

  unfoldable pub file_open_write : Bytes → Bool → M ℕ
  unfolding file_open
  file_open_write path append = file_open path (write_of append)

  unfoldable pub file_write : ℕ → Bytes → M (Unit {0})
  unfolding drain
  file_write d buf = on_stream d λ stream s.
      let written = take_in stream.mode buf stream in
      some (tt, drained d (c.passes_on written) written s)

unfoldable pub file_read : ℕ → ℕ → M Bytes
file_read d buf_size = on_stream d λ stream. fread_from stream.mode d buf_size stream

unfoldable pub file_flush : ℕ → M (Unit {0})
unfolding drain
file_flush d = on_stream d λ stream s. some (tt, drained d (length stream.pending) stream s)

unfoldable pub file_close : ℕ → M (Unit {0})
unfolding drain
file_close d = on_stream d λ stream s. some (
  tt,
  record {
    files = (drain (length stream.pending) stream s.files).1;
    streams = with_stream d none s.streams;
  },
)

-- `descriptor_t` has 64 bits, and the block for its text has 21 bytes; `none` is a write behind it.
-- `sprintf` prints at most 20 digits for it.
unfoldable pub descriptor_int_to_str : ℕ → Option Bytes
unfolding decimal memcpy c_string
descriptor_int_to_str i = Option.map c_string (memcpy (replicate 21 0) 0 (decimal 20 i ++ 0 ∷ []))

abbrev space : ℕ → Bool
space c = c == b' ' || leb 9 c && leb c 13

-- A `long long`; what does not fit into it has no defined result. As a descriptor a negative number
-- is that number modulo 2^64.
abbrev signed : Bool → ℕ → Option ℕ
signed false n = if ltb n (2 ^ 63) then some n else none
signed true n = if leb n (2 ^ 63) then some ((2 ^ 64 - n) % 2 ^ 64) else none

abbrev behind_blanks : Bytes → Option ℕ
behind_blanks [] = some 0
behind_blanks (c ∷ cs) =
    if c == b'-'
    then signed true (digits_from 0 cs)
    else if c == b'+'
    then signed false (digits_from 0 cs)
    else signed false (digits_from 0 (c ∷ cs))

-- `atoll`: blanks, a sign, and digits; what has none is 0.
unfoldable pub descriptor_str_to_int : Bytes → Option ℕ
unfolding digits_from
descriptor_str_to_int [] = some 0
descriptor_str_to_int (c ∷ cs) =
    let rest = descriptor_str_to_int cs in if space c then rest else behind_blanks (c ∷ cs)
