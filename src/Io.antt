-- ===== src/Io.antt =====
-- planck-c/io.c: whole files and streams, directories and copies. The system calls are arguments:
-- what the reads deliver, how much a write takes, how a directory is made.
pub mod Stream
pub mod Write
pub mod Directories
pub mod Copy
mod Tests
use planck.Memory.{memcpy, realloc}
use planck.Prelude.{
  ℕ, zero, suc, ◌+◌, ◌-◌, ◌*◌, Bool, true, false, not, Option, none, some, List, [], ◌∷◌, ◌++◌,
  Bytes, codes, ◌==◌, ltb, leb, if◌then◌else◌, length, take, drop, replicate,
}

abbrev pub chunk_size : ℕ
chunk_size = 1024

-- What the calls of `fread` deliver: some bytes, and then neither `feof` nor `ferror`, or one.
pub data Freads : Type 0 where
  more : Bytes → Freads → Freads
  eof : Bytes → Freads
  error : Bytes → Freads

-- `len` is an `int`, which is below 2 ^ 31.
abbrev pub int_limit : ℕ
int_limit = 2147483648

-- `len`, `buf` and `offset` of `read_all`.
pub record Buffer : Type 0 where
  pub len : ℕ
  pub buf : Bytes
  pub offset : ℕ

unfoldable pub make_room : Buffer → Buffer
make_room b =
    if ltb (b.len - b.offset) chunk_size
    then record b { len = 2 * b.len + chunk_size; buf = realloc b.buf (2 * b.len + chunk_size) }
    else b

abbrev received : Buffer → Bytes → Option Bytes → Option Buffer
received b bytes none = none
received b bytes (some buf) = some (record b { buf = buf; offset = b.offset + length bytes })

-- One round up to the tests; `none` is a write outside the block, or a `len` that overflows.
unfoldable pub fread_into : Bytes → Buffer → Option Buffer
fread_into bytes b =
    let b' = make_room b in
    if leb int_limit b'.len then none else received b' bytes (memcpy b'.buf b'.offset bytes)

abbrev pub zero_fill : Buffer → Option Bytes
zero_fill b = memcpy b.buf b.offset (replicate (b.len - b.offset) 0)

pub data Contents : Type 0 where
  overrun null : Contents
  block : Bytes → Contents

abbrev filled : Option Bytes → Contents
filled none = overrun
filled (some buf) = block buf

abbrev finish : Option Buffer → Contents
finish none = overrun
finish (some b) = filled (zero_fill b)

abbrev give_up : Option Buffer → Contents
give_up none = overrun
give_up (some b) = null

abbrev next_round : Option Buffer → (Buffer → Contents) → Contents
next_round none loop = overrun
next_round (some b) loop = loop b

unfoldable pub read_loop : Freads → Buffer → Contents
read_loop (eof bytes) b = finish (fread_into bytes b)
read_loop (error bytes) b = give_up (fread_into bytes b)
read_loop (more bytes rest) b = next_round (fread_into bytes b) (read_loop rest)

unfoldable pub read_all : Freads → Contents
read_all f =
    read_loop f (record { len = chunk_size + 1; buf = replicate (chunk_size + 1) 0; offset = 0 })

-- `fread(buf, size, 1, f)` on a file that holds `contents`: how many items of that size it reads.
unfoldable pub items_read : ℕ → Bytes → ℕ
items_read size contents = if size == 0 then 0 else if leb size (length contents) then 1 else 0

-- `get_contents`: the file's bytes and the size that `fstat` reports, or a file that cannot be
-- opened or examined. Failures of `malloc`, `ferror` and `fclose` are left out.
unfoldable pub get_contents : Option (ℕ × Bytes) → Option Bytes
unfolding items_read
get_contents none = none
get_contents (some (st_size, contents)) =
    if not (items_read st_size contents == 1) then none else some (take st_size contents)

-- The loop of `write_contents`: `fwrite round n` is how many of `n` bytes the call takes, which is
-- never negative. `none` means that the fuel ran out.
unfoldable pub write_loop : ℕ → (ℕ → ℕ → ℕ) → ℕ → Bytes → ℕ → Bytes → Option Bytes
write_loop zero fwrite round contents offset written = none
write_loop (suc fuel) fwrite round contents offset written =
    let res = fwrite round (length contents - offset) in
    let written' = written ++ take res (drop offset contents) in
    let rest = write_loop fuel fwrite (round + 1) contents (offset + res) written' in
    if ltb (offset + res) (length contents) then rest else some written'

-- What the file holds afterwards.
unfoldable pub write_contents : ℕ → (ℕ → ℕ → ℕ) → Bytes → Option Bytes
write_contents fuel fwrite contents = write_loop fuel fwrite 0 contents 0 []

-- `mkdir` made the directory, or set `errno` to EEXIST, or to something else.
pub data Mkdir : Type 0 where
  made exists failed : Mkdir

abbrev pub path_max : ℕ
path_max = 4096

module _ {S : Type 0} (mkdir : Bytes → S → S × Mkdir) where
  abbrev pub unless_failed : S × Mkdir → (S → S × Bool) → S × Bool
  unless_failed (s, made) next = next s
  unless_failed (s, exists) next = next s
  unless_failed (s, failed) next = (s, false)

  -- `true` is the result 0.
  unfoldable pub mkdir_p : Bytes → S → S × Bool
  mkdir_p path s = unless_failed (mkdir path s) (λ s'. (s', true))

  -- The loop, with the bytes in front of `p` and those from `p` on, and the call behind it.
  unfoldable pub parents_loop : Bytes → Bytes → S → S × Bool
  parents_loop front [] s = unless_failed (mkdir front s) (λ s'. (s', true))
  parents_loop front (c ∷ cs) s =
      let rest = parents_loop (front ++ c ∷ []) cs in
      if c == b'/' then unless_failed (mkdir front s) rest else rest s

  -- `none` is the read behind the end of an empty path.
  unfoldable pub mkdir_parents : Bytes → S → Option (S × Bool)
  unfolding parents_loop
  mkdir_parents [] s = none
  mkdir_parents (c ∷ cs) s =
      if ltb (path_max - 1) (length (c ∷ cs))
      then some (s, false)
      else some (parents_loop (c ∷ []) cs s)
