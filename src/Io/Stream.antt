-- ===== src/Io/Stream.antt =====
-- io.c: `read_all` and `get_contents`.
use planck.Memory.{
  memcpy_lem, spliced, length-spliced, take-spliced, take-spliced_front, realloc-take,
  length-realloc, elem_after,
}
use planck.Prelude.{
  leb, ℕ, zero, suc, ◌+◌, ◌-◌, ◌*◌, ◌≤◌, ◌<◌, ◌≡◌, ◌≢◌, refl, ap, ◌∙◌, Bool, true, false, none,
  some, [], ◌∷◌, ◌++◌, append_assoc, Bytes, arith, length, length-append, length-replicate,
  length-take, take, take-all, replicate, get_elem?,
}
use planck.Io.{
  Freads, more, eof, error, Buffer, make_room, fread_into, zero_fill, Contents, null, block,
  read_loop, read_all, chunk_size, int_limit, get_contents,
}

-- What C promises of `fread`: only at the end of the file, or at an error, is a chunk short.
abbrev pub IsRegular : Freads → Type 0
IsRegular (more bytes rest) = (length bytes ≡ chunk_size) × IsRegular rest
IsRegular (eof bytes) = length bytes < chunk_size
IsRegular (error bytes) = length bytes < chunk_size

abbrev pub all_bytes : Freads → Bytes
all_bytes (more bytes rest) = bytes ++ all_bytes rest
all_bytes (eof bytes) = bytes
all_bytes (error bytes) = bytes

abbrev pub fails : Freads → Bool
fails (more bytes rest) = fails rest
fails (eof bytes) = false
fails (error bytes) = true

record Holds (read : Bytes) (b : Buffer) : Type 0 where
  sized : length b.buf ≡ b.len
  filled : take b.offset b.buf ≡ read
  offset_is : b.offset ≡ length read
  within : b.offset ≤ b.len
  bounded : b.len ≤ 2 * b.offset + 4096

record Ready (read : Bytes) (b : Buffer) : Type 0 where
  sized : length b.buf ≡ b.len
  filled : take b.offset b.buf ≡ read
  offset_is : b.offset ≡ length read
  room : b.offset + chunk_size ≤ b.len
  bounded : b.len ≤ 2 * b.offset + 4096

make_room-Ready : (read : Bytes) (b : Buffer) → Holds read b → Ready read (make_room b)
unfolding make_room
make_room-Ready read b h = ground (
  arith,
  length-realloc b.buf (2 * b.len + chunk_size),
  realloc-take b.buf (2 * b.len + chunk_size) b.offset,
)

-- A round stays inside the block and appends what was read; behind a short chunk a byte is free.
record Step (read bytes : Bytes) (b : Buffer) : Type 0 where
  next : Buffer
  done : fread_into bytes b ≡ some next
  holds : Holds (read ++ bytes) next
  free : length bytes < chunk_size → next.offset < next.len

fread_into-Step :
    (read bytes : Bytes) (b : Buffer)
    → Holds read b
    → length bytes ≤ chunk_size
    → length read < 1073000000
    → Step read bytes b
unfolding fread_into
fread_into-Step read bytes b h small short = from_room (make_room b) (make_room-Ready read b h) refl
  where
    from_room : (r : Buffer) → Ready read r → make_room b ≡ r → Step read bytes b
    from_room r ready e =
        let fits : r.offset + length bytes ≤ length r.buf =
          omega (arith, ready.sized, ready.room) in
        let in_range : leb int_limit r.len ≡ false =
          ground (arith, ready.bounded, ready.offset_is) in
        record {
          next = record r { buf = spliced r.buf r.offset bytes; offset = r.offset + length bytes };
          done = rw e (rw (in_range, memcpy_lem r.buf r.offset bytes fits));
          holds = record {
            sized = length-spliced r.buf r.offset bytes fits ∙ ready.sized;
            filled =
                take-spliced r.buf r.offset bytes fits
                ∙ ap (λ (t : Bytes). t ++ bytes) ready.filled;
            offset_is = omega (arith, ready.offset_is, length-append read bytes);
            within = omega (arith, ready.sized, fits);
            bounded = omega (arith, ready.bounded);
          };
          free = λ short. omega (arith, ready.room);
        }

-- The whole stream, and a terminating zero behind it.
pub record Terminated (text : Bytes) (c : Contents) : Type 0 where
  pub memory : Bytes
  pub returned : c ≡ block memory
  pub text_is : take (length text) memory ≡ text
  pub zero_is : get_elem? memory (length text) ≡ some 0

zero_first :
    (m : Bytes) (at n : ℕ) (rest : Bytes)
    → length m ≡ at
    → 0 < n
    → get_elem? (m ++ (replicate n 0 ++ rest)) at ≡ some 0
zero_first m at zero rest e h = elim h [ ]
zero_first m at (suc n) rest e h = elem_after m 0 (replicate n 0 ++ rest) at (omega arith)

zero_fill-Terminated :
    (read : Bytes) (b : Buffer)
    → Holds read b
    → b.offset < b.len
    → (m : Bytes) × (zero_fill b ≡ some m)
      × (take (length read) m ≡ read)
      × (get_elem? m (length read) ≡ some 0)
zero_fill-Terminated read b h free =
    let zeros : Bytes = replicate (b.len - b.offset) 0 in
    let size : length zeros ≡ b.len - b.offset = length-replicate {A = ℕ} (b.len - b.offset) 0 in
    let fits : b.offset + length zeros ≤ length b.buf = omega (arith, size, h.sized) in
    (
      spliced b.buf b.offset zeros,
      memcpy_lem b.buf b.offset zeros fits,
      rw (← h.offset_is) (take-spliced_front b.buf b.offset zeros fits ∙ h.filled),
      rw (← h.offset_is) (
          zero_first (take b.offset b.buf) b.offset (b.len - b.offset) _
            (omega (arith, length-take b.offset b.buf, h.sized)) (omega arith)),
    )

front_short :
    (read behind : Bytes) → length (read ++ behind) < 1073000000 → length read < 1073000000
front_short read behind h = omega (arith, length-append read behind)

read_loop-Terminated :
    (f : Freads) (read : Bytes) (b : Buffer)
    → IsRegular f
    → fails f ≡ false
    → Holds read b
    → length (read ++ all_bytes f) < 1073000000
    → Terminated (read ++ all_bytes f) (read_loop f b)
unfolding read_loop
read_loop-Terminated (more bytes rest) read b reg ok h few =
    let step =
      fread_into-Step read bytes b h (omega (arith, reg.0))
        (front_short read (bytes ++ all_bytes rest) few) in
    rw step.done (
      rw (← append_assoc read bytes (all_bytes rest)) (
        read_loop-Terminated rest (read ++ bytes) step.next reg.1 ok step.holds
          (rw (append_assoc read bytes (all_bytes rest)) few)))
read_loop-Terminated (eof bytes) read b reg ok h few =
    let step = fread_into-Step read bytes b h (omega arith) (front_short read bytes few) in
    let (m, filled, text, end) =
      zero_fill-Terminated (read ++ bytes) step.next step.holds (step.free reg) in
    record { memory = m; returned = rw step.done (rw filled); text_is = text; zero_is = end }
read_loop-Terminated (error bytes) read b reg ok h few = absurd cc

start-Holds :
    Holds [] (record { len = chunk_size + 1; buf = replicate (chunk_size + 1) 0; offset = 0 })
start-Holds = record {
  sized = length-replicate {A = ℕ} (chunk_size + 1) 0;
  filled = refl;
  offset_is = refl;
  within = omega arith;
  bounded = omega arith;
}

-- Where no read fails and the stream is shorter than 1073000000 bytes, about 1 GiB, `read_all` returns
-- a block that begins with all bytes of the stream and a terminating zero: the length of the block
-- stays an `int`, and no read or fill leaves the block, also where the block has no byte to spare
-- before the last read. Only at the end is a read shorter than what it was asked for.
pub read_all-Terminated :
    (f : Freads)
    → IsRegular f
    → fails f ≡ false
    → length (all_bytes f) < 1073000000
    → Terminated (all_bytes f) (read_all f)
unfolding read_all
read_all-Terminated f reg ok few = read_loop-Terminated f [] _ reg ok start-Holds few

read_loop-null :
    (f : Freads) (read : Bytes) (b : Buffer)
    → IsRegular f
    → fails f ≡ true
    → Holds read b
    → length (read ++ all_bytes f) < 1073000000
    → read_loop f b ≡ null
unfolding read_loop
read_loop-null (more bytes rest) read b reg bad h few =
    let step =
      fread_into-Step read bytes b h (omega (arith, reg.0))
        (front_short read (bytes ++ all_bytes rest) few) in
    rw step.done (
      read_loop-null rest (read ++ bytes) step.next reg.1 bad step.holds
        (rw (append_assoc read bytes (all_bytes rest)) few))
read_loop-null (eof bytes) read b reg bad h few = absurd cc
read_loop-null (error bytes) read b reg bad h few =
    let step = fread_into-Step read bytes b h (omega arith) (front_short read bytes few) in
    rw step.done

-- Below the same length a read that fails makes `read_all` return a null pointer, and no byte was written outside the
-- block before.
pub read_all-null :
    (f : Freads)
    → IsRegular f
    → fails f ≡ true
    → length (all_bytes f) < 1073000000
    → read_all f ≡ null
unfolding read_all
read_all-null f reg bad few = read_loop-null f [] _ reg bad start-Holds few

-- A file that can be read, and whose size `fstat` reports, is returned whole exactly if it is not
-- empty. An empty file is refused like one that is not there.
pub get_contents_lem :
    (contents : Bytes)
    → (contents ≢ [] → get_contents (some (length contents, contents)) ≡ some contents)
      × (get_contents (some (0, [])) ≡ get_contents none)
unfolding get_contents
get_contents_lem [] = (λ ne. absurd (ne refl), refl)
get_contents_lem (c ∷ cs) = (λ ne. ground (arith, take-all (length (c ∷ cs)) (c ∷ cs)), refl)
