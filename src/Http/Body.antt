-- ===== src/Http/Body.antt =====
-- http.c: the buffer of the response body.
use planck.Prelude.{
  ℕ, false, leb, ◌+◌, ◌≤◌, ◌<◌, ◌≡◌, ◌≢◌, refl, ap, ◌∙◌, none, some, [], ◌∷◌, ◌++◌, arith, Bytes,
  length, take, drop, length-append, length-take, length-drop, get_elem?,
}
use planck.Memory.{
  memcpy, realloc, memcpy_lem, spliced, length-spliced, take-spliced, take-spliced_front,
  realloc-take, length-realloc, elem_after,
}
use planck.Http.{
  WriteState, int_limit, append, grow, grown_length, write_string_callback, curl_max_write_size,
  initial_state,
}

-- The first `offset` bytes are the body so far. Before the first call nothing is allocated; after
-- it a zero stands behind the body.
pub record Holds (body : Bytes) (s : WriteState) : Type 0 where
  pub sized : length s.memory ≡ s.length
  pub filled : take s.offset s.memory ≡ body
  pub offset_is : s.offset ≡ length body
  pub within : s.offset ≤ s.length

-- Where the free part of the block is exactly as long as the data that arrive, the block does not
-- grow and the terminating zero is written behind its end, whatever the block holds.
pub write_string_callback-overrun :
    (s : WriteState) (buffer : Bytes)
    → length s.memory ≡ s.length
    → s.offset + length buffer ≡ s.length
    → write_string_callback s buffer ≡ none
unfolding write_string_callback grow memcpy realloc grown_length
write_string_callback-overrun s buffer sized full = ground (
  arith,
  length-append (take s.offset s.memory) (buffer ++ drop (s.offset + length buffer) s.memory),
  length-append buffer (drop (s.offset + length buffer) s.memory),
  length-take s.offset s.memory,
  length-drop (s.offset + length buffer) s.memory,
)

initial-Holds : Holds [] initial_state
initial-Holds = record { sized = refl; filled = refl; offset_is = refl; within = omega arith }

first_length : (grow initial_state curl_max_write_size).length ≡ curl_max_write_size + 1
unfolding grow grown_length
first_length = refl

-- There is room for the data and the zero, once grown.
record Ready (body : Bytes) (s : WriteState) (n : ℕ) (s' : WriteState) : Type 0 where
  sized : length s'.memory ≡ s'.length
  filled : take s'.offset s'.memory ≡ body
  offset_is : s'.offset ≡ length body
  room : s'.offset + n < s'.length

grow-Ready :
    (body : Bytes) (s : WriteState) (n : ℕ)
    → Holds body s
    → n ≤ curl_max_write_size
    → s.offset + n ≢ s.length
    → Ready body s n (grow s n)
unfolding grow grown_length
grow-Ready body s n h small ne = ground (
  arith,
  length-realloc s.memory (grown_length s.length),
  realloc-take s.memory (grown_length s.length) s.offset,
)

-- Data of any length that libcurl passes, but for the one that fills the block to its last byte, are,
-- where the length of the block stays an `int`,
-- written inside the block: the state then holds the old body followed by the data, with a
-- zero behind them.
pub write_string_callback-Holds :
    (body : Bytes) (s : WriteState) (buffer : Bytes)
    → Holds body s
    → length buffer ≤ curl_max_write_size
    → s.offset + length buffer ≢ s.length
    → (grow s (length buffer)).length < int_limit
    → (s' : WriteState) × (write_string_callback s buffer ≡ some s')
      × Holds (body ++ buffer) s'
      × (get_elem? s'.memory s'.offset ≡ some 0)
      × (s'.length ≡ (grow s (length buffer)).length)
unfolding write_string_callback
write_string_callback-Holds body s buffer h small ne bound =
    let within : leb int_limit (grow s (length buffer)).length ≡ false = ground arith in
    rw within (filled (grow s (length buffer)) (grow-Ready body s (length buffer) h small ne))
  where
    filled :
        (g : WriteState)
        → Ready body s (length buffer) g
        → (s' : WriteState) × (append g buffer (memcpy g.memory g.offset buffer) ≡ some s')
          × Holds (body ++ buffer) s'
          × (get_elem? s'.memory s'.offset ≡ some 0)
          × (s'.length ≡ g.length)
    filled g r =
        let m1 = spliced g.memory g.offset buffer in
        let at = g.offset + length buffer in
        let fits : g.offset + length buffer ≤ length g.memory = omega (arith, r.sized, r.room) in
        let fits1 : at + 1 ≤ length m1 =
          omega (arith, r.sized, r.room, length-spliced g.memory g.offset buffer fits) in
        (
          record g { memory = spliced m1 at (0 ∷ []); offset = at },
          rw (memcpy_lem g.memory g.offset buffer fits) (rw (memcpy_lem m1 at (0 ∷ []) fits1)),
          record {
            sized =
                length-spliced m1 at (0 ∷ []) fits1
                ∙ length-spliced g.memory g.offset buffer fits
                ∙ r.sized;
            filled =
                take-spliced_front m1 at (0 ∷ []) fits1
                ∙ take-spliced g.memory g.offset buffer fits
                ∙ ap (λ b. b ++ buffer) r.filled;
            offset_is = omega (arith, r.offset_is, length-append body buffer);
            within = omega (arith, r.room);
          },
          elem_after (take at m1) 0 _ at (omega (arith, length-take at m1)),
          refl,
        )

-- From the first call, one block of 16384 bytes leaves a buffer of 16385 bytes. A byte that follows
-- is written to the last place of that buffer, which does not grow, and the terminating zero is
-- then written one byte behind its end.
pub write_string_callback-overrun_reached :
    (block : Bytes) (c : ℕ)
    → length block ≡ curl_max_write_size
    → (s : WriteState) × (write_string_callback initial_state block ≡ some s)
      × (length s.memory ≡ curl_max_write_size + 1)
      × (grow s 1 ≡ s)
      × ((m : Bytes) × (memcpy s.memory s.offset (c ∷ []) ≡ some m) × (length m ≡ s.offset + 1))
      × (write_string_callback s (c ∷ []) ≡ none)
unfolding grow
write_string_callback-overrun_reached block c full =
    let (s, e, h, z, l) =
      write_string_callback-Holds [] initial_state block initial-Holds (omega arith) (omega arith)
        (omega (arith, ap (λ n. (grow initial_state n).length) full, first_length)) in
    let size : s.length ≡ curl_max_write_size + 1 =
      l ∙ ap (λ n. (grow initial_state n).length) full ∙ first_length in
    let at : s.offset ≡ curl_max_write_size = omega (arith, h.offset_is, full) in
    let fits : s.offset + length (c ∷ []) ≤ length s.memory = omega (arith, at, h.sized, size) in
    (
      s,
      e,
      h.sized ∙ size,
      ground (arith, at, size),
      (
        spliced s.memory s.offset (c ∷ []),
        memcpy_lem s.memory s.offset (c ∷ []) fits,
        omega (arith, length-spliced s.memory s.offset (c ∷ []) fits, at, h.sized, size),
      ),
      write_string_callback-overrun s (c ∷ []) h.sized (omega (arith, at, size)),
    )
