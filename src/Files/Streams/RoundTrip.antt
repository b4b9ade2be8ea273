-- ===== src/Files/Streams/RoundTrip.antt =====
-- functions.c: a file that is written through an output stream and read through an input stream.
use planck.Files.Streams.Written.{AllBytes, joined, Gives, write_session, write_session_lem}
use planck.Files.Streams.Delivered.{AllShort, read_session, read_arrays_lem}
use planck.Memory.{c_string}
use planck.Javascript.{Value, Element, of_byte}
use planck.Files.{reading, Store, Stdio, with_file, kept, write_of}
use planck.Files.Descriptor.{descriptor_str_to_int-int_to_str}
use planck.Files.Streams.{function_file_input_stream_open}
use planck.Files.Streams.Reading.{file_open_read-Reading}
use planck.Prelude.{
  ℕ, suc, ◌*◌, ◌^◌, ◌≤◌, ◌<◌, ◌≡◌, sym, ap, ◌∙◌, Bool, true, Option, some, List, ◌++◌, Bytes,
  length, map, str_eq, str_eq_iff, Bool-cases, inl, inr,
}

-- Bytes that are written in any number of arrays through an output stream, behind what the file
-- keeps, are what an input stream delivers afterwards, in order, in arrays of at most 4096 bytes
-- and then null, and no other file has changed; the C library may pass on what is written as it
-- likes. The file must be one that may be opened, every descriptor must be below 2^63, and `malloc`
-- must not fail. A read for each 4096 bytes, or part of them, and one more are enough.
pub read_session-write :
    (c : Stdio) (malloc : ℕ → Option Bytes) (path : Bytes) (append : Bool) (bs : List Bytes)
    (fuel : ℕ) (s : Store)
    → Gives malloc
    → AllBytes (joined bs)
    → c.may_open (c_string path) (write_of append) ≡ true
    → c.may_open (c_string path) reading ≡ true
    → ((t : Store) → c.address t < 2 ^ 63)
    → length (kept append (s.files (c_string path)) ++ joined bs) ≤ 4096 * fuel
    → (v : Value) × (written : Store) × (read_from : Store) × (ess : List (List Element))
      × (write_session c malloc path append bs s ≡ some (v, written))
      × (read_session c (suc fuel) path written ≡ some (ess, read_from))
      × (joined ess ≡ map of_byte (kept append (s.files (c_string path)) ++ joined bs))
      × AllShort ess
      × ((p : Bytes)
          → read_from.files p
            ≡ with_file
                (c_string path)
                (kept append (s.files (c_string path)) ++ joined bs)
                s.files
                p)
unfolding read_session function_file_input_stream_open
read_session-write c malloc path append bs fuel s gives all may_write may_read low few =
    let (v, s1, e1, contents, others) =
      write_session_lem c malloc path append bs s gives all may_write (low s) in
    let (s2, opened, h2, same) = file_open_read-Reading c (c_string path) _ s1 may_read contents in
    let (text, printed, names) = descriptor_str_to_int-int_to_str (c.address s1) (low s1) in
    let (ess, s3, e3, j, short, same') = read_arrays_lem fuel _ text names h2 few in
    (
      v,
      s1,
      s3,
      ess,
      e1,
      rw opened (rw printed e3),
      j,
      short,
      λ p. elim (Bool-cases (str_eq (c_string path) p)) [
        | inl here ↦ rw here (
            ap (λ f. f p) same'
            ∙ same p
            ∙ ap s1.files (sym ((str_eq_iff (c_string path) p).0 here))
            ∙ contents)
        | inr elsewhere ↦ rw elsewhere (ap (λ f. f p) same' ∙ same p ∙ others p elsewhere)
      ],
    )
