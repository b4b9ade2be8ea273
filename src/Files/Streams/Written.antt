-- ===== src/Files/Streams/Written.antt =====
-- functions.c: what a client writes through an output stream stands in the file at last.
use planck.Memory.{c_string}
use planck.Javascript.{Value, null, string, boolean, array, of_byte, in_byte_range}
use planck.Files.{
  Store, Stdio, M, ◌>>=◌, and_then_lem, return, kept, descriptor_str_to_int, write_of,
}
use planck.Files.Descriptor.{descriptor_str_to_int-int_to_str}
use planck.Files.Streams.{
  function_file_output_stream_open, function_file_output_stream_write,
  function_file_output_stream_close, returned_null, complaints, fill,
}
use planck.Files.Streams.Writing.{Holds, file_open_write-Holds, file_write-Holds, file_close_lem}
use planck.Prelude.{
  ℕ, ◌^◌, ◌<◌, ◌≡◌, refl, sym, ◌∙◌, Bool, true, false, Option, none, some, List, [], ◌∷◌, ◌++◌,
  Bytes, arith, append-nil, append_assoc, length, map, length-map, subst, str_eq,
}

abbrev pub AllBytes : Bytes → Type 0
AllBytes [] = Unit
AllBytes (b ∷ bs) = (b < 256) × AllBytes bs

abbrev pub joined {ℓ} : {A : Type ℓ} → List (List A) → List A
joined [] = []
joined (xs ∷ xss) = xs ++ joined xss

AllBytes-append : (xs ys : Bytes) → AllBytes (xs ++ ys) → AllBytes xs × AllBytes ys
AllBytes-append [] ys all = (tt, all)
AllBytes-append (x ∷ xs) ys all = let (l, r) = AllBytes-append xs ys all.1 in ((all.0, l), r)

-- Bytes as numbers fill a block of their length.
pub fill-of_byte :
    (bs block : Bytes) → AllBytes bs → length block ≡ length bs → fill (map of_byte bs) block ≡ bs
unfolding fill in_byte_range
fill-of_byte [] [] all e = refl
fill-of_byte [] (x ∷ block) all e = absurd (omega (arith, e))
fill-of_byte (b ∷ bs) [] all e = absurd (omega (arith, e))
fill-of_byte (b ∷ bs) (x ∷ block) all e =
    ground (arith, fill-of_byte bs block all.1 (omega (arith, e)))

-- `malloc` gives a block of the size that is asked for, with any bytes in it.
abbrev pub Gives : (ℕ → Option Bytes) → Type 0
Gives malloc = (n : ℕ) → (block : Bytes) × (malloc n ≡ some block) × (length block ≡ n)

-- A text that stands for a descriptor.
abbrev pub Names : Bytes → ℕ → Type 0
Names text d = descriptor_str_to_int (c_string text) ≡ some d

abbrev pub with_text : {A : Type 0} → Value → (Bytes → M A) → M A
with_text (string text) f = f text
with_text _ f = λ s. none

module _ (c : Stdio) (malloc : ℕ → Option Bytes) where
  -- The calls of a client that writes arrays of bytes.
  unfoldable pub write_arrays : Bytes → List Bytes → M (Unit {0})
  write_arrays text [] = return tt
  write_arrays text (b ∷ bs) =
      function_file_output_stream_write c malloc (string text ∷ array (map of_byte b) ∷ []) >>= λ _.
      write_arrays text bs

  -- It opens the stream, writes, and closes.
  unfoldable pub write_session : Bytes → Bool → List Bytes → M Value
  unfolding write_arrays
  write_session path append bs =
      function_file_output_stream_open c (string path ∷ boolean append ∷ []) >>= λ v.
      with_text v
        (λ text. write_arrays text bs >>= λ _. function_file_output_stream_close (string text ∷ []))

  module _ (gives : Gives malloc) {d : ℕ} (text : Bytes) {path : Bytes} (names : Names text d) where
    write_one :
        {contents : Bytes} {before : Bytes → Option Bytes} {s : Store} (b : Bytes)
        → AllBytes b
        → Holds d path contents before s
        → (s' : Store) × (function_file_output_stream_write c malloc
              (string text ∷ array (map of_byte b) ∷ [])
              s
            ≡ some (returned_null (complaints (map of_byte b)), s'))
          × Holds d path (contents ++ b) before s'
    unfolding function_file_output_stream_write
    write_one b all h =
        let (block, e, size) = gives (length (map of_byte b)) in
        let filled : fill (map of_byte b) block ≡ b =
          fill-of_byte b block all (size ∙ length-map b of_byte) in
        let (s', w, h') = file_write-Holds h c b in
        (s', rw e (rw names (rw filled (and_then_lem _ w))), h')

    write_arrays-Holds :
        (bs : List Bytes) {contents : Bytes} {before : Bytes → Option Bytes} {s : Store}
        → AllBytes (joined bs)
        → Holds d path contents before s
        → (s' : Store) × (write_arrays text bs s ≡ some (tt, s'))
          × Holds d path (contents ++ joined bs) before s'
    unfolding write_arrays
    write_arrays-Holds [] {contents} {before} {s} all h =
        (s, refl, subst (λ t. Holds d path t before s) (sym (append-nil contents)) h)
    write_arrays-Holds (b ∷ bs) {contents} {before} {s} all h =
        let (all_b, all_bs) = AllBytes-append b (joined bs) all in
        let (s1, e1, h1) = write_one b all_b h in
        let (s2, e2, h2) = write_arrays-Holds bs all_bs h1 in
        (
          s2,
          and_then_lem _ e1 ∙ e2,
          subst (λ t. Holds d path t before s2) (append_assoc contents b (joined bs)) h2,
        )

  -- Where the file may be opened and its descriptor has a text, the session succeeds and leaves
  -- the bytes behind what the file keeps.
  pub write_session_lem :
      (path : Bytes) (append : Bool) (bs : List Bytes) (s : Store)
      → Gives malloc
      → AllBytes (joined bs)
      → c.may_open (c_string path) (write_of append) ≡ true
      → c.address s < 2 ^ 63
      → (v : Value) × (s' : Store) × (write_session path append bs s ≡ some (v, s'))
        × (s'.files (c_string path) ≡ some (kept append (s.files (c_string path)) ++ joined bs))
        × ((p : Bytes) → str_eq (c_string path) p ≡ false → s'.files p ≡ s.files p)
  unfolding write_session function_file_output_stream_open function_file_output_stream_close
  write_session_lem path append bs s gives all may low =
      let (s1, opened, h1) = file_open_write-Holds c (c_string path) append s may in
      let (text, printed, names) = descriptor_str_to_int-int_to_str (c.address s) low in
      let (s2, written, h2) = write_arrays-Holds gives text names bs all h1 in
      let (s3, closed, contents, others) = file_close_lem h2 in
      (null, s3, rw (opened, printed, written, names, closed) refl, contents, others)
