-- ===== src/Files/Streams/Writing.antt =====
-- file.c: what a stream that is open for writing has taken in stands in its file or waits in the
-- stream, whatever the C library passes on by itself.
use planck.Files.{
  Mode, reading, writing, appending, Stream, Store, Stdio, write_at, reach, put, drain, drained,
  with_file, with_stream, take_in, file_write, file_flush, file_close, file_open_write, file_open,
  fopen_at, kept, write_of, opened, contents_opened,
}
use planck.Prelude.{
  ℕ, zero, suc, ◌+◌, ◌-◌, ◌≤◌, ◌≡◌, refl, sym, ap, ◌∙◌, Bool, true, false, Option, none, some, [],
  ◌∷◌, ◌++◌, Bytes, arith, append-nil, append_assoc, length, length-append, take, drop, take-all,
  take-append-drop, str_eq, str_eq_self, ◌==◌,
}

drop-all : (n : ℕ) (xs : Bytes) → length xs ≤ n → drop n xs ≡ []
drop-all zero [] h = refl
drop-all zero (x ∷ xs) h = elim h [ ]
drop-all (suc n) [] h = refl
drop-all (suc n) (x ∷ xs) h = drop-all n xs (omega arith)

write_at-end : (f bytes : Bytes) → write_at (length f) bytes f ≡ f ++ bytes
unfolding write_at
write_at-end f bytes =
    let none_left : length f - length f ≡ 0 = omega arith in
    rw
      (
        take-all (length f) f (omega arith),
        none_left,
        drop-all (length f + length bytes) f (omega arith),
        append-nil bytes,
      )
      refl

-- The stream writes at the end of a file that holds `f`.
abbrev pub AtEnd : Mode → ℕ → Bytes → Type 0
AtEnd reading offset f = ⊥
AtEnd writing offset f = offset ≡ length f
AtEnd appending offset f = Unit

reach-AtEnd :
    (mode : Mode) (offset : ℕ) (f bytes : Bytes)
    → AtEnd mode offset f
    → (reach mode offset bytes f ≡ f ++ bytes) × AtEnd mode (offset + length bytes) (f ++ bytes)
reach-AtEnd reading offset f bytes h = elim h [ ]
reach-AtEnd writing offset f bytes h =
    (rw h (write_at-end f bytes), omega (arith, h, length-append f bytes))
reach-AtEnd appending offset f bytes h = (refl, tt)

put_lem :
    (stream : Stream) (bytes : Bytes) (files : Bytes → Option Bytes) (f : Bytes)
    → AtEnd stream.mode stream.offset f
    → files stream.path ≡ some f
    → put stream bytes files stream.path ≡ some (f ++ bytes)
put_lem stream [] files f h e = rw (append-nil f) e
put_lem stream (c ∷ cs) files f h e =
    rw (str_eq_self stream.path, e) (ap some (reach-AtEnd stream.mode stream.offset f (c ∷ cs) h).0)

put_others :
    (stream : Stream) (bytes : Bytes) (files : Bytes → Option Bytes) (p : Bytes)
    → str_eq stream.path p ≡ false
    → put stream bytes files p ≡ files p
put_others stream [] files p h = refl
put_others stream (c ∷ cs) files p h = rw h refl

-- The file and the stream behind it together hold `contents`, and the other files are untouched.
pub record Holds (d : ℕ) (path contents : Bytes) (before : Bytes → Option Bytes) (s : Store)
    : Type 0 where
  pub stream : Stream
  pub in_file : Bytes
  pub is_open : s.streams d ≡ some stream
  pub at_path : stream.path ≡ path
  pub at_end : AtEnd stream.mode stream.offset in_file
  pub reached : s.files path ≡ some in_file
  pub together : in_file ++ stream.pending ≡ contents
  pub others : (p : Bytes) → str_eq path p ≡ false → s.files p ≡ before p

module _ (d : ℕ) (path contents : Bytes) (before : Bytes → Option Bytes) (s : Store) where
  -- `written` is the stream with what it takes in, before some of it is passed on.
  drained-Holds :
      (n : ℕ) (written : Stream) (in_file : Bytes)
      → written.path ≡ path
      → AtEnd written.mode written.offset in_file
      → s.files path ≡ some in_file
      → in_file ++ written.pending ≡ contents
      → ((p : Bytes) → str_eq path p ≡ false → s.files p ≡ before p)
      → Holds d path contents before (drained d n written s)
  unfolding drain
  drained-Holds n written in_file at_path at_end reached together others =
      let bytes = take n written.pending in
      let stream' : Stream = record written {
        offset = written.offset + length bytes;
        pending = drop n written.pending;
      } in
      let reached' : s.files written.path ≡ some in_file = ap s.files at_path ∙ reached in
      record {
        stream = stream';
        in_file = in_file ++ bytes;
        is_open = let e : (d == d) ≡ true = ground arith in rw e refl;
        at_path = at_path;
        at_end = (reach-AtEnd written.mode written.offset in_file bytes at_end).1;
        reached =
            ap (put written bytes s.files) (sym at_path)
            ∙ put_lem written bytes s.files in_file at_end reached';
        together =
            append_assoc in_file bytes (drop n written.pending)
            ∙ ap (λ (t : Bytes). in_file ++ t) (take-append-drop n written.pending)
            ∙ together;
        others = λ p e.
            put_others written bytes s.files p (ap (λ (t : Bytes). str_eq t p) at_path ∙ e)
            ∙ others p e;
      }

take_in_lem :
    (buf : Bytes) (stream : Stream) (f : Bytes)
    → AtEnd stream.mode stream.offset f
    → take_in stream.mode buf stream ≡ record stream { pending = stream.pending ++ buf }
take_in_lem buf stream f h = by_mode stream.mode h
  where
    by_mode :
        (mode : Mode)
        → AtEnd mode stream.offset f
        → take_in mode buf stream ≡ record stream { pending = stream.pending ++ buf }
    by_mode reading h' = elim h' [ ]
    by_mode writing h' = refl
    by_mode appending h' = refl

module _ {d : ℕ} {path contents : Bytes} {before : Bytes → Option Bytes} {s : Store}
    (h : Holds d path contents before s) where
  -- What is written comes behind what the stream holds already.
  pub file_write-Holds :
      (c : Stdio) (buf : Bytes)
      → (s' : Store) × (file_write c d buf s ≡ some (tt, s'))
        × Holds d path (contents ++ buf) before s'
  unfolding file_write
  file_write-Holds c buf =
      let written : Stream = record h.stream { pending = h.stream.pending ++ buf } in
      (
        drained d (c.passes_on written) written s,
        rw h.is_open (rw (take_in_lem buf h.stream h.in_file h.at_end) refl),
        drained-Holds d path (contents ++ buf) before s (c.passes_on written) written h.in_file
            h.at_path h.at_end h.reached
            (sym (append_assoc h.in_file h.stream.pending buf)
              ∙ ap (λ (t : Bytes). t ++ buf) h.together)
            h.others,
      )

  all_reached : (drained d (length h.stream.pending) h.stream s).files path ≡ some contents
  unfolding drain
  all_reached =
      let bytes = take (length h.stream.pending) h.stream.pending in
      let everything : bytes ≡ h.stream.pending =
        take-all (length h.stream.pending) h.stream.pending (omega arith) in
      ap (put h.stream bytes s.files) (sym h.at_path)
      ∙ put_lem h.stream bytes s.files h.in_file h.at_end (ap s.files h.at_path ∙ h.reached)
      ∙ ap some (ap (λ (t : Bytes). h.in_file ++ t) everything ∙ h.together)

  pub file_flush-Holds :
      (s' : Store) × (file_flush d s ≡ some (tt, s'))
      × Holds d path contents before s'
      × (s'.files path ≡ some contents)
  unfolding file_flush drain
  file_flush-Holds =
      let n = length h.stream.pending in
      (
        drained d n h.stream s,
        rw h.is_open refl,
        drained-Holds d path contents before s n h.stream h.in_file h.at_path h.at_end h.reached
            h.together h.others,
        all_reached,
      )

  -- A close leaves all of it in the file.
  pub file_close_lem :
      (s' : Store) × (file_close d s ≡ some (tt, s'))
      × (s'.files path ≡ some contents)
      × ((p : Bytes) → str_eq path p ≡ false → s'.files p ≡ before p)
  unfolding file_close file_flush drain
  file_close_lem =
      let n = length h.stream.pending in
      (
        record { files = (drained d n h.stream s).files; streams = with_stream d none s.streams },
        rw h.is_open refl,
        all_reached,
        λ p e.
            put_others h.stream (take n h.stream.pending) s.files p
              (ap (λ (t : Bytes). str_eq t p) h.at_path ∙ e)
            ∙ h.others p e,
      )

-- An open leaves what the file keeps, at the address of the new stream.
pub file_open_write-Holds :
    (c : Stdio) (path : Bytes) (append : Bool) (s : Store)
    → c.may_open path (write_of append) ≡ true
    → (s' : Store) × (file_open_write c path append s ≡ some (c.address s, s'))
      × Holds (c.address s) path (kept append (s.files path)) s.files s'
unfolding file_open_write file_open
file_open_write-Holds c path append s may = (
  after,
  rw may (opens append),
  record {
    stream = opened path (write_of append);
    in_file = kept append (s.files path);
    is_open = let e : (c.address s == c.address s) ≡ true = ground arith in rw e refl;
    at_path = refl;
    at_end = starts_at_end append (s.files path);
    reached = rw (str_eq_self path) refl;
    together = append-nil (kept append (s.files path));
    others = λ p e. rw e refl;
  },
)
  where
    after : Store
    after = record {
      files = with_file path (kept append (s.files path)) s.files;
      streams = with_stream (c.address s) (some (opened path (write_of append))) s.streams;
    }

    opens :
        (a : Bool)
        → fopen_at (c.address s) path (write_of a) (contents_opened (write_of a) (s.files path)) s
          ≡ some (
            c.address s,
            record {
              files = with_file path (kept a (s.files path)) s.files;
              streams = with_stream (c.address s) (some (opened path (write_of a))) s.streams;
            },
          )
    opens true = refl
    opens false = refl

    starts_at_end : (a : Bool) (o : Option Bytes) → AtEnd (write_of a) 0 (kept a o)
    starts_at_end true o = tt
    starts_at_end false o = refl
