-- ===== src/Files/Streams/Reading.antt =====
-- file.c and functions.c: the reads of an input stream deliver its file in order.
use planck.Files.{
  Mode, reading, Stream, Store, delivered, fread_from, file_read, with_stream, with_file,
  file_open_read, file_open, fopen_at, opened, Stdio,
}
use planck.Prelude.{
  ℕ, zero, suc, ◌+◌, ◌<◌, ◌≡◌, refl, sym, ap, ◌∙◌, Bool, true, false, Option, some, [], ◌∷◌, Bytes,
  arith, inl, inr, str_eq, str_eq_self, str_eq_iff, Bool-cases, length, take, drop, ltb, ◌==◌,
  if◌then◌else◌,
}

drop-nil : (n : ℕ) → drop {A = ℕ} n [] ≡ []
drop-nil zero = refl
drop-nil (suc n) = refl

take-nil : (n : ℕ) → take {A = ℕ} n [] ≡ []
take-nil zero = refl
take-nil (suc n) = refl

drop-add : (a b : ℕ) (xs : Bytes) → drop (a + b) xs ≡ drop b (drop a xs)
drop-add zero b xs = ap (λ (n : ℕ). drop n xs) (omega arith)
drop-add (suc a) b [] = drop-nil (suc a + b) ∙ sym (drop-nil b)
drop-add (suc a) b (x ∷ xs) =
    let e : suc a + b ≡ suc (a + b) = omega arith in rw e (drop-add a b xs)

drop-length_take : (n : ℕ) (xs : Bytes) → drop (length (take n xs)) xs ≡ drop n xs
drop-length_take zero xs = refl
drop-length_take (suc n) [] = refl
drop-length_take (suc n) (x ∷ xs) = drop-length_take n xs

drop-nil_of_short : (n : ℕ) (xs : Bytes) → length (take n xs) < n → drop n xs ≡ []
drop-nil_of_short zero xs h = absurd (omega arith)
drop-nil_of_short (suc n) [] h = refl
drop-nil_of_short (suc n) (x ∷ xs) h = drop-nil_of_short n xs (omega arith)

-- A stream is open for reading a file that holds `contents`, and has passed over some of it.
pub record Reading (d : ℕ) (path contents left : Bytes) (s : Store) : Type 0 where
  pub stream : Stream
  pub is_open : s.streams d ≡ some stream
  pub at_path : stream.path ≡ path
  pub for_reading : stream.mode ≡ reading
  pub reached : s.files path ≡ some contents
  pub ahead : drop stream.offset contents ≡ left
  pub at_mark : stream.at_eof ≡ true → left ≡ []

abbrev passed : ℕ → Bytes → Stream → Stream
passed n left stream = record stream {
  offset = stream.offset + length (take n left);
  at_eof = ltb (length (take n left)) n;
}

module _ {d : ℕ} {path contents left : Bytes} {s : Store} (h : Reading d path contents left s) where
  as_delivered :
      (n : ℕ)
      → delivered d n h.stream s
        ≡ some (
          take n left,
          record s { streams = with_stream d (some (passed n left h.stream)) s.streams },
        )
  as_delivered n = rw (h.at_path, h.reached, h.ahead) refl

  as_marked :
      (n : ℕ) (mark : Bool)
      → h.stream.at_eof ≡ mark
      → file_read d n s ≡ (if mark then some ([], s) else delivered d n h.stream s)
  unfolding file_read
  as_marked n mark e =
      rw h.is_open refl
      ∙ ap (λ (m : Mode). fread_from m d n h.stream s) h.for_reading
      ∙ ap
          (λ (b : Bool).
            (if◌then◌else◌ {A = Option (Bytes × Store)} b (some ([], s))
              (delivered d n h.stream s)))
          e

  -- A read delivers the next bytes, and nothing exactly at the end.
  pub file_read-Reading :
      (n : ℕ)
      → (s' : Store) × (file_read d n s ≡ some (take n left, s'))
        × Reading d path contents (drop n left) s'
        × (s'.files ≡ s.files)
  file_read-Reading n = elim (Bool-cases h.stream.at_eof) [
    | inl marked ↦
        let none_left = h.at_mark marked in
        (
          s,
          as_marked n true marked ∙ rw (none_left, take-nil n) refl,
          record {
            stream = h.stream;
            is_open = h.is_open;
            at_path = h.at_path;
            for_reading = h.for_reading;
            reached = h.reached;
            ahead = h.ahead ∙ none_left ∙ sym (drop-nil n) ∙ ap (drop n) (sym none_left);
            at_mark = λ e. ap (drop n) none_left ∙ drop-nil n;
          },
          refl,
        )
    | inr unmarked ↦ (
      record s { streams = with_stream d (some (passed n left h.stream)) s.streams },
      as_marked n false unmarked ∙ as_delivered n,
      record {
        stream = passed n left h.stream;
        is_open = let e : (d == d) ≡ true = ground arith in rw e refl;
        at_path = h.at_path;
        for_reading = h.for_reading;
        reached = h.reached;
        ahead =
            drop-add h.stream.offset (length (take n left)) contents
            ∙ ap (drop (length (take n left))) h.ahead
            ∙ drop-length_take n left;
        at_mark = λ e. drop-nil_of_short n left (ground arith);
      },
      refl,
    )
  ]

-- An open puts the stream at the front of a file that is there.
pub file_open_read-Reading :
    (c : Stdio) (path contents : Bytes) (s : Store)
    → c.may_open path reading ≡ true
    → s.files path ≡ some contents
    → (s' : Store) × (file_open_read c path s ≡ some (c.address s, s'))
      × Reading (c.address s) path contents contents s'
      × ((p : Bytes) → s'.files p ≡ s.files p)
unfolding file_open_read file_open
file_open_read-Reading c path contents s may there = (
  record {
    files = with_file path contents s.files;
    streams = with_stream (c.address s) (some (opened path reading)) s.streams;
  },
  rw may (ap (λ o. fopen_at (c.address s) path reading o s) there),
  record {
    stream = opened path reading;
    is_open = let e : (c.address s == c.address s) ≡ true = ground arith in rw e refl;
    at_path = refl;
    for_reading = refl;
    reached = rw (str_eq_self path) refl;
    ahead = refl;
    at_mark = λ e. cc;
  },
  λ p. elim (Bool-cases (str_eq path p)) [
    | inl same ↦ rw same (sym (ap s.files (sym ((str_eq_iff path p).0 same)) ∙ there))
    | inr differs ↦ rw differs refl
  ],
)
