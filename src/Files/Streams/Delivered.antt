-- ===== src/Files/Streams/Delivered.antt =====
-- functions.c: a client that reads up to the end gets the file, in arrays of bounded length.
use planck.Files.Streams.Written.{joined, Names, with_text}
use planck.Javascript.{Value, Element, string, array, of_byte}
use planck.Files.{Store, Stdio, M, ◌>>=◌, and_then_lem, return}
use planck.Files.Streams.{
  function_file_input_stream_open, function_file_input_stream_read, array_of, buf_size,
}
use planck.Files.Streams.Reading.{Reading, file_read-Reading}
use planck.Prelude.{
  ℕ, zero, suc, ◌*◌, ◌≤◌, ◌<◌, ◌≡◌, refl, sym, ap, ◌∙◌, none, some, List, [], ◌∷◌, ◌++◌, Bytes,
  arith, length, map, take, drop, take-append-drop, length-map, length-take, length-drop,
}

-- The calls of a client that reads arrays until there is none.
abbrev next_array : Value → M (List (List Element)) → M (List (List Element))
next_array (array es) rest = rest >>= λ ess. return (es ∷ ess)
next_array _ rest = return []

unfoldable pub read_arrays : ℕ → Bytes → M (List (List Element))
read_arrays zero text = λ s. none
read_arrays (suc fuel) text =
    function_file_input_stream_read (string text ∷ []) >>= λ v. next_array v (read_arrays fuel text)

-- At most 4096 elements each.
abbrev pub AllShort : List (List Element) → Type 0
AllShort [] = Unit
AllShort (es ∷ ess) = (length es ≤ 4096) × AllShort ess

module _ (c : Stdio) where
  -- It opens the stream and reads up to the end.
  unfoldable pub read_session : ℕ → Bytes → M (List (List Element))
  unfolding read_arrays
  read_session fuel path =
      function_file_input_stream_open c (string path ∷ []) >>= λ v. with_text v (read_arrays fuel)

read_one :
    {d : ℕ} {path contents left : Bytes} {s : Store} (text : Bytes)
    → Names text d
    → Reading d path contents left s
    → (s' : Store) × (function_file_input_stream_read (string text ∷ []) s
        ≡ some (array_of (take buf_size left), s'))
      × Reading d path contents (drop buf_size left) s'
      × (s'.files ≡ s.files)
unfolding function_file_input_stream_read
read_one text names h =
    let (s', e, h', f) = file_read-Reading h buf_size in (s', rw names (and_then_lem _ e), h', f)

map-append_bytes : (xs ys : Bytes) → map of_byte (xs ++ ys) ≡ map of_byte xs ++ map of_byte ys
map-append_bytes [] ys = refl
map-append_bytes (x ∷ xs) ys = ap (◌∷◌ (of_byte x)) (map-append_bytes xs ys)

-- Behind one read: there is nothing left, or an array with the next bytes is in front of the rest.
after_read :
    (chunk left : Bytes) (s' : Store) (rest : M (List (List Element)))
    → length chunk ≤ 4096
    → (chunk ≡ [] → left ≡ [])
    → (0 < length chunk
        → (ess : List (List Element)) × (s'' : Store) × (rest s' ≡ some (ess, s''))
          × (joined ess ≡ map of_byte left)
          × AllShort ess
          × (s''.files ≡ s'.files))
    → (ess : List (List Element)) × (s'' : Store) × (next_array (array_of chunk) rest s'
        ≡ some (ess, s''))
      × (joined ess ≡ map of_byte (chunk ++ left))
      × AllShort ess
      × (s''.files ≡ s'.files)
after_read [] left s' rest short ends later =
    ([], s', refl, ap (map of_byte) (sym (ends refl)), tt, refl)
after_read (b ∷ bs) left s' rest short ends later =
    let (ess, s'', e, j, all, f) = later (omega arith) in
    (
      map of_byte (b ∷ bs) ∷ ess,
      s'',
      and_then_lem _ e,
      ap (λ t. map of_byte (b ∷ bs) ++ t) j ∙ sym (map-append_bytes (b ∷ bs) left),
      (omega (arith, length-map (b ∷ bs) of_byte, short), all),
      f,
    )

nil_of_take : (n : ℕ) (xs : Bytes) → 0 < n → take n xs ≡ [] → drop n xs ≡ []
nil_of_take zero xs h e = elim h [ ]
nil_of_take (suc n) [] h e = refl
nil_of_take (suc n) (x ∷ xs) h e = cc

take-nil_ends : (left : Bytes) → take buf_size left ≡ [] → drop buf_size left ≡ []
unfolding buf_size
take-nil_ends left e = nil_of_take 4096 left (omega arith) e

length-chunk : (left : Bytes) → length (take buf_size left) ≤ 4096
unfolding buf_size
length-chunk left = omega (arith, length-take 4096 left)

length-behind :
    (left : Bytes) (fuel : ℕ)
    → length left ≤ 4096 * suc fuel
    → length (drop buf_size left) ≤ 4096 * fuel
unfolding buf_size
length-behind left fuel h = omega (arith, length-drop 4096 left)

length-chunk_le : (left : Bytes) → length (take buf_size left) ≤ length left
length-chunk_le left = omega (arith, length-take buf_size left)

pub read_arrays_lem :
    (fuel : ℕ) {d : ℕ} {path contents : Bytes} (left : Bytes) {s : Store} (text : Bytes)
    → Names text d
    → Reading d path contents left s
    → length left ≤ 4096 * fuel
    → (ess : List (List Element)) × (s' : Store) × (read_arrays (suc fuel) text s ≡ some (ess, s'))
      × (joined ess ≡ map of_byte left)
      × AllShort ess
      × (s'.files ≡ s.files)
unfolding read_arrays
read_arrays_lem zero left text names h few =
    let (s1, e1, h1, f1) = read_one text names h in
    let (ess, s2, e2, j, all, f2) =
      after_read (take buf_size left) (drop buf_size left) s1 (read_arrays zero text)
        (length-chunk left) (take-nil_ends left)
        (λ some_byte. absurd (omega (arith, length-chunk_le left))) in
    (
      ess,
      s2,
      and_then_lem _ e1 ∙ e2,
      j ∙ ap (map of_byte) (take-append-drop buf_size left),
      all,
      f2 ∙ f1,
    )
read_arrays_lem (suc fuel) left text names h few =
    let (s1, e1, h1, f1) = read_one text names h in
    let (ess, s2, e2, j, all, f2) =
      after_read (take buf_size left) (drop buf_size left) s1 (read_arrays (suc fuel) text)
        (length-chunk left) (take-nil_ends left)
        (λ some_byte.
          read_arrays_lem fuel (drop buf_size left) text names h1 (length-behind left fuel few)) in
    (
      ess,
      s2,
      and_then_lem _ e1 ∙ e2,
      j ∙ ap (map of_byte) (take-append-drop buf_size left),
      all,
      f2 ∙ f1,
    )
