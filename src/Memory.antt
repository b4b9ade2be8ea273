-- ===== src/Memory.antt =====
-- Blocks of memory, as `malloc`, `realloc` and `memcpy` treat them: lists of bytes of a fixed
-- length, in which a write beyond the end is caught.
use planck.Prelude.{
  ℕ, ◌+◌, ◌-◌, ◌≤◌, ◌≡◌, refl, sym, ap, ◌∙◌, Option, none, some, [], ◌∷◌, ◌++◌, append_assoc, ◌==◌,
  Free, Bytes, arith, ltb, if◌then◌else◌, length, take, drop, replicate, get_elem?, length-append,
  length-take, length-drop, length-replicate, take-append_exact, take-append_le, take-all,
  get_elem?-append_exact,
}

-- A write of `buf` at `at`; `none` if it leaves the block.
unfoldable pub memcpy : Bytes → ℕ → Bytes → Option Bytes
memcpy memory at buf =
    if ltb (length memory) (at + length buf)
    then none
    else some (take at memory ++ (buf ++ drop (at + length buf) memory))

-- The bytes that are gained have no known value; 0 stands for it.
unfoldable pub realloc : Bytes → ℕ → Bytes
realloc memory new_length = take new_length memory ++ replicate (new_length - length memory) 0

pub memcpy_lem :
    (m : Bytes) (at : ℕ) (buf : Bytes)
    → at + length buf ≤ length m
    → memcpy m at buf ≡ some (take at m ++ (buf ++ drop (at + length buf) m))
unfolding memcpy
memcpy_lem m at buf h = ground arith

length-take_within : (n : ℕ) (m : Bytes) → n ≤ length m → length (take n m) ≡ n
length-take_within n m h = omega (arith, length-take n m)

pub take_front : (k : ℕ) (xs ys : Bytes) → k ≡ length xs → take k (xs ++ ys) ≡ xs
take_front k xs ys e = rw e (take-append_exact xs ys)

abbrev pub spliced : Bytes → ℕ → Bytes → Bytes
spliced m at buf = take at m ++ (buf ++ drop (at + length buf) m)

module _ (m : Bytes) (at : ℕ) (buf : Bytes) (fits : at + length buf ≤ length m) where
  pub length-spliced : length (spliced m at buf) ≡ length m
  length-spliced = omega (
    arith,
    length-append (take at m) (buf ++ drop (at + length buf) m),
    length-append buf (drop (at + length buf) m),
    length-take at m,
    length-drop (at + length buf) m,
  )

  pub take-spliced : take (at + length buf) (spliced m at buf) ≡ take at m ++ buf
  take-spliced =
      ap (take (at + length buf)) (sym (append_assoc (take at m) buf (drop (at + length buf) m)))
      ∙ take_front (at + length buf) (take at m ++ buf) _
          (omega (arith, length-append (take at m) buf, length-take at m))

  pub take-spliced_front : take at (spliced m at buf) ≡ take at m
  take-spliced_front =
      let size : length (take at m) ≡ at = omega (arith, length-take at m) in
      take-append_le at (take at m) _ (omega arith) ∙ take-all at (take at m) (omega arith)

pub realloc-take :
    (m : Bytes) (new k : ℕ) → length m ≤ new → k ≤ length m → take k (realloc m new) ≡ take k m
unfolding realloc
realloc-take m new k h g =
    rw (take-all new m h) (take-append_le k m (replicate (new - length m) 0) g)

pub length-realloc : (m : Bytes) (new : ℕ) → length m ≤ new → length (realloc m new) ≡ new
unfolding realloc
length-realloc m new h = rw (take-all new m h) (
    omega (
      arith,
      length-append m (replicate (new - length m) 0),
      length-replicate {A = ℕ} (new - length m) 0,
    ))

pub elem_after :
    (xs : Bytes) (c : ℕ) (rest : Bytes) (at : ℕ)
    → at ≡ length xs + 0
    → get_elem? (xs ++ c ∷ rest) at ≡ some c
elem_after xs c rest at e = rw e (get_elem?-append_exact xs (c ∷ rest) 0)

-- A block as a C string: the bytes in front of the first zero.
unfoldable pub c_string : Bytes → Bytes
c_string [] = []
c_string (c ∷ cs) = let rest = c_string cs in if c == 0 then [] else c ∷ rest

pub c_string_front : (s rest : Bytes) → Free 0 s → c_string (s ++ 0 ∷ rest) ≡ s
unfolding c_string
c_string_front [] rest free = refl
c_string_front (c ∷ s) rest free = ground (arith, c_string_front s rest free.1, free.0)

-- A zero ends the string, whatever stands in front of it.
pub c_string_ended : (s rest : Bytes) → c_string (s ++ 0 ∷ rest) ≡ c_string s
unfolding c_string
c_string_ended [] rest = refl
c_string_ended (c ∷ s) rest = ground (arith, c_string_ended s rest)

pub c_string-Free : (s : Bytes) → Free 0 s → c_string s ≡ s
unfolding c_string
c_string-Free [] free = refl
c_string-Free (c ∷ s) free = ground (arith, c_string-Free s free.1, free.0)
