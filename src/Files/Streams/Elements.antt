-- ===== src/Files/Streams/Elements.antt =====
-- functions.c: what an output stream writes for the elements of an array.
use planck.Javascript.{
  Element, finite, nan, below, above, num, str, other, string, array, in_byte_range,
}
use planck.Files.{Stdio, Store, and_then_lem, descriptor_str_to_int}
use planck.Memory.{c_string}
use planck.Files.Streams.{
  function_file_output_stream_write, returned_null, complaints, fill, byte_for,
}
use planck.Files.Streams.Writing.{Holds, file_write-Holds}
use planck.Prelude.{
  ℕ, ◌≤◌, ◌<◌, ◌≡◌, refl, sym, subst, ◌⊎◌, inl, inr, Bool-cases, leb, true, false, Option, some,
  List, [], ◌∷◌, ◌++◌, Bytes, arith, length, ltb,
}
use planck.Prelude.Int.{pos, negsuc}

-- A number from 0 to 255, perhaps with a fraction that does not lead beyond 255, and its whole part.
pub data IsByte : Element → ℕ → Type 0 where
  whole : {n : ℕ} → n ≤ 255 → IsByte (num (finite (pos n) false)) n
  broken : {n : ℕ} → n < 255 → IsByte (num (finite (pos n) true)) n

IsByte-in_range : {e : Element} {n : ℕ} (old : ℕ) → IsByte e n → byte_for e old ≡ n
unfolding in_byte_range
IsByte-in_range old (whole h) = ground arith
IsByte-in_range old (broken h) = ground arith

not_byte : (e : Element) (old : ℕ) → ((n : ℕ) → ¬ (IsByte e n)) → byte_for e old ≡ old
unfolding in_byte_range
not_byte (num nan) old h = refl
not_byte (num below) old h = refl
not_byte (num above) old h = refl
not_byte (num (finite (negsuc n) f)) old h = refl
not_byte (num (finite (pos n) false)) old h = ground (arith, λ (p : n ≤ 255). h n (whole p))
not_byte (num (finite (pos n) true)) old h = ground (arith, λ (p : n < 255). h n (broken p))
not_byte (str s) old h = refl
not_byte other old h = refl

-- A block as the loop leaves it: for each element its byte, or the byte that was there.
pub data Filled : List Element → Bytes → Bytes → Type 0 where
  done : Filled [] [] []
  byte :
      {e : Element} {es : List Element} {n old : ℕ} {block buf : Bytes}
      → IsByte e n
      → Filled es block buf
      → Filled (e ∷ es) (old ∷ block) (n ∷ buf)
  no_byte :
      {e : Element} {es : List Element} {old : ℕ} {block buf : Bytes}
      → ¬ ((n : ℕ) × IsByte e n)
      → Filled es block buf
      → Filled (e ∷ es) (old ∷ block) (old ∷ buf)

abbrev Bounded : Element → Type 0
Bounded (num (finite (pos n) false)) = n ≤ 255
Bounded (num (finite (pos n) true)) = n < 255
Bounded _ = Unit

IsByte-bound : {e : Element} {n : ℕ} → IsByte e n → Bounded e
IsByte-bound (whole h) = h
IsByte-bound (broken h) = h

within_or_beyond : (e : Element) → ((n : ℕ) × IsByte e n) ⊎ (¬ ((n : ℕ) × IsByte e n))
within_or_beyond (num nan) = inr (λ p. elim p.1 [ ])
within_or_beyond (num below) = inr (λ p. elim p.1 [ ])
within_or_beyond (num above) = inr (λ p. elim p.1 [ ])
within_or_beyond (num (finite (negsuc n) f)) = inr (λ p. elim p.1 [ ])
within_or_beyond (num (finite (pos n) false)) = elim (Bool-cases (leb n 255)) [
  | inl few ↦ inl (n, whole (ground arith))
  | inr many ↦ inr (λ p. let b = IsByte-bound p.1 in ground arith)
]
within_or_beyond (num (finite (pos n) true)) = elim (Bool-cases (ltb n 255)) [
  | inl few ↦ inl (n, broken (ground arith))
  | inr many ↦ inr (λ p. let b = IsByte-bound p.1 in ground arith)
]
within_or_beyond (str s) = inr (λ p. elim p.1 [ ])
within_or_beyond other = inr (λ p. elim p.1 [ ])

fill-Filled :
    (es : List Element) (block : Bytes) → length block ≡ length es → Filled es block (fill es block)
unfolding fill
fill-Filled [] [] e = done
fill-Filled [] (b ∷ block) e = absurd (omega (arith, e))
fill-Filled (x ∷ es) [] e = absurd (omega (arith, e))
fill-Filled (x ∷ es) (b ∷ block) e =
    let rest = fill-Filled es block (omega (arith, e)) in
    elim (within_or_beyond x) [
      | inl (n, p) ↦
          subst (λ t. Filled (x ∷ es) (b ∷ block) (t ∷ fill es block)) (sym (IsByte-in_range b p))
            (byte p rest)
      | inr np ↦
          subst (λ t. Filled (x ∷ es) (b ∷ block) (t ∷ fill es block))
            (sym (not_byte x b (λ n p. np (n, p)))) (no_byte np rest)
    ]

-- For each element the file gets one byte, behind what it holds: the whole part of a number from 0
-- to 255, and for anything else the byte that the new block of memory happened to have there. The
-- stream is open for writing, the text is that of its descriptor, and there is memory for the block.
pub function_file_output_stream_write_lem :
    (c : Stdio) (malloc : ℕ → Option Bytes) (text : Bytes) (es : List Element) {d : ℕ}
    {path contents block : Bytes} {before : Bytes → Option Bytes} {s : Store}
    → Holds d path contents before s
    → descriptor_str_to_int (c_string text) ≡ some d
    → malloc (length es) ≡ some block
    → length block ≡ length es
    → (buf : Bytes) × (s' : Store) × (function_file_output_stream_write c malloc
          (string text ∷ array es ∷ [])
          s
        ≡ some (returned_null (complaints es), s'))
      × Holds d path (contents ++ buf) before s'
      × Filled es block buf
unfolding function_file_output_stream_write
function_file_output_stream_write_lem c malloc text es {block} h names e size =
    let (s', w, h') = file_write-Holds h c (fill es block) in
    (fill es block, s', rw e (rw names (and_then_lem _ w)), h', fill-Filled es block size)
