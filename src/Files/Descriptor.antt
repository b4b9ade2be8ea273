-- ===== src/Files/Descriptor.antt =====
-- functions.c: the text of a descriptor.
use mathlib.Core.Option
use planck.Memory.{memcpy, memcpy_lem, c_string, c_string_front, c_string-Free}
use planck.Text.Decimal.{
  digits_from, decimal, decimal-AllDigits, decimal-Nonempty, length-decimal, digits_from-decimal,
  AllDigits, AllDigits-Free,
}
use planck.Files.{descriptor_int_to_str, descriptor_str_to_int}
use planck.Prelude.{
  ℕ, ◌+◌, ◌^◌, ◌<◌, ◌≤◌, ◌≡◌, refl, ap, ◌∙◌, some, [], ◌∷◌, ◌++◌, Bytes, arith, length,
  length-append, length-replicate, replicate, drop, append_assoc,
}

text_fits :
    (s : Bytes)
    → length s ≤ 20
    → AllDigits s
    → Option.map c_string (memcpy (replicate 21 0) 0 (s ++ 0 ∷ [])) ≡ some s
text_fits s few all =
    rw
      (
        memcpy_lem (replicate 21 0) 0 (s ++ 0 ∷ [])
            (omega (arith, length-append s (0 ∷ []), length-replicate {A = ℕ} 21 0)),
        append_assoc s (0 ∷ []) (drop (0 + length (s ++ 0 ∷ [])) (replicate 21 0)),
        c_string_front s (drop (0 + length (s ++ 0 ∷ [])) (replicate 21 0)) (AllDigits-Free s all),
      )
      refl

-- The text of a descriptor fits into its block.
pub descriptor_int_to_str_lem : (i : ℕ) → i < 2 ^ 64 → descriptor_int_to_str i ≡ some (decimal 20 i)
unfolding descriptor_int_to_str
descriptor_int_to_str_lem i h =
    text_fits (decimal 20 i) (length-decimal 20 i) (decimal-AllDigits 20 i)

str_to_int_digits :
    (s : Bytes)
    → 0 < length s
    → AllDigits s
    → digits_from 0 s < 2 ^ 63
    → descriptor_str_to_int s ≡ some (digits_from 0 s)
unfolding descriptor_str_to_int
str_to_int_digits [] some_digit all h = elim some_digit [ ]
str_to_int_digits (c ∷ s) some_digit all h = ground arith

-- The text of a descriptor below 2^63 fits into its block of 21 bytes with the zero behind it, and
-- reading the text gives the descriptor.
pub descriptor_str_to_int-int_to_str :
    (i : ℕ)
    → i < 2 ^ 63
    → (s : Bytes) × (descriptor_int_to_str i ≡ some s)
      × (descriptor_str_to_int (c_string s) ≡ some i)
descriptor_str_to_int-int_to_str i h =
    let back : digits_from 0 (decimal 20 i) ≡ i = digits_from-decimal 20 i (omega arith) in
    (
      decimal 20 i,
      descriptor_int_to_str_lem i (omega arith),
      ap descriptor_str_to_int
            (c_string-Free (decimal 20 i) (AllDigits-Free (decimal 20 i) (decimal-AllDigits 20 i)))
          ∙ str_to_int_digits (decimal 20 i) (decimal-Nonempty 19 i) (decimal-AllDigits 20 i)
              (rw back h)
          ∙ ap some back,
    )
