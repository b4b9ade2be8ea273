-- ===== src/System/Terminal/Stdin.antt =====
-- functions.c: `function_raw_read_stdin`, called until it returns null.
use planck.System.Terminal.{asked_for, read_from, function_raw_read_stdin}
use planck.Memory.{memcpy_lem, c_string, c_string_front}
use planck.Prelude.{
  ℕ, zero, suc, ◌+◌, ◌*◌, ◌≤◌, ◌≡◌, refl, ap, ◌∙◌, Bool, true, false, Option, none, some, [], ◌∷◌,
  ◌++◌, append_assoc, Bytes, Free, take, drop, length, replicate, length-append, length-take,
  length-drop, length-replicate, take-append-drop, arith,
}

-- A text of at most 1024 bytes, none of them zero, is in the buffer whole.
read_from_lem :
    (c : ℕ) (cs rest : Bytes)
    → Free 0 (c ∷ cs)
    → length (c ∷ cs) ≤ 1024
    → read_from (c ∷ cs) rest ≡ some (some (c ∷ cs), rest)
read_from_lem c cs rest free short =
    rw (memcpy_lem (replicate 1025 0) 0 ((c ∷ cs) ++ 0 ∷ []) fits) (
      ap (λ t. some (some (c_string t), rest)) (append_assoc (c ∷ cs) (0 ∷ []) _)
      ∙ ap (λ t. some (some t, rest)) (c_string_front (c ∷ cs) _ free))
  where
    fits : 0 + length ((c ∷ cs) ++ 0 ∷ []) ≤ length (replicate {A = ℕ} 1025 0)
    fits = omega (arith, length-append (c ∷ cs) (0 ∷ []), length-replicate {A = ℕ} 1025 0)

Free-take : (n : ℕ) (s : Bytes) → Free 0 s → Free 0 (take n s)
Free-take zero s free = tt
Free-take (suc n) [] free = tt
Free-take (suc n) (x ∷ s) free = (free.0, Free-take n s free.1)

Free-drop : (n : ℕ) (s : Bytes) → Free 0 s → Free 0 (drop n s)
Free-drop zero s free = free
Free-drop (suc n) [] free = tt
Free-drop (suc n) (x ∷ s) free = Free-drop n s free.1

abbrev onto : Bytes → Option Bytes → Option Bytes
onto s none = none
onto s (some rest) = some (s ++ rest)

abbrev then_next : Option (Option Bytes × Bytes) → (Bytes → Option Bytes) → Option Bytes
then_next none go_on = none
then_next (some (none, rest)) go_on = some []
then_next (some (some s, rest)) go_on = onto s (go_on rest)

-- All the texts until null; `none` if one is not returned, or the fuel runs out.
unfoldable pub read_until_null : ℕ → Bool → Bytes → Option Bytes
unfolding function_raw_read_stdin
read_until_null zero is_tty stdin = none
read_until_null (suc fuel) is_tty stdin =
    then_next (function_raw_read_stdin is_tty stdin) (read_until_null fuel is_tty)

-- One call, where something is left to read.
read_lem :
    (is_tty : Bool) (x : ℕ) (s : Bytes)
    → Free 0 (x ∷ s)
    → function_raw_read_stdin is_tty (x ∷ s)
      ≡ some (some (take (asked_for is_tty) (x ∷ s)), drop (asked_for is_tty) (x ∷ s))
unfolding function_raw_read_stdin
read_lem true x s free = read_from_lem x [] s (free.0, tt) (omega arith)
read_lem false x s free =
    read_from_lem x (take 1023 s) (drop 1023 s) (free.0, Free-take 1023 s free.1)
      (omega (arith, length-take 1023 s))

rest_within :
    (is_tty : Bool) (fuel : ℕ) (s : Bytes)
    → length s ≤ asked_for is_tty * suc fuel
    → length (drop (asked_for is_tty) s) ≤ asked_for is_tty * fuel
rest_within true fuel s h = omega (arith, length-drop 1 s)
rest_within false fuel s h = omega (arith, length-drop 1024 s)

-- On a terminal, where a call asks for one byte, as elsewhere, where it asks for 1024, the texts
-- until null are together what stdin delivers, if that has no zero; as many calls are enough as it
-- has such pieces, and one more.
pub read_until_null_lem :
    (fuel : ℕ) (is_tty : Bool) (stdin : Bytes)
    → Free 0 stdin
    → length stdin ≤ asked_for is_tty * fuel
    → read_until_null (suc fuel) is_tty stdin ≡ some stdin
unfolding read_until_null function_raw_read_stdin
read_until_null_lem fuel true [] free h = refl
read_until_null_lem fuel false [] free h = refl
read_until_null_lem zero true (x ∷ s) free h = let e : ⊥ = omega arith in elim e [ ]
read_until_null_lem zero false (x ∷ s) free h = let e : ⊥ = omega arith in elim e [ ]
read_until_null_lem (suc fuel) is_tty (x ∷ s) free h =
    ap (λ r. then_next r (read_until_null (suc fuel) is_tty)) (read_lem is_tty x s free)
    ∙ ap (onto (take (asked_for is_tty) (x ∷ s))) (
        read_until_null_lem fuel is_tty (drop (asked_for is_tty) (x ∷ s))
          (Free-drop (asked_for is_tty) (x ∷ s) free) (rest_within is_tty fuel (x ∷ s) h))
    ∙ ap some (take-append-drop (asked_for is_tty) (x ∷ s))
