-- ===== src/Sockets/Write.antt =====
-- sockets.c: `write_to_socket` writes the whole text, however the socket takes it.
use planck.Sockets.{
  Round, interrupted, select_failed, write_failed, taken, Written, complete, failed, waiting,
  write_loop, write_to_socket,
}
use planck.Prelude.{
  ℕ, ◌+◌, ◌-◌, ◌≤◌, ◌<◌, ◌≡◌, refl, ap, ◌∙◌, Bool, true, false, List, [], ◌∷◌, ◌++◌, Bytes, arith,
  ◌==◌, ==_iff, inl, inr, length, take, drop, take-append-drop, length-drop, ◌⊎◌, subst, take-all,
  append_assoc, if◌then◌else◌,
}

-- The result 0 means that all of the text was written; the written bytes are always a front of it.
abbrev pub Accounted : Bytes → Written → Type 0
Accounted text (complete written) = written ≡ text
Accounted text (failed written) = (rest : Bytes) × (written ++ rest ≡ text)
Accounted text (waiting rest written) = written ++ rest ≡ text

write_loop-Accounted :
    (all : Bytes) (rs : List Round) (text written : Bytes)
    → written ++ text ≡ all
    → Accounted all (write_loop rs text written)
unfolding write_loop
write_loop-Accounted all [] text written h = h
write_loop-Accounted all (interrupted ∷ rs) text written h =
    write_loop-Accounted all rs text written h
write_loop-Accounted all (select_failed ∷ rs) text written h = (text, h)
write_loop-Accounted all (write_failed ∷ rs) text written h = (text, h)
write_loop-Accounted all (taken n ∷ rs) text written h =
    let rest =
      write_loop-Accounted all rs (drop n text) (written ++ take n text)
        (append_assoc written _ _ ∙ ap (λ t. written ++ t) (take-append-drop n text) ∙ h) in
    by_length (n == length text) refl rest
  where
    by_length :
        (all_taken : Bool)
        → (n == length text) ≡ all_taken
        → Accounted all (write_loop rs (drop n text) (written ++ take n text))
        → Accounted all (
            if all_taken
            then complete (written ++ take n text)
            else write_loop rs (drop n text) (written ++ take n text))
    by_length true e rest =
        let whole : take n text ≡ text =
          take-all n text (omega (arith, (==_iff n (length text)).0 e)) in
        ap (λ t. written ++ t) whole ∙ h
    by_length false e rest = rest

-- Behind interruptions, every `write` takes at least one byte of those that remain, or all of them.
abbrev pub Takes : List Round → ℕ → Type 0
Takes [] remaining = Unit
Takes (interrupted ∷ rs) remaining = Takes rs remaining
Takes (select_failed ∷ rs) remaining = ⊥
Takes (write_failed ∷ rs) remaining = ⊥
Takes (taken n ∷ rs) remaining =
    (n ≡ remaining) ⊎ ((1 ≤ n) × (n < remaining) × Takes rs (remaining - n))

abbrev pub writes : List Round → ℕ
writes [] = 0
writes (taken n ∷ rs) = 1 + writes rs
writes (r ∷ rs) = writes rs

write_loop-complete :
    (rs : List Round) (text written : Bytes)
    → Takes rs (length text)
    → length text ≤ writes rs
    → 0 < writes rs
    → (w : Bytes) × (write_loop rs text written ≡ complete w)
unfolding write_loop
write_loop-complete [] text written t enough some_write = absurd (omega arith)
write_loop-complete (interrupted ∷ rs) text written t enough some_write =
    write_loop-complete rs text written t enough some_write
write_loop-complete (select_failed ∷ rs) text written t enough some_write = absurd t
write_loop-complete (write_failed ∷ rs) text written t enough some_write = absurd t
write_loop-complete (taken n ∷ rs) text written (inl e) enough some_write =
    (written ++ take n text, rw ((==_iff n (length text)).1 e) refl)
write_loop-complete (taken n ∷ rs) text written (inr (some_byte, part, t)) enough some_write =
    let left = length-drop n text in
    let (w, e) =
      write_loop-complete rs (drop n text) (written ++ take n text) (rw left t) (omega arith)
        (omega arith) in
    let goes_on : n == length text ≡ false = ground arith in (w, rw goes_on e)

-- However the socket takes the text, what was written is a front of it, and all of it where the
-- result is 0.
pub write_to_socket-Accounted :
    (rounds : List Round) (text : Bytes) → Accounted text (write_to_socket rounds text)
unfolding write_to_socket
write_to_socket-Accounted rounds text = write_loop-Accounted text rounds text [] refl

-- Where neither `select` nor `write` fails and a `write` takes at least one byte, or all, as many
-- calls of `write` as the text has bytes, and one at least, are enough for the result 0 with all of
-- the text written, however often `select` is interrupted.
pub write_to_socket-complete :
    (rounds : List Round) (text : Bytes)
    → Takes rounds (length text)
    → length text ≤ writes rounds
    → 0 < writes rounds
    → write_to_socket rounds text ≡ complete text
unfolding write_to_socket
write_to_socket-complete rounds text t enough some_write =
    let (w, e) = write_loop-complete rounds text [] t enough some_write in
    let whole : w ≡ text = subst (Accounted text) e (write_to_socket-Accounted rounds text) in
    e ∙ ap complete whole
