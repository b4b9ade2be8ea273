-- ===== src/Shell/Capture.antt =====
-- shell.c: the buffer of a child's output.
use planck.Memory.{
  realloc, memcpy_lem, spliced, length-spliced, take-spliced, realloc-take, length-realloc,
  c_string, c_string_ended,
}
use planck.Prelude.{
  ℕ, ◌+◌, ◌*◌, ◌/◌, ◌≤◌, ◌≡◌, refl, ap, ◌∙◌, true, false, some, [], ◌∷◌, ◌++◌, Bytes, arith, ◌==◌,
  length, take, Bool-cases, inl, inr, ==_iff, ◌≢◌, length-append, length-replicate, drop,
}
use planck.Shell.Pipes.{
  Capture, bytes, at_end, received, buffer, start_total, num_to_read, block_size, read_child_pipe,
  stored, no_capture, text_of,
}

-- The buffer holds the text, and has a block's room from the last full block on.
pub record Holds (text : Bytes) (c : Capture) : Type 0 where
  pub sized : length (buffer c) ≡ (start_total c / block_size + 1) * block_size
  pub filled : take (start_total c) (buffer c) ≡ text
  pub total_is : start_total c ≡ length text

pub no_capture-Holds : Holds [] no_capture
no_capture-Holds = record {
  sized = length-replicate {A = ℕ} block_size 1;
  filled = refl;
  total_is = refl;
}

stored-Holds :
    (text read : Bytes) (total : ℕ) (b : Bytes)
    → length b ≡ (total / block_size + 1) * block_size
    → take (total + length read) b ≡ text ++ read
    → total ≡ length text
    → length read ≤ num_to_read total
    → (c : Capture) × (stored total (length read) (some b) ≡ received c false)
      × Holds (text ++ read) c
stored-Holds text read total b sized filled total_is fits =
    elim (Bool-cases (length read == num_to_read total)) [
      | inl full ↦
          let exact : length read ≡ num_to_read total =
            (==_iff (length read) (num_to_read total)).0 full in
          let new : ℕ = total + length read + block_size in
          let grows : length b ≤ new = omega (arith, sized, exact) in
          (
            record { buf = some (realloc b new); total = total + length read },
            rw full refl,
            record {
              sized = length-realloc b new grows ∙ omega (arith, exact);
              filled =
                  realloc-take b new (total + length read) grows (omega (arith, sized, exact))
                  ∙ filled;
              total_is = omega (arith, total_is, length-append text read);
            },
          )
      | inr part ↦ (
        record { buf = some b; total = total + length read },
        rw part refl,
        record {
          sized = sized ∙ same_block total (length read) fits (not_full part);
          filled = filled;
          total_is = omega (arith, total_is, length-append text read);
        },
      )
    ]
  where
    not_full : (length read == num_to_read total) ≡ false → length read ≢ num_to_read total
    not_full f e = ground (arith, f, e)

    same_block :
        (t n : ℕ)
        → n ≤ num_to_read t
        → n ≢ num_to_read t
        → (t / block_size + 1) * block_size ≡ ((t + n) / block_size + 1) * block_size
    same_block t n f g = omega arith

-- What a read delivers is appended inside the buffer, which has a byte to spare afterwards.
pub read_child_pipe-Holds :
    (text read : Bytes) (c : Capture)
    → Holds text c
    → length read ≤ num_to_read (start_total c)
    → (c' : Capture) × (read_child_pipe (bytes read) c ≡ received c' false)
      × Holds (text ++ read) c'
unfolding read_child_pipe
read_child_pipe-Holds text read c h fits =
    let total : ℕ = start_total c in
    let within : total + length read ≤ length (buffer c) = omega (arith, h.sized) in
    rw (memcpy_lem (buffer c) total read within) (
      stored-Holds text read total (spliced (buffer c) total read)
        (length-spliced (buffer c) total read within ∙ h.sized)
        (take-spliced (buffer c) total read within ∙ ap (λ (t : Bytes). t ++ read) h.filled)
        h.total_is fits)

-- The end puts the zero inside the buffer, behind the text.
pub read_child_pipe-end :
    (text : Bytes) (c : Capture)
    → Holds text c
    → (c' : Capture) × (read_child_pipe at_end c ≡ received c' true) × (text_of c' ≡ c_string text)
unfolding read_child_pipe text_of
read_child_pipe-end text c h =
    let total : ℕ = start_total c in
    let within : total + 1 ≤ length (buffer c) = omega (arith, h.sized) in
    (
      record { buf = some (spliced (buffer c) total (0 ∷ [])); total = total },
      rw (memcpy_lem (buffer c) total (0 ∷ []) within),
      c_string_ended (take total (buffer c)) (drop (total + 1) (buffer c)) ∙ ap c_string h.filled,
    )
