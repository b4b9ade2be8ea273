-- ===== src/Io/Copy/Complete.antt =====
-- io.c: a copy is complete.
use planck.Prelude.{
  ℕ, zero, suc, ◌+◌, ◌≤◌, ◌<◌, ◌≡◌, refl, sym, ap, ◌∙◌, Bool, true, Option, some, [], ◌∷◌, ◌++◌,
  append-nil, append_assoc, Bytes, arith, length, take, drop, take-append-drop, length-drop,
}
use planck.Io.Copy.{
  Reads, data_block, end_of_file, read_error, Written, wrote, Progress, continue_block, write_block,
  copy_loop, opened, already_exists, copy_file_loop, copy_file_loop_unlinking, success,
}

-- Each call takes some of the bytes that it is offered.
abbrev pub Takes : (ℕ → ℕ → Written) → Type 0
Takes write = (call n : ℕ) → 0 < n → (k : ℕ) × (write call n ≡ wrote k) × (0 < k) × (k ≤ n)

abbrev pub all_bytes : Reads → Bytes
all_bytes (data_block block rest) = block ++ all_bytes rest
all_bytes _ = []

-- No read fails, and each block has between one byte and the bound.
abbrev pub Delivers : ℕ → Reads → Type 0
Delivers bound (data_block block rest) =
    (0 < length block) × (length block ≤ bound) × Delivers bound rest
Delivers bound end_of_file = Unit
Delivers bound read_error = ⊥

-- Behind one call of `write`: the block is done, or the rest is written by the next calls.
after_write :
    (block left : Bytes) (n : ℕ) (p p' : Progress)
    (loop : Bytes → Progress → Option (Progress × Bool)) (write : ℕ → ℕ → Written)
    → drop n block ≡ left
    → p'.file ≡ p.file ++ take n block
    → (0 < length left
        → (q : Progress) × (loop left p' ≡ some (q, true)) × (q.file ≡ p'.file ++ left))
    → (q : Progress) × (continue_block write (left, p', true) loop ≡ some (q, true))
      × (q.file ≡ p.file ++ block)
after_write block [] n p p' loop write d f later = (
  p',
  refl,
  f
      ∙ ap (λ (t : Bytes). p.file ++ t)
          (sym (append-nil (take n block))
            ∙ ap (λ (t : Bytes). take n block ++ t) (sym d)
            ∙ take-append-drop n block),
)
after_write block (c ∷ left) n p p' loop write d f later =
    let (q, e, g) = later (omega arith) in
    (
      q,
      e,
      g
          ∙ ap (λ (t : Bytes). t ++ c ∷ left) f
          ∙ append_assoc p.file (take n block) (c ∷ left)
          ∙ ap (λ (t : Bytes). p.file ++ t)
              (ap (λ (t : Bytes). take n block ++ t) (sym d) ∙ take-append-drop n block),
    )

module _ (write : ℕ → ℕ → Written) (takes : Takes write) where
  write_block_lem :
      (fuel : ℕ) (block : Bytes) (p : Progress)
      → 0 < length block
      → length block ≤ fuel
      → (q : Progress) × (write_block write fuel block p ≡ some (q, true))
        × (q.file ≡ p.file ++ block)
  unfolding write_block
  write_block_lem zero block p h k = absurd (omega arith)
  write_block_lem (suc fuel) block p h k =
      let (n, e, least, most) = takes p.calls (length block) h in
      let p' : Progress = record { calls = p.calls + 1; file = p.file ++ take n block } in
      rw e (
        after_write block (drop n block) n p p' (write_block write fuel) write refl refl (λ more.
          write_block_lem fuel (drop n block) p' more (omega (arith, length-drop n block))))

  copy_loop_lem :
      (fuel : ℕ) (reads : Reads) (p : Progress)
      → Delivers fuel reads
      → (q : Progress) × (copy_loop write fuel true reads p ≡ some (q, true))
        × (q.file ≡ p.file ++ all_bytes reads)
  unfolding copy_loop
  copy_loop_lem fuel end_of_file p d = (p, refl, sym (append-nil p.file))
  copy_loop_lem fuel read_error p d = absurd d
  copy_loop_lem fuel (data_block block rest) p d =
      let (q, e, f) = write_block_lem fuel block p d.0 d.1 in
      let (r, e', f') = copy_loop_lem fuel rest q d.2 in
      (
        r,
        rw e e',
        f' ∙ ap (λ (t : Bytes). t ++ all_bytes rest) f ∙ append_assoc p.file block (all_bytes rest),
      )

  -- Where both files open, no read fails, every write takes at least one byte and the copy can be
  -- closed, the copy ends with success and holds all the bytes of the original, however the
  -- writes cut them up. As many calls for each block as it has bytes are enough.
  pub copy_file_loop_lem :
      (fuel : ℕ) (reads : Reads)
      → Delivers fuel reads
      → copy_file_loop fuel write true (some reads) opened ≡ some (success (all_bytes reads))
  unfolding copy_file_loop
  copy_file_loop_lem fuel reads d =
      let (q, e, f) = copy_loop_lem fuel reads (record { calls = 0; file = [] }) d in
      rw e (ap (λ (t : Bytes). some (success t)) f)

  -- Where the original opens, no read or write fails, every write takes at least one byte and the copy
  -- can be closed: a copy that is there already is replaced, if it can be removed and then opens, by
  -- all the bytes of the original, however the writes cut them up.
  pub copy_file_loop_unlinking_lem :
      (fuel : ℕ) (reads : Reads)
      → Delivers fuel reads
      → copy_file_loop_unlinking fuel write true (some reads) already_exists true opened
        ≡ some (success (all_bytes reads))
  unfolding copy_file_loop_unlinking copy_file_loop
  copy_file_loop_unlinking_lem fuel reads d = copy_file_loop_lem fuel reads d
