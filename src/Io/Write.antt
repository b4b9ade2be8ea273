-- ===== src/Io/Write.antt =====
-- io.c: the loop of `write_contents`.
use planck.Prelude.{
  ℕ, zero, suc, ◌+◌, ◌-◌, ◌≤◌, ◌<◌, ◌≡◌, inl, inr, refl, ap, none, some, [], ◌∷◌, ◌++◌, Bytes,
  arith, length, take, drop, take-all, ltb, Bool-cases, ltb→lt, lt→ltb,
}
use planck.Io.{write_loop, write_contents}

-- Each call takes some of the bytes that it is offered, where there are any, and no more.
abbrev pub Progresses : (ℕ → ℕ → ℕ) → Type 0
Progresses fwrite = (round n : ℕ) → (fwrite round n ≤ n) × (0 < n → 0 < fwrite round n)

take-add : (a b : ℕ) (xs : Bytes) → take a xs ++ take b (drop a xs) ≡ take (a + b) xs
take-add zero b xs = let e : zero + b ≡ b = omega arith in rw e
take-add (suc a) b [] = let e : suc a + b ≡ suc (a + b) = omega arith in rw e (nothing b)
  where
    nothing : (k : ℕ) → ◌≡◌ {A = Bytes} (take k []) []
    nothing zero = refl
    nothing (suc k) = refl
take-add (suc a) b (x ∷ xs) =
    let e : suc a + b ≡ suc (a + b) = omega arith in rw e (ap (◌∷◌ x) (take-add a b xs))

write_loop_lem :
    (fwrite : ℕ → ℕ → ℕ) (p : Progresses fwrite) (contents : Bytes) (fuel round offset : ℕ)
    → offset ≤ length contents
    → length contents - offset < fuel
    → write_loop fuel fwrite round contents offset (take offset contents) ≡ some contents
unfolding write_loop
write_loop_lem fwrite p contents zero round offset h k = elim k [ ]
write_loop_lem fwrite p contents (suc fuel) round offset h k =
    let res = fwrite round (length contents - offset) in
    let (most, least) = p round (length contents - offset) in
    let grown = take-add offset res contents in
    elim (Bool-cases (ltb (offset + res) (length contents))) [
      | inl more ↦
          rw (more, grown)
            (write_loop_lem fwrite p contents fuel (round + 1) (offset + res) (omega arith)
              (omega (arith, ltb→lt _ _ more)))
      | inr done ↦ rw (done, grown) (ap some (take-all (offset + res) contents (ground arith)))
    ]

-- Where every call of `fwrite` takes at least one byte, the loop ends and the file holds the
-- contents; one more round than there are bytes is enough.
write_contents_lem :
    (fwrite : ℕ → ℕ → ℕ) (contents : Bytes) (fuel : ℕ)
    → Progresses fwrite
    → length contents < fuel
    → write_contents fuel fwrite contents ≡ some contents
unfolding write_contents
write_contents_lem fwrite contents fuel p h =
    write_loop_lem fwrite p contents fuel 0 0 (omega arith) (omega arith)

-- Once `fwrite` takes nothing, as on a full disk, the loop never ends: its test for an error asks
-- for a negative result, which `fwrite` does not have.
write_loop_stuck :
    (fwrite : ℕ → ℕ → ℕ) (contents written : Bytes) (fuel round offset : ℕ)
    → ((later n : ℕ) → round ≤ later → fwrite later n ≡ 0)
    → offset < length contents
    → write_loop fuel fwrite round contents offset written ≡ none
unfolding write_loop
write_loop_stuck fwrite contents written zero round offset full h = refl
write_loop_stuck fwrite contents written (suc fuel) round offset full h =
    let nothing = full round (length contents - offset) (omega arith) in
    let same : offset + 0 ≡ offset = omega arith in
    rw nothing (
      rw (same, lt→ltb _ _ h)
        (write_loop_stuck fwrite contents _ fuel (round + 1) offset
          (λ l n r. full l n (omega arith)) h))
