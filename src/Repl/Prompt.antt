-- ===== src/Repl/Prompt.antt =====
-- repl.c: the prompts fit their blocks, and the two have one width.
use planck.Memory.{
  memcpy, memcpy_lem, spliced, length-spliced, take_front, c_string, c_string_front,
}
use planck.Prelude.{
  ℕ, zero, suc, ◌+◌, ◌≤◌, ◌<◌, ◌≡◌, sym, ap, ◌∙◌, true, false, some, [], ◌∷◌, ◌++◌, append_assoc,
  Bytes, codes, Free, arith, ltb, if◌then◌else◌, length, take, drop, replicate, length-append,
  length-replicate,
}
use planck.Repl.{Repl, prompt, form_prompt, sprintf, in_block, malloc, prompt_min_len, ns_len_extra}

Free-replicate : (n : ℕ) (s : Bytes) → Free 0 s → Free 0 (replicate n b' ' ++ s)
Free-replicate zero s free = free
Free-replicate (suc n) s free = (λ e. cc, Free-replicate n s free)

Free-append : (s t : Bytes) → Free 0 s → Free 0 t → Free 0 (s ++ t)
Free-append [] t f g = g
Free-append (c ∷ s) t f g = (f.0, Free-append s t f.1 g)

-- A text behind others in a block that has room for it and for the zero.
sprintf_lem :
    (block s : Bytes) (at : ℕ)
    → Free 0 (take at block ++ s)
    → at + length s + 1 ≤ length block
    → in_block (sprintf (some block) at s) ≡ prompt (take at block ++ s)
sprintf_lem block s at free fits =
    let text : Bytes = s ++ 0 ∷ [] in
    let rest : Bytes = drop (at + length text) block in
    rw (memcpy_lem block at text (omega (arith, length-append s (0 ∷ [])))) (
      ap prompt (
        ap c_string (
          ap (λ (t : Bytes). take at block ++ t) (append_assoc s (0 ∷ []) rest)
          ∙ sym (append_assoc (take at block) s (0 ∷ rest)))
        ∙ c_string_front (take at block ++ s) rest free))

abbrev pub primary : Bytes → Bytes
primary ns = if ltb (length ns) 2 then b' ' ∷ ns ++ codes "=> " else ns ++ codes "=> "

abbrev pub secondary : Bytes → Bytes
secondary ns = replicate (ns_len_extra ns) b' ' ++ codes "#_=> "

Free-arrow : Free 0 (codes "=> ")
Free-arrow = (λ e. cc, (λ e. cc, (λ e. cc, tt)))

Free-mark : Free 0 (codes "#_=> ")
Free-mark = (λ e. cc, (λ e. cc, (λ e. cc, (λ e. cc, (λ e. cc, tt)))))

small_fits :
    (ns : Bytes)
    → Free 0 ns
    → length ns < 2
    → in_block (sprintf (some (malloc prompt_min_len)) 0 (b' ' ∷ ns ++ codes "=> "))
      ≡ prompt (b' ' ∷ ns ++ codes "=> ")
small_fits ns free small =
    sprintf_lem (malloc prompt_min_len) (b' ' ∷ ns ++ codes "=> ") 0
      (λ e. cc, Free-append ns _ free Free-arrow) (omega (arith, length-append ns (codes "=> ")))

secondary_fits :
    (ns : Bytes) (extra : ℕ)
    → in_block (
        sprintf
          (memcpy (malloc (prompt_min_len + extra)) 0 (replicate extra b' '))
          extra
          (codes "#_=> "))
      ≡ prompt (replicate extra b' ' ++ codes "#_=> ")
secondary_fits ns extra =
    let block : Bytes = malloc (prompt_min_len + extra) in
    let blanks : Bytes = replicate extra b' ' in
    let size : length block ≡ prompt_min_len + extra =
      length-replicate (prompt_min_len + extra) 1 in
    let width : length blanks ≡ extra = length-replicate extra b' ' in
    let fits : 0 + length blanks ≤ length block = omega (arith, size, width) in
    let front : take extra (spliced block 0 blanks) ≡ blanks =
      take_front extra blanks _ (omega (arith, width)) in
    rw (memcpy_lem block 0 blanks fits) (
      sprintf_lem (spliced block 0 blanks) (codes "#_=> ") extra
        (rw front (Free-replicate extra (codes "#_=> ") Free-mark))
        (omega (arith, length-spliced block 0 blanks fits, size))
      ∙ ap (λ (t : Bytes). prompt (t ++ codes "#_=> ")) front)

-- For a namespace without a zero byte, on a terminal that is not dumb and in the first session,
-- both prompts fit the blocks that are allocated for them, and they are as wide as each other if
-- the namespace is not empty, however long it is.
pub form_prompt-aligned :
    (r : Repl)
    → Free 0 r.current_ns
    → r.session_id ≡ 0
    → (form_prompt false r false ≡ prompt (primary r.current_ns))
      × (form_prompt false r true ≡ prompt (secondary r.current_ns))
      × (1 ≤ length r.current_ns → length (primary r.current_ns) ≡ length (secondary r.current_ns))
unfolding form_prompt
form_prompt-aligned r free first = (
  ground (arith, small_fits r.current_ns free),
  ground (arith, secondary_fits r.current_ns (ns_len_extra r.current_ns)),
  λ least. ground (
    arith,
    length-append r.current_ns (codes "=> "),
    length-append (replicate (ns_len_extra r.current_ns) b' ') (codes "#_=> "),
    length-replicate {A = ℕ} (ns_len_extra r.current_ns) b' ',
  ),
)
