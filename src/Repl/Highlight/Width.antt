-- ===== src/Repl/Highlight/Width.antt =====
-- repl.c: the terminal's width in the arithmetic of the hop.
use planck.Repl.Highlight.{Highlights, wrapped, too_long, hop_unless, is_closing, highlight}
use planck.Prelude.{
  ℕ, ◌+◌, ◌≡◌, ◌↔◌, inl, inr, refl, Bool, true, false, Option, none, some, Bytes, ◌==◌, ==_iff,
  if◌then◌else◌, arith, Bool-cases, get_elem?,
}
use planck.Prelude.Int.{ℤ, pos, ◌+ℤ◌, ltb_ℤ}

past_no_column : (p at : ℕ) → ltb_ℤ (pos 0) (pos (at + 1) +ℤ pos p +ℤ pos 1) ≡ true
unfolding ◌+ℤ◌
past_no_column p at = ground arith

wrapped_iff : (w p at : ℕ) (h u : ℤ) → (wrapped w p (pos (at + 1)) h u ≡ none) ↔ (w ≡ 0)
unfolding wrapped
wrapped_iff w p at h u = (by_tests _ _ _ _ _, λ e. rw (e, past_no_column p at) refl)
  where
    by_tests :
        (inside near : Bool) (a b c : ℤ × ℤ)
        → (if inside then some a else if w == 0 then none else if near then some b else some c)
          ≡ none
        → w ≡ 0
    by_tests true near a b c e = cc
    by_tests false true a b c e = elim (Bool-cases (w == 0)) [
      | inl no_width ↦ (==_iff w 0).0 no_width
      | inr some_width ↦ let e' = rw some_width at e in cc
    ]
    by_tests false false a b c e = elim (Bool-cases (w == 0)) [
      | inl no_width ↦ (==_iff w 0).0 no_width
      | inr some_width ↦ let e' = rw some_width at e in cc
    ]

hop_unless_iff :
    (skip : Bool) (o : Option (ℤ × ℤ)) (s : Highlights) → (hop_unless skip o s ≡ none) ↔ (o ≡ none)
hop_unless_iff skip none s = (λ e. refl, λ e. refl)
hop_unless_iff skip (some hop) s = (λ e. cc, λ e. cc)

-- Behind a closing bracket that has a match, the arithmetic divides by zero exactly at a terminal
-- that reports a width of 0.
highlight_iff :
    (terminal_width prompt_length at : ℕ) (buf : Bytes) (coords : ℤ × ℤ) (s : Highlights)
    → is_closing (get_elem? buf at) ≡ true
    → (highlight terminal_width prompt_length buf at (some coords) s ≡ none) ↔ (terminal_width ≡ 0)
unfolding highlight
highlight_iff w p at buf (u, h) s closing =
    let unless =
      hop_unless_iff (too_long w p (pos (at + 1) +ℤ pos p +ℤ pos 1))
        (wrapped w p (pos (at + 1)) h u) s in
    let division = wrapped_iff w p at h u in
    (λ e. division.0 (unless.0 (rw closing at e)), λ e. rw closing (unless.1 (division.1 e)))
