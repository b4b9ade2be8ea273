-- ===== src/Repl/Highlight.antt =====
-- planck-c/repl.c: the cursor's hop to the bracket that a closing one matches, and the way back,
-- half a second later or at the next key. `highlight_coords_for_pos`, which asks the engine, the
-- width of the terminal and the timers are arguments. The counter of the hops is read and raised in
-- one step: two threads that restore at the same time are not modelled.
pub mod Moves
pub mod Home
pub mod Width
mod Tests
use planck.Prelude.{
  ℕ, zero, suc, ◌+◌, ◌*◌, ◌-◌, Bool, true, false, not, ◌&&◌, ◌||◌, Option, none, some, List, [],
  ◌∷◌, ◌++◌, Bytes, ◌==◌, leb, if◌then◌else◌, get_elem?,
}
use planck.Prelude.Int.{ℤ, pos, negsuc, sub_ℕ, ◌+ℤ◌, ◌-ℤ◌, ◌*ℤ◌, ◌/ℤ◌, ◌%ℤ◌, ◌≤ℤ◌, ltb_ℤ}

-- The sequences ESC [ n A, B, C and D.
pub data Escape : Type 0 where
  up down right left : ℤ → Escape

-- `struct hl_restore`.
pub record Restore : Type 0 where
  pub id : ℕ
  pub num_lines_up : ℤ
  pub relative_horiz : ℤ

-- The static variables, the timers that are to call `do_highlight_restore`, and what was printed.
pub record Highlights : Type 0 where
  pub highlight_restore_sequence : ℕ
  pub hl_restore : Restore
  pub timers : List Restore
  pub stdout : List Escape

abbrev pub no_highlights : Highlights
no_highlights = record {
  highlight_restore_sequence = 0;
  hl_restore = record { id = 0; num_lines_up = pos 0; relative_horiz = pos 0 };
  timers = [];
  stdout = [];
}

abbrev pub negated : ℤ → ℤ
negated n = pos 0 -ℤ n

abbrev pub is_zero : ℤ → Bool
is_zero (pos n) = n == 0
is_zero (negsuc n) = false

abbrev pub vertical : (ℤ → Escape) → ℤ → List Escape
vertical direction n = if not (is_zero n) then direction n ∷ [] else []

-- One direction for a negative number, and the other one for a positive number.
abbrev pub horizontal : (ℤ → Escape) → (ℤ → Escape) → ℤ → List Escape
horizontal if_negative if_positive n =
    if ltb_ℤ n (pos 0)
    then if_negative (negated n) ∷ []
    else if is_zero n
    then []
    else if_positive n ∷ []

unfoldable pub do_highlight_restore : Restore → Highlights → Highlights
do_highlight_restore r s =
    if r.id == s.highlight_restore_sequence
    then record s {
      highlight_restore_sequence = s.highlight_restore_sequence + 1;
      stdout = s.stdout ++ (vertical down r.num_lines_up ++ horizontal right left r.relative_horiz);
    }
    else s

unfoldable pub highlight_cancel : Highlights → Highlights
highlight_cancel s = if not (s.hl_restore.id == 0) then do_highlight_restore s.hl_restore s else s

-- The hop across the lines of the terminal that a long line takes; `none` is a division by zero.
unfoldable pub wrapped : ℕ → ℕ → ℤ → ℤ → ℤ → Option (ℤ × ℤ)
wrapped terminal_width prompt_length current_pos highlight_pos num_lines_up =
    let relative_horiz = highlight_pos -ℤ current_pos in
    let cursor_absolute_pos = current_pos +ℤ pos prompt_length +ℤ pos 1 in
    let highlight_absolute_pos = highlight_pos +ℤ pos prompt_length in
    if not (ltb_ℤ (pos terminal_width) cursor_absolute_pos)
    then some (num_lines_up, relative_horiz)
    else if terminal_width == 0
    then none
    else if not (ltb_ℤ (negated relative_horiz) (cursor_absolute_pos %ℤ terminal_width))
    then some (
      num_lines_up
          +ℤ (pos 1
              +ℤ (pos terminal_width *ℤ (cursor_absolute_pos /ℤ terminal_width)
                  -ℤ highlight_absolute_pos)
                /ℤ terminal_width),
      negated (negated relative_horiz -ℤ pos terminal_width) %ℤ terminal_width,
    )
    else some (num_lines_up, relative_horiz)

-- The hop, and the timer for the way back.
abbrev pub hop : ℤ → ℤ → Highlights → Highlights
hop num_lines_up relative_horiz s =
    let r : Restore = record {
      id = s.highlight_restore_sequence + 1;
      num_lines_up = num_lines_up;
      relative_horiz = relative_horiz;
    } in
    record {
      highlight_restore_sequence = s.highlight_restore_sequence + 1;
      hl_restore = r;
      timers = s.timers ++ r ∷ [];
      stdout = s.stdout ++ (vertical up num_lines_up ++ horizontal left right relative_horiz);
    }

abbrev pub too_long : ℕ → ℕ → ℤ → Bool
too_long terminal_width prompt_length cursor_absolute_pos =
    ltb_ℤ (pos (3 * terminal_width) -ℤ pos prompt_length) cursor_absolute_pos

abbrev pub hop_unless : Bool → Option (ℤ × ℤ) → Highlights → Option Highlights
hop_unless skip none s = none
hop_unless skip (some (num_lines_up, relative_horiz)) s =
    some (if skip then s else hop num_lines_up relative_horiz s)

-- `terminal_width` is that of `ioctl`, or 80 if it fails.
abbrev pub to_match : ℕ → ℕ → ℕ → Option (ℤ × ℤ) → Highlights → Option Highlights
to_match terminal_width prompt_length at none s = some s
to_match terminal_width prompt_length at (some (num_lines_up, highlight_pos)) s =
    let current_pos = pos (at + 1) in
    hop_unless (too_long terminal_width prompt_length (current_pos +ℤ pos prompt_length +ℤ pos 1))
      (wrapped terminal_width prompt_length current_pos highlight_pos num_lines_up) s

abbrev pub is_closing : Option ℕ → Bool
is_closing none = false
is_closing (some c) = c == b']' || (c == b'}' || c == b')')

-- `coords` are the lines up and the position of the matching bracket, `none` where there is none.
unfoldable pub highlight : ℕ → ℕ → Bytes → ℕ → Option (ℤ × ℤ) → Highlights → Option Highlights
highlight terminal_width prompt_length buf at coords s =
    if is_closing (get_elem? buf at)
    then to_match terminal_width prompt_length at coords s
    else some s

-- One event: a key, after which the text may be highlighted (with the arguments of `highlight`),
-- or a timer that has run out.
pub data Event : Type 0 where
  key : Event
  typed : ℕ → ℕ → Bytes → ℕ → Option (ℤ × ℤ) → Event
  timer : ℕ → Event

abbrev pub without {ℓ} : {A : Type ℓ} → ℕ → List A → List A
without k [] = []
without zero (x ∷ xs) = xs
without (suc k) (x ∷ xs) = x ∷ without k xs

abbrev pub fired : Option Restore → ℕ → Highlights → Highlights
fired none k s = s
fired (some r) k s = do_highlight_restore r (record s { timers = without k s.timers })

unfoldable pub handle : Event → Highlights → Option Highlights
handle key s = some (highlight_cancel s)
handle (typed terminal_width prompt_length buf at coords) s =
    highlight terminal_width prompt_length buf at coords (highlight_cancel s)
handle (timer k) s = some (fired (get_elem? s.timers k) k s)

abbrev pub after : Option Highlights → (Highlights → Option Highlights) → Option Highlights
after none f = none
after (some s) f = f s

unfoldable pub handle_all : List Event → Highlights → Option Highlights
handle_all [] s = some s
handle_all (e ∷ es) s = after (handle e s) (handle_all es)
