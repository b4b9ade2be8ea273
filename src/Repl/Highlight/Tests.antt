-- ===== src/Repl/Highlight/Tests.antt =====
-- Runs of the highlighting of repl.c.
use planck.Repl.Highlight.{
  up, down, right, left, Restore, Highlights, no_highlights, do_highlight_restore, highlight_cancel,
  wrapped, highlight, Event, key, typed, timer, handle, handle_all,
}
use planck.Repl.Highlight.Moves.{home, position}
use planck.Repl.Highlight.Home.{handle_all-home}
use planck.Prelude.{◌≡◌, refl, some, List, [], ◌∷◌, codes}
use planck.Prelude.Int.{pos, ◌+ℤ◌, ◌-ℤ◌, ◌*ℤ◌, ◌/ℤ◌, ◌%ℤ◌}

-- A bracket in the same line and one two lines up; a timer runs out, and one comes too late.
abbrev some_events : List Event
some_events =
    typed 80 11 (codes "(a)") 2 (some (pos 0, pos 0))
    ∷ timer 0
    ∷ typed 80 11 (codes "b)") 1 (some (pos 2, pos 4))
    ∷ key
    ∷ timer 0
    ∷ []

abbrev second_hop : Restore
second_hop = record { id = 3; num_lines_up = pos 2; relative_horiz = pos 2 }

abbrev at_the_end : Highlights
at_the_end = record {
  highlight_restore_sequence = 4;
  hl_restore = second_hop;
  timers = [];
  stdout =
      left (pos 3) ∷ right (pos 3) ∷ up (pos 2) ∷ right (pos 2) ∷ down (pos 2) ∷ left (pos 2) ∷ [];
}

events_run : handle_all some_events no_highlights ≡ some at_the_end
unfolding handle_all handle highlight highlight_cancel do_highlight_restore wrapped ◌+ℤ◌ ◌-ℤ◌ ◌*ℤ◌
    ◌/ℤ◌ ◌%ℤ◌
events_run = refl

handle_all-home_example : position (highlight_cancel at_the_end).stdout home ≡ home
handle_all-home_example = handle_all-home some_events at_the_end events_run
