-- ===== src/Repl/Run.antt =====
-- planck-c/repl.c: `run_repl`. What linenoise is told, and the printed messages, are left out; the
-- keymap file and the results of the socket library are arguments.
use planck.Keymap.{Keymap, Reads, initial, load_keymap}
use planck.Sockets.{Opened, bind_and_listen}
use planck.Repl.{Repl, make_repl, form_prompt, field_of, Engine, World, Processed, Typed}
use planck.Repl.Process.{run_cmdline_loop}
use planck.Repl.Loop.{Matches}
use planck.Prelude.{
  ◌≡◌, refl, Bool, true, false, Option, none, some, List, ◌++◌, Bytes, codes, inl, inr, ◌⊎◌, ◌==◌,
  if◌then◌else◌,
}
use planck.Prelude.Int.{ℤ, pos, negsuc}

-- The REPL ends before its loop where the keymap cannot be read, and else as the loop does.
pub data Ran (S : Type 0) : Type 0 where
  keymap_failed : Keymap → Ran S
  looped : Repl → Option Opened → Processed S → Ran S

abbrev first_repl : Bool → Repl
first_repl dumb_terminal = record make_repl {
  current_prompt = field_of (form_prompt dumb_terminal make_repl false);
}

abbrev with_keymap : Keymap × Bool → Repl → Keymap ⊎ Repl
with_keymap (k, true) r = inr r
with_keymap (k, false) r = inl k

-- The REPL for the terminal, with the home directory and its keymap file; on the left where the
-- keymap cannot be read.
unfoldable pub terminal_repl : Bool → Option Bytes → Option Reads → Keymap ⊎ Repl
terminal_repl true home keymap = inr (first_repl true)
terminal_repl false none keymap = inr (first_repl false)
terminal_repl false (some home) keymap =
    with_keymap (load_keymap keymap initial)
      (record (first_repl false) { history_path = some (home ++ codes "/.planck_history") })

abbrev is_zero : ℤ → Bool
is_zero (pos n) = n == 0
is_zero (negsuc n) = false

-- The socket REPL, where a port is set, with the results of `socket`, `bind` and `listen`.
abbrev listening : ℤ → ℤ × ℤ × ℤ → Option Opened
listening port (socket_desc, bound, listened) =
    if is_zero port then none else some (bind_and_listen socket_desc bound listened)

module _ (e : Engine) (config_dumb_terminal : Bool) (theme : Bytes) where
  abbrev start_loop : ℤ → ℤ × ℤ × ℤ → List Typed → World e.S → Keymap ⊎ Repl → Ran e.S
  start_loop port sockets typed w (inl k) = keymap_failed k
  start_loop port sockets typed w (inr r) =
      looped r (listening port sockets) (run_cmdline_loop e config_dumb_terminal theme typed r w)

  unfoldable pub run_repl :
      Option Bytes → Option Reads → ℤ → ℤ × ℤ × ℤ → List Typed → World e.S → Ran e.S
  run_repl home keymap port sockets typed w =
      start_loop port sockets typed w (terminal_repl config_dumb_terminal home keymap)

  -- The loop starts with the primary prompt and nothing pending, on a dumb terminal always; on
  -- another one it does not start where a keymap file is there that cannot be read.
  abbrev pub Started : Option Reads → List Typed → World e.S → Ran e.S → Type 0
  Started keymap typed w (keymap_failed k) =
      (config_dumb_terminal ≡ false) × (load_keymap keymap initial ≡ (k, false))
  Started keymap typed w (looped r s p) =
      Matches e config_dumb_terminal theme r
      × (r.input ≡ none)
      × (p ≡ run_cmdline_loop e config_dumb_terminal theme typed r w)

run_repl-Started :
    (e : Engine) (dumb : Bool) (theme : Bytes) (home : Option Bytes) (keymap : Option Reads)
    (port : ℤ) (sockets : ℤ × ℤ × ℤ) (typed : List Typed) (w : World e.S)
    → Started e dumb theme keymap typed w (run_repl e dumb theme home keymap port sockets typed w)
unfolding run_repl terminal_repl make_repl form_prompt
run_repl-Started e true theme home keymap port sockets typed w = ((refl, refl), refl, refl)
run_repl-Started e false theme none keymap port sockets typed w = ((refl, refl), refl, refl)
run_repl-Started e false theme (some home) keymap port sockets typed w =
    by_keymap (load_keymap keymap initial) refl
  where
    by_keymap :
        (read : Keymap × Bool)
        → load_keymap keymap initial ≡ read
        → Started e false theme keymap typed w (
            start_loop e false theme port sockets typed w (
              with_keymap read (record (first_repl false) {
                history_path = some (home ++ codes "/.planck_history");
              })))
    by_keymap (k, true) h = ((refl, refl), refl, refl)
    by_keymap (k, false) h = (refl, h)
