-- ===== src/Repl/Process.antt =====
-- planck-c/repl.c: `process_line`, the loops that call it, and the data of a socket REPL.
use planck.Text.{str_has_suffix, tokens}
use planck.Prelude.{
  ℕ, zero, suc, ◌-◌, Bool, true, false, not, ◌&&◌, Option, none, some, List, [], ◌∷◌, ◌++◌, Bytes,
  codes, ◌==◌, ltb, if◌then◌else◌, length, take,
}
use planck.Repl.{
  Repl, empty_previous_lines, form_prompt, field_of, is_whitespace, is_exit_command, Engine,
  evaluated, newline, World, Processed, reading, leaving, exited, fault, no_fuel, Typed, line,
  interrupted, ended, accumulate, text_of, Served,
}

module _ (e : Engine) (config_dumb_terminal : Bool) (theme : Bytes) where
  abbrev pub theme_of : Repl → Bytes
  theme_of r = if r.session_id == 0 then theme else codes "dumb"

  -- The evaluation of one form, which does not end the process, or of the blank text.
  abbrev pub evaluate : Bytes → Repl → World e.S → World e.S
  evaluate front r w =
      if not (is_whitespace front)
      then record w {
        engine = e.evaluate_source front r.current_ns (theme_of r) r.session_id w.engine;
        log = w.log ++ evaluated front r.current_ns (theme_of r) ∷ [];
      }
      else record w { log = w.log ++ newline ∷ [] }

  abbrev pub refresh_prompt : Option Bytes → Repl → Repl
  refresh_prompt none r = r
  refresh_prompt (some ns) r =
      let r' : Repl = record r { current_ns = ns } in
      record r' { current_prompt = field_of (form_prompt config_dumb_terminal r' false) }

  -- Behind an evaluation, where the loop goes on.
  abbrev pub next_round : Bytes → Repl → World e.S → Repl
  next_round balance_text r w =
      refresh_prompt (e.get_current_ns w.engine)
        (empty_previous_lines (record r { input = some balance_text }))

  -- There is no form to read: the secondary prompt.
  abbrev pub read_more : Bytes → Repl → World e.S → Repl
  read_more input r w =
      let r' : Repl = record r {
        input = some input;
        indent_space_count = elim (r.history_path) [
          | none ↦ r.indent_space_count
          | some h ↦
              if e.is_pasting w.engine
              then r.indent_space_count
              else e.indent_space_count input w.engine
        ];
      } in
      record r' { current_prompt = field_of (form_prompt config_dumb_terminal r' true) }

  -- One round, with what `is_readable` returns. Where an evaluation sets the exit value, the
  -- input is freed; `none` stands for it.
  abbrev pub after_evaluation :
      Bytes → Bytes → Repl → World e.S → (Bytes → Repl → World e.S → Processed e.S) → Processed e.S
  after_evaluation front balance_text r w loop =
      let again = loop balance_text (next_round balance_text r w) w in
      if not (is_whitespace front) && not (e.exit_value w.engine == 0)
      then leaving (record r { input = none }) w
      else if is_whitespace balance_text
      then reading (record (next_round balance_text r w) { input = none }) w
      else again

  abbrev pub one_round :
      Option Bytes
      → Bytes
      → Repl
      → World e.S
      → (Bytes → Repl → World e.S → Processed e.S)
      → Processed e.S
  one_round none input r w loop = reading (read_more input r w) w
  one_round (some balance_text) input r w loop =
      let front = take (length input - length balance_text) input in
      let evaluated_all = after_evaluation front balance_text r (evaluate front r w) loop in
      if ltb (length input) (length balance_text)
      then fault
      else if not (is_whitespace front) && e.ends_process front w.engine
      then exited
      else evaluated_all

  unfoldable pub eval_loop : ℕ → Bytes → Repl → World e.S → Processed e.S
  eval_loop zero input r w = no_fuel
  eval_loop (suc fuel) input r w =
      one_round (e.is_readable input w.engine) input r w (eval_loop fuel)

  -- The lines that go to the history, where there is one.
  abbrev pub add_history : Bool → Bytes → Repl → World e.S → World e.S
  add_history split_on_newlines input_line r w = elim (r.history_path) [
    | none ↦ w
    | some path ↦ if is_whitespace (text_of r.input) then w else record w {
      history =
          w.history ++ (if split_on_newlines then tokens b'\n' input_line else input_line ∷ []);
    }
  ]

  unfoldable pub process_line : Bool → Bytes → Repl → World e.S → Processed e.S
  process_line split_on_newlines input_line r w =
      let r' = accumulate r input_line in
      let input = text_of r'.input in
      if is_exit_command input (not (r'.session_id == 0))
      then (if r'.session_id == 0 then exited else leaving r' w)
      else eval_loop (suc (length input)) input r' (add_history split_on_newlines input_line r' w)

  abbrev fresh_indent : Repl → Repl
  fresh_indent r = record r { indent_space_count = 0 }

  abbrev pub then_process : Processed e.S → (Repl → World e.S → Processed e.S) → Processed e.S
  then_process (reading r w) next = next r w
  then_process p next = p

  -- The tokens of one small input, up to the first that leaves the loop.
  unfoldable pub process_tokens : List Bytes → Repl → World e.S → Processed e.S
  process_tokens [] r w = reading r w
  process_tokens (t ∷ ts) r w =
      then_process (process_line false t (fresh_indent r) w) (process_tokens ts)

  abbrev pub is_null : Option Bytes → Bool
  is_null none = true
  is_null (some t) = false

  unfoldable pub process_input : Bytes → Repl → World e.S → Processed e.S
  process_input input_line r w =
      if not (is_null r.input) && length input_line == 0
      then process_line false input_line (fresh_indent r) w
      else if ltb (length input_line) 16384
      then process_tokens (tokens b'\n' input_line) r w
      else process_line true input_line (fresh_indent r) w

  -- Ctrl-C. (The newline that is printed here is no evaluation.)
  abbrev pub reset : Repl → Repl
  reset r =
      let r' = empty_previous_lines (record r { input = none; indent_space_count = 0 }) in
      record r' { current_prompt = field_of (form_prompt config_dumb_terminal r' false) }

  -- The loop, on the successive results of `linenoise`, or of `get_input` for a dumb terminal,
  -- which knows no EAGAIN. It is left where there are no more.
  unfoldable pub run_cmdline_loop : List Typed → Repl → World e.S → Processed e.S
  run_cmdline_loop [] r w = leaving r w
  run_cmdline_loop (line input_line ∷ more) r w =
      then_process (process_input input_line r w) (run_cmdline_loop more)
  run_cmdline_loop (interrupted ∷ more) r w =
      let rest = run_cmdline_loop more (reset r) w in
      if config_dumb_terminal then leaving r w else rest
  run_cmdline_loop (ended ∷ more) r w = leaving r w

  -- `write` is the result of `write_to_socket`; the process may end as well.
  abbrev pub send_prompt : (Bytes → ℕ) → Option Bytes → Repl → World e.S → Served e.S
  send_prompt write none r w = record { repl = r; world = w; sent = none; err = 0; close = false }
  send_prompt write (some p) r w = record {
    repl = r;
    world = w;
    sent = some p;
    err = write p;
    close = false;
  }

  abbrev pub reply : (Bytes → ℕ) → Processed e.S → Option (Served e.S)
  reply write (reading r w) = some (send_prompt write r.current_prompt r w)
  reply write (leaving r w) =
      some (record { repl = r; world = w; sent = none; err = 0; close = true })
  reply write _ = none

  -- The data without a line end.
  abbrev pub chomp : Bytes → Bytes
  chomp text = if str_has_suffix text (codes "\r\n") then take (length text - 2) text else text

  unfoldable pub socket_repl_data_arrived :
      (Bytes → ℕ) → Option Bytes → Repl → World e.S → Option (Served e.S)
  socket_repl_data_arrived write none r w =
      some (record { repl = r; world = w; sent = none; err = 0; close = true })
  socket_repl_data_arrived write (some text) r w = reply write (process_line false (chomp text) r w)
